-- ===== src/Execute.antt =====
-- execute.go: the tree executor, which walks a `NodeStream` by its sibling links. An index panic
-- of Go is `panic`, and so is the end of the fuel, which stands for the goroutine's stack.
pub mod Spec
pub mod Laws
pub mod Reads
pub mod Total
use nanite_render.Prelude.{
  ℕ, zero, suc, ◌+◌, ◌*◌, Bool, true, false, ◌||◌, Option, none, some, List, [], ◌∷◌, ◌++◌, leb,
  ◌==◌, if◌then◌else◌, length, get_elem?, Bytes, codes, ℤ, pos, negsuc,
}
use nanite_render.Writer.{Error, Io, ok, fail, panic, ◌>>=◌, ByteWriter}
use nanite_render.Escape.{escape_string, escape_bytes}
use nanite_render.NodeStream.{
  Value, stringify, NodeStream, has, flag_void, flag_self_closing, flag_component, flag_fragment,
  flag_raw, flag_text, text, num_attr, attr_key, attr_val, first_child_of, next_sibling_of,
}

-- `bufferByteWriter` of suspense.go: it writes to a `bytes.Buffer`, which does not fail.
abbrev pub buffer : ByteWriter Bytes
buffer = record {
  write = λ p w. ok (w ++ p);
  write_string = λ p w. ok (w ++ p);
  write_byte = λ c w. ok (w ++ c ∷ []);
  flush = λ w. ok w;
}

-- a value read from a slice, or the index panic
abbrev pub reading {ℓ} : {A : Type ℓ} {W : Type 0} → Option A → (A → Io W) → Io W
reading none f = panic
reading (some a) f = f a

-- `_ = …`
abbrev pub ignoring : {W : Type 0} → Io W → Io W
ignoring (ok w) = ok w
ignoring (fail e w) = ok w
ignoring panic = panic

module _ {W : Type 0} (bw : ByteWriter W) (pooled : Bool) where
  -- `pooled`: the writer is a `*byteWriter`, in whose scratch space of 128 bytes the parts are
  -- joined to one write.
  unfoldable pub write_tag : Bytes → Bytes → Bytes → W → Io W
  write_tag pre tag post w =
      if pooled
      then (if leb (length pre + length tag + length post) 128
          then bw.write_string (pre ++ (tag ++ post)) w
          else bw.write_string pre w >>= bw.write_string tag >>= bw.write_string post)
      else bw.write_string pre w >>= bw.write_string tag >>= bw.write_string post

  -- `="…"`, unless the value is nil
  unfoldable pub emit_value : Value → W → Io W
  emit_value Value.nil w = ok w
  emit_value v w =
      bw.write_string (codes "=\"") w
      >>= bw.write_string (escape_string (stringify v))
      >>= bw.write_string (codes "\"")

  -- The loop over the attributes of node `i` from the `k`-th on, with `left` to go.
  unfoldable pub emit_attrs : NodeStream → ℕ → ℕ → ℕ → W → Io W
  emit_attrs nodes i zero k w = ok w
  emit_attrs nodes i (suc left) k w = reading (attr_key nodes i k) λ key.
      (bw.write_string (codes " ") w >>= bw.write_string key) >>= λ w'.
      reading (attr_val nodes i k) λ v. emit_value v w' >>= emit_attrs nodes i left (k + 1)

  abbrev pub tag_end : Bool → Bytes
  tag_end self = if self then codes "/>" else codes ">"

  unfoldable pub emit_open : Bytes → NodeStream → ℕ → Bool → W → Io W
  emit_open tag nodes i self w = reading (num_attr nodes i) λ n.
      if n == 0
      then write_tag (codes "<") tag (tag_end self) w
      else bw.write_string (codes "<") w
        >>= bw.write_string tag
        >>= emit_attrs nodes i n 0
        >>= bw.write_string (tag_end self)

  unfoldable pub emit_text : NodeStream → ℕ → ℕ → W → Io W
  emit_text nodes flags i w = reading (text nodes i) λ txt. elim txt [
    | [] ↦ ok w
    | c ∷ s ↦
        if has flags flag_raw
        then ignoring (bw.write (c ∷ s) w)
        else ignoring (escape_bytes bw (c ∷ s) w)
  ]

  -- `component` is `emitComponent`, the dispatch of node `i`.
  module _ (component : NodeStream → ℕ → W → Io W) where
    unfoldable mutual
      -- `emitNode`
      pub emit_node : ℕ → NodeStream → ℕ → W → Io W
      emit_node zero nodes i w = panic
      emit_node (suc fuel) nodes i w = reading (get_elem? nodes.flags i) λ flags.
          elim (has flags flag_text) [
            | true ↦ emit_text nodes flags i w
            | false ↦ elim (has flags flag_component) [
              | true ↦ ignoring (component nodes i w)
              | false ↦ reading (get_elem? nodes.tag i) λ tag.
                  elim (has flags flag_void || has flags flag_self_closing) [
                    | true ↦ ignoring (emit_open tag nodes i true w)
                    | false ↦ elim (has flags flag_fragment) [
                      | true ↦ reading (first_child_of nodes i) λ c. walk_children fuel nodes c w
                      | false ↦
                          ignoring (emit_open tag nodes i false w)
                          >>= (λ w'.
                              reading (first_child_of nodes i) λ c. walk_children fuel nodes c w')
                          >>= λ w'. ignoring (write_tag (codes "</") tag (codes ">") w')
                    ]
                  ]
            ]
          ]

      -- `walkChildren` from child `c` on
      pub walk_children : ℕ → NodeStream → ℤ → W → Io W
      walk_children zero nodes c w = panic
      walk_children (suc fuel) nodes (negsuc zero) w = ok w
      walk_children (suc fuel) nodes (negsuc (suc n)) w = panic
      walk_children (suc fuel) nodes (pos c) w = emit_node fuel nodes c w >>= λ w'.
          reading (next_sibling_of nodes c) λ next. walk_children fuel nodes next w'

    -- `Execute` of a program without bytecode
    unfoldable pub execute : NodeStream → W → Io W
    execute nodes w = if nodes.count == 0 then ok w else emit_node (2 * nodes.count + 2) nodes 0 w
