-- ===== src/Bytecode.antt =====
-- bytecode.go: the compiler from a `NodeStream` to a flat program. `Run` is the executor, `Inst`
-- the packing of an instruction.
pub mod Inst
pub mod Compiled
pub mod Nodes
pub mod Run
pub mod Static
pub mod Output
use nanite_render.Prelude.{
  ℕ, zero, suc, ◌+◌, ◌-◌, ◌*◌, Bool, true, false, ◌&&◌, not, Option, none, some, ◌>>=◌, List, [],
  ◌∷◌, ◌++◌, ◌==◌, if◌then◌else◌, length, get_elem?, put, Bytes, codes, text_eq, uint32, ℤ, pos,
  negsuc,
}
use nanite_render.Escape.{escape_append}
use nanite_render.NodeStream.{
  Value, stringify, NodeStream, has, flag_void, flag_self_closing, flag_component, flag_fragment,
  flag_raw, flag_text, text, num_attr, attr_key, attr_val, first_child_of, next_sibling_of,
}
use nanite_render.Bytecode.Inst.{inst}

pub record Bytecode : Type 0 where
  pub code : List ℕ
  pub static : Bytes
  pub comps : List Bytes
  pub st_start : ℕ
  pub st_len : ℕ

abbrev pub op_static : ℕ
op_static = 0

abbrev pub op_component : ℕ
op_component = 1

abbrev pub op_slot_begin : ℕ
op_slot_begin = 2

abbrev pub op_slot_end : ℕ
op_slot_end = 3

abbrev pub empty : Bytecode
empty = record { code = []; static = []; comps = []; st_start = 0; st_len = 0 }

-- The first index of a name from `k` on.
unfoldable pub index_from : ℕ → Bytes → List Bytes → Option ℕ
index_from k name [] = none
index_from k name (c ∷ cs) = if text_eq c name then some k else index_from (k + 1) name cs

unfoldable pub add_comp : Bytes → Bytecode → ℕ × Bytecode
add_comp name bc = elim (index_from 0 name bc.comps) [
  | some k ↦ (uint32 k, bc)
  | none ↦ (uint32 (length bc.comps), record bc { comps = bc.comps ++ name ∷ [] })
]

unfoldable pub append_static : Bytes → Bytecode → Bytecode
append_static [] bc = bc
append_static (c ∷ b) bc = record bc {
  static = bc.static ++ c ∷ b;
  st_len = uint32 (bc.st_len + uint32 (length (c ∷ b)));
}

-- `before := len(bc.static)`, an extension of `bc.static`, and
-- `bc.stLen += uint32(len(bc.static) - before)`
unfoldable pub counted : Bytes → Bytecode → Bytecode
counted s bc = record bc {
  static = s;
  st_len = uint32 (bc.st_len + uint32 (length s - length bc.static));
}

unfoldable pub flush_static : Bytecode → Bytecode
flush_static bc = if bc.st_len == 0 then bc else record bc {
  code = bc.code ++ inst op_static bc.st_start bc.st_len ∷ [];
  st_start = uint32 (bc.st_start + bc.st_len);
  st_len = 0;
}

unfoldable pub dynamic : ℕ → ℕ → ℕ → Bytecode → Bytecode
dynamic op a b bc = let bc' = flush_static bc in record bc' { code = bc'.code ++ inst op a b ∷ [] }

-- `="…"` behind `dst`, unless the value is nil
unfoldable pub append_value : Value → Bytes → Bytes
append_value Value.nil dst = dst
append_value v dst = escape_append (dst ++ codes "=\"") (stringify v) ++ codes "\""

-- The loop over the attributes of node `i` from the `k`-th on, with `left` to go.
unfoldable pub append_attrs : NodeStream → ℕ → ℕ → ℕ → Bytes → Option Bytes
append_attrs nodes i zero k dst = some dst
append_attrs nodes i (suc left) k dst = do
  key ← attr_key nodes i k
  v ← attr_val nodes i k
  append_attrs nodes i left (k + 1) (append_value v ((dst ++ codes " ") ++ key))

unfoldable pub append_open_tag : NodeStream → Bytes → ℕ → Bool → Bytecode → Option Bytecode
append_open_tag nodes tag i self bc = do
  n ← num_attr nodes i
  s ← append_attrs nodes i n 0 ((bc.static ++ codes "<") ++ tag)
  some (counted (s ++ (if self then codes "/>" else codes ">")) bc)

unfoldable pub append_close_tag : Bytes → Bytecode → Bytecode
append_close_tag tag bc = counted (((bc.static ++ codes "</") ++ tag) ++ codes ">") bc

unfoldable pub emit_text : NodeStream → ℕ → ℕ → Bytecode → Option Bytecode
emit_text nodes flags i bc = do
  txt ← text nodes i
  elim txt [
    | [] ↦ some bc
    | c ∷ s ↦ some (
        if has flags flag_raw
        then append_static (c ∷ s) bc
        else counted (escape_append bc.static (c ∷ s)) bc)
  ]

-- `bc.code[start] = inst(opComponent, ci, uint32(len(bc.code)))`
unfoldable pub backpatch : ℕ → ℕ → Bytecode → Option Bytecode
backpatch start ci bc = do
  code ← put bc.code start (inst op_component ci (uint32 (length bc.code)))
  some (record bc { code = code })

-- Go's recursion, and its loops over sibling links, on fuel.
unfoldable mutual
  pub emit : ℕ → NodeStream → ℕ → Bytecode → Option Bytecode
  emit zero nodes i bc = none
  emit (suc fuel) nodes i bc = do
    flags ← get_elem? nodes.flags i
    elim (has flags flag_text) [
      | true ↦ emit_text nodes flags i bc
      | false ↦ elim (has flags flag_component) [
        | true ↦ do
          name ← get_elem? nodes.component_name i
          let (ci, named) = add_comp name bc in
              let begun = dynamic op_component ci 0 named in
              first_child_of nodes i >>= (λ c. emit_children fuel nodes c begun) >>= λ bc'.
              backpatch (length begun.code - 1) ci (flush_static bc')
        | false ↦ do
          tag ← get_elem? nodes.tag i
          elim (has flags (flag_void + flag_self_closing)) [
            | true ↦ append_open_tag nodes tag i true bc
            | false ↦ elim (has flags flag_fragment) [
              | true ↦ first_child_of nodes i >>= λ c. emit_children fuel nodes c bc
              | false ↦ do
                bc' ← append_open_tag nodes tag i false bc
                bc'' ← first_child_of nodes i >>= λ c. emit_children fuel nodes c bc'
                some (append_close_tag tag bc'')
            ]
          ]
      ]
    ]

  -- from child `c` on
  pub emit_children : ℕ → NodeStream → ℤ → Bytecode → Option Bytecode
  emit_children zero nodes c bc = none
  emit_children (suc fuel) nodes (negsuc zero) bc = some bc
  emit_children (suc fuel) nodes (negsuc (suc n)) bc = none
  emit_children (suc fuel) nodes (pos c) bc = do
    name ← get_elem? nodes.component_name c
    flags ← (elim name [ [] ↦ some 0 | _ ∷ _ ↦ get_elem? nodes.flags c ])
    elim (not (text_eq name []) && not (has flags flag_component)) [
      | true ↦ do
        gc ← first_child_of nodes c
        bc' ←
            let (si, named) = add_comp name bc in
            emit_each fuel nodes gc (dynamic op_slot_begin si 0 named)
        next ← next_sibling_of nodes c
        emit_children fuel nodes next (dynamic op_slot_end 0 0 bc')
      | false ↦ do
        bc' ← emit fuel nodes c bc
        next ← next_sibling_of nodes c
        emit_children fuel nodes next bc'
    ]

  -- the children of a slot from `gc` on
  pub emit_each : ℕ → NodeStream → ℤ → Bytecode → Option Bytecode
  emit_each zero nodes gc bc = none
  emit_each (suc fuel) nodes (negsuc zero) bc = some bc
  emit_each (suc fuel) nodes (negsuc (suc n)) bc = none
  emit_each (suc fuel) nodes (pos gc) bc = do
    bc' ← emit fuel nodes gc bc
    next ← next_sibling_of nodes gc
    emit_each fuel nodes next bc'

unfoldable pub compile_bytecode : NodeStream → Option Bytecode
compile_bytecode nodes =
    (if nodes.count == 0 then some empty else emit (2 * nodes.count + 2) nodes 0 empty) >>= λ bc.
    some (flush_static bc)
