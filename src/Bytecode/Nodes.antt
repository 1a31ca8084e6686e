-- ===== src/Bytecode/Nodes.antt =====
-- The compiler on nodes and on chains of siblings, against the text of a template.
use nanite_render.Prelude.{
  ℕ, zero, suc, ◌+◌, ◌≡◌, inl, inr, Bool, true, false, ◌||◌, Option, none, some, ◌>>=◌, [], ◌∷◌,
  ◌++◌, append_assoc, ◌∙◌, if◌then◌else◌, arith, Bool-cases, get_elem?, Bytes, codes, ℤ, pos,
  negsuc,
}
use nanite_render.Prelude.Bits.{bit_and_one, bit_and_two, bit_and_three}
use nanite_render.Escape.{escape_string, escape_append}
use nanite_render.Escape.Laws.{escape_append-escape_string}
use nanite_render.NodeStream.{
  NodeStream, has, flag_void, flag_self_closing, flag_component, flag_fragment, flag_raw, flag_text,
  text, num_attr, first_child_of, next_sibling_of,
}
use nanite_render.Execute.Spec.{attrs_html, open_html, text_html, node_html, children_html}
use nanite_render.Bytecode.{
  Bytecode, append_static, counted, append_open_tag, append_close_tag, emit_text, emit,
  emit_children,
}
use nanite_render.Bytecode.Compiled.{
  Extends, IsSmall, Extends-nil, Compiled, join_lem, read_lem, regroup, counted_lem,
  append_static_lem, append_attrs_lem,
}

-- One test of two flags is the two tests.
has_either :
    (f : ℕ) → has f (flag_void + flag_self_closing) ≡ (has f flag_void || has f flag_self_closing)
unfolding has
has_either f = rw (bit_and_three f, bit_and_two f, bit_and_one f) (ground arith)

tag_lem :
    (tag stop : Bytes) (attrs : Option Bytes) (bc : Bytecode)
    → Compiled (attrs >>= λ a. some (codes "<" ++ (tag ++ (a ++ stop)))) bc (
        (attrs >>= λ a. some (((bc.static ++ codes "<") ++ tag) ++ a)) >>= λ s.
        some (counted (s ++ stop) bc))
tag_lem tag stop none bc = tt
tag_lem tag stop (some a) bc = counted_lem _ _ bc (regroup bc.static (codes "<") tag a stop)

append_open_tag_lem :
    (nodes : NodeStream) (tag : Bytes) (i : ℕ) (self : Bool) (bc : Bytecode)
    → Compiled
        (open_html nodes tag i (if self then codes "/>" else codes ">"))
        bc
        (append_open_tag nodes tag i self bc)
unfolding open_html append_open_tag
append_open_tag_lem nodes tag i self bc = read_lem (num_attr nodes i) _ _ bc λ n.
    rw (append_attrs_lem nodes i n 0 ((bc.static ++ codes "<") ++ tag))
      (tag_lem tag (if self then codes "/>" else codes ">") (attrs_html nodes i n 0) bc)

append_close_tag_lem :
    (tag : Bytes) (bc : Bytecode)
    → Extends (codes "</" ++ (tag ++ codes ">")) bc (append_close_tag tag bc)
unfolding append_close_tag
append_close_tag_lem tag bc = counted_lem _ _ bc (
    append_assoc (bc.static ++ codes "</") tag (codes ">")
    ∙ append_assoc bc.static (codes "</") (tag ++ codes ">"))

text_lem :
    (flags : ℕ) (txt : Bytes) (bc : Bytecode)
    → IsSmall bc
    → Compiled (some (if has flags flag_raw then txt else escape_string txt)) bc (elim txt [
      | [] ↦ some bc
      | c ∷ s ↦ some (
          if has flags flag_raw
          then append_static (c ∷ s) bc
          else counted (escape_append bc.static (c ∷ s)) bc)
    ])
unfolding escape_string
text_lem flags [] bc h = elim (Bool-cases (has flags flag_raw)) [
  | inl e ↦ rw e (Extends-nil bc h)
  | inr e ↦ rw e (Extends-nil bc h)
]
text_lem flags (c ∷ s) bc h = elim (Bool-cases (has flags flag_raw)) [
  | inl e ↦ rw e (append_static_lem (c ∷ s) bc h)
  | inr e ↦ rw e (counted_lem _ _ bc (escape_append-escape_string bc.static (c ∷ s)))
]

emit_text_lem :
    (nodes : NodeStream) (flags i : ℕ) (bc : Bytecode)
    → IsSmall bc
    → Compiled (text_html nodes flags i) bc (emit_text nodes flags i bc)
unfolding text_html emit_text
emit_text_lem nodes flags i bc h = read_lem (text nodes i) _ _ bc λ txt. text_lem flags txt bc h

wrap_lem :
    (o q : Option Bytes) (s : Bytes) (bc : Bytecode) (r : Option Bytecode)
    (f : Bytecode → Option Bytecode) (g : Bytecode → Bytecode)
    → Compiled o bc r
    → ((bc' : Bytecode) → IsSmall bc' → Compiled q bc' (f bc'))
    → ((bc' : Bytecode) → Extends s bc' (g bc'))
    → Compiled
        (o >>= λ a. q >>= λ b. some (a ++ (b ++ s)))
        bc
        (r >>= λ bc'. f bc' >>= λ bc''. some (g bc''))
wrap_lem none q s bc r f g h h' h'' = tt
wrap_lem (some a) none s bc r f g h h' h'' = tt
wrap_lem (some a) (some b) s bc r f g h h' h'' =
    join_lem (some a) (some (b ++ s)) bc r (λ bc'. f bc' >>= λ bc''. some (g bc'')) h
      (λ bc' v.
        join_lem (some b) (some s) bc' (f bc') (λ bc''. some (g bc'')) (h' bc' v)
          (λ bc'' _. h'' bc''))

chain_lem :
    (here : Option Bytes) (next : Option ℤ) (rest : ℤ → Option Bytes) (bc : Bytecode)
    (r : Option Bytecode) (f : ℤ → Bytecode → Option Bytecode)
    → Compiled here bc r
    → ((n : ℤ) (bc' : Bytecode) → IsSmall bc' → Compiled (rest n) bc' (f n bc'))
    → Compiled
        (here >>= λ a. next >>= λ n. rest n >>= λ b. some (a ++ b))
        bc
        (r >>= λ bc'. next >>= λ n. f n bc')
chain_lem none next rest bc r f h h' = tt
chain_lem (some a) none rest bc r f h h' = tt
chain_lem (some a) (some n) rest bc r f h h' = join_lem (some a) (rest n) bc r (f n) h (h' n)

named_lem :
    (name : Option Bytes) (plain : Option Bytes) (bc : Bytecode) (f : Bytes → Option Bytecode)
    → Compiled plain bc (f [])
    → Compiled (name >>= λ x. elim x [ _ ∷ _ ↦ none | [] ↦ plain ]) bc (name >>= f)
named_lem none plain bc f h = tt
named_lem (some (x ∷ s)) plain bc f h = tt
named_lem (some []) plain bc f h = h

module _ (nodes : NodeStream) where
  abbrev Node : ℕ → Type 0
  Node fuel =
      (i : ℕ) (bc : Bytecode)
      → IsSmall bc
      → Compiled (node_html fuel nodes i) bc (emit fuel nodes i bc)

  abbrev Children : ℕ → Type 0
  Children fuel =
      (c : ℤ) (bc : Bytecode)
      → IsSmall bc
      → Compiled (children_html fuel nodes c) bc (emit_children fuel nodes c bc)

  first_child_lem :
      (fuel i : ℕ) (bc : Bytecode)
      → Children fuel
      → IsSmall bc
      → Compiled
          (first_child_of nodes i >>= λ c. children_html fuel nodes c)
          bc
          (first_child_of nodes i >>= λ c. emit_children fuel nodes c bc)
  first_child_lem fuel i bc ih h = read_lem (first_child_of nodes i) _ _ bc λ c. ih c bc h

  one_subtree : (fuel : ℕ) → Children fuel → Node (suc fuel)
  unfolding node_html emit
  one_subtree fuel ih i bc h = read_lem (get_elem? nodes.flags i) _ _ bc λ flags.
      elim (Bool-cases (has flags flag_text)) [
        | inl e ↦ rw e (emit_text_lem nodes flags i bc h)
        | inr e ↦ elim (Bool-cases (has flags flag_component)) [
          | inl e' ↦ rw (e, e') tt
          | inr e' ↦
              rw (e, e', has_either flags)
                (read_lem (get_elem? nodes.tag i) _ _ bc λ tag.
                  elim (Bool-cases (has flags flag_void || has flags flag_self_closing)) [
                    | inl u ↦ rw u (append_open_tag_lem nodes tag i true bc)
                    | inr u ↦ elim (Bool-cases (has flags flag_fragment)) [
                      | inl u' ↦ rw (u, u') (first_child_lem fuel i bc ih h)
                      | inr u' ↦
                          rw (u, u')
                            (wrap_lem _ _ _ bc _ _ (append_close_tag tag)
                              (append_open_tag_lem nodes tag i false bc)
                              (λ bc' h'. first_child_lem fuel i bc' ih h')
                              (append_close_tag_lem tag))
                    ]
                  ])
        ]
      ]

  one_sibling : (fuel : ℕ) → Node fuel → Children fuel → Children (suc fuel)
  unfolding children_html emit_children
  one_sibling fuel node ih (negsuc zero) bc h = Extends-nil bc h
  one_sibling fuel node ih (negsuc (suc n)) bc h = tt
  one_sibling fuel node ih (pos c) bc h = named_lem (get_elem? nodes.component_name c) _ bc _ (
      chain_lem (node_html fuel nodes c) (next_sibling_of nodes c) (children_html fuel nodes) bc _
        (emit_children fuel nodes) (node c bc h) ih)

  both_lem : (fuel : ℕ) → Node fuel × Children fuel
  unfolding node_html children_html
  both_lem zero = (λ i bc h. tt, λ c bc h. tt)
  both_lem (suc fuel) =
      let (node, children) = both_lem fuel in
      (one_subtree fuel children, one_sibling fuel node children)

  pub emit_lem : (fuel : ℕ) → Node fuel
  emit_lem fuel = (both_lem fuel).0
