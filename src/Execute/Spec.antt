-- ===== src/Execute/Spec.antt =====
-- What a template without components and slots renders to, as a function from nodes to text.
-- `none` is a component, a slot, a read out of range, or too little fuel.
use nanite_render.Prelude.{
  ℕ, zero, suc, ◌+◌, ◌*◌, true, false, ◌||◌, Option, none, some, ◌>>=◌, [], ◌∷◌, ◌++◌, ◌==◌,
  if◌then◌else◌, get_elem?, Bytes, codes, ℤ, pos, negsuc,
}
use nanite_render.Escape.{escape_string}
use nanite_render.NodeStream.{
  Value, stringify, NodeStream, has, flag_void, flag_self_closing, flag_component, flag_fragment,
  flag_raw, flag_text, text, num_attr, attr_key, attr_val, first_child_of, next_sibling_of,
}

abbrev pub given : {A : Type 0} → Option A → (A → Option Bytes) → Option Bytes
given o f = o >>= f

unfoldable pub value_html : Value → Bytes
value_html Value.nil = []
value_html v = codes "=\"" ++ (escape_string (stringify v) ++ codes "\"")

unfoldable pub attrs_html : NodeStream → ℕ → ℕ → ℕ → Option Bytes
attrs_html nodes i zero k = some []
attrs_html nodes i (suc left) k = do
  key ← attr_key nodes i k
  v ← attr_val nodes i k
  rest ← attrs_html nodes i left (k + 1)
  some (codes " " ++ (key ++ (value_html v ++ rest)))

unfoldable pub open_html : NodeStream → Bytes → ℕ → Bytes → Option Bytes
open_html nodes tag i close = do
  n ← num_attr nodes i
  attrs ← attrs_html nodes i n 0
  some (codes "<" ++ (tag ++ (attrs ++ close)))

unfoldable pub text_html : NodeStream → ℕ → ℕ → Option Bytes
text_html nodes flags i = do
  txt ← text nodes i
  some (if has flags flag_raw then txt else escape_string txt)

unfoldable mutual
  pub node_html : ℕ → NodeStream → ℕ → Option Bytes
  node_html zero nodes i = none
  node_html (suc fuel) nodes i = do
    flags ← get_elem? nodes.flags i
    elim (has flags flag_text) [
      | true ↦ text_html nodes flags i
      | false ↦ elim (has flags flag_component) [
        | true ↦ none
        | false ↦ do
          tag ← get_elem? nodes.tag i
          elim (has flags flag_void || has flags flag_self_closing) [
            | true ↦ open_html nodes tag i (codes "/>")
            | false ↦ elim (has flags flag_fragment) [
              | true ↦ first_child_of nodes i >>= λ c. children_html fuel nodes c
              | false ↦ do
                start ← open_html nodes tag i (codes ">")
                inner ← first_child_of nodes i >>= λ c. children_html fuel nodes c
                some (start ++ (inner ++ (codes "</" ++ (tag ++ codes ">"))))
            ]
          ]
      ]
    ]

  pub children_html : ℕ → NodeStream → ℤ → Option Bytes
  children_html zero nodes c = none
  children_html (suc fuel) nodes (negsuc zero) = some []
  children_html (suc fuel) nodes (negsuc (suc n)) = none
  children_html (suc fuel) nodes (pos c) = do
    name ← get_elem? nodes.component_name c
    elim name [
      | x ∷ s ↦ none
      | [] ↦ do
        here ← node_html fuel nodes c
        next ← next_sibling_of nodes c
        rest ← children_html fuel nodes next
        some (here ++ rest)
    ]

-- The fuel is that of `Execute`: no path through a stream of `count` nodes is longer.
unfoldable pub document_html : NodeStream → Option Bytes
document_html nodes = if nodes.count == 0 then some [] else node_html (2 * nodes.count + 2) nodes 0
