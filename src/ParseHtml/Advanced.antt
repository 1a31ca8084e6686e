-- ===== src/ParseHtml/Advanced.antt =====
-- What a round of the parser does to its state: the open tags stay older than the next node.
use mathlib.Core.Path.{subst}
use nanite_render.Prelude.{
  ℕ, ◌+◌, ◌^◌, ◌≤◌, ◌<◌, ◌≡◌, inl, inr, Bool, true, false, not, ◌&&◌, Option, none, some, ◌>>=◌,
  List, [], ◌∷◌, if◌then◌else◌, Bool-cases, arith, length, Bytes,
}
use nanite_render.NodeStream.{NodeStream, is_void_tag}
use nanite_render.NodeStream.Builder.{
  next_id, set_component_name, AttrKv, set_attrs_each, append_text,
}
use nanite_render.NodeStream.WellFormed.{IsWellFormed}
use nanite_render.NodeStream.WellFormed.Operations.{
  Grown, Grown-trans, Grown-bind, append_node-Grown, set_parent-Grown, set_component_name-Grown,
  set_attrs_each-Grown, append_text-Grown,
}
use nanite_render.ParseHtml.Scan.{is_component_tag}
use nanite_render.ParseHtml.{State, set_top_parent, pop, tag_flags, place, open_tag, add_text}

-- Each open tag is an older node than `n`.
abbrev pub OpenBelow : ℕ → List ℕ → Type 0
OpenBelow n [] = Unit
OpenBelow n (top ∷ stack) = (top < n) × OpenBelow n stack

OpenBelow-mono : (n m : ℕ) (stack : List ℕ) → n ≤ m → OpenBelow n stack → OpenBelow m stack
OpenBelow-mono n m [] h b = tt
OpenBelow-mono n m (top ∷ stack) h b = (omega arith, OpenBelow-mono n m stack h b.1)

pub OpenBelow-pop : (n : ℕ) (stack : List ℕ) → OpenBelow n stack → OpenBelow n (pop stack)
unfolding pop
OpenBelow-pop n [] b = tt
OpenBelow-pop n (root ∷ []) b = b
OpenBelow-pop n (top ∷ below ∷ stack) b = b.1

set_top_parent-Grown :
    (id : ℕ) (stack : List ℕ) (b : NodeStream)
    → IsWellFormed b
    → id < b.count
    → OpenBelow id stack
    → Grown 0 0 b (set_top_parent id stack b)
unfolding set_top_parent
set_top_parent-Grown id [] b h lt below = (h, omega arith, omega arith)
set_top_parent-Grown id (top ∷ stack) b h lt below = set_parent-Grown id top b h lt below.0

pub record IsValid (st : State) : Type 0 where
  pub well_formed : IsWellFormed st.builder
  pub open_below : OpenBelow st.builder.count st.stack

-- No panic, and a valid state with at most one node and `n` bytes of text more.
abbrev pub Advanced : ℕ → State → Option State → Type 0
Advanced n st none = ⊥
Advanced n st (some st') =
    IsValid st'
    × (st'.builder.count ≤ st.builder.count + 1)
    × (length st'.builder.text_buf ≤ length st.builder.text_buf + n)

place-Grown :
    (id : ℕ) (tag : Bytes) (kvs : List AttrKv) (stack : List ℕ) (b : NodeStream)
    → IsWellFormed b
    → id < b.count
    → OpenBelow id stack
    → Grown 0 0 b (place id tag kvs stack b)
unfolding place
place-Grown id tag kvs stack b h lt below =
    Grown-bind 0 0 0 0 b _ (set_top_parent id stack)
      (Grown-bind 0 0 0 0 b _ (set_attrs_each id kvs) named
        (λ b' g. set_attrs_each-Grown id kvs b' g.0 (omega (arith, g.1))))
      (λ b' g. set_top_parent-Grown id stack b' g.0 (omega (arith, g.1)) below)
  where
    named : Grown 0 0 b (if is_component_tag tag then set_component_name id tag b else some b)
    named = elim (Bool-cases (is_component_tag tag)) [
      | inl e ↦ rw e (set_component_name-Grown id tag b h lt)
      | inr e ↦ rw e (h, omega arith, omega arith)
    ]

-- The state with a new stack on what the builder gives.
with_stack :
    (n : ℕ) (st : State) (stack : List ℕ) (r : Option NodeStream)
    → OpenBelow (st.builder.count + 1) stack
    → Grown 1 n st.builder r
    → Advanced n st (r >>= λ b. some (record { builder = b; stack = stack }))
with_stack n st stack none below g = g
with_stack n st stack (some b) below g = (
  record { well_formed = g.0; open_below = OpenBelow-mono _ _ stack (omega (arith, g.1)) below },
  omega (arith, g.1),
  omega (arith, g.2),
)

new_stack :
    (p : Bool) (st : State)
    → IsValid st
    → OpenBelow (st.builder.count + 1) (if p then next_id st.builder ∷ st.stack else st.stack)
new_stack true st v = (
  omega (arith, v.well_formed.sized.tag_len),
  OpenBelow-mono _ _ st.stack (omega arith) v.open_below,
)
new_stack false st v = OpenBelow-mono _ _ st.stack (omega arith) v.open_below

below_next : (st : State) → IsValid st → OpenBelow (next_id st.builder) st.stack
below_next st v =
    OpenBelow-mono _ _ st.stack (omega (arith, v.well_formed.sized.tag_len)) v.open_below

pub open_tag-Advanced :
    (tag : Bytes) (kvs : List AttrKv) (self : Bool) (st : State)
    → IsValid st
    → Advanced 0 st (open_tag tag kvs self st)
unfolding open_tag
open_tag-Advanced tag kvs self st v =
    let id = next_id st.builder in
    let g = append_node-Grown tag (tag_flags tag self) st.builder v.well_formed in
    with_stack 0 st _ _ (new_stack (not self && not (is_void_tag tag)) st v) (
      Grown-trans 1 0 0 0 st.builder _ _ g (
        place-Grown id tag kvs st.stack _ g.0 (omega (arith, g.1, v.well_formed.sized.tag_len))
          (below_next st v)))

pub add_text-Advanced :
    (txt : Bytes) (st : State)
    → IsValid st
    → length st.builder.text_buf + length txt < 2 ^ 32
    → Advanced (length txt) st (add_text txt st)
unfolding add_text
add_text-Advanced [] st v small = (v, omega arith, omega arith)
add_text-Advanced (c ∷ txt) st v small =
    let id = next_id st.builder in
    let e : length (c ∷ txt) + 0 ≡ length (c ∷ txt) = omega arith in
    with_stack (length (c ∷ txt)) st st.stack _ (new_stack false st v) (
      subst
        (λ n.
          Grown 1 n st.builder
            (append_text (c ∷ txt) false st.builder >>= set_top_parent id st.stack))
        e
        (Grown-bind 1 (length (c ∷ txt)) 0 0 st.builder _ (set_top_parent id st.stack)
          (append_text-Grown (c ∷ txt) false st.builder v.well_formed small)
          (λ b' g.
            set_top_parent-Grown id st.stack b' g.0
              (omega (arith, g.1, v.well_formed.sized.tag_len)) (below_next st v))))
