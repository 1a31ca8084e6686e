-- ===== src/NodeStream/WellFormed/Operations.antt =====
-- Every operation that the parser makes on the builder runs without a panic on a well-formed
-- stream, and leaves a well-formed one.
use nanite_render.Prelude.{
  ℕ, ◌+◌, ◌^◌, ◌≤◌, ◌<◌, ◌≡◌, refl, Bool, Option, none, some, List, [], ◌∷◌, ◌++◌, arith, length,
  length-append, length-set, Bytes, uint32, int32, codes, ◌>>=◌,
}
use nanite_render.NodeStream.{NodeStream, Value, minus_one}
use nanite_render.NodeStream.Builder.{
  empty, append_node, set_parent, set_component_name, set_attr_range, append_attrs, AttrKv,
  set_attrs_each, append_text, text_flags,
}
use nanite_render.NodeStream.WellFormed.{
  IsWellFormed, append_node-IsSized, Ordered-append, Ordered-set, Bounded-mono, Bounded-append,
  Bounded-set, Spans-mono, Spans-append, int32-Below, append_text_lem, set_parent_lem,
  set_component_name_lem, set_attr_range_lem,
}

pub empty-IsWellFormed : IsWellFormed empty
empty-IsWellFormed = omega arith

pub append_node-IsWellFormed :
    (t : Bytes) (f : ℕ) (b : NodeStream) → IsWellFormed b → IsWellFormed (append_node t f b)
unfolding append_node
append_node-IsWellFormed t f b h = record {
  sized = append_node-IsSized t f b h.sized;
  ordered = Ordered-append 0 b.parent minus_one h.ordered tt;
  attr_ends = Bounded-append (length b.attr_keys) b.attr_end 0 h.attr_ends (omega arith);
  spans = Spans-append (length b.text_buf) b.text_off 0 0 h.spans (omega arith) (omega arith);
}

-- No panic, and a well-formed stream with `k` nodes and `n` bytes of text more than before.
abbrev pub Grown : ℕ → ℕ → NodeStream → Option NodeStream → Type 0
Grown k n b none = ⊥
Grown k n b (some b') =
    IsWellFormed b' × (b'.count ≡ b.count + k) × (length b'.text_buf ≡ length b.text_buf + n)

pub append_node-Grown :
    (t : Bytes) (f : ℕ) (b : NodeStream) → IsWellFormed b → Grown 1 0 b (some (append_node t f b))
append_node-Grown t f b h = (
  append_node-IsWellFormed t f b h,
  unfold append_node in refl,
  unfold append_node in omega arith,
)

pub set_parent-Grown :
    (c p : ℕ) (b : NodeStream)
    → IsWellFormed b
    → c < b.count
    → p < c
    → Grown 0 0 b (set_parent c p b)
set_parent-Grown c p b h lt below = rw (set_parent_lem c p b h.sized lt) (
  record {
    sized = omega (arith, length-set b.parent c (int32 p));
    ordered = Ordered-set 0 b.parent c (int32 p) h.ordered (int32-Below p (0 + c) (omega arith));
    attr_ends = h.attr_ends;
    spans = h.spans;
  },
  omega arith,
  omega arith,
)

pub set_component_name-Grown :
    (i : ℕ) (n : Bytes) (b : NodeStream)
    → IsWellFormed b
    → i < b.count
    → Grown 0 0 b (set_component_name i n b)
set_component_name-Grown i n b h lt = rw (set_component_name_lem i n b h.sized lt) (
  record {
    sized = omega (arith, length-set b.component_name i n);
    ordered = h.ordered;
    attr_ends = h.attr_ends;
    spans = h.spans;
  },
  omega arith,
  omega arith,
)

pub Grown-trans :
    (k n k' n' : ℕ) (b b' : NodeStream) (r : Option NodeStream)
    → Grown k n b (some b')
    → Grown k' n' b' r
    → Grown (k + k') (n + n') b r
Grown-trans k n k' n' b b' none g g' = g'
Grown-trans k n k' n' b b' (some c) g g' =
    (g'.0, omega (arith, g.1, g'.1), omega (arith, g.2, g'.2))

-- The same over an operation that may panic.
pub Grown-bind :
    (k n k' n' : ℕ) (b : NodeStream) (r : Option NodeStream) (f : NodeStream → Option NodeStream)
    → Grown k n b r
    → ((b' : NodeStream) → Grown k n b (some b') → Grown k' n' b' (f b'))
    → Grown (k + k') (n + n') b (r >>= f)
Grown-bind k n k' n' b none f g next = g
Grown-bind k n k' n' b (some b') f g next = Grown-trans k n k' n' b b' (f b') g (next b' g)

uint32-le : (n : ℕ) → uint32 n ≤ n
uint32-le n = grind arith

set_attr_range-Grown :
    (i start : ℕ) (b : NodeStream)
    → IsWellFormed b
    → i < b.count
    → Grown 0 0 b (set_attr_range i start b)
set_attr_range-Grown i start b h lt = rw (set_attr_range_lem i start b h.sized lt) (
  record {
    sized = omega (
      arith,
      length-set b.attr_start i (uint32 start),
      length-set b.attr_end i (uint32 (length b.attr_keys)),
    );
    ordered = h.ordered;
    attr_ends =
        Bounded-set (length b.attr_keys) b.attr_end i (uint32 (length b.attr_keys)) h.attr_ends
          (uint32-le (length b.attr_keys));
    spans = h.spans;
  },
  omega arith,
  omega arith,
)

append_attrs-Grown :
    (kvs : List AttrKv) (b : NodeStream) → IsWellFormed b → Grown 0 0 b (some (append_attrs kvs b))
unfolding append_attrs
append_attrs-Grown [] b h = (h, omega arith, omega arith)
append_attrs-Grown (a ∷ kvs) b h = append_attrs-Grown kvs _ (record {
  sized =
      omega (
        arith,
        length-append b.attr_keys (a.k ∷ []),
        length-append b.attr_vals (Value.str a.v ∷ []),
      );
  ordered = h.ordered;
  attr_ends =
      Bounded-mono _ _ b.attr_end (omega (arith, length-append b.attr_keys (a.k ∷ []))) h.attr_ends;
  spans = h.spans;
})

pub set_attrs_each-Grown :
    (i : ℕ) (kvs : List AttrKv) (b : NodeStream)
    → IsWellFormed b
    → i < b.count
    → Grown 0 0 b (set_attrs_each i kvs b)
unfolding set_attrs_each
set_attrs_each-Grown i [] b h lt = (h, omega arith, omega arith)
set_attrs_each-Grown i (a ∷ kvs) b h lt =
    let g = append_attrs-Grown (a ∷ kvs) b h in
    Grown-trans 0 0 0 0 b (append_attrs (a ∷ kvs) b) _ g
      (set_attr_range-Grown i (length b.attr_keys) _ g.0 (omega (arith, g.1)))

pub append_text-Grown :
    (t : Bytes) (raw : Bool) (b : NodeStream)
    → IsWellFormed b
    → length b.text_buf + length t < 2 ^ 32
    → Grown 1 (length t) b (append_text t raw b)
unfolding append_node
append_text-Grown t raw b h small =
    let n = append_node-IsWellFormed (codes "#text") (text_flags raw) b h in
    let z = n.sized in
    let total = length-append b.text_buf t in
    rw (append_text_lem t raw b h.sized) (
      record {
        sized = record {
          tag_len = z.tag_len;
          flags_len = z.flags_len;
          ns_len = z.ns_len;
          child_start_len = z.child_start_len;
          child_end_len = z.child_end_len;
          attr_start_len = z.attr_start_len;
          attr_end_len = z.attr_end_len;
          text_off_len = omega (
            arith,
            length-append b.text_off
                (uint32 (length b.text_buf) ∷ uint32 (length (b.text_buf ++ t)) ∷ []),
          );
          parent_len = z.parent_len;
          first_child_len = z.first_child_len;
          next_sibling_len = z.next_sibling_len;
          component_name_len = z.component_name_len;
          attr_vals_len = z.attr_vals_len;
        };
        ordered = n.ordered;
        attr_ends = n.attr_ends;
        spans =
            Spans-append (length (b.text_buf ++ t)) b.text_off _ _
              (Spans-mono _ _ b.text_off (omega (arith, total)) h.spans) (omega (arith, total))
              (uint32-le _);
      },
      refl,
      total,
    )
