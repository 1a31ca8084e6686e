-- ===== src/NodeStream/Links/Finalize.antt =====
-- The links that `finalizeChildren` leaves, as lists.
use mathlib.Core.Path.{subst}
use nanite_render.Prelude.{
  ℕ, suc, ◌+◌, ◌-◌, ◌^◌, ◌<◌, ◌≡◌, refl, sym, ap, ◌∙◌, Option, none, some, List, [], ◌∷◌, arith,
  length, get_elem?, get_elem?-lt, drop, replicate, ◌==◌, ℤ, pos, negsuc, true, false,
}
use nanite_render.NodeStream.{NodeStream, minus_one}
use nanite_render.NodeStream.Builder.{link_from, finalize_children}
use nanite_render.NodeStream.WellFormed.{IsWellFormed, Ordered}
use nanite_render.NodeStream.Links.{search, child_spec, sibling_spec, first_children, next_siblings}
use nanite_render.NodeStream.Links.Pass.{FirstLink, NextLink, IsLinked}
use nanite_render.NodeStream.Links.Final.{
  Passed, Passed-round, loop_lem, fill_lem, start_lem, list_ext, length-first_children,
  get_elem?-first_children, length-next_siblings, get_elem?-next_siblings,
  get_elem?-next_siblings_root,
}

search-nil : (k p : ℕ) → search [] k p ≡ minus_one
unfolding search
search-nil k p = refl

first_of :
    (ps : List ℤ) (n p : ℕ) (fs last : List ℤ)
    → FirstLink ps [] n p fs last
    → get_elem? fs p ≡ some (child_spec ps p)
first_of ps n p fs last (FirstLink.unseen l f s) = f ∙ ap some (sym (s ∙ search-nil n p))
first_of ps n p fs last (FirstLink.seen c l lt o f) = f

next_of :
    (ps : List ℤ) (n c p : ℕ) (ns last : List ℤ)
    → NextLink ps [] n c p ns last
    → get_elem? ns c ≡ some (sibling_spec ps c p)
next_of ps n c p ns last (NextLink.latest l f s) = f ∙ ap some (sym (s ∙ search-nil n p))
next_of ps n c p ns last (NextLink.final l f) = f

module _ (ps fs ns last : List ℤ) (h : IsLinked ps [] (length ps) fs ns last) where
  all_first : fs ≡ first_children (length ps) 0 ps
  all_first =
      list_ext fs (first_children (length ps) 0 ps)
        (h.first_len ∙ sym (length-first_children (length ps) 0 ps))
        (λ i lt.
          let plain : i ≡ 0 + i = omega arith in
          first_of ps (length ps) i fs last (h.first i (omega (arith, h.first_len)))
          ∙ ap (λ (n : ℕ). some (child_spec ps n)) plain
          ∙ sym (get_elem?-first_children (length ps) 0 i ps (omega (arith, h.first_len))))

  next_at :
      (i : ℕ) (x : ℤ)
      → i < length ps
      → get_elem? ps i ≡ some x
      → get_elem? ns i ≡ get_elem? (next_siblings ps 0) i
  next_at i (pos p) lt own =
      let shift : i + 1 ≡ suc i = omega arith in
      let shift' : i + 1 ≡ 0 + suc i = omega arith in
      next_of ps (length ps) i p ns last (h.next i p lt own)
      ∙ ap (λ (n : ℕ). some (search (drop n ps) (i + 1) p)) shift
      ∙ ap (λ (n : ℕ). some (search (drop (suc i) ps) n p)) shift'
      ∙ sym (get_elem?-next_siblings ps 0 i p own)
  next_at i (negsuc k) lt own = h.roots i k own ∙ sym (get_elem?-next_siblings_root ps 0 i k own)

  all_next : ns ≡ next_siblings ps 0
  all_next =
      list_ext ns (next_siblings ps 0) (h.next_len ∙ sym (length-next_siblings ps 0)) (λ i lt.
        let (x, own) = get_elem?-lt ps i (omega (arith, h.next_len)) in
        next_at i x (omega (arith, h.next_len)) own)

-- the stream with the links of its parents
abbrev pub linked : NodeStream → NodeStream
linked s = record s {
  first_child = first_children (length s.parent) 0 s.parent;
  next_sibling = next_siblings s.parent 0;
}

Passed-linked : (s : NodeStream) (r : Option NodeStream) → Passed s r → r ≡ some (linked s)
Passed-linked s none h = absurd h
Passed-linked s (some s') (fs, ns, last, e, h) =
    let e1 : fs ≡ first_children (length s.parent) 0 s.parent = all_first s.parent fs ns last h in
    let e2 : ns ≡ next_siblings s.parent 0 = all_next s.parent fs ns last h in
    let e3 : record s { first_child = fs; next_sibling = ns } ≡ linked s =
      λ i. record s { first_child = e1 i; next_sibling = e2 i } in
    ap some (e ∙ e3)

-- `link_from` from node 1 on, with no links before it
abbrev pass : NodeStream → ℕ → ℕ → Option NodeStream
pass s left n =
    let r : List ℤ = replicate n minus_one in
    link_from left 1 r (record s { first_child = r; next_sibling = r })

pass-Passed :
    (k : ℕ) (rest : List ℤ) (s : NodeStream)
    → s.parent ≡ negsuc k ∷ rest
    → Ordered 0 s.parent
    → length s.parent < 2 ^ 31
    → Passed s (pass s (length rest) (suc (length rest)))
pass-Passed k rest s e ordered small =
    let r : List ℤ = replicate (suc (length rest)) minus_one in
    let ordered' : Ordered 0 (negsuc k ∷ rest) = subst (λ (ps : List ℤ). Ordered 0 ps) e ordered in
    let before : IsLinked s.parent rest 1 r r r =
      subst (λ (ps : List ℤ). IsLinked ps rest 1 r r r) (sym e) (start_lem k rest) in
    Passed-round s r r 1 _ (
      loop_lem rest 1 r (record s { first_child = r; next_sibling = r })
        (ap (λ (ps : List ℤ). drop 1 ps) (sym e)) (omega (arith, ap length e)) ordered'.1 small
        before)

finalize_children-pass :
    (s : NodeStream) (m : ℕ)
    → IsWellFormed s
    → s.count ≡ suc m
    → finalize_children s ≡ pass s m (suc m)
unfolding finalize_children
finalize_children-pass s m wf e =
    let nonzero : (s.count == 0) ≡ false = ground arith in
    let before : suc m - 1 ≡ m = omega arith in
    rw
      (
        nonzero,
        finalize_children,
        fill_lem s.count s.first_child wf.sized.first_child_len,
        fill_lem s.count s.next_sibling wf.sized.next_sibling_len,
      )
      (ap (λ (n : ℕ). pass s (n - 1) n) e ∙ ap (λ (n : ℕ). pass s n (suc m)) before)

nil_of_length : (xs : List ℤ) → length xs ≡ 0 → xs ≡ []
nil_of_length [] h = refl
nil_of_length (x ∷ xs) h = absurd (omega arith)

linked_empty :
    (s : NodeStream)
    → s.parent ≡ []
    → s.first_child ≡ []
    → s.next_sibling ≡ []
    → some s ≡ some (linked s)
unfolding first_children next_siblings
linked_empty s e e1 e2 =
    let fs : s.first_child ≡ first_children (length s.parent) 0 s.parent =
      e1 ∙ ap (λ (ps : List ℤ). first_children (length ps) 0 ps) (sym e) in
    let ns : s.next_sibling ≡ next_siblings s.parent 0 =
      e2 ∙ ap (λ (ps : List ℤ). next_siblings ps 0) (sym e) in
    λ i. some (record s { first_child = fs i; next_sibling = ns i })

linked_cases :
    (s : NodeStream) (ps : List ℤ)
    → s.parent ≡ ps
    → IsWellFormed s
    → s.count < 2 ^ 31
    → finalize_children s ≡ some (linked s)
unfolding finalize_children
linked_cases s [] e wf small =
    let none_yet : (s.count == 0) ≡ true = ground (arith, ap length e, wf.sized.parent_len) in
    rw (none_yet, finalize_children)
      (linked_empty s e
        (nil_of_length s.first_child
          (omega (arith, ap length e, wf.sized.parent_len, wf.sized.first_child_len)))
        (nil_of_length s.next_sibling
          (omega (arith, ap length e, wf.sized.parent_len, wf.sized.next_sibling_len))))
linked_cases s (pos p ∷ rest) e wf small =
    let ordered : Ordered 0 (pos p ∷ rest) = subst (λ (ps : List ℤ). Ordered 0 ps) e wf.ordered in
    absurd (omega (arith, ordered.0))
linked_cases s (negsuc k ∷ rest) e wf small =
    finalize_children-pass s (length rest) wf (omega (arith, ap length e, wf.sized.parent_len))
    ∙ Passed-linked s _ (pass-Passed k rest s e wf.ordered (omega (arith, wf.sized.parent_len)))

-- On a well-formed builder of fewer than 2^31 nodes the one forward pass of finalizeChildren does
-- not panic, and leaves as FirstChild of each node the first node with that parent and as
-- NextSibling of each node the first later node with the same parent, or -1, and all else as it
-- was.
pub finalize_children-linked :
    (s : NodeStream) → IsWellFormed s → s.count < 2 ^ 31 → finalize_children s ≡ some (linked s)
finalize_children-linked s wf small = linked_cases s s.parent refl wf small
