-- ===== src/Execute/Total.antt =====
-- Every finalised stream without components and slots has a text: all reads are in range, and the
-- fuel of `Execute` is enough, since the links only lead to higher indices.
use nanite_render.Prelude.{
  ℕ, zero, suc, ◌+◌, ◌*◌, ◌^◌, ◌≤◌, ◌<◌, ◌≡◌, refl, sym, ap, ◌∙◌, inl, inr, Bool, false, ◌||◌,
  Option, none, some, ◌>>=◌, [], arith, length, ◌==◌, get_elem?, get_elem?-lt, lt_of_get_elem?,
  Bool-cases, Bytes, codes, All, ℤ, pos, negsuc,
}
use nanite_render.NodeStream.{
  NodeStream, has, flag_void, flag_self_closing, flag_component, flag_fragment, flag_text,
  first_child_of, next_sibling_of,
}
use nanite_render.NodeStream.WellFormed.{IsWellFormed}
use nanite_render.NodeStream.Links.{child_spec, first_children}
use nanite_render.NodeStream.Links.Final.{
  length-first_children, get_elem?-first_children, length-next_siblings,
}
use nanite_render.NodeStream.Links.Finalize.{linked, finalize_children-linked}
use nanite_render.Execute.Spec.{open_html, node_html, children_html, document_html}
use nanite_render.Execute.Reads.{
  IsLink, IsLink-cast, search-IsFound, next_siblings-IsLink, IsKnown, IsKnown-bind, IsKnown-get,
  All-get, some-inj, IsKnown-open, IsKnown-text_html,
}
use nanite_render.NodeStream.Builder.{stream}
use nanite_render.Writer.{Io, ByteWriter, Appended, WriterLaws}
use nanite_render.Execute.{execute}
use nanite_render.Execute.Laws.{execute_lem}

-- No component, and no slot.
pub record IsPlain (s : NodeStream) : Type 0 where
  pub no_component : All (λ f. has f flag_component ≡ false) s.flags
  pub no_slot : All (λ n. n ≡ []) s.component_name

-- Links lead to higher indices.
record IsRising (s : NodeStream) : Type 0 where
  first_up : (i : ℕ) (z : ℤ) → get_elem? s.first_child i ≡ some z → IsLink (i + 1) s.count z
  next_up : (i : ℕ) (z : ℤ) → get_elem? s.next_sibling i ≡ some z → IsLink (i + 1) s.count z

module _ (s : NodeStream) (wf : IsWellFormed s) (plain : IsPlain s) (up : IsRising s) where
  abbrev Node : ℕ → Type 0
  Node fuel = (i : ℕ) → i < s.count → 2 * s.count ≤ fuel + 2 * i → IsKnown (node_html fuel s i)

  abbrev Children : ℕ → Type 0
  Children fuel =
      (c : ℤ) (lo : ℕ)
      → IsLink lo s.count c
      → 1 ≤ fuel
      → 2 * s.count + 1 ≤ fuel + 2 * lo
      → IsKnown (children_html fuel s c)

  IsKnown-first :
      (fuel i : ℕ)
      → Children fuel
      → i < s.count
      → 2 * s.count ≤ suc fuel + 2 * i
      → IsKnown (first_child_of s i >>= λ c. children_html fuel s c)
  unfolding first_child_of
  IsKnown-first fuel i ih lt enough =
      IsKnown-bind (get_elem? s.first_child i) _
        (IsKnown-get s.first_child i (omega (arith, wf.sized.first_child_len)))
        λ c e. ih c (i + 1) (up.first_up i c e) (omega arith) (omega arith)

  one_subtree : (fuel : ℕ) → Children fuel → Node (suc fuel)
  unfolding node_html
  one_subtree fuel ih i lt enough =
      IsKnown-bind (get_elem? s.flags i) _
        (IsKnown-get s.flags i (omega (arith, wf.sized.flags_len)))
        λ flags at. elim (Bool-cases (has flags flag_text)) [
          | inl e ↦ rw e (IsKnown-text_html s wf flags i lt)
          | inr e ↦
              rw
                (
                  e,
                  All-get (λ f. has f flag_component ≡ false) s.flags i flags plain.no_component at,
                )
                (IsKnown-bind (get_elem? s.tag i) _
                  (IsKnown-get s.tag i (omega (arith, wf.sized.tag_len)))
                  λ tag _. elim (Bool-cases (has flags flag_void || has flags flag_self_closing)) [
                    | inl u ↦ rw u (IsKnown-open s wf tag i (codes "/>") lt)
                    | inr u ↦ elim (Bool-cases (has flags flag_fragment)) [
                      | inl u' ↦ rw (u, u') (IsKnown-first fuel i ih lt enough)
                      | inr u' ↦
                          rw (u, u')
                            (IsKnown-bind (open_html s tag i (codes ">")) _
                              (IsKnown-open s wf tag i (codes ">") lt)
                              λ a _.
                                IsKnown-bind (first_child_of s i >>= λ c. children_html fuel s c) _
                                  (IsKnown-first fuel i ih lt enough) λ b _. tt)
                    ]
                  ])
        ]

  one_sibling : (fuel : ℕ) → Node fuel → Children fuel → Children (suc fuel)
  unfolding children_html next_sibling_of
  one_sibling fuel node ih (negsuc zero) lo link some_fuel enough = tt
  one_sibling fuel node ih (negsuc (suc k)) lo link some_fuel enough = link
  one_sibling fuel node ih (pos c) lo link some_fuel enough =
      let (name, e) =
        get_elem?-lt s.component_name c (omega (arith, link.1, wf.sized.component_name_len)) in
      let unnamed : name ≡ [] = All-get (λ n. n ≡ []) s.component_name c name plain.no_slot e in
      rw (e, unnamed)
        (IsKnown-bind (node_html fuel s c) _ (node c link.1 (omega (arith, link.0))) λ a _.
          IsKnown-bind (get_elem? s.next_sibling c) _
            (IsKnown-get s.next_sibling c (omega (arith, link.1, wf.sized.next_sibling_len)))
            λ n at.
              IsKnown-bind (children_html fuel s n) _
                (ih n (c + 1) (up.next_up c n at) (omega (arith, link.0, link.1))
                  (omega (arith, link.0)))
                λ b _. tt)

  both_lem : (fuel : ℕ) → Node fuel × Children fuel
  both_lem zero =
      (λ i lt enough. absurd (omega arith), λ c lo link some_fuel enough. absurd (omega arith))
  both_lem (suc fuel) =
      let (node, children) = both_lem fuel in
      (one_subtree fuel children, one_sibling fuel node children)

  IsKnown-document : IsKnown (document_html s)
  unfolding document_html
  IsKnown-document = elim (Bool-cases (s.count == 0)) [
    | inl e ↦ rw e tt
    | inr e ↦ rw e ((both_lem (2 * s.count + 2)).0 0 (ground arith) (omega arith))
  ]

linked-IsWellFormed : (s : NodeStream) → IsWellFormed s → IsWellFormed (linked s)
linked-IsWellFormed s wf = record {
  sized = record {
    tag_len = wf.sized.tag_len;
    flags_len = wf.sized.flags_len;
    ns_len = wf.sized.ns_len;
    child_start_len = wf.sized.child_start_len;
    child_end_len = wf.sized.child_end_len;
    attr_start_len = wf.sized.attr_start_len;
    attr_end_len = wf.sized.attr_end_len;
    text_off_len = wf.sized.text_off_len;
    parent_len = wf.sized.parent_len;
    first_child_len = length-first_children (length s.parent) 0 s.parent ∙ wf.sized.parent_len;
    next_sibling_len = length-next_siblings s.parent 0 ∙ wf.sized.parent_len;
    component_name_len = wf.sized.component_name_len;
    attr_vals_len = wf.sized.attr_vals_len;
  };
  ordered = wf.ordered;
  attr_ends = wf.attr_ends;
  spans = wf.spans;
}

linked-IsRising : (s : NodeStream) → IsWellFormed s → IsRising (linked s)
linked-IsRising s wf = record {
  first_up = λ i z e.
      let inside : i < length s.parent = omega (
        arith,
        lt_of_get_elem? (first_children (length s.parent) 0 s.parent) i e,
        length-first_children (length s.parent) 0 s.parent,
      ) in
      let plain : 0 + i ≡ i = omega arith in
      let same : child_spec s.parent i ≡ z = some-inj (child_spec s.parent i) z (
        ap (λ (n : ℕ). some (child_spec s.parent n)) (sym plain)
        ∙ sym (get_elem?-first_children (length s.parent) 0 i s.parent inside)
        ∙ e) in
      rw (← same) (
        IsLink-cast (child_spec s.parent i) refl (omega (arith, wf.sized.parent_len))
          (search-IsFound s.parent 0 i wf.ordered).0);
  next_up = λ i z e.
      IsLink-cast z (omega arith) (omega (arith, wf.sized.parent_len))
        (next_siblings-IsLink s.parent 0 i z wf.ordered e);
}

linked-IsPlain : (s : NodeStream) → IsPlain s → IsPlain (linked s)
linked-IsPlain s h = record { no_component = h.no_component; no_slot = h.no_slot }

text_of : (o : Option Bytes) → IsKnown o → (out : Bytes) × (o ≡ some out)
text_of none h = absurd h
text_of (some out) h = (out, refl)

module _ {W : Type 0} (bw : ByteWriter W) (laws : WriterLaws bw) (sure : ¬ laws.Fails)
    (pooled : Bool) (component : NodeStream → ℕ → W → Io W) where
  -- A well-formed builder of fewer than 2^31 nodes, none of them a component or a slot, is
  -- finalised without a panic, the result has a text, and on a writer that keeps its promise and
  -- never fails the tree executor ends within its fuel, without a panic, having appended exactly
  -- that text.
  pub stream-execute :
      (s : NodeStream) (w : W)
      → IsWellFormed s
      → s.count < 2 ^ 31
      → IsPlain s
      → laws.Valid w
      → (t : NodeStream) × (out : Bytes) × (stream s ≡ some t)
        × (document_html t ≡ some out)
        × Appended laws.Fails laws.Valid laws.contents out w (execute bw pooled component t w)
  unfolding stream
  stream-execute s w wf small plain v =
      let (out, e) = text_of (document_html (linked s)) (
        IsKnown-document (linked s) (linked-IsWellFormed s wf) (linked-IsPlain s plain)
          (linked-IsRising s wf)) in
      (
        linked s,
        out,
        finalize_children-linked s wf small,
        e,
        execute_lem bw laws sure pooled component (linked s) w out v e,
      )
