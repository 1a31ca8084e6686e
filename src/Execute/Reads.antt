-- ===== src/Execute/Reads.antt =====
-- The reads that the executor makes on a finalised stream are in range, and links lead to higher
-- indices.
use mathlib.Core.Path.{subst}
use nanite_render.Prelude.{
  ℕ, zero, suc, ◌+◌, ◌-◌, ◌*◌, ◌/◌, ◌≤◌, ◌<◌, ◌≡◌, refl, ap, inl, inr, true, false, Option, none,
  some, ◌>>=◌, List, [], ◌∷◌, arith, length, leb, ◌==◌, get_elem?, get_elem?-lt, Bool-cases, ==_iff,
  Bytes, All, ℤ, pos, negsuc,
}
use nanite_render.NodeStream.{NodeStream, slice, text, num_attr, attr_key, attr_val, minus_one}
use nanite_render.NodeStream.WellFormed.{IsWellFormed, Ordered, Bounded, Spans}
use nanite_render.NodeStream.Links.{search, next_siblings}
use nanite_render.NodeStream.Links.Final.{later}
use nanite_render.Execute.Spec.{attrs_html, open_html, text_html}

-- A link is -1, or an index from `lo` up to `n`.
abbrev pub IsLink : ℕ → ℕ → ℤ → Type 0
IsLink lo n (pos j) = (lo ≤ j) × (j < n)
IsLink lo n (negsuc zero) = Unit
IsLink lo n (negsuc (suc _)) = ⊥

abbrev pub IsFound : ℕ → ℕ → ℕ → ℤ → Type 0
IsFound p k n z = IsLink (p + 1) n z × IsLink k n z

IsFound-later : (p k n n' : ℕ) (z : ℤ) → n ≡ n' → IsFound p (k + 1) n z → IsFound p k n' z
IsFound-later p k n n' (pos j) e h =
    ((omega (arith, h.0.0), omega (arith, h.0.1)), (omega (arith, h.1.0), omega (arith, h.1.1)))
IsFound-later p k n n' (negsuc zero) e h = h
IsFound-later p k n n' (negsuc (suc j)) e h = h

pub search-IsFound :
    (ps : List ℤ) (k p : ℕ) → Ordered k ps → IsFound p k (k + length ps) (search ps k p)
unfolding search
search-IsFound [] k p h = (tt, tt)
search-IsFound (negsuc j ∷ ps) k p h =
    IsFound-later p k ((k + 1) + length ps) (k + suc (length ps)) (search ps (k + 1) p)
      (omega arith) (search-IsFound ps (k + 1) p (later k ps h.1))
search-IsFound (pos q ∷ ps) k p h = elim (Bool-cases (q == p)) [
  | inl e ↦ rw e ((omega (arith, h.0, (==_iff q p).0 e), omega arith), (omega arith, omega arith))
  | inr e ↦ rw e (
      IsFound-later p k ((k + 1) + length ps) (k + suc (length ps)) (search ps (k + 1) p)
        (omega arith) (search-IsFound ps (k + 1) p (later k ps h.1)))
]

pub IsLink-cast : {lo lo' n n' : ℕ} (z : ℤ) → lo ≡ lo' → n ≡ n' → IsLink lo n z → IsLink lo' n' z
IsLink-cast (pos j) e e' h = (omega (arith, h.0), omega (arith, h.1))
IsLink-cast (negsuc zero) e e' h = h
IsLink-cast (negsuc (suc j)) e e' h = h

module _ {A : Type 0} where
  pub some-inj : (a b : A) → some a ≡ some b → a ≡ b
  some-inj a b h = ap (λ (o : Option A). elim o [ none ↦ a | some z ↦ z ]) h

  pub All-get :
      (P : A → Type 0) (xs : List A) (i : ℕ) (x : A) → All P xs → get_elem? xs i ≡ some x → P x
  All-get P [] i x h e = absurd cc
  All-get P (y ∷ xs) zero x h e = subst P (some-inj y x e) h.0
  All-get P (y ∷ xs) (suc i) x h e = All-get P xs i x h.1 e

pub next_siblings-IsLink :
    (ps : List ℤ) (k c : ℕ) (z : ℤ)
    → Ordered k ps
    → get_elem? (next_siblings ps k) c ≡ some z
    → IsLink (k + c + 1) (k + length ps) z
unfolding next_siblings
next_siblings-IsLink [] k c z h e = absurd cc
next_siblings-IsLink (pos p ∷ ps) k zero z h e = rw (← some-inj (search ps (k + 1) p) z e) (
    IsLink-cast (search ps (k + 1) p) (omega arith) (omega arith)
      (search-IsFound ps (k + 1) p (later k ps h.1)).1)
next_siblings-IsLink (negsuc j ∷ ps) k zero z h e = rw (← some-inj minus_one z e) tt
next_siblings-IsLink (pos p ∷ ps) k (suc c) z h e =
    IsLink-cast z (omega arith) (omega arith)
      (next_siblings-IsLink ps (k + 1) c z (later k ps h.1) e)
next_siblings-IsLink (negsuc j ∷ ps) k (suc c) z h e =
    IsLink-cast z (omega arith) (omega arith)
      (next_siblings-IsLink ps (k + 1) c z (later k ps h.1) e)

-- There is a value, and a text.
abbrev pub IsKnown {ℓ} : {A : Type ℓ} → Option A → Type 0
IsKnown none = ⊥
IsKnown (some a) = Unit

pub IsKnown-bind :
    {A B : Type 0} (o : Option A) (g : A → Option B)
    → IsKnown o
    → ((a : A) → o ≡ some a → IsKnown (g a))
    → IsKnown (o >>= g)
IsKnown-bind none g h h' = h
IsKnown-bind (some a) g h h' = h' a refl

pub IsKnown-get : {A : Type 0} (xs : List A) (i : ℕ) → i < length xs → IsKnown (get_elem? xs i)
IsKnown-get [] i h = elim h [ ]
IsKnown-get (x ∷ xs) zero h = tt
IsKnown-get (x ∷ xs) (suc i) h = IsKnown-get xs i (omega arith)

Bounded-get : (n : ℕ) (xs : List ℕ) (i x : ℕ) → Bounded n xs → get_elem? xs i ≡ some x → x ≤ n
Bounded-get n [] i x h e = absurd cc
Bounded-get n (y ∷ xs) zero x h e = subst (λ (z : ℕ). z ≤ n) (some-inj y x e) h.0
Bounded-get n (y ∷ xs) (suc i) x h e = Bounded-get n xs i x h.1 e

IsKnown-slice : (xs : Bytes) (lo hi : ℕ) → lo ≤ hi → hi ≤ length xs → IsKnown (slice xs lo hi)
unfolding slice
IsKnown-slice xs lo hi h h' =
    let e : leb lo hi ≡ true = ground arith in
    let e' : leb hi (length xs) ≡ true = ground arith in rw (e, e') tt

IsKnown-span :
    (n : ℕ) (buf : Bytes) (xs : List ℕ) (i : ℕ)
    → length buf ≡ n
    → Spans n xs
    → i + i < length xs
    → IsKnown (get_elem? xs (i + i) >>= λ lo. get_elem? xs (i + i + 1) >>= λ hi. slice buf lo hi)
IsKnown-span n buf [] i e h lt = elim lt [ ]
IsKnown-span n buf (lo ∷ []) i e h lt = absurd h
IsKnown-span n buf (lo ∷ hi ∷ xs) zero e h lt = IsKnown-slice buf lo hi h.0 (omega (arith, h.1))
IsKnown-span n buf (lo ∷ hi ∷ xs) (suc i) e h lt =
    let shift : suc i + suc i ≡ suc (suc (i + i)) = omega arith in
    let shift' : suc (suc (i + i)) + 1 ≡ suc (suc (i + i + 1)) = omega arith in
    rw (shift, shift') (IsKnown-span n buf xs i e h.2 (omega arith))

module _ (s : NodeStream) (wf : IsWellFormed s) where
  IsKnown-text : (i : ℕ) → i < s.count → IsKnown (text s i)
  unfolding text
  IsKnown-text i lt =
      let inside : leb (length s.text_off / 2) i ≡ false = ground (arith, wf.sized.text_off_len) in
      let twice : 2 * i ≡ i + i = omega arith in
      rw (inside, twice)
        (IsKnown-span (length s.text_buf) s.text_buf s.text_off i refl wf.spans
          (omega (arith, wf.sized.text_off_len)))

  IsKnown-num_attr : (i : ℕ) → i < s.count → IsKnown (num_attr s i)
  unfolding num_attr
  IsKnown-num_attr i lt =
      IsKnown-bind (get_elem? s.attr_end i) _
        (IsKnown-get s.attr_end i (omega (arith, wf.sized.attr_end_len)))
        λ stop _.
          IsKnown-bind (get_elem? s.attr_start i) _
            (IsKnown-get s.attr_start i (omega (arith, wf.sized.attr_start_len))) λ start _. tt

  -- the attributes from the `k`-th on, of a range from `start` on
  IsKnown-attrs :
      (i left k start : ℕ)
      → get_elem? s.attr_start i ≡ some start
      → start + k + left ≤ length s.attr_keys
      → IsKnown (attrs_html s i left k)
  unfolding attrs_html attr_key attr_val
  IsKnown-attrs i zero k start e fits = tt
  IsKnown-attrs i (suc left) k start e fits =
      let found : (x : Bytes) × (get_elem? s.attr_keys (start + k) ≡ some x) =
        get_elem?-lt s.attr_keys (start + k) (omega arith) in
      let found' = get_elem?-lt s.attr_vals (start + k) (omega (arith, wf.sized.attr_vals_len)) in
      rw (e, found.1, found'.1)
        (IsKnown-bind (attrs_html s i left (k + 1)) _
          (IsKnown-attrs i left (k + 1) start e (omega arith)) λ r _. tt)

  IsKnown-none : (i : ℕ) → IsKnown (attrs_html s i 0 0)
  unfolding attrs_html
  IsKnown-none i = tt

  pub IsKnown-open :
      (tag : Bytes) (i : ℕ) (stop : Bytes) → i < s.count → IsKnown (open_html s tag i stop)
  unfolding open_html num_attr
  IsKnown-open tag i stop lt =
      let (start, e) = get_elem?-lt s.attr_start i (omega (arith, wf.sized.attr_start_len)) in
      let (end_, e') = get_elem?-lt s.attr_end i (omega (arith, wf.sized.attr_end_len)) in
      let bound : end_ ≤ length s.attr_keys = Bounded-get _ s.attr_end i end_ wf.attr_ends e' in
      elim (Bool-cases (leb end_ start)) [
        | inl u ↦ rw (e', e, u) (IsKnown-bind (attrs_html s i 0 0) _ (IsKnown-none i) λ r _. tt)
        | inr u ↦
            rw (e', e, u)
              (IsKnown-bind (attrs_html s i (end_ - start) 0) _
                (IsKnown-attrs i (end_ - start) 0 start e (ground arith)) λ r _. tt)
      ]

  pub IsKnown-text_html : (flags i : ℕ) → i < s.count → IsKnown (text_html s flags i)
  unfolding text_html
  IsKnown-text_html flags i lt = IsKnown-bind (text s i) _ (IsKnown-text i lt) λ t _. tt
