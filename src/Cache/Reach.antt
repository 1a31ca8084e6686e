-- ===== src/Cache/Reach.antt =====
-- How the loop over a probe sequence ends.
use mathlib.Core.Path.{subst}
use nanite_render.Prelude.{
  ℕ, zero, suc, ◌+◌, ◌≤◌, ◌<◌, ◌≡◌, ◌≢◌, refl, ◌∙◌, ◌⊎◌, inl, inr, List, some, arith, length,
  get_elem?, get_or, get_elem?-get_or, ltb, Bool-cases,
}
use nanite_render.Cache.{
  CacheSlot, empty_slot, Verdict, pass, stop, spin, at, exhausted, position, probe,
}

abbrev pub slot_at : List CacheSlot → ℕ → CacheSlot
slot_at slots j = get_or slots j empty_slot

Verdict-cases : (r : Verdict) → (r ≡ stop) ⊎ (r ≡ pass) ⊎ (r ≡ spin)
Verdict-cases stop = inl refl
Verdict-cases pass = inr (inl refl)
Verdict-cases spin = inr (inr refl)

module _ (v : CacheSlot → Verdict) (slots : List CacheSlot) (mask h : ℕ)
    (in_range : (i : ℕ) → position mask h i < length slots) where
  -- the rounds from `i` to before `m` pass
  abbrev pub Passed : ℕ → ℕ → Type 0
  Passed i m = (k : ℕ) → i ≤ k → k < m → v (slot_at slots (position mask h k)) ≡ pass

  abbrev here : ℕ → CacheSlot
  here i = slot_at slots (position mask h i)

  reads : (i : ℕ) → get_elem? slots (position mask h i) ≡ some (here i)
  reads i = get_elem?-get_or slots (position mask h i) empty_slot (in_range i)

  probe_stop :
      (n i : ℕ)
      → v (here i) ≡ stop
      → probe v slots mask h (suc n) i ≡ at (position mask h i) (here i)
  unfolding probe
  probe_stop n i e = rw (reads i, probe, e) refl

  probe_next :
      (n i : ℕ)
      → v (here i) ≡ pass
      → probe v slots mask h (suc n) i ≡ probe v slots mask h n (i + 1)
  unfolding probe
  probe_next n i e = rw (reads i, probe, e) refl

  pub probe_stops :
      (n i m : ℕ)
      → i ≤ m
      → m < i + n
      → Passed i m
      → v (here m) ≡ stop
      → probe v slots mask h n i ≡ at (position mask h m) (here m)
  probe_stops zero i m le lt before stopped = absurd (omega arith)
  probe_stops (suc n) i m le lt before stopped = elim (Bool-cases (ltb i m)) [
    | inl e ↦
        let lt' : i < m = ground arith in
        probe_next n i (before i (omega arith) lt')
        ∙ probe_stops n (i + 1) m (omega arith) (omega arith) (λ k a b. before k (omega arith) b)
            stopped
    | inr e ↦
        let same : m ≡ i = ground arith in
        subst (λ t. probe v slots mask h (suc n) t ≡ at (position mask h m) (here m)) same
          (probe_stop n m stopped)
  ]

  pub probe_exhausts : (n i : ℕ) → Passed i (i + n) → probe v slots mask h n i ≡ exhausted
  unfolding probe
  probe_exhausts zero i passed = refl
  probe_exhausts (suc n) i passed =
      probe_next n i (passed i (omega arith) (omega arith))
      ∙ probe_exhausts n (i + 1) (λ k a b. passed k (omega arith) (omega arith))

  -- the first of the rounds from `i` that stops, if any does
  abbrev pub First : ℕ → ℕ → Type 0
  First n i =
      ((m : ℕ) × (i ≤ m) × (m < i + n) × Passed i m × (v (here m) ≡ stop)) ⊎ Passed i (i + n)

  pub loop_end : ((i : ℕ) → v (here i) ≢ spin) → (n i : ℕ) → First n i
  loop_end waits zero i = inr (λ k a b. absurd (omega arith))
  loop_end waits (suc n) i = elim (Verdict-cases (v (here i))) [
    | inl e ↦ inl (i, omega arith, omega arith, λ k a b. absurd (omega arith), e)
    | inr (inr e) ↦ absurd (waits i e)
    | inr (inl e) ↦ elim (loop_end waits n (i + 1)) [
      | inl (m, a, b, before, stopped) ↦
          inl (m, omega arith, omega arith, extended i m e before, stopped)
      | inr passed ↦
          inr (λ k a b. extended i (i + suc n) e (λ k' a' b'. passed k' a' (omega arith)) k a b)
    ]
  ]
    where
      extended : (i m : ℕ) → v (here i) ≡ pass → Passed (i + 1) m → Passed i m
      extended i m e rest k a b = elim (Bool-cases (ltb i k)) [
        | inl l ↦ rest k (ground arith) b
        | inr l ↦ let same : i ≡ k = ground arith in subst (λ t. v (here t) ≡ pass) same e
      ]
