-- ===== src/Cache/Lookup.antt =====
-- What Get answers on a table that is not locked.
use nanite_render.Prelude.{
  ℕ, ◌≤◌, ◌<◌, ◌≡◌, ◌≢◌, refl, sym, ap, ◌∙◌, ◌⊎◌, inl, inr, false, none, some, arith, length,
  get_elem?, get_elem?-get_or, ◌==◌, ==_iff, Bool-cases,
}
use nanite_render.Cache.{
  CacheSlot, Cache, pass, position, get_verdict, put_verdict, is_locked, loaded, missed, counted,
  get_end, get_hash,
}
use nanite_render.Cache.Position.{position-lt}
use nanite_render.Cache.Reach.{slot_at, probe_stops, probe_exhausts, loop_end}
use nanite_render.Cache.Laws.{
  Other-of_pass, free_of_stop, put_never_waits, put_verdict-Other, put_verdict-free,
  get_verdict_lem, IsValid, hash_in, Blocked, program_at,
}

module _ {P : Type 0} (h : ℕ) (c : Cache P) (v : IsValid c) where
  pub position_lt : (i : ℕ) → position c.mask h i < c.capacity
  position_lt i = position-lt c.capacity c.mask v.pow.0 h v.pow.1 v.mask_eq v.small i

  pub in_range : (i : ℕ) → position c.mask h i < length c.slots
  in_range i = omega (arith, position_lt i, v.slots_len)

  abbrev pub slot_in : ℕ → CacheSlot
  slot_in i = slot_at c.slots (position c.mask h i)

  pub open_in : (i : ℕ) → is_locked (slot_in i) ≡ false
  open_in i = v.unlocked (position c.mask h i) (position_lt i)

  pub others :
      (m : ℕ) → ((k : ℕ) → 0 ≤ k → k < m → put_verdict h (slot_in k) ≡ pass) → Blocked c h m
  others m passed k b = Other-of_pass h (slot_in k) (open_in k) (passed k (omega arith) b)

  passes : (m : ℕ) → Blocked c h m → (k : ℕ) → 0 ≤ k → k < m → get_verdict h (slot_in k) ≡ pass
  passes m blocked k a b =
      get_verdict_lem h (slot_in k) ∙ put_verdict-Other h (slot_in k) (open_in k) (blocked k b)

  get_stops :
      (m : ℕ)
      → m < c.capacity
      → Blocked c h m
      → (hash_in c h m ≡ 0) ⊎ (hash_in c h m ≡ h)
      → get_hash h c ≡ loaded (position c.mask h m) (slot_in m) c
  unfolding get_hash
  get_stops m lt blocked free = ap (get_end c) (
      probe_stops (get_verdict h) c.slots c.mask h in_range c.capacity 0 m (omega arith)
        (omega arith) (passes m blocked)
        (get_verdict_lem h (slot_in m) ∙ put_verdict-free h (slot_in m) (open_in m) free))

  pub get_found :
      (m : ℕ)
      → m < c.capacity
      → Blocked c h m
      → hash_in c h m ≡ h
      → h ≢ 0
      → get_hash h c ≡ counted (program_at c (position c.mask h m)) c
  unfolding loaded
  get_found m lt blocked e nz =
      let j = position c.mask h m in
      let there : get_elem? c.programs j ≡ some (program_at c j) =
        get_elem?-get_or c.programs j none (omega (arith, position_lt m, v.programs_len)) in
      get_stops m lt blocked (inr e) ∙ elim (Bool-cases (hash_in c h m == 0)) [
        | inl z ↦ absurd (nz (sym e ∙ (==_iff _ _).0 z))
        | inr z ↦ rw (z, there) refl
      ]

  pub get_empty :
      (m : ℕ) → m < c.capacity → Blocked c h m → hash_in c h m ≡ 0 → get_hash h c ≡ missed c
  unfolding loaded
  get_empty m lt blocked e = get_stops m lt blocked (inl e) ∙ rw ((==_iff _ _).1 e) refl

  pub get_exhausted : Blocked c h c.capacity → get_hash h c ≡ missed c
  unfolding get_hash
  get_exhausted blocked = ap (get_end c) (
      probe_exhausts (get_verdict h) c.slots c.mask h in_range c.capacity 0
        (λ k a b. passes c.capacity blocked k a (omega arith)))

  -- No entry of the hash stands before the first empty slot: a miss.
  pub get_none :
      ((k : ℕ) → k < c.capacity → ((i : ℕ) → i < k → hash_in c h i ≢ 0) → hash_in c h k ≢ h)
      → get_hash h c ≡ missed c
  get_none absent =
      elim (loop_end (put_verdict h) c.slots c.mask h in_range (λ i. put_never_waits h (slot_in i))
        c.capacity 0) [
          | inl (m, a, b, passed, stopped) ↦
              let blocked : Blocked c h m = others m passed in
              let lt : m < c.capacity = omega arith in
              elim (free_of_stop h (slot_in m) (open_in m) stopped) [
                | inl z ↦ get_empty m lt blocked z
                | inr e ↦ absurd (absent m lt (λ i below. (blocked i below).0) e)
              ]
          | inr passed ↦ get_exhausted (others c.capacity (λ k a b. passed k a (omega arith)))
        ]
