-- ===== src/Cache/Laws.antt =====
-- A table that is not locked: what its methods find and leave.
use nanite_render.Prelude.{
  ℕ, ◌-◌, ◌^◌, ◌≤◌, ◌<◌, ◌≡◌, ◌≢◌, refl, ◌⊎◌, inl, inr, false, Option, none, arith, length, get_or,
  ◌==◌, ==_iff, Bool-cases,
}
use nanite_render.Cache.{
  CacheSlot, Cache, pass, stop, spin, position, get_verdict, put_verdict, delete_verdict, is_locked,
}
use nanite_render.Cache.Reach.{slot_at}

-- a hash in the way of `h`
abbrev pub Other : ℕ → ℕ → Type 0
Other h x = (x ≢ 0) × (x ≢ h)

module _ (h : ℕ) (s : CacheSlot) (open_slot : is_locked s ≡ false) where
  pub put_verdict-Other : Other h s.hash → put_verdict h s ≡ pass
  unfolding put_verdict
  put_verdict-Other (a, b) = ground (arith, open_slot)

  pub put_verdict-free : (s.hash ≡ 0) ⊎ (s.hash ≡ h) → put_verdict h s ≡ stop
  unfolding put_verdict
  put_verdict-free d = ground (arith, open_slot)

  pub Other-of_pass : put_verdict h s ≡ pass → Other h s.hash
  unfolding put_verdict
  Other-of_pass e = (λ z. ground (arith, open_slot), λ z. ground (arith, open_slot))

  pub free_of_stop : put_verdict h s ≡ stop → (s.hash ≡ 0) ⊎ (s.hash ≡ h)
  unfolding put_verdict
  free_of_stop e = elim (Bool-cases (s.hash == 0)) [
    | inl z ↦ inl ((==_iff _ _).0 z)
    | inr z ↦ elim (Bool-cases (s.hash == h)) [
      | inl y ↦ inr ((==_iff _ _).0 y)
      | inr y ↦ absurd (ground (arith, open_slot))
    ]
  ]

  pub delete_verdict-other : s.hash ≢ h → delete_verdict h s ≡ pass
  unfolding delete_verdict
  delete_verdict-other d = ground (arith, open_slot)

  pub ne_of_pass : delete_verdict h s ≡ pass → s.hash ≢ h
  unfolding delete_verdict
  ne_of_pass e d = ground (arith, open_slot)

  pub eq_of_stop : delete_verdict h s ≡ stop → s.hash ≡ h
  unfolding delete_verdict
  eq_of_stop e = ground (arith, open_slot)

  pub delete_never_waits : delete_verdict h s ≢ spin
  unfolding delete_verdict
  delete_never_waits e = ground (arith, open_slot)

pub put_never_waits : (h : ℕ) (s : CacheSlot) → put_verdict h s ≢ spin
unfolding put_verdict
put_never_waits h s e = ground arith

pub get_verdict_lem : (h : ℕ) (s : CacheSlot) → get_verdict h s ≡ put_verdict h s
unfolding get_verdict put_verdict
get_verdict_lem h s = refl

module _ {P : Type 0} where
  pub record IsValid (c : Cache P) : Type 0 where
    pub pow : (k : ℕ) × (c.capacity ≡ 2 ^ k)
    pub mask_eq : c.mask ≡ c.capacity - 1
    pub small : c.capacity ≤ 2 ^ 62
    pub slots_len : length c.slots ≡ c.capacity
    pub programs_len : length c.programs ≡ c.capacity
    pub unlocked : (j : ℕ) → j < c.capacity → is_locked (slot_at c.slots j) ≡ false

  -- the hash in the slot of round `i` of the loop for `h`
  abbrev pub hash_in : Cache P → ℕ → ℕ → ℕ
  hash_in c h i = (slot_at c.slots (position c.mask h i)).hash

  -- the first rounds of the loop for `h` pass other entries
  abbrev pub Blocked : Cache P → ℕ → ℕ → Type 0
  Blocked c h m = (k : ℕ) → k < m → Other h (hash_in c h k)

  -- the program of a slot
  abbrev pub program_at : Cache P → ℕ → Option P
  program_at c j = get_or c.programs j none
