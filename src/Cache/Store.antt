-- ===== src/Cache/Store.antt =====
-- What Put leaves of a table that is not locked.
use nanite_render.Prelude.{
  ℕ, ◌+◌, ◌-◌, ◌%◌, ◌^◌, ◌<◌, ◌≡◌, ◌≢◌, refl, sym, ap, ◌∙◌, ◌⊎◌, inl, inr, Bool, true, false, not,
  ◌&&◌, Option, some, List, [], ◌∷◌, arith, length, get_elem?, get_elem?-get_or, length-set,
  get_or-set_self, get_or-set_ne, ltb, ◌==◌, ==_iff, if◌then◌else◌, Bool-cases,
}
use nanite_render.Cache.{
  CacheSlot, Cache, position, put_verdict, is_locked, empty_slot, written, store_at, oldest_from,
  evict_at, evict_lru, put_end, put_hash,
}
use nanite_render.Cache.Position.{position-onto}
use nanite_render.Cache.Reach.{slot_at, probe_stops, probe_exhausts, loop_end}
use nanite_render.Cache.Laws.{free_of_stop, put_never_waits, IsValid, hash_in, Blocked}
use nanite_render.Cache.Lookup.{position_lt, in_range, slot_in, open_in, others}

written-unlocked :
    (h t : ℕ) (s : CacheSlot) → is_locked s ≡ false → is_locked (written h t s) ≡ false
written-unlocked h t s o =
    let even : s.seq % 2 ≡ 0 = ground arith in
    let kept : (s.seq + 2) % 2 ^ 64 % 2 ≡ 0 = omega arith in rw kept refl

module _ {P : Type 0} (c : Cache P) (v : IsValid c) (j : ℕ) (lt : j < c.capacity) where
  -- the write leaves the other slots, and an even sequence number
  pub slot_at-store_self :
      (h t : ℕ) (p : Option P) (s : CacheSlot)
      → slot_at (store_at j h t p s c).slots j ≡ written h t s
  slot_at-store_self h t p s =
      get_or-set_self c.slots j (written h t s) empty_slot (omega (arith, v.slots_len))

  pub slot_at-store_ne :
      (h t : ℕ) (p : Option P) (s : CacheSlot) (i : ℕ)
      → i ≢ j
      → slot_at (store_at j h t p s c).slots i ≡ slot_at c.slots i
  slot_at-store_ne h t p s i d =
      get_or-set_ne c.slots j i (written h t s) empty_slot (λ e. d (sym e))

  pub store_at-IsValid :
      (h t : ℕ) (p : Option P) (s : CacheSlot)
      → is_locked s ≡ false
      → IsValid (store_at j h t p s c)
  store_at-IsValid h t p s o = record {
    pow = v.pow;
    mask_eq = v.mask_eq;
    small = v.small;
    slots_len = length-set c.slots j (written h t s) ∙ v.slots_len;
    programs_len = length-set c.programs j p ∙ v.programs_len;
    unlocked = λ i below. elim (Bool-cases (i == j)) [
      | inl e ↦
          let same : i ≡ j = (==_iff i j).0 e in
          let here : slot_at (store_at j h t p s c).slots i ≡ written h t s =
            ap (slot_at (store_at j h t p s c).slots) same ∙ slot_at-store_self h t p s in
          ap is_locked here ∙ written-unlocked h t s o
      | inr e ↦
          ap is_locked (slot_at-store_ne h t p s i (λ d. ground (arith, (==_iff i j).1 d)))
          ∙ v.unlocked i below
    ];
  }

oldest_from-lt :
    (slots : List CacheSlot) (i idx seq : ℕ)
    → idx < i + length slots
    → oldest_from slots i idx seq < i + length slots
unfolding oldest_from
oldest_from-lt [] i idx seq h = h
oldest_from-lt (s ∷ slots) i idx seq h =
    let older = not (is_locked s) && ltb s.seq seq in
    omega (
      arith,
      oldest_from-lt slots (i + 1) (if older then i else idx) (if older then s.seq else seq)
          (pick older),
    )
  where
    pick : (older : Bool) → (if older then i else idx) < i + 1 + length slots
    pick true = omega arith
    pick false = omega arith

module _ {P : Type 0} (h : ℕ) (p : P) (c : Cache P) (v : IsValid c) where
  -- the write of an entry into the slot of round `m`
  abbrev pub stored : ℕ → Cache P → Cache P
  stored m c' = let s = slot_in h c v m in store_at (position c.mask h m) h s.tag_bits (some p) s c'

  abbrev pub evicted : Cache P
  evicted = record c { evicts = c.evicts + 1 }

  -- Put writes into the first slot that is empty or has the hash, or, where the table is full of
  -- others, evicts the entry of some slot.
  abbrev pub PutInto : ℕ → Type 0
  PutInto m =
      (((hash_in c h m ≡ 0) ⊎ (hash_in c h m ≡ h)) × (put_hash h p c ≡ some (stored m c)))
      ⊎ (Blocked c h c.capacity × (put_hash h p c ≡ some (stored m evicted)))

  evict_at_lem :
      (m j : ℕ)
      → j < c.capacity
      → position c.mask h m ≡ j
      → evict_at h p c j (get_elem? c.slots j) ≡ some (stored m evicted)
  evict_at_lem m j lt e =
      ap (evict_at h p c j) (get_elem?-get_or c.slots j empty_slot (omega (arith, v.slots_len)))
      ∙ rw (v.unlocked j lt) (rw e refl)

  evict_lem :
      0 < c.capacity → (m : ℕ) × (m < c.capacity) × (evict_lru h p c ≡ some (stored m evicted))
  unfolding evict_lru
  evict_lem lt =
      let j = oldest_from c.slots 0 0 (2 ^ 63 - 1) in
      let below : j < c.capacity = omega (
        arith,
        oldest_from-lt c.slots 0 0 (2 ^ 63 - 1) (omega (arith, v.slots_len)),
        v.slots_len,
      ) in
      let (m, lt', e) =
        position-onto c.capacity c.mask v.pow.0 h v.pow.1 v.mask_eq v.small j below in
      (m, lt', evict_at_lem m j below e)

  pub put_lem : (m : ℕ) × (m < c.capacity) × Blocked c h m × PutInto m
  unfolding put_hash
  put_lem =
      elim (loop_end (put_verdict h) c.slots c.mask h (in_range h c v)
        (λ i. put_never_waits h (slot_in h c v i)) c.capacity 0) [
          | inl (m, a, b, passed, stopped) ↦ (
            m,
            omega arith,
            others h c v m passed,
            inl (
              free_of_stop h (slot_in h c v m) (open_in h c v m) stopped,
              ap (put_end h p c) (
                  probe_stops (put_verdict h) c.slots c.mask h (in_range h c v) c.capacity 0 m a b
                    passed stopped),
            ),
          )
          | inr passed ↦
              let full : Blocked c h c.capacity =
                others h c v c.capacity (λ k a b. passed k a (omega arith)) in
              let (m, lt, e) = evict_lem (omega (arith, position_lt h c v 0)) in
              (
                m,
                lt,
                λ k b. full k (omega arith),
                inr (
                  full,
                  ap (put_end h p c) (
                        probe_exhausts (put_verdict h) c.slots c.mask h (in_range h c v) c.capacity
                          0 passed)
                      ∙ e,
                ),
              )
        ]
