-- ===== src/Cache/Remove.antt =====
-- Delete, and the empty table.
use nanite_render.Prelude.{
  ℕ, zero, suc, ◌+◌, ◌^◌, ◌≤◌, ◌<◌, ◌≡◌, ◌≢◌, refl, sym, ap, ◌∙◌, inl, inr, none, some, arith,
  replicate, length-replicate, ltb, Bool-cases, Bytes, if◌then◌else◌,
}
use nanite_render.Cache.{
  Cache, empty_slot, is_locked, position, delete_verdict, pass, delete_end, store_at, get_hash,
  delete_hash, get, delete, fnv_pair, missed, new_cache, next_power_of_two,
}
use nanite_render.Cache.Reach.{slot_at, loop_end, probe_stops, probe_exhausts}
use nanite_render.Cache.Laws.{ne_of_pass, delete_never_waits, IsValid, hash_in}
use nanite_render.Cache.Lookup.{position_lt, in_range, slot_in, open_in, get_none}
use nanite_render.Cache.Store.{store_at-IsValid, slot_at-store_self, slot_at-store_ne}
use nanite_render.Cache.Stored.{eq_cases, IsReachable}

module _ {P : Type 0} (h : ℕ) (nz : h ≢ 0) (c : Cache P) (v : IsValid c) where
  abbrev pub Removed : Type 0
  Removed = (c' : Cache P) × (delete_hash h c ≡ some c') × IsValid c' × (get_hash h c' ≡ missed c')

  -- the first rounds of the loop for `h` pass entries of other hashes, or empty slots
  abbrev Apart : ℕ → Type 0
  Apart m = (k : ℕ) → k < m → hash_in c h k ≢ h

  apart : (m : ℕ) → ((k : ℕ) → 0 ≤ k → k < m → delete_verdict h (slot_in h c v k) ≡ pass) → Apart m
  apart m passed k b = ne_of_pass h (slot_in h c v k) (open_in h c v k) (passed k (omega arith) b)

  -- the table with the slot of round `m` emptied
  abbrev cleared : ℕ → Cache P
  cleared m = let s = slot_in h c v m in store_at (position c.mask h m) 0 s.tag_bits none s c

  hash-cleared_self : (m : ℕ) → (slot_at (cleared m).slots (position c.mask h m)).hash ≡ 0
  hash-cleared_self m =
      let s = slot_in h c v m in
      ap (λ t. t.hash)
        (slot_at-store_self c v (position c.mask h m) (position_lt h c v m) 0 s.tag_bits none s)

  hash-cleared_ne :
      (m k : ℕ)
      → position c.mask h k ≢ position c.mask h m
      → hash_in (cleared m) h k ≡ hash_in c h k
  hash-cleared_ne m k d =
      let s = slot_in h c v m in
      ap (λ t. t.hash)
        (slot_at-store_ne c v (position c.mask h m) (position_lt h c v m) 0 s.tag_bits none s
          (position c.mask h k) d)

  gone :
      (m : ℕ)
      → Apart m
      → (k : ℕ) → ((i : ℕ) → i < k → hash_in (cleared m) h i ≢ 0)
      → hash_in (cleared m) h k ≢ h
  gone m before k clear q = elim (eq_cases (position c.mask h k) (position c.mask h m)) [
    | inl e ↦ nz (sym q ∙ ap (λ j. (slot_at (cleared m).slots j).hash) e ∙ hash-cleared_self m)
    | inr d ↦ elim (Bool-cases (ltb m k)) [
      | inl l ↦ clear m (ground arith) (hash-cleared_self m)
      | inr l ↦ elim (eq_cases k m) [
        | inl e ↦ d (ap (position c.mask h) e)
        | inr e ↦ before k (ground arith) (sym (hash-cleared_ne m k d) ∙ q)
      ]
    ]
  ]

  emptied : (m : ℕ) → m < c.capacity → Apart m → delete_hash h c ≡ some (cleared m) → Removed
  emptied m lt before e =
      let s = slot_in h c v m in
      let v' : IsValid (cleared m) =
        store_at-IsValid c v (position c.mask h m) (position_lt h c v m) 0 s.tag_bits none s
          (open_in h c v m) in
      (cleared m, e, v', get_none h (cleared m) v' (λ k b clear. gone m before k clear))

  pub deleted : Removed
  unfolding delete_hash
  deleted =
      elim (loop_end (delete_verdict h) c.slots c.mask h (in_range h c v)
        (λ i. delete_never_waits h (slot_in h c v i) (open_in h c v i)) c.capacity 0) [
          | inl (m, a, b, passed, stopped) ↦ emptied m (omega arith) (apart m passed) (
              ap (delete_end c) (
                probe_stops (delete_verdict h) c.slots c.mask h (in_range h c v) c.capacity 0 m a b
                  passed stopped))
          | inr passed ↦ (
            c,
            ap (delete_end c) (
                probe_exhausts (delete_verdict h) c.slots c.mask h (in_range h c v) c.capacity 0
                  passed),
            v,
            get_none h c v
                (λ k b clear. apart c.capacity (λ k' a b'. passed k' a (omega arith)) k b),
          )
        ]

-- On a valid table, Delete of a key whose hash is not 0 ends and leaves a valid one, in which Get
-- of the key misses, whether it was there or not.
pub get-delete :
    {P : Type 0} (engine name : Bytes) (c : Cache P)
    → IsValid c
    → fnv_pair engine name ≢ 0
    → (c' : Cache P) × (delete engine name c ≡ some c')
      × IsValid c'
      × (get engine name c' ≡ some (none, record c' { misses = c'.misses + 1 }))
unfolding delete get
get-delete engine name c v nz = deleted (fnv_pair engine name) nz c v

slot_at-replicate : (n j : ℕ) → slot_at (replicate n empty_slot) j ≡ empty_slot
slot_at-replicate zero j = refl
slot_at-replicate (suc n) zero = refl
slot_at-replicate (suc n) (suc j) = slot_at-replicate n j

-- the table that NewCache makes for a capacity that is rounded to `2 ^ k`
pub new_cache-IsValid :
    {P : Type 0} (wanted k : ℕ)
    → next_power_of_two (if ltb wanted 64 then 64 else wanted) ≡ 2 ^ k
    → 2 ^ k ≤ 2 ^ 62
    → IsValid (new_cache {P = P} wanted)
unfolding new_cache
new_cache-IsValid wanted k e small =
    let n = next_power_of_two (if ltb wanted 64 then 64 else wanted) in
    record {
      pow = (k, e);
      mask_eq = refl;
      small = omega (arith, e);
      slots_len = length-replicate n empty_slot;
      programs_len = length-replicate n none;
      unlocked = λ j b. ap is_locked (slot_at-replicate n j);
    }

pub new_cache-IsReachable : (P : Type 0) (wanted : ℕ) → IsReachable (new_cache {P = P} wanted)
unfolding new_cache
new_cache-IsReachable P wanted g i b gz e k lt z = gz (
    sym e
    ∙ ap (λ t. t.hash)
        (slot_at-replicate (next_power_of_two (if ltb wanted 64 then 64 else wanted)) _))
