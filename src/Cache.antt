-- ===== src/Cache.antt =====
-- cache.go: the program cache, an open-addressing table. Each method runs alone here, so that no
-- compare-and-swap fails and no sequence number changes between two loads; a number left odd by a
-- writer that never ended is still skipped or waited for, as the code does. `P` is `*Program`.

pub mod Position
pub mod Reach
pub mod Laws
pub mod Lookup
pub mod Store
pub mod Stored
pub mod Answers
pub mod Remove
use Prim.Native.Nat.{bit_and, bit_or, bit_xor}
use nanite_render.Prelude.{
  ℕ, zero, suc, ◌+◌, ◌-◌, ◌*◌, ◌/◌, ◌%◌, ◌^◌, Bool, true, false, not, ◌&&◌, Option, none, some,
  ◌>>=◌, List, [], ◌∷◌, ltb, leb, ◌==◌, if◌then◌else◌, get_elem?, set, replicate, Bytes, codes,
}

abbrev pub uint64 : ℕ → ℕ
uint64 n = n % 2 ^ 64

pub record CacheSlot : Type 0 where
  pub seq : ℕ
  pub hash : ℕ
  pub tag_bits : ℕ

-- The memory behind the slots is left out, and with it Close and the tests for a closed cache.
pub record Cache (P : Type 0) : Type 0 where
  pub slots : List CacheSlot
  pub programs : List (Option P)
  pub mask : ℕ
  pub capacity : ℕ
  pub hits : ℕ
  pub misses : ℕ
  pub evicts : ℕ

abbrev pub fnv_prime : ℕ
fnv_prime = 1099511628211

fnv_from : ℕ → Bytes → ℕ
fnv_from h [] = h
fnv_from h (c ∷ s) = fnv_from (uint64 (bit_xor h c * fnv_prime)) s

unfoldable pub fnv1a64 : Bytes → ℕ
unfolding fnv_from
fnv1a64 s = fnv_from 14695981039346656037 s

unfoldable pub fnv_pair : Bytes → Bytes → ℕ
unfolding fnv1a64
fnv_pair engine name = uint64 (fnv1a64 engine * fnv_prime + fnv1a64 name)

unfoldable pub fnv_pair_variant : Bytes → Bytes → Bytes → ℕ
unfolding fnv_pair
fnv_pair_variant engine name [] = fnv_pair engine name
fnv_pair_variant engine name (c ∷ variant) =
    uint64 (fnv_pair engine name * fnv_prime + fnv1a64 (c ∷ variant))

smeared : ℕ → ℕ → ℕ
smeared n k = bit_or n (n / 2 ^ k)

unfoldable pub next_power_of_two : ℕ → ℕ
unfolding smeared
next_power_of_two n =
    if leb n 1
    then 1
    else smeared (smeared (smeared (smeared (smeared (smeared (n - 1) 1) 2) 4) 8) 16) 32 + 1

abbrev pub empty_slot : CacheSlot
empty_slot = record { seq = 0; hash = 0; tag_bits = 0 }

-- a write is in progress
abbrev pub is_locked : CacheSlot → Bool
is_locked s = s.seq % 2 == 1

-- What one round of a loop over the probe sequence decides.
pub data Verdict : Type 0 where
  pass : Verdict
  stop : Verdict
  spin : Verdict

-- How such a loop ends: at a slot, behind the last one, never, or by an index out of range.
pub data Probe : Type 0 where
  at : ℕ → CacheSlot → Probe
  exhausted : Probe
  endless : Probe
  panic : Probe

-- `(idx+i)&c.mask`
abbrev pub position : ℕ → ℕ → ℕ → ℕ
position mask h i = bit_and (uint64 (bit_and h mask + i)) mask

-- The loop `for i := uint64(0); i < uint64(c.capacity); i++`, with `n` rounds left.
unfoldable pub probe : (CacheSlot → Verdict) → List CacheSlot → ℕ → ℕ → ℕ → ℕ → Probe
probe verdict slots mask h zero i = exhausted
probe verdict slots mask h (suc n) i = elim (get_elem? slots (position mask h i)) [
  | none ↦ panic
  | some s ↦ elim (verdict s) [
    | pass ↦ probe verdict slots mask h n (i + 1)
    | stop ↦ at (position mask h i) s
    | spin ↦ endless
  ]
]

unfoldable pub get_verdict : ℕ → CacheSlot → Verdict
get_verdict h s =
    if is_locked s then pass else if s.hash == 0 then stop else if s.hash == h then stop else pass

unfoldable pub put_verdict : ℕ → CacheSlot → Verdict
put_verdict h s =
    if is_locked s then pass else if s.hash == 0 then stop else if s.hash == h then stop else pass

unfoldable pub delete_verdict : ℕ → CacheSlot → Verdict
delete_verdict h s = if is_locked s then spin else if s.hash == h then stop else pass

unfoldable pub tag_verdict : ℕ → CacheSlot → Verdict
tag_verdict h s = if is_locked s then pass else if s.hash == h then stop else pass

-- the slot after a write under its lock
abbrev pub written : ℕ → ℕ → CacheSlot → CacheSlot
written h tags s = record { seq = uint64 (s.seq + 2); hash = h; tag_bits = tags }

-- the scan for the oldest slot, with the best so far
unfoldable pub oldest_from : List CacheSlot → ℕ → ℕ → ℕ → ℕ
oldest_from [] i oldest_idx oldest_seq = oldest_idx
oldest_from (s ∷ slots) i oldest_idx oldest_seq =
    let older = not (is_locked s) && ltb s.seq oldest_seq in
    oldest_from slots (i + 1) (if older then i else oldest_idx)
      (if older then s.seq else oldest_seq)

abbrev pub tag_bit : Bytes → ℕ
tag_bit tag = 2 ^ (bit_and (fnv1a64 tag) 63)

-- `for _, t := range tags { mask |= … }`
unfoldable pub tag_mask : ℕ → List Bytes → ℕ
tag_mask mask [] = mask
tag_mask mask (t ∷ tags) = tag_mask (bit_or mask (tag_bit t)) tags

module _ {P : Type 0} where
  unfoldable pub new_cache : ℕ → Cache P
  new_cache wanted =
      let capacity = next_power_of_two (if ltb wanted 64 then 64 else wanted) in
      record {
        slots = replicate capacity empty_slot;
        programs = replicate capacity none;
        mask = capacity - 1;
        capacity = capacity;
        hits = 0;
        misses = 0;
        evicts = 0;
      }

  abbrev pub search_slots : (CacheSlot → Verdict) → ℕ → Cache P → Probe
  search_slots verdict h c = probe verdict c.slots c.mask h c.capacity 0

  abbrev pub missed : Cache P → Option (Option P × Cache P)
  missed c = some (none, record c { misses = c.misses + 1 })

  -- `if pgm == nil`
  abbrev pub counted : Option P → Cache P → Option (Option P × Cache P)
  counted none c = missed c
  counted (some p) c = some (some p, record c { hits = c.hits + 1 })

  -- the program of the slot that the loop stops at
  unfoldable pub loaded : ℕ → CacheSlot → Cache P → Option (Option P × Cache P)
  loaded j s c =
      if s.hash == 0
      then missed c
      else elim (get_elem? c.programs j) [ none ↦ none | some p ↦ counted p c ]

  -- `none` is an endless loop or an index out of range
  abbrev pub get_end : Cache P → Probe → Option (Option P × Cache P)
  get_end c (at j s) = loaded j s c
  get_end c exhausted = missed c
  get_end c endless = none
  get_end c panic = none

  unfoldable pub get_hash : ℕ → Cache P → Option (Option P × Cache P)
  get_hash h c = get_end c (search_slots (get_verdict h) h c)

  unfoldable pub get : Bytes → Bytes → Cache P → Option (Option P × Cache P)
  get engine name c = get_hash (fnv_pair engine name) c

  -- the write under the lock of slot `j`
  abbrev pub store_at : ℕ → ℕ → ℕ → Option P → CacheSlot → Cache P → Cache P
  store_at j h tags p s c = record c {
    slots = set c.slots j (written h tags s);
    programs = set c.programs j p;
  }

  abbrev pub evict_at : ℕ → P → Cache P → ℕ → Option CacheSlot → Option (Cache P)
  evict_at h p c j none = none
  evict_at h p c j (some s) =
      if is_locked s
      then none
      else some (store_at j h s.tag_bits (some p) s (record c { evicts = c.evicts + 1 }))

  unfoldable pub evict_lru : ℕ → P → Cache P → Option (Cache P)
  evict_lru h p c =
      let j = oldest_from c.slots 0 0 (2 ^ 63 - 1) in evict_at h p c j (get_elem? c.slots j)

  abbrev pub put_end : ℕ → P → Cache P → Probe → Option (Cache P)
  put_end h p c (at j s) = some (store_at j h s.tag_bits (some p) s c)
  put_end h p c exhausted = evict_lru h p c
  put_end h p c endless = none
  put_end h p c panic = none

  unfoldable pub put_hash : ℕ → P → Cache P → Option (Cache P)
  put_hash h p c = put_end h p c (search_slots (put_verdict h) h c)

  unfoldable pub put : Bytes → Bytes → P → Cache P → Option (Cache P)
  put engine name p c = put_hash (fnv_pair engine name) p c

  abbrev pub delete_end : Cache P → Probe → Option (Cache P)
  delete_end c (at j s) = some (store_at j 0 s.tag_bits none s c)
  delete_end c exhausted = some c
  delete_end c endless = none
  delete_end c panic = none

  unfoldable pub delete_hash : ℕ → Cache P → Option (Cache P)
  delete_hash h c = delete_end c (search_slots (delete_verdict h) h c)

  unfoldable pub delete : Bytes → Bytes → Cache P → Option (Cache P)
  delete engine name c = delete_hash (fnv_pair engine name) c

  unfoldable pub set_tag : Bytes → Bytes → List Bytes → Cache P → Option (Cache P)
  set_tag engine name tags c =
      let h = fnv_pair engine name in
      elim (search_slots (tag_verdict h) h c) [
        | at j s ↦ some (record c {
          slots = set c.slots j (written s.hash (bit_or s.tag_bits (tag_mask 0 tags)) s);
        })
        | exhausted ↦ some c
        | endless ↦ none
        | panic ↦ none
      ]

  -- the loop over all slots, which counts the dropped entries
  unfoldable pub invalidate_from :
      ℕ → List CacheSlot → ℕ → List (Option P) → ℕ → Option (List CacheSlot × List (Option P) × ℕ)
  invalidate_from bit [] i programs n = some ([], programs, n)
  invalidate_from bit (s ∷ slots) i programs n =
      let tagged = not (bit_and s.tag_bits bit == 0) in
      let rest =
        invalidate_from bit slots (i + 1) (if tagged then set programs i none else programs)
          (if tagged then n + 1 else n) in
      if is_locked s
      then none
      else rest >>= λ (slots', programs', n').
          some ((if tagged then written 0 0 s else s) ∷ slots', programs', n')

  unfoldable pub invalidate_tag : Bytes → Cache P → Option (ℕ × Cache P)
  invalidate_tag tag c =
      invalidate_from (tag_bit tag) c.slots 0 c.programs 0 >>= λ (slots, programs, n).
      some (n, record c { slots = slots; programs = programs })
