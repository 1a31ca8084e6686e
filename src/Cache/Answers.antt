-- ===== src/Cache/Answers.antt =====
-- Put and Get together.
use mathlib.Core.Path.{subst}
use nanite_render.Prelude.{ℕ, ◌+◌, ◌≡◌, ◌≢◌, sym, ap, ◌∙◌, inl, inr, some, arith, Bytes}
use nanite_render.Cache.{Cache, get_hash, put_hash, get, put, fnv_pair}
use nanite_render.Cache.Laws.{IsValid}
use nanite_render.Cache.Store.{evicted, stored, put_lem}
use nanite_render.Cache.Stored.{
  IsReachable, answer, after-IsValid, get_after, full-IsReachable, free-IsReachable, other_after,
}

some_inj : {A : Type 0} {a b : A} → some a ≡ some b → a ≡ b
some_inj e = cc

module _ {P : Type 0} (p : P) (c : Cache P) (v : IsValid c) where
  evicted-IsValid : (h : ℕ) → IsValid (evicted h p c v)
  evicted-IsValid h = record {
    pow = v.pow;
    mask_eq = v.mask_eq;
    small = v.small;
    slots_len = v.slots_len;
    programs_len = v.programs_len;
    unlocked = v.unlocked;
  }

  -- what a Put promises of the table that it leaves
  abbrev pub PutDone : ℕ → Type 0
  PutDone h =
      (c' : Cache P) × (put_hash h p c ≡ some c')
      × IsValid c'
      × IsReachable c'
      × (get_hash h c' ≡ some (some p, record c' { hits = c'.hits + 1 }))

  put_done : (h : ℕ) → h ≢ 0 → IsReachable c → PutDone h
  put_done h nz r =
      let (m, lt, blocked, into) = put_lem h p c v in
      elim into [
        | inl (free, e) ↦ (
          stored h p c v m c,
          e,
          after-IsValid h p c v m lt,
          free-IsReachable h nz p c v m lt blocked r,
          get_after h p c v m lt nz blocked,
        )
        | inr (full, e) ↦
            let c' = evicted h p c v in
            let v' = evicted-IsValid h in
            (
              stored h p c' v' m c',
              e,
              after-IsValid h p c' v' m lt,
              full-IsReachable h nz p c' v' m lt full,
              get_after h p c' v' m lt nz blocked,
            )
      ]

  -- On a valid table (its capacity a power of two up to 2^62, no slot locked) in which no empty
  -- slot stands before an entry in the loop for its hash, Put of a key whose hash is not 0 ends,
  -- with an eviction or without, in such a table again, in which Get of the key finds the program
  -- and counts a hit.
  pub get-put :
      (engine name : Bytes)
      → IsReachable c
      → fnv_pair engine name ≢ 0
      → (c' : Cache P) × (put engine name p c ≡ some c')
        × IsValid c'
        × IsReachable c'
        × (get engine name c' ≡ some (some p, record c' { hits = c'.hits + 1 }))
  unfolding put get
  get-put engine name r nz = put_done (fnv_pair engine name) nz r

  kept :
      (h g : ℕ) (c' : Cache P)
      → IsReachable c
      → h ≢ 0
      → g ≢ 0
      → h ≢ g
      → put_hash h p c ≡ some c'
      → c'.evicts ≡ c.evicts
      → answer (get_hash g c') ≡ answer (get_hash g c)
  kept h g c' r nz gz d e quiet =
      let (m, lt, blocked, into) = put_lem h p c v in
      elim into [
        | inl (free, q) ↦
            subst (λ (t : Cache P). answer (get_hash g t) ≡ answer (get_hash g c))
              (some_inj (sym q ∙ e)) (other_after h nz p c v m lt free r g gz d)
        | inr (full, q) ↦
            absurd (omega (arith, ap (λ (t : Cache P). t.evicts) (some_inj (sym q ∙ e)), quiet))
      ]

  -- On such a table, a Put that evicts nothing leaves what Get answers for every key of another
  -- hash, both hashes not 0, as it was.
  pub get-put_ne :
      (engine name engine' name' : Bytes) (c' : Cache P)
      → IsReachable c
      → fnv_pair engine name ≢ 0
      → fnv_pair engine' name' ≢ 0
      → fnv_pair engine name ≢ fnv_pair engine' name'
      → put engine name p c ≡ some c'
      → c'.evicts ≡ c.evicts
      → answer (get engine' name' c') ≡ answer (get engine' name' c)
  unfolding put get
  get-put_ne engine name engine' name' c' r nz gz d e quiet =
      kept (fnv_pair engine name) (fnv_pair engine' name') c' r nz gz d e quiet
