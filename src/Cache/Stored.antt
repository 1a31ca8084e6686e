-- ===== src/Cache/Stored.antt =====
-- What Get finds after Put, of the same key and of another.
use mathlib.Core.Path.{subst}
use nanite_render.Prelude.{
  ℕ, ◌+◌, ◌<◌, ◌≡◌, ◌≢◌, refl, sym, ap, ◌∙◌, ◌⊎◌, inl, inr, Option, none, some, arith,
  get_or-set_self, get_or-set_ne, ltb, ◌==◌, ==_iff, Bool-cases,
}
use nanite_render.Cache.{Cache, position, put_verdict, counted, get_hash}
use nanite_render.Cache.Position.{position-onto, position-inj}
use nanite_render.Cache.Reach.{slot_at, loop_end}
use nanite_render.Cache.Laws.{
  Other, free_of_stop, put_never_waits, IsValid, hash_in, Blocked, program_at,
}
use nanite_render.Cache.Lookup.{
  position_lt, in_range, slot_in, open_in, others, get_found, get_empty, get_exhausted, get_none,
}
use nanite_render.Cache.Store.{stored, slot_at-store_self, slot_at-store_ne, store_at-IsValid}

pub eq_cases : (a b : ℕ) → (a ≡ b) ⊎ (a ≢ b)
eq_cases a b = elim (Bool-cases (a == b)) [
  | inl e ↦ inl ((==_iff a b).0 e)
  | inr e ↦ inr (λ d. ground (arith, (==_iff a b).1 d))
]

module _ {P : Type 0} (h : ℕ) (p : P) (c : Cache P) (v : IsValid c) (m : ℕ)
    (lt : m < c.capacity) where
  abbrev pub after : Cache P
  after = stored h p c v m c

  pub after-IsValid : IsValid after
  after-IsValid =
      let s = slot_in h c v m in
      store_at-IsValid c v (position c.mask h m) (position_lt h c v m) h s.tag_bits (some p) s
        (open_in h c v m)

  hash-after_self : (g i : ℕ) → position c.mask g i ≡ position c.mask h m → hash_in after g i ≡ h
  hash-after_self g i e =
      let s = slot_in h c v m in
      ap (λ j. (slot_at after.slots j).hash) e
      ∙ ap (λ s'. s'.hash)
          (slot_at-store_self c v (position c.mask h m) (position_lt h c v m) h s.tag_bits (some p)
            s)

  hash-after_ne :
      (g i : ℕ) → position c.mask g i ≢ position c.mask h m → hash_in after g i ≡ hash_in c g i
  hash-after_ne g i d =
      let s = slot_in h c v m in
      ap (λ s'. s'.hash)
        (slot_at-store_ne c v (position c.mask h m) (position_lt h c v m) h s.tag_bits (some p) s
          (position c.mask g i) d)

  -- every slot has the new hash or the one that it had
  hash-after_cases : (g i : ℕ) → (hash_in after g i ≡ h) ⊎ (hash_in after g i ≡ hash_in c g i)
  hash-after_cases g i = elim (eq_cases (position c.mask g i) (position c.mask h m)) [
    | inl e ↦ inl (hash-after_self g i e)
    | inr d ↦ inr (hash-after_ne g i d)
  ]

  Blocked-after : (g n : ℕ) → Other g h → Blocked c g n → Blocked after g n
  Blocked-after g n o blocked k b = elim (hash-after_cases g k) [
    | inl e ↦ subst (Other g) (sym e) o
    | inr e ↦ subst (Other g) (sym e) (blocked k b)
  ]

  pub get_after :
      h ≢ 0 → Blocked c h m → get_hash h after ≡ some (some p, record after { hits = c.hits + 1 })
  get_after nz blocked =
      let same = hash-after_self h m refl in
      let there : program_at after (position c.mask h m) ≡ some p =
        get_or-set_self c.programs (position c.mask h m) (some p) none
          (omega (arith, position_lt h c v m, v.programs_len)) in
      let clear : Blocked after h m = λ k b.
        subst (Other h)
          (sym (
            hash-after_ne h k (λ e. absurd (
              omega (
                arith,
                position-inj c.capacity c.mask v.pow.0 h v.pow.1 v.mask_eq v.small k m (omega arith)
                    lt e,
              )))))
          (blocked k b) in
      get_found h after after-IsValid m lt clear same nz ∙ ap (λ o. counted o after) there

  program-after_ne : (j : ℕ) → j ≢ position c.mask h m → program_at after j ≡ program_at c j
  program-after_ne j d =
      get_or-set_ne c.programs (position c.mask h m) j (some p) none (λ e. d (sym e))

-- No empty slot stands before an entry in the loop for its hash.
abbrev pub IsReachable : {P : Type 0} → Cache P → Type 0
IsReachable c =
    (g n : ℕ) → n < c.capacity → g ≢ 0 → hash_in c g n ≡ g → (k : ℕ) → k < n → hash_in c g k ≢ 0

-- The program that Get answers with.
abbrev pub answer : {P : Type 0} → Option (Option P × Cache P) → Option (Option P)
answer none = none
answer (some (o, c)) = some o

answer-counted : {P : Type 0} (o : Option P) (c : Cache P) → answer (counted o c) ≡ some o
answer-counted none c = refl
answer-counted (some p) c = refl

module _ {P : Type 0} (h : ℕ) (nz : h ≢ 0) (p : P) (c : Cache P) (v : IsValid c) (m : ℕ)
    (lt : m < c.capacity) where
  abbrev pub later : Cache P
  later = stored h p c v m c

  -- a write into a full table
  pub full-IsReachable : Blocked c h c.capacity → IsReachable later
  full-IsReachable full g n below gz e k lt' = elim (hash-after_cases h p c v m lt g k) [
    | inl same ↦ λ z. nz (sym same ∙ z)
    | inr kept ↦ λ z.
        let (i, b, q) =
          position-onto c.capacity c.mask v.pow.0 h v.pow.1 v.mask_eq v.small (position c.mask g k)
            (position_lt g c v k) in
        (full i b).0 (ap (λ j. (slot_at c.slots j).hash) q ∙ sym kept ∙ z)
  ]

  pub free-IsReachable : Blocked c h m → IsReachable c → IsReachable later
  free-IsReachable blocked r g n below gz e k lt' = elim (hash-after_cases h p c v m lt g k) [
    | inl same ↦ λ z. nz (sym same ∙ z)
    | inr kept ↦ λ z. elim (eq_cases (position c.mask g n) (position c.mask h m)) [
      | inl q ↦
          let gh : g ≡ h = sym e ∙ hash-after_self h p c v m lt g n q in
          let q' : position c.mask h n ≡ position c.mask h m =
            ap (λ t. position c.mask t n) (sym gh) ∙ q in
          let nm : n ≡ m =
            position-inj c.capacity c.mask v.pow.0 h v.pow.1 v.mask_eq v.small n m below lt q' in
          (blocked k (omega (arith, nm, lt'))).0 (ap (λ t. hash_in c t k) (sym gh) ∙ sym kept ∙ z)
      | inr d ↦ r g n below gz (sym (hash-after_ne h p c v m lt g n d) ∙ e) k lt' (sym kept ∙ z)
    ]
  ]

  -- The answer for a key of another hash, where the write takes no entry's place.
  module _ (free : (hash_in c h m ≡ 0) ⊎ (hash_in c h m ≡ h)) (r : IsReachable c) (g : ℕ)
      (gz : g ≢ 0) (d : h ≢ g) where
    moved : (n : ℕ) → hash_in c g n ≡ g → position c.mask g n ≢ position c.mask h m
    moved n e q =
        let e' : hash_in c h m ≡ g = ap (λ j. (slot_at c.slots j).hash) (sym q) ∙ e in
        elim free [ inl z ↦ gz (sym e' ∙ z) | inr z ↦ d (sym z ∙ e') ]

    valid' : IsValid later
    valid' = after-IsValid h p c v m lt

    found_after :
        (n : ℕ)
        → n < c.capacity
        → Blocked c g n
        → hash_in c g n ≡ g
        → answer (get_hash g later) ≡ answer (get_hash g c)
    found_after n below blocked e =
        let apart = moved n e in
        let same = hash-after_ne h p c v m lt g n apart in
        let j = position c.mask g n in
        ap answer (
          get_found g later valid' n below (Blocked-after h p c v m lt g n (nz, d) blocked)
            (same ∙ e) gz)
        ∙ answer-counted (program_at later j) later
        ∙ ap some (program-after_ne h p c v m lt j apart)
        ∙ sym (answer-counted (program_at c j) c)
        ∙ sym (ap answer (get_found g c v n below blocked e gz))

    absent_after :
        (n : ℕ)
        → n < c.capacity
        → Blocked c g n
        → hash_in c g n ≡ 0
        → answer (get_hash g later) ≡ answer (get_hash g c)
    absent_after n below blocked e =
        ap answer (
          get_none g later valid' (λ k b clear q. elim (hash-after_cases h p c v m lt g k) [
            | inl new ↦ d (sym new ∙ q)
            | inr kept ↦ elim (Bool-cases (ltb n k)) [
              | inl l ↦ r g k b gz (sym kept ∙ q) n (ground arith) e
              | inr l ↦ elim (eq_cases k n) [
                | inl s ↦ gz (sym q ∙ kept ∙ ap (hash_in c g) s ∙ e)
                | inr s ↦ (blocked k (ground arith)).1 (sym kept ∙ q)
              ]
            ]
          ]))
        ∙ sym (ap answer (get_empty g c v n below blocked e))

    pub other_after : answer (get_hash g later) ≡ answer (get_hash g c)
    other_after =
        elim (loop_end (put_verdict g) c.slots c.mask g (in_range g c v)
          (λ i. put_never_waits g (slot_in g c v i)) c.capacity 0) [
            | inl (n, a, b, passed, stopped) ↦
                let blocked : Blocked c g n = others g c v n passed in
                elim (free_of_stop g (slot_in g c v n) (open_in g c v n) stopped) [
                  | inl z ↦ absent_after n (omega arith) blocked z
                  | inr e ↦ found_after n (omega arith) blocked e
                ]
            | inr passed ↦
                let blocked : Blocked c g c.capacity =
                  others g c v c.capacity (λ k a b. passed k a (omega arith)) in
                ap answer (
                  get_exhausted g later valid'
                    (Blocked-after h p c v m lt g c.capacity (nz, d) blocked))
                ∙ sym (ap answer (get_exhausted g c v blocked))
          ]
