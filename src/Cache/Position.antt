-- ===== src/Cache/Position.antt =====
-- `(idx+i)&c.mask` for a capacity that is a power of two: the probe sequence of a hash visits
-- every slot exactly once.
use Prim.Native.Nat.{bit_and}
use native.Mathlib.Nat.{
  mod-lt, mod-eq_of_lt, mod-eq-sub-mod, mod-add-mod, add-mod-mod, div-add-mod',
  add-mul-mod_self_right,
}
use nanite_render.Prelude.{
  ℕ, ◌+◌, ◌-◌, ◌*◌, ◌/◌, ◌%◌, ◌^◌, ◌≤◌, ◌<◌, ◌≡◌, sym, ap, ◌∙◌, ◌⊎◌, inl, inr, arith, ltb,
  Bool-cases,
}
use nanite_render.Prelude.Bits.{bit_and_mask, pow-pos}
use nanite_render.Cache.{uint64, position}

mod_cases : (x n : ℕ) → x < n + n → ((x < n) × (x % n ≡ x)) ⊎ ((n ≤ x) × (x % n ≡ x - n))
mod_cases x n h = elim (Bool-cases (ltb x n)) [
  | inl e ↦ let lt : x < n = ground arith in inl (lt, mod-eq_of_lt lt)
  | inr e ↦
      let le : n ≤ x = ground arith in inr (le, mod-eq-sub-mod le ∙ mod-eq_of_lt (omega arith))
]

module _ (n : ℕ) (pos_n : 0 < n) (h : ℕ) where
  slot_onto : (j : ℕ) → j < n → (i : ℕ) × (i < n) × ((h + i) % n ≡ j)
  slot_onto j lt =
      let split : h + (j + (n - h % n)) ≡ j + (h / n + 1) * n =
        grind (arith, div-add-mod' h n, mod-lt h {m = n} pos_n) in
      (
        (j + (n - h % n)) % n,
        mod-lt (j + (n - h % n)) {m = n} pos_n,
        add-mod-mod h (j + (n - h % n)) n
            ∙ ap (λ t. t % n) split
            ∙ add-mul-mod_self_right j (h / n + 1) n
            ∙ mod-eq_of_lt lt,
      )

  slot_inj : (i j : ℕ) → i < n → j < n → (h + i) % n ≡ (h + j) % n → i ≡ j
  slot_inj i j hi hj e =
      let r = mod-lt h {m = n} pos_n in
      let e' : (h % n + i) % n ≡ (h % n + j) % n =
        mod-add-mod h n i ∙ e ∙ sym (mod-add-mod h n j) in
      elim (mod_cases (h % n + i) n (omega arith)) [
        | inl (a, b) ↦ elim (mod_cases (h % n + j) n (omega arith)) [
          | inl (c, d) ↦ omega arith
          | inr (c, d) ↦ omega arith
        ]
        | inr (a, b) ↦ elim (mod_cases (h % n + j) n (omega arith)) [
          | inl (c, d) ↦ omega arith
          | inr (c, d) ↦ omega arith
        ]
      ]

module _ (k : ℕ) (small : 2 ^ k ≤ 2 ^ 62) (h : ℕ) where
  power-lt : (i : ℕ) → position (2 ^ k - 1) h i < 2 ^ k
  power-lt i =
      rw (bit_and_mask k (uint64 (bit_and h (2 ^ k - 1) + i)))
        (mod-lt (uint64 (bit_and h (2 ^ k - 1) + i)) {m = 2 ^ k} (pow-pos k))

  position_lem : (i : ℕ) → i < 2 ^ k → position (2 ^ k - 1) h i ≡ (h + i) % 2 ^ k
  position_lem i lt =
      let below = mod-lt h {m = 2 ^ k} (pow-pos k) in
      let fits : uint64 (h % 2 ^ k + i) ≡ h % 2 ^ k + i = mod-eq_of_lt (omega arith) in
      bit_and_mask k (uint64 (bit_and h (2 ^ k - 1) + i))
      ∙ ap (λ t. uint64 (t + i) % 2 ^ k) (bit_and_mask k h)
      ∙ ap (λ t. t % 2 ^ k) fits
      ∙ mod-add-mod h (2 ^ k) i

  power-onto : (j : ℕ) → j < 2 ^ k → (i : ℕ) × (i < 2 ^ k) × (position (2 ^ k - 1) h i ≡ j)
  power-onto j lt =
      let (i, below, e) = slot_onto (2 ^ k) (pow-pos k) h j lt in
      (i, below, position_lem i below ∙ e)

  power-inj :
      (i j : ℕ)
      → i < 2 ^ k
      → j < 2 ^ k
      → position (2 ^ k - 1) h i ≡ position (2 ^ k - 1) h j
      → i ≡ j
  power-inj i j hi hj e =
      slot_inj (2 ^ k) (pow-pos k) h i j hi hj (sym (position_lem i hi) ∙ e ∙ position_lem j hj)

module _ (n mask k h : ℕ) (n_eq : n ≡ 2 ^ k) (mask_eq : mask ≡ n - 1) (small : n ≤ 2 ^ 62) where
  pub position-lt : (i : ℕ) → position mask h i < n
  position-lt i = rw (mask_eq, n_eq) (power-lt k (omega (arith, n_eq)) h i)

  pub position-onto : (j : ℕ) → j < n → (i : ℕ) × (i < n) × (position mask h i ≡ j)
  position-onto j = rw (mask_eq, n_eq) (power-onto k (omega (arith, n_eq)) h j)

  pub position-inj : (i j : ℕ) → i < n → j < n → position mask h i ≡ position mask h j → i ≡ j
  position-inj i j = rw (mask_eq, n_eq) (power-inj k (omega (arith, n_eq)) h i j)
