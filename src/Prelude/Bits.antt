-- ===== src/Prelude/Bits.antt =====
-- `&` and `|` on the natural numbers, by their lowest digits.
use Prim.Native.Nat.{
  ℕ, zero, suc, ◌+◌, ◌-◌, ◌*◌, ◌/◌, ◌%◌, ◌^◌, ◌≤◌, ◌<◌, min, max, digits, bitwise, bit_and, bit_or,
  bit_and-bitwise, bit_or-bitwise,
}
use mathlib.Core.Path.{◌≡◌, refl, sym, ap, ◌∙◌}
use native.Mathlib.Nat.{pow-suc, mod-lt, mod-eq_of_lt, div-add-mod', add-mul-mod_self_right}
use native.Mathlib.Omega.{arith}

-- The recursion of an operation does not depend on its fuel, and drops one digit at a time.
module _ (z : ℕ → ℕ) (op : ℕ → ℕ → ℕ) (z_step : (b : ℕ) → z b ≡ z (b / 2) * 2 + op 0 (b % 2)) where
  enough : (n m a b : ℕ) → a ≤ n → a ≤ m → digits z op n a b ≡ digits z op m a b
  enough zero zero a b p q = refl
  enough zero (suc m) zero b p q = refl
  enough (suc n) zero zero b p q = refl
  enough (suc n) (suc m) zero b p q = refl
  enough zero (suc m) (suc a) b p q = absurd (omega arith)
  enough (suc n) zero (suc a) b p q = absurd (omega arith)
  enough (suc n) (suc m) (suc a) b p q =
      omega (arith, enough n m (suc a / 2) (b / 2) (omega arith) (omega arith))

  bitwise_step :
      (a b : ℕ) → bitwise z op a b ≡ bitwise z op (a / 2) (b / 2) * 2 + op (a % 2) (b % 2)
  bitwise_step zero b = z_step b
  bitwise_step (suc a) b =
      omega (arith, enough a (suc a / 2) (suc a / 2) (b / 2) (omega arith) (omega arith))

bit_or_step : (a b : ℕ) → bit_or a b ≡ bit_or (a / 2) (b / 2) * 2 + max (a % 2) (b % 2)
bit_or_step a b = omega (
  arith,
  bit_or-bitwise a b,
  bit_or-bitwise (a / 2) (b / 2),
  bitwise_step (λ n. n) max (λ n. omega arith) a b,
)

bit_and_step : (a b : ℕ) → bit_and a b ≡ bit_and (a / 2) (b / 2) * 2 + min (a % 2) (b % 2)
bit_and_step a b = omega (
  arith,
  bit_and-bitwise a b,
  bit_and-bitwise (a / 2) (b / 2),
  bitwise_step (λ n. 0) min (λ n. omega arith) a b,
)

zero-bit_or : (b : ℕ) → bit_or 0 b ≡ b
zero-bit_or b = bit_or-bitwise 0 b

-- Where the bits do not overlap, `|` is `+`.
pub bit_or_disjoint : (k a c : ℕ) → a < 2 ^ k → bit_or a (c * 2 ^ k) ≡ a + c * 2 ^ k
bit_or_disjoint zero a c h = ground (arith, zero-bit_or (c * 1))
bit_or_disjoint (suc k) a c h =
    let doubled : c * 2 ^ suc k ≡ 2 * (c * 2 ^ k) =
      omega (arith, ap (λ (t : ℕ). c * t) (pow-suc 2 k)) in
    ground (
      arith,
      bit_or_step a (c * 2 ^ suc k),
      doubled,
      pow-suc 2 k,
      bit_or_disjoint k (a / 2) c (omega (arith, pow-suc 2 k)),
    )

bounded-bit_and_zero : (n a : ℕ) → a ≤ n → bit_and a 0 ≡ 0
bounded-bit_and_zero n zero h = refl
bounded-bit_and_zero zero (suc a) h = absurd (omega arith)
bounded-bit_and_zero (suc n) (suc a) h =
    omega (arith, bit_and_step (suc a) 0, bounded-bit_and_zero n (suc a / 2) (omega arith))

bit_and_zero : (a : ℕ) → bit_and a 0 ≡ 0
bit_and_zero a = bounded-bit_and_zero a a (omega arith)

-- the two lowest bits
pub bit_and_one : (a : ℕ) → bit_and a 1 ≡ a % 2
bit_and_one a = omega (arith, bit_and_step a 1, bit_and_zero (a / 2))

pub bit_and_two : (a : ℕ) → bit_and a 2 ≡ a / 2 % 2 * 2
bit_and_two a = omega (arith, bit_and_step a 2, bit_and_one (a / 2))

pub bit_and_three : (a : ℕ) → bit_and a 3 ≡ a / 2 % 2 * 2 + a % 2
bit_and_three a = omega (arith, bit_and_step a 3, bit_and_one (a / 2))

-- the lowest digits of `2 * a + d`, in terms of those of `a`
mod_double : (a d m : ℕ) → d < 2 → 0 < m → (2 * a + d) % (2 * m) ≡ 2 * (a % m) + d
mod_double a d m h pos_m =
    let split : 2 * a + d ≡ 2 * (a % m) + d + a / m * (2 * m) = grind (arith, div-add-mod' a m) in
    rw split (
      add-mul-mod_self_right (2 * (a % m) + d) (a / m) (2 * m)
      ∙ mod-eq_of_lt (omega (arith, mod-lt a {m = m} pos_m)))

pub pow-pos : (k : ℕ) → 0 < 2 ^ k
pow-pos zero = omega arith
pow-pos (suc k) = omega (arith, pow-suc 2 k, pow-pos k)

-- `a & (2^k - 1)`
pub bit_and_mask : (k a : ℕ) → bit_and a (2 ^ k - 1) ≡ a % 2 ^ k
bit_and_mask zero a = omega (arith, bit_and_zero a)
bit_and_mask (suc k) a =
    let half : (2 ^ suc k - 1) / 2 ≡ 2 ^ k - 1 = omega (arith, pow-suc 2 k, pow-pos k) in
    let odd : (2 ^ suc k - 1) % 2 ≡ 1 = omega (arith, pow-suc 2 k, pow-pos k) in
    let doubled : 2 ^ suc k ≡ 2 * 2 ^ k = omega (arith, pow-suc 2 k) in
    let last : min (a % 2) 1 ≡ a % 2 = omega arith in
    let halves : 2 * (a / 2) + a % 2 ≡ a = omega arith in
    let lower : a % 2 ^ suc k ≡ 2 * (a / 2 % 2 ^ k) + a % 2 = rw doubled (
      ap (λ t. t % (2 * 2 ^ k)) (sym halves)
      ∙ mod_double (a / 2) (a % 2) (2 ^ k) (omega arith) (pow-pos k)) in
    let step : bit_and a (2 ^ suc k - 1) ≡ bit_and (a / 2) (2 ^ k - 1) * 2 + a % 2 =
      bit_and_step a (2 ^ suc k - 1) ∙ rw (half, odd, last) refl in
    omega (arith, step, lower, bit_and_mask k (a / 2))
