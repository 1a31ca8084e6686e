-- ===== src/Bytecode/Inst.antt =====
-- The packing of an instruction: `inst` of bytecode.go, and the shifts by which the executor reads
-- it back.
use Prim.Native.Nat.{bit_or}
use nanite_render.Prelude.{ℕ, ◌+◌, ◌*◌, ◌/◌, ◌%◌, ◌^◌, ◌<◌, ◌≡◌, arith}
use nanite_render.Prelude.Bits.{bit_or_disjoint}

-- `uint64(op) | (uint64(a) << 8) | (uint64(b) << 40)` for a `uint8` and two `uint32`
unfoldable pub inst : ℕ → ℕ → ℕ → ℕ
inst op a b = bit_or (bit_or op (a * 2 ^ 8 % 2 ^ 64)) (b * 2 ^ 40 % 2 ^ 64)

-- `uint8(ins)`
unfoldable pub op_of : ℕ → ℕ
op_of ins = ins % 2 ^ 8

-- `uint32(ins>>8)`
unfoldable pub arg1_of : ℕ → ℕ
arg1_of ins = ins / 2 ^ 8 % 2 ^ 32

-- `uint32(ins>>40)`
unfoldable pub arg2_of : ℕ → ℕ
arg2_of ins = ins / 2 ^ 40 % 2 ^ 32

inst_sum :
    (op a b : ℕ) → op < 2 ^ 8 → a < 2 ^ 32 → inst op a b ≡ op + a * 2 ^ 8 + b % 2 ^ 24 * 2 ^ 40
unfolding inst
inst_sum op a b ho ha =
    let e : a * 2 ^ 8 % 2 ^ 64 ≡ a * 2 ^ 8 = omega arith in
    let e' : b * 2 ^ 40 % 2 ^ 64 ≡ b % 2 ^ 24 * 2 ^ 40 = omega arith in
    rw (e, e', bit_or_disjoint 8 op a ho)
      (bit_or_disjoint 40 (op + a * 2 ^ 8) (b % 2 ^ 24) (omega arith))

-- From an instruction of an op below 2^8 and a first argument below 2^32, the executor reads back
-- the op, the first argument, and of the second argument the lowest 24 bits only.
pub inst_fields :
    (op a b : ℕ)
    → op < 2 ^ 8
    → a < 2 ^ 32
    → (op_of (inst op a b) ≡ op)
      × (arg1_of (inst op a b) ≡ a)
      × (arg2_of (inst op a b) ≡ b % 2 ^ 24)
unfolding op_of arg1_of arg2_of
inst_fields op a b ho ha = rw (inst_sum op a b ho ha) (omega arith, omega arith, omega arith)
