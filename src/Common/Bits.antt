-- ===== src/Common/Bits.antt =====
-- `&` with the masks of the frame format, as arithmetic.
use Prim.Native.Nat.{
  ℕ, zero, suc, ◌+◌, ◌*◌, ◌/◌, ◌%◌, ◌≤◌, ◌<◌, min, bit_and, digits, bit_and-bitwise,
}
use mathlib.Core.Path.{◌≡◌, refl, sym, subst}
use mathlib.Core.Bool.{Bool, true, false}
use mathlib.Core.Logic.{inl, inr}
use erps.Common.Tests.{if◌then◌else◌, ◌==◌, ==_iff, Bool-cases}
use native.Mathlib.Omega.{arith}

-- The digits that `bit_and` stands for do not depend on the fuel, once it is enough.
fuel_irrelevant :
    (n m a b : ℕ) → a ≤ n → a ≤ m → digits (λ y. zero) min n a b ≡ digits (λ y. zero) min m a b
fuel_irrelevant zero zero a b h k = refl
fuel_irrelevant zero (suc m) zero b h k = refl
fuel_irrelevant zero (suc m) (suc a) b h k = absurd (omega arith)
fuel_irrelevant (suc n) zero zero b h k = refl
fuel_irrelevant (suc n) zero (suc a) b h k = absurd (omega arith)
fuel_irrelevant (suc n) (suc m) zero b h k = refl
fuel_irrelevant (suc n) (suc m) (suc a) b h k =
    omega (arith, fuel_irrelevant n m (suc a / 2) (b / 2) (omega arith) (omega arith))

-- One binary digit of `&`.
bit_and_digit : (a b : ℕ) → bit_and a b ≡ bit_and (a / 2) (b / 2) * 2 + min (a % 2) (b % 2)
bit_and_digit zero b = omega (arith, bit_and-bitwise 0 b, bit_and-bitwise 0 (b / 2))
bit_and_digit (suc a) b = omega (
  arith,
  bit_and-bitwise (suc a) b,
  bit_and-bitwise (suc a / 2) (b / 2),
  fuel_irrelevant a (suc a / 2) (suc a / 2) (b / 2) (omega arith) (omega arith),
)

halving_zero : (n a : ℕ) → a ≤ n → bit_and a 0 ≡ 0
halving_zero n zero h = refl
halving_zero zero (suc a) h = absurd (omega arith)
halving_zero (suc n) (suc a) h =
    omega (arith, bit_and_digit (suc a) 0, halving_zero n (suc a / 2) (omega arith))

bit_and-zero : (a : ℕ) → bit_and a 0 ≡ 0
bit_and-zero a = halving_zero a a (omega arith)

bit_and_low3 : (a : ℕ) → bit_and a 7 ≡ a % 8
bit_and_low3 a = omega (
  arith,
  bit_and_digit a 7,
  bit_and_digit (a / 2) 3,
  bit_and_digit (a / 2 / 2) 1,
  bit_and-zero (a / 2 / 2 / 2),
)

-- The mask of the CFM version.
pub bit_and_0x1f : (a : ℕ) → bit_and a 0x1f ≡ a % 32
bit_and_0x1f a =
    omega (arith, bit_and_digit a 0x1f, bit_and_digit (a / 2) 0xf, bit_and_low3 (a / 2 / 2))

bit_and_0xf : (a : ℕ) → bit_and a 0xf ≡ a % 16
bit_and_0xf a = omega (arith, bit_and_digit a 0xf, bit_and_low3 (a / 2))

-- The mask of the request code.
pub bit_and_0xf0 : (a : ℕ) → bit_and a 0xf0 ≡ a / 16 % 16 * 16
bit_and_0xf0 a = omega (
  arith,
  bit_and_digit a 0xf0,
  bit_and_digit (a / 2) 0x78,
  bit_and_digit (a / 2 / 2) 0x3c,
  bit_and_digit (a / 2 / 2 / 2) 0x1e,
  bit_and_0xf (a / 2 / 2 / 2 / 2),
)

-- The mask of the flags.
pub bit_and_0xe0 : (a : ℕ) → bit_and a 0xe0 ≡ a / 32 % 8 * 32
bit_and_0xe0 a = omega (
  arith,
  bit_and_digit a 0xe0,
  bit_and_digit (a / 2) 0x70,
  bit_and_digit (a / 2 / 2) 0x38,
  bit_and_digit (a / 2 / 2 / 2) 0x1c,
  bit_and_digit (a / 2 / 2 / 2 / 2) 0xe,
  bit_and_low3 (a / 2 / 2 / 2 / 2 / 2),
)

bit_and_bit3 : (a : ℕ) → bit_and a 8 ≡ a / 8 % 2 * 8
bit_and_bit3 a = omega (
  arith,
  bit_and_digit a 8,
  bit_and_digit (a / 2) 4,
  bit_and_digit (a / 2 / 2) 2,
  bit_and_digit (a / 2 / 2 / 2) 1,
  bit_and-zero (a / 2 / 2 / 2 / 2),
)

-- The mask of the RB flag.
pub bit_and_0x80 : (a : ℕ) → bit_and a 0x80 ≡ a / 128 % 2 * 128
bit_and_0x80 a = omega (
  arith,
  bit_and_digit a 0x80,
  bit_and_digit (a / 2) 0x40,
  bit_and_digit (a / 2 / 2) 0x20,
  bit_and_digit (a / 2 / 2 / 2) 0x10,
  bit_and_bit3 (a / 2 / 2 / 2 / 2),
)

-- Whether `p` holds at each of the first `n` numbers.
unfoldable pub sweep : (ℕ → Bool) → ℕ → Bool
sweep p zero = true
sweep p (suc n) = if p n then sweep p n else false

pub sweep_covers : (p : ℕ → Bool) (n : ℕ) {x : ℕ} → x < n → sweep p n ≡ true → p x ≡ true
unfolding sweep
sweep_covers p zero below swept = absurd (omega (arith, below))
sweep_covers p (suc n) {x} below swept = elim (Bool-cases (p n)) [
  | inl e ↦ elim (Bool-cases (x == n)) [
    | inl same ↦ subst (λ y. p y ≡ true) (sym ((==_iff x n).0 same)) e
    | inr apart ↦ sweep_covers p n (ground (arith, below, apart)) (rw e at swept)
  ]
  | inr e ↦ absurd (ground (arith, e, swept))
]
