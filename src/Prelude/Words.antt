-- ===== src/Prelude/Words.antt =====
-- Machine words: `uintptr_t` has 64 bits and `unsigned` has 32. `a | t`, where `t` fits in the low
-- bits that `a` leaves free, is a sum.
use Prim.Native.Nat.{digits, max, bit_or-bitwise}
use nscheme.Prelude.{
  ℕ, zero, suc, ◌+◌, ◌-◌, ◌*◌, ◌/◌, ◌%◌, ◌^◌, ◌≤◌, ◌<◌, ◌≡◌, refl, ap, bit_or, arith,
}

abbrev pub mod64 : ℕ
mod64 = 2 ^ 64

abbrev pub mod32 : ℕ
mod32 = 2 ^ 32

-- `a - b` on `unsigned`.
abbrev pub sub32 : ℕ → ℕ → ℕ
sub32 a b = (a + mod32 - b) % mod32

or_digits_fuel :
    (n m a b : ℕ) → a ≤ n → a ≤ m → digits (λ b. b) max n a b ≡ digits (λ b. b) max m a b
or_digits_fuel zero zero a b p q = refl
or_digits_fuel zero (suc m) zero b p q = refl
or_digits_fuel zero (suc m) (suc a) b p q = absurd (omega arith)
or_digits_fuel (suc n) zero zero b p q = refl
or_digits_fuel (suc n) zero (suc a) b p q = absurd (omega arith)
or_digits_fuel (suc n) (suc m) zero b p q = refl
or_digits_fuel (suc n) (suc m) (suc a) b p q =
    omega (arith, or_digits_fuel n m (suc a / 2) (b / 2) (omega arith) (omega arith))

pub zero-bit_or : (b : ℕ) → bit_or 0 b ≡ b
zero-bit_or b = bit_or-bitwise 0 b

bit_or_step : (a b : ℕ) → bit_or a b ≡ bit_or (a / 2) (b / 2) * 2 + max (a % 2) (b % 2)
bit_or_step zero b = omega (arith, zero-bit_or b, zero-bit_or (b / 2))
bit_or_step (suc a) b = omega (
  arith,
  bit_or-bitwise (suc a) b,
  bit_or-bitwise (suc a / 2) (b / 2),
  or_digits_fuel a (suc a / 2) (suc a / 2) (b / 2) (omega arith) (omega arith),
)

bit_or-zero_fuel : (n a : ℕ) → a ≤ n → bit_or a 0 ≡ a
bit_or-zero_fuel n zero h = refl
bit_or-zero_fuel zero (suc a) h = absurd (omega arith)
bit_or-zero_fuel (suc n) (suc a) h =
    omega (arith, bit_or_step (suc a) 0, bit_or-zero_fuel n (suc a / 2) (omega arith))

-- `c` followed by k zero bits.
abbrev pub shifted : ℕ → ℕ → ℕ
shifted zero c = c
shifted (suc k) c = 2 * shifted k c

halve : (x : ℕ) → 2 * x / 2 ≡ x
halve x = omega arith

bit_or_double : (x b : ℕ) → bit_or (2 * x) b ≡ bit_or x (b / 2) * 2 + b % 2
bit_or_double x b =
    let e : bit_or (2 * x / 2) (b / 2) ≡ bit_or x (b / 2) = ap (λ y. bit_or y (b / 2)) (halve x) in
    omega (arith, bit_or_step (2 * x) b, e)

-- A value that fits in k bits, put into k free low bits.
pub bit_or_low : (k c b : ℕ) → b < shifted k 1 → bit_or (shifted k c) b ≡ shifted k c + b
bit_or_low zero c zero h = omega (arith, bit_or-zero_fuel c c (omega arith))
bit_or_low zero c (suc b) h = absurd (omega arith)
bit_or_low (suc k) c b h =
    omega (arith, bit_or_double (shifted k c) b, bit_or_low k c (b / 2) (omega arith))
