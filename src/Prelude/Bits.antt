-- ===== src/Prelude/Bits.antt =====
-- Exclusive or: the step over the lowest digit, and that the order of operands does not count.
use Prim.Native.Nat.{
  ℕ, zero, suc, ◌+◌, ◌-◌, ◌*◌, ◌/◌, ◌%◌, ◌≤◌, differ, digits, bit_xor, bit_xor-bitwise,
}
use mathlib.Core.Path.{◌≡◌, refl, ap, ap₂}
use native.Mathlib.Omega.{arith}
use native.Mathlib.Decide.{dec_le}

abbrev xor_digits : ℕ → ℕ → ℕ → ℕ
xor_digits n a b = digits (λ b. b) differ n a b

differ-distance : (x y : ℕ) → differ x y ≡ (x - y) + (y - x)
differ-distance zero y = omega arith
differ-distance (suc x) zero = omega arith
differ-distance (suc x) (suc y) = omega (arith, differ-distance x y)

xor_digits_fuel : (n m a b : ℕ) → a ≤ n → a ≤ m → xor_digits n a b ≡ xor_digits m a b
xor_digits_fuel zero zero a b p q = refl
xor_digits_fuel zero (suc m) zero b p q = refl
xor_digits_fuel zero (suc m) (suc a) b p q = absurd (omega arith)
xor_digits_fuel (suc n) zero zero b p q = refl
xor_digits_fuel (suc n) zero (suc a) b p q = absurd (omega arith)
xor_digits_fuel (suc n) (suc m) zero b p q = refl
xor_digits_fuel (suc n) (suc m) (suc a) b p q =
    omega (arith, xor_digits_fuel n m (suc a / 2) (b / 2) (omega arith) (omega arith))

zero-bit_xor : (b : ℕ) → bit_xor 0 b ≡ b
zero-bit_xor b = bit_xor-bitwise 0 b

bit_xor_step : (a b : ℕ) → bit_xor a b ≡ bit_xor (a / 2) (b / 2) * 2 + differ (a % 2) (b % 2)
bit_xor_step zero b = omega (arith, zero-bit_xor b, zero-bit_xor (b / 2), differ-distance 0 (b % 2))
bit_xor_step (suc a) b = omega (
  arith,
  bit_xor-bitwise (suc a) b,
  bit_xor-bitwise (suc a / 2) (b / 2),
  xor_digits_fuel a (suc a / 2) (suc a / 2) (b / 2) (omega arith) (omega arith),
)

bit_xor-half : (a b : ℕ) → bit_xor a b / 2 ≡ bit_xor (a / 2) (b / 2)
bit_xor-half a b = omega (arith, bit_xor_step a b, differ-distance (a % 2) (b % 2))

bit_xor-digit : (a b : ℕ) → bit_xor a b % 2 ≡ (a % 2 + b % 2) % 2
bit_xor-digit a b = omega (arith, bit_xor_step a b, differ-distance (a % 2) (b % 2))

bit_xor-swap_fuel :
    (n r x y : ℕ) → r + x + y ≤ n → bit_xor (bit_xor r x) y ≡ bit_xor (bit_xor r y) x
bit_xor-swap_fuel zero r x y h = ap₂ (λ a b. bit_xor (bit_xor r a) b) (omega arith) (omega arith)
bit_xor-swap_fuel (suc n) r x y h = elim (dec_le (r + x + y) n) [
  | yes g ↦ bit_xor-swap_fuel n r x y g
  | no g ↦
      let rest = bit_xor-swap_fuel n (r / 2) (x / 2) (y / 2) (omega arith) in
      let left = bit_xor_step (bit_xor r x) y in
      let right = bit_xor_step (bit_xor r y) x in
      omega (
        arith,
        left,
        right,
        ap (λ a. bit_xor a (y / 2)) (bit_xor-half r x),
        ap (λ a. bit_xor a (x / 2)) (bit_xor-half r y),
        bit_xor-digit r x,
        bit_xor-digit r y,
        differ-distance (bit_xor r x % 2) (y % 2),
        differ-distance (bit_xor r y % 2) (x % 2),
        rest,
      )
]

pub bit_xor-swap : (r x y : ℕ) → bit_xor (bit_xor r x) y ≡ bit_xor (bit_xor r y) x
bit_xor-swap r x y = bit_xor-swap_fuel (r + x + y) r x y (omega arith)
