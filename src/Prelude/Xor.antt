-- ===== src/Prelude/Xor.antt =====
-- Exclusive or of native numbers: applied twice with the same number it changes nothing.
use Prim.Native.Nat.{
  ℕ, zero, suc, ◌+◌, ◌*◌, ◌/◌, ◌%◌, ◌≤◌, bit_xor, digits, differ, bit_xor-bitwise,
}
use mathlib.Core.Path.{◌≡◌, refl, ◌∙◌}
use mathlib.Core.Logic.{◌⊎◌, inl, inr}
use native.Mathlib.Omega.{arith}

-- The digits of the result, with `n` of them computed.
abbrev xor_digits : ℕ → ℕ → ℕ → ℕ
xor_digits n x k = digits (λ r. r) differ n x k

enough_digits : (n m x k : ℕ) → x ≤ n → x ≤ m → xor_digits n x k ≡ xor_digits m x k
enough_digits zero zero x k p q = refl
enough_digits zero (suc m) zero k p q = refl
enough_digits zero (suc m) (suc x) k p q = absurd (omega arith)
enough_digits (suc n) zero zero k p q = refl
enough_digits (suc n) zero (suc x) k p q = absurd (omega arith)
enough_digits (suc n) (suc m) zero k p q = refl
enough_digits (suc n) (suc m) (suc x) k p q =
    omega (arith, enough_digits n m (suc x / 2) (k / 2) (omega arith) (omega arith))

zero-bit_xor : (k : ℕ) → bit_xor 0 k ≡ k
zero-bit_xor k = bit_xor-bitwise 0 k

lowest_digit : (x k : ℕ) → bit_xor x k ≡ bit_xor (x / 2) (k / 2) * 2 + differ (x % 2) (k % 2)
lowest_digit zero k = omega (arith, zero-bit_xor k, zero-bit_xor (k / 2))
lowest_digit (suc x) k = omega (
  arith,
  bit_xor-bitwise (suc x) k,
  bit_xor-bitwise (suc x / 2) (k / 2),
  enough_digits x (suc x / 2) (suc x / 2) (k / 2) (omega arith) (omega arith),
)

-- Two binary digits.
digit_cases : (x : ℕ) → (x % 2 ≡ 0) ⊎ (x % 2 ≡ 1)
digit_cases x = ground arith

differ_below : (x k : ℕ) → differ (x % 2) (k % 2) ≤ 1
differ_below x k = elim (digit_cases x) [
  | inl p ↦ rw p (omega arith)
  | inr p ↦ elim (digit_cases k) [
    | inl q ↦ rw (p, q) (omega arith)
    | inr q ↦ rw (p, q) (omega arith)
  ]
]

differ_twice : (x k : ℕ) → differ (differ (x % 2) (k % 2)) (k % 2) ≡ x % 2
differ_twice x k = elim (digit_cases x) [
  | inl p ↦ elim (digit_cases k) [ inl q ↦ rw (p, q) refl | inr q ↦ rw (p, q) refl ]
  | inr p ↦ elim (digit_cases k) [ inl q ↦ rw (p, q) refl | inr q ↦ rw (p, q) refl ]
]

differ_same : (x : ℕ) → differ (x % 2) (x % 2) ≡ 0
differ_same x = elim (digit_cases x) [ inl p ↦ rw p refl | inr p ↦ rw p refl ]

same_fuel : (n x : ℕ) → x ≤ n → bit_xor x x ≡ 0
same_fuel n zero h = zero-bit_xor 0
same_fuel zero (suc x) h = absurd (omega arith)
same_fuel (suc n) (suc x) h = omega (
  arith,
  lowest_digit (suc x) (suc x),
  same_fuel n (suc x / 2) (omega arith),
  differ_same (suc x),
)

twice_fuel : (n x k : ℕ) → x ≤ n → bit_xor (bit_xor x k) k ≡ x
twice_fuel n zero k h = rw (zero-bit_xor k) (same_fuel k k (omega arith))
twice_fuel zero (suc x) k h = absurd (omega arith)
twice_fuel (suc n) (suc x) k h =
    let y = bit_xor (suc x) k in
    let d = differ (suc x % 2) (k % 2) in
    let low = lowest_digit (suc x) k in
    let small = differ_below (suc x) k in
    let half : y / 2 ≡ bit_xor (suc x / 2) (k / 2) = omega (arith, low, small) in
    let digit : y % 2 ≡ d = omega (arith, low, small) in
    let ih = twice_fuel n (suc x / 2) (k / 2) (omega arith) in
    lowest_digit y k ∙ rw (half, digit, ih, differ_twice (suc x) k) (omega arith)

pub xor_twice : (x k : ℕ) → bit_xor (bit_xor x k) k ≡ x
xor_twice x k = twice_fuel x x k (omega arith)
