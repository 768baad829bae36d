-- ===== src/Prelude/Bits.antt =====
-- `&`, `|` and `^` at variables: one equation for the lowest binary digit of each, and what they do
-- to the fields of a word.
use Prim.Native.Nat.{
  ℕ, zero, suc, ◌+◌, ◌*◌, ◌/◌, ◌%◌, ◌≤◌, ◌<◌, min, max, bit_and, bit_or, bit_xor, digits, bitwise,
  differ, bit_and-bitwise, bit_or-bitwise, bit_xor-bitwise,
}
use native.Mathlib.Nat.{le_refl}
use mathlib.Core.Path.{◌≡◌, refl}
use mathlib.Core.WellFounded
use native.Mathlib.Omega.{arith}
use hvm.Prelude.Order.{lt_wf}

-- The recursion on digits does not depend on its fuel, once there is enough.
module _ (z : ℕ → ℕ) (f : ℕ → ℕ → ℕ) where
  digits_enough : (m n a b : ℕ) → a ≤ m → a ≤ n → digits z f m a b ≡ digits z f n a b
  digits_enough zero zero a b h k = refl
  digits_enough zero (suc n) zero b h k = refl
  digits_enough zero (suc n) (suc a) b h k = elim h [ ]
  digits_enough (suc m) zero zero b h k = refl
  digits_enough (suc m) zero (suc a) b h k = elim k [ ]
  digits_enough (suc m) (suc n) zero b h k = refl
  digits_enough (suc m) (suc n) (suc a) b h k =
      rw (digits_enough m n (suc a / 2) (b / 2) (omega arith) (omega arith))

  bitwise_digit :
      (a b : ℕ)
      → bitwise z f (suc a) b ≡ bitwise z f (suc a / 2) (b / 2) * 2 + f (suc a % 2) (b % 2)
  bitwise_digit a b =
      omega (arith, digits_enough a (suc a / 2) (suc a / 2) (b / 2) (omega arith) (le_refl _))

pub bit_and_digit : (a b : ℕ) → bit_and a b ≡ bit_and (a / 2) (b / 2) * 2 + min (a % 2) (b % 2)
bit_and_digit zero b = simp bit_and-bitwise (omega arith)
bit_and_digit (suc a) b = simp bit_and-bitwise (bitwise_digit (λ y. 0) min a b)

pub bit_or_digit : (a b : ℕ) → bit_or a b ≡ bit_or (a / 2) (b / 2) * 2 + max (a % 2) (b % 2)
bit_or_digit zero b = simp bit_or-bitwise (omega arith)
bit_or_digit (suc a) b = simp bit_or-bitwise (bitwise_digit (λ y. y) max a b)

-- Two digits differ by 1 or are the same.
abbrev pub odd_sum : ℕ → ℕ → ℕ
odd_sum x y = (x + y) % 2

differ-odd_sum : (x y : ℕ) → x < 2 → y < 2 → differ x y ≡ odd_sum x y
differ-odd_sum zero zero h k = refl
differ-odd_sum zero (suc zero) h k = refl
differ-odd_sum zero (suc (suc y)) h k = absurd (omega arith)
differ-odd_sum (suc zero) zero h k = refl
differ-odd_sum (suc zero) (suc zero) h k = refl
differ-odd_sum (suc zero) (suc (suc y)) h k = absurd (omega arith)
differ-odd_sum (suc (suc x)) y h k = absurd (omega arith)

pub bit_xor_digit : (a b : ℕ) → bit_xor a b ≡ bit_xor (a / 2) (b / 2) * 2 + odd_sum (a % 2) (b % 2)
bit_xor_digit zero b = simp bit_xor-bitwise (omega arith)
bit_xor_digit (suc a) b = simp bit_xor-bitwise (
    omega (
      arith,
      bitwise_digit (λ y. y) differ a b,
      differ-odd_sum (suc a % 2) (b % 2) (omega arith) (omega arith),
    ))

-- A claim that passes from `a / 2` to `a` holds of every number.
pub by_halves {ℓ} : (P : ℕ → Type ℓ) → P 0 → ((n : ℕ) → P (suc n / 2) → P (suc n)) → (n : ℕ) → P n
by_halves P base step n =
    WellFounded.induction lt_wf {C = P} n
      (elim [ zero ↦ λ ih. base | suc m ↦ λ ih. step m (ih (suc m / 2) (omega arith)) ])

pub bit_or-zero : (a : ℕ) → bit_or a 0 ≡ a
bit_or-zero =
    by_halves (λ a. bit_or a 0 ≡ a) refl (λ n ih. omega (arith, bit_or_digit (suc n) 0, ih))

pub bit_xor-zero : (a : ℕ) → bit_xor a 0 ≡ a
bit_xor-zero =
    by_halves (λ a. bit_xor a 0 ≡ a) refl (λ n ih. omega (arith, bit_xor_digit (suc n) 0, ih))

pub bit_and-zero : (a : ℕ) → bit_and a 0 ≡ 0
bit_and-zero =
    by_halves (λ a. bit_and a 0 ≡ 0) refl (λ n ih. omega (arith, bit_and_digit (suc n) 0, ih))
