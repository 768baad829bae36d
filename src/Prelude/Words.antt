-- ===== src/Prelude/Words.antt =====
-- The fields of a machine word: `|` of disjoint fields is a sum, `&` with a mask a remainder, and
-- both stay within the width; `&`, `|` and `^` commute.
use native.Mathlib.Nat.{pow-suc, one-le-pow}
use hvm.Prelude.Bits.{
  bit_and_digit, bit_or_digit, bit_xor_digit, bit_or-zero, bit_xor-zero, bit_and-zero, by_halves,
}
use Prim.Native.Nat.{
  ℕ, zero, suc, ◌+◌, ◌-◌, ◌*◌, ◌/◌, ◌%◌, ◌^◌, ◌<◌, bit_and, bit_or, bit_xor, bit_and-bitwise,
  bit_or-bitwise, bit_xor-bitwise,
}
use mathlib.Core.Path.{◌≡◌, refl, ap}
use native.Mathlib.Omega.{arith}

double_shift : (q k : ℕ) → q * 2 ^ suc k ≡ 2 * (q * 2 ^ k)
double_shift q k = omega (arith, ap (λ (t : ℕ). q * t) (pow-suc 2 k))

-- `(q << k) | r` is a sum if `r` fits `k` bits.
pub bit_or-shifted : (k q r : ℕ) → r < 2 ^ k → bit_or (q * 2 ^ k) r ≡ q * 2 ^ k + r
bit_or-shifted zero q r h = ground (arith, bit_or-zero q)
bit_or-shifted (suc k) q r h = ground (
  arith,
  bit_or_digit (q * 2 ^ suc k) r,
  double_shift q k,
  pow-suc 2 k,
  bit_or-shifted k q (r / 2) (omega (arith, pow-suc 2 k)),
)

bit_and_low : (k q r : ℕ) → r < 2 ^ k → bit_and (q * 2 ^ k + r) (2 ^ k - 1) ≡ r
bit_and_low zero q r h = rw bit_and-zero (omega arith)
bit_and_low (suc k) q r h = ground (
  arith,
  bit_and_digit (q * 2 ^ suc k + r) (2 ^ suc k - 1),
  double_shift q k,
  pow-suc 2 k,
  one-le-pow k 2,
  bit_and_low k q (r / 2) (omega (arith, pow-suc 2 k)),
)

-- A mask of the `k` low bits is the remainder by `2 ^ k`.
pub bit_and-mask : (k a : ℕ) → bit_and a (2 ^ k - 1) ≡ a % 2 ^ k
bit_and-mask k a = ground (arith, one-le-pow k 2, bit_and_low k (a / 2 ^ k) (a % 2 ^ k))

half_fits : (k a : ℕ) → a < 2 ^ suc k → a / 2 < 2 ^ k
half_fits k a h = omega (arith, pow-suc 2 k)

zero-bit_and : (b : ℕ) → bit_and 0 b ≡ 0
zero-bit_and b = simp bit_and-bitwise refl

zero-bit_or : (b : ℕ) → bit_or 0 b ≡ b
zero-bit_or b = simp bit_or-bitwise refl

zero-bit_xor : (b : ℕ) → bit_xor 0 b ≡ b
zero-bit_xor b = simp bit_xor-bitwise refl

pub bit_and-lt : (k a b : ℕ) → a < 2 ^ k → bit_and a b < 2 ^ k
bit_and-lt k zero b h = rw zero-bit_and h
bit_and-lt zero (suc a) b h = absurd (omega arith)
bit_and-lt (suc k) (suc a) b h = omega (
  arith,
  bit_and_digit (suc a) b,
  pow-suc 2 k,
  bit_and-lt k (suc a / 2) (b / 2) (half_fits k (suc a) h),
)

pub bit_or-lt : (k a b : ℕ) → a < 2 ^ k → b < 2 ^ k → bit_or a b < 2 ^ k
bit_or-lt zero a b h l =
    let p : a ≡ 0 = omega arith in let q : b ≡ 0 = omega arith in rw (p, q) (omega arith)
bit_or-lt (suc k) a b h l = omega (
  arith,
  bit_or_digit a b,
  pow-suc 2 k,
  bit_or-lt k (a / 2) (b / 2) (half_fits k a h) (half_fits k b l),
)

pub bit_xor-lt : (k a b : ℕ) → a < 2 ^ k → b < 2 ^ k → bit_xor a b < 2 ^ k
bit_xor-lt zero a b h l =
    let p : a ≡ 0 = omega arith in let q : b ≡ 0 = omega arith in rw (p, q) (omega arith)
bit_xor-lt (suc k) a b h l = omega (
  arith,
  bit_xor_digit a b,
  pow-suc 2 k,
  bit_xor-lt k (a / 2) (b / 2) (half_fits k a h) (half_fits k b l),
)

pub bit_and_comm : (a b : ℕ) → bit_and a b ≡ bit_and b a
bit_and_comm =
    by_halves (λ a. (b : ℕ) → bit_and a b ≡ bit_and b a) (λ b. rw (zero-bit_and, bit_and-zero))
      (λ n ih b. omega (arith, bit_and_digit (suc n) b, bit_and_digit b (suc n), ih (b / 2)))

pub bit_or_comm : (a b : ℕ) → bit_or a b ≡ bit_or b a
bit_or_comm =
    by_halves (λ a. (b : ℕ) → bit_or a b ≡ bit_or b a) (λ b. rw (zero-bit_or, bit_or-zero))
      (λ n ih b. omega (arith, bit_or_digit (suc n) b, bit_or_digit b (suc n), ih (b / 2)))

pub bit_xor_comm : (a b : ℕ) → bit_xor a b ≡ bit_xor b a
bit_xor_comm =
    by_halves (λ a. (b : ℕ) → bit_xor a b ≡ bit_xor b a) (λ b. rw (zero-bit_xor, bit_xor-zero))
      (λ n ih b. omega (arith, bit_xor_digit (suc n) b, bit_xor_digit b (suc n), ih (b / 2)))
