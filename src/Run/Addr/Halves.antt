-- ===== src/Run/Addr/Halves.antt =====
-- The two words of a node (src/run/addr.rs), by arithmetic on their addresses.
use hvm.Prelude.{ℕ, ◌+◌, ◌-◌, ◌*◌, ◌/◌, ◌%◌, ◌^◌, ◌<◌, ◌≡◌, ◌⊎◌, arith, ◌==◌, if◌then◌else◌}
use hvm.Prelude.Bits.{bit_and_digit, bit_xor_digit, bit_xor-zero}
use hvm.Prelude.Words.{bit_and-mask}
use hvm.Run.Addr.{left_half, other_half}

pub other_half_lem : (a : ℕ) → other_half a ≡ (if a / 8 % 2 == 0 then a + 8 else a - 8)
unfolding other_half
other_half_lem a = ground (
  arith,
  bit_xor_digit a 8,
  bit_xor_digit (a / 2) 4,
  bit_xor_digit (a / 2 / 2) 2,
  bit_xor_digit (a / 2 / 2 / 2) 1,
  bit_xor-zero (a / 2 / 2 / 2 / 2),
)

pub left_half_lem : (a : ℕ) → a < 2 ^ 64 → left_half a ≡ a / 16 * 16 + a % 8
unfolding left_half
left_half_lem a h = omega (
  arith,
  bit_and_digit a 0xFFFF_FFFF_FFFF_FFF7,
  bit_and_digit (a / 2) 0x7FFF_FFFF_FFFF_FFFB,
  bit_and_digit (a / 2 / 2) 0x3FFF_FFFF_FFFF_FFFD,
  bit_and_digit (a / 2 / 2 / 2) 0x1FFF_FFFF_FFFF_FFFE,
  bit_and-mask 60 (a / 2 / 2 / 2 / 2),
)

-- `other_half` exchanges the two words of a node and `left_half` is the first of them: the other half
-- of the other half is the address itself, both have one left half, and an address is its left half
-- or the other half of it.
pub other_half-left_half :
    (a : ℕ)
    → a < 2 ^ 64
    → (other_half (other_half a) ≡ a)
      × (left_half (other_half a) ≡ left_half a)
      × ((a ≡ left_half a) ⊎ (a ≡ other_half (left_half a)))
other_half-left_half a h = (
  ground (arith, other_half_lem a, other_half_lem (other_half a)),
  ground (arith, other_half_lem a, left_half_lem a h, left_half_lem (other_half a)),
  ground (arith, left_half_lem a h, other_half_lem (left_half a)),
)

module _ (x : ℕ) (even : x % 16 ≡ 0) where
  pub other_half-left : other_half x ≡ x + 8
  other_half-left = ground (arith, other_half_lem x)

  pub other_half-right : other_half (x + 8) ≡ x
  other_half-right = ground (arith, other_half_lem (x + 8))

  pub left_half-left : x + 8 < 2 ^ 64 → left_half x ≡ x
  left_half-left h = omega (arith, left_half_lem x (omega arith))

  pub left_half-right : x + 8 < 2 ^ 64 → left_half (x + 8) ≡ x
  left_half-right h = omega (arith, left_half_lem (x + 8) h)
