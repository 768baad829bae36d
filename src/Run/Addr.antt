-- ===== src/Run/Addr.antt =====
-- Addresses (src/run/addr.rs): the two words of a node stand at `left_half` and the other half.
pub mod Halves
use hvm.Prelude.{ℕ, ◌-◌, ◌^◌, bit_and, bit_xor}

abbrev pub null : ℕ
null = 0

abbrev pub half_mask : ℕ
half_mask = 0b1000

-- `self.0 & !HALF_MASK`, on 64 bits
unfoldable pub left_half : ℕ → ℕ
left_half addr = bit_and addr (2 ^ 64 - 1 - half_mask)

unfoldable pub other_half : ℕ → ℕ
other_half addr = bit_xor addr half_mask
