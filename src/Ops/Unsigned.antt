-- ===== src/Ops/Unsigned.antt =====
-- `impl_word!` and `impl_numeric!` (src/ops/word.rs, src/ops/num.rs) at u8, u16, u32 and u64: the
-- unsigned integers of w bits.
use hvm.Prelude.{
  ℕ, ◌/◌, ◌%◌, ◌^◌, bit_and, bit_or, bit_xor, Option, none, some, ltb, leb, ◌==◌, if◌then◌else◌,
}
use hvm.Ops.Numeric.{
  Numeric, unwrap_or, wrapping_shl, wrapping_add, wrapping_sub, wrapping_mul, truncate,
}

abbrev pub checked_div : ℕ → ℕ → Option ℕ
checked_div a b = if b == 0 then none else some (a / b)

abbrev pub checked_rem : ℕ → ℕ → Option ℕ
checked_rem a b = if b == 0 then none else some (a % b)

abbrev pub wrapping_shr : (w a s : ℕ) → ℕ
wrapping_shr w a s = a / 2 ^ (s % w)

abbrev pub numeric : ℕ → Numeric ℕ
numeric w = record {
  from_word = truncate w;
  to_word = λ a. a;
  add = wrapping_add w;
  sub = wrapping_sub w;
  mul = wrapping_mul w;
  div = λ a b. unwrap_or (checked_div a b) 0;
  rem = λ a b. unwrap_or (checked_rem a b) 0;
  and = bit_and;
  or = bit_or;
  xor = bit_xor;
  shl = λ a b. wrapping_shl w a (b % 2 ^ 32);
  shr = λ a b. wrapping_shr w a (b % 2 ^ 32);
  eq = ◌==◌;
  lt = ltb;
  le = leb;
  gt = λ a b. ltb b a;
  ge = λ a b. leb b a;
}
