-- ===== src/Ops/Signed.antt =====
-- `impl_word!` and `impl_numeric!` (src/ops/word.rs, src/ops/num.rs) at i8, i16 and i32: the signed
-- integers of w bits in two's complement.
use hvm.Prelude.{
  ℕ, ◌+◌, ◌-◌, ◌/◌, ◌%◌, ◌^◌, bit_and, bit_or, bit_xor, Bool, ◌&&◌, ◌||◌, not, Option, none, some,
  ltb, leb, ◌==◌, if◌then◌else◌,
}
use hvm.Ops.Numeric.{
  Numeric, unwrap_or, wrapping_shl, wrapping_add, wrapping_sub, wrapping_mul, truncate,
}

module _ (w : ℕ) where
  -- The integer is below 0.
  abbrev pub is_neg : ℕ → Bool
  is_neg a = leb (2 ^ (w - 1)) a

  abbrev pub magnitude : ℕ → ℕ
  magnitude a = if is_neg a then 2 ^ w - a else a

  -- The pattern of the integer with this sign and magnitude.
  abbrev pub with_sign : Bool → ℕ → ℕ
  with_sign neg m = if neg then (2 ^ w - m) % 2 ^ w else m

  -- MIN / -1 does not fit, and neither it nor MIN % -1 is computed.
  abbrev pub overflows : (a b : ℕ) → Bool
  overflows a b = a == 2 ^ (w - 1) && b == 2 ^ w - 1

  -- Rounds towards 0.
  abbrev pub checked_div : (a b : ℕ) → Option ℕ
  checked_div a b =
      if b == 0 || overflows a b
      then none
      else some
          (with_sign (if is_neg a then not (is_neg b) else is_neg b) (magnitude a / magnitude b))

  -- Has the sign of the dividend.
  abbrev pub checked_rem : (a b : ℕ) → Option ℕ
  checked_rem a b =
      if b == 0 || overflows a b
      then none
      else some (with_sign (is_neg a) (magnitude a % magnitude b))

  -- `a as uV` for a wider or equal V: sign extension.
  abbrev pub extend : (v a : ℕ) → ℕ
  extend v a = if is_neg a then 2 ^ v - (2 ^ w - a) else a

  -- The sign bit is shifted in.
  abbrev pub wrapping_shr : (a s : ℕ) → ℕ
  wrapping_shr a s = if is_neg a then 2 ^ w - 1 - (2 ^ w - 1 - a) / 2 ^ (s % w) else a / 2 ^ (s % w)

  -- The order of the patterns with the sign bit flipped is the order of the integers.
  abbrev pub flip_sign : ℕ → ℕ
  flip_sign a = (a + 2 ^ (w - 1)) % 2 ^ w

abbrev pub numeric : ℕ → Numeric ℕ
numeric w = record {
  from_word = truncate w;
  to_word = extend w 64;
  add = wrapping_add w;
  sub = wrapping_sub w;
  mul = wrapping_mul w;
  div = λ a b. unwrap_or (checked_div w a b) 0;
  rem = λ a b. unwrap_or (checked_rem w a b) 0;
  and = bit_and;
  or = bit_or;
  xor = bit_xor;
  shl = λ a b. wrapping_shl w a (extend w 32 b % 2 ^ 32);
  shr = λ a b. wrapping_shr w a (extend w 32 b % 2 ^ 32);
  eq = ◌==◌;
  lt = λ a b. ltb (flip_sign w a) (flip_sign w b);
  le = λ a b. leb (flip_sign w a) (flip_sign w b);
  gt = λ a b. ltb (flip_sign w b) (flip_sign w a);
  ge = λ a b. leb (flip_sign w b) (flip_sign w a);
}
