-- ===== src/Ops/Numeric.antt =====
-- The traits `FromWord`, `ToWord` and `Numeric` (src/ops/word.rs, src/ops/num.rs) as one interface,
-- and their implementations for
-- f32. `Unsigned` and `Signed` implement it for the integers. A value of a w-bit integer type is its bit pattern, a number below 2 ^ w.
use hvm.Prelude.{ℕ, ◌+◌, ◌-◌, ◌*◌, ◌%◌, ◌^◌, Bool, Option, none, some}

pub record Numeric (T : Type 0) : Type 0 where
  pub from_word : ℕ → T
  pub to_word : T → ℕ
  pub add : T → T → T
  pub sub : T → T → T
  pub mul : T → T → T
  pub div : T → T → T
  pub rem : T → T → T
  pub and : T → T → T
  pub or : T → T → T
  pub xor : T → T → T
  pub shl : T → T → T
  pub shr : T → T → T
  pub eq : T → T → Bool
  pub lt : T → T → Bool
  pub le : T → T → Bool
  pub gt : T → T → Bool
  pub ge : T → T → Bool

abbrev pub unwrap_or : Option ℕ → ℕ → ℕ
unwrap_or none d = d
unwrap_or (some a) d = a

-- `a.wrapping_shl(s)`: the amount is taken modulo the width.
abbrev pub wrapping_shl : (w a s : ℕ) → ℕ
wrapping_shl w a s = (a * 2 ^ (s % w)) % 2 ^ w

module _ (w : ℕ) where
  abbrev pub wrapping_add : (a b : ℕ) → ℕ
  wrapping_add a b = (a + b) % 2 ^ w

  abbrev pub wrapping_sub : (a b : ℕ) → ℕ
  wrapping_sub a b = (a + 2 ^ w - b) % 2 ^ w

  abbrev pub wrapping_mul : (a b : ℕ) → ℕ
  wrapping_mul a b = (a * b) % 2 ^ w

  -- `a as uW` of a word
  abbrev pub truncate : ℕ → ℕ
  truncate bits = bits % 2 ^ w

-- `f32` is not implemented in the source: its arithmetic, its order and its conversions to and from
-- 32 bits are a parameter.
pub record Float (F : Type 0) : Type 0 where
  pub from_bits : ℕ → F
  pub to_bits : F → ℕ
  pub zero : F
  pub add : F → F → F
  pub sub : F → F → F
  pub mul : F → F → F
  pub div : F → F → F
  pub rem : F → F → F
  pub eq : F → F → Bool
  pub lt : F → F → Bool
  pub le : F → F → Bool
  pub gt : F → F → Bool
  pub ge : F → F → Bool

-- `impl Numeric for f32` overrides the five arithmetic operations; the others stay at `ZERO`.
abbrev pub float_numeric : {F : Type 0} → Float F → Numeric F
float_numeric f = record {
  from_word = λ bits. f.from_bits (truncate 32 bits);
  to_word = f.to_bits;
  add = f.add;
  sub = f.sub;
  mul = f.mul;
  div = f.div;
  rem = f.rem;
  and = λ a b. f.zero;
  or = λ a b. f.zero;
  xor = λ a b. f.zero;
  shl = λ a b. f.zero;
  shr = λ a b. f.zero;
  eq = f.eq;
  lt = f.lt;
  le = f.le;
  gt = f.gt;
  ge = f.ge;
}
