-- ===== src/Ops/Bounds.antt =====
-- The operations on a w-bit type stay within w bits, so their words are those of w-bit integers.
use native.Mathlib.Nat.{pow-suc, one-le-pow}
use hvm.Prelude.{
  ℕ, zero, suc, ◌-◌, ◌/◌, ◌%◌, ◌^◌, ◌≤◌, ◌<◌, ◌≡◌, refl, arith, Bool, true, false, ◌⊎◌, inl, inr,
  Bool-cases, ◌||◌, ◌==◌,
}
use hvm.Prelude.Words.{bit_and-lt, bit_or-lt, bit_xor-lt}
use hvm.Ops.Kinds.{Op}
use hvm.Ops.Numeric.{Numeric}
use hvm.Ops.Unsigned
use hvm.Ops.Signed
use hvm.Ops.Signed.{is_neg, magnitude, with_sign, overflows}
use hvm.Ops.Apply.{apply, op, word}

-- The operations map numbers below `m` to numbers below `m`.
pub record Closed (n : Numeric ℕ) (m : ℕ) : Type 0 where
  pub add : (a b : ℕ) → a < m → b < m → n.add a b < m
  pub sub : (a b : ℕ) → a < m → b < m → n.sub a b < m
  pub mul : (a b : ℕ) → a < m → b < m → n.mul a b < m
  pub div : (a b : ℕ) → a < m → b < m → n.div a b < m
  pub rem : (a b : ℕ) → a < m → b < m → n.rem a b < m
  pub and : (a b : ℕ) → a < m → b < m → n.and a b < m
  pub or : (a b : ℕ) → a < m → b < m → n.or a b < m
  pub xor : (a b : ℕ) → a < m → b < m → n.xor a b < m
  pub shl : (a b : ℕ) → a < m → b < m → n.shl a b < m
  pub shr : (a b : ℕ) → a < m → b < m → n.shr a b < m

-- A result is the word of a number below `m`, or a truth value.
abbrev pub IsResult : (n : Numeric ℕ) (m r : ℕ) → Type 0
IsResult n m r = ((x : ℕ) × (x < m) × (r ≡ n.to_word x)) ⊎ (r < 2)

word-lt : (b : Bool) → word b < 2
word-lt b = ground arith

pub apply-IsResult :
    (n : Numeric ℕ) (m : ℕ)
    → Closed n m
    → (o : Op) (a b : ℕ) → a < m
    → b < m
    → IsResult n m (apply n o a b)
unfolding apply
apply-IsResult n m c Op.add a b h k = inl (n.add a b, c.add a b h k, refl)
apply-IsResult n m c Op.sub a b h k = inl (n.sub a b, c.sub a b h k, refl)
apply-IsResult n m c Op.sub_s a b h k = inl (n.sub b a, c.sub b a k h, refl)
apply-IsResult n m c Op.mul a b h k = inl (n.mul a b, c.mul a b h k, refl)
apply-IsResult n m c Op.div a b h k = inl (n.div a b, c.div a b h k, refl)
apply-IsResult n m c Op.div_s a b h k = inl (n.div b a, c.div b a k h, refl)
apply-IsResult n m c Op.rem a b h k = inl (n.rem a b, c.rem a b h k, refl)
apply-IsResult n m c Op.rem_s a b h k = inl (n.rem b a, c.rem b a k h, refl)
apply-IsResult n m c Op.and a b h k = inl (n.and a b, c.and a b h k, refl)
apply-IsResult n m c Op.or a b h k = inl (n.or a b, c.or a b h k, refl)
apply-IsResult n m c Op.xor a b h k = inl (n.xor a b, c.xor a b h k, refl)
apply-IsResult n m c Op.shl a b h k = inl (n.shl a b, c.shl a b h k, refl)
apply-IsResult n m c Op.shl_s a b h k = inl (n.shl b a, c.shl b a k h, refl)
apply-IsResult n m c Op.shr a b h k = inl (n.shr a b, c.shr a b h k, refl)
apply-IsResult n m c Op.shr_s a b h k = inl (n.shr b a, c.shr b a k h, refl)
apply-IsResult n m c Op.eq a b h k = inr (word-lt _)
apply-IsResult n m c Op.ne a b h k = inr (word-lt _)
apply-IsResult n m c Op.lt a b h k = inr (word-lt _)
apply-IsResult n m c Op.gt a b h k = inr (word-lt _)
apply-IsResult n m c Op.le a b h k = inr (word-lt _)
apply-IsResult n m c Op.ge a b h k = inr (word-lt _)

pub mod-pow-lt : (w x : ℕ) → x % 2 ^ w < 2 ^ w
mod-pow-lt w x = grind (arith, one-le-pow w 2)

pub div-le : (a b : ℕ) → a / b ≤ a
div-le a zero = grind arith
div-le a (suc b) = grind arith

pub mod-le : (a b : ℕ) → a % b ≤ a
mod-le a zero = grind arith
mod-le a (suc b) = grind arith

pub unsigned-Closed : (w : ℕ) → Closed (Unsigned.numeric w) (2 ^ w)
unsigned-Closed w = record {
  add = λ a b h k. mod-pow-lt w _;
  sub = λ a b h k. mod-pow-lt w _;
  mul = λ a b h k. mod-pow-lt w _;
  div = λ a b h k. ground (arith, div-le a b);
  rem = λ a b h k. ground (arith, mod-le a b);
  and = λ a b h k. bit_and-lt w a b h;
  or = λ a b h k. bit_or-lt w a b h k;
  xor = λ a b h k. bit_xor-lt w a b h k;
  shl = λ a b h k. mod-pow-lt w _;
  shr = λ a b h k. omega (arith, div-le a (2 ^ (b % 2 ^ 32 % w)));
}

with_sign-lt : (w m : ℕ) (s : Bool) → m < 2 ^ w → with_sign w s m < 2 ^ w
with_sign-lt w m true h = mod-pow-lt w _
with_sign-lt w m false h = h

magnitude-lt : (v a : ℕ) → a < 2 ^ suc v → magnitude (suc v) a < 2 ^ suc v
magnitude-lt v a h =
    let p : suc v - 1 ≡ v = omega arith in rw p (ground (arith, pow-suc 2 v, one-le-pow v 2))

signed-div-lt : (v a b : ℕ) → a < 2 ^ suc v → (Signed.numeric (suc v)).div a b < 2 ^ suc v
signed-div-lt v a b h = elim (Bool-cases (b == 0 || overflows (suc v) a b)) [
  | inl e ↦ rw e (one-le-pow (suc v) 2 (omega arith))
  | inr e ↦ rw e (
      with_sign-lt (suc v) (magnitude (suc v) a / magnitude (suc v) b) _
        (omega (arith, div-le (magnitude (suc v) a) (magnitude (suc v) b), magnitude-lt v a h)))
]

signed-rem-lt : (v a b : ℕ) → a < 2 ^ suc v → (Signed.numeric (suc v)).rem a b < 2 ^ suc v
signed-rem-lt v a b h = elim (Bool-cases (b == 0 || overflows (suc v) a b)) [
  | inl e ↦ rw e (one-le-pow (suc v) 2 (omega arith))
  | inr e ↦ rw e (
      with_sign-lt (suc v) (magnitude (suc v) a % magnitude (suc v) b) _
        (omega (arith, mod-le (magnitude (suc v) a) (magnitude (suc v) b), magnitude-lt v a h)))
]

signed-shr-lt : (v a s : ℕ) → a < 2 ^ suc v → Signed.wrapping_shr (suc v) a s < 2 ^ suc v
signed-shr-lt v a s h = ground (arith, div-le a (2 ^ (s % suc v)), one-le-pow (suc v) 2)

pub signed-Closed : (v : ℕ) → Closed (Signed.numeric (suc v)) (2 ^ suc v)
signed-Closed v = record {
  add = λ a b h k. mod-pow-lt (suc v) _;
  sub = λ a b h k. mod-pow-lt (suc v) _;
  mul = λ a b h k. mod-pow-lt (suc v) _;
  div = λ a b h k. signed-div-lt v a b h;
  rem = λ a b h k. signed-rem-lt v a b h;
  and = λ a b h k. bit_and-lt (suc v) a b h;
  or = λ a b h k. bit_or-lt (suc v) a b h k;
  xor = λ a b h k. bit_xor-lt (suc v) a b h k;
  shl = λ a b h k. mod-pow-lt (suc v) _;
  shr = λ a b h k. signed-shr-lt v a _ h;
}

-- Every operator at an unsigned type gives, on any words, the word of a number of that width or a
-- truth value.
pub op-IsResult_unsigned :
    (w : ℕ) (o : Op) (a b : ℕ)
    → IsResult (Unsigned.numeric w) (2 ^ w) (op (Unsigned.numeric w) o a b)
unfolding op
op-IsResult_unsigned w o a b =
    apply-IsResult _ _ (unsigned-Closed w) o _ _ (mod-pow-lt w a) (mod-pow-lt w b)

-- Every operator at a signed type of at least one bit gives, on any words, the word of a pattern of
-- that width or a truth value.
pub op-IsResult_signed :
    (v : ℕ) (o : Op) (a b : ℕ)
    → IsResult (Signed.numeric (suc v)) (2 ^ suc v) (op (Signed.numeric (suc v)) o a b)
unfolding op
op-IsResult_signed v o a b =
    apply-IsResult _ _ (signed-Closed v) o _ _ (mod-pow-lt (suc v) a) (mod-pow-lt (suc v) b)
