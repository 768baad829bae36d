-- ===== src/Ops/Order.antt =====
-- The comparisons at a signed type (src/ops/num.rs, src/ops.rs), on words.
use hvm.Prelude.{
  ℕ, suc, ◌+◌, ◌-◌, ◌%◌, ◌^◌, ◌<◌, ◌≡◌, Bool, not, arith, ltb, leb, ◌==◌, if◌then◌else◌, Bool-cases,
  inl, inr, ap, ◌∙◌, false,
}
use native.Mathlib.Nat.{pow-suc}
use hvm.Ops.Kinds.{Op}
use hvm.Ops.Apply.{op, apply, word}
use hvm.Ops.Numeric.{Numeric}
use hvm.Ops.Signed
use hvm.Ops.Signed.{flip_sign}
use hvm.Ops.Bounds.{mod-pow-lt}
use hvm.Ops.Integers.{ℤ, ltb_ℤ, value, lt-value}

abbrev pub eqb_ℤ : ℤ → ℤ → Bool
eqb_ℤ (ℤ.pos a) (ℤ.pos b) = a == b
eqb_ℤ (ℤ.pos a) (ℤ.negsuc b) = false
eqb_ℤ (ℤ.negsuc a) (ℤ.pos b) = false
eqb_ℤ (ℤ.negsuc a) (ℤ.negsuc b) = a == b

-- The integer that a word is at a signed type of w bits.
abbrev pub integer : (w bits : ℕ) → ℤ
integer w bits = value w (bits % 2 ^ w)

eq_patterns :
    (m a b : ℕ)
    → a < m + m
    → b < m + m
    → (a == b)
      ≡ eqb_ℤ
          (if leb m a then ℤ.negsuc (m + m - a - 1) else ℤ.pos a)
          (if leb m b then ℤ.negsuc (m + m - b - 1) else ℤ.pos b)
eq_patterns m a b h k = elim (Bool-cases (leb m a)) [
  | inl p ↦
      rw p
        (elim (Bool-cases (leb m b)) [ inl q ↦ rw q (ground arith) | inr q ↦ rw q (ground arith) ])
  | inr p ↦
      rw p
        (elim (Bool-cases (leb m b)) [ inl q ↦ rw q (ground arith) | inr q ↦ rw q (ground arith) ])
]

eq-value :
    (v a b : ℕ)
    → a < 2 ^ suc v
    → b < 2 ^ suc v
    → (a == b) ≡ eqb_ℤ (value (suc v) a) (value (suc v) b)
eq-value v a b h k =
    let p : 2 ^ suc v ≡ 2 ^ v + 2 ^ v = omega (arith, pow-suc 2 v) in
    let less : suc v - 1 ≡ v = omega arith in
    rw (less, p) (eq_patterns (2 ^ v) a b (omega arith) (omega arith))

leb-not-ltb : (a b : ℕ) → leb a b ≡ not (ltb b a)
leb-not-ltb a b = ground arith

-- The six comparisons of two words are those of two integers.
abbrev pub ComparesAs : {T : Type 0} → Numeric T → (a b : ℕ) → (x y : ℤ) → Type 0
ComparesAs n a b x y =
    (op n Op.eq a b ≡ word (eqb_ℤ x y))
    × (op n Op.ne a b ≡ word (not (eqb_ℤ x y)))
    × (op n Op.lt a b ≡ word (ltb_ℤ x y))
    × (op n Op.le a b ≡ word (not (ltb_ℤ y x)))
    × (op n Op.gt a b ≡ word (ltb_ℤ y x))
    × (op n Op.ge a b ≡ word (not (ltb_ℤ x y)))

-- At a signed type of at least one bit, the six comparisons of any two words give 1 or 0 as the
-- integers compare that their low bits stand for in two's complement.
pub op-ComparesAs :
    (v a b : ℕ) → ComparesAs (Signed.numeric (suc v)) a b (integer (suc v) a) (integer (suc v) b)
unfolding op apply
op-ComparesAs v a b =
    let h : a % 2 ^ suc v < 2 ^ suc v = mod-pow-lt (suc v) a in
    let k : b % 2 ^ suc v < 2 ^ suc v = mod-pow-lt (suc v) b in
    let same = eq-value v (a % 2 ^ suc v) (b % 2 ^ suc v) h k in
    let less = lt-value v (a % 2 ^ suc v) (b % 2 ^ suc v) h k in
    let more = lt-value v (b % 2 ^ suc v) (a % 2 ^ suc v) k h in
    (
      ap word same,
      ap (λ t. word (not t)) same,
      ap word less,
      ap word (leb-not-ltb _ _ ∙ ap not more),
      ap word more,
      ap word (leb-not-ltb _ _ ∙ ap not less),
    )
