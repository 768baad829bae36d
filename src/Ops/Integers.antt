-- ===== src/Ops/Integers.antt =====
-- The signed integers of `Signed` as integers: what the patterns stand for, and what the operations
-- compute of them. The width is `suc v`, since a signed type has a sign bit.
use native.Mathlib.Nat.{pow-suc, mod-eq_of_lt, mod-eq-sub-mod}
use hvm.Prelude.{
  ℕ, suc, ◌+◌, ◌-◌, ◌*◌, ◌%◌, ◌^◌, ◌≤◌, ◌<◌, ◌≡◌, Bool, true, false, arith, ltb, leb, if◌then◌else◌,
  Bool-cases, inl, inr, ◌∙◌,
}
use hvm.Ops.Signed
use hvm.Ops.Signed.{is_neg, magnitude, extend, flip_sign, overflows}

-- `negsuc n` is -(n + 1).
pub data ℤ : Type 0 where
  pos : ℕ → ℤ
  negsuc : ℕ → ℤ

abbrev pub ltb_ℤ : ℤ → ℤ → Bool
ltb_ℤ (pos a) (pos b) = ltb a b
ltb_ℤ (pos a) (negsuc b) = false
ltb_ℤ (negsuc a) (pos b) = true
ltb_ℤ (negsuc a) (negsuc b) = ltb b a

-- The integer of a pattern of w bits.
abbrev pub value : (w a : ℕ) → ℤ
value w a = if is_neg w a then negsuc (2 ^ w - a - 1) else pos a

pow_double : (v : ℕ) → 2 ^ suc v ≡ 2 * 2 ^ v
pow_double v = omega (arith, pow-suc 2 v)

sub_suc : (v : ℕ) → suc v - 1 ≡ v
sub_suc v = omega arith

flip_mod : (m a : ℕ) → a < m + m → (a + m) % (m + m) ≡ (if leb m a then a - m else a + m)
flip_mod m a h = elim (Bool-cases (leb m a)) [
  | inl big ↦
      let fits : a - m < m + m = omega arith in
      let shifted : a + m - (m + m) ≡ a - m = ground arith in
      rw big (mod-eq-sub-mod (ground arith) ∙ rw shifted (mod-eq_of_lt fits))
  | inr small ↦ rw small (mod-eq_of_lt (ground arith))
]

-- With `m` for the weight of the sign bit.
lt_flipped :
    (m a b : ℕ)
    → a < m + m
    → b < m + m
    → ltb (if leb m a then a - m else a + m) (if leb m b then b - m else b + m)
      ≡ ltb_ℤ
          (if leb m a then negsuc (m + m - a - 1) else pos a)
          (if leb m b then negsuc (m + m - b - 1) else pos b)
lt_flipped m a b h k = elim (Bool-cases (leb m a)) [
  | inl p ↦
      rw p
        (elim (Bool-cases (leb m b)) [ inl q ↦ rw q (ground arith) | inr q ↦ rw q (ground arith) ])
  | inr p ↦
      rw p
        (elim (Bool-cases (leb m b)) [ inl q ↦ rw q (ground arith) | inr q ↦ rw q (ground arith) ])
]

-- `<` on a signed type is the order of the integers.
pub lt-value :
    (v a b : ℕ)
    → a < 2 ^ suc v
    → b < 2 ^ suc v
    → (Signed.numeric (suc v)).lt a b ≡ ltb_ℤ (value (suc v) a) (value (suc v) b)
lt-value v a b h k =
    let p : 2 ^ suc v ≡ 2 ^ v + 2 ^ v = omega (arith, pow-suc 2 v) in
    rw (sub_suc v, p)
      (rw (flip_mod (2 ^ v) a (omega arith), flip_mod (2 ^ v) b (omega arith))
        (lt_flipped (2 ^ v) a b (omega arith) (omega arith)))

-- Extension to a type at least as wide keeps the integer, and truncation undoes it.
pub extend-value :
    (v u a : ℕ)
    → a < 2 ^ suc v
    → 2 ^ suc v ≤ 2 ^ suc u
    → value (suc u) (extend (suc v) (suc u) a) ≡ value (suc v) a
extend-value v u a h k = rw sub_suc (ground (arith, pow_double v, pow_double u))
