-- ===== src/Ast/Number/Decimal.antt =====
-- Decimal text: its characters are digits, and reading them gives the number back.
use Prim.Native.Nat.{ℕ, zero, suc, ◌+◌, ◌*◌, ◌/◌, ◌%◌, ◌^◌, ◌≤◌, ◌<◌}
use hvm.Prelude.{
  ◌≡◌, refl, Bool, true, false, ◌&&◌, List, [], ◌∷◌, ◌++◌, ltb, leb, ◌==◌, arith, if◌then◌else◌,
}
use mathlib.Core.Path.{ap, ◌∙◌}
use hvm.Ast.Number.{digits, decimal, from_digits, parse_int, ParsedInt, IntError}

abbrev digit : ℕ → ℕ
digit n = b'0' + n % 10

abbrev pub is_digit : ℕ → Bool
is_digit c = leb b'0' c && leb c b'9'

digits-append : (fuel n : ℕ) (xs ys : List ℕ) → digits fuel n (xs ++ ys) ≡ digits fuel n xs ++ ys
unfolding digits
digits-append zero n xs ys = refl
digits-append (suc fuel) n xs ys = at (ltb n 10) (digits-append fuel (n / 10) (digit n ∷ xs) ys)
  where
    at :
        (b : Bool)
        → digits fuel (n / 10) (digit n ∷ (xs ++ ys)) ≡ digits fuel (n / 10) (digit n ∷ xs) ++ ys
        → (if b then digit n ∷ (xs ++ ys) else digits fuel (n / 10) (digit n ∷ (xs ++ ys)))
          ≡ (if b then digit n ∷ xs else digits fuel (n / 10) (digit n ∷ xs)) ++ ys
    at true e = refl
    at false e = e

pub decimal-append : (n : ℕ) (rest : List ℕ) → decimal n rest ≡ decimal n [] ++ rest
unfolding decimal
decimal-append n rest = digits-append n n [] rest

-- A text of digits, at least one.
pub data Digits : List ℕ → Type 0 where
  last : (c : ℕ) → is_digit c ≡ true → Digits (c ∷ [])
  more : (c : ℕ) {t : List ℕ} → is_digit c ≡ true → Digits t → Digits (c ∷ t)

digits-Digits : (fuel n : ℕ) (t : List ℕ) → Digits (digit n ∷ t) → Digits (digits fuel n t)
unfolding digits
digits-Digits zero n t d = d
digits-Digits (suc fuel) n t d =
    at (ltb n 10) (digits-Digits fuel (n / 10) (digit n ∷ t) (Digits.more _ (ground arith) d))
  where
    at :
        (b : Bool)
        → Digits (digits fuel (n / 10) (digit n ∷ t))
        → Digits (if b then digit n ∷ t else digits fuel (n / 10) (digit n ∷ t))
    at true e = d
    at false e = e

pub decimal-Digits : (n : ℕ) → Digits (decimal n [])
unfolding decimal
decimal-Digits n = digits-Digits n n [] (Digits.last _ (ground arith))

from_digits-step :
    (total n : ℕ) (t : List ℕ)
    → total * 10 + n % 10 < 2 ^ 64
    → from_digits 10 total (digit n ∷ t) ≡ from_digits 10 (total * 10 + n % 10) t
unfolding from_digits
from_digits-step total n t h = ground arith

from_digits-digits :
    (fuel n : ℕ) (t : List ℕ)
    → n ≤ fuel
    → n < 2 ^ 64
    → from_digits 10 0 (digits fuel n t) ≡ from_digits 10 n t
unfolding digits
from_digits-digits zero n t h k = ground (arith, from_digits-step 0 n t)
from_digits-digits (suc fuel) n t h k =
    at (ltb n 10) refl (from_digits-digits fuel (n / 10) (digit n ∷ t) (omega arith) (omega arith))
  where
    at :
        (b : Bool)
        → ltb n 10 ≡ b
        → from_digits 10 0 (digits fuel (n / 10) (digit n ∷ t))
          ≡ from_digits 10 (n / 10) (digit n ∷ t)
        → from_digits 10 0 (if b then digit n ∷ t else digits fuel (n / 10) (digit n ∷ t))
          ≡ from_digits 10 n t
    at true e ih = ground (arith, from_digits-step 0 n t)
    at false e ih =
        let whole : (n / 10) * 10 + n % 10 ≡ n = omega arith in
        ih
        ∙ (from_digits-step (n / 10) n t (omega arith) ∙ ap (λ (x : ℕ). from_digits 10 x t) whole)

-- Digits have no radix prefix and no sign.
parse_int-Digits : {t : List ℕ} → Digits t → parse_int t ≡ from_digits 10 0 t
unfolding parse_int
parse_int-Digits (Digits.last c h) = plain (c == b'+') (ground arith)
  where
    plain :
        (b : Bool)
        → b ≡ false
        → (if b then ParsedInt.bad IntError.invalid_digit else from_digits 10 0 (c ∷ []))
          ≡ from_digits 10 0 (c ∷ [])
    plain false e = refl
    plain true e = absurd (ground arith)
parse_int-Digits (Digits.more c h (Digits.last d k)) = ground arith
parse_int-Digits (Digits.more c h (Digits.more d k ds)) = ground arith

-- Decimal text of a 64-bit number parses to that number.
pub parse_int-decimal : (n : ℕ) → n < 2 ^ 64 → parse_int (decimal n []) ≡ ParsedInt.value n
unfolding decimal from_digits
parse_int-decimal n h =
    parse_int-Digits (decimal-Digits n) ∙ from_digits-digits n n [] (omega arith) h
