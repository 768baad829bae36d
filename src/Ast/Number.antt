-- ===== src/Ast/Number.antt =====
-- Integers as text: `Display for u64` and `i64`, and `parse_int` with the standard library's
-- `u64::from_str_radix` (src/ast.rs). A text is the list of its characters' codes.
pub mod Decimal
use Prim.Native.Nat.{ℕ, zero, suc, ◌+◌, ◌-◌, ◌*◌, ◌/◌, ◌%◌, ◌^◌}
use hvm.Prelude.{Bool, ◌&&◌, Option, none, some, List, [], ◌∷◌, ltb, leb, ◌==◌, if◌then◌else◌}

-- The decimal digits of `n` in front of `rest`, at most `fuel` of them before the last.
digits : (fuel n : ℕ) → List ℕ → List ℕ
digits zero n rest = (b'0' + n % 10) ∷ rest
digits (suc fuel) n rest =
    let front = digits fuel (n / 10) ((b'0' + n % 10) ∷ rest) in
    if ltb n 10 then (b'0' + n % 10) ∷ rest else front

unfoldable pub decimal : ℕ → List ℕ → List ℕ
unfolding digits
decimal n rest = digits n n rest

-- A 64-bit pattern as a signed number.
unfoldable pub signed : ℕ → List ℕ → List ℕ
signed bits rest =
    if ltb bits (2 ^ 63) then decimal bits rest else b'-' ∷ decimal (2 ^ 64 - bits) rest

pub data IntError : Type 0 where
  empty invalid_digit pos_overflow : IntError

pub data ParsedInt : Type 0 where
  value : ℕ → ParsedInt
  bad : IntError → ParsedInt

-- `char::to_digit`, on the value of a digit of any radix up to 36.
abbrev pub digit_value : ℕ → Option ℕ
digit_value c =
    if leb b'0' c && leb c b'9'
    then some (c - b'0')
    else if leb b'a' c && leb c b'z'
    then some (c - b'a' + 10)
    else if leb b'A' c && leb c b'Z'
    then some (c - b'A' + 10)
    else none

abbrev pub to_digit : (radix c : ℕ) → Option ℕ
to_digit radix c = elim (digit_value c) [
  | none ↦ none
  | some d ↦ if ltb d radix then some d else none
]

unfoldable pub from_digits : (radix total : ℕ) → List ℕ → ParsedInt
from_digits radix total [] = ParsedInt.value total
from_digits radix total (c ∷ cs) = elim (to_digit radix c) [
  | none ↦ ParsedInt.bad IntError.invalid_digit
  | some d ↦
      if ltb (total * radix + d) (2 ^ 64)
      then from_digits radix (total * radix + d) cs
      else ParsedInt.bad IntError.pos_overflow
]

-- `u64::from_str_radix`: an optional plus sign and at least one digit.
unfoldable pub from_str_radix : List ℕ → (radix : ℕ) → ParsedInt
unfolding from_digits
from_str_radix [] radix = ParsedInt.bad IntError.empty
from_str_radix (c ∷ []) radix =
    if c == b'+' then ParsedInt.bad IntError.invalid_digit else from_digits radix 0 (c ∷ [])
from_str_radix (c ∷ d ∷ ds) radix =
    if c == b'+' then from_digits radix 0 (d ∷ ds) else from_digits radix 0 (c ∷ d ∷ ds)

-- `parse_int`
unfoldable pub parse_int : List ℕ → ParsedInt
unfolding from_str_radix
parse_int (a ∷ b ∷ rest) =
    if a == b'0' && b == b'x'
    then from_str_radix rest 16
    else if a == b'0' && b == b'b'
    then from_str_radix rest 2
    else from_str_radix (a ∷ b ∷ rest) 10
parse_int input = from_str_radix input 10
