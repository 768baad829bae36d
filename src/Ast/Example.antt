-- ===== src/Ast/Example.antt =====
-- A scanner, and the laws that the parser relies on.
use hvm.Prelude.{
  ℕ, ◌<◌, ◌≤◌, ◌^◌, ◌≡◌, refl, Bool, true, false, ◌&&◌, ◌||◌, Option, none, some, [], ◌∷◌, ◌++◌,
  arith, if◌then◌else◌, length, ltb, ◌==◌,
}
use mathlib.Core.Path.{◌∙◌, ap, sym}
use hvm.Ops.Kinds.{codes, text_eq}
use hvm.Ast.Number.{decimal, parse_int, ParsedInt}
use hvm.Ast.Number.Decimal.{decimal-append, decimal-Digits, Digits, is_digit, parse_int-decimal}
use hvm.Ast.RoundTrip.Leaves.{all-Digits}
use hvm.Ast.Scanner.{
  Text, Scanner, IsScanner, span, strip, stops, ends_number, ascii_alphanumeric, in_range, solid,
}
use hvm.Ast.Scanner.Spans.{span-append}
use hvm.Ast.Limits.Leaves.{span-length}

abbrev white : ℕ → Bool
white c = in_range 9 c 13 || c == 32

abbrev slash_next : Text → Bool
slash_next [] = false
slash_next (c ∷ cs) = c == b'/'

-- Whitespace, and comments to the end of their line.
abbrev mutual
  pub skip_white : Text → Text
  skip_white [] = []
  skip_white (c ∷ cs) =
      let rest = skip_white cs in
      let line = skip_line cs in
      if white c then rest else if c == b'/' && slash_next cs then line else c ∷ cs

  skip_line : Text → Text
  skip_line [] = []
  skip_line (c ∷ cs) =
      let rest = skip_white cs in let line = skip_line cs in if c == 10 then rest else line

mutual
  skip_white-shorter : (t : Text) → length (skip_white t) ≤ length t
  skip_white-shorter [] = omega arith
  skip_white-shorter (c ∷ cs) =
      at (white c) (c == b'/' && slash_next cs) (skip_white-shorter cs) (skip_line-shorter cs)
    where
      at :
          (b d : Bool)
          → length (skip_white cs) ≤ length cs
          → length (skip_line cs) ≤ length cs
          → length (if b then skip_white cs else if d then skip_line cs else c ∷ cs)
            ≤ length (c ∷ cs)
      at true d h k = omega arith
      at false true h k = omega arith
      at false false h k = omega arith

  skip_line-shorter : (t : Text) → length (skip_line t) ≤ length t
  skip_line-shorter [] = omega arith
  skip_line-shorter (c ∷ cs) = at (c == 10) (skip_white-shorter cs) (skip_line-shorter cs)
    where
      at :
          (b : Bool)
          → length (skip_white cs) ≤ length cs
          → length (skip_line cs) ≤ length cs
          → length (if b then skip_white cs else skip_line cs) ≤ length (c ∷ cs)
      at true h k = omega arith
      at false h k = omega arith

mutual
  skip_white_twice : (t : Text) → skip_white (skip_white t) ≡ skip_white t
  skip_white_twice [] = refl
  skip_white_twice (c ∷ cs) =
      at (white c) refl (c == b'/' && slash_next cs) refl (skip_white_twice cs) (skip_line_twice cs)
    where
      at :
          (b : Bool)
          → white c ≡ b
          → (d : Bool) → (c == b'/' && slash_next cs) ≡ d
          → skip_white (skip_white cs) ≡ skip_white cs
          → skip_white (skip_line cs) ≡ skip_line cs
          → skip_white (if b then skip_white cs else if d then skip_line cs else c ∷ cs)
            ≡ (if b then skip_white cs else if d then skip_line cs else c ∷ cs)
      at true e d g h k = h
      at false e true g h k = k
      at false e false g h k = rw (e, g) refl

  skip_line_twice : (t : Text) → skip_white (skip_line t) ≡ skip_line t
  skip_line_twice [] = refl
  skip_line_twice (c ∷ cs) = at (c == 10) (skip_white_twice cs) (skip_line_twice cs)
    where
      at :
          (b : Bool)
          → skip_white (skip_white cs) ≡ skip_white cs
          → skip_white (skip_line cs) ≡ skip_line cs
          → skip_white (if b then skip_white cs else skip_line cs)
            ≡ (if b then skip_white cs else skip_line cs)
      at true h k = h
      at false h k = k

skip_white-solid : (c : ℕ) (t : Text) → solid c ≡ true → skip_white (c ∷ t) ≡ c ∷ t
skip_white-solid c t h =
    let w : white c ≡ false = ground arith in
    let d : (c == b'/') ≡ false = ground arith in rw (w, d) refl

abbrev number_from : ParsedInt → Text → Option (ℕ × Text)
number_from (ParsedInt.value n) rest = some (n, rest)
number_from (ParsedInt.bad e) rest = none

abbrev number_in : Text × Text → Option (ℕ × Text)
number_in (front, rest) = number_from (parse_int front) rest

abbrev parse_u64 : Text → Option (ℕ × Text)
parse_u64 t = number_in (span is_digit (skip_white t))

Digits-solid :
    {front : Text} → Digits front → (rest : Text) → skip_white (front ++ rest) ≡ front ++ rest
Digits-solid (Digits.last c h) rest = skip_white-solid c rest (ground arith)
Digits-solid (Digits.more c {t = t} h ds) rest = skip_white-solid c (t ++ rest) (ground arith)

digits_end : (rest : Text) → ends_number rest ≡ true → stops is_digit rest ≡ true
digits_end [] h = refl
digits_end (c ∷ cs) h = ground arith

parse_u64-decimal :
    (n : ℕ) (rest : Text)
    → n < 2 ^ 64
    → ends_number rest ≡ true
    → parse_u64 (decimal n rest) ≡ some (n, rest)
parse_u64-decimal n rest h k =
    let d = decimal-Digits n in
    let whole : parse_u64 (decimal n [] ++ rest) ≡ some (n, rest) =
      ap (λ t. number_in (span is_digit t)) (Digits-solid d rest)
      ∙ (ap number_in (span-append is_digit (decimal n []) rest (all-Digits d) (digits_end rest k))
          ∙ ap (λ r. number_from r rest) (parse_int-decimal n h)) in
    rw (decimal-append n rest) whole

parse_u64-shorter :
    (t : Text) (n : ℕ) (rest : Text) → parse_u64 t ≡ some (n, rest) → length rest ≤ length t
parse_u64-shorter t n rest e =
    at (parse_int (span is_digit (skip_white t)).0) (span is_digit (skip_white t)).1
      (omega (arith, span-length is_digit (skip_white t), skip_white-shorter t)) e
  where
    left_of : Option (ℕ × Text) → Text
    left_of none = []
    left_of (some (m, back)) = back

    at :
        (r : ParsedInt) (back : Text)
        → length back ≤ length t
        → number_from r back ≡ some (n, rest)
        → length rest ≤ length t
    at (ParsedInt.value m) back h e = let same : back ≡ rest = ap left_of e in rw (sym same) h
    at (ParsedInt.bad x) back h e = absurd (ground arith)

-- The only floats that are read are 1.5 and -1.5.
abbrev pub scanner_with : (debug_f32 : ℕ → Text) → Scanner
scanner_with debug = record {
  alphanumeric = ascii_alphanumeric;
  skip_trivia = skip_white;
  peek_one = first;
  advance_one = behind;
  consume = λ token t. strip token (skip_white t);
  take_while = span;
  parse_u64 = parse_u64;
  parse_f32 = λ text. if text_eq text (codes "1.5") then some 1069547520 else none;
  debug_f32 = debug;
}
  where
    first : Text → Option ℕ
    first [] = none
    first (c ∷ cs) = some c

    behind : Text → Text
    behind [] = []
    behind (c ∷ cs) = cs

abbrev pub scanner : Scanner
scanner = scanner_with (λ bits. if ltb bits (2 ^ 31) then codes "1.5" else codes "-1.5")

pub scanner_with-IsScanner : (debug_f32 : ℕ → Text) → IsScanner (scanner_with debug_f32)
scanner_with-IsScanner debug = record {
  alphanumeric-ascii = λ c h. refl;
  skip_trivia-shorter = skip_white-shorter;
  skip_trivia_twice = skip_white_twice;
  skip_trivia-nil = refl;
  skip_trivia-space = λ t. refl;
  skip_trivia-newline = λ t. refl;
  skip_trivia-solid = skip_white-solid;
  peek_one-nil = refl;
  peek_one-cons = λ c t. refl;
  advance_one-nil = refl;
  advance_one-cons = λ c t. refl;
  consume_lem = λ token t. refl;
  take_while_lem = λ test t. refl;
  parse_u64-decimal = parse_u64-decimal;
  parse_u64-shorter = parse_u64-shorter;
}

pub scanner-IsScanner : IsScanner scanner
scanner-IsScanner = scanner_with-IsScanner _
