-- ===== src/Ast/Scanner.antt =====
-- The scanner below the parser of src/ast.rs: the methods of the third-party trait `TSPL::Parser` and
-- the parts of `char` and `f32` in the standard library that the parser and the printer call. They are
-- parameters. A parser's state is the text it has not read yet.
pub mod Spans
use hvm.Prelude.{
  ℕ, ◌+◌, ◌-◌, ◌<◌, ◌^◌, ◌≡◌, Bool, true, false, ◌&&◌, ◌||◌, not, Option, none, some, List, [], ◌∷◌,
  ltb, length, ◌≤◌, leb, ◌==◌, if◌then◌else◌,
}
use hvm.Ast.Number.{decimal}

abbrev pub Text : Type 0
Text = List ℕ

abbrev pub strip_from : (text token rest : Text) → Bool × Text
strip_from text [] rest = (true, rest)
strip_from text (c ∷ cs) [] = (false, text)
strip_from text (c ∷ cs) (d ∷ ds) =
    let more = strip_from text cs ds in if c == d then more else (false, text)

-- Whether the text starts with the token, and what stands behind it; all of the text otherwise.
abbrev pub strip : (token text : Text) → Bool × Text
strip token text = strip_from text token text

abbrev pub keep : Bool → ℕ → Text → Text × Text → Text × Text
keep true c cs (front, back) = (c ∷ front, back)
keep false c cs found = ([], c ∷ cs)

-- The longest prefix of characters that satisfy the test, and the rest.
abbrev pub span : (ℕ → Bool) → Text → Text × Text
span test [] = ([], [])
span test (c ∷ cs) = keep (test c) c cs (span test cs)

abbrev pub all : (ℕ → Bool) → Text → Bool
all test [] = true
all test (c ∷ cs) = test c && all test cs

-- A prefix of characters that satisfy the test ends before this text.
abbrev pub stops : (ℕ → Bool) → Text → Bool
stops test [] = true
stops test (c ∷ cs) = not (test c)

pub record Scanner : Type 0 where
  pub alphanumeric : ℕ → Bool
  pub skip_trivia : Text → Text
  pub peek_one : Text → Option ℕ
  pub advance_one : Text → Text
  -- whether the token was there, with the text that is left in either case
  pub consume : (token : Text) → Text → Bool × Text
  pub take_while : (ℕ → Bool) → Text → Text × Text
  pub parse_u64 : Text → Option (ℕ × Text)
  pub parse_f32 : Text → Option ℕ
  pub debug_f32 : ℕ → Text

abbrev pub in_range : ℕ → ℕ → ℕ → Bool
in_range low c high = leb low c && leb c high

abbrev pub ascii_alphanumeric : ℕ → Bool
ascii_alphanumeric c = in_range b'0' c b'9' || (in_range b'A' c b'Z' || in_range b'a' c b'z')

-- Neither whitespace nor the start of a comment.
abbrev pub solid : ℕ → Bool
solid c = not (in_range 9 c 13 || (c == 32 || c == 47))

-- Nothing that a number could go on with.
abbrev pub ends_number : Text → Bool
ends_number = stops (λ c. ascii_alphanumeric c || c == b'_')

-- What the parser relies on of them.
pub record IsScanner (s : Scanner) : Type 0 where
  pub alphanumeric-ascii : (c : ℕ) → c < 128 → s.alphanumeric c ≡ ascii_alphanumeric c
  pub skip_trivia-shorter : (t : Text) → length (s.skip_trivia t) ≤ length t
  pub skip_trivia_twice : (t : Text) → s.skip_trivia (s.skip_trivia t) ≡ s.skip_trivia t
  pub skip_trivia-nil : s.skip_trivia [] ≡ []
  pub skip_trivia-space : (t : Text) → s.skip_trivia (b' ' ∷ t) ≡ s.skip_trivia t
  pub skip_trivia-newline : (t : Text) → s.skip_trivia (10 ∷ t) ≡ s.skip_trivia t
  pub skip_trivia-solid : (c : ℕ) (t : Text) → solid c ≡ true → s.skip_trivia (c ∷ t) ≡ c ∷ t
  pub peek_one-nil : s.peek_one [] ≡ none
  pub peek_one-cons : (c : ℕ) (t : Text) → s.peek_one (c ∷ t) ≡ some c
  pub advance_one-cons : (c : ℕ) (t : Text) → s.advance_one (c ∷ t) ≡ t
  pub advance_one-nil : s.advance_one [] ≡ []
  pub consume_lem : (token t : Text) → s.consume token t ≡ strip token (s.skip_trivia t)
  pub take_while_lem : (test : ℕ → Bool) (t : Text) → s.take_while test t ≡ span test t
  pub parse_u64-decimal :
      (n : ℕ) (rest : Text)
      → n < 2 ^ 64
      → ends_number rest ≡ true
      → s.parse_u64 (decimal n rest) ≡ some (n, rest)
  pub parse_u64-shorter :
      (t : Text) (n : ℕ) (rest : Text) → s.parse_u64 t ≡ some (n, rest) → length rest ≤ length t
