-- ===== src/Ast/Limits/Leaves.antt =====
-- What the parser reads at the leaves of a tree.
use hvm.Prelude.{
  ℕ, suc, ◌+◌, ◌*◌, ◌^◌, ◌<◌, ◌≤◌, ◌≡◌, refl, Bool, true, false, ◌&&◌, Option, none, some, [], ◌∷◌,
  arith, if◌then◌else◌, length, ltb, ◌==◌,
}
use hvm.Ops.Kinds.{codes, from_str, ParseResult, parsed}
use hvm.Ast.Number.{ParsedInt, IntError, from_digits, from_str_radix, parse_int, to_digit}
use hvm.Ast.Scanner.{Text, Scanner, IsScanner, span, strip_from, keep, all}
use hvm.Ast.Result.{Parsed, ParseError, pure, fail}
use hvm.Ast.Parser.{
  take, take_while, took, parse_u64, parse_name, parse_op, parse_number, name_char, neg_i64,
  is_float, op_char, number_char, nonempty, known_op, float_of, int_of,
}
use hvm.Ast.Limits.{IsName, WellFormed}
use hvm.Ast.Limits.Fine.{Fine, Fine-bind, Fine-if_at, Any}

-- `span` takes accepted characters off the front.
pub span-length :
    (test : ℕ → Bool) (t : Text) → length (span test t).0 + length (span test t).1 ≡ length t
span-length test [] = refl
span-length test (c ∷ cs) = at (test c) (span-length test cs)
  where
    at :
        (b : Bool)
        → length (span test cs).0 + length (span test cs).1 ≡ length cs
        → length (keep b c cs (span test cs)).0 + length (keep b c cs (span test cs)).1
          ≡ suc (length cs)
    at true e = omega arith
    at false e = omega arith

pub span-all : (test : ℕ → Bool) (t : Text) → all test (span test t).0 ≡ true
span-all test [] = refl
span-all test (c ∷ cs) = at (test c) refl (span-all test cs)
  where
    at :
        (b : Bool)
        → test c ≡ b
        → all test (span test cs).0 ≡ true
        → all test (keep b c cs (span test cs)).0 ≡ true
    at true e h = rw (e, h) refl
    at false e h = refl

strip_from-shorter :
    (text token rest : Text)
    → length rest ≤ length text
    → length (strip_from text token rest).1 ≤ length text
strip_from-shorter text [] rest h = h
strip_from-shorter text (c ∷ cs) [] h = omega arith
strip_from-shorter text (c ∷ cs) (d ∷ ds) h =
    at (c == d) (strip_from-shorter text cs ds (omega arith))
  where
    at :
        (b : Bool)
        → length (strip_from text cs ds).1 ≤ length text
        → length ((if b then strip_from text cs ds else (false, text)).1) ≤ length text
    at true e = e
    at false e = omega arith

-- Nothing is claimed of a float.
abbrev pub AnyFloat : ℕ → Type 0
AnyFloat bits = Unit {0}

-- A parsed integer fits 64 bits.
data Small : ParsedInt → Type 0 where
  small : (n : ℕ) → n < 2 ^ 64 → Small (ParsedInt.value n)
  refused : (e : IntError) → Small (ParsedInt.bad e)

from_digits-Small :
    (radix total : ℕ) (t : Text) → total < 2 ^ 64 → Small (from_digits radix total t)
unfolding from_digits
from_digits-Small radix total [] h = Small.small total h
from_digits-Small radix total (c ∷ cs) h =
    at (to_digit radix c) (λ n k. from_digits-Small radix n cs k)
  where
    next :
        (b : Bool) (n : ℕ)
        → ltb n (2 ^ 64) ≡ b
        → (n < 2 ^ 64 → Small (from_digits radix n cs))
        → Small (if b then from_digits radix n cs else ParsedInt.bad IntError.pos_overflow)
    next true n e ih = ih (ground arith)
    next false n e ih = Small.refused _

    at :
        (o : Option ℕ)
        → ((n : ℕ) → n < 2 ^ 64 → Small (from_digits radix n cs))
        → Small (elim o [
          | none ↦ ParsedInt.bad IntError.invalid_digit
          | some d ↦
              if ltb (total * radix + d) (2 ^ 64)
              then from_digits radix (total * radix + d) cs
              else ParsedInt.bad IntError.pos_overflow
        ])
    at none ih = Small.refused _
    at (some d) ih =
        next (ltb (total * radix + d) (2 ^ 64)) (total * radix + d) refl (ih (total * radix + d))

either : {x y : ParsedInt} (b : Bool) → Small x → Small y → Small (if b then x else y)
either true h k = h
either false h k = k

from_str_radix-Small : (t : Text) (radix : ℕ) → Small (from_str_radix t radix)
unfolding from_str_radix
from_str_radix-Small [] radix = Small.refused _
from_str_radix-Small (c ∷ []) radix =
    either (c == b'+') (Small.refused _) (from_digits-Small radix 0 (c ∷ []) (omega arith))
from_str_radix-Small (c ∷ d ∷ ds) radix =
    either (c == b'+') (from_digits-Small radix 0 (d ∷ ds) (omega arith))
      (from_digits-Small radix 0 (c ∷ d ∷ ds) (omega arith))

parse_int-Small : (t : Text) → Small (parse_int t)
unfolding parse_int
parse_int-Small [] = from_str_radix-Small [] 10
parse_int-Small (c ∷ []) = from_str_radix-Small (c ∷ []) 10
parse_int-Small (a ∷ b ∷ rest) = either (a == b'0' && b == b'x') (from_str_radix-Small rest 16) (
    either (a == b'0' && b == b'b') (from_str_radix-Small rest 2)
      (from_str_radix-Small (a ∷ b ∷ rest) 10))

module _ (s : Scanner) (laws : IsScanner s) where
  consume-shorter : (token t : Text) → length (s.consume token t).1 ≤ length t
  consume-shorter token t = rw (laws.consume_lem token t) (
      omega (
        arith,
        strip_from-shorter (s.skip_trivia t) token (s.skip_trivia t),
        laws.skip_trivia-shorter t,
      ))

  pub advance-shorter : (t : Text) → length (s.advance_one t) ≤ length t
  advance-shorter [] = rw laws.advance_one-nil (omega arith)
  advance-shorter (c ∷ cs) = rw (laws.advance_one-cons c cs) (omega arith)

  pub took-Fine : (token t : Text) → Fine Any (suc (length t)) (took s token t)
  took-Fine token t = Fine.ok _ _ tt (omega (arith, consume-shorter token t))

  pub take-Fine : (token t : Text) → Fine Any (suc (length t)) (take s token t)
  take-Fine token t = at (s.consume token t).0 (consume-shorter token t)
    where
      at :
          (b : Bool)
          → length (s.consume token t).1 ≤ length t
          → Fine Any
              (suc (length t))
              ((if b then pure tt else fail (ParseError.expected token)) (s.consume token t).1)
      at true h = Fine.ok tt _ tt (omega arith)
      at false h = Fine.failed _ refl

  pub parse_u64-Fine : (t : Text) → Fine Any (suc (length t)) (parse_u64 s t)
  parse_u64-Fine t = at (s.parse_u64 t) refl
    where
      at :
          (o : Option (ℕ × Text))
          → s.parse_u64 t ≡ o
          → Fine Any (suc (length t)) (elim o [
            | none ↦ Parsed.failed ParseError.bad_number
            | some (n, rest) ↦ Parsed.ok n rest
          ])
      at none e = Fine.failed _ refl
      at (some (n, rest)) e = Fine.ok n rest tt (omega (arith, laws.parse_u64-shorter t n rest e))

  -- Characters that satisfy the test, and at least one if any are taken off.
  take_while-Fine :
      (test : ℕ → Bool) (t : Text)
      → Fine (λ front. all test front ≡ true) (suc (length t)) (take_while s test t)
  take_while-Fine test t = rw (laws.take_while_lem test t) (
      Fine.ok (span test t).0 (span test t).1 (span-all test t) (omega (arith, span-length test t)))

  pub parse_name-Fine : (t : Text) → Fine (IsName s) (length t) (parse_name s t)
  unfolding parse_name
  parse_name-Fine t = rw (laws.take_while_lem (name_char s) t) (
      at (span (name_char s) t).0 (span (name_char s) t).1 (span-all (name_char s) t)
        (span-length (name_char s) t))
    where
      at :
          (front back : Text)
          → all (name_char s) front ≡ true
          → length front + length back ≡ length t
          → Fine (IsName s) (length t) (nonempty front back)
      at [] back h l = Fine.failed _ refl
      at (c ∷ cs) back h l = Fine.ok (c ∷ cs) back (IsName.name c cs h) (omega arith)

  pub parse_op-Fine : (t : Text) → Fine Any (suc (length t)) (parse_op s t)
  unfolding parse_op
  parse_op-Fine t =
      Fine-bind (take_while-Fine (op_char s) t) (λ op rest q h. at op rest h (from_str op))
    where
      at :
          (op rest : Text)
          → length rest < suc (length t)
          → (r : ParseResult) → Fine Any (suc (length t)) (known_op op r rest)
      at op rest h (parsed o) = Fine.ok o rest tt h
      at op rest h _ = Fine.failed _ refl

  int_of-Fine :
      (is_neg : Bool) (n : ℕ) (t : Text) {r : ParsedInt}
      → Small r
      → length t < n
      → Fine (WellFormed s AnyFloat) n (int_of is_neg r t)
  int_of-Fine is_neg n t (Small.refused e) h = Fine.failed _ refl
  int_of-Fine is_neg n t (Small.small v l) h = Fine.ok _ t (WellFormed.int _ (fits is_neg)) h
    where
      fits : (b : Bool) → (if b then neg_i64 v else v) < 2 ^ 64
      fits true = omega arith
      fits false = l

  float_of-Fine :
      (is_neg : Bool) (n : ℕ) (t : Text) (o : Option ℕ)
      → length t < n
      → Fine (WellFormed s AnyFloat) n (float_of is_neg o t)
  float_of-Fine is_neg n t none h = Fine.failed _ refl
  float_of-Fine is_neg n t (some bits) h = Fine.ok _ t (WellFormed.f32 _ tt) h

  pub parse_number-Fine :
      (t : Text) → Fine (WellFormed s AnyFloat) (suc (length t)) (parse_number s t)
  unfolding parse_number
  parse_number-Fine t = Fine-bind (took-Fine (codes "-") t) (λ is_neg t1 q h.
      Fine-bind (take_while-Fine (number_char s) t1) (λ num t2 q2 h2.
        Fine-if_at (is_float num) (float_of is_neg (s.parse_f32 num))
          (int_of is_neg (parse_int num)) t2
          (float_of-Fine is_neg (suc (length t)) t2 (s.parse_f32 num) (omega arith))
          (int_of-Fine is_neg (suc (length t)) t2 (parse_int-Small num) (omega arith))))
