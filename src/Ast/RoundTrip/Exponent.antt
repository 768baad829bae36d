-- ===== src/Ast/RoundTrip/Exponent.antt =====
-- A float whose text has an exponent and no point.
use hvm.Prelude.{
  ℕ, zero, suc, ◌+◌, ◌*◌, ◌<◌, ◌≡◌, refl, true, false, [], ◌∷◌, ◌++◌, ◌==◌, arith, length,
}
use mathlib.Core.Path.{◌∙◌}
use hvm.Ops.Kinds.{codes}
use hvm.Ast.{Tree}
use hvm.Ast.Number.{IntError, ParsedInt, parse_int, from_str_radix, from_digits}
use hvm.Ast.Number.Decimal.{Digits, is_digit}
use hvm.Ast.Scanner.{Text, Scanner, IsScanner, all}
use hvm.Ast.Scanner.Spans.{all-weaken}
use hvm.Ast.Result.{Parsed, ParseError}
use hvm.Ast.Parser.{contains, number_char, parse_number, parse_tree, parse_until}
use hvm.Ast.Books.{parse_eof, tree_from_str}
use hvm.Ast.Printer.{write_tree}
use hvm.Ast.RoundTrip.Leaves.{contains-Digits, number_char-digit, parse_number-plain, all-Digits}
use hvm.Ast.RoundTrip.Nodes.{parse_any-number}

-- A digit, an `e` and digits.
abbrev pub exponent : (c : ℕ) → Text → Text
exponent c ds = c ∷ b'e' ∷ ds

contains-exponent :
    (p : ℕ) (part : Text) (c : ℕ) {ds : Text}
    → is_digit p ≡ false
    → (p == b'e') ≡ false
    → is_digit c ≡ true
    → Digits ds
    → contains (p ∷ part) (exponent c ds) ≡ false
contains-exponent p part c h e k d =
    let first : (p == c) ≡ false = ground arith in rw (first, e, contains-Digits p part h d) refl

parse_int-exponent :
    (c : ℕ) (ds : Text)
    → is_digit c ≡ true
    → parse_int (exponent c ds) ≡ ParsedInt.bad IntError.invalid_digit
unfolding parse_int from_str_radix from_digits
parse_int-exponent c ds h = ground arith

module _ (s : Scanner) (laws : IsScanner s) where
  parse_tree-number : (f : ℕ) (t : Text) → 0 < f → parse_tree s f (b'#' ∷ t) ≡ parse_number s t
  unfolding parse_tree
  parse_tree-number zero t h = absurd (omega arith)
  parse_tree-number (suc f) t h = parse_any-number s laws (parse_tree s f) (parse_until s f) t

  -- If the text of a float is a digit, an e and digits, then the printed tree of the float does not
  -- parse: the parser takes it for an integer and reports an invalid digit, over any scanner that
  -- keeps its laws.
  pub tree_from_str-exponent :
      (bits c : ℕ) (ds : Text)
      → s.debug_f32 bits ≡ exponent c ds
      → is_digit c ≡ true
      → Digits ds
      → tree_from_str s (write_tree s (Tree.f32 bits) [])
        ≡ Parsed.failed (ParseError.bad_int IntError.invalid_digit)
  unfolding tree_from_str parse_eof write_tree
  tree_from_str-exponent bits c ds e h d = rw e (
      rw
        (parse_tree-number (2 * length (b'#' ∷ (exponent c ds ++ [])) + 2) (exponent c ds ++ [])
          (omega arith))
        (rw number refl))
    where
      chars : all (number_char s) (exponent c ds) ≡ true
      chars =
          let letter : s.alphanumeric b'e' ≡ true = laws.alphanumeric-ascii b'e' (omega arith) in
          rw (number_char-digit s laws c h)
            (rw letter (all-weaken (number_char-digit s laws) ds (all-Digits d)))

      number :
          parse_number s (exponent c ds ++ [])
          ≡ Parsed.failed (ParseError.bad_int IntError.invalid_digit)
      number =
          parse_number-plain s laws (exponent c ds) [] (c, b'e' ∷ ds, refl) chars refl
          ∙ rw (contains-exponent b'.' [] c refl refl h d) (
              rw (contains-exponent b'N' (codes "aN") c refl refl h d) (
                rw (contains-exponent b'i' (codes "nf") c refl refl h d)
                  (rw (parse_int-exponent c ds h) refl)))
