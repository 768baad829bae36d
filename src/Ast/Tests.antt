-- ===== src/Ast/Tests.antt =====
-- The theorems of the parser and the printer, applied.
use hvm.Prelude.{ℕ, ◌^◌, ◌-◌, ◌≡◌, refl, [], ◌∷◌, arith}
use hvm.Ops.Kinds.{Ty, Op, typed, codes, from_str}
use hvm.Ast.{Tree, Trees, Net, Book}
use hvm.Ast.Scanner.{Scanner}
use hvm.Ast.Result.{Parsed, ParseError}
use hvm.Ast.Parser.{parse_tree}
use hvm.Ast.Books.{tree_from_str, book_from_str}
use hvm.Ast.Number.{IntError, parse_int}
use hvm.Ast.Number.Decimal.{Digits}
use hvm.Ast.Printer.{write_tree, write_book}
use hvm.Ast.Limits.{
  WellFormed, AllWellFormed, RedexesWellFormed, NetWellFormed, BookWellFormed, Ascending, AllAbove,
  IsName,
}
use hvm.Ast.Limits.Fine.{Fine}
use hvm.Ast.Limits.Texts.{GoodNets, book_from_str-Fine}
use hvm.Ast.RoundTrip.Leaves.{ReadsFloat}
use hvm.Ast.RoundTrip.Books.{book_from_str-write_book}
use hvm.Ast.RoundTrip.Trees.{parse_tree-write_tree}
use hvm.Ast.RoundTrip.Exponent.{tree_from_str-exponent}
use hvm.Ast.Example.{scanner, scanner-IsScanner, scanner_with, scanner_with-IsScanner}

abbrev Reads : ℕ → Type 0
Reads = ReadsFloat scanner

-- {7 (:1:3 #-2 x) <+ #-1.5 @f>}
abbrev sample : Tree
sample = Tree.ctr 7 (
    Trees.and
      (Tree.adt 0 1 3
        (Trees.and (Tree.int (2 ^ 64 - 2)) (Trees.and (Tree.var (codes "x")) Trees.end)))
      (Trees.and (Tree.op (typed Ty.u60 Op.add) (Tree.f32 3217031168) (Tree.ref (codes "f")))
        Trees.end))

minus-Reads : Reads 3217031168
minus-Reads =
    ReadsFloat.negated (codes "1.5") 1069547520 refl (record { chars = refl; float = refl }) refl
      refl

name_x : IsName scanner (codes "x")
name_x = IsName.name _ _ refl

name_f : IsName scanner (codes "f")
name_f = IsName.name _ _ refl

sample-WellFormed : WellFormed scanner Reads sample
sample-WellFormed = WellFormed.ctr _ _ (omega arith) (omega arith) (
    AllWellFormed.and
      (WellFormed.adt _ _ _ _ (omega arith) (omega arith) (omega arith) (omega arith) (
        AllWellFormed.and (WellFormed.int _ (omega arith))
          (AllWellFormed.and (WellFormed.var _ name_x) AllWellFormed.end)))
      (AllWellFormed.and (WellFormed.op _ (WellFormed.f32 _ minus-Reads) (WellFormed.ref _ name_f))
        AllWellFormed.end))

parse_tree-write_tree_example :
    parse_tree scanner 20 (write_tree scanner sample (codes ") x")) ≡ Parsed.ok sample (codes ") x")
parse_tree-write_tree_example =
    parse_tree-write_tree scanner scanner-IsScanner sample-WellFormed 20 (omega arith) (codes ") x")
      refl

abbrev sample_net : Net
sample_net = record { root = sample; redexes = (Tree.era, sample) ∷ [] }

sample_net-WellFormed : NetWellFormed scanner Reads sample_net
sample_net-WellFormed = record {
  root = sample-WellFormed;
  redexes = RedexesWellFormed.also WellFormed.era sample-WellFormed RedexesWellFormed.none;
}

abbrev sample_book : Book
sample_book = record { nets = (codes "f", sample_net) ∷ (codes "main", sample_net) ∷ [] }

book_from_str-write_book_example :
    book_from_str scanner (write_book scanner sample_book) ≡ Parsed.ok sample_book []
book_from_str-write_book_example =
    book_from_str-write_book scanner scanner-IsScanner
      (BookWellFormed.also name_f sample_net-WellFormed
        (BookWellFormed.also (IsName.name _ _ refl) sample_net-WellFormed BookWellFormed.none))
      (Ascending.also (AllAbove.also refl AllAbove.none)
        (Ascending.also AllAbove.none Ascending.none))

book_from_str-Fine_example :
    Fine
      (λ book. GoodNets scanner scanner-IsScanner book.nets)
      1
      (book_from_str scanner (codes "@main = (a a) & * ~ #3"))
book_from_str-Fine_example =
    book_from_str-Fine scanner scanner-IsScanner (codes "@main = (a a) & * ~ #3")

-- A scanner whose floats all have the text of 1e16.
abbrev big_floats : Scanner
big_floats = scanner_with (λ bits. codes "1e16")

tree_from_str-exponent_example :
    tree_from_str big_floats (write_tree big_floats (Tree.f32 1510873545) [])
    ≡ Parsed.failed (ParseError.bad_int IntError.invalid_digit)
tree_from_str-exponent_example =
    tree_from_str-exponent big_floats (scanner_with-IsScanner _) 1510873545 b'1' (codes "16") refl
      refl (Digits.more _ refl (Digits.last _ refl))

printed_sample : write_tree scanner sample [] ≡ codes "{7 (:1:3 #-2 x) <+ #-1.5 @f>}"
unfolding write_tree
printed_sample = refl

parsed_sample :
    tree_from_str scanner (codes "{ 7 ( :1:3 #-0b10 x ) // comment\n<+ #-1.5 @f>}")
    ≡ Parsed.ok sample []
unfolding tree_from_str parse_tree parse_int from_str
parsed_sample = refl
