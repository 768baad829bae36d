-- ===== src/Ast/Books.antt =====
-- The parser of src/ast.rs, from the pairs of a net to whole books, and `from_str`. `fuel` bounds the
-- turns of the loops, too.
use hvm.Prelude.{
  ℕ, zero, suc, ◌+◌, ◌*◌, Bool, true, false, List, [], ◌∷◌, ltb, if◌then◌else◌, length,
}
use hvm.Ops.Kinds.{codes}
use hvm.Ast.{Name, Tree, Net, Book}
use hvm.Ast.Scanner.{Scanner}
use hvm.Ast.Result.{ParseError, Parsed, P, pure, fail, ◌>>=◌, ◌>>◌}
use hvm.Ast.Parser.{took, take, parse_name, parse_tree}

-- `Ord for String`, and `BTreeMap::insert` into the entries in the order of their keys.
abbrev pub name_lt : Name → Name → Bool
name_lt [] [] = false
name_lt [] (b ∷ bs) = true
name_lt (a ∷ as') [] = false
name_lt (a ∷ as') (b ∷ bs) =
    let rest = name_lt as' bs in if ltb a b then true else if ltb b a then false else rest

abbrev pub book_insert : List (Name × Net) → Name → Net → List (Name × Net)
book_insert [] name net = (name, net) ∷ []
book_insert ((key, value) ∷ book) name net =
    let rest = book_insert book name net in
    if name_lt name key
    then (name, net) ∷ (key, value) ∷ book
    else if name_lt key name
    then (key, value) ∷ rest
    else (name, net) ∷ book

abbrev pub Redexes : Type 0
Redexes = List (Tree × Tree)

abbrev pub at_end {ℓ} : {A : Type ℓ} → A → P A
at_end a [] = Parsed.ok a []
at_end a (c ∷ cs) = Parsed.failed ParseError.not_whole

module _ (s : Scanner) where
  -- One turn of `while self.consume("&").is_ok()`.
  unfoldable pub one_redex : P Tree → P Redexes → P Redexes
  one_redex tree more = took s (codes "&") >>= λ found. if found then redex else pure []
    where
      redex : P Redexes
      redex = do
        tree1 ← tree
        take s (codes "~")
        tree2 ← tree
        redexes ← more
        pure ((tree1, tree2) ∷ redexes)

  unfoldable pub parse_redexes : (fuel : ℕ) → P Tree → P Redexes
  unfolding one_redex
  parse_redexes zero tree = fail ParseError.out_of_fuel
  parse_redexes (suc fuel) tree = one_redex tree (parse_redexes fuel tree)

  unfoldable pub parse_net : (fuel : ℕ) → P Net
  unfolding parse_tree parse_redexes
  parse_net fuel = do
    root ← parse_tree s fuel
    redexes ← parse_redexes fuel (parse_tree s fuel)
    pure (record { root = root; redexes = redexes })

  -- One turn of `while self.consume("@").is_ok()`.
  unfoldable pub one_net :
      P Net
      → (List (Name × Net) → P (List (Name × Net)))
      → List (Name × Net)
      → P (List (Name × Net))
  unfolding parse_name
  one_net net more book = took s (codes "@") >>= λ found. if found then named else pure book
    where
      named : P (List (Name × Net))
      named = do name ← parse_name s; take s (codes "="); n ← net; more (book_insert book name n)

  unfoldable pub parse_nets : (fuel : ℕ) → P Net → List (Name × Net) → P (List (Name × Net))
  unfolding one_net
  parse_nets zero net book = fail ParseError.out_of_fuel
  parse_nets (suc fuel) net book = one_net net (parse_nets fuel net) book

  unfoldable pub parse_book : (fuel : ℕ) → P Book
  unfolding parse_net parse_nets
  parse_book fuel = parse_nets fuel (parse_net fuel) [] >>= λ nets. pure (record { nets = nets })

  -- `parse_eof`, with fuel for any text of that length.
  unfoldable pub parse_eof {ℓ} : {A : Type ℓ} → ((fuel : ℕ) → P A) → P A
  parse_eof parse input = (parse (2 * length input + 2) >>= at_end) input

  -- `from_str`
  unfoldable pub tree_from_str : P Tree
  unfolding parse_eof parse_tree
  tree_from_str = parse_eof (parse_tree s)

  unfoldable pub net_from_str : P Net
  unfolding parse_eof parse_net
  net_from_str = parse_eof parse_net

  unfoldable pub book_from_str : P Book
  unfolding parse_eof parse_book
  book_from_str = parse_eof parse_book
