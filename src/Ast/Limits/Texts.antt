-- ===== src/Ast/Limits/Texts.antt =====
-- What the parser reads as a tree, a net and a book, with fuel for the text's length.
use hvm.Prelude.{
  ℕ, zero, suc, ◌+◌, ◌*◌, ◌<◌, ◌≤◌, refl, Bool, true, false, List, [], ◌∷◌, arith, if◌then◌else◌,
  length,
}
use hvm.Ops.Kinds.{codes}
use hvm.Ast.{Name, Tree, Trees, Net}
use hvm.Ast.Scanner.{Text, Scanner, IsScanner}
use hvm.Ast.Result.{Parsed, P, pure, and_then, ◌>>=◌, ◌>>◌}
use hvm.Ast.Parser.{parse_name, take, at_close, one_until, parse_tree, parse_until}
use hvm.Ast.Books.{
  at_end, one_redex, parse_redexes, parse_net, one_net, parse_nets, parse_book, book_insert,
  parse_eof, tree_from_str, net_from_str, book_from_str,
}
use hvm.Ast.Limits.{AllWellFormed, RedexesWellFormed, NetWellFormed, BookWellFormed, Ascending}
use hvm.Ast.Limits.Fine.{Fine, Fine-bind, Fine-if_at, Fine-le}
use hvm.Ast.Limits.Leaves.{AnyFloat, took-Fine, take-Fine, parse_name-Fine}
use hvm.Ast.Limits.Nodes.{Good, AllGood, parse_any-Fine}
use hvm.Ast.Limits.Order.{book_insert-Ascending, book_insert-WellFormed}

module _ (s : Scanner) (laws : IsScanner s) where
  one_until-Fine :
      (tree : P Tree) (many : ℕ → P Trees) (t : Text)
      → ((v : Text) → length v ≤ length t → Fine (Good s laws) (length v) (tree v))
      → ((v : Text)
          → length v < length t
          → (close : ℕ) → Fine (AllGood s laws) (suc (length v)) (many close v))
      → (close : ℕ) → Fine (AllGood s laws) (suc (length t)) (one_until s tree many close t)
  unfolding one_until
  one_until-Fine tree many t p q close = at (s.skip_trivia t) (laws.skip_trivia-shorter t)
    where
      at :
          (v : Text)
          → length v ≤ length t
          → Fine (AllGood s laws) (suc (length t)) (
              (if at_close close (s.peek_one v)
                  then pure Trees.end
                  else (tree >>= λ x. many close >>= λ xs. pure (Trees.and x xs)))
                v)
      at v l =
          Fine-if_at (at_close close (s.peek_one v)) (pure Trees.end) _ v
            (Fine.ok _ v AllWellFormed.end (omega arith))
            (Fine-bind (p v l) (λ x t1 g h1.
              Fine-bind (q t1 (omega arith) close)
                (λ xs t2 gs h2. Fine.ok _ t2 (AllWellFormed.and g gs) (omega arith))))

  mutual
    unfolding parse_tree

    pub parse_tree-Fine :
        (f : ℕ) (t : Text) → 2 * length t + 1 ≤ f → Fine (Good s laws) (length t) (parse_tree s f t)
    parse_tree-Fine zero t h = absurd (omega arith)
    parse_tree-Fine (suc f) t h =
        parse_any-Fine s laws (parse_tree s f) (parse_until s f) (length t)
          (λ v l. parse_tree-Fine f v (omega arith))
          (λ v l close. parse_until-Fine f v (omega arith) close) t (omega arith)

    pub parse_until-Fine :
        (f : ℕ) (t : Text)
        → 2 * length t + 2 ≤ f
        → (close : ℕ) → Fine (AllGood s laws) (suc (length t)) (parse_until s f close t)
    parse_until-Fine zero t h close = absurd (omega arith)
    parse_until-Fine (suc f) t h close =
        one_until-Fine (parse_tree s f) (parse_until s f) t
          (λ v l. parse_tree-Fine f v (omega arith))
          (λ v l close. parse_until-Fine f v (omega arith) close) close

  abbrev GoodRedexes : List (Tree × Tree) → Type 0
  GoodRedexes = RedexesWellFormed s AnyFloat

  parse_redexes-Fine :
      (k : ℕ) (tree : P Tree) (t : Text)
      → length t < k
      → ((v : Text) → length v ≤ length t → Fine (Good s laws) (length v) (tree v))
      → Fine GoodRedexes (suc (length t)) (parse_redexes s k tree t)
  unfolding parse_redexes one_redex
  parse_redexes-Fine zero tree t h p = absurd (omega arith)
  parse_redexes-Fine (suc k) tree t h p =
      Fine-bind (took-Fine s laws (codes "&") t) (λ found t1 _ h1.
        at found t1 h1
          (λ v l. parse_redexes-Fine k tree v (omega arith) (λ w lw. p w (omega arith))))
    where
      at :
          (found : Bool) (t1 : Text)
          → length t1 < suc (length t)
          → ((v : Text)
              → length v < length t
              → Fine GoodRedexes (suc (length v)) (parse_redexes s k tree v))
          → Fine GoodRedexes (suc (length t)) (
              (if found
                  then (tree >>= λ a.
                      take s (codes "~")
                      >> (tree >>= λ b. parse_redexes s k tree >>= λ more. pure ((a, b) ∷ more)))
                  else pure [])
                t1)
      at false t1 h1 more = Fine.ok [] t1 RedexesWellFormed.none h1
      at true t1 h1 more = Fine-bind (p t1 (omega arith)) (λ a t2 g h2.
          Fine-bind (take-Fine s laws (codes "~") t2) (λ _ t3 _ h3.
            Fine-bind (p t3 (omega arith)) (λ b t4 g' h4.
              Fine-bind (more t4 (omega arith))
                (λ rs t5 gs h5. Fine.ok _ t5 (RedexesWellFormed.also g g' gs) (omega arith)))))

  pub parse_net-Fine :
      (f : ℕ) (t : Text)
      → 2 * length t + 1 ≤ f
      → Fine (NetWellFormed s AnyFloat) (length t) (parse_net s f t)
  unfolding parse_net
  parse_net-Fine f t h = Fine-bind (parse_tree-Fine f t h) (λ root t1 g h1.
      Fine-bind
        (parse_redexes-Fine f (parse_tree s f) t1 (omega arith)
          (λ v l. parse_tree-Fine f v (omega arith)))
        (λ redexes t2 gs h2. Fine.ok _ t2 (record { root = g; redexes = gs }) (omega arith)))

  -- The nets of a book: well formed, under ascending names.
  pub record GoodNets (book : List (Name × Net)) : Type 0 where
    pub nets : BookWellFormed s AnyFloat book
    pub order : Ascending book

  parse_nets-Fine :
      (k : ℕ) (net : P Net) (book : List (Name × Net)) (t : Text)
      → length t < k
      → ((v : Text) → length v ≤ length t → Fine (NetWellFormed s AnyFloat) (length v) (net v))
      → GoodNets book
      → Fine GoodNets (suc (length t)) (parse_nets s k net book t)
  unfolding parse_nets one_net
  parse_nets-Fine zero net book t h p g = absurd (omega arith)
  parse_nets-Fine (suc k) net book t h p g =
      Fine-bind (took-Fine s laws (codes "@") t) (λ found t1 _ h1.
        at found t1 h1
          (λ b v l gb. parse_nets-Fine k net b v (omega arith) (λ w lw. p w (omega arith)) gb))
    where
      at :
          (found : Bool) (t1 : Text)
          → length t1 < suc (length t)
          → ((b : List (Name × Net)) (v : Text)
              → length v < length t
              → GoodNets b
              → Fine GoodNets (suc (length v)) (parse_nets s k net b v))
          → Fine GoodNets (suc (length t)) (
              (if found
                  then (parse_name s >>= λ nam.
                      take s (codes "=")
                      >> (net >>= λ n. parse_nets s k net (book_insert book nam n)))
                  else pure book)
                t1)
      at false t1 h1 more = Fine.ok book t1 g h1
      at true t1 h1 more = Fine-bind (parse_name-Fine s laws t1) (λ nam t2 q h2.
          Fine-bind (take-Fine s laws (codes "=") t2) (λ _ t3 _ h3.
            Fine-bind (p t3 (omega arith)) (λ n t4 gn h4.
              let inserted : GoodNets (book_insert book nam n) = record {
                nets = book_insert-WellFormed s q gn g.nets;
                order = book_insert-Ascending nam n g.order;
              } in
              Fine-le (more (book_insert book nam n) t4 (omega arith) inserted) (omega arith))))

  pub parse_book-Fine :
      (f : ℕ) (t : Text)
      → 2 * length t + 1 ≤ f
      → Fine (λ book. GoodNets book.nets) (suc (length t)) (parse_book s f t)
  unfolding parse_book
  parse_book-Fine f t h =
      Fine-bind
        (parse_nets-Fine f (parse_net s f) [] t (omega arith)
          (λ v l. parse_net-Fine f v (omega arith))
          (record { nets = BookWellFormed.none; order = Ascending.none }))
        (λ nets rest g l. Fine.ok _ rest g l)

  at_end-Fine :
      {A : Type 0} {Q : A → Type 0} (n : ℕ) {r : Parsed A}
      → Fine Q n r
      → Fine Q 1 (and_then r at_end)
  at_end-Fine n h = Fine-bind h (λ a rest q l. at a rest q)
    where
      at : {A : Type 0} {Q : A → Type 0} (a : A) (rest : Text) → Q a → Fine Q 1 (at_end a rest)
      at a [] q = Fine.ok a [] q (omega arith)
      at a (c ∷ cs) q = Fine.failed _ refl

  pub tree_from_str-Fine : (t : Text) → Fine (Good s laws) 1 (tree_from_str s t)
  unfolding tree_from_str parse_eof
  tree_from_str-Fine t = at_end-Fine (length t) (parse_tree-Fine (2 * length t + 2) t (omega arith))

  pub net_from_str-Fine : (t : Text) → Fine (NetWellFormed s AnyFloat) 1 (net_from_str s t)
  unfolding net_from_str parse_eof
  net_from_str-Fine t = at_end-Fine (length t) (parse_net-Fine (2 * length t + 2) t (omega arith))

  -- Over any scanner that keeps its laws, parsing any text as a book returns: a book with ascending names
  -- of name characters whose trees are within the limits of labels, arities, variants, fields and
  -- integers, with nothing left; or an error other than a lack of fuel.
  pub book_from_str-Fine : (t : Text) → Fine (λ book. GoodNets book.nets) 1 (book_from_str s t)
  unfolding book_from_str parse_eof
  book_from_str-Fine t =
      at_end-Fine (suc (length t)) (parse_book-Fine (2 * length t + 2) t (omega arith))
