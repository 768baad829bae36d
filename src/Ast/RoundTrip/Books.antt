-- ===== src/Ast/RoundTrip/Books.antt =====
-- Nets and books that the printer wrote and the parser reads back.
use hvm.Prelude.{
  ℕ, ◌+◌, ◌*◌, ◌≤◌, ◌≡◌, refl, Bool, true, false, List, [], ◌∷◌, ◌++◌, arith, if◌then◌else◌, zero,
  suc, length,
}
use mathlib.Core.Path.{◌∙◌, ap, sym, subst}
use mathlib.Core.List.{append_assoc, append-nil}
use hvm.Ops.Kinds.{codes}
use hvm.Ast.{Name, Tree, Net, Book}
use hvm.Ast.Scanner.{Text, Scanner, IsScanner, strip}
use hvm.Ast.Result.{Parsed, P}
use hvm.Ast.Parser.{parse_tree, parse_name}
use hvm.Ast.Books.{
  parse_redexes, one_redex, parse_net, one_net, parse_nets, parse_book, parse_eof, tree_from_str,
  net_from_str, book_from_str,
}
use hvm.Ast.Printer.{write_tree, write_redexes, write_net, write_nets, write_book}
use hvm.Ast.Limits.{RedexesWellFormed, NetWellFormed, BookWellFormed, Ascending}
use hvm.Ast.RoundTrip.Heads.{Ends, Ends-punctuation}
use hvm.Ast.RoundTrip.Leaves.{ReadsFloat, consume-solid, parse_name-append}
use hvm.Ast.RoundTrip.Trees.{parse_tree-write_tree, parse_tree-space, WellRead}
use hvm.Ast.RoundTrip.Sizes.{
  need_redexes, need_net, need_nets, length-write_tree, length-write_net, length-write_nets,
}
use hvm.Ast.RoundTrip.Insert.{Before, AllBelow, book_insert-last, Before-append}

module _ (s : Scanner) (laws : IsScanner s) where
  consume-space : (token t : Text) → s.consume token (b' ' ∷ t) ≡ s.consume token t
  consume-space token t =
      laws.consume_lem token (b' ' ∷ t)
      ∙ (ap (λ x. strip token x) (laws.skip_trivia-space t) ∙ sym (laws.consume_lem token t))

  consume-newline : (token t : Text) → s.consume token (10 ∷ t) ≡ s.consume token t
  consume-newline token t =
      laws.consume_lem token (10 ∷ t)
      ∙ (ap (λ x. strip token x) (laws.skip_trivia-newline t) ∙ sym (laws.consume_lem token t))

  next_redex : (t : Text) → s.consume (codes "&") (codes "\n  & " ++ t) ≡ (true, b' ' ∷ t)
  next_redex t =
      consume-newline (codes "&") (codes "  & " ++ t)
      ∙ (consume-space (codes "&") (codes " & " ++ t)
          ∙ (consume-space (codes "&") (codes "& " ++ t)
              ∙ consume-solid s laws (codes "&") b'&' (b' ' ∷ t) refl))

  next_side : (t : Text) → s.consume (codes "~") (codes " ~ " ++ t) ≡ (true, b' ' ∷ t)
  next_side t =
      consume-space (codes "~") (codes "~ " ++ t)
      ∙ consume-solid s laws (codes "~") b'~' (b' ' ∷ t) refl

  write_redexes-Ends :
      (redexes : List (Tree × Tree)) (rest : Text)
      → Ends s rest
      → Ends s (write_redexes s redexes rest)
  unfolding write_redexes
  write_redexes-Ends [] rest e = e
  write_redexes-Ends ((a, b) ∷ redexes) rest e =
      Ends-punctuation s laws 10
        (codes "  & "
          ++ write_tree s a (codes " ~ " ++ write_tree s b (write_redexes s redexes rest)))
        (omega arith) refl

  -- The loop over redexes reads those that were printed, up to a text without an ampersand.
  parse_redexes-write_redexes :
      {redexes : List (Tree × Tree)}
      → RedexesWellFormed s (ReadsFloat s) redexes
      → (f k : ℕ) → need_redexes redexes ≤ f
      → need_redexes redexes ≤ k
      → (rest left : Text) → Ends s rest
      → s.consume (codes "&") rest ≡ (false, left)
      → parse_redexes s k (parse_tree s f) (write_redexes s redexes rest) ≡ Parsed.ok redexes left
  unfolding parse_redexes one_redex write_redexes
  parse_redexes-write_redexes hs f zero n m rest left e stop = absurd (none_needed hs m)
    where
      none_needed :
          {redexes : List (Tree × Tree)} {A : Type 0}
          → RedexesWellFormed s (ReadsFloat s) redexes
          → need_redexes redexes ≤ 0
          → A
      none_needed RedexesWellFormed.none m = absurd (omega arith)
      none_needed (RedexesWellFormed.also h k hs) m = absurd (omega arith)
  parse_redexes-write_redexes RedexesWellFormed.none f (suc k) n m rest left e stop = rw stop refl
  parse_redexes-write_redexes (RedexesWellFormed.also {a = a} {b = b} {redexes = redexes} h l hs) f
        (suc k) n m rest left e stop =
      let more = write_redexes s redexes rest in
      let second = codes " ~ " ++ write_tree s b more in
      let left_read =
        parse_tree-space s laws f (write_tree s a second)
        ∙ parse_tree-write_tree s laws h f (omega arith) second
            (Ends-punctuation s laws b' ' (codes "~ " ++ write_tree s b more) (omega arith) refl) in
      let right_read =
        parse_tree-space s laws f (write_tree s b more)
        ∙ parse_tree-write_tree s laws l f (omega arith) more (write_redexes-Ends redexes rest e) in
      let others =
        parse_redexes-write_redexes hs f k (omega arith) (omega arith) rest left e stop in
      rw (next_redex (write_tree s a second))
        (rw left_read (rw (next_side (write_tree s b more)) (rw right_read (rw others refl))))

  pub parse_net-write_net :
      {net : Net}
      → NetWellFormed s (ReadsFloat s) net
      → (f : ℕ) → need_net net ≤ f
      → (rest left : Text) → Ends s rest
      → s.consume (codes "&") rest ≡ (false, left)
      → parse_net s f (write_net s net rest) ≡ Parsed.ok net left
  unfolding parse_net write_net
  parse_net-write_net {net = net} h f n rest left e stop =
      let more = write_redexes s net.redexes rest in
      rw
        (parse_tree-write_tree s laws h.root f (omega arith) more
          (write_redexes-Ends net.redexes rest e))
        (rw (parse_redexes-write_redexes h.redexes f f (omega arith) (omega arith) rest left e stop)
          refl)

  consume-skip : (token t : Text) → s.consume token (s.skip_trivia t) ≡ s.consume token t
  consume-skip token t =
      laws.consume_lem token (s.skip_trivia t)
      ∙ (ap (λ x. strip token x) (laws.skip_trivia_twice t) ∙ sym (laws.consume_lem token t))

  parse_nets-skip :
      (k : ℕ) (net : P Net) (book : List (Name × Net)) (t : Text)
      → parse_nets s k net book (s.skip_trivia t) ≡ parse_nets s k net book t
  unfolding parse_nets one_net
  parse_nets-skip zero net book t = refl
  parse_nets-skip (suc k) net book t = rw (consume-skip (codes "@") t) refl

  next_net :
      (between : Bool) (t : Text)
      → s.consume (codes "@") (if between then codes "\n\n@" ++ t else b'@' ∷ t) ≡ (true, t)
  next_net true t =
      consume-newline (codes "@") (codes "\n@" ++ t)
      ∙ (consume-newline (codes "@") (b'@' ∷ t) ∙ consume-solid s laws (codes "@") b'@' t refl)
  next_net false t = consume-solid s laws (codes "@") b'@' t refl

  next_equals : (t : Text) → s.consume (codes "=") (codes " = " ++ t) ≡ (true, b' ' ∷ t)
  next_equals t =
      consume-space (codes "=") (codes "= " ++ t)
      ∙ consume-solid s laws (codes "=") b'=' (b' ' ∷ t) refl

  -- Where a net's text ends: at the end or at the next net's.
  more_nets-Ends : (nets : List (Name × Net)) → Ends s (write_nets s true nets [])
  unfolding write_nets
  more_nets-Ends [] = refl
  more_nets-Ends ((nam, net) ∷ nets) =
      Ends-punctuation s laws 10
        (codes "\n@" ++ (nam ++ (codes " = " ++ write_net s net (write_nets s true nets []))))
        (omega arith) refl

  not_found :
      (token : Text) {t u : Text}
      → s.skip_trivia t ≡ u
      → strip token u ≡ (false, u)
      → s.consume token t ≡ (false, s.skip_trivia t)
  not_found token {t = t} e h =
      laws.consume_lem token t ∙ subst (λ (x : Text). strip token x ≡ (false, x)) (sym e) h

  more_nets-stop :
      (nets : List (Name × Net))
      → s.consume (codes "&") (write_nets s true nets [])
        ≡ (false, s.skip_trivia (write_nets s true nets []))
  unfolding write_nets
  more_nets-stop [] = not_found (codes "&") laws.skip_trivia-nil refl
  more_nets-stop ((nam, net) ∷ nets) =
      let t = nam ++ (codes " = " ++ write_net s net (write_nets s true nets [])) in
      not_found (codes "&")
        (laws.skip_trivia-newline (codes "\n@" ++ t)
          ∙ (laws.skip_trivia-newline (b'@' ∷ t) ∙ laws.skip_trivia-solid b'@' t refl))
        refl

  parse_net-space : (f : ℕ) (t : Text) → parse_net s f (b' ' ∷ t) ≡ parse_net s f t
  unfolding parse_net
  parse_net-space f t = rw (parse_tree-space s laws f t) refl

  -- The loop over nets inserts those that were printed.
  parse_nets-write_nets :
      (between : Bool) {nets : List (Name × Net)}
      → BookWellFormed s (ReadsFloat s) nets
      → Ascending nets
      → (f k : ℕ) → need_nets nets ≤ f
      → need_nets nets ≤ k
      → (book : List (Name × Net)) → Before book nets
      → parse_nets s k (parse_net s f) book (write_nets s between nets [])
        ≡ Parsed.ok (book ++ nets) []
  unfolding parse_nets one_net write_nets
  parse_nets-write_nets between BookWellFormed.none up f zero n m book below = absurd (omega arith)
  parse_nets-write_nets between (BookWellFormed.also h l hs) up f zero n m book below =
      absurd (omega arith)
  parse_nets-write_nets between BookWellFormed.none up f (suc k) n m book below =
      let at_end : s.consume (codes "@") [] ≡ (false, []) =
        laws.consume_lem (codes "@") [] ∙ ap (λ x. strip (codes "@") x) laws.skip_trivia-nil in
      rw at_end (rw (append-nil book) refl)
  parse_nets-write_nets between (BookWellFormed.also {nam = nam} {net = net} {nets = nets} h l hs)
        (Ascending.also above up) f (suc k) n m book (below, all_below) =
      let more = write_nets s true nets [] in
      let body = codes " = " ++ write_net s net more in
      let named =
        parse_name-append s laws h body
          (Ends-punctuation s laws b' ' (codes "= " ++ write_net s net more) (omega arith) refl) in
      let net_read =
        parse_net-space f (write_net s net more)
        ∙ parse_net-write_net l f (omega arith) more (s.skip_trivia more) (more_nets-Ends nets)
            (more_nets-stop nets) in
      let others =
        parse_nets-skip k (parse_net s f) (book ++ ((nam, net) ∷ [])) more
        ∙ parse_nets-write_nets true hs up f k (omega arith) (omega arith)
            (book ++ ((nam, net) ∷ [])) (Before-append nam net book above all_below) in
      at between named net_read others
    where
      at :
          (b : Bool) {body more : Text}
          → parse_name s (nam ++ (codes " = " ++ body)) ≡ Parsed.ok nam (codes " = " ++ body)
          → parse_net s f (b' ' ∷ body) ≡ Parsed.ok net more
          → parse_nets s k (parse_net s f) (book ++ ((nam, net) ∷ [])) more
            ≡ Parsed.ok ((book ++ ((nam, net) ∷ [])) ++ nets) []
          → one_net s (parse_net s f) (parse_nets s k (parse_net s f)) book (
              if b
              then codes "\n\n@" ++ (nam ++ (codes " = " ++ body))
              else b'@' ∷ (nam ++ (codes " = " ++ body)))
            ≡ Parsed.ok (book ++ ((nam, net) ∷ nets)) []
      at b {body = body} named net_read others = rw (next_net b (nam ++ (codes " = " ++ body))) (
          rw named (
            rw (next_equals body) (
              rw net_read (
                rw (book_insert-last net below)
                  (rw others (rw (append_assoc book ((nam, net) ∷ []) nets) refl))))))

  -- A printed tree parses to that tree, with nothing left, if its names are names of the language,
  -- labels, arities and integers are within their limits, and the own text of each float is read back.
  pub tree_from_str-write_tree :
      {t : Tree} → WellRead s laws t → tree_from_str s (write_tree s t []) ≡ Parsed.ok t []
  unfolding tree_from_str parse_eof
  tree_from_str-write_tree {t = t} h =
      rw
        (parse_tree-write_tree s laws h (2 * length (write_tree s t []) + 2)
          (omega (arith, length-write_tree s h [])) [] refl)
        refl

  pub net_from_str-write_net :
      {net : Net}
      → NetWellFormed s (ReadsFloat s) net
      → net_from_str s (write_net s net []) ≡ Parsed.ok net []
  unfolding net_from_str parse_eof
  net_from_str-write_net {net = net} h =
      let stop : s.consume (codes "&") [] ≡ (false, []) =
        laws.consume_lem (codes "&") [] ∙ ap (λ x. strip (codes "&") x) laws.skip_trivia-nil in
      rw
        (parse_net-write_net h (2 * length (write_net s net []) + 2)
          (omega (arith, length-write_net s h [])) [] [] refl stop)
        refl

  -- A printed book parses to that book, with nothing left, over any scanner that keeps its laws, if the
  -- names are names of the language and ascend, labels, arities and integers are within their limits,
  -- and the own text of each float is read back.
  pub book_from_str-write_book :
      {book : Book}
      → BookWellFormed s (ReadsFloat s) book.nets
      → Ascending book.nets
      → book_from_str s (write_book s book) ≡ Parsed.ok book []
  unfolding book_from_str parse_eof parse_book write_book
  book_from_str-write_book {book = book} h up =
      let fuel = 2 * length (write_nets s false book.nets []) + 2 in
      let enough = length-write_nets s false h in
      rw
        (parse_nets-write_nets false h up fuel fuel (omega arith) (omega arith) []
          (Before-nil book.nets))
        refl
    where
      Before-nil : (nets : List (Name × Net)) → Before [] nets
      Before-nil [] = tt
      Before-nil ((nam, net) ∷ nets) = (AllBelow.none, Before-nil nets)
