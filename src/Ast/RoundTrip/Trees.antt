-- ===== src/Ast/RoundTrip/Trees.antt =====
-- Trees that the printer wrote and the parser reads back, with enough fuel.
use hvm.Prelude.{ℕ, ◌+◌, ◌≤◌, ◌≡◌, refl, Bool, true, false, ◌∷◌, ◌++◌, ◌==◌, ltb, arith, zero, suc}
use mathlib.Core.Path.{◌∙◌}
use hvm.Ast.{Tree, Trees}
use hvm.Ast.Number.{decimal, signed}
use hvm.Ast.Scanner.{Text, Scanner, IsScanner, ends_number}
use hvm.Ast.Result.{Parsed, P}
use hvm.Ast.Parser.{parse_tree, parse_until, parse_any, one_until}
use hvm.Ast.Printer.{write_tree, write_trees, write_close, write_space}
use hvm.Ast.Limits.{WellFormed, AllWellFormed}
use hvm.Ast.RoundTrip.Heads.{
  Ends, Opens, opening, Close, write_tree-Opens, write_trees-Ends, write_trees-Leads, skip-opening,
  skip_space, skip-Close, Ends-punctuation,
}
use hvm.Ast.RoundTrip.Leaves.{ReadsFloat, parse_number-signed, parse_number-debug}
use hvm.Ast.RoundTrip.Nodes.{
  closer, parse_any-open, parse_any-op, parse_any-mat, parse_any-ref, parse_any-var,
  parse_any-number, parse_any-era, parse_body-ctr, parse_body-adt,
}

-- The calls of the parser inside one another on a tree's text.
abbrev mutual
  pub need : Tree → ℕ
  need (Tree.ctr lab ports) = suc (needs ports)
  need (Tree.adt lab i n fields) = suc (needs fields)
  need (Tree.op o rhs out) = suc (need rhs + need out)
  need (Tree.mat z n out) = suc (need z + (need n + need out))
  need _ = 1

  pub needs : Trees → ℕ
  needs Trees.end = 1
  needs (Trees.and t ts) = suc (need t + needs ts)

closer-Close : (lab : ℕ) → Close (closer lab)
closer-Close zero = Close.round
closer-Close (suc zero) = Close.square
closer-Close (suc (suc lab)) = Close.curly

write_close_lem : (lab : ℕ) (rest : Text) → write_close lab rest ≡ closer lab ∷ rest
write_close_lem zero rest = refl
write_close_lem (suc zero) rest = refl
write_close_lem (suc (suc lab)) rest = refl

closer-ends_number : (lab : ℕ) (rest : Text) → ends_number (closer lab ∷ rest) ≡ true
closer-ends_number zero rest = refl
closer-ends_number (suc zero) rest = refl
closer-ends_number (suc (suc lab)) rest = refl

Close-opening : {close : ℕ} → Close close → (c : ℕ) → opening c ≡ true → (c == close) ≡ false
Close-opening Close.round c o = ground arith
Close-opening Close.square c o = ground arith
Close-opening Close.curly c o = ground arith

module _ (s : Scanner) (laws : IsScanner s) where
  abbrev pub WellRead : Tree → Type 0
  WellRead = WellFormed s (ReadsFloat s)

  abbrev pub AllWellRead : Trees → Type 0
  AllWellRead = AllWellFormed s (ReadsFloat s)

  fields-ends_number :
      (ts : Trees) (lab : ℕ) (rest : Text)
      → ends_number (write_trees s true ts (closer lab ∷ rest)) ≡ true
  unfolding write_trees
  fields-ends_number Trees.end lab rest = closer-ends_number lab rest
  fields-ends_number (Trees.and t ts) lab rest = refl

  pub parse_tree-space : (f : ℕ) (t : Text) → parse_tree s f (b' ' ∷ t) ≡ parse_tree s f t
  unfolding parse_tree parse_any
  parse_tree-space zero t = refl
  parse_tree-space (suc f) t = rw (laws.skip_trivia-space t) refl

  space-Ends : (t : Text) → Ends s (b' ' ∷ t)
  space-Ends t = Ends-punctuation s laws b' ' t (omega arith) refl

  angle-Ends : (t : Text) → Ends s (b'>' ∷ t)
  angle-Ends t = Ends-punctuation s laws b'>' t (omega arith) refl

  none_needed : {t : Tree} {A : Type 0} → WellRead t → need t ≤ 0 → A
  none_needed (WellFormed.ctr lab ports _ _ _) n = absurd (omega arith)
  none_needed (WellFormed.adt lab i m fields _ _ _ _ _) n = absurd (omega arith)
  none_needed (WellFormed.op o h k) n = absurd (omega arith)
  none_needed (WellFormed.mat h k l) n = absurd (omega arith)
  none_needed _ n = absurd (omega arith)

  never : {ts : Trees} {A : Type 0} → AllWellRead ts → needs ts ≤ 0 → A
  never AllWellFormed.end n = absurd (omega arith)
  never (AllWellFormed.and h hs) n = absurd (omega arith)

  -- A loop skips trivia first.
  parse_until-skip :
      (f close : ℕ) (t : Text) → parse_until s f close t ≡ parse_until s f close (s.skip_trivia t)
  unfolding parse_until one_until
  parse_until-skip zero close t = refl
  parse_until-skip (suc f) close t = rw (laws.skip_trivia_twice t) refl

  one_until-end :
      (tree : P Tree) (many : ℕ → P Trees) {close : ℕ}
      → Close close
      → (rest : Text)
      → one_until s tree many close (s.skip_trivia (close ∷ rest))
        ≡ Parsed.ok Trees.end (close ∷ rest)
  unfolding one_until
  one_until-end tree many {close = close} k rest =
      let same : (close == close) ≡ true = ground arith in
      rw (skip-Close s laws k rest)
        (rw (skip-Close s laws k rest) (rw (laws.peek_one-cons close rest, same) refl))

  one_until-and :
      (tree : P Tree) (many : ℕ → P Trees) (space : Bool) {close : ℕ}
      → Close close
      → (t : Tree) (ts : Trees) (text more rest : Text) → Opens text
      → tree text ≡ Parsed.ok t more
      → many close more ≡ Parsed.ok ts (close ∷ rest)
      → one_until s tree many close (s.skip_trivia (write_space space text))
        ≡ Parsed.ok (Trees.and t ts) (close ∷ rest)
  unfolding one_until
  one_until-and tree many space {close = close} k t ts _ more rest (Opens.opens c text o) h l =
      let other : (c == close) ≡ false = Close-opening k c o in
      let skipped = skip-opening s laws (Opens.opens c text o) in
      rw (skip_space s laws space (Opens.opens c text o))
        (rw skipped (rw (laws.peek_one-cons c text, other) (rw h (rw l refl))))

  mutual
    unfolding parse_tree write_tree

    read_back :
        {t : Tree} (h : WellRead t) (f : ℕ)
        → need t ≤ f
        → (rest : Text) → Ends s rest
        → parse_tree s f (write_tree s t rest) ≡ Parsed.ok t rest
    read_back h zero n rest e = none_needed h n
    read_back WellFormed.era (suc f) n rest e =
        parse_any-era s laws (parse_tree s f) (parse_until s f) rest
    read_back (WellFormed.int bits h) (suc f) n rest e =
        parse_any-number s laws (parse_tree s f) (parse_until s f) (signed bits rest)
        ∙ parse_number-signed s laws bits rest h e
    read_back (WellFormed.f32 bits h) (suc f) n rest e =
        parse_any-number s laws (parse_tree s f) (parse_until s f) (s.debug_f32 bits ++ rest)
        ∙ parse_number-debug s laws bits rest h e
    read_back (WellFormed.ref nam h) (suc f) n rest e =
        parse_any-ref s laws (parse_tree s f) (parse_until s f) h rest e
    read_back (WellFormed.var nam h) (suc f) n rest e =
        parse_any-var s laws (parse_tree s f) (parse_until s f) h rest e
    read_back (WellFormed.op o {rhs = rhs} {out = out} h k) (suc f) n rest e =
        let t2 = b' ' ∷ write_tree s out (b'>' ∷ rest) in
        parse_any-op s laws (parse_tree s f) (parse_until s f) o rhs out (write_tree s rhs t2) t2
          rest
          (parse_tree-space f (write_tree s rhs t2)
            ∙ read_back h f (omega arith) t2 (space-Ends (write_tree s out (b'>' ∷ rest))))
          (parse_tree-space f (write_tree s out (b'>' ∷ rest))
            ∙ read_back k f (omega arith) (b'>' ∷ rest) (angle-Ends rest))
    read_back (WellFormed.mat {z = z} {n = n'} {out = out} h k l) (suc f) n rest e =
        let t4 = write_tree s out (b'>' ∷ rest) in
        let t3 = b' ' ∷ t4 in
        let t2 = b' ' ∷ write_tree s n' t3 in
        parse_any-mat s laws (parse_tree s f) (parse_until s f) z n' out (write_tree s z t2) t2 t3
          t4 rest (read_back h f (omega arith) t2 (space-Ends (write_tree s n' t3)))
          (parse_tree-space f (write_tree s n' t3) ∙ read_back k f (omega arith) t3 (space-Ends t4))
          (skip_space s laws true (write_tree-Opens s laws l (b'>' ∷ rest)))
          (write_tree-Opens s laws l (b'>' ∷ rest))
          (read_back l f (omega arith) (b'>' ∷ rest) (angle-Ends rest))
    read_back (WellFormed.ctr lab ports small few hs) (suc f) n rest e =
        let body = write_trees s (ltb 1 lab) ports (closer lab ∷ rest) in
        rw (write_close_lem lab rest) (
          parse_any-open s laws (parse_tree s f) (parse_until s f) lab body small
            (λ long. rw long (fields-ends_number ports lab rest))
          ∙ parse_body-ctr s laws (parse_tree s f) (parse_until s f) lab ports body rest
              (write_trees-Leads s laws (ltb 1 lab) hs (closer-Close lab) rest) (closer-Close lab)
              (read_back_all hs f (omega arith) (ltb 1 lab) (closer-Close lab) rest) few)
    read_back (WellFormed.adt lab i n' fields small below bound few hs) (suc f) n rest e =
        let body = write_trees s true fields (closer lab ∷ rest) in
        rw (write_close_lem lab rest) (
          parse_any-open s laws (parse_tree s f) (parse_until s f) lab
            (b':' ∷ decimal i (b':' ∷ decimal n' body)) small (λ long. refl)
          ∙ parse_body-adt s laws (parse_tree s f) (parse_until s f) lab i n' fields body rest
              (fields-ends_number fields lab rest) below bound
              (parse_until-skip f (closer lab) body
                ∙ read_back_all hs f (omega arith) true (closer-Close lab) rest)
              few)

    -- The loop reads the trees up to the closing bracket.
    read_back_all :
        {ts : Trees} (hs : AllWellRead ts) (f : ℕ)
        → needs ts ≤ f
        → (space : Bool) {close : ℕ} → Close close
        → (rest : Text)
        → parse_until s f close (s.skip_trivia (write_trees s space ts (close ∷ rest)))
          ≡ Parsed.ok ts (close ∷ rest)
    read_back_all hs zero n space k rest = never hs n
    read_back_all AllWellFormed.end (suc f) n space k rest =
        one_until-end (parse_tree s f) (parse_until s f) k rest
    read_back_all (AllWellFormed.and {t = t} {ts = ts} h hs) (suc f) n space {close = close} k
          rest =
        let more = write_trees s true ts (close ∷ rest) in
        one_until-and (parse_tree s f) (parse_until s f) space k t ts (write_tree s t more) more
          rest (write_tree-Opens s laws h more)
          (read_back h f (omega arith) more (write_trees-Ends s laws ts k rest))
          (parse_until-skip f close more ∙ read_back_all hs f (omega arith) true k rest)

  -- With as much fuel as the tree needs, the parser reads a printed tree off the front of any text
  -- that does not start with a name character and leaves that text, over any scanner that keeps its
  -- laws, if the names are names of the language, labels, arities and integers are within their
  -- limits, and the own text of each float is read back.
  pub parse_tree-write_tree :
      {t : Tree} (h : WellRead t) (f : ℕ)
      → need t ≤ f
      → (rest : Text) → Ends s rest
      → parse_tree s f (write_tree s t rest) ≡ Parsed.ok t rest
  parse_tree-write_tree = read_back
