-- ===== src/Ast/RoundTrip/Nodes.antt =====
-- The parser's steps on printed nodes: the calls for the trees inside are parameters.
use hvm.Prelude.{
  ℕ, ◌%◌, ◌<◌, ◌≤◌, ◌^◌, ◌≡◌, refl, true, false, ◌∷◌, ◌++◌, ◌==◌, ltb, leb, arith, zero, suc,
}
use mathlib.Core.Path.{◌∙◌, ap}
use hvm.Ops.Kinds.{TypedOp, codes, display}
use hvm.Ast.{Name, Tree, Trees, count, max_arity}
use hvm.Ast.Number.{decimal}
use hvm.Ast.Scanner.{Text, Scanner, IsScanner, solid, ends_number}
use hvm.Ast.Result.{Parsed, P}
use hvm.Ast.Parser.{
  by_first, parse_any, parse_body, parse_node, parse_ctr, parse_adt, parse_op_node, parse_mat,
  parse_ref, parse_u64, parse_var, parse_number, max_adt_variants, max_adt_fields,
}
use hvm.Ast.Printer.{write_open}
use hvm.Ast.Limits.{IsName}
use hvm.Ast.RoundTrip.Heads.{Ends, Opens, Leads, Ordinary, IsName-Ordinary, Close, Leads}
use hvm.Ast.RoundTrip.Leaves.{parse_name-append, parse_op-display, consume-solid}

-- The bracket that closes a node with the label.
abbrev pub closer : ℕ → ℕ
closer zero = b')'
closer (suc zero) = b']'
closer (suc (suc lab)) = b'}'

parse_u64-back :
    (s : Scanner) (laws : IsScanner s) (n : ℕ) (rest : Text)
    → n < 2 ^ 64
    → ends_number rest ≡ true
    → parse_u64 s (decimal n rest) ≡ Parsed.ok n rest
parse_u64-back s laws n rest h k = rw (laws.parse_u64-decimal n rest h k, parse_u64) refl

module _ (s : Scanner) (laws : IsScanner s) (tree : P Tree) (many : ℕ → P Trees) where
  pub parse_any-at :
      (c : ℕ) (t : Text)
      → solid c ≡ true
      → parse_any s tree many (c ∷ t) ≡ by_first s tree many c (c ∷ t)
  unfolding parse_any
  parse_any-at c t h = rw (laws.skip_trivia-solid c t h, laws.peek_one-cons c t) refl

  pub parse_any-open :
      (lab : ℕ) (body : Text)
      → lab < 2 ^ 16
      → (ltb 1 lab ≡ true → ends_number body ≡ true)
      → parse_any s tree many (write_open lab body) ≡ parse_body s tree many lab (closer lab) body
  unfolding by_first parse_node
  parse_any-open zero body h k =
      parse_any-at b'(' body refl ∙ rw (laws.advance_one-cons b'(' body) refl
  parse_any-open (suc zero) body h k =
      parse_any-at b'[' body refl ∙ rw (laws.advance_one-cons b'[' body) refl
  parse_any-open (suc (suc lab)) body h k =
      let number = parse_u64-back s laws (suc (suc lab)) body (omega arith) (k (ground arith)) in
      let small : suc (suc lab) % 2 ^ 16 ≡ suc (suc lab) = omega arith in
      parse_any-at b'{' (decimal (suc (suc lab)) body) refl
      ∙ rw (laws.advance_one-cons b'{' (decimal (suc (suc lab)) body), number)
          (ap (λ (x : ℕ). parse_body s tree many x b'}' body) small)

  Close-other : {c : ℕ} → Close c → (c == b':') ≡ false
  Close-other Close.round = refl
  Close-other Close.square = refl
  Close-other Close.curly = refl

  -- Behind the label there is no colon.
  Leads-ctr :
      (lab : ℕ) {close : ℕ} {rest v : Text} (body : Text)
      → s.skip_trivia body ≡ v
      → Leads s laws close rest v
      → Close close
      → parse_body s tree many lab close body ≡ parse_ctr s tree many lab close v
  unfolding parse_body
  Leads-ctr lab {close = close} {rest = rest} body e Leads.closed k =
      let other : (close == b':') ≡ false = Close-other k in
      rw e (rw (laws.peek_one-cons close rest, other) refl)
  Leads-ctr lab body e (Leads.tree (Opens.opens c t o)) k =
      let other : (c == b':') ≡ false = ground arith in
      rw e (rw (laws.peek_one-cons c t, other) refl)

  pub parse_body-ctr :
      (lab : ℕ) {close : ℕ} (ports : Trees) (body rest : Text)
      → Leads s laws close rest (s.skip_trivia body)
      → Close close
      → many close (s.skip_trivia body) ≡ Parsed.ok ports (close ∷ rest)
      → count ports ≤ max_arity
      → parse_body s tree many lab close body ≡ Parsed.ok (Tree.ctr lab ports) rest
  unfolding parse_ctr
  parse_body-ctr lab {close = close} ports body rest l k h small =
      let few : ltb max_arity (count ports) ≡ false = ground arith in
      Leads-ctr lab body refl l k ∙ rw h (rw (laws.advance_one-cons close rest, few) refl)

  consume-colon : (t : Text) → s.consume (codes ":") (b':' ∷ t) ≡ (true, t)
  consume-colon t = consume-solid s laws (codes ":") b':' t refl

  pub parse_body-adt :
      (lab i n : ℕ) {close : ℕ} (fields : Trees) (body rest : Text)
      → ends_number body ≡ true
      → i < n
      → n ≤ max_adt_variants
      → many close body ≡ Parsed.ok fields (close ∷ rest)
      → count fields ≤ max_adt_fields
      → parse_body s tree many lab close (b':' ∷ decimal i (b':' ∷ decimal n body))
        ≡ Parsed.ok (Tree.adt lab i n fields) rest
  unfolding parse_body parse_adt
  parse_body-adt lab i n {close = close} fields body rest k below bound h small =
      let text : Text = decimal i (b':' ∷ decimal n body) in
      let index = parse_u64-back s laws i (b':' ∷ decimal n body) (omega arith) refl in
      let number = parse_u64-back s laws n body (omega arith) k in
      let some_variant : (n == 0) ≡ false = ground arith in
      let variants : ltb max_adt_variants n ≡ false = ground arith in
      let in_range : leb n i ≡ false = ground arith in
      let few : ltb max_adt_fields (count fields) ≡ false = ground arith in
      rw (laws.skip_trivia-solid b':' text refl, laws.peek_one-cons b':' text)
        (rw (laws.advance_one-cons b':' text, index)
          (rw (consume-colon (decimal n body), number)
            (rw h
              (rw (laws.advance_one-cons close rest, some_variant, variants, in_range, few) refl))))

  consume-close : (t : Text) → s.consume (codes ">") (b'>' ∷ t) ≡ (true, t)
  consume-close t = consume-solid s laws (codes ">") b'>' t refl

  consume-angle : (t : Text) → s.consume (codes "<") (b'<' ∷ t) ≡ (true, t)
  consume-angle t = consume-solid s laws (codes "<") b'<' t refl

  -- The trees inside are read off `t1`, `t2` and `t3`.
  pub parse_any-op :
      (o : TypedOp) (rhs out : Tree) (t1 t2 rest : Text)
      → tree (b' ' ∷ t1) ≡ Parsed.ok rhs t2
      → tree t2 ≡ Parsed.ok out (b'>' ∷ rest)
      → parse_any s tree many (b'<' ∷ (display o ++ (b' ' ∷ t1)))
        ≡ Parsed.ok (Tree.op o rhs out) rest
  unfolding by_first parse_op_node
  parse_any-op o rhs out t1 t2 rest h k =
      parse_any-at b'<' (display o ++ (b' ' ∷ t1)) refl
      ∙ rw (laws.advance_one-cons b'<' (display o ++ (b' ' ∷ t1)), parse_op-display s laws o t1)
          (rw h (rw k (rw (consume-close rest) refl)))

  pub parse_any-mat :
      (z n out : Tree) (t1 t2 t3 t4 rest : Text)
      → tree t1 ≡ Parsed.ok z t2
      → tree t2 ≡ Parsed.ok n t3
      → s.skip_trivia t3 ≡ t4
      → Opens t4
      → tree t4 ≡ Parsed.ok out (b'>' ∷ rest)
      → parse_any s tree many (b'?' ∷ b'<' ∷ t1) ≡ Parsed.ok (Tree.mat z n out) rest
  unfolding by_first parse_mat
  parse_any-mat z n out t1 t2 t3 _ rest h k e (Opens.opens c t4 o) l =
      let other : (c == b'>') ≡ false = ground arith in
      parse_any-at b'?' (b'<' ∷ t1) refl
      ∙ rw (laws.advance_one-cons b'?' (b'<' ∷ t1)) (
          rw (consume-angle t1) (
            rw h (
              rw k (
                rw e (rw (laws.peek_one-cons c t4, other) (rw l (rw (consume-close rest) refl)))))))

  pub parse_any-ref :
      {nam : Name}
      → IsName s nam
      → (rest : Text) → Ends s rest
      → parse_any s tree many (b'@' ∷ (nam ++ rest)) ≡ Parsed.ok (Tree.ref nam) rest
  unfolding by_first parse_ref
  parse_any-ref {nam = nam} h rest k =
      parse_any-at b'@' (nam ++ rest) refl
      ∙ rw (laws.advance_one-cons b'@' (nam ++ rest)) (
          rw (Ordinary-skip (IsName-Ordinary s laws h rest))
            (rw (parse_name-append s laws h rest k) refl))
    where
      Ordinary-skip : {t : Text} → Ordinary t → s.skip_trivia t ≡ t
      Ordinary-skip (Ordinary.name c t o) = laws.skip_trivia-solid c t (ground arith)

  pub parse_any-var :
      {nam : Name}
      → IsName s nam
      → (rest : Text) → Ends s rest
      → parse_any s tree many (nam ++ rest) ≡ Parsed.ok (Tree.var nam) rest
  unfolding by_first parse_var
  parse_any-var {nam = nam} h rest k =
      at (IsName-Ordinary s laws h rest) (rw (parse_name-append s laws h rest k) refl)
    where
      at :
          {t : Text}
          → Ordinary t
          → parse_var s tree many t ≡ Parsed.ok (Tree.var nam) rest
          → parse_any s tree many t ≡ Parsed.ok (Tree.var nam) rest
      at (Ordinary.name c t o) e = parse_any-at c t (ground arith) ∙ (other ∙ e)
        where
          other : by_first s tree many c (c ∷ t) ≡ parse_var s tree many (c ∷ t)
          other = ground arith

  pub parse_any-number : (t : Text) → parse_any s tree many (b'#' ∷ t) ≡ parse_number s t
  unfolding by_first
  parse_any-number t = parse_any-at b'#' t refl ∙ rw (laws.advance_one-cons b'#' t) refl

  pub parse_any-era : (t : Text) → parse_any s tree many (b'*' ∷ t) ≡ Parsed.ok Tree.era t
  unfolding by_first
  parse_any-era t = parse_any-at b'*' t refl ∙ rw (laws.advance_one-cons b'*' t) refl
