-- ===== src/Ast/Limits/Nodes.antt =====
-- What the parser reads as a tree, from what its calls for the trees inside read.
use hvm.Prelude.{
  ℕ, zero, suc, ◌%◌, ◌^◌, ◌<◌, ◌≤◌, refl, Bool, true, false, ◌||◌, [], ◌∷◌, arith, if◌then◌else◌,
  length, ltb, leb, ◌==◌,
}
use hvm.Ops.Kinds.{codes}
use hvm.Ast.{Tree, Trees, count, legacy_mat, max_arity}
use hvm.Ast.Scanner.{Text, Scanner, IsScanner}
use hvm.Ast.Result.{P, pure, ◌>>=◌, ◌>>◌}
use hvm.Ast.Parser.{
  advance, parse_u64, on_next, closing, legacy, by_first, parse_any, parse_body, parse_node,
  parse_ctr, parse_adt, parse_op_node, parse_mat, parse_ref, parse_var, parse_lab, parse_out,
  max_adt_variants, max_adt_fields,
}
use hvm.Ast.Limits.{WellFormed, AllWellFormed}
use hvm.Ast.Limits.Fine.{Fine, Fine-bind, Fine-if_at, Fine-le, Fine-unless}
use hvm.Ast.Limits.Leaves.{
  AnyFloat, advance-shorter, take-Fine, parse_u64-Fine, parse_name-Fine, parse_op-Fine,
  parse_number-Fine,
}

module _ (s : Scanner) (laws : IsScanner s) where
  abbrev pub Good : Tree → Type 0
  Good = WellFormed s AnyFloat

  abbrev pub AllGood : Trees → Type 0
  AllGood = AllWellFormed s AnyFloat

  legacy_node-Fine :
      (lab : ℕ) {ports : Trees} {out : Tree} (n : ℕ) (t : Text)
      → AllGood ports
      → Good out
      → length t < n
      → Fine Good n (legacy (legacy_mat (Tree.ctr lab ports) out) t)
  unfolding legacy_mat
  legacy_node-Fine zero n t AllWellFormed.end h l = Fine.failed _ refl
  legacy_node-Fine zero n t (AllWellFormed.and p AllWellFormed.end) h l = Fine.failed _ refl
  legacy_node-Fine zero n t (AllWellFormed.and p (AllWellFormed.and q AllWellFormed.end)) h l =
      Fine.ok _ t (WellFormed.mat p q h) l
  legacy_node-Fine zero n t (AllWellFormed.and p (AllWellFormed.and q (AllWellFormed.and r rs))) h
        l =
      Fine.failed _ refl
  legacy_node-Fine (suc lab) n t hs h l = Fine.failed _ refl

  legacy-Fine :
      {arms out : Tree} (n : ℕ) (t : Text)
      → Good arms
      → Good out
      → length t < n
      → Fine Good n (legacy (legacy_mat arms out) t)
  unfolding legacy_mat
  legacy-Fine n t (WellFormed.ctr lab ports _ _ hs) h l = legacy_node-Fine lab n t hs h l
  legacy-Fine n t _ h l = Fine.failed _ refl

module _ (s : Scanner) (laws : IsScanner s) (tree : P Tree) (many : ℕ → P Trees) (m : ℕ)
    (tree-Fine : (t : Text) → length t < m → Fine (Good s laws) (length t) (tree t))
    (many-Fine : (t : Text)
      → length t < m
      → (close : ℕ) → Fine (AllGood s laws) (suc (length t)) (many close t)) where
  parse_ctr-Fine :
      (lab close : ℕ) (t : Text)
      → lab < 2 ^ 16
      → length t < m
      → Fine (Good s laws) (suc (length t)) (parse_ctr s tree many lab close t)
  unfolding parse_ctr
  parse_ctr-Fine lab close t small h = Fine-bind (many-Fine t h close) (λ ports t1 q h1.
      Fine-unless (ltb max_arity (count ports)) _ _ (s.advance_one t1) refl (λ few.
        Fine.ok _ (s.advance_one t1) (WellFormed.ctr lab ports small (ground arith) q)
          (omega (arith, advance-shorter s laws t1))))

  parse_adt-Fine :
      (lab close : ℕ) (t : Text)
      → lab < 2 ^ 16
      → length t < m
      → Fine (Good s laws) (suc (length t)) (parse_adt s tree many lab close t)
  unfolding parse_adt
  parse_adt-Fine lab close t small h =
      Fine-bind (parse_u64-Fine s laws (s.advance_one t)) (λ i t1 _ h1.
        Fine-bind (take-Fine s laws (codes ":") t1) (λ _ t2 _ h2.
          Fine-bind (parse_u64-Fine s laws t2) (λ n t3 _ h3.
            let shorter : length t3 ≤ length t = omega (arith, advance-shorter s laws t) in
            Fine-bind (many-Fine t3 (omega arith) close) (λ fields t4 q h4.
              Fine-unless (n == 0) _ _ (s.advance_one t4) refl (λ some_variant.
                Fine-unless (ltb max_adt_variants n) _ _ (s.advance_one t4) refl (λ variants.
                  Fine-unless (leb n i) _ _ (s.advance_one t4) refl (λ in_range.
                    Fine-unless (ltb max_adt_fields (count fields)) _ _ (s.advance_one t4) refl
                      (λ few.
                        Fine.ok _ (s.advance_one t4)
                          (WellFormed.adt lab i n fields small (ground arith) (ground arith)
                            (ground arith) q)
                          (omega (arith, advance-shorter s laws t4))))))))))

  parse_body-Fine :
      (lab close : ℕ) (t : Text)
      → lab < 2 ^ 16
      → length t < m
      → Fine (Good s laws) (suc (length t)) (parse_body s tree many lab close t)
  unfolding parse_body
  parse_body-Fine lab close t small h = at (s.skip_trivia t) (laws.skip_trivia-shorter t)
    where
      at :
          (v : Text)
          → length v ≤ length t
          → Fine (Good s laws) (suc (length t)) (
              on_next
                (s.peek_one v)
                (parse_ctr s tree many lab close)
                (λ c.
                  if c == b':'
                  then parse_adt s tree many lab close
                  else parse_ctr s tree many lab close)
                v)
      at [] l =
          rw laws.peek_one-nil
            (Fine-le (parse_ctr-Fine lab close [] small (omega arith)) (omega arith))
      at (c ∷ cs) l = rw (laws.peek_one-cons c cs) (
          Fine-if_at (c == b':') (parse_adt s tree many lab close) (parse_ctr s tree many lab close)
            (c ∷ cs) (Fine-le (parse_adt-Fine lab close (c ∷ cs) small (omega arith)) (omega arith))
            (Fine-le (parse_ctr-Fine lab close (c ∷ cs) small (omega arith)) (omega arith)))

  parse_lab-Fine :
      (c : ℕ) (t : Text) → Fine (λ lab. lab < 2 ^ 16) (suc (length t)) (parse_lab s tree many c t)
  parse_lab-Fine c t = at (c == b'{') (c == b'[')
    where
      at :
          (b d : Bool)
          → Fine
              (λ lab. lab < 2 ^ 16)
              (suc (length t))
              ((if b
                  then (parse_u64 s >>= λ lab. pure (lab % 2 ^ 16))
                  else pure (if d then 1 else 0))
                t)
      at true d =
          Fine-bind (parse_u64-Fine s laws t) (λ lab rest _ h. Fine.ok _ rest (omega arith) h)
      at false true = Fine.ok 1 t (omega arith) (omega arith)
      at false false = Fine.ok 0 t (omega arith) (omega arith)

  -- A tree that starts with a character of its own.
  abbrev Starts : P Tree → Type 0
  Starts p = (c : ℕ) (cs : Text) → length cs < m → Fine (Good s laws) (suc (length cs)) (p (c ∷ cs))

  parse_node-Fine : (char : ℕ) → Starts (parse_node s tree many char)
  unfolding parse_node
  parse_node-Fine char c cs h = rw (laws.advance_one-cons c cs) (
      Fine-bind (parse_lab-Fine char cs) (λ lab rest small l.
        Fine-le (parse_body-Fine lab (closing char) rest small (omega arith)) (omega arith)))

  parse_ref-Fine : Starts (parse_ref s tree many)
  unfolding parse_ref
  parse_ref-Fine c cs h = rw (laws.advance_one-cons c cs) (
      Fine-bind (parse_name-Fine s laws (s.skip_trivia cs)) (λ nam rest q l.
        Fine.ok _ rest (WellFormed.ref nam q) (omega (arith, laws.skip_trivia-shorter cs))))

  parse_op_node-Fine : Starts (parse_op_node s tree many)
  unfolding parse_op_node
  parse_op_node-Fine c cs h = rw (laws.advance_one-cons c cs) (
      Fine-bind (parse_op-Fine s laws cs) (λ o t1 _ h1.
        Fine-bind (tree-Fine t1 (omega arith)) (λ rhs t2 p h2.
          Fine-bind (tree-Fine t2 (omega arith)) (λ out t3 q h3.
            Fine-bind (take-Fine s laws (codes ">") t3)
              (λ _ t4 _ h4. Fine.ok _ t4 (WellFormed.op o p q) (omega arith))))))

  parse_out-Fine :
      {z n : Tree} (t : Text)
      → length t < m
      → Good s laws z
      → Good s laws n
      → Fine (Good s laws) (length t) (parse_out s tree many z n t)
  parse_out-Fine t h p q = Fine-bind (tree-Fine t h) (λ out t1 r h1.
      Fine-bind (take-Fine s laws (codes ">") t1)
        (λ _ t2 _ h2. Fine.ok _ t2 (WellFormed.mat p q r) (omega arith)))

  parse_mat-Fine : Starts (parse_mat s tree many)
  unfolding parse_mat
  parse_mat-Fine c cs h = rw (laws.advance_one-cons c cs) (
      Fine-bind (take-Fine s laws (codes "<") cs) (λ _ t1 _ h1.
        Fine-bind (tree-Fine t1 (omega arith)) (λ z t2 p h2.
          Fine-bind (tree-Fine t2 (omega arith))
            (λ n t3 q h3. at (s.skip_trivia t3) (omega (arith, laws.skip_trivia-shorter t3)) p q))))
    where
      at :
          {z n : Tree} (v : Text)
          → length v < length cs
          → Good s laws z
          → Good s laws n
          → Fine (Good s laws) (suc (length cs)) (
              on_next
                (s.peek_one v)
                (parse_out s tree many z n)
                (λ d.
                  if d == b'>'
                  then (advance s >> legacy (legacy_mat z n))
                  else parse_out s tree many z n)
                v)
      at [] l p q =
          rw laws.peek_one-nil (Fine-le (parse_out-Fine [] (omega arith) p q) (omega arith))
      at {z = z} {n = n} (d ∷ ds) l p q = rw (laws.peek_one-cons d ds) (
          Fine-if_at (d == b'>') (advance s >> legacy (legacy_mat z n)) (parse_out s tree many z n)
            (d ∷ ds)
            (legacy-Fine s laws (suc (length cs)) (s.advance_one (d ∷ ds)) p q
              (omega (arith, advance-shorter s laws (d ∷ ds))))
            (Fine-le (parse_out-Fine (d ∷ ds) (omega arith) p q) (omega arith)))

  parse_var-Fine : (t : Text) → Fine (Good s laws) (length t) (parse_var s tree many t)
  unfolding parse_var
  parse_var-Fine t =
      Fine-bind (parse_name-Fine s laws t) (λ nam rest q h. Fine.ok _ rest (WellFormed.var nam q) h)

  by_first-Fine : (c : ℕ) → Starts (by_first s tree many c)
  unfolding by_first
  by_first-Fine c d cs h =
      Fine-if_at (c == b'*') _ _ (d ∷ cs)
        (rw (laws.advance_one-cons d cs) (Fine.ok _ cs WellFormed.era (omega arith)))
        (Fine-if_at (c == b'(' || (c == b'[' || c == b'{')) _ _ (d ∷ cs) (parse_node-Fine c d cs h)
          (Fine-if_at (c == b'@') _ _ (d ∷ cs) (parse_ref-Fine d cs h) (
            Fine-if_at (c == b'#') _ _ (d ∷ cs)
              (rw (laws.advance_one-cons d cs) (parse_number-Fine s laws cs))
              (Fine-if_at (c == b'<') _ _ (d ∷ cs) (parse_op_node-Fine d cs h) (
                Fine-if_at (c == b'?') _ _ (d ∷ cs) (parse_mat-Fine d cs h)
                  (parse_var-Fine (d ∷ cs)))))))

  pub parse_any-Fine :
      (t : Text) → length t ≤ m → Fine (Good s laws) (length t) (parse_any s tree many t)
  unfolding parse_any
  parse_any-Fine t h = at (s.skip_trivia t) (laws.skip_trivia-shorter t)
    where
      at :
          (v : Text)
          → length v ≤ length t
          → Fine
              (Good s laws)
              (length t)
              (on_next (s.peek_one v) (parse_var s tree many) (λ c. by_first s tree many c) v)
      at [] l = rw laws.peek_one-nil (Fine-le (parse_var-Fine []) l)
      at (c ∷ cs) l = rw (laws.peek_one-cons c cs) (Fine-le (by_first-Fine c c cs (omega arith)) l)
