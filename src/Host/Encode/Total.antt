-- ===== src/Host/Encode/Total.antt =====
-- The walk over a tree returns, and opens and closes its variables (src/host/encode.rs).
use hvm.Prelude.{
  ℕ, zero, suc, ◌-◌, ◌≡◌, refl, true, Option, none, some, List, [], ◌∷◌, ◌++◌, arith, ltb,
  if◌then◌else◌,
}
use mathlib.Core.Path.{sym, subst}
use mathlib.Core.List.{append-nil}
use hvm.Run.Port
use hvm.Run.Linker.{Panic}
use hvm.Run.Port.{new_int}
use hvm.Run.Instruction.Program.{InterpretedDef}
use hvm.Ast.{Name, Tree, Trees, Net}
use hvm.Host.{Host, ref_port}
use hvm.Host.Encode.{
  built, panicked, ◌>>=◌, Scope, State, Visit, on_encoder, take, case_of, immediate, visit_var,
  visit_eras, visit_tree, visit_ports, visit_fields, others, def_of,
}
use hvm.Host.Encode.Definition.{to_def, push}
use hvm.Host.Encode.Variables.{
  vars, all_vars, close, names, Takes, take-Takes, Yields, Goes, Goes-bind, Goes-pure, Goes-port,
  Goes-link, Goes-ctr, Goes-op, Goes-mat, Goes-op_num,
}

module _ (host : Host) where
  -- The references of a tree have definitions, and the variants of its data are in range.
  unfoldable mutual
    pub Encodes : Tree → Type 0
    Encodes (Tree.ref nam) = (p : ℕ) × (ref_port host nam ≡ some p)
    Encodes (Tree.ctr lab ports) = AllEncode ports
    Encodes (Tree.op o rhs out) = Encodes rhs × Encodes out
    Encodes (Tree.mat z s out) = Encodes z × Encodes s × Encodes out
    Encodes (Tree.adt lab i n fields) = (ltb i n ≡ true) × AllEncode fields
    Encodes Tree.era = Unit
    Encodes (Tree.int bits) = Unit
    Encodes (Tree.f32 bits) = Unit
    Encodes (Tree.var nam) = Unit

    pub AllEncode : Trees → Type 0
    AllEncode Trees.end = Unit
    AllEncode (Trees.and t ts) = Encodes t × AllEncode ts

  unfoldable pub RedexesEncode : List (Tree × Tree) → Type 0
  RedexesEncode [] = Unit
  RedexesEncode ((a, b) ∷ rest) = (Encodes a × Encodes b) × RedexesEncode rest

  unfoldable pub NetEncodes : Net → Type 0
  NetEncodes net = Encodes net.root × RedexesEncode net.redexes

  pub Goes-def_of :
      (nam : Name) → (p : ℕ) × (ref_port host nam ≡ some p) → Goes [] (def_of host nam)
  unfolding def_of
  Goes-def_of nam (p, e) =
      subst (λ o. Goes [] (case_of o built (λ s. panicked Panic.no_def))) (sym e) (Goes-pure p)

  Goes-others : (i n : ℕ) → ltb i n ≡ true → Goes [] (others to_def host i n)
  unfolding others
  Goes-others i n e =
      subst (λ b. Goes [] (if b then built (n - i - 1) else (λ s. panicked Panic.overflow))) (sym e)
        (Goes-pure (n - i - 1))

  Goes-var : (nam : Name) (trg : ℕ) → Goes (nam ∷ []) (visit_var to_def host nam trg)
  unfolding visit_var to_def push
  Goes-var nam trg = record {
    goes = λ s. at s (take s.scope nam) (close nam (names s.scope)) (take-Takes nam s.scope);
  }
    where
      at :
          (s : State InterpretedDef ℕ) (o : Option (ℕ × Scope ℕ)) (p : Option (List Name))
          → Takes o p
          → Yields
              (λ _ t.
                names t.scope
                ≡ elim p as (λ p. List Name) [ none ↦ nam ∷ names s.scope | some left ↦ left ])
              (case_of o
                (λ (other, rest). on_encoder (to_def.link other trg) (record s { scope = rest }))
                (built tt (record s { scope = (nam, trg) ∷ s.scope })))
      at s none none h = refl
      at s (some (i, rest)) (some left) h = h
      at s none (some l) h = absurd h
      at s (some q) none h = absurd h

  Goes-eras : (lab n trg : ℕ) → Goes [] (visit_eras to_def host lab n trg)
  unfolding visit_eras
  Goes-eras lab zero trg = Goes-pure trg
  Goes-eras lab (suc n) trg =
      Goes-bind (Goes-ctr lab trg)
        (λ (l, r). Goes-bind (Goes-port host l Port.era) (λ _. Goes-eras lab n r))

  -- The first operand of an operation is a number, without variables, or not.
  immediate-vars : (t : Tree) (p : ℕ) → immediate t ≡ some p → vars t ≡ []
  unfolding vars
  immediate-vars (Tree.int bits) p e = refl
  immediate-vars (Tree.f32 bits) p e = refl
  immediate-vars Tree.era p e = refl
  immediate-vars (Tree.ref nam) p e = refl
  immediate-vars (Tree.ctr lab ports) p e = absurd (ground arith)
  immediate-vars (Tree.op o a b) p e = absurd (ground arith)
  immediate-vars (Tree.mat a b c) p e = absurd (ground arith)
  immediate-vars (Tree.adt lab i n fs) p e = absurd (ground arith)
  immediate-vars (Tree.var nam) p e = absurd (ground arith)

  pub Goes-case :
      {A B : Type 0} (o : Option A) (f : A → Visit InterpretedDef ℕ B)
      (d : Visit InterpretedDef ℕ B) (xs : List Name)
      → ((x : A) → o ≡ some x → Goes xs (f x))
      → (o ≡ none → Goes xs d)
      → Goes xs (case_of o f d)
  Goes-case none f d xs hf hd = hd refl
  Goes-case (some x) f d xs hf hd = hf x refl

  mutual
    unfolding visit_tree visit_ports visit_fields vars all_vars Encodes AllEncode

    pub Goes-tree : (t : Tree) (trg : ℕ) → Encodes t → Goes (vars t) (visit_tree to_def host t trg)
    Goes-tree Tree.era trg h = Goes-port host trg Port.era
    Goes-tree (Tree.int bits) trg h = Goes-port host trg (new_int bits)
    Goes-tree (Tree.f32 bits) trg h = Goes-port host trg _
    Goes-tree (Tree.ref nam) trg h = Goes-bind (Goes-def_of nam h) (Goes-port host trg)
    Goes-tree (Tree.ctr lab ports) trg h = Goes-ports lab ports trg h
    Goes-tree (Tree.adt lab i n fields) trg h =
        subst (λ xs. Goes xs (visit_tree to_def host (Tree.adt lab i n fields) trg))
          (append-nil (all_vars fields))
          (Goes-bind (Goes-eras lab i trg) (λ main. Goes-bind (Goes-ctr lab main) (λ (l, r).
            Goes-bind (Goes-fields lab fields l (h.1)) (λ l'.
              Goes-bind (Goes-others i n (h.0))
                (λ rest. Goes-bind (Goes-eras lab rest r) (λ r'. Goes-link l' r'))))))
    Goes-tree (Tree.op o rhs out) trg h =
        Goes-case (immediate rhs) _ _ (vars rhs ++ vars out)
          (λ p e.
            subst
              (λ xs.
                Goes (xs ++ vars out)
                  (on_encoder (to_def.op_num o trg p) >>= visit_tree to_def host out))
              (sym (immediate-vars rhs p e))
              (Goes-bind (Goes-op_num o trg p) (λ x. Goes-tree out x (h.1))))
          (λ e.
            Goes-bind (Goes-op o trg)
              (λ (l, r). Goes-bind (Goes-tree rhs l (h.0)) (λ _. Goes-tree out r (h.1))))
    Goes-tree (Tree.mat z u out) trg h = Goes-bind (Goes-mat trg) (λ (a, o).
        Goes-bind (Goes-ctr 0 a) (λ (l, r).
          Goes-bind (Goes-tree z l (h.0))
            (λ _. Goes-bind (Goes-tree u r (h.1)) (λ _. Goes-tree out o (h.2)))))
    Goes-tree (Tree.var nam) trg h = Goes-var nam trg

    Goes-ports :
        (lab : ℕ) (ts : Trees) (trg : ℕ)
        → AllEncode ts
        → Goes (all_vars ts) (visit_ports to_def host lab ts trg)
    Goes-ports lab Trees.end trg h = Goes-port host trg Port.era
    Goes-ports lab (Trees.and t Trees.end) trg h =
        subst (λ xs. Goes xs (visit_tree to_def host t trg)) (sym (append-nil (vars t)))
          (Goes-tree t trg (h.0))
    Goes-ports lab (Trees.and t (Trees.and u us)) trg h =
        Goes-bind (Goes-ctr lab trg)
          (λ (l, r). Goes-bind (Goes-tree t l (h.0)) (λ _. Goes-ports lab (Trees.and u us) r (h.1)))

    Goes-fields :
        (lab : ℕ) (ts : Trees) (l : ℕ)
        → AllEncode ts
        → Goes (all_vars ts) (visit_fields to_def host lab ts l)
    Goes-fields lab Trees.end l h = Goes-pure l
    Goes-fields lab (Trees.and t ts) l h =
        Goes-bind (Goes-ctr lab l)
          (λ (x, y). Goes-bind (Goes-tree t x (h.0)) (λ _. Goes-fields lab ts y (h.1)))
