-- ===== src/Host/Encode/GrowVisit.antt =====
-- The walk over a net only adds instructions and registers (src/host/encode.rs).
use hvm.Prelude.{
  ℕ, zero, suc, ◌-◌, Option, none, some, List, [], ◌∷◌, ltb, if◌then◌else◌, Bool, true, false,
}
use hvm.Run.Port
use hvm.Run.Port.{new_int}
use hvm.Run.Linker.{Panic}
use hvm.Run.Instruction.Program.{InterpretedDef}
use hvm.Ast.{Name, Tree, Trees, Net}
use hvm.Host.{Host, ref_port}
use hvm.Host.Encode.{
  built, panicked, Scope, Visit, on_encoder, take, case_of, immediate, const_side, link_const,
  visit_var, visit_eras, visit_tree, visit_ports, visit_fields, others, visit_redex, visit_redexes,
  visit_net, def_of, const_port,
}
use hvm.Host.Encode.Definition.{to_def}
use hvm.Host.Encode.Grow.{
  OnBuilt, Grows, Grow, Grows-refl, Grow-bind, Grow-pure, Grow-link_const, Grow-link, Grow-ctr,
  Grow-op, Grow-mat, Grow-make_const, Grow-op_num, Grow-wires,
}

module _ {A B : Type 0} where
  Grow-case :
      (o : Option A) (f : A → Visit InterpretedDef ℕ B) (d : Visit InterpretedDef ℕ B)
      → ((x : A) → Grow (f x))
      → Grow d
      → Grow (case_of o f d)
  Grow-case none f d hf hd = hd
  Grow-case (some x) f d hf hd = hf x

Grow-if :
    {A : Type 0} (b : Bool) (m n : Visit InterpretedDef ℕ A)
    → Grow m
    → Grow n
    → Grow (if b then m else n)
Grow-if true m n hm hn = hm
Grow-if false m n hm hn = hn

module _ (host : Host) where
  pub Grow-def_of : (nam : Name) → Grow (def_of host nam)
  unfolding def_of
  Grow-def_of nam =
      Grow-case (ref_port host nam) built (λ s. panicked Panic.no_def) Grow-pure (λ s. tt)

  pub Grow-const_port : (t : Tree) → Grow (const_port host t)
  unfolding const_port
  Grow-const_port (Tree.ref nam) = Grow-def_of nam
  Grow-const_port (Tree.int bits) = Grow-pure (new_int bits)
  Grow-const_port Tree.era = Grow-pure Port.era
  Grow-const_port (Tree.f32 bits) = Grow-pure Port.era
  Grow-const_port (Tree.ctr lab ports) = Grow-pure Port.era
  Grow-const_port (Tree.op o rhs out) = Grow-pure Port.era
  Grow-const_port (Tree.mat z u out) = Grow-pure Port.era
  Grow-const_port (Tree.adt lab i n fields) = Grow-pure Port.era
  Grow-const_port (Tree.var nam) = Grow-pure Port.era

  pub Grow-others : (i n : ℕ) → Grow (others to_def host i n)
  unfolding others
  Grow-others i n =
      Grow-if (ltb i n) (built (n - i - 1)) (λ s. panicked Panic.overflow) (Grow-pure (n - i - 1))
        (λ s. tt)

  pub Grow-port : (trg port : ℕ) → Grow (link_const to_def host trg port)
  unfolding link_const
  Grow-port trg port = Grow-link_const trg port

  Grow-var : (nam : Name) (trg : ℕ) → Grow (visit_var to_def host nam trg)
  unfolding visit_var
  Grow-var nam trg s = at (take s.scope nam)
    where
      at :
          (o : Option (ℕ × Scope ℕ))
          → OnBuilt
              (λ _ t. Grows s.encoder t.encoder)
              (case_of o
                (λ (other, rest). on_encoder (to_def.link other trg) (record s { scope = rest }))
                (built tt (record s { scope = (nam, trg) ∷ s.scope })))
      at none = Grows-refl s.encoder
      at (some (other, rest)) = Grow-link other trg (record s { scope = rest })

  pub Grow-eras : (lab n : ℕ) (trg : ℕ) → Grow (visit_eras to_def host lab n trg)
  unfolding visit_eras
  Grow-eras lab zero trg = Grow-pure trg
  Grow-eras lab (suc n) trg =
      Grow-bind _ _ (Grow-ctr lab trg)
        (λ (l, r). Grow-bind _ _ (Grow-port l Port.era) (λ _. Grow-eras lab n r))

  mutual
    unfolding visit_tree visit_ports visit_fields

    pub Grow-tree : (t : Tree) (trg : ℕ) → Grow (visit_tree to_def host t trg)
    Grow-tree Tree.era trg = Grow-port trg _
    Grow-tree (Tree.int bits) trg = Grow-port trg _
    Grow-tree (Tree.f32 bits) trg = Grow-port trg _
    Grow-tree (Tree.ref nam) trg = Grow-bind _ _ (Grow-def_of nam) (Grow-port trg)
    Grow-tree (Tree.ctr lab ports) trg = Grow-ports lab ports trg
    Grow-tree (Tree.adt lab i n fields) trg = Grow-bind _ _ (Grow-eras lab i trg) (λ main.
        Grow-bind _ _ (Grow-ctr lab main) (λ (l, r). Grow-bind _ _ (Grow-fields lab fields l) (λ l'.
          Grow-bind _ _ (Grow-others i n)
            (λ rest. Grow-bind _ _ (Grow-eras lab rest r) (λ r'. Grow-link l' r')))))
    Grow-tree (Tree.op o rhs out) trg =
        Grow-case (immediate rhs) _ _ (λ p. Grow-bind _ _ (Grow-op_num o trg p) (Grow-tree out))
          (Grow-bind _ _ (Grow-op o trg)
            (λ (l, r). Grow-bind _ _ (Grow-tree rhs l) (λ _. Grow-tree out r)))
    Grow-tree (Tree.mat z u out) trg = Grow-bind _ _ (Grow-mat trg) (λ (a, o).
        Grow-bind _ _ (Grow-ctr 0 a) (λ (l, r).
          Grow-bind _ _ (Grow-tree z l)
            (λ _. Grow-bind _ _ (Grow-tree u r) (λ _. Grow-tree out o))))
    Grow-tree (Tree.var nam) trg = Grow-var nam trg

    pub Grow-ports : (lab : ℕ) (ts : Trees) (trg : ℕ) → Grow (visit_ports to_def host lab ts trg)
    Grow-ports lab Trees.end trg = Grow-port trg _
    Grow-ports lab (Trees.and t Trees.end) trg = Grow-tree t trg
    Grow-ports lab (Trees.and t (Trees.and u us)) trg =
        Grow-bind _ _ (Grow-ctr lab trg)
          (λ (l, r). Grow-bind _ _ (Grow-tree t l) (λ _. Grow-ports lab (Trees.and u us) r))

    pub Grow-fields : (lab : ℕ) (ts : Trees) (l : ℕ) → Grow (visit_fields to_def host lab ts l)
    Grow-fields lab Trees.end l = Grow-pure l
    Grow-fields lab (Trees.and t ts) l =
        Grow-bind _ _ (Grow-ctr lab l)
          (λ (x, y). Grow-bind _ _ (Grow-tree t x) (λ _. Grow-fields lab ts y))

  pub Grow-redex : (a b : Tree) → Grow (visit_redex to_def host a b)
  unfolding visit_redex
  Grow-redex a b =
      Grow-case (const_side a b) _ _
        (λ (c, t).
          Grow-bind _ _ (Grow-const_port c) (λ p. Grow-bind _ _ (Grow-make_const p) (Grow-tree t)))
        (Grow-bind _ _ Grow-wires (λ (av, aw, bv, bw).
          Grow-bind _ _ (Grow-tree a av)
            (λ _. Grow-bind _ _ (Grow-tree b bv) (λ _. Grow-link aw bw))))

  pub Grow-redexes : (rs : List (Tree × Tree)) → Grow (visit_redexes to_def host rs)
  unfolding visit_redexes
  Grow-redexes [] = Grow-pure tt
  Grow-redexes ((a, b) ∷ rest) = Grow-bind _ _ (Grow-redex a b) (λ _. Grow-redexes rest)

  pub Grow-net : (net : Net) (trg : ℕ) → Grow (visit_net to_def host net trg)
  unfolding visit_net
  Grow-net net trg = Grow-bind _ _ (Grow-tree net.root trg) (λ _. Grow-redexes net.redexes)
