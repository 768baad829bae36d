-- ===== src/Host/Encode/Returns.antt =====
-- When encode_def returns (src/host/encode.rs).
use hvm.Prelude.{
  ℕ, ◌≡◌, ◌≢◌, ◌⊎◌, inl, inr, refl, Bool, true, false, Option, none, some, List, [], ◌∷◌, ◌++◌,
  arith, ◌∙◌, ap, if◌then◌else◌,
}
use mathlib.Core.Path.{sym, subst}
use mathlib.Core.List.{append-nil}
use hvm.Run.Port
use hvm.Run.Linker.{Panic}
use hvm.Run.Port.{new_int}
use hvm.Run.Instruction.Program.{InterpretedDef}
use hvm.Ast.{Name, Tree, Net}
use hvm.Host.{Host}
use hvm.Host.Encode.{
  Built, built, panicked, ◌>>=◌, Scope, State, on_encoder, const_side, either_side, or_else, is_era,
  is_ref, is_int, visit_tree, visit_redex, visit_redexes, visit_net, const_port, finish, is_empty,
}
use hvm.Host.Encode.Definition.{to_def, encode_def}
use hvm.Host.Encode.Variables.{
  vars, redex_vars, net_vars, toggle_all, names, Yields, Goes, Goes-bind, Goes-pure, Goes-link,
  Goes-const, Goes-wires,
}
use hvm.Host.Encode.Total.{Encodes, RedexesEncode, NetEncodes, Goes-def_of, Goes-case, Goes-tree}

module _ (host : Host) where
  -- The side that is a constant has no variables.
  abbrev Split : List Name → Option (Tree × Tree) → Type 0
  Split xs none = Unit
  Split xs (some (c, t)) = (xs ≡ vars t) × Encodes host c × Encodes host t

  either_side-Split :
      (test : Tree → Bool)
      → ((t : Tree) → test t ≡ true → vars t ≡ [])
      → (a b : Tree) → Encodes host a
      → Encodes host b
      → Split (vars a ++ vars b) (either_side test a b)
  either_side-Split test bare a b ha hb = at (test a) refl (test b) refl
    where
      at :
          (c : Bool)
          → test a ≡ c
          → (d : Bool) → test b ≡ d
          → Split (vars a ++ vars b) (if c then some (a, b) else if d then some (b, a) else none)
      at true e d f = (ap (λ xs. xs ++ vars b) (bare a e), ha, hb)
      at false e true f = (ap (λ xs. vars a ++ xs) (bare b f) ∙ append-nil (vars a), hb, ha)
      at false e false f = tt

  or_else-Split :
      (xs : List Name) (o p : Option (Tree × Tree))
      → Split xs o
      → Split xs p
      → Split xs (or_else o p)
  or_else-Split xs none p h k = k
  or_else-Split xs (some ct) p h k = h

  is_era-vars : (t : Tree) → is_era t ≡ true → vars t ≡ []
  unfolding vars
  is_era-vars Tree.era e = refl
  is_era-vars (Tree.int bits) e = refl
  is_era-vars (Tree.f32 bits) e = refl
  is_era-vars (Tree.ref nam) e = refl
  is_era-vars (Tree.ctr lab ports) e = absurd (ground arith)
  is_era-vars (Tree.op o a b) e = absurd (ground arith)
  is_era-vars (Tree.mat a b c) e = absurd (ground arith)
  is_era-vars (Tree.adt lab i n fs) e = absurd (ground arith)
  is_era-vars (Tree.var nam) e = absurd (ground arith)

  is_ref-vars : (t : Tree) → is_ref t ≡ true → vars t ≡ []
  unfolding vars
  is_ref-vars Tree.era e = refl
  is_ref-vars (Tree.int bits) e = refl
  is_ref-vars (Tree.f32 bits) e = refl
  is_ref-vars (Tree.ref nam) e = refl
  is_ref-vars (Tree.ctr lab ports) e = absurd (ground arith)
  is_ref-vars (Tree.op o a b) e = absurd (ground arith)
  is_ref-vars (Tree.mat a b c) e = absurd (ground arith)
  is_ref-vars (Tree.adt lab i n fs) e = absurd (ground arith)
  is_ref-vars (Tree.var nam) e = absurd (ground arith)

  is_int-vars : (t : Tree) → is_int t ≡ true → vars t ≡ []
  unfolding vars
  is_int-vars Tree.era e = refl
  is_int-vars (Tree.int bits) e = refl
  is_int-vars (Tree.f32 bits) e = refl
  is_int-vars (Tree.ref nam) e = refl
  is_int-vars (Tree.ctr lab ports) e = absurd (ground arith)
  is_int-vars (Tree.op o a b) e = absurd (ground arith)
  is_int-vars (Tree.mat a b c) e = absurd (ground arith)
  is_int-vars (Tree.adt lab i n fs) e = absurd (ground arith)
  is_int-vars (Tree.var nam) e = absurd (ground arith)

  const_side-Split :
      (a b : Tree) → Encodes host a → Encodes host b → Split (vars a ++ vars b) (const_side a b)
  unfolding const_side
  const_side-Split a b ha hb =
      let xs : List Name = vars a ++ vars b in
      or_else-Split xs (either_side is_era a b) _ (either_side-Split is_era is_era-vars a b ha hb) (
        or_else-Split xs (either_side is_ref a b) (either_side is_int a b)
          (either_side-Split is_ref is_ref-vars a b ha hb)
          (either_side-Split is_int is_int-vars a b ha hb))

  Goes-const_port : (t : Tree) → Encodes host t → Goes [] (const_port host t)
  unfolding const_port Encodes
  Goes-const_port (Tree.ref nam) h = Goes-def_of host nam h
  Goes-const_port (Tree.int bits) h = Goes-pure (new_int bits)
  Goes-const_port Tree.era h = Goes-pure Port.era
  Goes-const_port (Tree.f32 bits) h = Goes-pure Port.era
  Goes-const_port (Tree.ctr lab ports) h = Goes-pure Port.era
  Goes-const_port (Tree.op o rhs out) h = Goes-pure Port.era
  Goes-const_port (Tree.mat z u out) h = Goes-pure Port.era
  Goes-const_port (Tree.adt lab i n fields) h = Goes-pure Port.era
  Goes-const_port (Tree.var nam) h = Goes-pure Port.era

  Goes-redex :
      (a b : Tree)
      → Encodes host a
      → Encodes host b
      → Goes (vars a ++ vars b) (visit_redex to_def host a b)
  unfolding visit_redex
  Goes-redex a b ha hb =
      Goes-case host (const_side a b) _ _ (vars a ++ vars b)
        (λ (c, t) e.
          let split : Split (vars a ++ vars b) (some (c, t)) =
            subst (Split (vars a ++ vars b)) e (const_side-Split a b ha hb) in
          subst
            (λ xs. Goes xs (
              const_port host c >>= λ p.
              on_encoder (to_def.make_const p) >>= visit_tree to_def host t))
            (sym (split.0))
            (Goes-bind (Goes-const_port c (split.1))
              (λ p. Goes-bind (Goes-const p) (λ trg. Goes-tree host t trg (split.2)))))
        (λ e.
          subst
            (λ xs. Goes (vars a ++ xs) (
              on_encoder to_def.wires >>= λ (av, aw, bv, bw). visit_tree to_def host a av >>= λ _.
              visit_tree to_def host b bv >>= λ _. on_encoder (to_def.link aw bw)))
            (append-nil (vars b))
            (Goes-bind Goes-wires (λ (av, aw, bv, bw).
              Goes-bind (Goes-tree host a av ha)
                (λ _. Goes-bind (Goes-tree host b bv hb) (λ _. Goes-link aw bw)))))

  Goes-redexes :
      (rs : List (Tree × Tree))
      → RedexesEncode host rs
      → Goes (redex_vars rs) (visit_redexes to_def host rs)
  unfolding visit_redexes redex_vars RedexesEncode
  Goes-redexes [] h = Goes-pure tt
  Goes-redexes ((a, b) ∷ rest) h =
      Goes-bind (Goes-redex a b (h.0.0) (h.0.1)) (λ _. Goes-redexes rest (h.1))

  Goes-net :
      (net : Net) (trg : ℕ)
      → NetEncodes host net
      → Goes (net_vars net) (visit_net to_def host net trg)
  unfolding visit_net net_vars NetEncodes
  Goes-net net trg h =
      Goes-bind (Goes-tree host net.root trg (h.0)) (λ _. Goes-redexes net.redexes (h.1))

  -- If the references of a net have definitions and the variants of its data are in range, then
  -- encode_def returns exactly if every variable that the walk opens is closed, and otherwise it panics
  -- because of an unbound variable.
  pub encode_def_lem :
      (net : Net)
      → NetEncodes host net
      → ((def : InterpretedDef) × (encode_def host net ≡ built tt def)
          × (toggle_all (net_vars net) [] ≡ []))
        ⊎ ((encode_def host net ≡ panicked Panic.unbound) × (toggle_all (net_vars net) [] ≢ []))
  unfolding encode_def finish
  encode_def_lem net h =
      at
        (visit_net to_def host net 0
          (record { encoder = record { instr = []; trgs = 1 }; scope = [] }))
        ((Goes-net net 0 h).goes (record { encoder = record { instr = []; trgs = 1 }; scope = [] }))
    where
      last :
          (t : State InterpretedDef ℕ) (scope : Scope ℕ)
          → names scope ≡ toggle_all (net_vars net) []
          → ((def : InterpretedDef) × ((if is_empty scope
                  then built tt t.encoder
                  else panicked Panic.unbound)
                ≡ built tt def)
              × (toggle_all (net_vars net) [] ≡ []))
            ⊎ (((if is_empty scope then built tt t.encoder else panicked Panic.unbound)
                  ≡ panicked Panic.unbound)
                × (toggle_all (net_vars net) [] ≢ []))
      last t [] e = inl (t.encoder, refl, sym e)
      last t ((x, i) ∷ rest) e = inr (refl, λ f. absurd (no_cons x (names rest) (e ∙ f)))
        where
          no_cons : (x : Name) (xs : List Name) → x ∷ xs ≡ [] → ⊥
          no_cons x xs e = absurd (ground arith)

      at :
          (o : Built (State InterpretedDef ℕ) (Unit {0}))
          → Yields (λ _ t. names t.scope ≡ toggle_all (net_vars net) []) o
          → ((def : InterpretedDef) × (finish o ≡ built tt def)
              × (toggle_all (net_vars net) [] ≡ []))
            ⊎ ((finish o ≡ panicked Panic.unbound) × (toggle_all (net_vars net) [] ≢ []))
      at (built a t) e = last t t.scope e
      at (panicked p) e = absurd e
