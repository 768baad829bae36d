-- ===== src/Host/Encode/Pieces.antt =====
-- The parts of the two walks that are no trees: ports, variables, chains of erasers
-- (src/host/encode.rs).
use hvm.Prelude.{ℕ, zero, suc, ◌-◌, ◌≡◌, refl, Option, none, some, true, ◌∷◌, ltb}
use mathlib.Core.Path.{subst}
use hvm.Ops.Kinds.{Endian}
use hvm.Ops.Numeric.{Float}
use hvm.Run.Port
use hvm.Run.Port.{is_principal, new_int}
use hvm.Run.Linker.{Linker, Panic}
use hvm.Run.Instruction.Program.{InterpretedDef, Trgs}
use hvm.Ast.{Name, Tree}
use hvm.Host.{Host, ref_port}
use hvm.Host.Valid.{Principal}
use hvm.Host.Encode.{
  built, panicked, ◌>>=◌, Scope, State, Visit, on_encoder, take, case_of, link_const, visit_var,
  visit_eras, others, def_of, const_port,
}
use hvm.Host.Encode.Definition.{to_def}
use hvm.Host.Encode.Direct.{to_net}
use hvm.Host.Encode.Grow.{Grow, Grow-bind, Grow-ctr, Grow-link}
use hvm.Host.Encode.GrowVisit.{Grow-eras, Grow-port, Grow-others}
use hvm.Host.Encode.Simulation.{
  Holds, Holds-mono, Extends, Extends-refl, Bound, Related, Runs, Sim, Sim-bind,
}
use hvm.Host.Encode.Registers.{One, Two, None}
use hvm.Host.Encode.Steps.{step-ctr, step-link, step-link_const}
use hvm.Host.Encode.Branches.{
  Taken, take-Taken, Fixed, is_principal-int, is_principal-era, stay, Sim-pure, Sim-case, Sim-if,
}

-- A number that is the same on both sides.
abbrev pub Equal : Related ℕ ℕ
Equal r n a b = a ≡ b

module _ {F : Type 0} (endian : Endian) (float : Float F) (host : Host)
    (principal : Principal host) where
  pub bind :
      {A B C D : Type 0} (V : Related A B) (W : Related C D) {r : Trgs} {n : ℕ}
      {m : Visit InterpretedDef ℕ A} {m' : A → Visit InterpretedDef ℕ C} {k : Visit Linker ℕ B}
      {k' : B → Visit Linker ℕ D}
      → Grow m
      → ((a : A) → Grow (m' a))
      → Sim endian float V r n m k
      → ((s : Trgs) (j : ℕ) (a : A) (b : B)
          → Extends r n s j
          → V s j a b
          → Sim endian float W s j (m' a) (k' b))
      → Sim endian float W r n (m >>= m') (k >>= k')
  bind V W = Sim-bind endian float V W

  pub Sim-port :
      (r : Trgs) (n i x port : ℕ)
      → Holds r n i x
      → is_principal port ≡ true
      → Sim endian float None r n
          (link_const to_def host i port)
          (link_const (to_net endian float) host x port)
  unfolding link_const
  Sim-port r n i x port h e = step-link_const endian float r n i x h port e

  pub Sim-def_of :
      (r : Trgs) (n : ℕ) (nam : Name)
      → Sim endian float Fixed r n (def_of host nam) (def_of host nam)
  unfolding def_of
  Sim-def_of r n nam =
      Sim-case endian float Fixed r n (ref_port host nam) built (λ s. panicked Panic.no_def) built
        (λ s. panicked Panic.no_def)
        (λ p e. Sim-pure endian float Fixed r n p p (λ s k ext. (refl, principal nam p e)))
        (record { simulates = λ s t scope l ext bound. tt })

  pub Sim-const_port :
      (r : Trgs) (n : ℕ) (t : Tree)
      → Sim endian float Fixed r n (const_port host t) (const_port host t)
  unfolding const_port
  Sim-const_port r n (Tree.ref nam) = Sim-def_of r n nam
  Sim-const_port r n (Tree.int bits) =
      Sim-pure endian float Fixed r n _ _ (λ s k ext. (refl, is_principal-int bits))
  Sim-const_port r n Tree.era =
      Sim-pure endian float Fixed r n _ _ (λ s k ext. (refl, is_principal-era))
  Sim-const_port r n (Tree.f32 bits) =
      Sim-pure endian float Fixed r n _ _ (λ s k ext. (refl, is_principal-era))
  Sim-const_port r n (Tree.ctr lab ports) =
      Sim-pure endian float Fixed r n _ _ (λ s k ext. (refl, is_principal-era))
  Sim-const_port r n (Tree.op o rhs out) =
      Sim-pure endian float Fixed r n _ _ (λ s k ext. (refl, is_principal-era))
  Sim-const_port r n (Tree.mat z u out) =
      Sim-pure endian float Fixed r n _ _ (λ s k ext. (refl, is_principal-era))
  Sim-const_port r n (Tree.adt lab i m fields) =
      Sim-pure endian float Fixed r n _ _ (λ s k ext. (refl, is_principal-era))
  Sim-const_port r n (Tree.var nam) =
      Sim-pure endian float Fixed r n _ _ (λ s k ext. (refl, is_principal-era))

  pub Sim-others :
      (r : Trgs) (n i m : ℕ)
      → Sim endian float Equal r n (others to_def host i m) (others (to_net endian float) host i m)
  unfolding others
  Sim-others r n i m =
      Sim-if endian float Equal r n (ltb i m) (built (m - i - 1)) (λ s. panicked Panic.overflow)
        (built (m - i - 1)) (λ s. panicked Panic.overflow)
        (Sim-pure endian float Equal r n _ _ (λ s k ext. refl))
        (record { simulates = λ s t scope l ext bound. tt })

  -- A variable that both scopes have, or neither.
  var-Runs :
      (s : Trgs) (t : State InterpretedDef ℕ) (scope : Scope ℕ) (l : Linker) (nam : Name) (i x : ℕ)
      → Holds s t.encoder.trgs i x
      → Bound s t.encoder.trgs t.scope scope
      → (o p : Option (ℕ × Scope ℕ)) → Taken s t.encoder.trgs o p
      → Runs endian float None s l t
          (case_of p
            (λ (other, rest).
              on_encoder
                ((to_net endian float).link other x)
                (record { encoder = l; scope = rest }))
            (built tt (record { encoder = l; scope = (nam, x) ∷ scope })))
          (case_of o
            (λ (other, rest). on_encoder (to_def.link other i) (record t { scope = rest }))
            (built tt (record t { scope = (nam, i) ∷ t.scope })))
  var-Runs s t scope l nam i x h bound none none k = λ g le.
      stay endian float None t.encoder ((nam, i) ∷ t.scope) s l tt tt
        (record { encoder = l; scope = (nam, x) ∷ scope })
        (record {
          extends = Extends-refl s t.encoder.trgs;
          value = tt;
          linker = refl;
          bound = ((refl, h), bound);
        })
        g
  var-Runs s t scope l nam i x h bound (some (j, a)) (some (y, b)) k =
      (step-link endian float s t.encoder.trgs j y (k.0) i x h).simulates s (record t { scope = a })
        b l (Extends-refl s t.encoder.trgs) (k.1)
  var-Runs s t scope l nam i x h bound none (some p) k = absurd k
  var-Runs s t scope l nam i x h bound (some p) none k = absurd k

  pub Sim-var :
      (r : Trgs) (n : ℕ) (nam : Name) (i x : ℕ)
      → Holds r n i x
      → Sim endian float None r n
          (visit_var to_def host nam i)
          (visit_var (to_net endian float) host nam x)
  unfolding visit_var
  Sim-var r n nam i x h = record {
    simulates = λ s t scope l ext bound.
        var-Runs s t scope l nam i x (Holds-mono ext h) bound (take t.scope nam) (take scope nam)
          (take-Taken s t.encoder.trgs nam t.scope scope bound);
  }

  pub Sim-eras :
      (r : Trgs) (n lab m i x : ℕ)
      → Holds r n i x
      → Sim endian float One r n
          (visit_eras to_def host lab m i)
          (visit_eras (to_net endian float) host lab m x)
  unfolding visit_eras
  Sim-eras r n lab zero i x h = Sim-pure endian float One r n i x (λ s k ext. Holds-mono ext h)
  Sim-eras r n lab (suc m) i x h =
      bind Two One (Grow-ctr lab i)
        (λ (a, b). Grow-bind _ _ (Grow-port host a Port.era) (λ _. Grow-eras host lab m b))
        (step-ctr endian float r n i x h lab)
        (λ s k (a, b) (c, d) ext (ha, hb).
          bind None One (Grow-port host a Port.era) (λ _. Grow-eras host lab m b)
            (Sim-port s k a c Port.era ha is_principal-era)
            (λ u j _ _ ext' _. Sim-eras u j lab m b d (Holds-mono ext' hb)))

  Sim-eras_equal :
      (r : Trgs) (n lab m q i x : ℕ)
      → m ≡ q
      → Holds r n i x
      → Sim endian float One r n
          (visit_eras to_def host lab m i)
          (visit_eras (to_net endian float) host lab q x)
  Sim-eras_equal r n lab m q i x e h =
      subst
        (λ q.
          Sim endian float One r n (visit_eras to_def host lab m i)
            (visit_eras (to_net endian float) host lab q x))
        e (Sim-eras r n lab m i x h)

  -- The variants after the one that is encoded, and the link to them.
  pub Sim-rest :
      (r : Trgs) (n lab c m i x j y : ℕ)
      → Holds r n i x
      → Holds r n j y
      → Sim endian float None r n
          (do
            rest ← others to_def host c m
            r' ← visit_eras to_def host lab rest j
            on_encoder (to_def.link i r'))
          (do
            rest ← others (to_net endian float) host c m
            r' ← visit_eras (to_net endian float) host lab rest y
            on_encoder ((to_net endian float).link x r'))
  Sim-rest r n lab c m i x j y hi hj =
      bind Equal None (Grow-others host c m)
        (λ rest. Grow-bind _ _ (Grow-eras host lab rest j) (λ b. Grow-link i b))
        (Sim-others r n c m)
        (λ s k rest q ext same.
          bind One None (Grow-eras host lab rest j) (λ b. Grow-link i b)
            (Sim-eras_equal s k lab rest q j y same (Holds-mono ext hj))
            (λ u p b z ext' hb.
              step-link endian float u p i x (Holds-mono ext' (Holds-mono ext hi)) b z hb))
