-- ===== src/Host/Encode/Walk.antt =====
-- The walks of the two encoders over the same net simulate each other (src/host/encode.rs).
use hvm.Prelude.{ℕ, ◌≡◌, List, [], ◌∷◌}
use mathlib.Core.Path.{subst}
use hvm.Ops.Kinds.{Endian}
use hvm.Ops.Numeric.{Float}
use hvm.Run.Instruction.Program.{Trgs}
use hvm.Ast.{Tree, Trees, Net}
use hvm.Host.{Host}
use hvm.Host.Valid.{Principal}
use hvm.Host.Encode.{
  ◌>>=◌, on_encoder, immediate, const_side, link_const, visit_eras, visit_tree, visit_ports,
  visit_fields, others, visit_redex, visit_redexes, visit_net,
}
use hvm.Host.Encode.Definition.{to_def}
use hvm.Host.Encode.Direct.{to_net}
use hvm.Host.Encode.Grow.{
  Grow-bind, Grow-ctr, Grow-op, Grow-op_num, Grow-mat, Grow-make_const, Grow-wires, Grow-link,
}
use hvm.Host.Encode.GrowVisit.{
  Grow-tree, Grow-ports, Grow-fields, Grow-redexes, Grow-redex, Grow-eras, Grow-port, Grow-others,
  Grow-def_of, Grow-const_port,
}
use hvm.Host.Encode.Simulation.{Holds, Holds-mono, Extends-trans, Sim}
use hvm.Host.Encode.Registers.{One, Two, Four, None}
use hvm.Host.Encode.Steps.{
  step-ctr, step-op, step-op_num, step-mat, step-link, step-make_const, step-wires,
}
use hvm.Host.Encode.Branches.{
  Fixed, is_principal-int, is_principal-f32, is_principal-era, Sim-pure, Sim-case,
}
use hvm.Host.Encode.Pieces.{bind, Sim-port, Sim-def_of, Sim-const_port, Sim-var, Sim-eras, Sim-rest}

module _ {F : Type 0} (endian : Endian) (float : Float F) (host : Host)
    (principal : Principal host) where
  -- A variant, if the walks over its fields simulate each other
  Sim-variant :
      (r : Trgs) (n lab c m : ℕ) (fields : Trees) (i x : ℕ)
      → ((s : Trgs) (k a a0 : ℕ)
          → Holds s k a a0
          → Sim endian float One s k
              (visit_fields to_def host lab fields a)
              (visit_fields (to_net endian float) host lab fields a0))
      → Holds r n i x
      → Sim endian float None r n
          (do
            (l, r) ← on_encoder (to_def.ctr lab i)
            l' ← visit_fields to_def host lab fields l
            rest ← others to_def host c m
            r' ← visit_eras to_def host lab rest r
            on_encoder (to_def.link l' r'))
          (do
            (l, r) ← on_encoder ((to_net endian float).ctr lab x)
            l' ← visit_fields (to_net endian float) host lab fields l
            rest ← others (to_net endian float) host c m
            r' ← visit_eras (to_net endian float) host lab rest r
            on_encoder ((to_net endian float).link l' r'))
  Sim-variant r n lab c m fields i x inner h =
      bind endian float host principal Two None (Grow-ctr lab i)
        (λ (a, b). Grow-bind _ _ (Grow-fields host lab fields a) (λ a'.
          Grow-bind _ _ (Grow-others host c m)
            (λ rest. Grow-bind _ _ (Grow-eras host lab rest b) (λ b'. Grow-link a' b'))))
        (step-ctr endian float r n i x h lab)
        (λ s k (a, b) (a0, b0) ext (ha, hb).
          bind endian float host principal One None (Grow-fields host lab fields a)
            (λ a'.
              Grow-bind _ _ (Grow-others host c m)
                (λ rest. Grow-bind _ _ (Grow-eras host lab rest b) (λ b'. Grow-link a' b')))
            (inner s k a a0 ha)
            (λ u j a' a0' ext' ha'.
              Sim-rest endian float host principal u j lab c m a' a0' b b0 ha'
                (Holds-mono ext' hb)))

  mutual
    unfolding visit_tree visit_ports visit_fields

    pub Sim-tree :
        (r : Trgs) (n : ℕ) (t : Tree) (i x : ℕ)
        → Holds r n i x
        → Sim endian float None r n
            (visit_tree to_def host t i)
            (visit_tree (to_net endian float) host t x)
    Sim-tree r n Tree.era i x h = Sim-port endian float host principal r n i x _ h is_principal-era
    Sim-tree r n (Tree.int bits) i x h =
        Sim-port endian float host principal r n i x _ h (is_principal-int bits)
    Sim-tree r n (Tree.f32 bits) i x h =
        Sim-port endian float host principal r n i x _ h (is_principal-f32 bits)
    Sim-tree r n (Tree.ref nam) i x h =
        bind endian float host principal Fixed None (Grow-def_of host nam) (Grow-port host i)
          (Sim-def_of endian float host principal r n nam)
          (λ s k p q ext (same, e).
            subst
              (λ q.
                Sim endian float None s k (link_const to_def host i p)
                  (link_const (to_net endian float) host x q))
              same (Sim-port endian float host principal s k i x p (Holds-mono ext h) e))
    Sim-tree r n (Tree.ctr lab ports) i x h = Sim-ports r n lab ports i x h
    Sim-tree r n (Tree.adt lab c m fields) i x h =
        bind endian float host principal One None (Grow-eras host lab c i)
          (λ main. Grow-bind _ _ (Grow-ctr lab main) (λ (a, b).
            Grow-bind _ _ (Grow-fields host lab fields a) (λ a'.
              Grow-bind _ _ (Grow-others host c m)
                (λ rest. Grow-bind _ _ (Grow-eras host lab rest b) (λ b'. Grow-link a' b')))))
          (Sim-eras endian float host principal r n lab c i x h)
          (λ s k main y ext hy.
            Sim-variant s k lab c m fields main y (λ u j a a0 ha. Sim-fields u j lab fields a a0 ha)
              hy)
    Sim-tree r n (Tree.op o rhs out) i x h =
        Sim-case endian float None r n (immediate rhs) _ _ _ _
          (λ p e.
            bind endian float host principal One None (Grow-op_num o i p) (Grow-tree host out)
              (step-op_num endian float r n i x h o p) (λ s k a b ext ha. Sim-tree s k out a b ha))
          (bind endian float host principal Two None (Grow-op o i)
            (λ (a, b). Grow-bind _ _ (Grow-tree host rhs a) (λ _. Grow-tree host out b))
            (step-op endian float r n i x h o)
            (λ s k (a, b) (c, d) ext (ha, hb).
              bind endian float host principal None None (Grow-tree host rhs a)
                (λ _. Grow-tree host out b) (Sim-tree s k rhs a c ha)
                (λ u j _ _ ext' _. Sim-tree u j out b d (Holds-mono ext' hb))))
    Sim-tree r n (Tree.mat z u out) i x h =
        bind endian float host principal Two None (Grow-mat i)
          (λ (a, o). Grow-bind _ _ (Grow-ctr 0 a) (λ (b, c).
            Grow-bind _ _ (Grow-tree host z b)
              (λ _. Grow-bind _ _ (Grow-tree host u c) (λ _. Grow-tree host out o))))
          (step-mat endian float r n i x h)
          (λ s k (a, o) (a', o') ext (ha, ho).
            bind endian float host principal Two None (Grow-ctr 0 a)
              (λ (b, c).
                Grow-bind _ _ (Grow-tree host z b)
                  (λ _. Grow-bind _ _ (Grow-tree host u c) (λ _. Grow-tree host out o)))
              (step-ctr endian float s k a a' ha 0)
              (λ s1 k1 (b, c) (b', c') e1 (hb, hc).
                bind endian float host principal None None (Grow-tree host z b)
                  (λ _. Grow-bind _ _ (Grow-tree host u c) (λ _. Grow-tree host out o))
                  (Sim-tree s1 k1 z b b' hb)
                  (λ s2 k2 _ _ e2 _.
                    bind endian float host principal None None (Grow-tree host u c)
                      (λ _. Grow-tree host out o) (Sim-tree s2 k2 u c c' (Holds-mono e2 hc))
                      (λ s3 k3 _ _ e3 _.
                        Sim-tree s3 k3 out o o'
                          (Holds-mono (Extends-trans e1 (Extends-trans e2 e3)) ho)))))
    Sim-tree r n (Tree.var nam) i x h = Sim-var endian float host principal r n nam i x h

    pub Sim-ports :
        (r : Trgs) (n lab : ℕ) (ts : Trees) (i x : ℕ)
        → Holds r n i x
        → Sim endian float None r n
            (visit_ports to_def host lab ts i)
            (visit_ports (to_net endian float) host lab ts x)
    Sim-ports r n lab Trees.end i x h =
        Sim-port endian float host principal r n i x _ h is_principal-era
    Sim-ports r n lab (Trees.and t Trees.end) i x h = Sim-tree r n t i x h
    Sim-ports r n lab (Trees.and t (Trees.and u us)) i x h =
        bind endian float host principal Two None (Grow-ctr lab i)
          (λ (a, b).
            Grow-bind _ _ (Grow-tree host t a) (λ _. Grow-ports host lab (Trees.and u us) b))
          (step-ctr endian float r n i x h lab)
          (λ s k (a, b) (c, d) ext (ha, hb).
            bind endian float host principal None None (Grow-tree host t a)
              (λ _. Grow-ports host lab (Trees.and u us) b) (Sim-tree s k t a c ha)
              (λ v j _ _ ext' _. Sim-ports v j lab (Trees.and u us) b d (Holds-mono ext' hb)))

    pub Sim-fields :
        (r : Trgs) (n lab : ℕ) (ts : Trees) (i x : ℕ)
        → Holds r n i x
        → Sim endian float One r n
            (visit_fields to_def host lab ts i)
            (visit_fields (to_net endian float) host lab ts x)
    Sim-fields r n lab Trees.end i x h =
        Sim-pure endian float One r n i x (λ s k ext. Holds-mono ext h)
    Sim-fields r n lab (Trees.and t ts) i x h =
        bind endian float host principal Two One (Grow-ctr lab i)
          (λ (a, b). Grow-bind _ _ (Grow-tree host t a) (λ _. Grow-fields host lab ts b))
          (step-ctr endian float r n i x h lab)
          (λ s k (a, b) (c, d) ext (ha, hb).
            bind endian float host principal None One (Grow-tree host t a)
              (λ _. Grow-fields host lab ts b) (Sim-tree s k t a c ha)
              (λ v j _ _ ext' _. Sim-fields v j lab ts b d (Holds-mono ext' hb)))

  Sim-redex :
      (r : Trgs) (n : ℕ) (a b : Tree)
      → Sim endian float None r n
          (visit_redex to_def host a b)
          (visit_redex (to_net endian float) host a b)
  unfolding visit_redex
  Sim-redex r n a b =
      Sim-case endian float None r n (const_side a b) _ _ _ _
        (λ (c, t) e.
          bind endian float host principal Fixed None (Grow-const_port host c)
            (λ p. Grow-bind _ _ (Grow-make_const p) (Grow-tree host t))
            (Sim-const_port endian float host principal r n c)
            (λ s k p q ext (same, _). sim-const s k t p q same))
        (bind endian float host principal Four None Grow-wires
          (λ (av, aw, bv, bw).
            Grow-bind _ _ (Grow-tree host a av)
              (λ _. Grow-bind _ _ (Grow-tree host b bv) (λ _. Grow-link aw bw)))
          (step-wires endian float r n)
          (λ s k (av, aw, bv, bw) (av', aw', bv', bw') e1 (h1, h2, h3, h4).
            bind endian float host principal None None (Grow-tree host a av)
              (λ _. Grow-bind _ _ (Grow-tree host b bv) (λ _. Grow-link aw bw))
              (Sim-tree s k a av av' h1)
              (λ s2 k2 _ _ e2 _.
                bind endian float host principal None None (Grow-tree host b bv)
                  (λ _. Grow-link aw bw) (Sim-tree s2 k2 b bv bv' (Holds-mono e2 h3))
                  (λ s3 k3 _ _ e3 _.
                    step-link endian float s3 k3 aw aw' (Holds-mono (Extends-trans e2 e3) h2) bw bw'
                      (Holds-mono (Extends-trans e2 e3) h4)))))
    where
      sim-const :
          (s : Trgs) (k : ℕ) (t : Tree) (p q : ℕ)
          → p ≡ q
          → Sim endian float None s k
              (on_encoder (to_def.make_const p) >>= visit_tree to_def host t)
              (on_encoder ((to_net endian float).make_const q)
                >>= visit_tree (to_net endian float) host t)
      sim-const s k t p q same =
          subst
            (λ q.
              Sim endian float None s k
                (on_encoder (to_def.make_const p) >>= visit_tree to_def host t)
                (on_encoder ((to_net endian float).make_const q)
                  >>= visit_tree (to_net endian float) host t))
            same
            (bind endian float host principal One None (Grow-make_const p) (Grow-tree host t)
              (step-make_const endian float s k p) (λ u j i x ext h. Sim-tree u j t i x h))

  Sim-redexes :
      (r : Trgs) (n : ℕ) (rs : List (Tree × Tree))
      → Sim endian float None r n
          (visit_redexes to_def host rs)
          (visit_redexes (to_net endian float) host rs)
  unfolding visit_redexes
  Sim-redexes r n [] = Sim-pure endian float None r n tt tt (λ s k ext. tt)
  Sim-redexes r n ((a, b) ∷ rest) =
      bind endian float host principal None None (Grow-redex host a b) (λ _. Grow-redexes host rest)
        (Sim-redex r n a b) (λ s k _ _ ext _. Sim-redexes s k rest)

  pub Sim-net :
      (r : Trgs) (n : ℕ) (net : Net) (i x : ℕ)
      → Holds r n i x
      → Sim endian float None r n
          (visit_net to_def host net i)
          (visit_net (to_net endian float) host net x)
  unfolding visit_net
  Sim-net r n net i x h =
      bind endian float host principal None None (Grow-tree host net.root i)
        (λ _. Grow-redexes host net.redexes) (Sim-tree r n net.root i x h)
        (λ s k _ _ ext _. Sim-redexes s k net.redexes)
