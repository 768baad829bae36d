-- ===== src/Host/Encode/Steps.antt =====
-- Each operation of an encoder: the instruction it adds does what the operation on the net does
-- (src/host/encode.rs, src/run/def.rs).
use hvm.Prelude.{ℕ, ◌+◌, ◌≡◌, refl, true, [], ◌∷◌, ◌++◌, arith}
use mathlib.Core.Path.{sym, subst}
use mathlib.Core.List.{append_cancel_left}
use hvm.Ops.Kinds.{TypedOp, Endian}
use hvm.Ops.Numeric.{Float}
use hvm.Run.Port.{is_principal}
use hvm.Run.Linker
use hvm.Run.Linker.{Linker, Run, Cmd, Panic}
use hvm.Run.Linker.Trg.{link_trg, link_trg_port}
use hvm.Run.Instruction.{do_ctr, do_op, do_op_num, do_mat, do_wires}
use hvm.Run.Instruction.Program.{Instruction, InterpretedDef, Trgs, exec, get_trg, set_trg}
use hvm.Host.Encode.{Built, built, Scope, State, on_encoder, with_scope}
use hvm.Host.Encode.Definition.{to_def, push, push_two, new_trg_id}
use hvm.Host.Encode.Direct.{to_net, cmd, of_run}
use hvm.Host.Encode.Grow.{Grows}
use hvm.Host.Encode.Simulation.{
  Holds, Extends, Extends-refl, Holds-mono, Related, Agrees, run, Sim, Extends-trans,
}
use hvm.Host.Encode.Registers.{
  One, Two, Four, None, set_trg-ok, get_trg-ok, put-Holds, put-Extends, put-Two, put-twice, set_two,
  set_two-ok, set_four, set_four-ok, put-Four, After-put,
}

module _ {F : Type 0} (endian : Endian) (float : Float F) where
  module _ {B : Type 0} (V : Related B B) (s : Trgs) (t : State InterpretedDef ℕ) (scope : Scope ℕ)
      (l : Linker) (a : B) (i : Instruction) (k : ℕ) (m : Cmd B) (fin : B → Cmd Trgs) where
    abbrev after_push : State InterpretedDef ℕ
    after_push = record {
      encoder = record { instr = t.encoder.instr ++ i ∷ []; trgs = k };
      scope = t.scope;
    }

    -- An instruction that runs a command and sets registers to its result, and the command.
    step :
        exec endian float i s l ≡ Linker.and_then (m l) fin
        → ((b : B) (l' : Linker)
            → Agrees V s t.encoder.trgs a after_push
                (fin b l')
                (built b (record { encoder = l'; scope = scope })))
        → (g : Grows t.encoder after_push.encoder)
        → Agrees V s t.encoder.trgs a after_push
            (run endian float g.more s l)
            (with_scope scope (of_run (m l)))
    unfolding run
    step does done g =
        let e : g.more ≡ i ∷ [] =
          append_cancel_left t.encoder.instr g.more (i ∷ []) (sym g.instr) in
        subst
          (λ is.
            Agrees V s t.encoder.trgs a after_push (run endian float is s l)
              (with_scope scope (of_run (m l))))
          (sym e) (rw does (at (m l)))
      where
        at :
            (o : Run B)
            → Agrees V s t.encoder.trgs a after_push
                (Linker.and_then (Linker.and_then o fin) (run endian float []))
                (with_scope scope (of_run o))
        at (Run.ok b l') = last (fin b l') _ (done b l')
          where
            last :
                (o : Run Trgs) (out : Built (State Linker ℕ) B)
                → Agrees V s t.encoder.trgs a after_push o out
                → Agrees V s t.encoder.trgs a after_push
                    (Linker.and_then o (run endian float []))
                    out
            last (Run.ok u l) out h = h
            last (Run.panic p) out h = h
        at (Run.panic p) = refl

  -- An instruction with two results.
  step_two :
      (j : ℕ → ℕ → Instruction) (m : Cmd (ℕ × ℕ)) (r : Trgs) (n : ℕ)
      → ((s : Trgs) (k : ℕ) (l : Linker)
          → Extends r n s k
          → exec endian float (j k (k + 1)) s l ≡ Linker.and_then (m l) (set_two s k))
      → Sim endian float Two r n (on_encoder (push_two j)) (on_encoder (cmd m))
  unfolding push_two push new_trg_id
  step_two j m r n does = record {
    simulates = λ s t scope l ext bound g le.
        step Two s t scope l _ _ _ m (set_two s t.encoder.trgs) (does s t.encoder.trgs l ext)
          (λ b l'. rw (set_two-ok s t.encoder.trgs b l' (omega (arith, le))) (
            After-put Two s _ _ _ _ _ b t.scope scope l' (put-twice s _ (b.0) (b.1))
              (put-Two s _ (b.0) (b.1)) bound))
          g;
  }

  -- The operations: the first walk's arguments are registers that hold the second's.
  module _ (r : Trgs) (n i x : ℕ) (holds : Holds r n i x) where
    reads : {s : Trgs} {k : ℕ} (l : Linker) → Extends r n s k → get_trg s i l ≡ Linker.ok x l
    reads {s = s} {k = k} l ext = get_trg-ok s k i x l (Holds-mono ext holds)

    pub step-ctr :
        (lab : ℕ)
        → Sim endian float Two r n
            (on_encoder (to_def.ctr lab i))
            (on_encoder ((to_net endian float).ctr lab x))
    unfolding to_def to_net exec set_two
    step-ctr lab =
        step_two (Instruction.ctr lab i) (do_ctr lab x) r n (λ s k l ext. rw (reads l ext) refl)

    pub step-op :
        (o : TypedOp)
        → Sim endian float Two r n
            (on_encoder (to_def.op o i))
            (on_encoder ((to_net endian float).op o x))
    unfolding to_def to_net exec set_two
    step-op o =
        step_two (Instruction.op o i) (do_op endian o x) r n (λ s k l ext. rw (reads l ext) refl)

    pub step-mat :
        Sim endian float Two r n
          (on_encoder (to_def.mat i))
          (on_encoder ((to_net endian float).mat x))
    unfolding to_def to_net exec set_two
    step-mat = step_two (Instruction.mat i) (do_mat x) r n (λ s k l ext. rw (reads l ext) refl)

    pub step-op_num :
        (o : TypedOp) (rhs : ℕ)
        → Sim endian float One r n
            (on_encoder (to_def.op_num o i rhs))
            (on_encoder ((to_net endian float).op_num o x rhs))
    unfolding to_def to_net exec push new_trg_id
    step-op_num o rhs = record {
      simulates = λ s t scope l ext bound g le.
          let k = t.encoder.trgs in
          step One s t scope l k (Instruction.op_num o i rhs k) (k + 1)
            (do_op_num endian float o x rhs) (λ got. set_trg s k got) (rw (reads l ext) refl)
            (λ b l'. rw (set_trg-ok s k b l' (omega (arith, le))) (
              After-put One s _ _ _ _ _ b t.scope scope l' (put-Extends s k b) (put-Holds s k b)
                bound))
            g;
    }

    pub step-link_const :
        (port : ℕ)
        → is_principal port ≡ true
        → Sim endian float None r n
            (on_encoder (to_def.link_const i port))
            (on_encoder ((to_net endian float).link_const x port))
    unfolding to_def to_net exec push
    step-link_const port principal = record {
      simulates = λ s t scope l ext bound g le.
          step None s t scope l tt (Instruction.link_const i port) t.encoder.trgs
            (link_trg_port x port) (λ _. Linker.pure s) (rw (principal, reads l ext) refl)
            (λ b l'.
              After-put None s _ _ _ _ tt tt t.scope scope l' (Extends-refl s t.encoder.trgs) tt
                bound)
            g;
    }

    pub step-link :
        (j y : ℕ)
        → Holds r n j y
        → Sim endian float None r n
            (on_encoder (to_def.link i j))
            (on_encoder ((to_net endian float).link x y))
    unfolding to_def to_net exec push
    step-link j y other = record {
      simulates = λ s t scope l ext bound g le.
          step None s t scope l tt (Instruction.link i j) t.encoder.trgs (link_trg x y)
            (λ _. Linker.pure s)
            (rw (reads l ext, get_trg-ok s _ j y l (Holds-mono ext other)) refl)
            (λ b l'.
              After-put None s _ _ _ _ tt tt t.scope scope l' (Extends-refl s t.encoder.trgs) tt
                bound)
            g;
    }

  pub step-make_const :
      (r : Trgs) (n port : ℕ)
      → Sim endian float One r n
          (on_encoder (to_def.make_const port))
          (on_encoder ((to_net endian float).make_const port))
  unfolding to_def to_net exec push new_trg_id
  step-make_const r n port = record {
    simulates = λ s t scope l ext bound g le.
        let k = t.encoder.trgs in
        step One s t scope l k (Instruction.const k port) (k + 1) (Linker.pure port)
          (λ got. set_trg s k got) refl
          (λ b l'. rw (set_trg-ok s k b l' (omega (arith, le))) (
            After-put One s _ _ _ _ _ b t.scope scope l' (put-Extends s k b) (put-Holds s k b)
              bound))
          g;
  }

  pub step-wires :
      (r : Trgs) (n : ℕ)
      → Sim endian float Four r n
          (on_encoder to_def.wires)
          (on_encoder ((to_net endian float).wires))
  unfolding to_def to_net exec push new_trg_id set_four set_two
  step-wires r n = record {
    simulates = λ s t scope l ext bound g le.
        let k = t.encoder.trgs in
        step Four s t scope l (k, k + 1, k + 1 + 1, k + 1 + 1 + 1)
          (Instruction.wires k (k + 1) (k + 1 + 1) (k + 1 + 1 + 1)) (k + 1 + 1 + 1 + 1) do_wires
          (set_four s k) refl
          (λ b l'. rw (set_four-ok s k b l' (omega (arith, le))) (
            After-put Four s _ _ _ _ _ b t.scope scope l'
              (Extends-trans (put-twice s k (b.0) (b.1)) (put-twice _ (k + 1 + 1) (b.2) (b.3)))
              (put-Four s k b) bound))
          g;
  }
