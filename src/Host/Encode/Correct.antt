-- ===== src/Host/Encode/Correct.antt =====
-- Calling the definition that a net is encoded to does what encoding the net directly does
-- (src/host/encode.rs, src/run/def.rs).
use hvm.Prelude.{
  ℕ, ◌≤◌, ◌≡◌, refl, Bool, true, false, Option, none, some, List, [], ◌∷◌, arith, ◌∙◌,
  if◌then◌else◌, ap,
}
use mathlib.Core.Path.{sym, subst}
use hvm.Ops.Kinds.{Endian}
use hvm.Ops.Numeric.{Float}
use hvm.Run.Linker
use hvm.Run.Linker.{Linker, Run, Panic}
use hvm.Run.Linker.Sequence.{and_then_assoc, and_then-cong}
use hvm.Run.Instruction.Program.{
  Instruction, InterpretedDef, Trgs, exec, exec_all, call_interpreted, put,
}
use hvm.Ast.{Net}
use hvm.Host.{Host}
use hvm.Host.Valid.{IsHost, IsHost-Principal}
use hvm.Host.Encode.{Built, built, panicked, Scope, State, visit_net, finish, is_empty}
use hvm.Host.Encode.Definition.{to_def, encode_def}
use hvm.Host.Encode.Direct.{to_net, to_run, encode_net}
use hvm.Host.Encode.Grow.{OnBuilt, Grows}
use hvm.Host.Encode.GrowVisit.{Grow-net}
use hvm.Host.Encode.Simulation.{Extends-refl, Bound, Agrees, Runs, run}
use hvm.Host.Encode.Registers.{None, set_trg-ok, put-Holds}
use hvm.Host.Encode.Walk.{Sim-net}

module _ {F : Type 0} (endian : Endian) (float : Float F) where
  exec_all-run :
      (is : List Instruction) (r : Trgs) (l : Linker)
      → exec_all endian float is r l
        ≡ Linker.and_then (run endian float is r l) (λ _. Linker.pure tt)
  unfolding exec_all run
  exec_all-run [] r l = refl
  exec_all-run (i ∷ is) r l =
      and_then-cong (exec endian float i r l) _ _ (exec_all-run is)
      ∙ and_then_assoc (exec endian float i r l) (run endian float is) (λ _. Linker.pure tt)

Bound-empty :
    (r : Trgs) (n : ℕ) (a b : Scope ℕ) → is_empty a ≡ true → Bound r n a b → is_empty b ≡ true
Bound-empty r n [] [] e h = refl
Bound-empty r n [] (_ ∷ b) e h = absurd h
Bound-empty r n (_ ∷ a) b e h = absurd (ground arith)

-- The ends of two walks that agree, if the first leaves no variable.
outcome :
    (r : Trgs) (n : ℕ) (t : State InterpretedDef ℕ) (o : Run Trgs)
    (out : Built (State Linker ℕ) (Unit {0}))
    → is_empty t.scope ≡ true
    → Agrees None r n tt t o out
    → Linker.and_then o (λ _. Linker.pure tt) ≡ to_run (finish out)
unfolding finish
outcome r n t (Run.ok s l) (built b u) e h =
    rw (Bound-empty s t.encoder.trgs t.scope u.scope e h.bound, h.linker) refl
outcome r n t (Run.panic p) (panicked q) e h = ap Run.panic h
outcome r n t (Run.ok s l) (panicked q) e h = absurd h
outcome r n t (Run.panic p) (built b u) e h = absurd h

start : State InterpretedDef ℕ
start = record { encoder = record { instr = []; trgs = 1 }; scope = [] }

-- What is built, or else nothing.
abbrev def_in : Built InterpretedDef (Unit {0}) → Option InterpretedDef
def_in (built a d) = some d
def_in (panicked p) = none

abbrev the : InterpretedDef → Option InterpretedDef → InterpretedDef
the d none = d
the d (some e) = e

module _ {F : Type 0} (endian : Endian) (float : Float F) (def : InterpretedDef) (r : Trgs)
    (count : r.count ≡ def.trgs) (l : Linker) (out : Built (State Linker ℕ) (Unit {0})) where
  finished :
      (o : Built (State InterpretedDef ℕ) (Unit {0}))
      → finish o ≡ built tt def
      → OnBuilt (λ _ t. Grows start.encoder t.encoder) o
      → Runs endian float None r l start out o
      → (1 ≤ def.trgs)
        × (Linker.and_then (run endian float def.instr r l) (λ _. Linker.pure tt)
            ≡ to_run (finish out))
  unfolding finish start
  finished (panicked p) e g h = absurd (ground arith)
  finished (built a t) e g h = at (is_empty t.scope) refl e
    where
      at :
          (b : Bool)
          → is_empty t.scope ≡ b
          → (if b then built tt t.encoder else panicked Panic.unbound) ≡ built tt def
          → (1 ≤ def.trgs)
            × (Linker.and_then (run endian float def.instr r l) (λ _. Linker.pure tt)
                ≡ to_run (finish out))
      at true empty e =
          let same : t.encoder ≡ def = ap (λ x. the def (def_in x)) e in
          let trgs : t.encoder.trgs ≡ def.trgs = ap (λ (d : InterpretedDef). d.trgs) same in
          let code : g.more ≡ def.instr = sym g.instr ∙ ap (λ (d : InterpretedDef). d.instr) same in
          (
            omega (arith, g.trgs, trgs),
            subst
                (λ is.
                  Linker.and_then (run endian float is r l) (λ _. Linker.pure tt)
                  ≡ to_run (finish out))
                code
                (outcome r 1 t (run endian float g.more r l) out empty
                  (h g (omega (arith, trgs, count)))),
          )
      at false empty e = absurd (ground arith)

module _ {F : Type 0} (endian : Endian) (float : Float F) where
  -- For a valid host: if encode_def makes a definition of a net, then
  -- calling that definition with any target, in any state, has the outcome of encode_net with the
  -- net and that target: the same new state, or the same panic.
  pub encode_def-call :
      (host : Host) (net : Net) (def : InterpretedDef) (trg : ℕ) (l : Linker)
      → IsHost host
      → encode_def host net ≡ built tt def
      → call_interpreted endian float def trg l ≡ encode_net endian float host trg net l
  unfolding encode_def encode_net call_interpreted put start
  encode_def-call host net def trg l valid e =
      let r : Trgs = put (record { count = def.trgs; slot = λ _. none }) 0 trg in
      let o = visit_net to_def host net 0 start in
      let got =
        finished endian float def r refl l
          (visit_net (to_net endian float) host net trg (record { encoder = l; scope = [] })) o e
          (Grow-net host net 0 start)
          ((Sim-net endian float host (IsHost-Principal host valid) r 1 net 0 trg
              (put-Holds _ 0 trg)).simulates
            r start [] l (Extends-refl r 1) tt) in
      rw (set_trg-ok (record { count = def.trgs; slot = λ _. none }) 0 trg l (got.0))
        (exec_all-run endian float def.instr r l ∙ got.1)
