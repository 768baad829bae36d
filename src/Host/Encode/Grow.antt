-- ===== src/Host/Encode/Grow.antt =====
-- Encoding a definition only adds instructions and registers (src/host/encode.rs).
use hvm.Prelude.{ℕ, ◌≤◌, ◌≡◌, refl, List, [], ◌++◌, arith}
use mathlib.Core.Path.{sym}
use mathlib.Core.List.{append_assoc, append-nil}
use hvm.Ops.Kinds.{TypedOp}
use hvm.Run.Instruction.Program.{Instruction, InterpretedDef}
use hvm.Host.Encode.{Built, Build, built, panicked, and_then, ◌>>=◌, State, Visit, on_encoder}
use hvm.Host.Encode.Definition.{to_def, push_two, push, new_trg_id}

-- A property of what is built, if anything is.
module _ {S A : Type 0} where
  abbrev pub OnBuilt : (A → S → Type 0) → Built S A → Type 0
  OnBuilt P (built a s) = P a s
  OnBuilt P (panicked p) = Unit

module _ {S A B : Type 0} where
  pub OnBuilt-bind :
      (P : A → S → Type 0) (Q : B → S → Type 0) (r : Built S A) (k : A → Build S B)
      → OnBuilt P r
      → ((a : A) (s : S) → P a s → OnBuilt Q (k a s))
      → OnBuilt Q (and_then r k)
  OnBuilt-bind P Q (built a s) k h next = next a s h
  OnBuilt-bind P Q (panicked p) k h next = tt

module _ {S A : Type 0} {P Q : A → S → Type 0} where
  pub OnBuilt-map : ((a : A) (s : S) → P a s → Q a s) → (r : Built S A) → OnBuilt P r → OnBuilt Q r
  OnBuilt-map f (built a s) h = f a s h
  OnBuilt-map f (panicked p) h = tt

pub record Grows (d e : InterpretedDef) : Type 0 where
  pub more : List Instruction
  pub instr : e.instr ≡ d.instr ++ more
  pub trgs : d.trgs ≤ e.trgs

pub Grows-refl : (d : InterpretedDef) → Grows d d
Grows-refl d = record { more = []; instr = sym (append-nil d.instr); trgs = omega arith }

pub Grows-trans : (d e f : InterpretedDef) → Grows d e → Grows e f → Grows d f
Grows-trans d e f g h = record {
  more = g.more ++ h.more;
  instr = rw (h.instr, g.instr) (append_assoc d.instr g.more h.more);
  trgs = omega (arith, g.trgs, h.trgs);
}

abbrev pub Grow : {A : Type 0} → Visit InterpretedDef ℕ A → Type 0
Grow m = (s : State InterpretedDef ℕ) → OnBuilt (λ _ t. Grows s.encoder t.encoder) (m s)

module _ {A B : Type 0} (m : Visit InterpretedDef ℕ A) (k : A → Visit InterpretedDef ℕ B) where
  pub Grow-bind : Grow m → ((a : A) → Grow (k a)) → Grow (m >>= k)
  Grow-bind g h s = OnBuilt-bind _ _ (m s) k (g s) (λ a t grew.
      OnBuilt-map (λ _ u more. Grows-trans s.encoder t.encoder u.encoder grew more) (k a t) (h a t))

pub Grow-pure : {A : Type 0} (a : A) → Grow (built a)
Grow-pure a s = Grows-refl s.encoder

Grow-push_two : (i : ℕ → ℕ → Instruction) → Grow (on_encoder (push_two i))
unfolding push_two push new_trg_id
Grow-push_two i s = record { more = _; instr = refl; trgs = omega arith }

-- The operations of the encoder.
pub Grow-link_const : (trg port : ℕ) → Grow (on_encoder (to_def.link_const trg port))
unfolding to_def push
Grow-link_const trg port s = record { more = _; instr = refl; trgs = omega arith }

pub Grow-link : (a b : ℕ) → Grow (on_encoder (to_def.link a b))
unfolding to_def push
Grow-link a b s = record { more = _; instr = refl; trgs = omega arith }

pub Grow-ctr : (lab trg : ℕ) → Grow (on_encoder (to_def.ctr lab trg))
unfolding to_def
Grow-ctr lab trg = Grow-push_two (Instruction.ctr lab trg)

pub Grow-op : (o : TypedOp) (trg : ℕ) → Grow (on_encoder (to_def.op o trg))
unfolding to_def
Grow-op o trg = Grow-push_two (Instruction.op o trg)

pub Grow-mat : (trg : ℕ) → Grow (on_encoder (to_def.mat trg))
unfolding to_def
Grow-mat trg = Grow-push_two (Instruction.mat trg)

pub Grow-make_const : (port : ℕ) → Grow (on_encoder (to_def.make_const port))
unfolding to_def push new_trg_id
Grow-make_const port s = record { more = _; instr = refl; trgs = omega arith }

pub Grow-op_num : (o : TypedOp) (trg rhs : ℕ) → Grow (on_encoder (to_def.op_num o trg rhs))
unfolding to_def push new_trg_id
Grow-op_num o trg rhs s = record { more = _; instr = refl; trgs = omega arith }

pub Grow-wires : Grow (on_encoder to_def.wires)
unfolding to_def push new_trg_id
Grow-wires s = record { more = _; instr = refl; trgs = omega arith }
