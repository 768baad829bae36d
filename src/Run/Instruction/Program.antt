-- ===== src/Run/Instruction/Program.antt =====
-- Programs of instructions and their interpreter (`Instruction`, src/run/instruction.rs, and
-- `InterpretedDef`, src/run/def.rs). A register that is read before it is set, or that is not one of
-- the program's, is undefined behaviour.
use hvm.Prelude.{ℕ, Option, none, some, List, [], ◌∷◌, ◌==◌, ltb, if◌then◌else◌}
use hvm.Ops.Kinds.{TypedOp, Endian}
use hvm.Ops.Numeric.{Float}
use hvm.Run.Port.{is_principal}
use hvm.Run.Linker.{Cmd, Panic, pure, fail, ◌>>=◌, ◌>>◌}
use hvm.Run.Linker.Trg.{link_trg, link_trg_port}
use hvm.Run.Instruction.{do_ctr, do_op, do_op_num, do_mat, do_wires}

pub data Instruction : Type 0 where
  const : (trg port : ℕ) → Instruction
  link : (a b : ℕ) → Instruction
  link_const : (trg port : ℕ) → Instruction
  ctr : (lab trg lft rgt : ℕ) → Instruction
  op : TypedOp → (trg rhs out : ℕ) → Instruction
  op_num : TypedOp → (trg rhs out : ℕ) → Instruction
  mat : (trg lft rgt : ℕ) → Instruction
  wires : (av aw bv bw : ℕ) → Instruction

pub record InterpretedDef : Type 0 where
  pub instr : List Instruction
  pub trgs : ℕ

-- The registers of a call.
pub record Trgs : Type 0 where
  pub count : ℕ
  pub slot : ℕ → Option ℕ

unfoldable pub get_trg : Trgs → ℕ → Cmd ℕ
get_trg r i = elim (r.slot i) [ none ↦ fail Panic.undefined | some t ↦ pure t ]

unfoldable pub put : Trgs → (i trg : ℕ) → Trgs
put r i trg = record r { slot = λ j. if j == i then some trg else r.slot j }

unfoldable pub set_trg : Trgs → (i trg : ℕ) → Cmd Trgs
unfolding put
set_trg r i trg = if ltb i r.count then pure (put r i trg) else fail Panic.undefined

module _ {F : Type 0} (endian : Endian) (float : Float F) where
  -- One instruction.
  unfoldable pub exec : Instruction → Trgs → Cmd Trgs
  exec (Instruction.const trg port) r = set_trg r trg port
  exec (Instruction.link a b) r = do x ← get_trg r a; y ← get_trg r b; link_trg x y; pure r
  exec (Instruction.link_const trg port) r =
      if is_principal port
      then (do x ← get_trg r trg; link_trg_port x port; pure r)
      else fail Panic.undefined
  exec (Instruction.ctr lab trg lft rgt) r = do
    x ← get_trg r trg
    got ← do_ctr lab x
    r1 ← set_trg r lft (got.0)
    set_trg r1 rgt (got.1)
  exec (Instruction.op o trg rhs out) r = do
    x ← get_trg r trg
    got ← do_op endian o x
    r1 ← set_trg r rhs (got.0)
    set_trg r1 out (got.1)
  exec (Instruction.op_num o trg rhs out) r = do
    x ← get_trg r trg
    got ← do_op_num endian float o x rhs
    set_trg r out got
  exec (Instruction.mat trg lft rgt) r = do
    x ← get_trg r trg
    got ← do_mat x
    r1 ← set_trg r lft (got.0)
    set_trg r1 rgt (got.1)
  exec (Instruction.wires av aw bv bw) r = do
    got ← do_wires
    r1 ← set_trg r av (got.0)
    r2 ← set_trg r1 aw (got.1)
    r3 ← set_trg r2 bv (got.2)
    set_trg r3 bw (got.3)

  unfoldable pub exec_all : List Instruction → Trgs → Cmd (Unit {0})
  exec_all [] r = pure tt
  exec_all (i ∷ is) r = do r' ← exec i r; exec_all is r'

  -- `InterpretedDef::call`
  unfoldable pub call_interpreted : InterpretedDef → (trg : ℕ) → Cmd (Unit {0})
  unfolding exec_all
  call_interpreted def trg = do
    r ← set_trg (record { count = def.trgs; slot = λ _. none }) 0 trg
    exec_all def.instr r
