-- ===== src/Run/Interact.antt =====
-- Interactions (src/run/interact.rs) and calls of definitions (`Net::call`, src/run/def.rs).
pub mod Annihilate
use hvm.Prelude.{
  ℕ, ◌+◌, ◌-◌, ◌%◌, ◌^◌, Bool, true, false, ◌&&◌, not, Option, none, some, ◌==◌, if◌then◌else◌,
}
use hvm.Ops.Kinds.{TypedOp, Endian, try_from_u16, into_u16, is_int, swap}
use hvm.Ops.Numeric.{Float}
use hvm.Ops.Apply.{typed_op}
use hvm.Run.Tag.{Tag}
use hvm.Run.Rule.{Rule, rule}
use hvm.Run.Port
use hvm.Run.Port.{era, is_num, is_skippable, num, int, new_num, new_int, addr}
use hvm.Run.Linker.{
  Linker, Run, ok, panic, Panic, Cmd, pure, fail, ◌>>=◌, ◌>>◌, count_anni, count_comm, count_eras,
  count_dref, count_oper, free_wire,
}
use hvm.Run.Linker.Wire.{load_target}
use hvm.Run.Linker.Link.{link_port_port, link_wire_port, link_wire_wire}
use hvm.Run.Node.{TraverseNode, consume_node, CreatedNode, create_node}

unfoldable pub anni2 : (a b : ℕ) → Cmd (Unit {0})
anni2 a_port b_port = do
  count_anni
  let a = consume_node a_port
  let b = consume_node b_port
  link_wire_wire a.p1 b.p1
  link_wire_wire a.p2 b.p2

unfoldable pub comm22 : (a b : ℕ) → Cmd (Unit {0})
comm22 a_port b_port = do
  count_comm
  let a = consume_node a_port
  let b = consume_node b_port
  a1 ← create_node a.tag a.lab
  a2 ← create_node a.tag a.lab
  b1 ← create_node b.tag b.lab
  b2 ← create_node b.tag b.lab
  link_port_port a1.p1 b1.p1
  link_port_port a1.p2 b2.p1
  link_port_port a2.p1 b1.p2
  link_port_port a2.p2 b2.p2
  link_wire_port a.p1 b1.p0
  link_wire_port a.p2 b2.p0
  link_wire_port b.p1 a1.p0
  link_wire_port b.p2 a2.p0

unfoldable pub comm02 : (a b : ℕ) → Cmd (Unit {0})
comm02 a b_port = do
  count_comm
  let b = consume_node b_port
  link_wire_port b.p1 a
  link_wire_port b.p2 a

-- The predecessor of an `i64`, as bits.
abbrev pub pred64 : ℕ → ℕ
pred64 b = (b + (2 ^ 64 - 1)) % 2 ^ 64

mat_zero : TraverseNode → Cmd (Unit {0})
mat_zero a = do
  x ← create_node Tag.ctr 0
  link_port_port x.p2 era
  link_wire_port a.p2 x.p1
  link_wire_port a.p1 x.p0

mat_succ : TraverseNode → (b : ℕ) → Cmd (Unit {0})
mat_succ a b = do
  x ← create_node Tag.ctr 0
  y ← create_node Tag.ctr 0
  link_port_port x.p1 era
  link_port_port x.p2 y.p0
  link_port_port y.p1 (new_int (pred64 b))
  link_wire_port a.p2 y.p2
  link_wire_port a.p1 x.p0

unfoldable pub mat_int : (a b : ℕ) → Cmd (Unit {0})
unfolding mat_zero mat_succ
mat_int a_port b_port = do
  count_oper
  let a = consume_node a_port
  let b = int b_port
  if b == 0 then mat_zero a else mat_succ a b

-- What an interaction takes from outside this file: the byte order and the floats, the label sets of
-- the definitions by their addresses, and their code (`Def::call`).
pub record Machine (F : Type 0) : Type 0 where
  pub endian : Endian
  pub float : Float F
  pub has : (def lab : ℕ) → Bool
  pub call_def : (def trg : ℕ) → Cmd (Unit {0})

module _ {F : Type 0} (machine : Machine F) where
  -- The label of an `Op` node; `unwrap_unchecked` on another label is undefined.
  pub op_of : (lab : ℕ) → Cmd TypedOp
  op_of lab l = elim (try_from_u16 machine.endian lab) [
    | none ↦ panic Panic.undefined
    | some o ↦ ok o l
  ]

  -- `Port::new_num` of the result, an integer or a float
  unfoldable pub result_port : TypedOp → (b a1 : ℕ) → ℕ
  result_port op b a1 =
      if is_int op
      then new_num Tag.int (typed_op machine.float op b a1)
      else new_num Tag.f32 (typed_op machine.float op b a1)

  op_done : TraverseNode → TypedOp → (b a1 : ℕ) → Cmd (Unit {0})
  op_done a op b a1 = do
    count_oper
    free_wire a.p1
    link_wire_port a.p2 (result_port op (num b) (num a1))

  op_swapped : TraverseNode → TypedOp → (b : ℕ) → Cmd (Unit {0})
  op_swapped a op b = do
    x ← create_node Tag.op (into_u16 machine.endian (swap op))
    link_port_port x.p1 b
    link_wire_port a.p2 x.p2
    link_wire_port a.p1 x.p0

  unfoldable pub op_num : (a b : ℕ) → Cmd (Unit {0})
  unfolding op_of op_done op_swapped
  op_num a_port b = do
    let a = consume_node a_port
    op ← op_of a.lab
    a1 ← load_target a.p1
    if is_num a1 then op_done a op b a1 else op_swapped a op b

  unfoldable pub call : (port trg : ℕ) → Cmd (Unit {0})
  call port trg =
      if Port.is trg Tag.ctr && not (machine.has (addr port) (Port.lab trg))
      then comm02 port trg
      else do count_dref; machine.call_def (addr port) trg

  perform : Rule → Cmd (Unit {0})
  perform Rule.erase = count_eras
  perform Rule.unreachable = fail Panic.unreachable
  perform Rule.unimplemented = fail Panic.unimplemented
  perform (Rule.call a b) = call a b
  perform (Rule.comm22 a b) = comm22 a b
  perform (Rule.anni2 a b) = anni2 a b
  perform (Rule.comm02 a b) = comm02 a b
  perform (Rule.op_num a b) = op_num a b
  perform (Rule.mat_int a b) = mat_int a b

  unfoldable pub interact : (a b : ℕ) → Cmd (Unit {0})
  unfolding perform
  interact a b = perform (rule a b)
