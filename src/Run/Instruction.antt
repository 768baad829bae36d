-- ===== src/Run/Instruction.antt =====
-- The instructions that definitions are made of (src/run/instruction.rs): each takes parts of the net
-- to link to and gives others.
pub mod Program
use hvm.Prelude.{ℕ, Bool, true, false, ◌&&◌, not, ◌==◌, leb, if◌then◌else◌}
use hvm.Ops.Kinds.{TypedOp, Endian, into_u16, is_int, swap}
use hvm.Ops.Numeric.{Float}
use hvm.Ops.Apply.{typed_op}
use hvm.Run.Tag.{Tag}
use hvm.Run.Addr.{other_half}
use hvm.Run.Port
use hvm.Run.Port.{era, is_num, num, int, new_num, new_int, new_var, wire, lab, tag}
use hvm.Run.Linker.{
  Cmd, pure, ◌>>=◌, ◌>>◌, is_lazy, count_anni, count_comm, count_eras, count_oper, alloc_node,
}
use hvm.Run.Linker.Wire.{set_target}
use hvm.Run.Linker.Link.{link_port_port}
use hvm.Run.Linker.Trg.{target, free_trg, link_trg_port}
use hvm.Run.Node.{consume_node, create_node, create_wire_to}
use hvm.Run.Interact.{pred64}

-- The disabled branch, `false && …`, is left out.
unfoldable pub do_ctr : (lab trg : ℕ) → Cmd (ℕ × ℕ)
do_ctr l trg = do
  port ← target trg
  lazy ← is_lazy
  if not lazy && (Port.is port Tag.ctr && lab port == l)
      then (do free_trg trg; let node = consume_node port; count_anni; pure (node.p1, node.p2))
      else (do n ← create_node Tag.ctr l; link_trg_port trg n.p0; pure (n.p1, n.p2))

module _ (endian : Endian) where
  op_slow : TypedOp → (trg : ℕ) → Cmd (ℕ × ℕ)
  op_slow op trg = do
    n ← create_node Tag.op (into_u16 endian op)
    link_trg_port trg n.p0
    pure (n.p1, n.p2)

  unfoldable pub do_op : TypedOp → (trg : ℕ) → Cmd (ℕ × ℕ)
  unfolding op_slow
  do_op op trg = do
    port ← target trg
    lazy ← is_lazy
    if not lazy && is_num port
        then (do
          free_trg trg
          n ← create_node Tag.op (into_u16 endian (swap op))
          set_target (wire n.p1) port
          pure (n.p0, n.p2))
        else if not lazy && port == era
        then (do free_trg trg; pure (era, era))
        else op_slow op trg

  module _ {F : Type 0} (float : Float F) where
    -- The number port of a result
    unfoldable pub op_result : TypedOp → (a b : ℕ) → ℕ
    op_result op a b =
        new_num (if is_int op then Tag.int else Tag.f32) (typed_op float op (num a) (num b))

    op_num_slow : TypedOp → (trg rhs : ℕ) → Cmd ℕ
    op_num_slow op trg rhs = do
      n ← create_node Tag.op (into_u16 endian op)
      link_trg_port trg n.p0
      set_target (wire n.p1) rhs
      pure n.p2

    unfoldable pub do_op_num : TypedOp → (trg rhs : ℕ) → Cmd ℕ
    unfolding op_num_slow
    do_op_num op trg rhs = do
      port ← target trg
      lazy ← is_lazy
      if not lazy && is_num port
          then (do count_oper; free_trg trg; pure (op_result op port rhs))
          else if not lazy && port == era
          then (do free_trg trg; pure era)
          else op_num_slow op trg rhs

-- The successor node of a positive number, with the port of the predecessor in it.
mat_con : (num : ℕ) → Cmd (ℕ × ℕ)
mat_con num = do
  c1 ← create_node Tag.ctr 0
  if num == 0
      then (do link_port_port c1.p2 era; out ← create_wire_to c1.p1; pure (c1.p0, out))
      else (do
        c2 ← create_node Tag.ctr 0
        link_port_port c1.p1 era
        link_port_port c1.p2 c2.p0
        link_port_port c2.p1 (new_int (pred64 num))
        out ← create_wire_to c2.p2
        pure (c1.p0, out))

mat_slow : (trg : ℕ) → Cmd (ℕ × ℕ)
mat_slow trg = do m ← create_node Tag.mat 0; link_trg_port trg m.p0; pure (m.p1, m.p2)

unfoldable pub do_mat : (trg : ℕ) → Cmd (ℕ × ℕ)
unfolding mat_con mat_slow
do_mat trg = do
  port ← target trg
  lazy ← is_lazy
  if not lazy && Port.is port Tag.int
      then (do count_oper; free_trg trg; mat_con (int port))
      else if not lazy && port == era
      then (do count_eras; free_trg trg; pure (era, era))
      else mat_slow trg

-- A wire is a word that is its own address, a port is a word with the tag `Var`.
unfoldable pub do_wires : Cmd (ℕ × ℕ × ℕ × ℕ)
do_wires = do a ← alloc_node; let b = other_half a; pure (new_var a, a, new_var b, b)

-- The branch that makes nodes, which does not link `trg`.
con_con_slow : (out : ℕ) → Cmd (ℕ × ℕ × ℕ)
con_con_slow out = do
  m ← create_node Tag.mat 0
  c1 ← create_node Tag.ctr 0
  c2 ← create_node Tag.ctr 0
  link_port_port m.p1 c1.p0
  link_port_port c1.p2 c2.p0
  link_trg_port out m.p2
  pure (c1.p1, c2.p1, c2.p2)

unfoldable pub do_mat_con_con : (trg out : ℕ) → Cmd (ℕ × ℕ × ℕ)
unfolding con_con_slow
do_mat_con_con trg out = do
  port ← target trg
  lazy ← is_lazy
  if not lazy && Port.is port Tag.int
      then (do
        count_oper
        free_trg trg
        if int port == 0
            then pure (out, era, era)
            else pure (era, new_int (pred64 (int port)), out))
      else if not lazy && port == era
      then (do link_trg_port out era; pure (era, era, era))
      else con_con_slow out

con_succ : (num out : ℕ) → Cmd (ℕ × ℕ)
con_succ num out = do
  c2 ← create_node Tag.ctr 0
  set_target (wire c2.p1) (new_int (pred64 num))
  link_trg_port out c2.p2
  pure (era, c2.p0)

con_slow : (trg out : ℕ) → Cmd (ℕ × ℕ)
con_slow trg out = do
  m ← create_node Tag.mat 0
  c1 ← create_node Tag.ctr 0
  link_port_port m.p1 c1.p0
  link_trg_port out m.p2
  link_trg_port trg m.p0
  pure (c1.p1, c1.p2)

unfoldable pub do_mat_con : (trg out : ℕ) → Cmd (ℕ × ℕ)
unfolding con_succ con_slow
do_mat_con trg out = do
  port ← target trg
  if Port.is port Tag.int
      then (do
        count_oper
        free_trg trg
        if int port == 0 then pure (out, era) else con_succ (int port) out)
      else if port == era
      then (do link_trg_port out era; pure (era, era))
      else con_slow trg out
