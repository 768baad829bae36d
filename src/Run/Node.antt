-- ===== src/Run/Node.antt =====
-- Nodes (src/run/node.rs) and the wires and nodes that a net creates.
use hvm.Prelude.{ℕ, if◌then◌else◌}
use hvm.Run.Tag.{Tag}
use hvm.Run.Addr.{other_half}
use hvm.Run.Port
use hvm.Run.Linker.{Cmd, pure, ◌>>=◌, ◌>>◌, free_wire, alloc_node}
use hvm.Run.Linker.Link.{link_port_port}
use hvm.Run.Linker.Trg.{is_wire}

pub record TraverseNode : Type 0 where
  pub tag : Tag
  pub lab : ℕ
  pub p1 : ℕ
  pub p2 : ℕ

-- `consume_node` and `traverse_node`
unfoldable pub consume_node : ℕ → TraverseNode
unfolding Port.tag Port.lab Port.addr other_half
consume_node port = record {
  tag = Port.tag port;
  lab = Port.lab port;
  p1 = Port.addr port;
  p2 = other_half (Port.addr port);
}

pub record CreatedNode : Type 0 where
  pub p0 : ℕ
  pub p1 : ℕ
  pub p2 : ℕ

unfoldable pub create_node : Tag → (lab : ℕ) → Cmd CreatedNode
unfolding Port.new Port.new_var
create_node tag lab = do
  addr ← alloc_node
  pure (record {
    p0 = Port.new tag lab addr;
    p1 = Port.new_var addr;
    p2 = Port.new_var (other_half addr);
  })

-- A wire and the port at its other end.
unfoldable pub create_wire : Cmd (ℕ × ℕ)
unfolding Port.new_var
create_wire = do addr ← alloc_node; free_wire (other_half addr); pure (addr, Port.new_var addr)

unfoldable pub create_wire_to : (port : ℕ) → Cmd ℕ
unfolding Port.new_var
create_wire_to port = do
  addr ← alloc_node
  free_wire (other_half addr)
  link_port_port port (Port.new_var addr)
  pure addr

unfoldable pub wire_to_trg : (trg : ℕ) → Cmd ℕ
unfolding create_wire_to
wire_to_trg trg = if is_wire trg then pure trg else create_wire_to trg
