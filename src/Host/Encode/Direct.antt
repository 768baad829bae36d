-- ===== src/Host/Encode/Direct.antt =====
-- The encoder that links in the net itself (`Encoder for run::Net`, src/host/encode.rs).
use hvm.Prelude.{ℕ, []}
use hvm.Ops.Kinds.{Endian}
use hvm.Ops.Numeric.{Float}
use hvm.Run.Linker
use hvm.Run.Linker.{Linker, Run, Cmd}
use hvm.Run.Linker.Trg.{link_trg, link_trg_port}
use hvm.Run.Instruction.{do_ctr, do_op, do_op_num, do_mat, do_wires}
use hvm.Ast.{Net, Tree}
use hvm.Host.{Host}
use hvm.Host.Encode.{Built, Build, built, panicked, Encoder, visit_net, visit_tree, finish}

-- A command as a step of an encoder
module _ {A : Type 0} where
  abbrev pub of_run : Run A → Built Linker A
  of_run (Run.ok a l) = built a l
  of_run (Run.panic p) = panicked p

  abbrev pub to_run : Built Linker A → Run A
  to_run (built a l) = Run.ok a l
  to_run (panicked p) = Run.panic p

  abbrev pub cmd : Cmd A → Build Linker A
  cmd m l = of_run (m l)

module _ {F : Type 0} (endian : Endian) (float : Float F) where
  -- `Trg::port` of a port is the port.
  unfoldable pub to_net : Encoder Linker ℕ
  to_net = record {
    link_const = λ trg port. cmd (link_trg_port trg port);
    link = λ a b. cmd (link_trg a b);
    make_const = λ port. cmd (Linker.pure port);
    ctr = λ lab trg. cmd (do_ctr lab trg);
    op = λ o trg. cmd (do_op endian o trg);
    op_num = λ o trg rhs. cmd (do_op_num endian float o trg rhs);
    mat = λ trg. cmd (do_mat trg);
    wires = cmd do_wires;
  }

  unfoldable pub encode_tree : Host → (trg : ℕ) → Tree → Cmd (Unit {0})
  encode_tree host trg tree l =
      to_run (finish (visit_tree to_net host tree trg (record { encoder = l; scope = [] })))

  unfoldable pub encode_net : Host → (trg : ℕ) → Net → Cmd (Unit {0})
  encode_net host trg net l =
      to_run (finish (visit_net to_net host net trg (record { encoder = l; scope = [] })))
