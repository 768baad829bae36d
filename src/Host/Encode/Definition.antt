-- ===== src/Host/Encode/Definition.antt =====
-- The encoder that makes a list of instructions (`Encoder for InterpretedDef`, src/host/encode.rs).
use hvm.Prelude.{ℕ, ◌+◌, [], ◌∷◌, ◌++◌}
use hvm.Run.Instruction.Program.{Instruction, InterpretedDef}
use hvm.Ast.{Net}
use hvm.Host.{Host}
use hvm.Host.Encode.{Built, Build, built, Encoder, pure, ◌>>=◌, ◌>>◌, visit_net, finish}

-- `TrgId::new(self.trgs)`, and one register more
unfoldable pub new_trg_id : Build InterpretedDef ℕ
new_trg_id def = built def.trgs (record def { trgs = def.trgs + 1 })

unfoldable pub push : Instruction → Build InterpretedDef (Unit {0})
push i def = built tt (record def { instr = def.instr ++ i ∷ [] })

-- Two new registers for the instruction
unfoldable pub push_two : (ℕ → ℕ → Instruction) → Build InterpretedDef (ℕ × ℕ)
push_two i = do lft ← new_trg_id; rgt ← new_trg_id; push (i lft rgt); pure (lft, rgt)

unfoldable pub to_def : Encoder InterpretedDef ℕ
to_def = record {
  link_const = λ trg port. push (Instruction.link_const trg port);
  link = λ a b. push (Instruction.link a b);
  make_const = λ port. (do trg ← new_trg_id; push (Instruction.const trg port); pure trg);
  ctr = λ lab trg. push_two (Instruction.ctr lab trg);
  op = λ o trg. push_two (Instruction.op o trg);
  op_num = λ o trg rhs. (do out ← new_trg_id; push (Instruction.op_num o trg rhs out); pure out);
  mat = λ trg. push_two (Instruction.mat trg);
  wires = (do
    av ← new_trg_id
    aw ← new_trg_id
    bv ← new_trg_id
    bw ← new_trg_id
    push (Instruction.wires av aw bv bw)
    pure (av, aw, bv, bw));
}

unfoldable pub encode_def : Host → Net → Built InterpretedDef (Unit {0})
encode_def host net =
    finish (
      visit_net to_def host net 0
        (record { encoder = record { instr = []; trgs = 1 }; scope = [] }))
