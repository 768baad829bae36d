-- ===== src/Host/Tests.antt =====
-- A host with one definition, and a net with a variable, a reference and an active pair.
use hvm.Prelude.{
  ◌⊎◌, ◌≡◌, ◌≢◌, refl, Bool, true, false, if◌then◌else◌, none, some, [], ◌∷◌, ◌==◌, arith,
}
use mathlib.Core.Path.{subst}
use hvm.Ops.Kinds.{Endian}
use hvm.Ops.Tests.{bit_float}
use hvm.Run.LabSet
use hvm.Run.Port
use hvm.Run.Linker
use hvm.Run.Linker.{Linker, Panic}
use hvm.Run.Instruction.Program.{Instruction, InterpretedDef, call_interpreted}
use hvm.Ast.{Name, Tree, Trees, Net}
use hvm.Transform.Inline.{name_eq}
use hvm.Host.{Host, Def, default, insert_def, get, ref_port, def_port}
use hvm.Host.Valid.{IsHost, IsDef, insert_def-IsHost, default-IsHost, Fresh}
use hvm.Host.Encode.{
  panicked, built, visit_net, visit_tree, visit_ports, visit_redexes, visit_redex, visit_var,
  link_const, finish, take, const_side, const_port, def_of,
}
use hvm.Host.Encode.Variables.{toggle_all, net_vars}
use hvm.Host.Encode.Total.{NetEncodes, Encodes, AllEncode, RedexesEncode}
use hvm.Host.Encode.Returns.{encode_def_lem}
use hvm.Host.Encode.Definition.{encode_def, to_def, push, push_two, new_trg_id}
use hvm.Host.Encode.Direct.{encode_net}
use hvm.Host.Encode.Correct.{encode_def-call}

abbrev name : Name
name = 102 ∷ []

abbrev def : Def
def = record { addr = 64; labs = LabSet.empty }

abbrev host : Host
host = record { defs = (name, def) ∷ []; back = (64, name) ∷ [] }

def-IsDef : IsDef def
def-IsDef = record {
  aligned = record { aligned = omega arith; bounded = omega arith };
  labels = omega arith;
}

inserted : insert_def default name def ≡ host
unfolding insert_def Port.addr def_port Port.new_ref Port.new
inserted = refl

host-IsHost : IsHost host
host-IsHost =
    subst (λ h. IsHost h) inserted
      ((insert_def-IsHost default name def default-IsHost def-IsDef
        (λ nam other e ne. absurd (ground arith))).0)

abbrev second : Name
second = 103 ∷ []

abbrev second_def : Def
second_def = record { addr = 128; labs = LabSet.empty }

second-IsDef : IsDef second_def
second-IsDef = record {
  aligned = record { aligned = omega arith; bounded = omega arith };
  labels = omega arith;
}

second-Fresh : Fresh host second second_def
second-Fresh nam other e ne = at (name_eq name nam) e
  where
    at : (b : Bool) → (if b then some def else none) ≡ some other → second_def.addr ≢ other.addr
    at true e =
        let h : def ≡ other = ground arith in subst (λ d. second_def.addr ≢ d.addr) h (omega arith)
    at false e = absurd (ground arith)

insert_def-IsHost_example :
    IsHost (insert_def host second second_def)
    × (get name_eq (insert_def host second second_def).defs second ≡ some second_def)
    × (get ◌==◌ (insert_def host second second_def).back second_def.addr ≡ some second)
    × ((nam : Name)
        → nam ≢ second
        → get name_eq (insert_def host second second_def).defs nam ≡ get name_eq host.defs nam)
insert_def-IsHost_example =
    insert_def-IsHost host second second_def host-IsHost second-IsDef second-Fresh

-- (x x) & f ~ (* #5)
abbrev net : Net
net = record {
  root = Tree.ctr 0 (Trees.and (Tree.var (120 ∷ [])) (Trees.and (Tree.var (120 ∷ [])) Trees.end));
  redexes =
      (Tree.ref name, Tree.ctr 1 (Trees.and Tree.era (Trees.and (Tree.int 5) Trees.end))) ∷ [];
}

abbrev code : InterpretedDef
code = record {
  instr =
      Instruction.ctr 0 0 1 2
      ∷ Instruction.link 1 2
      ∷ Instruction.const 3 (def_port def)
      ∷ Instruction.ctr 1 3 4 5
      ∷ Instruction.link_const 4 2
      ∷ Instruction.link_const 5 (Port.new_int 5)
      ∷ [];
  trgs = 6;
}

encoded : encode_def host net ≡ built tt code
unfolding encode_def visit_net visit_tree visit_ports visit_redexes visit_redex visit_var link_const
    finish take const_side const_port def_of to_def push push_two new_trg_id ref_port
encoded = refl

abbrev heap : Linker
heap = Linker.new (λ a. 0) 0 16 false

encode_def-call_example :
    call_interpreted Endian.little bit_float code 2 heap
    ≡ encode_net Endian.little bit_float host 2 net heap
encode_def-call_example =
    encode_def-call Endian.little bit_float host net code 2 heap host-IsHost encoded

net-Encodes : NetEncodes host net
unfolding NetEncodes Encodes AllEncode RedexesEncode ref_port
net-Encodes = ((tt, (tt, tt)), (((def_port def, refl), (tt, (tt, tt))), tt))

encode_def_lem_example :
    ((def : InterpretedDef) × (encode_def host net ≡ built tt def)
      × (toggle_all (net_vars net) [] ≡ []))
    ⊎ ((encode_def host net ≡ panicked Panic.unbound) × (toggle_all (net_vars net) [] ≢ []))
encode_def_lem_example = encode_def_lem host net net-Encodes
