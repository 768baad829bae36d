-- ===== src/Host.antt =====
-- The host (src/host.rs): the runtime's definitions by their names, and the names by the addresses of
-- the definitions.
pub mod Maps
pub mod Valid
pub mod Tests
pub mod Encode
pub mod CalcLabels
use hvm.Prelude.{ℕ, Bool, Option, none, some, List, [], ◌∷◌, ◌==◌, if◌then◌else◌}
use hvm.Ast.{Name}
use hvm.Transform.Inline.{name_eq}
use hvm.Run.LabSet.{LabSet}
use hvm.Run.Port.{new_ref, addr}

-- A definition in memory: its address and its labels.
pub record Def : Type 0 where
  pub addr : ℕ
  pub labs : LabSet

pub record Host : Type 0 where
  pub defs : List (Name × Def)
  pub back : List (ℕ × Name)

abbrev pub default : Host
default = record { defs = []; back = [] }

-- `Port::new_ref`
unfoldable pub def_port : Def → ℕ
unfolding new_ref
def_port def = new_ref def.labs.min_safe def.addr

module _ {K V : Type 0} (eq : K → K → Bool) where
  -- `Map::get`
  abbrev pub get : List (K × V) → K → Option V
  get [] k = none
  get ((j, v) ∷ rest) k = if eq j k then some v else get rest k

  -- `Map::insert`
  abbrev pub insert : List (K × V) → K → V → List (K × V)
  insert [] k v = (k, v) ∷ []
  insert ((j, w) ∷ rest) k v = if eq j k then (k, v) ∷ rest else (j, w) ∷ insert rest k v

unfoldable pub insert_def : Host → Name → Def → Host
unfolding addr
insert_def host name def = record {
  defs = insert name_eq host.defs name def;
  back = insert ◌==◌ host.back (addr (def_port def)) name;
}

-- The port of the definition of a name, `Port::new_ref(&host.defs[name])`
unfoldable pub ref_port : Host → Name → Option ℕ
ref_port host name = elim (get name_eq host.defs name) [
  | none ↦ none
  | some def ↦ some (def_port def)
]
