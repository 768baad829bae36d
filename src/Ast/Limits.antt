-- ===== src/Ast/Limits.antt =====
-- The trees that the text can hold (src/ast.rs): names of name characters, at most `MAX_ARITY`
-- ports, a variant below the number of variants. What a float has to satisfy is a parameter.
pub mod Fine
pub mod Leaves
pub mod Nodes
pub mod Order
pub mod Texts
use hvm.Prelude.{ℕ, ◌≤◌, ◌<◌, ◌^◌, ◌≡◌, true, List, [], ◌∷◌}
use hvm.Ops.Kinds.{TypedOp}
use hvm.Ast.{Name, Tree, Trees, Net, max_arity, count}
use hvm.Ast.Scanner.{Scanner, all}
use hvm.Ast.Parser.{name_char, max_adt_variants, max_adt_fields}
use hvm.Ast.Books.{name_lt}

module _ (s : Scanner) where
  pub data IsName : Name → Type 0 where
    name : (c : ℕ) (cs : Name) → all (name_char s) (c ∷ cs) ≡ true → IsName (c ∷ cs)

  module _ (IsFloat : ℕ → Type 0) where
    mutual
      pub data WellFormed : Tree → Type 0 where
        era : WellFormed Tree.era
        int : (bits : ℕ) → bits < 2 ^ 64 → WellFormed (Tree.int bits)
        f32 : (bits : ℕ) → IsFloat bits → WellFormed (Tree.f32 bits)
        ref : (nam : Name) → IsName nam → WellFormed (Tree.ref nam)
        ctr :
            (lab : ℕ) (ports : Trees)
            → lab < 2 ^ 16
            → count ports ≤ max_arity
            → AllWellFormed ports
            → WellFormed (Tree.ctr lab ports)
        op :
            (o : TypedOp) {rhs out : Tree}
            → WellFormed rhs
            → WellFormed out
            → WellFormed (Tree.op o rhs out)
        mat :
            {z n out : Tree}
            → WellFormed z
            → WellFormed n
            → WellFormed out
            → WellFormed (Tree.mat z n out)
        adt :
            (lab i n : ℕ) (fields : Trees)
            → lab < 2 ^ 16
            → i < n
            → n ≤ max_adt_variants
            → count fields ≤ max_adt_fields
            → AllWellFormed fields
            → WellFormed (Tree.adt lab i n fields)
        var : (nam : Name) → IsName nam → WellFormed (Tree.var nam)

      pub data AllWellFormed : Trees → Type 0 where
        end : AllWellFormed Trees.end
        and :
            {t : Tree} {ts : Trees}
            → WellFormed t
            → AllWellFormed ts
            → AllWellFormed (Trees.and t ts)

    pub data RedexesWellFormed : List (Tree × Tree) → Type 0 where
      none : RedexesWellFormed []
      also :
          {a b : Tree} {redexes : List (Tree × Tree)}
          → WellFormed a
          → WellFormed b
          → RedexesWellFormed redexes
          → RedexesWellFormed ((a, b) ∷ redexes)

    pub record NetWellFormed (net : Net) : Type 0 where
      pub root : WellFormed net.root
      pub redexes : RedexesWellFormed net.redexes

    pub data BookWellFormed : List (Name × Net) → Type 0 where
      none : BookWellFormed []
      also :
          {nam : Name} {net : Net} {nets : List (Name × Net)}
          → IsName nam
          → NetWellFormed net
          → BookWellFormed nets
          → BookWellFormed ((nam, net) ∷ nets)

-- The names of a book's nets ascend.
pub data AllAbove (nam : Name) : List (Name × Net) → Type 0 where
  none : AllAbove nam []
  also :
      {other : Name} {net : Net} {nets : List (Name × Net)}
      → name_lt nam other ≡ true
      → AllAbove nam nets
      → AllAbove nam ((other, net) ∷ nets)

pub data Ascending : List (Name × Net) → Type 0 where
  none : Ascending []
  also :
      {nam : Name} {net : Net} {nets : List (Name × Net)}
      → AllAbove nam nets
      → Ascending nets
      → Ascending ((nam, net) ∷ nets)
