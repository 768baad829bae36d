-- ===== src/Transform/Prune.antt =====
-- Removal of the definitions that no entry point needs (src/transform/prune.rs). A visit of a
-- definition takes fuel; `none` is a visit without fuel, or the panic of `book[name]`.
pub mod Graph
pub mod Names
pub mod Search
pub mod Visits
pub mod Reachable
pub mod Tests
use hvm.Prelude.{
  ℕ, zero, suc, Bool, true, false, not, Option, none, some, List, [], ◌∷◌, if◌then◌else◌, length,
}
use hvm.Ast.{Name, Tree, Trees, Net, Book, trees}
use hvm.Transform.Inline.{name_eq}
use hvm.Host.{get}

abbrev pub NameSet : Type 0
NameSet = List Name

-- `contains`
abbrev pub member : Name → NameSet → Bool
member nam [] = false
member nam (n ∷ ns) = if name_eq n nam then true else member nam ns

abbrev pub delete : Name → NameSet → NameSet
delete nam [] = []
delete nam (n ∷ ns) = if name_eq n nam then delete nam ns else n ∷ delete nam ns

abbrev pub keys : List (Name × Net) → NameSet
keys [] = []
keys ((nam, net) ∷ rest) = nam ∷ keys rest

abbrev pub Visitor : Type 0
Visitor = NameSet → Option NameSet

abbrev pub and_visit : {A : Type 0} → Option A → (A → Option NameSet) → Option NameSet
and_visit none k = none
and_visit (some x) k = k x

module _ (visit : Name → Visitor) where
  unfoldable mutual
    pub visit_tree : Tree → Visitor
    visit_tree (Tree.ref nam) u = visit nam u
    visit_tree (Tree.ctr lab ports) u = visit_children ports u
    visit_tree (Tree.op o rhs out) u = and_visit (visit_tree rhs u) (visit_tree out)
    visit_tree (Tree.mat z s out) u =
        and_visit (and_visit (visit_tree z u) (visit_tree s)) (visit_tree out)
    visit_tree (Tree.adt lab i n fields) u = visit_children fields u
    visit_tree Tree.era u = some u
    visit_tree (Tree.int bits) u = some u
    visit_tree (Tree.f32 bits) u = some u
    visit_tree (Tree.var nam) u = some u

    pub visit_children : Trees → Visitor
    visit_children Trees.end u = some u
    visit_children (Trees.and t ts) u = and_visit (visit_tree t u) (visit_children ts)

  unfoldable pub visit_trees : List Tree → Visitor
  visit_trees [] u = some u
  visit_trees (t ∷ ts) u = and_visit (visit_tree t u) (visit_trees ts)

module _ (nets : List (Name × Net)) where
  unfoldable pub visit_def : (fuel : ℕ) → Name → Visitor
  visit_def zero nam u = none
  visit_def (suc fuel) nam u = elim (member nam u) [
    | true ↦
        and_visit (get name_eq nets nam)
          (λ net. visit_trees (visit_def fuel) (trees net) (delete nam u))
    | false ↦ some u
  ]

  unfoldable pub visit_entrypoints : (fuel : ℕ) → List Name → Visitor
  visit_entrypoints fuel [] u = some u
  visit_entrypoints fuel (e ∷ es) u = and_visit (visit_def fuel e u) (visit_entrypoints fuel es)

-- `self.remove(&name)` for all names of the set
abbrev pub remove_all : NameSet → List (Name × Net) → List (Name × Net)
remove_all u [] = []
remove_all u ((nam, net) ∷ rest) =
    if member nam u then remove_all u rest else (nam, net) ∷ remove_all u rest

-- The fuel is one more than the number of definitions.
unfoldable pub prune : Book → List Name → Option Book
prune book entrypoints =
    let unvisited = keys book.nets in
    elim (visit_entrypoints book.nets (suc (length unvisited)) entrypoints unvisited) [
      | none ↦ none
      | some u ↦ some (record { nets = remove_all u book.nets })
    ]
