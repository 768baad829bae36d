-- ===== src/Transform/Inline.antt =====
-- Inlining of definitions that are one nilary tree (src/transform/inline.rs): the replacement in a tree,
-- with a flag for a change.
pub mod Unchanged
pub mod Tests
use hvm.Prelude.{
  ℕ, Bool, true, false, ◌&&◌, ◌||◌, Option, none, some, List, [], ◌∷◌, ◌==◌, if◌then◌else◌,
}
use hvm.Ast.{Name, Tree, Trees, Net, children}

abbrev pub name_eq : Name → Name → Bool
name_eq [] [] = true
name_eq (a ∷ xs) (b ∷ ys) = a == b && name_eq xs ys
name_eq _ _ = false

-- `inlinees.get(nam)`
unfoldable pub get : List (Name × Tree) → Name → Option Tree
get [] nam = none
get ((n, t) ∷ rest) nam = if name_eq n nam then some t else get rest nam

unfoldable pub replace : List (Name × Tree) → Name → Bool × Tree
replace inlinees nam = elim (get inlinees nam) [ none ↦ (false, Tree.ref nam) | some t ↦ (true, t) ]

unfoldable mutual
  pub inline_into : List (Name × Tree) → Tree → Bool × Tree
  inline_into s (Tree.ref nam) = replace s nam
  inline_into s (Tree.ctr lab ports) = let r = inline_all s ports in (r.0, Tree.ctr lab (r.1))
  inline_into s (Tree.op o rhs out) =
      let a = inline_into s rhs in let b = inline_into s out in (a.0 || b.0, Tree.op o (a.1) (b.1))
  inline_into s (Tree.mat z u out) =
      let a = inline_into s z in
      let b = inline_into s u in
      let c = inline_into s out in (a.0 || (b.0 || c.0), Tree.mat (a.1) (b.1) (c.1))
  inline_into s (Tree.adt lab i n fields) =
      let r = inline_all s fields in (r.0, Tree.adt lab i n (r.1))
  inline_into s Tree.era = (false, Tree.era)
  inline_into s (Tree.int b) = (false, Tree.int b)
  inline_into s (Tree.f32 b) = (false, Tree.f32 b)
  inline_into s (Tree.var nam) = (false, Tree.var nam)

  pub inline_all : List (Name × Tree) → Trees → Bool × Trees
  inline_all s Trees.end = (false, Trees.end)
  inline_all s (Trees.and t ts) =
      let a = inline_into s t in let b = inline_all s ts in (a.0 || b.0, Trees.and (a.1) (b.1))

no_children : Trees → Bool
no_children Trees.end = true
no_children (Trees.and t ts) = false

no_redexes : List (Tree × Tree) → Bool
no_redexes [] = true
no_redexes (r ∷ rs) = false

-- `Net::should_inline`
unfoldable pub should_inline : Net → Bool
unfolding no_children no_redexes
should_inline net = no_redexes net.redexes && no_children (children net.root)
