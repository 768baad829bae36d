-- ===== src/Transform/Prune/Graph.antt =====
-- The graph of a book: which names the nets mention, and what can be reached (src/transform/prune.rs).
use hvm.Prelude.{◌≡◌, refl, true, Option, none, some, List, [], ◌∷◌, ◌++◌, ◌∙◌, ap}
use hvm.Ast.{Name, Tree, Trees, Net, trees}
use hvm.Transform.Inline.{name_eq}
use hvm.Transform.Prune.{
  NameSet, Visitor, and_visit, member, visit_tree, visit_children, visit_trees,
}
use hvm.Host.{get}

-- The names that a tree refers to, in order.
unfoldable mutual
  pub refs : Tree → List Name
  refs (Tree.ref nam) = nam ∷ []
  refs (Tree.ctr lab ports) = all_refs ports
  refs (Tree.op o rhs out) = refs rhs ++ refs out
  refs (Tree.mat z s out) = (refs z ++ refs s) ++ refs out
  refs (Tree.adt lab i n fields) = all_refs fields
  refs Tree.era = []
  refs (Tree.int bits) = []
  refs (Tree.f32 bits) = []
  refs (Tree.var nam) = []

  pub all_refs : Trees → List Name
  all_refs Trees.end = []
  all_refs (Trees.and t ts) = refs t ++ all_refs ts

unfoldable pub refs_of : List Tree → List Name
refs_of [] = []
refs_of (t ∷ ts) = refs t ++ refs_of ts

unfoldable pub net_refs : Net → List Name
net_refs net = refs_of (trees net)

-- From a definition of the book to the names its net mentions, any number of times.
pub data Reach (nets : List (Name × Net)) : Name → Name → Type 0 where
  here : {a : Name} → Reach nets a a
  step :
      {a b c : Name} (net : Net)
      → get name_eq nets a ≡ some net
      → member b (net_refs net) ≡ true
      → Reach nets b c
      → Reach nets a c

-- One visit for each name.
unfoldable pub visit_names : (Name → Visitor) → List Name → Visitor
visit_names visit [] u = some u
visit_names visit (n ∷ ns) u = and_visit (visit n u) (visit_names visit ns)

module _ (visit : Name → Visitor) where
  and_visit-cong :
      (o : Option NameSet) (f g : Visitor)
      → ((u : NameSet) → f u ≡ g u)
      → and_visit o f ≡ and_visit o g
  and_visit-cong none f g h = refl
  and_visit-cong (some u) f g h = h u

  visit_names-append :
      (ms ns : List Name) (u : NameSet)
      → and_visit (visit_names visit ms u) (visit_names visit ns) ≡ visit_names visit (ms ++ ns) u
  unfolding visit_names
  visit_names-append [] ns u = refl
  visit_names-append (m ∷ ms) ns u = at (visit m u) (visit_names-append ms ns)
    where
      at :
          (o : Option NameSet)
          → ((u : NameSet)
              → and_visit (visit_names visit ms u) (visit_names visit ns)
                ≡ visit_names visit (ms ++ ns) u)
          → and_visit (and_visit o (visit_names visit ms)) (visit_names visit ns)
            ≡ and_visit o (visit_names visit (ms ++ ns))
      at none h = refl
      at (some u) h = h u

  -- Two visits that are visits of names
  both :
      (ms ns : List Name) (u : NameSet) (o : Option NameSet) (f : Visitor)
      → o ≡ visit_names visit ms u
      → ((u : NameSet) → f u ≡ visit_names visit ns u)
      → and_visit o f ≡ visit_names visit (ms ++ ns) u
  both ms ns u o f e h =
      and_visit-cong o f (visit_names visit ns) h
      ∙ ap (λ o. and_visit o (visit_names visit ns)) e
      ∙ visit_names-append ms ns u

  mutual
    unfolding visit_tree visit_children visit_names refs all_refs

    visit_tree-names :
        (t : Tree) (u : NameSet) → visit_tree visit t u ≡ visit_names visit (refs t) u
    visit_tree-names (Tree.ref nam) u = at (visit nam u)
      where
        at : (o : Option NameSet) → o ≡ and_visit o (λ u. some u)
        at none = refl
        at (some u) = refl
    visit_tree-names (Tree.ctr lab ports) u = visit_children-names ports u
    visit_tree-names (Tree.op o rhs out) u =
        both (refs rhs) (refs out) u _ _ (visit_tree-names rhs u) (visit_tree-names out)
    visit_tree-names (Tree.mat z s out) u =
        both (refs z ++ refs s) (refs out) u _ _
          (both (refs z) (refs s) u _ _ (visit_tree-names z u) (visit_tree-names s))
          (visit_tree-names out)
    visit_tree-names (Tree.adt lab i n fields) u = visit_children-names fields u
    visit_tree-names Tree.era u = refl
    visit_tree-names (Tree.int bits) u = refl
    visit_tree-names (Tree.f32 bits) u = refl
    visit_tree-names (Tree.var nam) u = refl

    visit_children-names :
        (ts : Trees) (u : NameSet) → visit_children visit ts u ≡ visit_names visit (all_refs ts) u
    visit_children-names Trees.end u = refl
    visit_children-names (Trees.and t ts) u =
        both (refs t) (all_refs ts) u _ _ (visit_tree-names t u) (visit_children-names ts)

  pub visit_trees-names :
      (ts : List Tree) (u : NameSet) → visit_trees visit ts u ≡ visit_names visit (refs_of ts) u
  unfolding visit_trees refs_of visit_names
  visit_trees-names [] u = refl
  visit_trees-names (t ∷ ts) u =
      both (refs t) (refs_of ts) u _ _ (visit_tree-names t u) (visit_trees-names ts)
