-- ===== src/Transform/Prune/Tests.antt =====
-- Three definitions, one of which nothing mentions.
use hvm.Prelude.{◌≡◌, true, some, [], ◌∷◌, arith, ◌↔◌}
use hvm.Ast.{Name, Tree, Trees, Net, Book}
use hvm.Transform.Inline.{name_eq}
use hvm.Host.{get}
use hvm.Transform.Prune.{member, prune, visit_def, keys}
use hvm.Transform.Prune.Graph.{Reach}
use hvm.Transform.Prune.Search.{Good}
use hvm.Transform.Prune.Visits.{visit_def-Good}
use hvm.Transform.Prune.Reachable.{prune-Reach, Present-keys}

abbrev main : Name
main = 109 ∷ []

abbrev used : Name
used = 117 ∷ []

abbrev book : Book
book = record {
  nets =
      (
        main,
        record {
          root = Tree.ctr 0 (Trees.and (Tree.ref used) (Trees.and Tree.era Trees.end));
          redexes = [];
        },
      )
      ∷ (120 ∷ [], record { root = Tree.ref main; redexes = [] })
      ∷ (used, record { root = Tree.ref main; redexes = [] })
      ∷ [];
}

prune-Reach_example :
    (kept : Book) × (prune book (main ∷ []) ≡ some kept)
    × ((m : Name) (net : Net)
        → (get name_eq kept.nets m ≡ some net) ↔ (
            (get name_eq book.nets m ≡ some net)
            × ((e : Name) × (member e (main ∷ []) ≡ true) × Reach book.nets e m)))
prune-Reach_example = prune-Reach book (main ∷ [])

visit_def-Good_example :
    Good book.nets (main ∷ []) (keys book.nets) (visit_def book.nets 4 main (keys book.nets))
visit_def-Good_example =
    visit_def-Good book.nets 4 main (keys book.nets) (omega arith) (Present-keys book.nets)
