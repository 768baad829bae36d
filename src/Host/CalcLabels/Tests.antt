-- ===== src/Host/CalcLabels/Tests.antt =====
-- The source's test.
use hvm.Prelude.{ℕ, ◌≡◌, refl, some, List, [], ◌∷◌}
use hvm.Run.LabSet
use hvm.Run.LabSet.{LabSet, from_iter, add, union}
use hvm.Ast.{Name, Tree, Trees, Net, Book, lab_of}
use hvm.Host.CalcLabels.{
  calculate_label_sets, visit_all, visit_def, calc_def, visit_within_def, visit_redexes, visit_tree,
}

abbrev pair : ℕ → Tree → Tree → Tree
pair lab a b = Tree.ctr lab (Trees.and a (Trees.and b Trees.end))

abbrev at : ℕ → Tree
at c = Tree.ref (c ∷ [])

abbrev net : Tree → Net
net t = record { root = t; redexes = [] }

abbrev x : Tree
x = Tree.var (120 ∷ [])

abbrev book : Book
book = record {
  nets =
      (97 ∷ [], net (pair 0 (at 98) (at 99)))
      ∷ (98 ∷ [], net (pair 1 (at 97) Tree.era))
      ∷ (99 ∷ [], net (pair 2 (at 97) Tree.era))
      ∷ (112 ∷ [], net (pair 3 (at 113) (pair 4 x x)))
      ∷ (113 ∷ [], net (pair 5 (at 114) (at 116)))
      ∷ (114 ∷ [], net (pair 6 (at 115) Tree.era))
      ∷ (115 ∷ [], net (pair 7 (at 114) Tree.era))
      ∷ (116 ∷ [], net (pair 8 (at 113) (pair 9 (at 116) (at 117))))
      ∷ (117 ∷ [], net (pair 10 (at 117) (at 115)))
      ∷ [];
}

abbrev expected : List (Name × LabSet)
expected =
    (97 ∷ [], from_iter (0 ∷ 1 ∷ 2 ∷ []))
    ∷ (98 ∷ [], from_iter (0 ∷ 1 ∷ 2 ∷ []))
    ∷ (99 ∷ [], from_iter (0 ∷ 1 ∷ 2 ∷ []))
    ∷ (112 ∷ [], from_iter (3 ∷ 4 ∷ 5 ∷ 6 ∷ 7 ∷ 8 ∷ 9 ∷ 10 ∷ []))
    ∷ (113 ∷ [], from_iter (5 ∷ 6 ∷ 7 ∷ 8 ∷ 9 ∷ 10 ∷ []))
    ∷ (114 ∷ [], from_iter (6 ∷ 7 ∷ []))
    ∷ (115 ∷ [], from_iter (6 ∷ 7 ∷ []))
    ∷ (116 ∷ [], from_iter (5 ∷ 6 ∷ 7 ∷ 8 ∷ 9 ∷ 10 ∷ []))
    ∷ (117 ∷ [], from_iter (6 ∷ 7 ∷ 10 ∷ []))
    ∷ []

-- With fuel for two visits of each definition and one more.
labels : calculate_label_sets 19 book (λ nam. LabSet.empty) ≡ some expected
unfolding calculate_label_sets visit_all visit_def calc_def visit_within_def visit_redexes
    visit_tree lab_of add union from_iter LabSet.insert_all
labels = refl
