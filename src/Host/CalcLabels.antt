-- ===== src/Host/CalcLabels.antt =====
-- The labels that each definition of a book uses (src/host/calc_labels.rs), in two passes over cycles of
-- references. A visit of a definition takes fuel; `none` is a visit without fuel, or a panic. The labels
-- of a name that is not in the book are a parameter.
mod Tests
use hvm.Prelude.{
  ℕ, zero, suc, ◌+◌, ◌-◌, ◌^◌, ◌==◌, Bool, true, false, Option, none, some, List, [], ◌∷◌, ltb,
  if◌then◌else◌, map,
}
use hvm.Run.LabSet
use hvm.Run.LabSet.{LabSet}
use hvm.Ast.{Name, Tree, Trees, Net, Book, lab_of}
use hvm.Transform.Inline.{name_eq}
use hvm.Host.{get, insert}

pub data LabelState : Type 0 where
  done : LabSet → LabelState
  -- part of a cycle with the given head depth
  cycle : ℕ → LabelState

abbrev pub Labels : Type 0
Labels = List (Name × LabelState)

-- A visit: the depth, `none` in the second pass, and the set that gets the labels, if there is one. It
-- gives the head depth and that set.
abbrev pub Visit : Type 0
Visit = (depth : Option ℕ) (out : Option LabSet) → Labels → Option (ℕ × Option LabSet × Labels)

-- `usize::MAX`
abbrev pub no_head : ℕ
no_head = 2 ^ 64 - 1

abbrev pub min : ℕ → ℕ → ℕ
min a b = if ltb b a then b else a

abbrev pub on_some : {A B : Type 0} → (A → B) → Option A → Option B
on_some f none = none
on_some f (some a) = some (f a)

abbrev pub and_then : {A B : Type 0} → Option A → (A → Option B) → Option B
and_then none k = none
and_then (some a) k = k a

-- One visit and then another, with the least head depth.
abbrev pub both : Visit → Visit → Visit
both m n depth out s =
    and_then (m depth out s)
      (λ (a, out1, s1). and_then (n depth out1 s1) (λ (b, out2, s2). some (min a b, out2, s2)))

abbrev pub union_into : Option LabSet → LabSet → Option LabSet
union_into out labs = on_some (λ o. LabSet.union o labs) out

abbrev pub add_label : Option ℕ → Option LabSet → Option LabSet
add_label none out = out
add_label (some lab) out = on_some (λ o. LabSet.add o lab) out

module _ (nets : List (Name × Net)) (lookup : Name → LabSet) where
  module _ (visit : Name → Visit) where
    abbrev pub visit_ref : Option Net → Name → Visit
    visit_ref (some net) nam depth out s = visit nam (on_some (λ d. d + 1) depth) out s
    visit_ref none nam depth out s = some (no_head, union_into out (lookup nam), s)

    unfoldable mutual
      pub visit_tree : Tree → Visit
      visit_tree (Tree.ref nam) depth out s = visit_ref (get name_eq nets nam) nam depth out s
      visit_tree (Tree.ctr lab ports) depth out s =
          visit_children ports depth (add_label (lab_of (Tree.ctr lab ports)) out) s
      visit_tree (Tree.adt lab i n fields) depth out s =
          visit_children fields depth (add_label (lab_of (Tree.adt lab i n fields)) out) s
      visit_tree (Tree.op o rhs b) depth out s = both (visit_tree rhs) (visit_tree b) depth out s
      visit_tree (Tree.mat z u b) depth out s =
          both (visit_tree z) (both (visit_tree u) (visit_tree b)) depth out s
      visit_tree Tree.era depth out s = some (no_head, out, s)
      visit_tree (Tree.int bits) depth out s = some (no_head, out, s)
      visit_tree (Tree.f32 bits) depth out s = some (no_head, out, s)
      visit_tree (Tree.var nam) depth out s = some (no_head, out, s)

      pub visit_children : Trees → Visit
      visit_children Trees.end depth out s = some (no_head, out, s)
      visit_children (Trees.and t ts) depth out s =
          both (visit_tree t) (visit_children ts) depth out s

    unfoldable pub visit_redexes : List (Tree × Tree) → Visit
    visit_redexes [] depth out s = some (no_head, out, s)
    visit_redexes ((a, b) ∷ rest) depth out s =
        both (both (visit_tree a) (visit_tree b)) (visit_redexes rest) depth out s

    unfoldable pub visit_within_def : Name → Visit
    visit_within_def key depth out s =
        and_then (get name_eq nets key)
          (λ net. both (visit_tree net.root) (visit_redexes net.redexes) depth out s)

    -- The memo, after the first walk over a definition that is the head of its cycles.
    abbrev pub second_pass : Name → (depth : Option ℕ) (head_depth : ℕ) → Labels → Option Labels
    second_pass key none head s = some s
    second_pass key (some d) head s =
        if d == head
        then and_then (visit_within_def key none none s) (λ (_, _, s'). some s')
        else some s

    -- `depth.is_some_and(|x| x > head_depth)`
    abbrev pub in_cycle : Option ℕ → ℕ → Bool
    in_cycle none head = false
    in_cycle (some d) head = ltb head d

    abbrev pub labels_of : Option LabSet → LabSet
    labels_of none = LabSet.empty
    labels_of (some labs) = labs

    unfoldable pub calc_def : Name → Visit
    calc_def key depth out s =
        and_then (visit_within_def key depth (some LabSet.empty) s) (λ (head, got, s1).
          let labs = labels_of got in
          let out1 = union_into out labs in
          if in_cycle depth head
          then some (head, out1, insert name_eq s1 key (LabelState.cycle head))
          else and_then (second_pass key depth head (insert name_eq s1 key (LabelState.done labs)))
              (λ s2. some (head, out1, s2)))

  abbrev pub enter : (Name → Visit) → Option LabelState → Name → Visit
  enter visit none key none out s = none
  enter visit none key (some d) out s =
      calc_def visit key (some d) out (insert name_eq s key (LabelState.cycle d))
  enter visit (some (LabelState.done labs)) key depth out s = some (no_head, union_into out labs, s)
  enter visit (some (LabelState.cycle d)) key (some x) out s = some (d, out, s)
  enter visit (some (LabelState.cycle d)) key none out s =
      calc_def visit key none out (insert name_eq s key (LabelState.done LabSet.empty))

  unfoldable pub visit_def : (fuel : ℕ) → Name → Visit
  visit_def zero key depth out s = none
  visit_def (suc fuel) key depth out s = enter (visit_def fuel) (get name_eq s key) key depth out s

  unfoldable pub visit_all : (fuel : ℕ) → List (Name × Net) → Labels → Option Labels
  visit_all fuel [] s = some s
  visit_all fuel ((name, net) ∷ rest) s =
      and_then (visit_def fuel name (some 0) none s) (λ (_, _, s'). visit_all fuel rest s')

-- `LabelSets::into_iter`, where a name without a label set is unreachable
abbrev pub into_iter : Labels → Option (List (Name × LabSet))
into_iter [] = some []
into_iter ((name, LabelState.done labs) ∷ rest) =
    and_then (into_iter rest) (λ more. some ((name, labs) ∷ more))
into_iter ((name, LabelState.cycle d) ∷ rest) = none

unfoldable pub calculate_label_sets :
    (fuel : ℕ) → Book → (lookup : Name → LabSet) → Option (List (Name × LabSet))
calculate_label_sets fuel book lookup =
    and_then (visit_all book.nets lookup fuel book.nets []) into_iter
