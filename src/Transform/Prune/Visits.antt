-- ===== src/Transform/Prune/Visits.antt =====
-- The visit of a definition, with enough fuel (src/transform/prune.rs).
use hvm.Prelude.{
  ℕ, zero, suc, ◌<◌, ◌≡◌, refl, Bool, true, false, Option, none, some, List, [], ◌∷◌, arith, ◌∙◌,
  length, ap,
}
use mathlib.Core.Path.{sym, subst}
use hvm.Ast.{Name, Net, trees}
use hvm.Transform.Inline.{name_eq}
use hvm.Host.{get}
use hvm.Host.Maps.{name_eq_sound, name_eq_refl}
use hvm.Transform.Prune.{NameSet, and_visit, member, delete, visit_def, visit_trees}
use hvm.Transform.Prune.Names.{member-delete, delete-lt, member-one, member-here, member-of_delete}
use hvm.Transform.Prune.Graph.{Reach, net_refs, visit_trees-names}
use hvm.Transform.Prune.Search.{not_in, Present, Visited, Good, names-Good}

module _ (nets : List (Name × Net)) where
  -- A definition that is taken from the set, and then what its net mentions.
  Visited-def :
      (nam : Name) (net : Net) (u v : NameSet)
      → get name_eq nets nam ≡ some net
      → member nam u ≡ true
      → Visited nets (net_refs net) (delete nam u) v
      → Visited nets (nam ∷ []) u v
  Visited-def nam net u v found inside a = record {
    shorter = omega (arith, a.shorter, delete-lt nam u inside);
    shrinks = λ m h. member-of_delete m nam u (a.shrinks m h);
    gone = λ m h. subst (λ x. member x v ≡ false) (member-one m nam h) gone_self;
    closed = λ m h k other e o r. at_closed m h k other e o r (name_eq nam m) refl;
    reached = λ m h k. at_reached m h k (name_eq nam m) refl;
  }
    where
      left : (m : Name) → name_eq nam m ≡ false → member m u ≡ true → member m (delete nam u) ≡ true
      left m e h = member-delete m nam u ∙ rw e h

      gone_self : member nam v ≡ false
      gone_self =
          let e : member nam (delete nam u) ≡ false =
            member-delete nam nam u ∙ rw (name_eq_refl nam) refl in
          not_in (delete nam u) v nam (a.shrinks nam) e

      at_closed :
          (m : Name)
          → member m u ≡ true
          → member m v ≡ false
          → (other : Net) → get name_eq nets m ≡ some other
          → (o : Name) → member o (net_refs other) ≡ true
          → (b : Bool) → name_eq nam m ≡ b
          → member o v ≡ false
      at_closed m h k other e o r true f =
          let same : some net ≡ some other =
            sym found ∙ ap (get name_eq nets) (name_eq_sound nam m f) ∙ e in
          let eq : net ≡ other = ap (λ x. elim x as (λ x. Net) [ none ↦ net | some y ↦ y ]) same in
          a.gone o (subst (λ x. member o (net_refs x) ≡ true) (sym eq) r)
      at_closed m h k other e o r false f = a.closed m (left m f h) k other e o r

      at_reached :
          (m : Name)
          → member m u ≡ true
          → member m v ≡ false
          → (b : Bool) → name_eq nam m ≡ b
          → (r : Name) × (member r (nam ∷ []) ≡ true) × Reach nets r m
      at_reached m h k true f = (
        nam,
        member-here nam [],
        subst (λ x. Reach nets nam x) (name_eq_sound nam m f) Reach.here,
      )
      at_reached m h k false f =
          let (r, i, p) = a.reached m (left m f h) k in
          (nam, member-here nam [], Reach.step net found i p)

  -- A name that is not unvisited.
  Visited-skip : (nam : Name) (u : NameSet) → member nam u ≡ false → Visited nets (nam ∷ []) u u
  Visited-skip nam u e = record {
    shorter = omega arith;
    shrinks = λ m h. h;
    gone = λ m h. subst (λ x. member x u ≡ false) (member-one m nam h) e;
    closed = λ m h k. absurd (cc (h, k));
    reached = λ m h k. absurd (cc (h, k));
  }

  -- With more fuel than there are unvisited names, if each of those has a net, the visit of a definition
  -- ends; the names it takes from the unvisited ones are reached from the definition, and with a name it
  -- takes all that the net of the name mentions.
  pub visit_def-Good :
      (fuel : ℕ) (nam : Name) (u : NameSet)
      → length u < fuel
      → Present nets u
      → Good nets (nam ∷ []) u (visit_def nets fuel nam u)
  unfolding visit_def net_refs
  visit_def-Good zero nam u lt present = absurd (omega (arith, lt))
  visit_def-Good (suc fuel) nam u lt present = at (member nam u) refl (visit_def-Good fuel)
    where
      of_names :
          (net : Net) (o : Option NameSet)
          → get name_eq nets nam ≡ some net
          → member nam u ≡ true
          → Good nets (net_refs net) (delete nam u) o
          → Good nets (nam ∷ []) u o
      of_names net none found inside a = a
      of_names net (some v) found inside a = Visited-def nam net u v found inside a

      at :
          (b : Bool)
          → member nam u ≡ b
          → ((n : Name) (v : NameSet)
              → length v < fuel
              → Present nets v
              → Good nets (n ∷ []) v (visit_def nets fuel n v))
          → Good nets (nam ∷ []) u (elim b as (λ b. Option NameSet) [
            | true ↦
                and_visit
                  (get name_eq nets nam)
                  (λ net. visit_trees (visit_def nets fuel) (trees net) (delete nam u))
            | false ↦ some u
          ])
      at true e good =
          let (net, found) = present nam e in
          rw (found, visit_trees-names (visit_def nets fuel) (trees net) (delete nam u))
            (of_names net _ found e (
              names-Good nets (visit_def nets fuel) fuel good (net_refs net) (delete nam u)
                (omega (arith, lt, delete-lt nam u e))
                (λ m h. present m (member-of_delete m nam u h))))
      at false e good = Visited-skip nam u e
