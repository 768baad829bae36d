-- ===== src/Transform/Prune/Reachable.antt =====
-- What prune keeps are the definitions that an entry point reaches (src/transform/prune.rs).
use hvm.Prelude.{
  ℕ, suc, ◌≡◌, refl, Bool, true, false, Option, none, some, List, [], ◌∷◌, arith, ◌∙◌, length,
  if◌then◌else◌, ◌↔◌,
}
use mathlib.Core.Path.{sym, subst}
use hvm.Ast.{Name, Net, Book}
use hvm.Transform.Inline.{name_eq}
use hvm.Host.{get}
use hvm.Host.Maps.{name_eq_sound}
use hvm.Transform.Prune.{
  NameSet, and_visit, member, keys, visit_def, visit_entrypoints, prune, remove_all,
}
use hvm.Transform.Prune.Graph.{Reach, visit_names}
use hvm.Transform.Prune.Search.{Present, Visited, Good, names-Good}
use hvm.Transform.Prune.Visits.{visit_def-Good}

module _ (nets : List (Name × Net)) where
  entrypoints-names :
      (fuel : ℕ) (es : List Name) (u : NameSet)
      → visit_entrypoints nets fuel es u ≡ visit_names (visit_def nets fuel) es u
  unfolding visit_entrypoints visit_names
  entrypoints-names fuel [] u = refl
  entrypoints-names fuel (e ∷ es) u = at (visit_def nets fuel e u) (entrypoints-names fuel es)
    where
      at :
          (o : Option NameSet)
          → ((v : NameSet)
              → visit_entrypoints nets fuel es v ≡ visit_names (visit_def nets fuel) es v)
          → and_visit o (visit_entrypoints nets fuel es)
            ≡ and_visit o (visit_names (visit_def nets fuel) es)
      at none h = refl
      at (some v) h = h v

member-keys :
    (nets : List (Name × Net)) (m : Name) (net : Net)
    → get name_eq nets m ≡ some net
    → member m (keys nets) ≡ true
member-keys [] m net e = absurd (ground arith)
member-keys ((x, n) ∷ rest) m net e = at (name_eq x m) e (member-keys rest m net)
  where
    at :
        (b : Bool)
        → (if b then some n else get name_eq rest m) ≡ some net
        → (get name_eq rest m ≡ some net → member m (keys rest) ≡ true)
        → (if b then true else member m (keys rest)) ≡ true
    at true e h = refl
    at false e h = h e

pub Present-keys : (nets : List (Name × Net)) → Present nets (keys nets)
Present-keys [] m e = absurd (ground arith)
Present-keys ((x, n) ∷ rest) m e = at (name_eq x m) e (Present-keys rest m)
  where
    at :
        (b : Bool)
        → (if b then true else member m (keys rest)) ≡ true
        → (member m (keys rest) ≡ true → (net : Net) × (get name_eq rest m ≡ some net))
        → (net : Net) × ((if b then some n else get name_eq rest m) ≡ some net)
    at true e h = (n, refl)
    at false e h = h e

get-remove_all :
    (u : NameSet) (nets : List (Name × Net)) (m : Name)
    → get name_eq (remove_all u nets) m ≡ (if member m u then none else get name_eq nets m)
get-remove_all u [] m = at (member m u) none
  where
    at : (b : Bool) (o : Option Net) → o ≡ (if b then o else o)
    at true o = refl
    at false o = refl
get-remove_all u ((x, n) ∷ rest) m =
    at (member x u) refl (name_eq x m) refl (get-remove_all u rest m)
  where
    at :
        (b : Bool)
        → member x u ≡ b
        → (c : Bool) → name_eq x m ≡ c
        → get name_eq (remove_all u rest) m ≡ (if member m u then none else get name_eq rest m)
        → get name_eq (if b then remove_all u rest else (x, n) ∷ remove_all u rest) m
          ≡ (if member m u then none else (if c then some n else get name_eq rest m))
    at true e true f ih =
        let g : member m u ≡ true = subst (λ y. member y u ≡ true) (name_eq_sound x m f) e in
        ih ∙ rw g refl
    at true e false f ih = ih
    at false e true f ih =
        let g : member m u ≡ false = subst (λ y. member y u ≡ false) (name_eq_sound x m f) e in
        rw (f, g) refl
    at false e false f ih = rw f ih

module _ (nets : List (Name × Net)) (entrypoints : List Name) (v : NameSet)
    (a : Visited nets entrypoints (keys nets) v) where
  Reach-out : (e m : Name) → Reach nets e m → member e v ≡ false → member m v ≡ false
  Reach-out e m Reach.here h = h
  Reach-out e m (Reach.step {b = b} net found i p) h =
      Reach-out b m p (a.closed e (member-keys nets e net found) h net found b i)

  kept-Reach :
      (m : Name) (net : Net)
      → get name_eq (remove_all v nets) m ≡ some net
      → (get name_eq nets m ≡ some net)
        × ((e : Name) × (member e entrypoints ≡ true) × Reach nets e m)
  kept-Reach m net h = at (member m v) refl (sym (get-remove_all v nets m) ∙ h)
    where
      at :
          (b : Bool)
          → member m v ≡ b
          → (if b then none else get name_eq nets m) ≡ some net
          → (get name_eq nets m ≡ some net)
            × ((e : Name) × (member e entrypoints ≡ true) × Reach nets e m)
      at true f h = absurd (ground arith)
      at false f h = (h, a.reached m (member-keys nets m net h) f)

  Reach-kept :
      (m : Name) (net : Net)
      → (get name_eq nets m ≡ some net)
        × ((e : Name) × (member e entrypoints ≡ true) × Reach nets e m)
      → get name_eq (remove_all v nets) m ≡ some net
  Reach-kept m net (found, (e, i, p)) =
      let out : member m v ≡ false = Reach-out e m p (a.gone e i) in
      get-remove_all v nets m ∙ rw out found

-- prune ends, for every book and all entry points, and a name has a net in the pruned book exactly if
-- it has that net in the book and an entry point reaches it through the references of nets.
pub prune-Reach :
    (book : Book) (entrypoints : List Name)
    → (kept : Book) × (prune book entrypoints ≡ some kept)
      × ((m : Name) (net : Net)
          → (get name_eq kept.nets m ≡ some net) ↔ (
              (get name_eq book.nets m ≡ some net)
              × ((e : Name) × (member e entrypoints ≡ true) × Reach book.nets e m)))
unfolding prune
prune-Reach book entrypoints =
    let u = keys book.nets in
    let fuel = suc (length u) in
    let good =
      names-Good book.nets (visit_def book.nets fuel) fuel (visit_def-Good book.nets fuel)
        entrypoints u (omega arith) (Present-keys book.nets) in
    rw (entrypoints-names book.nets fuel entrypoints u, prune)
      (at (visit_names (visit_def book.nets fuel) entrypoints u) good)
  where
    at :
        (o : Option NameSet)
        → Good book.nets entrypoints (keys book.nets) o
        → (kept : Book) × ((elim o as (λ o. Option Book) [
          | none ↦ none
          | some u ↦ some (record { nets = remove_all u book.nets })
        ])
            ≡ some kept)
          × ((m : Name) (net : Net)
              → (get name_eq kept.nets m ≡ some net) ↔ (
                  (get name_eq book.nets m ≡ some net)
                  × ((e : Name) × (member e entrypoints ≡ true) × Reach book.nets e m)))
    at none a = absurd a
    at (some v) a = (
      record { nets = remove_all v book.nets },
      refl,
      λ m net.
          (kept-Reach book.nets entrypoints v a m net, Reach-kept book.nets entrypoints v a m net),
    )
