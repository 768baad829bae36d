-- ===== src/Transform/Prune/Search.antt =====
-- A visit of a definition with enough fuel ends, and takes from the unvisited names those that it
-- reaches (src/transform/prune.rs).
use hvm.Prelude.{
  ℕ, ◌≤◌, ◌<◌, ◌≡◌, refl, Bool, true, false, Option, none, some, List, [], ◌∷◌, arith, ◌∙◌, length,
  if◌then◌else◌,
}
use mathlib.Core.Path.{sym, subst}
use hvm.Ast.{Name, Net}
use hvm.Transform.Inline.{name_eq}
use hvm.Host.{get}
use hvm.Host.Maps.{name_eq_sound}
use hvm.Transform.Prune.{NameSet, Visitor, and_visit, member}
use hvm.Transform.Prune.Names.{member-one, member-here, member-there}
use hvm.Transform.Prune.Graph.{Reach, net_refs, visit_names}

-- A name that is not in the larger set is not in the smaller.
pub not_in :
    (u v : NameSet) (m : Name)
    → (member m v ≡ true → member m u ≡ true)
    → member m u ≡ false
    → member m v ≡ false
not_in u v m h e = at (member m v) h
  where
    at : (b : Bool) → (b ≡ true → member m u ≡ true) → b ≡ false
    at true h = sym (h refl) ∙ e
    at false h = refl

module _ (nets : List (Name × Net)) where
  -- The names of a set are those of definitions.
  abbrev pub Present : NameSet → Type 0
  Present u = (m : Name) → member m u ≡ true → (net : Net) × (get name_eq nets m ≡ some net)

  -- What visits of the roots take from the set `u`, of which they leave `v`.
  pub record Visited (roots : List Name) (u v : NameSet) : Type 0 where
    pub shorter : length v ≤ length u
    pub shrinks : (m : Name) → member m v ≡ true → member m u ≡ true
    pub gone : (m : Name) → member m roots ≡ true → member m v ≡ false
    pub closed :
        (m : Name)
        → member m u ≡ true
        → member m v ≡ false
        → (net : Net) → get name_eq nets m ≡ some net
        → (n : Name) → member n (net_refs net) ≡ true
        → member n v ≡ false
    pub reached :
        (m : Name)
        → member m u ≡ true
        → member m v ≡ false
        → (r : Name) × (member r roots ≡ true) × Reach nets r m

  abbrev pub Good : List Name → NameSet → Option NameSet → Type 0
  Good roots u none = ⊥
  Good roots u (some v) = Visited roots u v

  Visited-nothing : (u : NameSet) → Visited [] u u
  Visited-nothing u = record {
    shorter = omega arith;
    shrinks = λ m h. h;
    gone = λ m h. absurd (ground arith);
    closed = λ m h k. absurd (cc (h, k));
    reached = λ m h k. absurd (cc (h, k));
  }

  -- A visit, and then those of more names.
  Visited-trans :
      (n : Name) (ns : List Name) (u v w : NameSet)
      → Visited (n ∷ []) u v
      → Visited ns v w
      → Visited (n ∷ ns) u w
  Visited-trans n ns u v w a b = record {
    shorter = omega (arith, a.shorter, b.shorter);
    shrinks = λ m h. a.shrinks m (b.shrinks m h);
    gone = λ m h. at_gone m (name_eq n m) refl h;
    closed = λ m h k net e o r. at_closed m h k net e o r (member m v) refl;
    reached = λ m h k. at_reached m h k (member m v) refl;
  }
    where
      at_gone :
          (m : Name) (c : Bool)
          → name_eq n m ≡ c
          → (if c then true else member m ns) ≡ true
          → member m w ≡ false
      at_gone m true e h = not_in v w m (b.shrinks m) (
          a.gone m (subst (λ x. member x (n ∷ []) ≡ true) (name_eq_sound n m e) (member-here n [])))
      at_gone m false e h = b.gone m h

      at_closed :
          (m : Name)
          → member m u ≡ true
          → member m w ≡ false
          → (net : Net) → get name_eq nets m ≡ some net
          → (o : Name) → member o (net_refs net) ≡ true
          → (c : Bool) → member m v ≡ c
          → member o w ≡ false
      at_closed m h k net e o r true f = b.closed m f k net e o r
      at_closed m h k net e o r false f = not_in v w o (b.shrinks o) (a.closed m h f net e o r)

      at_reached :
          (m : Name)
          → member m u ≡ true
          → member m w ≡ false
          → (c : Bool) → member m v ≡ c
          → (r : Name) × (member r (n ∷ ns) ≡ true) × Reach nets r m
      at_reached m h k true f = let (r, i, p) = b.reached m f k in (r, member-there r n ns i, p)
      at_reached m h k false f =
          let (r, i, p) = a.reached m h f in
          (n, member-here n ns, subst (λ x. Reach nets x m) (sym (member-one r n i)) p)

  -- Visits of names, if each visit is good on sets that are no longer.
  pub names-Good :
      (visit : Name → Visitor) (bound : ℕ)
      → ((n : Name) (u : NameSet) → length u < bound → Present u → Good (n ∷ []) u (visit n u))
      → (ns : List Name) (u : NameSet) → length u < bound
      → Present u
      → Good ns u (visit_names visit ns u)
  unfolding visit_names
  names-Good visit bound good [] u lt here = Visited-nothing u
  names-Good visit bound good (n ∷ ns) u lt present =
      at (visit n u) (good n u lt present) (names-Good visit bound good ns)
    where
      last :
          (v : NameSet) (o : Option NameSet)
          → Visited (n ∷ []) u v
          → Good ns v o
          → Good (n ∷ ns) u o
      last v none a b = b
      last v (some w) a b = Visited-trans n ns u v w a b

      at :
          (o : Option NameSet)
          → Good (n ∷ []) u o
          → ((v : NameSet) → length v < bound → Present v → Good ns v (visit_names visit ns v))
          → Good (n ∷ ns) u (and_visit o (visit_names visit ns))
      at none a next = a
      at (some v) a next =
          last v (visit_names visit ns v) a
            (next v (omega (arith, lt, a.shorter)) (λ m h. present m (a.shrinks m h)))
