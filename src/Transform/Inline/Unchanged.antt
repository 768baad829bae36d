-- ===== src/Transform/Inline/Unchanged.antt =====
-- The flag of `inline_into` (src/transform/inline.rs).
use hvm.Prelude.{◌≡◌, refl, Bool, true, false, ◌||◌, Option, none, some, List, ap, ap₂}
use hvm.Ast.{Name, Tree, Trees}
use hvm.Transform.Inline.{get, replace, inline_into, inline_all}

-- The names that have no tree to take their place.
unfoldable mutual
  pub Free : List (Name × Tree) → Tree → Type 0
  Free s (Tree.ref nam) = get s nam ≡ none
  Free s (Tree.ctr lab ports) = AllFree s ports
  Free s (Tree.op o rhs out) = Free s rhs × Free s out
  Free s (Tree.mat z u out) = Free s z × Free s u × Free s out
  Free s (Tree.adt lab i n fields) = AllFree s fields
  Free s Tree.era = Unit
  Free s (Tree.int b) = Unit
  Free s (Tree.f32 b) = Unit
  Free s (Tree.var nam) = Unit

  pub AllFree : List (Name × Tree) → Trees → Type 0
  AllFree s Trees.end = Unit
  AllFree s (Trees.and t ts) = Free s t × AllFree s ts

or_false : (a b : Bool) → (a || b) ≡ false → (a ≡ false) × (b ≡ false)
or_false true b h = absurd (cc h)
or_false false b h = (refl, h)

replace-Free :
    (s : List (Name × Tree)) (nam : Name)
    → (replace s nam).0 ≡ false
    → (get s nam ≡ none) × ((replace s nam).1 ≡ Tree.ref nam)
unfolding replace
replace-Free s nam h = by_result (get s nam) refl h
  where
    by_result :
        (o : Option Tree)
        → get s nam ≡ o
        → (elim o as (λ x. Bool × Tree) [ none ↦ (false, Tree.ref nam) | some t ↦ (true, t) ]).0
          ≡ false
        → (o ≡ none)
          × ((elim o as (λ x. Bool × Tree) [ none ↦ (false, Tree.ref nam) | some t ↦ (true, t) ]).1
              ≡ Tree.ref nam)
    by_result none e h = (refl, refl)
    by_result (some t) e h = absurd (cc h)

mutual
  unfolding inline_into Free

  flag :
      (s : List (Name × Tree)) (t : Tree)
      → (inline_into s t).0 ≡ false
      → Free s t × ((inline_into s t).1 ≡ t)
  flag s (Tree.ref nam) h = replace-Free s nam h
  flag s (Tree.ctr lab ports) h = let (f, e) = flag_all s ports h in (f, ap (λ x. Tree.ctr lab x) e)
  flag s (Tree.op o rhs out) h =
      let (p, q) = or_false _ _ h in
      let (f, e) = flag s rhs p in
      let (g, d) = flag s out q in ((f, g), ap₂ (λ x y. Tree.op o x y) e d)
  flag s (Tree.mat z u out) h =
      let (p, r) = or_false _ _ h in
      let (q, w) = or_false _ _ r in
      let (f, e) = flag s z p in
      let (g, d) = flag s u q in let (k, c) = flag s out w in ((f, g, k), rw (e, d, c) refl)
  flag s (Tree.adt lab i n fields) h =
      let (f, e) = flag_all s fields h in (f, ap (λ x. Tree.adt lab i n x) e)
  flag s Tree.era h = (tt, refl)
  flag s (Tree.int b) h = (tt, refl)
  flag s (Tree.f32 b) h = (tt, refl)
  flag s (Tree.var nam) h = (tt, refl)

  flag_all :
      (s : List (Name × Tree)) (ts : Trees)
      → (inline_all s ts).0 ≡ false
      → AllFree s ts × ((inline_all s ts).1 ≡ ts)
  flag_all s Trees.end h = (tt, refl)
  flag_all s (Trees.and t ts) h =
      let (p, q) = or_false _ _ h in
      let (f, e) = flag s t p in
      let (g, d) = flag_all s ts q in ((f, g), ap₂ (λ x y. Trees.and x y) e d)

-- If `inline_into` reports no change, then no reference of the tree has a tree to take its place, and
-- the tree is as it was.
pub inline_into-Free :
    (s : List (Name × Tree)) (t : Tree)
    → (inline_into s t).0 ≡ false
    → Free s t × ((inline_into s t).1 ≡ t)
inline_into-Free = flag
