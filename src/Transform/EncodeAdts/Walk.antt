-- ===== src/Transform/EncodeAdts/Walk.antt =====
-- `encode_scott_adts` returns, and the trees it leaves are within the limits that the parser keeps
-- (src/transform/encode_adts.rs).
use hvm.Prelude.{ℕ, zero, suc, ◌<◌, ◌≤◌, ◌≡◌, refl, false, Option, some, ltb, arith, ap}
use hvm.Ast.{Tree, Trees, max_arity, count}
use hvm.Ast.Scanner.{Scanner}
use hvm.Ast.Limits.{WellFormed, AllWellFormed}
use hvm.Transform.EncodeAdts.{then_some, for_each, in_children, encode_scott_adts}
use hvm.Transform.EncodeAdts.Nodes.{Sound, node_first-Sound}
use hvm.Transform.EncodeAdts.Sizes.{size, sizes}

module _ (s : Scanner) (IsFloat : ℕ → Type 0) where
  -- A tree within the limits is returned.
  abbrev Gives : Option Tree → Type 0
  Gives o = (u : Tree) × (o ≡ some u) × WellFormed s IsFloat u

  module _ (f : Tree → Option Tree) (n : ℕ)
      (h : (t : Tree) → size t ≤ n → WellFormed s IsFloat t → Gives (f t)) where
    for_each-AllWellFormed :
        (ts : Trees)
        → sizes ts ≤ n
        → AllWellFormed s IsFloat ts
        → (us : Trees) × (for_each f ts ≡ some us)
          × (count us ≡ count ts)
          × AllWellFormed s IsFloat us
    for_each-AllWellFormed Trees.end l w = (Trees.end, refl, refl, AllWellFormed.end)
    for_each-AllWellFormed (Trees.and t ts) l (AllWellFormed.and w ws) =
        let (u, e, v) = h t (omega arith) w in
        let (us, es, c, vs) = for_each-AllWellFormed ts (omega arith) ws in
        (Trees.and u us, rw (e, es) refl, ap suc c, AllWellFormed.and v vs)

    in_children-Gives :
        (t : Tree) → size t ≤ suc n → WellFormed s IsFloat t → Gives (in_children f t)
    in_children-Gives t l (WellFormed.ctr lab ports k m w) =
        let (us, es, c, vs) = for_each-AllWellFormed ports (omega arith) w in
        let fits : ltb max_arity (count ports) ≡ false = ground arith in
        (Tree.ctr lab us, rw fits (rw es refl), WellFormed.ctr lab us k (omega (arith, c)) vs)
    in_children-Gives t l (WellFormed.adt lab i m fields k j o p w) =
        let (us, es, c, vs) = for_each-AllWellFormed fields (omega arith) w in
        let fits : ltb max_arity (count fields) ≡ false = ground arith in
        (
          Tree.adt lab i m us,
          rw fits (rw es refl),
          WellFormed.adt lab i m us k j o (omega (arith, c)) vs,
        )
    in_children-Gives t l (WellFormed.op o {rhs = x} {out = y} v w) =
        let (a, d, v') = h x (omega arith) v in
        let (b, e, w') = h y (omega arith) w in
        (Tree.op o a b, rw (d, e) refl, WellFormed.op o v' w')
    in_children-Gives t l (WellFormed.mat {z = x} {n = y} {out = z} u v w) =
        let (a, d, u') = h x (omega arith) u in
        let (b, e, v') = h y (omega arith) v in
        let (c, g, w') = h z (omega arith) w in
        (Tree.mat a b c, rw (d, e, g) refl, WellFormed.mat u' v' w')
    in_children-Gives t l WellFormed.era = (Tree.era, refl, WellFormed.era)
    in_children-Gives t l (WellFormed.int b w) = (Tree.int b, refl, WellFormed.int b w)
    in_children-Gives t l (WellFormed.f32 b w) = (Tree.f32 b, refl, WellFormed.f32 b w)
    in_children-Gives t l (WellFormed.ref nam w) = (Tree.ref nam, refl, WellFormed.ref nam w)
    in_children-Gives t l (WellFormed.var nam w) = (Tree.var nam, refl, WellFormed.var nam w)

  size_pos : (t : Tree) → 0 < size t
  size_pos t = ground arith

  -- In a release build, for a tree within the limits that the parser keeps, with as much fuel as the
  -- size of the tree, encode_scott_adts returns a tree that is within the limits again: it gives no
  -- node more ports, fields or variants than there may be, panics at no vector of children and does not
  -- reach the branch that is marked unreachable.
  pub encode_scott_adts-WellFormed :
      (fuel : ℕ) (t : Tree)
      → WellFormed s IsFloat t
      → size t ≤ fuel
      → (u : Tree) × (encode_scott_adts fuel t ≡ some u) × WellFormed s IsFloat u
  unfolding encode_scott_adts
  encode_scott_adts-WellFormed zero t w l = absurd (omega (arith, size_pos t))
  encode_scott_adts-WellFormed (suc fuel) t w l =
      at (node_first-Sound s IsFloat w) (λ u h v. encode_scott_adts-WellFormed fuel u v h)
    where
      at :
          {o : Option Tree}
          → Sound s IsFloat (size t) o
          → ((u : Tree) → size u ≤ fuel → WellFormed s IsFloat u → Gives (encode_scott_adts fuel u))
          → Gives (then_some o (in_children (encode_scott_adts fuel)))
      at (Sound.sound u k v) h = in_children-Gives (encode_scott_adts fuel) fuel h u (omega arith) v
