-- ===== src/Transform/EtaReduce/Aligned.antt =====
-- The second walk of the eta reduction reads the nodes that the first has listed, each at its index
-- (src/transform/eta_reduce.rs).
use hvm.Prelude.{
  ℕ, zero, suc, ◌+◌, ◌≤◌, ◌<◌, ◌%◌, ◌^◌, ◌≡◌, refl, Bool, true, false, Option, none, some, List, [],
  ◌∷◌, if◌then◌else◌, length, get_elem?, arith,
}
use mathlib.Core.Path.{subst, sym}
use hvm.Ast.{Tree, Trees, Net, trees, both_sides}
use hvm.Transform.EtaReduce.{
  NodeType, Phase1, walk_trees, Outcome, done, no_node, no_partner, and_then, node_at, is_ctr_at,
  reducible, close, reduce_tree, reduce_ctr, reduce_children, reduce_redexes, reduce_net,
  eta_reduce, pop, same,
}
use hvm.Transform.EtaReduce.Sizes.{
  size, ports_size, children_size, trees_size, redexes_size, net_size, walk_trees-size,
}

-- No node is missing, and what is done has the property.
module _ {A : Type 0} where
  abbrev pub Reads : (A → Type 0) → Outcome A → Type 0
  Reads P (done a) = P a
  Reads P no_node = ⊥
  Reads P no_partner = Unit

module _ {A B : Type 0} where
  Reads-bind :
      (P : A → Type 0) (Q : B → Type 0) (o : Outcome A) (k : A → Outcome B)
      → Reads P o
      → ((a : A) → P a → Reads Q (k a))
      → Reads Q (and_then o k)
  Reads-bind P Q (done a) k h next = next a h
  Reads-bind P Q no_node k h next = h
  Reads-bind P Q no_partner k h next = tt

get_elem-in :
    (ns : List NodeType) (i : ℕ) → i < length ns → (n : NodeType) × (get_elem? ns i ≡ some n)
get_elem-in [] i h = absurd (omega (arith, h))
get_elem-in (n ∷ ns) zero h = (n, refl)
get_elem-in (n ∷ ns) (suc i) h = get_elem-in ns i (omega (arith, h))

module _ (float_eq : ℕ → ℕ → Bool) (nodes : List NodeType) where
  -- A node is read at an index before the end.
  node_at-Reads :
      {A : Type 0} (P : A → Type 0) (i : ℕ) (k : NodeType → Outcome A)
      → i < length nodes
      → ((n : NodeType) → Reads P (k n))
      → Reads P (and_then (node_at nodes i) k)
  node_at-Reads P i k h next =
      let (n, e) = get_elem-in nodes i h in
      subst
        (λ o.
          Reads P
            (and_then (elim o as (λ o. Outcome NodeType) [ none ↦ no_node | some n ↦ done n ]) k))
        (sym e) (next n)

  -- The walk over a part of the net ends at the index.
  abbrev pub Ends : {A B : Type 0} → ℕ → Outcome (A × B × ℕ) → Type 0
  Ends k o = Reads (λ (_, _, j). j ≡ k) o

  abbrev pub EndsAt : {A : Type 0} → ℕ → Outcome (A × ℕ) → Type 0
  EndsAt k o = Reads (λ (_, j). j ≡ k) o

  reducible-Reads :
      (lab head : ℕ) (a : NodeType) → Reads (λ r. Unit {0}) (reducible float_eq nodes lab head a)
  reducible-Reads lab head (NodeType.var delta) = at (get_elem? nodes ((head + delta) % 2 ^ 64))
    where
      at : (o : Option NodeType) → Reads (λ r. Unit {0}) (is_ctr_at float_eq nodes lab o)
      at none = tt
      at (some n) = tt
  reducible-Reads lab head (NodeType.ctr l) = tt
  reducible-Reads lab head (NodeType.int bits) = tt
  reducible-Reads lab head (NodeType.f32 bits) = tt
  reducible-Reads lab head NodeType.era = tt
  reducible-Reads lab head NodeType.other = tt
  reducible-Reads lab head NodeType.hole = tt

  close-Ends :
      (lab head : ℕ) (a b : NodeType) (ports : Trees) (k : ℕ)
      → Ends k (close float_eq nodes lab head a b ports k)
  close-Ends lab head a b ports k =
      Reads-bind _ _ (if same float_eq a b then reducible float_eq nodes lab head a else done false)
        _ (tested (same float_eq a b)) (λ r _. ends r)
    where
      tested :
          (c : Bool)
          → Reads (λ r. Unit {0}) (if c then reducible float_eq nodes lab head a else done false)
      tested true = reducible-Reads lab head a
      tested false = tt

      ends :
          (r : Bool) → Ends k (done (if r then (a, pop ports, k) else (NodeType.ctr lab, ports, k)))
      ends true = refl
      ends false = refl

  mutual
    unfolding reduce_tree reduce_ctr reduce_children size ports_size children_size

    pub reduce_tree-Ends :
        (t : Tree) (i : ℕ)
        → i + size t ≤ length nodes
        → Ends (i + size t) (reduce_tree float_eq nodes t i)
    reduce_tree-Ends (Tree.ctr lab ports) i h =
        Reads-bind _ _ (reduce_ctr float_eq nodes lab ports i) _ (reduce_ctr-Ends lab ports i h)
          (λ _ e. e)
    reduce_tree-Ends (Tree.op o rhs out) i h =
        Reads-bind _ _ (reduce_tree float_eq nodes rhs (i + 1)) _
          (reduce_tree-Ends rhs (i + 1) (omega (arith, h)))
          (λ (_, _, j) e.
            Reads-bind _ _ (reduce_tree float_eq nodes out j) _
              (reduce_tree-Ends out j (omega (arith, h, e)))
              (λ (_, _, k) f. node_at-Reads _ i _ (omega (arith, h)) (λ n. omega (arith, e, f))))
    reduce_tree-Ends (Tree.mat z s out) i h =
        Reads-bind _ _ (reduce_tree float_eq nodes z (i + 1)) _
          (reduce_tree-Ends z (i + 1) (omega (arith, h)))
          (λ (_, _, j) e.
            Reads-bind _ _ (reduce_tree float_eq nodes s j) _
              (reduce_tree-Ends s j (omega (arith, h, e)))
              (λ (_, _, k) f.
                Reads-bind _ _ (reduce_tree float_eq nodes out k) _
                  (reduce_tree-Ends out k (omega (arith, h, e, f)))
                  (λ (_, _, l) g.
                    node_at-Reads _ i _ (omega (arith, h)) (λ n. omega (arith, e, f, g)))))
    reduce_tree-Ends (Tree.adt lab v n fields) i h =
        Reads-bind _ _ (reduce_children float_eq nodes fields (i + 1)) _
          (reduce_children-Ends fields (i + 1) (omega (arith, h)))
          (λ (_, j) e. node_at-Reads _ i _ (omega (arith, h)) (λ n. omega (arith, e)))
    reduce_tree-Ends Tree.era i h = node_at-Reads _ i _ (omega (arith, h)) (λ n. refl)
    reduce_tree-Ends (Tree.int bits) i h = node_at-Reads _ i _ (omega (arith, h)) (λ n. refl)
    reduce_tree-Ends (Tree.f32 bits) i h = node_at-Reads _ i _ (omega (arith, h)) (λ n. refl)
    reduce_tree-Ends (Tree.ref nam) i h = node_at-Reads _ i _ (omega (arith, h)) (λ n. refl)
    reduce_tree-Ends (Tree.var nam) i h = node_at-Reads _ i _ (omega (arith, h)) (λ n. refl)

    reduce_ctr-Ends :
        (lab : ℕ) (ts : Trees) (i : ℕ)
        → i + ports_size ts ≤ length nodes
        → Ends (i + ports_size ts) (reduce_ctr float_eq nodes lab ts i)
    reduce_ctr-Ends lab Trees.end i h = omega arith
    reduce_ctr-Ends lab (Trees.and t Trees.end) i h =
        Reads-bind _ _ (reduce_tree float_eq nodes t i) _ (reduce_tree-Ends t i h) (λ _ e. e)
    reduce_ctr-Ends lab (Trees.and t (Trees.and u us)) i h =
        Reads-bind _ _ (reduce_tree float_eq nodes t (i + 1)) _
          (reduce_tree-Ends t (i + 1) (omega (arith, h)))
          (λ (a, t', j) e.
            Reads-bind _ _ (reduce_ctr float_eq nodes lab (Trees.and u us) j) _
              (reduce_ctr-Ends lab (Trees.and u us) j (omega (arith, h, e)))
              (λ (b, rest, k) f.
                let same_end : k ≡ i + (1 + size t + ports_size (Trees.and u us)) =
                  omega (arith, e, f) in
                subst (λ x. Ends x (close float_eq nodes lab i a b (Trees.and t' rest) k)) same_end
                  (close-Ends lab i a b (Trees.and t' rest) k)))

    reduce_children-Ends :
        (ts : Trees) (i : ℕ)
        → i + children_size ts ≤ length nodes
        → EndsAt (i + children_size ts) (reduce_children float_eq nodes ts i)
    reduce_children-Ends Trees.end i h = omega arith
    reduce_children-Ends (Trees.and t ts) i h =
        Reads-bind _ _ (reduce_tree float_eq nodes t i) _ (reduce_tree-Ends t i (omega (arith, h)))
          (λ (_, _, j) e.
            Reads-bind _ _ (reduce_children float_eq nodes ts j) _
              (reduce_children-Ends ts j (omega (arith, h, e))) (λ (_, k) f. omega (arith, e, f)))

  reduce_redexes-Ends :
      (rs : List (Tree × Tree)) (i : ℕ)
      → i + redexes_size rs ≤ length nodes
      → EndsAt (i + redexes_size rs) (reduce_redexes float_eq nodes rs i)
  unfolding reduce_redexes redexes_size
  reduce_redexes-Ends [] i h = omega arith
  reduce_redexes-Ends ((a, b) ∷ rest) i h =
      Reads-bind _ _ (reduce_tree float_eq nodes a i) _ (reduce_tree-Ends a i (omega (arith, h)))
        (λ (_, _, j) e.
          Reads-bind _ _ (reduce_tree float_eq nodes b j) _
            (reduce_tree-Ends b j (omega (arith, h, e)))
            (λ (_, _, k) f.
              Reads-bind _ _ (reduce_redexes float_eq nodes rest k) _
                (reduce_redexes-Ends rest k (omega (arith, h, e, f)))
                (λ (_, l) g. omega (arith, e, f, g))))

  pub reduce_net-Ends :
      (net : Net)
      → net_size net ≤ length nodes
      → EndsAt (net_size net) (reduce_net float_eq nodes net)
  unfolding reduce_net net_size
  reduce_net-Ends net h =
      Reads-bind _ _ (reduce_tree float_eq nodes net.root 0) _
        (reduce_tree-Ends net.root 0 (omega (arith, h)))
        (λ (_, _, j) e.
          Reads-bind _ _ (reduce_redexes float_eq nodes net.redexes j) _
            (reduce_redexes-Ends net.redexes j (omega (arith, h, e)))
            (λ (_, k) f. omega (arith, e, f)))

both_sides-size : (rs : List (Tree × Tree)) → trees_size (both_sides rs) ≡ redexes_size rs
unfolding both_sides trees_size redexes_size
both_sides-size [] = refl
both_sides-size ((a, b) ∷ rest) = omega (arith, both_sides-size rest)

trees-size : (net : Net) → trees_size (trees net) ≡ net_size net
unfolding trees trees_size net_size
trees-size net = omega (arith, both_sides-size net.redexes)

-- The first walk over a net lists as many nodes as the net has. The second walk reads none that is not
-- in that list, so that eta_reduce can fail only at the node that an offset leads to, and if it
-- returns, it has read exactly to the end of the list.
pub eta_reduce-Reads :
    (float_eq : ℕ → ℕ → Bool) (net : Net)
    → (length ((walk_trees (trees net) (record { vars = []; nodes = [] })).nodes) ≡ net_size net)
      × Reads (λ (_, j). j ≡ net_size net) (eta_reduce float_eq net)
unfolding eta_reduce
eta_reduce-Reads float_eq net =
    let start : Phase1 = record { vars = []; nodes = [] } in
    let count : length ((walk_trees (trees net) start).nodes) ≡ net_size net =
      omega (arith, walk_trees-size (trees net) start, trees-size net) in
    (
      count,
      reduce_net-Ends float_eq ((walk_trees (trees net) start).nodes) net (omega (arith, count)),
    )
