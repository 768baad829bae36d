-- ===== src/Transform/EtaReduce/Partner.antt =====
-- An offset that leads before the first node (src/transform/eta_reduce.rs).
use hvm.Prelude.{ℕ, ◌-◌, ◌≡◌, ◌≢◌, refl, Bool, true, false, [], ◌∷◌, ◌^◌}
use hvm.Ast.{Name, Tree, Trees, Net, trees, both_sides}
use hvm.Transform.Inline.{name_eq}
use hvm.Host.{insert}
use hvm.Host.Maps.{name_eq_refl}
use hvm.Host.Valid.{name_eq-other}
use hvm.Transform.EtaReduce.{
  NodeType, walk_trees, walk_tree, walk_ports, walk_var, no_partner, reduce_tree, reduce_ctr,
  reduce_redexes, reduce_net, eta_reduce,
}

-- x & y ~ t & u ~ {lab x y}
abbrev pub twisted : (lab : ℕ) (x y : Name) → Net
twisted lab x y = record {
  root = Tree.var x;
  redexes =
      (Tree.var y, Tree.ctr lab (Trees.and (Tree.var x) (Trees.and (Tree.var y) Trees.end))) ∷ [];
}

nodes-twisted :
    (lab : ℕ) (x y : Name)
    → x ≢ y
    → (walk_trees (trees (twisted lab x y)) (record { vars = []; nodes = [] })).nodes
      ≡ NodeType.var 3
        ∷ NodeType.var 3
        ∷ NodeType.ctr lab
        ∷ NodeType.var (2 ^ 64 - 3)
        ∷ NodeType.var (2 ^ 64 - 3)
        ∷ []
unfolding walk_trees walk_tree walk_ports walk_var trees both_sides
nodes-twisted lab x y ne =
    let a : name_eq x y ≡ false = name_eq-other x y ne in
    let b : name_eq x x ≡ true = name_eq_refl x in
    let c : name_eq y y ≡ true = name_eq_refl y in
    rw (a, walk_var, insert) (rw a (rw b (rw a (rw c refl))))

-- For two names and any label, eta_reduce of the net with the root x and the one active pair of y and
-- {lab x y} panics: the constructor's ports have the same offset, which leads from the constructor to
-- before the first node.
pub eta_reduce-twisted :
    (float_eq : ℕ → ℕ → Bool) (lab : ℕ) (x y : Name)
    → x ≢ y
    → eta_reduce float_eq (twisted lab x y) ≡ no_partner
unfolding eta_reduce reduce_net reduce_redexes reduce_tree reduce_ctr
eta_reduce-twisted float_eq lab x y ne = rw (nodes-twisted lab x y ne, eta_reduce) refl
