-- ===== src/Transform/EtaReduce/Tests.antt =====
-- A net that is reduced, and the net that is not.
use hvm.Prelude.{◌≡◌, ◌≢◌, refl, [], ◌∷◌, ◌==◌, length, arith}
use hvm.Ast.{Name, Tree, Trees, Net, trees}
use hvm.Transform.EtaReduce.{
  walk_trees, walk_tree, walk_ports, walk_var, eta_reduce, done, no_partner, reduce_net,
  reduce_tree, reduce_ctr, reduce_redexes,
}
use hvm.Transform.EtaReduce.Sizes.{net_size}
use hvm.Transform.EtaReduce.Aligned.{Reads, eta_reduce-Reads}
use hvm.Transform.EtaReduce.Partner.{twisted, eta_reduce-twisted}

abbrev x : Name
x = 120 ∷ []

abbrev y : Name
y = 121 ∷ []

abbrev pair : Tree
pair = Tree.ctr 1 (Trees.and (Tree.var x) (Trees.and (Tree.var y) Trees.end))

-- ({1 x y} {1 x y})
abbrev net : Net
net = record { root = Tree.ctr 0 (Trees.and pair (Trees.and pair Trees.end)); redexes = [] }

reduced :
    eta_reduce ◌==◌ net
    ≡ done (
      record {
        root = Tree.ctr 0 (Trees.and (Tree.var x) (Trees.and (Tree.var x) Trees.end));
        redexes = [];
      },
      7,
    )
unfolding eta_reduce reduce_net reduce_tree reduce_ctr reduce_redexes walk_trees walk_tree
    walk_ports walk_var trees
reduced = refl

eta_reduce-Reads_example :
    (length ((walk_trees (trees net) (record { vars = []; nodes = [] })).nodes) ≡ net_size net)
    × Reads (λ (_, j). j ≡ net_size net) (eta_reduce ◌==◌ net)
eta_reduce-Reads_example = eta_reduce-Reads ◌==◌ net

x-other : x ≢ y
x-other e = absurd (ground arith)

eta_reduce-twisted_example : eta_reduce ◌==◌ (twisted 1 x y) ≡ no_partner
eta_reduce-twisted_example = eta_reduce-twisted ◌==◌ 1 x y x-other
