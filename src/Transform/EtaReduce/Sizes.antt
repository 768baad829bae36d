-- ===== src/Transform/EtaReduce/Sizes.antt =====
-- How many nodes the first walk of the eta reduction lists (src/transform/eta_reduce.rs).
use hvm.Prelude.{
  ℕ, zero, suc, ◌+◌, ◌≡◌, refl, Option, none, some, List, [], ◌∷◌, ◌++◌, length, arith, ◌∙◌,
  length-append,
}
use hvm.Ast.{Name, Tree, Trees, Net}
use hvm.Transform.Inline.{name_eq}
use hvm.Host.{get}
use hvm.Transform.EtaReduce.{
  NodeType, Phase1, set_node, push, walk_seen, walk_var, walk_tree, walk_ports, walk_children,
  walk_trees,
}

-- How many nodes there are in a tree.
unfoldable mutual
  pub size : Tree → ℕ
  size (Tree.ctr lab ports) = ports_size ports
  size (Tree.op o rhs out) = 1 + size rhs + size out
  size (Tree.mat z s out) = 1 + size z + size s + size out
  size (Tree.adt lab i n fields) = 1 + children_size fields
  size Tree.era = 1
  size (Tree.int bits) = 1
  size (Tree.f32 bits) = 1
  size (Tree.ref nam) = 1
  size (Tree.var nam) = 1

  pub ports_size : Trees → ℕ
  ports_size Trees.end = 0
  ports_size (Trees.and t Trees.end) = size t
  ports_size (Trees.and t (Trees.and u us)) = 1 + size t + ports_size (Trees.and u us)

  pub children_size : Trees → ℕ
  children_size Trees.end = 0
  children_size (Trees.and t ts) = size t + children_size ts

unfoldable pub trees_size : List Tree → ℕ
trees_size [] = 0
trees_size (t ∷ ts) = size t + trees_size ts

unfoldable pub redexes_size : List (Tree × Tree) → ℕ
redexes_size [] = 0
redexes_size ((a, b) ∷ rest) = size a + size b + redexes_size rest

unfoldable pub net_size : Net → ℕ
net_size net = size net.root + redexes_size net.redexes

set_node-length : (ns : List NodeType) (i : ℕ) (n : NodeType) → length (set_node ns i n) ≡ length ns
set_node-length [] i n = refl
set_node-length (m ∷ ms) zero n = omega arith
set_node-length (m ∷ ms) (suc i) n = omega (arith, set_node-length ms i n)

push-length : (n : NodeType) (s : Phase1) → length ((push n s).nodes) ≡ length s.nodes + 1
push-length n s = length-append s.nodes (n ∷ [])

walk_seen-length :
    (nam : Name) (o : Option ℕ) (s : Phase1)
    → length ((walk_seen nam o s).nodes) ≡ length s.nodes + 1
walk_seen-length nam none s = length-append s.nodes (NodeType.hole ∷ [])
walk_seen-length nam (some i) s =
    set_node-length (s.nodes ++ _ ∷ []) i _ ∙ length-append s.nodes (_ ∷ [])

mutual
  unfolding walk_tree walk_ports walk_children walk_var size ports_size children_size

  walk_tree-size :
      (t : Tree) (s : Phase1) → length ((walk_tree t s).nodes) ≡ length s.nodes + size t
  walk_tree-size (Tree.ctr lab ports) s = walk_ports-size lab ports s
  walk_tree-size (Tree.var nam) s = walk_seen-length nam (get name_eq s.vars nam) s
  walk_tree-size Tree.era s = push-length NodeType.era s
  walk_tree-size (Tree.int bits) s = push-length (NodeType.int bits) s
  walk_tree-size (Tree.f32 bits) s = push-length (NodeType.f32 bits) s
  walk_tree-size (Tree.ref nam) s = push-length NodeType.other s
  walk_tree-size (Tree.op o rhs out) s = omega (
    arith,
    push-length NodeType.other s,
    walk_tree-size rhs (push NodeType.other s),
    walk_tree-size out (walk_tree rhs (push NodeType.other s)),
  )
  walk_tree-size (Tree.mat z u out) s = omega (
    arith,
    push-length NodeType.other s,
    walk_tree-size z (push NodeType.other s),
    walk_tree-size u (walk_tree z (push NodeType.other s)),
    walk_tree-size out (walk_tree u (walk_tree z (push NodeType.other s))),
  )
  walk_tree-size (Tree.adt lab i n fields) s =
      omega (arith, push-length NodeType.other s, walk_children-size fields (push NodeType.other s))

  walk_ports-size :
      (lab : ℕ) (ts : Trees) (s : Phase1)
      → length ((walk_ports lab ts s).nodes) ≡ length s.nodes + ports_size ts
  walk_ports-size lab Trees.end s = omega arith
  walk_ports-size lab (Trees.and t Trees.end) s = walk_tree-size t s
  walk_ports-size lab (Trees.and t (Trees.and u us)) s = omega (
    arith,
    push-length (NodeType.ctr lab) s,
    walk_tree-size t (push (NodeType.ctr lab) s),
    walk_ports-size lab (Trees.and u us) (walk_tree t (push (NodeType.ctr lab) s)),
  )

  walk_children-size :
      (ts : Trees) (s : Phase1)
      → length ((walk_children ts s).nodes) ≡ length s.nodes + children_size ts
  walk_children-size Trees.end s = omega arith
  walk_children-size (Trees.and t ts) s =
      omega (arith, walk_tree-size t s, walk_children-size ts (walk_tree t s))

pub walk_trees-size :
    (ts : List Tree) (s : Phase1)
    → length ((walk_trees ts s).nodes) ≡ length s.nodes + trees_size ts
unfolding walk_trees trees_size
walk_trees-size [] s = omega arith
walk_trees-size (t ∷ ts) s = omega (arith, walk_tree-size t s, walk_trees-size ts (walk_tree t s))
