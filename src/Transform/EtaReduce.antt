-- ===== src/Transform/EtaReduce.antt =====
-- Eta reduction of a net (src/transform/eta_reduce.rs): a first walk that lists the nodes, a second that
-- takes constructors away. An offset is a word of 64 bits, and lists are shorter than 2 ^ 64. The
-- equality of floats is a parameter.
pub mod Sizes
pub mod Aligned
pub mod Partner
pub mod Tests
use hvm.Prelude.{
  ℕ, zero, suc, ◌+◌, ◌-◌, ◌%◌, ◌^◌, ◌==◌, Bool, true, false, Option, none, some, List, [], ◌∷◌,
  ◌++◌, if◌then◌else◌, length, get_elem?,
}
use hvm.Ast.{Name, Tree, Trees, Net, trees}
use hvm.Transform.Inline.{name_eq}
use hvm.Host.{get, insert}

pub data NodeType : Type 0 where
  ctr : (lab : ℕ) → NodeType
  var : (delta : ℕ) → NodeType
  int : (bits : ℕ) → NodeType
  f32 : (bits : ℕ) → NodeType
  era other hole : NodeType

pub record Phase1 : Type 0 where
  pub vars : List (Name × ℕ)
  pub nodes : List NodeType

-- `nodes[i] = n`
abbrev pub set_node : List NodeType → ℕ → NodeType → List NodeType
set_node [] i n = []
set_node (m ∷ ms) zero n = n ∷ ms
set_node (m ∷ ms) (suc i) n = m ∷ set_node ms i n

-- `a - b` of two sizes, as an offset
abbrev pub offset : (a b : ℕ) → ℕ
offset a b = (a + 2 ^ 64 - b) % 2 ^ 64

abbrev pub push : NodeType → Phase1 → Phase1
push n s = record s { nodes = s.nodes ++ n ∷ [] }

abbrev pub walk_seen : Name → Option ℕ → Phase1 → Phase1
walk_seen nam (some i) s =
    let j = length s.nodes in
    record s {
      nodes = set_node (s.nodes ++ NodeType.var (offset i j) ∷ []) i (NodeType.var (offset j i));
    }
walk_seen nam none s = record {
  vars = insert name_eq s.vars nam (length s.nodes);
  nodes = s.nodes ++ NodeType.hole ∷ [];
}

unfoldable pub walk_var : Name → Phase1 → Phase1
walk_var nam s = walk_seen nam (get name_eq s.vars nam) s

unfoldable mutual
  pub walk_tree : Tree → Phase1 → Phase1
  walk_tree (Tree.ctr lab ports) s = walk_ports lab ports s
  walk_tree (Tree.var nam) s = walk_var nam s
  walk_tree Tree.era s = push NodeType.era s
  walk_tree (Tree.int bits) s = push (NodeType.int bits) s
  walk_tree (Tree.f32 bits) s = push (NodeType.f32 bits) s
  walk_tree (Tree.ref nam) s = push NodeType.other s
  walk_tree (Tree.op o rhs out) s = walk_tree out (walk_tree rhs (push NodeType.other s))
  walk_tree (Tree.mat z u out) s = walk_tree out (walk_tree u (walk_tree z (push NodeType.other s)))
  walk_tree (Tree.adt lab i n fields) s = walk_children fields (push NodeType.other s)

  pub walk_ports : (lab : ℕ) → Trees → Phase1 → Phase1
  walk_ports lab Trees.end s = s
  walk_ports lab (Trees.and t Trees.end) s = walk_tree t s
  walk_ports lab (Trees.and t (Trees.and u us)) s =
      walk_ports lab (Trees.and u us) (walk_tree t (push (NodeType.ctr lab) s))

  pub walk_children : Trees → Phase1 → Phase1
  walk_children Trees.end s = s
  walk_children (Trees.and t ts) s = walk_children ts (walk_tree t s)

unfoldable pub walk_trees : List Tree → Phase1 → Phase1
walk_trees [] s = s
walk_trees (t ∷ ts) s = walk_trees ts (walk_tree t s)

-- `no_node`: `nodes[index]` is out of range. `no_partner`: the node at an offset is.
pub data Outcome (A : Type 0) : Type 0 where
  done : A → Outcome A
  no_node no_partner : Outcome A

module _ {A B : Type 0} where
  abbrev pub and_then : Outcome A → (A → Outcome B) → Outcome B
  and_then (done a) k = k a
  and_then no_node k = no_node
  and_then no_partner k = no_partner

-- `ports.pop()`
abbrev pub pop : Trees → Trees
pop Trees.end = Trees.end
pop (Trees.and t Trees.end) = Trees.end
pop (Trees.and t (Trees.and u us)) = Trees.and t (pop (Trees.and u us))

-- A constructor with one port is that port.
abbrev pub collapse : ℕ → Trees → Tree
collapse lab (Trees.and t Trees.end) = t
collapse lab ports = Tree.ctr lab ports

abbrev pub node_at : List NodeType → ℕ → Outcome NodeType
node_at nodes i = elim (get_elem? nodes i) [ none ↦ no_node | some n ↦ done n ]

module _ (float_eq : ℕ → ℕ → Bool) where
  -- `PartialEq for NodeType`
  abbrev pub same : NodeType → NodeType → Bool
  same (NodeType.ctr a) (NodeType.ctr b) = a == b
  same (NodeType.var a) (NodeType.var b) = a == b
  same (NodeType.int a) (NodeType.int b) = a == b
  same (NodeType.f32 a) (NodeType.f32 b) = float_eq a b
  same NodeType.era NodeType.era = true
  same NodeType.other NodeType.other = true
  same NodeType.hole NodeType.hole = true
  same _ _ = false

  module _ (nodes : List NodeType) where
    abbrev pub is_ctr_at : (lab : ℕ) → Option NodeType → Outcome Bool
    is_ctr_at lab none = no_partner
    is_ctr_at lab (some n) = done (same n (NodeType.ctr lab))

    abbrev pub reducible : (lab head_index : ℕ) → NodeType → Outcome Bool
    reducible lab head (NodeType.var delta) =
        is_ctr_at lab (get_elem? nodes ((head + delta) % 2 ^ 64))
    reducible lab head NodeType.era = done true
    reducible lab head (NodeType.int bits) = done true
    reducible lab head (NodeType.f32 bits) = done true
    reducible lab head _ = done false

    -- The end of `reduce_ctr`, with the types of the first port and of the other ports.
    abbrev pub close :
        (lab head_index : ℕ) → NodeType → NodeType → Trees → ℕ → Outcome (NodeType × Trees × ℕ)
    close lab head a b ports index =
        and_then (if same a b then reducible lab head a else done false)
          (λ r. done (if r then (a, pop ports, index) else (NodeType.ctr lab, ports, index)))

    unfoldable mutual
      pub reduce_tree : Tree → (index : ℕ) → Outcome (NodeType × Tree × ℕ)
      reduce_tree (Tree.ctr lab ports) i =
          and_then (reduce_ctr lab ports i) (λ (ty, ps, j). done (ty, collapse lab ps, j))
      reduce_tree (Tree.op o rhs out) i = and_then (reduce_tree rhs (i + 1)) (λ (_, r, j).
          and_then (reduce_tree out j)
            (λ (_, u, k). and_then (node_at nodes i) (λ n. done (n, Tree.op o r u, k))))
      reduce_tree (Tree.mat z s out) i = and_then (reduce_tree z (i + 1)) (λ (_, a, j).
          and_then (reduce_tree s j) (λ (_, b, k).
            and_then (reduce_tree out k)
              (λ (_, c, l). and_then (node_at nodes i) (λ n. done (n, Tree.mat a b c, l)))))
      reduce_tree (Tree.adt lab v n fields) i =
          and_then (reduce_children fields (i + 1))
            (λ (fs, j). and_then (node_at nodes i) (λ ty. done (ty, Tree.adt lab v n fs, j)))
      reduce_tree Tree.era i = and_then (node_at nodes i) (λ n. done (n, Tree.era, i + 1))
      reduce_tree (Tree.int bits) i =
          and_then (node_at nodes i) (λ n. done (n, Tree.int bits, i + 1))
      reduce_tree (Tree.f32 bits) i =
          and_then (node_at nodes i) (λ n. done (n, Tree.f32 bits, i + 1))
      reduce_tree (Tree.ref nam) i = and_then (node_at nodes i) (λ n. done (n, Tree.ref nam, i + 1))
      reduce_tree (Tree.var nam) i = and_then (node_at nodes i) (λ n. done (n, Tree.var nam, i + 1))

      -- The ports from the index `skip` on.
      pub reduce_ctr : (lab : ℕ) → Trees → (index : ℕ) → Outcome (NodeType × Trees × ℕ)
      reduce_ctr lab Trees.end i = done (NodeType.other, Trees.end, i)
      reduce_ctr lab (Trees.and t Trees.end) i =
          and_then (reduce_tree t i) (λ (ty, u, j). done (ty, Trees.and u Trees.end, j))
      reduce_ctr lab (Trees.and t (Trees.and u us)) i =
          and_then (reduce_tree t (i + 1)) (λ (a, t', j).
            and_then (reduce_ctr lab (Trees.and u us) j)
              (λ (b, rest, k). close lab i a b (Trees.and t' rest) k))

      pub reduce_children : Trees → (index : ℕ) → Outcome (Trees × ℕ)
      reduce_children Trees.end i = done (Trees.end, i)
      reduce_children (Trees.and t ts) i =
          and_then (reduce_tree t i)
            (λ (_, u, j). and_then (reduce_children ts j) (λ (us, k). done (Trees.and u us, k)))

    unfoldable pub reduce_redexes :
        List (Tree × Tree) → (index : ℕ) → Outcome (List (Tree × Tree) × ℕ)
    reduce_redexes [] i = done ([], i)
    reduce_redexes ((a, b) ∷ rest) i = and_then (reduce_tree a i) (λ (_, a', j).
        and_then (reduce_tree b j)
          (λ (_, b', k). and_then (reduce_redexes rest k) (λ (rs, l). done ((a', b') ∷ rs, l))))

    -- The second walk over a net, with the index that it ends at.
    unfoldable pub reduce_net : Net → Outcome (Net × ℕ)
    reduce_net net = and_then (reduce_tree net.root 0) (λ (_, t, j).
        and_then (reduce_redexes net.redexes j)
          (λ (rs, k). done (record { root = t; redexes = rs }, k)))

  -- `Net::eta_reduce`
  unfoldable pub eta_reduce : Net → Outcome (Net × ℕ)
  unfolding walk_trees
  eta_reduce net =
      let phase1 = walk_trees (trees net) (record { vars = []; nodes = [] }) in
      reduce_net phase1.nodes net
