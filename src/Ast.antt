-- ===== src/Ast.antt =====
-- The syntax of nets (src/ast.rs): trees, nets of trees that are connected by their roots, and books of
-- named nets. A name is the list of its characters' codes, an integer or a float is its bits.
pub mod Number
pub mod Result
pub mod Parser
pub mod Books
pub mod Printer
pub mod Scanner
pub mod Limits
mod Tests
pub mod Example
pub mod RoundTrip
use hvm.Prelude.{ℕ, zero, suc, Option, none, some, List, [], ◌∷◌, leb, if◌then◌else◌}
use hvm.Ops.Kinds.{TypedOp}

abbrev pub Name : Type 0
Name = List ℕ

mutual
  pub data Tree : Type 0 where
    era : Tree
    int : (bits : ℕ) → Tree
    f32 : (bits : ℕ) → Tree
    ref : Name → Tree
    ctr : (lab : ℕ) → Trees → Tree
    op : TypedOp → (rhs out : Tree) → Tree
    mat : (zero succ out : Tree) → Tree
    adt : (lab variant_index variant_count : ℕ) → (fields : Trees) → Tree
    var : Name → Tree

  pub data Trees : Type 0 where
    end : Trees
    and : Tree → Trees → Trees

abbrev pub max_arity : ℕ
max_arity = 8

pub record Net : Type 0 where
  pub root : Tree
  pub redexes : List (Tree × Tree)

-- The nets by their names, in the order of the map.
pub record Book : Type 0 where
  pub nets : List (Name × Net)

abbrev pub count : Trees → ℕ
count Trees.end = 0
count (Trees.and t ts) = suc (count ts)

abbrev pub children : Tree → Trees
children (Tree.ctr lab ports) = ports
children (Tree.op o rhs out) = Trees.and rhs (Trees.and out Trees.end)
children (Tree.mat z s out) = Trees.and z (Trees.and s (Trees.and out Trees.end))
children (Tree.adt lab i n fields) = fields
children _ = Trees.end

unfoldable pub both_sides : List (Tree × Tree) → List Tree
both_sides [] = []
both_sides ((x, y) ∷ rs) = x ∷ y ∷ both_sides rs

-- `Net::trees`
unfoldable pub trees : Net → List Tree
unfolding both_sides
trees net = net.root ∷ both_sides net.redexes

-- `Tree::lab`
unfoldable pub lab_of : Tree → Option ℕ
lab_of (Tree.ctr lab ports) = if leb 2 (count ports) then some lab else none
lab_of (Tree.adt lab i n fields) = some lab
lab_of _ = none

-- `Tree::legacy_mat`
unfoldable pub legacy_mat : (arms out : Tree) → Option Tree
legacy_mat (Tree.ctr zero (Trees.and z (Trees.and s Trees.end))) out = some (Tree.mat z s out)
legacy_mat _ out = none
