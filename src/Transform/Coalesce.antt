-- ===== src/Transform/Coalesce.antt =====
-- `coalesce_constructors` (src/transform/coalesce_ctrs.rs): chains of constructor nodes with one label
-- become one node.
pub mod Meaning
pub mod Tests
use hvm.Prelude.{ℕ, zero, suc, ◌+◌, Bool, true, false, ◌&&◌, ◌==◌, ltb, if◌then◌else◌}
use hvm.Ast.{Tree, Trees, count, max_arity}

-- What stands in the place of the last port, after `before` others: its own ports or itself.
unfoldable pub rejoin : (lab before : ℕ) → Tree → Trees
rejoin lab before (Tree.ctr inner_lab inner_ports) =
    if inner_lab == lab && ltb (before + count inner_ports) max_arity
    then inner_ports
    else Trees.and (Tree.ctr inner_lab inner_ports) Trees.end
rejoin lab before other = Trees.and other Trees.end

-- The last port is popped and its replacement appended.
unfoldable pub merge : (lab before : ℕ) → Trees → Trees
merge lab before Trees.end = Trees.end
merge lab before (Trees.and t Trees.end) = rejoin lab before t
merge lab before (Trees.and t (Trees.and u us)) =
    Trees.and t (merge lab (before + 1) (Trees.and u us))

unfoldable mutual
  pub coalesce : Tree → Tree
  coalesce (Tree.ctr lab ports) = Tree.ctr lab (merge lab 0 (coalesce_all ports))
  coalesce (Tree.op o rhs out) = Tree.op o (coalesce rhs) (coalesce out)
  coalesce (Tree.mat z s out) = Tree.mat (coalesce z) (coalesce s) (coalesce out)
  coalesce (Tree.adt lab i n fields) = Tree.adt lab i n (coalesce_all fields)
  coalesce Tree.era = Tree.era
  coalesce (Tree.int b) = Tree.int b
  coalesce (Tree.f32 b) = Tree.f32 b
  coalesce (Tree.ref nam) = Tree.ref nam
  coalesce (Tree.var nam) = Tree.var nam

  pub coalesce_all : Trees → Trees
  coalesce_all Trees.end = Trees.end
  coalesce_all (Trees.and t ts) = Trees.and (coalesce t) (coalesce_all ts)
