-- ===== src/Util/ApplyTree.antt =====
-- Application of a net to a tree, with a fresh variable (src/util/apply_tree.rs).
pub mod Fresh
use hvm.Prelude.{
  ℕ, ◌+◌, Bool, true, false, Option, none, some, List, [], ◌∷◌, ◌++◌, leb, if◌then◌else◌,
}
use hvm.Ast.{Name, Tree, Trees, Net}
use hvm.Util.CreateVar.{create_var, var_to_num}

abbrev pub max : ℕ → ℕ → ℕ
max a b = if leb a b then b else a

-- The number after a variable's name has been seen.
unfoldable pub after_var : Name → (fresh : ℕ) → ℕ
after_var nam fresh = elim (var_to_num nam) [ none ↦ fresh | some n ↦ max fresh n ]

-- `Tree::ensure_no_conflicts`
unfoldable mutual
  pub ensure : Tree → (fresh : ℕ) → ℕ
  ensure (Tree.var nam) fresh = after_var nam fresh
  ensure (Tree.ctr lab ports) fresh = ensure_all ports fresh
  ensure (Tree.op o rhs out) fresh = ensure out (ensure rhs fresh)
  ensure (Tree.mat z s out) fresh = ensure out (ensure s (ensure z fresh))
  ensure (Tree.adt lab i n fields) fresh = ensure_all fields fresh
  ensure Tree.era fresh = fresh
  ensure (Tree.int b) fresh = fresh
  ensure (Tree.f32 b) fresh = fresh
  ensure (Tree.ref nam) fresh = fresh

  pub ensure_all : Trees → (fresh : ℕ) → ℕ
  ensure_all Trees.end fresh = fresh
  ensure_all (Trees.and t ts) fresh = ensure_all ts (ensure t fresh)

unfoldable pub ensure_redexes : List (Tree × Tree) → (fresh : ℕ) → ℕ
ensure_redexes [] fresh = fresh
ensure_redexes ((a, b) ∷ rs) fresh = ensure_redexes rs (ensure b (ensure a fresh))

-- `Net::ensure_no_conflicts`
unfoldable pub ensure_net : Net → (fresh : ℕ) → ℕ
ensure_net net fresh = ensure_redexes net.redexes (ensure net.root fresh)

-- The argument's node, on a net with the name of a fresh variable.
abbrev pub applied : Net → Tree → Name → Net
applied net arg nam = record {
  root = Tree.var nam;
  redexes =
      net.redexes
      ++ (net.root, Tree.ctr 0 (Trees.and arg (Trees.and (Tree.var nam) Trees.end))) ∷ [];
}

unfoldable pub fresh_of : Net → Tree → ℕ
fresh_of net arg = ensure arg (ensure_net net 0)

unfoldable pub apply_tree : Net → (arg : Tree) → Net
apply_tree net arg = applied net arg (create_var (fresh_of net arg + 1))
