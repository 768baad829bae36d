-- ===== src/Util/ApplyTree/Fresh.antt =====
-- The variable that `apply_tree` introduces is not one of the net or of the argument.
use hvm.Prelude.{ℕ, ◌+◌, ◌^◌, ◌≤◌, ◌<◌, ◌≡◌, ◌≢◌, refl, some, List, [], ◌∷◌, arith, ◌∙◌, ap}
use mathlib.Core.Path.{subst}
use hvm.Ast.{Name, Tree, Trees, Net}
use hvm.Util.CreateVar.{create_var, var_to_num}
use hvm.Util.CreateVar.Inverse.{var_to_num-create_var}
use hvm.Util.ApplyTree.{
  after_var, ensure, ensure_all, ensure_redexes, ensure_net, fresh_of, apply_tree, applied, max,
}

-- The name is not that of a variable in the tree.
unfoldable mutual
  pub Without : Name → Tree → Type 0
  Without x (Tree.var nam) = nam ≢ x
  Without x (Tree.ctr lab ports) = WithoutAll x ports
  Without x (Tree.op o rhs out) = Without x rhs × Without x out
  Without x (Tree.mat z s out) = Without x z × Without x s × Without x out
  Without x (Tree.adt lab i n fields) = WithoutAll x fields
  Without x Tree.era = Unit
  Without x (Tree.int b) = Unit
  Without x (Tree.f32 b) = Unit
  Without x (Tree.ref nam) = Unit

  pub WithoutAll : Name → Trees → Type 0
  WithoutAll x Trees.end = Unit
  WithoutAll x (Trees.and t ts) = Without x t × WithoutAll x ts

abbrev pub WithoutRedexes : Name → List (Tree × Tree) → Type 0
WithoutRedexes x [] = Unit
WithoutRedexes x ((a, b) ∷ rs) = Without x a × Without x b × WithoutRedexes x rs

-- One variable.
after_var-le : (nam : Name) (fresh : ℕ) → fresh ≤ after_var nam fresh
unfolding after_var
after_var-le nam fresh = ground arith

after_var-ne :
    (nam : Name) (fresh k : ℕ) → after_var nam fresh < k → k + 1 < 2 ^ 64 → nam ≢ create_var k
unfolding after_var
after_var-ne nam fresh k h fits e =
    let p : var_to_num nam ≡ some k = ap var_to_num e ∙ var_to_num-create_var k fits in
    let q : after_var nam fresh ≡ max fresh k = rw (p, after_var) refl in
    let r : max fresh k < k = subst (λ x. x < k) q h in ground arith

mutual
  unfolding ensure

  ensure-le : (t : Tree) (fresh : ℕ) → fresh ≤ ensure t fresh
  ensure-le (Tree.var nam) fresh = after_var-le nam fresh
  ensure-le (Tree.ctr lab ports) fresh = ensure_all-le ports fresh
  ensure-le (Tree.op o r u) fresh = omega (arith, ensure-le r fresh, ensure-le u (ensure r fresh))
  ensure-le (Tree.mat z s u) fresh = omega (
    arith,
    ensure-le z fresh,
    ensure-le s (ensure z fresh),
    ensure-le u (ensure s (ensure z fresh)),
  )
  ensure-le (Tree.adt l i n fs) fresh = ensure_all-le fs fresh
  ensure-le Tree.era fresh = omega arith
  ensure-le (Tree.int b) fresh = omega arith
  ensure-le (Tree.f32 b) fresh = omega arith
  ensure-le (Tree.ref nam) fresh = omega arith

  ensure_all-le : (ts : Trees) (fresh : ℕ) → fresh ≤ ensure_all ts fresh
  ensure_all-le Trees.end fresh = omega arith
  ensure_all-le (Trees.and t ts) fresh =
      omega (arith, ensure-le t fresh, ensure_all-le ts (ensure t fresh))

module _ (k : ℕ) (fits : k + 1 < 2 ^ 64) where
  mutual
    unfolding ensure Without

    ensure-Without : (t : Tree) (fresh : ℕ) → ensure t fresh < k → Without (create_var k) t
    ensure-Without (Tree.var nam) fresh h = after_var-ne nam fresh k h fits
    ensure-Without (Tree.ctr lab ports) fresh h = ensure_all-Without ports fresh h
    ensure-Without (Tree.op o r u) fresh h = (
      ensure-Without r fresh (omega (arith, ensure-le u (ensure r fresh))),
      ensure-Without u (ensure r fresh) h,
    )
    ensure-Without (Tree.mat z s u) fresh h =
        let b = ensure-le u (ensure s (ensure z fresh)) in
        (
          ensure-Without z fresh (omega (arith, b, ensure-le s (ensure z fresh))),
          ensure-Without s (ensure z fresh) (omega (arith, b)),
          ensure-Without u (ensure s (ensure z fresh)) h,
        )
    ensure-Without (Tree.adt l i n fs) fresh h = ensure_all-Without fs fresh h
    ensure-Without Tree.era fresh h = tt
    ensure-Without (Tree.int b) fresh h = tt
    ensure-Without (Tree.f32 b) fresh h = tt
    ensure-Without (Tree.ref nam) fresh h = tt

    ensure_all-Without :
        (ts : Trees) (fresh : ℕ) → ensure_all ts fresh < k → WithoutAll (create_var k) ts
    ensure_all-Without Trees.end fresh h = tt
    ensure_all-Without (Trees.and t ts) fresh h = (
      ensure-Without t fresh (omega (arith, ensure_all-le ts (ensure t fresh))),
      ensure_all-Without ts (ensure t fresh) h,
    )

  ensure_redexes-Without :
      (rs : List (Tree × Tree)) (fresh : ℕ)
      → ensure_redexes rs fresh < k
      → WithoutRedexes (create_var k) rs × (fresh < k)
  unfolding ensure_redexes
  ensure_redexes-Without [] fresh h = (tt, h)
  ensure_redexes-Without ((a, b) ∷ rs) fresh h =
      let (later, before) = ensure_redexes-Without rs (ensure b (ensure a fresh)) h in
      (
        (
          ensure-Without a fresh (omega (arith, ensure-le b (ensure a fresh))),
          ensure-Without b (ensure a fresh) before,
          later,
        ),
        omega (arith, ensure-le a fresh, ensure-le b (ensure a fresh)),
      )

-- `apply_tree` puts one variable in place of the root and connects the old root to a constructor of
-- the argument and that variable; no variable of the net or of the argument has its name, if the
-- numbers of their variables leave room for two more below 2 ^ 64.
pub apply_tree-Without :
    (net : Net) (arg : Tree)
    → fresh_of net arg + 2 < 2 ^ 64
    → (x : Name) × (apply_tree net arg ≡ applied net arg x)
      × Without x net.root
      × WithoutRedexes x net.redexes
      × Without x arg
unfolding apply_tree fresh_of ensure_net
apply_tree-Without net arg h =
    let start = ensure net.root 0 in
    let middle = ensure_redexes net.redexes start in
    let k = ensure arg middle + 1 in
    let fits : k + 1 < 2 ^ 64 = omega arith in
    let (redexes, root) =
      ensure_redexes-Without k fits net.redexes start (omega (arith, ensure-le arg middle)) in
    (
      create_var k,
      refl,
      ensure-Without k fits net.root 0 root,
      redexes,
      ensure-Without k fits arg middle (omega arith),
    )
