-- ===== src/Util/Tests.antt =====
-- Small names and nets, and the theorems of the helpers applied to them.
use hvm.Prelude.{◌≡◌, refl, some, [], ◌∷◌, arith}
use hvm.Ast.{Name, Tree, Net}
use hvm.Util.CreateVar.{letters, create_var, number, var_to_num}
use hvm.Util.CreateVar.Inverse.{var_to_num-create_var}
use hvm.Util.ApplyTree.{
  apply_tree, applied, fresh_of, ensure, after_var, ensure_net, ensure_redexes,
}
use hvm.Util.ApplyTree.Fresh.{Without, WithoutRedexes, apply_tree-Without}

created_728 : create_var 728 ≡ 97 ∷ 98 ∷ 97 ∷ []
unfolding create_var letters
created_728 = refl

var_to_num-create_var_example : var_to_num (create_var 1378) ≡ some 1378
var_to_num-create_var_example = var_to_num-create_var 1378 (omega arith)

abbrev one_variable : Net
one_variable = record { root = Tree.var (97 ∷ []); redexes = [] }

apply_tree-Without_example :
    (x : Name) × (apply_tree one_variable (Tree.var (98 ∷ []))
      ≡ applied one_variable (Tree.var (98 ∷ [])) x)
    × Without x (Tree.var (97 ∷ []))
    × WithoutRedexes x []
    × Without x (Tree.var (98 ∷ []))
unfolding fresh_of ensure after_var var_to_num number ensure_net ensure_redexes
apply_tree-Without_example = apply_tree-Without one_variable (Tree.var (98 ∷ [])) (omega arith)
