-- ===== src/Transform/Inline/Tests.antt =====
-- A tree with one reference.
use hvm.Prelude.{◌≡◌, refl, List, [], ◌∷◌}
use hvm.Ast.{Name, Tree, Trees}
use hvm.Transform.Inline.{get, replace, inline_into}
use hvm.Transform.Inline.Unchanged.{Free, inline_into-Free}

abbrev inlinees : List (Name × Tree)
inlinees = (97 ∷ [], Tree.int 4) ∷ []

abbrev with_ref : Tree
with_ref = Tree.ctr 0 (Trees.and (Tree.ref (98 ∷ [])) (Trees.and Tree.era Trees.end))

inline_into-Free_example : Free inlinees with_ref × ((inline_into inlinees with_ref).1 ≡ with_ref)
unfolding inline_into replace get
inline_into-Free_example = inline_into-Free inlinees with_ref refl
