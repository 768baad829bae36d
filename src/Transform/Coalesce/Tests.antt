-- ===== src/Transform/Coalesce/Tests.antt =====
-- A chain of constructors, and the theorems on coalescing applied to it.
use hvm.Prelude.{◌≡◌, ◌≢◌, refl, [], ◌∷◌}
use hvm.Ast.{Tree, Trees}
use hvm.Transform.Coalesce.{coalesce, merge, rejoin}
use hvm.Transform.Coalesce.Meaning.{meaning, IsFull, meaning-coalesce, coalesce-hollow}

abbrev chain_of_three : Tree
chain_of_three = Tree.ctr 0 (
    Trees.and (Tree.int 1) (
      Trees.and (Tree.ctr 0 (Trees.and Tree.era (Trees.and (Tree.var (97 ∷ [])) Trees.end)))
        Trees.end))

chain_of_three-IsFull : IsFull chain_of_three
unfolding IsFull
chain_of_three-IsFull = (refl, (tt, ((refl, (tt, (tt, tt))), tt)))

coalesced :
    coalesce chain_of_three
    ≡ Tree.ctr 0
        (Trees.and (Tree.int 1) (Trees.and Tree.era (Trees.and (Tree.var (97 ∷ [])) Trees.end)))
unfolding coalesce merge rejoin
coalesced = refl

meaning-coalesce_example : meaning (coalesce chain_of_three) ≡ meaning chain_of_three
meaning-coalesce_example = meaning-coalesce chain_of_three chain_of_three-IsFull

abbrev hollow : Tree
hollow = Tree.ctr 4 (Trees.and (Tree.int 9) (Trees.and (Tree.ctr 4 Trees.end) Trees.end))

coalesce-hollow_example :
    (coalesce hollow ≡ Tree.ctr 4 (Trees.and (Tree.int 9) Trees.end))
    × (meaning (coalesce hollow) ≢ meaning hollow)
coalesce-hollow_example = coalesce-hollow 4 9
