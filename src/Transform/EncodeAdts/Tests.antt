-- ===== src/Transform/EncodeAdts/Tests.antt =====
-- The encoding of the second variant of two, with a field.
use hvm.Prelude.{ℕ, ◌<◌, ◌^◌, arith, ◌∷◌, ◌≡◌, refl, some, List, []}
use hvm.Ast.{Tree, Trees}
use hvm.Ast.Limits.{WellFormed, AllWellFormed, IsName}
use hvm.Ast.Example.{scanner}
use hvm.Ops.Kinds.{codes}
use hvm.Transform.EncodeAdts.{stack, encode_ctr, get_adt_info, encode_scott_adts}
use hvm.Transform.EncodeAdts.Walk.{encode_scott_adts-WellFormed}
use hvm.Transform.EncodeAdts.Documented.{Variant}
use hvm.Transform.EncodeAdts.Encodes.{Encodes, encode_ctr-Encodes, encode_ctr-encoding}

-- (#123 R)
abbrev some_123 : Tree
some_123 = Tree.ctr 0 (Trees.and (Tree.int 123) (Trees.and (Tree.var (codes "R")) Trees.end))

-- (* (#123 R) R)
abbrev ports : List Tree
ports =
    stack (Trees.and Tree.era (Trees.and some_123 (Trees.and (Tree.var (codes "R")) Trees.end))) []

encode_ctr-Encodes_example : Encodes 0 ports (encode_ctr 0 ports)
encode_ctr-Encodes_example = encode_ctr-Encodes 0 ports

encode_ctr-encoding_example :
    encode_ctr 0 ports ≡ some (Tree.adt 0 1 2 (Trees.and (Tree.int 123) Trees.end))
encode_ctr-encoding_example =
    encode_ctr-encoding 0 (codes "R") 0 1 [] (Variant.node (Trees.and (Tree.int 123) Trees.end))
      refl

-- {1 (* (#123 R) R) *}
abbrev nested : Tree
nested = Tree.ctr 1 (
    Trees.and
      (Tree.ctr 0
        (Trees.and Tree.era (Trees.and some_123 (Trees.and (Tree.var (codes "R")) Trees.end))))
      (Trees.and Tree.era Trees.end))

abbrev IsWord : ℕ → Type 0
IsWord bits = bits < 2 ^ 32

name_r : WellFormed scanner IsWord (Tree.var (codes "R"))
name_r = WellFormed.var _ (IsName.name _ _ refl)

some_123-WellFormed : WellFormed scanner IsWord some_123
some_123-WellFormed = WellFormed.ctr _ _ (omega arith) (omega arith) (
    AllWellFormed.and (WellFormed.int _ (omega arith)) (AllWellFormed.and name_r AllWellFormed.end))

nested-WellFormed : WellFormed scanner IsWord nested
nested-WellFormed = WellFormed.ctr _ _ (omega arith) (omega arith) (
    AllWellFormed.and
      (WellFormed.ctr _ _ (omega arith) (omega arith) (
        AllWellFormed.and WellFormed.era
          (AllWellFormed.and some_123-WellFormed (AllWellFormed.and name_r AllWellFormed.end))))
      (AllWellFormed.and WellFormed.era AllWellFormed.end))

encode_scott_adts-WellFormed_example :
    (u : Tree) × (encode_scott_adts 9 nested ≡ some u) × WellFormed scanner IsWord u
encode_scott_adts-WellFormed_example =
    encode_scott_adts-WellFormed scanner IsWord 9 nested nested-WellFormed (omega arith)

encoded :
    encode_scott_adts 9 nested
    ≡ some (
        Tree.ctr 1 (
          Trees.and
            (Tree.adt 0 1 2 (Trees.and (Tree.int 123) Trees.end))
            (Trees.and Tree.era Trees.end)))
unfolding encode_scott_adts encode_ctr get_adt_info
encoded = refl

-- (* * (:1:3)) takes both erasers in.
abbrev erasers : List Tree
erasers = Tree.adt 0 1 3 Trees.end ∷ Tree.era ∷ Tree.era ∷ []

taken_in : encode_ctr 0 erasers ≡ some (Tree.adt 0 3 5 Trees.end)
unfolding encode_ctr get_adt_info
taken_in = refl
