-- ===== src/Transform/EncodeAdts/Sizes.antt =====
-- The encoding of data makes no tree larger (src/transform/encode_adts.rs).
use hvm.Prelude.{ℕ, zero, suc, ◌+◌, ◌≤◌, ◌≡◌, List, [], ◌∷◌, ap, arith}
use hvm.Ast.{Name, Tree, Trees}
use hvm.Transform.EncodeAdts.{stack, unstack, with_adt}
use hvm.Transform.EncodeAdts.Documented.{snoc, Variant, eras, encoding}
use hvm.Transform.EncodeAdts.Merged.{Merged, placed}

abbrev mutual
  pub size : Tree → ℕ
  size (Tree.ctr lab ports) = suc (sizes ports)
  size (Tree.op o rhs out) = suc (size rhs + size out)
  size (Tree.mat z n out) = suc (size z + (size n + size out))
  size (Tree.adt lab i n fields) = suc (sizes fields)
  size _ = 1

  pub sizes : Trees → ℕ
  sizes Trees.end = 0
  sizes (Trees.and t ts) = size t + sizes ts

abbrev pub stack_size : List Tree → ℕ
stack_size [] = 0
stack_size (t ∷ ts) = size t + stack_size ts

pub stack_size-stack :
    (ts : Trees) (under : List Tree) → stack_size (stack ts under) ≡ sizes ts + stack_size under
stack_size-stack Trees.end under = omega arith
stack_size-stack (Trees.and t ts) under = omega (arith, stack_size-stack ts (t ∷ under))

sizes-unstack :
    (ts : List Tree) (after : Trees) → sizes (unstack ts after) ≡ stack_size ts + sizes after
sizes-unstack [] after = omega arith
sizes-unstack (t ∷ ts) after = omega (arith, sizes-unstack ts (Trees.and t after))

sizes-snoc : (ts : Trees) (x : Tree) → sizes (snoc ts x) ≡ sizes ts + size x
sizes-snoc Trees.end x = omega arith
sizes-snoc (Trees.and t ts) x = omega (arith, sizes-snoc ts x)

stack_size-eras : (k : ℕ) (under : List Tree) → stack_size (eras k under) ≡ k + stack_size under
stack_size-eras zero under = omega arith
stack_size-eras (suc k) under = omega (arith, stack_size-eras k under)

size-with_adt :
    (lab : ℕ) (under : List Tree) (t : Tree)
    → size (with_adt lab under t) ≤ suc (size t + stack_size under)
size-with_adt lab [] t = omega arith
size-with_adt lab (p ∷ under) t = omega (arith, sizes-unstack (t ∷ p ∷ under) Trees.end)

size-unstacked :
    (lab : ℕ) (ts : List Tree) → size (Tree.ctr lab (unstack ts Trees.end)) ≤ suc (stack_size ts)
size-unstacked lab ts = omega (arith, sizes-unstack ts Trees.end)

size-placed :
    (k lab : ℕ) (under : List Tree) (t : Tree)
    → size (placed k lab under t) ≤ suc (size t + stack_size under)
size-placed zero lab under t = size-unstacked lab (t ∷ under)
size-placed (suc k) lab under t = size-with_adt lab under t

pub size-Merged :
    {lab : ℕ} {ports : List Tree} {t : Tree} → Merged lab ports t → size t ≤ suc (stack_size ports)
size-Merged {lab = lab} (Merged.same ports e) = size-unstacked lab ports
size-Merged {lab = lab} (Merged.taken i n fields rest t (k, under, e, f, g, r)) = omega (
  arith,
  ap size r,
  ap stack_size e,
  stack_size-eras k under,
  size-placed k lab under (Tree.adt lab (i + k) (n + k) fields),
)

size-Variant :
    {lab : ℕ} {ret : Name} {v : Tree} {fields : Trees}
    → Variant lab ret v fields
    → suc (sizes fields) ≤ size v
size-Variant Variant.bare = omega arith
size-Variant (Variant.node fields) = omega (arith, sizes-snoc fields)

pub size-compacted :
    (lab : ℕ) (ret : Name) (a b : ℕ) (under : List Tree) {v : Tree} {fields : Trees}
    → Variant lab ret v fields
    → size (with_adt lab under (Tree.adt lab b (b + suc a) fields))
      ≤ suc (stack_size (encoding ret a v b under))
size-compacted lab ret a b under {v = v} {fields = fields} w = omega (
  arith,
  size-with_adt lab under (Tree.adt lab b (b + suc a) fields),
  stack_size-eras a (v ∷ eras b under),
  stack_size-eras b under,
  size-Variant w,
)
