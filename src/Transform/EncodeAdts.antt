-- ===== src/Transform/EncodeAdts.antt =====
-- Recognition of Scott-encoded data (src/transform/encode_adts.rs), in one constructor and in a tree. The ports are a
-- stack, the last port first.
pub mod Documented
pub mod Merged
pub mod Encodes
pub mod Sizes
pub mod Nodes
pub mod Walk
mod Tests
use hvm.Prelude.{
  ℕ, zero, suc, ◌+◌, ◌-◌, Bool, true, false, ◌&&◌, Option, none, some, List, [], ◌∷◌, ◌==◌, ltb,
  leb, length, if◌then◌else◌,
}
use hvm.Ast.{Name, Tree, Trees, max_arity, count}
use hvm.Ast.Parser.{max_adt_variants}
use hvm.Transform.Inline.{name_eq}

-- The ports as a stack, and back.
abbrev pub stack : Trees → List Tree → List Tree
stack Trees.end under = under
stack (Trees.and t ts) under = stack ts (t ∷ under)

abbrev pub unstack : List Tree → Trees → Trees
unstack [] after = after
unstack (t ∷ under) after = unstack under (Trees.and t after)

-- `ports.last()` and `fields.pop()`
abbrev pub last : Trees → Option Tree
last Trees.end = none
last (Trees.and t Trees.end) = some t
last (Trees.and t (Trees.and u us)) = last (Trees.and u us)

abbrev pub pop : Trees → Trees
pop Trees.end = Trees.end
pop (Trees.and t Trees.end) = Trees.end
pop (Trees.and t (Trees.and u us)) = Trees.and t (pop (Trees.and u us))

abbrev pub is_var : Name → Option Tree → Bool
is_var ret (some (Tree.var nam)) = name_eq nam ret
is_var ret _ = false

abbrev pub is_none : Option ℕ → Bool
is_none none = true
is_none (some i) = false

-- What the loop does with a port: go on, go on with the variant at this index, stop with what was
-- found, or give up.
pub data Seen : Type 0 where
  go_on variant stop give_up : Seen

abbrev pub seen : (lab : ℕ) (ret : Name) → Tree → (found : Option ℕ) → Seen
seen lab ret Tree.era found = Seen.go_on
seen lab ret (Tree.ctr inner_lab ports) found =
    if inner_lab == lab && is_none found
    then (if is_var ret (last ports) then Seen.variant else Seen.give_up)
    else Seen.stop
seen lab ret (Tree.var nam) found =
    if name_eq nam ret && is_none found then Seen.variant else Seen.stop
seen lab ret _ found = Seen.stop

abbrev pub start_at : ℕ → Option ℕ → Option (ℕ × ℕ)
start_at start none = none
start_at start (some i) = some (start, i)

abbrev pub on_seen : Seen → (on variant_at stopped : Option (ℕ × ℕ)) → Option (ℕ × ℕ)
on_seen Seen.go_on on variant_at stopped = on
on_seen Seen.variant on variant_at stopped = variant_at
on_seen Seen.stop on variant_at stopped = stopped
on_seen Seen.give_up on variant_at stopped = none

-- The loop over the ports before the last; the index of a port is the number of ports under it.
abbrev pub scan : (lab : ℕ) (ret : Name) → List Tree → (found : Option ℕ) → Option (ℕ × ℕ)
scan lab ret [] found = start_at 0 found
scan lab ret (p ∷ rest) found =
    let same = scan lab ret rest found in
    let here = scan lab ret rest (some (length rest)) in
    on_seen (seen lab ret p found) same here (start_at (suc (length rest)) found)

unfoldable pub get_adt_info : (lab : ℕ) → List Tree → Option (ℕ × ℕ)
get_adt_info lab (Tree.var ret ∷ rest) = scan lab ret rest none
get_adt_info lab _ = none

-- The element that `ports.swap_remove(idx)` gives.
abbrev pub port_at : ℕ → List Tree → Option Tree
port_at idx [] = none
port_at idx (p ∷ rest) =
    let below = port_at idx rest in if length rest == idx then some p else below

-- `ports.truncate(start)`
abbrev pub truncate : ℕ → List Tree → List Tree
truncate start [] = []
truncate start (p ∷ rest) =
    let below = truncate start rest in if leb (suc (length rest)) start then p ∷ rest else below

-- `none` is the branch that is marked unreachable.
abbrev pub fields_of : Option Tree → Option Trees
fields_of (some (Tree.ctr lab ports)) = some (pop ports)
fields_of (some (Tree.var nam)) = some Trees.end
fields_of _ = none

-- `self` with the data under the other ports, or alone.
abbrev pub with_adt : (lab : ℕ) → List Tree → Tree → Tree
with_adt lab [] whole = whole
with_adt lab (p ∷ under) whole = Tree.ctr lab (unstack (whole ∷ p ∷ under) Trees.end)

-- Without its variant the stack is shorter by one. The ports up to `start` stand as they did.
abbrev pub compact : (lab : ℕ) → List Tree → ℕ × ℕ → Option Trees → Option Tree
compact lab ports (start, idx) none = none
compact lab ports (start, idx) (some fields) = some (
    with_adt lab (truncate start ports)
      (Tree.adt lab (idx - start) (length ports - 1 - start) fields))

-- The loop that takes erasers before data of the same label into the data.
abbrev pub merge : (lab : ℕ) (top : Tree) → List Tree → Tree
merge lab top [] = Tree.ctr lab (Trees.and top Trees.end)
merge lab (Tree.adt inner_lab i n fields) (Tree.era ∷ []) =
    if inner_lab == lab && ltb n max_adt_variants
    then Tree.adt inner_lab (suc i) (suc n) fields
    else Tree.ctr lab (unstack (Tree.adt inner_lab i n fields ∷ Tree.era ∷ []) Trees.end)
merge lab (Tree.adt inner_lab i n fields) (Tree.era ∷ p ∷ rest) =
    let more = merge lab (Tree.adt inner_lab (suc i) (suc n) fields) (p ∷ rest) in
    if inner_lab == lab && ltb n max_adt_variants
    then more
    else Tree.ctr lab (unstack (Tree.adt inner_lab i n fields ∷ Tree.era ∷ p ∷ rest) Trees.end)
merge lab top rest = Tree.ctr lab (unstack (top ∷ rest) Trees.end)

abbrev pub merge_all : (lab : ℕ) → List Tree → Tree
merge_all lab [] = Tree.ctr lab Trees.end
merge_all lab (p ∷ rest) = merge lab p rest

encode_found : (lab : ℕ) → List Tree → Option (ℕ × ℕ) → Option Tree
encode_found lab ports none = some (merge_all lab ports)
encode_found lab ports (some (start, idx)) =
    compact lab ports (start, idx) (fields_of (port_at idx ports))

-- What `encode_scott_adts` does to a constructor before it visits its children.
unfoldable pub encode_ctr : (lab : ℕ) → List Tree → Option Tree
unfolding get_adt_info encode_found
encode_ctr lab ports = encode_found lab ports (get_adt_info lab ports)

abbrev pub then_some : {A B : Type 0} → Option A → (A → Option B) → Option B
then_some none f = none
then_some (some a) f = f a

-- `array_vec::from_iter` of the children, into a vector with a capacity of `MAX_ARITY`: the next push
-- panics.
abbrev pub array_vec : Trees → Option Trees
array_vec ts = if ltb max_arity (count ts) then none else some ts

abbrev pub for_each : (Tree → Option Tree) → Trees → Option Trees
for_each f Trees.end = some Trees.end
for_each f (Trees.and t ts) =
    then_some (f t) λ u. then_some (for_each f ts) λ us. some (Trees.and u us)

-- `self.children_mut().for_each(..)`
abbrev pub in_children : (Tree → Option Tree) → Tree → Option Tree
in_children f (Tree.ctr lab ports) =
    then_some (array_vec ports) λ all. then_some (for_each f all) λ ts. some (Tree.ctr lab ts)
in_children f (Tree.op o rhs out) =
    then_some (f rhs) λ a. then_some (f out) λ b. some (Tree.op o a b)
in_children f (Tree.mat z n out) =
    then_some (f z) λ a. then_some (f n) λ b. then_some (f out) λ c. some (Tree.mat a b c)
in_children f (Tree.adt lab i n fields) =
    then_some (array_vec fields) λ all. then_some (for_each f all) λ ts. some (Tree.adt lab i n ts)
in_children f t = some t

abbrev pub node_first : Tree → Option Tree
node_first (Tree.ctr lab ports) = encode_ctr lab (stack ports [])
node_first t = some t

-- The node first, then the children of what it became. `fuel` bounds the depth of the calls; `none` is
-- a lack of it, the branch that is marked unreachable, or the panic of a vector of children.
unfoldable pub encode_scott_adts : (fuel : ℕ) → Tree → Option Tree
unfolding encode_ctr
encode_scott_adts zero t = none
encode_scott_adts (suc fuel) t = then_some (node_first t) (in_children (encode_scott_adts fuel))
