-- ===== src/Run/LabSet/Tests.antt =====
-- Small label sets, and the theorems on label sets applied to them.
use hvm.Prelude.{ℕ, ◌≡◌, Bool, ◌==◌, ◌||◌, some, [], ◌∷◌, arith}
use hvm.Run.LabSet
use hvm.Run.LabSet.{LabSet, has, empty, from_iter, union}
use hvm.Run.LabSet.Members.{union-has, IsValid}
use hvm.Run.LabSet.Insert.{add-has, from_iter-has, empty-IsValid, member}

three : LabSet
three = LabSet.add empty 3

two_hundred : LabSet
two_hundred = LabSet.add empty 200

three-IsValid : IsValid three
unfolding three
three-IsValid = (add-has empty 3 (omega arith) empty-IsValid).0

two_hundred-IsValid : IsValid two_hundred
unfolding two_hundred
two_hundred-IsValid = (add-has empty 200 (omega arith) empty-IsValid).0

union-has_example :
    IsValid (union three two_hundred)
    × ((lab : ℕ)
        → (a b : Bool) × (has three lab ≡ some a)
          × (has two_hundred lab ≡ some b)
          × (has (union three two_hundred) lab ≡ some (a || b)))
union-has_example = union-has three two_hundred three-IsValid two_hundred-IsValid

add-has_example :
    IsValid (LabSet.add three 77)
    × ((x : ℕ)
        → (b : Bool) × (has three x ≡ some b)
          × (has (LabSet.add three 77) x ≡ some (b || (x == 77))))
add-has_example = add-has three 77 (omega arith) three-IsValid

from_iter-has_example : has (from_iter (5 ∷ 900 ∷ [])) 900 ≡ some (member 900 (5 ∷ 900 ∷ []))
from_iter-has_example = from_iter-has (5 ∷ 900 ∷ []) (omega arith, (omega arith, tt)) 900
