-- ===== src/Util/CreateVar.antt =====
-- Names of variables by their numbers, and back (src/util/create_var.rs). Sums and products of the
-- latter wrap around at 64 bits, as in a release build.
pub mod Inverse
use hvm.Prelude.{
  ℕ, zero, suc, ◌+◌, ◌-◌, ◌*◌, ◌/◌, ◌%◌, ◌^◌, Bool, true, false, Option, none, some, List, [], ◌∷◌,
  ◌==◌, ltb, if◌then◌else◌,
}
use hvm.Ast.{Name}

-- The loop, for at most `fuel` digits; `txt` has the last pushed character first, which is the order
-- after `reverse`.
unfoldable pub letters : (fuel id : ℕ) → Name → Name
letters zero id txt = txt
letters (suc fuel) id txt =
    let rest = letters fuel ((id - 1) / 26) (((id - 1) % 26 + 97) ∷ txt) in
    if id == 0 then txt else rest

unfoldable pub create_var : (id : ℕ) → Name
create_var id = letters (id + 1) (id + 1) []

-- The loop over the characters.
unfoldable pub number : (n : ℕ) → Name → Option ℕ
number n [] = some n
number n (c ∷ cs) =
    let rest = number ((n * 26 + (c - 97) + 1) % 2 ^ 64) cs in
    if ltb c 97 then none else if ltb 122 (c - 97) then none else rest

unfoldable pub var_to_num : Name → Option ℕ
var_to_num s = elim (number 0 s) [ none ↦ none | some n ↦ if n == 0 then none else some (n - 1) ]
