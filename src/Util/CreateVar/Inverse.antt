-- ===== src/Util/CreateVar/Inverse.antt =====
-- `var_to_num` is the inverse of `create_var`.
use hvm.Prelude.{
  ℕ, zero, suc, ◌+◌, ◌-◌, ◌*◌, ◌/◌, ◌%◌, ◌^◌, ◌≤◌, ◌<◌, ◌≡◌, refl, false, none, some, [], ◌∷◌, ◌==◌,
  ltb, if◌then◌else◌, arith, ◌∙◌, ap,
}
use hvm.Ast.{Name}
use hvm.Util.CreateVar.{letters, create_var, number, var_to_num}

-- Reading one letter back.
number-letter :
    (q r : ℕ) (txt : Name)
    → r < 26
    → q * 26 + r + 1 < 2 ^ 64
    → number q ((r + 97) ∷ txt) ≡ number (q * 26 + r + 1) txt
unfolding number
number-letter q r txt small fits =
    let a : ltb (r + 97) 97 ≡ false = ground arith in
    let b : ltb 122 (r + 97 - 97) ≡ false = ground arith in
    let c : (q * 26 + (r + 97 - 97) + 1) % 2 ^ 64 ≡ q * 26 + r + 1 = omega arith in
    rw (a, b, c) refl

number-letters :
    (fuel id : ℕ) (txt : Name)
    → id ≤ fuel
    → id < 2 ^ 64
    → number 0 (letters fuel id txt) ≡ number id txt
unfolding letters
number-letters zero id txt h fits = let e : id ≡ 0 = omega arith in rw e refl
number-letters (suc fuel) zero txt h fits = refl
number-letters (suc fuel) (suc m) txt h fits =
    let z : (suc m == 0) ≡ false = ground arith in
    let p : suc m - 1 ≡ m = omega arith in
    let whole : m / 26 * 26 + m % 26 + 1 ≡ suc m = omega arith in
    rw (z, p)
      (number-letters fuel (m / 26) ((m % 26 + 97) ∷ txt) (omega arith) (omega arith)
        ∙ number-letter (m / 26) (m % 26) txt (omega arith) (omega arith)
        ∙ ap (λ n. number n txt) whole)

number-create_var : (id : ℕ) → id + 1 < 2 ^ 64 → number 0 (create_var id) ≡ some (id + 1)
unfolding create_var number
number-create_var id fits = number-letters (id + 1) (id + 1) [] (omega arith) fits

var_to_num-number :
    (s : Name) (n : ℕ)
    → number 0 s ≡ some n
    → var_to_num s ≡ (if n == 0 then none else some (n - 1))
unfolding var_to_num
var_to_num-number s n e = rw (e, var_to_num) refl

-- The name of a variable reads back as its number, if the number after it is a 64-bit number.
pub var_to_num-create_var : (id : ℕ) → id + 1 < 2 ^ 64 → var_to_num (create_var id) ≡ some id
var_to_num-create_var id fits =
    let z : (id + 1 == 0) ≡ false = ground arith in
    let p : id + 1 - 1 ≡ id = omega arith in
    var_to_num-number (create_var id) (id + 1) (number-create_var id fits) ∙ rw (z, p) refl
