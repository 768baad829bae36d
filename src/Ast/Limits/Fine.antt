-- ===== src/Ast/Limits/Fine.antt =====
-- Results of a parser that has fuel enough: a value as wanted with less than so much text left, or an
-- error of the text.
use hvm.Prelude.{ℕ, ◌<◌, ◌≤◌, ◌≡◌, refl, Bool, true, false, arith, if◌then◌else◌, length}
use hvm.Ast.Scanner.{Text}
use hvm.Ast.Result.{Parsed, ParseError, P, and_then, refuse_if}

-- Whether the error is one that the source has.
abbrev pub genuine : ParseError → Bool
genuine ParseError.out_of_fuel = false
genuine _ = true

pub data Fine {A : Type 0} (Q : A → Type 0) (n : ℕ) : Parsed A → Type 0 where
  ok : (a : A) (rest : Text) → Q a → length rest < n → Fine Q n (Parsed.ok a rest)
  failed : (e : ParseError) → genuine e ≡ true → Fine Q n (Parsed.failed e)

module _ {A : Type 0} {Q : A → Type 0} {n : ℕ} where
  pub Fine-bind :
      {B : Type 0} {R : B → Type 0} {m : ℕ} {r : Parsed A} {k : A → P B}
      → Fine Q n r
      → ((a : A) (rest : Text) → Q a → length rest < n → Fine R m (k a rest))
      → Fine R m (and_then r k)
  Fine-bind (Fine.ok a rest q h) f = f a rest q h
  Fine-bind (Fine.failed e g) f = Fine.failed e g

  pub Fine-if :
      (b : Bool) {x y : Parsed A} → Fine Q n x → Fine Q n y → Fine Q n (if b then x else y)
  Fine-if true h k = h
  Fine-if false h k = k

  pub Fine-if_at :
      (b : Bool) (x y : P A) (t : Text)
      → Fine Q n (x t)
      → Fine Q n (y t)
      → Fine Q n ((if b then x else y) t)
  Fine-if_at true x y t h k = h
  Fine-if_at false x y t h k = k

  pub Fine-le : {m : ℕ} {r : Parsed A} → Fine Q n r → n ≤ m → Fine Q m r
  Fine-le (Fine.ok a rest q h) l = Fine.ok a rest q (omega arith)
  Fine-le (Fine.failed e g) l = Fine.failed e g

  pub Fine-unless :
      (b : Bool) (e : ParseError) (k : Unit {0} → P A) (t : Text)
      → genuine e ≡ true
      → (b ≡ false → Fine Q n (k tt t))
      → Fine Q n (and_then (refuse_if b e t) k)
  Fine-unless true e k t g f = Fine.failed e g
  Fine-unless false e k t g f = f refl

-- Nothing is claimed of the value.
abbrev pub Any : {A : Type 0} → A → Type 0
Any a = Unit {0}
