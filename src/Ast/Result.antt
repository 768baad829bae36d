-- ===== src/Ast/Result.antt =====
-- Parsers (src/ast.rs): a parser takes the text that is left and returns a value with the rest of the
-- text, or an error.
use hvm.Prelude.{Bool, if◌then◌else◌}
use hvm.Ast.Number.{IntError}
use hvm.Ast.Scanner.{Text}

pub data ParseError : Type 0 where
  expected_name : ParseError
  expected : Text → ParseError
  bad_number bad_float variant_count_zero too_many_variants index_out_of_range : ParseError
  too_many_fields too_many_ports invalid_legacy_match not_whole out_of_fuel : ParseError
  bad_int : IntError → ParseError
  unknown_op : Text → ParseError

pub data Parsed {ℓ} (A : Type ℓ) : Type ℓ where
  ok : A → Text → Parsed A
  failed : ParseError → Parsed A

-- `?`
abbrev pub and_then {ℓ} : {A B : Type ℓ} → Parsed A → (A → Text → Parsed B) → Parsed B
and_then (Parsed.ok a t) k = k a t
and_then (Parsed.failed e) k = Parsed.failed e

abbrev pub P {ℓ} : Type ℓ → Type ℓ
P A = Text → Parsed A

abbrev pub pure {ℓ} : {A : Type ℓ} → A → P A
pure a t = Parsed.ok a t

abbrev pub fail {ℓ} : {A : Type ℓ} → ParseError → P A
fail e t = Parsed.failed e

module _ {ℓ} {A B : Type ℓ} where
  infixl 5 ◌>>=◌ ◌>>◌
  abbrev pub ◌>>=◌ : P A → (A → P B) → P B
  m >>= k = λ t. and_then (m t) k

  abbrev pub ◌>>◌ : P A → P B → P B
  m >> n = m >>= λ _. n

-- `Err(e)?` under a condition.
abbrev pub refuse_if : Bool → ParseError → P (Unit {0})
refuse_if b e = if b then fail e else pure tt
