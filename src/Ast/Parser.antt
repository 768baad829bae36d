-- ===== src/Ast/Parser.antt =====
-- The parser of src/ast.rs over the scanner, up to trees. `fuel` bounds the calls of `parse_tree` and
-- the turns of its loops.
use hvm.Prelude.{
  ℕ, zero, suc, ◌+◌, ◌-◌, ◌%◌, ◌^◌, Bool, false, ◌||◌, Option, none, some, [], ◌∷◌, ltb, leb, ◌==◌,
  if◌then◌else◌,
}
use hvm.Ops.Kinds.{TypedOp, ParseResult, parsed, codes, from_str}
use hvm.Ast.{Name, Tree, Trees, max_arity, count, legacy_mat}
use hvm.Ast.Number.{ParsedInt, parse_int}
use hvm.Ast.Scanner.{Text, Scanner, strip}
use hvm.Ast.Result.{ParseError, Parsed, P, pure, fail, ◌>>=◌, ◌>>◌, refuse_if}

-- `str::contains`
abbrev pub contains : (part text : Text) → Bool
contains part [] = (strip part []).0
contains part (c ∷ cs) = (strip part (c ∷ cs)).0 || contains part cs

abbrev pub member : ℕ → Text → Bool
member c [] = false
member c (d ∷ ds) = c == d || member c ds

abbrev pub max_adt_variants : ℕ
max_adt_variants = max_arity - 1

abbrev pub max_adt_fields : ℕ
max_adt_fields = max_arity - 1

-- `-val` on the bits of an `f32` and of an `i64`.
abbrev pub neg_f32 : ℕ → ℕ
neg_f32 bits = if ltb bits (2 ^ 31) then bits + 2 ^ 31 else bits - 2 ^ 31

abbrev pub neg_i64 : ℕ → ℕ
neg_i64 bits = (2 ^ 64 - bits) % 2 ^ 64

-- A match on the next character, or none at the end.
abbrev pub on_next {ℓ} : {A : Type ℓ} → Option ℕ → A → (ℕ → A) → A
on_next none at_eof f = at_eof
on_next (some c) at_eof f = f c

abbrev pub at_close : (close : ℕ) → Option ℕ → Bool
at_close close none = false
at_close close (some c) = c == close

abbrev pub closing : ℕ → ℕ
closing c = if c == b'(' then b')' else if c == b'[' then b']' else b'}'

abbrev pub nonempty : Text → P Name
nonempty [] = fail ParseError.expected_name
nonempty (c ∷ cs) = pure (c ∷ cs)

abbrev pub known_op : Text → ParseResult → P TypedOp
known_op text (parsed op) = pure op
known_op text _ = fail (ParseError.unknown_op text)

abbrev pub float_of : (is_neg : Bool) → Option ℕ → P Tree
float_of is_neg none = fail ParseError.bad_float
float_of is_neg (some bits) = pure (Tree.f32 (if is_neg then neg_f32 bits else bits))

abbrev pub int_of : (is_neg : Bool) → ParsedInt → P Tree
int_of is_neg (ParsedInt.bad e) = fail (ParseError.bad_int e)
int_of is_neg (ParsedInt.value n) = pure (Tree.int (if is_neg then neg_i64 n else n))

abbrev pub is_float : Text → Bool
is_float num =
    contains (codes ".") num || (contains (codes "NaN") num || contains (codes "inf") num)

abbrev pub legacy : Option Tree → P Tree
legacy none = fail ParseError.invalid_legacy_match
legacy (some t) = pure t

module _ (s : Scanner) where
  abbrev pub skip : P (Unit {0})
  skip t = Parsed.ok tt (s.skip_trivia t)

  abbrev pub peek : P (Option ℕ)
  peek t = Parsed.ok (s.peek_one t) t

  abbrev pub advance : P (Unit {0})
  advance t = Parsed.ok tt (s.advance_one t)

  -- `consume(token).is_ok()`
  abbrev pub took : Text → P Bool
  took token t = let (found, rest) = s.consume token t in Parsed.ok found rest

  -- `consume(token)?`
  abbrev pub take : Text → P (Unit {0})
  take token = took token >>= λ found. if found then pure tt else fail (ParseError.expected token)

  abbrev pub take_while : (ℕ → Bool) → P Text
  take_while test t = let (front, back) = s.take_while test t in Parsed.ok front back

  abbrev pub parse_u64 : P ℕ
  parse_u64 t = elim (s.parse_u64 t) [
    | none ↦ Parsed.failed ParseError.bad_number
    | some (n, rest) ↦ Parsed.ok n rest
  ]

  abbrev pub name_char : ℕ → Bool
  name_char c = s.alphanumeric c || (c == b'_' || (c == b'.' || c == b'$'))

  abbrev pub number_char : ℕ → Bool
  number_char c = s.alphanumeric c || c == b'.'

  abbrev pub op_char : ℕ → Bool
  op_char c = s.alphanumeric c || member c (codes ".+-=*/%<>|&^!?$")

  unfoldable pub parse_name : P Name
  parse_name = take_while name_char >>= nonempty

  unfoldable pub parse_op : P TypedOp
  parse_op = take_while op_char >>= λ op. known_op op (from_str op)

  abbrev pub number_of : (is_neg : Bool) → Text → P Tree
  number_of is_neg num =
      if is_float num then float_of is_neg (s.parse_f32 num) else int_of is_neg (parse_int num)

  -- What follows a `#`.
  unfoldable pub parse_number : P Tree
  parse_number = do is_neg ← took (codes "-"); num ← take_while number_char; number_of is_neg num

  -- The calls of `parse_tree`, and its loops up to a closing bracket, are arguments here.
  module _ (tree : P Tree) (trees_until : (close : ℕ) → P Trees) where
    unfoldable pub parse_adt : (lab close : ℕ) → P Tree
    parse_adt lab close = do
      advance
      variant_index ← parse_u64
      take (codes ":")
      variant_count ← parse_u64
      fields ← trees_until close
      advance
      refuse_if (variant_count == 0) ParseError.variant_count_zero
      refuse_if (ltb max_adt_variants variant_count) ParseError.too_many_variants
      refuse_if (leb variant_count variant_index) ParseError.index_out_of_range
      refuse_if (ltb max_adt_fields (count fields)) ParseError.too_many_fields
      pure (Tree.adt lab variant_index variant_count fields)

    unfoldable pub parse_ctr : (lab close : ℕ) → P Tree
    parse_ctr lab close = do
      ports ← trees_until close
      advance
      refuse_if (ltb max_arity (count ports)) ParseError.too_many_ports
      pure (Tree.ctr lab ports)

    -- `as Lab`
    abbrev pub parse_lab : ℕ → P ℕ
    parse_lab char =
        if char == b'{'
        then (parse_u64 >>= λ lab. pure (lab % 2 ^ 16))
        else pure (if char == b'[' then 1 else 0)

    -- What follows a node's label.
    unfoldable pub parse_body : (lab close : ℕ) → P Tree
    unfolding parse_adt parse_ctr
    parse_body lab close = do
      skip
      next ← peek
      on_next next (parse_ctr lab close)
          (λ c. if c == b':' then parse_adt lab close else parse_ctr lab close)

    unfoldable pub parse_node : (char : ℕ) → P Tree
    unfolding parse_body
    parse_node char = do advance; lab ← parse_lab char; parse_body lab (closing char)

    unfoldable pub parse_ref : P Tree
    unfolding parse_name
    parse_ref = do advance; skip; nam ← parse_name; pure (Tree.ref nam)

    unfoldable pub parse_op_node : P Tree
    unfolding parse_op
    parse_op_node = do
      advance
      op ← parse_op
      rhs ← tree
      out ← tree
      take (codes ">")
      pure (Tree.op op rhs out)

    abbrev pub parse_out : (zero succ : Tree) → P Tree
    parse_out z s' = do out ← tree; take (codes ">"); pure (Tree.mat z s' out)

    unfoldable pub parse_mat : P Tree
    unfolding legacy_mat
    parse_mat = do
      advance
      take (codes "<")
      z ← tree
      s' ← tree
      skip
      next ← peek
      on_next next (parse_out z s')
          (λ c. if c == b'>' then (advance >> legacy (legacy_mat z s')) else parse_out z s')

    unfoldable pub parse_var : P Tree
    unfolding parse_name
    parse_var = parse_name >>= λ nam. pure (Tree.var nam)

    unfoldable pub by_first : ℕ → P Tree
    unfolding parse_node parse_ref parse_op_node parse_mat parse_var parse_number
    by_first c =
        if c == b'*'
        then advance >> pure Tree.era
        else if c == b'(' || (c == b'[' || c == b'{')
        then parse_node c
        else if c == b'@'
        then parse_ref
        else if c == b'#'
        then advance >> parse_number
        else if c == b'<'
        then parse_op_node
        else if c == b'?'
        then parse_mat
        else parse_var

    unfoldable pub parse_any : P Tree
    unfolding by_first parse_var
    parse_any = do skip; next ← peek; on_next next parse_var by_first

    -- One turn of `while self.peek_one() != Some(close)`.
    unfoldable pub one_until : (close : ℕ) → P Trees
    one_until close = do
      skip
      next ← peek
      if at_close close next then pure Trees.end else next_tree
      where
        next_tree : P Trees
        next_tree = do t ← tree; ts ← trees_until close; pure (Trees.and t ts)

  unfoldable mutual
    unfolding parse_any one_until

    pub parse_tree : (fuel : ℕ) → P Tree
    parse_tree zero = fail ParseError.out_of_fuel
    parse_tree (suc fuel) = parse_any (parse_tree fuel) (parse_until fuel)

    pub parse_until : (fuel close : ℕ) → P Trees
    parse_until zero close = fail ParseError.out_of_fuel
    parse_until (suc fuel) close = one_until (parse_tree fuel) (parse_until fuel) close
