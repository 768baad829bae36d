-- ===== src/Ast/RoundTrip/Leaves.antt =====
-- Names, numbers and operators that the printer wrote and the parser reads back.
use hvm.Prelude.{
  ℕ, ◌-◌, ◌<◌, ◌^◌, ◌≡◌, refl, Bool, true, false, ◌&&◌, ◌||◌, some, [], ◌∷◌, ◌++◌, ◌==◌, ltb, arith,
  if◌then◌else◌,
}
use mathlib.Core.Path.{◌∙◌, ap}
use hvm.Ops.Kinds.{Ty, Op, TypedOp, typed, codes, display}
use hvm.Ops.Codes.{from_str-display}
use hvm.Ast.{Name, Tree}
use hvm.Ast.Number.{decimal, signed}
use hvm.Ast.Number.Decimal.{decimal-append, decimal-Digits, Digits, is_digit, parse_int-decimal}
use hvm.Ast.Scanner.{Text, Scanner, IsScanner, solid, strip, all, stops, ascii_alphanumeric}
use hvm.Ast.Scanner.Spans.{all-weaken, span-append, strip-other}
use hvm.Ast.Result.{Parsed, ◌>>=◌}
use hvm.Ast.Parser.{
  member, name_char, number_char, op_char, contains, is_float, neg_f32, parse_name, parse_number,
  parse_op, number_of, take_while, neg_i64,
}
use hvm.Ast.Limits.{IsName}
use hvm.Ast.RoundTrip.Heads.{Ends, ordinary, name_char-ordinary}

module _ (s : Scanner) where
  -- A float's text without its sign.
  pub record FloatText (num : Text) : Type 0 where
    pub chars : all (number_char s) num ≡ true
    pub float : is_float num ≡ true

  -- The text of the float, as the printer writes it, is read as that float.
  pub data ReadsFloat (bits : ℕ) : Type 0 where
    plain :
        (num : Text)
        → s.debug_f32 bits ≡ num
        → FloatText num
        → s.parse_f32 num ≡ some bits
        → ReadsFloat bits
    negated :
        (num : Text) (positive : ℕ)
        → s.debug_f32 bits ≡ b'-' ∷ num
        → FloatText num
        → s.parse_f32 num ≡ some positive
        → neg_f32 positive ≡ bits
        → ReadsFloat bits

abbrev op_code_char : ℕ → Bool
op_code_char c = ltb c 128 && (ascii_alphanumeric c || member c (codes ".+-=*/%<>|&^!?$"))

display-chars_at : (ty : Ty) (o : Op) → all op_code_char (display (typed ty o)) ≡ true
unfolding display
display-chars_at Ty.u60 Op.add = refl
display-chars_at Ty.u60 _ = refl
display-chars_at Ty.u8 Op.add = refl
display-chars_at Ty.u8 _ = refl
display-chars_at Ty.u16 Op.add = refl
display-chars_at Ty.u16 _ = refl
display-chars_at Ty.u32 Op.add = refl
display-chars_at Ty.u32 _ = refl
display-chars_at Ty.i8 Op.add = refl
display-chars_at Ty.i8 _ = refl
display-chars_at Ty.i16 Op.add = refl
display-chars_at Ty.i16 _ = refl
display-chars_at Ty.i32 Op.add = refl
display-chars_at Ty.i32 _ = refl
display-chars_at Ty.f32 Op.add = refl
display-chars_at Ty.f32 _ = refl

pub contains-Digits :
    (c : ℕ) (part : Text) {num : Text}
    → is_digit c ≡ false
    → Digits num
    → contains (c ∷ part) num ≡ false
contains-Digits c part h (Digits.last d k) = let e : (c == d) ≡ false = ground arith in rw e refl
contains-Digits c part h (Digits.more d k ds) =
    let e : (c == d) ≡ false = ground arith in rw (e, contains-Digits c part h ds) refl

is_float-Digits : {num : Text} → Digits num → is_float num ≡ false
is_float-Digits d =
    rw (contains-Digits b'.' [] refl d, contains-Digits b'N' (codes "aN") refl d)
      (contains-Digits b'i' (codes "nf") refl d)

pub all-Digits : {num : Text} → Digits num → all is_digit num ≡ true
all-Digits (Digits.last d k) = rw k refl
all-Digits (Digits.more d k ds) = rw (k, all-Digits ds) refl

module _ (s : Scanner) (laws : IsScanner s) where
  op_char-ascii : (c : ℕ) → op_code_char c ≡ true → op_char s c ≡ true
  op_char-ascii c h = rw (laws.alphanumeric-ascii c (ground arith)) (ground arith)

  pub parse_name-append :
      {nam : Name}
      → IsName s nam
      → (rest : Text) → Ends s rest
      → parse_name s (nam ++ rest) ≡ Parsed.ok nam rest
  unfolding parse_name
  parse_name-append (IsName.name c cs h) rest k =
      rw
        (
          laws.take_while_lem (name_char s) (c ∷ (cs ++ rest)),
          span-append (name_char s) (c ∷ cs) rest h k,
        )
        refl

  pub parse_op-display :
      (o : TypedOp) (rest : Text)
      → parse_op s (display o ++ (b' ' ∷ rest)) ≡ Parsed.ok o (b' ' ∷ rest)
  unfolding parse_op
  parse_op-display o rest =
      let chars : all (op_char s) (display o) ≡ true =
        all-weaken op_char-ascii (display o) (display-chars_at o.ty o.op) in
      let stop : stops (op_char s) (b' ' ∷ rest) ≡ true =
        rw (laws.alphanumeric-ascii 32 (omega arith)) refl in
      rw
        (
          laws.take_while_lem (op_char s) (display o ++ (b' ' ∷ rest)),
          span-append (op_char s) (display o) (b' ' ∷ rest) chars stop,
          from_str-display o,
        )
        refl

  pub number_char-digit : (c : ℕ) → is_digit c ≡ true → number_char s c ≡ true
  number_char-digit c h = rw (laws.alphanumeric-ascii c (ground arith)) (ground arith)

  -- A name character is wanted after a number, too.
  Ends-number : (rest : Text) → Ends s rest → stops (number_char s) rest ≡ true
  Ends-number [] h = refl
  Ends-number (c ∷ cs) h = ground arith

  pub consume-solid :
      (token : Text) (c : ℕ) (t : Text)
      → solid c ≡ true
      → s.consume token (c ∷ t) ≡ strip token (c ∷ t)
  consume-solid token c t h =
      laws.consume_lem token (c ∷ t) ∙ ap (λ x. strip token x) (laws.skip_trivia-solid c t h)

  -- The sign is read, or there is none.
  consume-minus : (t : Text) → s.consume (codes "-") (b'-' ∷ t) ≡ (true, t)
  consume-minus t = consume-solid (codes "-") b'-' t refl

  no-minus :
      (c : ℕ) (t : Text) → number_char s c ≡ true → s.consume (codes "-") (c ∷ t) ≡ (false, c ∷ t)
  no-minus c t h =
      let o : ordinary c ≡ true = name_char-ordinary s laws c (ground arith) in
      consume-solid (codes "-") c t (ground arith) ∙ strip-other b'-' [] c t (ground arith)

  -- The characters of a number end where a name would.
  number-append :
      (is_neg : Bool) (num rest : Text)
      → all (number_char s) num ≡ true
      → Ends s rest
      → (take_while s (number_char s) >>= number_of s is_neg) (num ++ rest)
        ≡ number_of s is_neg num rest
  number-append is_neg num rest h k =
      rw
        (
          laws.take_while_lem (number_char s) (num ++ rest),
          span-append (number_char s) num rest h (Ends-number rest k),
        )
        refl

  -- Without and with a sign.
  parse_number-cons :
      (c : ℕ) (cs rest : Text)
      → all (number_char s) (c ∷ cs) ≡ true
      → Ends s rest
      → parse_number s (c ∷ (cs ++ rest)) ≡ number_of s false (c ∷ cs) rest
  unfolding parse_number
  parse_number-cons c cs rest h k =
      rw (no-minus c (cs ++ rest) (ground arith)) (number-append false (c ∷ cs) rest h k)

  pub parse_number-plain :
      (num rest : Text)
      → (c : ℕ) × (cs : Text) × (num ≡ c ∷ cs)
      → all (number_char s) num ≡ true
      → Ends s rest
      → parse_number s (num ++ rest) ≡ number_of s false num rest
  parse_number-plain num rest (c, cs, e) h k = rw e (parse_number-cons c cs rest (rw e at h) k)

  parse_number-minus :
      (num rest : Text)
      → all (number_char s) num ≡ true
      → Ends s rest
      → parse_number s (b'-' ∷ (num ++ rest)) ≡ number_of s true num rest
  unfolding parse_number
  parse_number-minus num rest h k =
      rw (consume-minus (num ++ rest)) (number-append true num rest h k)

  int-digits :
      (is_neg : Bool) (n : ℕ) (rest : Text)
      → n < 2 ^ 64
      → number_of s is_neg (decimal n []) rest
        ≡ Parsed.ok (Tree.int (if is_neg then neg_i64 n else n)) rest
  int-digits is_neg n rest h = rw (is_float-Digits (decimal-Digits n), parse_int-decimal n h) refl

  Digits-head : {num : Text} → Digits num → (c : ℕ) × (cs : Text) × (num ≡ c ∷ cs)
  Digits-head (Digits.last c k) = (c, [], refl)
  Digits-head (Digits.more c {t = t} k ds) = (c, t, refl)

  number-chars : (n : ℕ) → all (number_char s) (decimal n []) ≡ true
  number-chars n = all-weaken number_char-digit (decimal n []) (all-Digits (decimal-Digits n))

  -- An integer's text is read as that integer.
  pub parse_number-signed :
      (bits : ℕ) (rest : Text)
      → bits < 2 ^ 64
      → Ends s rest
      → parse_number s (signed bits rest) ≡ Parsed.ok (Tree.int bits) rest
  unfolding signed
  parse_number-signed bits rest h k = at (ltb bits (2 ^ 63)) refl
    where
      at :
          (b : Bool)
          → ltb bits (2 ^ 63) ≡ b
          → parse_number s (if b then decimal bits rest else b'-' ∷ decimal (2 ^ 64 - bits) rest)
            ≡ Parsed.ok (Tree.int bits) rest
      at true e = rw (decimal-append bits rest) (
          parse_number-plain (decimal bits []) rest (Digits-head (decimal-Digits bits))
            (number-chars bits) k
          ∙ int-digits false bits rest h)
      at false e =
          let back : neg_i64 (2 ^ 64 - bits) ≡ bits = ground arith in
          rw (decimal-append (2 ^ 64 - bits) rest) (
            parse_number-minus (decimal (2 ^ 64 - bits) []) rest (number-chars (2 ^ 64 - bits)) k
            ∙ (int-digits true (2 ^ 64 - bits) rest (ground arith)
                ∙ ap (λ (x : ℕ). Parsed.ok (Tree.int x) rest) back))

  float-head : {num : Text} → FloatText s num → (c : ℕ) × (cs : Text) × (num ≡ c ∷ cs)
  float-head {num = []} t = absurd (ground (arith, t.float))
  float-head {num = c ∷ cs} t = (c, cs, refl)

  -- A float's text is read as that float.
  pub parse_number-debug :
      (bits : ℕ) (rest : Text)
      → ReadsFloat s bits
      → Ends s rest
      → parse_number s (s.debug_f32 bits ++ rest) ≡ Parsed.ok (Tree.f32 bits) rest
  parse_number-debug bits rest (ReadsFloat.plain num e t p) k =
      rw e (parse_number-plain num rest (float-head t) t.chars k ∙ rw (t.float, p) refl)
  parse_number-debug bits rest (ReadsFloat.negated num b e t p n) k =
      rw e (parse_number-minus num rest t.chars k ∙ rw (t.float, p, n) refl)
