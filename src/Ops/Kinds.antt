-- ===== src/Ops/Kinds.antt =====
-- The numeric types and operators of src/ops.rs with the two enumerations' codes and names
-- (`bi_enum!`, src/util/bi_enum.rs), and the conversions of a typed operator to and from a label
-- and to and from text.
use Prim.Native.Char.{code}
use Prim.Native.String.{String}
use hvm.Prelude.{
  ℕ, ◌+◌, ◌*◌, ◌/◌, ◌%◌, Bool, true, false, ◌&&◌, ◌||◌, Option, none, some, List, [], ◌∷◌, ◌++◌,
  ltb, leb, ◌==◌, if◌then◌else◌,
}

pub data Ty : Type 0 where
  u8 u16 u32 u60 i8 i16 i32 f32 : Ty

pub data Op : Type 0 where
  add sub sub_s mul div div_s rem rem_s and or xor shl shl_s shr shr_s eq ne lt gt le ge : Op

pub record TypedOp : Type 0 where
  pub ty : Ty
  pub op : Op

abbrev pub typed : Ty → Op → TypedOp
typed t o = record { ty = t; op = o }

-- `as u8`
unfoldable pub ty_code : Ty → ℕ
ty_code u8 = 0
ty_code u16 = 1
ty_code u32 = 2
ty_code u60 = 3
ty_code i8 = 4
ty_code i16 = 5
ty_code i32 = 6
ty_code f32 = 7

unfoldable pub op_code : Op → ℕ
op_code add = 0
op_code sub = 1
op_code sub_s = 2
op_code mul = 3
op_code div = 4
op_code div_s = 5
op_code rem = 6
op_code rem_s = 7
op_code and = 8
op_code or = 9
op_code xor = 10
op_code shl = 11
op_code shl_s = 12
op_code shr = 13
op_code shr_s = 14
op_code eq = 15
op_code ne = 16
op_code lt = 17
op_code gt = 18
op_code le = 19
op_code ge = 20

-- The variants in the order of their codes.
abbrev all_tys : List Ty
all_tys = u8 ∷ u16 ∷ u32 ∷ u60 ∷ i8 ∷ i16 ∷ i32 ∷ f32 ∷ []

abbrev all_ops : List Op
all_ops =
    add ∷ sub ∷ sub_s ∷ mul ∷ div ∷ div_s ∷ rem ∷ rem_s ∷ and ∷ or ∷ xor ∷ shl ∷ shl_s ∷ shr ∷ shr_s
    ∷ eq ∷ ne ∷ lt ∷ gt ∷ le ∷ ge ∷ []

-- `match value { $($value => $Variant,)* _ => Err(()) }`
find_variant {ℓ} : {A B : Type ℓ} → (A → B) → (B → B → Bool) → B → List A → Option A
find_variant key same value [] = none
find_variant key same value (v ∷ vs) =
    if same value (key v) then some v else find_variant key same value vs

unfoldable pub ty_try_from : ℕ → Option Ty
unfolding find_variant ty_code
ty_try_from value = find_variant ty_code ◌==◌ value all_tys

unfoldable pub op_try_from : ℕ → Option Op
unfolding find_variant op_code
op_try_from value = find_variant op_code ◌==◌ value all_ops

-- The comparisons of `derive(PartialOrd)` go by the variants' order.
unfoldable pub ty_is_int : Ty → Bool
unfolding ty_code
ty_is_int t = ltb (ty_code t) (ty_code f32)

unfoldable pub is_comparison : Op → Bool
unfolding op_code
is_comparison o = leb (op_code eq) (op_code o)

-- Whether the operation returns an integer.
unfoldable pub is_int : TypedOp → Bool
unfolding ty_is_int is_comparison
is_int t = ty_is_int t.ty || is_comparison t.op

unfoldable pub swap_op : Op → Op
swap_op add = add
swap_op sub = sub_s
swap_op sub_s = sub
swap_op mul = mul
swap_op div = div_s
swap_op div_s = div
swap_op rem = rem_s
swap_op rem_s = rem
swap_op and = and
swap_op or = or
swap_op xor = xor
swap_op shl = shl_s
swap_op shl_s = shl
swap_op shr = shr_s
swap_op shr_s = shr
swap_op eq = eq
swap_op ne = ne
swap_op lt = gt
swap_op gt = lt
swap_op le = ge
swap_op ge = le

unfoldable pub swap : TypedOp → TypedOp
unfolding swap_op
swap t = typed t.ty (swap_op t.op)

-- The byte order of the target, for `to_ne_bytes` and `from_ne_bytes`.
pub data Endian : Type 0 where
  little big : Endian

abbrev pub to_ne_bytes : Endian → ℕ → ℕ × ℕ
to_ne_bytes little n = (n % 256, n / 256)
to_ne_bytes big n = (n / 256, n % 256)

abbrev pub from_ne_bytes : Endian → ℕ × ℕ → ℕ
from_ne_bytes little (a, b) = a + 256 * b
from_ne_bytes big (a, b) = 256 * a + b

both : Option Ty → Option Op → Option TypedOp
both none o = none
both (some t) none = none
both (some t) (some o) = some (typed t o)

-- `TypedOp::try_from(u16)` and `u16::from(TypedOp)`
unfoldable pub try_from_u16 : Endian → ℕ → Option TypedOp
unfolding both ty_try_from op_try_from
try_from_u16 e value = let (ty, op) = to_ne_bytes e value in both (ty_try_from ty) (op_try_from op)

unfoldable pub into_u16 : Endian → TypedOp → ℕ
unfolding ty_code op_code
into_u16 e t = from_ne_bytes e (ty_code t.ty, op_code t.op)

-- Text as a list of characters.
abbrev pub codes : String → List ℕ
codes String.[] = []
codes (String.◌∷◌ c s) = code c ∷ codes s

abbrev pub text_eq : List ℕ → List ℕ → Bool
text_eq [] [] = true
text_eq [] (b ∷ bs) = false
text_eq (a ∷ as') [] = false
text_eq (a ∷ as') (b ∷ bs) = a == b && text_eq as' bs

unfoldable pub ty_name : Ty → List ℕ
ty_name u8 = codes "u8"
ty_name u16 = codes "u16"
ty_name u32 = codes "u32"
ty_name u60 = codes "u60"
ty_name i8 = codes "i8"
ty_name i16 = codes "i16"
ty_name i32 = codes "i32"
ty_name f32 = codes "f32"

unfoldable pub op_name : Op → List ℕ
op_name add = codes "+"
op_name sub = codes "-"
op_name sub_s = codes "-$"
op_name mul = codes "*"
op_name div = codes "/"
op_name div_s = codes "/$"
op_name rem = codes "%"
op_name rem_s = codes "%$"
op_name and = codes "&"
op_name or = codes "|"
op_name xor = codes "^"
op_name shl = codes "<<"
op_name shl_s = codes "<<$"
op_name shr = codes ">>"
op_name shr_s = codes ">>$"
op_name eq = codes "=="
op_name ne = codes "!="
op_name lt = codes "<"
op_name gt = codes ">"
op_name le = codes "<="
op_name ge = codes ">="

pub data ParseResult : Type 0 where
  parsed : TypedOp → ParseResult
  bad_ty bad_op : List ℕ → ParseResult

-- `s.split('.')`
push_front : ℕ → List (List ℕ) → List (List ℕ)
push_front c [] = (c ∷ []) ∷ []
push_front c (w ∷ ws) = (c ∷ w) ∷ ws

split_dot : List ℕ → List (List ℕ)
unfolding push_front
split_dot [] = [] ∷ []
split_dot (c ∷ s) = let rest = split_dot s in if c == b'.' then [] ∷ rest else push_front c rest

with_op : Ty → List ℕ → Option Op → ParseResult
with_op ty text none = bad_op text
with_op ty text (some o) = parsed (typed ty o)

with_ty : List ℕ → List ℕ → Option Ty → Option Op → ParseResult
unfolding with_op
with_ty ty text none op = bad_ty ty
with_ty ty text (some t) op = with_op t text op

from_parts : List ℕ → List (List ℕ) → ParseResult
unfolding with_ty find_variant ty_name op_name
from_parts s (ty ∷ op ∷ []) =
    with_ty ty op (find_variant ty_name text_eq ty all_tys)
      (find_variant op_name text_eq op all_ops)
from_parts s (op ∷ []) = with_op u60 op (find_variant op_name text_eq op all_ops)
from_parts s parts = bad_op s

-- `TypedOp::from_str`
unfoldable pub from_str : List ℕ → ParseResult
unfolding from_parts split_dot
from_str s = from_parts s (split_dot s)

-- `Display for TypedOp`
unfoldable pub display : TypedOp → List ℕ
unfolding ty_name op_name
display t = elim t.ty [ u60 ↦ op_name t.op | other ↦ ty_name other ++ (b'.' ∷ op_name t.op) ]
