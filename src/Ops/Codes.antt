-- ===== src/Ops/Codes.antt =====
-- Labels and text of a typed operator, read back.
use hvm.Prelude.{ℕ, ◌<◌, ◌≡◌, refl, some, arith}
use hvm.Ops.Kinds.{
  Ty, Op, TypedOp, typed, Endian, ty_code, op_code, ty_try_from, op_try_from, try_from_u16,
  into_u16, from_str, parsed, display, from_ne_bytes, to_ne_bytes,
}

ty_try_from-ty_code : (t : Ty) → ty_try_from (ty_code t) ≡ some t
unfolding ty_try_from
ty_try_from-ty_code Ty.u8 = refl
ty_try_from-ty_code _ = refl

op_try_from-op_code : (o : Op) → op_try_from (op_code o) ≡ some o
unfolding op_try_from
op_try_from-op_code Op.add = refl
op_try_from-op_code _ = refl

ty_code-lt : (t : Ty) → ty_code t < 256
unfolding ty_code
ty_code-lt t = ground arith

op_code-lt : (o : Op) → op_code o < 256
unfolding op_code
op_code-lt o = ground arith

bytes_back :
    (e : Endian) (a b : ℕ) → a < 256 → b < 256 → to_ne_bytes e (from_ne_bytes e (a, b)) ≡ (a, b)
bytes_back Endian.little a b h k = ground arith
bytes_back Endian.big a b h k = ground arith

-- The label of a typed operator reads back as that operator, in both byte orders.
pub try_from_u16-into_u16 : (e : Endian) (t : TypedOp) → try_from_u16 e (into_u16 e t) ≡ some t
unfolding try_from_u16 into_u16
try_from_u16-into_u16 e t =
    rw (bytes_back e _ _ (ty_code-lt t.ty) (op_code-lt t.op))
      (rw (ty_try_from-ty_code, op_try_from-op_code))

from_str-display_at : (ty : Ty) (o : Op) → from_str (display (typed ty o)) ≡ parsed (typed ty o)
unfolding from_str display
from_str-display_at Ty.u60 Op.add = refl
from_str-display_at Ty.u60 _ = refl
from_str-display_at Ty.u8 Op.add = refl
from_str-display_at Ty.u8 _ = refl
from_str-display_at Ty.u16 Op.add = refl
from_str-display_at Ty.u16 _ = refl
from_str-display_at Ty.u32 Op.add = refl
from_str-display_at Ty.u32 _ = refl
from_str-display_at Ty.i8 Op.add = refl
from_str-display_at Ty.i8 _ = refl
from_str-display_at Ty.i16 Op.add = refl
from_str-display_at Ty.i16 _ = refl
from_str-display_at Ty.i32 Op.add = refl
from_str-display_at Ty.i32 _ = refl
from_str-display_at Ty.f32 Op.add = refl
from_str-display_at Ty.f32 _ = refl

-- The text of a typed operator parses to that operator.
pub from_str-display : (t : TypedOp) → from_str (display t) ≡ parsed t
from_str-display t = from_str-display_at t.ty t.op
