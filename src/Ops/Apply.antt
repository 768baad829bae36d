-- ===== src/Ops/Apply.antt =====
-- `Op::op` and `TypedOp::op` (src/ops.rs): an operation on two 64-bit words.
use hvm.Prelude.{ℕ, bit_and, Bool, true, false, not}
use hvm.Ops.Kinds.{Ty, Op, TypedOp}
use hvm.Ops.Numeric.{Numeric, Float, float_numeric}
use hvm.Ops.Unsigned
use hvm.Ops.Signed

-- `bool` into `u64`
abbrev pub word : Bool → ℕ
word true = 1
word false = 0

unfoldable pub apply : {T : Type 0} → Numeric T → Op → (a b : T) → ℕ
apply n Op.add a b = n.to_word (n.add a b)
apply n Op.sub a b = n.to_word (n.sub a b)
apply n Op.sub_s a b = n.to_word (n.sub b a)
apply n Op.mul a b = n.to_word (n.mul a b)
apply n Op.div a b = n.to_word (n.div a b)
apply n Op.div_s a b = n.to_word (n.div b a)
apply n Op.rem a b = n.to_word (n.rem a b)
apply n Op.rem_s a b = n.to_word (n.rem b a)
apply n Op.and a b = n.to_word (n.and a b)
apply n Op.or a b = n.to_word (n.or a b)
apply n Op.xor a b = n.to_word (n.xor a b)
apply n Op.shl a b = n.to_word (n.shl a b)
apply n Op.shl_s a b = n.to_word (n.shl b a)
apply n Op.shr a b = n.to_word (n.shr a b)
apply n Op.shr_s a b = n.to_word (n.shr b a)
apply n Op.eq a b = word (n.eq a b)
apply n Op.ne a b = word (not (n.eq a b))
apply n Op.lt a b = word (n.lt a b)
apply n Op.le a b = word (n.le a b)
apply n Op.gt a b = word (n.gt a b)
apply n Op.ge a b = word (n.ge a b)

-- `Op::op::<T>`
unfoldable pub op : {T : Type 0} → Numeric T → Op → (a b : ℕ) → ℕ
unfolding apply
op n o a b = apply n o (n.from_word a) (n.from_word b)

abbrev pub u60_mask : ℕ
u60_mask = 0xFFF_FFFF_FFFF_FFFF

-- `TypedOp::op`
unfoldable pub op_at : {F : Type 0} → Float F → Ty → Op → (a b : ℕ) → ℕ
unfolding op
op_at f Ty.i8 o a b = op (Signed.numeric 8) o a b
op_at f Ty.i16 o a b = op (Signed.numeric 16) o a b
op_at f Ty.i32 o a b = op (Signed.numeric 32) o a b
op_at f Ty.u8 o a b = op (Unsigned.numeric 8) o a b
op_at f Ty.u16 o a b = op (Unsigned.numeric 16) o a b
op_at f Ty.u32 o a b = op (Unsigned.numeric 32) o a b
op_at f Ty.u60 o a b = bit_and (op (Unsigned.numeric 64) o a b) u60_mask
op_at f Ty.f32 o a b = op (float_numeric f) o a b

unfoldable pub typed_op : {F : Type 0} → Float F → TypedOp → (a b : ℕ) → ℕ
unfolding op_at
typed_op f t a b = op_at f t.ty t.op a b
