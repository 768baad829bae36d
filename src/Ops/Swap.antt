-- ===== src/Ops/Swap.antt =====
-- `swap` exchanges the operands.
use hvm.Prelude.{ℕ, ◌≡◌, refl, ap, bit_and, ◌==◌, arith}
use hvm.Prelude.Words.{bit_and_comm, bit_or_comm, bit_xor_comm}
use hvm.Ops.Kinds.{Ty, Op, TypedOp, swap, swap_op}
use hvm.Ops.Unsigned
use hvm.Ops.Signed
use hvm.Ops.Numeric.{Numeric, Float, float_numeric}
use hvm.Ops.Apply.{apply, op, op_at, typed_op, word, u60_mask}
use native.Mathlib.Nat.{add_comm, mul_comm}

-- What `swap` relies on: the operators it leaves alone commute, and `>`, `>=` are `<`, `<=` the
-- other way round.
pub record Swaps {T : Type 0} (n : Numeric T) : Type 0 where
  pub add_comm : (a b : T) → n.add a b ≡ n.add b a
  pub mul_comm : (a b : T) → n.mul a b ≡ n.mul b a
  pub and_comm : (a b : T) → n.and a b ≡ n.and b a
  pub or_comm : (a b : T) → n.or a b ≡ n.or b a
  pub xor_comm : (a b : T) → n.xor a b ≡ n.xor b a
  pub eq_comm : (a b : T) → n.eq a b ≡ n.eq b a
  pub gt_flip : (a b : T) → n.gt a b ≡ n.lt b a
  pub ge_flip : (a b : T) → n.ge a b ≡ n.le b a

apply-swap_op :
    {T : Type 0} (n : Numeric T)
    → Swaps n
    → (o : Op) (a b : T) → apply n (swap_op o) a b ≡ apply n o b a
unfolding apply swap_op
apply-swap_op n s Op.add a b = ap n.to_word (s.add_comm a b)
apply-swap_op n s Op.mul a b = ap n.to_word (s.mul_comm a b)
apply-swap_op n s Op.and a b = ap n.to_word (s.and_comm a b)
apply-swap_op n s Op.or a b = ap n.to_word (s.or_comm a b)
apply-swap_op n s Op.xor a b = ap n.to_word (s.xor_comm a b)
apply-swap_op n s Op.eq a b = ap word (s.eq_comm a b)
apply-swap_op n s Op.ne a b = rw (s.eq_comm a b)
apply-swap_op n s Op.lt a b = ap word (s.gt_flip a b)
apply-swap_op n s Op.gt a b = rw (s.gt_flip b a)
apply-swap_op n s Op.le a b = ap word (s.ge_flip a b)
apply-swap_op n s Op.ge a b = rw (s.ge_flip b a)
apply-swap_op n s _ a b = refl

==_comm : (a b : ℕ) → (a == b) ≡ (b == a)
==_comm a b = ground arith

abbrev unsigned_swaps : (w : ℕ) → Swaps (Unsigned.numeric w)
unsigned_swaps w = record {
  add_comm = λ a b. rw (add_comm a b);
  mul_comm = λ a b. rw (mul_comm a b);
  and_comm = bit_and_comm;
  or_comm = bit_or_comm;
  xor_comm = bit_xor_comm;
  eq_comm = ==_comm;
  gt_flip = λ a b. refl;
  ge_flip = λ a b. refl;
}

abbrev signed_swaps : (w : ℕ) → Swaps (Signed.numeric w)
signed_swaps w = record {
  add_comm = λ a b. rw (add_comm a b);
  mul_comm = λ a b. rw (mul_comm a b);
  and_comm = bit_and_comm;
  or_comm = bit_or_comm;
  xor_comm = bit_xor_comm;
  eq_comm = ==_comm;
  gt_flip = λ a b. refl;
  ge_flip = λ a b. refl;
}

op-swap_op :
    {T : Type 0} (n : Numeric T) → Swaps n → (o : Op) (a b : ℕ) → op n (swap_op o) a b ≡ op n o b a
unfolding op
op-swap_op n s o a b = apply-swap_op n s o (n.from_word a) (n.from_word b)

-- The swapped operation of `t` on `a` and `b` is `t` on `b` and `a`, for every type and operator and
-- all words, if addition, multiplication and equality of floats commute and `>`, `>=` on floats are
-- `<`, `<=` with the operands exchanged.
pub typed_op-swap :
    {F : Type 0} (f : Float F)
    → Swaps (float_numeric f)
    → (t : TypedOp) (a b : ℕ) → typed_op f (swap t) a b ≡ typed_op f t b a
unfolding typed_op swap
typed_op-swap f s t a b = by_type t.ty t.op
  where
    by_type : (ty : Ty) (o : Op) → op_at f ty (swap_op o) a b ≡ op_at f ty o b a
    by_type Ty.i8 o = op-swap_op _ (signed_swaps 8) o a b
    by_type Ty.i16 o = op-swap_op _ (signed_swaps 16) o a b
    by_type Ty.i32 o = op-swap_op _ (signed_swaps 32) o a b
    by_type Ty.u8 o = op-swap_op _ (unsigned_swaps 8) o a b
    by_type Ty.u16 o = op-swap_op _ (unsigned_swaps 16) o a b
    by_type Ty.u32 o = op-swap_op _ (unsigned_swaps 32) o a b
    by_type Ty.u60 o = ap (λ x. bit_and x u60_mask) (op-swap_op _ (unsigned_swaps 64) o a b)
    by_type Ty.f32 o = op-swap_op _ s o a b
