-- ===== src/Ops/Tests.antt =====
-- Numbers below 2 ^ 32 in the place of floats, and the theorems on operations applied to small operands.
use hvm.Prelude.{ℕ, ◌+◌, ◌*◌, ◌-◌, ◌%◌, ◌/◌, ◌^◌, ◌≡◌, refl, ltb, leb, ◌==◌, arith, some}
use native.Mathlib.Nat.{add_comm, mul_comm}
use hvm.Ops.Kinds.{Ty, Op, typed, swap, Endian, try_from_u16, into_u16}
use hvm.Ops.Numeric.{Float, float_numeric}
use hvm.Ops.Apply.{typed_op}
use hvm.Ops.Swap.{Swaps, typed_op-swap}
use hvm.Ops.Order.{ComparesAs, integer, op-ComparesAs}
use hvm.Ops.Signed
use hvm.Ops.Codes.{try_from_u16-into_u16}

-- A float type for tests: its values are their bits.
abbrev pub bit_float : Float ℕ
bit_float = record {
  from_bits = λ b. b;
  to_bits = λ b. b % 2 ^ 32;
  zero = 0;
  add = λ a b. a + b;
  sub = λ a b. a - b;
  mul = λ a b. a * b;
  div = λ a b. a / b;
  rem = λ a b. a % b;
  eq = λ a b. a == b;
  lt = λ a b. ltb a b;
  le = λ a b. leb a b;
  gt = λ a b. ltb b a;
  ge = λ a b. leb b a;
}

==_comm : (a b : ℕ) → (a == b) ≡ (b == a)
==_comm a b = ground arith

bit_float-Swaps : Swaps (float_numeric bit_float)
bit_float-Swaps = record {
  add_comm = add_comm;
  mul_comm = mul_comm;
  and_comm = λ a b. refl;
  or_comm = λ a b. refl;
  xor_comm = λ a b. refl;
  eq_comm = ==_comm;
  gt_flip = λ a b. refl;
  ge_flip = λ a b. refl;
}

typed_op-swap_example :
    typed_op bit_float (swap (typed Ty.i8 Op.sub)) 3 250
    ≡ typed_op bit_float (typed Ty.i8 Op.sub) 250 3
typed_op-swap_example = typed_op-swap bit_float bit_float-Swaps (typed Ty.i8 Op.sub) 3 250

try_from_u16-into_u16_example :
    try_from_u16 Endian.little (into_u16 Endian.little (typed Ty.u32 Op.mul))
    ≡ some (typed Ty.u32 Op.mul)
try_from_u16-into_u16_example = try_from_u16-into_u16 Endian.little (typed Ty.u32 Op.mul)

-- -56 < 100 at i8
op-ComparesAs_example : ComparesAs (Signed.numeric 8) 200 100 (integer 8 200) (integer 8 100)
op-ComparesAs_example = op-ComparesAs 7 200 100
