-- ===== src/Run/Port/U60.antt =====
-- The u60 operations of src/ops.rs on numbers that come out of ports (src/run/port.rs): `num` extends
-- the sign of the 60-bit field, so a u60 from 2 ^ 59 on reaches the operation with its high bits set.
use hvm.Prelude.{
  ℕ, ◌+◌, ◌-◌, ◌/◌, ◌%◌, ◌^◌, ◌≤◌, ◌<◌, ◌≡◌, ◌≢◌, arith, ltb, ◌==◌, if◌then◌else◌, ◌∙◌,
}
use hvm.Prelude.Words.{bit_and-mask}
use hvm.Run.Tag.{Tag}
use hvm.Run.Port.{new_int, num}
use hvm.Run.Port.Numbers.{num-new_num, extend60}
use hvm.Ops.Kinds.{Ty, Op, typed}
use hvm.Ops.Numeric.{Float}
use hvm.Ops.Unsigned
use hvm.Ops.Bounds.{div-le, mod-le}
use hvm.Ops.Apply.{typed_op, apply, word}

-- The number that an interaction reads from a port made of `v`.
read : ℕ → ℕ
read v = num (new_int v)

read_lem : (v : ℕ) → read v ≡ extend60 v
unfolding read new_int
read_lem v = (num-new_num Tag.int v).1

module _ {F : Type 0} (f : Float F) where
  -- A u60 operation on the numbers of two ports.
  pub on_ports : Op → (a b : ℕ) → ℕ
  unfolding read
  on_ports o a b = typed_op f (typed Ty.u60 o) (read a) (read b)

  on_ports_lem :
      (o : Op) (a b : ℕ)
      → on_ports o a b
        ≡ apply (Unsigned.numeric 64) o (extend60 a % 2 ^ 64) (extend60 b % 2 ^ 64) % 2 ^ 60
  unfolding on_ports typed_op
  on_ports_lem o a b = rw (bit_and-mask 60, read_lem a, read_lem b)

  -- On 60-bit operands addition and subtraction are those modulo 2 ^ 60, and the order is the order
  -- of the numbers, also where the sign of an operand is extended.
  pub u60_exact :
      (a b : ℕ)
      → a < 2 ^ 60
      → b < 2 ^ 60
      → (on_ports Op.add a b ≡ (a + b) % 2 ^ 60)
        × (on_ports Op.sub a b ≡ (a + 2 ^ 60 - b) % 2 ^ 60)
        × (on_ports Op.lt a b ≡ word (ltb a b))
        × (on_ports Op.eq a b ≡ word (a == b))
  unfolding apply
  u60_exact a b h k = (
    on_ports_lem Op.add a b ∙ ground arith,
    on_ports_lem Op.sub a b ∙ ground arith,
    on_ports_lem Op.lt a b ∙ ground arith,
    on_ports_lem Op.eq a b ∙ ground arith,
  )

  -- A u60 from 2 ^ 59 on, halved by the program's division, comes out 2 ^ 59 too large.
  pub u60_div_wrong :
      (a : ℕ)
      → 2 ^ 59 ≤ a
      → a < 2 ^ 60
      → (on_ports Op.div a 2 ≡ a / 2 + 2 ^ 59) × (on_ports Op.div a 2 ≢ a / 2)
  unfolding apply
  u60_div_wrong a h k =
      let e : on_ports Op.div a 2 ≡ a / 2 + 2 ^ 59 = on_ports_lem Op.div a 2 ∙ ground arith in
      (e, omega arith)

  -- Division and remainder of u60 operands below 2 ^ 59 are those of the numbers, and 0 for a zero
  -- divisor.
  pub u60_div_small :
      (a b : ℕ)
      → a < 2 ^ 59
      → b < 2 ^ 59
      → (on_ports Op.div a b ≡ (if b == 0 then 0 else a / b))
        × (on_ports Op.rem a b ≡ (if b == 0 then 0 else a % b))
  unfolding apply
  u60_div_small a b h k = (
    on_ports_lem Op.div a b ∙ ground (arith, div-le a b),
    on_ports_lem Op.rem a b ∙ ground (arith, mod-le a b),
  )
