-- ===== src/Run/Port/Numbers.antt =====
-- Numbers in ports: what `new_num` stores and `num` reads, and which results of the numeric
-- operations survive being stored.
use hvm.Prelude.{
  ℕ, suc, ◌+◌, ◌-◌, ◌*◌, ◌%◌, ◌^◌, ◌≤◌, ◌<◌, ◌≡◌, ◌≢◌, refl, arith, leb, if◌then◌else◌, inl, inr,
  ◌∙◌,
}
use hvm.Prelude.Words.{bit_or-shifted}
use hvm.Run.Tag.{Tag, tag_code}
use hvm.Run.Port.{new_num, tag, num}
use hvm.Run.Port.Fields.{tag-eq, tag_code-lt}
use hvm.Ops.Kinds.{Ty, Op, TypedOp}
use hvm.Ops.Numeric.{Float, float_numeric}
use hvm.Ops.Unsigned
use hvm.Ops.Signed
use hvm.Ops.Bounds.{IsResult, op-IsResult_unsigned, op-IsResult_signed}
use hvm.Ops.Apply.{typed_op, op_at, apply}

-- The low 60 bits of a word, read as a signed number and extended to 64 bits.
abbrev pub extend60 : ℕ → ℕ
extend60 v = let low = v % 2 ^ 60 in if leb (2 ^ 59) low then low + (2 ^ 64 - 2 ^ 60) else low

new_num_lem : (t : Tag) (v : ℕ) → new_num t v ≡ (v % 2 ^ 60) * 16 + tag_code t
unfolding new_num
new_num_lem t v =
    let p : (v * 2 ^ 4) % 2 ^ 64 ≡ (v % 2 ^ 60) * 2 ^ 4 = omega arith in
    rw p (bit_or-shifted 4 (v % 2 ^ 60) (tag_code t) (omega (arith, tag_code-lt t)))

-- A numeric port keeps its tag, and its number is the stored word's low 60 bits, sign-extended.
pub num-new_num : (t : Tag) (v : ℕ) → (tag (new_num t v) ≡ t) × (num (new_num t v) ≡ extend60 v)
unfolding num
num-new_num t v = (
  tag-eq _ t (omega (arith, new_num_lem t v, tag_code-lt t)),
  rw (new_num_lem t v) (ground (arith, tag_code-lt t)),
)

-- A word that `extend60` leaves alone.
abbrev Fits60 : ℕ → Type 0
Fits60 v = extend60 v ≡ v

result-Fits60_unsigned :
    (w r : ℕ) → 2 ^ w ≤ 2 ^ 32 → IsResult (Unsigned.numeric w) (2 ^ w) r → Fits60 r
result-Fits60_unsigned w r h (inl (x, lt, e)) = rw e (ground arith)
result-Fits60_unsigned w r h (inr lt) = ground arith

result-Fits60_signed :
    (v r : ℕ) → 2 ^ suc v ≤ 2 ^ 32 → IsResult (Signed.numeric (suc v)) (2 ^ suc v) r → Fits60 r
result-Fits60_signed v r h (inl (x, lt, e)) = rw e (ground arith)
result-Fits60_signed v r h (inr lt) = ground arith

float-Fits60 :
    {F : Type 0} (f : Float F)
    → ((x : F) → f.to_bits x < 2 ^ 32)
    → (o : Op) (a b : F) → Fits60 (apply (float_numeric f) o a b)
unfolding apply
float-Fits60 f h Op.add a b = ground (arith, h (f.add a b))
float-Fits60 f h Op.sub a b = ground (arith, h (f.sub a b))
float-Fits60 f h Op.sub_s a b = ground (arith, h (f.sub b a))
float-Fits60 f h Op.mul a b = ground (arith, h (f.mul a b))
float-Fits60 f h Op.div a b = ground (arith, h (f.div a b))
float-Fits60 f h Op.div_s a b = ground (arith, h (f.div b a))
float-Fits60 f h Op.rem a b = ground (arith, h (f.rem a b))
float-Fits60 f h Op.rem_s a b = ground (arith, h (f.rem b a))
float-Fits60 f h Op.eq a b = ground arith
float-Fits60 f h Op.ne a b = ground arith
float-Fits60 f h Op.lt a b = ground arith
float-Fits60 f h Op.gt a b = ground arith
float-Fits60 f h Op.le a b = ground arith
float-Fits60 f h Op.ge a b = ground arith
float-Fits60 f h _ a b = ground (arith, h f.zero)

op_at-Fits60 :
    {F : Type 0} (f : Float F)
    → ((x : F) → f.to_bits x < 2 ^ 32)
    → (ty : Ty) (o : Op) (a b : ℕ) → ty ≢ Ty.u60
    → Fits60 (op_at f ty o a b)
unfolding op_at
op_at-Fits60 f h Ty.u8 o a b ne =
    result-Fits60_unsigned 8 _ (omega arith) (op-IsResult_unsigned 8 o a b)
op_at-Fits60 f h Ty.u16 o a b ne =
    result-Fits60_unsigned 16 _ (omega arith) (op-IsResult_unsigned 16 o a b)
op_at-Fits60 f h Ty.u32 o a b ne =
    result-Fits60_unsigned 32 _ (omega arith) (op-IsResult_unsigned 32 o a b)
op_at-Fits60 f h Ty.u60 o a b ne = absurd (ne refl)
op_at-Fits60 f h Ty.i8 o a b ne =
    result-Fits60_signed 7 _ (omega arith) (op-IsResult_signed 7 o a b)
op_at-Fits60 f h Ty.i16 o a b ne =
    result-Fits60_signed 15 _ (omega arith) (op-IsResult_signed 15 o a b)
op_at-Fits60 f h Ty.i32 o a b ne =
    result-Fits60_signed 31 _ (omega arith) (op-IsResult_signed 31 o a b)
op_at-Fits60 f h Ty.f32 o a b ne = float-Fits60 f h o _ _

-- The result of an operation at any type but u60 reads back unchanged from the port that it is
-- stored in, whatever the operands, if the bits of a float are below 2 ^ 32.
pub num-new_num-typed_op :
    {F : Type 0} (f : Float F)
    → ((x : F) → f.to_bits x < 2 ^ 32)
    → (t : TypedOp) (tag : Tag) (a b : ℕ) → t.ty ≢ Ty.u60
    → num (new_num tag (typed_op f t a b)) ≡ typed_op f t a b
unfolding typed_op
num-new_num-typed_op f h t tag a b ne = (num-new_num tag _).1 ∙ op_at-Fits60 f h t.ty t.op a b ne
