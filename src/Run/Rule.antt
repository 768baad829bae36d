-- ===== src/Run/Rule.antt =====
-- The match of `interact` (src/run/interact.rs): which interaction two ports have.
pub mod Symmetry
use hvm.Prelude.{ℕ, Bool, true, false, ◌&&◌, not, ◌==◌, leb, if◌then◌else◌}
use hvm.Run.Tag.{Tag}
use hvm.Run.Port
use hvm.Run.Port.{era, is_skippable}

-- What an interaction does. The first port of `comm02`, `call`, `mat_int` and `op_num` is the
-- nilary agent, the reference, the match and the operation.
pub data Rule : Type 0 where
  erase unreachable unimplemented : Rule
  call comm22 anni2 comm02 op_num mat_int : (a b : ℕ) → Rule

-- A tag as the arms of the match name it; `other` is `Var | Red`.
pub data Kind : Type 0 where
  other ref num op mat ctr : Kind

abbrev pub kind : Tag → Kind
kind Tag.red = Kind.other
kind Tag.var = Kind.other
kind Tag.ref = Kind.ref
kind Tag.int = Kind.num
kind Tag.f32 = Kind.num
kind Tag.op = Kind.op
kind Tag.mat = Kind.mat
kind Tag.ctr = Kind.ctr

-- Two nilary agents: `(Ref, Ref | Int | F32)` and its mirror image, then the erasure.
nilary : (a b : ℕ) (a_ref b_ref : Bool) → Rule
nilary a b a_ref b_ref =
    if a_ref && not (is_skippable a)
    then Rule.call a b
    else if b_ref && not (is_skippable b)
    then Rule.call b a
    else Rule.erase

-- A reference `a` and a combinator `b`.
ref_ctr : (a b : ℕ) → Rule
ref_ctr a b =
    if leb (Port.lab a) (Port.lab b)
    then Rule.comm02 a b
    else if a == era
    then Rule.comm02 a b
    else Rule.call a b

-- A reference `a` and an operation or match `b`.
ref_node : (a b : ℕ) → Rule
ref_node a b = if a == era then Rule.comm02 a b else Rule.call a b

-- A match `a` and a number `b`: floats are not matched on.
mat_num : (a b : ℕ) → Rule
mat_num a b = if Port.is b Tag.int then Rule.mat_int a b else Rule.unimplemented

by_kind : (a b : ℕ) → Kind → Kind → Rule
unfolding nilary ref_ctr ref_node mat_num
by_kind a b Kind.other _ = Rule.unreachable
by_kind a b _ Kind.other = Rule.unreachable
by_kind a b Kind.ref Kind.ref = nilary a b true true
by_kind a b Kind.ref Kind.num = nilary a b true false
by_kind a b Kind.num Kind.ref = nilary a b false true
by_kind a b Kind.num Kind.num = nilary a b false false
by_kind a b Kind.ctr Kind.mat =
    if not (Port.lab a == 0) then Rule.comm22 a b else Rule.unimplemented
by_kind a b Kind.mat Kind.ctr =
    if not (Port.lab b == 0) then Rule.comm22 a b else Rule.unimplemented
by_kind a b Kind.ctr Kind.op = Rule.comm22 a b
by_kind a b Kind.op Kind.ctr = Rule.comm22 a b
by_kind a b Kind.ctr Kind.ctr =
    if not (Port.lab a == Port.lab b) then Rule.comm22 a b else Rule.anni2 a b
by_kind a b Kind.mat Kind.mat = Rule.anni2 a b
by_kind a b Kind.op Kind.op = Rule.anni2 a b
by_kind a b Kind.ref Kind.ctr = ref_ctr a b
by_kind a b Kind.ctr Kind.ref = ref_ctr b a
by_kind a b Kind.num Kind.ctr = Rule.comm02 a b
by_kind a b Kind.ctr Kind.num = Rule.comm02 b a
by_kind a b Kind.ref Kind.op = ref_node a b
by_kind a b Kind.ref Kind.mat = ref_node a b
by_kind a b Kind.op Kind.ref = ref_node b a
by_kind a b Kind.mat Kind.ref = ref_node b a
by_kind a b Kind.op Kind.num = Rule.op_num a b
by_kind a b Kind.num Kind.op = Rule.op_num b a
by_kind a b Kind.mat Kind.num = mat_num a b
by_kind a b Kind.num Kind.mat = mat_num b a
by_kind a b Kind.op Kind.mat = Rule.unimplemented
by_kind a b Kind.mat Kind.op = Rule.unimplemented

-- The arm of the match of `interact` that two ports take.
unfoldable pub rule : (a b : ℕ) → Rule
unfolding by_kind
rule a b = by_kind a b (kind (Port.tag a)) (kind (Port.tag b))
