-- ===== src/Run/Rule/Symmetry.antt =====
-- `interact` does the same to a pair of ports in either order.
use hvm.Prelude.{ℕ, Bool, true, not, ◌≡◌, arith}
use hvm.Run.Port
use hvm.Run.Port.{era, is_skippable}
use hvm.Run.Rule.{Rule, Kind, kind, rule, by_kind}

-- The rule with the two agents of a symmetric interaction exchanged.
abbrev pub mirror : Rule → Rule
mirror (Rule.comm22 a b) = Rule.comm22 b a
mirror (Rule.anni2 a b) = Rule.anni2 b a
mirror Rule.erase = Rule.erase
mirror Rule.unreachable = Rule.unreachable
mirror Rule.unimplemented = Rule.unimplemented
mirror (Rule.call a b) = Rule.call a b
mirror (Rule.comm02 a b) = Rule.comm02 a b
mirror (Rule.op_num a b) = Rule.op_num a b
mirror (Rule.mat_int a b) = Rule.mat_int a b

-- A reference that is called whatever it meets.
abbrev pub is_builtin : ℕ → Bool
is_builtin p = not (is_skippable p)

-- Two references that are both called whatever they meet.
abbrev pub BothCalled : (a b : ℕ) → Kind → Kind → Type 0
BothCalled a b Kind.ref Kind.ref = (is_builtin a ≡ true) × (is_builtin b ≡ true)
BothCalled a b _ _ = ⊥

by_kind-mirror :
    (a b : ℕ) (j k : Kind) → ¬ BothCalled a b j k → by_kind b a k j ≡ mirror (by_kind a b j k)
unfolding by_kind
by_kind-mirror a b j k distinct = ground arith

-- Exchanging the two ports exchanges the agents of an annihilation or commutation and changes
-- nothing else, for all ports but two references that are both not skippable.
pub rule_symm :
    (a b : ℕ)
    → ¬ BothCalled a b (kind (Port.tag a)) (kind (Port.tag b))
    → rule b a ≡ mirror (rule a b)
unfolding rule
rule_symm a b distinct = by_kind-mirror a b (kind (Port.tag a)) (kind (Port.tag b)) distinct
