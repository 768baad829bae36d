-- ===== src/Run/Linker/Queue.antt =====
-- The queue of active pairs (`RedexQueue`, `redex_would_shrink`, src/run/linker.rs).
pub mod Pops
use hvm.Prelude.{
  ℕ, ◌+◌, Bool, true, false, ◌&&◌, ◌||◌, not, Option, none, some, List, [], ◌∷◌, ◌++◌, ◌==◌,
  if◌then◌else◌, length,
}
use mathlib.Core.List.{reverse}
use hvm.Run.Tag.{Tag}
use hvm.Run.Port.{is, is_num, lab, era}
use hvm.Run.Linker.{RedexQueue, no_redexes}

unfoldable pub redex_would_shrink : (a b : ℕ) → Bool
unfolding is is_num lab
redex_would_shrink a b =
    (a == era || b == era)
    || (is a Tag.ctr && is b Tag.ctr && lab a == lab b)
    || (not (is a Tag.ref || is b Tag.ref) && (is_num a || is_num b))

unfoldable pub push_fast : RedexQueue → ℕ × ℕ → RedexQueue
push_fast q r = record q { fast = r ∷ q.fast }

unfoldable pub push_slow : RedexQueue → ℕ × ℕ → RedexQueue
push_slow q r = record q { slow = r ∷ q.slow }

pop_slow : RedexQueue → List (ℕ × ℕ) → Option ((ℕ × ℕ) × RedexQueue)
pop_slow q [] = none
pop_slow q (r ∷ rs) = some (r, record q { slow = rs })

pop_fast : RedexQueue → List (ℕ × ℕ) → Option ((ℕ × ℕ) × RedexQueue)
pop_fast q [] = pop_slow q q.slow
pop_fast q (r ∷ rs) = some (r, record q { fast = rs })

unfoldable pub pop : RedexQueue → Option ((ℕ × ℕ) × RedexQueue)
unfolding pop_fast pop_slow
pop q = pop_fast q q.fast

unfoldable pub len : RedexQueue → ℕ
len q = length q.fast + length q.slow

is_nil : List (ℕ × ℕ) → Bool
is_nil [] = true
is_nil (_ ∷ _) = false

unfoldable pub is_empty : RedexQueue → Bool
unfolding is_nil
is_empty q = is_nil q.fast && is_nil q.slow

-- The pairs in the order of `iter`, `iter_mut` and `drain`: both stacks from the bottom.
unfoldable pub iter : RedexQueue → List (ℕ × ℕ)
iter q = reverse q.fast ++ reverse q.slow

unfoldable pub drain : RedexQueue → List (ℕ × ℕ) × RedexQueue
unfolding iter
drain q = (iter q, no_redexes)

unfoldable pub clear : RedexQueue → RedexQueue
clear q = no_redexes
