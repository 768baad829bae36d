-- ===== src/Run/Net.antt =====
-- Reduction of a net (src/run/net.rs): the strict loop over the redex queue, and the lazy walk from the
-- root. The loops of the lazy walk take rounds, which are fuel.
pub mod Reduce
use hvm.Prelude.{
  ℕ, zero, suc, ◌+◌, ◌-◌, Bool, true, false, ◌||◌, ◌&&◌, not, Option, none, some, List, [], ◌∷◌,
  ◌==◌, if◌then◌else◌,
}
use hvm.Run.Tag.{Tag}
use hvm.Run.Addr.{left_half, other_half}
use hvm.Run.Port
use hvm.Run.Port.{era, new_var, is_principal, is_full_node, addr}
use hvm.Run.Linker
use hvm.Run.Linker.{Linker, Run, ok, Panic, Cmd, pure, fail, ◌>>=◌, ◌>>◌, alloc_node, RedexQueue}
use hvm.Run.Linker.Queue.{pop}
use hvm.Run.Linker.Wire.{as_var}
use hvm.Run.Linker.Link.{get_header, get_target_full}
use hvm.Run.Interact.{Machine, interact, call}

-- The net: its linker's state is that of the commands, and it has a root wire.
-- `Net::new`
unfoldable pub new_net : (mem : ℕ → ℕ) (base nodes : ℕ) → Bool → Run ℕ
new_net mem base nodes lazy = alloc_node (Linker.new mem base nodes lazy)

-- `self.redexes.pop()`
unfoldable pub pop_redex : Cmd (Option (ℕ × ℕ))
pop_redex l = elim (pop l.redexes) [
  | none ↦ ok none l
  | some (r, q) ↦ ok (some r) (record l { redexes = q })
]

unfoldable pub assert_strict : Cmd (Unit {0})
assert_strict l = if l.lazy then Run.panic Panic.is_lazy_mode else ok tt l

assert_lazy : Cmd (Unit {0})
assert_lazy l = if l.lazy then ok tt l else Run.panic Panic.not_lazy

-- A port is an auxiliary port of the root.
abbrev pub at_root : (next root net_root : ℕ) → Bool
at_root next root net_root = next == new_var root || next == new_var net_root

module _ {F : Type 0} (machine : Machine F) where
  -- `boot`, with the reference to the definition
  unfoldable pub boot : (def_ref root : ℕ) → Cmd (Unit {0})
  boot def_ref root = call machine def_ref (as_var root)

  -- The loop of `reduce`, which stops after `more + 1` interactions; `count` have been made.
  unfoldable pub reduce_loop : (more count : ℕ) → Cmd (Option ℕ)
  reduce_loop zero count = do
    r ← pop_redex
    elim r [ none ↦ pure (some count) | some (a, b) ↦ (do interact machine a b; pure none) ]
  reduce_loop (suc more) count = do
    r ← pop_redex
    elim r [
      | none ↦ pure (some count)
      | some (a, b) ↦ (do interact machine a b; reduce_loop more (count + 1))
    ]

  unfoldable pub reduce : (limit : ℕ) → Cmd (Option ℕ)
  reduce limit = do assert_strict; reduce_loop (limit - 1) 0

  -- The loop of `weak_normal`; `path` has the last pushed port first.
  unfoldable pub weak_loop : ℕ → (path : List ℕ) (prev root net_root : ℕ) → Cmd ℕ
  weak_loop zero path prev root net_root = fail Panic.hang
  weak_loop (suc rounds) path prev root net_root = do
    next ← get_target_full prev
    let again = weak_loop rounds path prev root net_root
    let popped : Cmd ℕ = elim path [
      | [] ↦ fail Panic.unwrapped_none
      | p ∷ ps ↦ weak_loop rounds ps p root net_root
    ]
    let pass : ℕ → Cmd ℕ = λ main. weak_loop rounds (prev ∷ path) main root net_root
    if at_root next root net_root
        then get_target_full prev
        else if is_principal next
        then (if is_principal prev
            then (do interact machine next prev; popped)
            else if Port.is next Tag.ref && not (next == era)
            then (do call machine next prev; again)
            else get_target_full prev)
        else (do main ← get_header (left_half (addr next)); pass main.this)

  -- `weak_normal`, for the given number of rounds
  unfoldable pub weak_normal : ℕ → (prev root net_root : ℕ) → Cmd ℕ
  unfolding weak_loop assert_lazy
  weak_normal rounds prev root net_root = do assert_lazy; weak_loop rounds [] prev root net_root

  -- The loop of `normal_from`; each visit takes a round, and walks for at most `steps` rounds.
  unfoldable pub visit_loop :
      (rounds steps : ℕ) (visit : List ℕ) (root net_root : ℕ) → Cmd (Unit {0})
  visit_loop rounds steps [] root net_root = pure tt
  visit_loop zero steps (prev ∷ visit) root net_root = fail Panic.hang
  visit_loop (suc rounds) steps (prev ∷ visit) root net_root = do
    next ← weak_normal steps prev root net_root
    let children = new_var (other_half (addr next)) ∷ new_var (addr next) ∷ visit
    visit_loop rounds steps (if is_full_node next then children else visit) root net_root

  unfoldable pub normal_from : (rounds steps : ℕ) (root net_root : ℕ) → Cmd (Unit {0})
  unfolding visit_loop assert_lazy
  normal_from rounds steps root net_root = do
    assert_lazy
    visit_loop rounds steps (new_var root ∷ []) root net_root
