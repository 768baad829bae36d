-- ===== src/Run/Allocator.antt =====
-- The allocator (src/run/allocator.rs). The heap is `nodes` two-word nodes from the address `base`
-- on, and its words are a function of the address. Freed nodes form a list: its head is in `head`,
-- and the first word of each holds the address of the next.
pub mod FreeList
pub mod Alloc
pub mod HalfFree
use hvm.Prelude.{ℕ, ◌+◌, ◌*◌, Option, none, some, ltb, ◌==◌, if◌then◌else◌}
use hvm.Run.Addr.{null, left_half, other_half}
use hvm.Run.Port.{free, lock}

pub record Allocator : Type 0 where
  pub mem : ℕ → ℕ
  pub base : ℕ
  pub nodes : ℕ
  pub next : ℕ
  pub head : ℕ

unfoldable pub write : (ℕ → ℕ) → (addr value : ℕ) → ℕ → ℕ
write mem addr value a = if a == addr then value else mem a

abbrev pub store : Allocator → (addr value : ℕ) → Allocator
store s addr value = record s { mem = write s.mem addr value }

-- Pushes a node whose words are both free, if the exchange of its first word succeeds.
unfoldable pub append : Allocator → ℕ → Allocator
append s addr = if s.mem addr == free then record (store s addr s.head) { head = addr } else s

-- `Allocator::half_free`, without the assertions of the fuzzer
unfoldable pub half_free : Allocator → ℕ → Allocator
unfolding append write
half_free s addr =
    let s' = store s addr free in
    if s'.mem (other_half addr) == free then append s' (left_half addr) else s'

-- Locks both words of the node that was taken.
unfoldable pub taken : Allocator → ℕ → ℕ × Allocator
taken s addr = (addr, store (store s addr lock) (other_half addr) lock)

-- `Allocator::alloc`; `none` is the panic "OOM".
unfoldable pub alloc : Allocator → Option (ℕ × Allocator)
unfolding taken write
alloc s =
    if s.head == null
    then (if ltb s.next s.nodes
        then some (taken (record s { next = s.next + 1 }) (s.base + 16 * s.next))
        else none)
    else some (taken (record s { head = s.mem s.head }) s.head)

-- `Allocator::new`
unfoldable pub new : (mem : ℕ → ℕ) (base nodes : ℕ) → Allocator
new mem base nodes = record { mem = mem; base = base; nodes = nodes; next = 0; head = null }
