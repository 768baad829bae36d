-- ===== src/Run/Linker.antt =====
-- The linker's state (src/run/linker.rs, src/run.rs) and the commands over it: a run ends with a
-- result and a new state, or with a panic.
pub mod Queue
pub mod Wire
pub mod Link
pub mod Trg
pub mod Strict
pub mod Ends
pub mod Joins
pub mod Sequence
use hvm.Prelude.{ℕ, ◌+◌, Bool, true, false, Option, none, some, List, [], ◌∷◌, ◌==◌, if◌then◌else◌}
use hvm.Run.Allocator
use hvm.Run.Allocator.{Allocator, alloc, half_free}

-- The counters of src/run.rs.
pub record Rewrites : Type 0 where
  pub anni : ℕ
  pub comm : ℕ
  pub eras : ℕ
  pub dref : ℕ
  pub oper : ℕ

abbrev pub no_rewrites : Rewrites
no_rewrites = record { anni = 0; comm = 0; eras = 0; dref = 0; oper = 0 }

unfoldable pub total : Rewrites → ℕ
total r = r.anni + r.comm + r.eras + r.dref + r.oper

-- `Add for Rewrites`
unfoldable pub add : Rewrites → Rewrites → Rewrites
add r s = record {
  anni = r.anni + s.anni;
  comm = r.comm + s.comm;
  eras = r.eras + s.eras;
  dref = r.dref + s.dref;
  oper = r.oper + s.oper;
}

-- `AddAssign for Rewrites`
unfoldable pub add_assign : (self rhs : Rewrites) → Rewrites
unfolding add
add_assign self rhs = add self rhs

-- `add_to`, of counters to atomic counters and back, as one thread makes them: the new target.
unfoldable pub add_to : (self target : Rewrites) → Rewrites
unfolding add_assign
add_to self target = add_assign target self

-- The two stacks of active pairs, the last pushed pair first.
pub record RedexQueue : Type 0 where
  pub fast : List (ℕ × ℕ)
  pub slow : List (ℕ × ℕ)

abbrev pub no_redexes : RedexQueue
no_redexes = record { fast = []; slow = [] }

-- What lazy mode keeps of a node: its principal port and the port connected to it.
pub record Header : Type 0 where
  pub this : ℕ
  pub targ : ℕ

-- `lazy` is the constant of the mode.
pub record Linker : Type 0 where
  pub allocator : Allocator
  pub rwts : Rewrites
  pub redexes : RedexQueue
  pub headers : ℕ → Option Header
  pub lazy : Bool

-- `oom`: the heap is full. `hang`: a loop waits for a word that no other thread will change, or has
-- run out of fuel. `undefined`: an `unwrap_unchecked` or `unreachable_unchecked` that is reached.
-- `assertion`: a `debug_assert!` that fails. `no_def` and `unbound`: the host meets a name without a
-- definition, or a variable that occurs once.
pub data Panic : Type 0 where
  oom hang unreachable unimplemented no_header not_lazy is_lazy_mode unwrapped_none undefined no_def
        unbound overflow assertion :
      Panic

pub data Run (A : Type 0) : Type 0 where
  ok : A → Linker → Run A
  panic : Panic → Run A

abbrev pub Cmd : Type 0 → Type 0
Cmd A = Linker → Run A

abbrev pub pure : {A : Type 0} → A → Cmd A
pure = ok

abbrev pub fail : {A : Type 0} → Panic → Cmd A
fail p l = panic p

module _ {A B : Type 0} where
  abbrev pub and_then : Run A → (A → Cmd B) → Run B
  and_then (ok a l) k = k a l
  and_then (panic p) k = panic p

  infixl 5 ◌>>=◌ ◌>>◌
  abbrev pub ◌>>=◌ : Cmd A → (A → Cmd B) → Cmd B
  m >>= k = λ l. and_then (m l) k

  abbrev pub ◌>>◌ : Cmd A → Cmd B → Cmd B
  m >> n = m >>= λ _. n

-- `Linker::new`
unfoldable pub new : (mem : ℕ → ℕ) (base nodes : ℕ) → Bool → Linker
unfolding Allocator.new
new mem base nodes lazy = record {
  allocator = Allocator.new mem base nodes;
  rwts = no_rewrites;
  redexes = no_redexes;
  headers = λ _. none;
  lazy = lazy;
}

abbrev pub with_mem : Linker → (ℕ → ℕ) → Linker
with_mem l m = record l { allocator = record (l.allocator) { mem = m } }

abbrev pub is_lazy : Cmd Bool
is_lazy l = ok l.lazy l

-- The counters, one more.
abbrev pub count_anni : Cmd (Unit {0})
count_anni l = ok tt (record l { rwts = record (l.rwts) { anni = l.rwts.anni + 1 } })

abbrev pub count_comm : Cmd (Unit {0})
count_comm l = ok tt (record l { rwts = record (l.rwts) { comm = l.rwts.comm + 1 } })

abbrev pub count_eras : Cmd (Unit {0})
count_eras l = ok tt (record l { rwts = record (l.rwts) { eras = l.rwts.eras + 1 } })

abbrev pub count_dref : Cmd (Unit {0})
count_dref l = ok tt (record l { rwts = record (l.rwts) { dref = l.rwts.dref + 1 } })

abbrev pub count_oper : Cmd (Unit {0})
count_oper l = ok tt (record l { rwts = record (l.rwts) { oper = l.rwts.oper + 1 } })

-- `free_wire`
unfoldable pub free_wire : ℕ → Cmd (Unit {0})
free_wire w l = ok tt (record l { allocator = half_free l.allocator w })

-- `alloc` of the linker's allocator
unfoldable pub alloc_node : Cmd ℕ
alloc_node l = elim (alloc l.allocator) [
  | none ↦ panic oom
  | some (a, s) ↦ ok a (record l { allocator = s })
]
