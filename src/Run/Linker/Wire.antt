-- ===== src/Run/Linker/Wire.antt =====
-- Reads and writes of a wire's target (src/run/wire.rs), as one thread makes them.
use hvm.Prelude.{ℕ, zero, suc, ◌==◌, if◌then◌else◌}
use hvm.Run.Allocator.{write}
use hvm.Run.Port.{lock, new_var}
use hvm.Run.Linker.{ok, Panic, Cmd, pure, fail, ◌>>=◌, with_mem}

unfoldable pub load_target : ℕ → Cmd ℕ
load_target w l = ok (l.allocator.mem w) l

unfoldable pub set_target : (w port : ℕ) → Cmd (Unit {0})
unfolding write
set_target w port l = ok tt (with_mem l (write l.allocator.mem w port))

-- The result of `compare_exchange`: the expected word, which was replaced, or another one.
pub data Exchange : Type 0 where
  done failed : ℕ → Exchange

unfoldable pub cas_target : (w expected value : ℕ) → Cmd Exchange
unfolding write
cas_target w expected value l =
    let got = l.allocator.mem w in
    if got == expected
    then ok (Exchange.done got) (with_mem l (write l.allocator.mem w value))
    else ok (Exchange.failed got) l

unfoldable pub swap_target : (w value : ℕ) → Cmd ℕ
unfolding write
swap_target w value l = ok (l.allocator.mem w) (with_mem l (write l.allocator.mem w value))

-- The loop of `lock_target`, for the given number of rounds.
unfoldable pub lock_loop : ℕ → (w : ℕ) → Cmd ℕ
unfolding swap_target
lock_loop zero w = fail Panic.hang
lock_loop (suc rounds) w = do
  got ← swap_target w lock
  let again = lock_loop rounds w
  if got == lock then again else pure got

abbrev pub spin_limit : ℕ
spin_limit = 4

unfoldable pub lock_target : ℕ → Cmd ℕ
unfolding lock_loop
lock_target w = lock_loop spin_limit w

-- `as_var`: the variable port of the wire.
unfoldable pub as_var : ℕ → ℕ
unfolding new_var
as_var w = new_var w
