-- ===== src/Run/Linker/Ends.antt =====
-- What a wire leads to, and what it means that two such ends are joined.
use hvm.Prelude.{ℕ, ◌+◌, ◌≡◌, ◌≢◌, true, ◌&&◌, if◌then◌else◌}
use hvm.Run.Port.{new_var, is_principal, is_skippable}
use hvm.Run.Port.Fields.{IsAddr}
use hvm.Run.Linker.{Linker}
use hvm.Run.Linker.Queue.{redex_would_shrink, push_fast, push_slow}
use hvm.Run.Linker.Strict.{IsTarget, principal-IsTarget, new_var-IsTarget}

-- A principal port, or the auxiliary port whose word is at the address.
pub data End : Type 0 where
  agent aux : ℕ → End

abbrev pub port_of : End → ℕ
port_of (End.agent p) = p
port_of (End.aux c) = new_var c

-- The end is well formed, and an auxiliary port has the wire `w` as its target.
abbrev pub LeadsBack : Linker → (w : ℕ) → End → Type 0
LeadsBack l w (End.agent p) = is_principal p ≡ true
LeadsBack l w (End.aux c) = IsAddr c × (l.allocator.mem c ≡ new_var w) × (c ≢ w)

-- The end is well formed.
abbrev pub IsEnd : End → Type 0
IsEnd (End.agent p) = is_principal p ≡ true
IsEnd (End.aux c) = IsAddr c

-- The word of the end is not at the address `w`.
abbrev pub NotAt : (w : ℕ) → End → Type 0
NotAt w (End.agent p) = Unit
NotAt w (End.aux c) = c ≢ w

-- Not one auxiliary port twice.
abbrev pub Apart : End → End → Type 0
Apart (End.aux c) (End.aux d) = c ≢ d
Apart _ _ = Unit

-- An auxiliary port has the target `q`; a principal port stores no target in strict mode.
abbrev pub Targets : Linker → End → (q : ℕ) → Type 0
Targets l (End.agent p) q = Unit
Targets l (End.aux c) q = l.allocator.mem c ≡ q

-- The pair is counted as an erasure if both ports are skippable, and is queued otherwise.
abbrev pub Queued : (l l' : Linker) (p q : ℕ) → Type 0
Queued l l' p q =
    if is_skippable p && is_skippable q
    then (l'.rwts ≡ record (l.rwts) { eras = l.rwts.eras + 1 }) × (l'.redexes ≡ l.redexes)
    else (l'.rwts ≡ l.rwts)
      × (l'.redexes ≡ (
          if redex_would_shrink p q
          then push_fast l.redexes (p, q)
          else push_slow l.redexes (p, q)))

-- Two principal ports make an active pair; any other two ends have one another for targets.
abbrev pub Joined : (l l' : Linker) → End → End → Type 0
Joined l l' (End.agent p) (End.agent q) = Queued l l' p q
Joined l l' e f =
    Targets l' e (port_of f)
    × Targets l' f (port_of e)
    × (l'.rwts ≡ l.rwts)
    × (l'.redexes ≡ l.redexes)

-- No word that is in use changes but those of `w` and of the ends.
abbrev pub Spared : (l l' : Linker) (w : ℕ) → End → End → Type 0
Spared l l' w e f =
    (u : ℕ)
    → u ≢ w
    → NotAt u e
    → NotAt u f
    → IsTarget (l.allocator.mem u)
    → l'.allocator.mem u ≡ l.allocator.mem u

pub port_of-IsTarget : (e : End) → IsEnd e → IsTarget (port_of e)
port_of-IsTarget (End.agent p) h = principal-IsTarget p h
port_of-IsTarget (End.aux c) h = new_var-IsTarget c h
