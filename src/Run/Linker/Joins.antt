-- ===== src/Run/Linker/Joins.antt =====
-- The half links at an auxiliary port and at a principal one, in strict mode.
pub mod Half
pub mod WirePort
pub mod Loop
pub mod WireWire
use hvm.Prelude.{
  ℕ, zero, suc, ◌+◌, ◌≡◌, ◌≢◌, refl, Bool, true, false, ◌&&◌, not, arith, ◌⊎◌, inl, inr, Bool-cases,
  List, [], ◌∷◌, if◌then◌else◌, ◌==◌, ◌∙◌,
}
use mathlib.Core.Path.{sym}
use hvm.Run.Tag.{Tag}
use hvm.Run.Port.{new_var, is_principal, is_skippable, is, wire, free, lock}
use hvm.Run.Port.Fields.{IsAddr}
use hvm.Run.Allocator.{write, half_free}
use hvm.Run.Linker.{Linker, Run, ok, RedexQueue, with_mem, free_wire}
use hvm.Run.Linker.Wire.{cas_target, as_var, set_target, lock_target}
use hvm.Run.Linker.Link.{
  half_link_port_port, half_link_wire_port, redux, link_wire_port, link_wire_wire,
}
use hvm.Run.Linker.Queue.{redex_would_shrink, push_fast, push_slow}
use hvm.Run.Linker.Strict.{
  half_free_keeps, lock_target-ok, wire-new_var, is-new_var, is_principal-new_var,
  not_var_of_principal, not_red_of_principal, IsTarget, principal-IsTarget, new_var-IsTarget,
}
use hvm.Run.Linker.Ends.{
  End, port_of, LeadsBack, IsEnd, NotAt, Apart, Targets, Queued, Joined, Spared, port_of-IsTarget,
}

unfoldable pub freed : Linker → ℕ → Linker
freed l w = record l { allocator = half_free l.allocator w }

unfoldable pub set_word : Linker → (w p : ℕ) → Linker
set_word l w p = with_mem l (write l.allocator.mem w p)

-- The half links, at an auxiliary port and at a principal one.
pub half_wire_aux :
    (l : Linker) (c a q : ℕ)
    → IsAddr c
    → l.allocator.mem c ≡ new_var a
    → half_link_wire_port (new_var c) a q l ≡ ok tt (freed (set_word l c q) a)
unfolding half_link_wire_port cas_target as_var free_wire freed set_word
half_wire_aux l c a q h e = rw (is-new_var c h, wire-new_var c h) (rw e (ground arith))

pub half_wire_agent :
    (l : Linker) (p a q : ℕ)
    → l.lazy ≡ false
    → is_principal p ≡ true
    → half_link_wire_port p a q l ≡ ok tt (freed l a)
unfolding half_link_wire_port free_wire freed
half_wire_agent l p a q strict h = rw (not_var_of_principal p h) (ground arith)

pub half_port_aux :
    (l : Linker) (d p : ℕ) → IsAddr d → half_link_port_port (new_var d) p l ≡ ok tt (set_word l d p)
unfolding half_link_port_port set_target set_word
half_port_aux l d p h = rw (is-new_var d h, wire-new_var d h) refl

pub half_port_agent :
    (l : Linker) (p q : ℕ)
    → l.lazy ≡ false
    → is_principal p ≡ true
    → half_link_port_port p q l ≡ ok tt l
unfolding half_link_port_port
half_port_agent l p q strict h = rw (not_var_of_principal p h) (ground arith)

unfoldable pub queue : Linker → (p q : ℕ) → Linker
queue l p q =
    if is_skippable p && is_skippable q
    then record l { rwts = record (l.rwts) { eras = l.rwts.eras + 1 } }
    else record l {
      redexes =
          if redex_would_shrink p q then push_fast l.redexes (p, q) else push_slow l.redexes (p, q);
    }

pub redux-queue :
    (l : Linker) (p q : ℕ)
    → l.lazy ≡ false
    → is_principal p ≡ true
    → is_principal q ≡ true
    → redux p q l ≡ ok tt (queue l p q)
unfolding redux queue
redux-queue l p q strict h k =
    rw
      (
        not_var_of_principal p h,
        not_red_of_principal p h,
        not_var_of_principal q k,
        not_red_of_principal q k,
      )
      (ground arith)

pub write-at : (m : ℕ → ℕ) (w p : ℕ) → write m w p w ≡ p
unfolding write
write-at m w p = ground arith

pub write-off : (m : ℕ → ℕ) (w p u : ℕ) → u ≢ w → write m w p u ≡ m u
unfolding write
write-off m w p u ne = ground arith

-- A word in use keeps its target when another word is freed.
pub freed-off :
    (l : Linker) (w u p : ℕ)
    → u ≢ w
    → l.allocator.mem u ≡ p
    → IsTarget p
    → (freed l w).allocator.mem u ≡ p
unfolding freed
freed-off l w u p ne e t = half_free_keeps l.allocator w u ne (λ h. t.ne_free (sym e ∙ h)) ∙ e

unfoldable pub locked : Linker → ℕ → Linker
locked l a = set_word l a lock

pub queue-allocator : (l : Linker) (p q : ℕ) → (queue l p q).allocator ≡ l.allocator
unfolding queue
queue-allocator l p q = ground arith

pub queue-lazy : (l : Linker) (p q : ℕ) → (queue l p q).lazy ≡ l.lazy
unfolding queue
queue-lazy l p q = ground arith
