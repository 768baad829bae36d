-- ===== src/Run/Linker/Joins/Half.antt =====
-- Half of `link_wire_wire`: what a half link changes and what it leaves (src/run/linker.rs).
use hvm.Prelude.{ℕ, ◌≡◌, ◌≢◌, refl, false, ◌∙◌}
use mathlib.Core.Path.{sym}
use hvm.Run.Port.{new_var, lock}
use hvm.Run.Port.Fields.{IsAddr}
use hvm.Run.Linker.{Cmd, ◌>>=◌, Linker, ok}
use hvm.Run.Linker.Wire.{lock_target}
use hvm.Run.Linker.Link.{half_link_wire_port}
use hvm.Run.Linker.Strict.{lock_target-ok, IsTarget, new_var-IsTarget}
use hvm.Run.Linker.Ends.{End, port_of, LeadsBack, IsEnd, NotAt, Apart, Targets}
use hvm.Run.Linker.Joins.{
  freed, set_word, half_wire_aux, half_wire_agent, write-at, write-off, freed-off,
}

-- Half of `link_wire_wire`: the end `e` of the wire `a` is linked to the port `q`.
unfoldable pub half : Linker → (a : ℕ) → End → (q : ℕ) → Linker
half l a (End.agent p) q = freed l a
half l a (End.aux c) q = freed (set_word l c q) a

pub half-eq :
    (l : Linker) (a q : ℕ) (e : End)
    → l.lazy ≡ false
    → LeadsBack l a e
    → half_link_wire_port (port_of e) a q l ≡ ok tt (half l a e q)
unfolding half
half-eq l a q (End.agent p) strict h = half_wire_agent l p a q strict h
half-eq l a q (End.aux c) strict h = half_wire_aux l c a q (h.0) (h.1)

pub half-strict : (l : Linker) (a q : ℕ) (e : End) → (half l a e q).lazy ≡ l.lazy
unfolding half freed set_word
half-strict l a q (End.agent p) = refl
half-strict l a q (End.aux c) = refl

pub half-rwts :
    (l : Linker) (a q : ℕ) (e : End)
    → ((half l a e q).rwts ≡ l.rwts) × ((half l a e q).redexes ≡ l.redexes)
unfolding half freed set_word
half-rwts l a q (End.agent p) = (refl, refl)
half-rwts l a q (End.aux c) = (refl, refl)

-- Every other word keeps its target.
pub half-off :
    (l : Linker) (a q u p : ℕ) (e : End)
    → u ≢ a
    → NotAt u e
    → l.allocator.mem u ≡ p
    → IsTarget p
    → (half l a e q).allocator.mem u ≡ p
unfolding half set_word
half-off l a q u p (End.agent _) ua ue m t = freed-off l a u p ua m t
half-off l a q u p (End.aux c) ua ue m t =
    freed-off (set_word l c q) a u p ua (write-off _ c q u (λ x. ue (sym x)) ∙ m) t

-- The end has the port as its target.
pub half-at :
    (l : Linker) (a q : ℕ) (e : End) → LeadsBack l a e → IsTarget q → Targets (half l a e q) e q
unfolding half set_word
half-at l a q (End.agent _) h t = tt
half-at l a q (End.aux c) h t = freed-off (set_word l c q) a c q (h.2) (write-at _ c q) t

-- The linker while both wires are locked.
unfoldable pub both : Linker → (a b : ℕ) → Linker
both l a b = set_word (set_word l a lock) b lock

pub both-off :
    (l : Linker) (a b u : ℕ) → u ≢ a → u ≢ b → (both l a b).allocator.mem u ≡ l.allocator.mem u
unfolding both set_word
both-off l a b u ua ub = write-off _ b lock u ub ∙ write-off _ a lock u ua

pub both-LeadsBack :
    (l : Linker) (a b w : ℕ) (e : End)
    → LeadsBack l w e
    → NotAt a e
    → NotAt b e
    → LeadsBack (both l a b) w e
both-LeadsBack l a b w (End.agent p) h _ _ = h
both-LeadsBack l a b w (End.aux c) h na nb = (h.0, both-off l a b c na nb ∙ h.1, h.2)

pub both-strict :
    (l : Linker) (a b : ℕ)
    → ((both l a b).lazy ≡ l.lazy)
      × ((both l a b).rwts ≡ l.rwts)
      × ((both l a b).redexes ≡ l.redexes)
unfolding both set_word
both-strict l a b = (refl, refl, refl)

pub leads-IsEnd : (l : Linker) (w : ℕ) (e : End) → LeadsBack l w e → IsEnd e
leads-IsEnd l w (End.agent p) h = h
leads-IsEnd l w (End.aux c) h = h.0

pub leads-NotAt : (l : Linker) (w : ℕ) (e : End) → LeadsBack l w e → NotAt w e
leads-NotAt l w (End.agent p) h = tt
leads-NotAt l w (End.aux c) h = h.2

-- A half link at another wire leaves the end of this one where it was.
pub half-LeadsBack :
    (l : Linker) (a b q : ℕ) (e f : End)
    → IsAddr b
    → LeadsBack l b f
    → NotAt a f
    → Apart e f
    → LeadsBack (half l a e q) b f
half-LeadsBack l a b q e (End.agent p) hb h na ap = h
half-LeadsBack l a b q (End.agent r) (End.aux d) hb h na ap =
    (h.0, half-off l a q d (new_var b) (End.agent r) na tt (h.1) (new_var-IsTarget b hb), h.2)
half-LeadsBack l a b q (End.aux c) (End.aux d) hb h na ap =
    (h.0, half-off l a q d (new_var b) (End.aux c) na ap (h.1) (new_var-IsTarget b hb), h.2)

-- Both wires are locked, and their targets are read.
pub locks :
    {A : Type 0} (l : Linker) (a b : ℕ) (p q : ℕ) (k : ℕ → ℕ → Cmd A)
    → a ≢ b
    → l.allocator.mem a ≡ p
    → l.allocator.mem b ≡ q
    → IsTarget p
    → IsTarget q
    → (lock_target a >>= (λ x. lock_target b >>= k x)) l ≡ k p q (both l a b)
unfolding both set_word
locks l a b p q k ne at bt tp tq =
    rw (lock_target-ok a l (λ x. tp.ne_lock (sym at ∙ x)), at)
      (rw
        (
          lock_target-ok b (set_word l a lock)
              (λ x. tq.ne_lock (sym bt ∙ sym (write-off _ a lock b (λ y. ne (sym y))) ∙ x)),
          write-off (l.allocator.mem) a lock b (λ y. ne (sym y)),
          bt,
        )
        refl)
