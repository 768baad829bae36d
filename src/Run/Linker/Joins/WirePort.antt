-- ===== src/Run/Linker/Joins/WirePort.antt =====
-- `link_wire_port` joins the end of the wire with the port (src/run/linker.rs).
use hvm.Prelude.{ℕ, ◌≡◌, refl, false, arith, ◌∙◌}
use mathlib.Core.Path.{sym}
use hvm.Run.Port.{new_var, lock}
use hvm.Run.Linker.{Linker, ok, free_wire}
use hvm.Run.Linker.Link.{link_wire_port}
use hvm.Run.Linker.Strict.{
  lock_target-ok, is_principal-new_var, principal-IsTarget, new_var-IsTarget,
}
use hvm.Run.Linker.Ends.{End, port_of, LeadsBack, IsEnd, NotAt, Apart, Joined, Spared}
use hvm.Run.Linker.Joins.{
  freed, set_word, queue, locked, half_wire_aux, half_wire_agent, half_port_aux, half_port_agent,
  redux-queue, write-at, write-off, freed-off, queue-allocator,
}

-- The linker after `link_wire_port`.
linked : (l : Linker) (a : ℕ) → End → End → Linker
linked l a (End.agent p) (End.agent q) = queue (freed (locked l a) a) p q
linked l a (End.agent p) (End.aux d) = set_word (freed (locked l a) a) d p
linked l a (End.aux c) (End.agent q) = freed (set_word (locked l a) c q) a
linked l a (End.aux c) (End.aux d) =
    set_word (freed (set_word (locked l a) c (new_var d)) a) d (new_var c)

link_wire_port-linked :
    (l : Linker) (a : ℕ) (e f : End)
    → l.lazy ≡ false
    → l.allocator.mem a ≡ port_of e
    → LeadsBack l a e
    → IsEnd f
    → link_wire_port a (port_of f) l ≡ ok tt (linked l a e f)
unfolding link_wire_port free_wire linked locked freed set_word
link_wire_port-linked l a (End.agent p) (End.agent q) strict at h g =
    rw (lock_target-ok a l (λ x. (principal-IsTarget p h).ne_lock (sym at ∙ x)), at, h, g)
      (redux-queue _ p q strict h g)
link_wire_port-linked l a (End.agent p) (End.aux d) strict at h g =
    rw
      (
        lock_target-ok a l (λ x. (principal-IsTarget p h).ne_lock (sym at ∙ x)),
        at,
        h,
        is_principal-new_var d g,
        half_wire_agent (locked l a) p a (new_var d) strict h,
      )
      (half_port_aux _ d p g)
link_wire_port-linked l a (End.aux c) (End.agent q) strict at h g =
    rw
      (
        lock_target-ok a l (λ x. (new_var-IsTarget c (h.0)).ne_lock (sym at ∙ x)),
        at,
        is_principal-new_var c (h.0),
        half_wire_aux (locked l a) c a q (h.0) (write-off _ a lock c (h.2) ∙ h.1),
      )
      (half_port_agent _ q (new_var c) strict g)
link_wire_port-linked l a (End.aux c) (End.aux d) strict at h g =
    rw
      (
        lock_target-ok a l (λ x. (new_var-IsTarget c (h.0)).ne_lock (sym at ∙ x)),
        at,
        is_principal-new_var c (h.0),
        half_wire_aux (locked l a) c a (new_var d) (h.0) (write-off _ a lock c (h.2) ∙ h.1),
      )
      (half_port_aux _ d (new_var c) g)

linked-Joined :
    (l : Linker) (a : ℕ) (e f : End)
    → LeadsBack l a e
    → IsEnd f
    → NotAt a f
    → Apart e f
    → Joined l (linked l a e f) e f
unfolding linked locked queue set_word freed
linked-Joined l a (End.agent p) (End.agent q) h g na ap = ground arith
linked-Joined l a (End.agent p) (End.aux d) h g na ap = (tt, write-at _ d p, refl, refl)
linked-Joined l a (End.aux c) (End.agent q) h g na ap = (
  freed-off (set_word (locked l a) c q) a c q (h.2) (write-at _ c q) (principal-IsTarget q g),
  tt,
  refl,
  refl,
)
linked-Joined l a (End.aux c) (End.aux d) h g na ap = (
  write-off _ d (new_var c) c ap
      ∙ freed-off (set_word (locked l a) c (new_var d)) a c (new_var d) (h.2)
          (write-at _ c (new_var d)) (new_var-IsTarget d g),
  write-at _ d (new_var c),
  refl,
  refl,
)

linked-Spared : (l : Linker) (a : ℕ) (e f : End) → Spared l (linked l a e f) a e f
unfolding linked locked queue set_word freed
linked-Spared l a (End.agent p) (End.agent q) u ua ue uf t =
    rw (queue-allocator (freed (locked l a) a) p q)
      (freed-off (locked l a) a u _ ua (write-off _ a lock u ua) t)
linked-Spared l a (End.agent p) (End.aux d) u ua ue uf t =
    write-off _ d p u (λ x. uf (sym x))
    ∙ freed-off (locked l a) a u _ ua (write-off _ a lock u ua) t
linked-Spared l a (End.aux c) (End.agent q) u ua ue uf t =
    freed-off (set_word (locked l a) c q) a u _ ua
      (write-off _ c q u (λ x. ue (sym x)) ∙ write-off _ a lock u ua) t
linked-Spared l a (End.aux c) (End.aux d) u ua ue uf t =
    write-off _ d (new_var c) u (λ x. uf (sym x))
    ∙ freed-off (set_word (locked l a) c (new_var d)) a u _ ua
        (write-off _ c (new_var d) u (λ x. ue (sym x)) ∙ write-off _ a lock u ua) t

-- In strict mode `link_wire_port` returns a result. If the wire `a` leads to the end `e`, an auxiliary
-- port whose word is elsewhere and has `a` for its target, or a principal port, and the port is that
-- of an end `f` of which neither the word of `a` nor the word of `e` is the word, then afterwards the
-- ends are joined: two principal ports are queued (or counted, if both are skippable), any others have
-- each other as targets; every other word that is in use is as it was.
pub link_wire_port-Joined :
    (l : Linker) (a : ℕ) (e f : End)
    → l.lazy ≡ false
    → l.allocator.mem a ≡ port_of e
    → LeadsBack l a e
    → IsEnd f
    → NotAt a f
    → Apart e f
    → (l' : Linker) × (link_wire_port a (port_of f) l ≡ ok tt l')
      × Joined l l' e f
      × Spared l l' a e f
link_wire_port-Joined l a e f strict at h g na ap = (
  linked l a e f,
  link_wire_port-linked l a e f strict at h g,
  linked-Joined l a e f h g na ap,
  linked-Spared l a e f,
)
