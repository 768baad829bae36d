-- ===== src/Run/Linker/Joins/WireWire.antt =====
-- `link_wire_wire` joins the ends of two wires (src/run/linker.rs).
use hvm.Prelude.{ℕ, ◌≡◌, ◌≢◌, refl, false, ◌&&◌, arith, if◌then◌else◌, ◌∙◌}
use mathlib.Core.Path.{sym}
use hvm.Run.Port.{new_var, is_principal}
use hvm.Run.Port.Fields.{IsAddr}
use hvm.Run.Linker.{Cmd, ◌>>◌, Linker, ok, free_wire}
use hvm.Run.Linker.Link.{redux, link_wire_wire, half_link_wire_port}
use hvm.Run.Linker.Strict.{is_principal-new_var, IsTarget}
use hvm.Run.Linker.Ends.{End, port_of, LeadsBack, NotAt, Apart, Targets, Joined, port_of-IsTarget}
use hvm.Run.Linker.Joins.{
  freed, set_word, queue, redux-queue, freed-off, queue-allocator, queue-lazy,
}
use hvm.Run.Linker.Joins.Half.{
  half, half-eq, half-strict, half-rwts, half-off, half-at, both, both-off, both-LeadsBack,
  both-strict, leads-IsEnd, leads-NotAt, half-LeadsBack, locks,
}

-- The linker after `link_wire_wire`.
linked : (l : Linker) (a b : ℕ) → End → End → Linker
linked l a b (End.agent p) (End.agent q) = queue (freed (freed (both l a b) a) b) p q
linked l a b e f = half (half (both l a b) a e (port_of f)) b f (port_of e)

-- What `link_wire_wire` does once both wires are locked.
finish : (a b : ℕ) → (p q : ℕ) → Cmd (Unit {0})
finish a b p q =
    if is_principal p && is_principal q
    then (do free_wire a; free_wire b; redux p q)
    else (do half_link_wire_port p a q; half_link_wire_port q b p)

finish-two_halves :
    (l : Linker) (a b : ℕ) (e f : End)
    → IsAddr b
    → l.lazy ≡ false
    → LeadsBack l a e
    → LeadsBack l b f
    → NotAt a f
    → Apart e f
    → (is_principal (port_of e) && is_principal (port_of f)) ≡ false
    → finish a b (port_of e) (port_of f) l ≡ ok tt (half (half l a e (port_of f)) b f (port_of e))
unfolding finish
finish-two_halves l a b e f hb strict h g na ap np =
    rw (np, half-eq l a (port_of f) e strict h)
      (half-eq (half l a e (port_of f)) b (port_of e) f (half-strict l a _ e ∙ strict)
        (half-LeadsBack l a b _ e f hb g na ap))

principal-aux : (p : ℕ) (d : ℕ) → IsAddr d → (is_principal p && is_principal (new_var d)) ≡ false
principal-aux p d h = rw (is_principal-new_var d h) (ground arith)

link_wire_wire-linked :
    (l : Linker) (a b : ℕ) (e f : End)
    → IsAddr b
    → a ≢ b
    → l.lazy ≡ false
    → l.allocator.mem a ≡ port_of e
    → l.allocator.mem b ≡ port_of f
    → LeadsBack l a e
    → LeadsBack l b f
    → NotAt b e
    → NotAt a f
    → Apart e f
    → link_wire_wire a b l ≡ ok tt (linked l a b e f)
unfolding link_wire_wire finish linked free_wire freed both set_word
link_wire_wire-linked l a b e f hb ne strict at bt h g nb na ap =
    locks l a b (port_of e) (port_of f) (finish a b) ne at bt
      (port_of-IsTarget e (leads-IsEnd l a e h)) (port_of-IsTarget f (leads-IsEnd l b f g))
    ∙ by_ends e f h g nb na ap
  where
    by_ends :
        (e f : End)
        → LeadsBack l a e
        → LeadsBack l b f
        → NotAt b e
        → NotAt a f
        → Apart e f
        → finish a b (port_of e) (port_of f) (both l a b) ≡ ok tt (linked l a b e f)
    by_ends (End.agent p) (End.agent q) h g nb na ap = rw (h, g) (redux-queue _ p q strict h g)
    by_ends (End.agent p) (End.aux d) h g nb na ap =
        finish-two_halves (both l a b) a b (End.agent p) (End.aux d) hb
          ((both-strict l a b).0 ∙ strict) h (both-LeadsBack l a b b (End.aux d) g na (g.2)) na ap
          (principal-aux p d (g.0))
    by_ends (End.aux c) (End.agent q) h g nb na ap =
        finish-two_halves (both l a b) a b (End.aux c) (End.agent q) hb
          ((both-strict l a b).0 ∙ strict) (both-LeadsBack l a b a (End.aux c) h (h.2) nb) g na ap
          (rw (is_principal-new_var c (h.0)) refl)
    by_ends (End.aux c) (End.aux d) h g nb na ap =
        finish-two_halves (both l a b) a b (End.aux c) (End.aux d) hb
          ((both-strict l a b).0 ∙ strict) (both-LeadsBack l a b a (End.aux c) h (h.2) nb)
          (both-LeadsBack l a b b (End.aux d) g na (g.2)) na ap (principal-aux _ d (g.0))

-- The target of the first end outlives the second half link.
first-Targets :
    (l : Linker) (a b q r : ℕ) (e f : End)
    → LeadsBack l a e
    → NotAt b e
    → Apart e f
    → IsTarget q
    → Targets (half (half l a e q) b f r) e q
first-Targets l a b q r (End.agent _) f h nb ap t = tt
first-Targets l a b q r (End.aux c) (End.agent s) h nb ap t =
    half-off (half l a (End.aux c) q) b r c q (End.agent s) nb tt (half-at l a q (End.aux c) h t) t
first-Targets l a b q r (End.aux c) (End.aux d) h nb ap t =
    half-off (half l a (End.aux c) q) b r c q (End.aux d) nb (λ x. ap (sym x))
      (half-at l a q (End.aux c) h t) t

two_halves-rwts :
    (l : Linker) (a b q r : ℕ) (e f : End)
    → ((half (half (both l a b) a e q) b f r).rwts ≡ l.rwts)
      × ((half (half (both l a b) a e q) b f r).redexes ≡ l.redexes)
two_halves-rwts l a b q r e f = (
  (half-rwts _ b r f).0 ∙ (half-rwts _ a q e).0 ∙ (both-strict l a b).1,
  (half-rwts _ b r f).1 ∙ (half-rwts _ a q e).1 ∙ (both-strict l a b).2,
)

two_halves-Joined :
    (l : Linker) (a b : ℕ) (e f : End)
    → IsAddr b
    → LeadsBack l a e
    → LeadsBack l b f
    → NotAt b e
    → NotAt a f
    → Apart e f
    → (let l' = half (half (both l a b) a e (port_of f)) b f (port_of e) in
        Targets l' e (port_of f)
        × Targets l' f (port_of e)
        × (l'.rwts ≡ l.rwts)
        × (l'.redexes ≡ l.redexes))
two_halves-Joined l a b e f hb h g nb na ap =
    let h' = both-LeadsBack l a b a e h (leads-NotAt l a e h) nb in
    let g' = both-LeadsBack l a b b f g na (leads-NotAt l b f g) in
    let r = two_halves-rwts l a b (port_of f) (port_of e) e f in
    (
      first-Targets (both l a b) a b (port_of f) (port_of e) e f h' nb ap
          (port_of-IsTarget f (leads-IsEnd l b f g)),
      half-at _ b (port_of e) f (half-LeadsBack (both l a b) a b (port_of f) e f hb g' na ap)
          (port_of-IsTarget e (leads-IsEnd l a e h)),
      r.0,
      r.1,
    )

two_halves-Spared :
    (l : Linker) (a b q r u : ℕ) (e f : End)
    → u ≢ a
    → u ≢ b
    → NotAt u e
    → NotAt u f
    → IsTarget (l.allocator.mem u)
    → (half (half (both l a b) a e q) b f r).allocator.mem u ≡ l.allocator.mem u
two_halves-Spared l a b q r u e f ua ub ue uf t =
    half-off _ b r u _ f ub uf (half-off _ a q u _ e ua ue (both-off l a b u ua ub) t) t

linked-Joined :
    (l : Linker) (a b : ℕ) (e f : End)
    → IsAddr b
    → LeadsBack l a e
    → LeadsBack l b f
    → NotAt b e
    → NotAt a f
    → Apart e f
    → Joined l (linked l a b e f) e f
unfolding linked both queue set_word freed
linked-Joined l a b (End.agent p) (End.agent q) hb h g nb na ap = ground arith
linked-Joined l a b (End.agent p) (End.aux d) hb h g nb na ap =
    two_halves-Joined l a b (End.agent p) (End.aux d) hb h g nb na ap
linked-Joined l a b (End.aux c) (End.agent q) hb h g nb na ap =
    two_halves-Joined l a b (End.aux c) (End.agent q) hb h g nb na ap
linked-Joined l a b (End.aux c) (End.aux d) hb h g nb na ap =
    two_halves-Joined l a b (End.aux c) (End.aux d) hb h g nb na ap

linked-Spared :
    (l : Linker) (a b : ℕ) (e f : End) (u : ℕ)
    → u ≢ b
    → (u ≢ a
        → NotAt u e
        → NotAt u f
        → IsTarget (l.allocator.mem u)
        → (linked l a b e f).allocator.mem u ≡ l.allocator.mem u)
unfolding linked
linked-Spared l a b (End.agent p) (End.agent q) u ub ua ue uf t =
    rw (queue-allocator (freed (freed (both l a b) a) b) p q)
      (freed-off _ b u _ ub (freed-off _ a u _ ua (both-off l a b u ua ub) t) t)
linked-Spared l a b (End.agent p) (End.aux d) u ub ua ue uf t =
    two_halves-Spared l a b _ _ u (End.agent p) (End.aux d) ua ub ue uf t
linked-Spared l a b (End.aux c) (End.agent q) u ub ua ue uf t =
    two_halves-Spared l a b _ _ u (End.aux c) (End.agent q) ua ub ue uf t
linked-Spared l a b (End.aux c) (End.aux d) u ub ua ue uf t =
    two_halves-Spared l a b _ _ u (End.aux c) (End.aux d) ua ub ue uf t

two_halves-lazy :
    (l : Linker) (a b q r : ℕ) (e f : End) → (half (half (both l a b) a e q) b f r).lazy ≡ l.lazy
two_halves-lazy l a b q r e f = half-strict _ b r f ∙ half-strict _ a q e ∙ (both-strict l a b).0

linked-lazy : (l : Linker) (a b : ℕ) (e f : End) → (linked l a b e f).lazy ≡ l.lazy
unfolding linked freed both set_word
linked-lazy l a b (End.agent p) (End.agent q) = queue-lazy _ p q
linked-lazy l a b (End.agent p) (End.aux d) = two_halves-lazy l a b _ _ (End.agent p) (End.aux d)
linked-lazy l a b (End.aux c) (End.agent q) = two_halves-lazy l a b _ _ (End.aux c) (End.agent q)
linked-lazy l a b (End.aux c) (End.aux d) = two_halves-lazy l a b _ _ (End.aux c) (End.aux d)

-- In strict mode `link_wire_wire` returns a result. If the wires `a` and `b` are different and lead to
-- the ends `e` and `f`, each an auxiliary port whose word is none of the two and has its wire for its
-- target, or a principal port, and the ends are not one auxiliary port, then afterwards the ends are
-- joined: two principal ports are queued (or counted, if both are skippable), any others have each
-- other as targets; every other word that is in use is as it was, and the mode
-- stays strict.
pub link_wire_wire-Joined :
    (l : Linker) (a b : ℕ) (e f : End)
    → IsAddr b
    → a ≢ b
    → l.lazy ≡ false
    → l.allocator.mem a ≡ port_of e
    → l.allocator.mem b ≡ port_of f
    → LeadsBack l a e
    → LeadsBack l b f
    → NotAt b e
    → NotAt a f
    → Apart e f
    → (l' : Linker) × (link_wire_wire a b l ≡ ok tt l')
      × Joined l l' e f
      × (l'.lazy ≡ false)
      × ((u : ℕ)
          → u ≢ b
          → u ≢ a
          → NotAt u e
          → NotAt u f
          → IsTarget (l.allocator.mem u)
          → l'.allocator.mem u ≡ l.allocator.mem u)
link_wire_wire-Joined l a b e f hb ne strict at bt h g nb na ap = (
  linked l a b e f,
  link_wire_wire-linked l a b e f hb ne strict at bt h g nb na ap,
  linked-Joined l a b e f hb h g nb na ap,
  linked-lazy l a b e f ∙ strict,
  linked-Spared l a b e f,
)
