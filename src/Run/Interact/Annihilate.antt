-- ===== src/Run/Interact/Annihilate.antt =====
-- What `anni2` leaves: the ends of the two nodes' wires are joined (src/run/interact.rs).
use hvm.Prelude.{ℕ, ◌+◌, ◌≡◌, ◌≢◌, false, ◌∙◌}
use mathlib.Core.Path.{sym, subst}
use hvm.Run.Port.Fields.{IsAddr}
use hvm.Run.Linker.{Linker, ok}
use hvm.Run.Linker.Link.{link_wire_wire}
use hvm.Run.Linker.Strict.{IsTarget, new_var-IsTarget}
use hvm.Run.Linker.Ends.{End, port_of, LeadsBack, NotAt, Apart, Targets, Joined, port_of-IsTarget}
use hvm.Run.Linker.Joins.Half.{leads-IsEnd}
use hvm.Run.Linker.Joins.WireWire.{link_wire_wire-Joined}
use hvm.Run.Node.{consume_node}
use hvm.Run.Interact.{anni2}

-- The wire leads to the end, and back.
pub record Wired (l : Linker) (w : ℕ) (e : End) : Type 0 where
  pub aligned : IsAddr w
  pub target : l.allocator.mem w ≡ port_of e
  pub back : LeadsBack l w e

-- Two wires and their ends, none of which is a word of the others.
pub record Separate (a b : ℕ) (e f : End) : Type 0 where
  pub wires : a ≢ b
  pub first : NotAt b e
  pub second : NotAt a f
  pub ends : Apart e f

-- All words in use but those of the two wires and of the two ends are as they were.
abbrev pub Others : (l l' : Linker) (a b : ℕ) → End → End → Type 0
Others l l' a b e f =
    (u : ℕ)
    → u ≢ b
    → u ≢ a
    → NotAt u e
    → NotAt u f
    → IsTarget (l.allocator.mem u)
    → l'.allocator.mem u ≡ l.allocator.mem u

NotAt-word : (c : ℕ) (e : End) → Apart (End.aux c) e → NotAt c e
NotAt-word c (End.agent p) h = tt
NotAt-word c (End.aux d) h = λ x. h (sym x)

Apart-sym : (e f : End) → Apart e f → Apart f e
Apart-sym (End.agent p) (End.agent q) h = tt
Apart-sym (End.agent p) (End.aux d) h = tt
Apart-sym (End.aux c) (End.agent q) h = tt
Apart-sym (End.aux c) (End.aux d) h = λ x. h (sym x)

Wired-end : (l : Linker) (w : ℕ) (e : End) → Wired l w e → IsTarget (port_of e)
Wired-end l w e h = port_of-IsTarget e (leads-IsEnd l w e (h.back))

-- A wire apart from the linked ones stays as it is.
module _ (l l' : Linker) (a b : ℕ) (e f : End) (others : Others l l' a b e f) where
  back-stays :
      (w : ℕ) (g : End)
      → IsAddr w
      → LeadsBack l w g
      → NotAt a g
      → NotAt b g
      → Apart g e
      → Apart g f
      → LeadsBack l' w g
  back-stays w (End.agent p) hw h _ _ _ _ = h
  back-stays w (End.aux c) hw h na nb pe pf =
      let t : IsTarget (l.allocator.mem c) = subst IsTarget (sym (h.1)) (new_var-IsTarget w hw) in
      (h.0, others c nb na (NotAt-word c e pe) (NotAt-word c f pf) t ∙ h.1, h.2)

  Wired-stays : (w : ℕ) (g : End) → Wired l w g → Separate a w e g → Separate b w f g → Wired l' w g
  Wired-stays w g h s r =
      let t : IsTarget (l.allocator.mem w) = subst IsTarget (sym (h.target)) (Wired-end l w g h) in
      record {
        aligned = h.aligned;
        target =
            others w (λ x. r.wires (sym x)) (λ x. s.wires (sym x)) (s.first) (r.first) t ∙ h.target;
        back =
            back-stays w g (h.aligned) (h.back) (s.second) (r.second) (Apart-sym e g (s.ends))
              (Apart-sym f g (r.ends));
      }

  Targets-stay :
      (g : End) (q : ℕ)
      → NotAt a g
      → NotAt b g
      → Apart g e
      → Apart g f
      → IsTarget q
      → Targets l g q
      → Targets l' g q
  Targets-stay (End.agent p) q na nb pe pf t h = tt
  Targets-stay (End.aux c) q na nb pe pf t h =
      others c nb na (NotAt-word c e pe) (NotAt-word c f pf) (subst IsTarget (sym h) t) ∙ h

counted : Linker → Linker
counted l = record l { rwts = record (l.rwts) { anni = l.rwts.anni + 1 } }

Wired-counted : (l : Linker) (w : ℕ) (e : End) → Wired l w e → Wired (counted l) w e
unfolding counted
Wired-counted l w e h = record { aligned = h.aligned; target = h.target; back = leads e (h.back) }
  where
    leads : (e : End) → LeadsBack l w e → LeadsBack (counted l) w e
    leads (End.agent p) h = h
    leads (End.aux c) h = h

Joined-Targets :
    (l l' : Linker) (e f : End)
    → Joined l l' e f
    → Targets l' e (port_of f) × Targets l' f (port_of e)
Joined-Targets l l' (End.agent p) (End.agent q) h = (tt, tt)
Joined-Targets l l' (End.agent p) (End.aux d) h = (h.0, h.1)
Joined-Targets l l' (End.aux c) (End.agent q) h = (h.0, h.1)
Joined-Targets l l' (End.aux c) (End.aux d) h = (h.0, h.1)

-- One link of wires that are wired to separate ends.
link-Wired :
    (l : Linker) (a b : ℕ) (e f : End)
    → l.lazy ≡ false
    → Wired l a e
    → Wired l b f
    → Separate a b e f
    → (l' : Linker) × (link_wire_wire a b l ≡ ok tt l')
      × Joined l l' e f
      × (l'.lazy ≡ false)
      × Others l l' a b e f
link-Wired l a b e f strict h g s =
    link_wire_wire-Joined l a b e f (g.aligned) (s.wires) strict (h.target) (g.target) (h.back)
      (g.back) (s.first) (s.second) (s.ends)

-- In strict mode `anni2` returns a result. If the four wires of its two nodes lead to four ends and
-- back, and the wires and the words of the ends are all apart, then one annihilation is counted, the
-- ends of the two first wires are joined (principal ports are queued or, if skippable, counted;
-- others have each other as targets), then those of the two second wires, and at the end the
-- auxiliary ports among the first ends still have their new targets.
pub anni2-Joined :
    (l : Linker) (x y : ℕ) (e1 e2 f1 f2 : End)
    → l.lazy ≡ false
    → Wired l ((consume_node x).p1) e1
    → Wired l ((consume_node x).p2) e2
    → Wired l ((consume_node y).p1) f1
    → Wired l ((consume_node y).p2) f2
    → Separate ((consume_node x).p1) ((consume_node y).p1) e1 f1
    → Separate ((consume_node x).p2) ((consume_node y).p2) e2 f2
    → Separate ((consume_node x).p1) ((consume_node x).p2) e1 e2
    → Separate ((consume_node x).p1) ((consume_node y).p2) e1 f2
    → Separate ((consume_node y).p1) ((consume_node x).p2) f1 e2
    → Separate ((consume_node y).p1) ((consume_node y).p2) f1 f2
    → (m l' : Linker) × (anni2 x y l ≡ ok tt l')
      × Joined (record l { rwts = record (l.rwts) { anni = l.rwts.anni + 1 } }) m e1 f1
      × Joined m l' e2 f2
      × Targets l' e1 (port_of f1)
      × Targets l' f1 (port_of e1)
unfolding anni2 counted
anni2-Joined l x y e1 e2 f1 f2 strict a1 a2 b1 b2 first second ae af be bf =
    let (m, run1, join1, strict1, others1) =
      link-Wired (counted l) _ _ e1 f1 strict (Wired-counted l _ e1 a1) (Wired-counted l _ f1 b1)
        first in
    let a2' = Wired-stays (counted l) m _ _ e1 f1 others1 _ e2 (Wired-counted l _ e2 a2) ae be in
    let b2' = Wired-stays (counted l) m _ _ e1 f1 others1 _ f2 (Wired-counted l _ f2 b2) af bf in
    let (l', run2, join2, strict2, others2) = link-Wired m _ _ e2 f2 strict1 a2' b2' second in
    let t = Joined-Targets (counted l) m e1 f1 join1 in
    let p = Wired-end l _ e1 a1 in
    let q = Wired-end l _ f1 b1 in
    let keep = Targets-stay m l' _ _ e2 f2 others2 in
    (
      m,
      l',
      rw run1 run2,
      join1,
      join2,
      keep e1 _ (ae.first) (af.first) (ae.ends) (af.ends) q (t.0),
      keep f1 _ (be.first) (bf.first) (be.ends) (bf.ends) p (t.1),
    )
