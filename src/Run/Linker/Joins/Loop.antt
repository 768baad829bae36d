-- ===== src/Run/Linker/Joins/Loop.antt =====
-- `link_wire_wire` of two wires that lead to one another (src/run/linker.rs).
use hvm.Prelude.{ℕ, ◌≡◌, ◌≢◌, refl, true, false, arith, ◌==◌, ◌∙◌}
use mathlib.Core.Path.{sym, subst}
use hvm.Run.Tag.{Tag}
use hvm.Run.Port.{new_var, is, lock, redirect, addr}
use hvm.Run.Port.Fields.{IsAddr, new_fields, addr-IsAddr}
use hvm.Run.Linker.{Linker, ok}
use hvm.Run.Linker.Wire.{cas_target, as_var, set_target}
use hvm.Run.Linker.Link.{half_link_wire_port, link_wire_wire}
use hvm.Run.Linker.Strict.{is_principal-new_var, is-new_var, wire-new_var, new_var-IsTarget}
use hvm.Run.Linker.Joins.{set_word, write-at, write-off}
use hvm.Run.Linker.Joins.Half.{both, locks}

-- A half link that finds another word at the port: the wire becomes a redirection.
half-redirects :
    (l : Linker) (c a d : ℕ)
    → IsAddr c
    → IsAddr d
    → l.allocator.mem c ≢ new_var a
    → half_link_wire_port (new_var c) a (new_var d) l ≡ ok tt (set_word l a (redirect (new_var d)))
unfolding half_link_wire_port cas_target as_var set_target set_word
half-redirects l c a d hc hd ne =
    let other : (l.allocator.mem c == new_var a) ≡ false = ground arith in
    rw (is-new_var c hc, wire-new_var c hc, other) (rw (is-new_var d hd) refl)

is_var-redirect : (p : ℕ) → is (redirect p) Tag.var ≡ false
unfolding is redirect
is_var-redirect p = rw ((new_fields Tag.red 0 (addr p) (omega arith) (addr-IsAddr p)).0) refl

redirect-ne : (p c : ℕ) → IsAddr c → redirect p ≢ new_var c
redirect-ne p c h e =
    let g : is (redirect p) Tag.var ≡ true =
      subst (λ x. is x Tag.var ≡ true) (sym e) (is-new_var c h) in
    cc (g, is_var-redirect p)

-- If each of the two different wires `a` and `b` leads to the other, then
-- `link_wire_wire` leaves in both words a redirection to the wire itself, and frees neither.
pub link_wire_wire-loop :
    (l : Linker) (a b : ℕ)
    → IsAddr a
    → IsAddr b
    → a ≢ b
    → l.allocator.mem a ≡ new_var b
    → l.allocator.mem b ≡ new_var a
    → (l' : Linker) × (link_wire_wire a b l ≡ ok tt l')
      × (l'.allocator.mem a ≡ redirect (new_var a))
      × (l'.allocator.mem b ≡ redirect (new_var b))
      × (l'.allocator.head ≡ l.allocator.head)
unfolding link_wire_wire both set_word
link_wire_wire-loop l a b ha hb ne at bt = (
  set_word (set_word (both l a b) a (redirect (new_var a))) b (redirect (new_var b)),
  locks l a b (new_var b) (new_var a) _ ne at bt (new_var-IsTarget b hb) (new_var-IsTarget a ha)
      ∙ rw (is_principal-new_var b hb) (
          rw
            (half-redirects (both l a b) b a a hb ha
              (λ x. (new_var-IsTarget a ha).ne_lock (sym x ∙ write-at _ b lock)))
            (half-redirects _ a b b ha hb
              (λ x. redirect-ne (new_var a) b hb (sym (write-at _ a (redirect (new_var a))) ∙ x)))),
  write-off _ b _ a ne ∙ write-at _ a (redirect (new_var a)),
  write-at _ b (redirect (new_var b)),
  refl,
)
