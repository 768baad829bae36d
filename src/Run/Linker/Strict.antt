-- ===== src/Run/Linker/Strict.antt =====
-- The steps of linking in strict mode, at a linker whose words are known.
use hvm.Prelude.{ℕ, zero, suc, ◌≡◌, ◌≢◌, refl, true, false, arith, ◌==◌}
use mathlib.Core.Path.{subst}
use hvm.Run.Tag.{Tag}
use hvm.Run.Port.{new_var, wire, is, is_principal, tag, free, lock}
use hvm.Run.Port.Fields.{IsAddr, new_fields}
use hvm.Run.Allocator.{Allocator, write, half_free}
use hvm.Run.Linker.{Linker, ok, panic, Panic, with_mem}
use hvm.Run.Linker.Wire.{lock_target, lock_loop}

-- Freeing a word changes no other word that is in use.
pub half_free_keeps :
    (s : Allocator) (w u : ℕ) → u ≢ w → s.mem u ≢ free → (half_free s w).mem u ≡ s.mem u
unfolding half_free
half_free_keeps s w u ne used = ground arith

pub lock_target-ok :
    (w : ℕ) (l : Linker)
    → l.allocator.mem w ≢ lock
    → lock_target w l ≡ ok (l.allocator.mem w) (with_mem l (write l.allocator.mem w lock))
unfolding lock_target
lock_target-ok w l ne = ground arith

-- A wire whose target is locked is waited for forever: no number of rounds gives a result.
pub lock_loop-hang :
    (rounds w : ℕ) (l : Linker) → l.allocator.mem w ≡ lock → lock_loop rounds w l ≡ panic Panic.hang
unfolding lock_loop
lock_loop-hang zero w l e = refl
lock_loop-hang (suc rounds) w l e =
    let t : (l.allocator.mem w == lock) ≡ true = ground arith in
    rw t (lock_loop-hang rounds w _ (ground arith))

-- The variable port of a wire: neither principal nor a redirection, and its wire is the wire.
module _ (c : ℕ) (c-addr : IsAddr c) where
  var_tag : tag (new_var c) ≡ Tag.var
  unfolding new_var
  var_tag = (new_fields Tag.var 0 c (omega arith) c-addr).0

  pub wire-new_var : wire (new_var c) ≡ c
  unfolding wire new_var
  wire-new_var = (new_fields Tag.var 0 c (omega arith) c-addr).2

  pub is-new_var : is (new_var c) Tag.var ≡ true
  unfolding is
  is-new_var = rw var_tag refl

  pub is_principal-new_var : is_principal (new_var c) ≡ false
  unfolding is_principal
  is_principal-new_var = rw var_tag refl

pub not_var_of_principal : (p : ℕ) → is_principal p ≡ true → is p Tag.var ≡ false
unfolding is_principal is
not_var_of_principal p h = ground arith

pub not_red_of_principal : (p : ℕ) → is_principal p ≡ true → is p Tag.red ≡ false
unfolding is_principal is
not_red_of_principal p h = ground arith

-- A word that is in use by a node or a wire: not one of the two markers.
pub record IsTarget (p : ℕ) : Type 0 where
  pub ne_lock : p ≢ lock
  pub ne_free : p ≢ free

-- The two markers are neither principal nor variable ports.
is_principal-lock : is_principal lock ≡ false
unfolding is_principal
is_principal-lock = refl

is_principal-free : is_principal free ≡ false
unfolding is_principal
is_principal-free = refl

is_var-lock : is lock Tag.var ≡ false
unfolding is
is_var-lock = refl

is_var-free : is free Tag.var ≡ false
unfolding is
is_var-free = refl

pub principal-IsTarget : (p : ℕ) → is_principal p ≡ true → IsTarget p
principal-IsTarget p h = record {
  ne_lock = λ e.
      let g : is_principal lock ≡ true = subst (λ x. is_principal x ≡ true) e h in
      cc (g, is_principal-lock);
  ne_free = λ e.
      let g : is_principal free ≡ true = subst (λ x. is_principal x ≡ true) e h in
      cc (g, is_principal-free);
}

pub new_var-IsTarget : (c : ℕ) → IsAddr c → IsTarget (new_var c)
new_var-IsTarget c h = record {
  ne_lock = λ e.
      let g : is lock Tag.var ≡ true = subst (λ x. is x Tag.var ≡ true) e (is-new_var c h) in
      cc (g, is_var-lock);
  ne_free = λ e.
      let g : is free Tag.var ≡ true = subst (λ x. is x Tag.var ≡ true) e (is-new_var c h) in
      cc (g, is_var-free);
}
