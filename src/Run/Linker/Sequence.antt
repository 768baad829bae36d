-- ===== src/Run/Linker/Sequence.antt =====
-- Commands in sequence (src/run/linker.rs and its clients).
use hvm.Prelude.{◌≡◌, refl}
use hvm.Run.Linker.{Linker, Run, ok, panic, Cmd, and_then}

module _ {A B C : Type 0} where
  pub and_then_assoc :
      (r : Run A) (f : A → Cmd B) (g : B → Cmd C)
      → and_then r (λ a l. and_then (f a l) g) ≡ and_then (and_then r f) g
  and_then_assoc (ok a l) f g = refl
  and_then_assoc (panic p) f g = refl

module _ {A B : Type 0} where
  pub and_then-cong :
      (r : Run A) (f g : A → Cmd B)
      → ((a : A) (l : Linker) → f a l ≡ g a l)
      → and_then r f ≡ and_then r g
  and_then-cong (ok a l) f g same = same a l
  and_then-cong (panic p) f g same = refl
