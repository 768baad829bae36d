-- ===== src/Host/Maps.antt =====
-- Insertion into maps, and names as their keys (src/host.rs).
use hvm.Prelude.{
  ◌≡◌, refl, Bool, true, false, ◌&&◌, some, List, [], ◌∷◌, ◌==◌, arith, if◌then◌else◌,
}
use mathlib.Core.Path.{sym, subst, ap}
use hvm.Ast.{Name}
use hvm.Transform.Inline.{name_eq}
use hvm.Host.{get, insert}

-- An equality test that decides equality.
pub record Decides {K : Type 0} (eq : K → K → Bool) : Type 0 where
  pub sound : (a b : K) → eq a b ≡ true → a ≡ b
  pub complete : (a : K) → eq a a ≡ true

module _ {K V : Type 0} (eq : K → K → Bool) (decides : Decides eq) where
  pub get-insert : (m : List (K × V)) (k : K) (v : V) → get eq (insert eq m k v) k ≡ some v
  get-insert [] k v = rw (decides.complete k) refl
  get-insert ((j, w) ∷ rest) k v = at (eq j k) refl (get-insert rest k v)
    where
      at :
          (b : Bool)
          → eq j k ≡ b
          → get eq (insert eq rest k v) k ≡ some v
          → get eq (if b then (k, v) ∷ rest else (j, w) ∷ insert eq rest k v) k ≡ some v
      at true e ih = rw (decides.complete k) refl
      at false e ih = rw e ih

  pub get-insert_other :
      (m : List (K × V)) (k j : K) (v : V)
      → eq k j ≡ false
      → get eq (insert eq m k v) j ≡ get eq m j
  get-insert_other [] k j v ne = rw ne refl
  get-insert_other ((i, w) ∷ rest) k j v ne = at (eq i k) refl (get-insert_other rest k j v ne)
    where
      at :
          (b : Bool)
          → eq i k ≡ b
          → get eq (insert eq rest k v) j ≡ get eq rest j
          → get eq (if b then (k, v) ∷ rest else (i, w) ∷ insert eq rest k v) j
            ≡ (if eq i j then some w else get eq rest j)
      at true e ih =
          let other : eq i j ≡ false = subst (λ x. eq x j ≡ false) (sym (decides.sound i k e)) ne in
          rw (ne, other) refl
      at false e ih = ap (λ x. if eq i j then some w else x) ih

pub name_eq_sound : (a b : Name) → name_eq a b ≡ true → a ≡ b
name_eq_sound [] [] e = refl
name_eq_sound (x ∷ xs) (y ∷ ys) e = at (x == y) refl (name_eq xs ys) refl e (name_eq_sound xs ys)
  where
    at :
        (b : Bool)
        → (x == y) ≡ b
        → (c : Bool) → name_eq xs ys ≡ c
        → (b && c) ≡ true
        → (name_eq xs ys ≡ true → xs ≡ ys)
        → x ∷ xs ≡ y ∷ ys
    at true h true k e ih = let g : x ≡ y = ground arith in rw (g, ih k) refl
    at true h false k e ih = absurd (ground arith)
    at false h c k e ih = absurd (ground arith)
name_eq_sound [] (y ∷ ys) e = absurd (ground arith)
name_eq_sound (x ∷ xs) [] e = absurd (ground arith)

pub name_eq_refl : (a : Name) → name_eq a a ≡ true
name_eq_refl [] = refl
name_eq_refl (x ∷ xs) = let h : (x == x) ≡ true = ground arith in rw (h, name_eq_refl xs) refl

pub name_eq-Decides : Decides name_eq
name_eq-Decides = record { sound = name_eq_sound; complete = name_eq_refl }

pub eq-Decides : Decides ◌==◌
eq-Decides = record { sound = λ a b e. ground arith; complete = λ a. ground arith }
