-- ===== src/Transform/Prune/Names.antt =====
-- Membership in sets of names, and removal from them (src/transform/prune.rs).
use hvm.Prelude.{
  suc, ◌≤◌, ◌<◌, ◌≡◌, refl, Bool, true, false, List, [], ◌∷◌, arith, ◌∙◌, length, if◌then◌else◌,
}
use mathlib.Core.Path.{sym, subst}
use hvm.Ast.{Name}
use hvm.Transform.Inline.{name_eq}
use hvm.Host.Maps.{name_eq_sound, name_eq_refl}
use hvm.Transform.Prune.{NameSet, member, delete}

pub member-delete :
    (m n : Name) (u : NameSet) → member m (delete n u) ≡ (if name_eq n m then false else member m u)
member-delete m n [] = at (name_eq n m)
  where
    at : (b : Bool) → false ≡ (if b then false else false)
    at true = refl
    at false = refl
member-delete m n (x ∷ xs) = at (name_eq x n) refl (name_eq x m) refl (member-delete m n xs)
  where
    at :
        (b : Bool)
        → name_eq x n ≡ b
        → (c : Bool) → name_eq x m ≡ c
        → member m (delete n xs) ≡ (if name_eq n m then false else member m xs)
        → member m (if b then delete n xs else x ∷ delete n xs)
          ≡ (if name_eq n m then false else (if c then true else member m xs))
    at true e true f ih =
        let g : name_eq n m ≡ true = subst (λ y. name_eq y m ≡ true) (name_eq_sound x n e) f in
        rw (ih, g) refl
    at true e false f ih = ih
    at false e true f ih =
        let g : name_eq n m ≡ false =
          no_path n m
            (λ h. absurd (cc (e, subst (λ y. name_eq x y ≡ true) (sym (name_eq_sound n m h)) f))) in
        rw (f, g) refl
      where
        no_path : (a b : Name) → (name_eq a b ≡ true → name_eq a b ≡ false) → name_eq a b ≡ false
        no_path a b h = by_cases (name_eq a b) h
          where
            by_cases : (c : Bool) → (c ≡ true → c ≡ false) → c ≡ false
            by_cases true h = h refl
            by_cases false h = refl
    at false e false f ih = rw f ih

pub delete-length : (n : Name) (u : NameSet) → length (delete n u) ≤ length u
delete-length n [] = omega arith
delete-length n (x ∷ xs) = at (name_eq x n) (delete-length n xs)
  where
    at :
        (b : Bool)
        → length (delete n xs) ≤ length xs
        → length (if b then delete n xs else x ∷ delete n xs) ≤ suc (length xs)
    at true h = omega (arith, h)
    at false h = omega (arith, h)

pub delete-lt : (n : Name) (u : NameSet) → member n u ≡ true → length (delete n u) < length u
delete-lt n [] e = absurd (ground arith)
delete-lt n (x ∷ xs) e = at (name_eq x n) e (delete-lt n xs)
  where
    at :
        (b : Bool)
        → (if b then true else member n xs) ≡ true
        → (member n xs ≡ true → length (delete n xs) < length xs)
        → length (if b then delete n xs else x ∷ delete n xs) < suc (length xs)
    at true e h = omega (arith, delete-length n xs)
    at false e h = omega (arith, h e)

pub member-one : (m n : Name) → member m (n ∷ []) ≡ true → n ≡ m
member-one m n e = at (name_eq n m) refl e
  where
    at : (b : Bool) → name_eq n m ≡ b → (if b then true else false) ≡ true → n ≡ m
    at true h e = name_eq_sound n m h
    at false h e = absurd (ground arith)

pub member-here : (n : Name) (ns : List Name) → member n (n ∷ ns) ≡ true
member-here n ns = rw (name_eq_refl n) refl

pub member-there : (m n : Name) (ns : List Name) → member m ns ≡ true → member m (n ∷ ns) ≡ true
member-there m n ns h = at (name_eq n m)
  where
    at : (b : Bool) → (if b then true else member m ns) ≡ true
    at true = refl
    at false = h

pub member-of_delete : (m n : Name) (u : NameSet) → member m (delete n u) ≡ true → member m u ≡ true
member-of_delete m n u h = at (name_eq n m) (sym (member-delete m n u) ∙ h)
  where
    at : (b : Bool) → (if b then false else member m u) ≡ true → member m u ≡ true
    at true h = absurd (ground arith)
    at false h = h
