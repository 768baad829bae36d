-- ===== src/Ast/Limits/Order.antt =====
-- Insertion into a book keeps its names ascending.
use hvm.Prelude.{ℕ, ◌≡◌, refl, Bool, true, false, List, [], ◌∷◌, ltb, arith, if◌then◌else◌}
use mathlib.Core.Path.{subst}
use hvm.Ast.{Name, Net}
use hvm.Ast.Books.{name_lt, book_insert}
use hvm.Ast.Limits.{AllAbove, Ascending, BookWellFormed, IsName, NetWellFormed}
use hvm.Ast.Scanner.{Scanner}

pub name_lt_trans : (a b c : Name) → name_lt a b ≡ true → name_lt b c ≡ true → name_lt a c ≡ true
name_lt_trans a [] c h k = absurd (never a h)
  where
    never : {A : Type 0} (a : Name) → name_lt a [] ≡ true → A
    never [] h = absurd (ground arith)
    never (x ∷ xs) h = absurd (ground arith)
name_lt_trans a (y ∷ ys) [] h k = absurd (ground arith)
name_lt_trans [] (y ∷ ys) (z ∷ zs) h k = refl
name_lt_trans (x ∷ xs) (y ∷ ys) (z ∷ zs) h k = at (name_lt_trans xs ys zs) h k
  where
    at :
        (name_lt xs ys ≡ true → name_lt ys zs ≡ true → name_lt xs zs ≡ true)
        → (if ltb x y then true else if ltb y x then false else name_lt xs ys) ≡ true
        → (if ltb y z then true else if ltb z y then false else name_lt ys zs) ≡ true
        → (if ltb x z then true else if ltb z x then false else name_lt xs zs) ≡ true
    at ih h k = ground arith

name_lt_total : (a b : Name) → name_lt a b ≡ false → name_lt b a ≡ false → a ≡ b
name_lt_total [] [] h k = refl
name_lt_total [] (y ∷ ys) h k = absurd (ground arith)
name_lt_total (x ∷ xs) [] h k = absurd (ground arith)
name_lt_total (x ∷ xs) (y ∷ ys) h k =
    let same : x ≡ y = ground arith in
    let rest : xs ≡ ys = name_lt_total xs ys (ground arith) (ground arith) in rw (same, rest) refl

AllAbove-trans :
    {a b : Name} {nets : List (Name × Net)} → name_lt a b ≡ true → AllAbove b nets → AllAbove a nets
AllAbove-trans h AllAbove.none = AllAbove.none
AllAbove-trans {a = a} {b = b} h (AllAbove.also {other = c} k ks) =
    AllAbove.also (name_lt_trans a b c h k) (AllAbove-trans h ks)

AllAbove-insert :
    {a : Name} (nam : Name) (net : Net) {book : List (Name × Net)}
    → name_lt a nam ≡ true
    → AllAbove a book
    → AllAbove a (book_insert book nam net)
AllAbove-insert nam net h AllAbove.none = AllAbove.also h AllAbove.none
AllAbove-insert {a = a} nam net h (AllAbove.also {other = c} {net = v} {nets = nets} k ks) =
    at (name_lt nam c) (name_lt c nam) (AllAbove-insert nam net h ks)
  where
    at :
        (b d : Bool)
        → AllAbove a (book_insert nets nam net)
        → AllAbove a (
            if b
            then (nam, net) ∷ (c, v) ∷ nets
            else if d
            then (c, v) ∷ book_insert nets nam net
            else (nam, net) ∷ nets)
    at true d ih = AllAbove.also h (AllAbove.also k ks)
    at false true ih = AllAbove.also k ih
    at false false ih = AllAbove.also h ks

pub book_insert-Ascending :
    (nam : Name) (net : Net) {book : List (Name × Net)}
    → Ascending book
    → Ascending (book_insert book nam net)
book_insert-Ascending nam net Ascending.none = Ascending.also AllAbove.none Ascending.none
book_insert-Ascending nam net (Ascending.also {nam = c} {net = v} {nets = nets} above up) =
    at (name_lt nam c) refl (name_lt c nam) refl (book_insert-Ascending nam net up)
  where
    at :
        (b : Bool)
        → name_lt nam c ≡ b
        → (d : Bool) → name_lt c nam ≡ d
        → Ascending (book_insert nets nam net)
        → Ascending (
            if b
            then (nam, net) ∷ (c, v) ∷ nets
            else if d
            then (c, v) ∷ book_insert nets nam net
            else (nam, net) ∷ nets)
    at true e d g ih =
        Ascending.also (AllAbove.also e (AllAbove-trans e above)) (Ascending.also above up)
    at false e true g ih = Ascending.also (AllAbove-insert nam net g above) ih
    at false e false g ih =
        Ascending.also (subst (λ x. AllAbove x nets) (name_lt_total c nam g e) above) up

pub book_insert-WellFormed :
    (s : Scanner) {F : ℕ → Type 0} {nam : Name} {net : Net} {book : List (Name × Net)}
    → IsName s nam
    → NetWellFormed s F net
    → BookWellFormed s F book
    → BookWellFormed s F (book_insert book nam net)
book_insert-WellFormed s h k BookWellFormed.none = BookWellFormed.also h k BookWellFormed.none
book_insert-WellFormed s {F = F} {nam = nam} {net = net} h k
      (BookWellFormed.also {nam = c} {net = v} {nets = nets} p q hs) =
    at (name_lt nam c) (name_lt c nam) (book_insert-WellFormed s h k hs)
  where
    at :
        (b d : Bool)
        → BookWellFormed s F (book_insert nets nam net)
        → BookWellFormed s F (
            if b
            then (nam, net) ∷ (c, v) ∷ nets
            else if d
            then (c, v) ∷ book_insert nets nam net
            else (nam, net) ∷ nets)
    at true d ih = BookWellFormed.also h k (BookWellFormed.also p q hs)
    at false true ih = BookWellFormed.also p q ih
    at false false ih = BookWellFormed.also h k hs
