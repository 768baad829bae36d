-- ===== src/Ast/RoundTrip/Insert.antt =====
-- Insertion of a name that stands behind all others (`BTreeMap::insert`).
use hvm.Prelude.{◌≡◌, refl, true, false, List, [], ◌∷◌, ◌++◌, ltb, arith, if◌then◌else◌}
use hvm.Ast.{Name, Net}
use hvm.Ast.Books.{name_lt, book_insert}
use hvm.Ast.Limits.{AllAbove}

-- The names so far come before the name, and before the names that follow.
pub data AllBelow (nam : Name) : List (Name × Net) → Type 0 where
  none : AllBelow nam []
  also :
      {other : Name} {net : Net} {nets : List (Name × Net)}
      → name_lt other nam ≡ true
      → AllBelow nam nets
      → AllBelow nam ((other, net) ∷ nets)

abbrev pub Before : (book nets : List (Name × Net)) → Type 0
Before book [] = Unit {0}
Before book ((nam, net) ∷ nets) = AllBelow nam book × Before book nets

name_lt-flip : (a b : Name) → name_lt a b ≡ true → name_lt b a ≡ false
name_lt-flip [] [] h = refl
name_lt-flip [] (b ∷ bs) h = refl
name_lt-flip (a ∷ as') [] h = absurd (ground arith)
name_lt-flip (a ∷ as') (b ∷ bs) h = at (name_lt-flip as' bs) h
  where
    at :
        (name_lt as' bs ≡ true → name_lt bs as' ≡ false)
        → (if ltb a b then true else if ltb b a then false else name_lt as' bs) ≡ true
        → (if ltb b a then true else if ltb a b then false else name_lt bs as') ≡ false
    at ih h = ground arith

-- A name above all others is inserted at the end.
pub book_insert-last :
    {nam : Name} (net : Net) {book : List (Name × Net)}
    → AllBelow nam book
    → book_insert book nam net ≡ book ++ ((nam, net) ∷ [])
book_insert-last net AllBelow.none = refl
book_insert-last {nam = nam} net (AllBelow.also {other = other} h hs) =
    rw (name_lt-flip other nam h, h, book_insert-last net hs) refl

AllBelow-append :
    {nam : Name} (other : Name) (net : Net) {book : List (Name × Net)}
    → AllBelow nam book
    → name_lt other nam ≡ true
    → AllBelow nam (book ++ ((other, net) ∷ []))
AllBelow-append other net AllBelow.none h = AllBelow.also h AllBelow.none
AllBelow-append other net (AllBelow.also k hs) h = AllBelow.also k (AllBelow-append other net hs h)

pub Before-append :
    (nam : Name) (net : Net) (book : List (Name × Net)) {nets : List (Name × Net)}
    → AllAbove nam nets
    → Before book nets
    → Before (book ++ ((nam, net) ∷ [])) nets
Before-append nam net book AllAbove.none below = tt
Before-append nam net book (AllAbove.also h hs) (below, all_below) =
    (AllBelow-append nam net below h, Before-append nam net book hs all_below)
