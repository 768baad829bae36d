-- ===== src/Transform/EncodeAdts/Documented.antt =====
-- The data that is recognized is the data whose Scott encoding the syntax documents (Tree::Adt in
-- src/ast.rs): erasers, the variant, erasers and the variable that the variant ends with.
use hvm.Prelude.{
  ℕ, zero, suc, ◌+◌, ◌≡◌, refl, Bool, true, false, ◌&&◌, Option, none, some, List, [], ◌∷◌, ◌==◌,
  arith, length, if◌then◌else◌, inl, inr, ◌⊎◌,
}
use mathlib.Core.Path.{ap}
use hvm.Ast.{Name, Tree, Trees}
use hvm.Transform.Inline.{name_eq}
use hvm.Host.Maps.{name_eq_sound}
use hvm.Transform.EncodeAdts.{last, pop, is_var, Seen, seen, scan, on_seen, fields_of}

-- Fields in order, and one more tree behind them.
abbrev pub snoc : Trees → Tree → Trees
snoc Trees.end x = Trees.and x Trees.end
snoc (Trees.and t ts) x = Trees.and t (snoc ts x)

-- The variant of some fields: the return variable alone, or a node of the fields and that variable.
pub data Variant (lab : ℕ) (ret : Name) : Tree → Trees → Type 0 where
  bare : Variant lab ret (Tree.var ret) Trees.end
  node : (fields : Trees) → Variant lab ret (Tree.ctr lab (snoc fields (Tree.var ret))) fields

abbrev pub eras : ℕ → List Tree → List Tree
eras zero under = under
eras (suc k) under = Tree.era ∷ eras k under

abbrev pub eraser_on_top : List Tree → Bool
eraser_on_top (Tree.era ∷ rest) = true
eraser_on_top _ = false

-- The encoding of a variant over other ports, from the last port down: the return variable, an eraser
-- for each later variant, the variant itself, and an eraser for each earlier one.
abbrev pub encoding : (ret : Name) (later : ℕ) (v : Tree) (earlier : ℕ) → List Tree → List Tree
encoding ret later v earlier under = Tree.var ret ∷ eras later (v ∷ eras earlier under)

pub length-eras : (k : ℕ) (under : List Tree) → length (eras k under) ≡ k + length under
length-eras zero under = omega arith
length-eras (suc k) under = omega (arith, length-eras k under)

snoc-pop :
    (ts : Trees) (ret : Name) → is_var ret (last ts) ≡ true → snoc (pop ts) (Tree.var ret) ≡ ts
snoc-pop Trees.end ret h = absurd (ground arith)
snoc-pop (Trees.and (Tree.var nam) Trees.end) ret h = rw (name_eq_sound nam ret h) refl
snoc-pop (Trees.and Tree.era Trees.end) ret h = absurd (ground arith)
snoc-pop (Trees.and (Tree.int b) Trees.end) ret h = absurd (ground arith)
snoc-pop (Trees.and (Tree.f32 b) Trees.end) ret h = absurd (ground arith)
snoc-pop (Trees.and (Tree.ref nam) Trees.end) ret h = absurd (ground arith)
snoc-pop (Trees.and (Tree.ctr lab ps) Trees.end) ret h = absurd (ground arith)
snoc-pop (Trees.and (Tree.op o x y) Trees.end) ret h = absurd (ground arith)
snoc-pop (Trees.and (Tree.mat x y z) Trees.end) ret h = absurd (ground arith)
snoc-pop (Trees.and (Tree.adt lab i n fs) Trees.end) ret h = absurd (ground arith)
snoc-pop (Trees.and t (Trees.and u us)) ret h =
    ap (λ x. Trees.and t x) (snoc-pop (Trees.and u us) ret h)

pub last-snoc : (ts : Trees) (x : Tree) → last (snoc ts x) ≡ some x
last-snoc Trees.end x = refl
last-snoc (Trees.and t Trees.end) x = refl
last-snoc (Trees.and t (Trees.and u us)) x = last-snoc (Trees.and u us) x

pub pop-snoc : (ts : Trees) (x : Tree) → pop (snoc ts x) ≡ ts
pop-snoc Trees.end x = refl
pop-snoc (Trees.and t Trees.end) x = refl
pop-snoc (Trees.and t (Trees.and u us)) x = ap (λ y. Trees.and t y) (pop-snoc (Trees.and u us) x)

module _ (lab : ℕ) (ret : Name) where
  -- What the loop sees in a port while it has found nothing.
  data Sees (p : Tree) : Seen → Type 0 where
    eraser : p ≡ Tree.era → Sees p Seen.go_on
    found :
        (fields : Trees)
        → Variant lab ret p fields
        → fields_of (some p) ≡ some fields
        → Sees p Seen.variant
    other : Sees p Seen.stop
    no_data : Sees p Seen.give_up

  Variant-ctr :
      (ports : Trees) (l : ℕ)
      → l ≡ lab
      → is_var ret (last ports) ≡ true
      → Variant lab ret (Tree.ctr l ports) (pop ports)
  Variant-ctr ports l e h =
      let whole : Variant lab ret (Tree.ctr lab (snoc (pop ports) (Tree.var ret))) (pop ports) =
        Variant.node (pop ports) in
      rw e (rw (snoc-pop ports ret h) at whole)

  seen-Sees : (p : Tree) → Sees p (seen lab ret p none)
  seen-Sees Tree.era = Sees.eraser refl
  seen-Sees (Tree.int b) = Sees.other
  seen-Sees (Tree.f32 b) = Sees.other
  seen-Sees (Tree.ref nam) = Sees.other
  seen-Sees (Tree.op o x y) = Sees.other
  seen-Sees (Tree.mat x y z) = Sees.other
  seen-Sees (Tree.adt l i n fs) = Sees.other
  seen-Sees (Tree.var nam) = at (name_eq nam ret) refl
    where
      at :
          (b : Bool)
          → name_eq nam ret ≡ b
          → Sees (Tree.var nam) (if b && true then Seen.variant else Seen.stop)
      at true e = Sees.found Trees.end (rw (name_eq_sound nam ret e) Variant.bare) refl
      at false e = Sees.other
  seen-Sees (Tree.ctr l ports) = at (l == lab) refl (is_var ret (last ports)) refl
    where
      at :
          (b : Bool)
          → (l == lab) ≡ b
          → (d : Bool) → is_var ret (last ports) ≡ d
          → Sees
              (Tree.ctr l ports)
              (if b && true then (if d then Seen.variant else Seen.give_up) else Seen.stop)
      at true e true h = Sees.found (pop ports) (Variant-ctr ports l (ground arith) h) refl
      at true e false h = Sees.no_data
      at false e d h = Sees.other

  pub seen_again :
      (p : Tree) (rest : List Tree) (i : ℕ)
      → ((p ≡ Tree.era) × (seen lab ret p (some i) ≡ Seen.go_on))
        ⊎ ((seen lab ret p (some i) ≡ Seen.stop) × (eraser_on_top (p ∷ rest) ≡ false))
  seen_again Tree.era rest i = inl (refl, refl)
  seen_again (Tree.int b) rest i = inr (refl, refl)
  seen_again (Tree.f32 b) rest i = inr (refl, refl)
  seen_again (Tree.ref nam) rest i = inr (refl, refl)
  seen_again (Tree.op o x y) rest i = inr (refl, refl)
  seen_again (Tree.mat x y z) rest i = inr (refl, refl)
  seen_again (Tree.adt l n m fs) rest i = inr (refl, refl)
  seen_again (Tree.var nam) rest i = inr (at (name_eq nam ret), refl)
    where
      at : (b : Bool) → (if b && false then Seen.variant else Seen.stop) ≡ Seen.stop
      at true = refl
      at false = refl
  seen_again (Tree.ctr l ports) rest i =
      inr (at (l == lab) (if is_var ret (last ports) then Seen.variant else Seen.give_up), refl)
    where
      at : (b : Bool) (x : Seen) → (if b && false then x else Seen.stop) ≡ Seen.stop
      at true x = refl
      at false x = refl

  -- The result of the loop behind the variant, and from the start.
  pub data Later (i : ℕ) : List Tree → Option (ℕ × ℕ) → Type 0 where
    later :
        (b : ℕ) (under : List Tree)
        → eraser_on_top under ≡ false
        → Later i (eras b under) (some (length under, i))

  pub data Found : List Tree → Option (ℕ × ℕ) → Type 0 where
    nothing : (rs : List Tree) → Found rs none
    data_at :
        (a b : ℕ) (under : List Tree) {v : Tree} {fields : Trees}
        → Variant lab ret v fields
        → fields_of (some v) ≡ some fields
        → eraser_on_top under ≡ false
        → Found (eras a (v ∷ eras b under)) (some (length under, b + length under))

  Later-eraser :
      {i : ℕ} {rs : List Tree} {r : Option (ℕ × ℕ)} → Later i rs r → Later i (Tree.era ∷ rs) r
  Later-eraser (Later.later b under h) = Later.later (suc b) under h

  Found-eraser : {rs : List Tree} {r : Option (ℕ × ℕ)} → Found rs r → Found (Tree.era ∷ rs) r
  Found-eraser (Found.nothing rs) = Found.nothing (Tree.era ∷ rs)
  Found-eraser (Found.data_at a b under v e h) = Found.data_at (suc a) b under v e h

  pub scan-Later : (rs : List Tree) (i : ℕ) → Later i rs (scan lab ret rs (some i))
  scan-Later [] i = Later.later 0 [] refl
  scan-Later (p ∷ rest) i = at (seen_again p rest i) (scan-Later rest i)
    where
      at :
          ((p ≡ Tree.era) × (seen lab ret p (some i) ≡ Seen.go_on))
            ⊎ ((seen lab ret p (some i) ≡ Seen.stop) × (eraser_on_top (p ∷ rest) ≡ false))
          → Later i rest (scan lab ret rest (some i))
          → Later i (p ∷ rest) (
              on_seen
                (seen lab ret p (some i))
                (scan lab ret rest (some i))
                (scan lab ret rest (some (length rest)))
                (some (suc (length rest), i)))
      at (inl (e, g)) ih = rw g (rw e (Later-eraser ih))
      at (inr (g, h)) ih = rw g (Later.later 0 (p ∷ rest) h)

  Found-Variant :
      {p : Tree} {fields : Trees} {rest : List Tree} {r : Option (ℕ × ℕ)}
      → Variant lab ret p fields
      → fields_of (some p) ≡ some fields
      → Later (length rest) rest r
      → Found (p ∷ rest) r
  Found-Variant {p = p} v e (Later.later b under h) =
      rw (length-eras b under) (Found.data_at 0 b under v e h)

  pub scan-Found : (rs : List Tree) → Found rs (scan lab ret rs none)
  scan-Found [] = Found.nothing []
  scan-Found (p ∷ rest) = at (seen lab ret p none) (seen-Sees p) (scan-Found rest)
    where
      at :
          (r : Seen)
          → Sees p r
          → Found rest (scan lab ret rest none)
          → Found
              (p ∷ rest)
              (on_seen r (scan lab ret rest none) (scan lab ret rest (some (length rest))) none)
      at _ (Sees.eraser e) ih = rw e (Found-eraser ih)
      at _ (Sees.found fields v e) ih = Found-Variant v e (scan-Later rest (length rest))
      at _ Sees.other ih = Found.nothing (p ∷ rest)
      at _ Sees.no_data ih = Found.nothing (p ∷ rest)
