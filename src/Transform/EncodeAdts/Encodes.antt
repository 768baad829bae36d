-- ===== src/Transform/EncodeAdts/Encodes.antt =====
-- What becomes of the ports of a constructor (src/transform/encode_adts.rs).
use hvm.Prelude.{
  ℕ, zero, suc, ◌+◌, ◌-◌, ◌<◌, ◌≤◌, ◌≡◌, refl, true, false, Option, none, some, List, [], ◌∷◌, ◌==◌,
  arith, leb, length, inl, inr, ◌⊎◌,
}
use mathlib.Core.Path.{◌∙◌, ap, sym}
use hvm.Ast.{Name, Tree, Trees}
use hvm.Host.Maps.{name_eq_refl}
use hvm.Transform.EncodeAdts.{
  Seen, seen, scan, merge_all, get_adt_info, port_at, truncate, fields_of, with_adt, encode_found,
  encode_ctr,
}
use hvm.Transform.EncodeAdts.Merged.{Merged, merge_all-Merged}
use hvm.Transform.EncodeAdts.Documented.{
  scan-Later, Later, eraser_on_top, Variant, eras, encoding, length-eras, last-snoc, pop-snoc,
  seen_again, Found, scan-Found,
}

port_at-under :
    (idx : ℕ) (p : Tree) (rest : List Tree)
    → idx < length rest
    → port_at idx (p ∷ rest) ≡ port_at idx rest
port_at-under idx p rest h =
    let other : (length rest == idx) ≡ false = ground arith in rw other refl

port_at-eras :
    (idx a : ℕ) (rest : List Tree)
    → idx < length rest
    → port_at idx (eras a rest) ≡ port_at idx rest
port_at-eras idx zero rest h = refl
port_at-eras idx (suc a) rest h =
    port_at-under idx Tree.era (eras a rest) (omega (arith, length-eras a rest))
    ∙ port_at-eras idx a rest h

truncate-drop :
    (start : ℕ) (p : Tree) (rest : List Tree)
    → start ≤ length rest
    → truncate start (p ∷ rest) ≡ truncate start rest
truncate-drop start p rest h =
    let more : leb (suc (length rest)) start ≡ false = ground arith in rw more refl

truncate-eras :
    (start a : ℕ) (rest : List Tree)
    → start ≤ length rest
    → truncate start (eras a rest) ≡ truncate start rest
truncate-eras start zero rest h = refl
truncate-eras start (suc a) rest h =
    truncate-drop start Tree.era (eras a rest) (omega (arith, length-eras a rest))
    ∙ truncate-eras start a rest h

truncate-length : (under : List Tree) → truncate (length under) under ≡ under
truncate-length [] = refl
truncate-length (p ∷ rest) =
    let fits : leb (suc (length rest)) (suc (length rest)) ≡ true = ground arith in rw fits refl

module _ (lab : ℕ) (ret : Name) (a b : ℕ) (under : List Tree) (v : Tree) where
  port_at-encoding : port_at (b + length under) (encoding ret a v b under) ≡ some v
  port_at-encoding =
      let inner : length (v ∷ eras b under) ≡ suc (b + length under) =
        omega (arith, length-eras b under) in
      let here : (length (eras b under) == b + length under) ≡ true =
        ground (arith, length-eras b under) in
      port_at-under (b + length under) (Tree.var ret) (eras a (v ∷ eras b under))
        (omega (arith, length-eras a (v ∷ eras b under)))
      ∙ (port_at-eras (b + length under) a (v ∷ eras b under) (omega arith) ∙ rw here refl)

  truncate-encoding : truncate (length under) (encoding ret a v b under) ≡ under
  truncate-encoding =
      truncate-drop (length under) (Tree.var ret) (eras a (v ∷ eras b under))
        (omega (arith, length-eras a (v ∷ eras b under), length-eras b under))
      ∙ (truncate-eras (length under) a (v ∷ eras b under) (omega (arith, length-eras b under))
          ∙ (truncate-drop (length under) v (eras b under) (omega (arith, length-eras b under))
              ∙ (truncate-eras (length under) b under (omega arith) ∙ truncate-length under)))

  -- The data of the documented encoding: `b` variants before this one and `a` after it.
  encode_found-encoding :
      (fields : Trees)
      → fields_of (some v) ≡ some fields
      → encode_found lab (encoding ret a v b under) (some (length under, b + length under))
        ≡ some (with_adt lab under (Tree.adt lab b (b + suc a) fields))
  unfolding encode_found
  encode_found-encoding fields e =
      let index : b + length under - length under ≡ b = omega arith in
      let number : length (encoding ret a v b under) - 1 - length under ≡ b + suc a =
        omega (arith, length-eras a (v ∷ eras b under), length-eras b under) in
      rw port_at-encoding (rw e (rw (truncate-encoding, index, number) refl))

module _ (lab : ℕ) (ret : Name) where
  start_of :
      (under : List Tree) (i : ℕ)
      → eraser_on_top under ≡ false
      → scan lab ret under (some i) ≡ some (length under, i)
  start_of [] i h = refl
  start_of (p ∷ rest) i h = at (seen_again lab ret p rest i)
    where
      at :
          ((p ≡ Tree.era) × (seen lab ret p (some i) ≡ Seen.go_on))
            ⊎ ((seen lab ret p (some i) ≡ Seen.stop) × (eraser_on_top (p ∷ rest) ≡ false))
          → scan lab ret (p ∷ rest) (some i) ≡ some (length (p ∷ rest), i)
      at (inl (e, g)) = absurd (cc (h, ap (λ x. eraser_on_top (x ∷ rest)) e))
      at (inr (g, f)) = rw g refl

  scan-eras :
      (k : ℕ) (rest : List Tree) (o : Option ℕ) → scan lab ret (eras k rest) o ≡ scan lab ret rest o
  scan-eras zero rest o = refl
  scan-eras (suc k) rest o = scan-eras k rest o

  seen-Variant :
      {v : Tree} {fields : Trees} → Variant lab ret v fields → seen lab ret v none ≡ Seen.variant
  seen-Variant Variant.bare = rw (name_eq_refl ret) refl
  seen-Variant (Variant.node fields) =
      let same : (lab == lab) ≡ true = ground arith in
      rw (same, last-snoc fields (Tree.var ret)) (rw (name_eq_refl ret) refl)

  fields_of-Variant :
      {v : Tree} {fields : Trees} → Variant lab ret v fields → fields_of (some v) ≡ some fields
  fields_of-Variant Variant.bare = refl
  fields_of-Variant (Variant.node fields) = rw (pop-snoc fields (Tree.var ret)) refl

  Later-some : {i : ℕ} {rs : List Tree} {r : Option (ℕ × ℕ)} → Later lab ret i rs r → ¬ (r ≡ none)
  Later-some (Later.later b under h) e = absurd (cc e)

  -- What is recognized as data is at least every documented encoding.
  get_adt_info-encoding :
      (a b : ℕ) (under : List Tree) {v : Tree} {fields : Trees}
      → Variant lab ret v fields
      → ¬ (get_adt_info lab (encoding ret a v b under) ≡ none)
  unfolding get_adt_info
  get_adt_info-encoding a b under {v = v} w e =
      let info : scan lab ret (eras a (v ∷ eras b under)) none
          ≡ scan lab ret (eras b under) (some (length (eras b under))) =
        scan-eras a (v ∷ eras b under) none ∙ rw (seen-Variant w) refl in
      Later-some (scan-Later lab ret (eras b under) (length (eras b under))) (sym info ∙ e)

-- What becomes of the ports of a constructor.
pub data Encodes (lab : ℕ) : List Tree → Option Tree → Type 0 where
  compacted :
      (ret : Name) (a b : ℕ) (under : List Tree) {v : Tree} {fields : Trees}
      → Variant lab ret v fields
      → eraser_on_top under ≡ false
      → Encodes lab
          (encoding ret a v b under)
          (some (with_adt lab under (Tree.adt lab b (b + suc a) fields)))
  kept :
      (ports : List Tree) (t : Tree)
      → ((ret : Name) (a b : ℕ) (under : List Tree) (v : Tree) (fields : Trees)
          → Variant lab ret v fields
          → ¬ (ports ≡ encoding ret a v b under))
      → Merged lab ports t
      → Encodes lab ports (some t)

Encodes-merged :
    (lab : ℕ) (ports : List Tree)
    → get_adt_info lab ports ≡ none
    → Encodes lab ports (some (merge_all lab ports))
Encodes-merged lab ports e =
    Encodes.kept ports (merge_all lab ports)
      (λ ret a b under v fields w g.
        get_adt_info-encoding lab ret a b under w (ap (get_adt_info lab) (sym g) ∙ e))
      (merge_all-Merged lab ports)

Found-Encodes :
    (lab : ℕ) (ret : Name) {rest : List Tree} {r : Option (ℕ × ℕ)}
    → Found lab ret rest r
    → get_adt_info lab (Tree.var ret ∷ rest) ≡ r
    → Encodes lab (Tree.var ret ∷ rest) (encode_found lab (Tree.var ret ∷ rest) r)
unfolding encode_found
Found-Encodes lab ret (Found.nothing rs) e = Encodes-merged lab (Tree.var ret ∷ rs) e
Found-Encodes lab ret (Found.data_at a b under {v = v} {fields = fields} w g h) e =
    rw (encode_found-encoding lab ret a b under v fields g) (Encodes.compacted ret a b under w h)

-- In a release build, if the ports of a constructor are a variant in its documented encoding over other
-- ports, with every eraser before it counted, the constructor becomes those ports and the data, with the
-- index of the variant, the number of variants and the fields. If they are no such encoding, the ports
-- stay, except that data of the constructor's label in the last port takes in the erasers right before
-- it, each as one more variant before its own, to the last of them or until it has as many variants as
-- it can have, and stands alone if it takes in all other ports. The branch that is marked unreachable is
-- not reached.
pub encode_ctr-Encodes : (lab : ℕ) (ports : List Tree) → Encodes lab ports (encode_ctr lab ports)
unfolding encode_ctr get_adt_info encode_found
encode_ctr-Encodes lab (Tree.var ret ∷ rest) = Found-Encodes lab ret (scan-Found lab ret rest) refl
encode_ctr-Encodes lab [] = Encodes-merged lab [] refl
encode_ctr-Encodes lab (Tree.era ∷ rest) = Encodes-merged lab _ refl
encode_ctr-Encodes lab (p ∷ rest) = Encodes-merged lab _ refl

module _ (lab : ℕ) (ret : Name) where
  -- The documented encoding of a variant over ports whose last is no eraser becomes those ports and the
  -- data, with as many variants before and after it as there are erasers, and its fields.
  pub encode_ctr-encoding :
      (later : ℕ) {v : Tree} {fields : Trees} (earlier : ℕ) (under : List Tree)
      → Variant lab ret v fields
      → eraser_on_top under ≡ false
      → encode_ctr lab (encoding ret later v earlier under)
        ≡ some (with_adt lab under (Tree.adt lab earlier (earlier + suc later) fields))
  unfolding encode_ctr get_adt_info
  encode_ctr-encoding a {v = v} {fields = fields} b under w h =
      let info : scan lab ret (eras a (v ∷ eras b under)) none
          ≡ some (length under, b + length under) =
        scan-eras lab ret a (v ∷ eras b under) none
        ∙ rw (seen-Variant lab ret w) (
            scan-eras lab ret b under (some (length (eras b under)))
            ∙ rw (length-eras b under) (start_of lab ret under (b + length under) h)) in
      rw info (encode_found-encoding lab ret a b under v fields (fields_of-Variant lab ret w))
