-- ===== src/Transform/EncodeAdts/Merged.antt =====
-- The loop that takes erasers before data of the same label into the data
-- (src/transform/encode_adts.rs), and a description of what it leaves.
use hvm.Prelude.{
  ℕ, zero, suc, ◌+◌, ◌<◌, ◌≤◌, ◌≡◌, refl, Bool, true, false, List, [], ◌∷◌, ◌==◌, arith, ltb, inl,
  inr, ◌⊎◌, Bool-cases, sym, ap, ◌∙◌,
}
use hvm.Ast.{Tree, Trees}
use hvm.Ast.Parser.{max_adt_variants}
use hvm.Transform.EncodeAdts.{unstack, with_adt, merge, merge_all}
use hvm.Transform.EncodeAdts.Documented.{eras, eraser_on_top}

-- Data under its label on top of the ports.
abbrev pub data_on_top : (lab : ℕ) → List Tree → Bool
data_on_top lab (Tree.adt l i n fields ∷ rest) = l == lab
data_on_top lab _ = false

-- Data that has taken in this many erasers, over the ports under them: alone it is no constructor.
abbrev pub placed : (taken lab : ℕ) → List Tree → Tree → Tree
placed zero lab under whole = Tree.ctr lab (unstack (whole ∷ under) Trees.end)
placed (suc k) lab under whole = with_adt lab under whole

-- Data takes in the erasers right under it, each of them one more variant before its own, to the last
-- one or until it has as many variants as it can have.
abbrev pub Absorbed : (lab i n : ℕ) → Trees → List Tree → Tree → Type 0
Absorbed lab i n fields rest t =
    (k : ℕ) × (under : List Tree) × (rest ≡ eras k under)
    × (k ≡ 0 ⊎ n + k ≤ max_adt_variants)
    × (max_adt_variants ≤ n + k ⊎ eraser_on_top under ≡ false)
    × (t ≡ placed k lab under (Tree.adt lab (i + k) (n + k) fields))

-- What a constructor becomes that is no encoding of data.
pub data Merged (lab : ℕ) : List Tree → Tree → Type 0 where
  same :
      (ports : List Tree)
      → data_on_top lab ports ≡ false
      → Merged lab ports (Tree.ctr lab (unstack ports Trees.end))
  taken :
      (i n : ℕ) (fields : Trees) (rest : List Tree) (t : Tree)
      → Absorbed lab i n fields rest t
      → Merged lab (Tree.adt lab i n fields ∷ rest) t

placed_over :
    (lab : ℕ) (p : Tree) (rest under : List Tree) (x : Tree)
    → p ∷ rest ≡ under
    → placed 0 lab under x ≡ placed 1 lab under x
placed_over lab p rest under x e = rw (sym e) refl

module _ (lab i n : ℕ) (fields : Trees) where
  none_taken :
      (under : List Tree)
      → (max_adt_variants ≤ n ⊎ eraser_on_top under ≡ false)
      → Absorbed lab i n fields under
          (Tree.ctr lab (unstack (Tree.adt lab i n fields ∷ under) Trees.end))
  none_taken under h =
      let index : i + 0 ≡ i = omega arith in
      let number : n + 0 ≡ n = omega arith in
      (0, under, refl, inl refl, rw number h, rw (index, number) refl)

  one_taken :
      n < max_adt_variants
      → Absorbed lab i n fields (Tree.era ∷ []) (Tree.adt lab (suc i) (suc n) fields)
  one_taken h =
      let index : i + 1 ≡ suc i = omega arith in
      let number : n + 1 ≡ suc n = omega arith in
      (1, [], refl, inr (omega arith), inr refl, rw (index, number) refl)

  one_more :
      (p : Tree) (rest : List Tree) (t : Tree)
      → n < max_adt_variants
      → Absorbed lab (suc i) (suc n) fields (p ∷ rest) t
      → Absorbed lab i n fields (Tree.era ∷ p ∷ rest) t
  one_more p rest t h (zero, under, e, f, g, r) =
      let index : suc i + 0 ≡ i + 1 = omega arith in
      let number : suc n + 0 ≡ n + 1 = omega arith in
      (
        1,
        under,
        ap (λ x. Tree.era ∷ x) e,
        inr (omega arith),
        rw number at g,
        (rw (index, number) at r)
            ∙ placed_over lab p rest under (Tree.adt lab (i + 1) (n + 1) fields) e,
      )
  one_more p rest t h (suc k, under, e, f, g, r) =
      let index : suc i + suc k ≡ i + suc (suc k) = omega arith in
      let number : suc n + suc k ≡ n + suc (suc k) = omega arith in
      (
        suc (suc k),
        under,
        ap (λ x. Tree.era ∷ x) e,
        inr (elim f [ inl z ↦ absurd (omega (arith, z)) | inr l ↦ omega (arith, l) ]),
        rw number at g,
        rw (index, number) at r,
      )

absorbed :
    (lab i n : ℕ) (fields : Trees) (rest : List Tree)
    → Absorbed lab i n fields rest (merge lab (Tree.adt lab i n fields) rest)
absorbed lab i n fields [] = none_taken lab i n fields [] (inr refl)
absorbed lab i n fields (Tree.era ∷ []) =
    let same : (lab == lab) ≡ true = ground arith in
    elim (Bool-cases (ltb n max_adt_variants)) [
      | inl more ↦ rw (same, more) (one_taken lab i n fields (ground arith))
      | inr full ↦ rw (same, full) (none_taken lab i n fields (Tree.era ∷ []) (inl (ground arith)))
    ]
absorbed lab i n fields (Tree.era ∷ p ∷ rest) =
    let same : (lab == lab) ≡ true = ground arith in
    let ih = absorbed lab (suc i) (suc n) fields (p ∷ rest) in
    elim (Bool-cases (ltb n max_adt_variants)) [
      | inl more ↦ rw (same, more) (one_more lab i n fields p rest _ (ground arith) ih)
      | inr full ↦
          rw (same, full) (none_taken lab i n fields (Tree.era ∷ p ∷ rest) (inl (ground arith)))
    ]
absorbed lab i n fields (p ∷ rest) = none_taken lab i n fields (p ∷ rest) (inr refl)

merge_other :
    (lab l i n : ℕ) (fields : Trees) (rest : List Tree)
    → (l == lab) ≡ false
    → merge lab (Tree.adt l i n fields) rest
      ≡ Tree.ctr lab (unstack (Tree.adt l i n fields ∷ rest) Trees.end)
merge_other lab l i n fields [] e = refl
merge_other lab l i n fields (Tree.era ∷ []) e = rw e refl
merge_other lab l i n fields (Tree.era ∷ p ∷ rest) e = rw e refl
merge_other lab l i n fields (p ∷ rest) e = refl

merge_adt :
    (lab l i n : ℕ) (fields : Trees) (rest : List Tree)
    → Merged lab (Tree.adt l i n fields ∷ rest) (merge lab (Tree.adt l i n fields) rest)
merge_adt lab l i n fields rest = elim (Bool-cases (l == lab)) [
  | inl e ↦
      let label : l ≡ lab = ground arith in
      rw label (Merged.taken i n fields rest _ (absorbed lab i n fields rest))
  | inr other ↦ rw (merge_other lab l i n fields rest other) (Merged.same _ other)
]

pub merge_all-Merged : (lab : ℕ) (ports : List Tree) → Merged lab ports (merge_all lab ports)
merge_all-Merged lab [] = Merged.same [] refl
merge_all-Merged lab (Tree.adt l i n fields ∷ rest) = merge_adt lab l i n fields rest
merge_all-Merged lab (p ∷ []) = Merged.same (p ∷ []) refl
merge_all-Merged lab (p ∷ q ∷ rest) = Merged.same (p ∷ q ∷ rest) refl
