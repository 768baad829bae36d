-- ===== src/Run/LabSet/Insert.antt =====
-- The members of a label set after `add` and of one that `from_iter` collects (src/run/def.rs).
use hvm.Prelude.{
  ℕ, zero, suc, ◌+◌, ◌-◌, ◌/◌, ◌%◌, ◌^◌, ◌≤◌, ◌<◌, ◌≡◌, refl, bit_or, Bool, false, ◌||◌, some, List,
  [], ◌∷◌, length, length-append, ◌==◌, leb, if◌then◌else◌, arith, ◌∙◌, ap, Bool-cases, inl, inr,
}
use hvm.Run.LabSet.{LabSet, empty, replicate, resize, or_at, add, has, max, insert_all, from_iter}
use hvm.Run.LabSet.Members.{
  bit, word_at, IsValid, has-bit, word_at-append, test-or, test-pow, test-none,
}

length-replicate : (n : ℕ) → length (replicate n) ≡ n
length-replicate zero = refl
length-replicate (suc n) = omega (arith, length-replicate n)

length-or_at : (ws : List ℕ) (i m : ℕ) → length (or_at ws i m) ≡ length ws
length-or_at [] i m = refl
length-or_at (w ∷ ws) zero m = refl
length-or_at (w ∷ ws) (suc i) m = omega (arith, length-or_at ws i m)

word_at-or_at :
    (ws : List ℕ) (j m i : ℕ)
    → j < length ws
    → word_at (or_at ws j m) i ≡ (if i == j then bit_or (word_at ws i) m else word_at ws i)
word_at-or_at [] j m i h = absurd (omega arith)
word_at-or_at (w ∷ ws) zero m zero h = refl
word_at-or_at (w ∷ ws) zero m (suc i) h = ground arith
word_at-or_at (w ∷ ws) (suc j) m zero h = ground arith
word_at-or_at (w ∷ ws) (suc j) m (suc i) h =
    let e : (suc i == suc j) ≡ (i == j) = ground arith in
    rw e (word_at-or_at ws j m i (omega arith))

-- The words before the bit is set.
grown : List ℕ → (index : ℕ) → List ℕ
grown ws index = if leb (length ws) index then resize ws (index + 1) else ws

word_at-grown : (ws : List ℕ) (index i : ℕ) → word_at (grown ws index) i ≡ word_at ws i
unfolding grown
word_at-grown ws index i = elim (Bool-cases (leb (length ws) index)) [
  | inl short ↦ rw short (word_at-append ws (index + 1 - length ws) i)
  | inr long ↦ rw long refl
]

length-grown : (ws : List ℕ) (index : ℕ) → length (grown ws index) ≡ max (length ws) (index + 1)
unfolding grown
length-grown ws index = elim (Bool-cases (leb (length ws) index)) [
  | inl short ↦ rw short (
      ground (
        arith,
        length-append ws (replicate (index + 1 - length ws)),
        length-replicate (index + 1 - length ws),
      ))
  | inr long ↦ rw long (ground arith)
]

add-grown :
    (s : LabSet) (lab : ℕ)
    → (add s lab).bits ≡ or_at (grown s.bits (lab / 2 ^ 6)) (lab / 2 ^ 6) (2 ^ (lab % 64))
unfolding add grown
add-grown s lab = refl

add-min_safe : (s : LabSet) (lab : ℕ) → (add s lab).min_safe ≡ max s.min_safe ((lab + 1) % 2 ^ 16)
unfolding add
add-min_safe s lab = refl

add-bit : (s : LabSet) (lab x : ℕ) → bit (add s lab) x ≡ (bit s x || (x == lab))
add-bit s lab x =
    let i = lab / 2 ^ 6 in
    rw
      (
        add-grown s lab,
        word_at-or_at (grown s.bits i) i (2 ^ (lab % 64)) (x / 2 ^ 6)
            (ground (arith, length-grown s.bits i)),
        word_at-grown s.bits i (x / 2 ^ 6),
      )
      (elim (Bool-cases (x / 2 ^ 6 == lab / 2 ^ 6)) [
        | inl same ↦ rw same (
            test-or (x % 64) _ _
            ∙ rw (test-pow (lab % 64) (x % 64))
                (let e : (x % 64 == lab % 64) ≡ (x == lab) = ground arith in rw e refl))
        | inr other ↦ rw other (let e : (x == lab) ≡ false = ground arith in rw e (ground arith))
      ])

add-IsValid : (s : LabSet) (lab : ℕ) → lab < 0xFFFF → IsValid s → IsValid (add s lab)
add-IsValid s lab h v = record {
  safe = λ x p.
      let m : max s.min_safe ((lab + 1) % 2 ^ 16) ≤ x = rw (← add-min_safe s lab) p in
      let e : (x == lab) ≡ false = ground arith in
      rw (add-bit s lab x, v.safe x (ground arith), e) refl;
  long =
      rw
        (
          add-min_safe s lab,
          add-grown s lab,
          length-or_at (grown s.bits (lab / 2 ^ 6)) (lab / 2 ^ 6) (2 ^ (lab % 64)),
          length-grown s.bits (lab / 2 ^ 6),
        )
        (ground (arith, v.long));
}

-- Adding a label below 0xFFFF to a valid set gives a valid set that has that label and those that the
-- set had before.
pub add-has :
    (s : LabSet) (lab : ℕ)
    → lab < 0xFFFF
    → IsValid s
    → IsValid (add s lab)
      × ((x : ℕ) → (b : Bool) × (has s x ≡ some b) × (has (add s lab) x ≡ some (b || (x == lab))))
add-has s lab h v = (
  add-IsValid s lab h v,
  λ x. (
    bit s x,
    has-bit s v x,
    has-bit (add s lab) (add-IsValid s lab h v) x ∙ ap some (add-bit s lab x),
  ),
)

-- The label 0xFFFF, added to the empty set, is not in it: `min_safe` wraps around to 0.
pub add-top : has (add empty 0xFFFF) 0xFFFF ≡ some false
unfolding has add
add-top = refl

abbrev pub member : ℕ → List ℕ → Bool
member x [] = false
member x (l ∷ ls) = (x == l) || member x ls

abbrev pub AllBelow : ℕ → List ℕ → Type 0
AllBelow m [] = Unit
AllBelow m (l ∷ ls) = (l < m) × AllBelow m ls

pub empty-IsValid : IsValid empty
empty-IsValid = record { safe = λ lab h. test-none (lab % 64); long = omega arith }

insert_all-bit :
    (ls : List ℕ) (s : LabSet)
    → AllBelow 0xFFFF ls
    → IsValid s
    → IsValid (insert_all s ls) × ((x : ℕ) → bit (insert_all s ls) x ≡ (bit s x || member x ls))
unfolding insert_all
insert_all-bit [] s b v = (v, λ x. ground arith)
insert_all-bit (l ∷ ls) s (b, bs) v =
    let (w, e) = insert_all-bit ls (add s l) bs (add-IsValid s l b v) in
    (w, λ x. e x ∙ rw (add-bit s l x) (ground arith))

-- The set that `from_iter` collects from labels below 0xFFFF has exactly those labels.
pub from_iter-has :
    (ls : List ℕ) → AllBelow 0xFFFF ls → (x : ℕ) → has (from_iter ls) x ≡ some (member x ls)
unfolding from_iter
from_iter-has ls b x =
    let (w, e) = insert_all-bit ls empty b empty-IsValid in
    has-bit (insert_all empty ls) w x ∙ ap some (e x ∙ rw (test-none (x % 64)) refl)
