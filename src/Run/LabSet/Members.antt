-- ===== src/Run/LabSet/Members.antt =====
-- The members of label sets after `add` and `union` (src/run/def.rs), and that `has` reads no word
-- past the end.
use hvm.Prelude.{
  ℕ, zero, suc, ◌+◌, ◌-◌, ◌*◌, ◌/◌, ◌%◌, ◌^◌, ◌≤◌, ◌<◌, ◌≡◌, refl, bit_and, bit_or, Bool, false,
  not, ◌||◌, some, List, [], ◌∷◌, ◌++◌, length, length-append, ◌==◌, ltb, leb, get_elem?, arith,
  ◌∙◌, ap, sym, Bool-cases, inl, inr,
}
use native.Mathlib.Nat.{pow-suc}
use mathlib.Core.List.{append-nil}
use hvm.Prelude.Bits.{bit_and_digit, bit_or_digit, bit_and-zero, bit_or-zero}
use hvm.Prelude.Words.{bit_and_comm, bit_or_comm}
use hvm.Run.LabSet.{LabSet, replicate, test, has, or_words, skip, union, max}

-- One bit of a word.
test-zero : (w : ℕ) → test w 0 ≡ not (w % 2 == 0)
test-zero w =
    let e : bit_and w 1 ≡ w % 2 = omega (arith, bit_and_digit w 1, bit_and-zero (w / 2)) in
    rw e refl

test-suc : (w k : ℕ) → test w (suc k) ≡ test (w / 2) k
test-suc w k =
    let d : (2 ^ suc k) / 2 ≡ 2 ^ k = omega (arith, pow-suc 2 k) in
    let e : bit_and w (2 ^ suc k) ≡ bit_and (w / 2) (2 ^ k) * 2 =
      rw (← d) (omega (arith, bit_and_digit w (2 ^ suc k), pow-suc 2 k)) in
    rw e (ground arith)

pub test-or : (k a b : ℕ) → test (bit_or a b) k ≡ (test a k || test b k)
test-or zero a b =
    rw (test-zero (bit_or a b), test-zero a, test-zero b) (ground (arith, bit_or_digit a b))
test-or (suc k) a b =
    let e : bit_or a b / 2 ≡ bit_or (a / 2) (b / 2) = omega (arith, bit_or_digit a b) in
    rw (test-suc (bit_or a b) k, test-suc a k, test-suc b k, e) (test-or k (a / 2) (b / 2))

pub test-none : (k : ℕ) → test 0 k ≡ false
test-none k =
    let e : bit_and 0 (2 ^ k) ≡ 0 = bit_and_comm 0 (2 ^ k) ∙ bit_and-zero (2 ^ k) in rw e refl

pub test-pow : (j k : ℕ) → test (2 ^ j) k ≡ (k == j)
test-pow zero zero = refl
test-pow zero (suc k) = test-suc 1 k ∙ test-none k ∙ ground arith
test-pow (suc j) zero = test-zero (2 ^ suc j) ∙ ground (arith, pow-suc 2 j)
test-pow (suc j) (suc k) =
    let d : (2 ^ suc j) / 2 ≡ 2 ^ j = omega (arith, pow-suc 2 j) in
    test-suc (2 ^ suc j) k ∙ rw d (test-pow j k ∙ ground arith)

-- The words, as if they went on with zeros.
abbrev pub word_at : List ℕ → ℕ → ℕ
word_at [] i = 0
word_at (w ∷ ws) zero = w
word_at (w ∷ ws) (suc i) = word_at ws i

-- The set that the words stand for.
abbrev pub bit : LabSet → (lab : ℕ) → Bool
bit s lab = test (word_at s.bits (lab / 2 ^ 6)) (lab % 64)

-- No bit is set from `min_safe` on, and the words reach that far.
pub record IsValid (s : LabSet) : Type 0 where
  pub safe : (lab : ℕ) → s.min_safe ≤ lab → bit s lab ≡ false
  pub long : s.min_safe ≤ 64 * length s.bits

get-word_at : (ws : List ℕ) (i : ℕ) → i < length ws → get_elem? ws i ≡ some (word_at ws i)
get-word_at [] i h = absurd (omega arith)
get-word_at (w ∷ ws) zero h = refl
get-word_at (w ∷ ws) (suc i) h = get-word_at ws i (omega arith)

-- In a valid set `has` stays within the words and gives the bit.
pub has-bit : (s : LabSet) → IsValid s → (lab : ℕ) → has s lab ≡ some (bit s lab)
unfolding has
has-bit s v lab = elim (Bool-cases (leb s.min_safe lab)) [
  | inl out ↦ rw (out, v.safe lab (ground arith)) refl
  | inr within ↦ rw within (rw (get-word_at s.bits (lab / 2 ^ 6) (ground (arith, v.long))) refl)
]

-- The words of the union.
zeros_after : (n i : ℕ) → word_at (replicate n) i ≡ 0
zeros_after zero i = refl
zeros_after (suc n) zero = refl
zeros_after (suc n) (suc i) = zeros_after n i

pub word_at-append : (ws : List ℕ) (n i : ℕ) → word_at (ws ++ replicate n) i ≡ word_at ws i
word_at-append [] n i = zeros_after n i
word_at-append (w ∷ ws) n zero = refl
word_at-append (w ∷ ws) n (suc i) = word_at-append ws n i

length-or_words : (xs ys : List ℕ) → length (or_words xs ys) ≡ length xs
length-or_words [] ys = refl
length-or_words (x ∷ xs) [] = refl
length-or_words (x ∷ xs) (y ∷ ys) = omega (arith, length-or_words xs ys)

-- The loop and the tail, together.
joined : List ℕ → List ℕ → List ℕ
joined xs ys = or_words xs ys ++ skip (length xs) ys

joined-cons : (x y : ℕ) (xs ys : List ℕ) → joined (x ∷ xs) (y ∷ ys) ≡ bit_or x y ∷ joined xs ys
unfolding joined
joined-cons x y xs ys = refl

word_at-joined :
    (xs ys : List ℕ) (i : ℕ) → word_at (joined xs ys) i ≡ bit_or (word_at xs i) (word_at ys i)
unfolding joined
word_at-joined [] ys i = sym (bit_or_comm 0 (word_at ys i) ∙ bit_or-zero (word_at ys i))
word_at-joined (x ∷ xs) [] i =
    ap (λ (ws : List ℕ). word_at (x ∷ ws) i) (append-nil xs)
    ∙ sym (bit_or-zero (word_at (x ∷ xs) i))
word_at-joined (x ∷ xs) (y ∷ ys) zero = refl
word_at-joined (x ∷ xs) (y ∷ ys) (suc i) = word_at-joined xs ys i

skip-all : (n : ℕ) (ys : List ℕ) → length ys ≤ n → skip n ys ≡ []
skip-all zero [] h = refl
skip-all zero (y ∷ ys) h = absurd (omega arith)
skip-all (suc n) [] h = refl
skip-all (suc n) (y ∷ ys) h = skip-all n ys (omega arith)

length-skip : (n : ℕ) (ys : List ℕ) → length (skip n ys) ≡ length ys - n
length-skip zero ys = omega arith
length-skip (suc n) [] = omega arith
length-skip (suc n) (y ∷ ys) = omega (arith, length-skip n ys)

union-joined : (s t : LabSet) → (union s t).bits ≡ joined s.bits t.bits
unfolding union joined
union-joined s t = elim (Bool-cases (ltb (length s.bits) (length t.bits))) [
  | inl longer ↦ rw (length-or_words s.bits t.bits) (rw longer refl)
  | inr shorter ↦ rw (length-or_words s.bits t.bits) (
      rw (shorter, skip-all (length s.bits) t.bits (ground arith))
        (sym (append-nil (or_words s.bits t.bits))))
]

union-bit : (s t : LabSet) (lab : ℕ) → bit (union s t) lab ≡ (bit s lab || bit t lab)
union-bit s t lab =
    rw (union-joined s t, word_at-joined s.bits t.bits (lab / 2 ^ 6)) (test-or (lab % 64) _ _)

length-joined : (xs ys : List ℕ) → length (joined xs ys) ≡ length xs + (length ys - length xs)
unfolding joined
length-joined xs ys = omega (
  arith,
  length-append (or_words xs ys) (skip (length xs) ys),
  length-or_words xs ys,
  length-skip (length xs) ys,
)

union-min_safe : (s t : LabSet) → (union s t).min_safe ≡ max s.min_safe t.min_safe
unfolding union
union-min_safe s t = refl

union-IsValid : (s t : LabSet) → IsValid s → IsValid t → IsValid (union s t)
union-IsValid s t v w = record {
  safe = λ lab h.
      let m : max s.min_safe t.min_safe ≤ lab = rw (← union-min_safe s t) h in
      rw (union-bit s t lab, v.safe lab (ground arith), w.safe lab (ground arith)) refl;
  long =
      rw (union-min_safe s t, union-joined s t, length-joined s.bits t.bits)
        (ground (arith, v.long, w.long));
}

-- The union of two valid sets is valid, and it has exactly the labels that one of the two has; no
-- test reads past the end of the words.
pub union-has :
    (s t : LabSet)
    → IsValid s
    → IsValid t
    → IsValid (union s t)
      × ((lab : ℕ)
          → (a b : Bool) × (has s lab ≡ some a)
            × (has t lab ≡ some b)
            × (has (union s t) lab ≡ some (a || b)))
union-has s t v w = (
  union-IsValid s t v w,
  λ lab. (
    bit s lab,
    bit t lab,
    has-bit s v lab,
    has-bit t w lab,
    has-bit (union s t) (union-IsValid s t v w) lab ∙ ap some (union-bit s t lab),
  ),
)
