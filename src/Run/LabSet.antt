-- ===== src/Run/LabSet.antt =====
-- Sets of labels as words of bits (`LabSet`, src/run/def.rs). `lab + 1` wraps around at 16 bits, as in
-- a release build.
pub mod Members
pub mod Insert
pub mod Tests
use hvm.Prelude.{
  ◌*◌, ℕ, zero, suc, ◌+◌, ◌-◌, ◌/◌, ◌%◌, ◌^◌, bit_and, bit_or, Bool, true, false, not, Option, none,
  some, List, [], ◌∷◌, ◌++◌, length, ◌==◌, ltb, leb, if◌then◌else◌, get_elem?,
}

pub record LabSet : Type 0 where
  pub min_safe : ℕ
  pub bits : List ℕ

abbrev pub empty : LabSet
empty = record { min_safe = 0; bits = [] }

abbrev pub replicate : ℕ → List ℕ
replicate zero = []
replicate (suc n) = 0 ∷ replicate n

-- `LabSet::ALL`
abbrev pub all_words : ℕ → List ℕ
all_words zero = []
all_words (suc n) = (2 ^ 64 - 1) ∷ all_words n

unfoldable pub all : LabSet
all = record { min_safe = 0xFFFF; bits = all_words 1024 }

abbrev pub max : ℕ → ℕ → ℕ
max a b = if leb a b then b else a

-- `resize(n, 0)` of a vector that is not longer
abbrev pub resize : List ℕ → ℕ → List ℕ
resize bits n = bits ++ replicate (n - length bits)

abbrev pub or_at : List ℕ → (index mask : ℕ) → List ℕ
or_at [] i mask = []
or_at (w ∷ ws) zero mask = bit_or w mask ∷ ws
or_at (w ∷ ws) (suc i) mask = w ∷ or_at ws i mask

unfoldable pub add : LabSet → (lab : ℕ) → LabSet
add s lab =
    let index = lab / 2 ^ 6 in
    let bits = if leb (length s.bits) index then resize s.bits (index + 1) else s.bits in
    record {
      min_safe = max s.min_safe ((lab + 1) % 2 ^ 16);
      bits = or_at bits index (2 ^ (lab % 64));
    }

abbrev pub test : (word bit : ℕ) → Bool
test word bit = not (bit_and word (2 ^ bit) == 0)

-- `none` is a read past the end of the words (`get_unchecked`).
unfoldable pub has : LabSet → (lab : ℕ) → Option Bool
has s lab =
    if leb s.min_safe lab
    then some false
    else elim (get_elem? s.bits (lab / 2 ^ 6)) [ none ↦ none | some w ↦ some (test w (lab % 64)) ]

-- The loop over both vectors.
abbrev pub or_words : List ℕ → List ℕ → List ℕ
or_words [] ys = []
or_words (x ∷ xs) [] = x ∷ xs
or_words (x ∷ xs) (y ∷ ys) = bit_or x y ∷ or_words xs ys

-- `&bits[n ..]`
abbrev pub skip : ℕ → List ℕ → List ℕ
skip zero ys = ys
skip (suc n) [] = []
skip (suc n) (y ∷ ys) = skip n ys

unfoldable pub union : LabSet → LabSet → LabSet
union s other =
    let bits = or_words s.bits other.bits in
    record {
      min_safe = max s.min_safe other.min_safe;
      bits =
          if ltb (length bits) (length other.bits)
          then bits ++ skip (length bits) other.bits
          else bits;
    }

-- `FromIterator`
unfoldable pub insert_all : LabSet → List ℕ → LabSet
insert_all s [] = s
insert_all s (l ∷ ls) = insert_all (add s l) ls

unfoldable pub from_iter : List ℕ → LabSet
unfolding insert_all
from_iter labs = insert_all empty labs

-- The leading zeros of a word of `w` bits.
abbrev pub leading_zeros : (w word : ℕ) → ℕ
leading_zeros zero word = 0
leading_zeros (suc w) word = if leb (2 ^ w) word then 0 else suc (leading_zeros w word)

last : ℕ → List ℕ → ℕ
last w [] = w
last w (v ∷ vs) = last v vs

-- `LabSet::from_bits`
unfoldable pub from_bits : List ℕ → LabSet
unfolding last
from_bits [] = empty
from_bits (w ∷ ws) = record {
  min_safe =
      ((length (w ∷ ws) * 2 ^ 6) % 2 ^ 16 + (2 ^ 16 - leading_zeros 64 (last w ws))) % 2 ^ 16;
  bits = w ∷ ws;
}
