-- ===== src/Run/Port/Fields.antt =====
-- The tag, label and address of a port as arithmetic on its word, and what `new` puts there.
use hvm.Prelude.{ℕ, zero, suc, ◌+◌, ◌*◌, ◌/◌, ◌%◌, ◌^◌, ◌<◌, ◌≡◌, refl, bit_or, arith}
use hvm.Prelude.Bits.{bit_and_digit}
use hvm.Prelude.Words.{bit_and-mask, bit_or-shifted}
use hvm.Run.Tag.{Tag, tag_code, from_unchecked}
use hvm.Run.Port.{new, tag, lab, addr}

pub tag_code-lt : (t : Tag) → tag_code t < 8
unfolding tag_code
tag_code-lt t = ground arith

from_unchecked-tag_code : (t : Tag) → from_unchecked (tag_code t) ≡ t
unfolding tag_code from_unchecked
from_unchecked-tag_code Tag.red = refl
from_unchecked-tag_code _ = refl

tag_code-from_unchecked : (n : ℕ) → n < 8 → tag_code (from_unchecked n) ≡ n
unfolding tag_code from_unchecked
tag_code-from_unchecked zero h = refl
tag_code-from_unchecked (suc zero) h = refl
tag_code-from_unchecked (suc (suc zero)) h = refl
tag_code-from_unchecked (suc (suc (suc zero))) h = refl
tag_code-from_unchecked (suc (suc (suc (suc zero)))) h = refl
tag_code-from_unchecked (suc (suc (suc (suc (suc zero))))) h = refl
tag_code-from_unchecked (suc (suc (suc (suc (suc (suc zero)))))) h = refl
tag_code-from_unchecked (suc (suc (suc (suc (suc (suc (suc zero))))))) h = refl
tag_code-from_unchecked (suc (suc (suc (suc (suc (suc (suc (suc n)))))))) h = absurd (omega arith)

pub tag_code-tag : (p : ℕ) → tag_code (tag p) ≡ p % 8
unfolding tag
tag_code-tag p = rw (bit_and-mask 3 p) (tag_code-from_unchecked (p % 8) (omega arith))

pub tag-eq : (p : ℕ) (t : Tag) → p % 8 ≡ tag_code t → tag p ≡ t
unfolding tag
tag-eq p t h = rw (bit_and-mask 3 p) (rw h (from_unchecked-tag_code t))

-- The address mask drops the three low bits and the sixteen high ones.
pub addr_lem : (p : ℕ) → addr p ≡ (p / 8 % 2 ^ 45) * 8
unfolding addr
addr_lem p = omega (
  arith,
  bit_and_digit p 0xFFFF_FFFF_FFF8,
  bit_and_digit (p / 2) 0x7FFF_FFFF_FFFC,
  bit_and_digit (p / 2 / 2) 0x3FFF_FFFF_FFFE,
  bit_and-mask 45 (p / 2 / 2 / 2),
)

-- An address as ports hold them: aligned to eight bytes, and below 2 ^ 48.
pub record IsAddr (a : ℕ) : Type 0 where
  pub aligned : a % 8 ≡ 0
  pub bounded : a < 2 ^ 48

or_tag : (x : ℕ) (t : Tag) → x % 8 ≡ 0 → bit_or x (tag_code t) ≡ x + tag_code t
or_tag x t h =
    let p : x ≡ (x / 8) * 2 ^ 3 = omega arith in
    rw p (bit_or-shifted 3 (x / 8) (tag_code t) (tag_code-lt t))

-- The word of a port with the given fields.
pub new_lem : (t : Tag) (l a : ℕ) → l < 2 ^ 16 → IsAddr a → new t l a ≡ l * 2 ^ 48 + a + tag_code t
unfolding new
new_lem t l a h w =
    let whole : (l * 2 ^ 48) % 2 ^ 64 ≡ l * 2 ^ 48 = omega arith in
    rw (whole, bit_or-shifted 48 l a w.bounded)
      (or_tag (l * 2 ^ 48 + a) t (omega (arith, w.aligned)))

-- A port made of a tag, a label and an address has those fields, and is a 64-bit word.
pub new_fields :
    (t : Tag) (l a : ℕ)
    → l < 2 ^ 16
    → IsAddr a
    → (tag (new t l a) ≡ t) × (lab (new t l a) ≡ l) × (addr (new t l a) ≡ a) × (new t l a < 2 ^ 64)
unfolding lab
new_fields t l a h w = rw (new_lem t l a h w) (
  tag-eq _ t (omega (arith, tag_code-lt t, w.aligned)),
  omega (arith, tag_code-lt t, w.bounded),
  omega (arith, addr_lem (l * 2 ^ 48 + a + tag_code t), tag_code-lt t, w.aligned, w.bounded),
  omega (arith, tag_code-lt t, w.bounded),
)

pub addr-IsAddr : (p : ℕ) → IsAddr (addr p)
addr-IsAddr p = record { aligned = omega (arith, addr_lem p); bounded = omega (arith, addr_lem p) }

pub lab-lt : (p : ℕ) → lab p < 2 ^ 16
unfolding lab
lab-lt p = omega arith

-- Every 64-bit word is the port made of its tag, its label and its address.
pub new-tag-lab-addr : (p : ℕ) → p < 2 ^ 64 → new (tag p) (lab p) (addr p) ≡ p
unfolding lab
new-tag-lab-addr p h =
    omega (arith, new_lem (tag p) _ (addr p) (lab-lt p) (addr-IsAddr p), addr_lem p, tag_code-tag p)
