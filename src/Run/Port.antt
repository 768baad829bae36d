-- ===== src/Run/Port.antt =====
-- Ports (src/run/port.rs): a port is a 64-bit word, whose low three bits are its tag. A wire
-- (src/run/wire.rs) is the address of a word, so a number too.
pub mod Fields
pub mod Numbers
pub mod U60
use hvm.Prelude.{
  ℕ, zero, suc, ◌*◌, ◌/◌, ◌%◌, ◌^◌, bit_and, bit_or, Bool, true, false, not, ◌&&◌, ◌||◌, Option,
  ltb, leb, ◌==◌,
}
use hvm.Run.Tag.{Tag, tag_code, from_unchecked}
use hvm.Ops.Kinds.{TypedOp, Endian, try_from_u16}
use hvm.Ops.Signed
use hvm.Ops.Numeric.{Float, truncate}

-- The principal port of an eraser, and the words with a meaning of their own.
abbrev pub era : ℕ
era = 2

abbrev pub free : ℕ
free = 0x8000_0000_0000_0000

abbrev pub lock : ℕ
lock = 0xFFFF_FFFF_FFFF_FFF0

abbrev pub gone : ℕ
gone = 0xFFFF_FFFF_FFFF_FFFF

unfoldable pub new : Tag → (lab addr : ℕ) → ℕ
unfolding tag_code
new tag lab addr = bit_or (bit_or ((lab * 2 ^ 48) % 2 ^ 64) addr) (tag_code tag)

unfoldable pub new_var : ℕ → ℕ
unfolding new
new_var addr = new Tag.var 0 addr

unfoldable pub new_num : Tag → ℕ → ℕ
unfolding tag_code
new_num tag bits = bit_or ((bits * 2 ^ 4) % 2 ^ 64) (tag_code tag)

-- An `i64` is given by its bits.
unfoldable pub new_int : ℕ → ℕ
unfolding new_num
new_int val = new_num Tag.int val

unfoldable pub new_float : {F : Type 0} → Float F → F → ℕ
unfolding new_num
new_float f val = new_num Tag.f32 (f.to_bits val)

-- A definition is given by its address and the least label above those it uses.
unfoldable pub new_ref : (min_safe addr : ℕ) → ℕ
unfolding new
new_ref min_safe addr = new Tag.ref min_safe addr

unfoldable pub tag : ℕ → Tag
unfolding from_unchecked
tag port = from_unchecked (bit_and port 0x7)

unfoldable pub is : ℕ → Tag → Bool
unfolding tag tag_code
is port t = tag_code (tag port) == tag_code t

unfoldable pub is_num : ℕ → Bool
unfolding is
is_num port = is port Tag.int || is port Tag.f32

unfoldable pub is_era : ℕ → Bool
is_era port = port == era

unfoldable pub lab : ℕ → ℕ
lab port = (port / 2 ^ 48) % 2 ^ 16

unfoldable pub addr : ℕ → ℕ
addr port = bit_and port 0x0000_FFFF_FFFF_FFF8

-- `unwrap_unchecked` is undefined behaviour on `none`.
unfoldable pub op : Endian → ℕ → Option TypedOp
unfolding lab
op e port = try_from_u16 e (lab port)

-- `(self.0 as i64) >> 4`; `int` and `num` differ in the type at which the bits are read.
unfoldable pub num : ℕ → ℕ
num port = Signed.wrapping_shr 64 port 4

unfoldable pub int : ℕ → ℕ
int port = Signed.wrapping_shr 64 port 4

unfoldable pub float : {F : Type 0} → Float F → ℕ → F
unfolding num
float f port = f.from_bits (truncate 32 (num port))

-- `Wire::new(self.addr())`, the address itself.
unfoldable pub wire : ℕ → ℕ
unfolding addr
wire port = addr port

unfoldable pub is_principal : ℕ → Bool
unfolding tag tag_code
is_principal port = leb (tag_code Tag.ref) (tag_code (tag port))

unfoldable pub is_skippable : ℕ → Bool
unfolding is_num lab
is_skippable port = is_num port || is port Tag.ref && not (lab port == 0xFFFF)

unfoldable pub redirect : ℕ → ℕ
unfolding new addr
redirect port = new Tag.red 0 (addr port)

unfoldable pub unredirect : ℕ → ℕ
unfolding new addr
unredirect port = new Tag.var 0 (addr port)

unfoldable pub is_full_node : ℕ → Bool
unfolding tag tag_code
is_full_node port = ltb (tag_code Tag.f32) (tag_code (tag port))
