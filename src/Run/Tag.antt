-- ===== src/Run/Tag.antt =====
-- The tags of ports (src/run/port.rs), with the codes of `bi_enum!`.
use hvm.Prelude.{ℕ, zero, suc}

pub data Tag : Type 0 where
  red var ref int f32 op mat ctr : Tag

-- `as u8`
unfoldable pub tag_code : Tag → ℕ
tag_code Tag.red = 0
tag_code Tag.var = 1
tag_code Tag.ref = 2
tag_code Tag.int = 3
tag_code Tag.f32 = 4
tag_code Tag.op = 5
tag_code Tag.mat = 6
tag_code Tag.ctr = 7

-- `Tag::from_unchecked`, on the numbers below 8 that `tag` calls it on
unfoldable pub from_unchecked : ℕ → Tag
from_unchecked zero = Tag.red
from_unchecked (suc zero) = Tag.var
from_unchecked (suc (suc zero)) = Tag.ref
from_unchecked (suc (suc (suc zero))) = Tag.int
from_unchecked (suc (suc (suc (suc zero)))) = Tag.f32
from_unchecked (suc (suc (suc (suc (suc zero))))) = Tag.op
from_unchecked (suc (suc (suc (suc (suc (suc zero)))))) = Tag.mat
from_unchecked (suc (suc (suc (suc (suc (suc (suc n))))))) = Tag.ctr
