-- ===== src/Ops.antt =====
-- Native numeric operations (src/ops.rs, src/ops/word.rs, src/ops/num.rs).
pub mod Kinds
pub mod Numeric
pub mod Unsigned
pub mod Signed
pub mod Apply
pub mod Swap
pub mod Codes
pub mod Integers
pub mod Order
pub mod Bounds
pub mod Tests
