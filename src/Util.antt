-- ===== src/Util.antt =====
-- Helpers of the transformations (src/util/).
pub mod CreateVar
pub mod ApplyTree
pub mod Tests
