-- ===== src/Transform.antt =====
-- Transformations of the syntax (src/transform/).
pub mod Coalesce
pub mod Inline
pub mod Prune
pub mod EtaReduce
pub mod EncodeAdts
