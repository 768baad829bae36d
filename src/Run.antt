-- ===== src/Run.antt =====
-- The runtime (src/run.rs and src/run/).
pub mod Tag
pub mod Port
pub mod Addr
pub mod Allocator
pub mod Linker
pub mod Node
pub mod Rule
pub mod Interact
pub mod Instruction
pub mod LabSet
pub mod Net
pub mod Tests
