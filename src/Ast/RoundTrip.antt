-- ===== src/Ast/RoundTrip.antt =====
-- Text that the printer wrote and the parser reads back (src/ast.rs).
pub mod Heads
pub mod Leaves
pub mod Nodes
pub mod Trees
pub mod Sizes
pub mod Insert
pub mod Books
pub mod Exponent
