-- ===== src/Tests.antt =====
-- Concrete inputs: each theorem of the library that has a hypothesis applied at one.
pub mod Blocks
pub mod Scans
pub mod Joins
pub mod Columns
pub mod TableBlocks
pub mod Statements
pub mod Parsing
pub mod Trees
pub mod Rows
