-- ===== src/Tests.antt =====
-- The witnesses, on a small cluster of two memory nodes and a toy cryptography.
pub mod Toy
pub mod Writes
pub mod Slots
pub mod Files
pub mod Regions
pub mod Evictions
pub mod Wire
pub mod Races
pub mod Commands
