-- ===== src/Tests.antt =====
-- Concrete runs of the definitions, and each theorem at a concrete input.
pub mod Wire
pub mod World
pub mod Trade
pub mod Ab
pub mod Eots
pub mod Queue
pub mod Groups
