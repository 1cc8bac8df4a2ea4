-- ===== src/World.antt =====
-- engine/world: the state of the game.
pub mod Clock
pub mod Wsg
pub mod Groups
pub mod Ab
pub mod Eots
pub mod Queue
pub mod Diminishing
pub mod Trade
pub mod Absorption
