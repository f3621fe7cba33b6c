-- ===== src/Sim.antt =====
-- The deterministic game core (internal/sim).
pub mod Errors
pub mod State
pub mod Numbers
pub mod Catalog
pub mod Condition
pub mod Tracks
pub mod Loadout
pub mod Shipyard
pub mod Fleet
pub mod Market
pub mod Frontier
pub mod Dice
pub mod Figures
pub mod Mining
