-- ===== src/Sim/State.antt =====
-- state.go, jump.go and frontier.go: the authoritative save.
mod Ship
mod Run
mod Pilot
pub use Ship.*
pub use Run.*
pub use Pilot.*
