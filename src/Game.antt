-- ===== src/Game.antt =====
-- internal/game: the actor that owns one open save, and what its sessions may do.
pub mod Actor
pub mod Steps
pub mod Durability
pub mod Control
