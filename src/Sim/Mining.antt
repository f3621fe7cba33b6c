-- ===== src/Sim/Mining.antt =====
-- A mining run, from the lock on an asteroid to its outcome (internal/sim: run.go, combat.go,
-- events.go, skillcheck.go and the asteroids of belt.go).
pub mod Rocks
pub mod Accounting
pub mod Outcome
pub mod Weapons
pub mod Odds
pub mod Escape
pub mod Fight
pub mod Gunnery
pub mod Damage
pub mod Engagement
pub mod Events
pub mod Points
pub mod Drill
pub mod Tick
pub mod Abandon
pub mod Start
pub mod Tribute
pub mod Frames
pub mod Settlement
pub mod Endings
pub mod Notices
