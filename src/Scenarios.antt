-- ===== src/Scenarios.antt =====
-- The theorems at work on small concrete data.
mod Samples
mod ShipyardRuns
mod DockRuns
mod SessionRuns
mod IdentityRuns
mod StoreRuns
mod MiningRuns
