-- ===== src/Identity.antt =====
-- The package identity: who a connection stands for. Text is a list of bytes, as in Go.
pub mod Text
pub mod Slots
pub mod Proxy
pub mod Accounts
pub mod Resolver
