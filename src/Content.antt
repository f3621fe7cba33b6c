-- ===== src/Content.antt =====
-- The validated game configuration (internal/content), and its lookups.
mod Map
mod Balance
mod Fleet
pub mod Lookup
pub use Map.*
pub use Balance.*
pub use Fleet.*
pub use Lookup.{Content}
