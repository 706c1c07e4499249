-- ===== src/Config/Mapping.antt =====
-- internal/config/mapping.go: the slider mapping, looked up, cloned and normalised.
pub mod Order
pub mod Canonical
pub mod Lookup
pub use Order.*
pub use Canonical.*
pub use Lookup.*
