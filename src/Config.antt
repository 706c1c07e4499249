-- ===== src/Config.antt =====
-- The configuration (internal/config): its data, the rules that normalise it and the store.
pub mod Model
pub mod Hex
pub mod HexNode
pub mod Entries
pub mod Mapping
pub mod Rules
pub mod Normal
pub mod AtomicFile
pub mod Watch
pub mod Store
pub mod Yaml
mod Tests
