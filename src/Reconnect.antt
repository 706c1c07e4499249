-- ===== src/Reconnect.antt =====
-- The reconnector (internal/reconnect): its steps, and what holds after any of them.
pub mod Steps
pub mod Invariant
pub mod Lifecycle
pub mod Contract
mod Tests
