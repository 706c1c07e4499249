-- ===== src/Mixer.antt =====
-- The mixer (internal/mixer): the sessions it knows and where slider moves go.
pub mod Sessions
pub mod Targets
pub mod Counts
pub mod Consistency
pub mod Mapped
pub mod Volumes
pub mod Routing
pub mod Moves
pub mod Unclaimed
mod Tests
