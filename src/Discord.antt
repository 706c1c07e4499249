-- ===== src/Discord.antt =====
-- The Discord integration (internal/integrations/discord): the roster and the throttled volumes.
pub mod Roster
pub mod Volume
pub mod Keys
pub mod Throttle
pub mod Members
pub mod Replay
pub mod Frames
pub mod Replies
pub mod Auth
pub mod Source
pub mod Events
mod Tests
