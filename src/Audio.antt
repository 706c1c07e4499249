-- ===== src/Audio.antt =====
-- internal/audio: the finders that tell the mixer which sessions there are, and what they promise.
pub mod Delivery
pub mod Server
pub mod Session
pub mod Pulse
pub mod Com
pub mod Wca
mod Tests
