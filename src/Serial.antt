-- ===== src/Serial.antt =====
-- The serial client (internal/serial): the noise filter, the line protocol of the hardware mixer
-- and the search for its port.
pub mod Noise
pub mod Protocol
pub mod Lines
pub mod Sliders
pub mod Handler
pub mod Port
pub mod Watch
mod Tests
