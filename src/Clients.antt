-- ===== src/Clients.antt =====
-- The clients of the serial port, of OBS and of Discord, which a reconnector keeps connected: what they
-- share, and what each does with its connection.
pub mod Renewal
pub mod Obs
pub mod Serial
mod Tests
