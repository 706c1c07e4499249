-- ===== src/Desktop.antt =====
-- The desktop application (internal/desktop): what its settings window asks the settings service for.
pub mod Icons
mod Tests
