-- ===== src/Config/Normal.antt =====
-- Normalised settings: what they are, that `normalize` reaches them, and that it keeps them.
pub mod Shape
pub mod Sections
pub mod Profiles
pub mod Whole
