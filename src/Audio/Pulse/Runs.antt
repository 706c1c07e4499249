-- ===== src/Audio/Pulse/Runs.antt =====
-- The mixer has the sessions of the finder after any inputs, and each session is released once.
