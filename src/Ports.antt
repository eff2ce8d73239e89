-- ===== src/Ports.antt =====
-- services/port_preflight.py: which ports a deploy needs, which are held, and which are free.
pub mod Listening
pub mod Checks
pub mod Free
pub mod Groups
mod Tests
