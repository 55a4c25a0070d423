-- ===== src/Proxy.antt =====
-- The parts of pkg/proxy.
pub mod Health
pub mod Security
pub mod Capture
pub mod Engine
pub mod Replay
