-- ===== src/Tracing.antt =====
-- The parts of pkg/tracing.
pub mod Context
pub mod Redact
pub mod Waterfall
