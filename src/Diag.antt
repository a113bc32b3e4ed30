-- ===== src/Diag.antt =====
-- src/diag: the diagnostics that the passes report.
pub mod Sink
pub mod Counts
