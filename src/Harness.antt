-- ===== src/Harness.antt =====
-- The harness that governs a run (backend-go/internal/harness).
pub mod Policy
pub mod Cost
pub mod State
pub mod Records
pub mod Trace
pub mod Turn
pub mod Run
