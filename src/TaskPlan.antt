-- ===== src/TaskPlan.antt =====
-- The task plan of a run (backend-go/internal/taskplan).
pub mod Types
pub mod Rules
pub mod Validate
pub mod Memory
pub mod Contract
pub mod Window
pub mod Probe
pub mod Changes
pub mod Service
pub mod Authorize
