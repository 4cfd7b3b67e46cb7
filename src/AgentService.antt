-- ===== src/AgentService.antt =====
-- The agent runs and their event logs (backend-go/internal/agentservice).
pub mod Types
pub mod Memory
pub mod Broker
pub mod Service
pub mod Trace
