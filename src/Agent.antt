-- ===== src/Agent.antt =====
-- The agent loop and the summaries of tool results (backend-go/internal/agent).
pub mod Types
pub mod Loop
