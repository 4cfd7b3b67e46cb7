-- ===== src/Examples.antt =====
-- Tests of the definitions, and the theorems at concrete inputs.
pub mod AgentServiceRuns
pub mod TaskPlans
mod AgentLoops
pub mod HarnessPolicies
mod ToolRegistries
pub mod HarnessTurns
mod HarnessRuns
