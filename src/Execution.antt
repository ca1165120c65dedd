-- ===== src/Execution.antt =====
-- agent_core/execution: which execution scopes an agent may use.
pub mod Authority
