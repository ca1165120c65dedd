-- ===== src/Loop.antt =====
-- agent_core/loop_policy.py: continuation and repetition rules for one turn.
pub mod Guard
pub mod Policy
