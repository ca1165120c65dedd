-- ===== src/Context.antt =====
-- agent_core/projection.py: what of a session's messages a model provider is given.
pub mod Projection
