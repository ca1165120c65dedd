-- ===== src/Turn.antt =====
-- agent_core/turn_control.py: control messages for one active turn.
-- Each method runs under one lock, so a method is one step on the state.
pub mod Mailbox
pub mod Control
pub mod Delivery
mod Examples
