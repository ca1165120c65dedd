-- ===== src/Schedule.antt =====
-- agent_core/scheduler.py: schedules, their triggers, and the service that keeps and runs them.
pub mod Trigger
pub mod Stored
pub mod Input
pub mod Cron
pub mod Occurrence
pub mod File
pub mod Service
pub mod Examples
