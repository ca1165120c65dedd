-- ===== src/Jobs/Once.antt =====
-- agent_core/jobs.py: the end of a job is delivered once.
use nosis.Base.{ℕ, ◌+◌, String}
use nosis.Jobs.System.{System, ends_of, count}

-- A job is going on, or its end is told once, or neither.
abbrev pub total : String → System → ℕ
total id s = count id s.live + ends_of id s.delivered + ends_of id s.manager.updates
