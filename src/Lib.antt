-- ===== src/Lib.antt =====
-- Nosis: the core of the agent.
--
-- agent_core runs an agent: a turn of a session takes the user's messages, calls a model, runs the tools
-- that it asks for, and ends when the model has no more to do. Everything that happens is an event in the
-- session's journal, which is stored as it grows and from which the session is made again after a restart.
--
-- The files and what they model:
--   Base             booleans, lists, errors as values, JSON, texts, dicts
--   Turn.Mailbox, Turn.Control
--                    agent_core/turn_control.py: messages that the user sends while a turn runs, and
--                    the turn's end and cancellation; Turn.Delivery has the proofs
--   Loop.Guard       agent_core/loop_policy.py: the guard against repeated tool calls
--   Loop.Policy      agent_core/loop_policy.py: what happens after a response of the model
--   Execution.Authority
--                    agent_core/execution/authority.py: what an agent may run, and what unattended
--   Plan             agent_core/plan.py: plans, validation and the persisted form;
--                    Session.Planning has PlanManager.update
--   Session.Message  agent_core/content.py, the tool calls of agent_core/tools/base.py and the messages
--                    of agent_core/session.py, with the persisted form; Session.Message.Read reads it and
--                    Session.Message.History is what old turns and compression see of a content
--   Session.State    agent_core/session.py: the data of a session
--   Session.Apply    Session.apply_event, a file for each group of its branches
--   Session.Journal  Session._event and the sink
--   Session.Operations, Session.Records
--                    the operations of a session; Session.Perform has them as data
--   Session.Load, Session.Restart
--                    agent_core/session_store.py: _load_unlocked on the events of a journal
--   Session.Recovery Session.recover
--   Session.Fork     agent_core/session_store.py: the persisted form of an event, and fork_session
--   Session.JournalFile
--                    agent_core/session_store.py: the journal's file, its repair and what is read of it
--   ToolBatch        agent_core/tool_batch.py: a batch of tool calls, executed one after another
--   Permissions      agent_core/permissions.py: what the user is asked for; the presets are in
--                    Session.State
--   Jobs             agent_core/jobs.py: the table of background jobs and the queue of updates; Jobs.Worker
--                    has what a worker does, Jobs.Cancel what callers see and cancel, and Jobs.System the
--                    calls and workers as steps in any order
--   Context.Projection
--                    agent_core/projection.py: what of the messages a model provider is given
--   Schedule.Trigger, Schedule.Input
--                    agent_core/scheduler.py: triggers and schedules, and the forms they are given in
--   Schedule.Stored  the form in which schedules and runs are stored
--   Schedule.Cron, Schedule.Occurrence
--                    _cron_matches, and _next_occurrence with what follows a missed run
--   Schedule.File    _append, and what _reload reads
--   Schedule.Service SchedulerService: create, update and delete; Schedule.Service.Poll has poll_once and
--                    _execute, and Schedule.Service.Threads the calls and threads as steps in any order
-- The files below these and Session.Replay and Session.Keyed have the proofs; those called Examples have
-- data and instances.
--
-- How the code is modelled. A method takes the object's state and returns the new one. An exception is
-- a value: a step returns its error beside the state that it leaves, so that what was written before
-- the exception stays. Code that a lock guards is one step. Python's dicts with text keys are lists of
-- pairs in insertion order. JSON is a data type whose numbers are natural; a value of a type that the
-- code does not expect raises a TypeError where Python might go on with it. Times are natural numbers
-- of microseconds. uuid4, the clock and whether the journal's sink takes a batch, or raises after a
-- part of it was written, are inputs of each call. isoformat, fromisoformat and str of a value that is
-- no text are the record Python, of which only the law that a written time is read back is ever
-- assumed; Library is the scheduler's. Its times are of datetimes with an offset, its file is a text,
-- and the JSON text of a record, the zones' clocks and the calendar are the records JsonText and
-- Calendar. The texts and the JSON of the journal's file are the record Codec, of which the laws of
-- UTF-8 at a newline are assumed. A theorem that needs it assumes that a record is written as one
-- line.
--
-- Fuel. search_start of Session.JournalFile has a round for each byte before its cursor. first_match
-- of Schedule.Occurrence has the rounds of the code's own loop. units_from of Context.Projection has
-- as much fuel as there are messages, of which each round takes one at least. wait_loop of Loop.Policy
-- runs on fuel, since the code waits until its callbacks report no more work; fuel for the number of
-- waits after which the jobs are over is enough.
--
-- Not modelled: model providers, tools, sandboxes, MCP, files, the agent's own loop, the scheduler's
-- polling thread and its leader's lock, context compression, and the interfaces.
pub mod Base
pub mod Turn
pub mod Loop
pub mod Execution
pub mod Plan
pub mod Session
pub mod Context
pub mod Permissions
pub mod Jobs
pub mod Schedule
pub mod ToolBatch
