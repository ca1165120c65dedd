-- ===== src/Session/Apply/Run.antt =====
-- agent_core/session.py: how a branch of `apply_event` reads, writes and raises.
use nosis.Base.{String, Option, none, some, if◌then◌else◌, Result, returned, raised}
use nosis.Base.Texts.{is_empty}
use nosis.Base.Json.{PyError}
use nosis.Session.State.{Replayed}

-- The state after a run, and the exception that ended it, if any.
abbrev pub Applied : Type 0
Applied = Result PyError (Unit {0}) × Replayed

abbrev pub done : Replayed → Applied
done s = (returned tt, s)

abbrev pub fail : PyError → Replayed → Applied
fail e s = (raised e, s)

-- A computation that reads only, and then the writes with its value.
abbrev pub reading : {A : Type 0} → Result PyError A → Replayed → (A → Applied) → Applied
reading (raised e) s k = (raised e, s)
reading (returned a) s k = k a

-- `and event.turn_id`: a text that is given and not empty
abbrev pub with_text : Option String → (String → Replayed → Applied) → Replayed → Applied
with_text none k s = done s
with_text (some t) k s = if is_empty t then done s else k t s

-- `if isinstance(job_id, str) and event.turn_id is not None`
abbrev pub with_job :
    Option String → Option String → (String → String → Replayed → Applied) → Replayed → Applied
with_job (some job_id) (some turn_id) k s = k job_id turn_id s
with_job _ _ k s = done s
