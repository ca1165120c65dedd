-- ===== src/Jobs/System.antt =====
-- agent_core/jobs.py: callers and workers in any order.
use nosis.Base.{
  ℕ, suc, ◌≡◌, String, Bool, true, false, List, [], ◌∷◌, ◌++◌, ◌==◌, ◌&&◌, if◌then◌else◌, Result,
  returned, raised,
}
use nosis.Base.Json.{Fields, PyError, Python}
use nosis.Session.Journal.{Moment}
use nosis.Jobs.{Job, JobUpdate, Manager, is_terminal, submit, drain_updates, drain_terminal_state}
use nosis.Jobs.Worker.{begin, conclude, Ended}
use nosis.Jobs.Cancel.{cancel_locked}

-- The workers' jobs are those whose future has neither ended nor been cancelled; `delivered` are the
-- updates that were drained.
pub record System : Type 0 where
  pub manager : Manager
  pub live : List String
  pub delivered : List JobUpdate

abbrev pub if_submitted : {A : Type 0} → Result PyError A → String → List String → List String
if_submitted (raised e) id live = live
if_submitted (returned _) id live = id ∷ live

-- A worker goes on with its job only if its function is called.
abbrev pub if_begun : Result PyError Bool → String → List String → List String
if_begun (returned true) id rest = id ∷ rest
if_begun _ id rest = rest

-- How many updates tell the end of a job.
abbrev pub ends_of : String → List JobUpdate → ℕ
ends_of id [] = 0
ends_of id (u ∷ us) = if u.job_id == id && is_terminal u then suc (ends_of id us) else ends_of id us

abbrev pub count : String → List String → ℕ
count id [] = 0
count id (k ∷ ks) = if k == id then suc (count id ks) else count id ks

module _ (python : Python) where
  pub data Step (s : System) : System → Type 0 where
    -- The fresh name is one that no job has had.
    submits :
        (moment : Moment) (executor : Result PyError (Unit {0})) (id kind turn_id : String)
        (details : Fields)
        → count id s.live ≡ 0
        → ends_of id s.delivered ≡ 0
        → ends_of id s.manager.updates ≡ 0
        → Step s (record s {
          manager = (submit python moment executor id kind turn_id details s.manager).1;
          live =
              if_submitted
                (submit python moment executor id kind turn_id details s.manager).0
                id
                s.live;
        })
    begins :
        (moment : Moment) (now : ℕ) (before after : List String) (job : Job)
        → s.live ≡ before ++ job.job_id ∷ after
        → Step s (record s {
          manager = (begin python moment now job s.manager).1;
          live = if_begun (begin python moment now job s.manager).0 job.job_id (before ++ after);
        })
    concludes :
        (moment : Moment) (now : ℕ) (before after : List String) (job : Job) (ended : Ended)
        → s.live ≡ before ++ job.job_id ∷ after
        → Step s (record s {
          manager = (conclude python moment now job ended s.manager).1;
          live = before ++ after;
        })
    -- A future that cannot be cancelled any more answers false.
    cancels :
        (moments : String → Moment) (now : ℕ) (job : Job)
        → Step s
            (record s { manager = (cancel_locked python moments now (λ _. false) job s.manager).1 })
    withdraws :
        (moments : String → Moment) (now : ℕ) (before after : List String) (job : Job)
        → s.live ≡ before ++ job.job_id ∷ after
        → Step s (record s {
          manager = (cancel_locked python moments now (λ _. true) job s.manager).1;
          live = before ++ after;
        })
    drains :
        (turn_id : String)
        → Step s (record s {
          manager = (drain_updates turn_id s.manager).1;
          delivered = s.delivered ++ (drain_updates turn_id s.manager).0;
        })
    drains_ends :
        (turn_id : String)
        → Step s (record s {
          manager = (drain_terminal_state turn_id s.manager).2;
          delivered = s.delivered ++ (drain_terminal_state turn_id s.manager).0;
        })

  pub data Reach (s : System) : System → Type 0 where
    here : Reach s s
    onward : (t u : System) → Reach s t → Step t u → Reach s u
