-- ===== src/Loop/Policy/Examples.antt =====
-- Runs of `after_response` (agent_core/loop_policy.py) with jobs that need a few waits.
use nosis.Base.{◌≢◌, inr, ℕ, ◌-◌, ◌≡◌, refl, true, false, [], ◌∷◌, none, some, returned, ltb}
use nosis.Turn.Control.{fresh, finish, drain_steering, is_cancelled}
use nosis.Loop.Guard.{new, reset}
use nosis.Loop.Policy.{
  State, Callbacks, after_response, apply_steering, apply_jobs, raise_if_cancelled, wait, ◌>>=◌,
  wait_loop, run_before_finish,
}
use nosis.Loop.Policy.Ending.{Settles, after_response_decides}
use nosis.Loop.Policy.Outcome.{IsClosed, after_response_ends, after_response_continues}

-- The world counts the waits until the job is over, which then reports nothing.
abbrev silent_jobs : Callbacks ℕ
silent_jobs = record {
  external = λ w. none;
  apply_jobs = λ shared. ((false, ltb 0 shared.1), shared);
  append_steers = λ _ shared. (returned tt, shared);
  wait_for_job = λ shared. (shared.0, shared.1 - 1);
  before_finish = some (λ shared. (returned false, shared));
}

abbrev at_three : State ℕ
at_three = record { control = some fresh; repetition = new 2; world = 3 }

abbrev ended : State ℕ
ended = record {
  control = some (record {
    steering = record { items = []; received = []; accepting = false };
    cancelled = false;
    finished = true;
  });
  repetition = new 2;
  world = 0;
}

silent_run : after_response silent_jobs 3 at_three ≡ (returned (some false), ended)
unfolding after_response wait_loop run_before_finish apply_steering apply_jobs raise_if_cancelled
    finish drain_steering is_cancelled ◌>>=◌ wait
silent_run = refl

after_response_ends_example : (ended.repetition ≡ at_three.repetition) × IsClosed ended.control
after_response_ends_example = after_response_ends silent_jobs 3 at_three ended silent_run

-- Jobs that are over after the third wait.
at_three-Settles : Settles silent_jobs 3 3
unfolding Settles
at_three-Settles = λ c. inr (λ c. λ c. inr (λ c. λ c. inr (λ c. λ c. refl)))

after_response_decides_example : after_response silent_jobs 3 at_three ≢ (returned none, ended)
after_response_decides_example =
    after_response_decides silent_jobs 3 at_three ended at_three-Settles

-- A message that was sent while the model answered keeps the turn going.
abbrev steered : State ℕ
steered = record {
  control = some (record fresh {
    steering = record {
      items = record { steer_id = "s"; text = "go on" } ∷ [];
      received = "s" ∷ [];
      accepting = true;
    };
  });
  repetition = record { limit = 2; previous = none; count = 1 };
  world = 0;
}

abbrev continued : State ℕ
continued = record {
  control =
      some
        (record fresh { steering = record { items = []; received = "s" ∷ []; accepting = true } });
  repetition = new 2;
  world = 0;
}

steered_run : after_response silent_jobs 0 steered ≡ (returned (some true), continued)
unfolding after_response wait_loop run_before_finish apply_steering apply_jobs raise_if_cancelled
    finish drain_steering is_cancelled ◌>>=◌ new reset
steered_run = refl

after_response_continues_example : continued.repetition ≡ reset steered.repetition
after_response_continues_example =
    after_response_continues silent_jobs 0 steered continued steered_run
