-- ===== src/Turn/Delivery.antt =====
-- agent_core/turn_control.py: what becomes of the steering messages of one turn, whatever the
-- order in which the frontend (`steer`, `cancel`) and the agent (`drain_steering`, `finish`) take
-- the lock. The history beside the control is what an observer of the calls sees.
use nosis.Base.{
  String, ◌≡◌, ◌⊎◌, true, false, not, List, [], ◌∷◌, ◌++◌, map, arith, ◌&&◌, contains,
  if◌then◌else◌, inl, inr, refl, Bool-cases, IsDistinct, IsDistinct-snoc,
}
use mathlib.Core.List.{map-append, append_assoc, append-nil}
use nosis.Turn.Mailbox.{UserSteer}
use nosis.Turn.Control.{Control, fresh, steer, drain_steering, finish, cancel}

pub data Call : Type 0 where
  steering : UserSteer → Call
  draining finishing cancelling : Call

-- `acknowledged`: the messages whose call returned true, the first of each id, in order.
-- `delivered`: what the agent's calls returned, in order.
pub record History : Type 0 where
  pub control : Control
  pub acknowledged : List UserSteer
  pub delivered : List UserSteer

abbrev pub ids : List UserSteer → List String
ids steers = map (λ s. s.steer_id) steers

abbrev pub start : History
start = record { control = fresh; acknowledged = []; delivered = [] }

unfoldable pub step : History → Call → History
step h (steering s) =
    let (accepted, control) = steer h.control s.steer_id s.text in
    record h {
      control = control;
      acknowledged =
          if accepted && not (contains (ids h.acknowledged) s.steer_id)
          then h.acknowledged ++ s ∷ []
          else h.acknowledged;
    }
step h draining =
    let (steers, control) = drain_steering h.control in
    record h { control = control; delivered = h.delivered ++ steers }
step h finishing =
    let (steers, control) = finish h.control in
    record h { control = control; delivered = h.delivered ++ steers }
step h cancelling = record h { control = (cancel h.control).1 }

unfoldable pub run : History → List Call → History
run h [] = h
run h (c ∷ cs) = run (step h c) cs

-- The messages in the mailbox are the acknowledged ones that were not delivered.
pub record IsFaithful (h : History) : Type 0 where
  pub received : h.control.steering.received ≡ ids h.acknowledged
  pub distinct : IsDistinct (ids h.acknowledged)
  pub exclusive : (h.control.cancelled ≡ false) ⊎ (h.control.finished ≡ false)
  pub live : h.control.cancelled ≡ false → h.delivered ++ h.control.steering.items ≡ h.acknowledged
  pub open_until :
      h.control.cancelled ≡ false → h.control.finished ≡ false → h.control.steering.accepting ≡ true
  pub closed : h.control.finished ≡ true → h.control.steering.items ≡ []
  pub lost : (rest : List UserSteer) × (h.delivered ++ rest ≡ h.acknowledged)

start-IsFaithful : IsFaithful start
start-IsFaithful = record {
  received = refl;
  distinct = tt;
  exclusive = inl refl;
  live = λ _. refl;
  open_until = λ _ _. refl;
  closed = λ _. refl;
  lost = ([], refl);
}

ids-snoc : (xs : List UserSteer) (s : UserSteer) → ids (xs ++ s ∷ []) ≡ ids xs ++ s.steer_id ∷ []
ids-snoc xs s = map-append (λ (s : UserSteer). s.steer_id) xs (s ∷ [])

-- A call on a cancelled control changes nothing.
step_cancelled : (h : History) (c : Call) → h.control.cancelled ≡ true → step h c ≡ h
unfolding step steer drain_steering finish cancel
step_cancelled h (steering s) e = ground arith
step_cancelled h draining e = ground (arith, append-nil h.delivered)
step_cancelled h finishing e = ground (arith, append-nil h.delivered)
step_cancelled h cancelling e = ground arith

-- The prefix is kept: by the mailbox of a live turn, unchanged on a cancelled one.
step-lost :
    (h : History) (c : Call)
    → IsFaithful h
    → ((step h c).control.cancelled ≡ false
        → (step h c).delivered ++ (step h c).control.steering.items ≡ (step h c).acknowledged)
    → (rest : List UserSteer) × ((step h c).delivered ++ rest ≡ (step h c).acknowledged)
unfolding step steer drain_steering finish cancel
step-lost h c f live = elim (Bool-cases h.control.cancelled) [
  | inl over ↦ rw (step_cancelled h c over) f.lost
  | inr on ↦ elim (Bool-cases (step h c).control.cancelled) [
    | inl now ↦ (h.control.steering.items, at_cancel h c f on now)
    | inr still ↦ ((step h c).control.steering.items, live still)
  ]
]
  where
    at_cancel :
        (h : History) (c : Call)
        → IsFaithful h
        → h.control.cancelled ≡ false
        → (step h c).control.cancelled ≡ true
        → (step h c).delivered ++ h.control.steering.items ≡ (step h c).acknowledged
    at_cancel h (steering s) f on now = ground arith
    at_cancel h draining f on now = ground arith
    at_cancel h finishing f on now = ground arith
    at_cancel h cancelling f on now = f.live on

step-IsFaithful : (h : History) (c : Call) → IsFaithful h → IsFaithful (step h c)
unfolding step steer drain_steering finish cancel
step-IsFaithful h (steering s) f =
    let snoc = ids-snoc h.acknowledged s in
    let distinct = IsDistinct-snoc (ids h.acknowledged) s.steer_id f.distinct in
    let assoc = append_assoc h.delivered h.control.steering.items (s ∷ []) in
    record {
      received = ground arith;
      distinct = ground arith;
      exclusive = ground arith;
      live = ground (arith, f.received);
      open_until = ground arith;
      closed = ground arith;
      lost = step-lost h (steering s) f (ground (arith, f.received));
    }
step-IsFaithful h draining f =
    let unit = append-nil (h.delivered ++ h.control.steering.items) in
    let none_new = append-nil h.delivered in
    record {
      received = ground arith;
      distinct = f.distinct;
      exclusive = ground arith;
      live = ground arith;
      open_until = ground arith;
      closed = ground arith;
      lost = step-lost h draining f (ground arith);
    }
step-IsFaithful h finishing f =
    let unit = append-nil (h.delivered ++ h.control.steering.items) in
    let none_new = append-nil h.delivered in
    record {
      received = ground arith;
      distinct = f.distinct;
      exclusive = ground arith;
      live = ground arith;
      open_until = ground arith;
      closed = ground arith;
      lost = step-lost h finishing f (ground arith);
    }
step-IsFaithful h cancelling f = record {
  received = ground arith;
  distinct = f.distinct;
  exclusive = ground arith;
  live = ground arith;
  open_until = ground arith;
  closed = ground arith;
  lost = f.lost;
}

run-IsFaithful : (h : History) (calls : List Call) → IsFaithful h → IsFaithful (run h calls)
unfolding run
run-IsFaithful h [] f = f
run-IsFaithful h (c ∷ cs) f = run-IsFaithful (step h c) cs (step-IsFaithful h c f)

module _ (calls : List Call) where
  abbrev pub after : History
  after = run start calls

  -- What the agent received is a beginning of the acknowledged messages, in their order, and no
  -- two of those have the same id.
  pub delivered-prefix :
      IsDistinct (ids after.acknowledged)
      × ((rest : List UserSteer) × (after.delivered ++ rest ≡ after.acknowledged))
  delivered-prefix = let f = run-IsFaithful start calls start-IsFaithful in (f.distinct, f.lost)

  -- While the turn is not cancelled, the acknowledged messages are exactly those delivered and,
  -- behind them, those that wait in the mailbox.
  pub delivered-items :
      after.control.cancelled ≡ false
      → after.delivered ++ after.control.steering.items ≡ after.acknowledged
  delivered-items = (run-IsFaithful start calls start-IsFaithful).live

  -- When the turn has finished, every acknowledged message has been delivered, and it is not
  -- cancelled.
  pub finished-delivered :
      after.control.finished ≡ true
      → (after.delivered ≡ after.acknowledged) × (after.control.cancelled ≡ false)
  finished-delivered over =
      let f = run-IsFaithful start calls start-IsFaithful in
      let unit = append-nil after.delivered in
      (ground (arith, f.closed over, f.live, f.exclusive), ground (arith, f.exclusive))
