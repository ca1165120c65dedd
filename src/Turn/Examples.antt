-- ===== src/Turn/Examples.antt =====
-- Runs of agent_core/turn_control.py on small inputs.
use nosis.Base.{◌≡◌, refl, String, false, List, [], ◌∷◌, ◌++◌, IsDistinct}
use nosis.Turn.Mailbox.{UserSteer}
use nosis.Turn.Control.{steer, drain_steering, finish, cancel}
use nosis.Turn.Delivery.{
  Call, steering, draining, finishing, cancelling, ids, step, run, after, delivered-prefix,
  delivered-items, finished-delivered,
}

abbrev message : String → Call
message id = steering (record { steer_id = id; text = "text" })

-- A message that is sent twice is acknowledged twice and delivered once.
abbrev calls : List Call
calls = message "a" ∷ message "a" ∷ draining ∷ message "b" ∷ finishing ∷ finishing ∷ cancelling ∷ []

delivered_ids : ids (after calls).delivered ≡ "a" ∷ "b" ∷ []
unfolding step run steer drain_steering finish cancel
delivered_ids = refl

finished-delivered_example :
    ((after calls).delivered ≡ (after calls).acknowledged)
    × ((after calls).control.cancelled ≡ false)
unfolding step run steer drain_steering finish cancel
finished-delivered_example = finished-delivered calls refl

abbrev waiting_calls : List Call
waiting_calls = message "a" ∷ draining ∷ message "b" ∷ []

delivered-items_example :
    (after waiting_calls).delivered ++ (after waiting_calls).control.steering.items
    ≡ (after waiting_calls).acknowledged
unfolding step run steer drain_steering finish cancel
delivered-items_example = delivered-items waiting_calls refl

delivered-prefix_example :
    IsDistinct (ids (after calls).acknowledged)
    × ((rest : List UserSteer) × ((after calls).delivered ++ rest ≡ (after calls).acknowledged))
delivered-prefix_example = delivered-prefix calls
