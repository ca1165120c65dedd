-- ===== src/Turn/Mailbox.antt =====
-- agent_core/turn_control.py: `UserSteer` and `UserSteeringMailbox`.
use nosis.Base.{String, Bool, true, false, List, [], ◌∷◌, ◌++◌, not, contains, if◌then◌else◌}

pub record UserSteer : Type 0 where
  pub steer_id : String
  pub text : String

-- `received` is a set of which the code asks membership only.
pub record Mailbox : Type 0 where
  pub items : List UserSteer
  pub received : List String
  pub accepting : Bool

abbrev pub empty : Mailbox
empty = record { items = []; received = []; accepting = true }

unfoldable pub submit : Mailbox → UserSteer → Bool × Mailbox
submit m steer =
    if not m.accepting
    then (false, m)
    else if contains m.received steer.steer_id
    then (true, m)
    else (
      true,
      record m { items = m.items ++ steer ∷ []; received = m.received ++ steer.steer_id ∷ [] },
    )

unfoldable pub drain : Mailbox → List UserSteer × Mailbox
drain m = (m.items, record m { items = [] })

-- An empty mailbox closes in the same step in which it is found empty.
drain_or_close_items : List UserSteer → Mailbox → List UserSteer × Mailbox
drain_or_close_items [] m = ([], record m { accepting = false })
drain_or_close_items (steer ∷ steers) m = (steer ∷ steers, record m { items = [] })

unfoldable pub drain_or_close : Mailbox → List UserSteer × Mailbox
unfolding drain_or_close_items
drain_or_close m = drain_or_close_items m.items m

unfoldable pub close : Mailbox → Mailbox
close m = record m { items = []; accepting = false }
