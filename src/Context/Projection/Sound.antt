-- ===== src/Context/Projection/Sound.antt =====
-- agent_core/projection.py: what a unit shows to a model provider.
use nosis.Base.{
  ℕ, suc, zero, ◌+◌, ◌≡◌, refl, arith, ◌∙◌, sym, ap, String, Bool, true, false, Option, none, some,
  List, [], ◌∷◌, ◌++◌, ◌==◌, ◌&&◌, not, All, length, Bool-cases, inl, inr, if◌then◌else◌, eq→path,
  eq_self,
}
use nosis.Base.Dict.{find, put}
use nosis.Session.Message.{Message, ToolCall}
use nosis.Context.Projection.{
  ContextUnit, Batch, take_one, take_batch, follows, calls_tools, single_unit, units_from,
  batch_unit, batch_messages, project_context_units, empty_batch, call_ids, results_of, answers,
  trails, with_found,
}

abbrev has_id : String → Option String → Bool
has_id id none = false
has_id id (some t) = id == t

-- The messages start with a result of each call, in the order of the calls.
abbrev pub answered : List ToolCall → List Message → Bool
answered [] ms = true
answered (c ∷ cs) [] = false
answered (c ∷ cs) (m ∷ ms) = has_id c.id m.tool_call_id && answered cs ms

abbrev none_left : List Message → Bool
none_left [] = true
none_left (m ∷ ms) = false

-- A unit shows nothing, or a message that calls tools before a result of each of its calls, or one
-- message that calls none and is no result.
abbrev pub is_sound : List Message → Bool
is_sound [] = true
is_sound (m ∷ ms) =
    if calls_tools m then answered m.tool_calls ms else none_left ms && not (m.role == "tool")

-- Each result stands at the id of the call that it answers.
abbrev AreResults : List (String × Message) → Type 0
AreResults found = All (λ e. e.1.tool_call_id ≡ some e.0) found

put-AreResults :
    (id : String) (m : Message) (found : List (String × Message))
    → m.tool_call_id ≡ some id
    → AreResults found
    → AreResults (put id m found)
put-AreResults id m [] q h = (q, tt)
put-AreResults id m ((j, w) ∷ found) q h = elim (Bool-cases (j == id)) [
  | inl same ↦ rw same (q ∙ ap (λ i. some i) (sym (eq→path j id same)), h.1)
  | inr other ↦ rw other (h.0, put-AreResults id m found q h.1)
]

with_found-AreResults :
    (o : Option String) (m : Message) (found : List (String × Message))
    → m.tool_call_id ≡ o
    → AreResults found
    → AreResults (with_found o m found)
with_found-AreResults none m found q h = h
with_found-AreResults (some id) m found q h = put-AreResults id m found q h

take_one-AreResults :
    (ids : List String) (m : Message) (b : Batch)
    → AreResults b.found
    → AreResults (take_one ids m b).found
unfolding take_one
take_one-AreResults ids m b h = elim (Bool-cases (answers ids m.tool_call_id)) [
  | inl result ↦ rw result (with_found-AreResults m.tool_call_id m b.found refl h)
  | inr no_result ↦ elim (Bool-cases (trails m)) [
    | inl trailing ↦ rw (no_result, trailing) h
    | inr other ↦ rw (no_result, other) h
  ]
]

take_batch-AreResults :
    (ids : List String) (b : Batch) (ms : List Message)
    → AreResults b.found
    → AreResults (take_batch ids b ms).found
unfolding take_batch
take_batch-AreResults ids b [] h = h
take_batch-AreResults ids b (m ∷ ms) h = elim (Bool-cases (follows m)) [
  | inl more ↦
      rw more (take_batch-AreResults ids (take_one ids m b) ms (take_one-AreResults ids m b h))
  | inr ends ↦ rw ends h
]

abbrev FoundAt : String → Option Message → Type 0
FoundAt id none = Unit
FoundAt id (some m) = m.tool_call_id ≡ some id

find-FoundAt :
    (id : String) (found : List (String × Message)) → AreResults found → FoundAt id (find id found)
find-FoundAt id [] h = tt
find-FoundAt id ((j, w) ∷ found) h = elim (Bool-cases (j == id)) [
  | inl same ↦ rw same (h.0 ∙ ap (λ i. some i) (eq→path j id same))
  | inr other ↦ rw other (find-FoundAt id found h.1)
]

abbrev ResultsAnswer : List ToolCall → List Message → Option (List Message) → Type 0
ResultsAnswer cs more none = Unit
ResultsAnswer cs more (some ms) = answered cs (ms ++ more) ≡ true

results_of-answer :
    (cs : List ToolCall) (found : List (String × Message)) (more : List Message)
    → AreResults found
    → ResultsAnswer cs more (results_of cs found)
unfolding results_of
results_of-answer [] found more h = refl
results_of-answer (c ∷ cs) found more h =
    both (find c.id found) (find-FoundAt c.id found h) (results_of cs found)
      (results_of-answer cs found more h)
  where
    both :
        (o : Option Message)
        → FoundAt c.id o
        → (r : Option (List Message)) → ResultsAnswer cs more r
        → ResultsAnswer
            (c ∷ cs)
            more
            (elim o [ none ↦ none | some m ↦ elim r [ none ↦ none | some ms ↦ some (m ∷ ms) ] ])
    both none q r k = tt
    both (some m) q none k = tt
    both (some m) q (some ms) k = ground (arith, q, k, eq_self c.id)

batch-is_sound :
    (index : ℕ) (m : Message) (b : Batch)
    → calls_tools m ≡ true
    → AreResults b.found
    → is_sound (batch_unit index m b).messages ≡ true
batch-is_sound index m b q h =
    shown (results_of m.tool_calls b.found) (results_of-answer m.tool_calls b.found b.trailing h)
  where
    shown :
        (r : Option (List Message))
        → ResultsAnswer m.tool_calls b.trailing r
        → is_sound (batch_messages m b r) ≡ true
    shown none k = refl
    shown (some ms) k = rw (q, k) refl

single-is_sound :
    (index : ℕ) (m : Message)
    → calls_tools m ≡ false
    → is_sound (single_unit index m).messages ≡ true
unfolding single_unit
single-is_sound index m q = elim (Bool-cases (m.role == "tool")) [
  | inl result ↦ rw result refl
  | inr other ↦ elim (Bool-cases (m.origin == "tool_delivery")) [
    | inl delivery ↦ rw (other, delivery) refl
    | inr message ↦ rw (other, message, q, other) refl
  ]
]

units_from-AreSound :
    (fuel index : ℕ) (ms : List Message)
    → All (λ (u : ContextUnit). is_sound u.messages ≡ true) (units_from fuel index ms)
unfolding units_from
units_from-AreSound zero index ms = tt
units_from-AreSound (suc fuel) index [] = tt
units_from-AreSound (suc fuel) index (m ∷ ms) =
    let b = take_batch (call_ids m) empty_batch ms in
    let results = take_batch-AreResults (call_ids m) empty_batch ms tt in
    let after_batch = units_from-AreSound fuel (index + 1 + b.taken) b.rest in
    let after_single = units_from-AreSound fuel (index + 1) ms in
    elim (Bool-cases (calls_tools m)) [
      | inl calls ↦ rw calls (batch-is_sound index m b calls results, after_batch)
      | inr alone ↦ rw alone (single-is_sound index m alone, after_single)
    ]

-- Each unit of a history shows nothing, or a message that calls tools with a result of each of its
-- calls right after it, in the order of the calls, or one message alone that calls no tools and is not
-- of the role tool.
pub project_context_units-is_sound :
    (start_index : ℕ) (history : List Message)
    → All
        (λ (u : ContextUnit). is_sound u.messages ≡ true)
        (project_context_units start_index history)
unfolding project_context_units
project_context_units-is_sound start_index history =
    units_from-AreSound (length history) start_index history
