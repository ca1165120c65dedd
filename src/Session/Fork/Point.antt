-- ===== src/Session/Fork/Point.antt =====
-- agent_core/session_store.py: where `fork_session` cuts the journal.
use nosis.Base.{
  ◌≡◌, refl, arith, sym, subst, ◌∙◌, ap, String, Bool, true, false, Option, none, some, List, [],
  ◌∷◌, ◌++◌, ◌==◌, ◌&&◌, All, returned, Bool-cases, inl, inr, >>=-eq-returned, >>-eq-returned,
  returned-injective, eq_iff, ℕ,
}
use nosis.Session.State.{JournalEvent, UserAnchor, Session}
use nosis.Session.Fork.{
  nth, message_events, latest_input, is_turn, target_of, targets_of, editable_user_messages,
  event_of, before_turn, check_target, prefix_of, fork_events,
}

-- The first element of the list that passes the test, with what stands before it.
pub record IsFirstThat {A : Type 0} (test : A → Bool) (xs before : List A) (x : A) : Type 0 where
  pub rest : List A
  pub split : xs ≡ before ++ x ∷ rest
  pub passes : test x ≡ true
  pub fail : All (λ y. test y ≡ false) before

-- The last that passes the test.
pub record IsLastThat {A : Type 0} (test : A → Bool) (xs : List A) (x : A) : Type 0 where
  pub before : List A
  pub later : List A
  pub split : xs ≡ before ++ x ∷ later
  pub passes : test x ≡ true
  pub fail : All (λ y. test y ≡ false) later

abbrev pub is_input : UserAnchor → Bool
is_input a = a.source == "user_input"

abbrev pub has_id : String → JournalEvent → Bool
has_id id e = e.event_id == id

abbrev pub starts_turn : Option String → JournalEvent → Bool
starts_turn turn_id e = e.event_type == "turn_started" && is_turn e.turn_id turn_id

-- The fork's journal: the id is that of the message of the latest user input, and the events are those
-- before the first that starts the turn of the first event with this id.
pub record IsForkPoint (anchor_id : String) (s : Session) (es : List JournalEvent) : Type 0 where
  pub anchor : UserAnchor
  pub latest : IsLastThat is_input s.user_anchors anchor
  pub message : JournalEvent
  pub placed : nth (message_events s.journal) anchor.item_index ≡ some message
  pub named : message.event_id ≡ anchor_id
  pub in_turn : is_turn message.turn_id (some anchor.turn_id) ≡ true
  pub before : List JournalEvent
  pub found : JournalEvent
  pub first : IsFirstThat (has_id anchor_id) s.journal before found
  pub start : JournalEvent
  pub cut : IsFirstThat (starts_turn found.turn_id) s.journal es start

no_input : (as' : List UserAnchor) → latest_input as' ≡ none → All (λ a. is_input a ≡ false) as'
unfolding latest_input
no_input [] h = tt
no_input (a ∷ as') h = go (latest_input as') (no_input as') refl h
  where
    go :
        (o : Option UserAnchor)
        → (latest_input as' ≡ none → All (λ a. is_input a ≡ false) as')
        → latest_input as' ≡ o
        → latest_input (a ∷ as') ≡ none
        → All (λ a. is_input a ≡ false) (a ∷ as')
    go none rest q h = (ground (arith, q, h), rest q)
    go (some later) rest q h = absurd (ground (arith, q, h))

latest_input-IsLastThat :
    (as' : List UserAnchor) (a : UserAnchor) → latest_input as' ≡ some a → IsLastThat is_input as' a
unfolding latest_input
latest_input-IsLastThat [] a h = absurd (ground (arith, h))
latest_input-IsLastThat (x ∷ as') a h = go (latest_input as') (latest_input-IsLastThat as' a) refl h
  where
    go :
        (o : Option UserAnchor)
        → (latest_input as' ≡ some a → IsLastThat is_input as' a)
        → latest_input as' ≡ o
        → latest_input (x ∷ as') ≡ some a
        → IsLastThat is_input (x ∷ as') a
    go none more q h = elim (Bool-cases (is_input x)) [
      | inr other ↦ absurd (ground (arith, q, h, other))
      | inl input ↦
          let same : x ≡ a = ground (arith, q, h, input) in
          record {
            before = [];
            later = as';
            split = ap (λ y. y ∷ as') same;
            passes = rw (sym same) input;
            fail = no_input as' q;
          }
    ]
    go (some later) more q h =
        let same : later ≡ a = ground (arith, q, h) in
        let rest = more (q ∙ ap (λ y. some y) same) in
        record {
          before = x ∷ rest.before;
          later = rest.later;
          split = ap (λ ys. x ∷ ys) rest.split;
          passes = rest.passes;
          fail = rest.fail;
        }

event_of-IsFirstThat :
    (id : String) (es : List JournalEvent) (e : JournalEvent)
    → event_of id es ≡ returned e
    → (before : List JournalEvent) × IsFirstThat (has_id id) es before e
unfolding event_of
event_of-IsFirstThat id [] e h = absurd (ground (arith, h))
event_of-IsFirstThat id (x ∷ es) e h = elim (Bool-cases (has_id id x)) [
  | inl here ↦
      let same : x ≡ e = ground (arith, here, h) in
      (
        [],
        record { rest = es; split = ap (λ y. y ∷ es) same; passes = rw (sym same) here; fail = tt },
      )
  | inr other ↦
      let found = event_of-IsFirstThat id es e (ground (arith, other, h)) in
      (
        x ∷ found.0,
        record {
          rest = (found.1).rest;
          split = ap (λ ys. x ∷ ys) (found.1).split;
          passes = (found.1).passes;
          fail = (other, (found.1).fail);
        },
      )
]

before_turn-IsFirstThat :
    (turn_id : Option String) (js es : List JournalEvent)
    → before_turn turn_id js ≡ some es
    → (start : JournalEvent) × IsFirstThat (starts_turn turn_id) js es start
unfolding before_turn
before_turn-IsFirstThat turn_id [] es h = absurd (ground (arith, h))
before_turn-IsFirstThat turn_id (x ∷ js) es h = elim (Bool-cases (starts_turn turn_id x)) [
  | inl here ↦
      let same : [] ≡ es = ground (arith, here, h) in
      (
        x,
        record {
          rest = js;
          split = ap (λ ys. ys ++ x ∷ js) same;
          passes = here;
          fail = subst (All (λ y. starts_turn turn_id y ≡ false)) same tt;
        },
      )
  | inr other ↦ go other (before_turn turn_id js) (before_turn-IsFirstThat turn_id js) refl
]
  where
    go :
        starts_turn turn_id x ≡ false
        → (o : Option (List JournalEvent))
        → ((fs : List JournalEvent)
            → before_turn turn_id js ≡ some fs
            → (start : JournalEvent) × IsFirstThat (starts_turn turn_id) js fs start)
        → before_turn turn_id js ≡ o
        → (start : JournalEvent) × IsFirstThat (starts_turn turn_id) (x ∷ js) es start
    go other none more q = absurd (ground (arith, other, q, h))
    go other (some fs) more q =
        let same : x ∷ fs ≡ es = ground (arith, other, q, h) in
        let found = more fs q in
        subst (λ l. (start : JournalEvent) × IsFirstThat (starts_turn turn_id) (x ∷ js) l start)
          same
          (
            found.0,
            record {
              rest = (found.1).rest;
              split = ap (λ ys. x ∷ ys) (found.1).split;
              passes = (found.1).passes;
              fail = (other, (found.1).fail);
            },
          )

-- What `_editable_user_messages` returned.
abbrev pub IsTarget : List JournalEvent → List UserAnchor → List (String × ℕ) → Type 0
IsTarget journal anchors [] = Unit
IsTarget journal anchors ((id, index) ∷ ts) =
    (a : UserAnchor) × (message : JournalEvent) × IsLastThat is_input anchors a
    × (nth (message_events journal) a.item_index ≡ some message)
    × (message.event_id ≡ id)
    × (is_turn message.turn_id (some a.turn_id) ≡ true)

target_of-IsTarget :
    (journal : List JournalEvent) (anchors : List UserAnchor) (a : UserAnchor)
    (o : Option JournalEvent) (ts : List (String × ℕ))
    → IsLastThat is_input anchors a
    → nth (message_events journal) a.item_index ≡ o
    → target_of a o ≡ returned ts
    → IsTarget journal anchors ts
target_of-IsTarget journal anchors a none ts l q h = absurd (ground (arith, h))
target_of-IsTarget journal anchors a (some e) ts l q h =
    elim (Bool-cases (is_turn e.turn_id (some a.turn_id))) [
      | inr other ↦ absurd (ground (arith, other, h))
      | inl same ↦
          subst (IsTarget journal anchors)
            (returned-injective ((e.event_id, a.item_index) ∷ []) ts (sym (rw same refl) ∙ h))
            (a, e, l, q, refl, same)
    ]

targets_of-IsTarget :
    (journal : List JournalEvent) (anchors : List UserAnchor) (o : Option UserAnchor)
    (ts : List (String × ℕ))
    → latest_input anchors ≡ o
    → targets_of journal o ≡ returned ts
    → IsTarget journal anchors ts
targets_of-IsTarget journal anchors none ts q h =
    subst (IsTarget journal anchors) (returned-injective [] ts h) tt
targets_of-IsTarget journal anchors (some a) ts q h =
    target_of-IsTarget journal anchors a (nth (message_events journal) a.item_index) ts
      (latest_input-IsLastThat anchors a q) refl h

prefix_of-some :
    (o : Option (List JournalEvent)) (es : List JournalEvent)
    → prefix_of o ≡ returned es
    → o ≡ some es
prefix_of-some none es h = absurd (ground (arith, h))
prefix_of-some (some fs) es h = ap (λ l. some l) (returned-injective fs es h)

-- If a session is forked at an id, the id is that of a message of the latest user input's turn, which is
-- the message that this input's anchor counts, and the fork's journal is the part of the journal before
-- the first event that starts the turn of the first event with the id.
pub fork_events-IsForkPoint :
    (anchor_id : String) (s : Session) (es : List JournalEvent)
    → fork_events anchor_id s ≡ returned es
    → IsForkPoint anchor_id s es
unfolding fork_events editable_user_messages
fork_events-IsForkPoint anchor_id s es h =
    let targets = >>=-eq-returned (editable_user_messages s) _ es h in
    let checked = >>-eq-returned (check_target anchor_id targets.0) _ es targets.2 in
    let found = >>=-eq-returned (event_of anchor_id s.journal) _ es checked.1 in
    let first = event_of-IsFirstThat anchor_id s.journal found.0 found.1 in
    let cut =
      before_turn-IsFirstThat (found.0).turn_id s.journal es
        (prefix_of-some (before_turn (found.0).turn_id s.journal) es found.2) in
    go targets.0 first cut checked.0 (
      targets_of-IsTarget s.journal s.user_anchors (latest_input s.user_anchors) targets.0 refl
        targets.1)
  where
    go :
        (ts : List (String × ℕ)) {e : JournalEvent}
        → (before : List JournalEvent) × IsFirstThat (has_id anchor_id) s.journal before e
        → (start : JournalEvent) × IsFirstThat (starts_turn e.turn_id) s.journal es start
        → check_target anchor_id ts ≡ returned tt
        → IsTarget s.journal s.user_anchors ts
        → IsForkPoint anchor_id s es
    go [] first cut c t = absurd (ground (arith, c))
    go ((id, index) ∷ ts) {e} first cut c (a, message, latest, placed, named, in_turn) = record {
      anchor = a;
      latest = latest;
      message = message;
      placed = placed;
      named = named ∙ ground (arith, c, eq_iff id anchor_id);
      in_turn = in_turn;
      before = first.0;
      found = e;
      first = first.1;
      start = cut.0;
      cut = cut.1;
    }
