-- ===== src/Session/Apply/Messages.antt =====
-- agent_core/session.py: the branches of `apply_event` for messages and finished model calls.
use nosis.Base.{
  ℕ, ◌+◌, String, Bool, true, false, Option, none, some, List, [], ◌∷◌, ◌++◌, not, contains, nat_eq,
  length, if◌then◌else◌, Result, returned, raised, ◌>>=◌, ◌>>◌, raise_if,
}
use nosis.Base.Json.{
  Json, null, number, string, object, Fields, get, field_count, PyError, value_error, type_error,
  require, get_or, as_text, as_number, Python,
}
use nosis.Session.Message.{Message, is_user_authored}
use nosis.Session.Message.Read.{message_from_dict}
use nosis.Session.State.{JournalEvent, CacheUsage, InputTokenAnchor, Replayed}
use nosis.Session.Apply.Run.{Applied, done, fail, reading}

abbrev user_sources : List String
user_sources = "user_input" ∷ "steering" ∷ "question_response" ∷ "approval_response" ∷ []

abbrev or_else : Option ℕ → ℕ → ℕ
or_else none n = n
or_else (some m) n = m

-- `source not in {...}`; a source that is no text is in no set of texts.
abbrev source_of : Json → Result PyError String
source_of (string s) =
    if contains user_sources s
    then returned s
    else raised (value_error "invalid user anchor source")
source_of _ = raised (value_error "invalid user anchor source")

-- The anchor of a message that is already appended at `index`.
unfoldable pub apply_anchor : JournalEvent → Option String → ℕ → Message → Replayed → Applied
apply_anchor e none index m s = done s
apply_anchor e (some turn_id) index m s =
    if not (is_user_authored m)
    then done s
    else reading (source_of (get_or (string "user_input") "user_source" e.payload)) s λ source.
      done (record s {
        user_anchors =
            s.user_anchors
            ++ record {
              turn_id = turn_id;
              content = m.content;
              timestamp_utc = or_else m.timestamp_utc e.timestamp_utc;
              source = source;
              item_index = index;
            }
              ∷ [];
      })

unfoldable pub apply_message : Python → JournalEvent → Option Fields → Replayed → Applied
apply_message python e none s = done s
apply_message python e (some d) s =
    reading (message_from_dict python d) s
      λ m. apply_anchor e e.turn_id (length s.items) m (record s { items = s.items ++ m ∷ [] })

-- `usage[key]`: a number, or `None`
abbrev count_of : Json → Result PyError (Option ℕ)
count_of null = returned none
count_of (number n) = returned (some n)
count_of _ = raised type_error

abbrev previous_usage : Option CacheUsage → CacheUsage
previous_usage none = record { input_tokens = 0; cache_read_tokens = 0 }
previous_usage (some u) = u

abbrev pub add_usage : Option ℕ → Option ℕ → Replayed → Replayed
add_usage (some input) (some cached) s =
    let previous = previous_usage s.cache_usage in
    record s {
      cache_usage = some (record {
        input_tokens = previous.input_tokens + input;
        cache_read_tokens = previous.cache_read_tokens + cached;
      });
    }
add_usage _ _ s = s

abbrev pub counts_of : Fields → Result PyError (Option ℕ × Option ℕ)
counts_of d = do
  input ← require "input_tokens" d
  input_tokens ← count_of input
  cached ← require "cache_read_tokens" d
  cache_read_tokens ← count_of cached
  returned (input_tokens, cache_read_tokens)

unfoldable pub apply_usage : Json → Replayed → Applied
apply_usage null s = done s
apply_usage (object d) s = reading (counts_of d) s λ counts. done (add_usage counts.0 counts.1 s)
apply_usage _ s = fail type_error s

-- `InputTokenAnchor(**anchor)`
abbrev pub anchor_of : Option Json → Result PyError (Option InputTokenAnchor)
anchor_of none = returned none
anchor_of (some null) = returned none
anchor_of (some (object d)) = do
  raise_if (not (nat_eq (field_count d) 3)) type_error
  fingerprint ← require "fingerprint" d
  fingerprint_text ← as_text fingerprint
  local ← require "local_tokens" d
  local_tokens ← as_number local
  input ← require "input_tokens" d
  input_tokens ← as_number input
  returned (
      some (record {
        fingerprint = fingerprint_text;
        local_tokens = local_tokens;
        input_tokens = input_tokens;
      }))
anchor_of _ = raised type_error

-- "model_completed"; "compression_completed" has the usage only.
unfoldable pub apply_completed : Bool → JournalEvent → Replayed → Applied
apply_completed false e s = reading (require "usage" e.payload) s λ usage. apply_usage usage s
apply_completed true e s = reading (anchor_of (get "input_token_anchor" e.payload)) s λ anchor.
    let s' = record s { input_token_anchor = anchor } in
    reading (require "usage" e.payload) s' λ usage. apply_usage usage s'
