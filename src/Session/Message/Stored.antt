-- ===== src/Session/Message/Stored.antt =====
-- agent_core/session.py: a persisted message is read back.
use nosis.Base.{
  ℕ, String, ◌≡◌, inl, inr, refl, arith, Bool, true, false, Option, none, some, List, [], ◌∷◌, All,
  all, ◌==◌, ◌||◌, Bool-cases, contains, if◌then◌else◌, returned, eq_iff,
}
use nosis.Base.Texts.{is_empty}
use nosis.Base.Json.{
  Json, array, object, Items, item, Fields, end, field, get, as_optional_text, text?, Python,
}
use nosis.Session.Message.{
  ContentPart, text_part, image_part, file_part, Content, absent, text, parts, content_parts,
  ToolError, ToolCall, Message, field_if, is_text_part, joined, part_to_dict, parts_to_items,
  content_to_json, error_to_dict, error_json, call_to_dict, calls_to_items, calls_json, text_json,
  data_json, time_json, origin_fields, message_to_dict,
}
use nosis.Session.Message.Read.{
  part_of, parts_of, content_of, error_of, call_of, calls_of_items, calls_of, origins, origin_of,
  data_of, timestamp_of, message_from_dict, required_text, required_size, attachment_of,
}

-- The value of a key that may stand in front.
pick : Bool → Option Json → Option Json → Option Json
pick false o later = later
pick true none later = later
pick true (some v) later = some v

pick-false : (o : Option Json) (later : Option Json) → pick false o later ≡ later
unfolding pick
pick-false o later = refl

get-field_if :
    (k j : String) (o : Option Json) (rest : Fields)
    → get k (field_if j o rest) ≡ pick (j == k) o (get k rest)
unfolding pick
get-field_if k j o rest = ground arith

-- An attachment that the constructor of a tool made: no name of it is empty.
abbrev pub IsNamed : ContentPart → Type 0
IsNamed (text_part s) = Unit
IsNamed (image_part path mime filename size) =
    (is_empty path ≡ false) × (is_empty filename ≡ false) × (is_empty mime ≡ false)
IsNamed (file_part path filename mime size) =
    (is_empty path ≡ false) × (is_empty filename ≡ false) × (is_empty mime ≡ false)

-- What a message's content is after it was stored: texts alone become one text.
unfoldable pub stored_content : List ContentPart → Content
stored_content [] = absent
stored_content (p ∷ ps) =
    if all is_text_part (p ∷ ps) then text (joined (p ∷ ps)) else parts (p ∷ ps)

part_of-part_to_dict :
    (repr : Json → String) (p : ContentPart)
    → IsNamed p
    → part_of repr (object (part_to_dict p)) ≡ returned p
unfolding part_of
part_of-part_to_dict repr (text_part s) h = refl
part_of-part_to_dict repr (image_part path mime filename size) h =
    unfold attachment_of required_text required_size in rw (h.0, h.1, h.2)
part_of-part_to_dict repr (file_part path filename mime size) h =
    unfold attachment_of required_text required_size in rw (h.0, h.1, h.2)

parts_of-cons :
    (repr : Json → String) (p : ContentPart) (js : Items) {ps : List ContentPart}
    → part_of repr (object (part_to_dict p)) ≡ returned p
    → parts_of repr js ≡ returned ps
    → parts_of repr (item (object (part_to_dict p)) js) ≡ returned (p ∷ ps)
unfolding parts_of
parts_of-cons repr p js first rest = rw (first, rest)

parts_of-parts_to_items :
    (repr : Json → String) (ps : List ContentPart)
    → All IsNamed ps
    → parts_of repr (parts_to_items ps) ≡ returned ps
unfolding parts_to_items
parts_of-parts_to_items repr [] h = unfold parts_of in refl
parts_of-parts_to_items repr (p ∷ ps) h =
    parts_of-cons repr p (parts_to_items ps) (part_of-part_to_dict repr p h.0)
      (parts_of-parts_to_items repr ps h.1)

content_of_array :
    (repr : Json → String) (ps : List ContentPart)
    → All IsNamed ps
    → content_of repr (some (array (parts_to_items ps))) ≡ returned (parts ps)
unfolding content_of
content_of_array repr ps h = rw (parts_of-parts_to_items repr ps h)

content_of-content_to_json :
    (repr : Json → String) (ps : List ContentPart)
    → All IsNamed ps
    → content_of repr (some (content_to_json ps)) ≡ returned (stored_content ps)
unfolding content_to_json stored_content
content_of-content_to_json repr [] h = unfold content_of in refl
content_of-content_to_json repr (p ∷ ps) h = elim (Bool-cases (all is_text_part (p ∷ ps))) [
  | inl texts ↦ rw texts (unfold content_of in refl)
  | inr mixed ↦ rw mixed (content_of_array repr (p ∷ ps) h)
]

error_of-error_to_dict :
    (e : ToolError) → error_of (some (object (error_to_dict e))) ≡ returned (some e)
unfolding error_of error_to_dict
error_of-error_to_dict e = ground arith

error_of-error_json : (o : Option ToolError) → error_of (pick true (error_json o) none) ≡ returned o
unfolding pick
error_of-error_json none = unfold error_of in refl
error_of-error_json (some e) = error_of-error_to_dict e

call_of-call_to_dict : (c : ToolCall) → call_of (object (call_to_dict c)) ≡ returned c
unfolding call_of call_to_dict
call_of-call_to_dict c = simp (get-field_if) (rw (error_of-error_json c.argument_error))

calls_of_items-calls_to_items :
    (cs : List ToolCall) → calls_of_items (calls_to_items cs) ≡ returned cs
unfolding calls_of_items calls_to_items
calls_of_items-calls_to_items [] = refl
calls_of_items-calls_to_items (c ∷ cs) =
    rw (call_of-call_to_dict c, calls_of_items-calls_to_items cs)

calls_of-calls_json : (cs : List ToolCall) → calls_of (pick true (calls_json cs) none) ≡ returned cs
unfolding calls_of pick
calls_of-calls_json [] = refl
calls_of-calls_json (c ∷ cs) = calls_of_items-calls_to_items (c ∷ cs)

as_optional_text-text_json :
    (o : Option String) → as_optional_text (pick true (text_json o) none) ≡ returned o
unfolding pick
as_optional_text-text_json none = refl
as_optional_text-text_json (some s) = refl

text?-text_json : (o : Option String) → text? (pick true (text_json o) none) ≡ o
unfolding pick
text?-text_json none = refl
text?-text_json (some s) = refl

data_of-data_json : (d : Fields) → data_of (pick true (data_json d) none) ≡ returned d
unfolding pick data_of
data_of-data_json end = refl
data_of-data_json (field k v rest) = refl

-- An origin of the type `MessageOrigin`.
abbrev pub IsOrigin : String → Type 0
IsOrigin s = (s == "conversation" || contains origins s) ≡ true

origin_of-origin_fields : (s : String) → IsOrigin s → origin_of (get "origin" (origin_fields s)) ≡ s
unfolding origin_of origin_fields
origin_of-origin_fields s h = ground (arith, eq_iff s "conversation")

get-origin_fields : (k s : String) → ("origin" == k) ≡ false → get k (origin_fields s) ≡ none
unfolding origin_fields
get-origin_fields k s h = ground arith

module _ (python : Python) where
  open python use {format_utc, parse_utc}

  -- What was written is read back.
  abbrev pub ReadsBack : Type 0
  ReadsBack = (t : ℕ) → parse_utc (format_utc t) ≡ returned t

  timestamp_of-time_json :
      (law : ReadsBack) (o : Option ℕ)
      → timestamp_of python (pick true (time_json python o) none) ≡ returned o
  unfolding pick timestamp_of
  timestamp_of-time_json law none = refl
  timestamp_of-time_json law (some t) = rw (law t)

  -- A stored message is read back as it was, but for contents that are texts alone, which are one
  -- text then, and no parts, which are no content. The attachments have names and the origin is one
  -- of the known ones.
  pub message_from_dict-message_to_dict :
      ReadsBack
      → (m : Message) → All IsNamed (content_parts m.content)
      → IsOrigin m.origin
      → message_from_dict python (message_to_dict python m)
        ≡ returned (record m { content = stored_content (content_parts m.content) })
  unfolding message_from_dict message_to_dict
  message_from_dict-message_to_dict law m named origin =
      let absent_key =
        λ (k : String) (h : ("origin" == k) ≡ false). get-origin_fields k m.origin h in
      simp
        (
          get-field_if,
          absent_key "tool_calls" refl,
          absent_key "timestamp_utc" refl,
          absent_key "tool_call_id" refl,
          absent_key "reasoning" refl,
          absent_key "provider_data" refl,
          pick-false,
        )
        (simp (
          content_of-content_to_json python.repr (content_parts m.content) named,
          timestamp_of-time_json law,
          calls_of-calls_json,
          as_optional_text-text_json,
          text?-text_json,
          data_of-data_json,
          origin_of-origin_fields m.origin origin,
        ))
