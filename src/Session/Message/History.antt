-- ===== src/Session/Message/History.antt =====
-- agent_core/content.py: what old turns and compression see of a content.
mod Examples
use nosis.Base.{
  ◌≡◌, refl, arith, ap, String, Bool, true, false, Option, none, some, List, [], ◌∷◌, ◌++◌, all,
  any, ◌∙◌, sym, if◌then◌else◌, Bool-cases, inl, inr, All, returned,
}
use Prim.Native.String.{◌++◌ as str_append}
use package.text.Mathlib.TextLemmas.{append-nil}
use nosis.Base.Texts.{is_empty}
use nosis.Base.Json.{Json, number, Python}
use nosis.Session.Message.{
  ContentPart, text_part, image_part, file_part, Content, absent, text, parts, content_parts,
  joined, is_text_part, Message, message_to_dict,
}
use nosis.Session.Message.Read.{message_from_dict}
use nosis.Session.Message.Stored.{
  stored_content, ReadsBack, IsNamed, IsOrigin, message_from_dict-message_to_dict,
}

-- `text or None`
abbrev or_none : String → Option String
or_none s = if is_empty s then none else some s

unfoldable pub text_content : Content → Option String
text_content c = or_none (joined (content_parts c))

abbrev is_image : ContentPart → Bool
is_image (image_part _ _ _ _) = true
is_image _ = false

-- `sections` starts with the text, if there is one.
abbrev text_section : Option String → List String
text_section none = []
text_section (some s) = s ∷ []

abbrev image_section : Bool → List String
image_section false = []
image_section true = "[Image attachment omitted from historical context]" ∷ []

-- `"\n".join(lines)`
join_lines : List String → String
join_lines [] = ""
join_lines (l ∷ []) = l
join_lines (l ∷ k ∷ ls) = str_append l (str_append "\n" (join_lines (k ∷ ls)))

-- `repr` writes a number as an f-string does.
module _ (repr : Json → String) where
  file_lines : List ContentPart → List String
  file_lines [] = []
  file_lines (file_part path filename mime size ∷ ps) =
      str_append "- " (
        str_append filename (
          str_append " (" (
            str_append path (
              str_append ", "
                (str_append mime (str_append ", " (str_append (repr (number size)) " bytes)")))))))
      ∷ file_lines ps
  file_lines (_ ∷ ps) = file_lines ps

  file_section : List String → List String
  unfolding join_lines
  file_section [] = []
  file_section (l ∷ ls) = str_append "Attached files:\n" (join_lines (l ∷ ls)) ∷ []

  unfoldable pub historical_content : Content → Option String
  unfolding file_lines file_section join_lines
  historical_content c =
      let ps = content_parts c in
      or_none (
        join_lines (
          text_section (text_content c)
          ++ (image_section (any is_image ps) ++ file_section (file_lines ps))))

all_texts-no_image : (ps : List ContentPart) → all is_text_part ps ≡ true → any is_image ps ≡ false
all_texts-no_image [] h = refl
all_texts-no_image (text_part s ∷ ps) h = all_texts-no_image ps h
all_texts-no_image (image_part path mime filename size ∷ ps) h = sym h
all_texts-no_image (file_part path filename mime size ∷ ps) h = all_texts-no_image ps (ground arith)

module _ (repr : Json → String) where
  all_texts-no_file : (ps : List ContentPart) → all is_text_part ps ≡ true → file_lines repr ps ≡ []
  unfolding file_lines
  all_texts-no_file [] h = refl
  all_texts-no_file (text_part s ∷ ps) h = all_texts-no_file ps h
  all_texts-no_file (image_part path mime filename size ∷ ps) h = ground arith
  all_texts-no_file (file_part path filename mime size ∷ ps) h = ground arith

  history_of_texts :
      (ps : List ContentPart)
      → all is_text_part ps ≡ true
      → historical_content repr (text (joined ps)) ≡ historical_content repr (parts ps)
  unfolding historical_content text_content content_parts file_section file_lines
  history_of_texts ps h =
      rw (append-nil (joined ps), all_texts-no_image ps h, all_texts-no_file ps h) refl

  stored_content-history :
      (ps : List ContentPart)
      → historical_content repr (stored_content ps) ≡ historical_content repr (parts ps)
  unfolding stored_content
  stored_content-history [] = unfold historical_content text_content content_parts in refl
  stored_content-history (p ∷ ps) = elim (Bool-cases (all is_text_part (p ∷ ps))) [
    | inl texts ↦ rw texts (history_of_texts (p ∷ ps) texts)
    | inr mixed ↦ rw mixed refl
  ]

  parts-history :
      (c : Content) → historical_content repr (parts (content_parts c)) ≡ historical_content repr c
  unfolding historical_content text_content content_parts
  parts-history c = refl

  -- What old turns and compression see of the message's content is the same after the message was
  -- written and read back. The attachments have names, the origin is one of the known ones, and times
  -- are read back; then reading returns.
  pub historical_content-message_from_dict :
      (python : Python)
      → ReadsBack python
      → (m : Message) → All IsNamed (content_parts m.content)
      → IsOrigin m.origin
      → (read : Message) × (message_from_dict python (message_to_dict python m) ≡ returned read)
        × (historical_content repr read.content ≡ historical_content repr m.content)
  historical_content-message_from_dict python law m named origin = (
    record m { content = stored_content (content_parts m.content) },
    message_from_dict-message_to_dict python law m named origin,
    stored_content-history (content_parts m.content) ∙ parts-history m.content,
  )
