-- ===== src/Session/JournalFile/Examples.antt =====
-- agent_core/session_store.py: an append after one that was interrupted, in a small file.
use nosis.Base.{
  ℕ, ◌≡◌, refl, Bool, true, false, Option, none, some, List, [], ◌∷◌, ltb, ◌&&◌, nat_eq,
  if◌then◌else◌, returned,
}
use nosis.Base.Json.{Json, number}
use nosis.Session.JournalFile.{
  Codec, search_start, last_newline, prepare_journal_append, write_journal_events, append_records,
}

abbrev is_empty_line : List ℕ → Bool
is_empty_line [] = true
is_empty_line (b ∷ bs) = false

-- A number is two bytes, of which the first is 34; nothing else is JSON.
abbrev decoded : List ℕ → Option Json
decoded [] = none
decoded (b ∷ []) = none
decoded (b ∷ c ∷ []) = if nat_eq b 34 then some (number c) else none
decoded (b ∷ c ∷ d ∷ bs) = none

abbrev is_ascii : List ℕ → Bool
is_ascii [] = true
is_ascii (b ∷ bs) = ltb b 200 && is_ascii bs

abbrev encoded : Json → List ℕ
encoded (number n) = 34 ∷ n ∷ []
encoded _ = []

abbrev codec : Codec
codec = record { is_utf8 = is_ascii; loads = decoded; dumps = encoded; is_blank = is_empty_line }

-- A record, and the first byte of another.
abbrev torn_file : List ℕ
torn_file = 34 ∷ 7 ∷ 10 ∷ 34 ∷ []

-- The torn record is gone.
repaired_file :
    append_records codec (number 5 ∷ []) torn_file ≡ (returned tt, 34 ∷ 7 ∷ 10 ∷ 34 ∷ 5 ∷ 10 ∷ [])
unfolding append_records write_journal_events prepare_journal_append search_start last_newline
repaired_file = refl
