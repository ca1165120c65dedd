-- ===== src/Session/JournalFile.antt =====
-- agent_core/session_store.py: the journal's file, as bytes, and its repair after an append that was
-- interrupted. Flushing and `fsync` are left out.
pub mod Lines
pub mod Search
pub mod Torn
pub mod Repair
mod Examples
use nosis.Base.{
  ℕ, zero, suc, ◌+◌, ◌-◌, Bool, true, false, Option, none, some, List, [], ◌∷◌, ◌++◌, length,
  nat_eq, if◌then◌else◌, Result, returned, raised, ◌>>=◌,
}
use nosis.Base.Json.{Json, PyError, value_error}

-- Whether bytes are text in UTF-8; `json.loads` of the text of a line, none where it raises
-- JSONDecodeError; the bytes of `json.dumps`; and whether the line's text is blank. The line's end does
-- not matter to the last three. Left out: a carriage return as a line's end, and the other encodings
-- that `json.loads` takes bytes with NUL for.
pub record Codec : Type 0 where
  pub is_utf8 : List ℕ → Bool
  pub loads : List ℕ → Option Json
  pub dumps : Json → List ℕ
  pub is_blank : List ℕ → Bool

abbrev pub take : ℕ → List ℕ → List ℕ
take zero bs = []
take (suc n) [] = []
take (suc n) (b ∷ bs) = b ∷ take n bs

abbrev pub drop : ℕ → List ℕ → List ℕ
drop zero bs = bs
drop (suc n) [] = []
drop (suc n) (b ∷ bs) = drop n bs

-- `file.seek(start)` and `file.read(stop - start)`
abbrev pub read_bytes : (start stop : ℕ) → List ℕ → List ℕ
read_bytes start stop file = take (stop - start) (drop start file)

abbrev next_index : Option ℕ → Option ℕ
next_index none = none
next_index (some i) = some (suc i)

abbrev or_here : Bool → Option ℕ → Option ℕ
or_here true none = some 0
or_here _ later = next_index later

-- `chunk.rfind(b"\n")`
unfoldable pub last_newline : List ℕ → Option ℕ
last_newline [] = none
last_newline (b ∷ bs) = or_here (nat_eq b 10) (last_newline bs)

abbrev pub start_in : (later chunk_start : ℕ) → Option ℕ → ℕ
start_in later chunk_start none = later
start_in later chunk_start (some newline) = chunk_start + newline + 1

-- The loop over the file's chunks from its end, with a round for each byte at most.
unfoldable pub search_start : (rounds : ℕ) → (cursor : ℕ) → List ℕ → ℕ
search_start zero cursor file = 0
search_start (suc rounds) zero file = 0
search_start (suc rounds) (suc n) file =
    let chunk_start = suc n - 4096 in
    let later = search_start rounds chunk_start file in
    start_in later chunk_start (last_newline (read_bytes chunk_start (suc n) file))

abbrev pub ends_in_newline : List ℕ → Bool
ends_in_newline [] = false
ends_in_newline (b ∷ []) = nat_eq b 10
ends_in_newline (b ∷ c ∷ bs) = ends_in_newline (c ∷ bs)

abbrev pub push : ℕ → List (List ℕ × Bool) → List (List ℕ × Bool)
push b [] = (b ∷ [], false) ∷ []
push b ((line, ended) ∷ lines) = (b ∷ line, ended) ∷ lines

-- The lines of a file, each with whether a newline ends it.
unfoldable pub split_lines : List ℕ → List (List ℕ × Bool)
split_lines [] = []
split_lines (b ∷ bs) =
    let rest = split_lines bs in if nat_eq b 10 then ([], true) ∷ rest else push b rest

abbrev pub with_record : Json → Result PyError (List Json) → Result PyError (List Json)
with_record r rest = rest >>= λ rs. returned (r ∷ rs)

-- A line that is no JSON ends the loop if no newline ends it, and is an error otherwise.
abbrev pub read_record :
    (ended : Bool) → Option Json → Result PyError (List Json) → Result PyError (List Json)
read_record ended (some r) rest = with_record r rest
read_record true none rest = raised (value_error "JSONDecodeError")
read_record false none rest = returned []

module _ (codec : Codec) where
  open codec use {is_utf8, loads, dumps, is_blank}

  -- What is done to the file by the text of its last line: bytes that are no text are not caught.
  abbrev pub repaired :
      (is_text : Bool) → Option Json → (start : ℕ) → List ℕ → Result PyError (List ℕ)
  repaired false parsed start file = raised (value_error "UnicodeDecodeError")
  repaired true none start file = returned (take start file)
  repaired true (some record_json) start file = returned (file ++ 10 ∷ [])

  -- `_prepare_journal_append`; an empty file stays as it is.
  unfoldable pub prepare_journal_append : List ℕ → Result PyError (List ℕ)
  prepare_journal_append [] = returned []
  prepare_journal_append (b ∷ bs) =
      let file = b ∷ bs in
      let stop = length file in
      let start = search_start stop stop file in
      if ends_in_newline file
      then returned file
      else (let tail = read_bytes start stop file in
          repaired (is_utf8 tail) (loads tail) start file)

  -- `_write_journal_events`, for the records of the events
  unfoldable pub write_journal_events : List Json → List ℕ → List ℕ
  write_journal_events [] file = file
  write_journal_events (r ∷ rs) file = write_journal_events rs (file ++ (dumps r ++ 10 ∷ []))

  abbrev pub appended :
      List Json → List ℕ → Result PyError (List ℕ) → Result PyError (Unit {0}) × List ℕ
  appended rs file (raised problem) = (raised problem, file)
  appended rs file (returned prepared) = (returned tt, write_journal_events rs prepared)

  -- The append to the open file: the result, and the file after it.
  unfoldable pub append_records : List Json → List ℕ → Result PyError (Unit {0}) × List ℕ
  append_records rs file = appended rs file (prepare_journal_append file)

  unfoldable pub read_lines : List (List ℕ × Bool) → Result PyError (List Json)
  read_lines [] = returned []
  read_lines ((line, ended) ∷ lines) =
      let rest = read_lines lines in
      if is_blank line then rest else read_record ended (loads line) rest

  -- The loop over the lines of a text.
  unfoldable pub read_text : List ℕ → Result PyError (List Json)
  read_text file = read_lines (split_lines file)

  -- `_read_journal_records`, all of what it yields. The file is decoded as UTF-8; if it is longer than
  -- the buffer, a line before the bytes that are no text can raise JSONDecodeError first, which is a
  -- ValueError too.
  unfoldable pub read_journal_records : List ℕ → Result PyError (List Json)
  read_journal_records file =
      if is_utf8 file then read_text file else raised (value_error "UnicodeDecodeError")
