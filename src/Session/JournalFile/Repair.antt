-- ===== src/Session/JournalFile/Repair.antt =====
-- agent_core/session_store.py: what is appended after an interrupted append is read.
use nosis.Base.{ℕ, ◌≡◌, true, false, ◌&&◌, List, [], ◌∷◌, ◌++◌, Result, returned, raised}
use nosis.Base.Json.{Json, PyError, value_error}
use nosis.Session.JournalFile.{Codec, read_text, read_journal_records}
use nosis.Session.JournalFile.Lines.{is_whole, joined}

module _ (codec : Codec) where
  open codec use {is_utf8, loads, dumps}

  -- What `_prepare_journal_append` makes of the file: a whole file that is read as before and is text if
  -- it was, or an exception, if the file is no text.
  abbrev IsPrepared : List ℕ → Result PyError (List ℕ) → Type 0
  IsPrepared file (raised problem) =
      (problem ≡ value_error "UnicodeDecodeError") × (is_utf8 file ≡ false)
  IsPrepared file (returned new) =
      (is_whole new ≡ true)
      × (read_text codec new ≡ read_text codec file)
      × (is_utf8 new ≡ is_utf8 file)

  -- UTF-8: no bytes are text, and bytes before and after a newline are texts if all of them are one.
  pub record IsUtf8 : Type 0 where
    pub empty : is_utf8 [] ≡ true
    pub newline : (xs ys : List ℕ) → is_utf8 (xs ++ 10 ∷ ys) ≡ (is_utf8 xs && is_utf8 ys)

  module _ (law : IsUtf8) where
    -- What the append did: the records are read after those that the file had, or fails to be read as
    -- before; or it raised, the file is as it was and cannot be read.
    abbrev pub IsAppended :
        List Json → (file : List ℕ) → Result PyError (Unit {0}) × List ℕ → Type 0
    IsAppended rs file (raised problem, new) =
        (problem ≡ value_error "UnicodeDecodeError")
        × (new ≡ file)
        × (read_journal_records codec file ≡ raised problem)
    IsAppended rs file (returned value, new) =
        read_journal_records codec new ≡ joined (read_journal_records codec file) (returned rs)
