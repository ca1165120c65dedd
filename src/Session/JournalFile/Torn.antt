-- ===== src/Session/JournalFile/Torn.antt =====
-- agent_core/session_store.py: a last line that no newline ends, and records that are written.
use nosis.Base.{
  ℕ, ◌≡◌, refl, arith, ◌∙◌, sym, ap, true, false, none, some, List, [], ◌∷◌, ◌++◌, All, Result,
  returned, raised,
}
use mathlib.Core.List.{append-nil}
use nosis.Base.Json.{Json, PyError}
use nosis.Session.JournalFile.{Codec, write_journal_events, split_lines, read_lines, read_text}
use nosis.Session.JournalFile.Lines.{
  is_whole, has_no_newline, split_lines-torn, split_lines-line, joined, joined_assoc, read_text-++,
}

module _ (codec : Codec) where
  open codec use {is_utf8, loads, dumps, is_blank}

  -- The record is written as a text of one line that is not blank and reads back as itself.
  pub record IsWritten (r : Json) : Type 0 where
    pub text : is_utf8 (dumps r) ≡ true
    pub one_line : has_no_newline (dumps r) ≡ true
    pub filled : is_blank (dumps r) ≡ false
    pub read : loads (dumps r) ≡ some r

  pub joined-nil : (a : Result PyError (List Json)) → joined a (returned []) ≡ a
  joined-nil (raised e) = refl
  joined-nil (returned rs) = λ i. returned (append-nil rs i)

  read_text-line :
      (line : List ℕ) (r : Json)
      → has_no_newline line ≡ true
      → is_blank line ≡ false
      → loads line ≡ some r
      → read_text codec (line ++ 10 ∷ []) ≡ returned (r ∷ [])
  unfolding read_text read_lines split_lines
  read_text-line line r h k e = rw (split_lines-line line [] h, k, e) refl

  pub append-is_whole : (file line : List ℕ) → is_whole (file ++ (line ++ 10 ∷ [])) ≡ true
  append-is_whole [] [] = refl
  append-is_whole [] (b ∷ []) = refl
  append-is_whole [] (b ∷ c ∷ bs) = append-is_whole [] (c ∷ bs)
  append-is_whole (b ∷ []) [] = refl
  append-is_whole (b ∷ []) (c ∷ bs) = append-is_whole [] (c ∷ bs)
  append-is_whole (b ∷ c ∷ bs) line = append-is_whole (c ∷ bs) line

  -- Of a file whose last line is ended, records that are written to it are read after the others.
  pub write_journal_events-read :
      (rs : List Json) (file : List ℕ)
      → is_whole file ≡ true
      → All IsWritten rs
      → read_text codec (write_journal_events codec rs file)
        ≡ joined (read_text codec file) (returned rs)
  unfolding write_journal_events
  write_journal_events-read [] file h w = sym (joined-nil (read_text codec file))
  write_journal_events-read (r ∷ rs) file h w =
      let line = dumps r ++ 10 ∷ [] in
      write_journal_events-read rs (file ++ line) (append-is_whole file (dumps r)) w.1
      ∙ ap (λ old. joined old (returned rs)) (read_text-++ codec file line h)
      ∙ joined_assoc (read_text codec file) (read_text codec line) (returned rs)
      ∙ ap (λ new. joined (read_text codec file) (joined new (returned rs)))
          (read_text-line (dumps r) r (w.0).one_line (w.0).filled (w.0).read)

  -- A last line without an end is passed over if it is no JSON, and is read as if it had one otherwise.
  pub read-torn_none :
      (torn : List ℕ)
      → has_no_newline torn ≡ true
      → loads torn ≡ none
      → read_text codec torn ≡ returned []
  unfolding read_text read_lines split_lines
  read-torn_none [] h e = refl
  read-torn_none (b ∷ torn) h e = rw (split_lines-torn b torn h, e) (ground arith)

  read-torn_some :
      (b : ℕ) (torn : List ℕ) (r : Json)
      → has_no_newline (b ∷ torn) ≡ true
      → loads (b ∷ torn) ≡ some r
      → read_text codec ((b ∷ torn) ++ 10 ∷ []) ≡ read_text codec (b ∷ torn)
  unfolding read_text read_lines split_lines
  read-torn_some b torn r h e =
      rw (split_lines-torn b torn h, split_lines-line (b ∷ torn) [] h, e) refl

  pub ended-read :
      (whole torn : List ℕ) (r : Json)
      → is_whole whole ≡ true
      → has_no_newline torn ≡ true
      → is_whole (whole ++ torn) ≡ false
      → loads torn ≡ some r
      → read_text codec (whole ++ (torn ++ 10 ∷ [])) ≡ read_text codec (whole ++ torn)
  ended-read whole [] r w n f e = absurd (ground (arith, w, f, ap is_whole (append-nil whole)))
  ended-read whole (b ∷ torn) r w n f e =
      read_text-++ codec whole ((b ∷ torn) ++ 10 ∷ []) w
      ∙ ap (λ last. joined (read_text codec whole) last) (read-torn_some b torn r n e)
      ∙ sym (read_text-++ codec whole (b ∷ torn) w)
