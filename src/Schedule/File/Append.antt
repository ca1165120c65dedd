-- ===== src/Schedule/File/Append.antt =====
-- agent_core/scheduler.py: what was appended is read last.
use nosis.Base.{
  ℕ, ◌≡◌, refl, arith, ◌∙◌, sym, String, Bool, true, false, Option, none, some, List, [], ◌∷◌, ◌++◌,
  ◌&&◌, ◌||◌, not, Bool-cases, inl, inr, nat_eq, Result, >>=-returned, >>=-assoc, ◌>>=◌,
}
use Prim.Native.Char.{Char, code}
use nosis.Base.Texts.{strip, is_empty, concat}
use nosis.Base.Json.{Json, object, Fields, PyError}
use nosis.Schedule.Trigger.{Library}
use nosis.Schedule.File.{
  JsonText, Table, empty_table, is_line_break, push, splitlines, ends_with_newline, apply_fields,
  reload_lines, reload, append, read_line, apply_record, is_last,
}

-- No character ends a line.
abbrev pub is_one_line : String → Bool
is_one_line String.[] = true
is_one_line (String.◌∷◌ c s) = not (is_line_break (code c)) && is_one_line s

-- A file that is empty or whose last line is ended.
abbrev pub is_ended : String → Bool
is_ended text = is_empty text || ends_with_newline text

splitlines-line :
    (line : String) → is_one_line line ≡ true → splitlines (concat line "\n") ≡ line ∷ []
unfolding splitlines is_line_break
splitlines-line String.[] h = refl
splitlines-line (String.◌∷◌ c s) h = rw (splitlines-line s (ground arith)) (ground arith)

newline-is_line_break : (c : Char) → nat_eq (code c) 10 ≡ true → is_line_break (code c) ≡ true
unfolding is_line_break
newline-is_line_break c h = ground arith

IsFilled : List String → Type 0
IsFilled [] = ⊥
IsFilled (l ∷ ls) = Unit

push-IsFilled : (c : Char) (ls : List String) → IsFilled (push c ls)
unfolding IsFilled
push-IsFilled c [] = tt
push-IsFilled c (l ∷ ls) = tt

splitlines-IsFilled : (c : Char) (s : String) → IsFilled (splitlines (String.◌∷◌ c s))
unfolding splitlines IsFilled
splitlines-IsFilled c s = elim (Bool-cases (is_line_break (code c))) [
  | inl h ↦ rw h tt
  | inr h ↦ rw h (push-IsFilled c (splitlines s))
]

push-++ : (c : Char) (ks ls : List String) → IsFilled ks → push c (ks ++ ls) ≡ push c ks ++ ls
unfolding IsFilled
push-++ c [] ls h = absurd h
push-++ c (k ∷ ks) ls h = refl

splitlines-++ :
    (text rest : String)
    → is_ended text ≡ true
    → splitlines (concat text rest) ≡ splitlines text ++ splitlines rest
unfolding splitlines ends_with_newline
splitlines-++ String.[] rest h = refl
splitlines-++ (String.◌∷◌ c String.[]) rest h = rw (newline-is_line_break c h) refl
splitlines-++ (String.◌∷◌ c (String.◌∷◌ d s)) rest h =
    rw (splitlines-++ (String.◌∷◌ d s) rest h) (elim (Bool-cases (is_line_break (code c))) [
      | inl k ↦ rw k refl
      | inr k ↦
          rw k (push-++ c (splitlines (String.◌∷◌ d s)) (splitlines rest) (splitlines-IsFilled d s))
    ])

ended-line : (line : String) → ends_with_newline (concat line "\n") ≡ true
unfolding ends_with_newline
ended-line String.[] = refl
ended-line (String.◌∷◌ c String.[]) = refl
ended-line (String.◌∷◌ c (String.◌∷◌ d s)) = ended-line (String.◌∷◌ d s)

ended-push : (c : Char) (line : String) → ends_with_newline (String.◌∷◌ c (concat line "\n")) ≡ true
unfolding ends_with_newline
ended-push c String.[] = refl
ended-push c (String.◌∷◌ d s) = ended-line (String.◌∷◌ d s)

pub ended-++ : (text line : String) → ends_with_newline (concat text (concat line "\n")) ≡ true
unfolding ends_with_newline
ended-++ String.[] line = ended-line line
ended-++ (String.◌∷◌ c String.[]) line = ended-push c line
ended-++ (String.◌∷◌ c (String.◌∷◌ d s)) line = ended-++ (String.◌∷◌ d s) line

-- The record is written as one line that is not blank and reads back as itself.
pub record IsWritten (json : JsonText) (d : Fields) : Type 0 where
  pub one_line : is_one_line (json.dumps (object d)) ≡ true
  pub filled : is_empty (strip (json.dumps (object d))) ≡ false
  pub read : json.loads (json.dumps (object d)) ≡ some (object d)

pub append-is_ended :
    (json : JsonText) (d : Fields) (text : String) → is_ended (append json d text) ≡ true
unfolding append
append-is_ended json d text = ground (arith, ended-++ text (json.dumps (object d)))

module _ (lib : Library) (now : ℕ) (json : JsonText) where
  reload_record-written :
      (d : Fields) (t : Table)
      → IsWritten json d
      → reload_lines lib now json true (json.dumps (object d) ∷ []) t ≡ apply_fields lib now d t
  unfolding reload_lines
  reload_record-written d t w = rw (w.filled, w.read) (>>=-returned (apply_fields lib now d t))

  whole_line : (b : Bool) → not (b && not true) ≡ true
  whole_line b = ground arith

  read_line->>= :
      (o : Option Json) (t : Table) (f g : Table → Result PyError Table)
      → read_line lib now json true o t (λ x. f x >>= g) ≡ (read_line lib now json true o t f >>= g)
  read_line->>= none t f g = refl
  read_line->>= (some j) t f g = >>=-assoc (apply_record lib now j t) f g

  reload_lines-++ :
      (ls : List String) (l : String) (t : Table)
      → reload_lines lib now json true (ls ++ l ∷ []) t
        ≡ (reload_lines lib now json true ls t >>= reload_lines lib now json true (l ∷ []))
  unfolding reload_lines
  reload_lines-++ [] l t = refl
  reload_lines-++ (k ∷ ks) l t = elim (Bool-cases (is_empty (strip k))) [
    | inl h ↦ rw h (reload_lines-++ ks l t)
    | inr h ↦
        rw (h, whole_line (is_last (ks ++ l ∷ [])), whole_line (is_last ks))
          ((λ i. read_line lib now json true (json.loads k) t (λ x. reload_lines-++ ks l x i))
            ∙ read_line->>= (json.loads k) t (reload_lines lib now json true ks)
                (reload_lines lib now json true (l ∷ [])))
  ]

  reload_lines-ended :
      (text : String) (t : Table)
      → is_ended text ≡ true
      → reload_lines lib now json true (splitlines text) t
        ≡ reload_lines lib now json (ends_with_newline text) (splitlines text) t
  unfolding splitlines ends_with_newline reload_lines
  reload_lines-ended String.[] t h = refl
  reload_lines-ended (String.◌∷◌ c s) t h = rw h refl

  -- A record that is written as one line without a line break in it and reads back as itself, and that
  -- was appended to a file whose last line is ended, is the last that a reload applies, to what the
  -- file held before.
  pub reload-append :
      (d : Fields) (text : String)
      → is_ended text ≡ true
      → IsWritten json d
      → reload lib now json (append json d text)
        ≡ (reload lib now json text >>= apply_fields lib now d)
  unfolding reload append
  reload-append d text h w =
      rw
        (
          ended-++ text (json.dumps (object d)),
          splitlines-++ text (concat (json.dumps (object d)) "\n") h,
          splitlines-line (json.dumps (object d)) w.one_line,
          reload_lines-++ (splitlines text) (json.dumps (object d)) empty_table,
          sym (reload_lines-ended text empty_table h),
        )
        (λ i. reload_lines lib now json true (splitlines text) empty_table >>= λ t.
          reload_record-written d t w i)
