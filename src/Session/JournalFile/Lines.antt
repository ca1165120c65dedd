-- ===== src/Session/JournalFile/Lines.antt =====
-- agent_core/session_store.py: the lines of a file that grows at its end.
use nosis.Base.{
  ℕ, ◌≡◌, refl, arith, sym, Bool, true, false, Option, none, some, List, [], ◌∷◌, ◌++◌, ◌&&◌, not,
  nat_eq, Bool-cases, inl, inr, Result, returned, raised, ◌>>=◌, >>=-returned,
}
use mathlib.Core.List.{append_assoc}
use nosis.Base.Json.{Json, PyError}
use nosis.Session.JournalFile.{
  Codec, ends_in_newline, push, split_lines, read_record, read_lines, read_text,
}

-- A file that is empty or whose last line is ended.
abbrev pub is_whole : List ℕ → Bool
is_whole [] = true
is_whole (b ∷ bs) = ends_in_newline (b ∷ bs)

abbrev pub has_no_newline : List ℕ → Bool
has_no_newline [] = true
has_no_newline (b ∷ bs) = not (nat_eq b 10) && has_no_newline bs

-- Every line is ended.
abbrev pub all_ended : List (List ℕ × Bool) → Bool
all_ended [] = true
all_ended ((line, ended) ∷ lines) = ended && all_ended lines

IsFilled : List (List ℕ × Bool) → Type 0
IsFilled [] = ⊥
IsFilled (l ∷ ls) = Unit

push-IsFilled : (b : ℕ) (ls : List (List ℕ × Bool)) → IsFilled (push b ls)
unfolding IsFilled
push-IsFilled b [] = tt
push-IsFilled b ((l, e) ∷ ls) = tt

split_lines-IsFilled : (b : ℕ) (bs : List ℕ) → IsFilled (split_lines (b ∷ bs))
unfolding split_lines IsFilled
split_lines-IsFilled b bs = elim (Bool-cases (nat_eq b 10)) [
  | inl h ↦ rw h tt
  | inr h ↦ rw h (push-IsFilled b (split_lines bs))
]

push-++ : (b : ℕ) (ks ls : List (List ℕ × Bool)) → IsFilled ks → push b (ks ++ ls) ≡ push b ks ++ ls
unfolding IsFilled
push-++ b [] ls h = absurd h
push-++ b ((k, e) ∷ ks) ls h = refl

pub split_lines-++ :
    (file rest : List ℕ)
    → is_whole file ≡ true
    → split_lines (file ++ rest) ≡ split_lines file ++ split_lines rest
unfolding split_lines
split_lines-++ [] rest h = refl
split_lines-++ (b ∷ []) rest h = rw h refl
split_lines-++ (b ∷ c ∷ bs) rest h =
    rw (split_lines-++ (c ∷ bs) rest h) (elim (Bool-cases (nat_eq b 10)) [
      | inl k ↦ rw k refl
      | inr k ↦
          rw k (push-++ b (split_lines (c ∷ bs)) (split_lines rest) (split_lines-IsFilled c bs))
    ])

all_ended-push :
    (b : ℕ) (ls : List (List ℕ × Bool))
    → IsFilled ls
    → all_ended ls ≡ true
    → all_ended (push b ls) ≡ true
unfolding IsFilled
all_ended-push b [] f h = absurd f
all_ended-push b ((l, e) ∷ ls) f h = h

pub whole-all_ended : (file : List ℕ) → is_whole file ≡ true → all_ended (split_lines file) ≡ true
unfolding split_lines
whole-all_ended [] h = refl
whole-all_ended (b ∷ []) h = rw h refl
whole-all_ended (b ∷ c ∷ bs) h = elim (Bool-cases (nat_eq b 10)) [
  | inl k ↦ rw k (whole-all_ended (c ∷ bs) h)
  | inr k ↦ rw k (
      all_ended-push b (split_lines (c ∷ bs)) (split_lines-IsFilled c bs)
        (whole-all_ended (c ∷ bs) h))
]

-- The lines of a text without a newline, and of one that is ended by the only one.
pub split_lines-torn :
    (b : ℕ) (torn : List ℕ)
    → has_no_newline (b ∷ torn) ≡ true
    → split_lines (b ∷ torn) ≡ (b ∷ torn, false) ∷ []
unfolding split_lines
split_lines-torn b [] h = ground arith
split_lines-torn b (c ∷ torn) h = rw (split_lines-torn c torn (ground arith)) (ground arith)

pub split_lines-line :
    (line rest : List ℕ)
    → has_no_newline line ≡ true
    → split_lines (line ++ 10 ∷ rest) ≡ (line, true) ∷ split_lines rest
unfolding split_lines
split_lines-line [] rest h = refl
split_lines-line (b ∷ line) rest h = rw (split_lines-line line rest (ground arith)) (ground arith)

-- What one reading gives, followed by what another gives.
abbrev pub joined :
    Result PyError (List Json) → Result PyError (List Json) → Result PyError (List Json)
joined first second = first >>= λ rs. second >>= λ more. returned (rs ++ more)

read_record-joined :
    (o : Option Json) (first second : Result PyError (List Json))
    → read_record true o (joined first second) ≡ joined (read_record true o first) second
read_record-joined none first second = refl
read_record-joined (some r) (raised e) second = refl
read_record-joined (some r) (returned rs) (raised e) = refl
read_record-joined (some r) (returned rs) (returned more) = refl

pub joined_assoc :
    (a b c : Result PyError (List Json)) → joined (joined a b) c ≡ joined a (joined b c)
joined_assoc (raised e) b c = refl
joined_assoc (returned rs) (raised e) c = refl
joined_assoc (returned rs) (returned more) (raised e) = refl
joined_assoc (returned rs) (returned more) (returned last) =
    λ i. returned (append_assoc rs more last i)

module _ (codec : Codec) where
  -- What is read of ended lines comes before what is read of the others.
  pub read_lines-++ :
      (ks ls : List (List ℕ × Bool))
      → all_ended ks ≡ true
      → read_lines codec (ks ++ ls) ≡ joined (read_lines codec ks) (read_lines codec ls)
  unfolding read_lines
  read_lines-++ [] ls h = sym (>>=-returned (read_lines codec ls))
  read_lines-++ ((line, ended) ∷ ks) ls h = elim (Bool-cases (codec.is_blank line)) [
    | inl k ↦ rw k (read_lines-++ ks ls (ground arith))
    | inr k ↦
        let whole : ended ≡ true = ground arith in
        rw (k, whole, read_lines-++ ks ls (ground arith))
          (read_record-joined (codec.loads line) (read_lines codec ks) (read_lines codec ls))
  ]

  pub read_text-++ :
      (file rest : List ℕ)
      → is_whole file ≡ true
      → read_text codec (file ++ rest) ≡ joined (read_text codec file) (read_text codec rest)
  unfolding read_text
  read_text-++ file rest h =
      rw (split_lines-++ file rest h)
        (read_lines-++ (split_lines file) (split_lines rest) (whole-all_ended file h))
