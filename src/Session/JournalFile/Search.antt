-- ===== src/Session/JournalFile/Search.antt =====
-- agent_core/session_store.py: the search for the last line's start, a chunk at a time from the end.
use nosis.Base.{
  ℕ, zero, suc, ◌+◌, ◌-◌, ◌≤◌, ◌≡◌, refl, arith, ◌∙◌, sym, ap, Bool, true, false, Option, none,
  some, List, [], ◌∷◌, ◌++◌, length, nat_eq, Bool-cases, inl, inr,
}
use nosis.Session.JournalFile.{
  take, drop, read_bytes, or_here, last_newline, start_in, search_start, ends_in_newline,
}
use nosis.Session.JournalFile.Lines.{has_no_newline, is_whole}

pub take-append-drop : (n : ℕ) (bs : List ℕ) → bs ≡ take n bs ++ drop n bs
take-append-drop zero bs = refl
take-append-drop (suc n) [] = refl
take-append-drop (suc n) (b ∷ bs) = ap (λ l. b ∷ l) (take-append-drop n bs)

pub take_all : (n : ℕ) (bs : List ℕ) → length bs ≤ n → take n bs ≡ bs
take_all zero [] h = refl
take_all zero (b ∷ bs) h = absurd (omega (arith, h))
take_all (suc n) [] h = refl
take_all (suc n) (b ∷ bs) h = ap (λ l. b ∷ l) (take_all n bs (omega (arith, h)))

length-take : (n : ℕ) (bs : List ℕ) → n ≤ length bs → length (take n bs) ≡ n
length-take zero bs h = refl
length-take (suc n) [] h = absurd (omega (arith, h))
length-take (suc n) (b ∷ bs) h = ap (λ m. suc m) (length-take n bs (omega (arith, h)))

length-drop : (n : ℕ) (bs : List ℕ) → length (drop n bs) ≡ length bs - n
length-drop zero bs = omega arith
length-drop (suc n) [] = omega arith
length-drop (suc n) (b ∷ bs) = omega (arith, length-drop n bs)

pub read_bytes-end : (n : ℕ) (bs : List ℕ) → read_bytes n (length bs) bs ≡ drop n bs
read_bytes-end n bs = take_all (length bs - n) (drop n bs) (omega (arith, length-drop n bs))

take-nil : (n : ℕ) → take n [] ≡ []
take-nil zero = refl
take-nil (suc n) = refl

take-read_bytes :
    (k more : ℕ) (bs : List ℕ) → take (k + more) bs ≡ take k bs ++ take more (drop k bs)
take-read_bytes zero more bs = let e : 0 + more ≡ more = omega arith in ap (λ n. take n bs) e
take-read_bytes (suc k) more [] =
    let e : suc k + more ≡ suc (k + more) = omega arith in rw (e, take-nil more) refl
take-read_bytes (suc k) more (b ∷ bs) =
    let e : suc k + more ≡ suc (k + more) = omega arith in
    rw e (ap (λ l. b ∷ l) (take-read_bytes k more bs))

-- Of a newline in the second of two parts or else in the first.
abbrev in_parts : Option ℕ → ℕ → Option ℕ → Option ℕ
in_parts first size none = first
in_parts first size (some i) = some (size + i)

in_parts-none : (o : Option ℕ) → in_parts none 0 o ≡ o
in_parts-none none = refl
in_parts-none (some i) = let e : 0 + i ≡ i = omega arith in ap (λ n. some n) e

or_here-in_parts :
    (here : Bool) (first : Option ℕ) (size : ℕ) (o : Option ℕ)
    → or_here here (in_parts first size o) ≡ in_parts (or_here here first) (suc size) o
or_here-in_parts here first size none = refl
or_here-in_parts true first size (some i) =
    let e : suc (size + i) ≡ suc size + i = omega arith in ap (λ n. some n) e
or_here-in_parts false first size (some i) =
    let e : suc (size + i) ≡ suc size + i = omega arith in ap (λ n. some n) e

last_newline-++ :
    (xs ys : List ℕ)
    → last_newline (xs ++ ys) ≡ in_parts (last_newline xs) (length xs) (last_newline ys)
unfolding last_newline
last_newline-++ [] ys = sym (in_parts-none (last_newline ys))
last_newline-++ (x ∷ xs) ys =
    rw (last_newline-++ xs ys)
      (or_here-in_parts (nat_eq x 10) (last_newline xs) (length xs) (last_newline ys))

-- Where the last line starts, told without the search.
abbrev pub last_start : List ℕ → ℕ
last_start bs = start_in 0 0 (last_newline bs)

found-start :
    (first : Option ℕ) (size : ℕ) (o : Option ℕ)
    → start_in (start_in 0 0 first) size o ≡ start_in 0 0 (in_parts first size o)
found-start first size none = refl
found-start first size (some i) = omega arith

-- The search, with a round for each byte, finds the start of the last line of what stands before the
-- cursor.
pub search_start-last_start :
    (rounds cursor : ℕ) (file : List ℕ)
    → cursor ≤ rounds
    → cursor ≤ length file
    → search_start rounds cursor file ≡ last_start (take cursor file)
unfolding search_start last_newline
search_start-last_start zero zero file h k = refl
search_start-last_start zero (suc n) file h k = absurd (omega (arith, h))
search_start-last_start (suc rounds) zero file h k = refl
search_start-last_start (suc rounds) (suc n) file h k =
    let start : ℕ = suc n - 4096 in
    let chunk = read_bytes start (suc n) file in
    let whole : suc n ≡ start + (suc n - start) = omega arith in
    let parts : take (suc n) file ≡ take start file ++ chunk =
      ap (λ m. take m file) whole ∙ take-read_bytes start (suc n - start) file in
    rw
      (
        search_start-last_start rounds start file (omega (arith, h)) (omega (arith, k)),
        parts,
        last_newline-++ (take start file) chunk,
        length-take start file (omega (arith, k)),
      )
      (found-start (last_newline (take start file)) start (last_newline chunk))

-- What is known of a text by its last newline.
IsLast : List ℕ → Option ℕ → Type 0
IsLast bs none = has_no_newline bs ≡ true
IsLast bs (some i) =
    (ends_in_newline (take (suc i) bs) ≡ true) × (has_no_newline (drop (suc i) bs) ≡ true)

or_here-IsLast :
    (b : ℕ) (bs : List ℕ) (o : Option ℕ) → IsLast bs o → IsLast (b ∷ bs) (or_here (nat_eq b 10) o)
unfolding IsLast
or_here-IsLast b bs none h = elim (Bool-cases (nat_eq b 10)) [
  | inl k ↦ rw k (k, h)
  | inr k ↦ rw k (ground (arith, h, k))
]
or_here-IsLast b [] (some i) h = absurd (ground arith)
or_here-IsLast b (c ∷ bs) (some i) h = elim (Bool-cases (nat_eq b 10)) [
  | inl k ↦ rw k h
  | inr k ↦ rw k h
]

last_newline-IsLast : (bs : List ℕ) → IsLast bs (last_newline bs)
unfolding last_newline IsLast
last_newline-IsLast [] = refl
last_newline-IsLast (b ∷ bs) = or_here-IsLast b bs (last_newline bs) (last_newline-IsLast bs)

ends-is_whole : (bs : List ℕ) → ends_in_newline bs ≡ true → is_whole bs ≡ true
ends-is_whole [] h = refl
ends-is_whole (b ∷ bs) h = h

IsLast-parts :
    (bs : List ℕ) (o : Option ℕ)
    → IsLast bs o
    → (is_whole (take (start_in 0 0 o) bs) ≡ true)
      × (has_no_newline (drop (start_in 0 0 o) bs) ≡ true)
unfolding IsLast
IsLast-parts bs none h = (refl, h)
IsLast-parts bs (some i) h =
    let e : 0 + i + 1 ≡ suc i = omega arith in rw e (ends-is_whole (take (suc i) bs) h.0, h.1)

-- Before the last line's start the file is whole, and after it there is no newline.
pub last_start-parts :
    (bs : List ℕ)
    → (is_whole (take (last_start bs) bs) ≡ true)
      × (has_no_newline (drop (last_start bs) bs) ≡ true)
last_start-parts bs = IsLast-parts bs (last_newline bs) (last_newline-IsLast bs)
