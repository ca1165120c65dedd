-- ===== src/Base/Lists.antt =====
-- Lists over the native numbers: lengths, filters, membership of a text in a list of texts.
use Prim.Native.Nat.{ℕ, suc, ◌+◌}
use Prim.Native.String.{String}
use mathlib.Core.Path.{◌≡◌, refl}
use mathlib.Core.Bool.{Bool, true, false, not, ◌||◌, ◌&&◌}
use mathlib.Core.List.{List, [], ◌∷◌, ◌++◌}
use native.Mathlib.Omega.{arith}
use text.Mathlib.Text.{◌==◌}
use text.Mathlib.TextEquality.{eq_iff}
use nosis.Base.Tests.{if◌then◌else◌}

module _ {ℓ} {A : Type ℓ} where
  abbrev pub length : List A → ℕ
  length [] = 0
  length (x ∷ xs) = suc (length xs)

  pub length-append : (xs ys : List A) → length (xs ++ ys) ≡ length xs + length ys
  length-append [] ys = omega arith
  length-append (x ∷ xs) ys = omega (arith, length-append xs ys)

  -- Python's `[x for x in xs if p(x)]`
  abbrev pub filter : (A → Bool) → List A → List A
  filter p [] = []
  filter p (x ∷ xs) = let rest = filter p xs in if p x then x ∷ rest else rest

  abbrev pub any : (A → Bool) → List A → Bool
  any p [] = false
  any p (x ∷ xs) = p x || any p xs

  abbrev pub all : (A → Bool) → List A → Bool
  all p [] = true
  all p (x ∷ xs) = p x && all p xs

  abbrev pub All {κ} : (A → Type κ) → List A → Type κ
  All P [] = Unit
  All P (x ∷ xs) = P x × All P xs

  pub All-append {κ} : (P : A → Type κ) (xs ys : List A) → All P xs → All P ys → All P (xs ++ ys)
  All-append P [] ys h k = k
  All-append P (x ∷ xs) ys h k = (h.0, All-append P xs ys h.1 k)

-- `s in texts`, for a set or a list of texts
abbrev pub contains : List String → String → Bool
contains [] s = false
contains (t ∷ ts) s = t == s || contains ts s

pub contains-append :
    (xs ys : List String) (s : String) → contains (xs ++ ys) s ≡ (contains xs s || contains ys s)
contains-append [] ys s = refl
contains-append (x ∷ xs) ys s = ground (arith, contains-append xs ys s)

-- No text stands twice.
abbrev pub IsDistinct : List String → Type 0
IsDistinct [] = Unit
IsDistinct (s ∷ ts) = (contains ts s ≡ false) × IsDistinct ts

pub IsDistinct-snoc :
    (xs : List String) (s : String)
    → IsDistinct xs
    → contains xs s ≡ false
    → IsDistinct (xs ++ s ∷ [])
IsDistinct-snoc [] s h k = (refl, tt)
IsDistinct-snoc (x ∷ xs) s h k = (
  ground (arith, contains-append xs (s ∷ []) x, eq_iff s x, eq_iff x s),
  IsDistinct-snoc xs s h.1 (ground arith),
)

pub contains-All :
    (xs : List String) (s : String) → contains xs s ≡ false → All (λ x. (x == s) ≡ false) xs
contains-All [] s h = tt
contains-All (x ∷ xs) s h = (ground arith, contains-All xs s (ground arith))

-- A list without one of its texts.
pub IsDistinct-remove :
    (xs : List String) (s : String) (ys : List String)
    → IsDistinct (xs ++ s ∷ ys)
    → IsDistinct (xs ++ ys) × All (λ x. (x == s) ≡ false) (xs ++ ys)
IsDistinct-remove [] s ys h = (h.1, contains-All ys s h.0)
IsDistinct-remove (x ∷ xs) s ys h =
    let rest = IsDistinct-remove xs s ys h.1 in
    (
      (ground (arith, contains-append xs ys x, contains-append xs (s ∷ ys) x), rest.0),
      (ground (arith, contains-append xs (s ∷ ys) x, eq_iff s x, eq_iff x s), rest.1),
    )

pub contains-filter :
    (xs : List String) (s k : String)
    → (k == s) ≡ false
    → contains (filter (λ x. not (x == s)) xs) k ≡ contains xs k
contains-filter [] s k h = refl
contains-filter (x ∷ xs) s k h =
    ground (arith, contains-filter xs s k h, eq_iff x s, eq_iff x k, eq_iff k s)

pub All-both :
    {A : Type 0} {P Q R : A → Type 0} (f : (x : A) → P x → Q x → R x) (xs : List A)
    → All P xs
    → All Q xs
    → All R xs
All-both f [] h k = tt
All-both f (x ∷ xs) h k = (f x h.0 k.0, All-both f xs h.1 k.1)

pub All-remove {ℓ κ} :
    {A : Type ℓ} (P : A → Type κ) (xs : List A) (x : A) (ys : List A)
    → All P (xs ++ x ∷ ys)
    → All P (xs ++ ys)
All-remove P [] x ys h = h.1
All-remove P (y ∷ xs) x ys h = (h.0, All-remove P xs x ys h.1)
