-- ===== src/Base/Results.antt =====
-- Python's exceptions in pure code: the error that was raised, or the value that was returned.
use mathlib.Core.Path.{◌≡◌, refl, ap}
use mathlib.Core.Logic.{◌⊎◌, inl, inr}
use mathlib.Core.Bool.{Bool, true, false}

pub data Result {ℓ κ} (E : Type κ) (A : Type ℓ) : Type (ℓ ⊔ κ) where
  raised : E → Result E A
  returned : A → Result E A

abbrev pub IsOk {ε ℓ} : {E : Type ε} {A : Type ℓ} → Result E A → Type 0
IsOk (raised _) = ⊥
IsOk (returned _) = Unit

module _ {ε} {E : Type ε} where
  infixl 8 ◌>>=◌ ◌>>◌
  -- An error ends the block.
  abbrev pub ◌>>=◌ {ℓ κ} : {A : Type ℓ} {B : Type κ} → Result E A → (A → Result E B) → Result E B
  ◌>>=◌ (raised problem) next = raised problem
  ◌>>=◌ (returned value) next = next value

  abbrev pub ◌>>◌ {ℓ} : {B : Type ℓ} → Result E (Unit {0}) → Result E B → Result E B
  ◌>>◌ (raised problem) next = raised problem
  ◌>>◌ (returned done) next = next

  -- `if test: raise problem`
  abbrev pub raise_if : Bool → E → Result E (Unit {0})
  raise_if false problem = returned tt
  raise_if true problem = raised problem

pub >>=-returned {ε ℓ} : {E : Type ε} {A : Type ℓ} (r : Result E A) → (r >>= λ a. returned a) ≡ r
>>=-returned (raised e) = refl
>>=-returned (returned a) = refl

pub >>=-assoc {ε ℓ κ μ} :
    {E : Type ε} {A : Type ℓ} {B : Type κ} {C : Type μ} (r : Result E A) (f : A → Result E B)
    (g : B → Result E C)
    → (r >>= λ a. f a >>= g) ≡ (r >>= f >>= g)
>>=-assoc (raised e) f g = refl
>>=-assoc (returned a) f g = refl

-- To split on a computed result and keep the equation.
pub Result-cases {ε ℓ} :
    {E : Type ε} {A : Type ℓ} (r : Result E A)
    → ((e : E) × (r ≡ raised e)) ⊎ ((a : A) × (r ≡ returned a))
Result-cases (raised e) = inl (e, refl)
Result-cases (returned a) = inr (a, refl)

abbrev value_or {ε ℓ} : {E : Type ε} {A : Type ℓ} → A → Result E A → A
value_or a (raised e) = a
value_or a (returned b) = b

pub returned-injective {ε ℓ} :
    {E : Type ε} {A : Type ℓ} (a b : A) → ◌≡◌ {A = Result E A} (returned a) (returned b) → a ≡ b
returned-injective a b e = ap (value_or a) e

-- The inversions of a block that returned.
pub >>=-eq-returned {ε ℓ κ} :
    {E : Type ε} {A : Type ℓ} {B : Type κ} (r : Result E A) (f : A → Result E B) (b : B)
    → (r >>= f) ≡ returned b
    → (a : A) × (r ≡ returned a) × (f a ≡ returned b)
>>=-eq-returned (raised e) f b h = cc
>>=-eq-returned (returned a) f b h = (a, refl, h)

pub >>-eq-returned {ε ℓ} :
    {E : Type ε} {B : Type ℓ} (r : Result E (Unit {0})) (next : Result E B) (b : B)
    → (r >> next) ≡ returned b
    → (r ≡ returned tt) × (next ≡ returned b)
>>-eq-returned (raised e) next b h = cc
>>-eq-returned (returned done) next b h = (refl, h)
