-- ===== src/Base/Dict.antt =====
-- Python's dicts with text keys, in insertion order: `d[k] = v` keeps the place of a key that is
-- there, and adds another at the end.
use Prim.Native.String.{String}
use mathlib.Core.Path.{◌≡◌, refl}
use mathlib.Core.Bool.{not}
use mathlib.Core.Option.{Option, none, some}
use mathlib.Core.List.{List, [], ◌∷◌, map}
use native.Mathlib.Omega.{arith}
use text.Mathlib.Text.{◌==◌}
use text.Mathlib.TextEquality.{eq_iff}
use nosis.Base.Tests.{if◌then◌else◌}
use nosis.Base.Lists.{filter}

module _ {ℓ} {V : Type ℓ} where
  abbrev pub find : String → List (String × V) → Option V
  find k [] = none
  find k ((j, v) ∷ d) = if j == k then some v else find k d

  abbrev pub put : String → V → List (String × V) → List (String × V)
  put k v [] = (k, v) ∷ []
  put k v ((j, w) ∷ d) = if j == k then (j, v) ∷ d else (j, w) ∷ put k v d

  abbrev pub values : List (String × V) → List V
  values d = map (λ e. e.1) d

  pub find-put :
      (k j : String) (v : V) (d : List (String × V))
      → find j (put k v d) ≡ (if k == j then some v else find j d)
  find-put k j v [] = refl
  find-put k j v ((i, w) ∷ d) = ground (arith, eq_iff k j, eq_iff i k, eq_iff i j, find-put k j v d)

-- `d.pop(key, None)`
unfoldable pub pop {ℓ} : {V : Type ℓ} → String → List (String × V) → List (String × V)
pop key d = filter (λ e. not (e.0 == key)) d
