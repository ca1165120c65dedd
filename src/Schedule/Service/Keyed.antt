-- ===== src/Schedule/Service/Keyed.antt =====
-- agent_core/scheduler.py: in the table each schedule stands under its own name.
use nosis.Base.{
  ◌≡◌, refl, arith, ◌∙◌, sym, ap, String, Option, none, some, List, [], ◌∷◌, ◌==◌, Bool-cases,
  returned-injective, inl, inr, All, eq→path, returned,
}
use mathlib.Core.Option.{some-injective}
use nosis.Base.Dict.{find, put, pop}
use nosis.Schedule.Trigger.{Schedule}
use nosis.Schedule.Service.{found}

-- A schedule stands under its own name.
abbrev pub IsKeyed : List (String × Schedule) → Type 0
IsKeyed d = All (λ e. e.0 ≡ (e.1).schedule_id) d

pub put-IsKeyed :
    (v : Schedule) (d : List (String × Schedule)) → IsKeyed d → IsKeyed (put v.schedule_id v d)
put-IsKeyed v [] h = (refl, tt)
put-IsKeyed v ((j, w) ∷ d) h = elim (Bool-cases (j == v.schedule_id)) [
  | inl e ↦ rw e (eq→path j v.schedule_id e, h.1)
  | inr e ↦ rw e (h.0, put-IsKeyed v d h.1)
]

pub pop-IsKeyed : (k : String) (d : List (String × Schedule)) → IsKeyed d → IsKeyed (pop k d)
unfolding pop
pop-IsKeyed k [] h = tt
pop-IsKeyed k ((j, w) ∷ d) h = elim (Bool-cases (j == k)) [
  | inl e ↦ rw e (pop-IsKeyed k d h.1)
  | inr e ↦ rw e (h.0, pop-IsKeyed k d h.1)
]

find-IsKeyed :
    (k : String) (d : List (String × Schedule)) (v : Schedule)
    → IsKeyed d
    → find k d ≡ some v
    → v.schedule_id ≡ k
find-IsKeyed k [] v h e = absurd (ground arith)
find-IsKeyed k ((j, w) ∷ d) v h e = elim (Bool-cases (j == k)) [
  | inl t ↦
      sym (ap Schedule.schedule_id (some-injective w v (sym (rw t refl) ∙ e)))
      ∙ sym h.0
      ∙ eq→path j k t
  | inr f ↦ find-IsKeyed k d v h.1 (sym (rw f refl) ∙ e)
]

pub found-IsKeyed :
    (k : String) (d : List (String × Schedule)) (v : Schedule)
    → IsKeyed d
    → found (find k d) ≡ returned v
    → v.schedule_id ≡ k
found-IsKeyed k d v h = found_cases (find k d) (λ w. find-IsKeyed k d w h)
  where
    found_cases :
        (o : Option Schedule)
        → ((w : Schedule) → o ≡ some w → w.schedule_id ≡ k)
        → found o ≡ returned v
        → v.schedule_id ≡ k
    found_cases none go e = absurd (ground arith)
    found_cases (some w) go e = sym (ap Schedule.schedule_id (returned-injective w v e)) ∙ go w refl
