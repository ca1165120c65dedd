-- ===== src/Schedule/Service/Stores.antt =====
-- agent_core/scheduler.py: the file holds what the service keeps.
use nosis.Base.{
  ℕ, ◌≡◌, refl, sym, ap, ◌⊎◌, String, true, Option, ◌==◌, ◌||◌, Bool-cases, Result-cases, inl, inr,
  Result, returned, raised,
}
use nosis.Base.Texts.{is_empty, concat}
use nosis.Base.Dict.{find}
use nosis.Base.Json.{Fields, string, PyError}
use nosis.Schedule.Trigger.{
  Trigger, Schedule, ScheduledRun, ScheduleUpdate, parse_schedule_id_input,
  parse_schedule_prompt_input,
}
use nosis.Schedule.Stored.Back.{
  ReadsTimes, IsTrigger, schedule_from_dict-schedule_to_dict, run_from_dict-run_to_dict,
}
use nosis.Schedule.File.{
  Table, with_schedule, with_run, apply_fields, reload, append, record_line, first_chars,
}
use nosis.Schedule.File.Append.{is_ended, IsWritten, append-is_ended, reload-append}
use nosis.Schedule.Service.Keyed.{IsKeyed, put-IsKeyed, pop-IsKeyed, found-IsKeyed}
use nosis.Schedule.Service.{
  Service, World, schedule_record, delete_record, run_record, reload_table, append_record,
  without_schedule, commit, set_schedule, created, replaced, change_table, first_run,
  create_schedule, update_schedule, delete_schedule, find_schedule, change_schedule, prompt_of,
  found, or_kept,
}

pub record IsSynced (world : World) (s : Service) : Type 0 where
  pub ended : is_ended s.text ≡ true
  pub keyed : IsKeyed s.table.schedules
  pub read : (now : ℕ) → reload world.library now world.json s.text ≡ returned s.table

-- The file is as it was, or has so much more of the line of a record as a failing write leaves.
abbrev pub IsCut : World → (before after : String) → Type 0
IsCut world before after =
    (after ≡ before)
    ⊎ ((d : Fields) × (after ≡ concat before (first_chars world.cut (record_line world.json d))))

-- The call raised and left the file as it was or with a cut line, or returned and left, in the file and
-- in the service, what `f` makes of the table.
abbrev pub IsSaved :
    {A : Type 0} (world : World) (s : Service) (f : A → Table → Table)
    → Result PyError A × Service
    → Type 0
IsSaved world s f (raised e, t) = IsCut world s.text t.text
IsSaved world s f (returned a, t) = IsSynced world t × (t.table ≡ f a s.table)

abbrev pub IfReturned : {A : Type 0} → (A → Type 0) → Result PyError A → Type 0
IfReturned P (raised e) = Unit
IfReturned P (returned a) = P a

module _ (world : World) where
  open world use {library, json, is_writable}

  reload_table-IsSynced :
      (now : ℕ) (s : Service) → IsSynced world s → reload_table world now s ≡ (returned tt, s)
  unfolding reload_table
  reload_table-IsSynced now s h = rw (h.read now) refl

  append-IsSynced :
      (d : Fields) (t : Table) (s : Service)
      → IsSynced world s
      → IsWritten json d
      → IsKeyed t.schedules
      → ((now : ℕ) → apply_fields library now d s.table ≡ returned t)
      → IsSynced world (record s { table = t; text = append json d s.text })
  append-IsSynced d t s h w k e = record {
    ended = append-is_ended json d s.text;
    keyed = k;
    read = λ now. rw (reload-append library now json d s.text h.ended w, h.read now) (e now);
  }

  module _ (law : ReadsTimes library) where
    apply_fields-schedule :
        (op : String) (now : ℕ) (v : Schedule) (t : Table)
        → (op == "create" || op == "update") ≡ true
        → IsTrigger library v.trigger
        → apply_fields library now (schedule_record library op v) t ≡ returned (with_schedule t v)
    unfolding apply_fields
    apply_fields-schedule op now v t h k =
        rw (h, schedule_from_dict-schedule_to_dict library law now v k) refl

    apply_fields-run :
        (now : ℕ) (r : ScheduledRun) (t : Table)
        → apply_fields library now (run_record library r) t ≡ returned (with_run t r)
    unfolding apply_fields
    apply_fields-run now r t = rw (run_from_dict-run_to_dict library law now r) refl

    apply_fields-delete :
        (now : ℕ) (k : String) (t : Table)
        → apply_fields library now (delete_record k) t ≡ returned (without_schedule k t)
    unfolding apply_fields
    apply_fields-delete now k t = refl

    commit-IsSaved :
        {A : Type 0} (P : A → Type 0) (f : Service → Service) (d : Fields) (value : A)
        (g : A → Table → Table) (s : Service)
        → IsSynced world s
        → (f s).text ≡ s.text
        → (f s).table ≡ g value s.table
        → IsKeyed (f s).table.schedules
        → (P value → (now : ℕ) → apply_fields library now d s.table ≡ returned (f s).table)
        → (P value → IsWritten json d)
        → IfReturned P (commit world f d value s).0
        → IsSaved world s g (commit world f d value s)
    unfolding append_record
    commit-IsSaved P f d value g s h e t k r w = elim (Bool-cases is_writable) [
      | inl b ↦ rw b (λ p. (
        record {
          ended = append-is_ended json d (f s).text;
          keyed = k;
          read = λ now.
              rw (e, reload-append library now json d s.text h.ended (w p), h.read now) (r p now);
        },
        t,
      ))
      | inr b ↦
          rw b
            (λ p. inr (d, ap (λ text. concat text (first_chars world.cut (record_line json d))) e))
    ]

    -- Creating a schedule whose trigger its constructor accepted, where the record is written as one
    -- line and the file agreed with the service: the call raises and the file is as it was, or has so
    -- much more of a record's line as a failing write leaves; or the new schedule is put in the table
    -- and in what a reload reads.
    pub create_schedule-IsSaved :
        (now : ℕ) (new_id : String) (trigger : Trigger) (prompt workspace origin target : String)
        (end_at : Option ℕ) (s : Service)
        → IsSynced world s
        → IsTrigger library trigger
        → IfReturned
            (λ v. IsWritten json (schedule_record library "create" v))
            (create_schedule world now new_id trigger prompt workspace origin target end_at s).0
        → IsSaved world s
            (λ v t. with_schedule t v)
            (create_schedule world now new_id trigger prompt workspace origin target end_at s)
    unfolding create_schedule
    create_schedule-IsSaved now new_id trigger prompt workspace origin target end_at s h k =
        let made : String → Option ℕ → Schedule =
          λ text next. created world now new_id trigger text workspace origin target end_at next in
        elim (Result-cases (parse_schedule_prompt_input (string prompt))) [
          | inl (e, p) ↦ rw p (λ _. inl refl)
          | inr (text, p) ↦ elim (Result-cases (first_run world trigger end_at now)) [
            | inl (e, q) ↦ rw (p, q) (λ _. inl refl)
            | inr (next, q) ↦
                rw (p, q, reload_table-IsSynced now s h)
                  (commit-IsSaved (λ v. IsWritten json (schedule_record library "create" v))
                    (set_schedule (made text next))
                    (schedule_record library "create" (made text next)) (made text next)
                    (λ v t. with_schedule t v) s h refl refl
                    (put-IsKeyed (made text next) s.table.schedules h.keyed)
                    (λ _ n. apply_fields-schedule "create" n (made text next) s.table refl k)
                    (λ w. w))
          ]
        ]

    changed-IsSaved :
        (now : ℕ) (changes : ScheduleUpdate) (s : Service)
        → IsSynced world s
        → (id : String) (old : Schedule) → old.schedule_id ≡ id
        → IfReturned
            (λ v. IsTrigger library v.trigger × IsWritten json (schedule_record library "update" v))
            (change_schedule world now id changes old s).0
        → IsSaved world s (λ v t. with_schedule t v) (change_schedule world now id changes old s)
    unfolding change_schedule
    changed-IsSaved now changes s h id old z =
        rw (sym z) (elim (Result-cases (prompt_of changes.prompt old.prompt)) [
          | inl (e, p) ↦ rw p (λ _. inl refl)
          | inr (prompt, p) ↦
              elim (Result-cases (
                first_run world (or_kept changes.trigger old.trigger)
                  (or_kept changes.end_at old.end_at) now)) [
                    | inl (e, q) ↦ rw (p, q) (λ _. inl refl)
                    | inr (next, q) ↦
                        rw (p, q)
                          (let new = replaced changes prompt next old in
                            commit-IsSaved
                              (λ v.
                                IsTrigger library v.trigger
                                × IsWritten json (schedule_record library "update" v))
                              (set_schedule new) (schedule_record library "update" new) new
                              (λ v t. with_schedule t v) s h refl refl
                              (put-IsKeyed new s.table.schedules h.keyed)
                              (λ k n. apply_fields-schedule "update" n new s.table refl k.0)
                              (λ k. k.1))
                  ]
        ])

    -- Updating a schedule, where the new trigger is one that its constructor accepted, the record is
    -- written as one line and the file agreed with the service: the call raises and the file is as it
    -- was, or has so much more of a record's line as a failing write leaves; or the changed schedule is
    -- put in the table and in what a reload reads.
    pub update_schedule-IsSaved :
        (now : ℕ) (name : String) (changes : ScheduleUpdate) (s : Service)
        → IsSynced world s
        → IfReturned
            (λ v. IsTrigger library v.trigger × IsWritten json (schedule_record library "update" v))
            (update_schedule world now name changes s).0
        → IsSaved world s (λ v t. with_schedule t v) (update_schedule world now name changes s)
    unfolding update_schedule find_schedule
    update_schedule-IsSaved now name changes s h =
        elim (Result-cases (parse_schedule_id_input (string name))) [
          | inl (e, p) ↦ rw p (λ _. inl refl)
          | inr (id, p) ↦ elim (Result-cases (found (find id s.table.schedules))) [
            | inl (e, f) ↦ rw (p, reload_table-IsSynced now s h, f) (λ _. inl refl)
            | inr (old, f) ↦
                rw (p, reload_table-IsSynced now s h, f)
                  (changed-IsSaved now changes s h id old
                    (found-IsKeyed id s.table.schedules old h.keyed f))
          ]
        ]

    -- Deleting a schedule, where the record is written as one line and the file agreed with the service:
    -- the call raises and the file is as it was or has a cut line more, or the schedule is gone from the
    -- table and from what a reload reads.
    pub delete_schedule-IsSaved :
        (now : ℕ) (name : String) (s : Service)
        → IsSynced world s
        → IfReturned (λ _. IsWritten json (delete_record name)) (delete_schedule world now name s).0
        → IsSaved world s (λ _ t. without_schedule name t) (delete_schedule world now name s)
    unfolding delete_schedule find_schedule parse_schedule_id_input
    delete_schedule-IsSaved now name s h = elim (Bool-cases (is_empty name)) [
      | inl p ↦ rw p (λ _. inl refl)
      | inr p ↦ elim (Result-cases (found (find name s.table.schedules))) [
        | inl (e, f) ↦ rw (p, reload_table-IsSynced now s h, f) (λ _. inl refl)
        | inr (old, f) ↦
            rw (p, reload_table-IsSynced now s h, f)
              (commit-IsSaved (λ _. IsWritten json (delete_record name))
                (change_table (without_schedule name)) (delete_record name) tt
                (λ _ t. without_schedule name t) s h refl refl
                (pop-IsKeyed name s.table.schedules h.keyed)
                (λ _ n. apply_fields-delete n name s.table) (λ w. w))
      ]
    ]
