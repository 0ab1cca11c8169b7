-- ===== src/Store/Restart/Open.antt =====
-- When ClassifyRestartRecovery of internal/store/recovery.go finds the tables consistent.
use ai_supervisor.Base.{
  ◌≤◌, ◌≡◌, ◌↔◌, refl, sym, ap, ◌∙◌, Bool, true, false, ◌&&◌, not, Option, none, some, List, [],
  ◌∷◌, length, is_some, Bool-cases, Option-cases, inl, inr, ◌==◌, if◌then◌else◌, arith,
}
use ai_supervisor.Base.Text.{◌=ᵗ◌}
use ai_supervisor.Base.Table.{find, exists_row, count}
use ai_supervisor.Base.Table.Rows.{found-exists_row, missing-exists_row}
use ai_supervisor.Base.Table.Order.{
  order_by, select, exists_row-order_by, length-order_by, length-select,
}
use ai_supervisor.Workflow.{dispatched, ◌=ˢ◌}
use ai_supervisor.Store.Schema.{
  Time, StoreError, TaskRow, AttemptRow, Db, inconsistent_persisted_state,
}
use ai_supervisor.Store.Restart.{
  candidate, classification_of, query_attempt, is_inconsistent, classify_tasks,
  classify_restart_recovery,
}

-- The task has an open attempt with its current number.
unfoldable pub has_open_attempt : Db → TaskRow → Bool
has_open_attempt db t =
    exists_row
      (λ a.
        (a.task_id =ᵗ t.task_id && a.attempt_number == t.current_attempt)
        && not (is_some a.ended_at))
      db.attempts

-- The key of query_attempt.
abbrev is_current : TaskRow → AttemptRow → Bool
is_current t a = a.task_id =ᵗ t.task_id && a.attempt_number == t.current_attempt

missing : (t : TaskRow) → is_inconsistent (candidate t none).classification ≡ true
unfolding candidate
missing t = refl

present :
    (t : TaskRow) (a : AttemptRow)
    → is_inconsistent (candidate t (some a)).classification ≡ is_some a.ended_at
unfolding candidate
present t a = by_end a.ended_at
  where
    by_end : (e : Option Time) → is_inconsistent (classification_of e) ≡ is_some e
    by_end none = refl
    by_end (some at) = refl

candidate-consistent :
    (db : Db) (t : TaskRow)
    → count (is_current t) db.attempts ≤ 1
    → is_inconsistent (candidate t (query_attempt t db)).classification
      ≡ not (has_open_attempt db t)
unfolding query_attempt has_open_attempt
candidate-consistent db t unique = elim (Option-cases (find (is_current t) db.attempts)) [
  | inl none_found ↦
      ap (λ o. is_inconsistent (candidate t o).classification) none_found
      ∙ missing t
      ∙ sym (
          ap not (
            missing-exists_row (is_current t) (λ a. not (is_some a.ended_at)) db.attempts
              none_found))
  | inr (a, found) ↦
      ap (λ o. is_inconsistent (candidate t o).classification) found
      ∙ present t a
      ∙ sym (
          ap not (
            found-exists_row (is_current t) (λ x. not (is_some x.ended_at)) db.attempts unique
              found)
          ∙ not_not (is_some a.ended_at))
]
  where
    not_not : (b : Bool) → not (not b) ≡ b
    not_not true = refl
    not_not false = refl

classify_tasks-exists_row :
    (db : Db) (l : List TaskRow)
    → ((t : TaskRow) → count (is_current t) db.attempts ≤ 1)
    → (classify_tasks db l).1 ≡ exists_row (λ t. not (has_open_attempt db t)) l
unfolding classify_tasks exists_row
classify_tasks-exists_row db [] unique = refl
classify_tasks-exists_row db (t ∷ l) unique =
    rw (candidate-consistent db t (unique t)) (rw (classify_tasks-exists_row db l unique) refl)

length-classify_tasks : (db : Db) (l : List TaskRow) → length (classify_tasks db l).0 ≡ length l
unfolding classify_tasks
length-classify_tasks db [] = refl
length-classify_tasks db (t ∷ l) = omega (arith, length-classify_tasks db l)

exists_row-select :
    (f p : TaskRow → Bool) (l : List TaskRow)
    → exists_row f (select p l) ≡ exists_row (λ t. p t && f t) l
unfolding exists_row select
exists_row-select f p [] = refl
exists_row-select f p (t ∷ l) =
    let rest = exists_row-select f p l in
    elim (Bool-cases (p t)) [ inl hit ↦ rw hit (rw rest refl) | inr miss ↦ rw miss rest ]

verdict :
    (b : Bool)
    → (◌≡◌ {A = Option StoreError} (if b then some inconsistent_persisted_state else none) none)
      ↔ (b ≡ false)
verdict true = (λ h. absurd (cc), λ h. absurd (cc))
verdict false = (λ h. refl, λ h. refl)

-- Where a task has one attempt at most of a number, ClassifyRestartRecovery reports as many candidates
-- as there are tasks that are DISPATCHED, and no error exactly if each of these has an open attempt
-- with its current number.
pub classify_restart_recovery_iff :
    (db : Db)
    → ((t : TaskRow)
        → count (λ a. a.task_id =ᵗ t.task_id && a.attempt_number == t.current_attempt) db.attempts
          ≤ 1)
    → (length (classify_restart_recovery db).0 ≡ count (λ t. t.state =ˢ dispatched) db.tasks)
      × (((classify_restart_recovery db).1 ≡ none) ↔ (
          exists_row (λ t. t.state =ˢ dispatched && not (has_open_attempt db t)) db.tasks ≡ false))
unfolding classify_restart_recovery
classify_restart_recovery_iff db unique =
    let rows = order_by (λ t. t.task_id) (select (λ t. t.state =ˢ dispatched) db.tasks) in
    let flag : (classify_tasks db rows).1
        ≡ exists_row (λ t. t.state =ˢ dispatched && not (has_open_attempt db t)) db.tasks =
      classify_tasks-exists_row db rows unique
      ∙ exists_row-order_by (λ t. not (has_open_attempt db t)) (λ t. t.task_id) _
      ∙ exists_row-select (λ t. not (has_open_attempt db t)) (λ t. t.state =ˢ dispatched)
          db.tasks in
    let (to, from) = verdict (classify_tasks db rows).1 in
    (
      length-classify_tasks db rows
          ∙ length-order_by (λ t. t.task_id) _
          ∙ length-select (λ t. t.state =ˢ dispatched) db.tasks,
      (λ h. sym flag ∙ to h, λ h. from (flag ∙ h)),
    )
