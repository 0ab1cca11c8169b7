-- ===== src/Store/Runs/Budgeted.antt =====
-- No run of the store's transactions makes work for the startup's maintenance of legacy budgets, which
-- ListOpenConfirmedWithoutBudget of internal/store/recovery_transactions.go looks for.
use ai_supervisor.Base.{
  ◌≡◌, refl, ap, sym, subst, Bool, true, false, ◌&&◌, not, Option, none, some, is_some, ◌==◌, List,
  [], ◌∷◌, All, ◌∙◌, Bool-cases, inl, inr, arith,
}
use ai_supervisor.Base.Text.{Text, ◌=ᵗ◌, text_eq_refl}
use ai_supervisor.Base.Table.{find, exists_row}
use ai_supervisor.Base.Table.Laws.{All-map, Extends-find, find-holds}
use ai_supervisor.Base.Table.Rows.{exists_row-weaken, exists_row-find, find-exists_row}
use ai_supervisor.Base.Table.Order.{All-order_by}
use ai_supervisor.Store.Schema.{
  TaskRow, AttemptRow, DispatchRow, Db, Codec, empty_db, is_send_confirmed,
}
use ai_supervisor.Store.Effect.{Funded, AllFunded, funds}
use ai_supervisor.Store.Recovery.{RecoveryExecution, recovery_execution}
use ai_supervisor.Store.Send.Budget.{is_executing}
use ai_supervisor.Store.Recovery.Snapshot.{
  joined_current, joined_open, open_execution_of, is_unbudgeted, list_open_confirmed_without_budget,
}
use ai_supervisor.Store.Recovery.Current.{executions_of-All}
use ai_supervisor.Store.Runs.{Run}
use ai_supervisor.Store.Runs.Laws.{Run-Effect}

-- The execution names the dispatch's operation and its attempt.
abbrev IsOf : DispatchRow → RecoveryExecution → Type 0
IsOf d x = (x.operation_id ≡ d.operation_id) × (x.attempt_id ≡ d.attempt_id)

recovered-IsOf :
    (d : DispatchRow) (t : TaskRow) (a : AttemptRow) (x : RecoveryExecution)
    → some (recovery_execution d t a) ≡ some x
    → IsOf d x
unfolding recovery_execution
recovered-IsOf d t a x h =
    let same : recovery_execution d t a ≡ x = cc in
    (sym (ap (λ y. y.operation_id) same), sym (ap (λ y. y.attempt_id) same))

open_execution_of-IsOf :
    (db : Db) (d : DispatchRow) (x : RecoveryExecution) → open_execution_of d db ≡ some x → IsOf d x
unfolding open_execution_of
open_execution_of-IsOf db d x e =
    from_open (find (λ a. a.attempt_id =ᵗ d.attempt_id && not (is_some a.ended_at)) db.attempts) e
  where
    joined : (a : AttemptRow) (o : Option TaskRow) → joined_current d a o ≡ some x → IsOf d x
    joined a none h = absurd (cc)
    joined a (some t) h = recovered-IsOf d t a x h

    from_open : (o : Option AttemptRow) → joined_open d db o ≡ some x → IsOf d x
    from_open none h = absurd (cc)
    from_open (some a) h =
        joined a
          (find (λ t. t.task_id =ᵗ a.task_id && t.current_attempt == a.attempt_number) db.tasks) h

first_of_three : (a b d : Bool) → (a && b && not d) ≡ true → (a ≡ true) × (d ≡ false)
first_of_three a b d h = (ground arith, ground arith)

-- A dispatch of the operation was confirmed.
abbrev was_confirmed : Db → Text → Bool
was_confirmed db op =
    exists_row (λ d. d.operation_id =ᵗ op && is_send_confirmed d.stage) db.dispatches

All-confirmed :
    (l : List DispatchRow)
    → All
        (λ d.
          is_send_confirmed d.stage ≡ true
          → exists_row (λ y. y.operation_id =ᵗ d.operation_id && is_send_confirmed y.stage) l
            ≡ true)
        l
unfolding exists_row
All-confirmed [] = tt
All-confirmed (x ∷ l) = (
  λ h. rw (text_eq_refl x.operation_id) (rw h refl),
  All-map l (λ d here h. let rest = here h in ground arith) (All-confirmed l),
)

-- What was confirmed before is exempt from the frame's budgets.
was_confirmed-AllFunded : (db : Db) → AllFunded (was_confirmed db) db
was_confirmed-AllFunded db =
    All-map db.dispatches (λ d here h other. let hit = here h in absurd (cc))
      (All-confirmed db.dispatches)

budgeted :
    (g : Text → Bool) (db : Db) (d : DispatchRow) (x : RecoveryExecution)
    → Funded g db.budgets d
    → open_execution_of d db ≡ some x
    → is_unbudgeted db d x ≡ true
    → (g x.operation_id ≡ true)
      × (exists_row (λ b. b.attempt_id =ᵗ x.attempt_id) db.budgets ≡ false)
unfolding is_unbudgeted
budgeted g db d x funded e h =
    let (confirmed, none_there) =
      first_of_three (is_send_confirmed d.stage) (is_executing x.task_state)
        (exists_row (λ b. b.attempt_id =ᵗ x.attempt_id) db.budgets) h in
    let (operation, attempt) = open_execution_of-IsOf db d x e in
    elim (Bool-cases (g d.operation_id)) [
      | inl legacy ↦ (ap g operation ∙ legacy, none_there)
      | inr fresh ↦
          let (at, sent, has) = funded confirmed fresh in
          let none_own : exists_row (λ b. b.attempt_id =ᵗ d.attempt_id) db.budgets ≡ false =
            subst (λ k. exists_row (λ b. b.attempt_id =ᵗ k) db.budgets ≡ false) attempt
              none_there in
          let unfunded : exists_row (funds d at) db.budgets ≡ false =
            exists_row-weaken (funds d at) (λ b. b.attempt_id =ᵗ d.attempt_id) db.budgets
              (λ b k. ground arith) none_own in
          absurd (cc)
    ]

-- A budget that was there is there after the run.
none_before :
    (c : Codec) {before later : Db} (attempt_id : Text)
    → Run c before later
    → exists_row (λ b. b.attempt_id =ᵗ attempt_id) later.budgets ≡ false
    → exists_row (λ b. b.attempt_id =ᵗ attempt_id) before.budgets ≡ false
none_before c {before} {later} attempt_id r h =
    elim (Bool-cases (exists_row (λ b. b.attempt_id =ᵗ attempt_id) before.budgets)) [
      | inr none_there ↦ none_there
      | inl there ↦
          let (b, found) = exists_row-find (λ y. y.attempt_id =ᵗ attempt_id) before.budgets there in
          let (d, kept, same) =
            Extends-find ◌≡◌ (λ y. y.attempt_id =ᵗ attempt_id) before.budgets later.budgets
              (λ y z e. ap (λ v. v.attempt_id =ᵗ attempt_id) (sym e)) (Run-Effect c r).budgets
              found in
          let still =
            find-exists_row (λ y. y.attempt_id =ᵗ attempt_id) (λ y. y.attempt_id =ᵗ attempt_id)
              later.budgets kept
              (find-holds (λ y. y.attempt_id =ᵗ attempt_id) later.budgets kept) in
          absurd (cc)
    ]

All-absurd : (l : List RecoveryExecution) → All (λ x. ⊥) l → l ≡ []
All-absurd [] h = refl
All-absurd (x ∷ l) h = absurd h.0

-- A run gives the startup's maintenance no new work, from whatever database: an execution that
-- ListOpenConfirmedWithoutBudget returns after it has a dispatch that was SEND_CONFIRMED before it, and
-- its attempt had no budget then.
pub Run-list_open_confirmed_without_budget :
    (c : Codec) {before later : Db}
    → Run c before later
    → All
        (λ x.
          (exists_row
              (λ d. d.operation_id =ᵗ x.operation_id && is_send_confirmed d.stage)
              before.dispatches
            ≡ true)
          × (exists_row (λ b. b.attempt_id =ᵗ x.attempt_id) before.budgets ≡ false))
        (list_open_confirmed_without_budget later)
unfolding list_open_confirmed_without_budget
Run-list_open_confirmed_without_budget c {before} {later} r =
    All-order_by _ (λ x. x.operation_id) _
      (executions_of-All _ (λ d. open_execution_of d later) (is_unbudgeted later) later.dispatches
        (All-map later.dispatches
          (λ d (funded : Funded (was_confirmed before) later.budgets d) x e hit.
            let (confirmed, none_there) = budgeted (was_confirmed before) later d x funded e hit in
            (confirmed, none_before c x.attempt_id r none_there))
          ((Run-Effect c r).funded (was_confirmed before) (was_confirmed-AllFunded before))))

-- In every database that the transactions reach from the migrated one,
-- ListOpenConfirmedWithoutBudget returns nothing.
pub Run-none_unbudgeted :
    (c : Codec) {db : Db} → Run c empty_db db → list_open_confirmed_without_budget db ≡ []
unfolding empty_db exists_row
Run-none_unbudgeted c {db} r = All-absurd (list_open_confirmed_without_budget db) (
    All-map (list_open_confirmed_without_budget db) (λ x h. absurd (cc))
      (Run-list_open_confirmed_without_budget c r))
