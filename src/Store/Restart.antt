-- ===== src/Store/Restart.antt =====
-- internal/store/recovery.go: the tasks in flight that a restart of the daemon finds. Its queries are on
-- one database, as at a startup, when no other transaction runs between them.
pub mod Open
pub mod Tests
use ai_supervisor.Base.{
  ℕ, Bool, true, false, ◌&&◌, ◌||◌, Option, none, some, List, [], ◌∷◌, ◌==◌, if◌then◌else◌,
}
use ai_supervisor.Base.Text.{Text, ◌=ᵗ◌}
use ai_supervisor.Base.Table.{find}
use ai_supervisor.Base.Table.Order.{order_by, select}
use ai_supervisor.Workflow.{dispatched, ◌=ˢ◌}
use ai_supervisor.Store.Schema.{
  Time, StoreError, TaskRow, AttemptRow, Db, inconsistent_persisted_state,
}

pub data RecoveryClassification : Type 0 where
  external_reconciliation_required : RecoveryClassification
  inconsistent_state : RecoveryClassification

-- RecoveryCandidate
pub record RecoveryCandidate : Type 0 where
  pub task_id : Text
  pub attempt_id : Text
  pub attempt_number : ℕ
  pub contract_id : Text
  pub classification : RecoveryClassification

-- `queryAttempt`: the attempt of the task with its current number.
unfoldable pub query_attempt : TaskRow → Db → Option AttemptRow
query_attempt t db =
    find (λ a. a.task_id =ᵗ t.task_id && a.attempt_number == t.current_attempt) db.attempts

abbrev pub classification_of : Option Time → RecoveryClassification
classification_of none = external_reconciliation_required
classification_of (some at) = inconsistent_state

-- The body of the loop over the tasks.
unfoldable pub candidate : TaskRow → Option AttemptRow → RecoveryCandidate
candidate t none = record {
  task_id = t.task_id;
  attempt_id = [];
  attempt_number = t.current_attempt;
  contract_id = [];
  classification = inconsistent_state;
}
candidate t (some a) = record {
  task_id = t.task_id;
  attempt_id = a.attempt_id;
  attempt_number = t.current_attempt;
  contract_id = a.contract_id;
  classification = classification_of a.ended_at;
}

abbrev pub is_inconsistent : RecoveryClassification → Bool
is_inconsistent external_reconciliation_required = false
is_inconsistent inconsistent_state = true

-- The loop, with `hasInconsistent`.
unfoldable pub classify_tasks : Db → List TaskRow → List RecoveryCandidate × Bool
classify_tasks db [] = ([], false)
classify_tasks db (t ∷ l) =
    let x = candidate t (query_attempt t db) in
    let rest = classify_tasks db l in (x ∷ rest.0, is_inconsistent x.classification || rest.1)

-- ClassifyRestartRecovery: the candidates, and the error that may come with them.
unfoldable pub classify_restart_recovery : Db → List RecoveryCandidate × Option StoreError
classify_restart_recovery db =
    let found =
      classify_tasks db
        (order_by (λ t. t.task_id) (select (λ t. t.state =ˢ dispatched) db.tasks)) in
    (found.0, if found.1 then some inconsistent_persisted_state else none)
