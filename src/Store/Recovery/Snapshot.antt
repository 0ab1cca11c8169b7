-- ===== src/Store/Recovery/Snapshot.antt =====
-- internal/store/recovery_transactions.go: ListRecoverySnapshot and ListOpenConfirmedWithoutBudget. Each
-- JOIN is on unique columns, so that it finds one row at most.
use ai_supervisor.Base.{
  Bool, true, false, ◌&&◌, ◌||◌, not, Option, none, some, List, [], ◌∷◌, map, ok, ◌>>◌, guard, ◌==◌,
  if◌then◌else◌, is_some,
}
use ai_supervisor.Base.Text.{Text, ◌=ᵗ◌}
use ai_supervisor.Base.Table.{find, exists_row}
use ai_supervisor.Base.Table.Order.{order_by, select}
use ai_supervisor.Workflow.{TaskState, dispatched, running, blocked, ◌=ˢ◌}
use ai_supervisor.Store.Schema.{
  Outcome, Db, TaskRow, AttemptRow, DispatchRow, is_bound, is_send_requested, is_send_confirmed,
  is_requested_stage, is_restore_in_flight, StopRow, StopStage, stop_requested, stop_call_succeeded,
  StopPurpose, is_running_attempt_stop, is_in_flight, inconsistent_persisted_state,
}
use ai_supervisor.Store.Recovery.{RecoveryExecution, recovery_execution, is_executed_by}
use ai_supervisor.Store.Send.Budget.{is_executing}

-- RecoveryStop
pub record RecoveryStop : Type 0 where
  pub operation_id : Text
  pub stage : StopStage
  pub purpose : StopPurpose
  pub session_id : Text
  pub generation : Text

-- A RecoveryExecution of a blocked task: its operation and its stage are empty.
pub record BlockedExecution : Type 0 where
  pub pair_id : Text
  pub task_id : Text
  pub contract_id : Text
  pub attempt_id : Text
  pub session_id : Text
  pub generation : Text
  pub task_state : TaskState
  pub disposition : Option Text

-- RecoverySnapshot
pub record RecoverySnapshot : Type 0 where
  pub restore_ids : List Text
  pub provision_ids : List Text
  pub stop_owned_attempt_ids : List Text
  pub executions : List RecoveryExecution
  pub stop_operations : List RecoveryStop
  pub blocked_executions : List BlockedExecution

unfoldable pub current_attempt_of : TaskRow → Db → Option AttemptRow
current_attempt_of t db =
    find (λ a. a.task_id =ᵗ t.task_id && a.attempt_number == t.current_attempt) db.attempts

unfoldable pub dispatch_of : TaskRow → AttemptRow → Db → Option DispatchRow
dispatch_of t a db =
    find (λ d. d.attempt_id =ᵗ a.attempt_id && d.task_id =ᵗ t.task_id && d.pair_id =ᵗ t.pair_id)
      db.dispatches

abbrev lacks_send : TaskRow → Option DispatchRow → Bool
lacks_send t none = true
lacks_send t (some d) =
    (t.state =ˢ running || t.state =ˢ blocked) && not (is_send_confirmed d.stage)

abbrev lacks_lineage : TaskRow → Db → Option AttemptRow → Bool
lacks_lineage t db none = true
lacks_lineage t db (some a) =
    is_some a.ended_at
    || not (is_some a.session_id)
    || not (is_some a.terminal_generation)
    || lacks_send t (dispatch_of t a db)

-- The row that makes the persisted state inconsistent.
unfoldable pub is_inconsistent_task : Db → TaskRow → Bool
is_inconsistent_task db t =
    (t.state =ˢ dispatched || t.state =ˢ running || t.state =ˢ blocked)
    && lacks_lineage t db (current_attempt_of t db)

-- The JOIN of a dispatch with its task and the open current attempt.
abbrev pub joined_attempt : DispatchRow → TaskRow → Option AttemptRow → Option RecoveryExecution
joined_attempt d t none = none
joined_attempt d t (some a) = some (recovery_execution d t a)

abbrev pub joined_task : DispatchRow → Db → Option TaskRow → Option RecoveryExecution
joined_task d db none = none
joined_task d db (some t) = joined_attempt d t (find (is_executed_by d t) db.attempts)

unfoldable pub execution_of : DispatchRow → Db → Option RecoveryExecution
execution_of d db = joined_task d db (find (λ t. t.task_id =ᵗ d.task_id) db.tasks)

-- The stages in which the snapshot takes a dispatch, by the state of the task.
unfoldable pub is_candidate : DispatchRow → RecoveryExecution → Bool
is_candidate d x =
    x.task_state =ˢ dispatched
      && (is_bound d.stage
          || is_send_requested d.stage && not (is_some d.resolution_state)
          || is_send_confirmed d.stage)
    || x.task_state =ˢ running && is_send_confirmed d.stage

abbrev pub keep_if : {A : Type 0} → (A → Bool) → Option A → List A → List A
keep_if p none l = l
keep_if p (some a) l = if p a then a ∷ l else l

-- The executions of some dispatches, each by a JOIN and under a further test.
unfoldable pub executions_of :
    (DispatchRow → Option RecoveryExecution)
    → (DispatchRow → RecoveryExecution → Bool)
    → List DispatchRow
    → List RecoveryExecution
executions_of join p [] = []
executions_of join p (d ∷ l) = keep_if (p d) (join d) (executions_of join p l)

-- SELECT DISTINCT of the attempts that a stop owns and that are open.
abbrev member : Text → List Text → Bool
member t l = exists_row (λ s. s =ᵗ t) l

abbrev owned_attempt : Db → StopRow → Option Text → List Text → List Text
owned_attempt db o none l = l
owned_attempt db o (some k) l =
    if is_running_attempt_stop o.purpose
      && exists_row (λ a. a.attempt_id =ᵗ k && not (is_some a.ended_at)) db.attempts
      && not (member k l)
    then k ∷ l
    else l

unfoldable pub stop_owned_attempts : Db → List StopRow → List Text
stop_owned_attempts db [] = []
stop_owned_attempts db (o ∷ l) = owned_attempt db o o.attempt_id (stop_owned_attempts db l)

abbrev is_open_stop_stage : StopStage → Bool
is_open_stop_stage stop_requested = true
is_open_stop_stage stop_call_succeeded = true
is_open_stop_stage _ = false

unfoldable pub recovery_stop : StopRow → RecoveryStop
recovery_stop o = record {
  operation_id = o.operation_id;
  stage = o.stage;
  purpose = o.purpose;
  session_id = o.session_id;
  generation = o.terminal_generation;
}

-- COALESCE(column, '')
abbrev or_empty : Option Text → Text
or_empty none = []
or_empty (some t) = t

abbrev blocked_row : TaskRow → Option AttemptRow → List BlockedExecution → List BlockedExecution
blocked_row t none l = l
blocked_row t (some a) l =
    if is_some a.ended_at
    then l
    else record {
      pair_id = t.pair_id;
      task_id = t.task_id;
      contract_id = a.contract_id;
      attempt_id = a.attempt_id;
      session_id = or_empty a.session_id;
      generation = or_empty a.terminal_generation;
      task_state = t.state;
      disposition = a.recovery_disposition;
    }
      ∷ l

unfoldable pub blocked_of : Db → List TaskRow → List BlockedExecution
blocked_of db [] = []
blocked_of db (t ∷ l) =
    let rest = blocked_of db l in
    if t.state =ˢ blocked then blocked_row t (current_attempt_of t db) rest else rest

-- ListRecoverySnapshot
unfoldable pub list_recovery_snapshot : Db → Outcome RecoverySnapshot
list_recovery_snapshot db = do
  guard (not (exists_row (is_inconsistent_task db) db.tasks)) inconsistent_persisted_state
  ok (record {
    restore_ids =
        order_by (λ k. k)
          (map (λ r. r.operation_id) (select (λ r. is_restore_in_flight r.resolution) db.restores));
    provision_ids =
        order_by (λ k. k)
          (map (λ p. p.operation_id) (select (λ p. is_requested_stage p.stage) db.provisionings));
    stop_owned_attempt_ids = order_by (λ k. k) (stop_owned_attempts db db.stops);
    executions =
        order_by (λ x. x.operation_id)
          (executions_of (λ d. execution_of d db) is_candidate db.dispatches);
    stop_operations =
        order_by (λ o. o.operation_id)
          (map recovery_stop
            (select (λ o. is_in_flight o.resolution_state && is_open_stop_stage o.stage) db.stops));
    blocked_executions = order_by (λ x. x.task_id) (blocked_of db db.tasks);
  })

-- The JOIN of a dispatch with its open attempt and with the task whose current attempt it is, whatever
-- task the dispatch names.
abbrev pub joined_current : DispatchRow → AttemptRow → Option TaskRow → Option RecoveryExecution
joined_current d a none = none
joined_current d a (some t) = some (recovery_execution d t a)

abbrev pub joined_open : DispatchRow → Db → Option AttemptRow → Option RecoveryExecution
joined_open d db none = none
joined_open d db (some a) =
    joined_current d a
      (find (λ t. t.task_id =ᵗ a.task_id && t.current_attempt == a.attempt_number) db.tasks)

unfoldable pub open_execution_of : DispatchRow → Db → Option RecoveryExecution
open_execution_of d db =
    joined_open d db
      (find (λ a. a.attempt_id =ᵗ d.attempt_id && not (is_some a.ended_at)) db.attempts)

-- `b.attempt_id IS NULL` of the LEFT JOIN with the budgets, and the other tests.
unfoldable pub is_unbudgeted : Db → DispatchRow → RecoveryExecution → Bool
is_unbudgeted db d x =
    is_send_confirmed d.stage
    && is_executing x.task_state
    && not (exists_row (λ b. b.attempt_id =ᵗ x.attempt_id) db.budgets)

-- ListOpenConfirmedWithoutBudget
unfoldable pub list_open_confirmed_without_budget : Db → List RecoveryExecution
list_open_confirmed_without_budget db =
    order_by (λ x. x.operation_id)
      (executions_of (λ d. open_execution_of d db) (is_unbudgeted db) db.dispatches)
