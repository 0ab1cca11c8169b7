-- ===== src/Store/Recovery.antt =====
-- internal/store/recovery_transactions.go: what is recorded of an execution whose send is confirmed, by
-- one fresh observation of its session.
pub mod Observe
pub mod Execution
pub mod Settled
pub mod Written
pub mod Verdict
pub mod Observed
pub mod Absent
pub mod Snapshot
pub mod Current
pub mod Tests
use ai_supervisor.Base.{
  ℕ, ◌+◌, Bool, true, false, ◌&&◌, ◌||◌, not, Option, none, some, List, [], ◌∷◌, ok, ◌>>=◌, ◌>>◌,
  guard, or_fail, ltb, ◌==◌, if◌then◌else◌, is_some,
}
use ai_supervisor.Base.Text.{Text, codes, ◌=ᵗ◌, is_empty, has_text}
use ai_supervisor.Base.Table.{find, exists_row, count, update}
use ai_supervisor.Workflow.{TaskState, dispatched, running, failed, ◌=ˢ◌, state_name}
use ai_supervisor.Store.Schema.{
  Time, or_now, Outcome, Codec, Surroundings, Detail, AuditEvent, TaskRow, AttemptRow, SessionRow,
  DispatchRow, DispatchStage, dispatch_bound, send_requested, send_confirmed, is_send_confirmed, Db,
  quarantined, terminated, is_running_attempt_stop, system_error, state_conflict,
  attempt_lineage_mismatch,
}
use ai_supervisor.Store.Audit.{append_audit_event_tx}
use ai_supervisor.Store.Send.{Lineage, lineage_event, dispatch_by_id, audit_task_state_transition}
use ai_supervisor.Store.Send.Holds.{recovery_pending, same_text}

-- RecoveryExecution, with the state and the stage that the columns hold.
pub record RecoveryExecution : Type 0 where
  pub operation_id : Text
  pub pair_id : Text
  pub task_id : Text
  pub contract_id : Text
  pub attempt_id : Text
  pub session_id : Text
  pub generation : Text
  pub task_state : TaskState
  pub dispatch_stage : DispatchStage
  pub disposition : Option Text

-- PostSendObservation
pub record PostSendObservation : Type 0 where
  pub session_id : Text
  pub generation : Text
  pub activity : Text
  pub terminated : Bool
  pub absent : Bool
  pub handoff_available : Bool

abbrev pub stage_name : DispatchStage → Text
stage_name dispatch_bound = codes "DISPATCH_BOUND"
stage_name send_requested = codes "SEND_REQUESTED"
stage_name send_confirmed = codes "SEND_CONFIRMED"

unfoldable pub session_absent : Text
session_absent = codes "SESSION_ABSENT"

unfoldable pub stale_execution_generation : Text
stale_execution_generation = codes "STALE_EXECUTION_GENERATION"

unfoldable pub worker_termination_unknown : Text
worker_termination_unknown = codes "WORKER_TERMINATION_UNKNOWN"

unfoldable pub missed_active_window : Text
missed_active_window = codes "MISSED_ACTIVE_WINDOW"

-- sameRecoveryExecution
unfoldable pub same_recovery_execution : RecoveryExecution → RecoveryExecution → Bool
same_recovery_execution a b =
    a.operation_id =ᵗ b.operation_id
    && a.pair_id =ᵗ b.pair_id
    && a.task_id =ᵗ b.task_id
    && a.contract_id =ᵗ b.contract_id
    && a.attempt_id =ᵗ b.attempt_id
    && a.session_id =ᵗ b.session_id
    && a.generation =ᵗ b.generation
    && a.task_state =ˢ b.task_state
    && stage_name a.dispatch_stage =ᵗ stage_name b.dispatch_stage
    && same_text a.disposition b.disposition

unfoldable pub recovery_execution : DispatchRow → TaskRow → AttemptRow → RecoveryExecution
recovery_execution d t a = record {
  operation_id = d.operation_id;
  pair_id = d.pair_id;
  task_id = d.task_id;
  contract_id = a.contract_id;
  attempt_id = d.attempt_id;
  session_id = d.session_id;
  generation = d.terminal_generation;
  task_state = t.state;
  dispatch_stage = d.stage;
  disposition = a.recovery_disposition;
}

-- The open current attempt of a dispatch: the JOIN of the three tables.
unfoldable pub is_executed_by : DispatchRow → TaskRow → AttemptRow → Bool
is_executed_by d t a =
    a.attempt_id =ᵗ d.attempt_id
    && a.task_id =ᵗ t.task_id
    && a.attempt_number == t.current_attempt
    && not (is_some a.ended_at)

-- The query for the execution of a dispatch; `unresolved` asks for `d.resolution_state IS NULL`.
unfoldable pub current_execution : Bool → Text → Db → Outcome RecoveryExecution
current_execution unresolved operation_id db = do
  d ← or_fail (dispatch_by_id operation_id db) system_error
  guard (not (unresolved && is_some d.resolution_state)) system_error
  t ← or_fail (find (λ t. t.task_id =ᵗ d.task_id) db.tasks) system_error
  a ← or_fail (find (is_executed_by d t) db.attempts) system_error
  ok (recovery_execution d t a)

-- guardStopOwnedExecutionTx
unfoldable pub is_stop_owned : RecoveryExecution → Db → Bool
is_stop_owned x db =
    exists_row
      (λ o.
        is_running_attempt_stop o.purpose
        && o.pair_id =ᵗ x.pair_id
        && has_text o.task_id x.task_id
        && has_text o.contract_id x.contract_id
        && has_text o.attempt_id x.attempt_id
        && o.session_id =ᵗ x.session_id
        && o.terminal_generation =ᵗ x.generation)
      db.stops

unfoldable pub execution_lineage : RecoveryExecution → Lineage
execution_lineage x = record {
  pair_id = x.pair_id;
  task_id = x.task_id;
  contract_id = x.contract_id;
  attempt_id = x.attempt_id;
}

-- The disposition that ends the attempt, if the observation does.
unfoldable pub terminal_disposition : RecoveryExecution → PostSendObservation → Option Text
terminal_disposition x o =
    if o.absent
    then some session_absent
    else if not (o.generation =ᵗ x.generation)
    then some stale_execution_generation
    else if o.terminated
    then some worker_termination_unknown
    else if x.task_state =ˢ dispatched && o.activity =ᵗ codes "idle" && not o.handoff_available
    then some missed_active_window
    else none

-- The activities that keep the attempt open.
unfoldable pub is_known_activity : Text → Bool
is_known_activity activity =
    activity =ᵗ codes "waiting_input"
    || activity =ᵗ codes "blocked"
    || activity =ᵗ codes "active"
    || activity =ᵗ codes "idle"
    || activity =ᵗ codes "exited"

-- The activities that show a dispatched task to run.
unfoldable pub shows_work : PostSendObservation → Bool
shows_work o =
    o.activity =ᵗ codes "active"
    || o.activity =ᵗ codes "waiting_input"
    || o.activity =ᵗ codes "blocked"
    || o.activity =ᵗ codes "idle" && o.handoff_available

unfoldable pub new_state : RecoveryExecution → PostSendObservation → TaskState
new_state x o =
    if is_some (terminal_disposition x o)
    then failed
    else if x.task_state =ˢ dispatched && shows_work o
    then running
    else x.task_state

-- An idle worker of a dispatched task, whose activity no observation has seen.
unfoldable pub is_missed_window : RecoveryExecution → PostSendObservation → Bool
is_missed_window x o =
    x.task_state =ˢ dispatched
    && o.activity =ᵗ codes "idle"
    && o.generation =ᵗ x.generation
    && not o.absent
    && not o.terminated

abbrev or_else : Option Text → Option Text → Option Text
or_else none b = b
or_else (some a) b = some a

unfoldable pub new_disposition : RecoveryExecution → PostSendObservation → Option Text
new_disposition x o =
    if is_missed_window x o
    then some missed_active_window
    else or_else (terminal_disposition x o) (
        if o.activity =ᵗ codes "waiting_input"
        then some (codes "AO_WAITING_INPUT_OBSERVED")
        else if o.activity =ᵗ codes "blocked"
        then some (codes "AO_BLOCKED_DECISION")
        else none)

abbrev pub detail_of : Option Text → Detail
detail_of none = Detail.nil
detail_of (some t) = Detail.text t

abbrev pub requires_isolation : Text → Bool
requires_isolation disposition =
    disposition =ᵗ session_absent || disposition =ᵗ stale_execution_generation

-- The open attempt of the execution, with the disposition that was read.
unfoldable pub is_observed_attempt : RecoveryExecution → AttemptRow → Bool
is_observed_attempt x a =
    a.attempt_id =ᵗ x.attempt_id
    && a.task_id =ᵗ x.task_id
    && a.contract_id =ᵗ x.contract_id
    && has_text a.session_id x.session_id
    && has_text a.terminal_generation x.generation
    && not (is_some a.ended_at)
    && same_text a.recovery_disposition x.disposition

unfoldable pub is_observed_session : RecoveryExecution → Text → SessionRow → Bool
is_observed_session x generation w =
    w.pair_id =ᵗ x.pair_id && w.session_id =ᵗ x.session_id && w.terminal_generation =ᵗ generation

-- A block under an `if` of the code.
unfoldable pub when : Bool → (Db → Outcome Db) → Db → Outcome Db
when true f db = f db
when false f db = ok db

-- The update of the task, whose current attempt is the execution's.
unfoldable pub is_observed_task : RecoveryExecution → Db → TaskRow → Bool
is_observed_task x db t =
    t.task_id =ᵗ x.task_id
    && t.pair_id =ᵗ x.pair_id
    && t.state =ˢ x.task_state
    && exists_row (λ a. a.attempt_id =ᵗ x.attempt_id && a.attempt_number == t.current_attempt)
        db.attempts

unfoldable pub move_observed : RecoveryExecution → TaskState → Time → Db → Outcome Db
move_observed x to at db = do
  let cas = is_observed_task x db
  guard (ltb 0 (count cas db.tasks)) state_conflict
  ok (record db { tasks = update cas (λ t. record t { state = to; updated_at = at }) db.tasks })

-- The update that ends the attempt.
unfoldable pub end_observed : RecoveryExecution → Text → Time → Db → Outcome Db
end_observed x disposition at db = do
  let cas = is_observed_attempt x
  guard (ltb 0 (count cas db.attempts)) state_conflict
  ok (record db {
    attempts =
        update cas
          (λ a. record a {
            ended_at = some at;
            recovery_disposition = some disposition;
            quarantine_state =
                if requires_isolation disposition then quarantined else a.quarantine_state;
          })
          db.attempts;
  })

-- The update of the disposition of an attempt that stays open.
unfoldable pub hold_observed : RecoveryExecution → Option Text → Db → Outcome Db
hold_observed x disposition db = do
  let cas = is_observed_attempt x
  guard (ltb 0 (count cas db.attempts)) state_conflict
  ok (record db {
    attempts = update cas (λ a. record a { recovery_disposition = disposition }) db.attempts;
  })

-- The updates of the session: its quarantine, and its end.
unfoldable pub isolate_observed : RecoveryExecution → Text → Time → Db → Outcome Db
isolate_observed x generation at db = do
  let cas = is_observed_session x generation
  guard (ltb 0 (count cas db.sessions)) state_conflict
  ok (record db {
    sessions =
        update cas (λ w. record w { quarantine_state = quarantined; updated_at = at }) db.sessions;
  })

unfoldable pub terminate_observed : RecoveryExecution → Time → Db → Outcome Db
terminate_observed x at db = do
  let cas = is_observed_session x x.generation
  guard (ltb 0 (count cas db.sessions)) state_conflict
  ok (record db {
    sessions = update cas (λ w. record w { status = terminated; updated_at = at }) db.sessions;
  })

-- The attempt and its session after a terminal observation.
unfoldable pub close_observed :
    RecoveryExecution → PostSendObservation → Text → Text → Time → Db → Outcome Db
close_observed x o runtime_generation disposition at db = do
  ended ← end_observed x disposition at db
  isolated ← when (requires_isolation disposition) (isolate_observed x runtime_generation at) ended
  when (o.terminated && o.generation =ᵗ x.generation && not o.absent) (terminate_observed x at)
      isolated
