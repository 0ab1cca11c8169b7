-- ===== src/Store/Recovery/Observe.antt =====
-- internal/store/recovery_transactions.go: RecordRecoverySweepEvent, RecordPostSendOutage, ObservePostSend
-- and RecordRecoveryAbsent.
use ai_supervisor.Base.{
  ℕ, ◌+◌, Bool, true, false, ◌&&◌, ◌||◌, not, Option, none, some, List, [], ◌∷◌, ok, ◌>>=◌, ◌>>◌,
  guard, or_fail, ltb, ◌==◌, if◌then◌else◌, is_some,
}
use ai_supervisor.Base.Text.{Text, codes, ◌=ᵗ◌, is_empty, has_text}
use ai_supervisor.Base.Table.{find, exists_row, count, update}
use ai_supervisor.Workflow.{◌=ˢ◌, state_name}
use ai_supervisor.Store.Schema.{
  Time, or_now, Outcome, Codec, Surroundings, Detail, AttemptRow, Db, is_send_confirmed,
  system_error, state_conflict, attempt_lineage_mismatch,
}
use ai_supervisor.Store.Audit.{append_audit_event_tx}
use ai_supervisor.Store.Send.{Lineage, lineage_event, audit_task_state_transition}
use ai_supervisor.Store.Send.Holds.{recovery_pending}
use ai_supervisor.Store.Recovery.{
  RecoveryExecution, PostSendObservation, stage_name, missed_active_window, same_recovery_execution,
  current_execution, is_stop_owned, execution_lineage, terminal_disposition, is_known_activity,
  new_state, is_missed_window, new_disposition, detail_of, when, move_observed, hold_observed,
  close_observed,
}
use ai_supervisor.Store.Send.Budget.{is_executing}

-- `disposition.Valid && disposition.String == "RECOVERY_PENDING"`
unfoldable pub is_pending : RecoveryExecution → Bool
is_pending x = has_text x.disposition recovery_pending

-- The row that the update of RecordPostSendOutage is for.
unfoldable pub is_unheld_attempt : RecoveryExecution → Db → AttemptRow → Bool
is_unheld_attempt x db a =
    a.attempt_id =ᵗ x.attempt_id
    && a.task_id =ᵗ x.task_id
    && a.contract_id =ᵗ x.contract_id
    && has_text a.session_id x.session_id
    && has_text a.terminal_generation x.generation
    && not (is_some a.ended_at)
    && not (is_some a.recovery_disposition)
    && exists_row (λ t. t.task_id =ᵗ x.task_id && t.current_attempt == a.attempt_number) db.tasks

unfoldable pub hold_pending : RecoveryExecution → Db → Outcome Db
hold_pending x db = do
  let cas = is_unheld_attempt x db
  guard (ltb 0 (count cas db.attempts)) state_conflict
  ok (record db {
    attempts =
        update cas (λ a. record a { recovery_disposition = some recovery_pending }) db.attempts;
  })

-- The attempt after an observation: closed, or with its new disposition.
unfoldable pub settle_attempt :
    RecoveryExecution → PostSendObservation → Text → Option Text → Time → Db → Outcome Db
settle_attempt x o runtime_generation (some disposition) at db =
    close_observed x o runtime_generation disposition at db
settle_attempt x o runtime_generation none at db =
    when (is_pending x || is_some (new_disposition x o)) (hold_observed x (new_disposition x o)) db

-- An observation that leaves an earlier hold as it is.
unfoldable pub is_settled : RecoveryExecution → PostSendObservation → Bool
is_settled x o =
    is_some x.disposition && not (is_pending x) && not (is_some (terminal_disposition x o))

module _ (c : Codec) (s : Surroundings) where
  -- newAuditEventID, the k-th call of the operation, and appendAuditEventTx.
  unfoldable pub record_event :
      ℕ → Text → Time → Lineage → Text → List (Text × Detail) → Db → Outcome Db
  record_event k event_type at l actor details db = do
    event_id ← or_fail (s.new_event_id k) system_error
    audited ←
        append_audit_event_tx c s.now (lineage_event event_id event_type at l actor details) db
    ok audited.0

  -- RecordRecoverySweepEvent
  unfoldable pub record_recovery_sweep_event : Text → Text → Text → Time → Db → Outcome Db
  record_recovery_sweep_event invocation_id actor event at db = do
    guard
        (not (is_empty invocation_id || is_empty actor)
          && (event =ᵗ codes "STARTUP_RECOVERY_SWEEP_STARTED"
              || event =ᵗ codes "STARTUP_RECOVERY_SWEEP_COMPLETED"))
        state_conflict
    record_event 0 event (or_now s.now at)
        (record { pair_id = []; task_id = []; contract_id = []; attempt_id = [] }) actor
        ((codes "invocation_id", Detail.text invocation_id)
          ∷ (codes "classification_only", Detail.flag true)
          ∷ [])
        db

  -- The update and the event of RecordPostSendOutage.
  unfoldable pub impose_pending : RecoveryExecution → Text → Text → Text → Time → Db → Outcome Db
  impose_pending x actor classification invocation at db = do
    held ← hold_pending x db
    record_event 0 (codes "POST_SEND_RECOVERY_PENDING") at (execution_lineage x) actor
        ((codes "dispatch_operation_id", Detail.text x.operation_id)
          ∷ (codes "dispatch_stage", Detail.text (stage_name x.dispatch_stage))
          ∷ (codes "session_id", Detail.text x.session_id)
          ∷ (codes "generation", Detail.text x.generation)
          ∷ (codes "old_task_state", Detail.text (state_name x.task_state))
          ∷ (codes "new_task_state", Detail.text (state_name x.task_state))
          ∷ (codes "old_disposition", Detail.nil)
          ∷ (codes "new_disposition", Detail.text recovery_pending)
          ∷ (codes "observation_time", Detail.text (c.format_time at))
          ∷ (codes "observation_source", Detail.text (codes "GetWorkerStatus"))
          ∷ (codes "error_classification", Detail.text classification)
          ∷ (codes "recovery_invocation", Detail.text invocation)
          ∷ [])
        held

  -- RecordPostSendOutage
  unfoldable pub record_post_send_outage :
      RecoveryExecution → Text → Text → Text → Time → Db → Outcome Db
  record_post_send_outage expected actor classification invocation at db = do
    guard (not (is_empty expected.operation_id || is_empty actor || at == 0)) state_conflict
    x ← current_execution false expected.operation_id db
    guard
        (same_recovery_execution x expected
          && is_send_confirmed x.dispatch_stage
          && is_executing x.task_state)
        state_conflict
    guard (not (is_stop_owned x db)) state_conflict
    w ← or_fail (find (λ r. r.pair_id =ᵗ x.pair_id) db.sessions) system_error
    guard (w.session_id =ᵗ x.session_id && w.terminal_generation =ᵗ x.generation)
        attempt_lineage_mismatch
    guard (not (is_some x.disposition) || is_pending x) state_conflict
    when (not (is_some x.disposition)) (impose_pending x actor classification invocation at) db

  -- The events of ObservePostSend, each with the number of its identity.
  unfoldable pub record_recovered :
      RecoveryExecution → PostSendObservation → Text → Text → Time → Db → Outcome Db
  record_recovered x o actor invocation at db =
      record_event 0 (codes "POST_SEND_STATUS_RECOVERED") at (execution_lineage x) actor
        ((codes "dispatch_operation_id", Detail.text x.operation_id)
          ∷ (codes "dispatch_stage", Detail.text (stage_name x.dispatch_stage))
          ∷ (codes "session_id", Detail.text x.session_id)
          ∷ (codes "generation", Detail.text x.generation)
          ∷ (codes "old_task_state", Detail.text (state_name x.task_state))
          ∷ (codes "new_task_state", Detail.text (state_name (new_state x o)))
          ∷ (codes "old_disposition", Detail.text recovery_pending)
          ∷ (codes "new_disposition", detail_of (new_disposition x o))
          ∷ (codes "observation_time", Detail.text (c.format_time at))
          ∷ (codes "observation_source", Detail.text (codes "GetWorkerStatus"))
          ∷ (codes "observed_activity", Detail.text o.activity)
          ∷ (codes "recovery_invocation", Detail.text invocation)
          ∷ [])
        db

  unfoldable pub record_moved :
      ℕ → RecoveryExecution → PostSendObservation → Text → Time → Db → Outcome Db
  record_moved k x o actor at db = do
    d ← move_observed x (new_state x o) at db
    record_event k audit_task_state_transition at (execution_lineage x) actor
        ((codes "from_state", Detail.text (state_name x.task_state))
          ∷ (codes "to_state", Detail.text (state_name (new_state x o)))
          ∷ (codes "recovery_disposition", detail_of (new_disposition x o))
          ∷ (codes "dispatch_operation_id", Detail.text x.operation_id)
          ∷ [])
        d

  unfoldable pub record_blocked : ℕ → RecoveryExecution → Text → Time → Db → Outcome Db
  record_blocked k x actor at db =
      record_event k (codes "WORKER_BLOCKED_ON_DECISION") at (execution_lineage x) actor
        ((codes "dispatch_operation_id", Detail.text x.operation_id)
          ∷ (codes "observed_activity", Detail.text (codes "blocked"))
          ∷ [])
        db

  unfoldable pub record_missed :
      ℕ → RecoveryExecution → PostSendObservation → Text → Time → Db → Outcome Db
  record_missed k x o actor at db =
      record_event k (codes "MISSED_ACTIVE_WINDOW_HANDOFF_DOWNSTREAM") at (execution_lineage x)
        actor
        ((codes "dispatch_operation_id", Detail.text x.operation_id)
          ∷ (codes "handoff_available", Detail.flag o.handoff_available)
          ∷ (codes "recovery_disposition", Detail.text missed_active_window)
          ∷ [])
        db

  -- ObservePostSend past its guards.
  unfoldable pub commit_observation :
      RecoveryExecution → PostSendObservation → Text → Text → Text → Time → Db → Outcome Db
  commit_observation x o runtime_generation actor invocation at db = do
    let moves = not (new_state x o =ˢ x.task_state)
    let blocks = o.activity =ᵗ codes "blocked" && not (is_some (terminal_disposition x o))
    let first = if is_pending x then 1 else 0
    let second = first + (if moves then 1 else 0)
    recovered ← when (is_pending x) (record_recovered x o actor invocation at) db
    moved ← when moves (record_moved first x o actor at) recovered
    settled ← settle_attempt x o runtime_generation (terminal_disposition x o) at moved
    noted ← when blocks (record_blocked second x actor at) settled
    when (is_missed_window x o) (record_missed (second + (if blocks then 1 else 0)) x o actor at)
        noted

  -- ObservePostSend
  unfoldable pub observe_post_send :
      RecoveryExecution → PostSendObservation → Text → Text → Time → Db → Outcome Db
  observe_post_send expected o actor invocation at db = do
    guard
        (not (is_empty actor || at == 0)
          && is_send_confirmed expected.dispatch_stage
          && o.session_id =ᵗ expected.session_id)
        state_conflict
    x ← current_execution true expected.operation_id db
    guard (same_recovery_execution x expected && is_executing x.task_state) state_conflict
    guard (not (is_stop_owned x db)) state_conflict
    w ← or_fail (find (λ r. r.pair_id =ᵗ x.pair_id) db.sessions) system_error
    guard
        (w.session_id =ᵗ x.session_id
          && (w.terminal_generation =ᵗ x.generation || not (o.generation =ᵗ x.generation)))
        attempt_lineage_mismatch
    guard (is_some (terminal_disposition x o) || is_known_activity o.activity) state_conflict
    when (not (is_settled x o)) (commit_observation x o w.terminal_generation actor invocation at)
        db

  -- RecordRecoveryAbsent
  unfoldable pub record_recovery_absent : RecoveryExecution → Text → Time → Db → Outcome Db
  record_recovery_absent expected actor at db = do
    guard (is_send_confirmed expected.dispatch_stage) state_conflict
    observe_post_send expected
        (record {
          session_id = expected.session_id;
          generation = [];
          activity = [];
          terminated = false;
          absent = true;
          handoff_available = false;
        })
        actor [] at db
