-- ===== src/Store/Send/Unknown.antt =====
-- internal/store/dispatch_transactions.go: RecordUnknownDelivery, where a send may have been delivered.
pub mod Closing
pub mod Escalation
use ai_supervisor.Base.{◌&&◌, not, some, [], ◌∷◌, ok, ◌>>=◌, ◌>>◌, guard, or_fail, ◌==◌, is_some}
use ai_supervisor.Base.Text.{Text, codes, ◌=ᵗ◌, is_empty}
use ai_supervisor.Base.Table.{find, exists_row, count, update}
use ai_supervisor.Workflow.{dispatched, failed, human_required, ◌=ˢ◌, transition}
use ai_supervisor.Store.Schema.{
  Time, or_now, Outcome, Codec, Surroundings, Detail, TaskRow, AttemptRow, SessionRow, DispatchRow,
  Db, quarantined, is_send_requested, invalid_argument, operation_not_found, state_conflict,
  attempt_lineage_mismatch, system_error, transition_rejected,
}
use ai_supervisor.Store.Audit.{append_audit_event_tx}
use ai_supervisor.Store.Send.{
  lineage_event, lineage_of, dispatch_by_id, attempt_by_id, awaits_confirmation,
  audit_task_state_transition, audit_uncertain_delivery_quarantine, delivery_outcome_unknown,
  uncertain_delivery_crash,
}

-- The updates that end RecordUnknownDelivery, each of exactly one row: the task fails and is
-- escalated, the attempt is closed and quarantined, the dispatch resolved, the session quarantined.
unfoldable pub close_unknown : DispatchRow → Time → Db → Outcome Db
close_unknown d at db = do
  let fail_cas = λ (t : TaskRow). t.task_id =ᵗ d.task_id && t.state =ˢ dispatched
  guard (count fail_cas db.tasks == 1) state_conflict
  let tasks1 = update fail_cas (λ t. record t { state = failed; updated_at = at }) db.tasks
  let escalate_cas = λ (t : TaskRow). t.task_id =ᵗ d.task_id && t.state =ˢ failed
  guard (count escalate_cas tasks1 == 1) state_conflict
  let tasks2 =
      update escalate_cas (λ t. record t { state = human_required; updated_at = at }) tasks1
  let close_cas = λ (r : AttemptRow).
      r.attempt_id =ᵗ d.attempt_id
      && r.task_id =ᵗ d.task_id
      && not (is_some r.ended_at)
      && exists_row (λ t. t.task_id =ᵗ d.task_id && t.current_attempt == r.attempt_number) tasks2
  guard (count close_cas db.attempts == 1) attempt_lineage_mismatch
  guard (count (awaits_confirmation d.operation_id) db.dispatches == 1) state_conflict
  let session_cas = λ (w : SessionRow).
      w.pair_id =ᵗ d.pair_id
      && w.session_id =ᵗ d.session_id
      && w.terminal_generation =ᵗ d.terminal_generation
  guard (count session_cas db.sessions == 1) state_conflict
  ok (record db {
    tasks = tasks2;
    attempts =
        update close_cas
          (λ r. record r {
            ended_at = some at;
            recovery_disposition = some uncertain_delivery_crash;
            quarantine_state = quarantined;
          })
          db.attempts;
    dispatches =
        update (awaits_confirmation d.operation_id)
          (λ r. record r { resolution_state = some delivery_outcome_unknown }) db.dispatches;
    sessions =
        update session_cas (λ w. record w { quarantine_state = quarantined; updated_at = at })
          db.sessions;
  })

module _ (c : Codec) (s : Surroundings) where
  -- RecordUnknownDelivery
  unfoldable pub record_unknown_delivery : Text → Text → Time → Db → Outcome Db
  record_unknown_delivery operation_id actor at₀ db = do
    guard (not (is_empty actor)) invalid_argument
    let at = or_now s.now at₀
    event_id ← or_fail (s.new_event_id 0) system_error
    escalation_id ← or_fail (s.new_event_id 1) system_error
    d ← or_fail (dispatch_by_id operation_id db) operation_not_found
    a ← or_fail (attempt_by_id d.attempt_id db) operation_not_found
    guard (is_send_requested d.stage) state_conflict
    task ← or_fail (find (λ r. r.task_id =ᵗ d.task_id) db.tasks) system_error
    guard (task.state =ˢ dispatched) state_conflict
    guard (not (is_some (transition dispatched failed))) (transition_rejected dispatched failed)
    guard (not (is_some (transition failed human_required)))
        (transition_rejected failed human_required)
    failure ←
        append_audit_event_tx c s.now
          (lineage_event event_id audit_task_state_transition at (lineage_of d a) actor (
            (codes "dispatch_operation_id", Detail.text operation_id)
            ∷ (codes "from_state", Detail.text (codes "DISPATCHED"))
            ∷ (codes "to_state", Detail.text (codes "FAILED"))
            ∷ (codes "failure_reason", Detail.text uncertain_delivery_crash)
            ∷ (codes "recovery_disposition", Detail.text uncertain_delivery_crash)
            ∷ (codes "resolution_state", Detail.text delivery_outcome_unknown)
            ∷ []))
          db
    quarantine_id ← or_fail (s.new_event_id 2) system_error
    imposed ←
        append_audit_event_tx c s.now
          (lineage_event quarantine_id audit_uncertain_delivery_quarantine at (lineage_of d a) actor
            ((codes "dispatch_operation_id", Detail.text operation_id)
              ∷ (codes "resolution_state", Detail.text delivery_outcome_unknown)
              ∷ (codes "session_id", Detail.text d.session_id)
              ∷ (codes "terminal_generation", Detail.text d.terminal_generation)
              ∷ []))
          failure.0
    escalation ←
        append_audit_event_tx c s.now
          (lineage_event escalation_id audit_task_state_transition at (lineage_of d a) actor (
            (codes "dispatch_operation_id", Detail.text operation_id)
            ∷ (codes "from_state", Detail.text (codes "FAILED"))
            ∷ (codes "to_state", Detail.text (codes "HUMAN_REQUIRED"))
            ∷ (codes "reason", Detail.text uncertain_delivery_crash)
            ∷ []))
          imposed.0
    close_unknown d at escalation.0
