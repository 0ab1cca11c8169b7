-- ===== src/Store/Closure.antt =====
-- internal/store/atomic_transitions.go: the transactions that move a task and close its current
-- attempt together.
use ai_supervisor.Base.{
  Bool, false, ◌&&◌, ◌||◌, not, some, List, [], ◌∷◌, ok, ◌>>=◌, ◌>>◌, guard, or_fail, ◌==◌,
  if◌then◌else◌, is_some,
}
use ai_supervisor.Base.Text.{Text, codes, ◌=ᵗ◌, is_blank, has_text}
use ai_supervisor.Base.Table.{find, exists_row, count, update}
use ai_supervisor.Workflow.{
  TaskState, dispatched, running, blocked, failed, human_required, ◌=ˢ◌, state_name, transition,
}
use ai_supervisor.Store.Schema.{
  Time, Outcome, Codec, Surroundings, Detail, TaskRow, AttemptRow, SessionRow, Db, quarantined,
  invalid_operation_transition, transition_rejected, invalid_argument, system_error,
  attempt_lineage_mismatch, state_conflict,
}
use ai_supervisor.Store.Audit.{append_audit_event_tx}
use ai_supervisor.Store.Dispatch.{supervisor_actor}
use ai_supervisor.Store.Send.{Lineage, lineage_event, audit_task_state_transition}

-- domain.RecoveryAOBlockedEscalated and domain.AuditWorkerBlockedEscalated
unfoldable pub recovery_ao_blocked_escalated : Text
recovery_ao_blocked_escalated = codes "AO_BLOCKED_ESCALATED"

unfoldable pub audit_worker_blocked_escalated : Text
audit_worker_blocked_escalated = codes "WORKER_BLOCKED_ESCALATED"

-- currentOpenAttemptLineage: the open attempt with the task's current number.
unfoldable pub is_current_open : Text → Text → List TaskRow → AttemptRow → Bool
is_current_open task_id attempt_id tasks a =
    a.attempt_id =ᵗ attempt_id
    && a.task_id =ᵗ task_id
    && not (is_some a.ended_at)
    && exists_row (λ t. t.task_id =ᵗ task_id && t.current_attempt == a.attempt_number) tasks

unfoldable pub current_open_attempt_lineage : Text → Text → Db → Outcome Lineage
current_open_attempt_lineage task_id attempt_id db = do
  t ← or_fail (find (λ r. r.task_id =ᵗ task_id) db.tasks) attempt_lineage_mismatch
  a ←
      or_fail (find (is_current_open task_id attempt_id db.tasks) db.attempts)
        attempt_lineage_mismatch
  ok (record {
    pair_id = t.pair_id;
    task_id = task_id;
    contract_id = a.contract_id;
    attempt_id = attempt_id;
  })

-- The conditional update of one task's state.
unfoldable pub move_task : Text → TaskState → TaskState → Time → Db → Outcome Db
move_task task_id from to now db = do
  let cas = λ (t : TaskRow). t.task_id =ᵗ task_id && t.state =ˢ from
  guard (count cas db.tasks == 1) state_conflict
  ok (record db { tasks = update cas (λ t. record t { state = to; updated_at = now }) db.tasks })

-- The conditional update that ends the attempt, with its quarantine where one is required.
unfoldable pub close_attempt : Text → Text → Text → Bool → Time → Db → Outcome Db
close_attempt task_id attempt_id disposition with_quarantine now db = do
  let cas = is_current_open task_id attempt_id db.tasks
  guard (count cas db.attempts == 1) attempt_lineage_mismatch
  ok (record db {
    attempts =
        update cas
          (λ a. record a {
            ended_at = some now;
            recovery_disposition = some disposition;
            quarantine_state = if with_quarantine then quarantined else a.quarantine_state;
          })
          db.attempts;
  })

-- `requiresDoubleQuarantine`
unfoldable pub requires_double_quarantine : Text → Bool
requires_double_quarantine disposition =
    disposition =ᵗ codes "PRE_SEND_IDENTITY_MISMATCH"
    || disposition =ᵗ codes "STALE_EXECUTION_GENERATION"
    || disposition =ᵗ codes "SESSION_ABSENT"

-- The update of the session that the attempt was bound to.
unfoldable pub quarantine_attempt_session : Text → Text → Text → Time → Db → Outcome Db
quarantine_attempt_session pair_id task_id attempt_id now db = do
  let cas = λ (w : SessionRow).
      w.pair_id =ᵗ pair_id
      && exists_row
          (λ a.
            a.attempt_id =ᵗ attempt_id
            && a.task_id =ᵗ task_id
            && has_text a.session_id w.session_id
            && has_text a.terminal_generation w.terminal_generation)
          db.attempts
  guard (count cas db.sessions == 1) attempt_lineage_mismatch
  ok (record db {
    sessions =
        update cas (λ w. record w { quarantine_state = quarantined; updated_at = now }) db.sessions;
  })

module _ (c : Codec) (s : Surroundings) where
  -- AtomicTerminalTransition
  unfoldable pub atomic_terminal_transition :
      Text → TaskState → TaskState → Text → Text → Text → Db → Outcome Db
  atomic_terminal_transition task_id expected to failure_reason attempt_id disposition db = do
    guard (to =ˢ failed && (expected =ˢ running || expected =ˢ dispatched))
        invalid_operation_transition
    guard (not (is_some (transition expected to))) (transition_rejected expected to)
    guard (not (is_blank disposition)) invalid_argument
    guard (not (is_blank failure_reason)) invalid_argument
    event_id ← or_fail (s.new_event_id 0) system_error
    l ← current_open_attempt_lineage task_id attempt_id db
    moved ← move_task task_id expected to s.now db
    closed ←
        close_attempt task_id attempt_id disposition (requires_double_quarantine disposition) s.now
          moved
    isolated ←
        (if requires_double_quarantine disposition
          then quarantine_attempt_session l.pair_id task_id attempt_id s.now closed
          else ok closed)
    audited ←
        append_audit_event_tx c s.now
          (lineage_event event_id audit_task_state_transition s.now l supervisor_actor (
            (codes "from_state", Detail.text (state_name expected))
            ∷ (codes "to_state", Detail.text (state_name to))
            ∷ (codes "failure_reason", Detail.text failure_reason)
            ∷ (codes "recovery_disposition", Detail.text disposition)
            ∷ []))
          isolated
    ok audited.0

  -- AtomicAttemptClosureTransition
  unfoldable pub atomic_attempt_closure_transition : Text → Text → Text → Db → Outcome Db
  atomic_attempt_closure_transition task_id attempt_id disposition db = do
    guard (disposition =ᵗ recovery_ao_blocked_escalated) invalid_operation_transition
    event_id ← or_fail (s.new_event_id 0) system_error
    l ← current_open_attempt_lineage task_id attempt_id db
    moved ← move_task task_id blocked human_required s.now db
    closed ← close_attempt task_id attempt_id recovery_ao_blocked_escalated false s.now moved
    audited ←
        append_audit_event_tx c s.now
          (lineage_event event_id audit_worker_blocked_escalated s.now l supervisor_actor (
            (codes "from_state", Detail.text (state_name blocked))
            ∷ (codes "to_state", Detail.text (state_name human_required))
            ∷ (codes "recovery_disposition", Detail.text recovery_ao_blocked_escalated)
            ∷ []))
          closed
    ok audited.0
