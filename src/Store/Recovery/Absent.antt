-- ===== src/Store/Recovery/Absent.antt =====
-- What RecordRecoveryAbsent of internal/store/recovery_transactions.go has done when it returns.
use ai_supervisor.Base.{
  ◌≡◌, ap, ◌∙◌, true, false, ◌&&◌, not, some, [], ok, is_some, guard->>-eq-ok, else_branch, arith,
}
use ai_supervisor.Base.Text.{◌=ᵗ◌}
use ai_supervisor.Base.Text.{Text}
use ai_supervisor.Base.Table.{find}
use ai_supervisor.Workflow.{failed}
use ai_supervisor.Store.Schema.{
  Time, Codec, Surroundings, TaskRow, AttemptRow, SessionRow, Db, quarantined,
}
use ai_supervisor.Store.Send.Unknown.Escalation.{IsKeyed}
use ai_supervisor.Store.Recovery.{
  RecoveryExecution, PostSendObservation, terminal_disposition, new_state, session_absent,
  stale_execution_generation,
}
use ai_supervisor.Store.Send.Budget.{is_executing}
use ai_supervisor.Store.Recovery.Observe.{is_settled, is_pending, record_recovery_absent}
use ai_supervisor.Store.Recovery.Settled.{settled_attempt, settled_session, sees_end}
use ai_supervisor.Store.Recovery.Written.{IsWritten, observe_post_send-IsWritten}

-- What RecordRecoveryAbsent has left when it returns.
pub record IsAbsent (x : RecoveryExecution) (at : Time) (db later : Db) : Type 0 where
  pub executing : is_executing x.task_state ≡ true
  pub task : TaskRow
  pub leaves_task : find (λ t. t.task_id =ᵗ x.task_id) later.tasks ≡ some task
  pub fails : task.state ≡ failed
  pub attempt : AttemptRow
  pub had_attempt : find (λ a. a.attempt_id =ᵗ x.attempt_id) db.attempts ≡ some attempt
  pub ends :
      find (λ a. a.attempt_id =ᵗ x.attempt_id) later.attempts
      ≡ some (record attempt {
        ended_at = some at;
        recovery_disposition = some session_absent;
        quarantine_state = quarantined;
      })
  pub session : SessionRow
  pub had_session : find (λ w. w.pair_id =ᵗ x.pair_id) db.sessions ≡ some session
  pub isolates :
      find (λ w. w.pair_id =ᵗ x.pair_id) later.sessions
      ≡ some (record session { quarantine_state = quarantined; updated_at = at })

abbrev absence : RecoveryExecution → PostSendObservation
absence x = record {
  session_id = x.session_id;
  generation = [];
  activity = [];
  terminated = false;
  absent = true;
  handoff_available = false;
}

absence-IsAbsent :
    (x : RecoveryExecution) (at : Time) (db later : Db)
    → IsWritten x (absence x) at db later
    → IsAbsent x at db later
unfolding is_settled new_state terminal_disposition settled_attempt settled_session sees_end ◌=ᵗ◌
    session_absent stale_execution_generation
absence-IsAbsent x at db later h =
    let open_case : (is_some x.disposition && not (is_pending x) && not true) ≡ false =
      ground arith in
    record {
      executing = h.executing;
      task = h.task;
      leaves_task = h.leaves_task;
      fails = h.in_state ∙ else_branch _ _ _ open_case;
      attempt = h.attempt;
      had_attempt = h.had_attempt;
      ends = h.leaves_attempt ∙ ap some (else_branch _ _ _ open_case);
      session = h.session;
      had_session = h.had_session;
      isolates = h.leaves_session ∙ ap some (else_branch _ _ _ open_case);
    }

-- If RecordRecoveryAbsent returns on tables with unique keys, then the task, which was DISPATCHED or
-- RUNNING, is FAILED; the attempt is ended with the disposition SESSION_ABSENT and quarantined, its
-- other columns as they were; and the pair's session is quarantined.
pub record_recovery_absent-IsAbsent :
    (c : Codec) (s : Surroundings) (expected : RecoveryExecution) (actor : Text) (at : Time)
    (db : Db) {later : Db}
    → IsKeyed db
    → record_recovery_absent c s expected actor at db ≡ ok later
    → IsAbsent expected at db later
unfolding record_recovery_absent
record_recovery_absent-IsAbsent c s expected actor at db {later} keyed e =
    absence-IsAbsent expected at db later (
      observe_post_send-IsWritten c s expected (absence expected) actor [] at db keyed
        (guard->>-eq-ok _ _ _ e).1)
