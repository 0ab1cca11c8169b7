-- ===== src/Store/Recovery/Observed.antt =====
-- What ObservePostSend of internal/store/recovery_transactions.go has done when it returns.
use ai_supervisor.Base.{◌≡◌, sym, subst, true, false, some, ok, ◌⊎◌}
use ai_supervisor.Base.Text.{Text, ◌=ᵗ◌}
use ai_supervisor.Base.Table.{find}
use ai_supervisor.Workflow.{dispatched, running}
use ai_supervisor.Store.Schema.{Time, Codec, Surroundings, TaskRow, AttemptRow, SessionRow, Db}
use ai_supervisor.Store.Send.Unknown.Escalation.{IsKeyed}
use ai_supervisor.Store.Recovery.{
  RecoveryExecution, PostSendObservation, current_execution, is_stop_owned,
}
use ai_supervisor.Store.Recovery.Observe.{observe_post_send}
use ai_supervisor.Store.Recovery.Written.{IsWritten, observe_post_send-IsWritten}
use ai_supervisor.Store.Recovery.Verdict.{Verdict, executing-cases, attempt_after, session_after}
use ai_supervisor.Store.Recovery.Verdict.Cases.{after-Verdict}

-- What an observation that returned has left of the execution's task, attempt and session.
pub record IsObserved (x : RecoveryExecution) (o : PostSendObservation) (at : Time) (db later : Db)
    : Type 0 where
  pub reads : current_execution true x.operation_id db ≡ ok x
  pub executes : (x.task_state ≡ dispatched) ⊎ (x.task_state ≡ running)
  pub unowned : is_stop_owned x db ≡ false
  pub had_attempt : AttemptRow
  pub before_attempt : find (λ a. a.attempt_id =ᵗ x.attempt_id) db.attempts ≡ some had_attempt
  pub held_as : had_attempt.recovery_disposition ≡ x.disposition
  pub had_session : SessionRow
  pub before_session : find (λ w. w.pair_id =ᵗ x.pair_id) db.sessions ≡ some had_session
  pub same_session : had_session.session_id ≡ x.session_id
  pub task : TaskRow
  pub leaves_task : find (λ t. t.task_id =ᵗ x.task_id) later.tasks ≡ some task
  pub attempt : AttemptRow
  pub leaves_attempt : find (λ a. a.attempt_id =ᵗ x.attempt_id) later.attempts ≡ some attempt
  pub session : SessionRow
  pub leaves_session : find (λ w. w.pair_id =ᵗ x.pair_id) later.sessions ≡ some session
  pub verdict : Verdict x o at had_attempt had_session task.state attempt session

written-IsObserved :
    (x : RecoveryExecution) (o : PostSendObservation) (at : Time) (db later : Db)
    → IsWritten x o at db later
    → IsObserved x o at db later
written-IsObserved x o at db later h = record {
  reads = h.reads;
  executes = executing-cases x.task_state h.executing;
  unowned = h.unowned;
  had_attempt = h.attempt;
  before_attempt = h.had_attempt;
  held_as = h.held_as;
  had_session = h.session;
  before_session = h.had_session;
  same_session = h.same_session;
  task = h.task;
  leaves_task = h.leaves_task;
  attempt = attempt_after x o at h.attempt h.session;
  leaves_attempt = h.leaves_attempt;
  session = session_after x o at h.attempt h.session;
  leaves_session = h.leaves_session;
  verdict =
      subst
        (λ s.
          Verdict x o at h.attempt h.session s (attempt_after x o at h.attempt h.session)
            (session_after x o at h.attempt h.session))
        (sym h.in_state) (after-Verdict x o at h.attempt h.session h.held_as h.executing h.known);
}

-- If ObservePostSend returns on tables with unique keys, then the execution stood as expected, with
-- its task DISPATCHED or RUNNING and the pair's session its own, and no stop owned it, and the
-- observation is of one of these cases. The session is absent, or has another generation: the task is
-- FAILED, the attempt is ended with SESSION_ABSENT or STALE_EXECUTION_GENERATION and quarantined, and
-- the session is quarantined. It has terminated: FAILED, the attempt is ended with
-- WORKER_TERMINATION_UNKNOWN, and the session is TERMINATED. It lives, and the worker of a DISPATCHED
-- task is idle without a hand-off: FAILED, and the attempt is ended with MISSED_ACTIVE_WINDOW. Else, a
-- disposition other than RECOVERY_PENDING leaves the state, the attempt and the session as they were.
-- Without one, the session is as it was, and the attempt stays open: a worker that waits for input, is
-- blocked or is active makes the task RUNNING with AO_WAITING_INPUT_OBSERVED, AO_BLOCKED_DECISION or
-- no disposition; one that is idle leaves a RUNNING task so without a disposition, and makes a
-- DISPATCHED one with a hand-off RUNNING with MISSED_ACTIVE_WINDOW; and one that has exited leaves the
-- state, without a disposition.
pub observe_post_send-IsObserved :
    (c : Codec) (s : Surroundings) (expected : RecoveryExecution) (observed : PostSendObservation)
    (actor invocation : Text) (at : Time) (db : Db) {later : Db}
    → IsKeyed db
    → observe_post_send c s expected observed actor invocation at db ≡ ok later
    → IsObserved expected observed at db later
observe_post_send-IsObserved c s expected observed actor invocation at db {later} keyed e =
    written-IsObserved expected observed at db later
      (observe_post_send-IsWritten c s expected observed actor invocation at db keyed e)
