-- ===== src/Store/Effect/Observations.antt =====
-- The transactions of recovery_transactions.go that observe an execution keep the frame.
use ai_supervisor.Base.{
  ℕ, ◌≡◌, refl, Bool, true, false, ◌&&◌, not, Option, none, some, is_some, List, ◌==◌, and_right,
  Ensures, Ensures-guard, Ensures-or_fail, Ensures-do, returns, if◌then◌else◌, arith,
}
use ai_supervisor.Base.Text.{Text, ◌=ᵗ◌, has_text}
use ai_supervisor.Base.Table.{exists_row}
use ai_supervisor.Workflow.{
  TaskState, dispatched, running, failed, can_transition, ◌=ˢ◌, state_eq_iff,
}
use ai_supervisor.Store.Schema.{Time, Outcome, Codec, Surroundings, Detail, TaskRow, AttemptRow, Db}
use ai_supervisor.Store.Tasks.{is_active_lane}
use ai_supervisor.Store.Send.{Lineage}
use ai_supervisor.Store.Send.Holds.{same_text}
use ai_supervisor.Store.Recovery.{
  RecoveryExecution, PostSendObservation, new_state, terminal_disposition, shows_work,
  is_observed_attempt, is_observed_task, requires_isolation, when, move_observed, end_observed,
  hold_observed, isolate_observed, terminate_observed, close_observed,
}
use ai_supervisor.Store.Send.Budget.{is_executing}
use ai_supervisor.Store.Recovery.Observe.{
  is_unheld_attempt, hold_pending, record_event, record_recovery_sweep_event, impose_pending,
  record_post_send_outage, record_recovered, record_moved, record_blocked, record_missed,
  settle_attempt, commit_observation, observe_post_send, record_recovery_absent,
}
use ai_supervisor.Store.Board.{shifted}
use ai_supervisor.Store.Effect.{Effect, Effect-refl}
use ai_supervisor.Store.Effect.Steps.{
  Effect-tasks, Effect-attempts, Effect-sessions, Effect-bind, Effect-audit,
  append_audit_event_tx-Effect,
}
use ai_supervisor.Store.Effect.Closures.{Extends-close, Attached-close}

-- A task that is DISPATCHED or RUNNING holds its lane.
executing-is_active_lane : (t : TaskState) → is_executing t ≡ true → is_active_lane t ≡ true
unfolding is_executing ◌=ˢ◌
executing-is_active_lane dispatched h = refl
executing-is_active_lane running h = refl
executing-is_active_lane _ h = absurd (cc)

-- What an observation makes of a state that executes is an edge of the workflow.
next_state :
    (t : TaskState) (ends works : Bool)
    → is_executing t ≡ true
    → not ((if ends then failed else if t =ˢ dispatched && works then running else t) =ˢ t) ≡ true
    → can_transition t (if ends then failed else if t =ˢ dispatched && works then running else t)
      ≡ true
unfolding is_executing ◌=ˢ◌ can_transition
next_state dispatched true works h k = refl
next_state dispatched false true h k = refl
next_state dispatched false false h k = absurd (cc)
next_state running true works h k = refl
next_state running false works h k = absurd (cc)
next_state _ ends works h k = absurd (cc)

pub new_state-can_transition :
    (x : RecoveryExecution) (o : PostSendObservation)
    → is_executing x.task_state ≡ true
    → not (new_state x o =ˢ x.task_state) ≡ true
    → can_transition x.task_state (new_state x o) ≡ true
unfolding new_state
new_state-can_transition x o h k =
    next_state x.task_state (is_some (terminal_disposition x o)) (shows_work o) h k

third_of_four : (a b d e : Bool) → (a && b && d && e) ≡ true → d ≡ true
third_of_four a b d e h = ground arith

sixth_not : (a b d e f g h : Bool) → (a && b && d && e && f && not g && h) ≡ true → g ≡ false
sixth_not a b d e f g h k = ground arith

observed-from :
    (x : RecoveryExecution) (db : Db) (t : TaskRow)
    → is_observed_task x db t ≡ true
    → t.state ≡ x.task_state
unfolding is_observed_task
observed-from x db t h = (state_eq_iff t.state x.task_state).0 (
    third_of_four (t.task_id =ᵗ x.task_id) (t.pair_id =ᵗ x.pair_id) (t.state =ˢ x.task_state)
      (exists_row (λ a. a.attempt_id =ᵗ x.attempt_id && a.attempt_number == t.current_attempt)
        db.attempts)
      h)

observed-open :
    (x : RecoveryExecution) (a : AttemptRow)
    → is_observed_attempt x a ≡ true
    → is_some a.ended_at ≡ false
unfolding is_observed_attempt
observed-open x a h =
    sixth_not (a.attempt_id =ᵗ x.attempt_id) (a.task_id =ᵗ x.task_id)
      (a.contract_id =ᵗ x.contract_id) (has_text a.session_id x.session_id)
      (has_text a.terminal_generation x.generation) (is_some a.ended_at)
      (same_text a.recovery_disposition x.disposition) h

sixth_of_eight :
    (a b d e f g h i : Bool) → (a && b && d && e && f && not g && h && i) ≡ true → g ≡ false
sixth_of_eight a b d e f g h i k = ground arith

unheld-open :
    (x : RecoveryExecution) (db : Db) (a : AttemptRow)
    → is_unheld_attempt x db a ≡ true
    → is_some a.ended_at ≡ false
unfolding is_unheld_attempt
unheld-open x db a h =
    sixth_of_eight (a.attempt_id =ᵗ x.attempt_id) (a.task_id =ᵗ x.task_id)
      (a.contract_id =ᵗ x.contract_id) (has_text a.session_id x.session_id)
      (has_text a.terminal_generation x.generation) (is_some a.ended_at)
      (not (is_some a.recovery_disposition))
      (exists_row (λ t. t.task_id =ᵗ x.task_id && t.current_attempt == a.attempt_number) db.tasks) h

module _ (c : Codec) where
  pub when-Effect :
      (b : Bool) (f : Db → Outcome Db) (db : Db)
      → (b ≡ true → Ensures (Effect c db) (f db))
      → Ensures (Effect c db) (when b f db)
  unfolding when
  when-Effect true f db h = h refl
  when-Effect false f db h = returns (Effect-refl c db)

  pub record_event-Effect :
      (s : Surroundings) (k : ℕ) (event_type : Text) (at : Time) (l : Lineage) (actor : Text)
      (details : List (Text × Detail)) (db : Db)
      → Ensures (Effect c db) (record_event c s k event_type at l actor details db)
  unfolding record_event
  record_event-Effect s k event_type at l actor details db = Ensures-or_fail _ _ _ λ id drawn.
      Effect-audit c _ (append_audit_event_tx-Effect c s.now _ db) λ r. returns (Effect-refl c r.0)

  move_observed-Effect :
      (x : RecoveryExecution) (to : TaskState) (at : Time) (db : Db)
      → is_executing x.task_state ≡ true
      → can_transition x.task_state to ≡ true
      → Ensures (Effect c db) (move_observed x to at db)
  unfolding move_observed
  move_observed-Effect x to at db h edge = Ensures-guard _ _ _ λ some_row. returns (
      Effect-tasks c db (
        shifted _ x.task_state to _ (observed-from x db) edge (λ t. (refl, refl, refl, omega arith))
          (λ busy. executing-is_active_lane x.task_state h)))

  end_observed-Effect :
      (x : RecoveryExecution) (disposition : Text) (at : Time) (db : Db)
      → Ensures (Effect c db) (end_observed x disposition at db)
  unfolding end_observed
  end_observed-Effect x disposition at db = Ensures-guard _ _ _ λ some_row. returns (
      Effect-attempts c db (Extends-close _ _ db.attempts (observed-open x) (λ a. refl))
        (Attached-close db.contracts _ _ db.attempts (λ a. refl)))

  hold_observed-Effect :
      (x : RecoveryExecution) (disposition : Option Text) (db : Db)
      → Ensures (Effect c db) (hold_observed x disposition db)
  unfolding hold_observed
  hold_observed-Effect x disposition db = Ensures-guard _ _ _ λ some_row. returns (
      Effect-attempts c db (Extends-close _ _ db.attempts (observed-open x) (λ a. refl))
        (Attached-close db.contracts _ _ db.attempts (λ a. refl)))

  hold_pending-Effect :
      (x : RecoveryExecution) (db : Db) → Ensures (Effect c db) (hold_pending x db)
  unfolding hold_pending
  hold_pending-Effect x db = Ensures-guard _ _ _ λ some_row. returns (
      Effect-attempts c db (Extends-close _ _ db.attempts (unheld-open x db) (λ a. refl))
        (Attached-close db.contracts _ _ db.attempts (λ a. refl)))

  isolate_observed-Effect :
      (x : RecoveryExecution) (generation : Text) (at : Time) (db : Db)
      → Ensures (Effect c db) (isolate_observed x generation at db)
  unfolding isolate_observed
  isolate_observed-Effect x generation at db =
      Ensures-guard _ _ _ λ some_row. returns (Effect-sessions c db _)

  terminate_observed-Effect :
      (x : RecoveryExecution) (at : Time) (db : Db)
      → Ensures (Effect c db) (terminate_observed x at db)
  unfolding terminate_observed
  terminate_observed-Effect x at db =
      Ensures-guard _ _ _ λ some_row. returns (Effect-sessions c db _)

  close_observed-Effect :
      (x : RecoveryExecution) (o : PostSendObservation) (g disposition : Text) (at : Time) (db : Db)
      → Ensures (Effect c db) (close_observed x o g disposition at db)
  unfolding close_observed
  close_observed-Effect x o g disposition at db =
      Effect-bind c _ (end_observed-Effect x disposition at db) λ d1.
        Effect-bind c _
          (when-Effect (requires_isolation disposition) _ d1
            (λ h. isolate_observed-Effect x g at d1))
          λ d2. when-Effect _ _ d2 (λ h. terminate_observed-Effect x at d2)

  settle_attempt-Effect :
      (x : RecoveryExecution) (o : PostSendObservation) (g : Text) (t : Option Text) (at : Time)
      (db : Db)
      → Ensures (Effect c db) (settle_attempt x o g t at db)
  unfolding settle_attempt
  settle_attempt-Effect x o g (some disposition) at db =
      close_observed-Effect x o g disposition at db
  settle_attempt-Effect x o g none at db = when-Effect _ _ db (λ h. hold_observed-Effect x _ db)

  record_moved-Effect :
      (s : Surroundings) (k : ℕ) (x : RecoveryExecution) (o : PostSendObservation) (actor : Text)
      (at : Time) (db : Db)
      → is_executing x.task_state ≡ true
      → not (new_state x o =ˢ x.task_state) ≡ true
      → Ensures (Effect c db) (record_moved c s k x o actor at db)
  unfolding record_moved
  record_moved-Effect s k x o actor at db h moves =
      Effect-bind c _
        (move_observed-Effect x (new_state x o) at db h (new_state-can_transition x o h moves))
        λ d. record_event-Effect s k _ at _ actor _ d

  commit_observation-Effect :
      (s : Surroundings) (x : RecoveryExecution) (o : PostSendObservation)
      (g actor invocation : Text) (at : Time) (db : Db)
      → is_executing x.task_state ≡ true
      → Ensures (Effect c db) (commit_observation c s x o g actor invocation at db)
  unfolding commit_observation record_recovered record_blocked record_missed
  commit_observation-Effect s x o g actor invocation at db h =
      Effect-bind c _ (when-Effect _ _ db (λ pending. record_event-Effect s 0 _ at _ actor _ db))
        λ d1.
          Effect-bind c _
            (when-Effect _ _ d1 (λ moves. record_moved-Effect s _ x o actor at d1 h moves))
            λ d2. Effect-bind c _ (settle_attempt-Effect x o g _ at d2) λ d3.
              Effect-bind c _
                (when-Effect _ _ d3 (λ blocks. record_event-Effect s _ _ at _ actor _ d3))
                λ d4. when-Effect _ _ d4 (λ missed. record_event-Effect s _ _ at _ actor _ d4)

  pub record_recovery_sweep_event-Effect :
      (s : Surroundings) (invocation_id actor event : Text) (at : Time) (db : Db)
      → Ensures (Effect c db) (record_recovery_sweep_event c s invocation_id actor event at db)
  unfolding record_recovery_sweep_event
  record_recovery_sweep_event-Effect s invocation_id actor event at db =
      Ensures-guard _ _ _ λ given. record_event-Effect s 0 event _ _ actor _ db

  pub record_post_send_outage-Effect :
      (s : Surroundings) (x : RecoveryExecution) (actor classification invocation : Text)
      (at : Time) (db : Db)
      → Ensures (Effect c db) (record_post_send_outage c s x actor classification invocation at db)
  unfolding record_post_send_outage impose_pending
  record_post_send_outage-Effect s x actor classification invocation at db =
      Ensures-guard _ _ _ λ given. Ensures-do _ _ λ y current. Ensures-guard _ _ _ λ same.
        Ensures-guard _ _ _ λ not_owned. Ensures-or_fail _ _ _ λ w session.
          Ensures-guard _ _ _ λ lineage. Ensures-guard _ _ _ λ holdable.
            when-Effect _ _ db (λ unheld.
              Effect-bind c _ (hold_pending-Effect y db)
                λ d. record_event-Effect s 0 _ at _ actor _ d)

  pub observe_post_send-Effect :
      (s : Surroundings) (x : RecoveryExecution) (o : PostSendObservation) (actor invocation : Text)
      (at : Time) (db : Db)
      → Ensures (Effect c db) (observe_post_send c s x o actor invocation at db)
  unfolding observe_post_send
  observe_post_send-Effect s x o actor invocation at db = Ensures-guard _ _ _ λ given.
      Ensures-do _ _ λ y current. Ensures-guard _ _ _ λ same. Ensures-guard _ _ _ λ not_owned.
        Ensures-or_fail _ _ _ λ w session. Ensures-guard _ _ _ λ lineage.
          Ensures-guard _ _ _ λ known. when-Effect _ _ db (λ unsettled.
            commit_observation-Effect s y o w.terminal_generation actor invocation at db
              (and_right _ (is_executing y.task_state) same))

  pub record_recovery_absent-Effect :
      (s : Surroundings) (x : RecoveryExecution) (actor : Text) (at : Time) (db : Db)
      → Ensures (Effect c db) (record_recovery_absent c s x actor at db)
  unfolding record_recovery_absent
  record_recovery_absent-Effect s x actor at db =
      Ensures-guard _ _ _ λ confirmed. observe_post_send-Effect s x _ actor _ at db
