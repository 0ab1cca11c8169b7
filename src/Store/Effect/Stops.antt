-- ===== src/Store/Effect/Stops.antt =====
-- The transactions of stop_transactions.go keep the frame.
use ai_supervisor.Base.{
  ℕ, ◌≡◌, refl, Bool, true, false, ◌&&◌, not, Option, none, some, is_some, List, ◌==◌, and_right,
  and_left, Ensures, Ensures-guard, Ensures-or_fail, Ensures-do, Ensures-then, Ensures-map, returns,
  arith,
}
use ai_supervisor.Base.Text.{Text, ◌=ᵗ◌, has_text}
use ai_supervisor.Base.Table.{exists_row}
use ai_supervisor.Base.Table.Laws.{Extends-refl}
use ai_supervisor.Workflow.{running, failed, can_transition, ◌=ˢ◌, state_eq_iff}
use ai_supervisor.Store.Schema.{
  Time, Outcome, Codec, Surroundings, Detail, TaskRow, AttemptRow, StopRow, StopPurpose,
  running_attempt_stop, Quarantine, Db,
}
use ai_supervisor.Store.Board.{kept, shifted}
use ai_supervisor.Store.Stop.{
  StopLineage, is_stop_attempt, insert_stop, quarantine_stop_session, quarantine_stop_attempt,
  append_stop_audit, record_linked_stop, create_stop_operation_tx,
}
use ai_supervisor.Store.Stop.Reserve.{
  StopOperation, quarantine_live_attempt, reserve_stop_operation,
}
use ai_supervisor.Store.Stop.Resolve.{
  StopTerminalOutcome, resolve_stop, is_live_task, fail_live_task, is_current_stop_attempt,
  end_live_attempt, settle_stop_session,
}
use ai_supervisor.Store.Stop.Commit.{
  commit_stop_call_accepted, record_live_failure, record_physical, close_live_stop_tx,
  settle_runtime, settle_purpose, commit_stop_outcome, abandon_stop, classify_abandoned_stop_alive,
}
use ai_supervisor.Store.Effect.{
  Effect, Effect-refl, Effect-trans, contracts_kept, attempts_kept, dispatches_kept,
}
use ai_supervisor.Store.Effect.Steps.{Effect-tasks, Effect-attempts, Effect-sessions, Effect-bind}
use ai_supervisor.Store.Effect.Closures.{Extends-close, Attached-close}
use ai_supervisor.Store.Effect.Observations.{when-Effect, record_event-Effect}

last_not : (a b d e f g : Bool) → (a && b && d && e && f && not g) ≡ true → g ≡ false
last_not a b d e f g h = ground arith

stop_attempt-open :
    (l : StopLineage) (o : StopRow) (a : AttemptRow)
    → is_stop_attempt l o a ≡ true
    → is_some a.ended_at ≡ false
unfolding is_stop_attempt
stop_attempt-open l o a h =
    last_not (a.attempt_id =ᵗ l.attempt_id) (a.task_id =ᵗ l.task_id)
      (a.contract_id =ᵗ l.contract_id) (has_text a.session_id o.session_id)
      (has_text a.terminal_generation o.terminal_generation) (is_some a.ended_at) h

current_stop_attempt-open :
    (l : StopLineage) (o : StopRow) (db : Db) (a : AttemptRow)
    → is_current_stop_attempt l o db a ≡ true
    → is_some a.ended_at ≡ false
unfolding is_current_stop_attempt
current_stop_attempt-open l o db a h = stop_attempt-open l o a (
    and_left (is_stop_attempt l o a)
      (exists_row (λ t. t.task_id =ᵗ l.task_id && t.current_attempt == a.attempt_number) db.tasks)
      h)

live_task-running :
    (l : StopLineage) (o : StopRow) (t : TaskRow) → is_live_task l o t ≡ true → t.state ≡ running
unfolding is_live_task
live_task-running l o t h =
    (state_eq_iff t.state running).0
      (and_right (t.task_id =ᵗ l.task_id && t.pair_id =ᵗ o.pair_id) (t.state =ˢ running) h)

running-failed : can_transition running failed ≡ true
unfolding can_transition
running-failed = refl

module _ (c : Codec) where
  Effect-stops : (db : Db) (l : List StopRow) → Effect c db (record db { stops = l })
  Effect-stops db l = record {
    tasks = kept;
    contracts = contracts_kept c db;
    attempts = attempts_kept c db;
    dispatches = dispatches_kept c db;
    budgets = Extends-refl ◌≡◌ db.budgets (λ a. refl);
    audit_events = Extends-refl ◌≡◌ db.audit_events (λ a. refl);
    chain = λ h. h;
    attached = λ h. h;
    funded = λ g h. h;
  }

  -- An event after a change of the stops.
  stop_audit-Effect :
      (s : Surroundings) (k : ℕ) (o : StopRow) (kind : Text) (at : Time)
      (extra : List (Text × Detail)) (db : Db)
      → Ensures (Effect c db) (append_stop_audit c s k o kind at extra db)
  unfolding append_stop_audit
  stop_audit-Effect s k o kind at extra db = record_event-Effect c s k kind at _ o.actor _ db

  insert_stop-Effect : (o : StopRow) (db : Db) → Ensures (Effect c db) (insert_stop o db)
  unfolding insert_stop
  insert_stop-Effect o db = Ensures-guard _ _ _ λ reason.
      Ensures-guard _ _ _ λ fresh. Ensures-guard _ _ _ λ referred. returns (Effect-stops db _)

  record_linked_stop-Effect :
      (s : Surroundings) (o : StopRow) (principal restore : Option Text) (db : Db)
      → Ensures (Effect c db) (record_linked_stop c s o principal restore db)
  unfolding record_linked_stop
  record_linked_stop-Effect s o principal none db = returns (Effect-refl c db)
  record_linked_stop-Effect s o principal (some r) db =
      record_event-Effect c s 0 _ o.requested_at _ o.actor _ db

  create_stop_operation_tx-Effect :
      (s : Surroundings) (o : StopRow) (principal observation : Option Text) (db : Db)
      → Ensures (Effect c db) (create_stop_operation_tx c s o principal observation db)
  unfolding create_stop_operation_tx
  create_stop_operation_tx-Effect s o principal observation db = Ensures-guard _ _ _ λ bound.
      Ensures-guard _ _ _ λ unbound. Ensures-then _ _ λ lineage. Ensures-then _ _ λ restore.
        Effect-bind c _ (insert_stop-Effect o db)
          λ d. record_linked_stop-Effect s o principal o.restore_operation_id d

  quarantine_stop_session-Effect :
      (o : StopRow) (at : Time) (db : Db) → Ensures (Effect c db) (quarantine_stop_session o at db)
  unfolding quarantine_stop_session
  quarantine_stop_session-Effect o at db =
      Ensures-guard _ _ _ λ some_row. returns (Effect-sessions c db _)

  quarantine_stop_attempt-Effect :
      (l : StopLineage) (o : StopRow) (db : Db)
      → Ensures (Effect c db) (quarantine_stop_attempt l o db)
  unfolding quarantine_stop_attempt
  quarantine_stop_attempt-Effect l o db = Ensures-guard _ _ _ λ some_row. returns (
      Effect-attempts c db (Extends-close _ _ db.attempts (stop_attempt-open l o) (λ a. refl))
        (Attached-close db.contracts _ _ db.attempts (λ a. refl)))

  quarantine_live_attempt-Effect :
      (p : StopPurpose) (o : StopRow) (db : Db)
      → Ensures (Effect c db) (quarantine_live_attempt p o db)
  unfolding quarantine_live_attempt
  quarantine_live_attempt-Effect running_attempt_stop o db =
      Ensures-or_fail _ _ _ λ l bound. quarantine_stop_attempt-Effect l o db
  quarantine_live_attempt-Effect _ o db = returns (Effect-refl c db)

  pub reserve_stop_operation-Effect :
      (s : Surroundings) (o : StopOperation) (db : Db)
      → Ensures (Effect c db) (reserve_stop_operation c s o db)
  unfolding reserve_stop_operation
  reserve_stop_operation-Effect s o db = Ensures-guard _ _ _ λ given. Ensures-guard _ _ _ λ begins.
      Ensures-guard _ _ _ λ reason. Ensures-or_fail _ _ _ λ w session.
        Ensures-guard _ _ _ λ lineage. Ensures-guard _ _ _ λ quiet. Ensures-then _ _ λ purpose.
          Effect-bind c _ (create_stop_operation_tx-Effect s _ none none db) λ d1.
            Effect-bind c _ (quarantine_stop_session-Effect _ _ d1) λ d2.
              Effect-bind c _ (quarantine_live_attempt-Effect _ _ d2)
                λ d3. stop_audit-Effect s _ _ _ _ _ d3

  -- A change of the stops with its event.
  changed-Effect :
      {db : Db} (l : List StopRow) {m : Outcome Db}
      → Ensures (Effect c (record db { stops = l })) m
      → Ensures (Effect c db) m
  changed-Effect {db} l m = Ensures-map (λ d e. Effect-trans c (Effect-stops db l) e) m

  pub commit_stop_call_accepted-Effect :
      (s : Surroundings) (op : Text) (call_at deadline : Time) (db : Db)
      → Ensures (Effect c db) (commit_stop_call_accepted c s op call_at deadline db)
  unfolding commit_stop_call_accepted
  commit_stop_call_accepted-Effect s op call_at deadline db = Ensures-guard _ _ _ λ times.
      Ensures-do _ _ λ o found. Ensures-then _ _ λ owned. Ensures-guard _ _ _ λ requested.
        Ensures-guard _ _ _ λ some_row. changed-Effect _ (stop_audit-Effect s 0 o _ call_at _ _)

  resolve_stop-Effect :
      (o : StopRow) (r : StopTerminalOutcome) (db : Db)
      → Ensures (Effect c db) (resolve_stop o r db)
  unfolding resolve_stop
  resolve_stop-Effect o r db = Ensures-guard _ _ _ λ some_row. returns (Effect-stops db _)

  fail_live_task-Effect :
      (l : StopLineage) (o : StopRow) (at : Time) (db : Db)
      → Ensures (Effect c db) (fail_live_task l o at db)
  unfolding fail_live_task
  fail_live_task-Effect l o at db = Ensures-guard _ _ _ λ some_row. returns (
      Effect-tasks c db (
        shifted _ running failed _ (live_task-running l o) running-failed
          (λ t. (refl, refl, refl, omega arith)) (λ busy. refl)))

  end_live_attempt-Effect :
      (l : StopLineage) (o : StopRow) (disposition : Text) (physical : Bool) (at : Time) (db : Db)
      → Ensures (Effect c db) (end_live_attempt l o disposition physical at db)
  unfolding end_live_attempt
  end_live_attempt-Effect l o disposition physical at db = Ensures-guard _ _ _ λ some_row. returns (
      Effect-attempts c db
        (Extends-close _ _ db.attempts (current_stop_attempt-open l o db) (λ a. refl))
        (Attached-close db.contracts _ _ db.attempts (λ a. refl)))

  settle_stop_session-Effect :
      (o : StopRow) (physical : Bool) (q : Quarantine) (at : Time) (db : Db)
      → Ensures (Effect c db) (settle_stop_session o physical q at db)
  unfolding settle_stop_session
  settle_stop_session-Effect o physical q at db =
      Ensures-guard _ _ _ λ some_row. returns (Effect-sessions c db _)

  record_physical-Effect :
      (s : Surroundings) (o : StopRow) (l : StopLineage) (at : Time) (session_clean : Bool)
      (db : Db)
      → Ensures (Effect c db) (record_physical c s o l at session_clean db)
  unfolding record_physical
  record_physical-Effect s o l at session_clean db =
      Effect-bind c _ (stop_audit-Effect s 2 o _ at _ db)
        λ d. when-Effect c session_clean _ d λ clear. stop_audit-Effect s 3 o _ at _ d

  close_live_stop_tx-Effect :
      (s : Surroundings) (o : StopRow) (r : StopTerminalOutcome) (db : Db)
      → Ensures (Effect c db) (close_live_stop_tx c s o r db)
  unfolding close_live_stop_tx record_live_failure
  close_live_stop_tx-Effect s o r db = Ensures-or_fail _ _ _ λ l bound. Ensures-do _ _ λ x lineage.
      Ensures-guard _ _ _ λ same. Ensures-or_fail _ _ _ λ a attempt. Ensures-guard _ _ _ λ session.
        Effect-bind c _ (fail_live_task-Effect l o r.at db) λ d1.
          Effect-bind c _ (end_live_attempt-Effect l o _ _ r.at d1) λ d2.
            Effect-bind c _ (settle_stop_session-Effect o _ _ r.at d2) λ d3.
              Effect-bind c _ (record_event-Effect c s 1 _ r.at _ o.actor _ d3)
                λ d4. when-Effect c _ _ d4 λ physical. record_physical-Effect s o l r.at _ d4

  settle_runtime-Effect :
      (o : StopRow) (r : StopTerminalOutcome) (db : Db)
      → Ensures (Effect c db) (settle_runtime o r db)
  unfolding settle_runtime
  settle_runtime-Effect o r db = Ensures-or_fail _ _ _ λ w session.
      Ensures-guard _ _ _
        λ lineage. when-Effect c _ _ db λ same. settle_stop_session-Effect o _ _ r.at db

  settle_purpose-Effect :
      (s : Surroundings) (p : StopPurpose) (o : StopRow) (r : StopTerminalOutcome) (db : Db)
      → Ensures (Effect c db) (settle_purpose c s p o r db)
  unfolding settle_purpose
  settle_purpose-Effect s running_attempt_stop o r db = close_live_stop_tx-Effect s o r db
  settle_purpose-Effect s _ o r db = settle_runtime-Effect o r db

  pub commit_stop_outcome-Effect :
      (s : Surroundings) (op : Text) (r : StopTerminalOutcome) (db : Db)
      → Ensures (Effect c db) (commit_stop_outcome c s op r db)
  unfolding commit_stop_outcome
  commit_stop_outcome-Effect s op r db = Ensures-guard _ _ _ λ given. Ensures-do _ _ λ o found.
      Ensures-then _ _ λ owned. Ensures-guard _ _ _ λ open_stop. Ensures-guard _ _ _ λ proved.
        Ensures-guard _ _ _ λ observed. Ensures-guard _ _ _ λ valid.
          Effect-bind c _ (resolve_stop-Effect o r db) λ d1.
            Effect-bind c _ (when-Effect c _ _ d1 λ audited. stop_audit-Effect s 0 o _ r.at _ d1)
              λ d2. settle_purpose-Effect s o.purpose o r d2

  abandon_stop-Effect :
      (s : Surroundings) (o : StopRow) (actor invocation : Text) (at : Time) (db : Db)
      → Ensures (Effect c db) (abandon_stop c s o actor invocation at db)
  unfolding abandon_stop
  abandon_stop-Effect s o actor invocation at db =
      Ensures-guard _ _ _ λ some_row. changed-Effect _ (stop_audit-Effect s 0 o _ at _ _)

  pub classify_abandoned_stop_alive-Effect :
      (s : Surroundings) (op session generation actor invocation : Text) (at : Time) (db : Db)
      → Ensures
          (Effect c db)
          (classify_abandoned_stop_alive c s op session generation actor invocation at db)
  unfolding classify_abandoned_stop_alive
  classify_abandoned_stop_alive-Effect s op session generation actor invocation at db =
      Ensures-guard _ _ _ λ given. Ensures-do _ _ λ o found. Ensures-guard _ _ _ λ same.
        Ensures-guard _ _ _ λ stage.
          when-Effect c _ _ db
            λ live. Ensures-then _ _ λ owned. abandon_stop-Effect s o actor invocation at db
