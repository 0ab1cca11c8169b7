-- ===== src/Store/Recovery/Tests.antt =====
-- The theorems on internal/store/recovery_transactions.go at concrete inputs: an execution of one task,
-- whose session waits for input, and later is absent.
use ai_supervisor.Base.{
  ◌≡◌, refl, true, false, ◌&&◌, none, some, [], ◌∷◌, ok, ◌>>=◌, ◌>>◌, guard, or_fail, and_left,
  and_right, All,
}
use ai_supervisor.Base.Text.{codes, ◌=ᵗ◌}
use ai_supervisor.Base.Table.{find, exists_row, count, update, insert}
use ai_supervisor.Base.Table.Rows.{count-length}
use ai_supervisor.Base.Table.Order.{order_by, place_by, select}
use ai_supervisor.Workflow.{dispatched, ◌=ˢ◌, state_name}
use ai_supervisor.Store.Schema.{Db, Outcome, empty_db, genesis_audit_hash, clean, send_confirmed}
use ai_supervisor.Store.Audit.{
  append_audit_event_tx, prepare_event, check_lineage, chain_event, chained_row, compute_event_hash,
  compute_event_hash_raw, hash_input, prefixed, big_endian, audit_domain_separator,
}
use ai_supervisor.Store.Send.{lineage_event, dispatch_by_id, audit_task_state_transition}
use ai_supervisor.Store.Send.Holds.{recovery_pending, same_text}
use ai_supervisor.Store.Send.Unknown.Escalation.{IsKeyed}
use ai_supervisor.Store.Runs.Scenario.{
  codec, call, is_ok, value_of, is_ok-eq, pair_rows, session_rows, task_row, contract_row,
}
use ai_supervisor.Store.Recovery.{
  RecoveryExecution, PostSendObservation, session_absent, stale_execution_generation,
  worker_termination_unknown, missed_active_window, same_recovery_execution, recovery_execution,
  is_executed_by, current_execution, is_stop_owned, execution_lineage, terminal_disposition,
  is_known_activity, shows_work, new_state, is_missed_window, new_disposition, is_observed_attempt,
  is_observed_session, when, is_observed_task, move_observed, end_observed, hold_observed,
  isolate_observed, terminate_observed, close_observed,
}
use ai_supervisor.Store.Send.Budget.{is_executing}
use ai_supervisor.Store.Recovery.Observe.{
  is_pending, record_event, record_recovered, record_moved, record_blocked, record_missed,
  settle_attempt, commit_observation, is_settled, observe_post_send, record_recovery_absent,
}
use ai_supervisor.Store.Recovery.Snapshot.{
  RecoverySnapshot, current_attempt_of, dispatch_of, is_inconsistent_task, execution_of,
  is_candidate, executions_of, stop_owned_attempts, recovery_stop, blocked_of,
  list_recovery_snapshot,
}
use ai_supervisor.Store.Recovery.Snapshot.{list_open_confirmed_without_budget}
use ai_supervisor.Store.Runs.{observes, idle, ◌then◌}
use ai_supervisor.Store.Runs.Budgeted.{Run-list_open_confirmed_without_budget}
use ai_supervisor.Store.Schema.{is_send_confirmed}
use ai_supervisor.Store.Recovery.Current.{list_recovery_snapshot-current}
use ai_supervisor.Store.Recovery.Observed.{IsObserved, observe_post_send-IsObserved}
use ai_supervisor.Store.Recovery.Absent.{IsAbsent, record_recovery_absent-IsAbsent}

-- A dispatched task whose send is confirmed.
abbrev pub sent_db : Db
sent_db = record empty_db {
  pairs = pair_rows;
  tasks = record task_row { state = dispatched; current_attempt = 1 } ∷ [];
  contracts = contract_row ∷ [];
  attempts =
      record {
        attempt_id = codes "A";
        attempt_number = 1;
        task_id = codes "T";
        contract_id = codes "C";
        expected_report_path = [];
        started_at = 1;
        ended_at = none;
        worker_report_raw = none;
        session_id = some (codes "S");
        terminal_generation = some (codes "G");
        recovery_disposition = none;
        quarantine_state = clean;
      }
      ∷ [];
  sessions = session_rows;
  dispatches =
      record {
        operation_id = codes "O";
        attempt_id = codes "A";
        pair_id = codes "P";
        task_id = codes "T";
        session_id = codes "S";
        terminal_generation = codes "G";
        stage = send_confirmed;
        requested_at = 1;
        confirmed_at = some 2;
        resolution_state = none;
      }
      ∷ [];
}

abbrev execution : RecoveryExecution
execution = record {
  operation_id = codes "O";
  pair_id = codes "P";
  task_id = codes "T";
  contract_id = codes "C";
  attempt_id = codes "A";
  session_id = codes "S";
  generation = codes "G";
  task_state = dispatched;
  dispatch_stage = send_confirmed;
  disposition = none;
}

abbrev waiting : PostSendObservation
waiting = record {
  session_id = codes "S";
  generation = codes "G";
  activity = codes "waiting_input";
  terminated = false;
  absent = false;
  handoff_available = false;
}

abbrev observation : Outcome Db
observation = observe_post_send codec (call 1) execution waiting (codes "op") [] 5 sent_db

abbrev absence : Outcome Db
absence = record_recovery_absent codec (call 1) execution (codes "op") 5 sent_db

both_ok : (is_ok observation && is_ok absence) ≡ true
unfolding ◌>>=◌ ◌>>◌ guard or_fail ◌=ᵗ◌ find exists_row count update insert ◌=ˢ◌ empty_db
    genesis_audit_hash append_audit_event_tx prepare_event check_lineage chain_event chained_row
    compute_event_hash compute_event_hash_raw hash_input prefixed big_endian audit_domain_separator
    lineage_event dispatch_by_id audit_task_state_transition recovery_pending same_text state_name
    session_absent stale_execution_generation worker_termination_unknown missed_active_window
    same_recovery_execution recovery_execution is_executed_by current_execution is_stop_owned
    is_executing execution_lineage terminal_disposition is_known_activity shows_work new_state
    is_missed_window new_disposition is_observed_attempt is_observed_session when is_observed_task
    move_observed end_observed hold_observed isolate_observed terminate_observed close_observed
    is_pending record_event record_recovered record_moved record_blocked record_missed
    settle_attempt commit_observation is_settled observe_post_send record_recovery_absent
both_ok = refl

sent-IsKeyed : IsKeyed sent_db
unfolding empty_db
sent-IsKeyed = record {
  one_task = λ k. count-length (λ t. t.task_id =ᵗ k) sent_db.tasks;
  one_attempt = λ k. count-length (λ t. t.attempt_id =ᵗ k) sent_db.attempts;
  one_dispatch = λ k. count-length (λ t. t.operation_id =ᵗ k) sent_db.dispatches;
  one_session = λ k. count-length (λ t. t.pair_id =ᵗ k) sent_db.sessions;
}

abbrev snapshot : Outcome RecoverySnapshot
snapshot = list_recovery_snapshot sent_db

abbrev empty_snapshot : RecoverySnapshot
empty_snapshot = record {
  restore_ids = [];
  provision_ids = [];
  stop_owned_attempt_ids = [];
  executions = [];
  stop_operations = [];
  blocked_executions = [];
}

snapshot_ok : is_ok snapshot ≡ true
unfolding ◌>>=◌ ◌>>◌ guard ◌=ᵗ◌ find exists_row ◌=ˢ◌ empty_db order_by place_by select
    current_attempt_of dispatch_of is_inconsistent_task execution_of is_candidate executions_of
    stop_owned_attempts recovery_stop blocked_of list_recovery_snapshot recovery_execution
    is_executed_by
snapshot_ok = refl

-- The snapshot has the one execution.
snapshot_executions : (value_of empty_snapshot snapshot).executions ≡ execution ∷ []
unfolding ◌>>=◌ ◌>>◌ guard ◌=ᵗ◌ find exists_row ◌=ˢ◌ empty_db order_by place_by select
    current_attempt_of dispatch_of is_inconsistent_task execution_of is_candidate executions_of
    stop_owned_attempts recovery_stop blocked_of list_recovery_snapshot recovery_execution
    is_executed_by
snapshot_executions = refl

list_recovery_snapshot-current_example :
    All
      (λ x. current_execution false x.operation_id sent_db ≡ ok x)
      (value_of empty_snapshot snapshot).executions
list_recovery_snapshot-current_example =
    list_recovery_snapshot-current sent_db sent-IsKeyed
      (is_ok-eq empty_snapshot snapshot snapshot_ok)

observe_post_send-IsObserved_example :
    IsObserved execution waiting 5 sent_db (value_of sent_db observation)
observe_post_send-IsObserved_example =
    observe_post_send-IsObserved codec (call 1) execution waiting (codes "op") [] 5 sent_db
      sent-IsKeyed (is_ok-eq sent_db observation (and_left _ (is_ok absence) both_ok))

record_recovery_absent-IsAbsent_example : IsAbsent execution 5 sent_db (value_of sent_db absence)
record_recovery_absent-IsAbsent_example =
    record_recovery_absent-IsAbsent codec (call 1) execution (codes "op") 5 sent_db sent-IsKeyed
      (is_ok-eq sent_db absence (and_right _ (is_ok absence) both_ok))

-- The dispatch of sent_db has no budget, and is one that maintenance has to look at.
Run-list_open_confirmed_without_budget_example :
    All
      (λ x.
        (exists_row
            (λ d. d.operation_id =ᵗ x.operation_id && is_send_confirmed d.stage)
            sent_db.dispatches
          ≡ true)
        × (exists_row (λ b. b.attempt_id =ᵗ x.attempt_id) sent_db.budgets ≡ false))
      (list_open_confirmed_without_budget (value_of sent_db observation))
Run-list_open_confirmed_without_budget_example = Run-list_open_confirmed_without_budget codec (
    observes (call 1) execution waiting (codes "op") [] 5
      (is_ok-eq sent_db observation (and_left _ (is_ok absence) both_ok))
    then idle)
