-- ===== src/Store/Stop/Tests.antt =====
-- The theorems on stops at concrete inputs: a running attempt is stopped, the call accepted, and the
-- termination confirmed.
use ai_supervisor.Base.{
  ◌≡◌, refl, true, ◌&&◌, none, some, [], ◌∷◌, ok, ◌⊎◌, ◌>>=◌, ◌>>◌, guard, or_fail, and_right,
}
use ai_supervisor.Base.Text.{codes, ◌=ᵗ◌}
use ai_supervisor.Base.Table.{find, exists_row, count, update, insert}
use ai_supervisor.Workflow.{running, ◌=ˢ◌}
use ai_supervisor.Store.Schema.{
  Db, Outcome, empty_db, genesis_audit_hash, running_attempt_stop, stop_call_succeeded,
  stop_termination_confirmed, stop_target_absent, termination_confirmed, target_absent,
}
use ai_supervisor.Store.Audit.{
  append_audit_event_tx, prepare_event, check_lineage, chain_event, chained_row, compute_event_hash,
  compute_event_hash_raw, hash_input, prefixed, big_endian, audit_domain_separator,
}
use ai_supervisor.Store.Send.{lineage_event, audit_task_state_transition, delivery_outcome_unknown}
use ai_supervisor.Store.Sessions.{reject_unresolved_provisioning}
use ai_supervisor.Store.Closure.{is_current_open, current_open_attempt_lineage}
use ai_supervisor.Store.Recovery.{when}
use ai_supervisor.Store.Recovery.Observe.{record_event}
use ai_supervisor.Store.Recovery.Tests.{sent_db}
use ai_supervisor.Store.Runs.Scenario.{codec, call, is_ok, value_of, is_ok-eq, task_row}
use ai_supervisor.Store.Stop.{
  audit_stop_operation_requested, timeout_reason, stop_lineage, stop_event_lineage,
  is_lineage_attempt, check_stop_lineage, check_stop_restore, insert_stop, is_stop_session,
  quarantine_stop_session, is_stop_attempt, quarantine_stop_attempt, stop_details,
  append_stop_audit, record_linked_stop, create_stop_operation_tx,
}
use ai_supervisor.Store.Stop.Reserve.{
  StopOperation, reserved_row, is_live_attempt, check_purpose, quarantine_live_attempt,
  reserve_stop_operation, get_stop_operation_tx,
}
use ai_supervisor.Store.Stop.Resolve.{
  audit_stop_operation_call_succeeded, audit_quarantine_resolved_physical, StopTerminalOutcome,
  valid_stop_transition, valid_stop_outcome, stop_outcome_audit_type, stop_disposition, is_physical,
  claims_termination, is_logical, proves_termination, is_exact_observation, owns_restore,
  is_open_stop, resolve_stop, is_live_task, fail_live_task, is_current_stop_attempt,
  end_live_attempt, has_pair_risk, settle_stop_session,
}
use ai_supervisor.Store.Stop.Commit.{
  outcome_details, commit_stop_call_accepted, record_live_failure, record_physical,
  close_live_stop_tx, settle_purpose, commit_stop_outcome, classify_abandoned_stop_alive,
}
use ai_supervisor.Store.Stop.Resolved.{IsResolved, commit_stop_outcome-IsResolved}
use ai_supervisor.Store.Stop.Once.{commit_stop_outcome-once}

abbrev running_db : Db
running_db = record sent_db {
  tasks = record task_row { state = running; current_attempt = 1 } ∷ [];
}

abbrev stop : StopOperation
stop = record {
  operation_id = codes "Z";
  purpose = running_attempt_stop;
  pair_id = codes "P";
  task_id = some (codes "T");
  contract_id = some (codes "C");
  attempt_id = some (codes "A");
  session_id = codes "S";
  terminal_generation = codes "G";
  stage = none;
  actor = codes "op";
  requested_at = 10;
  call_completed_at = none;
  confirmation_deadline_at = none;
  termination_confirmed_at = none;
  resolved_at = none;
  resolution_state = none;
  restore_operation_id = none;
  restore_principal = none;
  initiating_failure_reason = none;
}

abbrev reservation : Outcome Db
reservation = reserve_stop_operation codec (call 1) stop running_db

abbrev reserved_db : Db
reserved_db = value_of running_db reservation

abbrev acceptance : Outcome Db
acceptance = commit_stop_call_accepted codec (call 2) (codes "Z") 11 20 reserved_db

abbrev accepted_db : Db
accepted_db = value_of reserved_db acceptance

abbrev confirmed : StopTerminalOutcome
confirmed = record {
  expected_stage = stop_call_succeeded;
  stage = stop_termination_confirmed;
  resolution = termination_confirmed;
  at = 15;
  observed_session_id = codes "S";
  observed_generation = codes "G";
  observed_is_terminated = true;
}

abbrev absent : StopTerminalOutcome
absent = record confirmed { stage = stop_target_absent; resolution = target_absent }

abbrev confirmation : Outcome Db
confirmation = commit_stop_outcome codec (call 3) (codes "Z") confirmed accepted_db

abbrev confirmed_db : Db
confirmed_db = value_of accepted_db confirmation

stops_ok : (is_ok reservation && is_ok acceptance && is_ok confirmation) ≡ true
unfolding ◌>>=◌ ◌>>◌ guard or_fail ◌=ᵗ◌ find exists_row count update insert ◌=ˢ◌ empty_db
    genesis_audit_hash append_audit_event_tx prepare_event check_lineage chain_event chained_row
    compute_event_hash compute_event_hash_raw hash_input prefixed big_endian audit_domain_separator
    lineage_event audit_task_state_transition delivery_outcome_unknown
    reject_unresolved_provisioning is_current_open current_open_attempt_lineage when record_event
    audit_stop_operation_requested timeout_reason stop_lineage stop_event_lineage is_lineage_attempt
    check_stop_lineage check_stop_restore insert_stop is_stop_session quarantine_stop_session
    is_stop_attempt quarantine_stop_attempt stop_details append_stop_audit record_linked_stop
    create_stop_operation_tx reserved_row is_live_attempt check_purpose quarantine_live_attempt
    reserve_stop_operation get_stop_operation_tx audit_stop_operation_call_succeeded
    audit_quarantine_resolved_physical valid_stop_transition valid_stop_outcome
    stop_outcome_audit_type stop_disposition is_physical claims_termination is_logical
    proves_termination is_exact_observation owns_restore is_open_stop resolve_stop is_live_task
    fail_live_task is_current_stop_attempt end_live_attempt has_pair_risk settle_stop_session
    outcome_details commit_stop_call_accepted record_live_failure record_physical close_live_stop_tx
    settle_purpose commit_stop_outcome
stops_ok = refl

confirmation_eq : confirmation ≡ ok confirmed_db
confirmation_eq =
    is_ok-eq accepted_db confirmation
      (and_right (is_ok reservation && is_ok acceptance) (is_ok confirmation) stops_ok)

commit_stop_outcome-IsResolved_example : IsResolved (codes "Z") confirmed accepted_db confirmed_db
commit_stop_outcome-IsResolved_example =
    commit_stop_outcome-IsResolved codec (call 3) (codes "Z") confirmed accepted_db confirmation_eq

commit_stop_outcome-once_example : ¬ (
    (commit_stop_outcome codec (call 4) (codes "Z") absent confirmed_db ≡ ok empty_db)
    ⊎ ((commit_stop_call_accepted codec (call 4) (codes "Z") 16 30 confirmed_db ≡ ok empty_db)
        ⊎ (classify_abandoned_stop_alive codec
              (call 4)
              (codes "Z")
              (codes "S")
              (codes "G")
              (codes "op")
              []
              16
              confirmed_db
            ≡ ok empty_db)))
commit_stop_outcome-once_example =
    commit_stop_outcome-once codec (call 3) (codes "Z") confirmed accepted_db (call 4) absent 16 30
      (codes "S") (codes "G") (codes "op") [] 16 confirmation_eq
