-- ===== src/Store/Runs/Scenario/Holding.antt =====
-- The hold of the sample run, cleared in place of the failure.
use ai_supervisor.Base.{
  length, arith, ◌≤◌, true, ◌≡◌, refl, true, [], ok, ◌>>=◌, ◌>>◌, guard, or_fail,
}
use ai_supervisor.Base.Text.{
  codes, ◌=ᵗ◌, leading_space, trailing_space, trim_by, trim_space, is_blank,
}
use ai_supervisor.Base.Table.{find, exists_row, count, update, insert}
use ai_supervisor.Workflow.{◌=ˢ◌, state_name, allowed_transitions, can_transition, transition}
use ai_supervisor.Store.Schema.{Outcome, Db, empty_db, genesis_audit_hash}
use ai_supervisor.Store.Audit.{
  append_audit_event_tx, prepare_event, check_lineage, chain_event, chained_row, compute_event_hash,
  compute_event_hash_raw, hash_input, prefixed, big_endian, audit_domain_separator,
}
use ai_supervisor.Store.ReportPath.{
  ends_with, has_dot_dot, is_forbidden_byte, base_name, upper, device_names,
  validate_identity_segment, canonical_expected_report_path,
}
use ai_supervisor.Store.Tasks.{
  create_task, get_task, transition_task, lane_taken, latest_contract, check_ready_contract,
}
use ai_supervisor.Store.Contracts.{insert_task_contract, get_task_contract, check_first_revision}
use ai_supervisor.Store.Dispatch.{
  get_task_attempt, audit_task_dispatch_bound, supervisor_actor, pair_blocked, max_revision,
  insert_attempt, insert_dispatch, claim_task, freeze_contract, check_binding, new_attempt,
  new_dispatch, prepare_dispatch, prepare_bound_dispatch,
}
use ai_supervisor.Store.Send.{
  is_admissible, lineage_event, lineage_of, dispatch_by_id, attempt_by_id,
  audit_task_state_transition,
}
use ai_supervisor.Store.Send.Holds.{
  audit_pre_send_admissibility_rejected, recovery_pending, pre_send_protocol_unverified, is_hold,
  already_held, may_hold, same_text, holds, set_hold, record_pre_send_hold, resolve_pre_send_hold,
  audit_pre_send_status_recovered,
}
use ai_supervisor.Store.Closure.{
  is_current_open, current_open_attempt_lineage, move_task, close_attempt,
  requires_double_quarantine, quarantine_attempt_session, atomic_terminal_transition,
}
use ai_supervisor.Base.Text.{Text}
use ai_supervisor.Base.Table.Rows.{count-length}
use ai_supervisor.Store.Runs.Scenario.{
  codec, call, is_ok, value_of, is_ok-eq, held_db, dispatched_db, lookups,
}

abbrev pub clearing : Outcome Db
clearing =
    resolve_pre_send_hold codec (call 5) (codes "O") (codes "A") (codes "RECOVERY_PENDING")
      (codes "S") (codes "G") (codes "idle") [] (codes "op") 0 held_db

abbrev pub cleared_db : Db
cleared_db = value_of held_db clearing

clearing_ok : (is_ok clearing ≡ true) × (length held_db.attempts ≡ 1)
unfolding ◌>>=◌ ◌>>◌ guard or_fail ◌=ᵗ◌ leading_space trailing_space trim_by trim_space is_blank
    find exists_row count update insert ◌=ˢ◌ allowed_transitions can_transition transition empty_db
    genesis_audit_hash append_audit_event_tx prepare_event check_lineage chain_event chained_row
    compute_event_hash compute_event_hash_raw hash_input prefixed big_endian audit_domain_separator
    ends_with has_dot_dot is_forbidden_byte base_name upper device_names validate_identity_segment
    canonical_expected_report_path create_task transition_task lane_taken latest_contract
    check_ready_contract insert_task_contract check_first_revision audit_task_dispatch_bound
    supervisor_actor pair_blocked max_revision insert_attempt insert_dispatch claim_task
    freeze_contract check_binding new_attempt new_dispatch prepare_dispatch prepare_bound_dispatch
    is_hold recovery_pending pre_send_protocol_unverified already_held may_hold same_text holds
    set_hold record_pre_send_hold dispatch_by_id attempt_by_id lineage_event lineage_of
    audit_pre_send_admissibility_rejected audit_task_state_transition is_current_open
    current_open_attempt_lineage move_task close_attempt requires_double_quarantine
    quarantine_attempt_session atomic_terminal_transition state_name get_task get_task_contract
    get_task_attempt resolve_pre_send_hold audit_pre_send_status_recovered is_admissible
clearing_ok = (refl, refl)

pub clearing_eq : clearing ≡ ok cleared_db
clearing_eq = is_ok-eq held_db clearing clearing_ok.0

pub dispatched-one_attempt : (k : Text) → count (λ r. r.attempt_id =ᵗ k) dispatched_db.attempts ≤ 1
dispatched-one_attempt k =
    omega (arith, count-length (λ r. r.attempt_id =ᵗ k) dispatched_db.attempts, lookups.7)

pub held-one_attempt : (k : Text) → count (λ r. r.attempt_id =ᵗ k) held_db.attempts ≤ 1
held-one_attempt k =
    omega (arith, count-length (λ r. r.attempt_id =ᵗ k) held_db.attempts, clearing_ok.1)
