-- ===== src/Store/Runs/Scenario/Sends.antt =====
-- The sends of the sample run: a dispatch is requested, and then confirmed, or its outcome unknown.
use ai_supervisor.Base.{
  length, arith, Option, false, none, some, true, ◌≡◌, refl, true, false, ◌&&◌, none, some, [], ◌∷◌,
  ok, ◌>>=◌, ◌>>◌, guard, or_fail, is_some, and_left, and_right, if◌then◌else◌,
}
use ai_supervisor.Base.Text.{
  codes, ◌=ᵗ◌, leading_space, trailing_space, trim_by, trim_space, is_blank,
}
use ai_supervisor.Base.Table.{find, exists_row, count, update, insert}
use ai_supervisor.Workflow.{
  dispatched, running, ◌=ˢ◌, state_name, allowed_transitions, can_transition, transition,
}
use ai_supervisor.Store.Schema.{
  BudgetRow, send_confirmation_atomic, DispatchRow, is_send_confirmed, Outcome, Db, empty_db,
  genesis_audit_hash,
}
use ai_supervisor.Store.Audit.{
  append_audit_event_tx, prepare_event, check_lineage, chain_event, chained_row, compute_event_hash,
  compute_event_hash_raw, hash_input, prefixed, big_endian, audit_domain_separator,
}
use ai_supervisor.Store.ReportPath.{
  ends_with, has_dot_dot, is_forbidden_byte, base_name, upper, device_names,
  validate_identity_segment, canonical_expected_report_path,
}
use ai_supervisor.Store.Tasks.{
  create_task, transition_task, lane_taken, latest_contract, check_ready_contract,
}
use ai_supervisor.Store.Contracts.{insert_task_contract, check_first_revision}
use ai_supervisor.Store.Dispatch.{
  audit_task_dispatch_bound, supervisor_actor, pair_blocked, max_revision, insert_attempt,
  insert_dispatch, claim_task, freeze_contract, check_binding, new_attempt, new_dispatch,
  prepare_dispatch, prepare_bound_dispatch,
}
use ai_supervisor.Base.Table.Rows.{count-length}
use ai_supervisor.Store.Send.Budget.{
  get_execution_budget, budget_by_attempt, is_sound_budget, is_executing,
}
use ai_supervisor.Store.Send.Unknown.Escalation.{IsKeyed}
use ai_supervisor.Store.Send.Unknown.{close_unknown, record_unknown_delivery}
use ai_supervisor.Store.Send.{
  BudgetPolicy, record_send_requested, send_guard, is_admissible, audit_dispatch_send_requested,
  record_send_confirmed, insert_budget, has_budget, awaits_confirmation,
  audit_dispatch_send_confirmed, audit_uncertain_delivery_quarantine, delivery_outcome_unknown,
  uncertain_delivery_crash, lineage_event, lineage_of, dispatch_by_id, attempt_by_id,
  audit_task_state_transition,
}
use ai_supervisor.Store.Send.Holds.{
  audit_pre_send_admissibility_rejected, recovery_pending, pre_send_protocol_unverified, is_hold,
  already_held, may_hold, same_text, holds, set_hold, record_pre_send_hold,
}
use ai_supervisor.Store.Closure.{
  is_current_open, current_open_attempt_lineage, move_task, close_attempt,
  requires_double_quarantine, quarantine_attempt_session, atomic_terminal_transition,
}
use ai_supervisor.Store.Runs.Laws.{Run-trans}
use ai_supervisor.Store.Runs.{transitions, requests_send, confirms_send, Run, idle, ◌then◌}
use ai_supervisor.Store.Runs.Scenario.{
  codec, call, is_ok, value_of, is_ok-eq, binding, dispatched_db, ready-Run, dispatch-Step,
}

abbrev pub policy : BudgetPolicy
policy = record { duration = 60; policy_ref = codes "B" }

abbrev request : Outcome Db
request =
    record_send_requested codec (call 4) (codes "O") (codes "S") (codes "G") (codes "idle") false
      (codes "op") 0 dispatched_db

abbrev pub requested_db : Db
requested_db = value_of dispatched_db request

abbrev confirmation : Outcome Db
confirmation =
    record_send_confirmed codec (call 5) (codes "O") (codes "op") true 0 (policy ∷ []) requested_db

abbrev pub confirmed_db : Db
confirmed_db = value_of requested_db confirmation

abbrev pub loss : Outcome Db
loss = record_unknown_delivery codec (call 6) (codes "O") (codes "op") 0 requested_db

abbrev pub lost_db : Db
lost_db = value_of requested_db loss

abbrev dispatch_row : DispatchRow
dispatch_row = new_dispatch binding [] [] [] 0

abbrev pub confirmed_dispatch : DispatchRow
confirmed_dispatch = elim (dispatch_by_id (codes "O") confirmed_db) [
  | none ↦ dispatch_row
  | some d ↦ d
]

sends_ok :
    (is_ok request
      && is_ok confirmation
      && is_ok loss
      && is_some (dispatch_by_id (codes "O") confirmed_db)
      && is_send_confirmed confirmed_dispatch.stage)
    ≡ true
unfolding ◌>>=◌ ◌>>◌ guard or_fail ◌=ᵗ◌ leading_space trailing_space trim_by trim_space is_blank
    find exists_row count update insert ◌=ˢ◌ allowed_transitions can_transition transition empty_db
    genesis_audit_hash append_audit_event_tx prepare_event check_lineage chain_event chained_row
    compute_event_hash compute_event_hash_raw hash_input prefixed big_endian audit_domain_separator
    ends_with has_dot_dot is_forbidden_byte base_name upper device_names validate_identity_segment
    canonical_expected_report_path create_task transition_task lane_taken latest_contract
    check_ready_contract insert_task_contract check_first_revision audit_task_dispatch_bound
    supervisor_actor pair_blocked max_revision insert_attempt insert_dispatch claim_task
    freeze_contract check_binding new_attempt new_dispatch prepare_dispatch prepare_bound_dispatch
    is_hold recovery_pending pre_send_protocol_unverified already_held may_hold same_text holds
    set_hold record_pre_send_hold dispatch_by_id attempt_by_id lineage_event lineage_of
    audit_pre_send_admissibility_rejected audit_task_state_transition is_current_open
    current_open_attempt_lineage move_task close_attempt requires_double_quarantine
    quarantine_attempt_session atomic_terminal_transition state_name record_send_requested
    send_guard is_admissible audit_dispatch_send_requested record_send_confirmed insert_budget
    has_budget awaits_confirmation audit_dispatch_send_confirmed record_unknown_delivery
    close_unknown audit_uncertain_delivery_quarantine delivery_outcome_unknown
    uncertain_delivery_crash
sends_ok = refl

before_confirmed :
    (is_ok request
      && is_ok confirmation
      && is_ok loss
      && is_some (dispatch_by_id (codes "O") confirmed_db))
    ≡ true
before_confirmed = and_left _ (is_send_confirmed confirmed_dispatch.stage) sends_ok

before_found : (is_ok request && is_ok confirmation && is_ok loss) ≡ true
before_found = and_left _ (is_some (dispatch_by_id (codes "O") confirmed_db)) before_confirmed

before_loss : (is_ok request && is_ok confirmation) ≡ true
before_loss = and_left _ (is_ok loss) before_found

is_some-eq :
    (d : DispatchRow) (o : Option DispatchRow)
    → is_some o ≡ true
    → o ≡ some (elim o [ none ↦ d | some x ↦ x ])
is_some-eq d none h = cc
is_some-eq d (some x) h = refl

pub confirmed_dispatch_eq : dispatch_by_id (codes "O") confirmed_db ≡ some confirmed_dispatch
confirmed_dispatch_eq =
    is_some-eq dispatch_row _
      (and_right _ (is_some (dispatch_by_id (codes "O") confirmed_db)) before_confirmed)

pub confirmed_dispatch_confirmed : is_send_confirmed confirmed_dispatch.stage ≡ true
confirmed_dispatch_confirmed = and_right _ (is_send_confirmed confirmed_dispatch.stage) sends_ok

pub confirmation_eq : confirmation ≡ ok confirmed_db
confirmation_eq =
    is_ok-eq requested_db confirmation (and_right (is_ok request) (is_ok confirmation) before_loss)

pub loss_eq : loss ≡ ok lost_db
loss_eq = is_ok-eq requested_db loss (and_right _ (is_ok loss) before_found)

pub requested-Run : Run codec empty_db requested_db
requested-Run = Run-trans ready-Run (
    dispatch-Step
    then requests_send (call 4) _ _ _ _ _ _ 0
        (is_ok-eq dispatched_db request (and_left (is_ok request) (is_ok confirmation) before_loss))
    then idle)

pub confirmed-Run : Run codec empty_db confirmed_db
confirmed-Run = Run-trans requested-Run (
    confirms_send (call 5) _ _ _ 0 _ (
      is_ok-eq requested_db confirmation
        (and_right (is_ok request) (is_ok confirmation) before_loss))
    then idle)

lengths :
    (length requested_db.tasks ≡ 1)
    × (length requested_db.attempts ≡ 1)
    × (length requested_db.dispatches ≡ 1)
    × (length requested_db.sessions ≡ 1)
unfolding ◌>>=◌ ◌>>◌ guard or_fail ◌=ᵗ◌ leading_space trailing_space trim_by trim_space is_blank
    find exists_row count update insert ◌=ˢ◌ allowed_transitions can_transition transition empty_db
    genesis_audit_hash append_audit_event_tx prepare_event check_lineage chain_event chained_row
    compute_event_hash compute_event_hash_raw hash_input prefixed big_endian audit_domain_separator
    ends_with has_dot_dot is_forbidden_byte base_name upper device_names validate_identity_segment
    canonical_expected_report_path create_task transition_task lane_taken latest_contract
    check_ready_contract insert_task_contract check_first_revision audit_task_dispatch_bound
    supervisor_actor pair_blocked max_revision insert_attempt insert_dispatch claim_task
    freeze_contract check_binding new_attempt new_dispatch prepare_dispatch prepare_bound_dispatch
    is_hold recovery_pending pre_send_protocol_unverified already_held may_hold same_text holds
    set_hold record_pre_send_hold dispatch_by_id attempt_by_id lineage_event lineage_of
    audit_pre_send_admissibility_rejected audit_task_state_transition is_current_open
    current_open_attempt_lineage move_task close_attempt requires_double_quarantine
    quarantine_attempt_session atomic_terminal_transition state_name record_send_requested
    send_guard is_admissible audit_dispatch_send_requested record_send_confirmed insert_budget
    has_budget awaits_confirmation audit_dispatch_send_confirmed record_unknown_delivery
    close_unknown audit_uncertain_delivery_quarantine delivery_outcome_unknown
    uncertain_delivery_crash
lengths = (refl, refl, refl, refl)

pub requested-IsKeyed : IsKeyed requested_db
requested-IsKeyed = record {
  one_task = λ k. omega (arith, count-length (λ t. t.task_id =ᵗ k) requested_db.tasks, lengths.0);
  one_attempt =
      λ k. omega (arith, count-length (λ t. t.attempt_id =ᵗ k) requested_db.attempts, lengths.1);
  one_dispatch = λ k.
      omega (arith, count-length (λ t. t.operation_id =ᵗ k) requested_db.dispatches, lengths.2);
  one_session =
      λ k. omega (arith, count-length (λ t. t.pair_id =ᵗ k) requested_db.sessions, lengths.3);
}

abbrev start : Outcome Db
start = transition_task 107 (codes "T") dispatched running confirmed_db

abbrev pub running_db : Db
running_db = value_of confirmed_db start

abbrev first_budget : Outcome BudgetRow
first_budget = get_execution_budget (codes "A") confirmed_db

abbrev later_budget : Outcome BudgetRow
later_budget = get_execution_budget (codes "A") running_db

abbrev empty_budget : BudgetRow
empty_budget = record {
  attempt_id = [];
  dispatch_operation_id = [];
  origin_at = 0;
  deadline_at = 0;
  duration_ns = 0;
  policy_ref = [];
  binding_basis = send_confirmation_atomic;
  authorized_principal = none;
  evidence_ref = none;
  bound_at = 0;
}

abbrev pub first_row : BudgetRow
first_row = value_of empty_budget first_budget

abbrev pub later_row : BudgetRow
later_row = value_of empty_budget later_budget

budgets_ok : (is_ok start && is_ok first_budget && is_ok later_budget) ≡ true
unfolding ◌>>=◌ ◌>>◌ guard or_fail ◌=ᵗ◌ leading_space trailing_space trim_by trim_space is_blank
    find exists_row count update insert ◌=ˢ◌ allowed_transitions can_transition transition empty_db
    genesis_audit_hash append_audit_event_tx prepare_event check_lineage chain_event chained_row
    compute_event_hash compute_event_hash_raw hash_input prefixed big_endian audit_domain_separator
    ends_with has_dot_dot is_forbidden_byte base_name upper device_names validate_identity_segment
    canonical_expected_report_path create_task transition_task lane_taken latest_contract
    check_ready_contract insert_task_contract check_first_revision audit_task_dispatch_bound
    supervisor_actor pair_blocked max_revision insert_attempt insert_dispatch claim_task
    freeze_contract check_binding new_attempt new_dispatch prepare_dispatch prepare_bound_dispatch
    is_hold recovery_pending pre_send_protocol_unverified already_held may_hold same_text holds
    set_hold record_pre_send_hold dispatch_by_id attempt_by_id lineage_event lineage_of
    audit_pre_send_admissibility_rejected audit_task_state_transition is_current_open
    current_open_attempt_lineage move_task close_attempt requires_double_quarantine
    quarantine_attempt_session atomic_terminal_transition state_name record_send_requested
    send_guard is_admissible audit_dispatch_send_requested record_send_confirmed insert_budget
    has_budget awaits_confirmation audit_dispatch_send_confirmed record_unknown_delivery
    close_unknown audit_uncertain_delivery_quarantine delivery_outcome_unknown
    uncertain_delivery_crash get_execution_budget budget_by_attempt is_sound_budget is_executing
budgets_ok = refl

before_later : (is_ok start && is_ok first_budget) ≡ true
before_later = and_left _ (is_ok later_budget) budgets_ok

pub first_eq : first_budget ≡ ok first_row
first_eq =
    is_ok-eq empty_budget first_budget (and_right (is_ok start) (is_ok first_budget) before_later)

pub later_eq : later_budget ≡ ok later_row
later_eq = is_ok-eq empty_budget later_budget (and_right _ (is_ok later_budget) budgets_ok)

pub start-Run : Run codec confirmed_db running_db
start-Run =
    transitions 107 _ _ _
      (is_ok-eq confirmed_db start (and_left (is_ok start) (is_ok first_budget) before_later))
    then idle
