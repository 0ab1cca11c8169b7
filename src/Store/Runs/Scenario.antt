-- ===== src/Store/Runs/Scenario.antt =====
-- A run of internal/store from the migrated database: a task is dispatched, its send is held, it
-- fails, and it is made READY again.
pub mod Sends
pub mod Holding
use ai_supervisor.Base.{
  length, false, none, some, true, ℕ, ◌+◌, ◌≡◌, refl, Bool, true, false, ◌&&◌, none, some, List, [],
  ◌∷◌, ok, err, ◌>>=◌, ◌>>◌, guard, or_fail, is_some, and_left, and_right, if◌then◌else◌,
}
use ai_supervisor.Base.Text.{
  codes, ◌=ᵗ◌, leading_space, trailing_space, trim_by, trim_space, is_blank,
}
use ai_supervisor.Base.Table.{find, exists_row, count, update, insert}
use ai_supervisor.Workflow.{
  draft, ready, dispatched, failed, approved, ◌=ˢ◌, state_name, allowed_transitions, can_transition,
  transition,
}
use ai_supervisor.Store.Schema.{
  DispatchRow, is_send_confirmed, Outcome, Db, Codec, Surroundings, PairRow, TaskRow, ContractRow,
  AttemptRow, SessionRow, active, clean, empty_db, genesis_audit_hash,
}
use ai_supervisor.Store.Audit.{
  append_audit_event_tx, prepare_event, check_lineage, chain_event, chained_row, compute_event_hash,
  compute_event_hash_raw, hash_input, prefixed, big_endian, audit_domain_separator,
}
use ai_supervisor.Store.ReportPath.{
  ends_with, has_dot_dot, is_forbidden_byte, base_name, upper, device_names,
  validate_identity_segment, canonical_expected_report_path,
}
use ai_supervisor.Store.Tasks.{
  create_task, get_task, transition_task, lane_taken, latest_contract, check_ready_contract,
}
use ai_supervisor.Store.Contracts.{insert_task_contract, get_task_contract, check_first_revision}
use ai_supervisor.Store.Dispatch.{
  DispatchBinding, get_task_attempt, audit_task_dispatch_bound, supervisor_actor, pair_blocked,
  max_revision, insert_attempt, insert_dispatch, claim_task, freeze_contract, check_binding,
  new_attempt, new_dispatch, prepare_dispatch, prepare_bound_dispatch,
}
use ai_supervisor.Store.Send.Unknown.{close_unknown, record_unknown_delivery}
use ai_supervisor.Store.Send.{
  BudgetPolicy, record_send_requested, send_guard, is_admissible, audit_dispatch_send_requested,
  record_send_confirmed, insert_budget, has_budget, awaits_confirmation,
  audit_dispatch_send_confirmed, audit_uncertain_delivery_quarantine, delivery_outcome_unknown,
  uncertain_delivery_crash, lineage_event, lineage_of, dispatch_by_id, attempt_by_id,
  audit_task_state_transition,
}
use ai_supervisor.Store.Send.Holds.{
  audit_pre_send_admissibility_rejected, recovery_pending, pre_send_protocol_unverified, is_hold,
  already_held, may_hold, same_text, holds, set_hold, record_pre_send_hold,
}
use ai_supervisor.Store.Closure.{
  is_current_open, current_open_attempt_lineage, move_task, close_attempt,
  requires_double_quarantine, quarantine_attempt_session, atomic_terminal_transition,
}
use ai_supervisor.Store.Runs.Laws.{Run-trans}
use ai_supervisor.Store.Runs.{
  requests_send, confirms_send, Step, creates, transitions, revises, dispatches_bound, holds_send,
  terminates, elsewhere, Run, idle, ◌then◌,
}

-- A hash that is the identity, a time as one byte, and a scrubber that finds nothing.
abbrev pub codec : Codec
codec = record {
  sha256_hex = λ s. s;
  format_time = λ t. t ∷ [];
  sanitize = λ e. some (e, codes "{}");
  json_text = λ json key. none;
}

abbrev pub call : ℕ → Surroundings
call n = record { now = 100 + n; new_event_id = λ k. some (n ∷ k ∷ []) }

abbrev pub is_ok : {A : Type 0} → Outcome A → Bool
is_ok (ok a) = true
is_ok (err e) = false

abbrev pub value_of : {A : Type 0} → A → Outcome A → A
value_of a (ok b) = b
value_of a (err e) = a

pub is_ok-eq : {A : Type 0} (a : A) (m : Outcome A) → is_ok m ≡ true → m ≡ ok (value_of a m)
is_ok-eq a (ok b) h = refl
is_ok-eq a (err e) h = cc

abbrev pub pair_rows : List PairRow
pair_rows =
    record {
      pair_id = codes "P";
      project_id = codes "R";
      current_phase_id = codes "F";
      active_task_id = none;
      pair_state = codes "IDLE";
      created_at = 1;
    }
    ∷ []

abbrev pub session_rows : List SessionRow
session_rows =
    record {
      pair_id = codes "P";
      session_id = codes "S";
      runtime_type = codes "codex";
      worktree_path = none;
      worker_agent_id = codes "W";
      status = active;
      terminal_generation = codes "G";
      quarantine_state = clean;
      created_at = 1;
      updated_at = 1;
    }
    ∷ []

abbrev pub task_row : TaskRow
task_row = record {
  task_id = codes "T";
  phase_id = codes "F";
  pair_id = codes "P";
  state = draft;
  current_attempt = 0;
  created_at = 0;
  updated_at = 0;
}

abbrev pub contract_row : ContractRow
contract_row = record {
  contract_id = codes "C";
  task_id = codes "T";
  revision_number = 1;
  supersedes_contract_id = none;
  base_sha = codes "b";
  payload_json = codes "{}";
  is_immutable = false;
}

abbrev pub binding : DispatchBinding
binding = record {
  operation_id = codes "O";
  session_id = codes "S";
  terminal_generation = codes "G";
}

abbrev pub provisioned : Db
provisioned = record empty_db {
  pairs = pair_rows;
  sessions = session_rows;
  provisionings = [];
  restores = [];
  stops = [];
}

abbrev pub creation : Outcome Db
creation = create_task 101 task_row provisioned

abbrev pub created_db : Db
created_db = value_of provisioned creation

abbrev pub revision : Outcome Db
revision = insert_task_contract contract_row created_db

abbrev pub revised_db : Db
revised_db = value_of created_db revision

abbrev pub readiness : Outcome Db
readiness = transition_task 102 (codes "T") draft ready revised_db

abbrev pub ready_db : Db
ready_db = value_of revised_db readiness

abbrev pub dispatch : Outcome (Db × AttemptRow)
dispatch =
    prepare_bound_dispatch codec (call 3) (codes "T") (codes "C") (codes "A")
      (codes ".supervisor/reports/T/A.json") 0 binding ready_db

abbrev pub attempt_row : AttemptRow
attempt_row = new_attempt [] 0 [] [] [] 0 binding

abbrev pub dispatched_pair : Db × AttemptRow
dispatched_pair = value_of (ready_db, attempt_row) dispatch

abbrev pub dispatched_db : Db
dispatched_db = dispatched_pair.0

abbrev pub hold : Outcome Db
hold =
    record_pre_send_hold codec (call 4) (codes "O") (codes "RECOVERY_PENDING") (codes "op") 0
      dispatched_db

abbrev pub held_db : Db
held_db = value_of dispatched_db hold

abbrev pub failure : Outcome Db
failure =
    atomic_terminal_transition codec (call 5) (codes "T") dispatched failed (codes "lost")
      (codes "A") (codes "SESSION_ABSENT") held_db

abbrev pub failed_db : Db
failed_db = value_of held_db failure

abbrev pub retry : Outcome Db
retry = transition_task 106 (codes "T") failed ready failed_db

abbrev pub retried_db : Db
retried_db = value_of failed_db retry

scenario_ok :
    (is_ok creation
      && is_ok revision
      && is_ok readiness
      && is_ok dispatch
      && is_ok hold
      && is_ok failure
      && is_ok retry)
    ≡ true
unfolding ◌>>=◌ ◌>>◌ guard or_fail ◌=ᵗ◌ leading_space trailing_space trim_by trim_space is_blank
    find exists_row count update insert ◌=ˢ◌ allowed_transitions can_transition transition empty_db
    genesis_audit_hash append_audit_event_tx prepare_event check_lineage chain_event chained_row
    compute_event_hash compute_event_hash_raw hash_input prefixed big_endian audit_domain_separator
    ends_with has_dot_dot is_forbidden_byte base_name upper device_names validate_identity_segment
    canonical_expected_report_path create_task transition_task lane_taken latest_contract
    check_ready_contract insert_task_contract check_first_revision audit_task_dispatch_bound
    supervisor_actor pair_blocked max_revision insert_attempt insert_dispatch claim_task
    freeze_contract check_binding new_attempt new_dispatch prepare_dispatch prepare_bound_dispatch
    is_hold recovery_pending pre_send_protocol_unverified already_held may_hold same_text holds
    set_hold record_pre_send_hold dispatch_by_id attempt_by_id lineage_event lineage_of
    audit_pre_send_admissibility_rejected audit_task_state_transition is_current_open
    current_open_attempt_lineage move_task close_attempt requires_double_quarantine
    quarantine_attempt_session atomic_terminal_transition state_name
scenario_ok = refl

-- The successes before each step.
before_retry :
    (is_ok creation
      && is_ok revision
      && is_ok readiness
      && is_ok dispatch
      && is_ok hold
      && is_ok failure)
    ≡ true
before_retry = and_left _ (is_ok retry) scenario_ok

before_failure :
    (is_ok creation && is_ok revision && is_ok readiness && is_ok dispatch && is_ok hold) ≡ true
before_failure = and_left _ (is_ok failure) before_retry

pub before_hold : (is_ok creation && is_ok revision && is_ok readiness && is_ok dispatch) ≡ true
before_hold = and_left _ (is_ok hold) before_failure

before_dispatch : (is_ok creation && is_ok revision && is_ok readiness) ≡ true
before_dispatch = and_left _ (is_ok dispatch) before_hold

before_readiness : (is_ok creation && is_ok revision) ≡ true
before_readiness = and_left _ (is_ok readiness) before_dispatch

pub dispatched_eq : dispatch ≡ ok dispatched_pair
dispatched_eq = is_ok-eq (ready_db, attempt_row) dispatch (and_right _ (is_ok dispatch) before_hold)

pub hold_eq : hold ≡ ok held_db
hold_eq = is_ok-eq dispatched_db hold (and_right _ (is_ok hold) before_failure)

pub last_steps : Run codec dispatched_db retried_db
last_steps =
    holds_send (call 4) _ _ _ 0 hold_eq
    then terminates (call 5) _ _ _ _ _ _
        (is_ok-eq held_db failure (and_right _ (is_ok failure) before_retry))
    then transitions 106 _ _ _ (is_ok-eq failed_db retry (and_right _ (is_ok retry) scenario_ok))
    then idle

pub ready-Run : Run codec empty_db ready_db
ready-Run =
    elsewhere pair_rows session_rows [] [] []
    then creates 101 task_row (
        is_ok-eq provisioned creation (and_left (is_ok creation) (is_ok revision) before_readiness))
    then revises contract_row (
        is_ok-eq created_db revision (and_right (is_ok creation) (is_ok revision) before_readiness))
    then transitions 102 _ _ _
        (is_ok-eq revised_db readiness (and_right _ (is_ok readiness) before_dispatch))
    then idle

pub dispatch-Step : Step codec ready_db dispatched_db
dispatch-Step = dispatches_bound (call 3) _ _ _ _ 0 binding _ dispatched_eq

pub sample-Run : Run codec empty_db retried_db
sample-Run = Run-trans ready-Run (dispatch-Step then last_steps)

abbrev pub dispatched_task : TaskRow
dispatched_task = value_of task_row (get_task (codes "T") dispatched_db)

abbrev pub dispatched_attempt : AttemptRow
dispatched_attempt = value_of attempt_row (get_task_attempt (codes "A") dispatched_db)

abbrev pub ended_attempt : AttemptRow
ended_attempt = value_of attempt_row (get_task_attempt (codes "A") failed_db)

-- A database with a task that is APPROVED, in which another is created.
abbrev pub approved_db : Db
approved_db = record provisioned {
  tasks = record task_row { task_id = codes "U"; state = approved } ∷ [];
}

abbrev pub second_db : Db
second_db = value_of approved_db (create_task 107 task_row approved_db)

pub lookups :
    (get_task (codes "T") dispatched_db ≡ ok dispatched_task)
    × (get_task_contract (codes "C") dispatched_db ≡ ok (codes "{}", true))
    × (get_task_attempt (codes "A") failed_db ≡ ok ended_attempt)
    × (is_some ended_attempt.ended_at ≡ true)
    × (get_task (codes "U") approved_db
        ≡ ok (record task_row { task_id = codes "U"; state = approved }))
    × (create_task 107 task_row approved_db ≡ ok second_db)
    × (get_task_attempt (codes "A") dispatched_db ≡ ok dispatched_attempt)
    × (length dispatched_db.attempts ≡ 1)
unfolding ◌>>=◌ ◌>>◌ guard or_fail ◌=ᵗ◌ leading_space trailing_space trim_by trim_space is_blank
    find exists_row count update insert ◌=ˢ◌ allowed_transitions can_transition transition empty_db
    genesis_audit_hash append_audit_event_tx prepare_event check_lineage chain_event chained_row
    compute_event_hash compute_event_hash_raw hash_input prefixed big_endian audit_domain_separator
    ends_with has_dot_dot is_forbidden_byte base_name upper device_names validate_identity_segment
    canonical_expected_report_path create_task transition_task lane_taken latest_contract
    check_ready_contract insert_task_contract check_first_revision audit_task_dispatch_bound
    supervisor_actor pair_blocked max_revision insert_attempt insert_dispatch claim_task
    freeze_contract check_binding new_attempt new_dispatch prepare_dispatch prepare_bound_dispatch
    is_hold recovery_pending pre_send_protocol_unverified already_held may_hold same_text holds
    set_hold record_pre_send_hold dispatch_by_id attempt_by_id lineage_event lineage_of
    audit_pre_send_admissibility_rejected audit_task_state_transition is_current_open
    current_open_attempt_lineage move_task close_attempt requires_double_quarantine
    quarantine_attempt_session atomic_terminal_transition state_name get_task get_task_contract
    get_task_attempt
lookups = (refl, refl, refl, refl, refl, refl, refl, refl)

pub retry_step : Run codec failed_db retried_db
retry_step =
    transitions 106 _ _ _ (is_ok-eq failed_db retry (and_right _ (is_ok retry) scenario_ok))
    then idle

pub dispatched-Run : Run codec empty_db dispatched_db
dispatched-Run = Run-trans ready-Run (dispatch-Step then idle)

pub readiness_eq : readiness ≡ ok ready_db
readiness_eq = is_ok-eq revised_db readiness (and_right _ (is_ok readiness) before_dispatch)
