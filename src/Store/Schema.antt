-- ===== src/Store/Schema.antt =====
-- The tables of internal/store/migrations.go (v1 to v5), the entities of internal/domain whose rows
-- they hold, the errors of internal/store/errors.go, and what the store takes from outside.
use ai_supervisor.Base.{ℕ, Bool, true, false, Option, List, [], Result, ◌==◌, if◌then◌else◌}
use ai_supervisor.Base.Text.{Text, codes}
use ai_supervisor.Workflow.{TaskState}

-- time.Time in UTC as nanoseconds since year 1, which is its zero value. The columns hold it as
-- RFC 3339 text, and that text and the number determine each other.
abbrev pub Time : Type 0
Time = ℕ

-- IsZero, and the time that stands for a zero one.
abbrev pub or_now : Time → Time → Time
or_now now at = if at == 0 then now else at

pub data StoreError : Type 0 where
  project_not_found pair_not_found task_not_found contract_not_found attempt_not_found : StoreError
  task_not_ready contract_not_owned contract_immutable state_conflict : StoreError
  duplicate_key foreign_key_violation worker_session_not_found operation_not_found : StoreError
  invalid_operation_transition attempt_lineage_mismatch quarantined_execution : StoreError
  atomic_dispatch_required invalid_initial_task_state report_path_mismatch : StoreError
  stale_contract_revision invalid_contract_lineage pair_busy ready_contract_required : StoreError
  contract_insert_state audit_chain_invalid invalid_audit_lineage : StoreError
  bound_dispatch_required inconsistent_persisted_state : StoreError
  -- a canonical transition that the workflow rejects
  transition_rejected : TaskState → TaskState → StoreError
  -- an error with no sentinel: an argument that is missing or invalid
  invalid_argument : StoreError
  -- an error of the database or of the operating system with no sentinel
  system_error : StoreError

abbrev pub Outcome : Type 0 → Type 0
Outcome A = Result StoreError A

pub data Quarantine : Type 0 where
  clean quarantined : Quarantine

abbrev pub is_clean : Quarantine → Bool
is_clean clean = true
is_clean quarantined = false

pub record PairRow : Type 0 where
  pub pair_id : Text
  pub project_id : Text
  pub current_phase_id : Text
  pub active_task_id : Option Text
  pub pair_state : Text
  pub created_at : Time

pub record TaskRow : Type 0 where
  pub task_id : Text
  pub phase_id : Text
  pub pair_id : Text
  pub state : TaskState
  pub current_attempt : ℕ
  pub created_at : Time
  pub updated_at : Time

pub record ContractRow : Type 0 where
  pub contract_id : Text
  pub task_id : Text
  pub revision_number : ℕ
  pub supersedes_contract_id : Option Text
  pub base_sha : Text
  pub payload_json : Text
  pub is_immutable : Bool

pub record AttemptRow : Type 0 where
  pub attempt_id : Text
  pub attempt_number : ℕ
  pub task_id : Text
  pub contract_id : Text
  pub expected_report_path : Text
  pub started_at : Time
  pub ended_at : Option Time
  pub worker_report_raw : Option Text
  pub session_id : Option Text
  pub terminal_generation : Option Text
  pub recovery_disposition : Option Text
  pub quarantine_state : Quarantine

pub data SessionStatus : Type 0 where
  active idle terminated : SessionStatus

pub record SessionRow : Type 0 where
  pub pair_id : Text
  pub session_id : Text
  pub runtime_type : Text
  pub worktree_path : Option Text
  pub worker_agent_id : Text
  pub status : SessionStatus
  pub terminal_generation : Text
  pub quarantine_state : Quarantine
  pub created_at : Time
  pub updated_at : Time

pub data ProvisioningStage : Type 0 where
  provision_requested provision_confirmed provision_failed provision_resolved : ProvisioningStage

-- `stage IN ('PROVISION_REQUESTED','PROVISION_FAILED')`
abbrev pub is_unresolved_stage : ProvisioningStage → Bool
is_unresolved_stage provision_requested = true
is_unresolved_stage provision_failed = true
is_unresolved_stage _ = false

abbrev pub is_requested_stage : ProvisioningStage → Bool
is_requested_stage provision_requested = true
is_requested_stage _ = false

abbrev pub is_failed_stage : ProvisioningStage → Bool
is_failed_stage provision_failed = true
is_failed_stage _ = false

pub record ProvisioningRow : Type 0 where
  pub operation_id : Text
  pub pair_id : Text
  pub stage : ProvisioningStage
  pub client_token : Text
  pub session_id : Option Text
  pub requested_at : Time
  pub completed_at : Option Time
  pub resolved_at : Option Time
  pub resolved_by : Option Text
  pub resolution_notes : Option Text

pub data DispatchStage : Type 0 where
  dispatch_bound send_requested send_confirmed : DispatchStage

abbrev pub is_bound : DispatchStage → Bool
is_bound dispatch_bound = true
is_bound _ = false

abbrev pub is_send_requested : DispatchStage → Bool
is_send_requested send_requested = true
is_send_requested _ = false

abbrev pub is_send_confirmed : DispatchStage → Bool
is_send_confirmed send_confirmed = true
is_send_confirmed _ = false

pub record DispatchRow : Type 0 where
  pub operation_id : Text
  pub attempt_id : Text
  pub pair_id : Text
  pub task_id : Text
  pub session_id : Text
  pub terminal_generation : Text
  pub stage : DispatchStage
  pub requested_at : Time
  pub confirmed_at : Option Time
  pub resolution_state : Option Text

pub data RestoreResolution : Type 0 where
  restore_in_flight restore_outcome_unknown restore_recovery_claimed : RestoreResolution
  restore_cleanup_claimed restore_resolved : RestoreResolution

abbrev pub is_restore_in_flight : RestoreResolution → Bool
is_restore_in_flight restore_in_flight = true
is_restore_in_flight _ = false

abbrev pub is_cleanup_claimed : RestoreResolution → Bool
is_cleanup_claimed restore_cleanup_claimed = true
is_cleanup_claimed _ = false

-- `resolution_state<>'RESTORE_RESOLVED'`
abbrev pub is_unresolved_restore : RestoreResolution → Bool
is_unresolved_restore restore_resolved = false
is_unresolved_restore _ = true

pub data RestoreStage : Type 0 where
  restore_requested restore_confirmed : RestoreStage

-- The columns of pair_restore_operations that the guards of the other tables' statements read.
pub record RestoreRow : Type 0 where
  pub operation_id : Text
  pub pair_id : Text
  pub session_id : Text
  pub expected_generation : Text
  pub observed_generation : Option Text
  pub stage : RestoreStage
  pub resolution : RestoreResolution
  pub recovery_principal : Option Text

pub data StopPurpose : Type 0 where
  running_attempt_stop quarantine_cleanup pair_maintenance : StopPurpose

abbrev pub is_running_attempt_stop : StopPurpose → Bool
is_running_attempt_stop running_attempt_stop = true
is_running_attempt_stop _ = false

pub data StopStage : Type 0 where
  stop_requested stop_call_succeeded stop_call_failed : StopStage
  stop_termination_confirmed stop_target_absent : StopStage

abbrev pub is_stop_requested : StopStage → Bool
is_stop_requested stop_requested = true
is_stop_requested _ = false

abbrev pub is_call_succeeded : StopStage → Bool
is_call_succeeded stop_call_succeeded = true
is_call_succeeded _ = false

pub data StopResolution : Type 0 where
  in_flight termination_confirmed target_absent confirmation_timeout : StopResolution
  generation_mismatch effect_unproven_already_terminated reissue_requires_human : StopResolution
  call_failed call_outcome_unknown administrative_risk_accepted : StopResolution

abbrev pub is_in_flight : StopResolution → Bool
is_in_flight in_flight = true
is_in_flight _ = false

-- `resolution_state IN ('IN_FLIGHT','STOP_CALL_OUTCOME_UNKNOWN','STOP_CONFIRMATION_TIMEOUT',
-- 'STOP_REISSUE_REQUIRES_HUMAN')`
abbrev pub is_unresolved_stop : StopResolution → Bool
is_unresolved_stop in_flight = true
is_unresolved_stop call_outcome_unknown = true
is_unresolved_stop confirmation_timeout = true
is_unresolved_stop reissue_requires_human = true
is_unresolved_stop _ = false

pub record StopRow : Type 0 where
  pub operation_id : Text
  pub purpose : StopPurpose
  pub pair_id : Text
  pub task_id : Option Text
  pub contract_id : Option Text
  pub attempt_id : Option Text
  pub session_id : Text
  pub terminal_generation : Text
  pub stage : StopStage
  pub actor : Text
  pub requested_at : Time
  pub call_completed_at : Option Time
  pub confirmation_deadline_at : Option Time
  pub termination_confirmed_at : Option Time
  pub resolved_at : Option Time
  pub resolution_state : StopResolution
  pub restore_operation_id : Option Text
  pub initiating_failure_reason : Option Text

pub data BindingBasis : Type 0 where
  send_confirmation_atomic legacy_operator_verified : BindingBasis

pub record BudgetRow : Type 0 where
  pub attempt_id : Text
  pub dispatch_operation_id : Text
  pub origin_at : Time
  pub deadline_at : Time
  pub duration_ns : ℕ
  pub policy_ref : Text
  pub binding_basis : BindingBasis
  pub authorized_principal : Option Text
  pub evidence_ref : Option Text
  pub bound_at : Time

-- A value in the details of an audit event.
pub data Detail : Type 0 where
  text : Text → Detail
  number : ℕ → Detail
  flag : Bool → Detail
  nil : Detail

-- domain.AuditEvent, an empty text for an absent identity.
pub record AuditEvent : Type 0 where
  pub event_id : Text
  pub event_type : Text
  pub timestamp : Time
  pub task_id : Text
  pub contract_id : Text
  pub attempt_id : Text
  pub pair_id : Text
  pub actor : Text
  pub details : List (Text × Detail)

pub record AuditRow : Type 0 where
  pub sequence : ℕ
  pub event_id : Text
  pub event_type : Text
  pub timestamp : Time
  pub pair_id : Option Text
  pub task_id : Option Text
  pub contract_id : Option Text
  pub attempt_id : Option Text
  pub actor : Text
  pub details_json : Text
  pub prev_hash : Text
  pub event_hash : Text

-- The tables; `last_sequence` and `last_hash` are the one row of audit_chain_state.
pub record Db : Type 0 where
  pub pairs : List PairRow
  pub tasks : List TaskRow
  pub contracts : List ContractRow
  pub attempts : List AttemptRow
  pub sessions : List SessionRow
  pub provisionings : List ProvisioningRow
  pub dispatches : List DispatchRow
  pub restores : List RestoreRow
  pub stops : List StopRow
  pub budgets : List BudgetRow
  pub audit_events : List AuditRow
  pub last_sequence : ℕ
  pub last_hash : Text

-- What the store calls: SHA-256 in hexadecimal, RFC 3339 formatting, and the scrubber of
-- internal/audit with its JSON text of the details (`none` is its error); and SQLite's json_extract of
-- a text under a key.
pub record Codec : Type 0 where
  pub sha256_hex : Text → Text
  pub format_time : Time → Text
  pub sanitize : AuditEvent → Option (AuditEvent × Text)
  pub json_text : Text → Text → Option Text

-- What one call of an operation takes from its surroundings: the clock, and the results of its
-- calls of newAuditEventID in their order (`none` where the source of randomness fails).
pub record Surroundings : Type 0 where
  pub now : Time
  pub new_event_id : ℕ → Option Text

-- GenesisAuditHash
unfoldable pub genesis_audit_hash : Text
genesis_audit_hash = codes "0000000000000000000000000000000000000000000000000000000000000000"

-- A database after the migrations: no row, and the chain state that v2 inserts.
unfoldable pub empty_db : Db
empty_db = record {
  pairs = [];
  tasks = [];
  contracts = [];
  attempts = [];
  sessions = [];
  provisionings = [];
  dispatches = [];
  restores = [];
  stops = [];
  budgets = [];
  audit_events = [];
  last_sequence = 0;
  last_hash = genesis_audit_hash;
}
