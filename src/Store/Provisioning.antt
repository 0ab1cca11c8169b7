-- ===== src/Store/Provisioning.antt =====
-- internal/store/provisioning_transactions.go, and FailProvisioningAtStartup of
-- internal/store/recovery_transactions.go: the session of a pair is reserved, and then confirmed or
-- failed.
pub mod Lane
pub mod Confirmed
pub mod Tests
use ai_supervisor.Base.{
  Bool, ◌&&◌, ◌||◌, not, Option, none, some, [], ◌∷◌, ok, ◌>>=◌, ◌>>◌, guard, or_fail, ltb, ◌==◌,
  if◌then◌else◌, is_some,
}
use ai_supervisor.Base.Text.{Text, codes, ◌=ᵗ◌, is_empty}
use ai_supervisor.Base.Table.{find, exists_row, count, update, insert}
use ai_supervisor.Workflow.{TaskState, dispatched, running, blocked, reviewing, ◌=ˢ◌}
use ai_supervisor.Store.Schema.{
  Time, or_now, Outcome, Codec, Surroundings, Detail, TaskRow, SessionRow, SessionStatus,
  Quarantine, ProvisioningRow, Db, clean, is_clean, provision_requested, provision_confirmed,
  provision_failed, is_unresolved_stage, is_requested_stage, is_failed_stage, is_unresolved_restore,
  is_unresolved_stop, invalid_argument, system_error, state_conflict, quarantined_execution,
  duplicate_key, foreign_key_violation, operation_not_found,
}
use ai_supervisor.Store.Audit.{append_audit_event_tx}
use ai_supervisor.Store.Send.{Lineage, lineage_event}

-- The event types of internal/domain/session_lifecycle.go.
unfoldable pub audit_pair_session_provision_requested : Text
audit_pair_session_provision_requested = codes "PAIR_SESSION_PROVISION_REQUESTED"

unfoldable pub audit_pair_session_provisioned : Text
audit_pair_session_provisioned = codes "PAIR_SESSION_PROVISIONED"

unfoldable pub audit_pair_session_provision_failed : Text
audit_pair_session_provision_failed = codes "PAIR_SESSION_PROVISION_FAILED"

-- `t.state IN ('DISPATCHED','RUNNING','BLOCKED','REVIEWING')`
unfoldable pub needs_attempt : TaskState → Bool
needs_attempt s = s =ˢ dispatched || s =ˢ running || s =ˢ blocked || s =ˢ reviewing

unfoldable pub has_current_attempt : TaskRow → Db → Bool
has_current_attempt t db =
    exists_row (λ a. a.task_id =ᵗ t.task_id && a.attempt_number == t.current_attempt) db.attempts

-- The pair's unresolved operations: a restore, a provisioning or a stop.
unfoldable pub has_unresolved_operation : Text → Db → Bool
has_unresolved_operation pair_id db =
    exists_row (λ r. r.pair_id =ᵗ pair_id && is_unresolved_restore r.resolution) db.restores
    || exists_row (λ p. p.pair_id =ᵗ pair_id && is_unresolved_stage p.stage) db.provisionings
    || exists_row (λ o. o.pair_id =ᵗ pair_id && is_unresolved_stop o.resolution_state) db.stops

-- An open attempt of the pair, or a task of it whose current attempt is missing.
unfoldable pub has_active_lineage : Text → Db → Bool
has_active_lineage pair_id db =
    exists_row
      (λ a.
        not (is_some a.ended_at)
        && exists_row (λ t. t.task_id =ᵗ a.task_id && t.pair_id =ᵗ pair_id) db.tasks)
      db.attempts
    || exists_row
        (λ t.
          t.pair_id =ᵗ pair_id
          && (ltb 0 t.current_attempt && not (has_current_attempt t db)
              || needs_attempt t.state
                && (t.current_attempt == 0 || not (has_current_attempt t db))))
        db.tasks

-- A quarantined session or attempt of the pair.
unfoldable pub has_quarantine : Text → Db → Bool
has_quarantine pair_id db =
    exists_row (λ w. w.pair_id =ᵗ pair_id && not (is_clean w.quarantine_state)) db.sessions
    || exists_row
        (λ a.
          not (is_clean a.quarantine_state)
          && exists_row (λ t. t.task_id =ᵗ a.task_id && t.pair_id =ᵗ pair_id) db.tasks)
        db.attempts

-- The INSERT into pair_provisioning_operations: its unique columns, and its pair.
unfoldable pub insert_provisioning : ProvisioningRow → Db → Outcome Db
insert_provisioning p db = do
  guard
      (not (
        exists_row
          (λ r.
            r.operation_id =ᵗ p.operation_id
            || r.pair_id =ᵗ p.pair_id && is_unresolved_stage r.stage && is_unresolved_stage p.stage)
          db.provisionings))
      duplicate_key
  guard (exists_row (λ r. r.pair_id =ᵗ p.pair_id) db.pairs) foreign_key_violation
  ok (record db { provisionings = insert p db.provisionings })

-- The INSERT into worker_sessions, likewise.
unfoldable pub insert_session : SessionRow → Db → Outcome Db
insert_session w db = do
  guard (not (exists_row (λ r. r.pair_id =ᵗ w.pair_id || r.session_id =ᵗ w.session_id) db.sessions))
      duplicate_key
  guard (exists_row (λ r. r.pair_id =ᵗ w.pair_id) db.pairs) foreign_key_violation
  ok (record db { sessions = insert w db.sessions })

-- `operation_id=? AND stage='PROVISION_REQUESTED'`
unfoldable pub is_intent : Text → ProvisioningRow → Bool
is_intent operation_id p = p.operation_id =ᵗ operation_id && is_requested_stage p.stage

-- `operation_id=? AND pair_id=? AND stage='PROVISION_REQUESTED'`
unfoldable pub is_intent_of : Text → Text → ProvisioningRow → Bool
is_intent_of operation_id pair_id p =
    p.operation_id =ᵗ operation_id && p.pair_id =ᵗ pair_id && is_requested_stage p.stage

-- The identities of an event that names a pair and no task.
unfoldable pub pair_lineage : Text → Lineage
pair_lineage pair_id = record { pair_id = pair_id; task_id = []; contract_id = []; attempt_id = [] }

-- The fields of domain.WorkerSession, with no quarantine state for an empty text.
pub record WorkerSession : Type 0 where
  pub pair_id : Text
  pub session_id : Text
  pub runtime_type : Text
  pub worktree_path : Option Text
  pub worker_agent_id : Text
  pub status : SessionStatus
  pub terminal_generation : Text
  pub quarantine_state : Option Quarantine
  pub created_at : Time

abbrev pub or_clean : Option Quarantine → Quarantine
or_clean none = clean
or_clean (some q) = q

unfoldable pub session_row : WorkerSession → Time → SessionRow
session_row w at = record {
  pair_id = w.pair_id;
  session_id = w.session_id;
  runtime_type = w.runtime_type;
  worktree_path = w.worktree_path;
  worker_agent_id = w.worker_agent_id;
  status = w.status;
  terminal_generation = w.terminal_generation;
  quarantine_state = or_clean w.quarantine_state;
  created_at = or_now at w.created_at;
  updated_at = at;
}

unfoldable pub requested_row : Text → Text → Text → Time → ProvisioningRow
requested_row operation_id pair_id client_token now = record {
  operation_id = operation_id;
  pair_id = pair_id;
  stage = provision_requested;
  client_token = client_token;
  session_id = none;
  requested_at = now;
  completed_at = none;
  resolved_at = none;
  resolved_by = none;
  resolution_notes = none;
}

module _ (c : Codec) (s : Surroundings) where
  -- ReservePairProvisioning
  unfoldable pub reserve_pair_provisioning : Text → Text → Text → Time → Text → Db → Outcome Db
  reserve_pair_provisioning operation_id pair_id client_token requested_at actor db = do
    guard
        (not (is_empty operation_id || is_empty pair_id || is_empty client_token || is_empty actor))
        invalid_argument
    let now = or_now s.now requested_at
    event_id ← or_fail (s.new_event_id 0) system_error
    guard (count (λ (w : SessionRow). w.pair_id =ᵗ pair_id) db.sessions == 0) state_conflict
    guard (not (has_unresolved_operation pair_id db)) quarantined_execution
    guard (not (has_active_lineage pair_id db)) quarantined_execution
    guard (not (has_quarantine pair_id db)) quarantined_execution
    reserved ← insert_provisioning (requested_row operation_id pair_id client_token now) db
    audited ←
        append_audit_event_tx c s.now
          (lineage_event event_id audit_pair_session_provision_requested now (pair_lineage pair_id)
            actor
            ((codes "operation_id", Detail.text operation_id)
              ∷ (codes "stage", Detail.text (codes "PROVISION_REQUESTED"))
              ∷ (codes "client_token", Detail.text client_token)
              ∷ []))
          reserved
    ok audited.0

  -- ConfirmPairProvisioning
  unfoldable pub confirm_pair_provisioning : Text → WorkerSession → Text → Time → Db → Outcome Db
  confirm_pair_provisioning operation_id session actor completed_at db = do
    guard
        (not (
          is_empty actor
          || is_empty session.pair_id
          || is_empty session.session_id
          || is_empty session.terminal_generation))
        invalid_argument
    let at = or_now s.now completed_at
    event_id ← or_fail (s.new_event_id 0) system_error
    p ← or_fail (find (is_intent operation_id) db.provisionings) state_conflict
    guard (p.pair_id =ᵗ session.pair_id) state_conflict
    audited ←
        append_audit_event_tx c s.now
          (lineage_event event_id audit_pair_session_provisioned at (pair_lineage p.pair_id) actor (
            (codes "operation_id", Detail.text operation_id)
            ∷ (codes "stage", Detail.text (codes "PROVISION_CONFIRMED"))
            ∷ (codes "session_id", Detail.text session.session_id)
            ∷ (codes "terminal_generation", Detail.text session.terminal_generation)
            ∷ []))
          db
    let db1 = audited.0
    let cas = is_intent_of operation_id p.pair_id
    guard (count cas db1.provisionings == 1) state_conflict
    insert_session (session_row session at) (record db1 {
      provisionings =
          update cas
            (λ r. record r {
              stage = provision_confirmed;
              session_id = some session.session_id;
              completed_at = some at;
            })
            db1.provisionings;
    })

  -- FailPairProvisioning
  unfoldable pub fail_pair_provisioning : Text → Text → Text → Time → Db → Outcome Db
  fail_pair_provisioning operation_id actor reason failed_at db = do
    guard (not (is_empty actor || is_empty reason)) invalid_argument
    let at = or_now s.now failed_at
    event_id ← or_fail (s.new_event_id 0) system_error
    p ← or_fail (find (is_intent operation_id) db.provisionings) state_conflict
    audited ←
        append_audit_event_tx c s.now
          (lineage_event event_id audit_pair_session_provision_failed at (pair_lineage p.pair_id)
            actor
            ((codes "operation_id", Detail.text operation_id)
              ∷ (codes "stage", Detail.text (codes "PROVISION_FAILED"))
              ∷ (codes "reason", Detail.text reason)
              ∷ []))
          db
    let db1 = audited.0
    let cas = is_intent operation_id
    guard (count cas db1.provisionings == 1) state_conflict
    ok (record db1 {
      provisionings =
          update cas (λ r. record r { stage = provision_failed; completed_at = some at })
            db1.provisionings;
    })

  -- FailProvisioningAtStartup past the intent that it found.
  unfoldable pub classify_intent : Text → Text → Time → ProvisioningRow → Db → Outcome Db
  classify_intent operation_id actor at p db = do
    guard (is_requested_stage p.stage) state_conflict
    let cas = is_intent_of operation_id p.pair_id
    guard (ltb 0 (count cas db.provisionings)) state_conflict
    event_id ← or_fail (s.new_event_id 0) system_error
    audited ←
        append_audit_event_tx c s.now
          (lineage_event event_id audit_pair_session_provision_failed at (pair_lineage p.pair_id)
            actor
            ((codes "operation_id", Detail.text operation_id)
              ∷ (codes "stage", Detail.text (codes "PROVISION_FAILED"))
              ∷ (codes "reason", Detail.text (codes "STARTUP_RECOVERY_SWEEP"))
              ∷ []))
          (record db {
            provisionings =
                update cas
                  (λ r. record r {
                    stage = provision_failed;
                    completed_at = some at;
                    resolved_at = some at;
                    resolution_notes = some (codes "STARTUP_RECOVERY_SWEEP");
                  })
                  db.provisionings;
          })
    ok audited.0

  -- FailProvisioningAtStartup
  unfoldable pub fail_provisioning_at_startup : Text → Text → Time → Db → Outcome Db
  fail_provisioning_at_startup operation_id actor at₀ db = do
    guard (not (is_empty operation_id || is_empty actor)) state_conflict
    p ← or_fail (find (λ r. r.operation_id =ᵗ operation_id) db.provisionings) operation_not_found
    if is_failed_stage p.stage
        then ok db
        else classify_intent operation_id actor (or_now s.now at₀) p db
