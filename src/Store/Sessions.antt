-- ===== src/Store/Sessions.antt =====
-- internal/store/session_lifecycle.go: the reads of sessions and operations, the guarded update of a
-- session, and the entry points that are closed.
pub mod Updated
use ai_supervisor.Base.{
  Bool, true, false, ◌&&◌, ◌||◌, not, Option, none, some, ok, err, ◌>>=◌, ◌>>◌, guard, or_fail,
  ◌==◌, if◌then◌else◌, is_some,
}
use ai_supervisor.Base.Text.{Text, ◌=ᵗ◌}
use ai_supervisor.Base.Table.{find, exists_row, count, update}
use ai_supervisor.Store.Schema.{
  Time, or_now, Outcome, SessionRow, SessionStatus, active, idle, terminated, Quarantine, clean,
  quarantined, ProvisioningRow, ProvisioningStage, provision_requested, provision_confirmed,
  provision_failed, provision_resolved, DispatchRow, DispatchStage, dispatch_bound, send_requested,
  send_confirmed, Db, is_unresolved_restore, is_unresolved_stage, worker_session_not_found,
  operation_not_found, quarantined_execution, atomic_dispatch_required, state_conflict,
}

-- GetWorkerSessionByPair
unfoldable pub get_worker_session_by_pair : Text → Db → Outcome SessionRow
get_worker_session_by_pair pair_id db =
    or_fail (find (λ w. w.pair_id =ᵗ pair_id) db.sessions) worker_session_not_found

-- GetWorkerSessionByID
unfoldable pub get_worker_session_by_id : Text → Db → Outcome SessionRow
get_worker_session_by_id session_id db =
    or_fail (find (λ w. w.session_id =ᵗ session_id) db.sessions) worker_session_not_found

-- GetPairProvisioningOperation
unfoldable pub get_pair_provisioning_operation : Text → Db → Outcome ProvisioningRow
get_pair_provisioning_operation operation_id db =
    or_fail (find (λ p. p.operation_id =ᵗ operation_id) db.provisionings) operation_not_found

-- GetDispatchOperation
unfoldable pub get_dispatch_operation : Text → Db → Outcome DispatchRow
get_dispatch_operation operation_id db =
    or_fail (find (λ d. d.operation_id =ᵗ operation_id) db.dispatches) operation_not_found

-- rejectUnresolvedRestore
unfoldable pub reject_unresolved_restore : Text → Db → Outcome (Unit {0})
reject_unresolved_restore pair_id db =
    guard
      (not
        (exists_row (λ r. r.pair_id =ᵗ pair_id && is_unresolved_restore r.resolution) db.restores))
      quarantined_execution

-- rejectUnresolvedProvisioning
unfoldable pub reject_unresolved_provisioning : Text → Db → Outcome (Unit {0})
reject_unresolved_provisioning pair_id db =
    guard
      (not (exists_row (λ p. p.pair_id =ᵗ pair_id && is_unresolved_stage p.stage) db.provisionings))
      quarantined_execution

abbrev pub same_status : SessionStatus → SessionStatus → Bool
same_status active active = true
same_status idle idle = true
same_status terminated terminated = true
same_status _ _ = false

abbrev pub same_quarantine : Quarantine → Quarantine → Bool
same_quarantine clean clean = true
same_quarantine quarantined quarantined = true
same_quarantine _ _ = false

-- WorkerSessionCASUpdate
pub record WorkerSessionCasUpdate : Type 0 where
  pub expected_status : SessionStatus
  pub expected_quarantine_state : Quarantine
  pub status : SessionStatus
  pub quarantine_state : Quarantine
  pub terminal_generation : Option Text
  pub updated_at : Time

abbrev pub or_current : Text → Option Text → Text
or_current s none = s
or_current s (some t) = t

-- `pair_id = ? AND status = ? AND quarantine_state = ?`
unfoldable pub expects : Text → WorkerSessionCasUpdate → SessionRow → Bool
expects pair_id u w =
    w.pair_id =ᵗ pair_id
    && same_status w.status u.expected_status
    && same_quarantine w.quarantine_state u.expected_quarantine_state

-- UpdateWorkerSessionStatusAndQuarantine
unfoldable pub update_worker_session_status_and_quarantine :
    Time → Text → WorkerSessionCasUpdate → Db → Outcome Db
update_worker_session_status_and_quarantine now pair_id u db = do
  guard
      (same_quarantine u.expected_quarantine_state u.quarantine_state
        && not (is_some u.terminal_generation))
      atomic_dispatch_required
  let at = or_now now u.updated_at
  reject_unresolved_restore pair_id db
  reject_unresolved_provisioning pair_id db
  guard (not (count (expects pair_id u) db.sessions == 0)) (
      if exists_row (λ w. w.pair_id =ᵗ pair_id) db.sessions
      then state_conflict
      else worker_session_not_found)
  ok (record db {
    sessions =
        update (expects pair_id u)
          (λ w. record w {
            status = u.status;
            quarantine_state = u.quarantine_state;
            terminal_generation = or_current w.terminal_generation u.terminal_generation;
            updated_at = at;
          })
          db.sessions;
  })

-- CreateWorkerSession
unfoldable pub create_worker_session : SessionRow → Db → Outcome Db
create_worker_session session db = err atomic_dispatch_required

-- CreatePairProvisioningOperation
unfoldable pub create_pair_provisioning_operation : ProvisioningRow → Db → Outcome Db
create_pair_provisioning_operation operation db = err atomic_dispatch_required

-- UpdatePairProvisioningOperationStage
unfoldable pub update_pair_provisioning_operation_stage :
    Text → ProvisioningStage → ProvisioningStage → Db → Outcome Db
update_pair_provisioning_operation_stage operation_id expected next db =
    err atomic_dispatch_required

-- CreateDispatchOperation
unfoldable pub create_dispatch_operation : DispatchRow → Db → Outcome Db
create_dispatch_operation operation db = err atomic_dispatch_required

-- UpdateDispatchOperationStage
unfoldable pub update_dispatch_operation_stage :
    Text → DispatchStage → DispatchStage → Db → Outcome Db
update_dispatch_operation_stage operation_id expected next db = err atomic_dispatch_required

-- validProvisioningTransition
unfoldable pub valid_provisioning_transition : ProvisioningStage → ProvisioningStage → Bool
valid_provisioning_transition provision_requested provision_confirmed = true
valid_provisioning_transition provision_requested provision_failed = true
valid_provisioning_transition provision_failed provision_resolved = true
valid_provisioning_transition _ _ = false

-- validDispatchTransition
unfoldable pub valid_dispatch_transition : DispatchStage → DispatchStage → Bool
valid_dispatch_transition dispatch_bound send_requested = true
valid_dispatch_transition send_requested send_confirmed = true
valid_dispatch_transition _ _ = false
