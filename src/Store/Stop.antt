-- ===== src/Store/Stop.antt =====
-- internal/store/stop_transactions.go and the stop operations of internal/store/session_lifecycle.go: how
-- a stop is reserved.
pub mod Reserve
pub mod Resolve
pub mod Commit
pub mod Entry
pub mod Kept
pub mod Resolved
pub mod Once
pub mod Tests
use ai_supervisor.Base.{
  ℕ, ◌+◌, Bool, true, false, ◌&&◌, ◌||◌, not, Option, none, some, List, [], ◌∷◌, ◌++◌, ok, err,
  ◌>>=◌, ◌>>◌, guard, or_fail, ltb, leb, ◌==◌, if◌then◌else◌, is_some,
}
use ai_supervisor.Base.Text.{Text, codes, ◌=ᵗ◌, is_empty, is_blank, has_text}
use ai_supervisor.Base.Table.{find, exists_row, count, update, insert}
use ai_supervisor.Workflow.{running, failed, human_required, ◌=ˢ◌}
use ai_supervisor.Store.Schema.{
  Time, or_now, Outcome, Codec, Surroundings, Detail, AttemptRow, SessionRow, DispatchRow,
  BudgetRow, RestoreRow, StopRow, StopPurpose, running_attempt_stop, quarantine_cleanup,
  pair_maintenance, is_running_attempt_stop, StopStage, stop_requested, is_stop_requested,
  StopResolution, in_flight, is_in_flight, is_unresolved_stop, Db, is_clean, quarantined,
  is_send_confirmed, is_unresolved_restore, is_cleanup_claimed, attempt_lineage_mismatch,
  invalid_operation_transition, state_conflict, quarantined_execution, operation_not_found,
  duplicate_key, foreign_key_violation, system_error,
}
use ai_supervisor.Store.Audit.{coalesce}
use ai_supervisor.Store.Send.{Lineage}
use ai_supervisor.Store.Sessions.{reject_unresolved_provisioning}
use ai_supervisor.Store.Recovery.Observe.{record_event}

-- The event types of internal/domain/session_lifecycle.go.
unfoldable pub audit_stop_operation_requested : Text
audit_stop_operation_requested = codes "STOP_OPERATION_REQUESTED"

unfoldable pub timeout_reason : Text
timeout_reason = codes "TIMEOUT"

abbrev pub purpose_name : StopPurpose → Text
purpose_name running_attempt_stop = codes "RUNNING_ATTEMPT_STOP"
purpose_name quarantine_cleanup = codes "QUARANTINE_CLEANUP"
purpose_name pair_maintenance = codes "PAIR_MAINTENANCE"

abbrev pub is_quarantine_cleanup : StopPurpose → Bool
is_quarantine_cleanup quarantine_cleanup = true
is_quarantine_cleanup _ = false

abbrev pub is_pair_maintenance : StopPurpose → Bool
is_pair_maintenance pair_maintenance = true
is_pair_maintenance _ = false

-- The three identities of a stop that is bound to an attempt.
pub record StopLineage : Type 0 where
  pub task_id : Text
  pub contract_id : Text
  pub attempt_id : Text

abbrev stop_lineage_of : Option Text → Option Text → Option Text → Option StopLineage
stop_lineage_of (some t) (some c) (some a) =
    some (record { task_id = t; contract_id = c; attempt_id = a })
stop_lineage_of _ _ _ = none

unfoldable pub stop_lineage : StopRow → Option StopLineage
stop_lineage o = stop_lineage_of o.task_id o.contract_id o.attempt_id

unfoldable pub stop_event_lineage : StopRow → Lineage
stop_event_lineage o = record {
  pair_id = o.pair_id;
  task_id = coalesce o.task_id;
  contract_id = coalesce o.contract_id;
  attempt_id = coalesce o.attempt_id;
}

-- The attempt of a lineage whose task is of the pair.
unfoldable pub is_lineage_attempt : StopLineage → Text → Db → AttemptRow → Bool
is_lineage_attempt l pair_id db a =
    a.attempt_id =ᵗ l.attempt_id
    && a.task_id =ᵗ l.task_id
    && a.contract_id =ᵗ l.contract_id
    && exists_row (λ t. t.task_id =ᵗ l.task_id && t.pair_id =ᵗ pair_id) db.tasks

-- The checks of createStopOperationTx on the identities that the stop has.
unfoldable pub check_stop_lineage :
    StopRow → Option Text → Option Text → Option Text → Db → Outcome (Unit {0})
check_stop_lineage o task contract (some k) db = do
  l ← or_fail (stop_lineage_of task contract (some k)) attempt_lineage_mismatch
  a ← or_fail (find (is_lineage_attempt l o.pair_id db) db.attempts) attempt_lineage_mismatch
  guard (has_text a.session_id o.session_id && has_text a.terminal_generation o.terminal_generation)
      attempt_lineage_mismatch
check_stop_lineage o (some t) (some k) none db =
    guard
      (exists_row (λ c. c.contract_id =ᵗ k && c.task_id =ᵗ t) db.contracts
        && exists_row (λ r. r.task_id =ᵗ t && r.pair_id =ᵗ o.pair_id) db.tasks)
      attempt_lineage_mismatch
check_stop_lineage o none (some k) none db = err attempt_lineage_mismatch
check_stop_lineage o (some t) none none db =
    guard (exists_row (λ r. r.task_id =ᵗ t && r.pair_id =ᵗ o.pair_id) db.tasks)
      attempt_lineage_mismatch
check_stop_lineage o none none none db = ok tt

abbrev pub unresolved_restore : Text → Db → Option RestoreRow
unresolved_restore pair_id db =
    find (λ r. r.pair_id =ᵗ pair_id && is_unresolved_restore r.resolution) db.restores

abbrev observes_generation : Option Text → StopRow → Bool
observes_generation none o = false
observes_generation (some g) o = not (is_empty g) && o.terminal_generation =ᵗ g

-- A stop of the generation that the restore has started, or of the one that it replaces.
unfoldable pub valid_new_generation_maintenance : StopRow → Option Text → RestoreRow → Bool
valid_new_generation_maintenance o observation r =
    is_pair_maintenance o.purpose
    && not (is_some o.attempt_id)
    && not (is_some o.task_id)
    && not (is_some o.contract_id)
    && is_cleanup_claimed r.resolution
    && o.session_id =ᵗ r.session_id
    && observes_generation observation o
    && (not (is_some r.observed_generation) || has_text r.observed_generation o.terminal_generation)

unfoldable pub valid_old_generation_cleanup : StopRow → RestoreRow → Bool
valid_old_generation_cleanup o r =
    is_quarantine_cleanup o.purpose
    && is_some o.attempt_id
    && is_cleanup_claimed r.resolution
    && o.session_id =ᵗ r.session_id
    && o.terminal_generation =ᵗ r.expected_generation

-- What an unresolved restore of the pair asks of the stop, and what its absence does.
unfoldable pub check_stop_restore :
    StopRow → Option Text → Option Text → Option RestoreRow → Db → Outcome (Unit {0})
check_stop_restore o principal observation none db = do
  guard (not (is_some o.restore_operation_id)) attempt_lineage_mismatch
  reject_unresolved_provisioning o.pair_id db
check_stop_restore o principal observation (some r) db = do
  owner ← or_fail r.recovery_principal system_error
  guard
      (has_text o.restore_operation_id r.operation_id
        && has_text principal owner
        && not (is_empty owner)
        && (valid_new_generation_maintenance o observation r || valid_old_generation_cleanup o r))
      quarantined_execution
  guard
      (not (valid_old_generation_cleanup o r)
        || exists_row
            (λ a.
              has_text o.attempt_id a.attempt_id
              && is_some a.ended_at
              && not (is_clean a.quarantine_state))
            db.attempts)
      attempt_lineage_mismatch

abbrev refers : Option Text → (Text → Bool) → Bool
refers none p = true
refers (some k) p = p k

abbrev same_reference : Option Text → Option Text → Bool
same_reference none t = false
same_reference (some k) t = has_text t k

-- The INSERT into stop_operations: its unique columns, its references, and the CHECK of the reason.
unfoldable pub insert_stop : StopRow → Db → Outcome Db
insert_stop o db = do
  guard
      (not (is_some o.initiating_failure_reason)
        || has_text o.initiating_failure_reason timeout_reason)
      system_error
  guard
      (not (
        exists_row
          (λ r.
            r.operation_id =ᵗ o.operation_id
            || is_running_attempt_stop r.purpose
              && is_running_attempt_stop o.purpose
              && same_reference r.attempt_id o.attempt_id
            || same_reference r.restore_operation_id o.restore_operation_id)
          db.stops))
      duplicate_key
  guard
      (exists_row (λ p. p.pair_id =ᵗ o.pair_id) db.pairs
        && refers o.task_id (λ k. exists_row (λ t. t.task_id =ᵗ k) db.tasks)
        && refers o.contract_id (λ k. exists_row (λ c. c.contract_id =ᵗ k) db.contracts)
        && refers o.attempt_id (λ k. exists_row (λ a. a.attempt_id =ᵗ k) db.attempts)
        && refers o.restore_operation_id (λ k. exists_row (λ r. r.operation_id =ᵗ k) db.restores))
      foreign_key_violation
  ok (record db { stops = insert o db.stops })

-- The session of a stop, and its quarantine.
unfoldable pub is_stop_session : StopRow → SessionRow → Bool
is_stop_session o w =
    w.pair_id =ᵗ o.pair_id
    && w.session_id =ᵗ o.session_id
    && w.terminal_generation =ᵗ o.terminal_generation

unfoldable pub quarantine_stop_session : StopRow → Time → Db → Outcome Db
quarantine_stop_session o at db = do
  guard (ltb 0 (count (is_stop_session o) db.sessions)) state_conflict
  ok (record db {
    sessions =
        update (is_stop_session o)
          (λ w. record w { quarantine_state = quarantined; updated_at = at }) db.sessions;
  })

-- The open attempt of a stop, in the session and the generation that it is bound to.
unfoldable pub is_stop_attempt : StopLineage → StopRow → AttemptRow → Bool
is_stop_attempt l o a =
    a.attempt_id =ᵗ l.attempt_id
    && a.task_id =ᵗ l.task_id
    && a.contract_id =ᵗ l.contract_id
    && has_text a.session_id o.session_id
    && has_text a.terminal_generation o.terminal_generation
    && not (is_some a.ended_at)

unfoldable pub quarantine_stop_attempt : StopLineage → StopRow → Db → Outcome Db
quarantine_stop_attempt l o db = do
  guard (ltb 0 (count (is_stop_attempt l o) db.attempts)) state_conflict
  ok (record db {
    attempts =
        update (is_stop_attempt l o) (λ a. record a { quarantine_state = quarantined }) db.attempts;
  })

abbrev reason_detail : Option Text → List (Text × Detail)
reason_detail none = []
reason_detail (some r) = (codes "initiating_failure_reason", Detail.text r) ∷ []

abbrev restore_detail : Option Text → Detail
restore_detail none = Detail.nil
restore_detail (some k) = Detail.text k

-- The details of every event of appendStopAudit.
unfoldable pub stop_details : StopRow → List (Text × Detail) → List (Text × Detail)
stop_details o extra =
    (codes "stop_operation_id", Detail.text o.operation_id)
    ∷ (codes "purpose", Detail.text (purpose_name o.purpose))
    ∷ (codes "session_id", Detail.text o.session_id)
    ∷ (codes "target_generation", Detail.text o.terminal_generation)
    ∷ (reason_detail o.initiating_failure_reason
        ++ ((codes "restore_operation_id", restore_detail o.restore_operation_id) ∷ extra))

module _ (c : Codec) (s : Surroundings) where
  -- appendStopAudit, with the number of the event's identity.
  unfoldable pub append_stop_audit :
      ℕ → StopRow → Text → Time → List (Text × Detail) → Db → Outcome Db
  append_stop_audit k o kind at extra db =
      record_event c s k kind at (stop_event_lineage o) o.actor (stop_details o extra) db

  -- The event of createStopOperationTx, of a stop that is linked to a restore.
  unfoldable pub record_linked_stop : StopRow → Option Text → Option Text → Db → Outcome Db
  record_linked_stop o principal none db = ok db
  record_linked_stop o principal (some restore) db =
      record_event c s 0 audit_stop_operation_requested o.requested_at (stop_event_lineage o)
        o.actor
        ((codes "stop_operation_id", Detail.text o.operation_id)
          ∷ (codes "purpose", Detail.text (purpose_name o.purpose))
          ∷ (codes "restore_operation_id", Detail.text restore)
          ∷ (codes "principal", Detail.text (coalesce principal))
          ∷ (codes "session_id", Detail.text o.session_id)
          ∷ (codes "target_generation", Detail.text o.terminal_generation)
          ∷ [])
        db

  -- createStopOperationTx
  unfoldable pub create_stop_operation_tx : StopRow → Option Text → Option Text → Db → Outcome Db
  create_stop_operation_tx o principal observation db = do
    guard (is_some o.attempt_id || is_pair_maintenance o.purpose) attempt_lineage_mismatch
    guard (not (is_pair_maintenance o.purpose && is_some o.attempt_id)) attempt_lineage_mismatch
    check_stop_lineage o o.task_id o.contract_id o.attempt_id db
    check_stop_restore o principal observation (unresolved_restore o.pair_id db) db
    inserted ← insert_stop o db
    record_linked_stop o principal o.restore_operation_id inserted
