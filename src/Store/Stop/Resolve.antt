-- ===== src/Store/Stop/Resolve.antt =====
-- internal/store/stop_transactions.go: the outcomes of a stop, their tests, and the updates of one table
-- each that the transactions of Store/Stop/Commit make.
use ai_supervisor.Base.{
  Bool, true, false, ◌&&◌, ◌||◌, not, Option, none, some, [], ok, ◌>>◌, guard, ltb, leb, ◌==◌,
  if◌then◌else◌, is_some,
}
use ai_supervisor.Base.Text.{Text, codes, ◌=ᵗ◌, is_empty, has_text}
use ai_supervisor.Base.Table.{exists_row, count, update}
use ai_supervisor.Workflow.{running, failed, ◌=ˢ◌}
use ai_supervisor.Store.Schema.{
  Time, Outcome, TaskRow, AttemptRow, StopRow, RestoreRow, StopStage, stop_requested,
  stop_call_succeeded, stop_call_failed, stop_termination_confirmed, stop_target_absent,
  is_stop_requested, is_call_succeeded, StopResolution, in_flight, termination_confirmed,
  target_absent, confirmation_timeout, generation_mismatch, effect_unproven_already_terminated,
  reissue_requires_human, call_failed, call_outcome_unknown, administrative_risk_accepted,
  is_in_flight, is_unresolved_restore, is_cleanup_claimed, Db, Quarantine, clean, quarantined,
  is_clean, terminated, state_conflict, quarantined_execution,
}
use ai_supervisor.Store.Send.{delivery_outcome_unknown}
use ai_supervisor.Store.Stop.{StopLineage, is_stop_session, is_stop_attempt}

abbrev pub stop_stage_name : StopStage → Text
stop_stage_name stop_requested = codes "STOP_REQUESTED"
stop_stage_name stop_call_succeeded = codes "STOP_CALL_SUCCEEDED"
stop_stage_name stop_call_failed = codes "STOP_CALL_FAILED"
stop_stage_name stop_termination_confirmed = codes "STOP_TERMINATION_CONFIRMED"
stop_stage_name stop_target_absent = codes "STOP_TARGET_ABSENT"

abbrev pub resolution_name : StopResolution → Text
resolution_name in_flight = codes "IN_FLIGHT"
resolution_name termination_confirmed = codes "TERMINATION_CONFIRMED"
resolution_name target_absent = codes "STOP_TARGET_ABSENT"
resolution_name confirmation_timeout = codes "STOP_CONFIRMATION_TIMEOUT"
resolution_name generation_mismatch = codes "STOP_GENERATION_MISMATCH"
resolution_name effect_unproven_already_terminated =
    codes "STOP_EFFECT_UNPROVEN_TARGET_ALREADY_TERMINATED"
resolution_name reissue_requires_human = codes "STOP_REISSUE_REQUIRES_HUMAN"
resolution_name call_failed = codes "STOP_CALL_FAILED"
resolution_name call_outcome_unknown = codes "STOP_CALL_OUTCOME_UNKNOWN"
resolution_name administrative_risk_accepted = codes "ADMINISTRATIVE_RISK_ACCEPTED"

-- The event types of internal/domain/session_lifecycle.go.
unfoldable pub audit_stop_operation_call_succeeded : Text
audit_stop_operation_call_succeeded = codes "STOP_OPERATION_CALL_SUCCEEDED"

unfoldable pub audit_stop_operation_resolved : Text
audit_stop_operation_resolved = codes "STOP_OPERATION_RESOLVED"

unfoldable pub audit_quarantine_resolved_physical : Text
audit_quarantine_resolved_physical = codes "QUARANTINE_RESOLVED_PHYSICAL"

-- StopTerminalOutcome
pub record StopTerminalOutcome : Type 0 where
  pub expected_stage : StopStage
  pub stage : StopStage
  pub resolution : StopResolution
  pub at : Time
  pub observed_session_id : Text
  pub observed_generation : Text
  pub observed_is_terminated : Bool

abbrev pub same_stop_stage : StopStage → StopStage → Bool
same_stop_stage stop_requested stop_requested = true
same_stop_stage stop_call_succeeded stop_call_succeeded = true
same_stop_stage stop_call_failed stop_call_failed = true
same_stop_stage stop_termination_confirmed stop_termination_confirmed = true
same_stop_stage stop_target_absent stop_target_absent = true
same_stop_stage _ _ = false

-- validStopTransition
unfoldable pub valid_stop_transition : StopStage → StopStage → Bool
valid_stop_transition stop_requested stop_call_succeeded = true
valid_stop_transition stop_requested stop_call_failed = true
valid_stop_transition stop_requested stop_target_absent = true
valid_stop_transition stop_call_succeeded stop_termination_confirmed = true
valid_stop_transition stop_call_succeeded stop_target_absent = true
valid_stop_transition from to = same_stop_stage from to

-- validStopOutcome
unfoldable pub valid_stop_outcome : StopStage → StopStage → StopResolution → Bool
valid_stop_outcome expected stage termination_confirmed =
    is_call_succeeded expected && same_stop_stage stage stop_termination_confirmed
valid_stop_outcome expected stage target_absent = same_stop_stage stage stop_target_absent
valid_stop_outcome expected stage call_failed =
    is_stop_requested expected && same_stop_stage stage stop_call_failed
valid_stop_outcome expected stage confirmation_timeout =
    is_call_succeeded expected && is_call_succeeded stage
valid_stop_outcome expected stage generation_mismatch = same_stop_stage stage expected
valid_stop_outcome expected stage effect_unproven_already_terminated =
    is_stop_requested expected && is_stop_requested stage
valid_stop_outcome expected stage call_outcome_unknown =
    is_stop_requested expected && is_stop_requested stage
valid_stop_outcome expected stage _ = false

-- stopOutcomeAuditType, empty where there is no event.
unfoldable pub stop_outcome_audit_type : StopResolution → Text
stop_outcome_audit_type termination_confirmed = codes "STOP_OPERATION_CONFIRMED"
stop_outcome_audit_type target_absent = codes "STOP_OPERATION_TARGET_ABSENT"
stop_outcome_audit_type call_failed = codes "STOP_OPERATION_CALL_FAILED"
stop_outcome_audit_type call_outcome_unknown = codes "STOP_OPERATION_CALL_OUTCOME_UNKNOWN"
stop_outcome_audit_type confirmation_timeout = codes "STOP_CONFIRMATION_TIMEOUT"
stop_outcome_audit_type generation_mismatch = audit_stop_operation_resolved
stop_outcome_audit_type effect_unproven_already_terminated = audit_stop_operation_resolved
stop_outcome_audit_type _ = []

-- stopDisposition
abbrev observed_disposition : StopResolution → Text
observed_disposition target_absent = codes "SESSION_ABSENT"
observed_disposition confirmation_timeout = codes "STOP_CONFIRMATION_TIMEOUT"
observed_disposition generation_mismatch = codes "STOP_GENERATION_MISMATCH"
observed_disposition call_outcome_unknown = codes "STOP_CALL_OUTCOME_UNKNOWN"
observed_disposition _ = codes "WORKER_TERMINATION_UNKNOWN"

unfoldable pub stop_disposition : StopResolution → Bool → Text
stop_disposition r physical = if physical then codes "WORKER_STOPPED" else observed_disposition r

abbrev is_confirmed_resolution : StopResolution → Bool
is_confirmed_resolution termination_confirmed = true
is_confirmed_resolution _ = false

abbrev is_mismatch : StopResolution → Bool
is_mismatch generation_mismatch = true
is_mismatch _ = false

abbrev is_unproven : StopResolution → Bool
is_unproven effect_unproven_already_terminated = true
is_unproven _ = false

-- `physical`: the termination of the session is proved.
unfoldable pub is_physical : StopTerminalOutcome → Bool
is_physical r =
    same_stop_stage r.stage stop_termination_confirmed && is_confirmed_resolution r.resolution

-- A termination that is claimed in part.
unfoldable pub claims_termination : StopTerminalOutcome → Bool
claims_termination r =
    same_stop_stage r.stage stop_termination_confirmed || is_confirmed_resolution r.resolution

-- `logicalResolution`
unfoldable pub is_logical : StopTerminalOutcome → Bool
is_logical r = is_mismatch r.resolution || is_unproven r.resolution

abbrev not_before : Option Time → Time → Bool
not_before none t = false
not_before (some u) t = leb u t

abbrev before_deadline : Time → Option Time → Bool
before_deadline t none = false
before_deadline t (some u) = ltb t u

-- The proof of a physical termination: within the deadline of a call that was accepted.
unfoldable pub proves_termination : StopRow → StopTerminalOutcome → Bool
proves_termination o r =
    is_call_succeeded r.expected_stage
    && not_before o.call_completed_at r.at
    && before_deadline r.at o.confirmation_deadline_at
    && r.observed_is_terminated
    && r.observed_session_id =ᵗ o.session_id
    && r.observed_generation =ᵗ o.terminal_generation

-- The observation that a logical resolution asks for.
unfoldable pub is_exact_observation : StopRow → StopTerminalOutcome → Bool
is_exact_observation o r =
    r.observed_session_id =ᵗ o.session_id
    && not (is_empty r.observed_generation)
    && not (is_mismatch r.resolution && r.observed_generation =ᵗ o.terminal_generation)
    && not (
        is_unproven r.resolution
        && not (r.observed_is_terminated && r.observed_generation =ᵗ o.terminal_generation))

-- guardStopRestoreOwner
unfoldable pub owns_restore : StopRow → Option RestoreRow → Outcome (Unit {0})
owns_restore o none = guard (not (is_some o.restore_operation_id)) state_conflict
owns_restore o (some r) =
    guard (has_text o.restore_operation_id r.operation_id && is_cleanup_claimed r.resolution)
      quarantined_execution

-- `operation_id=? AND stage=? AND resolution_state='IN_FLIGHT'`
unfoldable pub is_open_stop : Text → StopStage → StopRow → Bool
is_open_stop operation_id stage o =
    o.operation_id =ᵗ operation_id
    && same_stop_stage o.stage stage
    && is_in_flight o.resolution_state

unfoldable pub resolve_stop : StopRow → StopTerminalOutcome → Db → Outcome Db
resolve_stop o r db = do
  let cas = is_open_stop o.operation_id r.expected_stage
  guard (ltb 0 (count cas db.stops)) state_conflict
  ok (record db {
    stops =
        update cas
          (λ x. record x {
            stage = r.stage;
            resolution_state = r.resolution;
            resolved_at = some r.at;
            termination_confirmed_at = if is_physical r then some r.at else none;
          })
          db.stops;
  })

-- The updates of closeLiveStopTx.
unfoldable pub is_live_task : StopLineage → StopRow → TaskRow → Bool
is_live_task l o t = t.task_id =ᵗ l.task_id && t.pair_id =ᵗ o.pair_id && t.state =ˢ running

unfoldable pub fail_live_task : StopLineage → StopRow → Time → Db → Outcome Db
fail_live_task l o at db = do
  guard (ltb 0 (count (is_live_task l o) db.tasks)) state_conflict
  ok (record db {
    tasks = update (is_live_task l o) (λ t. record t { state = failed; updated_at = at }) db.tasks;
  })

abbrev pub quarantine_unless : Bool → Quarantine
quarantine_unless b = if b then clean else quarantined

unfoldable pub is_current_stop_attempt : StopLineage → StopRow → Db → AttemptRow → Bool
is_current_stop_attempt l o db a =
    is_stop_attempt l o a
    && exists_row (λ t. t.task_id =ᵗ l.task_id && t.current_attempt == a.attempt_number) db.tasks

unfoldable pub end_live_attempt : StopLineage → StopRow → Text → Bool → Time → Db → Outcome Db
end_live_attempt l o disposition physical at db = do
  let cas = is_current_stop_attempt l o db
  guard (ltb 0 (count cas db.attempts)) state_conflict
  ok (record db {
    attempts =
        update cas
          (λ a. record a {
            ended_at = some at;
            recovery_disposition = some disposition;
            quarantine_state = quarantine_unless physical;
          })
          db.attempts;
  })

-- `otherRisk`
unfoldable pub has_pair_risk : StopLineage → StopRow → Db → Bool
has_pair_risk l o db =
    exists_row
      (λ a.
        not (a.attempt_id =ᵗ l.attempt_id)
        && not (is_clean a.quarantine_state)
        && exists_row (λ t. t.task_id =ᵗ a.task_id && t.pair_id =ᵗ o.pair_id) db.tasks)
      db.attempts
    || exists_row (λ r. r.pair_id =ᵗ o.pair_id && is_unresolved_restore r.resolution) db.restores
    || exists_row
        (λ d. d.pair_id =ᵗ o.pair_id && has_text d.resolution_state delivery_outcome_unknown)
        db.dispatches

-- The session of the stop after an outcome.
unfoldable pub settle_stop_session : StopRow → Bool → Quarantine → Time → Db → Outcome Db
settle_stop_session o physical q at db = do
  guard (ltb 0 (count (is_stop_session o) db.sessions)) state_conflict
  ok (record db {
    sessions =
        update (is_stop_session o)
          (λ w. record w {
            status = if physical then terminated else w.status;
            quarantine_state = q;
            updated_at = at;
          })
          db.sessions;
  })
