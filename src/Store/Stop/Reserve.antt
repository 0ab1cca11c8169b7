-- ===== src/Store/Stop/Reserve.antt =====
-- internal/store/stop_transactions.go: ReserveStopOperation and ValidateTimeoutEffectOwner.
use ai_supervisor.Base.{
  ◌+◌, Bool, true, ◌&&◌, ◌||◌, not, Option, none, some, [], ok, ◌>>=◌, ◌>>◌, guard, or_fail, leb,
  ◌==◌, is_some,
}
use ai_supervisor.Base.Text.{Text, codes, ◌=ᵗ◌, is_empty, is_blank, has_text}
use ai_supervisor.Base.Table.{find, exists_row}
use ai_supervisor.Workflow.{running, failed, human_required, ◌=ˢ◌}
use ai_supervisor.Store.Schema.{
  Time, or_now, Outcome, Codec, Surroundings, TaskRow, AttemptRow, SessionRow, DispatchRow,
  BudgetRow, StopRow, StopPurpose, running_attempt_stop, quarantine_cleanup, pair_maintenance,
  is_running_attempt_stop, StopStage, stop_requested, is_stop_requested, StopResolution, in_flight,
  is_in_flight, is_unresolved_stop, is_unresolved_restore, is_unresolved_stage, Db, is_clean,
  is_send_confirmed, attempt_lineage_mismatch, invalid_operation_transition, state_conflict,
  quarantined_execution, operation_not_found,
}
use ai_supervisor.Store.Send.{delivery_outcome_unknown}
use ai_supervisor.Store.Stop.{
  StopLineage, stop_lineage, timeout_reason, audit_stop_operation_requested,
  create_stop_operation_tx, quarantine_stop_session, quarantine_stop_attempt, append_stop_audit,
}

-- domain.StopOperation, with no stage and no resolution for an empty text.
pub record StopOperation : Type 0 where
  pub operation_id : Text
  pub purpose : StopPurpose
  pub pair_id : Text
  pub task_id : Option Text
  pub contract_id : Option Text
  pub attempt_id : Option Text
  pub session_id : Text
  pub terminal_generation : Text
  pub stage : Option StopStage
  pub actor : Text
  pub requested_at : Time
  pub call_completed_at : Option Time
  pub confirmation_deadline_at : Option Time
  pub termination_confirmed_at : Option Time
  pub resolved_at : Option Time
  pub resolution_state : Option StopResolution
  pub restore_operation_id : Option Text
  pub restore_principal : Option Text
  pub initiating_failure_reason : Option Text

abbrev begins_requested : Option StopStage → Bool
begins_requested none = true
begins_requested (some s) = is_stop_requested s

abbrev begins_in_flight : Option StopResolution → Bool
begins_in_flight none = true
begins_in_flight (some r) = is_in_flight r

-- The row of an unlinked stop that begins.
unfoldable pub reserved_row : StopOperation → Time → StopRow
reserved_row o at = record {
  operation_id = o.operation_id;
  purpose = o.purpose;
  pair_id = o.pair_id;
  task_id = o.task_id;
  contract_id = o.contract_id;
  attempt_id = o.attempt_id;
  session_id = o.session_id;
  terminal_generation = o.terminal_generation;
  stage = stop_requested;
  actor = o.actor;
  requested_at = at;
  call_completed_at = o.call_completed_at;
  confirmation_deadline_at = o.confirmation_deadline_at;
  termination_confirmed_at = o.termination_confirmed_at;
  resolved_at = o.resolved_at;
  resolution_state = in_flight;
  restore_operation_id = o.restore_operation_id;
  initiating_failure_reason = o.initiating_failure_reason;
}

-- The attempt of a live stop: open, and the current one of its task, which is of the pair.
unfoldable pub is_live_attempt : StopLineage → TaskRow → AttemptRow → Bool
is_live_attempt l t a =
    a.attempt_id =ᵗ l.attempt_id
    && a.task_id =ᵗ t.task_id
    && a.contract_id =ᵗ l.contract_id
    && a.attempt_number == t.current_attempt
    && not (is_some a.ended_at)

abbrev pub admits_stop : Option Text → Bool
admits_stop none = true
admits_stop (some d) = d =ᵗ codes "AO_WAITING_INPUT_OBSERVED"

-- The test of the attempt and the session that the query of the budget returns.
unfoldable pub is_clean_execution : StopRow → AttemptRow → SessionRow → Bool
is_clean_execution o a w =
    is_clean a.quarantine_state
    && is_clean w.quarantine_state
    && admits_stop a.recovery_disposition
    && w.session_id =ᵗ o.session_id
    && w.terminal_generation =ᵗ o.terminal_generation

-- The budget of the attempt, whose deadline has passed at the request.
unfoldable pub is_overdue : StopRow → BudgetRow → DispatchRow → Bool
is_overdue o b d =
    not (b.duration_ns == 0)
    && not (is_blank b.policy_ref)
    && b.origin_at + b.duration_ns == b.deadline_at
    && is_send_confirmed d.stage
    && d.session_id =ᵗ o.session_id
    && d.terminal_generation =ᵗ o.terminal_generation
    && leb b.deadline_at o.requested_at

unfoldable pub check_timeout : StopRow → StopLineage → Db → Outcome (Unit {0})
check_timeout o l db = do
  b ← or_fail (find (λ b. b.attempt_id =ᵗ l.attempt_id) db.budgets) state_conflict
  d ←
      or_fail
        (find
          (λ d.
            d.operation_id =ᵗ b.dispatch_operation_id
            && d.attempt_id =ᵗ b.attempt_id
            && d.pair_id =ᵗ o.pair_id
            && d.task_id =ᵗ l.task_id)
          db.dispatches)
        state_conflict
  a ← or_fail (find (λ a. a.attempt_id =ᵗ b.attempt_id) db.attempts) state_conflict
  w ← or_fail (find (λ w. w.pair_id =ᵗ d.pair_id) db.sessions) state_conflict
  guard (is_overdue o b d && is_clean_execution o a w) state_conflict

-- The timeout is checked where the stop has a reason.
abbrev pub when_reason : Option Text → Outcome (Unit {0}) → Outcome (Unit {0})
when_reason none m = ok tt
when_reason (some r) m = m

-- What each purpose asks of the task and of the attempt.
unfoldable pub check_purpose : StopPurpose → StopRow → Db → Outcome (Unit {0})
check_purpose running_attempt_stop o db = do
  l ← or_fail (stop_lineage o) attempt_lineage_mismatch
  t ←
      or_fail (find (λ t. t.task_id =ᵗ l.task_id && t.pair_id =ᵗ o.pair_id) db.tasks)
        attempt_lineage_mismatch
  guard (exists_row (is_live_attempt l t) db.attempts) attempt_lineage_mismatch
  guard (t.state =ˢ running) state_conflict
  when_reason o.initiating_failure_reason (check_timeout o l db)
check_purpose quarantine_cleanup o db = do
  l ← or_fail (stop_lineage o) attempt_lineage_mismatch
  t ←
      or_fail (find (λ t. t.task_id =ᵗ l.task_id && t.pair_id =ᵗ o.pair_id) db.tasks)
        attempt_lineage_mismatch
  guard
      (exists_row
        (λ a.
          a.attempt_id =ᵗ l.attempt_id
          && a.task_id =ᵗ t.task_id
          && a.contract_id =ᵗ l.contract_id
          && is_some a.ended_at
          && not (is_clean a.quarantine_state))
        db.attempts)
      attempt_lineage_mismatch
  guard (t.state =ˢ failed || t.state =ˢ human_required) attempt_lineage_mismatch
check_purpose pair_maintenance o db =
    guard (not (is_some o.task_id || is_some o.contract_id || is_some o.attempt_id))
      attempt_lineage_mismatch

-- The quarantine of the attempt that a live stop ends.
unfoldable pub quarantine_live_attempt : StopPurpose → StopRow → Db → Outcome Db
quarantine_live_attempt running_attempt_stop o db = do
  l ← or_fail (stop_lineage o) attempt_lineage_mismatch
  quarantine_stop_attempt l o db
quarantine_live_attempt _ o db = ok db

module _ (c : Codec) (s : Surroundings) where
  -- ReserveStopOperation
  unfoldable pub reserve_stop_operation : StopOperation → Db → Outcome Db
  reserve_stop_operation stop db = do
    guard
        (not (
          is_some stop.restore_operation_id
          || is_some stop.restore_principal
          || is_empty stop.operation_id
          || is_empty stop.pair_id
          || is_empty stop.session_id
          || is_empty stop.terminal_generation
          || is_empty stop.actor))
        attempt_lineage_mismatch
    guard (begins_requested stop.stage && begins_in_flight stop.resolution_state)
        invalid_operation_transition
    let o = reserved_row stop (or_now s.now stop.requested_at)
    guard
        (not (is_some o.initiating_failure_reason)
          || has_text o.initiating_failure_reason timeout_reason
            && is_running_attempt_stop o.purpose)
        state_conflict
    w ← or_fail (find (λ w. w.pair_id =ᵗ o.pair_id) db.sessions) attempt_lineage_mismatch
    guard (w.session_id =ᵗ o.session_id && w.terminal_generation =ᵗ o.terminal_generation)
        attempt_lineage_mismatch
    guard
        (not (
          exists_row (λ r. r.pair_id =ᵗ o.pair_id && is_unresolved_stop r.resolution_state)
            db.stops))
        state_conflict
    check_purpose o.purpose o db
    created ← create_stop_operation_tx c s o none none db
    isolated ← quarantine_stop_session o o.requested_at created
    quarantined ← quarantine_live_attempt o.purpose o isolated
    append_stop_audit c s 0 o audit_stop_operation_requested o.requested_at [] quarantined

-- getStopOperationTx
unfoldable pub get_stop_operation_tx : Text → Db → Outcome StopRow
get_stop_operation_tx operation_id db =
    or_fail (find (λ o. o.operation_id =ᵗ operation_id) db.stops) operation_not_found

-- The execution that a timeout's stop owns, with the quarantine that its reservation imposed.
unfoldable pub owns_execution : StopRow → StopLineage → Db → Bool
owns_execution o l db =
    exists_row
      (λ t.
        t.task_id =ᵗ l.task_id
        && t.pair_id =ᵗ o.pair_id
        && t.state =ˢ running
        && exists_row
            (λ a.
              is_live_attempt l t a
              && admits_stop a.recovery_disposition
              && not (is_clean a.quarantine_state)
              && has_text a.session_id o.session_id
              && has_text a.terminal_generation o.terminal_generation
              && exists_row
                  (λ d.
                    d.attempt_id =ᵗ a.attempt_id
                    && is_send_confirmed d.stage
                    && not (is_some d.resolution_state))
                  db.dispatches)
            db.attempts)
      db.tasks
    && exists_row
        (λ w.
          w.pair_id =ᵗ o.pair_id
          && w.session_id =ᵗ o.session_id
          && w.terminal_generation =ᵗ o.terminal_generation
          && not (is_clean w.quarantine_state))
        db.sessions

-- Another risk of the pair than the stop itself.
unfoldable pub has_other_risk : StopRow → StopLineage → Db → Bool
has_other_risk o l db =
    exists_row
      (λ r.
        r.pair_id =ᵗ o.pair_id
        && not (r.operation_id =ᵗ o.operation_id)
        && is_unresolved_stop r.resolution_state)
      db.stops
    || exists_row (λ r. r.pair_id =ᵗ o.pair_id && is_unresolved_restore r.resolution) db.restores
    || exists_row (λ p. p.pair_id =ᵗ o.pair_id && is_unresolved_stage p.stage) db.provisionings
    || exists_row
        (λ d. d.pair_id =ᵗ o.pair_id && has_text d.resolution_state delivery_outcome_unknown)
        db.dispatches
    || exists_row
        (λ a.
          not (a.attempt_id =ᵗ l.attempt_id)
          && not (is_clean a.quarantine_state)
          && exists_row (λ t. t.task_id =ᵗ a.task_id && t.pair_id =ᵗ o.pair_id) db.tasks)
        db.attempts

-- ValidateTimeoutEffectOwner
unfoldable pub validate_timeout_effect_owner : Text → Db → Outcome (Unit {0})
validate_timeout_effect_owner operation_id db = do
  o ← get_stop_operation_tx operation_id db
  guard
      (has_text o.initiating_failure_reason timeout_reason
        && is_running_attempt_stop o.purpose
        && is_stop_requested o.stage
        && is_in_flight o.resolution_state)
      state_conflict
  l ← or_fail (stop_lineage o) state_conflict
  guard (owns_execution o l db && not (has_other_risk o l db)) quarantined_execution
