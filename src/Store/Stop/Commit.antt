-- ===== src/Store/Stop/Commit.antt =====
-- internal/store/stop_transactions.go: the transactions of a stop after its reservation.
use ai_supervisor.Base.{
  Bool, true, false, ◌&&◌, ◌||◌, not, Option, none, some, List, [], ◌∷◌, ◌>>=◌, ◌>>◌, guard,
  or_fail, ltb, ◌==◌, if◌then◌else◌, is_some,
}
use ai_supervisor.Base.Text.{Text, codes, ◌=ᵗ◌, is_empty, has_text}
use ai_supervisor.Base.Table.{find, count, update}
use ai_supervisor.Store.Schema.{
  Time, Outcome, Codec, Surroundings, Detail, StopRow, StopPurpose, running_attempt_stop,
  stop_call_succeeded, stop_requested, is_stop_requested, reissue_requires_human, StopResolution,
  is_in_flight, Db, quarantined, attempt_lineage_mismatch, invalid_operation_transition,
  state_conflict, system_error,
}
use ai_supervisor.Store.Audit.{coalesce}
use ai_supervisor.Store.Send.{audit_task_state_transition}
use ai_supervisor.Store.Closure.{current_open_attempt_lineage}
use ai_supervisor.Store.Recovery.{when}
use ai_supervisor.Store.Recovery.Observe.{record_event}
use ai_supervisor.Store.Stop.{
  StopLineage, stop_lineage, unresolved_restore, is_quarantine_cleanup, purpose_name,
  append_stop_audit,
}
use ai_supervisor.Store.Stop.Reserve.{get_stop_operation_tx}
use ai_supervisor.Store.Stop.Resolve.{
  StopTerminalOutcome, stop_stage_name, resolution_name, audit_stop_operation_call_succeeded,
  audit_stop_operation_resolved, audit_quarantine_resolved_physical, same_stop_stage,
  valid_stop_transition, valid_stop_outcome, stop_outcome_audit_type, stop_disposition, is_physical,
  proves_termination, is_exact_observation, is_logical, owns_restore, is_open_stop, resolve_stop,
  fail_live_task, quarantine_unless, end_live_attempt, has_pair_risk, settle_stop_session,
  claims_termination,
}

-- The details of the event of an outcome, beyond those of every event of the stop.
abbrev logical_details : StopRow → StopTerminalOutcome → List (Text × Detail)
logical_details o r =
    (codes "pair_id", Detail.text o.pair_id)
    ∷ (codes "task_id", Detail.text (coalesce o.task_id))
    ∷ (codes "contract_id", Detail.text (coalesce o.contract_id))
    ∷ (codes "attempt_id", Detail.text (coalesce o.attempt_id))
    ∷ (codes "old_stage", Detail.text (stop_stage_name o.stage))
    ∷ (codes "new_stage", Detail.text (stop_stage_name r.stage))
    ∷ (codes "old_resolution", Detail.text (resolution_name o.resolution_state))
    ∷ (codes "new_resolution", Detail.text (resolution_name r.resolution))
    ∷ (codes "observed_session_id", Detail.text r.observed_session_id)
    ∷ (codes "observed_generation", Detail.text r.observed_generation)
    ∷ (codes "is_terminated", Detail.flag r.observed_is_terminated)
    ∷ (codes "actor", Detail.text o.actor)
    ∷ []

abbrev or_zero : Option Time → Time
or_zero none = 0
or_zero (some t) = t

abbrev physical_details : Codec → StopRow → StopTerminalOutcome → List (Text × Detail)
physical_details c o r =
    (
      codes "confirmation_deadline_at",
      Detail.text (c.format_time (or_zero o.confirmation_deadline_at)),
    )
    ∷ (codes "termination_confirmed_at", Detail.text (c.format_time r.at))
    ∷ (codes "observed_session_id", Detail.text r.observed_session_id)
    ∷ (codes "observed_generation", Detail.text r.observed_generation)
    ∷ (codes "is_terminated", Detail.flag true)
    ∷ []

unfoldable pub outcome_details : Codec → StopRow → StopTerminalOutcome → List (Text × Detail)
outcome_details c o r =
    (codes "resolution_state", Detail.text (resolution_name r.resolution))
    ∷ (if is_logical r
        then logical_details o r
        else if is_physical r
        then physical_details c o r
        else [])

abbrev failure_reason : Option Text → Text → Text
failure_reason none disposition = disposition
failure_reason (some r) disposition = r

abbrev same_optional : Option Text → Option Text → Bool
same_optional a b = coalesce a =ᵗ coalesce b

abbrev pub requires_human : StopResolution → Bool
requires_human reissue_requires_human = true
requires_human _ = false

-- The session after the stop of a runtime that no open attempt is bound to.
unfoldable pub settle_runtime : StopRow → StopTerminalOutcome → Db → Outcome Db
settle_runtime o r db = do
  w ←
      or_fail (find (λ w. w.pair_id =ᵗ o.pair_id && w.session_id =ᵗ o.session_id) db.sessions)
        system_error
  guard
      (w.terminal_generation =ᵗ o.terminal_generation
        || is_some o.restore_operation_id && is_quarantine_cleanup o.purpose)
      attempt_lineage_mismatch
  when (w.terminal_generation =ᵗ o.terminal_generation)
      (settle_stop_session o (is_physical r) quarantined r.at) db

module _ (c : Codec) (s : Surroundings) where
  -- CommitStopCallAccepted
  unfoldable pub commit_stop_call_accepted : Text → Time → Time → Db → Outcome Db
  commit_stop_call_accepted operation_id call_at deadline db = do
    guard (not (call_at == 0 || deadline == 0) && ltb call_at deadline) state_conflict
    o ← get_stop_operation_tx operation_id db
    owns_restore o (unresolved_restore o.pair_id db)
    guard (is_stop_requested o.stage && is_in_flight o.resolution_state) state_conflict
    let cas = λ (x : StopRow).
        is_open_stop operation_id stop_requested x
        && not (is_some x.call_completed_at)
        && not (is_some x.confirmation_deadline_at)
    guard (ltb 0 (count cas db.stops)) state_conflict
    append_stop_audit c s 0 o audit_stop_operation_call_succeeded call_at
        ((codes "call_completed_at", Detail.text (c.format_time call_at))
          ∷ (codes "confirmation_deadline_at", Detail.text (c.format_time deadline))
          ∷ [])
        (record db {
          stops =
              update cas
                (λ x. record x {
                  stage = stop_call_succeeded;
                  call_completed_at = some call_at;
                  confirmation_deadline_at = some deadline;
                })
                db.stops;
        })

  -- The events of a physical termination, and of the task's failure.
  unfoldable pub record_live_failure :
      StopRow → StopLineage → StopTerminalOutcome → Text → Db → Outcome Db
  record_live_failure o l r disposition db =
      record_event c s 1 audit_task_state_transition r.at
        (record {
          pair_id = o.pair_id;
          task_id = l.task_id;
          contract_id = l.contract_id;
          attempt_id = l.attempt_id;
        })
        o.actor
        ((codes "from_state", Detail.text (codes "RUNNING"))
          ∷ (codes "to_state", Detail.text (codes "FAILED"))
          ∷ (
            codes "failure_reason",
            Detail.text (failure_reason o.initiating_failure_reason disposition),
          )
          ∷ (codes "recovery_disposition", Detail.text disposition)
          ∷ (codes "stop_operation_id", Detail.text o.operation_id)
          ∷ [])
        db

  unfoldable pub record_physical : StopRow → StopLineage → Time → Bool → Db → Outcome Db
  record_physical o l at session_clean db = do
    cleared ←
        append_stop_audit c s 2 o audit_quarantine_resolved_physical at
          ((codes "lineage", Detail.text (codes "attempt"))
            ∷ (codes "attempt_id", Detail.text l.attempt_id)
            ∷ [])
          db
    when session_clean
        (append_stop_audit c s 3 o audit_quarantine_resolved_physical at
          ((codes "lineage", Detail.text (codes "worker_session")) ∷ []))
        cleared

  -- closeLiveStopTx
  unfoldable pub close_live_stop_tx : StopRow → StopTerminalOutcome → Db → Outcome Db
  close_live_stop_tx o r db = do
    l ← or_fail (stop_lineage o) attempt_lineage_mismatch
    x ← current_open_attempt_lineage l.task_id l.attempt_id db
    guard (x.pair_id =ᵗ o.pair_id && x.contract_id =ᵗ l.contract_id) attempt_lineage_mismatch
    a ← or_fail (find (λ y. y.attempt_id =ᵗ l.attempt_id) db.attempts) system_error
    guard
        (has_text a.session_id o.session_id && has_text a.terminal_generation o.terminal_generation)
        attempt_lineage_mismatch
    let disposition = stop_disposition r.resolution (is_physical r)
    failed ← fail_live_task l o r.at db
    ended ← end_live_attempt l o disposition (is_physical r) r.at failed
    let session_clean = is_physical r && not (has_pair_risk l o ended)
    settled ← settle_stop_session o (is_physical r) (quarantine_unless session_clean) r.at ended
    recorded ← record_live_failure o l r disposition settled
    when (is_physical r) (record_physical o l r.at session_clean) recorded

  -- What follows from the purpose of the stop.
  unfoldable pub settle_purpose : StopPurpose → StopRow → StopTerminalOutcome → Db → Outcome Db
  settle_purpose running_attempt_stop o r db = close_live_stop_tx o r db
  settle_purpose _ o r db = settle_runtime o r db

  -- CommitStopOutcome
  unfoldable pub commit_stop_outcome : Text → StopTerminalOutcome → Db → Outcome Db
  commit_stop_outcome operation_id r db = do
    guard (not (r.at == 0)) state_conflict
    o ← get_stop_operation_tx operation_id db
    owns_restore o (unresolved_restore o.pair_id db)
    guard
        (same_stop_stage o.stage r.expected_stage
          && is_in_flight o.resolution_state
          && valid_stop_transition r.expected_stage r.stage)
        state_conflict
    guard (if is_physical r then proves_termination o r else not (claims_termination r))
        state_conflict
    guard (not (is_logical r) || is_exact_observation o r) state_conflict
    guard (valid_stop_outcome r.expected_stage r.stage r.resolution) invalid_operation_transition
    resolved ← resolve_stop o r db
    recorded ←
        when (not (is_empty (stop_outcome_audit_type r.resolution)))
          (append_stop_audit c s 0 o (stop_outcome_audit_type r.resolution) r.at
            (outcome_details c o r))
          resolved
    settle_purpose o.purpose o r recorded

  -- The update and the event of ClassifyAbandonedStopAlive.
  unfoldable pub abandon_stop : StopRow → Text → Text → Time → Db → Outcome Db
  abandon_stop o actor invocation at db = do
    let cas = λ (x : StopRow).
        is_open_stop o.operation_id stop_requested x
        && purpose_name x.purpose =ᵗ purpose_name o.purpose
        && x.pair_id =ᵗ o.pair_id
        && x.session_id =ᵗ o.session_id
        && x.terminal_generation =ᵗ o.terminal_generation
        && same_optional x.task_id o.task_id
        && same_optional x.contract_id o.contract_id
        && same_optional x.attempt_id o.attempt_id
        && same_optional x.restore_operation_id o.restore_operation_id
    guard (ltb 0 (count cas db.stops)) state_conflict
    append_stop_audit c s 0 o audit_stop_operation_resolved at
        ((codes "old_stage", Detail.text (codes "STOP_REQUESTED"))
          ∷ (codes "new_stage", Detail.text (codes "STOP_REQUESTED"))
          ∷ (codes "old_resolution", Detail.text (codes "IN_FLIGHT"))
          ∷ (codes "new_resolution", Detail.text (codes "STOP_REISSUE_REQUIRES_HUMAN"))
          ∷ (codes "observed_session_id", Detail.text o.session_id)
          ∷ (codes "observed_generation", Detail.text o.terminal_generation)
          ∷ (codes "is_terminated", Detail.flag false)
          ∷ (codes "observation_source", Detail.text (codes "GetWorkerStatus"))
          ∷ (codes "observation_time", Detail.text (c.format_time at))
          ∷ (codes "reason", Detail.text (codes "AUTOMATIC_REISSUE_PROHIBITED"))
          ∷ (codes "recovery_invocation", Detail.text invocation)
          ∷ (codes "actor", Detail.text actor)
          ∷ [])
        (record db {
          stops =
              update cas
                (λ x. record x { resolution_state = reissue_requires_human; resolved_at = some at })
                db.stops;
        })

  -- ClassifyAbandonedStopAlive
  unfoldable pub classify_abandoned_stop_alive :
      Text → Text → Text → Text → Text → Time → Db → Outcome Db
  classify_abandoned_stop_alive operation_id session_id generation actor invocation at db = do
    guard
        (not (
          is_empty operation_id
          || is_empty session_id
          || is_empty generation
          || is_empty actor
          || at == 0))
        state_conflict
    o ← get_stop_operation_tx operation_id db
    guard (o.session_id =ᵗ session_id && o.terminal_generation =ᵗ generation) state_conflict
    guard
        (is_stop_requested o.stage
          && (requires_human o.resolution_state || is_in_flight o.resolution_state))
        state_conflict
    when (is_in_flight o.resolution_state)
        (λ d. do
          owns_restore o (unresolved_restore o.pair_id d)
          abandon_stop o actor invocation at d)
        db
