-- ===== src/Store/Send.antt =====
-- internal/store/dispatch_transactions.go: the transactions of a bound dispatch, from the holds
-- before the send to its confirmation or its unknown outcome.
pub mod Holds
pub mod Unknown
pub mod Budget
pub mod Confirmed
pub mod Precedence
pub mod Clearing
use ai_supervisor.Base.{
  ℕ, ◌+◌, Bool, true, false, ◌&&◌, ◌||◌, not, Option, none, some, List, [], ◌∷◌, ok, err, ◌>>=◌,
  ◌>>◌, guard, or_fail, ltb, ◌==◌, if◌then◌else◌, is_some,
}
use ai_supervisor.Base.Text.{Text, codes, ◌=ᵗ◌, is_empty, is_blank, has_text}
use ai_supervisor.Base.Table.{find, exists_row, count, update, insert}
use ai_supervisor.Workflow.{dispatched, running, failed, human_required, ◌=ˢ◌, transition}
use ai_supervisor.Store.Schema.{
  Time, or_now, Outcome, Codec, Surroundings, Detail, AuditEvent, TaskRow, AttemptRow, SessionRow,
  DispatchRow, BudgetRow, Db, quarantined, is_clean, is_unresolved_stage, is_unresolved_restore,
  send_requested, send_confirmed, is_bound, is_send_requested, BindingBasis,
  send_confirmation_atomic, legacy_operator_verified, is_send_confirmed, invalid_argument,
  operation_not_found, state_conflict, attempt_lineage_mismatch, quarantined_execution,
  system_error, transition_rejected,
}
use ai_supervisor.Store.Audit.{append_audit_event_tx}

-- The identities that an audit event of a dispatch carries.
pub record Lineage : Type 0 where
  pub pair_id : Text
  pub task_id : Text
  pub contract_id : Text
  pub attempt_id : Text

unfoldable pub lineage_event :
    Text → Text → Time → Lineage → Text → List (Text × Detail) → AuditEvent
lineage_event event_id event_type at l actor details = record {
  event_id = event_id;
  event_type = event_type;
  timestamp = at;
  task_id = l.task_id;
  contract_id = l.contract_id;
  attempt_id = l.attempt_id;
  pair_id = l.pair_id;
  actor = actor;
  details = details;
}

unfoldable pub lineage_of : DispatchRow → AttemptRow → Lineage
lineage_of d a = record {
  pair_id = d.pair_id;
  task_id = d.task_id;
  contract_id = a.contract_id;
  attempt_id = d.attempt_id;
}

-- The event types of internal/domain/session_lifecycle.go that this file writes.
unfoldable pub audit_dispatch_send_requested : Text
audit_dispatch_send_requested = codes "DISPATCH_SEND_REQUESTED"

unfoldable pub audit_dispatch_send_confirmed : Text
audit_dispatch_send_confirmed = codes "DISPATCH_SEND_CONFIRMED"

unfoldable pub audit_task_state_transition : Text
audit_task_state_transition = codes "TASK_STATE_TRANSITION"

unfoldable pub audit_uncertain_delivery_quarantine : Text
audit_uncertain_delivery_quarantine = codes "UNCERTAIN_DELIVERY_QUARANTINE_IMPOSED"

unfoldable pub delivery_outcome_unknown : Text
delivery_outcome_unknown = codes "DELIVERY_OUTCOME_UNKNOWN"

unfoldable pub uncertain_delivery_crash : Text
uncertain_delivery_crash = codes "UNCERTAIN_DELIVERY_CRASH"

-- `activity != "idle" && activity != "waiting_input"` is refused.
unfoldable pub is_admissible : Text → Bool
is_admissible activity = activity =ᵗ codes "idle" || activity =ᵗ codes "waiting_input"

-- The row of dispatch_operations and its attempt: the JOIN on the attempt's identity.
unfoldable pub dispatch_by_id : Text → Db → Option DispatchRow
dispatch_by_id operation_id db = find (λ d. d.operation_id =ᵗ operation_id) db.dispatches

unfoldable pub attempt_by_id : Text → Db → Option AttemptRow
attempt_by_id attempt_id db = find (λ a. a.attempt_id =ᵗ attempt_id) db.attempts

-- The one query of RecordSendRequested for the session, the Pair guards and the open attempt.
unfoldable pub send_guard : DispatchRow → Db → Bool
send_guard d db =
    exists_row
      (λ w.
        w.pair_id =ᵗ d.pair_id
        && w.session_id =ᵗ d.session_id
        && w.terminal_generation =ᵗ d.terminal_generation
        && is_clean w.quarantine_state)
      db.sessions
    && not
        (exists_row (λ r. r.pair_id =ᵗ d.pair_id && is_unresolved_restore r.resolution) db.restores)
    && not
        (exists_row (λ p. p.pair_id =ᵗ d.pair_id && is_unresolved_stage p.stage) db.provisionings)
    && exists_row
        (λ a.
          a.attempt_id =ᵗ d.attempt_id
          && not (is_some a.ended_at)
          && has_text a.session_id d.session_id
          && has_text a.terminal_generation d.terminal_generation
          && exists_row
              (λ t.
                t.task_id =ᵗ a.task_id
                && t.pair_id =ᵗ d.pair_id
                && a.attempt_number == t.current_attempt
                && t.state =ˢ dispatched)
              db.tasks)
        db.attempts

-- domain.ExecutionBudgetPolicy; a duration that is not positive is 0.
pub record BudgetPolicy : Type 0 where
  pub duration : ℕ
  pub policy_ref : Text

-- The first instant after year 9999.
abbrev pub end_of_years : ℕ
end_of_years = 315_537_897_600_000_000_000

abbrev pub same_time : Option Time → Time → Bool
same_time none t = false
same_time (some u) t = u == t

-- What the insertion of a budget asks of the stored lineage, by the basis of the binding.
abbrev basis_admits : BindingBasis → BudgetRow → DispatchRow → TaskRow → Bool
basis_admits send_confirmation_atomic b d t =
    t.state =ˢ dispatched && is_send_requested d.stage && not (is_some d.confirmed_at)
basis_admits legacy_operator_verified b d t =
    (t.state =ˢ dispatched || t.state =ˢ running)
    && is_send_confirmed d.stage
    && same_time d.confirmed_at b.origin_at

-- The INSERT into attempt_execution_budgets: its unique columns, and trg_execution_budget_lineage.
unfoldable pub insert_budget : BudgetRow → Db → Outcome Db
insert_budget b db = do
  guard
      (not (
        exists_row
          (λ r. r.attempt_id =ᵗ b.attempt_id || r.dispatch_operation_id =ᵗ b.dispatch_operation_id)
          db.budgets))
      system_error
  guard
      (exists_row
        (λ d.
          d.operation_id =ᵗ b.dispatch_operation_id
          && d.attempt_id =ᵗ b.attempt_id
          && exists_row
              (λ a.
                a.attempt_id =ᵗ d.attempt_id
                && not (is_some a.ended_at)
                && exists_row
                    (λ t.
                      t.task_id =ᵗ a.task_id
                      && t.current_attempt == a.attempt_number
                      && basis_admits b.binding_basis b d t)
                    db.tasks)
              db.attempts)
        db.dispatches)
      system_error
  ok (record db { budgets = insert b db.budgets })

-- trg_dispatch_requires_execution_budget: a budget of the same dispatch starts at the confirmation.
unfoldable pub has_budget : DispatchRow → Time → Db → Bool
has_budget d at db =
    exists_row
      (λ b.
        b.dispatch_operation_id =ᵗ d.operation_id
        && b.attempt_id =ᵗ d.attempt_id
        && b.origin_at == at)
      db.budgets

-- `operation_id=? AND stage='SEND_REQUESTED' AND resolution_state IS NULL`
unfoldable pub awaits_confirmation : Text → DispatchRow → Bool
awaits_confirmation operation_id d =
    d.operation_id =ᵗ operation_id && is_send_requested d.stage && not (is_some d.resolution_state)

-- The one policy of a variadic argument.
abbrev single : List BudgetPolicy → Option BudgetPolicy
single (p ∷ []) = some p
single _ = none

module _ (c : Codec) (s : Surroundings) where
  -- RecordSendRequested
  unfoldable pub record_send_requested :
      Text → Text → Text → Text → Bool → Text → Time → Db → Outcome Db
  record_send_requested operation_id observed_session observed_generation activity is_terminated
        actor at₀ db =
      do
        guard
            (not (
              is_empty actor
              || is_empty observed_session
              || is_empty observed_generation
              || not (is_admissible activity)
              || is_terminated))
            invalid_argument
        let at = or_now s.now at₀
        event_id ← or_fail (s.new_event_id 0) system_error
        d ← or_fail (dispatch_by_id operation_id db) operation_not_found
        a ← or_fail (attempt_by_id d.attempt_id db) operation_not_found
        guard (is_bound d.stage && not (is_some a.recovery_disposition)) state_conflict
        guard (d.session_id =ᵗ observed_session && d.terminal_generation =ᵗ observed_generation)
            attempt_lineage_mismatch
        guard (send_guard d db) quarantined_execution
        audited ←
            append_audit_event_tx c s.now
              (lineage_event event_id audit_dispatch_send_requested at (lineage_of d a) actor (
                (codes "dispatch_operation_id", Detail.text operation_id)
                ∷ (codes "stage", Detail.text (codes "SEND_REQUESTED"))
                ∷ (codes "session_id", Detail.text d.session_id)
                ∷ (codes "terminal_generation", Detail.text d.terminal_generation)
                ∷ []))
              db
        let db1 = audited.0
        let cas = λ (r : DispatchRow).
            r.operation_id =ᵗ operation_id && is_bound r.stage && not (is_some r.resolution_state)
        guard (count cas db1.dispatches == 1) state_conflict
        ok (record db1 {
          dispatches = update cas (λ r. record r { stage = send_requested }) db1.dispatches;
        })

  -- RecordSendConfirmed
  unfoldable pub record_send_confirmed :
      Text → Text → Bool → Time → List BudgetPolicy → Db → Outcome Db
  record_send_confirmed operation_id actor validated_http200 at₀ policies db = do
    guard validated_http200 invalid_argument
    guard (not (is_empty actor)) invalid_argument
    policy ← or_fail (single policies) state_conflict
    guard (not (policy.duration == 0) && not (is_blank policy.policy_ref)) state_conflict
    let at = or_now s.now at₀
    let deadline = at + policy.duration
    guard (ltb at deadline && ltb deadline end_of_years) state_conflict
    event_id ← or_fail (s.new_event_id 0) system_error
    d ← or_fail (dispatch_by_id operation_id db) operation_not_found
    t ← or_fail (find (λ r. r.task_id =ᵗ d.task_id) db.tasks) operation_not_found
    a ← or_fail (attempt_by_id d.attempt_id db) operation_not_found
    w ← or_fail (find (λ r. r.pair_id =ᵗ d.pair_id) db.sessions) operation_not_found
    guard (is_send_requested d.stage) state_conflict
    guard
        (t.state =ˢ dispatched
          && t.current_attempt == a.attempt_number
          && w.session_id =ᵗ d.session_id
          && w.terminal_generation =ᵗ d.terminal_generation)
        attempt_lineage_mismatch
    guard (not (is_some a.ended_at)) attempt_lineage_mismatch
    budgeted ←
        insert_budget
          (record {
            attempt_id = d.attempt_id;
            dispatch_operation_id = operation_id;
            origin_at = at;
            deadline_at = deadline;
            duration_ns = policy.duration;
            policy_ref = policy.policy_ref;
            binding_basis = send_confirmation_atomic;
            authorized_principal = none;
            evidence_ref = none;
            bound_at = at;
          })
          db
    audited ←
        append_audit_event_tx c s.now
          (lineage_event event_id audit_dispatch_send_confirmed at (lineage_of d a) actor (
            (codes "dispatch_operation_id", Detail.text operation_id)
            ∷ (codes "stage", Detail.text (codes "SEND_CONFIRMED"))
            ∷ (codes "http_status", Detail.number 200)
            ∷ (codes "budget_origin_at", Detail.text (c.format_time at))
            ∷ (codes "execution_deadline_at", Detail.text (c.format_time deadline))
            ∷ (codes "duration_ns", Detail.number policy.duration)
            ∷ (codes "policy_ref", Detail.text policy.policy_ref)
            ∷ []))
          budgeted
    let db1 = audited.0
    let cas = awaits_confirmation operation_id
    guard (not (exists_row (λ r. cas r && not (has_budget r at db1)) db1.dispatches)) system_error
    guard (count cas db1.dispatches == 1) state_conflict
    ok (record db1 {
      dispatches =
          update cas (λ r. record r { stage = send_confirmed; confirmed_at = some at })
            db1.dispatches;
    })
