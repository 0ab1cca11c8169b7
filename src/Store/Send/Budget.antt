-- ===== src/Store/Send/Budget.antt =====
-- internal/store/dispatch_transactions.go: GetExecutionBudget and BindLegacyExecutionBudget.
use ai_supervisor.Base.{
  ◌+◌, Bool, true, false, ◌&&◌, ◌||◌, not, Option, some, [], ◌∷◌, ok, ◌>>=◌, ◌>>◌, guard, or_fail,
  ltb, ◌==◌, if◌then◌else◌, is_some,
}
use ai_supervisor.Base.Text.{Text, codes, ◌=ᵗ◌, is_empty, is_blank, has_text}
use ai_supervisor.Base.Table.{find, count}
use ai_supervisor.Workflow.{TaskState, dispatched, running, ◌=ˢ◌}
use ai_supervisor.Store.Schema.{
  Time, Outcome, Codec, Surroundings, Detail, BudgetRow, AuditRow, Db, BindingBasis,
  send_confirmation_atomic, legacy_operator_verified, is_send_confirmed, operation_not_found,
  state_conflict, attempt_lineage_mismatch, system_error,
}
use ai_supervisor.Store.Audit.{append_audit_event_tx}
use ai_supervisor.Store.Send.{
  lineage_event, BudgetPolicy, end_of_years, insert_budget, attempt_by_id,
}

-- The states in which an execution budget is in force.
unfoldable pub is_executing : TaskState → Bool
is_executing s = s =ˢ dispatched || s =ˢ running

-- The columns of a budget that GetExecutionBudget checks against each other.
unfoldable pub is_sound_budget : BudgetRow → Bool
is_sound_budget b =
    not (b.duration_ns == 0)
    && not (is_blank b.policy_ref)
    && b.origin_at + b.duration_ns == b.deadline_at
    && ltb b.origin_at b.deadline_at
    && ltb b.deadline_at end_of_years

unfoldable pub budget_by_attempt : Text → Db → Option BudgetRow
budget_by_attempt attempt_id db = find (λ b. b.attempt_id =ᵗ attempt_id) db.budgets

-- GetExecutionBudget
unfoldable pub get_execution_budget : Text → Db → Outcome BudgetRow
get_execution_budget attempt_id db = do
  b ← or_fail (budget_by_attempt attempt_id db) operation_not_found
  d ←
      or_fail
        (find (λ r. r.operation_id =ᵗ b.dispatch_operation_id && r.attempt_id =ᵗ b.attempt_id)
          db.dispatches)
        operation_not_found
  a ← or_fail (attempt_by_id b.attempt_id db) operation_not_found
  t ←
      or_fail
        (find (λ r. r.task_id =ᵗ a.task_id && r.task_id =ᵗ d.task_id && r.pair_id =ᵗ d.pair_id)
          db.tasks)
        operation_not_found
  confirmed_at ← or_fail d.confirmed_at system_error
  session ← or_fail a.session_id system_error
  generation ← or_fail a.terminal_generation system_error
  guard
      (is_send_confirmed d.stage
        && confirmed_at == b.origin_at
        && is_executing t.state
        && not (is_some a.ended_at)
        && t.current_attempt == a.attempt_number
        && session =ᵗ d.session_id
        && generation =ᵗ d.terminal_generation
        && is_sound_budget b)
      state_conflict
  ok b

unfoldable pub legacy_scope : Text
legacy_scope = codes "LEGACY_EXECUTION_BUDGET_RECONCILIATION"

unfoldable pub audit_execution_budget_legacy_bound : Text
audit_execution_budget_legacy_bound = codes "EXECUTION_BUDGET_LEGACY_BOUND"

abbrev is_legacy : BindingBasis → Bool
is_legacy send_confirmation_atomic = false
is_legacy legacy_operator_verified = true

-- The stored budget is the one that would be bound.
unfoldable pub same_budget : BudgetRow → BudgetRow → Bool
same_budget b e =
    e.dispatch_operation_id =ᵗ b.dispatch_operation_id
    && e.origin_at == b.origin_at
    && e.deadline_at == b.deadline_at
    && e.duration_ns == b.duration_ns
    && e.policy_ref =ᵗ b.policy_ref
    && is_legacy e.binding_basis
    && same_optional e.authorized_principal b.authorized_principal
    && same_optional e.evidence_ref b.evidence_ref
  where
    same_optional : Option Text → Option Text → Bool
    same_optional (some s) (some t) = s =ᵗ t
    same_optional _ _ = false

module _ (c : Codec) (s : Surroundings) where
  -- The audit event of an earlier binding.
  unfoldable pub records_binding : Text → Text → Text → Text → AuditRow → Bool
  records_binding attempt_id principal evidence_ref operation_id r =
      r.event_type =ᵗ audit_execution_budget_legacy_bound
      && has_text r.attempt_id attempt_id
      && r.actor =ᵗ principal
      && has_text (c.json_text r.details_json (codes "evidence_ref")) evidence_ref
      && has_text (c.json_text r.details_json (codes "dispatch_operation_id")) operation_id

  -- An exact replay of a binding reads only.
  unfoldable pub replay_binding : BudgetRow → Text → Text → Db → Outcome Db
  replay_binding b principal evidence_ref db = do
    guard
        (count
            (λ r.
              r.attempt_id =ᵗ b.attempt_id || r.dispatch_operation_id =ᵗ b.dispatch_operation_id)
            db.budgets
          == 1)
        state_conflict
    existing ← or_fail (budget_by_attempt b.attempt_id db) state_conflict
    guard (same_budget b existing) state_conflict
    guard
        (count (records_binding b.attempt_id principal evidence_ref b.dispatch_operation_id)
            db.audit_events
          == 1)
        state_conflict
    ok db

  -- BindLegacyExecutionBudget
  unfoldable pub bind_legacy_execution_budget :
      Text → Text → Text → Text → BudgetPolicy → Time → Db → Outcome Db
  bind_legacy_execution_budget attempt_id principal scope evidence_ref policy at db = do
    guard
        (not (
          is_empty principal
          || not (scope =ᵗ legacy_scope)
          || is_blank evidence_ref
          || is_blank policy.policy_ref
          || policy.duration == 0
          || at == 0))
        state_conflict
    a ← or_fail (attempt_by_id attempt_id db) system_error
    t ← or_fail (find (λ r. r.task_id =ᵗ a.task_id) db.tasks) system_error
    d ← or_fail (find (λ r. r.attempt_id =ᵗ attempt_id) db.dispatches) system_error
    origin ← or_fail d.confirmed_at system_error
    session ← or_fail a.session_id system_error
    generation ← or_fail a.terminal_generation system_error
    guard
        (not (is_some a.ended_at)
          && t.current_attempt == a.attempt_number
          && is_send_confirmed d.stage
          && is_executing t.state)
        state_conflict
    w ← or_fail (find (λ r. r.pair_id =ᵗ t.pair_id) db.sessions) system_error
    guard (session =ᵗ w.session_id && generation =ᵗ w.terminal_generation) attempt_lineage_mismatch
    let deadline = origin + policy.duration
    guard (ltb origin deadline && ltb deadline end_of_years) state_conflict
    let b : BudgetRow = record {
      attempt_id = attempt_id;
      dispatch_operation_id = d.operation_id;
      origin_at = origin;
      deadline_at = deadline;
      duration_ns = policy.duration;
      policy_ref = policy.policy_ref;
      binding_basis = legacy_operator_verified;
      authorized_principal = some principal;
      evidence_ref = some evidence_ref;
      bound_at = at;
    }
    let bind_new = do
      budgeted ← insert_budget b db
      event_id ← or_fail (s.new_event_id 0) system_error
      audited ←
          append_audit_event_tx c s.now
            (lineage_event event_id audit_execution_budget_legacy_bound at
              (record {
                pair_id = t.pair_id;
                task_id = t.task_id;
                contract_id = a.contract_id;
                attempt_id = attempt_id;
              })
              principal
              ((codes "dispatch_operation_id", Detail.text d.operation_id)
                ∷ (codes "session_id", Detail.text session)
                ∷ (codes "terminal_generation", Detail.text generation)
                ∷ (codes "origin_at", Detail.text (c.format_time origin))
                ∷ (codes "deadline_at", Detail.text (c.format_time deadline))
                ∷ (codes "duration_ns", Detail.number policy.duration)
                ∷ (codes "policy_ref", Detail.text policy.policy_ref)
                ∷ (codes "binding_basis", Detail.text (codes "LEGACY_OPERATOR_VERIFIED"))
                ∷ (codes "authorized_principal", Detail.text principal)
                ∷ (codes "authority_scope", Detail.text scope)
                ∷ (codes "evidence_ref", Detail.text evidence_ref)
                ∷ []))
            budgeted
      ok audited.0
    (if count (λ r. r.attempt_id =ᵗ attempt_id || r.dispatch_operation_id =ᵗ d.operation_id)
            db.budgets
          == 0
        then bind_new
        else replay_binding b principal evidence_ref db)
