-- ===== src/Store/Runs/Tests.antt =====
-- The theorems on runs of internal/store, applied to the sample run.
use ai_supervisor.Base.{[], ◌&&◌, some, ◌≤◌, ◌≡◌, refl, true, List, ◌++◌, ok}
use ai_supervisor.Base.Text.{◌=ᵗ◌, Text, codes}
use ai_supervisor.Base.Table.{exists_row, count, update}
use ai_supervisor.Workflow.{draft, ready, approved, is_terminal, ◌=ˢ◌}
use ai_supervisor.Workflow.Graph.{◌⟶*◌}
use ai_supervisor.Store.Schema.{
  DispatchRow, Time, TaskRow, AuditRow, BudgetRow, Quarantine, clean, Db, or_now,
}
use ai_supervisor.Store.Audit.{verify_audit_chain}
use ai_supervisor.Store.Tasks.{get_task}
use ai_supervisor.Store.Contracts.{get_task_contract}
use ai_supervisor.Store.Dispatch.{get_task_attempt}
use ai_supervisor.Store.Dispatch.Bound.{IsBound, prepare_bound_dispatch-IsBound}
use ai_supervisor.Store.Board.{in_lane, has_id}
use ai_supervisor.Store.Tasks.Laws.{IsMoved, transition_task-IsMoved}
use ai_supervisor.Store.Send.Confirmed.{IsConfirmed, record_send_confirmed-IsConfirmed}
use ai_supervisor.Store.Send.Precedence.{IsHeld, record_pre_send_hold-IsHeld}
use ai_supervisor.Store.Send.Unknown.Escalation.{IsLost, record_unknown_delivery-IsLost}
use ai_supervisor.Store.Send.{dispatch_by_id, has_budget}
use ai_supervisor.Store.Runs.{requarantines, idle, ◌then◌}
use ai_supervisor.Store.Runs.Laws.{
  Run-trans, Run-Attached, Run-has_budget, Run-exclusive, Run-verify_audit_chain,
}
use ai_supervisor.Store.Runs.History.{
  Run-get_execution_budget, Run-get_task, Run-get_task_contract, Run-get_task_attempt,
  Run-append_only,
}
use ai_supervisor.Store.Runs.Scenario.Holding.{
  dispatched-one_attempt, held-one_attempt, cleared_db, clearing_eq,
}
use ai_supervisor.Store.Send.Clearing.{IsCleared, resolve_pre_send_hold-IsCleared}
use ai_supervisor.Store.Runs.Scenario.Sends.{
  policy, confirmation_eq, first_row, later_row, first_eq, later_eq, start-Run, requested_db,
  lost_db, loss_eq, requested-IsKeyed, confirmed_dispatch, confirmed_db, confirmed-Run,
  confirmed_dispatch_eq, confirmed_dispatch_confirmed,
}
use ai_supervisor.Store.Runs.Scenario.{
  revised_db, hold_eq, held_db, readiness_eq, dispatched_attempt, dispatched-Run, codec,
  dispatched_db, retried_db, dispatched_task, ended_attempt, lookups, ready_db, dispatched_pair,
  call, binding, dispatched_eq, ready-Run, sample-Run, last_steps, retry_step,
}

Run-exclusive_example :
    ((k : Text) → count (has_id k) retried_db.tasks ≤ 1)
    × ((p : Text) → count (in_lane p) retried_db.tasks ≤ 1)
Run-exclusive_example = Run-exclusive codec sample-Run

Run-verify_audit_chain_example : verify_audit_chain codec retried_db ≡ ok tt
Run-verify_audit_chain_example = Run-verify_audit_chain codec sample-Run

Run-get_task_example :
    (u : TaskRow) × (get_task (codes "T") retried_db ≡ ok u)
    × (u.pair_id ≡ dispatched_task.pair_id)
    × (dispatched_task.state ⟶* u.state)
    × (dispatched_task.current_attempt ≤ u.current_attempt)
Run-get_task_example = Run-get_task codec (codes "T") last_steps lookups.0

approved_ends : is_terminal approved ≡ true
unfolding is_terminal ◌=ˢ◌
approved_ends = refl

Run-get_task_contract_example : get_task_contract (codes "C") retried_db ≡ ok (codes "{}", true)
Run-get_task_contract_example =
    Run-get_task_contract codec (codes "C") (codes "{}") last_steps lookups.1

-- The retry, and then a clearance of all quarantines.
abbrev cleared_later : Db
cleared_later = record retried_db {
  attempts = update (λ a. true) (λ a. record a { quarantine_state = clean }) retried_db.attempts;
}

Run-get_task_attempt_example :
    (q : Quarantine) × (get_task_attempt (codes "A") cleared_later
      ≡ ok (record ended_attempt { quarantine_state = q }))
Run-get_task_attempt_example =
    Run-get_task_attempt codec (codes "A")
      (Run-trans retry_step (requarantines (λ a. clean) then idle)) lookups.2 lookups.3

Run-append_only_example :
    ((new : List AuditRow) × (retried_db.audit_events ≡ dispatched_db.audit_events ++ new))
    × ((new : List BudgetRow) × (retried_db.budgets ≡ dispatched_db.budgets ++ new))
Run-append_only_example = Run-append_only codec last_steps

prepare_bound_dispatch-IsBound_example :
    IsBound (codes "T") (codes "C") (codes "A") (or_now 103 0) ready_db dispatched_pair
prepare_bound_dispatch-IsBound_example =
    prepare_bound_dispatch-IsBound codec (call 3) (codes "T") (codes "C") (codes "A")
      (codes ".supervisor/reports/T/A.json") 0 binding ready_db
      ((Run-exclusive codec ready-Run).0 (codes "T")) dispatched_eq

Run-Attached_example :
    exists_row
      (λ r.
        r.contract_id =ᵗ dispatched_attempt.contract_id
        && r.task_id =ᵗ dispatched_attempt.task_id
        && r.is_immutable)
      dispatched_db.contracts
    ≡ true
Run-Attached_example = Run-Attached codec (codes "A") dispatched-Run lookups.6

Run-has_budget_example :
    (at : Time) × (confirmed_dispatch.confirmed_at ≡ some at)
    × (has_budget confirmed_dispatch at confirmed_db ≡ true)
Run-has_budget_example =
    Run-has_budget codec (codes "O") confirmed-Run confirmed_dispatch_eq
      confirmed_dispatch_confirmed

transition_task-IsMoved_example : IsMoved 102 (codes "T") draft ready revised_db ready_db
transition_task-IsMoved_example =
    transition_task-IsMoved 102 (codes "T") draft ready revised_db readiness_eq

record_unknown_delivery-IsLost_example :
    (d : DispatchRow) × (dispatch_by_id (codes "O") requested_db ≡ some d)
    × IsLost d (or_now 106 0) requested_db lost_db
record_unknown_delivery-IsLost_example =
    record_unknown_delivery-IsLost codec (call 6) (codes "O") (codes "op") 0 requested_db
      requested-IsKeyed loss_eq

Run-get_execution_budget_example : later_row ≡ first_row
Run-get_execution_budget_example =
    Run-get_execution_budget codec (codes "A") start-Run first_eq later_eq

record_send_confirmed-IsConfirmed_example :
    IsConfirmed (codes "O") (or_now 105 0) policy requested_db confirmed_db
record_send_confirmed-IsConfirmed_example =
    record_send_confirmed-IsConfirmed codec (call 5) (codes "O") (codes "op") true 0 policy
      requested_db (requested-IsKeyed.one_dispatch (codes "O")) confirmation_eq

record_pre_send_hold-IsHeld_example :
    IsHeld (codes "O") (codes "RECOVERY_PENDING") dispatched_db held_db
record_pre_send_hold-IsHeld_example =
    record_pre_send_hold-IsHeld codec (call 4) (codes "O") (codes "RECOVERY_PENDING") (codes "op") 0
      dispatched_db dispatched-one_attempt hold_eq

resolve_pre_send_hold-IsCleared_example :
    IsCleared
      (codes "O")
      (codes "A")
      (codes "RECOVERY_PENDING")
      (codes "S")
      (codes "G")
      (codes "idle")
      []
      held_db
      cleared_db
resolve_pre_send_hold-IsCleared_example =
    resolve_pre_send_hold-IsCleared codec (call 5) (codes "O") (codes "A")
      (codes "RECOVERY_PENDING") (codes "S") (codes "G") (codes "idle") [] (codes "op") 0 held_db
      (held-one_attempt (codes "A")) clearing_eq
