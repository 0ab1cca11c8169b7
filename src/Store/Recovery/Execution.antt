-- ===== src/Store/Recovery/Execution.antt =====
-- The executions that internal/store/recovery_transactions.go reads, and the test of two for equality.
use ai_supervisor.Base.{
  ◌≤◌, ◌≡◌, refl, ap, Bool, true, ◌&&◌, not, Option, none, some, is_some, Ensures, returns,
  Ensures-guard, Ensures-or_fail, and_left, and_right, ◌==◌, arith,
}
use ai_supervisor.Base.Text.{Text, ◌=ᵗ◌, text_eq_iff}
use ai_supervisor.Base.Table.{find, count}
use ai_supervisor.Base.Table.Rows.{find-widen}
use ai_supervisor.Workflow.{◌=ˢ◌, state_eq_iff}
use ai_supervisor.Store.Schema.{
  DispatchStage, dispatch_bound, send_requested, send_confirmed, TaskRow, AttemptRow, Db,
}
use ai_supervisor.Store.Send.Holds.{same_text}
use ai_supervisor.Store.Recovery.{
  RecoveryExecution, stage_name, same_recovery_execution, recovery_execution, is_executed_by,
  current_execution,
}

same_stage : (a b : DispatchStage) → (stage_name a =ᵗ stage_name b) ≡ true → a ≡ b
unfolding ◌=ᵗ◌
same_stage dispatch_bound dispatch_bound h = refl
same_stage dispatch_bound send_requested h = cc
same_stage dispatch_bound send_confirmed h = cc
same_stage send_requested dispatch_bound h = cc
same_stage send_requested send_requested h = refl
same_stage send_requested send_confirmed h = cc
same_stage send_confirmed dispatch_bound h = cc
same_stage send_confirmed send_requested h = cc
same_stage send_confirmed send_confirmed h = refl

same_text-eq : (a b : Option Text) → same_text a b ≡ true → a ≡ b
unfolding same_text
same_text-eq none none h = refl
same_text-eq none (some t) h = cc
same_text-eq (some s) none h = cc
same_text-eq (some s) (some t) h = ap some ((text_eq_iff s t).0 h)

-- The test of two executions is their equality.
pub same_recovery_execution-eq :
    (a b : RecoveryExecution) → same_recovery_execution a b ≡ true → a ≡ b
unfolding same_recovery_execution
same_recovery_execution-eq a b h =
    let disposition = same_text-eq a.disposition b.disposition (and_right _ _ h) in
    let h9 = and_left _ (same_text a.disposition b.disposition) h in
    let stage = same_stage a.dispatch_stage b.dispatch_stage (and_right _ _ h9) in
    let h8 = and_left _ (stage_name a.dispatch_stage =ᵗ stage_name b.dispatch_stage) h9 in
    let state = (state_eq_iff a.task_state b.task_state).0 (and_right _ _ h8) in
    let h7 = and_left _ (a.task_state =ˢ b.task_state) h8 in
    let generation = (text_eq_iff a.generation b.generation).0 (and_right _ _ h7) in
    let h6 = and_left _ (a.generation =ᵗ b.generation) h7 in
    let session = (text_eq_iff a.session_id b.session_id).0 (and_right _ _ h6) in
    let h5 = and_left _ (a.session_id =ᵗ b.session_id) h6 in
    let attempt = (text_eq_iff a.attempt_id b.attempt_id).0 (and_right _ _ h5) in
    let h4 = and_left _ (a.attempt_id =ᵗ b.attempt_id) h5 in
    let contract = (text_eq_iff a.contract_id b.contract_id).0 (and_right _ _ h4) in
    let h3 = and_left _ (a.contract_id =ᵗ b.contract_id) h4 in
    let task = (text_eq_iff a.task_id b.task_id).0 (and_right _ _ h3) in
    let h2 = and_left _ (a.task_id =ᵗ b.task_id) h3 in
    let pair = (text_eq_iff a.pair_id b.pair_id).0 (and_right _ _ h2) in
    let operation =
      (text_eq_iff a.operation_id b.operation_id).0 (and_left _ (a.pair_id =ᵗ b.pair_id) h2) in
    fields operation pair task contract attempt session generation state stage disposition
  where
    fields :
        {a b : RecoveryExecution}
        → a.operation_id ≡ b.operation_id
        → a.pair_id ≡ b.pair_id
        → a.task_id ≡ b.task_id
        → a.contract_id ≡ b.contract_id
        → a.attempt_id ≡ b.attempt_id
        → a.session_id ≡ b.session_id
        → a.generation ≡ b.generation
        → a.task_state ≡ b.task_state
        → a.dispatch_stage ≡ b.dispatch_stage
        → a.disposition ≡ b.disposition
        → a ≡ b
    fields o p t c a s g st d r = λ i. record {
      operation_id = o i;
      pair_id = p i;
      task_id = t i;
      contract_id = c i;
      attempt_id = a i;
      session_id = s i;
      generation = g i;
      task_state = st i;
      dispatch_stage = d i;
      disposition = r i;
    }

-- The rows that an execution was read from.
pub record IsRead (operation_id : Text) (db : Db) (x : RecoveryExecution) : Type 0 where
  pub task : TaskRow
  pub has_task : find (λ t. t.task_id =ᵗ x.task_id) db.tasks ≡ some task
  pub in_state : task.state ≡ x.task_state
  pub attempt : AttemptRow
  pub has_attempt : find (λ a. a.attempt_id =ᵗ x.attempt_id) db.attempts ≡ some attempt
  pub held_as : attempt.recovery_disposition ≡ x.disposition

four : (a b d e : Bool) → (a && b && d && e) ≡ true → a ≡ true
four a b d e h = ground arith

pub current_execution-IsRead :
    (unresolved : Bool) (operation_id : Text) (db : Db)
    → ((k : Text) → count (λ a. a.attempt_id =ᵗ k) db.attempts ≤ 1)
    → Ensures (IsRead operation_id db) (current_execution unresolved operation_id db)
unfolding current_execution recovery_execution is_executed_by
current_execution-IsRead unresolved operation_id db unique = Ensures-or_fail _ _ _ λ d dispatch.
    Ensures-guard _ _ _ λ pending. Ensures-or_fail _ _ _ λ t task.
      Ensures-or_fail _ _ _ λ a attempt. returns (record {
        task = t;
        has_task = task;
        in_state = refl;
        attempt = a;
        has_attempt =
            find-widen (λ y. y.attempt_id =ᵗ d.attempt_id) _ db.attempts
              (λ y h.
                four (y.attempt_id =ᵗ d.attempt_id) (y.task_id =ᵗ t.task_id)
                  (y.attempt_number == t.current_attempt) (not (is_some y.ended_at)) h)
              (unique d.attempt_id) attempt;
        held_as = refl;
      })
