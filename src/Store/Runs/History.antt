-- ===== src/Store/Runs/History.antt =====
-- What a run of the store's transactions leaves of what the tables said before it.
use ai_supervisor.Base.{
  sym, guard->>-eq-ok, or_fail-eq-ok, ◌≤◌, ◌≡◌, refl, ap, ◌∙◌, Bool, true, false, Option, some,
  List, ◌++◌, ok, is_some, or_fail, >>=-eq-ok, or_fail-pass,
}
use ai_supervisor.Base.Text.{Text, ◌=ᵗ◌}
use ai_supervisor.Base.Table.Laws.{Extends-find, Extends-append}
use ai_supervisor.Workflow.{TaskState, is_terminal, can_transition}
use ai_supervisor.Workflow.Graph.{◌⟶*◌, stay, step, is_terminal_iff}
use ai_supervisor.Store.Schema.{
  TaskRow, AttemptRow, Quarantine, BudgetRow, AuditRow, Db, Codec, Outcome, StoreError,
}
use ai_supervisor.Store.Tasks.{get_task}
use ai_supervisor.Store.Contracts.{get_task_contract}
use ai_supervisor.Store.Dispatch.{get_task_attempt}
use ai_supervisor.Store.Send.Budget.{budget_by_attempt, get_execution_budget}
use ai_supervisor.Store.Board.{has_id, Later, Board-Later}
use ai_supervisor.Store.Effect.{SameContract, SameAttempt}
use ai_supervisor.Store.Runs.{Run}
use ai_supervisor.Store.Runs.Laws.{Run-Effect}

or_fail_ok : {A : Type 0} (o : Option A) (e : StoreError) {a : A} → o ≡ some a → or_fail o e ≡ ok a
unfolding or_fail
or_fail_ok o e h = rw h refl

read_back :
    (p : Text) (b : Bool) (q : Text) (d : Bool)
    → ◌≡◌ {A = Outcome (Text × Bool)} (ok (p, b)) (ok (q, d))
    → (p ≡ q) × (b ≡ d)
read_back p b q d e = (cc, cc)

pair_path : {p q : Text} {b d : Bool} → p ≡ q → b ≡ d → ◌≡◌ {A = Text × Bool} (p, b) (q, d)
pair_path e f = cc

stuck : {s t : TaskState} → is_terminal s ≡ true → s ⟶* t → t ≡ s
stuck e stay = refl
stuck {s} e (step {t = t} edge rest) =
    let closed : can_transition s t ≡ false = ((is_terminal_iff s).0 e).1 t in absurd (cc)

module _ (c : Codec) where
  -- A task that GetTask finds is found after every run: of the same pair, in a state that the
  -- workflow's edges lead to, and with no attempt taken back.
  pub Run-get_task :
      {before later : Db} (task_id : Text) {t : TaskRow}
      → Run c before later
      → get_task task_id before ≡ ok t
      → (u : TaskRow) × (get_task task_id later ≡ ok u)
        × (u.pair_id ≡ t.pair_id)
        × (t.state ⟶* u.state)
        × (t.current_attempt ≤ u.current_attempt)
  unfolding get_task
  Run-get_task {before} {later} task_id r e =
      let (u, found, l) =
        Extends-find Later (has_id task_id) before.tasks later.tasks
          (λ x y h. ap (λ i. i =ᵗ task_id) h.0) (Board-Later (Run-Effect c r).tasks)
          (or_fail-eq-ok _ _ e) in
      (u, or_fail_ok _ _ found, l.1, l.2, l.3)

  -- A task that is APPROVED or CANCELLED is in that state after every run.
  pub Run-is_terminal :
      {before later : Db} (task_id : Text) {t : TaskRow}
      → Run c before later
      → get_task task_id before ≡ ok t
      → is_terminal t.state ≡ true
      → (u : TaskRow) × (get_task task_id later ≡ ok u) × (u.state ≡ t.state)
  Run-is_terminal task_id r e h =
      let (u, found, p, path, n) = Run-get_task task_id r e in (u, found, stuck h path)

  -- A frozen contract reads the same after every run.
  pub Run-get_task_contract :
      {before later : Db} (contract_id json : Text)
      → Run c before later
      → get_task_contract contract_id before ≡ ok (json, true)
      → get_task_contract contract_id later ≡ ok (json, true)
  unfolding get_task_contract
  Run-get_task_contract {before} {later} contract_id json r e =
      let (row, found, is_row) = >>=-eq-ok _ _ e in
      let (x, kept, same) =
        Extends-find SameContract (λ y. y.contract_id =ᵗ contract_id) before.contracts
          later.contracts (λ y z h. ap (λ w. w.contract_id =ᵗ contract_id) h.0)
          (Run-Effect c r).contracts (or_fail-eq-ok _ _ found) in
      let (text_same, frozen) = read_back row.payload_json row.is_immutable json true is_row in
      or_fail-pass _ _ _ kept
      ∙ ap ok (pair_path (ap (λ w. w.payload_json) same.0 ∙ text_same) (same.1 frozen))

  -- An attempt that has ended reads the same after every run, but for its quarantine.
  pub Run-get_task_attempt :
      {before later : Db} (attempt_id : Text) {a : AttemptRow}
      → Run c before later
      → get_task_attempt attempt_id before ≡ ok a
      → is_some a.ended_at ≡ true
      → (q : Quarantine) × (get_task_attempt attempt_id later
          ≡ ok (record a { quarantine_state = q }))
  unfolding get_task_attempt
  Run-get_task_attempt {before} {later} attempt_id r e h =
      let (b, found, same) =
        Extends-find SameAttempt (λ y. y.attempt_id =ᵗ attempt_id) before.attempts later.attempts
          (λ y z k. ap (λ w. w.attempt_id =ᵗ attempt_id) k.0) (Run-Effect c r).attempts
          (or_fail-eq-ok _ _ e) in
      (b.quarantine_state, or_fail_ok _ _ (found ∙ ap some (same.1 h)))

  -- The audit log and the execution budgets only get new rows.
  pub Run-append_only :
      {before later : Db}
      → Run c before later
      → ((new : List AuditRow) × (later.audit_events ≡ before.audit_events ++ new))
        × ((new : List BudgetRow) × (later.budgets ≡ before.budgets ++ new))
  Run-append_only {before} {later} r =
      let e = Run-Effect c r in
      (
        Extends-append before.audit_events later.audit_events e.audit_events,
        Extends-append before.budgets later.budgets e.budgets,
      )

  budget_kept :
      {before later : Db} (attempt_id : Text) {b : BudgetRow}
      → Run c before later
      → budget_by_attempt attempt_id before ≡ some b
      → budget_by_attempt attempt_id later ≡ some b
  unfolding budget_by_attempt
  budget_kept {before} {later} attempt_id r e =
      let (x, found, same) =
        Extends-find ◌≡◌ (λ y. y.attempt_id =ᵗ attempt_id) before.budgets later.budgets
          (λ y z h. ap (λ w. w.attempt_id =ᵗ attempt_id) (sym h)) (Run-Effect c r).budgets e in
      found ∙ ap some (sym same)

  returned_budget :
      (db : Db) (attempt_id : Text) {b : BudgetRow}
      → get_execution_budget attempt_id db ≡ ok b
      → budget_by_attempt attempt_id db ≡ some b
  unfolding get_execution_budget
  returned_budget db attempt_id e =
      let (b, found, e1) = >>=-eq-ok _ _ e in
      let (d, dispatch, e2) = >>=-eq-ok _ _ e1 in
      let (a, attempt, e3) = >>=-eq-ok _ _ e2 in
      let (t, task, e4) = >>=-eq-ok _ _ e3 in
      let (at, confirmed, e5) = >>=-eq-ok _ _ e4 in
      let (s, session, e6) = >>=-eq-ok _ _ e5 in
      let (g, generation, e7) = >>=-eq-ok _ _ e6 in
      or_fail-eq-ok _ _ found ∙ ok_to_some (guard->>-eq-ok _ _ _ e7).1
    where
      ok_to_some : {x y : BudgetRow} → ◌≡◌ {A = Outcome BudgetRow} (ok x) (ok y) → some x ≡ some y
      ok_to_some h = cc

  -- The execution budget that GetExecutionBudget returns of an attempt is the same before and after
  -- every run, where it returns one.
  pub Run-get_execution_budget :
      {before later : Db} (attempt_id : Text) {b e : BudgetRow}
      → Run c before later
      → get_execution_budget attempt_id before ≡ ok b
      → get_execution_budget attempt_id later ≡ ok e
      → e ≡ b
  Run-get_execution_budget {before} {later} attempt_id {b} {e} r h k = some_injective (
      sym (returned_budget later attempt_id k)
      ∙ budget_kept attempt_id r (returned_budget before attempt_id h))
    where
      some_injective : {x y : BudgetRow} → some x ≡ some y → x ≡ y
      some_injective p = cc
