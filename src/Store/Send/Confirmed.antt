-- ===== src/Store/Send/Confirmed.antt =====
-- What RecordSendConfirmed of internal/store/dispatch_transactions.go has done when it returns.
use ai_supervisor.Base.{
  ◌+◌, ◌≤◌, ◌≡◌, refl, sym, ap, ◌∙◌, subst, Bool, true, ◌&&◌, none, some, List, [], ◌∷◌, ok,
  Ensures, returns, Ensures-guard, Ensures-or_fail, Ensures-bind, Ensures-map, Ensures_elim,
  not-true, ◌==◌, arith,
}
use ai_supervisor.Base.Text.{Text, ◌=ᵗ◌, text_eq_refl}
use ai_supervisor.Base.Table.{find, count, update}
use ai_supervisor.Base.Table.Rows.{cas-find, insert-find, exists_row-weaken}
use ai_supervisor.Store.Schema.{
  Time, or_now, DispatchRow, BudgetRow, Db, Codec, Surroundings, AuditEvent, send_confirmed,
  send_confirmation_atomic, is_send_requested,
}
use ai_supervisor.Store.Audit.{append_audit_event_tx}
use ai_supervisor.Store.Audit.Chain.{append_audit_event_tx-Appended}
use ai_supervisor.Store.Send.{
  BudgetPolicy, dispatch_by_id, insert_budget, awaits_confirmation, record_send_confirmed,
}
use ai_supervisor.Store.Send.Budget.{budget_by_attempt}

-- What a confirmation that returned has written.
pub record IsConfirmed (operation_id : Text) (at : Time) (policy : BudgetPolicy) (db later : Db)
    : Type 0 where
  pub dispatch : DispatchRow
  pub found : dispatch_by_id operation_id db ≡ some dispatch
  pub was_requested : is_send_requested dispatch.stage ≡ true
  pub confirms :
      dispatch_by_id operation_id later
      ≡ some (record dispatch { stage = send_confirmed; confirmed_at = some at })
  pub budget : BudgetRow
  pub stores : budget_by_attempt dispatch.attempt_id later ≡ some budget
  pub of_dispatch : budget.dispatch_operation_id ≡ operation_id
  pub starts : budget.origin_at ≡ at
  pub ends : budget.deadline_at ≡ at + policy.duration
  pub by_policy : budget.policy_ref ≡ policy.policy_ref
  pub keeps_tasks : later.tasks ≡ db.tasks
  pub keeps_attempts : later.attempts ≡ db.attempts

-- The inserted budget is found by its attempt, and the other tables are as they were.
abbrev Budgeted : BudgetRow → Db → Db → Type 0
Budgeted b db d =
    (budget_by_attempt b.attempt_id d ≡ some b)
    × (d.tasks ≡ db.tasks)
    × (d.attempts ≡ db.attempts)
    × (d.dispatches ≡ db.dispatches)

insert_budget-Budgeted : (b : BudgetRow) (db : Db) → Ensures (Budgeted b db) (insert_budget b db)
unfolding insert_budget budget_by_attempt
insert_budget-Budgeted b db = Ensures-guard _ _ _ λ fresh. Ensures-guard _ _ _ λ lineage. returns (
  insert-find (λ r. r.attempt_id =ᵗ b.attempt_id) b db.budgets
      (exists_row-weaken (λ r. r.attempt_id =ᵗ b.attempt_id) _ db.budgets (λ r h. ground arith)
        (not-true _ fresh))
      (text_eq_refl b.attempt_id),
  refl,
  refl,
  refl,
)

abbrev pub Untouched : Db → Db → Type 0
Untouched db d =
    (d.budgets ≡ db.budgets)
    × (d.tasks ≡ db.tasks)
    × (d.attempts ≡ db.attempts)
    × (d.dispatches ≡ db.dispatches)

pub append-Untouched :
    (c : Codec) (now : Time) (event : AuditEvent) (db : Db)
    → Ensures (λ r. Untouched db r.0) (append_audit_event_tx c now event db)
append-Untouched c now event db =
    Ensures-map
      (λ r a. (
        ap (λ d. d.budgets) a.0,
        ap (λ d. d.tasks) a.0,
        ap (λ d. d.attempts) a.0,
        ap (λ d. d.dispatches) a.0,
      ))
      (append_audit_event_tx-Appended c now event db)

first_of_three : (a b d : Bool) → (a && b && d) ≡ true → a ≡ true
first_of_three a b d h = ground arith

-- The update of the confirmed dispatch.
confirms_row :
    (operation_id : Text) (at : Time) (l : List DispatchRow) {d : DispatchRow}
    → count (λ r. r.operation_id =ᵗ operation_id) l ≤ 1
    → find (λ r. r.operation_id =ᵗ operation_id) l ≡ some d
    → (count (awaits_confirmation operation_id) l == 1) ≡ true
    → find
        (λ r. r.operation_id =ᵗ operation_id)
        (update
          (awaits_confirmation operation_id)
          (λ r. record r { stage = send_confirmed; confirmed_at = some at })
          l)
      ≡ some (record d { stage = send_confirmed; confirmed_at = some at })
unfolding awaits_confirmation
confirms_row operation_id at l {d} unique found one =
    let (r, again, hit, confirmed) =
      cas-find (λ x. x.operation_id =ᵗ operation_id) _ _ l (λ x h. first_of_three _ _ _ h)
        (λ x. refl) unique one in
    let same : r ≡ d = some_injective (sym again ∙ found) in
    confirmed
    ∙ ap {A = DispatchRow} (λ x. some (record x { stage = send_confirmed; confirmed_at = some at }))
        same
  where
    some_injective : {x y : DispatchRow} → some x ≡ some y → x ≡ y
    some_injective e = cc

-- If RecordSendConfirmed returns on a table with one row to a dispatch, then the dispatch was
-- SEND_REQUESTED and is SEND_CONFIRMED at the given time, or the current one if none was given; the
-- attempt has a budget of that dispatch, which starts at that time and ends after the policy's
-- duration; and no task and no attempt has changed.
pub record_send_confirmed-IsConfirmed :
    (c : Codec) (s : Surroundings) (operation_id actor : Text) (http200 : Bool) (at : Time)
    (policy : BudgetPolicy) (db : Db) {later : Db}
    → count (λ r. r.operation_id =ᵗ operation_id) db.dispatches ≤ 1
    → record_send_confirmed c s operation_id actor http200 at (policy ∷ []) db ≡ ok later
    → IsConfirmed operation_id (or_now s.now at) policy db later
unfolding record_send_confirmed dispatch_by_id budget_by_attempt
record_send_confirmed-IsConfirmed c s operation_id actor http200 at policy db unique e =
    Ensures_elim run e
  where
    policy_of : {x y : BudgetPolicy} → some x ≡ some y → y ≡ x
    policy_of h = cc

    run :
        Ensures
          (IsConfirmed operation_id (or_now s.now at) policy db)
          (record_send_confirmed c s operation_id actor http200 at (policy ∷ []) db)
    run = Ensures-guard _ _ _ λ valid. Ensures-guard _ _ _ λ named.
        Ensures-or_fail _ _ _ λ q one_policy. Ensures-guard _ _ _ λ positive.
          Ensures-guard _ _ _ λ in_range. Ensures-or_fail _ _ _ λ id drawn.
            Ensures-or_fail _ _ _ λ d found. Ensures-or_fail _ _ _ λ t task.
              Ensures-or_fail _ _ _ λ a joined. Ensures-or_fail _ _ _ λ w session.
                Ensures-guard _ _ _ λ stage. Ensures-guard _ _ _ λ lineage.
                  Ensures-guard _ _ _ λ live.
                    Ensures-bind _ (insert_budget-Budgeted _ db) λ d1 (stored, t1, a1, r1).
                      Ensures-bind _ (append-Untouched c s.now _ d1) λ x (b2, t2, a2, r2).
                        Ensures-guard _ _ _ λ budgeted. Ensures-guard _ _ _ λ one.
                          let rows : x.0.dispatches ≡ db.dispatches = r2 ∙ r1 in
                          let same : q ≡ policy = policy_of one_policy in
                          returns (record {
                            dispatch = d;
                            found = found;
                            was_requested = stage;
                            confirms =
                                confirms_row operation_id _ x.0.dispatches
                                  (subst (λ l. count (λ r. r.operation_id =ᵗ operation_id) l ≤ 1)
                                    (sym rows) unique)
                                  (ap (find (λ r. r.operation_id =ᵗ operation_id)) rows ∙ found)
                                  one;
                            budget = record {
                              attempt_id = d.attempt_id;
                              dispatch_operation_id = operation_id;
                              origin_at = or_now s.now at;
                              deadline_at = or_now s.now at + q.duration;
                              duration_ns = q.duration;
                              policy_ref = q.policy_ref;
                              binding_basis = send_confirmation_atomic;
                              authorized_principal = none;
                              evidence_ref = none;
                              bound_at = or_now s.now at;
                            };
                            stores = ap (find (λ b. b.attempt_id =ᵗ d.attempt_id)) b2 ∙ stored;
                            of_dispatch = refl;
                            starts = refl;
                            ends = ap (λ p. or_now s.now at + p.duration) same;
                            by_policy = ap (λ p. p.policy_ref) same;
                            keeps_tasks = t2 ∙ t1;
                            keeps_attempts = a2 ∙ a1;
                          })
