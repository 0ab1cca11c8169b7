-- ===== src/Store/Recovery/Current.antt =====
-- What the lists of internal/store/recovery_transactions.go say of the tables.
use ai_supervisor.Base.{
  ◌≤◌, ◌≡◌, refl, sym, ap, ◌∙◌, subst, Bool, true, false, Option, none, some, List, [], ◌∷◌, ok,
  All, Bool-cases, Option-cases, inl, inr, or_fail-pass, guard-pass, guard->>-eq-ok, then_branch,
  else_branch, arith,
}
use ai_supervisor.Base.Text.{Text, ◌=ᵗ◌, text_eq_refl}
use ai_supervisor.Base.Table.{find, count}
use ai_supervisor.Base.Table.Laws.{All-map}
use ai_supervisor.Base.Table.Rows.{count-found}
use ai_supervisor.Base.Table.Order.{All-order_by}
use ai_supervisor.Store.Schema.{Outcome, DispatchRow, Db}
use ai_supervisor.Store.Send.{dispatch_by_id}
use ai_supervisor.Store.Send.Unknown.Escalation.{IsKeyed}
use ai_supervisor.Store.Recovery.{
  RecoveryExecution, recovery_execution, is_executed_by, current_execution,
}
use ai_supervisor.Store.Recovery.Snapshot.{
  RecoverySnapshot, joined_attempt, keep_if, execution_of, executions_of, is_candidate,
  list_recovery_snapshot,
}

-- Each dispatch is found by its key, where the key is unique.
each_found :
    (l : List DispatchRow)
    → ((k : Text) → count (λ d. d.operation_id =ᵗ k) l ≤ 1)
    → All (λ d. find (λ y. y.operation_id =ᵗ d.operation_id) l ≡ some d) l
unfolding find count
each_found [] unique = tt
each_found (x ∷ l) unique = (
  rw (text_eq_refl x.operation_id) refl,
  All-map l
      (λ d (found : find (λ y. y.operation_id =ᵗ d.operation_id) l ≡ some d).
        elim (Bool-cases (x.operation_id =ᵗ d.operation_id)) [
          | inl clash ↦
              let twice = unique d.operation_id in
              let some_row = count-found (λ y. y.operation_id =ᵗ d.operation_id) l found in
              absurd (ground arith)
          | inr other ↦ rw other found
        ])
      (each_found l (λ k. let h = unique k in ground arith)),
)

each_dispatch :
    (db : Db) → IsKeyed db → All (λ d. dispatch_by_id d.operation_id db ≡ some d) db.dispatches
unfolding dispatch_by_id
each_dispatch db keyed = each_found db.dispatches keyed.one_dispatch

execution_of-current :
    (db : Db) (d : DispatchRow) (x : RecoveryExecution)
    → dispatch_by_id d.operation_id db ≡ some d
    → execution_of d db ≡ some x
    → current_execution false x.operation_id db ≡ ok x
unfolding execution_of current_execution recovery_execution
execution_of-current db d x found e =
    elim (Option-cases (find (λ t. t.task_id =ᵗ d.task_id) db.tasks)) [
      | inl no_task ↦
          let none_joined : ◌≡◌ {A = Option RecoveryExecution} none (some x) = rw no_task at e in
          absurd (cc)
      | inr (t, task) ↦
          let e1 : joined_attempt d t (find (is_executed_by d t) db.attempts) ≡ some x =
            rw task at e in
          elim (Option-cases (find (is_executed_by d t) db.attempts)) [
            | inl no_attempt ↦
                let none_joined : ◌≡◌ {A = Option RecoveryExecution} none (some x) =
                  rw no_attempt at e1 in
                absurd (cc)
            | inr (a, attempt) ↦
                let e2 : some (recovery_execution d t a) ≡ some x = rw attempt at e1 in
                let same : recovery_execution d t a ≡ x = cc in
                subst (λ y. current_execution false y.operation_id db ≡ ok y) same
                  (or_fail-pass _ _ _ found
                    ∙ guard-pass _ _ _ refl
                    ∙ or_fail-pass _ _ _ task
                    ∙ or_fail-pass _ _ _ attempt)
          ]
    ]

-- What the listed executions have, from what each dispatch of the list has.
pub executions_of-All :
    (P : RecoveryExecution → Type 0) (join : DispatchRow → Option RecoveryExecution)
    (p : DispatchRow → RecoveryExecution → Bool) (l : List DispatchRow)
    → All (λ d. (x : RecoveryExecution) → join d ≡ some x → p d x ≡ true → P x) l
    → All P (executions_of join p l)
unfolding executions_of
executions_of-All P join p [] h = tt
executions_of-All P join p (d ∷ l) h =
    keep (join d) (executions_of join p l) h.0 (executions_of-All P join p l h.1)
  where
    keep :
        (o : Option RecoveryExecution) (m : List RecoveryExecution)
        → ((x : RecoveryExecution) → o ≡ some x → p d x ≡ true → P x)
        → All P m
        → All P (keep_if (p d) o m)
    keep none m k r = r
    keep (some x) m k r = elim (Bool-cases (p d x)) [
      | inl hit ↦ subst (λ y. All P y) (sym (then_branch (p d x) (x ∷ m) m hit)) (k x refl hit, r)
      | inr miss ↦ subst (λ y. All P y) (sym (else_branch (p d x) (x ∷ m) m miss)) r
    ]

-- Every execution that ListRecoverySnapshot returns is the one that the transactions on its operation
-- read at once: the open current attempt of a stored dispatch, with the state of its task.
pub list_recovery_snapshot-current :
    (db : Db) {out : RecoverySnapshot}
    → IsKeyed db
    → list_recovery_snapshot db ≡ ok out
    → All (λ x. current_execution false x.operation_id db ≡ ok x) out.executions
unfolding list_recovery_snapshot
list_recovery_snapshot-current db {out} keyed e =
    let same = ok_injective (guard->>-eq-ok _ _ _ e).1 in
    subst (λ l. All (λ x. current_execution false x.operation_id db ≡ ok x) l)
      (ap (λ r. r.executions) same)
      (All-order_by _ (λ x. x.operation_id) _
        (executions_of-All _ (λ d. execution_of d db) is_candidate db.dispatches
          (All-map db.dispatches (λ d found x e1 hit. execution_of-current db d x found e1)
            (each_dispatch db keyed))))
  where
    ok_injective :
        {x y : RecoverySnapshot} → ◌≡◌ {A = Outcome RecoverySnapshot} (ok x) (ok y) → x ≡ y
    ok_injective h = cc
