-- ===== src/Store/Tasks/Laws.antt =====
-- What TransitionTask of internal/store/task_store.go has checked and done when it returns.
use ai_supervisor.Base.{
  ◌≡◌, refl, ap, ◌∙◌, subst, ◌≢◌, Bool, true, ◌&&◌, not, some, is_some, Bool-cases, inl, inr, ok,
  Ensures, returns, Ensures-guard, Ensures-or_fail, Ensures-then, Ensures_elim, or_fail-eq-ok,
  guard->>-eq-ok, >>=-eq-ok, if◌then◌else◌, arith,
}
use ai_supervisor.Base.Text.{Text, ◌=ᵗ◌}
use ai_supervisor.Base.Table.{find}
use ai_supervisor.Base.Table.Laws.{updated, find-holds}
use ai_supervisor.Base.Table.Rows.{update-find}
use ai_supervisor.Workflow.{
  TaskState, ready, dispatched, can_transition, transition, ◌=ˢ◌, state_eq_iff,
}
use ai_supervisor.Store.Schema.{Time, TaskRow, ContractRow, Db}
use ai_supervisor.Store.Tasks.{
  latest_contract, ready_permitted, check_ready_contract, transition_task,
}

-- The check of the latest contract before READY.
abbrev pub Prepared : TaskState → Text → Db → Type 0
Prepared from task_id db =
    (r : ContractRow) × (latest_contract task_id db.contracts ≡ some r)
    × (ready_permitted from r.is_immutable ≡ true)

-- What a transition that returned has checked and done.
pub record IsMoved (now : Time) (task_id : Text) (from to : TaskState) (db d : Db) : Type 0 where
  pub before : TaskRow
  pub found : find (λ t. t.task_id =ᵗ task_id) db.tasks ≡ some before
  pub was_from : before.state ≡ from
  pub moves :
      find (λ t. t.task_id =ᵗ task_id) d.tasks
      ≡ some (record before { state = to; updated_at = now })
  pub edge : can_transition from to ≡ true
  pub undispatched : to ≢ dispatched
  pub prepared : to ≡ ready → Prepared from task_id db

check_ready_contract-Prepared :
    (from : TaskState) (task_id : Text) (db : Db)
    → check_ready_contract from task_id db ≡ ok tt
    → Prepared from task_id db
unfolding check_ready_contract
check_ready_contract-Prepared from task_id db e =
    let (r, found, rest) = >>=-eq-ok _ _ e in
    (r, or_fail-eq-ok _ _ found, (guard->>-eq-ok _ _ _ rest).0)

Prepared-if :
    (from to : TaskState) (task_id : Text) (db : Db)
    → (if to =ˢ ready then check_ready_contract from task_id db else ok tt) ≡ ok tt
    → to ≡ ready
    → Prepared from task_id db
Prepared-if from to task_id db e same =
    let hit : (to =ˢ ready) ≡ true = (state_eq_iff _ _).1 same in
    check_ready_contract-Prepared from task_id db (rw hit at e)

no_dispatch :
    (from to : TaskState)
    → can_transition from to ≡ true
    → not (from =ˢ ready && to =ˢ dispatched) ≡ true
    → to ≢ dispatched
unfolding can_transition
no_dispatch from to e h same =
    let hit : (to =ˢ dispatched) ≡ true = (state_eq_iff _ _).1 same in
    let edge : can_transition from dispatched ≡ true =
      subst (λ x. can_transition from x ≡ true) same e in
    let was : from ≡ ready = from_ready from edge in
    let hit' : (from =ˢ ready) ≡ true = (state_eq_iff _ _).1 was in absurd (ground arith)
  where
    from_ready : (s : TaskState) → can_transition s dispatched ≡ true → s ≡ ready
    from_ready s k = ground arith

pub permitted :
    (s t : TaskState) → not (is_some (transition s t)) ≡ true → can_transition s t ≡ true
unfolding transition
permitted s t h = ground arith

-- If TransitionTask returns, then the task was in the expected state and is in the new one, its other
-- columns but the time of update as they were; the workflow has the edge; the new state is not
-- DISPATCHED; and READY was entered only with a latest contract that the old state permits, which is
-- a mutable one from DRAFT and REVISION_REQUIRED and a frozen one from FAILED.
pub transition_task-IsMoved :
    (now : Time) (task_id : Text) (from to : TaskState) (db : Db) {d : Db}
    → transition_task now task_id from to db ≡ ok d
    → IsMoved now task_id from to db d
unfolding transition_task
transition_task-IsMoved now task_id from to db e = Ensures_elim run e
  where
    cas : TaskRow → Bool
    cas t = t.task_id =ᵗ task_id && t.state =ˢ from

    move : TaskRow → TaskRow
    move t = record t { state = to; updated_at = now }

    id_kept : (r : TaskRow) → ((updated cas move r).task_id =ᵗ task_id) ≡ (r.task_id =ᵗ task_id)
    id_kept r = elim (Bool-cases (cas r)) [ inl hit ↦ rw hit refl | inr miss ↦ rw miss refl ]

    run : Ensures (IsMoved now task_id from to db) (transition_task now task_id from to db)
    run = Ensures-guard _ _ _ λ unbound. Ensures-guard _ _ _ λ allowed.
        Ensures-or_fail _ _ _ λ t found. Ensures-guard _ _ _ λ current. Ensures-then _ _ λ contract.
          Ensures-guard _ _ _ λ lane. Ensures-guard _ _ _ λ hit.
            let own : (t.task_id =ᵗ task_id) ≡ true =
              find-holds (λ r. r.task_id =ᵗ task_id) db.tasks found in
            let edge = permitted from to allowed in
            returns (record {
              before = t;
              found = found;
              was_from = (state_eq_iff _ _).0 current;
              moves =
                  update-find (λ r. r.task_id =ᵗ task_id) cas move db.tasks id_kept found
                  ∙ ap some (rw own (rw current refl));
              edge = edge;
              undispatched = no_dispatch from to edge unbound;
              prepared = Prepared-if from to task_id db contract;
            })
