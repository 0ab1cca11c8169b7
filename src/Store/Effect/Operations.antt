-- ===== src/Store/Effect/Operations.antt =====
-- The operations of task_store.go, contract_store.go, dispatch.go and atomic_transitions.go keep
-- the frame.
use ai_supervisor.Base.{
  ◌≡◌, refl, Bool, true, false, ◌&&◌, ◌||◌, not, inr, Ensures, Ensures-guard, Ensures-or_fail,
  Ensures-then, returns, not-true, arith,
}
use ai_supervisor.Base.Text.{Text}
use ai_supervisor.Base.Table.Laws.{Extends-insert}
use ai_supervisor.Workflow.{
  TaskState, ready, running, reviewing, dispatched, ◌=ˢ◌, state_eq_iff, state_eq_refl,
  can_transition,
}
use ai_supervisor.Store.Schema.{Time, TaskRow, ContractRow, Db, Codec}
use ai_supervisor.Store.Tasks.{create_task, transition_task, is_active_lane}
use ai_supervisor.Store.Tasks.Laws.{permitted}
use ai_supervisor.Store.Contracts.{insert_task_contract}
use ai_supervisor.Store.Board.{created, moved}
use ai_supervisor.Store.Effect.{SameContract, Effect}
use ai_supervisor.Store.Effect.Steps.{Effect-tasks, Effect-contracts}

free_of : (a b : Bool) → not (a && b) ≡ true → a ≡ true → b ≡ false
free_of a b h e = ground arith

-- The generic transition enters no active lane but by the two states that it checks the lane for.
lane_checked :
    (from to : TaskState)
    → can_transition from to ≡ true
    → not (from =ˢ ready && to =ˢ dispatched) ≡ true
    → is_active_lane to ≡ true
    → (to =ˢ running || to =ˢ reviewing) ≡ true
unfolding can_transition
lane_checked from running e b h = rw (state_eq_refl running) refl
lane_checked from reviewing e b h = let r = state_eq_refl reviewing in ground arith
lane_checked from dispatched e b h =
    let r = state_eq_refl dispatched in let q = state_eq_refl ready in ground arith
lane_checked from _ e b h = absurd (cc)

module _ (c : Codec) where
  pub create_task-Effect :
      (now : Time) (t : TaskRow) (db : Db) → Ensures (Effect c db) (create_task now t db)
  unfolding create_task
  create_task-Effect now t db = Ensures-guard _ _ _ λ a. Ensures-guard _ _ _ λ b.
      Ensures-guard _ _ _ λ d. Ensures-guard _ _ _ λ is_draft. Ensures-guard _ _ _ λ f.
        Ensures-guard _ _ _ λ fresh. Ensures-guard _ _ _ λ g.
          returns (Effect-tasks c db (created _ (not-true _ fresh) ((state_eq_iff _ _).0 is_draft)))

  pub insert_task_contract-Effect :
      (r : ContractRow) (db : Db) → Ensures (Effect c db) (insert_task_contract r db)
  unfolding insert_task_contract
  insert_task_contract-Effect r db = Ensures-guard _ _ _ λ a. Ensures-guard _ _ _ λ b.
      Ensures-guard _ _ _ λ d. Ensures-guard _ _ _ λ f. Ensures-guard _ _ _ λ g.
        Ensures-or_fail _ _ _ λ t found. Ensures-then _ _ λ checked. Ensures-guard _ _ _ λ h.
          Ensures-guard _ _ _ λ i.
            returns (
              Effect-contracts c db
                (Extends-insert SameContract _ db.contracts λ x. (refl, λ e. e)))

  pub transition_task-Effect :
      (now : Time) (task_id : Text) (from to : TaskState) (db : Db)
      → Ensures (Effect c db) (transition_task now task_id from to db)
  unfolding transition_task
  transition_task-Effect now task_id from to db = Ensures-guard _ _ _ λ bound.
      Ensures-guard _ _ _ λ edge. Ensures-or_fail _ _ _ λ t found. Ensures-guard _ _ _ λ current.
        Ensures-then _ _ λ contract. Ensures-guard _ _ _ λ lane. Ensures-guard _ _ _ λ hit.
          returns (
            Effect-tasks c db (
              moved task_id from to _ (permitted from to edge)
                (λ r. (refl, refl, refl, omega arith))
                (λ busy.
                  let looked = lane_checked from to (permitted from to edge) bound busy in
                  inr (t, found, free_of _ _ lane looked))))
