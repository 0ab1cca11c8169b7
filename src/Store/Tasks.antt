-- ===== src/Store/Tasks.antt =====
-- internal/store/task_store.go: the creation of tasks and the generic transition.
pub mod Laws
use ai_supervisor.Base.{
  Bool, true, false, ◌&&◌, ◌||◌, not, Option, none, some, List, [], ◌∷◌, ok, ◌>>=◌, ◌>>◌, guard,
  or_fail, leb, ◌==◌, if◌then◌else◌, is_some,
}
use ai_supervisor.Base.Text.{Text, ◌=ᵗ◌, is_blank}
use ai_supervisor.Base.Table.{find, exists_row, count, update, insert}
use ai_supervisor.Workflow.{
  TaskState, draft, ready, dispatched, running, reviewing, revision_required, failed, ◌=ˢ◌,
  transition,
}
use ai_supervisor.Store.Schema.{
  Time, or_now, Outcome, TaskRow, ContractRow, Db, task_not_found, state_conflict, duplicate_key,
  foreign_key_violation, atomic_dispatch_required, invalid_initial_task_state, pair_busy,
  ready_contract_required, transition_rejected, invalid_argument,
}

-- CreateTask: the checks, and the INSERT with its primary key and its reference to a pair.
unfoldable pub create_task : Time → TaskRow → Db → Outcome Db
create_task now t db = do
  guard (not (is_blank t.task_id)) invalid_argument
  guard (not (is_blank t.phase_id)) invalid_argument
  guard (not (is_blank t.pair_id)) invalid_argument
  guard (t.state =ˢ draft) invalid_initial_task_state
  guard (t.current_attempt == 0) invalid_initial_task_state
  let created = or_now now t.created_at
  let updated = or_now created t.updated_at
  guard (not (exists_row (λ r. r.task_id =ᵗ t.task_id) db.tasks)) duplicate_key
  guard (exists_row (λ p. p.pair_id =ᵗ t.pair_id) db.pairs) foreign_key_violation
  ok (record db {
    tasks = insert (record t { created_at = created; updated_at = updated }) db.tasks;
  })

-- GetTask
unfoldable pub get_task : Text → Db → Outcome TaskRow
get_task task_id db = or_fail (find (λ t. t.task_id =ᵗ task_id) db.tasks) task_not_found

-- `state IN ('DISPATCHED', 'RUNNING', 'REVIEWING')`
abbrev pub is_active_lane : TaskState → Bool
is_active_lane dispatched = true
is_active_lane running = true
is_active_lane reviewing = true
is_active_lane _ = false

-- checkPairQuery: another task of the pair is in its active lane.
unfoldable pub lane_taken : Text → Text → List TaskRow → Bool
lane_taken pair_id task_id =
    exists_row (λ t. t.pair_id =ᵗ pair_id && not (t.task_id =ᵗ task_id) && is_active_lane t.state)

-- `ORDER BY revision_number DESC LIMIT 1` over the contracts of a task.
unfoldable pub latest_contract : Text → List ContractRow → Option ContractRow
latest_contract task_id [] = none
latest_contract task_id (c ∷ l) =
    let rest = latest_contract task_id l in
    if c.task_id =ᵗ task_id
    then elim rest [
      | none ↦ some c
      | some d ↦ if leb d.revision_number c.revision_number then some c else some d
    ]
    else rest

-- The switch on the state that a task enters READY from.
abbrev pub ready_permitted : TaskState → Bool → Bool
ready_permitted draft is_immutable = not is_immutable
ready_permitted revision_required is_immutable = not is_immutable
ready_permitted failed is_immutable = is_immutable
ready_permitted _ is_immutable = false

unfoldable pub check_ready_contract : TaskState → Text → Db → Outcome (Unit {0})
check_ready_contract expected_from task_id db = do
  latest ← or_fail (latest_contract task_id db.contracts) ready_contract_required
  guard (ready_permitted expected_from latest.is_immutable) ready_contract_required
  ok tt

-- TransitionTask
unfoldable pub transition_task : Time → Text → TaskState → TaskState → Db → Outcome Db
transition_task now task_id expected_from to db = do
  guard (not (expected_from =ˢ ready && to =ˢ dispatched)) atomic_dispatch_required
  guard (not (is_some (transition expected_from to))) (transition_rejected expected_from to)
  task ← or_fail (find (λ t. t.task_id =ᵗ task_id) db.tasks) task_not_found
  guard (task.state =ˢ expected_from) state_conflict
  if to =ˢ ready then check_ready_contract expected_from task_id db else ok tt
  guard (not ((to =ˢ running || to =ˢ reviewing) && lane_taken task.pair_id task_id db.tasks))
      pair_busy
  let cas = λ (t : TaskRow). t.task_id =ᵗ task_id && t.state =ˢ expected_from
  guard (not (count cas db.tasks == 0)) state_conflict
  ok (record db { tasks = update cas (λ t. record t { state = to; updated_at = now }) db.tasks })
