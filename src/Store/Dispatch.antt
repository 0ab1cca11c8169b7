-- ===== src/Store/Dispatch.antt =====
-- internal/store/dispatch.go: the atomic allocation of an attempt that dispatches a task.
pub mod Bound
use ai_supervisor.Base.{
  ℕ, ◌+◌, Bool, true, false, ◌&&◌, ◌||◌, not, Option, none, some, List, [], ◌∷◌, ok, err, ◌>>=◌,
  ◌>>◌, guard, or_fail, leb, ◌==◌, if◌then◌else◌,
}
use ai_supervisor.Base.Text.{Text, codes, ◌=ᵗ◌, is_blank}
use ai_supervisor.Base.Table.{find, exists_row, count, update, insert}
use ai_supervisor.Workflow.{ready, dispatched, ◌=ˢ◌}
use ai_supervisor.Store.Schema.{
  Time, or_now, Outcome, Codec, Surroundings, Detail, AuditEvent, TaskRow, ContractRow, AttemptRow,
  DispatchRow, Db, clean, is_clean, is_unresolved_stage, is_unresolved_restore, dispatch_bound,
  bound_dispatch_required, invalid_argument, report_path_mismatch, task_not_ready, task_not_found,
  quarantined_execution, pair_busy, contract_not_found, contract_not_owned, stale_contract_revision,
  worker_session_not_found, duplicate_key, foreign_key_violation, system_error, attempt_not_found,
}
use ai_supervisor.Store.Audit.{append_audit_event_tx}
use ai_supervisor.Store.ReportPath.{canonical_expected_report_path}
use ai_supervisor.Store.Tasks.{lane_taken}

-- DispatchBinding
pub record DispatchBinding : Type 0 where
  pub operation_id : Text
  pub session_id : Text
  pub terminal_generation : Text

-- domain.AuditTaskDispatchBound
unfoldable pub audit_task_dispatch_bound : Text
audit_task_dispatch_bound = codes "TASK_DISPATCH_BOUND"

unfoldable pub supervisor_actor : Text
supervisor_actor = codes "supervisor"

-- GetTaskAttempt
unfoldable pub get_task_attempt : Text → Db → Outcome AttemptRow
get_task_attempt attempt_id db =
    or_fail (find (λ a. a.attempt_id =ᵗ attempt_id) db.attempts) attempt_not_found

-- The Pair lifecycle guard: an unresolved restore or provisioning.
unfoldable pub pair_blocked : Text → Db → Bool
pair_blocked pair_id db =
    exists_row (λ r. r.pair_id =ᵗ pair_id && is_unresolved_restore r.resolution) db.restores
    || exists_row (λ p. p.pair_id =ᵗ pair_id && is_unresolved_stage p.stage) db.provisionings

-- `SELECT MAX(revision_number)` over the contracts of a task that has one.
unfoldable pub max_revision : Text → List ContractRow → ℕ
max_revision task_id [] = 0
max_revision task_id (c ∷ l) =
    let rest = max_revision task_id l in
    if c.task_id =ᵗ task_id && leb rest c.revision_number then c.revision_number else rest

-- The INSERT into task_attempts with its unique columns and its references.
unfoldable pub insert_attempt : AttemptRow → Db → Outcome Db
insert_attempt a db = do
  guard
      (not (
        exists_row
          (λ r.
            r.attempt_id =ᵗ a.attempt_id
            || (r.task_id =ᵗ a.task_id && r.attempt_number == a.attempt_number))
          db.attempts))
      duplicate_key
  guard
      (exists_row (λ t. t.task_id =ᵗ a.task_id) db.tasks
        && exists_row (λ c. c.contract_id =ᵗ a.contract_id && c.task_id =ᵗ a.task_id) db.contracts)
      foreign_key_violation
  ok (record db { attempts = insert a db.attempts })

-- The INSERT into dispatch_operations, likewise.
unfoldable pub insert_dispatch : DispatchRow → Db → Outcome Db
insert_dispatch d db = do
  guard
      (not (
        exists_row (λ r. r.operation_id =ᵗ d.operation_id || r.attempt_id =ᵗ d.attempt_id)
          db.dispatches))
      duplicate_key
  guard
      (exists_row (λ a. a.attempt_id =ᵗ d.attempt_id) db.attempts
        && exists_row (λ p. p.pair_id =ᵗ d.pair_id) db.pairs
        && exists_row (λ t. t.task_id =ᵗ d.task_id) db.tasks)
      foreign_key_violation
  ok (record db { dispatches = insert d db.dispatches })

-- PrepareDispatch: the unbound form is closed.
unfoldable pub prepare_dispatch_unbound : Db → Outcome (Db × AttemptRow)
prepare_dispatch_unbound db = err bound_dispatch_required

-- The conditional update READY -> DISPATCHED with the next attempt number.
unfoldable pub claim_task : Time → Text → Db → Outcome Db
claim_task now task_id db = do
  let claim = λ (t : TaskRow). t.task_id =ᵗ task_id && t.state =ˢ ready
  guard (not (count claim db.tasks == 0))
      (if exists_row (λ t. t.task_id =ᵗ task_id) db.tasks then task_not_ready else task_not_found)
  ok (record db {
    tasks =
        update claim
          (λ t. record t {
            state = dispatched;
            current_attempt = t.current_attempt + 1;
            updated_at = now;
          })
          db.tasks;
  })

-- The contract exists, belongs to the task and is its latest revision; it is frozen if it was not.
unfoldable pub freeze_contract : Text → Text → Db → Outcome Db
freeze_contract task_id contract_id db = do
  contract ← or_fail (find (λ c. c.contract_id =ᵗ contract_id) db.contracts) contract_not_found
  guard (contract.task_id =ᵗ task_id) contract_not_owned
  guard (contract.revision_number == max_revision task_id db.contracts) stale_contract_revision
  ok (record db {
    contracts =
        if contract.is_immutable
        then db.contracts
        else update (λ c. c.contract_id =ᵗ contract_id && not c.is_immutable)
            (λ c. record c { is_immutable = true }) db.contracts;
  })

-- The Pair's session is the bound one and clean, no attempt of the task is quarantined, and no
-- provisioning is unresolved.
unfoldable pub check_binding : DispatchBinding → Text → Text → Db → Outcome (Unit {0})
check_binding binding pair_id task_id db = do
  session ← or_fail (find (λ w. w.pair_id =ᵗ pair_id) db.sessions) worker_session_not_found
  guard
      (session.session_id =ᵗ binding.session_id
        && session.terminal_generation =ᵗ binding.terminal_generation)
      worker_session_not_found
  guard (is_clean session.quarantine_state) quarantined_execution
  guard (count (λ a. a.task_id =ᵗ task_id && not (is_clean a.quarantine_state)) db.attempts == 0)
      quarantined_execution
  guard (count (λ p. p.pair_id =ᵗ pair_id && is_unresolved_stage p.stage) db.provisionings == 0)
      quarantined_execution
  ok tt

-- The attempt that the transaction inserts and returns.
unfoldable pub new_attempt : Text → ℕ → Text → Text → Text → Time → DispatchBinding → AttemptRow
new_attempt attempt_id number task_id contract_id path now binding = record {
  attempt_id = attempt_id;
  attempt_number = number;
  task_id = task_id;
  contract_id = contract_id;
  expected_report_path = path;
  started_at = now;
  ended_at = none;
  worker_report_raw = none;
  session_id = some binding.session_id;
  terminal_generation = some binding.terminal_generation;
  recovery_disposition = none;
  quarantine_state = clean;
}

unfoldable pub new_dispatch : DispatchBinding → Text → Text → Text → Time → DispatchRow
new_dispatch binding attempt_id pair_id task_id now = record {
  operation_id = binding.operation_id;
  attempt_id = attempt_id;
  pair_id = pair_id;
  task_id = task_id;
  session_id = binding.session_id;
  terminal_generation = binding.terminal_generation;
  stage = dispatch_bound;
  requested_at = now;
  confirmed_at = none;
  resolution_state = none;
}

module _ (c : Codec) (s : Surroundings) where
  -- prepareDispatch with a binding.
  unfoldable pub prepare_dispatch :
      Text → Text → Text → Text → Time → DispatchBinding → Db → Outcome (Db × AttemptRow)
  prepare_dispatch task_id contract_id attempt_id expected_report_path started_at binding db = do
    path ← canonical_expected_report_path task_id attempt_id
    guard (expected_report_path =ᵗ path) report_path_mismatch
    let now = or_now s.now started_at
    claimed ← claim_task now task_id db
    task ← or_fail (find (λ t. t.task_id =ᵗ task_id) claimed.tasks) task_not_found
    guard (not (pair_blocked task.pair_id claimed)) quarantined_execution
    guard (not (lane_taken task.pair_id task_id claimed.tasks)) pair_busy
    frozen ← freeze_contract task_id contract_id claimed
    check_binding binding task.pair_id task_id frozen
    let attempt =
        new_attempt attempt_id task.current_attempt task_id contract_id expected_report_path now
          binding
    allocated ← insert_attempt attempt frozen
    bound ← insert_dispatch (new_dispatch binding attempt_id task.pair_id task_id now) allocated
    event_id ← or_fail (s.new_event_id 0) system_error
    audited ←
        append_audit_event_tx c s.now
          (record {
            event_id = event_id;
            event_type = audit_task_dispatch_bound;
            timestamp = now;
            task_id = task_id;
            contract_id = contract_id;
            attempt_id = attempt_id;
            pair_id = task.pair_id;
            actor = supervisor_actor;
            details =
                (codes "session_id", Detail.text binding.session_id)
                ∷ (codes "terminal_generation", Detail.text binding.terminal_generation)
                ∷ [];
          })
          bound
    ok (audited.0, attempt)

  -- PrepareBoundDispatch
  unfoldable pub prepare_bound_dispatch :
      Text → Text → Text → Text → Time → DispatchBinding → Db → Outcome (Db × AttemptRow)
  prepare_bound_dispatch task_id contract_id attempt_id expected_report_path started_at binding db =
      do
        guard
            (not (
              is_blank binding.operation_id
              || is_blank binding.session_id
              || is_blank binding.terminal_generation))
            invalid_argument
        prepare_dispatch task_id contract_id attempt_id expected_report_path started_at binding db
