-- ===== src/Store/Runs.antt =====
-- The runs of internal/store: the transactions that the model has, one after the other, and between
-- them what the restore and clearance transactions, the acceptance of an administrative risk and the
-- stores of projects and pairs write: other rows of pairs, sessions, provisionings, restores and stops
-- (`elsewhere`), other quarantines of attempts (`requarantines`), and events of a transaction (`logs`).
-- None of these writes tasks, contracts, dispatches or budgets, nor any other column of attempts.
pub mod Laws
pub mod History
pub mod Budgeted
pub mod Scenario
pub mod Tests
use ai_supervisor.Base.{ℕ, Bool, true, List, Option, ok, ◌≡◌}
use ai_supervisor.Base.Text.{Text}
use ai_supervisor.Base.Table.{update}
use ai_supervisor.Workflow.{TaskState}
use ai_supervisor.Store.Schema.{
  Time, PairRow, TaskRow, ContractRow, AttemptRow, SessionRow, ProvisioningRow, RestoreRow, StopRow,
  AuditEvent, AuditRow, Quarantine, Db, Codec, Surroundings,
}
use ai_supervisor.Store.Audit.{append_audit_event, append_audit_event_tx}
use ai_supervisor.Store.Tasks.{create_task, transition_task}
use ai_supervisor.Store.Contracts.{insert_task_contract}
use ai_supervisor.Store.Dispatch.{DispatchBinding, prepare_bound_dispatch}
use ai_supervisor.Store.Send.{BudgetPolicy, record_send_requested, record_send_confirmed}
use ai_supervisor.Store.Send.Budget.{bind_legacy_execution_budget}
use ai_supervisor.Store.Send.Unknown.{record_unknown_delivery}
use ai_supervisor.Store.Send.Holds.{
  record_pre_send_hold, record_pre_send_admissibility_rejected, resolve_pre_send_hold,
}
use ai_supervisor.Store.Sessions.{
  WorkerSessionCasUpdate, update_worker_session_status_and_quarantine,
}
use ai_supervisor.Store.Provisioning.{
  WorkerSession, reserve_pair_provisioning, confirm_pair_provisioning, fail_pair_provisioning,
  fail_provisioning_at_startup,
}
use ai_supervisor.Store.Recovery.{RecoveryExecution, PostSendObservation}
use ai_supervisor.Store.Recovery.Observe.{
  record_recovery_sweep_event, record_post_send_outage, observe_post_send, record_recovery_absent,
}
use ai_supervisor.Store.Stop.Reserve.{StopOperation, reserve_stop_operation}
use ai_supervisor.Store.Stop.Resolve.{StopTerminalOutcome}
use ai_supervisor.Store.Stop.Commit.{
  commit_stop_call_accepted, commit_stop_outcome, classify_abandoned_stop_alive,
}
use ai_supervisor.Store.Closure.{atomic_terminal_transition, atomic_attempt_closure_transition}

-- One committed transaction. One that fails is rolled back, and is no step.
pub data Step (c : Codec) : Db → Db → Type 0 where
  creates : {db d : Db} (now : Time) (t : TaskRow) → create_task now t db ≡ ok d → Step c db d
  transitions :
      {db d : Db} (now : Time) (task_id : Text) (from to : TaskState)
      → transition_task now task_id from to db ≡ ok d
      → Step c db d
  revises : {db d : Db} (r : ContractRow) → insert_task_contract r db ≡ ok d → Step c db d
  dispatches_bound :
      {db d : Db} (s : Surroundings) (task_id contract_id attempt_id path : Text) (at : Time)
      (b : DispatchBinding) (a : AttemptRow)
      → prepare_bound_dispatch c s task_id contract_id attempt_id path at b db ≡ ok (d, a)
      → Step c db d
  holds_send :
      {db d : Db} (s : Surroundings) (op disposition actor : Text) (at : Time)
      → record_pre_send_hold c s op disposition actor at db ≡ ok d
      → Step c db d
  rejects_send :
      {db d : Db} (s : Surroundings) (op activity actor : Text) (at : Time)
      → record_pre_send_admissibility_rejected c s op activity actor at db ≡ ok d
      → Step c db d
  resolves_hold :
      {db d : Db} (s : Surroundings)
      (op attempt_id expected session generation activity principal actor : Text) (at : Time)
      → resolve_pre_send_hold c s op attempt_id expected session generation activity principal actor
          at db
        ≡ ok d
      → Step c db d
  requests_send :
      {db d : Db} (s : Surroundings) (op session generation activity : Text) (is_terminated : Bool)
      (actor : Text) (at : Time)
      → record_send_requested c s op session generation activity is_terminated actor at db ≡ ok d
      → Step c db d
  confirms_send :
      {db d : Db} (s : Surroundings) (op actor : Text) (http200 : Bool) (at : Time)
      (policies : List BudgetPolicy)
      → record_send_confirmed c s op actor http200 at policies db ≡ ok d
      → Step c db d
  loses_send :
      {db d : Db} (s : Surroundings) (op actor : Text) (at : Time)
      → record_unknown_delivery c s op actor at db ≡ ok d
      → Step c db d
  terminates :
      {db d : Db} (s : Surroundings) (task_id : Text) (expected to : TaskState)
      (reason attempt_id disposition : Text)
      → atomic_terminal_transition c s task_id expected to reason attempt_id disposition db ≡ ok d
      → Step c db d
  escalates :
      {db d : Db} (s : Surroundings) (task_id attempt_id disposition : Text)
      → atomic_attempt_closure_transition c s task_id attempt_id disposition db ≡ ok d
      → Step c db d
  binds_budget :
      {db d : Db} (s : Surroundings) (attempt_id principal scope evidence_ref : Text)
      (policy : BudgetPolicy) (at : Time)
      → bind_legacy_execution_budget c s attempt_id principal scope evidence_ref policy at db ≡ ok d
      → Step c db d
  reserves :
      {db d : Db} (s : Surroundings) (op pair_id client_token : Text) (at : Time) (actor : Text)
      → reserve_pair_provisioning c s op pair_id client_token at actor db ≡ ok d
      → Step c db d
  provisions :
      {db d : Db} (s : Surroundings) (op : Text) (session : WorkerSession) (actor : Text)
      (at : Time)
      → confirm_pair_provisioning c s op session actor at db ≡ ok d
      → Step c db d
  fails_provisioning :
      {db d : Db} (s : Surroundings) (op actor reason : Text) (at : Time)
      → fail_pair_provisioning c s op actor reason at db ≡ ok d
      → Step c db d
  classifies_provisioning :
      {db d : Db} (s : Surroundings) (op actor : Text) (at : Time)
      → fail_provisioning_at_startup c s op actor at db ≡ ok d
      → Step c db d
  updates_session :
      {db d : Db} (now : Time) (pair_id : Text) (u : WorkerSessionCasUpdate)
      → update_worker_session_status_and_quarantine now pair_id u db ≡ ok d
      → Step c db d
  sweeps :
      {db d : Db} (s : Surroundings) (invocation_id actor event : Text) (at : Time)
      → record_recovery_sweep_event c s invocation_id actor event at db ≡ ok d
      → Step c db d
  loses_contact :
      {db d : Db} (s : Surroundings) (expected : RecoveryExecution)
      (actor classification invocation : Text) (at : Time)
      → record_post_send_outage c s expected actor classification invocation at db ≡ ok d
      → Step c db d
  observes :
      {db d : Db} (s : Surroundings) (expected : RecoveryExecution) (observed : PostSendObservation)
      (actor invocation : Text) (at : Time)
      → observe_post_send c s expected observed actor invocation at db ≡ ok d
      → Step c db d
  finds_absent :
      {db d : Db} (s : Surroundings) (expected : RecoveryExecution) (actor : Text) (at : Time)
      → record_recovery_absent c s expected actor at db ≡ ok d
      → Step c db d
  reserves_stop :
      {db d : Db} (s : Surroundings) (o : StopOperation)
      → reserve_stop_operation c s o db ≡ ok d
      → Step c db d
  accepts_stop :
      {db d : Db} (s : Surroundings) (op : Text) (call_at deadline : Time)
      → commit_stop_call_accepted c s op call_at deadline db ≡ ok d
      → Step c db d
  resolves_stop :
      {db d : Db} (s : Surroundings) (op : Text) (outcome : StopTerminalOutcome)
      → commit_stop_outcome c s op outcome db ≡ ok d
      → Step c db d
  abandons_stop :
      {db d : Db} (s : Surroundings) (op session_id generation actor invocation : Text) (at : Time)
      → classify_abandoned_stop_alive c s op session_id generation actor invocation at db ≡ ok d
      → Step c db d
  audits :
      {db d : Db} (now : Time) (event : AuditEvent) (r : AuditRow)
      → append_audit_event c now event db ≡ ok (d, r)
      → Step c db d
  logs :
      {db d : Db} (now : Time) (event : AuditEvent) (r : AuditRow)
      → append_audit_event_tx c now event db ≡ ok (d, r)
      → Step c db d
  requarantines :
      {db : Db} (quarantine : AttemptRow → Quarantine)
      → Step c db (record db {
        attempts =
            update (λ a. true) (λ a. record a { quarantine_state = quarantine a }) db.attempts;
      })
  elsewhere :
      {db : Db} (pairs : List PairRow) (sessions : List SessionRow)
      (provisionings : List ProvisioningRow) (restores : List RestoreRow) (stops : List StopRow)
      → Step c db (record db {
        pairs = pairs;
        sessions = sessions;
        provisionings = provisionings;
        restores = restores;
        stops = stops;
      })

infixr 5 ◌then◌
pub data Run (c : Codec) : Db → Db → Type 0 where
  idle : {db : Db} → Run c db db
  ◌then◌ : {a b d : Db} → Step c a b → Run c b d → Run c a d
