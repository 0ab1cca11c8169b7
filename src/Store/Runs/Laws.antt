-- ===== src/Store/Runs/Laws.antt =====
-- What every run of the store's transactions keeps.
use ai_supervisor.Base.{
  ◌&&◌, true, false, some, or_fail-eq-ok, ◌≤◌, ◌≡◌, refl, ok, Ensures_elim, arith,
}
use ai_supervisor.Base.Text.{◌=ᵗ◌, Text}
use ai_supervisor.Base.Table.{exists_row, count}
use ai_supervisor.Base.Table.Laws.{All-find, All-pure, Extends-refl, Extends-update}
use ai_supervisor.Store.Schema.{
  Time, AttemptRow, DispatchRow, is_send_confirmed, Db, Codec, empty_db,
}
use ai_supervisor.Store.Audit.{verify_audit_chain}
use ai_supervisor.Store.Audit.Chain.{append_audit_event-Appended, IsChained, IsChained-verify}
use ai_supervisor.Store.Board.{kept, in_lane, has_id, IsExclusive}
use ai_supervisor.Store.Board.Lanes.{Board-IsExclusive}
use ai_supervisor.Store.Dispatch.{get_task_attempt}
use ai_supervisor.Store.Send.{dispatch_by_id, has_budget}
use ai_supervisor.Store.Effect.{
  Attached, Funded, SameAttempt, AllAttached, AllFunded, Effect, Effect-refl, Effect-trans,
  contracts_kept, attempts_kept, dispatches_kept,
}
use ai_supervisor.Store.Effect.Steps.{
  Appended-Effect, Effect-attempts, append_audit_event_tx-Effect,
}
use ai_supervisor.Store.Effect.Operations.{
  create_task-Effect, insert_task_contract-Effect, transition_task-Effect,
}
use ai_supervisor.Store.Effect.Closures.{
  atomic_terminal_transition-Effect, atomic_attempt_closure_transition-Effect, Attached-close,
}
use ai_supervisor.Store.Effect.Dispatching.{prepare_bound_dispatch-Effect}
use ai_supervisor.Store.Effect.Budgets.{bind_legacy_execution_budget-Effect}
use ai_supervisor.Store.Effect.Provisionings.{
  reserve_pair_provisioning-Effect, confirm_pair_provisioning-Effect, fail_pair_provisioning-Effect,
  fail_provisioning_at_startup-Effect, update_worker_session_status_and_quarantine-Effect,
}
use ai_supervisor.Store.Effect.Observations.{
  record_recovery_sweep_event-Effect, record_post_send_outage-Effect, observe_post_send-Effect,
  record_recovery_absent-Effect,
}
use ai_supervisor.Store.Effect.Stops.{
  reserve_stop_operation-Effect, commit_stop_call_accepted-Effect, commit_stop_outcome-Effect,
  classify_abandoned_stop_alive-Effect,
}
use ai_supervisor.Store.Effect.Sends.{
  record_pre_send_hold-Effect, record_pre_send_admissibility_rejected-Effect,
  resolve_pre_send_hold-Effect, record_send_requested-Effect, record_send_confirmed-Effect,
  record_unknown_delivery-Effect,
}
use ai_supervisor.Store.Runs.{
  Step, creates, transitions, revises, dispatches_bound, holds_send, rejects_send, resolves_hold,
  requests_send, confirms_send, loses_send, terminates, escalates, binds_budget, audits, logs,
  requarantines, elsewhere, reserves, provisions, fails_provisioning, classifies_provisioning,
  updates_session, sweeps, loses_contact, observes, finds_absent, reserves_stop, accepts_stop,
  resolves_stop, abandons_stop, Run, idle, ◌then◌,
}

pub Run-trans : {c : Codec} {a b d : Db} → Run c a b → Run c b d → Run c a d
Run-trans idle r = r
Run-trans (s then q) r = s then Run-trans q r

module _ (c : Codec) where
  Step-Effect : {a b : Db} → Step c a b → Effect c a b
  Step-Effect {a} (creates now t e) = Ensures_elim (create_task-Effect c now t a) e
  Step-Effect {a} (transitions now k from to e) =
      Ensures_elim (transition_task-Effect c now k from to a) e
  Step-Effect {a} (revises r e) = Ensures_elim (insert_task_contract-Effect c r a) e
  Step-Effect {a} (dispatches_bound s k r x path at b y e) =
      Ensures_elim (prepare_bound_dispatch-Effect c s k r x path at b a) e
  Step-Effect {a} (holds_send s op d actor at e) =
      Ensures_elim (record_pre_send_hold-Effect c s op d actor at a) e
  Step-Effect {a} (rejects_send s op activity actor at e) =
      Ensures_elim (record_pre_send_admissibility_rejected-Effect c s op activity actor at a) e
  Step-Effect {a} (resolves_hold s op x d w g activity principal actor at e) =
      Ensures_elim (resolve_pre_send_hold-Effect c s op x d w g activity principal actor at a) e
  Step-Effect {a} (requests_send s op w g activity dead actor at e) =
      Ensures_elim (record_send_requested-Effect c s op w g activity dead actor at a) e
  Step-Effect {a} (confirms_send s op actor http200 at policies e) =
      Ensures_elim (record_send_confirmed-Effect c s op actor http200 at policies a) e
  Step-Effect {a} (loses_send s op actor at e) =
      Ensures_elim (record_unknown_delivery-Effect c s op actor at a) e
  Step-Effect {a} (terminates s k from to reason x d e) =
      Ensures_elim (atomic_terminal_transition-Effect c s k from to reason x d a) e
  Step-Effect {a} (escalates s k x d e) =
      Ensures_elim (atomic_attempt_closure_transition-Effect c s k x d a) e
  Step-Effect {a} (binds_budget s k principal scope evidence policy at e) =
      Ensures_elim (bind_legacy_execution_budget-Effect c s k principal scope evidence policy at a)
        e
  Step-Effect {a} (reserves s op pair token at actor e) =
      Ensures_elim (reserve_pair_provisioning-Effect c s op pair token at actor a) e
  Step-Effect {a} (provisions s op w actor at e) =
      Ensures_elim (confirm_pair_provisioning-Effect c s op w actor at a) e
  Step-Effect {a} (fails_provisioning s op actor reason at e) =
      Ensures_elim (fail_pair_provisioning-Effect c s op actor reason at a) e
  Step-Effect {a} (classifies_provisioning s op actor at e) =
      Ensures_elim (fail_provisioning_at_startup-Effect c s op actor at a) e
  Step-Effect {a} (updates_session now pair u e) =
      Ensures_elim (update_worker_session_status_and_quarantine-Effect c now pair u a) e
  Step-Effect {a} (sweeps s invocation actor event at e) =
      Ensures_elim (record_recovery_sweep_event-Effect c s invocation actor event at a) e
  Step-Effect {a} (loses_contact s x actor class invocation at e) =
      Ensures_elim (record_post_send_outage-Effect c s x actor class invocation at a) e
  Step-Effect {a} (observes s x o actor invocation at e) =
      Ensures_elim (observe_post_send-Effect c s x o actor invocation at a) e
  Step-Effect {a} (finds_absent s x actor at e) =
      Ensures_elim (record_recovery_absent-Effect c s x actor at a) e
  Step-Effect {a} (reserves_stop s o e) = Ensures_elim (reserve_stop_operation-Effect c s o a) e
  Step-Effect {a} (accepts_stop s op call_at deadline e) =
      Ensures_elim (commit_stop_call_accepted-Effect c s op call_at deadline a) e
  Step-Effect {a} (resolves_stop s op outcome e) =
      Ensures_elim (commit_stop_outcome-Effect c s op outcome a) e
  Step-Effect {a} (abandons_stop s op session generation actor invocation at e) =
      Ensures_elim
        (classify_abandoned_stop_alive-Effect c s op session generation actor invocation at a) e
  Step-Effect {a} (audits now event r e) =
      Appended-Effect c a _ (Ensures_elim (append_audit_event-Appended c now event a) e)
  Step-Effect {a} (logs now event r e) = Ensures_elim (append_audit_event_tx-Effect c now event a) e
  Step-Effect {a} (requarantines quarantine) =
      Effect-attempts c a
        (Extends-update SameAttempt (λ x. true) _ a.attempts (All-pure _ λ x. (refl, λ h. refl)))
        (Attached-close a.contracts _ _ a.attempts (λ x. refl))
  Step-Effect {a} (elsewhere pairs sessions provisionings restores stops) = record {
    tasks = kept;
    contracts = contracts_kept c a;
    attempts = attempts_kept c a;
    dispatches = dispatches_kept c a;
    budgets = Extends-refl ◌≡◌ a.budgets (λ x. refl);
    audit_events = Extends-refl ◌≡◌ a.audit_events (λ x. refl);
    chain = λ h. h;
    attached = λ h. h;
    funded = λ g h. h;
  }

  pub Run-Effect : {a b : Db} → Run c a b → Effect c a b
  Run-Effect (idle {db}) = Effect-refl c db
  Run-Effect (s then r) = Effect-trans c (Step-Effect s) (Run-Effect r)

  empty-IsExclusive : IsExclusive empty_db.tasks
  unfolding empty_db count
  empty-IsExclusive = record { one_row = λ k. omega arith; one_lane = λ p. omega arith }

  -- In every database that the transactions reach from the migrated one, a task has one row at most,
  -- and a pair has one task at most that is DISPATCHED, RUNNING or REVIEWING.
  pub Run-exclusive :
      {db : Db}
      → Run c empty_db db
      → ((k : Text) → count (has_id k) db.tasks ≤ 1) × ((p : Text) → count (in_lane p) db.tasks ≤ 1)
  Run-exclusive r =
      let h = Board-IsExclusive (Run-Effect r).tasks empty-IsExclusive in (h.one_row, h.one_lane)

  empty-IsChained : IsChained c empty_db
  unfolding empty_db
  empty-IsChained = (refl, refl)

  -- In every database that the transactions reach from the migrated one, VerifyAuditChain succeeds.
  pub Run-verify_audit_chain : {db : Db} → Run c empty_db db → verify_audit_chain c db ≡ ok tt
  Run-verify_audit_chain {db} r = IsChained-verify c db ((Run-Effect r).chain empty-IsChained)

  empty-AllAttached : AllAttached empty_db
  unfolding empty_db
  empty-AllAttached = tt

  empty-AllFunded : AllFunded (λ k. false) empty_db
  unfolding empty_db
  empty-AllFunded = tt

  -- In every database that the transactions reach from the migrated one, an attempt that
  -- GetTaskAttempt finds has a stored contract, which is of the attempt's task, and frozen.
  pub Run-Attached :
      {db : Db} (attempt_id : Text) {a : AttemptRow}
      → Run c empty_db db
      → get_task_attempt attempt_id db ≡ ok a
      → exists_row
          (λ r. r.contract_id =ᵗ a.contract_id && r.task_id =ᵗ a.task_id && r.is_immutable)
          db.contracts
        ≡ true
  unfolding get_task_attempt
  Run-Attached {db} attempt_id r e =
      All-find (Attached db.contracts) (λ x. x.attempt_id =ᵗ attempt_id) db.attempts
        ((Run-Effect r).attached empty-AllAttached) (or_fail-eq-ok _ _ e)

  -- In every database that the transactions reach from the migrated one, a dispatch that is
  -- SEND_CONFIRMED has a time of confirmation, and an execution budget that starts at it.
  pub Run-has_budget :
      {db : Db} (operation_id : Text) {d : DispatchRow}
      → Run c empty_db db
      → dispatch_by_id operation_id db ≡ some d
      → is_send_confirmed d.stage ≡ true
      → (at : Time) × (d.confirmed_at ≡ some at) × (has_budget d at db ≡ true)
  unfolding dispatch_by_id has_budget
  Run-has_budget {db} operation_id r found confirmed =
      All-find (Funded (λ k. false) db.budgets) (λ x. x.operation_id =ᵗ operation_id) db.dispatches
        ((Run-Effect r).funded (λ k. false) empty-AllFunded) found confirmed refl
