-- ===== src/Store/Effect/Provisionings.antt =====
-- The transactions of provisioning_transactions.go, and FailProvisioningAtStartup of
-- recovery_transactions.go, and the update of session_lifecycle.go keep the frame.
use ai_supervisor.Base.{
  ◌≡◌, refl, Bool, true, false, Ensures, Ensures-guard, Ensures-or_fail, Ensures-map, Ensures-then,
  returns, List, ok, if◌then◌else◌,
}
use ai_supervisor.Base.Text.{Text}
use ai_supervisor.Base.Table.Laws.{Extends-refl}
use ai_supervisor.Store.Schema.{Time, Outcome, Codec, Surroundings, SessionRow, ProvisioningRow, Db}
use ai_supervisor.Store.Board.{kept}
use ai_supervisor.Store.Provisioning.{
  WorkerSession, insert_provisioning, insert_session, reserve_pair_provisioning,
  confirm_pair_provisioning, fail_pair_provisioning, classify_intent, fail_provisioning_at_startup,
}
use ai_supervisor.Store.Sessions.{
  WorkerSessionCasUpdate, update_worker_session_status_and_quarantine,
}
use ai_supervisor.Store.Effect.{
  Effect, Effect-refl, Effect-trans, contracts_kept, attempts_kept, dispatches_kept,
}
use ai_supervisor.Store.Effect.Steps.{
  Effect-sessions, Effect-bind, Effect-audit, append_audit_event_tx-Effect,
}

module _ (c : Codec) where
  Effect-provisionings :
      (db : Db) (l : List ProvisioningRow) → Effect c db (record db { provisionings = l })
  Effect-provisionings db l = record {
    tasks = kept;
    contracts = contracts_kept c db;
    attempts = attempts_kept c db;
    dispatches = dispatches_kept c db;
    budgets = Extends-refl ◌≡◌ db.budgets (λ a. refl);
    audit_events = Extends-refl ◌≡◌ db.audit_events (λ a. refl);
    chain = λ h. h;
    attached = λ h. h;
    funded = λ g h. h;
  }

  insert_provisioning-Effect :
      (p : ProvisioningRow) (db : Db) → Ensures (Effect c db) (insert_provisioning p db)
  unfolding insert_provisioning
  insert_provisioning-Effect p db =
      Ensures-guard _ _ _ λ fresh. Ensures-guard _ _ _ λ pair. returns (Effect-provisionings db _)

  insert_session-Effect :
      (l : List ProvisioningRow) (w : SessionRow) (db : Db)
      → Ensures (Effect c db) (insert_session w (record db { provisionings = l }))
  unfolding insert_session
  insert_session-Effect l w db = Ensures-guard _ _ _ λ fresh.
      Ensures-guard _ _ _
        λ pair. returns (Effect-trans c (Effect-provisionings db l) (Effect-sessions c _ _))

  pub reserve_pair_provisioning-Effect :
      (s : Surroundings) (op pair token : Text) (at : Time) (actor : Text) (db : Db)
      → Ensures (Effect c db) (reserve_pair_provisioning c s op pair token at actor db)
  unfolding reserve_pair_provisioning
  reserve_pair_provisioning-Effect s op pair token at actor db = Ensures-guard _ _ _ λ given.
      Ensures-or_fail _ _ _ λ id drawn. Ensures-guard _ _ _ λ no_session.
        Ensures-guard _ _ _ λ resolved. Ensures-guard _ _ _ λ quiet. Ensures-guard _ _ _ λ clean.
          Effect-bind c _ (insert_provisioning-Effect _ db) λ d.
            Effect-audit c _ (append_audit_event_tx-Effect c s.now _ d)
              λ r. returns (Effect-refl c r.0)

  pub confirm_pair_provisioning-Effect :
      (s : Surroundings) (op : Text) (w : WorkerSession) (actor : Text) (at : Time) (db : Db)
      → Ensures (Effect c db) (confirm_pair_provisioning c s op w actor at db)
  unfolding confirm_pair_provisioning
  confirm_pair_provisioning-Effect s op w actor at db = Ensures-guard _ _ _ λ given.
      Ensures-or_fail _ _ _ λ id drawn. Ensures-or_fail _ _ _ λ p found.
        Ensures-guard _ _ _ λ same_pair.
          Effect-audit c _ (append_audit_event_tx-Effect c s.now _ db)
            λ r. Ensures-guard _ _ _ λ one. insert_session-Effect _ _ r.0

  pub fail_pair_provisioning-Effect :
      (s : Surroundings) (op actor reason : Text) (at : Time) (db : Db)
      → Ensures (Effect c db) (fail_pair_provisioning c s op actor reason at db)
  unfolding fail_pair_provisioning
  fail_pair_provisioning-Effect s op actor reason at db = Ensures-guard _ _ _ λ given.
      Ensures-or_fail _ _ _ λ id drawn. Ensures-or_fail _ _ _ λ p found.
        Effect-audit c _ (append_audit_event_tx-Effect c s.now _ db)
          λ r. Ensures-guard _ _ _ λ one. returns (Effect-provisionings r.0 _)

  classify_intent-Effect :
      (s : Surroundings) (op actor : Text) (at : Time) (p : ProvisioningRow) (db : Db)
      → Ensures (Effect c db) (classify_intent c s op actor at p db)
  unfolding classify_intent
  classify_intent-Effect s op actor at p db = Ensures-guard _ _ _ λ requested.
      Ensures-guard _ _ _ λ some_row. Ensures-or_fail _ _ _ λ id drawn.
        Effect-audit c _
          (Ensures-map (λ r e. Effect-trans c (Effect-provisionings db _) e)
            (append_audit_event_tx-Effect c s.now _ _))
          λ r. returns (Effect-refl c r.0)

  unless_failed :
      {db : Db} (b : Bool) {m : Outcome Db}
      → Ensures (Effect c db) m
      → Ensures (Effect c db) (if b then ok db else m)
  unless_failed {db} true m = returns (Effect-refl c db)
  unless_failed false m = m

  pub fail_provisioning_at_startup-Effect :
      (s : Surroundings) (op actor : Text) (at : Time) (db : Db)
      → Ensures (Effect c db) (fail_provisioning_at_startup c s op actor at db)
  unfolding fail_provisioning_at_startup
  fail_provisioning_at_startup-Effect s op actor at db = Ensures-guard _ _ _ λ given.
      Ensures-or_fail _ _ _ λ p found. unless_failed _ (classify_intent-Effect s op actor _ p db)

  pub update_worker_session_status_and_quarantine-Effect :
      (now : Time) (pair : Text) (u : WorkerSessionCasUpdate) (db : Db)
      → Ensures (Effect c db) (update_worker_session_status_and_quarantine now pair u db)
  unfolding update_worker_session_status_and_quarantine
  update_worker_session_status_and_quarantine-Effect now pair u db = Ensures-guard _ _ _ λ generic.
      Ensures-then _ _ λ no_restore.
        Ensures-then _ _
          λ no_provisioning. Ensures-guard _ _ _ λ some_row. returns (Effect-sessions c db _)
