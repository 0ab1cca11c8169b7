-- ===== src/Store/Effect/Steps.antt =====
-- The frame of the statements that the transactions of internal/store are made of.
use ai_supervisor.Base.{
  Bool, All, ap, refl, true, ◌&&◌, and_left, and_right, ◌≡◌, refl, sym, subst, List, Ensures,
  Ensures-map, Ensures-bind, ◌>>=◌,
}
use ai_supervisor.Base.Table.{insert}
use ai_supervisor.Base.Text.{Text, ◌=ᵗ◌}
use ai_supervisor.Base.Table.Rows.{exists_row-Extends, exists_row-insert}
use ai_supervisor.Base.Table.Laws.{All-map, Extends, Extends-refl, Extends-insert}
use ai_supervisor.Store.Schema.{
  Time, Outcome, TaskRow, ContractRow, AttemptRow, DispatchRow, BudgetRow, SessionRow, AuditEvent,
  AuditRow, Db, Codec,
}
use ai_supervisor.Store.Audit.{append_audit_event_tx}
use ai_supervisor.Store.Audit.Chain.{
  IsChained, append_row, Appended, append_audit_event_tx-Appended, Appended-IsChained,
}
use ai_supervisor.Store.Board.{Board, kept}
use ai_supervisor.Store.Effect.{
  Attached, Funded, AllAttached, AllFunded, SameContract, SameAttempt, SameDispatch, Effect,
  Effect-trans, contracts_kept, attempts_kept, dispatches_kept,
}

still-Attached :
    (l m : List ContractRow) (a : AttemptRow)
    → Extends SameContract l m
    → Attached l a
    → Attached m a
still-Attached l m a e h = exists_row-Extends SameContract _ l m (λ x y k f. keeps x y k f) e h
  where
    keeps :
        (x y : ContractRow)
        → SameContract x y
        → (x.contract_id =ᵗ a.contract_id && x.task_id =ᵗ a.task_id && x.is_immutable) ≡ true
        → (y.contract_id =ᵗ a.contract_id && y.task_id =ᵗ a.task_id && y.is_immutable) ≡ true
    keeps x y k f =
        let id : y.contract_id ≡ x.contract_id = ap (λ z. z.contract_id) k.0 in
        let task : y.task_id ≡ x.task_id = ap (λ z. z.task_id) k.0 in
        let im : y.is_immutable ≡ true = k.1 (and_right _ x.is_immutable f) in
        let front : (x.contract_id =ᵗ a.contract_id && x.task_id =ᵗ a.task_id) ≡ true =
          and_left (x.contract_id =ᵗ a.contract_id && x.task_id =ᵗ a.task_id) x.is_immutable f in
        rw id (rw task (rw im (rw front refl)))

module _ (c : Codec) where
  -- The tables that the transactions update, changed each within its frame.
  pub framed :
      (db : Db) {ts : List TaskRow} {cs : List ContractRow} {rs : List AttemptRow}
      {ds : List DispatchRow}
      → Board db.tasks ts
      → Extends SameContract db.contracts cs
      → Extends SameAttempt db.attempts rs
      → Extends SameDispatch db.dispatches ds
      → (AllAttached db → All (Attached cs) rs)
      → ((g : Text → Bool) → AllFunded g db → All (Funded g db.budgets) ds)
      → Effect c db (record db { tasks = ts; contracts = cs; attempts = rs; dispatches = ds })
  framed db b x y z attached funded = record {
    tasks = b;
    contracts = x;
    attempts = y;
    dispatches = z;
    budgets = Extends-refl ◌≡◌ db.budgets (λ a. refl);
    audit_events = Extends-refl ◌≡◌ db.audit_events (λ a. refl);
    chain = λ h. h;
    attached = attached;
    funded = funded;
  }

  pub Effect-tasks :
      (db : Db) {l : List TaskRow} → Board db.tasks l → Effect c db (record db { tasks = l })
  Effect-tasks db b =
      framed db b (contracts_kept c db) (attempts_kept c db) (dispatches_kept c db) (λ h. h)
        (λ g h. h)

  pub Effect-contracts :
      (db : Db) {l : List ContractRow}
      → Extends SameContract db.contracts l
      → Effect c db (record db { contracts = l })
  Effect-contracts db {l} e =
      framed db kept e (attempts_kept c db) (dispatches_kept c db)
        (λ h. All-map db.attempts (λ a at. still-Attached db.contracts l a e at) h) (λ g h. h)

  pub Effect-attempts :
      (db : Db) {l : List AttemptRow}
      → Extends SameAttempt db.attempts l
      → (AllAttached db → All (Attached db.contracts) l)
      → Effect c db (record db { attempts = l })
  Effect-attempts db e attached =
      framed db kept (contracts_kept c db) e (dispatches_kept c db) attached (λ g h. h)

  pub Effect-dispatches :
      (db : Db) {l : List DispatchRow}
      → Extends SameDispatch db.dispatches l
      → ((g : Text → Bool) → AllFunded g db → All (Funded g db.budgets) l)
      → Effect c db (record db { dispatches = l })
  Effect-dispatches db e funded =
      framed db kept (contracts_kept c db) (attempts_kept c db) e (λ h. h) funded

  pub Effect-sessions : (db : Db) (l : List SessionRow) → Effect c db (record db { sessions = l })
  Effect-sessions db l = record {
    tasks = kept;
    contracts = contracts_kept c db;
    attempts = attempts_kept c db;
    dispatches = dispatches_kept c db;
    budgets = Extends-refl ◌≡◌ db.budgets (λ a. refl);
    audit_events = Extends-refl ◌≡◌ db.audit_events (λ a. refl);
    chain = λ h. h;
    attached = λ h. h;
    funded = λ g h. h;
  }

  pub Effect-budgets :
      (db : Db) (b : BudgetRow) → Effect c db (record db { budgets = insert b db.budgets })
  Effect-budgets db b = record {
    tasks = kept;
    contracts = contracts_kept c db;
    attempts = attempts_kept c db;
    dispatches = dispatches_kept c db;
    budgets = Extends-insert ◌≡◌ b db.budgets (λ a. refl);
    audit_events = Extends-refl ◌≡◌ db.audit_events (λ a. refl);
    chain = λ h. h;
    attached = λ h. h;
    funded = λ g h.
        All-map db.dispatches
          (λ d f e k.
            let (at, when, has) = f e k in (at, when, exists_row-insert _ b db.budgets has))
          h;
  }

  pub Appended-Effect : (db : Db) (r : Db × AuditRow) → Appended c db r → Effect c db r.0
  Appended-Effect db r a =
      let grown : Effect c db (append_row c r.1 db) = record {
        tasks = kept;
        contracts = contracts_kept c db;
        attempts = attempts_kept c db;
        dispatches = dispatches_kept c db;
        budgets = Extends-refl ◌≡◌ db.budgets (λ x. refl);
        audit_events = Extends-insert ◌≡◌ r.1 db.audit_events (λ x. refl);
        chain = λ h. subst (λ d. IsChained c d) a.0 (Appended-IsChained c db r a h);
        attached = λ h. h;
        funded = λ g h. h;
      } in
      subst (λ d. Effect c db d) (sym a.0) grown

  pub append_audit_event_tx-Effect :
      (now : Time) (event : AuditEvent) (db : Db)
      → Ensures (λ r. Effect c db r.0) (append_audit_event_tx c now event db)
  append_audit_event_tx-Effect now event db =
      Ensures-map (λ r a. Appended-Effect db r a) (append_audit_event_tx-Appended c now event db)

  -- A step that keeps the frame, and what follows it.
  pub Effect-bind :
      {db : Db} {m : Outcome Db} (f : Db → Outcome Db)
      → Ensures (Effect c db) m
      → ((d : Db) → Ensures (Effect c d) (f d))
      → Ensures (Effect c db) (m >>= f)
  Effect-bind f m k = Ensures-bind f m λ d e. Ensures-map (λ b g. Effect-trans c e g) (k d)

  pub Effect-audit :
      {db : Db} {m : Outcome (Db × AuditRow)} (f : Db × AuditRow → Outcome Db)
      → Ensures (λ r. Effect c db r.0) m
      → ((r : Db × AuditRow) → Ensures (Effect c r.0) (f r))
      → Ensures (Effect c db) (m >>= f)
  Effect-audit f m k = Ensures-bind f m λ r e. Ensures-map (λ b g. Effect-trans c e g) (k r)
