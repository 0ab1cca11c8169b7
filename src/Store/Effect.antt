-- ===== src/Store/Effect.antt =====
-- What the transactions of internal/store may do to the tables: the frame that each keeps.
pub mod Steps
pub mod Operations
pub mod Dispatching
pub mod Closures
pub mod Sends
pub mod Budgets
pub mod Observations
pub mod Provisionings
pub mod Stops
use ai_supervisor.Base.{
  All, ◌&&◌, ◌==◌, some, ◌≡◌, refl, sym, ap, ◌∙◌, subst, Bool, true, false, not, Option, List,
  is_some, Bool-cases, inl, inr, arith,
}
use ai_supervisor.Base.Table.{exists_row}
use ai_supervisor.Base.Text.{◌=ᵗ◌}
use ai_supervisor.Base.Text.{Text}
use ai_supervisor.Base.Table.Laws.{Extends, Extends-refl, Extends-trans}
use ai_supervisor.Store.Schema.{
  Time, Time, ContractRow, AttemptRow, DispatchRow, BudgetRow, AuditRow, Db, Codec,
  is_send_confirmed,
}
use ai_supervisor.Store.Board.{Board, kept, after}
use ai_supervisor.Store.Audit.Chain.{IsChained}

-- A later row of a contract: it may have been frozen, and nothing else.
abbrev pub SameContract : ContractRow → ContractRow → Type 0
SameContract a b =
    (b ≡ record a { is_immutable = b.is_immutable })
    × (a.is_immutable ≡ true → b.is_immutable ≡ true)

-- A later row of an attempt: its identity and its binding stand, and once it has ended, all of it but
-- the quarantine, which a restore imposes and a clearance lifts.
abbrev pub SameAttempt : AttemptRow → AttemptRow → Type 0
SameAttempt a b =
    (b ≡ record a {
      ended_at = b.ended_at;
      recovery_disposition = b.recovery_disposition;
      quarantine_state = b.quarantine_state;
    })
    × (is_some a.ended_at ≡ true → b ≡ record a { quarantine_state = b.quarantine_state })

-- A later row of a dispatch, likewise, with its confirmation as the end.
abbrev pub SameDispatch : DispatchRow → DispatchRow → Type 0
SameDispatch a b =
    (b ≡ record a {
      stage = b.stage;
      confirmed_at = b.confirmed_at;
      resolution_state = b.resolution_state;
    })
    × (is_send_confirmed a.stage ≡ true → b ≡ a)

pub SameContract-trans :
    (a b d : ContractRow) → SameContract a b → SameContract b d → SameContract a d
SameContract-trans a b d (e, i) (f, j) =
    (f ∙ ap {A = ContractRow} (λ x. record x { is_immutable = d.is_immutable }) e, λ h. j (i h))

pub SameAttempt-trans : (a b d : AttemptRow) → SameAttempt a b → SameAttempt b d → SameAttempt a d
SameAttempt-trans a b d (e, i) (f, j) = (
  f
      ∙ ap {A = AttemptRow}
          (λ x. record x {
            ended_at = d.ended_at;
            recovery_disposition = d.recovery_disposition;
            quarantine_state = d.quarantine_state;
          })
          e,
  λ h.
      let same = i h in
      let ended : is_some b.ended_at ≡ true = ap (λ x. is_some x.ended_at) same ∙ h in
      j ended ∙ ap {A = AttemptRow} (λ x. record x { quarantine_state = d.quarantine_state }) same,
)

pub SameDispatch-trans :
    (a b d : DispatchRow) → SameDispatch a b → SameDispatch b d → SameDispatch a d
SameDispatch-trans a b d (e, i) (f, j) = (
  f
      ∙ ap {A = DispatchRow}
          (λ x. record x {
            stage = d.stage;
            confirmed_at = d.confirmed_at;
            resolution_state = d.resolution_state;
          })
          e,
  λ h.
      let same = i h in
      let confirmed : is_send_confirmed b.stage ≡ true =
        ap (λ x. is_send_confirmed x.stage) same ∙ h in
      j confirmed ∙ same,
)

-- The contract of an attempt is stored, is of its task, and is frozen.
abbrev pub Attached : List ContractRow → AttemptRow → Type 0
Attached contracts a =
    exists_row (λ r. r.contract_id =ᵗ a.contract_id && r.task_id =ᵗ a.task_id && r.is_immutable)
      contracts
    ≡ true

-- The budget of a dispatch that starts at a time.
abbrev pub funds : DispatchRow → Time → BudgetRow → Bool
funds d at b =
    b.dispatch_operation_id =ᵗ d.operation_id && b.attempt_id =ᵗ d.attempt_id && b.origin_at == at

-- A confirmed dispatch, whose operation is not a legacy one, has a time of confirmation, at which a
-- budget of it starts.
abbrev pub Funded : (Text → Bool) → List BudgetRow → DispatchRow → Type 0
Funded legacy budgets d =
    is_send_confirmed d.stage ≡ true
    → legacy d.operation_id ≡ false
    → (at : Time) × (d.confirmed_at ≡ some at) × (exists_row (funds d at) budgets ≡ true)

abbrev pub AllAttached : Db → Type 0
AllAttached db = All (Attached db.contracts) db.attempts

abbrev pub AllFunded : (Text → Bool) → Db → Type 0
AllFunded legacy db = All (Funded legacy db.budgets) db.dispatches

module _ (c : Codec) where
  -- The frame of the transactions. No table loses a row; the log and the budgets only grow.
  pub record Effect (before later : Db) : Type 0 where
    pub tasks : Board before.tasks later.tasks
    pub contracts : Extends SameContract before.contracts later.contracts
    pub attempts : Extends SameAttempt before.attempts later.attempts
    pub dispatches : Extends SameDispatch before.dispatches later.dispatches
    pub budgets : Extends ◌≡◌ before.budgets later.budgets
    pub audit_events : Extends ◌≡◌ before.audit_events later.audit_events
    pub chain : IsChained c before → IsChained c later
    pub attached : AllAttached before → AllAttached later
    pub funded : (legacy : Text → Bool) → AllFunded legacy before → AllFunded legacy later

  pub contracts_kept : (db : Db) → Extends SameContract db.contracts db.contracts
  contracts_kept db = Extends-refl SameContract db.contracts λ a. (refl, λ h. h)

  pub attempts_kept : (db : Db) → Extends SameAttempt db.attempts db.attempts
  attempts_kept db = Extends-refl SameAttempt db.attempts λ a. (refl, λ h. refl)

  pub dispatches_kept : (db : Db) → Extends SameDispatch db.dispatches db.dispatches
  dispatches_kept db = Extends-refl SameDispatch db.dispatches λ a. (refl, λ h. refl)

  pub Effect-refl : (db : Db) → Effect db db
  Effect-refl db = record {
    tasks = kept;
    contracts = contracts_kept db;
    attempts = attempts_kept db;
    dispatches = dispatches_kept db;
    budgets = Extends-refl ◌≡◌ db.budgets (λ a. refl);
    audit_events = Extends-refl ◌≡◌ db.audit_events (λ a. refl);
    chain = λ h. h;
    attached = λ h. h;
    funded = λ g h. h;
  }

  pub Effect-trans : {a b d : Db} → Effect a b → Effect b d → Effect a d
  Effect-trans {a} {b} {d} e f = record {
    tasks = after e.tasks f.tasks;
    contracts =
        Extends-trans SameContract a.contracts b.contracts d.contracts SameContract-trans
          e.contracts f.contracts;
    attempts =
        Extends-trans SameAttempt a.attempts b.attempts d.attempts SameAttempt-trans e.attempts
          f.attempts;
    dispatches =
        Extends-trans SameDispatch a.dispatches b.dispatches d.dispatches SameDispatch-trans
          e.dispatches f.dispatches;
    budgets =
        Extends-trans ◌≡◌ a.budgets b.budgets d.budgets (λ x y z p q. p ∙ q) e.budgets f.budgets;
    audit_events =
        Extends-trans ◌≡◌ a.audit_events b.audit_events d.audit_events (λ x y z p q. p ∙ q)
          e.audit_events f.audit_events;
    chain = λ h. f.chain (e.chain h);
    attached = λ h. f.attached (e.attached h);
    funded = λ g h. f.funded g (e.funded g h);
  }
