-- ===== src/Store/Effect/Sends.antt =====
-- The transactions of dispatch_transactions.go keep the frame.
use ai_supervisor.Base.{
  All, not-true, some, ◌≡◌, refl, Bool, true, false, ◌&&◌, not, Option, List, is_some, Bool-cases,
  inl, inr, Ensures, Ensures-guard, Ensures-or_fail, returns, if◌then◌else◌, ok, arith,
}
use ai_supervisor.Base.Text.{Text, ◌=ᵗ◌}
use ai_supervisor.Base.Table.{update}
use ai_supervisor.Base.Table.{exists_row}
use ai_supervisor.Base.Table.Rows.{All-not_exists}
use ai_supervisor.Base.Table.Laws.{All-update, All-map, All-zip, Extends, Extends-update, All-pure}
use ai_supervisor.Workflow.{dispatched, failed, human_required, can_transition}
use ai_supervisor.Store.Schema.{
  send_confirmed, Time, Outcome, AttemptRow, DispatchRow, DispatchStage, BudgetRow, Db, Codec,
  Surroundings, is_bound, is_send_requested, is_send_confirmed,
}
use ai_supervisor.Store.Send.{
  has_budget, BudgetPolicy, insert_budget, awaits_confirmation, record_send_requested,
  record_send_confirmed,
}
use ai_supervisor.Store.Send.Unknown.{close_unknown, record_unknown_delivery}
use ai_supervisor.Store.Send.Holds.{
  holds, already_held, set_hold, record_pre_send_hold, record_pre_send_admissibility_rejected,
  resolve_pre_send_hold,
}
use ai_supervisor.Store.Board.{moved, after}
use ai_supervisor.Store.Effect.{
  Funded, SameDispatch, Effect, Effect-refl, Effect-trans, contracts_kept,
}
use ai_supervisor.Store.Effect.Steps.{
  framed, Effect-attempts, Effect-dispatches, Effect-sessions, Effect-budgets, Effect-bind,
  Effect-audit, append_audit_event_tx-Effect,
}
use ai_supervisor.Store.Effect.Closures.{Attached-close, Extends-close, current-still_open}
use ai_supervisor.Store.Closure.{is_current_open}

-- A conditional update of dispatches that are not confirmed, which leaves their identities.
Extends-progress :
    (p : DispatchRow → Bool) (u : DispatchRow → DispatchRow) (l : List DispatchRow)
    → ((d : DispatchRow) → p d ≡ true → is_send_confirmed d.stage ≡ false)
    → ((d : DispatchRow)
        → u d ≡ record d {
          stage = (u d).stage;
          confirmed_at = (u d).confirmed_at;
          resolution_state = (u d).resolution_state;
        })
    → Extends SameDispatch l (update p u l)
Extends-progress p u l still e = Extends-update SameDispatch p u l (
    All-pure l λ d. elim (Bool-cases (p d)) [
      | inl hit ↦ let o = still d hit in rw hit (e d, λ h. absurd (cc))
      | inr miss ↦ rw miss (refl, λ h. refl)
    ])

-- A change of dispatches whose new rows are funded, if they are confirmed.
Funded-update :
    (g : Text → Bool) (bs : List BudgetRow) (p : DispatchRow → Bool) (u : DispatchRow → DispatchRow)
    (l : List DispatchRow)
    → All (λ d. p d ≡ true → Funded g bs (u d)) l
    → All (Funded g bs) l
    → All (Funded g bs) (update p u l)
Funded-update g bs p u l new old = All-update (Funded g bs) p u l (
    All-zip l (λ d f g. elim (Bool-cases (p d)) [ inl hit ↦ rw hit (f hit) | inr miss ↦ rw miss g ])
      new old)

requested-unconfirmed :
    (st : DispatchStage) → is_send_requested st ≡ true → is_send_confirmed st ≡ false
requested-unconfirmed st h = ground arith

bound-unconfirmed : (st : DispatchStage) → is_bound st ≡ true → is_send_confirmed st ≡ false
bound-unconfirmed st h = ground arith

second : (a b d : Bool) → (a && b && d) ≡ true → b ≡ true
second a b d h = ground arith

awaits-unconfirmed :
    (op : Text) (d : DispatchRow)
    → awaits_confirmation op d ≡ true
    → is_send_confirmed d.stage ≡ false
unfolding awaits_confirmation
awaits-unconfirmed op d hit = requested-unconfirmed d.stage (
    second (d.operation_id =ᵗ op) (is_send_requested d.stage) (not (is_some d.resolution_state))
      hit)

holds-still_open :
    (attempt_id : Text) (current : Option Text) (session generation : Text) (a : AttemptRow)
    → holds attempt_id current session generation a ≡ true
    → is_some a.ended_at ≡ false
unfolding holds
holds-still_open attempt_id current session generation a hit = ground arith

-- The trigger has looked for the budget of every dispatch that the confirmation changes.
confirmed-Funded :
    (g : Text → Bool) (op : Text) (at : Time) (db : Db)
    → exists_row (λ r. awaits_confirmation op r && not (has_budget r at db)) db.dispatches ≡ false
    → All
        (λ d.
          awaits_confirmation op d ≡ true
          → Funded g db.budgets (record d { stage = send_confirmed; confirmed_at = some at }))
        db.dispatches
unfolding has_budget
confirmed-Funded g op at db none_missing =
    All-map db.dispatches (λ d missing hit h k. (at, refl, found_budget _ _ hit missing))
      (All-not_exists _ db.dispatches none_missing)
  where
    found_budget : (a b : Bool) → a ≡ true → (a && not b) ≡ false → b ≡ true
    found_budget a b h e = ground arith

module _ (c : Codec) where
  set_hold-Effect :
      (attempt_id : Text) (current : Option Text) (session generation : Text) (d : Option Text)
      (db : Db)
      → Ensures (Effect c db) (set_hold attempt_id current session generation d db)
  unfolding set_hold
  set_hold-Effect attempt_id current session generation d db = Ensures-guard _ _ _ λ one. returns (
      Effect-attempts c db
        (Extends-close _ _ db.attempts (holds-still_open attempt_id current session generation)
          (λ a. refl))
        (Attached-close db.contracts _ _ db.attempts (λ a. refl)))

  pub record_pre_send_hold-Effect :
      (s : Surroundings) (op disposition actor : Text) (at : Time) (db : Db)
      → Ensures (Effect c db) (record_pre_send_hold c s op disposition actor at db)
  unfolding record_pre_send_hold
  record_pre_send_hold-Effect s op disposition actor at db = Ensures-guard _ _ _ λ valid.
      Ensures-or_fail _ _ _ λ id drawn. Ensures-or_fail _ _ _ λ d found.
        Ensures-or_fail _ _ _ λ a joined. Ensures-guard _ _ _ λ bound.
          either (already_held a.recovery_disposition disposition) (
            Ensures-guard _ _ _ λ may.
              Effect-audit c _ (append_audit_event_tx-Effect c s.now _ db)
                λ r. set_hold-Effect _ _ _ _ _ r.0)
    where
      either :
          (b : Bool) {m : Outcome Db}
          → Ensures (Effect c db) m
          → Ensures (Effect c db) (if b then ok db else m)
      either true m = returns (Effect-refl c db)
      either false m = m

  pub record_pre_send_admissibility_rejected-Effect :
      (s : Surroundings) (op activity actor : Text) (at : Time) (db : Db)
      → Ensures (Effect c db) (record_pre_send_admissibility_rejected c s op activity actor at db)
  unfolding record_pre_send_admissibility_rejected
  record_pre_send_admissibility_rejected-Effect s op activity actor at db =
      Ensures-guard _ _ _ λ valid. Ensures-guard _ _ _ λ named. Ensures-or_fail _ _ _ λ id drawn.
        Ensures-or_fail _ _ _ λ d found. Ensures-or_fail _ _ _ λ a joined.
          Ensures-guard _ _ _ λ bound.
            Effect-audit c _ (append_audit_event_tx-Effect c s.now _ db)
              λ r. returns (Effect-refl c r.0)

  pub resolve_pre_send_hold-Effect :
      (s : Surroundings) (op attempt_id expected session generation activity principal actor : Text)
      (at : Time) (db : Db)
      → Ensures (Effect c db) (
          resolve_pre_send_hold c s op attempt_id expected session generation activity principal
            actor at db)
  unfolding resolve_pre_send_hold
  resolve_pre_send_hold-Effect s op attempt_id expected session generation activity principal actor
        at db =
      Ensures-guard _ _ _ λ valid. Ensures-guard _ _ _ λ hold. Ensures-or_fail _ _ _ λ id drawn.
        Ensures-or_fail _ _ _ λ a found. Ensures-or_fail _ _ _ λ t owner.
          Ensures-or_fail _ _ _ λ d joined. Ensures-guard _ _ _ λ lineage.
            Ensures-guard _ _ _ λ same. Ensures-or_fail _ _ _ λ w current.
              Ensures-guard _ _ _ λ session_same.
                Effect-audit c _ (append_audit_event_tx-Effect c s.now _ db)
                  λ r. set_hold-Effect _ _ _ _ _ r.0

  pub record_send_requested-Effect :
      (s : Surroundings) (op session generation activity : Text) (is_terminated : Bool)
      (actor : Text) (at : Time) (db : Db)
      → Ensures
          (Effect c db)
          (record_send_requested c s op session generation activity is_terminated actor at db)
  unfolding record_send_requested
  record_send_requested-Effect s op session generation activity is_terminated actor at db =
      Ensures-guard _ _ _ λ valid. Ensures-or_fail _ _ _ λ id drawn.
        Ensures-or_fail _ _ _ λ d found. Ensures-or_fail _ _ _ λ a joined.
          Ensures-guard _ _ _ λ bound. Ensures-guard _ _ _ λ observed.
            Ensures-guard _ _ _ λ guarded.
              Effect-audit c _ (append_audit_event_tx-Effect c s.now _ db) λ r.
                Ensures-guard _ _ _ λ one. returns (
                  Effect-dispatches c r.0
                    (Extends-progress
                      (λ x.
                        x.operation_id =ᵗ op
                        && is_bound x.stage
                        && not (is_some x.resolution_state))
                      _ r.0.dispatches
                      (λ x hit. bound-unconfirmed x.stage (
                        second (x.operation_id =ᵗ op) (is_bound x.stage)
                          (not (is_some x.resolution_state)) hit))
                      (λ x. refl))
                    (λ g.
                      Funded-update g r.0.budgets _ _ r.0.dispatches
                        (All-pure r.0.dispatches λ x hit h. absurd (cc))))

  pub insert_budget-Effect : (b : BudgetRow) (db : Db) → Ensures (Effect c db) (insert_budget b db)
  unfolding insert_budget
  insert_budget-Effect b db =
      Ensures-guard _ _ _ λ fresh. Ensures-guard _ _ _ λ lineage. returns (Effect-budgets c db b)

  pub record_send_confirmed-Effect :
      (s : Surroundings) (op actor : Text) (http200 : Bool) (at : Time)
      (policies : List BudgetPolicy) (db : Db)
      → Ensures (Effect c db) (record_send_confirmed c s op actor http200 at policies db)
  unfolding record_send_confirmed
  record_send_confirmed-Effect s op actor http200 at policies db = Ensures-guard _ _ _ λ valid.
      Ensures-guard _ _ _ λ named. Ensures-or_fail _ _ _ λ policy one_policy.
        Ensures-guard _ _ _ λ positive. Ensures-guard _ _ _ λ in_range.
          Ensures-or_fail _ _ _ λ id drawn. Ensures-or_fail _ _ _ λ d found.
            Ensures-or_fail _ _ _ λ t task. Ensures-or_fail _ _ _ λ a joined.
              Ensures-or_fail _ _ _ λ w session. Ensures-guard _ _ _ λ stage.
                Ensures-guard _ _ _ λ lineage. Ensures-guard _ _ _ λ live.
                  Effect-bind c _ (insert_budget-Effect _ db) λ d1.
                    Effect-audit c _ (append_audit_event_tx-Effect c s.now _ d1) λ r.
                      Ensures-guard _ _ _ λ budgeted. Ensures-guard _ _ _ λ one. returns (
                        Effect-dispatches c r.0
                          (Extends-progress _ _ r.0.dispatches (awaits-unconfirmed op) (λ x. refl))
                          (λ g.
                            Funded-update g r.0.budgets _ _ r.0.dispatches
                              (confirmed-Funded g op _ r.0 (not-true _ budgeted))))

  close_unknown-Effect :
      (d : DispatchRow) (at : Time) (db : Db) → Ensures (Effect c db) (close_unknown d at db)
  unfolding close_unknown is_current_open
  close_unknown-Effect d at db = Ensures-guard _ _ _ λ a. Ensures-guard _ _ _ λ b.
      Ensures-guard _ _ _ λ e. Ensures-guard _ _ _ λ f. Ensures-guard _ _ _ λ g. returns (
        Effect-trans c
          (framed c db
            (after
              (moved d.task_id dispatched failed _ (unfold can_transition in refl)
                (λ t. (refl, refl, refl, omega arith)) (λ busy. absurd (cc)))
              (moved d.task_id failed human_required _ (unfold can_transition in refl)
                (λ t. (refl, refl, refl, omega arith)) (λ busy. absurd (cc))))
            (contracts_kept c db)
            (Extends-close _ _ db.attempts (current-still_open d.task_id d.attempt_id _)
              (λ r. refl))
            (Extends-progress _ _ db.dispatches (awaits-unconfirmed d.operation_id) (λ r. refl))
            (Attached-close db.contracts _ _ db.attempts (λ r. refl))
            (λ g. Funded-update g db.budgets _ _ db.dispatches (
              All-pure db.dispatches λ r hit h.
                let still : is_send_confirmed r.stage ≡ false =
                  awaits-unconfirmed d.operation_id r hit in
                absurd (cc))))
          (Effect-sessions c _ _))

  pub record_unknown_delivery-Effect :
      (s : Surroundings) (op actor : Text) (at : Time) (db : Db)
      → Ensures (Effect c db) (record_unknown_delivery c s op actor at db)
  unfolding record_unknown_delivery
  record_unknown_delivery-Effect s op actor at db = Ensures-guard _ _ _ λ named.
      Ensures-or_fail _ _ _ λ id drawn. Ensures-or_fail _ _ _ λ id2 drawn2.
        Ensures-or_fail _ _ _ λ d found. Ensures-or_fail _ _ _ λ a joined.
          Ensures-guard _ _ _ λ stage. Ensures-or_fail _ _ _ λ t owner. Ensures-guard _ _ _ λ state.
            Ensures-guard _ _ _ λ edge1. Ensures-guard _ _ _ λ edge2.
              Effect-audit c _ (append_audit_event_tx-Effect c s.now _ db) λ r1.
                Ensures-or_fail _ _ _ λ id3 drawn3.
                  Effect-audit c _ (append_audit_event_tx-Effect c s.now _ r1.0) λ r2.
                    Effect-audit c _ (append_audit_event_tx-Effect c s.now _ r2.0)
                      λ r3. close_unknown-Effect d _ r3.0
