-- ===== src/Store/Effect/Budgets.antt =====
-- BindLegacyExecutionBudget of dispatch_transactions.go keeps the frame.
use ai_supervisor.Base.{
  Bool, true, false, Ensures, Ensures-guard, Ensures-or_fail, returns, if◌then◌else◌,
}
use ai_supervisor.Base.Text.{Text}
use ai_supervisor.Store.Schema.{Time, Outcome, BudgetRow, Db, Codec, Surroundings}
use ai_supervisor.Store.Send.{BudgetPolicy}
use ai_supervisor.Store.Send.Budget.{replay_binding, bind_legacy_execution_budget}
use ai_supervisor.Store.Effect.{Effect, Effect-refl}
use ai_supervisor.Store.Effect.Steps.{Effect-bind, Effect-audit, append_audit_event_tx-Effect}
use ai_supervisor.Store.Effect.Sends.{insert_budget-Effect}

module _ (c : Codec) where
  replay_binding-Effect :
      (s : Surroundings) (b : BudgetRow) (principal evidence_ref : Text) (db : Db)
      → Ensures (Effect c db) (replay_binding c s b principal evidence_ref db)
  unfolding replay_binding
  replay_binding-Effect s b principal evidence_ref db = Ensures-guard _ _ _ λ one.
      Ensures-or_fail _ _ _ λ e stored.
        Ensures-guard _ _ _ λ same. Ensures-guard _ _ _ λ recorded. returns (Effect-refl c db)

  either :
      {db : Db} (b : Bool) {m n : Outcome Db}
      → Ensures (Effect c db) m
      → Ensures (Effect c db) n
      → Ensures (Effect c db) (if b then m else n)
  either true m n = m
  either false m n = n

  pub bind_legacy_execution_budget-Effect :
      (s : Surroundings) (attempt_id principal scope evidence_ref : Text) (policy : BudgetPolicy)
      (at : Time) (db : Db)
      → Ensures
          (Effect c db)
          (bind_legacy_execution_budget c s attempt_id principal scope evidence_ref policy at db)
  unfolding bind_legacy_execution_budget
  bind_legacy_execution_budget-Effect s attempt_id principal scope evidence_ref policy at db =
      Ensures-guard _ _ _ λ given. Ensures-or_fail _ _ _ λ a found. Ensures-or_fail _ _ _ λ t owner.
        Ensures-or_fail _ _ _ λ d dispatch. Ensures-or_fail _ _ _ λ origin sent.
          Ensures-or_fail _ _ _ λ w bound. Ensures-or_fail _ _ _ λ g generation.
            Ensures-guard _ _ _ λ executing. Ensures-or_fail _ _ _ λ x session.
              Ensures-guard _ _ _ λ same. Ensures-guard _ _ _ λ in_range.
                either _
                  (Effect-bind c _ (insert_budget-Effect c _ db) λ d1.
                    Ensures-or_fail _ _ _ λ id drawn.
                      Effect-audit c _ (append_audit_event_tx-Effect c s.now _ d1)
                        λ r. returns (Effect-refl c r.0))
                  (replay_binding-Effect s _ principal evidence_ref db)
