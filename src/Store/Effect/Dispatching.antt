-- ===== src/Store/Effect/Dispatching.antt =====
-- PrepareBoundDispatch of dispatch.go keeps the frame.
use ai_supervisor.Base.{
  Ensures-both, ◌≡◌, refl, sym, ap, subst, ◌∙◌, Bool, true, false, ◌&&◌, not, some, List,
  Bool-cases, inl, inr, Ensures, Ensures-guard, Ensures-or_fail, Ensures-do, Ensures-then,
  Ensures-bind, returns, and_left, not-true, if◌then◌else◌, arith,
}
use ai_supervisor.Base.Text.{text_eq_iff, Text, ◌=ᵗ◌}
use ai_supervisor.Base.Table.{exists_row, find, update}
use ai_supervisor.Base.Table.Rows.{find-exists_row}
use ai_supervisor.Base.Table.Laws.{
  All-insert, find-holds, updated, Extends, Extends-update, Extends-insert, All-pure, find-update,
  exists_row-update_eq,
}
use ai_supervisor.Workflow.{ready, dispatched, can_transition}
use ai_supervisor.Store.Schema.{
  is_send_confirmed, Time, TaskRow, ContractRow, AttemptRow, DispatchRow, Db, Codec, Surroundings,
}
use ai_supervisor.Store.Tasks.{lane_taken}
use ai_supervisor.Store.Dispatch.{
  new_attempt, new_dispatch, DispatchBinding, claim_task, freeze_contract, insert_attempt,
  insert_dispatch, prepare_dispatch, prepare_bound_dispatch,
}
use ai_supervisor.Store.Board.{moved, LaneFree, has_id}
use ai_supervisor.Store.Dispatch.Bound.{Frozen, freeze_contract-Frozen}
use ai_supervisor.Store.Effect.{
  Attached, Funded, SameContract, SameAttempt, SameDispatch, Effect, Effect-trans, contracts_kept,
}
use ai_supervisor.Store.Effect.Steps.{
  Effect-tasks, Effect-contracts, Effect-attempts, Effect-dispatches, append_audit_event_tx-Effect,
}

abbrev KeepsIds : (TaskRow → TaskRow) → Type 0
KeepsIds u = (a : TaskRow) → ((u a).task_id ≡ a.task_id) × ((u a).pair_id ≡ a.pair_id)

id_kept :
    (k : Text) (q : TaskRow → Bool) (u : TaskRow → TaskRow) (a : TaskRow)
    → KeepsIds u
    → has_id k (updated q u a) ≡ has_id k a
id_kept k q u a ids = elim (Bool-cases (q a)) [
  | inl hit ↦ rw hit (rw (ids a).0 refl)
  | inr miss ↦ rw miss refl
]

pair_kept :
    (q : TaskRow → Bool) (u : TaskRow → TaskRow) (a : TaskRow)
    → KeepsIds u
    → (updated q u a).pair_id ≡ a.pair_id
pair_kept q u a ids = elim (Bool-cases (q a)) [
  | inl hit ↦ rw hit (ids a).1
  | inr miss ↦ rw miss refl
]

-- Changes to the rows of one task leave the lanes of the others.
lane_taken-update :
    (p k : Text) (q : TaskRow → Bool) (u : TaskRow → TaskRow) (l : List TaskRow)
    → KeepsIds u
    → ((a : TaskRow) → q a ≡ true → has_id k a ≡ true)
    → lane_taken p k (update q u l) ≡ lane_taken p k l
unfolding lane_taken
lane_taken-update p k q u l ids own = exists_row-update_eq _ q u l λ a. elim (Bool-cases (q a)) [
  | inl hit ↦ let this = own a hit in rw hit (rw (ids a).0 (ground arith))
  | inr miss ↦ rw miss refl
]

-- The lane that was free for a task after its move was free before.
LaneFree-before :
    (k : Text) (q : TaskRow → Bool) (u : TaskRow → TaskRow) (l : List TaskRow) {t : TaskRow}
    → KeepsIds u
    → ((a : TaskRow) → q a ≡ true → has_id k a ≡ true)
    → find (has_id k) (update q u l) ≡ some t
    → lane_taken t.pair_id k (update q u l) ≡ false
    → LaneFree k l
LaneFree-before k q u l {t} ids own found free =
    let (a, before, same) = find-update (has_id k) q u l (λ r. id_kept k q u r ids) found in
    let pair : t.pair_id ≡ a.pair_id = ap (λ x. x.pair_id) same ∙ pair_kept q u a ids in
    (
      a,
      before,
      subst (λ x. lane_taken x k l ≡ false) pair
          (sym (lane_taken-update t.pair_id k q u l ids own) ∙ free),
    )

-- An attempt for the contract that was frozen.
Frozen-Attached :
    (k contract_id : Text) (before db : Db)
    → Frozen k contract_id before db
    → exists_row
        (λ x. x.contract_id =ᵗ contract_id && x.task_id =ᵗ k && x.is_immutable)
        db.contracts
      ≡ true
Frozen-Attached k contract_id before db (tasks, (r, found, frozen, owns, latest)) =
    let own : (r.contract_id =ᵗ contract_id) ≡ true =
      find-holds (λ x. x.contract_id =ᵗ contract_id) db.contracts found in
    let task : (r.task_id =ᵗ k) ≡ true = (text_eq_iff _ _).1 owns in
    find-exists_row (λ x. x.contract_id =ᵗ contract_id)
      (λ x. x.contract_id =ᵗ contract_id && x.task_id =ᵗ k && x.is_immutable) db.contracts found
      (rw own (rw task (rw frozen refl)))

module _ (c : Codec) where
  -- The claim of a task whose lane proves free.
  claim_task-Effect :
      (now : Time) (k : Text) (db : Db)
      → Ensures
          (λ d.
            (t : TaskRow)
            → find (has_id k) d.tasks ≡ some t
            → lane_taken t.pair_id k d.tasks ≡ false
            → Effect c db d)
          (claim_task now k db)
  unfolding claim_task
  claim_task-Effect now k db = Ensures-guard _ _ _ λ one. returns λ t found free.
      Effect-tasks c db (
        moved k ready dispatched _ (unfold can_transition in refl)
          (λ r. (refl, refl, refl, omega arith))
          (λ busy. inr (
            LaneFree-before k _ _ db.tasks (λ a. (refl, refl)) (λ a hit. and_left _ _ hit) found
              free)))

  freeze_contract-Effect :
      (k contract_id : Text) (db : Db) → Ensures (Effect c db) (freeze_contract k contract_id db)
  unfolding freeze_contract
  freeze_contract-Effect k contract_id db = Ensures-or_fail _ _ _ λ r found.
      Ensures-guard _ _ _
        λ own. Ensures-guard _ _ _ λ latest. returns (Effect-contracts c db (frozen r.is_immutable))
    where
      froze :
          (q : ContractRow → Bool) (a : ContractRow)
          → SameContract a (updated q (λ x. record x { is_immutable = true }) a)
      froze q a = elim (Bool-cases (q a)) [
        | inl hit ↦ rw hit (refl, λ h. refl)
        | inr miss ↦ rw miss (refl, λ h. h)
      ]

      frozen :
          (b : Bool)
          → Extends SameContract db.contracts (
              if b
              then db.contracts
              else update
                  (λ x. x.contract_id =ᵗ contract_id && not x.is_immutable)
                  (λ x. record x { is_immutable = true })
                  db.contracts)
      frozen true = contracts_kept c db
      frozen false =
          Extends-update SameContract (λ x. x.contract_id =ᵗ contract_id && not x.is_immutable)
            (λ x. record x { is_immutable = true }) db.contracts
            (All-pure db.contracts
              λ a. froze (λ x. x.contract_id =ᵗ contract_id && not x.is_immutable) a)

  insert_attempt-Effect :
      (a : AttemptRow) (db : Db)
      → Attached db.contracts a
      → Ensures (Effect c db) (insert_attempt a db)
  unfolding insert_attempt
  insert_attempt-Effect a db attached = Ensures-guard _ _ _ λ fresh. Ensures-guard _ _ _ λ refs.
      returns (
        Effect-attempts c db (Extends-insert SameAttempt a db.attempts λ x. (refl, λ h. refl))
          (λ h. All-insert (Attached db.contracts) a db.attempts attached h))

  insert_dispatch-Effect :
      (d : DispatchRow) (db : Db)
      → is_send_confirmed d.stage ≡ false
      → Ensures (Effect c db) (insert_dispatch d db)
  unfolding insert_dispatch
  insert_dispatch-Effect d db unsent = Ensures-guard _ _ _ λ fresh. Ensures-guard _ _ _ λ refs.
      returns (
        Effect-dispatches c db (Extends-insert SameDispatch d db.dispatches λ x. (refl, λ h. refl))
          (λ g h. All-insert (Funded g db.budgets) d db.dispatches (λ e. absurd (cc)) h))

  prepare_dispatch-Effect :
      (s : Surroundings) (k contract_id attempt_id path : Text) (at : Time) (b : DispatchBinding)
      (db : Db)
      → Ensures (λ r. Effect c db r.0) (prepare_dispatch c s k contract_id attempt_id path at b db)
  unfolding prepare_dispatch new_attempt new_dispatch
  prepare_dispatch-Effect s k contract_id attempt_id path at b db = Ensures-do _ _ λ canonical e.
      Ensures-guard _ _ _ λ same_path. Ensures-bind _ (claim_task-Effect _ k db) λ d1 claimed.
        Ensures-or_fail _ _ _ λ t found. Ensures-guard _ _ _ λ unblocked.
          Ensures-guard _ _ _ λ lane.
            Ensures-bind _
              (Ensures-both (freeze_contract-Effect k contract_id d1)
                (freeze_contract-Frozen k contract_id d1))
              λ d2 (e2, froze). Ensures-then _ _ λ bound.
                Ensures-bind _
                  (insert_attempt-Effect _ d2 (Frozen-Attached k contract_id d1 d2 froze))
                  λ d3 e3. Ensures-bind _ (insert_dispatch-Effect _ d3 refl) λ d4 e4.
                    Ensures-or_fail _ _ _ λ id drawn.
                      Ensures-bind _ (append_audit_event_tx-Effect c s.now _ d4) λ r e5. returns (
                        Effect-trans c (claimed t found (not-true _ lane))
                          (Effect-trans c e2 (Effect-trans c e3 (Effect-trans c e4 e5))))

  pub prepare_bound_dispatch-Effect :
      (s : Surroundings) (k contract_id attempt_id path : Text) (at : Time) (b : DispatchBinding)
      (db : Db)
      → Ensures
          (λ r. Effect c db r.0)
          (prepare_bound_dispatch c s k contract_id attempt_id path at b db)
  unfolding prepare_bound_dispatch
  prepare_bound_dispatch-Effect s k contract_id attempt_id path at b db =
      Ensures-guard _ _ _ λ given. prepare_dispatch-Effect s k contract_id attempt_id path at b db
