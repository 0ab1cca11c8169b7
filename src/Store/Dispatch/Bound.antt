-- ===== src/Store/Dispatch/Bound.antt =====
-- What PrepareBoundDispatch of internal/store/dispatch.go has done when it returns.
use ai_supervisor.Base.{
  ℕ, ◌+◌, ◌≤◌, ◌≡◌, refl, sym, ap, ◌∙◌, subst, ◌≢◌, Bool, true, false, ◌&&◌, not, Option, some,
  List, inl, inr, Bool-cases, if◌then◌else◌, ok, Ensures, returns, Ensures-guard, Ensures-or_fail,
  Ensures-do, Ensures-then, Ensures-bind, Ensures-map, Ensures_elim, not-true, ◌==◌, arith,
}
use ai_supervisor.Base.Text.{Text, ◌=ᵗ◌, text_eq_iff, text_eq_refl}
use ai_supervisor.Base.Table.{find, count, update}
use ai_supervisor.Base.Table.Laws.{updated, find-holds, find-update, All-found}
use ai_supervisor.Base.Table.Rows.{update-find, insert-find, exists_row-weaken, only-holds}
use ai_supervisor.Workflow.{ready, dispatched, ◌=ˢ◌, state_eq_iff}
use ai_supervisor.Store.Schema.{
  Time, or_now, TaskRow, ContractRow, AttemptRow, DispatchRow, Db, Codec, Surroundings, AuditEvent,
}
use ai_supervisor.Store.Audit.{append_audit_event_tx}
use ai_supervisor.Store.Audit.Chain.{append_audit_event_tx-Appended}
use ai_supervisor.Store.ReportPath.{canonical_expected_report_path}
use ai_supervisor.Store.Tasks.{lane_taken}
use ai_supervisor.Store.Dispatch.{
  DispatchBinding, max_revision, claim_task, freeze_contract, insert_attempt, insert_dispatch,
  new_attempt, prepare_dispatch, prepare_bound_dispatch,
}

-- The row of a task after its claim.
abbrev pub claimed_row : Time → TaskRow → TaskRow
claimed_row now t = record t {
  state = dispatched;
  current_attempt = t.current_attempt + 1;
  updated_at = now;
}

abbrev pub task_row : Text → Db → Option TaskRow
task_row task_id db = find (λ t. t.task_id =ᵗ task_id) db.tasks

abbrev pub attempt_row : Text → Db → Option AttemptRow
attempt_row attempt_id db = find (λ a. a.attempt_id =ᵗ attempt_id) db.attempts

abbrev pub contract_row : Text → Db → Option ContractRow
contract_row contract_id db = find (λ r. r.contract_id =ᵗ contract_id) db.contracts

-- The claim takes the task's one row from READY to DISPATCHED, with the next attempt number.
abbrev Claimed : Time → Text → Db → Db → Type 0
Claimed now task_id db d =
    (d.contracts ≡ db.contracts)
    × ((u : TaskRow)
        → task_row task_id d ≡ some u
        → (t : TaskRow) × (task_row task_id db ≡ some t)
          × (t.state ≡ ready)
          × (u ≡ claimed_row now t))

claim_task-Claimed :
    (now : Time) (task_id : Text) (db : Db)
    → count (λ t. t.task_id =ᵗ task_id) db.tasks ≤ 1
    → Ensures (Claimed now task_id db) (claim_task now task_id db)
unfolding claim_task
claim_task-Claimed now task_id db one = Ensures-guard _ _ _ λ hit. returns (
  refl,
  λ u found.
      let (t, before, same) =
        find-update (λ r. r.task_id =ᵗ task_id) (λ r. r.task_id =ᵗ task_id && r.state =ˢ ready)
          (claimed_row now) db.tasks (λ r. id_kept r) found in
      let is_ready : (t.state =ˢ ready) ≡ true =
        only-holds (λ r. r.task_id =ᵗ task_id) (λ r. r.state =ˢ ready) db.tasks
          (All-found (λ r. r.task_id =ᵗ task_id) db.tasks one before) (some_row hit) in
      let is_own : (t.task_id =ᵗ task_id) ≡ true =
        find-holds (λ r. r.task_id =ᵗ task_id) db.tasks before in
      (t, before, (state_eq_iff _ _).0 is_ready, same ∙ rw is_own (rw is_ready refl)),
)
  where
    id_kept :
        (r : TaskRow)
        → ((updated (λ x. x.task_id =ᵗ task_id && x.state =ˢ ready) (claimed_row now) r).task_id
            =ᵗ task_id)
          ≡ (r.task_id =ᵗ task_id)
    id_kept r = elim (Bool-cases (r.task_id =ᵗ task_id && r.state =ˢ ready)) [
      | inl hit ↦ rw hit refl
      | inr miss ↦ rw miss refl
    ]

    some_row : {n : ℕ} → not (n == 0) ≡ true → n ≢ 0
    some_row h e = ground arith

-- The frozen contract is of the task, and its revision is the largest.
abbrev pub Frozen : Text → Text → Db → Db → Type 0
Frozen task_id contract_id db d =
    (d.tasks ≡ db.tasks)
    × ((r : ContractRow) × (contract_row contract_id d ≡ some r)
        × (r.is_immutable ≡ true)
        × (r.task_id ≡ task_id)
        × (r.revision_number ≡ max_revision task_id db.contracts))

-- The table of contracts after the statement that freezes one.
abbrev frozen_table : Text → Bool → List ContractRow → List ContractRow
frozen_table contract_id b l =
    if b
    then l
    else update (λ c. c.contract_id =ᵗ contract_id && not c.is_immutable)
        (λ c. record c { is_immutable = true }) l

frozen_table-find :
    (contract_id : Text) (l : List ContractRow) {r : ContractRow}
    → find (λ c. c.contract_id =ᵗ contract_id) l ≡ some r
    → find (λ c. c.contract_id =ᵗ contract_id) (frozen_table contract_id r.is_immutable l)
      ≡ some (record r { is_immutable = true })
frozen_table-find contract_id l {r} found = go r.is_immutable refl
  where
    freezes : ContractRow → Bool
    freezes c = c.contract_id =ᵗ contract_id && not c.is_immutable

    freeze : ContractRow → ContractRow
    freeze c = record c { is_immutable = true }

    id_kept :
        (c : ContractRow)
        → ((updated freezes freeze c).contract_id =ᵗ contract_id) ≡ (c.contract_id =ᵗ contract_id)
    id_kept c = elim (Bool-cases (freezes c)) [ inl hit ↦ rw hit refl | inr miss ↦ rw miss refl ]

    own : (r.contract_id =ᵗ contract_id) ≡ true
    own = find-holds (λ c. c.contract_id =ᵗ contract_id) l found

    same : (x : ContractRow) → x.is_immutable ≡ true → record x { is_immutable = true } ≡ x
    same x e = ap {A = Bool} (λ b. record x { is_immutable = b }) (sym e)

    go :
        (b : Bool)
        → r.is_immutable ≡ b
        → find (λ c. c.contract_id =ᵗ contract_id) (frozen_table contract_id b l)
          ≡ some (record r { is_immutable = true })
    go true e = found ∙ ap some (sym (same r e))
    go false e =
        let mine : (r.contract_id =ᵗ contract_id) ≡ true = own in
        let froze : freezes r ≡ true = rw mine (rw e refl) in
        update-find (λ c. c.contract_id =ᵗ contract_id) freezes freeze l id_kept found
        ∙ ap some (rw froze refl)

pub freeze_contract-Frozen :
    (task_id contract_id : Text) (db : Db)
    → Ensures (Frozen task_id contract_id db) (freeze_contract task_id contract_id db)
unfolding freeze_contract
freeze_contract-Frozen task_id contract_id db = Ensures-or_fail _ _ _ λ r found.
    Ensures-guard _ _ _ λ own. Ensures-guard _ _ _ λ latest. returns (
      refl,
      (
        record r { is_immutable = true },
        frozen_table-find contract_id db.contracts found,
        refl,
        (text_eq_iff _ _).0 own,
        ground arith,
      ),
    )

-- The inserted attempt is found by its identity.
abbrev Allocated : AttemptRow → Db → Db → Type 0
Allocated a db d =
    (d.tasks ≡ db.tasks) × (d.contracts ≡ db.contracts) × (attempt_row a.attempt_id d ≡ some a)

insert_attempt-Allocated :
    (a : AttemptRow) (db : Db) → Ensures (Allocated a db) (insert_attempt a db)
unfolding insert_attempt
insert_attempt-Allocated a db = Ensures-guard _ _ _ λ fresh. Ensures-guard _ _ _ λ refs. returns (
  refl,
  refl,
  insert-find (λ r. r.attempt_id =ᵗ a.attempt_id) a db.attempts
      (exists_row-weaken (λ r. r.attempt_id =ᵗ a.attempt_id) _ db.attempts (λ r h. ground arith)
        (not-true _ fresh))
      (text_eq_refl a.attempt_id),
)

-- The tables that the statements after the allocation leave.
abbrev Left : Db → Db → Type 0
Left db d = (d.tasks ≡ db.tasks) × (d.contracts ≡ db.contracts) × (d.attempts ≡ db.attempts)

insert_dispatch-Left : (r : DispatchRow) (db : Db) → Ensures (Left db) (insert_dispatch r db)
unfolding insert_dispatch
insert_dispatch-Left r db =
    Ensures-guard _ _ _ λ fresh. Ensures-guard _ _ _ λ refs. returns (refl, refl, refl)

append-Left :
    (c : Codec) (now : Time) (event : AuditEvent) (db : Db)
    → Ensures (λ r. Left db r.0) (append_audit_event_tx c now event db)
append-Left c now event db =
    Ensures-map
      (λ r a. (ap (λ d. d.tasks) a.0, ap (λ d. d.contracts) a.0, ap (λ d. d.attempts) a.0))
      (append_audit_event_tx-Appended c now event db)

-- What the transaction has done to the task, the contract and the attempt.
pub record IsBound (task_id contract_id attempt_id : Text) (now : Time) (db : Db)
    (r : Db × AttemptRow) : Type 0 where
  pub before : TaskRow
  pub found : task_row task_id db ≡ some before
  pub was_ready : before.state ≡ ready
  pub dispatches : task_row task_id r.0 ≡ some (claimed_row now before)
  pub numbers : r.1.attempt_number ≡ before.current_attempt + 1
  pub stores : attempt_row attempt_id r.0 ≡ some r.1
  pub path : canonical_expected_report_path task_id attempt_id ≡ ok r.1.expected_report_path
  pub lane : lane_taken before.pair_id task_id r.0.tasks ≡ false
  pub contract : ContractRow
  pub freezes : contract_row contract_id r.0 ≡ some contract
  pub frozen : contract.is_immutable ≡ true
  pub owns : contract.task_id ≡ task_id
  pub latest : contract.revision_number ≡ max_revision task_id db.contracts

module _ (c : Codec) (s : Surroundings) where
  prepare_dispatch-IsBound :
      (task_id contract_id attempt_id path : Text) (at : Time) (b : DispatchBinding) (db : Db)
      → count (λ t. t.task_id =ᵗ task_id) db.tasks ≤ 1
      → Ensures
          (IsBound task_id contract_id attempt_id (or_now s.now at) db)
          (prepare_dispatch c s task_id contract_id attempt_id path at b db)
  unfolding prepare_dispatch new_attempt
  prepare_dispatch-IsBound task_id contract_id attempt_id path at b db one =
      Ensures-do _ _ λ canonical built. Ensures-guard _ _ _ λ same_path.
        Ensures-bind _ (claim_task-Claimed _ task_id db one) λ d1 claimed.
          Ensures-or_fail _ _ _ λ u found. Ensures-guard _ _ _ λ unblocked.
            Ensures-guard _ _ _ λ lane.
              Ensures-bind _ (freeze_contract-Frozen task_id contract_id d1)
                λ d2 (t2, (r, fz, im, own, latest)). Ensures-then _ _ λ bound.
                  Ensures-bind _ (insert_attempt-Allocated _ d2) λ d3 (t3, r3, stored).
                    Ensures-bind _ (insert_dispatch-Left _ d3) λ d4 (t4, r4, a4).
                      Ensures-or_fail _ _ _ λ id drawn.
                        Ensures-bind _ (append-Left c s.now _ d4) λ x (t5, r5, a5).
                          let (t, before, was, same) = claimed.1 u found in
                          let tasks : x.0.tasks ≡ d1.tasks = t5 ∙ t4 ∙ t3 ∙ t2 in
                          let contracts : x.0.contracts ≡ d2.contracts = r5 ∙ r4 ∙ r3 in
                          let attempts : x.0.attempts ≡ d3.attempts = a5 ∙ a4 in
                          returns (record {
                            before = t;
                            found = before;
                            was_ready = was;
                            dispatches =
                                ap (find (λ y. y.task_id =ᵗ task_id)) tasks ∙ found ∙ ap some same;
                            numbers = ap (λ y. y.current_attempt) same;
                            stores = ap (find (λ y. y.attempt_id =ᵗ attempt_id)) attempts ∙ stored;
                            path = built ∙ ap ok (sym ((text_eq_iff _ _).0 same_path));
                            lane =
                                ap (λ y. lane_taken t.pair_id task_id y) tasks
                                ∙ subst (λ y. lane_taken y task_id d1.tasks ≡ false)
                                    (ap (λ y. y.pair_id) same) (not-true _ lane);
                            contract = r;
                            freezes = ap (find (λ y. y.contract_id =ᵗ contract_id)) contracts ∙ fz;
                            frozen = im;
                            owns = own;
                            latest = latest ∙ ap (max_revision task_id) claimed.0;
                          })

  -- If PrepareBoundDispatch returns on a table where the task has one row at most, then the task was
  -- READY, is DISPATCHED with the next attempt number, which the stored attempt has; the attempt's
  -- report path is the canonical one; no other task of the pair is in its active lane; and the
  -- contract is the task's latest revision, and frozen.
  pub prepare_bound_dispatch-IsBound :
      (task_id contract_id attempt_id path : Text) (at : Time) (b : DispatchBinding) (db : Db)
      {r : Db × AttemptRow}
      → count (λ t. t.task_id =ᵗ task_id) db.tasks ≤ 1
      → prepare_bound_dispatch c s task_id contract_id attempt_id path at b db ≡ ok r
      → IsBound task_id contract_id attempt_id (or_now s.now at) db r
  unfolding prepare_bound_dispatch
  prepare_bound_dispatch-IsBound task_id contract_id attempt_id path at b db one e =
      Ensures_elim
        (Ensures-guard _ _ _
          λ given. prepare_dispatch-IsBound task_id contract_id attempt_id path at b db one)
        e
