-- ===== src/Store/Provisioning/Confirmed.antt =====
-- What ConfirmPairProvisioning of internal/store/provisioning_transactions.go has done when it returns.
use ai_supervisor.Base.{
  ◌≤◌, ◌≡◌, refl, sym, ap, ◌∙◌, subst, Bool, true, false, ◌&&◌, Option, none, some, ok, err, List,
  Ensures, returns, Ensures-guard, Ensures-or_fail, Ensures-bind, Ensures-map, Ensures_elim,
  or_fail, not-true, ◌==◌, arith,
}
use ai_supervisor.Base.Text.{Text, ◌=ᵗ◌, text_eq_iff, text_eq_refl}
use ai_supervisor.Base.Table.{find, exists_row, count, update}
use ai_supervisor.Base.Table.Rows.{cas-find, insert-find, exists_row-weaken, not_exists-find}
use ai_supervisor.Store.Schema.{
  Time, or_now, StoreError, Codec, Surroundings, SessionRow, ProvisioningRow, Db,
  provision_confirmed, is_requested_stage, worker_session_not_found,
}
use ai_supervisor.Store.Audit.Chain.{append_audit_event_tx-Logged}
use ai_supervisor.Store.Sessions.{get_worker_session_by_pair, get_pair_provisioning_operation}
use ai_supervisor.Store.Provisioning.{
  WorkerSession, session_row, is_intent_of, insert_session, confirm_pair_provisioning,
}

-- What a confirmation that returned has read and written.
pub record IsProvisioned (operation_id : Text) (session : WorkerSession) (at : Time) (db later : Db)
    : Type 0 where
  pub intent : ProvisioningRow
  pub found : get_pair_provisioning_operation operation_id db ≡ ok intent
  pub was_requested : is_requested_stage intent.stage ≡ true
  pub of_pair : intent.pair_id ≡ session.pair_id
  pub confirms :
      get_pair_provisioning_operation operation_id later
      ≡ ok (record intent {
        stage = provision_confirmed;
        session_id = some session.session_id;
        completed_at = some at;
      })
  pub had_none : get_worker_session_by_pair session.pair_id db ≡ err worker_session_not_found
  pub starts : get_worker_session_by_pair session.pair_id later ≡ ok (session_row session at)
  pub keeps_tasks : later.tasks ≡ db.tasks
  pub keeps_attempts : later.attempts ≡ db.attempts
  pub keeps_dispatches : later.dispatches ≡ db.dispatches

ok_found : {A : Type 0} {o : Option A} {a : A} (e : StoreError) → o ≡ some a → or_fail o e ≡ ok a
unfolding or_fail
ok_found e h = rw h refl

err_missing : {A : Type 0} {o : Option A} (e : StoreError) → o ≡ none → or_fail o e ≡ err e
unfolding or_fail
err_missing e h = rw h refl

ends_requested : (a b d : Bool) → (a && b && d) ≡ true → (a ≡ true) × (b ≡ true) × (d ≡ true)
ends_requested a b d h = (ground arith, ground arith, ground arith)

-- A session that is inserted is the first of its pair.
abbrev Started : SessionRow → Db → Db → Type 0
Started w db d =
    (find (λ r. r.pair_id =ᵗ w.pair_id) db.sessions ≡ none)
    × (find (λ r. r.pair_id =ᵗ w.pair_id) d.sessions ≡ some w)
    × (d.provisionings ≡ db.provisionings)
    × (d.tasks ≡ db.tasks)
    × (d.attempts ≡ db.attempts)
    × (d.dispatches ≡ db.dispatches)

insert_session-Started : (w : SessionRow) (db : Db) → Ensures (Started w db) (insert_session w db)
unfolding insert_session
insert_session-Started w db = Ensures-guard _ _ _ λ fresh. Ensures-guard _ _ _ λ pair.
    let none_yet : exists_row (λ r. r.pair_id =ᵗ w.pair_id) db.sessions ≡ false =
      exists_row-weaken _ _ db.sessions (λ r h. ground arith) (not-true _ fresh) in
    returns (
      not_exists-find _ db.sessions none_yet,
      insert-find (λ r. r.pair_id =ᵗ w.pair_id) w db.sessions none_yet (text_eq_refl w.pair_id),
      refl,
      refl,
      refl,
      refl,
    )

-- The update of the intent.
confirms_row :
    (op pair session : Text) (at : Time) (l : List ProvisioningRow)
    → count (λ r. r.operation_id =ᵗ op) l ≤ 1
    → (count (is_intent_of op pair) l == 1) ≡ true
    → (p : ProvisioningRow) × (find (λ r. r.operation_id =ᵗ op) l ≡ some p)
      × (p.pair_id ≡ pair)
      × (is_requested_stage p.stage ≡ true)
      × (find
            (λ r. r.operation_id =ᵗ op)
            (update
              (is_intent_of op pair)
              (λ r. record r {
                stage = provision_confirmed;
                session_id = some session;
                completed_at = some at;
              })
              l)
          ≡ some (record p {
            stage = provision_confirmed;
            session_id = some session;
            completed_at = some at;
          }))
unfolding is_intent_of
confirms_row op pair session at l unique one =
    let (p, found, hit, confirmed) =
      cas-find (λ x. x.operation_id =ᵗ op) _ _ l
        (λ x h.
          (ends_requested (x.operation_id =ᵗ op) (x.pair_id =ᵗ pair) (is_requested_stage x.stage)
            h).0)
        (λ x. refl) unique one in
    let (own, of_pair, requested) =
      ends_requested (p.operation_id =ᵗ op) (p.pair_id =ᵗ pair) (is_requested_stage p.stage) hit in
    (p, found, (text_eq_iff _ _).0 of_pair, requested, confirmed)

-- If ConfirmPairProvisioning returns on a table with one row to an operation, then the operation was
-- PROVISION_REQUESTED for the session's pair, and is PROVISION_CONFIRMED with that session at the
-- given time, or the current one if none was given; the pair had no session, and has the given one;
-- and no task, no attempt and no dispatch has changed.
pub confirm_pair_provisioning-IsProvisioned :
    (c : Codec) (s : Surroundings) (operation_id : Text) (session : WorkerSession) (actor : Text)
    (at : Time) (db : Db) {later : Db}
    → count (λ p. p.operation_id =ᵗ operation_id) db.provisionings ≤ 1
    → confirm_pair_provisioning c s operation_id session actor at db ≡ ok later
    → IsProvisioned operation_id session (or_now s.now at) db later
unfolding confirm_pair_provisioning get_worker_session_by_pair get_pair_provisioning_operation
    session_row
confirm_pair_provisioning-IsProvisioned c s operation_id session actor at db unique e =
    Ensures_elim run e
  where
    run :
        Ensures
          (IsProvisioned operation_id session (or_now s.now at) db)
          (confirm_pair_provisioning c s operation_id session actor at db)
    run = Ensures-guard _ _ _ λ given. Ensures-or_fail _ _ _ λ id drawn.
        Ensures-or_fail _ _ _ λ p intent. Ensures-guard _ _ _ λ own.
          Ensures-bind _ (append_audit_event_tx-Logged c s.now _ db) λ r same.
            Ensures-guard _ _ _ λ one.
              let rows : r.0.provisionings ≡ db.provisionings = ap (λ y. y.provisionings) same in
              let (q, found, of_pair, requested, confirmed) =
                confirms_row operation_id p.pair_id session.session_id (or_now s.now at)
                  r.0.provisionings
                  (subst (λ l. count (λ x. x.operation_id =ᵗ operation_id) l ≤ 1) (sym rows) unique)
                  one in
              Ensures-map
                (λ d (had_none, starts, kept, tasks, attempts, dispatches). record {
                  intent = q;
                  found = ok_found _ (ap (find _) (sym rows) ∙ found);
                  was_requested = requested;
                  of_pair = of_pair ∙ (text_eq_iff _ _).0 own;
                  confirms = ok_found _ (ap (find _) kept ∙ confirmed);
                  had_none =
                      err_missing _ (ap (find _) (sym (ap (λ y. y.sessions) same)) ∙ had_none);
                  starts = ok_found _ starts;
                  keeps_tasks = tasks ∙ ap (λ y. y.tasks) same;
                  keeps_attempts = attempts ∙ ap (λ y. y.attempts) same;
                  keeps_dispatches = dispatches ∙ ap (λ y. y.dispatches) same;
                })
                (insert_session-Started _ _)
