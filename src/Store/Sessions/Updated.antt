-- ===== src/Store/Sessions/Updated.antt =====
-- What UpdateWorkerSessionStatusAndQuarantine of internal/store/session_lifecycle.go has done when it
-- returns.
use ai_supervisor.Base.{
  ◌≤◌, ◌≡◌, refl, ap, ◌∙◌, sym, Bool, true, ◌&&◌, not, none, some, ok, returns, Ensures-guard,
  Ensures-then, Ensures_elim, or_fail, is_some, Option, and_left, and_right, arith, ◌==◌,
}
use ai_supervisor.Base.Text.{Text, ◌=ᵗ◌}
use ai_supervisor.Base.Table.{count, update}
use ai_supervisor.Base.Table.Laws.{count-le}
use ai_supervisor.Base.Table.Rows.{cas-find}
use ai_supervisor.Store.Schema.{
  Time, or_now, Quarantine, clean, quarantined, SessionRow, SessionStatus, worker_session_not_found,
  Db,
}
use ai_supervisor.Store.Sessions.{
  WorkerSessionCasUpdate, expects, or_current, same_status, same_quarantine,
  get_worker_session_by_pair, reject_unresolved_restore, reject_unresolved_provisioning,
  update_worker_session_status_and_quarantine,
}

same_quarantine-eq : (a b : Quarantine) → same_quarantine a b ≡ true → a ≡ b
same_quarantine-eq clean clean h = refl
same_quarantine-eq clean quarantined h = cc
same_quarantine-eq quarantined clean h = cc
same_quarantine-eq quarantined quarantined h = refl

is_some-none : (o : Option Text) → not (is_some o) ≡ true → o ≡ none
is_some-none none h = refl
is_some-none (some t) h = cc

same_row :
    (w : SessionRow) (status : SessionStatus) (q : Quarantine) (g : Option Text) (at : Time)
    → q ≡ w.quarantine_state
    → g ≡ none
    → ◌≡◌ {A = SessionRow}
        (record w {
          status = status;
          quarantine_state = q;
          terminal_generation = or_current w.terminal_generation g;
          updated_at = at;
        })
        (record w { status = status; updated_at = at })
same_row w status q g at h k = rw h (rw k refl)

ok_found :
    {o : Option SessionRow} {a : SessionRow}
    → o ≡ some a
    → or_fail o worker_session_not_found ≡ ok a
unfolding or_fail
ok_found h = rw h refl

three : (a b d : Bool) → (a && b && d) ≡ true → (a ≡ true) × (b ≡ true) × (d ≡ true)
three a b d h = (ground arith, ground arith, ground arith)

-- The two tables that the guards read.
abbrev Admits : Text → Db → Type 0
Admits pair_id db =
    (reject_unresolved_restore pair_id db ≡ ok tt)
    × (reject_unresolved_provisioning pair_id db ≡ ok tt)

abbrev Updated : Time → Text → WorkerSessionCasUpdate → Db → Db → Type 0
Updated at pair_id u db later =
    (w : SessionRow) × (get_worker_session_by_pair pair_id db ≡ ok w)
    × (get_worker_session_by_pair pair_id later
        ≡ ok (record w { status = u.status; updated_at = at }))
    × (same_quarantine w.quarantine_state u.expected_quarantine_state ≡ true)
    × (reject_unresolved_restore pair_id db ≡ ok tt)
    × (reject_unresolved_provisioning pair_id db ≡ ok tt)

generic_row :
    (at : Time) (pair_id : Text) (u : WorkerSessionCasUpdate) (db : Db)
    → count (λ w. w.pair_id =ᵗ pair_id) db.sessions ≤ 1
    → same_quarantine u.expected_quarantine_state u.quarantine_state ≡ true
    → not (is_some u.terminal_generation) ≡ true
    → not (count (expects pair_id u) db.sessions == 0) ≡ true
    → Admits pair_id db
    → Updated at pair_id u db (record db {
      sessions =
          update
            (expects pair_id u)
            (λ w. record w {
              status = u.status;
              quarantine_state = u.quarantine_state;
              terminal_generation = or_current w.terminal_generation u.terminal_generation;
              updated_at = at;
            })
            db.sessions;
    })
unfolding get_worker_session_by_pair expects
generic_row at pair_id u db unique same no_generation hit admits =
    let own = λ (x : SessionRow) (h : expects pair_id u x ≡ true).
      (three (x.pair_id =ᵗ pair_id) (same_status x.status u.expected_status)
        (same_quarantine x.quarantine_state u.expected_quarantine_state) h).0 in
    let fewer = count-le (expects pair_id u) (λ w. w.pair_id =ᵗ pair_id) db.sessions own in
    let (w, found, passed, now) =
      cas-find (λ x. x.pair_id =ᵗ pair_id) (expects pair_id u) _ db.sessions own (λ x. refl) unique
        (ground arith) in
    let (here, status, expected) =
      three (w.pair_id =ᵗ pair_id) (same_status w.status u.expected_status)
        (same_quarantine w.quarantine_state u.expected_quarantine_state) passed in
    let kept : u.quarantine_state ≡ w.quarantine_state =
      sym (same_quarantine-eq _ _ expected ∙ same_quarantine-eq _ _ same) in
    (
      w,
      ok_found found,
      ok_found (
          now
          ∙ ap some (
              same_row w u.status u.quarantine_state u.terminal_generation at kept
                (is_some-none u.terminal_generation no_generation))),
      expected,
      admits.0,
      admits.1,
    )

-- If the generic update of a pair's session returns on a table with one row to a pair, then the
-- session had the expected quarantine state, and has changed in its status and its time of update
-- alone; and the pair has no restore and no provisioning that is unresolved.
pub update_worker_session_status_and_quarantine_lem :
    (now : Time) (pair_id : Text) (u : WorkerSessionCasUpdate) (db : Db) {later : Db}
    → count (λ w. w.pair_id =ᵗ pair_id) db.sessions ≤ 1
    → update_worker_session_status_and_quarantine now pair_id u db ≡ ok later
    → (w : SessionRow) × (get_worker_session_by_pair pair_id db ≡ ok w)
      × (get_worker_session_by_pair pair_id later
          ≡ ok (record w { status = u.status; updated_at = or_now now u.updated_at }))
      × (same_quarantine w.quarantine_state u.expected_quarantine_state ≡ true)
      × (reject_unresolved_restore pair_id db ≡ ok tt)
      × (reject_unresolved_provisioning pair_id db ≡ ok tt)
unfolding update_worker_session_status_and_quarantine get_worker_session_by_pair
update_worker_session_status_and_quarantine_lem now pair_id u db unique e =
    Ensures_elim {Q = Updated (or_now now u.updated_at) pair_id u db}
      (Ensures-guard _ _ _ λ generic. Ensures-then _ _ λ no_restore.
        Ensures-then _ _ λ no_provisioning. Ensures-guard _ _ _ λ hit. returns (
          generic_row (or_now now u.updated_at) pair_id u db unique (and_left _ _ generic)
            (and_right _ (not (is_some u.terminal_generation)) generic) hit
            (no_restore, no_provisioning)))
      e
