-- ===== src/Store/Recovery/Written.antt =====
-- What ObservePostSend of internal/store/recovery_transactions.go writes, by the steps of the code.
use ai_supervisor.Base.{
  ℕ, ◌≤◌, ◌≡◌, refl, sym, ap, ◌∙◌, subst, Bool, true, false, ◌&&◌, ◌||◌, not, is_some, some, ok,
  Ensures, returns, Ensures-guard, Ensures-or_fail, Ensures-bind, Ensures-map, Ensures-both,
  Ensures-self, Ensures_elim, and_left, and_right, not-true, ◌==◌, if◌then◌else◌, then_branch,
  else_branch, arith,
}
use ai_supervisor.Base.Text.{Text, ◌=ᵗ◌, text_eq_iff}
use ai_supervisor.Base.Table.{find, count, exists_row}
use ai_supervisor.Base.Table.Rows.{cas-found}
use ai_supervisor.Workflow.{TaskState, ◌=ˢ◌, state_eq_iff}
use ai_supervisor.Store.Schema.{
  Time, Outcome, Codec, Surroundings, TaskRow, AttemptRow, SessionRow, Db,
}
use ai_supervisor.Store.Send.Unknown.Escalation.{IsKeyed}
use ai_supervisor.Store.Recovery.{
  RecoveryExecution, PostSendObservation, same_recovery_execution, current_execution, is_stop_owned,
  terminal_disposition, new_state, is_known_activity, when, is_observed_task, move_observed,
}
use ai_supervisor.Store.Send.Budget.{is_executing}
use ai_supervisor.Store.Recovery.Observe.{
  is_settled, record_recovered, record_moved, record_blocked, record_missed, commit_observation,
  observe_post_send,
}
use ai_supervisor.Store.Recovery.Execution.{current_execution-IsRead, same_recovery_execution-eq}
use ai_supervisor.Store.Recovery.Settled.{
  Steady, Ensures-when, record_event-Steady, settled_attempt, settled_session,
  settle_attempt-Settles,
}

-- What an observation that returned has left of the execution's task, attempt and session, in the
-- words of the code.
pub record IsWritten (x : RecoveryExecution) (o : PostSendObservation) (at : Time) (db later : Db)
    : Type 0 where
  pub reads : current_execution true x.operation_id db ≡ ok x
  pub executing : is_executing x.task_state ≡ true
  pub unowned : is_stop_owned x db ≡ false
  pub task : TaskRow
  pub leaves_task : find (λ t. t.task_id =ᵗ x.task_id) later.tasks ≡ some task
  pub in_state : task.state ≡ (if is_settled x o then x.task_state else new_state x o)
  pub attempt : AttemptRow
  pub had_attempt : find (λ a. a.attempt_id =ᵗ x.attempt_id) db.attempts ≡ some attempt
  pub held_as : attempt.recovery_disposition ≡ x.disposition
  pub known : (is_some (terminal_disposition x o) || is_known_activity o.activity) ≡ true
  pub leaves_attempt :
      find (λ a. a.attempt_id =ᵗ x.attempt_id) later.attempts
      ≡ some (
          if is_settled x o
          then attempt
          else settled_attempt x o at (terminal_disposition x o) attempt)
  pub session : SessionRow
  pub had_session : find (λ w. w.pair_id =ᵗ x.pair_id) db.sessions ≡ some session
  pub same_session : session.session_id ≡ x.session_id
  pub leaves_session :
      find (λ w. w.pair_id =ᵗ x.pair_id) later.sessions
      ≡ some (
          if is_settled x o
          then session
          else settled_session x o at (terminal_disposition x o) session)

-- The task in a state, and the other tables as they were.
abbrev InState : RecoveryExecution → TaskState → Db → Db → Type 0
InState x s db d =
    (u : TaskRow) × (find (λ t. t.task_id =ᵗ x.task_id) d.tasks ≡ some u)
    × (u.state ≡ s)
    × (d.attempts ≡ db.attempts)
    × (d.sessions ≡ db.sessions)

first_of_four : (a b d e : Bool) → (a && b && d && e) ≡ true → a ≡ true
first_of_four a b d e h = ground arith

move_observed-InState :
    (x : RecoveryExecution) (to : TaskState) (at : Time) (db : Db)
    → count (λ t. t.task_id =ᵗ x.task_id) db.tasks ≤ 1
    → Ensures (InState x to db) (move_observed x to at db)
unfolding move_observed is_observed_task
move_observed-InState x to at db unique = Ensures-guard _ _ _ λ hit.
    let (t, found, passed, now) =
      cas-found (λ y. y.task_id =ᵗ x.task_id) _ (λ y. record y { state = to; updated_at = at })
        db.tasks
        (λ y h.
          first_of_four (y.task_id =ᵗ x.task_id) (y.pair_id =ᵗ x.pair_id) (y.state =ˢ x.task_state)
            (exists_row (λ a. a.attempt_id =ᵗ x.attempt_id && a.attempt_number == y.current_attempt)
              db.attempts)
            h)
        (λ y. refl) unique hit in
    returns (_, now, refl, refl, refl)

module _ (c : Codec) (s : Surroundings) where
  moved-InState :
      (x : RecoveryExecution) (o : PostSendObservation) (k : ℕ) (actor : Text) (at : Time) (db : Db)
      {t : TaskRow}
      → count (λ y. y.task_id =ᵗ x.task_id) db.tasks ≤ 1
      → find (λ y. y.task_id =ᵗ x.task_id) db.tasks ≡ some t
      → t.state ≡ x.task_state
      → Ensures
          (InState x (new_state x o) db)
          (when (not (new_state x o =ˢ x.task_state)) (record_moved c s k x o actor at) db)
  unfolding record_moved
  moved-InState x o k actor at db {t} unique found here =
      Ensures-when _ _ db
        (λ moves.
          Ensures-bind _ (move_observed-InState x (new_state x o) at db unique)
            λ d (u, now, state, attempts, sessions).
              Ensures-map
                (λ e (t1, a1, s1). (
                  u,
                  ap (find (λ y. y.task_id =ᵗ x.task_id)) t1 ∙ now,
                  state,
                  a1 ∙ attempts,
                  s1 ∙ sessions,
                ))
                (record_event-Steady c s k _ at _ actor _ d))
        (λ stays.
          let same : new_state x o ≡ x.task_state = (state_eq_iff _ _).0 (ground arith) in
          (t, found, here ∙ sym same, refl, refl))

  when-Steady :
      (b : Bool) (f : Db → Outcome Db) (db : Db)
      → Ensures (Steady db) (f db)
      → Ensures (Steady db) (when b f db)
  when-Steady b f db h = Ensures-when b f db (λ e. h) (λ e. (refl, refl, refl))

  -- The tables that ObservePostSend writes, past its guards.
  abbrev Committed : RecoveryExecution → PostSendObservation → Time → Db → Db → Type 0
  Committed x o at db d =
      ((u : TaskRow) × (find (λ t. t.task_id =ᵗ x.task_id) d.tasks ≡ some u)
        × (u.state ≡ new_state x o))
      × ((a : AttemptRow)
          → find (λ y. y.attempt_id =ᵗ x.attempt_id) db.attempts ≡ some a
          → find (λ y. y.attempt_id =ᵗ x.attempt_id) d.attempts
            ≡ some (settled_attempt x o at (terminal_disposition x o) a))
      × ((w : SessionRow)
          → find (λ y. y.pair_id =ᵗ x.pair_id) db.sessions ≡ some w
          → find (λ y. y.pair_id =ᵗ x.pair_id) d.sessions
            ≡ some (settled_session x o at (terminal_disposition x o) w))

  commit_observation-Committed :
      (x : RecoveryExecution) (o : PostSendObservation) (g actor invocation : Text) (at : Time)
      (db : Db) {t : TaskRow}
      → IsKeyed db
      → find (λ y. y.task_id =ᵗ x.task_id) db.tasks ≡ some t
      → t.state ≡ x.task_state
      → Ensures (Committed x o at db) (commit_observation c s x o g actor invocation at db)
  unfolding commit_observation record_recovered record_blocked record_missed
  commit_observation-Committed x o g actor invocation at db keyed found here =
      Ensures-bind _ (when-Steady _ _ db (record_event-Steady c s 0 _ at _ actor _ db))
        λ d1 (t1, a1, s1).
          Ensures-bind _
            (moved-InState x o _ actor at d1
              (subst (λ l. count (λ y. y.task_id =ᵗ x.task_id) l ≤ 1) (sym t1)
                (keyed.one_task x.task_id))
              (ap (find (λ y. y.task_id =ᵗ x.task_id)) t1 ∙ found) here)
            λ d2 (u, now, state, a2, s2).
              let attempts : d2.attempts ≡ db.attempts = a2 ∙ a1 in
              let sessions : d2.sessions ≡ db.sessions = s2 ∙ s1 in
              Ensures-bind _
                (settle_attempt-Settles x o g _ at d2
                  (subst (λ l. count (λ y. y.attempt_id =ᵗ x.attempt_id) l ≤ 1) (sym attempts)
                    (keyed.one_attempt x.attempt_id))
                  (subst (λ l. count (λ y. y.pair_id =ᵗ x.pair_id) l ≤ 1) (sym sessions)
                    (keyed.one_session x.pair_id)))
                λ d3 (attempt, session, t3).
                  Ensures-bind _ (when-Steady _ _ d3 (record_event-Steady c s _ _ at _ actor _ d3))
                    λ d4 (t4, a4, s4).
                      Ensures-map
                        (λ d (t5, a5, s5). (
                          (u, ap (find _) (t5 ∙ t4 ∙ t3) ∙ now, state),
                          λ a e. ap (find _) (a5 ∙ a4) ∙ attempt a (ap (find _) attempts ∙ e),
                          λ w e. ap (find _) (s5 ∙ s4) ∙ session w (ap (find _) sessions ∙ e),
                        ))
                        (when-Steady _ _ d4 (record_event-Steady c s _ _ at _ actor _ d4))

-- What ObservePostSend has written when it returns on tables with unique keys.
pub observe_post_send-IsWritten :
    (c : Codec) (s : Surroundings) (expected : RecoveryExecution) (observed : PostSendObservation)
    (actor invocation : Text) (at : Time) (db : Db) {later : Db}
    → IsKeyed db
    → observe_post_send c s expected observed actor invocation at db ≡ ok later
    → IsWritten expected observed at db later
unfolding observe_post_send
observe_post_send-IsWritten c s expected observed actor invocation at db keyed e =
    Ensures_elim run e
  where
    run :
        Ensures
          (IsWritten expected observed at db)
          (observe_post_send c s expected observed actor invocation at db)
    run = Ensures-guard _ _ _ λ given.
        Ensures-bind _
          (Ensures-both (current_execution-IsRead true expected.operation_id db keyed.one_attempt)
            (Ensures-self λ y h. h))
          λ x (rows, reads). Ensures-guard _ _ _ λ valid. Ensures-guard _ _ _ λ free.
            Ensures-or_fail _ _ _ λ w session. Ensures-guard _ _ _ λ lineage.
              Ensures-guard _ _ _ λ known.
                let same : x ≡ expected =
                  same_recovery_execution-eq x expected
                    (and_left _ (is_executing x.task_state) valid) in
                let reads' : current_execution true x.operation_id db ≡ ok x =
                  ap (λ y. current_execution true y.operation_id db) same ∙ reads in
                let executes : is_executing x.task_state ≡ true =
                  and_right (same_recovery_execution x expected) _ valid in
                let own : w.session_id ≡ x.session_id =
                  (text_eq_iff _ _).0 (and_left (w.session_id =ᵗ x.session_id) _ lineage) in
                Ensures-map (λ d h. subst (λ y. IsWritten y observed at db d) same h)
                  (Ensures-when _ _ db
                    (λ moves.
                      let open_case : is_settled x observed ≡ false = not-true _ moves in
                      Ensures-map
                        (λ d ((u, now, state), attempt, settled). record {
                          reads = reads';
                          executing = executes;
                          unowned = not-true _ free;
                          task = u;
                          leaves_task = now;
                          in_state = state ∙ sym (else_branch _ _ _ open_case);
                          attempt = rows.attempt;
                          had_attempt = rows.has_attempt;
                          held_as = rows.held_as;
                          known = known;
                          leaves_attempt =
                              attempt rows.attempt rows.has_attempt
                              ∙ ap some (sym (else_branch _ _ _ open_case));
                          session = w;
                          had_session = session;
                          same_session = own;
                          leaves_session =
                              settled w session ∙ ap some (sym (else_branch _ _ _ open_case));
                        })
                        (commit_observation-Committed c s x observed w.terminal_generation actor
                          invocation at db keyed rows.has_task rows.in_state))
                    (λ keeps.
                      let held : is_settled x observed ≡ true = ground arith in
                      record {
                        reads = reads';
                        executing = executes;
                        unowned = not-true _ free;
                        task = rows.task;
                        leaves_task = rows.has_task;
                        in_state = rows.in_state ∙ sym (then_branch _ _ _ held);
                        attempt = rows.attempt;
                        had_attempt = rows.has_attempt;
                        held_as = rows.held_as;
                        known = known;
                        leaves_attempt = rows.has_attempt ∙ ap some (sym (then_branch _ _ _ held));
                        session = w;
                        had_session = session;
                        same_session = own;
                        leaves_session = session ∙ ap some (sym (then_branch _ _ _ held));
                      }))
