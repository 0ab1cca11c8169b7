-- ===== src/Store/Send/Unknown/Escalation.antt =====
-- What RecordUnknownDelivery of internal/store/dispatch_transactions.go has done when it returns.
use ai_supervisor.Base.{
  ◌≤◌, ◌≡◌, sym, ap, ◌∙◌, subst, some, ok, Ensures, returns, Ensures-guard, Ensures-or_fail,
  Ensures-bind, Ensures-map, Ensures_elim,
}
use ai_supervisor.Base.Text.{Text, ◌=ᵗ◌}
use ai_supervisor.Base.Table.{count}
use ai_supervisor.Store.Schema.{Time, or_now, DispatchRow, Db, Codec, Surroundings, AuditEvent}
use ai_supervisor.Store.Audit.{append_audit_event_tx}
use ai_supervisor.Store.Audit.Chain.{append_audit_event_tx-Appended}
use ai_supervisor.Store.Send.{dispatch_by_id}
use ai_supervisor.Store.Send.Unknown.{close_unknown, record_unknown_delivery}
use ai_supervisor.Store.Send.Unknown.Closing.{
  Escalated, ClosedUnknown, Isolated, Resolved, escalates, closes, isolates, resolves,
}

-- The primary keys: one row to a task, an attempt, a dispatch and the session of a pair.
pub record IsKeyed (db : Db) : Type 0 where
  pub one_task : (k : Text) → count (λ t. t.task_id =ᵗ k) db.tasks ≤ 1
  pub one_attempt : (k : Text) → count (λ a. a.attempt_id =ᵗ k) db.attempts ≤ 1
  pub one_dispatch : (k : Text) → count (λ d. d.operation_id =ᵗ k) db.dispatches ≤ 1
  pub one_session : (k : Text) → count (λ w. w.pair_id =ᵗ k) db.sessions ≤ 1

pub record IsLost (d : DispatchRow) (at : Time) (before later : Db) : Type 0 where
  pub task : Escalated d at before.tasks later.tasks
  pub attempt : ClosedUnknown d at before.attempts later.attempts
  pub session : Isolated d at before.sessions later.sessions
  pub dispatch : Resolved d before.dispatches later.dispatches

close_unknown-IsLost :
    (d : DispatchRow) (at : Time) (db : Db)
    → IsKeyed db
    → Ensures (IsLost d at db) (close_unknown d at db)
unfolding close_unknown
close_unknown-IsLost d at db keyed = Ensures-guard _ _ _ λ g1. Ensures-guard _ _ _ λ g2.
    Ensures-guard _ _ _ λ g3. Ensures-guard _ _ _ λ g4. Ensures-guard _ _ _ λ g5. returns (record {
      task = escalates d at db.tasks keyed.one_task g1 g2;
      attempt = closes d at db.attempts _ (keyed.one_attempt d.attempt_id) g3;
      session = isolates d at db.sessions (keyed.one_session d.pair_id) g5;
      dispatch = resolves d db.dispatches (keyed.one_dispatch d.operation_id) g4;
    })

-- An append to the log leaves the tables that the closure changes.
abbrev SameTables : Db → Db → Type 0
SameTables db d =
    (d.tasks ≡ db.tasks)
    × (d.attempts ≡ db.attempts)
    × (d.dispatches ≡ db.dispatches)
    × (d.sessions ≡ db.sessions)

append-SameTables :
    (c : Codec) (now : Time) (event : AuditEvent) (db : Db)
    → Ensures (λ r. SameTables db r.0) (append_audit_event_tx c now event db)
append-SameTables c now event db =
    Ensures-map
      (λ r a. (
        ap (λ d. d.tasks) a.0,
        ap (λ d. d.attempts) a.0,
        ap (λ d. d.dispatches) a.0,
        ap (λ d. d.sessions) a.0,
      ))
      (append_audit_event_tx-Appended c now event db)

SameTables-trans : (a b d : Db) → SameTables a b → SameTables b d → SameTables a d
SameTables-trans a b d (t, x, y, z) (t', x', y', z') = (t' ∙ t, x' ∙ x, y' ∙ y, z' ∙ z)

IsKeyed-same : (a b : Db) → SameTables a b → IsKeyed a → IsKeyed b
IsKeyed-same a b (t, x, y, z) k = record {
  one_task = λ i. subst (λ l. count (λ r. r.task_id =ᵗ i) l ≤ 1) (sym t) (k.one_task i);
  one_attempt = λ i. subst (λ l. count (λ r. r.attempt_id =ᵗ i) l ≤ 1) (sym x) (k.one_attempt i);
  one_dispatch =
      λ i. subst (λ l. count (λ r. r.operation_id =ᵗ i) l ≤ 1) (sym y) (k.one_dispatch i);
  one_session = λ i. subst (λ l. count (λ r. r.pair_id =ᵗ i) l ≤ 1) (sym z) (k.one_session i);
}

IsLost-same :
    (d : DispatchRow) (at : Time) (a b e : Db) → SameTables a b → IsLost d at b e → IsLost d at a e
IsLost-same d at a b e (t, x, y, z) l = record {
  task = subst (λ r. Escalated d at r e.tasks) t l.task;
  attempt = subst (λ r. ClosedUnknown d at r e.attempts) x l.attempt;
  session = subst (λ r. Isolated d at r e.sessions) z l.session;
  dispatch = subst (λ r. Resolved d r e.dispatches) y l.dispatch;
}

-- If RecordUnknownDelivery returns on tables with unique keys, then a dispatch of the operation was
-- there; its task was DISPATCHED and is HUMAN_REQUIRED; its attempt was open, and is ended with the
-- disposition UNCERTAIN_DELIVERY_CRASH and quarantined; the pair's session is the dispatch's, and is
-- quarantined; and the dispatch was SEND_REQUESTED, and is resolved as DELIVERY_OUTCOME_UNKNOWN.
pub record_unknown_delivery-IsLost :
    (c : Codec) (s : Surroundings) (operation_id actor : Text) (at : Time) (db : Db) {later : Db}
    → IsKeyed db
    → record_unknown_delivery c s operation_id actor at db ≡ ok later
    → (d : DispatchRow) × (dispatch_by_id operation_id db ≡ some d)
      × IsLost d (or_now s.now at) db later
unfolding record_unknown_delivery
record_unknown_delivery-IsLost c s operation_id actor at db keyed e = Ensures_elim run e
  where
    run :
        Ensures
          (λ later.
            (d : DispatchRow) × (dispatch_by_id operation_id db ≡ some d)
            × IsLost d (or_now s.now at) db later)
          (record_unknown_delivery c s operation_id actor at db)
    run = Ensures-guard _ _ _ λ named. Ensures-or_fail _ _ _ λ i1 d1. Ensures-or_fail _ _ _ λ i2 d2.
        Ensures-or_fail _ _ _ λ d found. Ensures-or_fail _ _ _ λ a joined.
          Ensures-guard _ _ _ λ stage. Ensures-or_fail _ _ _ λ t owner. Ensures-guard _ _ _ λ state.
            Ensures-guard _ _ _ λ edge1. Ensures-guard _ _ _ λ edge2.
              Ensures-bind _ (append-SameTables c s.now _ db) λ r1 s1.
                Ensures-or_fail _ _ _ λ i3 d3.
                  Ensures-bind _ (append-SameTables c s.now _ r1.0) λ r2 s2.
                    Ensures-bind _ (append-SameTables c s.now _ r2.0) λ r3 s3.
                      let same =
                        SameTables-trans db r2.0 r3.0 (SameTables-trans db r1.0 r2.0 s1 s2) s3 in
                      Ensures-map (λ later l. (d, found, IsLost-same d _ db r3.0 later same l))
                        (close_unknown-IsLost d _ r3.0 (IsKeyed-same db r3.0 same keyed))
