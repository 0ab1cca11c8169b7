-- ===== src/Store/Stop/Kept.antt =====
-- The transactions of internal/store/stop_transactions.go after a stop's own update leave the stops.
use ai_supervisor.Base.{
  ℕ, ◌≡◌, refl, ◌>>=◌, ap, ◌∙◌, Bool, true, false, List, Ensures, returns, Ensures-guard,
  Ensures-or_fail, Ensures-bind, Ensures-map, Ensures-do,
}
use ai_supervisor.Base.Text.{Text}
use ai_supervisor.Store.Schema.{
  Time, Outcome, Codec, Surroundings, Detail, StopRow, StopPurpose, running_attempt_stop,
  Quarantine, Db,
}
use ai_supervisor.Store.Audit.Chain.{append_audit_event_tx-Logged}
use ai_supervisor.Store.Send.{Lineage}
use ai_supervisor.Store.Recovery.{when}
use ai_supervisor.Store.Recovery.Observe.{record_event}
use ai_supervisor.Store.Stop.{StopLineage, append_stop_audit}
use ai_supervisor.Store.Stop.Resolve.{
  StopTerminalOutcome, fail_live_task, end_live_attempt, settle_stop_session,
}
use ai_supervisor.Store.Stop.Commit.{
  record_live_failure, record_physical, close_live_stop_tx, settle_runtime, settle_purpose,
}

-- What leaves the stops as they were.
abbrev pub Kept : Db → Db → Type 0
Kept db d = d.stops ≡ db.stops

Kept-bind :
    (db : Db) {m : Outcome Db} (f : Db → Outcome Db)
    → Ensures (Kept db) m
    → ((d : Db) → Ensures (Kept d) (f d))
    → Ensures (Kept db) (m >>= f)
Kept-bind db f m k = Ensures-bind f m λ d e. Ensures-map (λ b g. g ∙ e) (k d)

pub when-Kept :
    (b : Bool) (f : Db → Outcome Db) (db : Db)
    → Ensures (Kept db) (f db)
    → Ensures (Kept db) (when b f db)
unfolding when
when-Kept true f db h = h
when-Kept false f db h = returns refl

fail_live_task-Kept :
    (l : StopLineage) (o : StopRow) (at : Time) (db : Db)
    → Ensures (Kept db) (fail_live_task l o at db)
unfolding fail_live_task
fail_live_task-Kept l o at db = Ensures-guard _ _ _ λ some_row. returns refl

end_live_attempt-Kept :
    (l : StopLineage) (o : StopRow) (disposition : Text) (physical : Bool) (at : Time) (db : Db)
    → Ensures (Kept db) (end_live_attempt l o disposition physical at db)
unfolding end_live_attempt
end_live_attempt-Kept l o disposition physical at db = Ensures-guard _ _ _ λ some_row. returns refl

settle_stop_session-Kept :
    (o : StopRow) (physical : Bool) (q : Quarantine) (at : Time) (db : Db)
    → Ensures (Kept db) (settle_stop_session o physical q at db)
unfolding settle_stop_session
settle_stop_session-Kept o physical q at db = Ensures-guard _ _ _ λ some_row. returns refl

settle_runtime-Kept :
    (o : StopRow) (r : StopTerminalOutcome) (db : Db) → Ensures (Kept db) (settle_runtime o r db)
unfolding settle_runtime
settle_runtime-Kept o r db = Ensures-or_fail _ _ _ λ w session.
    Ensures-guard _ _ _ λ lineage. when-Kept _ _ db (settle_stop_session-Kept o _ _ r.at db)

module _ (c : Codec) where
  record_event-Kept :
      (s : Surroundings) (k : ℕ) (kind : Text) (at : Time) (l : Lineage) (actor : Text)
      (details : List (Text × Detail)) (db : Db)
      → Ensures (Kept db) (record_event c s k kind at l actor details db)
  unfolding record_event
  record_event-Kept s k kind at l actor details db = Ensures-or_fail _ _ _ λ id drawn.
      Ensures-bind _ (append_audit_event_tx-Logged c s.now _ db)
        λ r same. returns (ap (λ y. y.stops) same)

  pub stop_audit-Kept :
      (s : Surroundings) (k : ℕ) (o : StopRow) (kind : Text) (at : Time)
      (extra : List (Text × Detail)) (db : Db)
      → Ensures (Kept db) (append_stop_audit c s k o kind at extra db)
  unfolding append_stop_audit
  stop_audit-Kept s k o kind at extra db = record_event-Kept s k kind at _ o.actor _ db

  record_physical-Kept :
      (s : Surroundings) (o : StopRow) (l : StopLineage) (at : Time) (session_clean : Bool)
      (db : Db)
      → Ensures (Kept db) (record_physical c s o l at session_clean db)
  unfolding record_physical
  record_physical-Kept s o l at session_clean db =
      Kept-bind db _ (stop_audit-Kept s 2 o _ at _ db)
        λ d. when-Kept session_clean _ d (stop_audit-Kept s 3 o _ at _ d)

  close_live_stop_tx-Kept :
      (s : Surroundings) (o : StopRow) (r : StopTerminalOutcome) (db : Db)
      → Ensures (Kept db) (close_live_stop_tx c s o r db)
  unfolding close_live_stop_tx record_live_failure
  close_live_stop_tx-Kept s o r db = Ensures-or_fail _ _ _ λ l bound. Ensures-do _ _ λ x lineage.
      Ensures-guard _ _ _ λ same. Ensures-or_fail _ _ _ λ a attempt. Ensures-guard _ _ _ λ session.
        Kept-bind db _ (fail_live_task-Kept l o r.at db) λ d1.
          Kept-bind d1 _ (end_live_attempt-Kept l o _ _ r.at d1) λ d2.
            Kept-bind d2 _ (settle_stop_session-Kept o _ _ r.at d2) λ d3.
              Kept-bind d3 _ (record_event-Kept s 1 _ r.at _ o.actor _ d3)
                λ d4. when-Kept _ _ d4 (record_physical-Kept s o l r.at _ d4)

  pub settle_purpose-Kept :
      (s : Surroundings) (p : StopPurpose) (o : StopRow) (r : StopTerminalOutcome) (db : Db)
      → Ensures (Kept db) (settle_purpose c s p o r db)
  unfolding settle_purpose
  settle_purpose-Kept s running_attempt_stop o r db = close_live_stop_tx-Kept s o r db
  settle_purpose-Kept s _ o r db = settle_runtime-Kept o r db
