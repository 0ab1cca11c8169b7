-- ===== src/Store/Recovery/Settled.antt =====
-- The rows that the updates of ObservePostSend leave, in internal/store/recovery_transactions.go.
use ai_supervisor.Base.{
  ℕ, ◌≤◌, ◌≡◌, refl, sym, ap, ◌∙◌, subst, Bool, true, false, ◌&&◌, ◌||◌, not, Option, none, some,
  is_some, List, Ensures, returns, Ensures-guard, Ensures-or_fail, Ensures-bind, Ensures-map, ltb,
  if◌then◌else◌, arith,
}
use ai_supervisor.Base.Text.{Text, ◌=ᵗ◌, has_text}
use ai_supervisor.Base.Table.{find, count, update}
use ai_supervisor.Base.Table.Laws.{count-update_eq}
use ai_supervisor.Base.Table.Rows.{cas-found}
use ai_supervisor.Store.Schema.{
  Time, Outcome, Codec, Surroundings, Detail, AttemptRow, SessionRow, Db, quarantined, terminated,
}
use ai_supervisor.Store.Audit.Chain.{append_audit_event_tx-Logged}
use ai_supervisor.Store.Send.{Lineage}
use ai_supervisor.Store.Send.Holds.{same_text}
use ai_supervisor.Store.Recovery.{
  RecoveryExecution, PostSendObservation, new_disposition, is_observed_attempt, is_observed_session,
  requires_isolation, when, end_observed, hold_observed, isolate_observed, terminate_observed,
  close_observed,
}
use ai_supervisor.Store.Recovery.Observe.{is_pending, record_event, settle_attempt}

-- The tables that an event leaves.
abbrev pub Steady : Db → Db → Type 0
Steady db d = (d.tasks ≡ db.tasks) × (d.attempts ≡ db.attempts) × (d.sessions ≡ db.sessions)

pub Ensures-when :
    {Q : Db → Type 0} (b : Bool) (f : Db → Outcome Db) (db : Db)
    → (b ≡ true → Ensures Q (f db))
    → (b ≡ false → Q db)
    → Ensures Q (when b f db)
unfolding when
Ensures-when true f db h k = h refl
Ensures-when false f db h k = returns (k refl)

pub record_event-Steady :
    (c : Codec) (s : Surroundings) (k : ℕ) (event_type : Text) (at : Time) (l : Lineage)
    (actor : Text) (details : List (Text × Detail)) (db : Db)
    → Ensures (Steady db) (record_event c s k event_type at l actor details db)
unfolding record_event
record_event-Steady c s k event_type at l actor details db = Ensures-or_fail _ _ _ λ id drawn.
    Ensures-bind _ (append_audit_event_tx-Logged c s.now _ db) λ r same.
      returns (ap (λ y. y.tasks) same, ap (λ y. y.attempts) same, ap (λ y. y.sessions) same)

-- The attempt after an observation that was recorded.
unfoldable pub settled_attempt :
    RecoveryExecution → PostSendObservation → Time → Option Text → AttemptRow → AttemptRow
settled_attempt x o at (some disposition) a = record a {
  ended_at = some at;
  recovery_disposition = some disposition;
  quarantine_state = if requires_isolation disposition then quarantined else a.quarantine_state;
}
settled_attempt x o at none a =
    if is_pending x || is_some (new_disposition x o)
    then record a { recovery_disposition = new_disposition x o }
    else a

-- The observation of the end of the session that the attempt was bound to.
unfoldable pub sees_end : RecoveryExecution → PostSendObservation → Bool
sees_end x o = o.terminated && o.generation =ᵗ x.generation && not o.absent

abbrev isolated_session : Bool → Time → SessionRow → SessionRow
isolated_session b at w =
    if b then record w { quarantine_state = quarantined; updated_at = at } else w

abbrev ended_session : Bool → Time → SessionRow → SessionRow
ended_session b at w = if b then record w { status = terminated; updated_at = at } else w

-- The pair's session, likewise.
unfoldable pub settled_session :
    RecoveryExecution → PostSendObservation → Time → Option Text → SessionRow → SessionRow
settled_session x o at (some disposition) w =
    ended_session (sees_end x o) at (isolated_session (requires_isolation disposition) at w)
settled_session x o at none w = w

first_of_seven : (a b d e f g h : Bool) → (a && b && d && e && f && g && h) ≡ true → a ≡ true
first_of_seven a b d e f g h k = ground arith

first_of_three : (a b d : Bool) → (a && b && d) ≡ true → a ≡ true
first_of_three a b d k = ground arith

observed-key :
    (x : RecoveryExecution) (a : AttemptRow)
    → is_observed_attempt x a ≡ true
    → (a.attempt_id =ᵗ x.attempt_id) ≡ true
unfolding is_observed_attempt
observed-key x a h =
    first_of_seven (a.attempt_id =ᵗ x.attempt_id) (a.task_id =ᵗ x.task_id)
      (a.contract_id =ᵗ x.contract_id) (has_text a.session_id x.session_id)
      (has_text a.terminal_generation x.generation) (not (is_some a.ended_at))
      (same_text a.recovery_disposition x.disposition) h

session-key :
    (x : RecoveryExecution) (g : Text) (w : SessionRow)
    → is_observed_session x g w ≡ true
    → (w.pair_id =ᵗ x.pair_id) ≡ true
unfolding is_observed_session
session-key x g w h =
    first_of_three (w.pair_id =ᵗ x.pair_id) (w.session_id =ᵗ x.session_id)
      (w.terminal_generation =ᵗ g) h

-- The updates of one table each, with the other tables as they were.
abbrev AttemptChanges : RecoveryExecution → (AttemptRow → AttemptRow) → Db → Db → Type 0
AttemptChanges x u db d =
    ((a : AttemptRow)
      → find (λ y. y.attempt_id =ᵗ x.attempt_id) db.attempts ≡ some a
      → find (λ y. y.attempt_id =ᵗ x.attempt_id) d.attempts ≡ some (u a))
    × (d.tasks ≡ db.tasks)
    × (d.sessions ≡ db.sessions)

abbrev SessionChanges : RecoveryExecution → (SessionRow → SessionRow) → Db → Db → Type 0
SessionChanges x u db d =
    ((w : SessionRow)
      → find (λ y. y.pair_id =ᵗ x.pair_id) db.sessions ≡ some w
      → find (λ y. y.pair_id =ᵗ x.pair_id) d.sessions ≡ some (u w))
    × (count (λ y. y.pair_id =ᵗ x.pair_id) d.sessions ≤ 1)
    × (d.tasks ≡ db.tasks)
    × (d.attempts ≡ db.attempts)

changed :
    {A : Type 0} (f q : A → Bool) (u : A → A) (l : List A)
    → ((y : A) → q y ≡ true → f y ≡ true)
    → ((y : A) → f (u y) ≡ f y)
    → count f l ≤ 1
    → ltb 0 (count q l) ≡ true
    → (a : A) → find f l ≡ some a
    → find f (update q u l) ≡ some (u a)
changed f q u l own keep unique hit a found =
    let (b, again, passed, now) = cas-found f q u l own keep unique hit in
    let same : b ≡ a = some_injective (sym again ∙ found) in now ∙ ap (λ y. some (u y)) same
  where
    some_injective : {B : Type 0} {y z : B} → some y ≡ some z → y ≡ z
    some_injective e = cc

end_observed-AttemptChanges :
    (x : RecoveryExecution) (o : PostSendObservation) (disposition : Text) (at : Time) (db : Db)
    → count (λ y. y.attempt_id =ᵗ x.attempt_id) db.attempts ≤ 1
    → Ensures
        (AttemptChanges x (settled_attempt x o at (some disposition)) db)
        (end_observed x disposition at db)
unfolding end_observed settled_attempt
end_observed-AttemptChanges x o disposition at db unique = Ensures-guard _ _ _ λ hit. returns (
  changed (λ y. y.attempt_id =ᵗ x.attempt_id) (is_observed_attempt x) _ db.attempts (observed-key x)
      (λ y. refl) unique hit,
  refl,
  refl,
)

hold_observed-AttemptChanges :
    (x : RecoveryExecution) (disposition : Option Text) (db : Db)
    → count (λ y. y.attempt_id =ᵗ x.attempt_id) db.attempts ≤ 1
    → Ensures
        (AttemptChanges x (λ a. record a { recovery_disposition = disposition }) db)
        (hold_observed x disposition db)
unfolding hold_observed
hold_observed-AttemptChanges x disposition db unique = Ensures-guard _ _ _ λ hit. returns (
  changed (λ y. y.attempt_id =ᵗ x.attempt_id) (is_observed_attempt x) _ db.attempts (observed-key x)
      (λ y. refl) unique hit,
  refl,
  refl,
)

session_update :
    (x : RecoveryExecution) (g : Text) (u : SessionRow → SessionRow) (db : Db)
    → ((w : SessionRow) → (u w).pair_id ≡ w.pair_id)
    → count (λ y. y.pair_id =ᵗ x.pair_id) db.sessions ≤ 1
    → ltb 0 (count (is_observed_session x g) db.sessions) ≡ true
    → SessionChanges x u db
        (record db { sessions = update (is_observed_session x g) u db.sessions })
session_update x g u db keep unique hit = (
  changed (λ y. y.pair_id =ᵗ x.pair_id) (is_observed_session x g) u db.sessions (session-key x g)
      (λ y. ap (λ p. p =ᵗ x.pair_id) (keep y)) unique hit,
  subst (λ n. n ≤ 1)
      (sym (
        count-update_eq (λ y. y.pair_id =ᵗ x.pair_id) (is_observed_session x g) u db.sessions
          (λ y. ap (λ p. p =ᵗ x.pair_id) (keep y))))
      unique,
  refl,
  refl,
)

isolate-SessionChanges :
    (x : RecoveryExecution) (b : Bool) (g : Text) (at : Time) (db : Db)
    → count (λ y. y.pair_id =ᵗ x.pair_id) db.sessions ≤ 1
    → Ensures (SessionChanges x (isolated_session b at) db) (when b (isolate_observed x g at) db)
unfolding when isolate_observed
isolate-SessionChanges x true g at db unique =
    Ensures-guard _ _ _ λ hit. returns (session_update x g _ db (λ w. refl) unique hit)
isolate-SessionChanges x false g at db unique = returns (λ w e. e, unique, refl, refl)

terminate-SessionChanges :
    (x : RecoveryExecution) (b : Bool) (at : Time) (db : Db)
    → count (λ y. y.pair_id =ᵗ x.pair_id) db.sessions ≤ 1
    → Ensures (SessionChanges x (ended_session b at) db) (when b (terminate_observed x at) db)
unfolding when terminate_observed
terminate-SessionChanges x true at db unique =
    Ensures-guard _ _ _ λ hit. returns (session_update x x.generation _ db (λ w. refl) unique hit)
terminate-SessionChanges x false at db unique = returns (λ w e. e, unique, refl, refl)

-- What settle_attempt leaves of the attempt and of the session.
abbrev pub Settles : RecoveryExecution → PostSendObservation → Option Text → Time → Db → Db → Type 0
Settles x o t at db d =
    ((a : AttemptRow)
      → find (λ y. y.attempt_id =ᵗ x.attempt_id) db.attempts ≡ some a
      → find (λ y. y.attempt_id =ᵗ x.attempt_id) d.attempts ≡ some (settled_attempt x o at t a))
    × ((w : SessionRow)
        → find (λ y. y.pair_id =ᵗ x.pair_id) db.sessions ≡ some w
        → find (λ y. y.pair_id =ᵗ x.pair_id) d.sessions ≡ some (settled_session x o at t w))
    × (d.tasks ≡ db.tasks)

close_observed-Settles :
    (x : RecoveryExecution) (o : PostSendObservation) (g disposition : Text) (at : Time) (db : Db)
    → count (λ y. y.attempt_id =ᵗ x.attempt_id) db.attempts ≤ 1
    → count (λ y. y.pair_id =ᵗ x.pair_id) db.sessions ≤ 1
    → Ensures (Settles x o (some disposition) at db) (close_observed x o g disposition at db)
unfolding close_observed settled_session sees_end
close_observed-Settles x o g disposition at db one_attempt one_session =
    Ensures-bind _ (end_observed-AttemptChanges x o disposition at db one_attempt)
      λ d1 (ends, t1, s1).
        let one1 : count (λ y. y.pair_id =ᵗ x.pair_id) d1.sessions ≤ 1 =
          subst (λ l. count (λ y. y.pair_id =ᵗ x.pair_id) l ≤ 1) (sym s1) one_session in
        Ensures-bind _ (isolate-SessionChanges x (requires_isolation disposition) g at d1 one1)
          λ d2 (isolates, one2, t2, a2).
            Ensures-map
              (λ d (terminates, one3, t3, a3). (
                λ a e. ap (find (λ y. y.attempt_id =ᵗ x.attempt_id)) (a3 ∙ a2) ∙ ends a e,
                λ w e. terminates _ (isolates w (ap (find (λ y. y.pair_id =ᵗ x.pair_id)) s1 ∙ e)),
                t3 ∙ t2 ∙ t1,
              ))
              (terminate-SessionChanges x _ at d2 one2)

pub settled_attempt-open :
    (x : RecoveryExecution) (o : PostSendObservation) (at : Time) (a : AttemptRow)
    → (is_pending x || is_some (new_disposition x o)) ≡ true
    → settled_attempt x o at none a ≡ record a { recovery_disposition = new_disposition x o }
unfolding settled_attempt
settled_attempt-open x o at a h = rw h refl

pub settled_attempt-same :
    (x : RecoveryExecution) (o : PostSendObservation) (at : Time) (a : AttemptRow)
    → (is_pending x || is_some (new_disposition x o)) ≡ false
    → settled_attempt x o at none a ≡ a
unfolding settled_attempt
settled_attempt-same x o at a h = rw h refl

pub settle_attempt-Settles :
    (x : RecoveryExecution) (o : PostSendObservation) (g : Text) (t : Option Text) (at : Time)
    (db : Db)
    → count (λ y. y.attempt_id =ᵗ x.attempt_id) db.attempts ≤ 1
    → count (λ y. y.pair_id =ᵗ x.pair_id) db.sessions ≤ 1
    → Ensures (Settles x o t at db) (settle_attempt x o g t at db)
unfolding settle_attempt settled_session
settle_attempt-Settles x o g (some disposition) at db one_attempt one_session =
    close_observed-Settles x o g disposition at db one_attempt one_session
settle_attempt-Settles x o g none at db one_attempt one_session =
    Ensures-when _ _ db
      (λ holds.
        Ensures-map
          (λ d (changes, tasks, sessions). (
            λ a e. changes a e ∙ ap some (sym (settled_attempt-open x o at a holds)),
            λ w e. ap (find (λ y. y.pair_id =ᵗ x.pair_id)) sessions ∙ e,
            tasks,
          ))
          (hold_observed-AttemptChanges x (new_disposition x o) db one_attempt))
      (λ keeps. (λ a e. e ∙ ap some (sym (settled_attempt-same x o at a keeps)), λ w e. e, refl))
