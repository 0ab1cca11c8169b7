-- ===== src/Store/Send/Precedence.antt =====
-- What RecordPreSendHold of internal/store/dispatch_transactions.go has done when it returns, with
-- the precedence of protocol uncertainty over the observations of availability.
use ai_supervisor.Base.{
  ◌≤◌, ◌≡◌, refl, sym, ap, ◌∙◌, subst, Bool, true, false, ◌&&◌, not, ◌||◌, Option, none, some, ok,
  if◌then◌else◌, Ensures, returns, Ensures-guard, Ensures-or_fail, Ensures-bind, Ensures-map,
  Ensures_elim, arith,
}
use ai_supervisor.Base.Text.{Text, ◌=ᵗ◌, text_eq_iff}
use ai_supervisor.Base.Table.{find, count}
use ai_supervisor.Base.Table.Rows.{cas-find}
use ai_supervisor.Store.Schema.{
  Time, Outcome, DispatchRow, AttemptRow, Db, Codec, Surroundings, is_bound,
}
use ai_supervisor.Store.Send.{dispatch_by_id, attempt_by_id}
use ai_supervisor.Store.Send.Holds.{
  pre_send_protocol_unverified, already_held, may_hold, holds, set_hold, record_pre_send_hold,
}
use ai_supervisor.Store.Send.Confirmed.{append-Untouched}

-- The holds that may be recorded over the one in force.
infix 20 ◌GivesWay◌
pub data ◌GivesWay◌ : Option Text → Text → Type 0 where
  first : {d : Text} → none GivesWay d
  again : {d : Text} → some d GivesWay d
  escalates : {d : Text} → some d GivesWay pre_send_protocol_unverified

-- What a hold that returned has written.
pub record IsHeld (operation_id disposition : Text) (db later : Db) : Type 0 where
  pub dispatch : DispatchRow
  pub found : dispatch_by_id operation_id db ≡ some dispatch
  pub waits : is_bound dispatch.stage ≡ true
  pub attempt : AttemptRow
  pub joined : attempt_by_id dispatch.attempt_id db ≡ some attempt
  pub precedence : attempt.recovery_disposition GivesWay disposition
  pub holds_attempt :
      attempt_by_id dispatch.attempt_id later
      ≡ some (record attempt { recovery_disposition = some disposition })
  pub keeps_tasks : later.tasks ≡ db.tasks
  pub keeps_dispatches : later.dispatches ≡ db.dispatches

already_held-eq : (o : Option Text) (d : Text) → already_held o d ≡ true → o ≡ some d
unfolding already_held
already_held-eq none d h = cc
already_held-eq (some t) d h = ap some ((text_eq_iff t d).0 h)

last_of_or : (a b : Bool) → not (a || not b) ≡ true → b ≡ true
last_of_or a b h = ground arith

may_hold-GivesWay : (o : Option Text) (d : Text) → may_hold o d ≡ true → o GivesWay d
unfolding may_hold
may_hold-GivesWay none d h = first
may_hold-GivesWay (some t) d h =
    subst (λ x. some t GivesWay x)
      (sym ((text_eq_iff d pre_send_protocol_unverified).0 (last_of_or _ _ h))) escalates

first_of_five : (a b d e f : Bool) → (a && b && d && e && f) ≡ true → a ≡ true
first_of_five a b d e f h = ground arith

-- The conditional update of the found attempt.
pub set_hold-held :
    (attempt_id : Text) (current : Option Text) (session generation : Text) (next : Option Text)
    (db : Db) {a : AttemptRow}
    → count (λ r. r.attempt_id =ᵗ attempt_id) db.attempts ≤ 1
    → attempt_by_id attempt_id db ≡ some a
    → Ensures
        (λ d.
          (attempt_by_id attempt_id d ≡ some (record a { recovery_disposition = next }))
          × (d.tasks ≡ db.tasks)
          × (d.dispatches ≡ db.dispatches))
        (set_hold attempt_id current session generation next db)
unfolding set_hold attempt_by_id holds
set_hold-held attempt_id current session generation next db {a} unique found =
    Ensures-guard _ _ _ λ one.
      let (r, again_found, hit, held) =
        cas-find (λ x. x.attempt_id =ᵗ attempt_id) _ _ db.attempts
          (λ x h. first_of_five _ _ _ _ _ h) (λ x. refl) unique one in
      let same : r ≡ a = some_injective (sym again_found ∙ found) in
      returns (
        held ∙ ap {A = AttemptRow} (λ x. some (record x { recovery_disposition = next })) same,
        refl,
        refl,
      )
  where
    some_injective : {x y : AttemptRow} → some x ≡ some y → x ≡ y
    some_injective e = cc

-- If RecordPreSendHold returns on a table with one row to an attempt, then the dispatch was
-- DISPATCH_BOUND; its attempt, which had no hold, or the same, or gets that of protocol uncertainty,
-- has the hold, its other columns as they were; and no task and no dispatch has changed.
pub record_pre_send_hold-IsHeld :
    (c : Codec) (s : Surroundings) (operation_id disposition actor : Text) (at : Time) (db : Db)
    {later : Db}
    → ((k : Text) → count (λ r. r.attempt_id =ᵗ k) db.attempts ≤ 1)
    → record_pre_send_hold c s operation_id disposition actor at db ≡ ok later
    → IsHeld operation_id disposition db later
unfolding record_pre_send_hold attempt_by_id
record_pre_send_hold-IsHeld c s operation_id disposition actor at db unique e = Ensures_elim run e
  where
    either :
        (b : Bool) {m : Outcome Db}
        → (b ≡ true → IsHeld operation_id disposition db db)
        → Ensures (IsHeld operation_id disposition db) m
        → Ensures (IsHeld operation_id disposition db) (if b then ok db else m)
    either true h m = returns (h refl)
    either false h m = m

    run :
        Ensures
          (IsHeld operation_id disposition db)
          (record_pre_send_hold c s operation_id disposition actor at db)
    run = Ensures-guard _ _ _ λ valid. Ensures-or_fail _ _ _ λ id drawn.
        Ensures-or_fail _ _ _ λ d found. Ensures-or_fail _ _ _ λ a joined.
          Ensures-guard _ _ _ λ bound.
            either (already_held a.recovery_disposition disposition)
              (λ held.
                let same = already_held-eq a.recovery_disposition disposition held in
                record {
                  dispatch = d;
                  found = found;
                  waits = bound;
                  attempt = a;
                  joined = joined;
                  precedence = subst (λ o. o GivesWay disposition) (sym same) again;
                  holds_attempt =
                      joined
                      ∙ ap {A = Option Text} (λ o. some (record a { recovery_disposition = o }))
                          same;
                  keeps_tasks = refl;
                  keeps_dispatches = refl;
                })
              (Ensures-guard _ _ _ λ may.
                Ensures-bind _ (append-Untouched c s.now _ db) λ x (b2, t2, a2, r2).
                  let on_log =
                    set_hold-held d.attempt_id a.recovery_disposition d.session_id
                      d.terminal_generation (some disposition) x.0
                      (subst (λ l. count (λ r. r.attempt_id =ᵗ d.attempt_id) l ≤ 1) (sym a2)
                        (unique d.attempt_id))
                      (ap (find (λ r. r.attempt_id =ᵗ d.attempt_id)) a2 ∙ joined) in
                  Ensures-map
                    (λ later (held, t3, r3). record {
                      dispatch = d;
                      found = found;
                      waits = bound;
                      attempt = a;
                      joined = joined;
                      precedence = may_hold-GivesWay a.recovery_disposition disposition may;
                      holds_attempt = held;
                      keeps_tasks = t3 ∙ t2;
                      keeps_dispatches = r3 ∙ r2;
                    })
                    on_log)
