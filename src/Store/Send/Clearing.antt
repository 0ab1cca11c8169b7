-- ===== src/Store/Send/Clearing.antt =====
-- What ResolvePreSendHold of internal/store/dispatch_transactions.go has done when it returns.
use ai_supervisor.Base.{
  ◌≤◌, ◌≡◌, refl, sym, ap, ◌∙◌, subst, Bool, true, false, ◌&&◌, not, ◌||◌, Option, none, some, ok,
  Ensures, Ensures-guard, Ensures-or_fail, Ensures-bind, Ensures-map, Ensures_elim, arith, ◌⊎◌, inl,
  inr, is_some, ◌==◌,
}
use ai_supervisor.Base.Text.{Text, ◌=ᵗ◌, text_eq_iff, is_empty, has_text}
use ai_supervisor.Base.Table.{find, count}
use ai_supervisor.Store.Schema.{
  Time, DispatchRow, AttemptRow, TaskRow, Db, Codec, Surroundings, is_bound,
}
use ai_supervisor.Store.Send.{dispatch_by_id, attempt_by_id, is_admissible}
use ai_supervisor.Store.Send.Holds.{recovery_pending, resolve_pre_send_hold}
use ai_supervisor.Store.Send.Confirmed.{append-Untouched}
use ai_supervisor.Store.Send.Precedence.{set_hold-held}

-- What the clearing of a hold that returned has checked and written.
pub record IsCleared
    (operation_id attempt_id expected session_id generation activity principal : Text)
    (db later : Db) : Type 0 where
  pub attempt : AttemptRow
  pub found : attempt_by_id attempt_id db ≡ some attempt
  pub expects : attempt.recovery_disposition ≡ some expected
  pub open_attempt : is_some attempt.ended_at ≡ false
  pub dispatch : DispatchRow
  pub operation : dispatch_by_id operation_id db ≡ some dispatch
  pub of_attempt : dispatch.attempt_id ≡ attempt_id
  pub waits : is_bound dispatch.stage ≡ true
  pub in_session : dispatch.session_id ≡ session_id
  pub in_generation : dispatch.terminal_generation ≡ generation
  pub observed : is_admissible activity ≡ true
  pub authorized : (expected ≡ recovery_pending) ⊎ (is_empty principal ≡ false)
  pub clears :
      attempt_by_id attempt_id later ≡ some (record attempt { recovery_disposition = none })
  pub keeps_tasks : later.tasks ≡ db.tasks
  pub keeps_dispatches : later.dispatches ≡ db.dispatches

has_text-eq : (o : Option Text) (t : Text) → has_text o t ≡ true → o ≡ some t
has_text-eq none t h = cc
has_text-eq (some s) t h = ap some ((text_eq_iff s t).0 h)

some_injective : {x y : Text} → some x ≡ some y → x ≡ y
some_injective e = cc

-- The argument checks: the activity is admissible, and the principal named where it must be.
request_parts :
    (a s g r i e p : Bool)
    → not (a || s || g || r || not i || (not e && p)) ≡ true
    → (i ≡ true) × ((e ≡ true) ⊎ (p ≡ false))
request_parts a s g r i true p h = (ground arith, inl refl)
request_parts a s g r i false true h = absurd (ground arith)
request_parts a s g r i false false h = (ground arith, inr refl)

lineage_parts :
    (a b t p s g n o : Bool)
    → (a && b && t && p && s && g && n && not o) ≡ true
    → (a ≡ true) × (b ≡ true) × (s ≡ true) × (g ≡ true) × (o ≡ false)
lineage_parts a b t p s g n o h =
    (ground arith, ground arith, ground arith, ground arith, ground arith)

three : (a b d : Bool) → (a && b && d) ≡ true → (a ≡ true) × (b ≡ true) × (d ≡ true)
three a b d h = (ground arith, ground arith, ground arith)

same_text_of : (o : Option Text) {s t : Text} → has_text o s ≡ true → has_text o t ≡ true → s ≡ t
same_text_of o {s} {t} h k = some_injective (sym (has_text-eq o s h) ∙ has_text-eq o t k)

-- What the checks of the lineage and of the hold say, once they have passed.
passed :
    (a : AttemptRow) (t : TaskRow) (d : DispatchRow) (attempt_id expected session generation : Text)
    → (d.attempt_id =ᵗ attempt_id
        && is_bound d.stage
        && d.task_id =ᵗ a.task_id
        && d.pair_id =ᵗ t.pair_id
        && has_text a.session_id d.session_id
        && has_text a.terminal_generation d.terminal_generation
        && a.attempt_number == t.current_attempt
        && not (is_some a.ended_at))
      ≡ true
    → (has_text a.recovery_disposition expected
        && has_text a.session_id session
        && has_text a.terminal_generation generation)
      ≡ true
    → (d.attempt_id ≡ attempt_id)
      × (is_bound d.stage ≡ true)
      × (is_some a.ended_at ≡ false)
      × (a.recovery_disposition ≡ some expected)
      × (d.session_id ≡ session)
      × (d.terminal_generation ≡ generation)
passed a t d attempt_id expected session generation lineage hold =
    let (own, bound, of_session, of_generation, unended) =
      lineage_parts (d.attempt_id =ᵗ attempt_id) (is_bound d.stage) (d.task_id =ᵗ a.task_id)
        (d.pair_id =ᵗ t.pair_id) (has_text a.session_id d.session_id)
        (has_text a.terminal_generation d.terminal_generation)
        (a.attempt_number == t.current_attempt) (is_some a.ended_at) lineage in
    let (held, in_session, in_generation) =
      three (has_text a.recovery_disposition expected) (has_text a.session_id session)
        (has_text a.terminal_generation generation) hold in
    (
      (text_eq_iff d.attempt_id attempt_id).0 own,
      bound,
      unended,
      has_text-eq a.recovery_disposition expected held,
      same_text_of a.session_id of_session in_session,
      same_text_of a.terminal_generation of_generation in_generation,
    )

by_recovery :
    (expected principal : Text)
    → ((expected =ᵗ recovery_pending) ≡ true) ⊎ (is_empty principal ≡ false)
    → (expected ≡ recovery_pending) ⊎ (is_empty principal ≡ false)
by_recovery expected principal (inl h) = inl ((text_eq_iff expected recovery_pending).0 h)
by_recovery expected principal (inr h) = inr h

-- If ResolvePreSendHold returns on a table with one row to an attempt, then the attempt was open, of
-- the operation's DISPATCH_BOUND dispatch in the given session and generation, and had the expected
-- hold, which is cleared, its other columns as they were; the activity was admissible, and a
-- principal was named unless the hold was RECOVERY_PENDING; and no task and no dispatch has changed.
pub resolve_pre_send_hold-IsCleared :
    (c : Codec) (s : Surroundings)
    (operation_id attempt_id expected session_id generation activity principal actor : Text)
    (at : Time) (db : Db) {later : Db}
    → count (λ r. r.attempt_id =ᵗ attempt_id) db.attempts ≤ 1
    → resolve_pre_send_hold c s operation_id attempt_id expected session_id generation activity
        principal actor at db
      ≡ ok later
    → IsCleared operation_id attempt_id expected session_id generation activity principal db later
unfolding resolve_pre_send_hold attempt_by_id
resolve_pre_send_hold-IsCleared c s operation_id attempt_id expected session_id generation activity
      principal actor at db unique e =
    Ensures_elim run e
  where
    run :
        Ensures
          (IsCleared operation_id attempt_id expected session_id generation activity principal db)
          (resolve_pre_send_hold c s operation_id attempt_id expected session_id generation activity
            principal actor at db)
    run = Ensures-guard _ _ _ λ request. Ensures-guard _ _ _ λ known.
        Ensures-or_fail _ _ _ λ id drawn. Ensures-or_fail _ _ _ λ a found.
          Ensures-or_fail _ _ _ λ t task. Ensures-or_fail _ _ _ λ d operation.
            Ensures-guard _ _ _ λ lineage. Ensures-guard _ _ _ λ hold.
              Ensures-or_fail _ _ _ λ w session. Ensures-guard _ _ _ λ current.
                Ensures-bind _ (append-Untouched c s.now _ db) λ x (b2, t2, a2, r2).
                  let (admissible, named) =
                    request_parts (is_empty attempt_id) (is_empty session_id) (is_empty generation)
                      (is_empty actor) (is_admissible activity) (expected =ᵗ recovery_pending)
                      (is_empty principal) request in
                  let (own, bound, unended, held, in_session, in_generation) =
                    passed a t d attempt_id expected session_id generation lineage hold in
                  Ensures-map
                    (λ later (cleared, t3, r3). record {
                      attempt = a;
                      found = found;
                      expects = held;
                      open_attempt = unended;
                      dispatch = d;
                      operation = operation;
                      of_attempt = own;
                      waits = bound;
                      in_session = in_session;
                      in_generation = in_generation;
                      observed = admissible;
                      authorized = by_recovery expected principal named;
                      clears = cleared;
                      keeps_tasks = t3 ∙ t2;
                      keeps_dispatches = r3 ∙ r2;
                    })
                    (set_hold-held attempt_id (some expected) session_id generation none x.0
                      (subst (λ l. count (λ r. r.attempt_id =ᵗ attempt_id) l ≤ 1) (sym a2) unique)
                      (ap (find (λ r. r.attempt_id =ᵗ attempt_id)) a2 ∙ found))
