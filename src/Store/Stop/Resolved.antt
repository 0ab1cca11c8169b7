-- ===== src/Store/Stop/Resolved.antt =====
-- CommitStopOutcome of internal/store/stop_transactions.go: what it leaves of the stop.
use ai_supervisor.Base.{
  ◌≡◌, refl, ap, ◌∙◌, Bool, true, false, ◌&&◌, ◌||◌, not, none, some, ok, inl, inr, Bool-cases,
  Ensures, returns, Ensures-guard, Ensures-bind, Ensures-map, Ensures-do, Ensures-then,
  Ensures_elim, or_fail, or_fail-eq-ok, if◌then◌else◌, arith,
}
use ai_supervisor.Base.Text.{Text, ◌=ᵗ◌, text_eq_refl}
use ai_supervisor.Base.Table.{find}
use ai_supervisor.Base.Table.Laws.{find-holds}
use ai_supervisor.Base.Table.Rows.{update-find}
use ai_supervisor.Store.Schema.{Codec, Surroundings, StopRow, is_in_flight, Db}
use ai_supervisor.Store.Stop.Reserve.{get_stop_operation_tx}
use ai_supervisor.Store.Stop.Resolve.{
  StopTerminalOutcome, same_stop_stage, valid_stop_transition, valid_stop_outcome, is_physical,
  claims_termination, proves_termination, is_open_stop, resolve_stop,
}
use ai_supervisor.Store.Stop.Commit.{commit_stop_outcome}
use ai_supervisor.Store.Stop.Kept.{when-Kept, stop_audit-Kept, settle_purpose-Kept}

-- The stop that an outcome leaves.
abbrev pub resolved_row : StopRow → StopTerminalOutcome → StopRow
resolved_row o r = record o {
  stage = r.stage;
  resolution_state = r.resolution;
  resolved_at = some r.at;
  termination_confirmed_at = if is_physical r then some r.at else none;
}

-- The stop was open in the expected stage, and has the outcome, which is valid and, if it is a
-- termination, proved.
pub record IsResolved (op : Text) (r : StopTerminalOutcome) (before later : Db) : Type 0 where
  pub stop : StopRow
  pub found : get_stop_operation_tx op before ≡ ok stop
  pub open_stop : is_open_stop op r.expected_stage stop ≡ true
  pub left : get_stop_operation_tx op later ≡ ok (resolved_row stop r)
  pub valid : valid_stop_outcome r.expected_stage r.stage r.resolution ≡ true
  pub proved : (not (claims_termination r) || proves_termination stop r) ≡ true

both_of_three : (a b d : Bool) → (a && b && d) ≡ true → (a ≡ true) × (b ≡ true)
both_of_three a b d h = (ground arith, ground arith)

proved_or_unclaimed :
    (physical claims proves : Bool)
    → (if physical then proves else not claims) ≡ true
    → (not claims || proves) ≡ true
proved_or_unclaimed true true proves h = h
proved_or_unclaimed true false proves h = refl
proved_or_unclaimed false true proves h = absurd (cc)
proved_or_unclaimed false false proves h = refl

get_stop-found :
    (op : Text) (db : Db) {o : StopRow}
    → get_stop_operation_tx op db ≡ ok o
    → find (λ x. x.operation_id =ᵗ op) db.stops ≡ some o
unfolding get_stop_operation_tx
get_stop-found op db e = or_fail-eq-ok _ _ e

found-get_stop :
    (op : Text) (db : Db) (o : StopRow)
    → find (λ x. x.operation_id =ᵗ op) db.stops ≡ some o
    → get_stop_operation_tx op db ≡ ok o
unfolding get_stop_operation_tx or_fail
found-get_stop op db o e = rw e refl

resolve_stop-left :
    (op : Text) (o : StopRow) (r : StopTerminalOutcome) (db : Db)
    → find (λ x. x.operation_id =ᵗ op) db.stops ≡ some o
    → is_open_stop o.operation_id r.expected_stage o ≡ true
    → Ensures
        (λ d. find (λ x. x.operation_id =ᵗ op) d.stops ≡ some (resolved_row o r))
        (resolve_stop o r db)
unfolding resolve_stop
resolve_stop-left op o r db e hit = Ensures-guard _ _ _ λ some_row. returns (
    update-find (λ x. x.operation_id =ᵗ op) (is_open_stop o.operation_id r.expected_stage)
      (λ x. resolved_row x r) db.stops
      (λ x. elim (Bool-cases (is_open_stop o.operation_id r.expected_stage x)) [
        | inl yes_x ↦ rw yes_x refl
        | inr miss ↦ rw miss refl
      ])
      e
    ∙ ap some (rw hit refl))

module _ (c : Codec) where
  outcome-IsResolved :
      (s : Surroundings) (op : Text) (r : StopTerminalOutcome) (db : Db)
      → Ensures (IsResolved op r db) (commit_stop_outcome c s op r db)
  unfolding commit_stop_outcome is_open_stop
  outcome-IsResolved s op r db = Ensures-guard _ _ _ λ given. Ensures-do _ _ λ o got.
      Ensures-then _ _ λ owned. Ensures-guard _ _ _ λ stands. Ensures-guard _ _ _ λ proof.
        Ensures-guard _ _ _ λ observed. Ensures-guard _ _ _ λ valid.
          let found = get_stop-found op db got in
          let own : (o.operation_id =ᵗ op) ≡ true =
            find-holds (λ x. x.operation_id =ᵗ op) db.stops found in
          let (stage, live) =
            both_of_three (same_stop_stage o.stage r.expected_stage)
              (is_in_flight o.resolution_state) (valid_stop_transition r.expected_stage r.stage)
              stands in
          let hit : (o.operation_id =ᵗ o.operation_id
                && same_stop_stage o.stage r.expected_stage
                && is_in_flight o.resolution_state)
              ≡ true =
            rw (text_eq_refl o.operation_id) (rw stage (rw live refl)) in
          Ensures-bind _ (resolve_stop-left op o r db found hit) λ d1 left.
            Ensures-bind _ (when-Kept _ _ d1 (stop_audit-Kept c s 0 o _ r.at _ d1)) λ d2 same.
              Ensures-map
                (λ d kept. record {
                  stop = o;
                  found = got;
                  open_stop = rw own (rw stage (rw live refl));
                  left =
                      found-get_stop op d (resolved_row o r)
                        (ap (find (λ x. x.operation_id =ᵗ op)) (kept ∙ same) ∙ left);
                  valid = valid;
                  proved =
                      proved_or_unclaimed (is_physical r) (claims_termination r)
                        (proves_termination o r) proof;
                })
                (settle_purpose-Kept c s o.purpose o r d2)

  -- If CommitStopOutcome returns, then the operation's stop was in flight in the expected stage, and
  -- has the outcome's stage, resolution and time, its other columns but the time of confirmation as
  -- they were; the outcome is valid for the stage; and one that claims the termination has its proof:
  -- the session was observed terminated in the stop's generation, between the accepted call and its
  -- deadline.
  pub commit_stop_outcome-IsResolved :
      (s : Surroundings) (op : Text) (r : StopTerminalOutcome) (db : Db) {d : Db}
      → commit_stop_outcome c s op r db ≡ ok d
      → IsResolved op r db d
  commit_stop_outcome-IsResolved s op r db e = Ensures_elim (outcome-IsResolved s op r db) e
