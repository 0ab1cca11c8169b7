-- ===== src/Store/Stop/Once.antt =====
-- internal/store/stop_transactions.go: what its transactions make of a stop that is resolved.
use ai_supervisor.Base.{
  ◌≡◌, refl, sym, ◌∙◌, subst, Bool, true, false, ◌&&◌, ◌||◌, ok, ◌⊎◌, inl, inr, and_right, Ensures,
  Ensures-guard, Ensures-do, Ensures-then, Ensures_elim, arith,
}
use ai_supervisor.Base.Text.{Text}
use ai_supervisor.Store.Schema.{
  Time, Outcome, Codec, Surroundings, StopRow, StopStage, StopResolution, termination_confirmed,
  target_absent, confirmation_timeout, generation_mismatch, effect_unproven_already_terminated,
  call_failed, call_outcome_unknown, is_in_flight, Db,
}
use ai_supervisor.Store.Stop.Reserve.{get_stop_operation_tx}
use ai_supervisor.Store.Stop.Resolve.{StopTerminalOutcome, valid_stop_outcome}
use ai_supervisor.Store.Stop.Commit.{
  requires_human, commit_stop_call_accepted, commit_stop_outcome, classify_abandoned_stop_alive,
}
use ai_supervisor.Store.Stop.Resolved.{IsResolved, resolved_row, commit_stop_outcome-IsResolved}

-- A valid outcome is none of the open resolutions.
valid_stop_outcome-ends :
    (expected stage : StopStage) (r : StopResolution)
    → valid_stop_outcome expected stage r ≡ true
    → (is_in_flight r ≡ false) × (requires_human r ≡ false)
unfolding valid_stop_outcome
valid_stop_outcome-ends expected stage termination_confirmed h = (refl, refl)
valid_stop_outcome-ends expected stage target_absent h = (refl, refl)
valid_stop_outcome-ends expected stage call_failed h = (refl, refl)
valid_stop_outcome-ends expected stage confirmation_timeout h = (refl, refl)
valid_stop_outcome-ends expected stage generation_mismatch h = (refl, refl)
valid_stop_outcome-ends expected stage effect_unproven_already_terminated h = (refl, refl)
valid_stop_outcome-ends expected stage call_outcome_unknown h = (refl, refl)
valid_stop_outcome-ends expected stage _ h = absurd (cc)

-- The operation has a stop that is neither in flight nor waiting for a person.
abbrev Ended : Text → Db → Type 0
Ended op d =
    (o : StopRow) × (get_stop_operation_tx op d ≡ ok o)
    × (is_in_flight o.resolution_state ≡ false)
    × (requires_human o.resolution_state ≡ false)

IsResolved-Ended :
    (op : Text) (r : StopTerminalOutcome) (db d : Db) → IsResolved op r db d → Ended op d
IsResolved-Ended op r db d h =
    let (flight, human) = valid_stop_outcome-ends r.expected_stage r.stage r.resolution h.valid in
    (resolved_row h.stop r, h.left, flight, human)

same_stop :
    (op : Text) (d : Db) (h : Ended op d) (o : StopRow)
    → get_stop_operation_tx op d ≡ ok o
    → (is_in_flight o.resolution_state ≡ false) × (requires_human o.resolution_state ≡ false)
same_stop op d (x, got, flight, human) o e =
    let both : Path (Outcome StopRow) (ok x) (ok o) = sym got ∙ e in
    let same : x ≡ o = cc in
    (
      subst (λ y. is_in_flight y.resolution_state ≡ false) same flight,
      subst (λ y. requires_human y.resolution_state ≡ false) same human,
    )

middle_of_three : (a b d : Bool) → (a && b && d) ≡ true → b ≡ true
middle_of_three a b d h = ground arith

one_of_two : (a b d : Bool) → (a && (b || d)) ≡ true → b ≡ false → d ≡ false → ⊥
one_of_two a b d h no_b no_d = ground arith

module _ (c : Codec) where
  outcome-refused :
      (s : Surroundings) (op : Text) (r : StopTerminalOutcome) (db : Db)
      → Ended op db
      → Ensures (λ d. ⊥) (commit_stop_outcome c s op r db)
  unfolding commit_stop_outcome
  outcome-refused s op r db h = Ensures-guard _ _ _ λ given. Ensures-do _ _ λ o got.
      Ensures-then _ _ λ owned. Ensures-guard _ _ _ λ stands.
        let live = middle_of_three _ (is_in_flight o.resolution_state) _ stands in
        let ended = (same_stop op db h o got).0 in absurd (cc)

  acceptance-refused :
      (s : Surroundings) (op : Text) (call_at deadline : Time) (db : Db)
      → Ended op db
      → Ensures (λ d. ⊥) (commit_stop_call_accepted c s op call_at deadline db)
  unfolding commit_stop_call_accepted
  acceptance-refused s op call_at deadline db h = Ensures-guard _ _ _ λ times.
      Ensures-do _ _ λ o got. Ensures-then _ _ λ owned. Ensures-guard _ _ _ λ stands.
        let live = and_right _ (is_in_flight o.resolution_state) stands in
        let ended = (same_stop op db h o got).0 in absurd (cc)

  classification-refused :
      (s : Surroundings) (op session generation actor invocation : Text) (at : Time) (db : Db)
      → Ended op db
      → Ensures
          (λ d. ⊥)
          (classify_abandoned_stop_alive c s op session generation actor invocation at db)
  unfolding classify_abandoned_stop_alive
  classification-refused s op session generation actor invocation at db h =
      Ensures-guard _ _ _ λ given. Ensures-do _ _ λ o got. Ensures-guard _ _ _ λ same.
        Ensures-guard _ _ _ λ stands.
          let (flight, human) = same_stop op db h o got in
          absurd (one_of_two _ (requires_human o.resolution_state) _ stands human flight)

  -- A stop is resolved once: when CommitStopOutcome has returned, neither another outcome of the
  -- operation, nor an acceptance of its call, nor its classification as abandoned returns.
  pub commit_stop_outcome-once :
      (s : Surroundings) (op : Text) (r : StopTerminalOutcome) (db : Db) (s₁ : Surroundings)
      (r₁ : StopTerminalOutcome) (call_at deadline : Time)
      (session generation actor invocation : Text) (at : Time) {d e : Db}
      → commit_stop_outcome c s op r db ≡ ok d
      → ¬ (
          (commit_stop_outcome c s₁ op r₁ d ≡ ok e)
          ⊎ ((commit_stop_call_accepted c s₁ op call_at deadline d ≡ ok e)
              ⊎ (classify_abandoned_stop_alive c s₁ op session generation actor invocation at d
                  ≡ ok e)))
  commit_stop_outcome-once s op r db s₁ r₁ call_at deadline session generation actor invocation at
        {d} {e} resolved again =
      let h : Ended op d =
        IsResolved-Ended op r db d (commit_stop_outcome-IsResolved c s op r db resolved) in
      elim again [
        | inl another ↦ Ensures_elim {Q = λ x. ⊥} (outcome-refused s₁ op r₁ d h) another
        | inr (inl accepted) ↦
            Ensures_elim {Q = λ x. ⊥} (acceptance-refused s₁ op call_at deadline d h) accepted
        | inr (inr classified) ↦
            Ensures_elim {Q = λ x. ⊥}
              (classification-refused s₁ op session generation actor invocation at d h) classified
      ]
