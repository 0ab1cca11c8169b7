-- ===== src/Store/Recovery/Verdict/Rows.antt =====
-- The functions of Store/Recovery on an observation, in each case of Store/Recovery/Verdict.
use ai_supervisor.Base.{
  ◌≡◌, refl, sym, ap, ◌∙◌, Bool, true, false, ◌&&◌, ◌||◌, not, Option, none, some, is_some, ◌⊎◌,
  inl, inr, Bool-cases, if◌then◌else◌, then_branch, else_branch, arith,
}
use ai_supervisor.Base.Text.{Text, codes, ◌=ᵗ◌, text_eq_iff, has_text}
use ai_supervisor.Workflow.{dispatched, running, ◌=ˢ◌, state_eq_iff}
use ai_supervisor.Store.Schema.{Time, AttemptRow, SessionRow, quarantined, terminated}
use ai_supervisor.Store.Send.Holds.{recovery_pending}
use ai_supervisor.Store.Recovery.{
  RecoveryExecution, PostSendObservation, terminal_disposition, new_disposition, is_missed_window,
  shows_work, session_absent, stale_execution_generation, worker_termination_unknown,
  missed_active_window,
}
use ai_supervisor.Store.Send.Budget.{is_executing}
use ai_supervisor.Store.Recovery.Observe.{is_pending}
use ai_supervisor.Store.Recovery.Settled.{
  settled_attempt, settled_session, sees_end, settled_attempt-open, settled_attempt-same,
}
use ai_supervisor.Store.Recovery.Verdict.{Missed, Unheld, executing-cases}

none_of : (t : Option Text) → is_some t ≡ false → t ≡ none
none_of none h = refl
none_of (some t) h = absurd (cc)

-- The test of Missed.
abbrev pub misses : RecoveryExecution → PostSendObservation → Bool
misses x o = x.task_state =ˢ dispatched && o.activity =ᵗ codes "idle" && not o.handoff_available

pub misses-Missed :
    (x : RecoveryExecution) (o : PostSendObservation) → misses x o ≡ true → Missed x o
misses-Missed x o h = (
  (state_eq_iff x.task_state dispatched).0 (ground arith),
  (text_eq_iff o.activity (codes "idle")).0 (ground arith),
  ground arith,
)

pub Missed-misses :
    (x : RecoveryExecution) (o : PostSendObservation) → misses x o ≡ false → ¬ Missed x o
Missed-misses x o h (d, i, n) =
    let here = (state_eq_iff x.task_state dispatched).1 d in
    let idle = (text_eq_iff o.activity (codes "idle")).1 i in absurd (ground arith)

pub free-Unheld :
    (x : RecoveryExecution) → (is_some x.disposition && not (is_pending x)) ≡ false → Unheld x
unfolding is_pending recovery_pending
free-Unheld x h = from x.disposition h
  where
    from :
        (d : Option Text)
        → (is_some d && not (has_text d (codes "RECOVERY_PENDING"))) ≡ false
        → (d ≡ none) ⊎ (d ≡ some (codes "RECOVERY_PENDING"))
    from none h = inl refl
    from (some t) h = inr (ap some ((text_eq_iff t (codes "RECOVERY_PENDING")).0 (ground arith)))

pub kept_hold :
    (x : RecoveryExecution)
    → (is_some x.disposition && not (is_pending x)) ≡ true
    → (d : Text) × (x.disposition ≡ some d) × ¬ (d ≡ codes "RECOVERY_PENDING")
unfolding is_pending recovery_pending
kept_hold x h = from x.disposition h
  where
    from :
        (d : Option Text)
        → (is_some d && not (has_text d (codes "RECOVERY_PENDING"))) ≡ true
        → (t : Text) × (d ≡ some t) × ¬ (t ≡ codes "RECOVERY_PENDING")
    from none h = absurd (cc)
    from (some t) h = (
      t,
      refl,
      λ same. let hit = (text_eq_iff t (codes "RECOVERY_PENDING")).1 same in absurd (ground arith),
    )

module _ (x : RecoveryExecution) (o : PostSendObservation) where
  pub vanished_disposition : o.absent ≡ true → terminal_disposition x o ≡ some session_absent
  unfolding terminal_disposition
  vanished_disposition h = rw h refl

  pub replaced_disposition :
      o.absent ≡ false
      → (o.generation =ᵗ x.generation) ≡ false
      → terminal_disposition x o ≡ some stale_execution_generation
  unfolding terminal_disposition
  replaced_disposition h g = rw h (rw g refl)

  pub stopped_disposition :
      o.absent ≡ false
      → (o.generation =ᵗ x.generation) ≡ true
      → o.terminated ≡ true
      → terminal_disposition x o ≡ some worker_termination_unknown
  unfolding terminal_disposition
  stopped_disposition h g t = rw h (rw g (rw t refl))

  pub missed_disposition :
      o.absent ≡ false
      → (o.generation =ᵗ x.generation) ≡ true
      → o.terminated ≡ false
      → misses x o ≡ true
      → terminal_disposition x o ≡ some missed_active_window
  unfolding terminal_disposition
  missed_disposition h g t m = rw h (rw g (rw t (rw m refl)))

  pub no_disposition :
      o.absent ≡ false
      → (o.generation =ᵗ x.generation) ≡ true
      → o.terminated ≡ false
      → misses x o ≡ false
      → terminal_disposition x o ≡ none
  unfolding terminal_disposition
  no_disposition h g t m = rw h (rw g (rw t (rw m refl)))

  pub vanished_end : o.absent ≡ true → sees_end x o ≡ false
  unfolding sees_end
  vanished_end h = ground arith

  pub replaced_end : (o.generation =ᵗ x.generation) ≡ false → sees_end x o ≡ false
  unfolding sees_end
  replaced_end h = ground arith

  pub stopped_end :
      o.absent ≡ false
      → (o.generation =ᵗ x.generation) ≡ true
      → o.terminated ≡ true
      → sees_end x o ≡ true
  unfolding sees_end
  stopped_end h g t = ground arith

  pub missed_end : o.terminated ≡ false → sees_end x o ≡ false
  unfolding sees_end
  missed_end h = ground arith

  pub working_state :
      is_executing x.task_state ≡ true
      → shows_work o ≡ true
      → (if x.task_state =ˢ dispatched && shows_work o then running else x.task_state) ≡ running
  working_state h works = elim (executing-cases x.task_state h) [
    | inl waits ↦
        then_branch (x.task_state =ˢ dispatched && shows_work o) running x.task_state
          (rw ((state_eq_iff x.task_state dispatched).1 waits) (rw works refl))
    | inr runs ↦ rw works (either (x.task_state =ˢ dispatched) runs)
  ]
    where
      either :
          (b : Bool)
          → x.task_state ≡ running
          → (if b && true then running else x.task_state) ≡ running
      either true e = refl
      either false e = e

  pub resting_state :
      shows_work o ≡ false
      → (if x.task_state =ˢ dispatched && shows_work o then running else x.task_state)
        ≡ x.task_state
  resting_state idle =
      else_branch (x.task_state =ˢ dispatched && shows_work o) running x.task_state (ground arith)

  pub open_disposition :
      terminal_disposition x o ≡ none
      → new_disposition x o ≡ (
          if is_missed_window x o
          then some missed_active_window
          else if o.activity =ᵗ codes "waiting_input"
          then some (codes "AO_WAITING_INPUT_OBSERVED")
          else if o.activity =ᵗ codes "blocked"
          then some (codes "AO_BLOCKED_DECISION")
          else none)
  unfolding new_disposition
  open_disposition e = rw e refl

  pub open_attempt :
      (at : Time) (a : AttemptRow)
      → a.recovery_disposition ≡ x.disposition
      → (is_some x.disposition && not (is_pending x)) ≡ false
      → settled_attempt x o at none a ≡ record a { recovery_disposition = new_disposition x o }
  open_attempt at a same free = elim (Bool-cases (is_pending x || is_some (new_disposition x o))) [
    | inl writes ↦ settled_attempt-open x o at a writes
    | inr keeps ↦
        let before : x.disposition ≡ none = none_of _ (ground arith) in
        let after : new_disposition x o ≡ none = none_of _ (ground arith) in
        let unchanged : a.recovery_disposition ≡ new_disposition x o = same ∙ before ∙ sym after in
        settled_attempt-same x o at a keeps ∙ (λ i. record a { recovery_disposition = unchanged i })
  ]

  -- What the dispositions that end the attempt make of it.
  pub vanished_attempt :
      (at : Time) (a : AttemptRow)
      → settled_attempt x o at (some session_absent) a ≡ record a {
        ended_at = some at;
        recovery_disposition = some (codes "SESSION_ABSENT");
        quarantine_state = quarantined;
      }
  unfolding settled_attempt session_absent stale_execution_generation ◌=ᵗ◌
  vanished_attempt at a = refl

  pub replaced_attempt :
      (at : Time) (a : AttemptRow)
      → settled_attempt x o at (some stale_execution_generation) a ≡ record a {
        ended_at = some at;
        recovery_disposition = some (codes "STALE_EXECUTION_GENERATION");
        quarantine_state = quarantined;
      }
  unfolding settled_attempt session_absent stale_execution_generation ◌=ᵗ◌
  replaced_attempt at a = refl

  pub stopped_attempt :
      (at : Time) (a : AttemptRow)
      → settled_attempt x o at (some worker_termination_unknown) a ≡ record a {
        ended_at = some at;
        recovery_disposition = some (codes "WORKER_TERMINATION_UNKNOWN");
      }
  unfolding settled_attempt session_absent stale_execution_generation worker_termination_unknown
      ◌=ᵗ◌
  stopped_attempt at a = refl

  pub missed_attempt :
      (at : Time) (a : AttemptRow)
      → settled_attempt x o at (some missed_active_window) a ≡ record a {
        ended_at = some at;
        recovery_disposition = some (codes "MISSED_ACTIVE_WINDOW");
      }
  unfolding settled_attempt session_absent stale_execution_generation missed_active_window ◌=ᵗ◌
  missed_attempt at a = refl

  -- And of its session.
  pub vanished_session :
      (at : Time) (w : SessionRow)
      → sees_end x o ≡ false
      → settled_session x o at (some session_absent) w
        ≡ record w { quarantine_state = quarantined; updated_at = at }
  unfolding settled_session session_absent stale_execution_generation ◌=ᵗ◌
  vanished_session at w h = rw h refl

  pub replaced_session :
      (at : Time) (w : SessionRow)
      → sees_end x o ≡ false
      → settled_session x o at (some stale_execution_generation) w
        ≡ record w { quarantine_state = quarantined; updated_at = at }
  unfolding settled_session session_absent stale_execution_generation ◌=ᵗ◌
  replaced_session at w h = rw h refl

  pub stopped_session :
      (at : Time) (w : SessionRow)
      → sees_end x o ≡ true
      → settled_session x o at (some worker_termination_unknown) w
        ≡ record w { status = terminated; updated_at = at }
  unfolding settled_session session_absent stale_execution_generation worker_termination_unknown
      ◌=ᵗ◌
  stopped_session at w h = rw h refl

  pub missed_session :
      (at : Time) (w : SessionRow)
      → sees_end x o ≡ false
      → settled_session x o at (some missed_active_window) w ≡ w
  unfolding settled_session session_absent stale_execution_generation missed_active_window ◌=ᵗ◌
  missed_session at w h = rw h refl
