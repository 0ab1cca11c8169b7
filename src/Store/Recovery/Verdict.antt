-- ===== src/Store/Recovery/Verdict.antt =====
-- What an observation of ObservePostSend in internal/store/recovery_transactions.go means for the
-- execution: the cases, stated apart from the functions of Store/Recovery.
pub mod Rows
pub mod Cases
use ai_supervisor.Base.{
  ◌≡◌, refl, sym, ap, ◌∙◌, subst, Bool, true, false, ◌&&◌, ◌||◌, not, Option, none, some, is_some,
  ◌⊎◌, inl, inr, Bool-cases, Option-cases, if◌then◌else◌, then_branch, else_branch, arith,
}
use ai_supervisor.Base.Text.{Text, codes, ◌=ᵗ◌, text_eq_iff, has_text}
use ai_supervisor.Workflow.{TaskState, dispatched, running, failed, ◌=ˢ◌, state_eq_iff}
use ai_supervisor.Store.Schema.{Time, AttemptRow, SessionRow, quarantined, terminated}
use ai_supervisor.Store.Send.Holds.{recovery_pending}
use ai_supervisor.Store.Recovery.{
  RecoveryExecution, PostSendObservation, terminal_disposition, new_state, new_disposition,
  is_missed_window, is_known_activity, shows_work, session_absent, stale_execution_generation,
  worker_termination_unknown, missed_active_window,
}
use ai_supervisor.Store.Send.Budget.{is_executing}
use ai_supervisor.Store.Recovery.Observe.{is_settled, is_pending}
use ai_supervisor.Store.Recovery.Settled.{
  settled_attempt, settled_session, sees_end, settled_attempt-open, settled_attempt-same,
}

-- The session that the execution is bound to lives.
pub record Alive (x : RecoveryExecution) (o : PostSendObservation) : Type 0 where
  pub present : o.absent ≡ false
  pub same_generation : o.generation ≡ x.generation
  pub goes_on : o.terminated ≡ false

-- A dispatched execution, whose worker is idle without the hand-off of a report.
abbrev pub Missed : RecoveryExecution → PostSendObservation → Type 0
Missed x o =
    (x.task_state ≡ dispatched) × (o.activity ≡ codes "idle") × (o.handoff_available ≡ false)

-- No hold is on the execution but that of an outage.
abbrev pub Unheld : RecoveryExecution → Type 0
Unheld x = (x.disposition ≡ none) ⊎ (x.disposition ≡ some (codes "RECOVERY_PENDING"))

-- The state of the task, the attempt and the session after an observation of an attempt and a session.
pub data Verdict (x : RecoveryExecution) (o : PostSendObservation) (at : Time) (a : AttemptRow)
    (w : SessionRow) : TaskState → AttemptRow → SessionRow → Type 0 where
  vanished :
      o.absent ≡ true
      → Verdict x o at a w failed
          (record a {
            ended_at = some at;
            recovery_disposition = some (codes "SESSION_ABSENT");
            quarantine_state = quarantined;
          })
          (record w { quarantine_state = quarantined; updated_at = at })
  replaced :
      o.absent ≡ false
      → ¬ (o.generation ≡ x.generation)
      → Verdict x o at a w failed
          (record a {
            ended_at = some at;
            recovery_disposition = some (codes "STALE_EXECUTION_GENERATION");
            quarantine_state = quarantined;
          })
          (record w { quarantine_state = quarantined; updated_at = at })
  stopped :
      o.absent ≡ false
      → o.generation ≡ x.generation
      → o.terminated ≡ true
      → Verdict x o at a w failed
          (record a {
            ended_at = some at;
            recovery_disposition = some (codes "WORKER_TERMINATION_UNKNOWN");
          })
          (record w { status = terminated; updated_at = at })
  missed :
      Alive x o
      → Missed x o
      → Verdict x o at a w failed
          (record a {
            ended_at = some at;
            recovery_disposition = some (codes "MISSED_ACTIVE_WINDOW");
          })
          w
  held :
      {d : Text}
      → Alive x o
      → ¬ Missed x o
      → x.disposition ≡ some d
      → ¬ (d ≡ codes "RECOVERY_PENDING")
      → Verdict x o at a w x.task_state a w
  waits :
      Alive x o
      → Unheld x
      → o.activity ≡ codes "waiting_input"
      → Verdict x o at a w running
          (record a { recovery_disposition = some (codes "AO_WAITING_INPUT_OBSERVED") })
          w
  blocks :
      Alive x o
      → Unheld x
      → o.activity ≡ codes "blocked"
      → Verdict x o at a w running
          (record a { recovery_disposition = some (codes "AO_BLOCKED_DECISION") })
          w
  works :
      Alive x o
      → Unheld x
      → o.activity ≡ codes "active"
      → Verdict x o at a w running (record a { recovery_disposition = none }) w
  hands_off :
      Alive x o
      → Unheld x
      → x.task_state ≡ dispatched
      → o.activity ≡ codes "idle"
      → o.handoff_available ≡ true
      → Verdict x o at a w running
          (record a { recovery_disposition = some (codes "MISSED_ACTIVE_WINDOW") })
          w
  rests :
      Alive x o
      → Unheld x
      → x.task_state ≡ running
      → o.activity ≡ codes "idle"
      → Verdict x o at a w running (record a { recovery_disposition = none }) w
  exits :
      Alive x o
      → Unheld x
      → o.activity ≡ codes "exited"
      → Verdict x o at a w x.task_state (record a { recovery_disposition = none }) w

-- A state, an attempt and a session that equal those of a verdict.
pub Verdict-eq :
    {x : RecoveryExecution} {o : PostSendObservation} {at : Time} {a : AttemptRow} {w : SessionRow}
    {s s₁ : TaskState} {b b₁ : AttemptRow} {v v₁ : SessionRow}
    → Verdict x o at a w s b v
    → s₁ ≡ s
    → b₁ ≡ b
    → v₁ ≡ v
    → Verdict x o at a w s₁ b₁ v₁
Verdict-eq {x} {o} {at} {a} {w} {s} {s₁} {b} {b₁} {v} {v₁} h es eb ev =
    subst (λ y. Verdict x o at a w s₁ b₁ y) (sym ev)
      (subst (λ y. Verdict x o at a w s₁ y v) (sym eb)
        (subst (λ y. Verdict x o at a w y b v) (sym es) h))

pub executing-cases : (t : TaskState) → is_executing t ≡ true → (t ≡ dispatched) ⊎ (t ≡ running)
unfolding is_executing
executing-cases t h = elim (Bool-cases (t =ˢ dispatched)) [
  | inl yes_d ↦ inl ((state_eq_iff t dispatched).0 yes_d)
  | inr no_d ↦ inr ((state_eq_iff t running).0 (ground arith))
]

module _ (x : RecoveryExecution) (o : PostSendObservation) (at : Time) (a : AttemptRow)
    (w : SessionRow) where
  abbrev pub task_after : TaskState
  task_after = if is_settled x o then x.task_state else new_state x o

  abbrev pub attempt_after : AttemptRow
  attempt_after = if is_settled x o then a else settled_attempt x o at (terminal_disposition x o) a

  abbrev pub session_after : SessionRow
  session_after = if is_settled x o then w else settled_session x o at (terminal_disposition x o) w

  -- What a terminal disposition makes of the rows.
  pub terminal_rows :
      {d : Text}
      → terminal_disposition x o ≡ some d
      → (task_after ≡ failed)
        × (attempt_after ≡ settled_attempt x o at (some d) a)
        × (session_after ≡ settled_session x o at (some d) w)
  unfolding is_settled new_state
  terminal_rows {d} e =
      let ends : is_some (terminal_disposition x o) ≡ true = ap is_some e in
      let open_case : (is_some x.disposition
            && not (is_pending x)
            && not (is_some (terminal_disposition x o)))
          ≡ false =
        ground arith in
      (
        else_branch _ _ _ open_case ∙ then_branch _ _ _ ends,
        else_branch _ _ _ open_case ∙ ap (λ t. settled_attempt x o at t a) e,
        else_branch _ _ _ open_case ∙ ap (λ t. settled_session x o at t w) e,
      )

  -- What a hold that outlasts the observation makes of them.
  pub held_rows :
      terminal_disposition x o ≡ none
      → is_some x.disposition ≡ true
      → is_pending x ≡ false
      → (task_after ≡ x.task_state) × (attempt_after ≡ a) × (session_after ≡ w)
  unfolding is_settled
  held_rows e valid other =
      let open_here : is_some (terminal_disposition x o) ≡ false = ap is_some e in
      let settled : (is_some x.disposition
            && not (is_pending x)
            && not (is_some (terminal_disposition x o)))
          ≡ true =
        ground arith in
      (then_branch _ _ _ settled, then_branch _ _ _ settled, then_branch _ _ _ settled)

  -- And what an observation makes of them that keeps the attempt open.
  pub open_rows :
      terminal_disposition x o ≡ none
      → (is_some x.disposition && not (is_pending x)) ≡ false
      → (task_after
          ≡ (if x.task_state =ˢ dispatched && shows_work o then running else x.task_state))
        × (attempt_after ≡ settled_attempt x o at none a)
        × (session_after ≡ w)
  unfolding is_settled new_state settled_session
  open_rows e free =
      let open_here : is_some (terminal_disposition x o) ≡ false = ap is_some e in
      let open_case : (is_some x.disposition
            && not (is_pending x)
            && not (is_some (terminal_disposition x o)))
          ≡ false =
        ground arith in
      (
        else_branch _ _ _ open_case ∙ else_branch _ _ _ open_here,
        else_branch _ _ _ open_case ∙ ap (λ t. settled_attempt x o at t a) e,
        else_branch _ _ _ open_case ∙ ap (λ t. settled_session x o at t w) e,
      )
