-- ===== src/Store/Recovery/Verdict/Cases.antt =====
-- Each observation of ObservePostSend in internal/store/recovery_transactions.go has its case of
-- Store/Recovery/Verdict.
use ai_supervisor.Base.{
  ◌≡◌, refl, ap, ◌∙◌, Bool, true, false, ◌&&◌, ◌||◌, not, Option, none, some, is_some, ◌⊎◌, inl,
  inr, Bool-cases, if◌then◌else◌, else_branch, then_branch, arith,
}
use ai_supervisor.Base.Text.{Text, codes, ◌=ᵗ◌, text_eq_iff}
use ai_supervisor.Workflow.{TaskState, dispatched, running, ◌=ˢ◌, state_eq_iff}
use ai_supervisor.Store.Schema.{Time, AttemptRow, SessionRow}
use ai_supervisor.Store.Recovery.{
  RecoveryExecution, PostSendObservation, terminal_disposition, new_disposition, is_missed_window,
  is_known_activity, shows_work, missed_active_window,
}
use ai_supervisor.Store.Send.Budget.{is_executing}
use ai_supervisor.Store.Recovery.Observe.{is_pending}
use ai_supervisor.Store.Recovery.Verdict.{
  Alive, Unheld, Verdict, vanished, replaced, stopped, missed, held, waits, blocks, works,
  hands_off, rests, exits, Verdict-eq, executing-cases, task_after, attempt_after, session_after,
  terminal_rows, held_rows, open_rows,
}
use ai_supervisor.Store.Recovery.Verdict.Rows.{
  misses, misses-Missed, Missed-misses, free-Unheld, kept_hold, vanished_disposition,
  replaced_disposition, stopped_disposition, missed_disposition, no_disposition, vanished_end,
  replaced_end, stopped_end, missed_end, working_state, resting_state, open_disposition,
  open_attempt, vanished_attempt, replaced_attempt, stopped_attempt, missed_attempt,
  vanished_session, replaced_session, stopped_session, missed_session,
}

-- What the comparisons with the other activities say of one.
record Flags (t : Text) (waiting blocked active idle : Bool) : Type 0 where
  on_waiting : (t =ᵗ codes "waiting_input") ≡ waiting
  on_blocked : (t =ᵗ codes "blocked") ≡ blocked
  on_active : (t =ᵗ codes "active") ≡ active
  on_idle : (t =ᵗ codes "idle") ≡ idle

compared-Flags :
    (t k : Text) {a b d e : Bool}
    → t ≡ k
    → (k =ᵗ codes "waiting_input") ≡ a
    → (k =ᵗ codes "blocked") ≡ b
    → (k =ᵗ codes "active") ≡ d
    → (k =ᵗ codes "idle") ≡ e
    → Flags t a b d e
compared-Flags t k same ea eb ed ee = record {
  on_waiting = ap (λ y. y =ᵗ codes "waiting_input") same ∙ ea;
  on_blocked = ap (λ y. y =ᵗ codes "blocked") same ∙ eb;
  on_active = ap (λ y. y =ᵗ codes "active") same ∙ ed;
  on_idle = ap (λ y. y =ᵗ codes "idle") same ∙ ee;
}

waiting-Flags : (t : Text) → t ≡ codes "waiting_input" → Flags t true false false false
unfolding ◌=ᵗ◌
waiting-Flags t e = compared-Flags t (codes "waiting_input") e refl refl refl refl

blocked-Flags : (t : Text) → t ≡ codes "blocked" → Flags t false true false false
unfolding ◌=ᵗ◌
blocked-Flags t e = compared-Flags t (codes "blocked") e refl refl refl refl

active-Flags : (t : Text) → t ≡ codes "active" → Flags t false false true false
unfolding ◌=ᵗ◌
active-Flags t e = compared-Flags t (codes "active") e refl refl refl refl

idle-Flags : (t : Text) → t ≡ codes "idle" → Flags t false false false true
unfolding ◌=ᵗ◌
idle-Flags t e = compared-Flags t (codes "idle") e refl refl refl refl

exited-Flags : (t : Text) → t ≡ codes "exited" → Flags t false false false false
unfolding ◌=ᵗ◌
exited-Flags t e = compared-Flags t (codes "exited") e refl refl refl refl

known-cases :
    (t : Text)
    → is_known_activity t ≡ true
    → ((t ≡ codes "waiting_input") ⊎ (t ≡ codes "blocked"))
      ⊎ ((t ≡ codes "active") ⊎ ((t ≡ codes "idle") ⊎ (t ≡ codes "exited")))
unfolding is_known_activity
known-cases t h = elim (Bool-cases (t =ᵗ codes "waiting_input")) [
  | inl e ↦ inl (inl ((text_eq_iff _ _).0 e))
  | inr n1 ↦ elim (Bool-cases (t =ᵗ codes "blocked")) [
    | inl e ↦ inl (inr ((text_eq_iff _ _).0 e))
    | inr n2 ↦ elim (Bool-cases (t =ᵗ codes "active")) [
      | inl e ↦ inr (inl ((text_eq_iff _ _).0 e))
      | inr n3 ↦ elim (Bool-cases (t =ᵗ codes "idle")) [
        | inl e ↦ inr (inr (inl ((text_eq_iff _ _).0 e)))
        | inr n4 ↦ inr (inr (inr ((text_eq_iff t (codes "exited")).0 (ground arith))))
      ]
    ]
  ]
]

module _ (x : RecoveryExecution) (o : PostSendObservation) where
  -- Whether a worker shows work, by its activity.
  shows :
      {a b d e : Bool}
      → Flags o.activity a b d e
      → shows_work o ≡ (d || a || b || e && o.handoff_available)
  unfolding shows_work
  shows f = rw f.on_active (rw f.on_waiting (rw f.on_blocked (rw f.on_idle refl)))

  -- The disposition after an observation of another activity than idle.
  busy_disposition :
      {a b d : Bool}
      → terminal_disposition x o ≡ none
      → Flags o.activity a b d false
      → new_disposition x o ≡ (
          if a
          then some (codes "AO_WAITING_INPUT_OBSERVED")
          else if b
          then some (codes "AO_BLOCKED_DECISION")
          else none)
  unfolding is_missed_window
  busy_disposition e f =
      let other : (x.task_state =ˢ dispatched
            && o.activity =ᵗ codes "idle"
            && o.generation =ᵗ x.generation
            && not o.absent
            && not o.terminated)
          ≡ false =
        rw f.on_idle (ground arith) in
      open_disposition x o e ∙ else_branch _ _ _ other ∙ rw f.on_waiting (rw f.on_blocked refl)

  idle_disposition :
      terminal_disposition x o ≡ none
      → Flags o.activity false false false true
      → is_missed_window x o ≡ false
      → new_disposition x o ≡ none
  idle_disposition e f other =
      open_disposition x o e ∙ else_branch _ _ _ other ∙ rw f.on_waiting (rw f.on_blocked refl)

  window_open :
      Alive x o
      → Flags o.activity false false false true
      → x.task_state ≡ dispatched
      → is_missed_window x o ≡ true
  unfolding is_missed_window
  window_open h f e =
      let here = (state_eq_iff x.task_state dispatched).1 e in
      let same = (text_eq_iff o.generation x.generation).1 h.same_generation in
      rw here (rw f.on_idle (rw same (rw h.present (rw h.goes_on refl))))

  window_shut : x.task_state ≡ running → is_missed_window x o ≡ false
  unfolding is_missed_window ◌=ˢ◌
  window_shut e = rw e refl

missed_name : missed_active_window ≡ codes "MISSED_ACTIVE_WINDOW"
unfolding missed_active_window
missed_name = refl

-- The state of an execution that runs, when no work shows.
stays_running :
    (x : RecoveryExecution) (b : Bool)
    → x.task_state ≡ running
    → (if x.task_state =ˢ dispatched && b then running else x.task_state) ≡ running
stays_running x b e = either (x.task_state =ˢ dispatched && b)
  where
    either : (t : Bool) → (if t then running else x.task_state) ≡ running
    either true = refl
    either false = e

module _ (x : RecoveryExecution) (o : PostSendObservation) (at : Time) (a : AttemptRow)
    (w : SessionRow) (same : a.recovery_disposition ≡ x.disposition)
    (executes : is_executing x.task_state ≡ true) where
  abbrev After : Type 0
  After =
      Verdict x o at a w (task_after x o at a w) (attempt_after x o at a w)
        (session_after x o at a w)

  on_vanished : o.absent ≡ true → After
  on_vanished h =
      let (s, b, v) = terminal_rows x o at a w (vanished_disposition x o h) in
      Verdict-eq (vanished h) s (b ∙ vanished_attempt x o at a)
        (v ∙ vanished_session x o at w (vanished_end x o h))

  on_replaced : o.absent ≡ false → (o.generation =ᵗ x.generation) ≡ false → After
  on_replaced h g =
      let (s, b, v) = terminal_rows x o at a w (replaced_disposition x o h g) in
      let other : ¬ (o.generation ≡ x.generation) =
        λ e. let hit = (text_eq_iff o.generation x.generation).1 e in absurd (cc) in
      Verdict-eq (replaced h other) s (b ∙ replaced_attempt x o at a)
        (v ∙ replaced_session x o at w (replaced_end x o g))

  on_stopped :
      o.absent ≡ false → (o.generation =ᵗ x.generation) ≡ true → o.terminated ≡ true → After
  on_stopped h g t =
      let (s, b, v) = terminal_rows x o at a w (stopped_disposition x o h g t) in
      Verdict-eq (stopped h ((text_eq_iff _ _).0 g) t) s (b ∙ stopped_attempt x o at a)
        (v ∙ stopped_session x o at w (stopped_end x o h g t))

  on_missed : Alive x o → misses x o ≡ true → After
  on_missed h m =
      let g = (text_eq_iff o.generation x.generation).1 h.same_generation in
      let (s, b, v) = terminal_rows x o at a w (missed_disposition x o h.present g h.goes_on m) in
      Verdict-eq (missed h (misses-Missed x o m)) s (b ∙ missed_attempt x o at a)
        (v ∙ missed_session x o at w (missed_end x o h.goes_on))

  on_held :
      Alive x o
      → misses x o ≡ false
      → terminal_disposition x o ≡ none
      → (is_some x.disposition && not (is_pending x)) ≡ true
      → After
  on_held h m none_ends keeps =
      let (d, has, other) = kept_hold x keeps in
      let (s, b, v) = held_rows x o at a w none_ends (ground arith) (ground arith) in
      Verdict-eq (held h (Missed-misses x o m) has other) s b v

  -- The rows of an attempt that stays open, from the new state and the new disposition.
  kept_open :
      {s : TaskState} {d : Option Text}
      → terminal_disposition x o ≡ none
      → (is_some x.disposition && not (is_pending x)) ≡ false
      → (if x.task_state =ˢ dispatched && shows_work o then running else x.task_state) ≡ s
      → new_disposition x o ≡ d
      → Verdict x o at a w s (record a { recovery_disposition = d }) w
      → After
  kept_open none_ends free es ed h =
      let (s, b, v) = open_rows x o at a w none_ends free in
      Verdict-eq h (s ∙ es)
        (b ∙ open_attempt x o at a same free ∙ (λ i. record a { recovery_disposition = ed i })) v

  on_open :
      Alive x o
      → misses x o ≡ false
      → terminal_disposition x o ≡ none
      → (is_some x.disposition && not (is_pending x)) ≡ false
      → is_known_activity o.activity ≡ true
      → After
  on_open h m none_ends free known =
      let unheld = free-Unheld x free in
      elim (known-cases o.activity known) [
        | inl (inl act) ↦
            let f = waiting-Flags o.activity act in
            kept_open none_ends free (working_state x o executes (shows x o f))
              (busy_disposition x o none_ends f) (waits h unheld act)
        | inl (inr act) ↦
            let f = blocked-Flags o.activity act in
            kept_open none_ends free (working_state x o executes (shows x o f))
              (busy_disposition x o none_ends f) (blocks h unheld act)
        | inr (inl act) ↦
            let f = active-Flags o.activity act in
            kept_open none_ends free (working_state x o executes (shows x o f))
              (busy_disposition x o none_ends f) (works h unheld act)
        | inr (inr (inl act)) ↦ on_idle h m none_ends free unheld act
        | inr (inr (inr act)) ↦
            let f = exited-Flags o.activity act in
            kept_open none_ends free (resting_state x o (shows x o f))
              (busy_disposition x o none_ends f) (exits h unheld act)
      ]
    where
      on_idle :
          Alive x o
          → misses x o ≡ false
          → terminal_disposition x o ≡ none
          → (is_some x.disposition && not (is_pending x)) ≡ false
          → Unheld x
          → o.activity ≡ codes "idle"
          → After
      on_idle h m none_ends free unheld act =
          let f = idle-Flags o.activity act in
          elim (executing-cases x.task_state executes) [
            | inl waits_for ↦
                let here = (state_eq_iff x.task_state dispatched).1 waits_for in
                let idle = (text_eq_iff o.activity (codes "idle")).1 act in
                let handed : o.handoff_available ≡ true = ground arith in
                kept_open none_ends free (working_state x o executes (shows x o f ∙ handed))
                  (open_disposition x o none_ends
                    ∙ then_branch _ _ _ (window_open x o h f waits_for)
                    ∙ ap some missed_name)
                  (hands_off h unheld waits_for act handed)
            | inr runs ↦
                kept_open none_ends free (stays_running x (shows_work o) runs)
                  (idle_disposition x o none_ends f (window_shut x o runs))
                  (rests h unheld runs act)
          ]

  -- The case of an observation, from the tests of the code.
  pub after-Verdict :
      (is_some (terminal_disposition x o) || is_known_activity o.activity) ≡ true → After
  after-Verdict known = elim (Bool-cases o.absent) [
    | inl gone ↦ on_vanished gone
    | inr present ↦ elim (Bool-cases (o.generation =ᵗ x.generation)) [
      | inr other ↦ on_replaced present other
      | inl here ↦ elim (Bool-cases o.terminated) [
        | inl over ↦ on_stopped present here over
        | inr goes_on ↦
            let h : Alive x o = record {
              present = present;
              same_generation = (text_eq_iff _ _).0 here;
              goes_on = goes_on;
            } in
            elim (Bool-cases (misses x o)) [
              | inl m ↦ on_missed h m
              | inr m ↦
                  let none_ends = no_disposition x o present here goes_on m in
                  let open_here : is_some (terminal_disposition x o) ≡ false =
                    ap is_some none_ends in
                  elim (Bool-cases (is_some x.disposition && not (is_pending x))) [
                    | inl keeps ↦ on_held h m none_ends keeps
                    | inr free ↦ on_open h m none_ends free (ground arith)
                  ]
            ]
      ]
    ]
  ]
