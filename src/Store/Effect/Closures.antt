-- ===== src/Store/Effect/Closures.antt =====
-- The transactions of atomic_transitions.go keep the frame.
use ai_supervisor.Base.{
  All, ap, ◌≡◌, refl, Bool, true, false, ◌&&◌, not, is_some, Bool-cases, inl, inr, Ensures,
  Ensures-guard, Ensures-or_fail, Ensures-do, returns, ok, List, ◌==◌, and_left, if◌then◌else◌,
  arith,
}
use ai_supervisor.Base.Text.{Text, ◌=ᵗ◌}
use ai_supervisor.Base.Table.{update, exists_row}
use ai_supervisor.Base.Table.Laws.{All-update, All-map, updated, Extends, Extends-update, All-pure}
use ai_supervisor.Workflow.{
  TaskState, blocked, failed, human_required, can_transition, state_eq_iff, ◌=ˢ◌,
}
use ai_supervisor.Store.Schema.{ContractRow, Time, TaskRow, AttemptRow, Db, Codec, Surroundings}
use ai_supervisor.Store.Tasks.{is_active_lane}
use ai_supervisor.Store.Closure.{
  is_current_open, move_task, close_attempt, quarantine_attempt_session, requires_double_quarantine,
  atomic_terminal_transition, atomic_attempt_closure_transition,
}
use ai_supervisor.Store.Board.{moved}
use ai_supervisor.Store.Effect.{Attached, SameAttempt, Effect, Effect-refl}
use ai_supervisor.Store.Effect.Steps.{
  Effect-tasks, Effect-attempts, Effect-sessions, Effect-bind, Effect-audit,
  append_audit_event_tx-Effect,
}
use ai_supervisor.Store.Tasks.Laws.{permitted}

-- A conditional update of open attempts that leaves their identities and bindings.
pub close-SameAttempt :
    (p : AttemptRow → Bool) (u : AttemptRow → AttemptRow) (a : AttemptRow)
    → (p a ≡ true → is_some a.ended_at ≡ false)
    → (u a ≡ record a {
      ended_at = (u a).ended_at;
      recovery_disposition = (u a).recovery_disposition;
      quarantine_state = (u a).quarantine_state;
    })
    → SameAttempt a (updated p u a)
close-SameAttempt p u a still e = elim (Bool-cases (p a)) [
  | inl hit ↦ let o = still hit in rw hit (e, λ h. absurd (cc))
  | inr miss ↦ rw miss (refl, λ h. refl)
]

pub Extends-close :
    (p : AttemptRow → Bool) (u : AttemptRow → AttemptRow) (l : List AttemptRow)
    → ((a : AttemptRow) → p a ≡ true → is_some a.ended_at ≡ false)
    → ((a : AttemptRow)
        → u a ≡ record a {
          ended_at = (u a).ended_at;
          recovery_disposition = (u a).recovery_disposition;
          quarantine_state = (u a).quarantine_state;
        })
    → Extends SameAttempt l (update p u l)
Extends-close p u l still e =
    Extends-update SameAttempt p u l (All-pure l λ a. close-SameAttempt p u a (still a) (e a))

-- A change of attempts that leaves their identities leaves their contracts.
pub Attached-close :
    (cs : List ContractRow) (p : AttemptRow → Bool) (u : AttemptRow → AttemptRow)
    (l : List AttemptRow)
    → ((a : AttemptRow)
        → u a ≡ record a {
          ended_at = (u a).ended_at;
          recovery_disposition = (u a).recovery_disposition;
          quarantine_state = (u a).quarantine_state;
        })
    → All (Attached cs) l
    → All (Attached cs) (update p u l)
Attached-close cs p u l e h = All-update (Attached cs) p u l (
    All-map l
      (λ a t. elim (Bool-cases (p a)) [
        | inl hit ↦
            let id : (u a).contract_id ≡ a.contract_id = ap (λ x. x.contract_id) (e a) in
            let task : (u a).task_id ≡ a.task_id = ap (λ x. x.task_id) (e a) in
            rw hit (rw id (rw task t))
        | inr miss ↦ rw miss t
      ])
      h)

-- The third part of a test of four that passed is the open attempt.
pub third_not : (a b d f : Bool) → (a && b && not d && f) ≡ true → d ≡ false
third_not a b d f h = ground arith

pub current-still_open :
    (k attempt_id : Text) (tasks : List TaskRow) (a : AttemptRow)
    → is_current_open k attempt_id tasks a ≡ true
    → is_some a.ended_at ≡ false
unfolding is_current_open
current-still_open k attempt_id tasks a hit =
    third_not (a.attempt_id =ᵗ attempt_id) (a.task_id =ᵗ k) (is_some a.ended_at)
      (exists_row (λ t. t.task_id =ᵗ k && t.current_attempt == a.attempt_number) tasks) hit

module _ (c : Codec) where
  pub move_task-Effect :
      (k : Text) (from to : TaskState) (now : Time) (db : Db)
      → can_transition from to ≡ true
      → is_active_lane to ≡ false
      → Ensures (Effect c db) (move_task k from to now db)
  unfolding move_task
  move_task-Effect k from to now db edge quiet = Ensures-guard _ _ _ λ one. returns (
      Effect-tasks c db
        (moved k from to _ edge (λ r. (refl, refl, refl, omega arith)) (λ busy. absurd (cc))))

  pub close_attempt-Effect :
      (k attempt_id disposition : Text) (q : Bool) (now : Time) (db : Db)
      → Ensures (Effect c db) (close_attempt k attempt_id disposition q now db)
  unfolding close_attempt
  close_attempt-Effect k attempt_id disposition q now db = Ensures-guard _ _ _ λ one. returns (
      Effect-attempts c db
        (Extends-close _ _ db.attempts (current-still_open k attempt_id db.tasks) (λ a. refl))
        (Attached-close db.contracts _ _ db.attempts (λ a. refl)))

  quarantine_attempt_session-Effect :
      (pair_id k attempt_id : Text) (now : Time) (db : Db)
      → Ensures (Effect c db) (quarantine_attempt_session pair_id k attempt_id now db)
  unfolding quarantine_attempt_session
  quarantine_attempt_session-Effect pair_id k attempt_id now db =
      Ensures-guard _ _ _ λ one. returns (Effect-sessions c db _)

  isolated-Effect :
      (q : Bool) (pair_id k attempt_id : Text) (now : Time) (db : Db)
      → Ensures
          (Effect c db)
          (if q then quarantine_attempt_session pair_id k attempt_id now db else ok db)
  isolated-Effect true pair_id k attempt_id now db =
      quarantine_attempt_session-Effect pair_id k attempt_id now db
  isolated-Effect false pair_id k attempt_id now db = returns (Effect-refl c db)

  pub atomic_terminal_transition-Effect :
      (s : Surroundings) (k : Text) (expected to : TaskState) (reason attempt_id disposition : Text)
      (db : Db)
      → Ensures
          (Effect c db)
          (atomic_terminal_transition c s k expected to reason attempt_id disposition db)
  unfolding atomic_terminal_transition
  atomic_terminal_transition-Effect s k expected to reason attempt_id disposition db =
      Ensures-guard _ _ _ λ only. Ensures-guard _ _ _ λ edge. Ensures-guard _ _ _ λ a.
        Ensures-guard _ _ _ λ b. Ensures-or_fail _ _ _ λ event_id drawn. Ensures-do _ _ λ l lineage.
          Effect-bind c _
            (move_task-Effect k expected to s.now db (permitted expected to edge)
              (quiet to (and_left _ _ only)))
            λ d1. Effect-bind c _ (close_attempt-Effect k attempt_id disposition _ s.now d1) λ d2.
              Effect-bind c _
                (isolated-Effect (requires_double_quarantine disposition) l.pair_id k attempt_id
                  s.now d2)
                λ d3.
                  Effect-audit c _ (append_audit_event_tx-Effect c s.now _ d3)
                    λ r. returns (Effect-refl c r.0)
    where
      quiet : (to : TaskState) → (to =ˢ failed) ≡ true → is_active_lane to ≡ false
      quiet to e = rw ((state_eq_iff _ _).0 e) refl

  pub atomic_attempt_closure_transition-Effect :
      (s : Surroundings) (k attempt_id disposition : Text) (db : Db)
      → Ensures (Effect c db) (atomic_attempt_closure_transition c s k attempt_id disposition db)
  unfolding atomic_attempt_closure_transition
  atomic_attempt_closure_transition-Effect s k attempt_id disposition db =
      Ensures-guard _ _ _ λ only. Ensures-or_fail _ _ _ λ event_id drawn.
        Ensures-do _ _ λ l lineage.
          Effect-bind c _
            (move_task-Effect k blocked human_required s.now db (unfold can_transition in refl)
              refl)
            λ d1. Effect-bind c _ (close_attempt-Effect k attempt_id _ false s.now d1) λ d2.
              Effect-audit c _ (append_audit_event_tx-Effect c s.now _ d2)
                λ r. returns (Effect-refl c r.0)
