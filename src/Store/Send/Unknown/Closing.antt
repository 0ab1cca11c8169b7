-- ===== src/Store/Send/Unknown/Closing.antt =====
-- The updates that end RecordUnknownDelivery of internal/store/dispatch_transactions.go, table by table.
use ai_supervisor.Base.{
  ◌≤◌, ◌≡◌, refl, sym, ap, ◌∙◌, subst, Bool, true, false, ◌&&◌, not, some, List, is_some, and_left,
  and_right, ◌==◌, arith,
}
use ai_supervisor.Base.Text.{Text, ◌=ᵗ◌, text_eq_iff}
use ai_supervisor.Base.Table.{find, count, update}
use ai_supervisor.Base.Table.Laws.{count-update_eq}
use ai_supervisor.Base.Table.Rows.{cas-find}
use ai_supervisor.Workflow.{dispatched, failed, human_required, ◌=ˢ◌, state_eq_iff}
use ai_supervisor.Store.Schema.{
  Time, TaskRow, AttemptRow, SessionRow, DispatchRow, quarantined, is_send_requested,
}
use ai_supervisor.Store.Send.{
  awaits_confirmation, delivery_outcome_unknown, uncertain_delivery_crash,
}

-- The task was DISPATCHED and is HUMAN_REQUIRED.
abbrev pub Escalated : DispatchRow → Time → List TaskRow → List TaskRow → Type 0
Escalated d at before later =
    (t : TaskRow) × (find (λ x. x.task_id =ᵗ d.task_id) before ≡ some t)
    × (t.state ≡ dispatched)
    × (find (λ x. x.task_id =ᵗ d.task_id) later
        ≡ some (record t { state = human_required; updated_at = at }))

-- The attempt was open, and is ended and quarantined.
abbrev pub ClosedUnknown : DispatchRow → Time → List AttemptRow → List AttemptRow → Type 0
ClosedUnknown d at before later =
    (a : AttemptRow) × (find (λ x. x.attempt_id =ᵗ d.attempt_id) before ≡ some a)
    × (is_some a.ended_at ≡ false)
    × (find (λ x. x.attempt_id =ᵗ d.attempt_id) later
        ≡ some (record a {
          ended_at = some at;
          recovery_disposition = some uncertain_delivery_crash;
          quarantine_state = quarantined;
        }))

-- The pair's session is the one of the dispatch, and is quarantined.
abbrev pub Isolated : DispatchRow → Time → List SessionRow → List SessionRow → Type 0
Isolated d at before later =
    (w : SessionRow) × (find (λ x. x.pair_id =ᵗ d.pair_id) before ≡ some w)
    × (w.session_id ≡ d.session_id)
    × (w.terminal_generation ≡ d.terminal_generation)
    × (find (λ x. x.pair_id =ᵗ d.pair_id) later
        ≡ some (record w { quarantine_state = quarantined; updated_at = at }))

-- The two moves of the task, each of one row.
pub escalates :
    (d : DispatchRow) (at : Time) (tasks : List TaskRow)
    → ((k : Text) → count (λ t. t.task_id =ᵗ k) tasks ≤ 1)
    → (count (λ t. t.task_id =ᵗ d.task_id && t.state =ˢ dispatched) tasks == 1) ≡ true
    → (count
          (λ t. t.task_id =ᵗ d.task_id && t.state =ˢ failed)
          (update
            (λ t. t.task_id =ᵗ d.task_id && t.state =ˢ dispatched)
            (λ t. record t { state = failed; updated_at = at })
            tasks)
        == 1)
      ≡ true
    → Escalated d at tasks (
        update
          (λ t. t.task_id =ᵗ d.task_id && t.state =ˢ failed)
          (λ t. record t { state = human_required; updated_at = at })
          (update
            (λ t. t.task_id =ᵗ d.task_id && t.state =ˢ dispatched)
            (λ t. record t { state = failed; updated_at = at })
            tasks))
escalates d at tasks keyed one two =
    let (t, found, hit, moved) =
      cas-find (λ x. x.task_id =ᵗ d.task_id) (λ x. x.task_id =ᵗ d.task_id && x.state =ˢ dispatched)
        (λ x. record x { state = failed; updated_at = at }) tasks (λ x h. and_left _ _ h)
        (λ x. refl) (keyed d.task_id) one in
    let same_count =
      count-update_eq (λ x. x.task_id =ᵗ d.task_id)
        (λ x. x.task_id =ᵗ d.task_id && x.state =ˢ dispatched)
        (λ x. record x { state = failed; updated_at = at }) tasks (λ x. refl) in
    let (u, found2, hit2, moved2) =
      cas-find (λ x. x.task_id =ᵗ d.task_id) (λ x. x.task_id =ᵗ d.task_id && x.state =ˢ failed)
        (λ x. record x { state = human_required; updated_at = at }) _ (λ x h. and_left _ _ h)
        (λ x. refl) (subst (λ n. n ≤ 1) (sym same_count) (keyed d.task_id)) two in
    let same : u ≡ record t { state = failed; updated_at = at } =
      some_injective (sym found2 ∙ moved) in
    (
      t,
      found,
      (state_eq_iff _ _).0 (and_right (t.task_id =ᵗ d.task_id) _ hit),
      moved2
          ∙ ap {A = TaskRow} (λ x. some (record x { state = human_required; updated_at = at }))
              same,
    )
  where
    some_injective : {x y : TaskRow} → some x ≡ some y → x ≡ y
    some_injective e = cc

still_open : (a b d f : Bool) → (a && b && not d && f) ≡ true → d ≡ false
still_open a b d f h = ground arith

first_of : (a b d f : Bool) → (a && b && d && f) ≡ true → a ≡ true
first_of a b d f h = ground arith

parts : (a b d : Bool) → (a && b && d) ≡ true → (a ≡ true) × (b ≡ true) × (d ≡ true)
parts a b d h = (ground arith, ground arith, ground arith)

pub closes :
    (d : DispatchRow) (at : Time) (l : List AttemptRow) (e : AttemptRow → Bool)
    → count (λ r. r.attempt_id =ᵗ d.attempt_id) l ≤ 1
    → (count
          (λ r.
            r.attempt_id =ᵗ d.attempt_id
            && r.task_id =ᵗ d.task_id
            && not (is_some r.ended_at)
            && e r)
          l
        == 1)
      ≡ true
    → ClosedUnknown d at l (
        update
          (λ r.
            r.attempt_id =ᵗ d.attempt_id
            && r.task_id =ᵗ d.task_id
            && not (is_some r.ended_at)
            && e r)
          (λ r. record r {
            ended_at = some at;
            recovery_disposition = some uncertain_delivery_crash;
            quarantine_state = quarantined;
          })
          l)
closes d at l e unique one =
    let (a, found, hit, closed) =
      cas-find (λ x. x.attempt_id =ᵗ d.attempt_id) _ _ l (λ x h. first_of _ _ _ _ h) (λ x. refl)
        unique one in
    (
      a,
      found,
      still_open (a.attempt_id =ᵗ d.attempt_id) (a.task_id =ᵗ d.task_id) (is_some a.ended_at) (e a)
          hit,
      closed,
    )

pub isolates :
    (d : DispatchRow) (at : Time) (l : List SessionRow)
    → count (λ w. w.pair_id =ᵗ d.pair_id) l ≤ 1
    → (count
          (λ w.
            w.pair_id =ᵗ d.pair_id
            && w.session_id =ᵗ d.session_id
            && w.terminal_generation =ᵗ d.terminal_generation)
          l
        == 1)
      ≡ true
    → Isolated d at l (
        update
          (λ w.
            w.pair_id =ᵗ d.pair_id
            && w.session_id =ᵗ d.session_id
            && w.terminal_generation =ᵗ d.terminal_generation)
          (λ w. record w { quarantine_state = quarantined; updated_at = at })
          l)
isolates d at l unique one =
    let (w, found, hit, isolated) =
      cas-find (λ x. x.pair_id =ᵗ d.pair_id) _ _ l (λ x h. (parts _ _ _ h).0) (λ x. refl) unique
        one in
    let (pair, session, generation) =
      parts (w.pair_id =ᵗ d.pair_id) (w.session_id =ᵗ d.session_id)
        (w.terminal_generation =ᵗ d.terminal_generation) hit in
    (w, found, (text_eq_iff _ _).0 session, (text_eq_iff _ _).0 generation, isolated)

-- The dispatch was waiting for its confirmation, and is resolved.
abbrev pub Resolved : DispatchRow → List DispatchRow → List DispatchRow → Type 0
Resolved d before later =
    (r : DispatchRow) × (find (λ x. x.operation_id =ᵗ d.operation_id) before ≡ some r)
    × (is_send_requested r.stage ≡ true)
    × (find (λ x. x.operation_id =ᵗ d.operation_id) later
        ≡ some (record r { resolution_state = some delivery_outcome_unknown }))

pub resolves :
    (d : DispatchRow) (l : List DispatchRow)
    → count (λ r. r.operation_id =ᵗ d.operation_id) l ≤ 1
    → (count (awaits_confirmation d.operation_id) l == 1) ≡ true
    → Resolved d l (
        update
          (awaits_confirmation d.operation_id)
          (λ r. record r { resolution_state = some delivery_outcome_unknown })
          l)
unfolding awaits_confirmation
resolves d l unique one =
    let (r, found, hit, resolved) =
      cas-find (λ x. x.operation_id =ᵗ d.operation_id) _ _ l (λ x h. (parts _ _ _ h).0) (λ x. refl)
        unique one in
    (
      r,
      found,
      (parts (r.operation_id =ᵗ d.operation_id) (is_send_requested r.stage)
          (not (is_some r.resolution_state)) hit).1,
      resolved,
    )
