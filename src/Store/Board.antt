-- ===== src/Store/Board.antt =====
-- The abstract view of the table of tasks that internal/store keeps: tasks are created in DRAFT and
-- move along the workflow's edges, one lane to a pair. The operations of the store refine it.
pub mod Lanes
use ai_supervisor.Base.{
  ℕ, ◌≤◌, ◌+◌, ◌≡◌, refl, sym, subst, ◌⊎◌, inl, inr, Bool, true, false, ◌&&◌, not, Option, some,
  none, List, [], ◌∷◌, if◌then◌else◌, All, Bool-cases, and_left, and_right, arith,
}
use ai_supervisor.Base.Text.{Text, ◌=ᵗ◌, text_eq_iff, text_eq_refl}
use ai_supervisor.Base.Table.{find, exists_row, count, update, insert}
use ai_supervisor.Base.Table.Laws.{
  updated, count-update_le, count-update_mono, count-update_eq, count-insert,
  count-zero_of_not_exists, count-le, All-found, All-pure, All-map, Extends, Extends-refl,
  Extends-insert, Extends-update, Extends-trans,
}
use ai_supervisor.Workflow.{TaskState, draft, can_transition, ◌=ˢ◌, state_eq_iff}
use ai_supervisor.Workflow.Graph.{◌⟶*◌, stay, one_step, ⟶*-trans}
use ai_supervisor.Store.Schema.{TaskRow}
use ai_supervisor.Store.Tasks.{is_active_lane, lane_taken}

abbrev pub has_id : Text → TaskRow → Bool
has_id k t = t.task_id =ᵗ k

-- A task in the active lane of a pair.
abbrev pub in_lane : Text → TaskRow → Bool
in_lane p t = t.pair_id =ᵗ p && is_active_lane t.state

-- A change of a task's row: to a state, with the identities kept and no attempt taken back.
abbrev pub Moves : TaskState → (TaskRow → TaskRow) → Type 0
Moves to u =
    (t : TaskRow)
    → ((u t).task_id ≡ t.task_id)
      × ((u t).pair_id ≡ t.pair_id)
      × ((u t).state ≡ to)
      × (t.current_attempt ≤ (u t).current_attempt)

-- The lane of the pair of a task is free for it.
abbrev pub LaneFree : Text → List TaskRow → Type 0
LaneFree k tasks =
    (t : TaskRow) × (find (has_id k) tasks ≡ some t) × (lane_taken t.pair_id k tasks ≡ false)

-- What a move of a task to `to` asks of the lane.
abbrev pub Admitted : Text → TaskState → TaskState → List TaskRow → Type 0
Admitted k from to tasks =
    is_active_lane to ≡ true → (is_active_lane from ≡ true) ⊎ LaneFree k tasks

pub data Board : List TaskRow → List TaskRow → Type 0 where
  kept : {l : List TaskRow} → Board l l
  created :
      {l : List TaskRow} (t : TaskRow)
      → exists_row (has_id t.task_id) l ≡ false
      → t.state ≡ draft
      → Board l (insert t l)
  moved :
      {l : List TaskRow} (k : Text) (from to : TaskState) (u : TaskRow → TaskRow)
      → can_transition from to ≡ true
      → Moves to u
      → Admitted k from to l
      → Board l (update (λ t. has_id k t && t.state =ˢ from) u l)
  -- A change of any rows of one state, which brings none of them into an active lane.
  shifted :
      {l : List TaskRow} (p : TaskRow → Bool) (from to : TaskState) (u : TaskRow → TaskRow)
      → ((t : TaskRow) → p t ≡ true → t.state ≡ from)
      → can_transition from to ≡ true
      → Moves to u
      → (is_active_lane to ≡ true → is_active_lane from ≡ true)
      → Board l (update p u l)
  after : {l m n : List TaskRow} → Board l m → Board m n → Board l n

-- One row to a task, and one task at most in the active lane of a pair.
pub record IsExclusive (l : List TaskRow) : Type 0 where
  pub one_row : (k : Text) → count (has_id k) l ≤ 1
  pub one_lane : (p : Text) → count (in_lane p) l ≤ 1

-- A later row of a task.
abbrev pub Later : TaskRow → TaskRow → Type 0
Later a b =
    (b.task_id ≡ a.task_id)
    × (b.pair_id ≡ a.pair_id)
    × (a.state ⟶* b.state)
    × (a.current_attempt ≤ b.current_attempt)

pub Later-refl : (a : TaskRow) → Later a a
Later-refl a = (refl, refl, stay, omega arith)

pub Later-trans : (a b c : TaskRow) → Later a b → Later b c → Later a c
Later-trans a b c (i, p, s, n) (j, q, r, m) = (cc, cc, ⟶*-trans s r, omega arith)

shifted-Later :
    (p : TaskRow → Bool) (from to : TaskState) (u : TaskRow → TaskRow) (a : TaskRow)
    → (p a ≡ true → a.state ≡ from)
    → can_transition from to ≡ true
    → Moves to u
    → Later a (updated p u a)
shifted-Later p from to u a own edge m = elim (Bool-cases (p a)) [
  | inl hit ↦
      let (i, pair, s, n) = m a in
      let here : a.state ≡ from = own hit in
      rw hit (
        i,
        pair,
        subst (λ x. a.state ⟶* x) (sym s) (subst (λ x. x ⟶* to) (sym here) (one_step edge)),
        n,
      )
  | inr miss ↦ rw miss (Later-refl a)
]

-- The rows of a move are in the state that it leaves.
pub moves_from :
    (k : Text) (from : TaskState) (a : TaskRow)
    → (has_id k a && a.state =ˢ from) ≡ true
    → a.state ≡ from
moves_from k from a hit = (state_eq_iff a.state from).0 (and_right (has_id k a) _ hit)

-- Every task of the board is still there, further along the workflow's edges.
pub Board-Later : {l m : List TaskRow} → Board l m → Extends Later l m
Board-Later (kept {l}) = Extends-refl Later l Later-refl
Board-Later (created {l} t fresh d) = Extends-insert Later t l Later-refl
Board-Later (moved {l} k from to u edge m adm) = Extends-update Later _ u l (
    All-pure l λ a.
      shifted-Later (λ t. has_id k t && t.state =ˢ from) from to u a (moves_from k from a) edge m)
Board-Later (shifted {l} p from to u own edge m keep) =
    Extends-update Later p u l (All-pure l λ a. shifted-Later p from to u a (own a) edge m)
Board-Later (after {l} {m} {n} b d) =
    Extends-trans Later l m n Later-trans (Board-Later b) (Board-Later d)
