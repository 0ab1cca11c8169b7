-- ===== src/Workflow.antt =====
-- internal/domain/task_state.go and internal/workflow/state_machine.go: the task states and the
-- transitions that the workflow permits.
pub mod Graph
pub mod History
mod Tests
use ai_supervisor.Base.{
  ℕ, Bool, true, false, ◌&&◌, ◌||◌, not, Option, none, some, List, [], ◌∷◌, ◌++◌, map, ◌==◌,
  if◌then◌else◌, ◌≡◌, refl, ◌↔◌, any, arith,
}
use ai_supervisor.Base.Text.{Text, codes, ◌=ᵗ◌, text_eq_iff}
use mathlib.Core.List.{flat_map}

-- A Go string type: `other` holds any string that is none of the 13 constants.
pub data TaskState : Type 0 where
  draft ready dispatched running report_ready evidence_ready reviewing approved : TaskState
  revision_required blocked failed human_required cancelled : TaskState
  other : Text → TaskState

-- The constants' values.
unfoldable pub state_name : TaskState → Text
state_name draft = codes "DRAFT"
state_name ready = codes "READY"
state_name dispatched = codes "DISPATCHED"
state_name running = codes "RUNNING"
state_name report_ready = codes "REPORT_READY"
state_name evidence_ready = codes "EVIDENCE_READY"
state_name reviewing = codes "REVIEWING"
state_name approved = codes "APPROVED"
state_name revision_required = codes "REVISION_REQUIRED"
state_name blocked = codes "BLOCKED"
state_name failed = codes "FAILED"
state_name human_required = codes "HUMAN_REQUIRED"
state_name cancelled = codes "CANCELLED"
state_name (other s) = s

abbrev rank : TaskState → ℕ
rank draft = 0
rank ready = 1
rank dispatched = 2
rank running = 3
rank report_ready = 4
rank evidence_ready = 5
rank reviewing = 6
rank approved = 7
rank revision_required = 8
rank blocked = 9
rank failed = 10
rank human_required = 11
rank cancelled = 12
rank (other s) = 13

abbrev same_spelling : TaskState → TaskState → Bool
same_spelling (other s) t = elim t [ other u ↦ s =ᵗ u | _ ↦ true ]
same_spelling s t = true

-- `==` on states.
infix 50 ◌=ˢ◌
unfoldable pub ◌=ˢ◌ : TaskState → TaskState → Bool
s =ˢ t = rank s == rank t && same_spelling s t

state_eq_sound : (s t : TaskState) → (s =ˢ t) ≡ true → s ≡ t
unfolding ◌=ˢ◌
state_eq_sound (other s) (other t) h = ground (arith, text_eq_iff s t)
state_eq_sound s t h = ground arith

pub state_eq_refl : (s : TaskState) → (s =ˢ s) ≡ true
unfolding ◌=ˢ◌
state_eq_refl (other s) = ground (arith, text_eq_iff s s)
state_eq_refl s = refl

state_eq_complete : (s t : TaskState) → s ≡ t → (s =ˢ t) ≡ true
state_eq_complete s t e = rw e (state_eq_refl t)

pub state_eq_iff : (s t : TaskState) → ((s =ˢ t) ≡ true) ↔ (s ≡ t)
state_eq_iff s t = (state_eq_sound s t, state_eq_complete s t)

-- AllTaskStates
unfoldable pub all_task_states : List TaskState
all_task_states =
    draft ∷ ready ∷ dispatched ∷ running ∷ report_ready ∷ evidence_ready ∷ reviewing ∷ approved
    ∷ revision_required ∷ blocked ∷ failed ∷ human_required ∷ cancelled ∷ []

-- TaskState.IsValid
unfoldable pub is_valid : TaskState → Bool
is_valid (other s) = false
is_valid _ = true

-- TaskState.IsTerminal
unfoldable pub is_terminal : TaskState → Bool
unfolding ◌=ˢ◌
is_terminal s = s =ˢ approved || s =ˢ cancelled

-- The map `allowedTransitions`: the targets of a state, and no entry for an unknown state.
unfoldable pub allowed_transitions : TaskState → Option (List TaskState)
allowed_transitions draft = some (ready ∷ cancelled ∷ [])
allowed_transitions ready = some (dispatched ∷ cancelled ∷ [])
allowed_transitions dispatched = some (running ∷ failed ∷ [])
allowed_transitions running = some (report_ready ∷ failed ∷ blocked ∷ [])
allowed_transitions report_ready = some (evidence_ready ∷ failed ∷ [])
allowed_transitions evidence_ready = some (reviewing ∷ failed ∷ [])
allowed_transitions reviewing = some (approved ∷ revision_required ∷ blocked ∷ [])
allowed_transitions approved = some []
allowed_transitions revision_required = some (ready ∷ [])
allowed_transitions blocked = some (human_required ∷ [])
allowed_transitions failed = some (human_required ∷ ready ∷ [])
allowed_transitions human_required = some (draft ∷ cancelled ∷ [])
allowed_transitions cancelled = some []
allowed_transitions (other s) = none

-- CanTransition
unfoldable pub can_transition : TaskState → TaskState → Bool
unfolding allowed_transitions ◌=ˢ◌
can_transition from to = elim (allowed_transitions from) [
  | none ↦ false
  | some targets ↦ any (λ t. t =ˢ to) targets
]

-- InvalidTransitionError
pub record InvalidTransition : Type 0 where
  pub from : TaskState
  pub to : TaskState

-- Transition: `none` is the nil error.
unfoldable pub transition : TaskState → TaskState → Option InvalidTransition
unfolding can_transition
transition from to =
    if not (can_transition from to) then some (record { from = from; to = to }) else none

targets_of : TaskState → List (TaskState × TaskState)
unfolding allowed_transitions
targets_of from = elim (allowed_transitions from) [
  | none ↦ []
  | some targets ↦ map (λ to. (from, to)) targets
]

-- AllowedTransitions. Go visits a map in no fixed order; here the states come in their order of
-- declaration.
unfoldable pub allowed_transition_list : List (TaskState × TaskState)
unfolding targets_of all_task_states
allowed_transition_list = flat_map targets_of all_task_states

pub record CanonicalEdge : Type 0 where
  pub from : Text
  pub to : Text

abbrev edge : Text → Text → CanonicalEdge
edge a b = record { from = a; to = b }

-- CanonicalGraphEdges
unfoldable pub canonical_graph_edges : List CanonicalEdge
canonical_graph_edges =
    edge (codes "[*]") (codes "DRAFT")
    ∷ edge (codes "DRAFT") (codes "READY")
    ∷ edge (codes "DRAFT") (codes "CANCELLED")
    ∷ edge (codes "READY") (codes "DISPATCHED")
    ∷ edge (codes "READY") (codes "CANCELLED")
    ∷ edge (codes "DISPATCHED") (codes "RUNNING")
    ∷ edge (codes "DISPATCHED") (codes "FAILED")
    ∷ edge (codes "RUNNING") (codes "REPORT_READY")
    ∷ edge (codes "RUNNING") (codes "FAILED")
    ∷ edge (codes "RUNNING") (codes "BLOCKED")
    ∷ edge (codes "REPORT_READY") (codes "EVIDENCE_READY")
    ∷ edge (codes "REPORT_READY") (codes "FAILED")
    ∷ edge (codes "EVIDENCE_READY") (codes "REVIEWING")
    ∷ edge (codes "EVIDENCE_READY") (codes "FAILED")
    ∷ edge (codes "REVIEWING") (codes "APPROVED")
    ∷ edge (codes "REVIEWING") (codes "REVISION_REQUIRED")
    ∷ edge (codes "REVIEWING") (codes "BLOCKED")
    ∷ edge (codes "REVISION_REQUIRED") (codes "READY")
    ∷ edge (codes "BLOCKED") (codes "HUMAN_REQUIRED")
    ∷ edge (codes "FAILED") (codes "HUMAN_REQUIRED")
    ∷ edge (codes "FAILED") (codes "READY")
    ∷ edge (codes "HUMAN_REQUIRED") (codes "DRAFT")
    ∷ edge (codes "HUMAN_REQUIRED") (codes "CANCELLED")
    ∷ edge (codes "APPROVED") (codes "[*]")
    ∷ edge (codes "CANCELLED") (codes "[*]")
    ∷ []
