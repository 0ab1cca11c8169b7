-- ===== src/Workflow/Graph.antt =====
-- The transitions against the canonical graph, and the ways that it leaves open.
use ai_supervisor.Base.{Bool, true, false, ◌&&◌, ◌≡◌, refl, ◌↔◌, any, arith}
use ai_supervisor.Base.Text.{◌=ᵗ◌}
use ai_supervisor.Workflow.{
  TaskState, draft, ready, dispatched, running, report_ready, evidence_ready, reviewing, approved,
  revision_required, blocked, failed, human_required, cancelled, other, state_name, is_valid,
  is_terminal, can_transition, canonical_graph_edges,
}

-- An edge of the list leads from the state to the other.
pub is_edge : TaskState → TaskState → Bool
unfolding canonical_graph_edges ◌=ᵗ◌ state_name
is_edge s t = any (λ e. e.from =ᵗ state_name s && e.to =ᵗ state_name t) canonical_graph_edges

-- Between two of the 13 states, CanTransition allows exactly the edges of CanonicalGraphEdges.
pub can_transition-eq-is_edge :
    (s t : TaskState) → is_valid s ≡ true → is_valid t ≡ true → can_transition s t ≡ is_edge s t
unfolding can_transition is_edge is_valid
can_transition-eq-is_edge s t v w = ground arith

-- A state is terminal exactly if it is one of the 13 and no transition leaves it.
pub is_terminal_iff :
    (s : TaskState)
    → (is_terminal s ≡ true)
      ↔ ((is_valid s ≡ true) × ((t : TaskState) → can_transition s t ≡ false))
unfolding is_terminal is_valid can_transition
is_terminal_iff approved = (λ e. (refl, λ t. refl), λ e. refl)
is_terminal_iff cancelled = (λ e. (refl, λ t. refl), λ e. refl)
is_terminal_iff (other s) = (λ e. cc, λ e. cc e.0)
is_terminal_iff draft = (λ e. cc, λ e. cc (e.1 ready))
is_terminal_iff ready = (λ e. cc, λ e. cc (e.1 dispatched))
is_terminal_iff dispatched = (λ e. cc, λ e. cc (e.1 running))
is_terminal_iff running = (λ e. cc, λ e. cc (e.1 failed))
is_terminal_iff report_ready = (λ e. cc, λ e. cc (e.1 failed))
is_terminal_iff evidence_ready = (λ e. cc, λ e. cc (e.1 failed))
is_terminal_iff reviewing = (λ e. cc, λ e. cc (e.1 approved))
is_terminal_iff revision_required = (λ e. cc, λ e. cc (e.1 ready))
is_terminal_iff blocked = (λ e. cc, λ e. cc (e.1 human_required))
is_terminal_iff failed = (λ e. cc, λ e. cc (e.1 ready))
is_terminal_iff human_required = (λ e. cc, λ e. cc (e.1 draft))

-- Zero or more permitted transitions.
infix 40 ◌⟶*◌
pub data ◌⟶*◌ : TaskState → TaskState → Type 0 where
  stay : {s : TaskState} → s ⟶* s
  step : {s t u : TaskState} → can_transition s t ≡ true → t ⟶* u → s ⟶* u

pub ⟶*-trans : {s t u : TaskState} → s ⟶* t → t ⟶* u → s ⟶* u
⟶*-trans stay r = r
⟶*-trans (step e q) r = step e (⟶*-trans q r)

pub one_step : {s t : TaskState} → can_transition s t ≡ true → s ⟶* t
one_step e = step e stay

-- Transitions lead from every valid state to a terminal state.
pub ⟶*-terminal :
    (s : TaskState) → is_valid s ≡ true → (t : TaskState) × (is_terminal t ≡ true) × (s ⟶* t)
unfolding is_terminal is_valid can_transition
⟶*-terminal approved v = (approved, refl, stay)
⟶*-terminal cancelled v = (cancelled, refl, stay)
⟶*-terminal draft v = (cancelled, refl, one_step refl)
⟶*-terminal ready v = (cancelled, refl, one_step refl)
⟶*-terminal human_required v = (cancelled, refl, one_step refl)
⟶*-terminal failed v = (cancelled, refl, step {t = ready} refl (one_step refl))
⟶*-terminal revision_required v = (cancelled, refl, step {t = ready} refl (one_step refl))
⟶*-terminal blocked v = (cancelled, refl, step {t = human_required} refl (one_step refl))
⟶*-terminal reviewing v = (approved, refl, one_step refl)
⟶*-terminal evidence_ready v = (approved, refl, step {t = reviewing} refl (one_step refl))
⟶*-terminal report_ready v =
    (approved, refl, step {t = evidence_ready} refl (step {t = reviewing} refl (one_step refl)))
⟶*-terminal running v =
    (cancelled, refl, step {t = failed} refl (step {t = ready} refl (one_step refl)))
⟶*-terminal dispatched v =
    (cancelled, refl, step {t = failed} refl (step {t = ready} refl (one_step refl)))
⟶*-terminal (other s) v = absurd (cc)
