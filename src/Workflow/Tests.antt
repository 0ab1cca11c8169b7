-- ===== src/Workflow/Tests.antt =====
-- The workflow at concrete inputs.
use ai_supervisor.Base.{List, [], ◌∷◌, ◌≡◌, refl, length, some}
use mathlib.Core.List.{flat_map}
use ai_supervisor.Base.Text.{codes}
use ai_supervisor.Workflow.{
  TaskState, draft, ready, dispatched, running, report_ready, evidence_ready, reviewing, approved,
  failed, can_transition, transition, allowed_transition_list, canonical_graph_edges, is_valid,
  other, all_task_states,
}
use ai_supervisor.Workflow.Graph.{can_transition-eq-is_edge, is_edge}
use ai_supervisor.Workflow.History.{History, created, moved, approval-History}

-- TaskStateCount, DomainTransitionCount and CanonicalGraphEdgeCount.
counts :
    (length all_task_states ≡ 13)
    × (length allowed_transition_list ≡ 22)
    × (length canonical_graph_edges ≡ 25)
unfolding all_task_states allowed_transition_list canonical_graph_edges flat_map
counts = (refl, refl, refl)

rejected : transition approved draft ≡ some (record { from = approved; to = draft })
unfolding transition
rejected = refl

unknown_rejected : can_transition (other (codes "PAUSED")) draft ≡ can_transition approved draft
unfolding can_transition
unknown_rejected = refl

can_transition-eq-is_edge_example : can_transition running failed ≡ is_edge running failed
unfolding is_valid
can_transition-eq-is_edge_example = can_transition-eq-is_edge running failed refl refl

abbrev straight : List TaskState
straight =
    approved ∷ reviewing ∷ evidence_ready ∷ report_ready ∷ running ∷ dispatched ∷ ready ∷ draft ∷ []

straight-History : History approved straight
unfolding can_transition
straight-History =
    moved refl (moved refl (moved refl (moved refl (moved refl (moved refl (moved refl created))))))

approval-History_example :
    (past : List TaskState) × (straight
      ≡ approved ∷ reviewing ∷ evidence_ready ∷ report_ready ∷ running ∷ dispatched ∷ ready ∷ past)
approval-History_example = approval-History straight-History
