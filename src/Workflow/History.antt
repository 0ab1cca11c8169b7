-- ===== src/Workflow/History.antt =====
-- The histories of a task: what its states were, newest first, since its creation as DRAFT.
use ai_supervisor.Base.{true, List, [], ◌∷◌, ◌≡◌, ◌≢◌, refl, ap, ◌∙◌, subst, arith}
use ai_supervisor.Workflow.{
  TaskState, draft, ready, dispatched, running, report_ready, evidence_ready, reviewing, approved,
  can_transition,
}

-- The states that a task went through, when each change was permitted.
pub data History : TaskState → List TaskState → Type 0 where
  created : History draft (draft ∷ [])
  moved :
      {s t : TaskState} {h : List TaskState}
      → can_transition s t ≡ true
      → History s h
      → History t (t ∷ h)

-- Where only `s` leads to `t`, a task in `t` was in `s` just before.
History-before :
    (s t : TaskState)
    → ((r : TaskState) → can_transition r t ≡ true → r ≡ s)
    → t ≢ draft
    → {h : List TaskState} → History t h
    → (h' : List TaskState) × (h ≡ t ∷ h') × History s h'
History-before s t only n created = absurd (n refl)
History-before s t only n (moved {s = r} {h} e past) =
    (h, refl, subst (λ x. History x h) (only r e) past)

History-top :
    {t : TaskState} {h : List TaskState} → History t h → (h' : List TaskState) × (h ≡ t ∷ h')
History-top created = ([], refl)
History-top (moved {h} e past) = (h, refl)

to_approved : (r : TaskState) → can_transition r approved ≡ true → r ≡ reviewing
unfolding can_transition
to_approved r e = ground arith

to_reviewing : (r : TaskState) → can_transition r reviewing ≡ true → r ≡ evidence_ready
unfolding can_transition
to_reviewing r e = ground arith

to_evidence_ready : (r : TaskState) → can_transition r evidence_ready ≡ true → r ≡ report_ready
unfolding can_transition
to_evidence_ready r e = ground arith

to_report_ready : (r : TaskState) → can_transition r report_ready ≡ true → r ≡ running
unfolding can_transition
to_report_ready r e = ground arith

to_running : (r : TaskState) → can_transition r running ≡ true → r ≡ dispatched
unfolding can_transition
to_running r e = ground arith

to_dispatched : (r : TaskState) → can_transition r dispatched ≡ true → r ≡ ready
unfolding can_transition
to_dispatched r e = ground arith

below : (s : TaskState) {h h' : List TaskState} → h ≡ h' → s ∷ h ≡ s ∷ h'
below s e = ap (λ x. s ∷ x) e

-- An approved task came, without a detour, through READY, DISPATCHED, RUNNING, REPORT_READY,
-- EVIDENCE_READY and REVIEWING.
pub approval-History :
    {h : List TaskState}
    → History approved h
    → (past : List TaskState) × (h
        ≡ approved ∷ reviewing ∷ evidence_ready ∷ report_ready ∷ running ∷ dispatched ∷ ready
          ∷ past)
approval-History r0 =
    let (h1, e1, r1) = History-before reviewing approved to_approved (λ e. cc) r0 in
    let (h2, e2, r2) = History-before evidence_ready reviewing to_reviewing (λ e. cc) r1 in
    let (h3, e3, r3) = History-before report_ready evidence_ready to_evidence_ready (λ e. cc) r2 in
    let (h4, e4, r4) = History-before running report_ready to_report_ready (λ e. cc) r3 in
    let (h5, e5, r5) = History-before dispatched running to_running (λ e. cc) r4 in
    let (h6, e6, r6) = History-before ready dispatched to_dispatched (λ e. cc) r5 in
    let (h7, e7) = History-top r6 in
    (
      h7,
      e1
          ∙ below approved (
              e2
              ∙ below reviewing (
                  e3
                  ∙ below evidence_ready
                      (e4 ∙ below report_ready (e5 ∙ below running (e6 ∙ below dispatched e7))))),
    )
