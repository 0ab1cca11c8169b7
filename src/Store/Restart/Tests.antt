-- ===== src/Store/Restart/Tests.antt =====
-- The theorem on internal/store/recovery.go at a task that is DISPATCHED and has its open attempt.
use ai_supervisor.Base.{◌≡◌, ◌↔◌, ◌&&◌, not, none, false, length, ◌==◌}
use ai_supervisor.Base.Text.{◌=ᵗ◌}
use ai_supervisor.Base.Table.{exists_row, count}
use ai_supervisor.Base.Table.Rows.{count-length}
use ai_supervisor.Workflow.{dispatched, ◌=ˢ◌}
use ai_supervisor.Store.Schema.{empty_db}
use ai_supervisor.Store.Recovery.Tests.{sent_db}
use ai_supervisor.Store.Restart.{classify_restart_recovery}
use ai_supervisor.Store.Restart.Open.{has_open_attempt, classify_restart_recovery_iff}

classify_restart_recovery_iff_example :
    (length (classify_restart_recovery sent_db).0
      ≡ count (λ t. t.state =ˢ dispatched) sent_db.tasks)
    × (((classify_restart_recovery sent_db).1 ≡ none) ↔ (
        exists_row (λ t. t.state =ˢ dispatched && not (has_open_attempt sent_db t)) sent_db.tasks
        ≡ false))
unfolding empty_db
classify_restart_recovery_iff_example = classify_restart_recovery_iff sent_db (λ t.
    count-length (λ a. a.task_id =ᵗ t.task_id && a.attempt_number == t.current_attempt)
      sent_db.attempts)
