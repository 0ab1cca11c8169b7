-- ===== src/Store/Send/Holds.antt =====
-- internal/store/dispatch_transactions.go, before the send: RecordPreSendHold,
-- RecordPreSendAdmissibilityRejected and ResolvePreSendHold.
use ai_supervisor.Base.{
  Bool, true, false, ◌&&◌, ◌||◌, not, Option, none, some, [], ◌∷◌, ok, ◌>>=◌, ◌>>◌, guard, or_fail,
  ◌==◌, if◌then◌else◌, is_some,
}
use ai_supervisor.Base.Text.{Text, codes, ◌=ᵗ◌, is_empty, has_text}
use ai_supervisor.Base.Table.{find, count, update}
use ai_supervisor.Store.Schema.{
  Time, or_now, Outcome, Codec, Surroundings, Detail, AttemptRow, Db, is_bound, invalid_argument,
  operation_not_found, state_conflict, attempt_lineage_mismatch, system_error,
}
use ai_supervisor.Store.Audit.{append_audit_event_tx}
use ai_supervisor.Store.Send.{
  lineage_event, lineage_of, dispatch_by_id, attempt_by_id, is_admissible,
}

unfoldable pub audit_pre_send_admissibility_rejected : Text
audit_pre_send_admissibility_rejected = codes "PRE_SEND_ADMISSIBILITY_REJECTED"

unfoldable pub audit_pre_send_status_recovered : Text
audit_pre_send_status_recovered = codes "PRE_SEND_STATUS_RECOVERED"

unfoldable pub recovery_pending : Text
recovery_pending = codes "RECOVERY_PENDING"

unfoldable pub pre_send_protocol_unverified : Text
pre_send_protocol_unverified = codes "PRE_SEND_PROTOCOL_UNVERIFIED"

unfoldable pub is_hold : Text → Bool
is_hold d = d =ᵗ recovery_pending || d =ᵗ pre_send_protocol_unverified

-- `current.String == disposition`: the hold is recorded already.
unfoldable pub already_held : Option Text → Text → Bool
already_held none disposition = false
already_held (some s) disposition = s =ᵗ disposition

-- A hold that is in force only gives way to protocol uncertainty, which gives way to none.
unfoldable pub may_hold : Option Text → Text → Bool
may_hold none disposition = true
may_hold (some s) disposition =
    not (s =ᵗ pre_send_protocol_unverified || not (disposition =ᵗ pre_send_protocol_unverified))

-- SQL's IS between two nullable texts.
unfoldable pub same_text : Option Text → Option Text → Bool
same_text none none = true
same_text (some s) (some t) = s =ᵗ t
same_text _ _ = false

unfoldable pub may_reject : Text → Bool
may_reject activity =
    activity =ᵗ codes "active" || activity =ᵗ codes "blocked" || activity =ᵗ codes "exited"

-- The open attempt with the hold that the update expects, and with the bound session.
unfoldable pub holds : Text → Option Text → Text → Text → AttemptRow → Bool
holds attempt_id current session_id generation a =
    a.attempt_id =ᵗ attempt_id
    && not (is_some a.ended_at)
    && same_text a.recovery_disposition current
    && has_text a.session_id session_id
    && has_text a.terminal_generation generation

-- The conditional update of the hold, of exactly one attempt.
unfoldable pub set_hold : Text → Option Text → Text → Text → Option Text → Db → Outcome Db
set_hold attempt_id current session_id generation disposition db = do
  let cas = holds attempt_id current session_id generation
  guard (count cas db.attempts == 1) state_conflict
  ok (record db {
    attempts = update cas (λ a. record a { recovery_disposition = disposition }) db.attempts;
  })

module _ (c : Codec) (s : Surroundings) where
  -- RecordPreSendHold
  unfoldable pub record_pre_send_hold : Text → Text → Text → Time → Db → Outcome Db
  record_pre_send_hold operation_id disposition actor at₀ db = do
    guard (is_hold disposition && not (is_empty actor)) invalid_argument
    let at = or_now s.now at₀
    event_id ← or_fail (s.new_event_id 0) system_error
    d ← or_fail (dispatch_by_id operation_id db) operation_not_found
    a ← or_fail (attempt_by_id d.attempt_id db) operation_not_found
    guard (is_bound d.stage) state_conflict
    let write = do
      guard (may_hold a.recovery_disposition disposition) state_conflict
      audited ←
          append_audit_event_tx c s.now
            (lineage_event event_id audit_pre_send_admissibility_rejected at (lineage_of d a) actor
              ((codes "dispatch_operation_id", Detail.text operation_id)
                ∷ (codes "pre_send_disposition", Detail.text disposition)
                ∷ []))
            db
      set_hold d.attempt_id a.recovery_disposition d.session_id d.terminal_generation
          (some disposition) audited.0
    if already_held a.recovery_disposition disposition then ok db else write

  -- RecordPreSendAdmissibilityRejected: evidence only.
  unfoldable pub record_pre_send_admissibility_rejected :
      Text → Text → Text → Time → Db → Outcome Db
  record_pre_send_admissibility_rejected operation_id observed_activity actor at₀ db = do
    guard (may_reject observed_activity) invalid_argument
    guard (not (is_empty actor)) invalid_argument
    let at = or_now s.now at₀
    event_id ← or_fail (s.new_event_id 0) system_error
    d ← or_fail (dispatch_by_id operation_id db) attempt_lineage_mismatch
    a ←
        or_fail (find (λ r. r.attempt_id =ᵗ d.attempt_id && not (is_some r.ended_at)) db.attempts)
          attempt_lineage_mismatch
    guard (is_bound d.stage) state_conflict
    audited ←
        append_audit_event_tx c s.now
          (lineage_event event_id audit_pre_send_admissibility_rejected at (lineage_of d a) actor (
            (codes "operation_id", Detail.text operation_id)
            ∷ (codes "error_code", Detail.text audit_pre_send_admissibility_rejected)
            ∷ (codes "observed_activity", Detail.text observed_activity)
            ∷ (codes "task_state", Detail.text (codes "DISPATCHED"))
            ∷ (codes "attempt_remains_open", Detail.flag true)
            ∷ []))
          db
    ok audited.0

  -- ResolvePreSendHold
  unfoldable pub resolve_pre_send_hold :
      Text → Text → Text → Text → Text → Text → Text → Text → Time → Db → Outcome Db
  resolve_pre_send_hold operation_id attempt_id expected session_id generation activity principal
        actor at₀ db =
      do
        guard
            (not (
              is_empty attempt_id
              || is_empty session_id
              || is_empty generation
              || is_empty actor
              || not (is_admissible activity)
              || (not (expected =ᵗ recovery_pending) && is_empty principal)))
            invalid_argument
        guard (is_hold expected) invalid_argument
        let at = or_now s.now at₀
        event_id ← or_fail (s.new_event_id 0) system_error
        a ← or_fail (attempt_by_id attempt_id db) attempt_lineage_mismatch
        t ← or_fail (find (λ r. r.task_id =ᵗ a.task_id) db.tasks) attempt_lineage_mismatch
        d ← or_fail (dispatch_by_id operation_id db) attempt_lineage_mismatch
        guard
            (d.attempt_id =ᵗ attempt_id
              && is_bound d.stage
              && d.task_id =ᵗ a.task_id
              && d.pair_id =ᵗ t.pair_id
              && has_text a.session_id d.session_id
              && has_text a.terminal_generation d.terminal_generation
              && a.attempt_number == t.current_attempt
              && not (is_some a.ended_at))
            attempt_lineage_mismatch
        guard
            (has_text a.recovery_disposition expected
              && has_text a.session_id session_id
              && has_text a.terminal_generation generation)
            state_conflict
        w ← or_fail (find (λ r. r.pair_id =ᵗ t.pair_id) db.sessions) system_error
        guard (w.session_id =ᵗ session_id && w.terminal_generation =ᵗ generation) state_conflict
        audited ←
            append_audit_event_tx c s.now
              (lineage_event event_id audit_pre_send_status_recovered at
                (record {
                  pair_id = t.pair_id;
                  task_id = a.task_id;
                  contract_id = a.contract_id;
                  attempt_id = attempt_id;
                })
                actor
                ((codes "expected_disposition", Detail.text expected)
                  ∷ (codes "session_id", Detail.text session_id)
                  ∷ (codes "terminal_generation", Detail.text generation)
                  ∷ (codes "activity_state", Detail.text activity)
                  ∷ (codes "authorized_principal", Detail.text principal)
                  ∷ []))
              db
        set_hold attempt_id (some expected) session_id generation none audited.0
