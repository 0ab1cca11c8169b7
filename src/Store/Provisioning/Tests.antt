-- ===== src/Store/Provisioning/Tests.antt =====
-- The theorems on internal/store/provisioning_transactions.go and on the update of a session at concrete
-- inputs: the session of a pair is reserved, confirmed and then found idle, or its creation fails.
use ai_supervisor.Base.{
  ◌≡◌, refl, true, ◌&&◌, none, inl, inr, ok, ◌>>=◌, ◌>>◌, guard, or_fail, and_left, and_right,
  length, arith,
}
use ai_supervisor.Base.Text.{codes, ◌=ᵗ◌}
use ai_supervisor.Base.Table.{find, exists_row, count, update, insert}
use ai_supervisor.Base.Table.Rows.{count-length}
use ai_supervisor.Workflow.{◌=ˢ◌}
use ai_supervisor.Store.Schema.{
  Db, Outcome, SessionRow, or_now, empty_db, genesis_audit_hash, active, idle, clean,
}
use ai_supervisor.Store.Audit.{
  append_audit_event_tx, prepare_event, check_lineage, chain_event, chained_row, compute_event_hash,
  compute_event_hash_raw, hash_input, prefixed, big_endian, audit_domain_separator,
}
use ai_supervisor.Store.Send.{lineage_event}
use ai_supervisor.Store.Runs.Scenario.{codec, call, is_ok, value_of, is_ok-eq, pair_rows}
use ai_supervisor.Store.Sessions.{
  WorkerSessionCasUpdate, expects, same_quarantine, get_worker_session_by_pair,
  reject_unresolved_restore, reject_unresolved_provisioning,
  update_worker_session_status_and_quarantine,
}
use ai_supervisor.Store.Sessions.Updated.{update_worker_session_status_and_quarantine_lem}
use ai_supervisor.Store.Provisioning.{
  WorkerSession, audit_pair_session_provision_requested, audit_pair_session_provisioned,
  audit_pair_session_provision_failed, needs_attempt, has_current_attempt, has_unresolved_operation,
  has_active_lineage, has_quarantine, insert_provisioning, insert_session, is_intent, is_intent_of,
  pair_lineage, session_row, requested_row, reserve_pair_provisioning, confirm_pair_provisioning,
  fail_pair_provisioning,
}
use ai_supervisor.Store.Provisioning.Lane.{reserve_pair_provisioning-unavailable}
use ai_supervisor.Store.Provisioning.Confirmed.{
  IsProvisioned, confirm_pair_provisioning-IsProvisioned,
}

abbrev paired_db : Db
paired_db = record empty_db { pairs = pair_rows }

abbrev reservation : Outcome Db
reservation =
    reserve_pair_provisioning codec (call 1) (codes "V") (codes "P") (codes "k") 0 (codes "op")
      paired_db

abbrev reserved_db : Db
reserved_db = value_of paired_db reservation

abbrev session : WorkerSession
session = record {
  pair_id = codes "P";
  session_id = codes "S";
  runtime_type = codes "codex";
  worktree_path = none;
  worker_agent_id = codes "W";
  status = active;
  terminal_generation = codes "G";
  quarantine_state = none;
  created_at = 0;
}

abbrev confirmation : Outcome Db
confirmation =
    confirm_pair_provisioning codec (call 2) (codes "V") session (codes "op") 0 reserved_db

abbrev confirmed_db : Db
confirmed_db = value_of reserved_db confirmation

abbrev failure : Outcome Db
failure =
    fail_pair_provisioning codec (call 2) (codes "V") (codes "op") (codes "down") 0 reserved_db

abbrev failed_db : Db
failed_db = value_of reserved_db failure

abbrev rest : WorkerSessionCasUpdate
rest = record {
  expected_status = active;
  expected_quarantine_state = clean;
  status = idle;
  quarantine_state = clean;
  terminal_generation = none;
  updated_at = 0;
}

abbrev resting : Outcome Db
resting = update_worker_session_status_and_quarantine 105 (codes "P") rest confirmed_db

all_ok : (is_ok reservation && is_ok confirmation && is_ok failure && is_ok resting) ≡ true
unfolding ◌>>=◌ ◌>>◌ guard or_fail ◌=ᵗ◌ find exists_row count update insert ◌=ˢ◌ empty_db
    genesis_audit_hash append_audit_event_tx prepare_event check_lineage chain_event chained_row
    compute_event_hash compute_event_hash_raw hash_input prefixed big_endian audit_domain_separator
    lineage_event expects reject_unresolved_restore reject_unresolved_provisioning
    update_worker_session_status_and_quarantine audit_pair_session_provision_requested
    audit_pair_session_provisioned audit_pair_session_provision_failed needs_attempt
    has_current_attempt has_unresolved_operation has_active_lineage has_quarantine
    insert_provisioning insert_session is_intent is_intent_of pair_lineage session_row requested_row
    reserve_pair_provisioning confirm_pair_provisioning fail_pair_provisioning
all_ok = refl

three_ok : (is_ok reservation && is_ok confirmation && is_ok failure) ≡ true
three_ok = and_left _ (is_ok resting) all_ok

two_ok : (is_ok reservation && is_ok confirmation) ≡ true
two_ok = and_left _ (is_ok failure) three_ok

reservation_eq : reservation ≡ ok reserved_db
reservation_eq =
    is_ok-eq paired_db reservation (and_left (is_ok reservation) (is_ok confirmation) two_ok)

lengths : (length reserved_db.provisionings ≡ 1) × (length confirmed_db.sessions ≡ 1)
unfolding ◌>>=◌ ◌>>◌ guard or_fail ◌=ᵗ◌ find exists_row count update insert ◌=ˢ◌ empty_db
    genesis_audit_hash append_audit_event_tx prepare_event check_lineage chain_event chained_row
    compute_event_hash compute_event_hash_raw hash_input prefixed big_endian audit_domain_separator
    lineage_event audit_pair_session_provision_requested audit_pair_session_provisioned
    needs_attempt has_current_attempt has_unresolved_operation has_active_lineage has_quarantine
    insert_provisioning insert_session is_intent is_intent_of pair_lineage session_row requested_row
    reserve_pair_provisioning confirm_pair_provisioning
lengths = (refl, refl)

confirm_pair_provisioning-IsProvisioned_example :
    IsProvisioned (codes "V") session (or_now 102 0) reserved_db confirmed_db
confirm_pair_provisioning-IsProvisioned_example =
    confirm_pair_provisioning-IsProvisioned codec (call 2) (codes "V") session (codes "op") 0
      reserved_db
      (omega (
        arith,
        count-length (λ p. p.operation_id =ᵗ codes "V") reserved_db.provisionings,
        lengths.0,
      ))
      (is_ok-eq reserved_db confirmation
        (and_right (is_ok reservation) (is_ok confirmation) two_ok))

reserve_pair_provisioning-unavailable_example : ¬ (
    reserve_pair_provisioning codec
      (call 3)
      (codes "X")
      (codes "P")
      (codes "l")
      0
      (codes "op")
      failed_db
    ≡ ok empty_db)
reserve_pair_provisioning-unavailable_example =
    reserve_pair_provisioning-unavailable codec (call 1) (codes "V") (codes "P") (codes "k") 0
      (codes "op") paired_db (call 2) (codes "V") (codes "op") (codes "down") 0 (call 3) (codes "X")
      (codes "l") 0 (codes "op") reservation_eq
      (inr (inl (is_ok-eq reserved_db failure (and_right _ (is_ok failure) three_ok))))

update_worker_session_status_and_quarantine_example :
    (w : SessionRow) × (get_worker_session_by_pair (codes "P") confirmed_db ≡ ok w)
    × (get_worker_session_by_pair (codes "P") (value_of confirmed_db resting)
        ≡ ok (record w { status = idle; updated_at = or_now 105 0 }))
    × (same_quarantine w.quarantine_state clean ≡ true)
    × (reject_unresolved_restore (codes "P") confirmed_db ≡ ok tt)
    × (reject_unresolved_provisioning (codes "P") confirmed_db ≡ ok tt)
update_worker_session_status_and_quarantine_example =
    update_worker_session_status_and_quarantine_lem 105 (codes "P") rest confirmed_db
      (omega (arith, count-length (λ w. w.pair_id =ᵗ codes "P") confirmed_db.sessions, lengths.1))
      (is_ok-eq confirmed_db resting (and_right _ (is_ok resting) all_ok))
