-- ===== src/Store/Audit.antt =====
-- internal/store/audit_store.go and the append of internal/store/atomic_transitions.go: the hash
-- chain of audit events.
pub mod Chain
pub mod Framing
pub mod Tamper
pub mod Tests
use ai_supervisor.Base.{
  ℕ, zero, suc, ◌+◌, ◌-◌, ◌/◌, ◌%◌, ◌^◌, Bool, true, false, ◌&&◌, ◌||◌, not, Option, none, some,
  List, [], ◌∷◌, ◌++◌, ok, err, ◌>>=◌, ◌>>◌, guard, or_fail, ltb, leb, ◌==◌, if◌then◌else◌, length,
}
use ai_supervisor.Base.Text.{Text, codes, ◌=ᵗ◌, is_empty, has_text}
use ai_supervisor.Base.Table.{exists_row, insert}
use ai_supervisor.Store.Schema.{
  Time, or_now, StoreError, Outcome, AuditEvent, AuditRow, Db, Codec, Surroundings,
  genesis_audit_hash, invalid_argument, invalid_audit_lineage, duplicate_key, audit_chain_invalid,
  system_error,
}

-- binary.BigEndian: the bytes of a number, cut to the width.
unfoldable pub big_endian : ℕ → ℕ → Text
big_endian zero n = []
big_endian (suc k) n = n / 256 ^ k % 256 ∷ big_endian k n

-- writePrefixedString, with what is written after it.
unfoldable pub prefixed : Text → Text → Text
prefixed s rest = big_endian 4 (length s) ++ (s ++ rest)

-- AuditDomainSeparator
unfoldable pub audit_domain_separator : Text
audit_domain_separator = codes "ai-supervisor:audit:v1"

-- The parameters of ComputeEventHashRaw.
pub record HashedFields : Type 0 where
  pub sequence : ℕ
  pub event_id : Text
  pub event_type : Text
  pub timestamp : Text
  pub pair_id : Text
  pub task_id : Text
  pub contract_id : Text
  pub attempt_id : Text
  pub actor : Text
  pub details_json : Text
  pub prev_hash : Text

-- The bytes that ComputeEventHashRaw writes.
unfoldable pub hash_input : HashedFields → Text
hash_input f = prefixed audit_domain_separator (
    big_endian 8 f.sequence
    ++ prefixed f.event_id (
        prefixed f.event_type (
          prefixed f.timestamp (
            prefixed f.pair_id (
              prefixed f.task_id (
                prefixed f.contract_id (
                  prefixed f.attempt_id
                    (prefixed f.actor (prefixed f.details_json (prefixed f.prev_hash []))))))))))

-- COALESCE(column, '')
abbrev pub coalesce : Option Text → Text
coalesce none = []
coalesce (some s) = s

-- An absent identity is stored as NULL.
abbrev pub nullable : Text → Option Text
nullable s = if is_empty s then none else some s

abbrev is_long : Text → Bool
is_long s = ltb 256 (length s)

-- The queries of both appends that tie the identities of an event to stored rows.
unfoldable pub check_lineage : AuditEvent → Db → Outcome (Unit {0})
check_lineage event db = do
  guard
      (is_empty event.contract_id
        || exists_row (λ r. r.contract_id =ᵗ event.contract_id && r.task_id =ᵗ event.task_id)
            db.contracts)
      invalid_audit_lineage
  guard
      (is_empty event.attempt_id
        || exists_row
            (λ r.
              r.attempt_id =ᵗ event.attempt_id
              && r.task_id =ᵗ event.task_id
              && r.contract_id =ᵗ event.contract_id)
            db.attempts)
      invalid_audit_lineage
  guard
      (is_empty event.pair_id
        || is_empty event.task_id
        || exists_row (λ r. r.task_id =ᵗ event.task_id && r.pair_id =ᵗ event.pair_id) db.tasks)
      invalid_audit_lineage

place : AuditRow → List AuditRow → List AuditRow
place r [] = r ∷ []
place r (s ∷ rows) = if leb r.sequence s.sequence then r ∷ s ∷ rows else s ∷ place r rows

-- ORDER BY sequence ASC
unfoldable pub order_by_sequence : List AuditRow → List AuditRow
unfolding place
order_by_sequence [] = []
order_by_sequence (r ∷ rows) = place r (order_by_sequence rows)

module _ (c : Codec) where
  -- ComputeEventHashRaw
  unfoldable pub compute_event_hash_raw : HashedFields → Text
  compute_event_hash_raw f = c.sha256_hex (hash_input f)

  -- The arguments of ComputeEventHashRaw for a stored row, as VerifyAuditChain reads it.
  unfoldable pub row_fields : AuditRow → HashedFields
  row_fields r = record {
    sequence = r.sequence;
    event_id = r.event_id;
    event_type = r.event_type;
    timestamp = c.format_time r.timestamp;
    pair_id = coalesce r.pair_id;
    task_id = coalesce r.task_id;
    contract_id = coalesce r.contract_id;
    attempt_id = coalesce r.attempt_id;
    actor = r.actor;
    details_json = r.details_json;
    prev_hash = r.prev_hash;
  }

  -- ComputeEventHash
  unfoldable pub compute_event_hash : ℕ → AuditEvent → Text → Text → Text
  unfolding compute_event_hash_raw
  compute_event_hash seq event details_json prev_hash = compute_event_hash_raw (record {
    sequence = seq;
    event_id = event.event_id;
    event_type = event.event_type;
    timestamp = c.format_time event.timestamp;
    pair_id = event.pair_id;
    task_id = event.task_id;
    contract_id = event.contract_id;
    attempt_id = event.attempt_id;
    actor = event.actor;
    details_json = details_json;
    prev_hash = prev_hash;
  })

  -- The checks of the fields and the scrubbing, which both appends begin with.
  unfoldable pub prepare_event : Time → AuditEvent → Outcome (AuditEvent × Text)
  prepare_event now event = do
    guard (not (is_empty event.event_id || is_empty event.event_type || is_empty event.actor))
        invalid_argument
    guard
        (not (
          is_long event.event_id
          || is_long event.event_type
          || is_long event.actor
          || is_long event.task_id
          || is_long event.contract_id
          || is_long event.attempt_id
          || is_long event.pair_id))
        invalid_argument
    scrubbed ← or_fail (c.sanitize event) invalid_argument
    let sanitized = scrubbed.0
    guard (is_empty sanitized.contract_id || not (is_empty sanitized.task_id)) invalid_audit_lineage
    guard
        (is_empty sanitized.attempt_id
          || not (is_empty sanitized.task_id || is_empty sanitized.contract_id))
        invalid_audit_lineage
    ok (record sanitized { timestamp = or_now now sanitized.timestamp }, scrubbed.1)

  -- The row that the INSERT writes after the head of the chain.
  unfoldable pub chained_row : AuditEvent → Text → Db → AuditRow
  unfolding compute_event_hash
  chained_row event details_json db = record {
    sequence = db.last_sequence + 1;
    event_id = event.event_id;
    event_type = event.event_type;
    timestamp = event.timestamp;
    pair_id = nullable event.pair_id;
    task_id = nullable event.task_id;
    contract_id = nullable event.contract_id;
    attempt_id = nullable event.attempt_id;
    actor = event.actor;
    details_json = details_json;
    prev_hash = db.last_hash;
    event_hash = compute_event_hash (db.last_sequence + 1) event details_json db.last_hash;
  }

  -- The INSERT, its unique columns, and the new head of the chain.
  unfoldable pub chain_event : AuditEvent → Text → Db → Outcome (Db × AuditRow)
  chain_event event details_json db = do
    let row = chained_row event details_json db
    guard
        (not (
          exists_row
            (λ r.
              r.sequence == row.sequence
              || r.event_id =ᵗ row.event_id
              || r.event_hash =ᵗ row.event_hash)
            db.audit_events))
        duplicate_key
    ok (
      record db {
        audit_events = insert row db.audit_events;
        last_sequence = row.sequence;
        last_hash = row.event_hash;
      },
      row,
    )

  -- appendAuditEventTx
  unfoldable pub append_audit_event_tx : Time → AuditEvent → Db → Outcome (Db × AuditRow)
  append_audit_event_tx now event db = do
    prepared ← prepare_event now event
    check_lineage prepared.0 db
    chain_event prepared.0 prepared.1 db

  -- AppendAuditEvent, with no contention for the database.
  unfoldable pub append_audit_event : Time → AuditEvent → Db → Outcome (Db × AuditRow)
  append_audit_event now event db = do
    prepared ← prepare_event now event
    let sanitized = prepared.0
    check_lineage sanitized db
    guard
        (is_empty sanitized.task_id
          || not (
              is_empty sanitized.contract_id
              && is_empty sanitized.attempt_id
              && is_empty sanitized.pair_id)
          || exists_row (λ t. t.task_id =ᵗ sanitized.task_id) db.tasks)
        invalid_audit_lineage
    guard
        (is_empty sanitized.pair_id
          || not (is_empty sanitized.task_id)
          || exists_row (λ p. p.pair_id =ᵗ sanitized.pair_id) db.pairs)
        invalid_audit_lineage
    chain_event sanitized prepared.1 db

  -- The loop of VerifyAuditChain over the rows: the next sequence number and the last hash.
  unfoldable pub verify_rows : ℕ → Text → List AuditRow → Outcome (ℕ × Text)
  verify_rows expected_seq expected_prev [] = ok (expected_seq, expected_prev)
  verify_rows expected_seq expected_prev (r ∷ rows) = do
    guard (r.sequence == expected_seq) audit_chain_invalid
    guard (r.prev_hash =ᵗ expected_prev) audit_chain_invalid
    guard (r.event_hash =ᵗ compute_event_hash_raw (row_fields r)) audit_chain_invalid
    verify_rows (expected_seq + 1) r.event_hash rows

  -- VerifyAuditChain
  unfoldable pub verify_audit_chain : Db → Outcome (Unit {0})
  verify_audit_chain db =
      if db.last_sequence == 0
      then (do
        guard (db.last_hash =ᵗ genesis_audit_hash) audit_chain_invalid
        guard (length db.audit_events == 0) audit_chain_invalid
        ok tt)
      else (do
        end ← verify_rows 1 genesis_audit_hash (order_by_sequence db.audit_events)
        guard (end.0 - 1 == db.last_sequence) audit_chain_invalid
        guard (end.1 =ᵗ db.last_hash) audit_chain_invalid
        ok tt)
