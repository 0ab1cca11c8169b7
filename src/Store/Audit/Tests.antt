-- ===== src/Store/Audit/Tests.antt =====
-- The audit chain on a log of two events.
use ai_supervisor.Base.{
  none, some, [], ◌∷◌, ok, err, ◌>>=◌, ◌>>◌, guard, or_fail, ◌↔◌, ◌⊎◌, ◌≡◌, refl, map, arith,
}
use ai_supervisor.Base.Text.{codes, ◌=ᵗ◌}
use ai_supervisor.Base.Table.{exists_row, insert}
use ai_supervisor.Store.Schema.{AuditEvent, AuditRow, Db, Codec, empty_db, genesis_audit_hash}
use ai_supervisor.Store.Audit.{
  append_audit_event, prepare_event, check_lineage, chain_event, chained_row, compute_event_hash,
  compute_event_hash_raw, hash_input, prefixed, big_endian, audit_domain_separator,
  verify_audit_chain, HashedFields, row_fields, order_by_sequence,
}
use ai_supervisor.Store.Audit.Chain.{
  IsChained, IsVerified, verify_audit_chain_iff, append_audit_event-verify,
}
use ai_supervisor.Store.Audit.Framing.{Fits, hash_input_injective}
use ai_supervisor.Store.Audit.Tamper.{AllFit, Collision, head_determines_log}

abbrev codec : Codec
codec = record {
  sha256_hex = λ s. s;
  format_time = λ t. t ∷ [];
  sanitize = λ e. some (e, codes "{}");
  json_text = λ json key. none;
}

abbrev event : AuditEvent
event = record {
  event_id = codes "e";
  event_type = codes "t";
  timestamp = 7;
  task_id = [];
  contract_id = [];
  attempt_id = [];
  pair_id = [];
  actor = codes "a";
  details = [];
}

abbrev appended : Db × AuditRow
appended = elim (append_audit_event codec 9 event empty_db) [
  | ok r ↦ r
  | err e ↦ (empty_db, chained_row codec event [] empty_db)
]

appended_eq : append_audit_event codec 9 event empty_db ≡ ok appended
unfolding append_audit_event prepare_event check_lineage chain_event chained_row ◌>>=◌ ◌>>◌ guard
    or_fail ◌=ᵗ◌ exists_row insert compute_event_hash compute_event_hash_raw hash_input prefixed
    big_endian audit_domain_separator empty_db genesis_audit_hash
appended_eq = refl

empty-IsChained : IsChained codec empty_db
unfolding empty_db
empty-IsChained = (refl, refl)

verify_audit_chain_iff_example :
    (verify_audit_chain codec appended.0 ≡ ok tt) ↔ IsVerified codec appended.0
verify_audit_chain_iff_example = verify_audit_chain_iff codec appended.0

abbrev fields : HashedFields
fields = record {
  sequence = 1;
  event_id = codes "e";
  event_type = codes "t";
  timestamp = 7 ∷ [];
  pair_id = [];
  task_id = [];
  contract_id = [];
  attempt_id = [];
  actor = codes "a";
  details_json = codes "{}";
  prev_hash = codes "p";
}

fields-Fits : Fits fields
fields-Fits = record {
  sequence = omega arith;
  event_id = omega arith;
  event_type = omega arith;
  timestamp = omega arith;
  pair_id = omega arith;
  task_id = omega arith;
  contract_id = omega arith;
  attempt_id = omega arith;
  actor = omega arith;
  details_json = omega arith;
  prev_hash = omega arith;
}

hash_input_injective_example : fields ≡ fields
hash_input_injective_example = hash_input_injective fields fields fields-Fits fields-Fits refl

rows-AllFit : AllFit codec (order_by_sequence appended.0.audit_events)
unfolding append_audit_event prepare_event check_lineage chain_event chained_row ◌>>=◌ ◌>>◌ guard
    or_fail ◌=ᵗ◌ exists_row insert compute_event_hash compute_event_hash_raw hash_input prefixed
    big_endian audit_domain_separator empty_db genesis_audit_hash order_by_sequence row_fields
rows-AllFit = (
  record {
    sequence = omega arith;
    event_id = omega arith;
    event_type = omega arith;
    timestamp = omega arith;
    pair_id = omega arith;
    task_id = omega arith;
    contract_id = omega arith;
    attempt_id = omega arith;
    actor = omega arith;
    details_json = omega arith;
    prev_hash = omega arith;
  },
  tt,
)

chain_ok : verify_audit_chain codec appended.0 ≡ ok tt
chain_ok = (append_audit_event-verify codec 9 event empty_db empty-IsChained appended_eq).1

head_determines_log_example :
    (map (row_fields codec) (order_by_sequence appended.0.audit_events)
      ≡ map (row_fields codec) (order_by_sequence appended.0.audit_events))
    ⊎ Collision codec
head_determines_log_example =
    head_determines_log codec appended.0 appended.0 rows-AllFit rows-AllFit chain_ok chain_ok refl
      refl
