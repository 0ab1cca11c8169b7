-- ===== src/Store/Contracts.antt =====
-- internal/store/contract_store.go: the insertion of contract revisions.
use ai_supervisor.Base.{
  ◌-◌, Bool, true, false, ◌&&◌, ◌||◌, not, Option, none, some, ok, ◌>>=◌, ◌>>◌, guard, or_fail, leb,
  ◌==◌, if◌then◌else◌,
}
use ai_supervisor.Base.Text.{Text, ◌=ᵗ◌, is_blank, trim_space, has_text}
use ai_supervisor.Base.Table.{find, exists_row, insert}
use ai_supervisor.Workflow.{TaskState, draft, revision_required, ◌=ˢ◌}
use ai_supervisor.Store.Schema.{
  Outcome, ContractRow, Db, task_not_found, duplicate_key, foreign_key_violation,
  invalid_contract_lineage, contract_insert_state, contract_not_found, invalid_argument,
}

-- An identity that is set: not nil, and not blank.
abbrev pub is_given : Option Text → Bool
is_given none = false
is_given (some s) = not (is_blank s)

-- A first revision needs a task in DRAFT, and supersedes nothing.
unfoldable pub check_first_revision : ContractRow → TaskState → Outcome (Unit {0})
check_first_revision c state = do
  guard (state =ˢ draft) contract_insert_state
  guard (not (is_given c.supersedes_contract_id)) invalid_contract_lineage
  ok tt

-- A later revision supersedes the frozen revision before it, of the same task and base.
unfoldable pub check_later_revision : ContractRow → TaskState → Db → Outcome (Unit {0})
check_later_revision c state db = do
  guard (state =ˢ revision_required || state =ˢ draft) contract_insert_state
  guard (is_given c.supersedes_contract_id) invalid_contract_lineage
  previous ← or_fail c.supersedes_contract_id invalid_contract_lineage
  prev ←
      or_fail (find (λ r. r.contract_id =ᵗ trim_space previous) db.contracts)
        invalid_contract_lineage
  guard (prev.task_id =ᵗ c.task_id) invalid_contract_lineage
  guard (prev.revision_number == c.revision_number - 1) invalid_contract_lineage
  guard (prev.base_sha =ᵗ c.base_sha) invalid_contract_lineage
  guard prev.is_immutable invalid_contract_lineage
  ok tt

-- The reference of a nullable column.
abbrev superseded_exists : Option Text → Db → Bool
superseded_exists none db = true
superseded_exists (some s) db = exists_row (λ r. r.contract_id =ᵗ s) db.contracts

-- UNIQUE(supersedes_contract_id), where NULL never conflicts.
abbrev superseded_twice : Option Text → Db → Bool
superseded_twice none db = false
superseded_twice (some s) db = exists_row (λ r. has_text r.supersedes_contract_id s) db.contracts

-- InsertTaskContract, with the JSON text of the contract in the row.
unfoldable pub insert_task_contract : ContractRow → Db → Outcome Db
insert_task_contract c db = do
  guard (not (is_blank c.contract_id)) invalid_argument
  guard (not (is_blank c.task_id)) invalid_argument
  guard (leb 1 c.revision_number) invalid_argument
  guard (not (is_blank c.base_sha)) invalid_argument
  guard (not c.is_immutable) invalid_contract_lineage
  task ← or_fail (find (λ t. t.task_id =ᵗ c.task_id) db.tasks) task_not_found
  (if c.revision_number == 1
      then check_first_revision c task.state
      else check_later_revision c task.state db)
  guard
      (not (
        exists_row
          (λ r.
            r.contract_id =ᵗ c.contract_id
            || (r.task_id =ᵗ c.task_id && r.revision_number == c.revision_number))
          db.contracts
        || superseded_twice c.supersedes_contract_id db))
      duplicate_key
  guard (superseded_exists c.supersedes_contract_id db) foreign_key_violation
  ok (record db { contracts = insert (record c { is_immutable = false }) db.contracts })

-- GetTaskContract: the stored JSON and the flag.
unfoldable pub get_task_contract : Text → Db → Outcome (Text × Bool)
get_task_contract contract_id db = do
  c ← or_fail (find (λ r. r.contract_id =ᵗ contract_id) db.contracts) contract_not_found
  ok (c.payload_json, c.is_immutable)
