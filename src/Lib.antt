-- ===== src/Lib.antt =====
-- Verification of the core of the AI supervisor: the workflow of tasks, the store that keeps tasks,
-- contracts, attempts, dispatches and the audit log in SQLite, the host that admits operations and
-- tears the daemon down, and the validation of contracts.
--
-- Parts and files.
--   Base: shared helpers. Base/Text has texts as lists of bytes with the functions of package strings
--     that the code calls; Base/Table a table as the list of its rows with the SQL statements the
--     code issues (query, EXISTS, COUNT, conditional UPDATE, INSERT) and their laws; Base/Failure
--     results with errors and a postcondition logic for `do` blocks.
--   Workflow: internal/workflow/state_machine.go and internal/domain/task_state.go.
--   Store/Schema: the tables of internal/store/migrations.go, the entities of internal/domain and the
--     errors of internal/store/errors.go.
--   Store/Tasks, Contracts, Dispatch, Send (with Holds, Unknown and Budget; the results of its
--     operations in Precedence, Clearing, Confirmed and Unknown/Escalation), Closure, Audit,
--     ReportPath: task_store.go, contract_store.go, dispatch.go, dispatch_transactions.go,
--     atomic_transitions.go, audit_store.go and report_path.go of internal/store. A function has the
--     name of the Go function in snake case.
--   Store/Sessions, Provisioning, Recovery (with Observe and Snapshot; the cases of an observation in
--     Verdict, the results of its operations in Observed, Absent and Current) and Restart: session_lifecycle.go, provisioning_transactions.go,
--     recovery_transactions.go and recovery.go of internal/store.
--   Store/Stop: the stops of stop_transactions.go and session_lifecycle.go of internal/store. Reserve
--     has the reservation, Resolve the tests and the updates of an outcome, Commit the transactions
--     after the reservation, Entry the older entry points; what an outcome leaves is in Resolved and
--     Once.
--   Store/Board: the abstract view of the table of tasks; Store/Effect: the frame that the
--     transactions keep, operation by operation; Store/Runs: runs of transactions and their laws.
--   Host/Authority: internal/host/authority.go, its permits and the interleavings of their holders
--     (Moves); Host/Teardown: internal/host/drain.go as the trace of its calls.
--   Contract: internal/contract. Scope and Paths are ValidateScopePatterns and ValidateCwdContainment
--     of path_policy.go, Revision is revision.go, Validator the semantic checks of validator.go,
--     Values the errors of errors.go.
--
-- How the code is modelled. A transaction of the store is a function from a database to a database
-- or an error: the store runs its transactions one at a time, and one that returns an error is
-- rolled back, so that an error has no database. The clock and the identities of new audit events
-- are the surroundings of a call. SHA-256, the text of a time, the scrubber of internal/audit and
-- SQLite's json_extract are the fields of Codec. A unique column, a reference or a trigger is a
-- test before the statement that it guards. Times are nanoseconds; a stored time and its text
-- determine each other. The counters are natural numbers: attempt and sequence numbers are not near
-- 2^63. In internal/store/contract_store.go the JSON text of a contract is a value of its row.
-- ClassifyRestartRecovery issues its queries outside a transaction, and is modelled on one database,
-- without another transaction between them. Loops are structural recursion, without fuel.
-- In internal/host a method of the authority is one step, since it holds the mutex throughout, and a
-- permit is a place of the list of all permits given out, which its holder may release at any time
-- and again. In internal/contract the functions of package filepath, which differ between systems,
-- and the file system are the fields of Platform; reflect.DeepEqual, the library of JSON schemas and
-- the projection of numbers for it are the fields of Objects. A Go int is an integer without bounds.
--
-- Not modelled: the restore and clearance transactions, ClassifyInterruptedRestore,
-- AcceptStopAdministrativeRisk and the stores of projects and pairs, as operations. A run may make their
-- writes at any point: other rows of pairs, sessions, provisionings, restores and stops, another
-- quarantine of any attempt, and audit events; they write no other table of the model. Not
-- modelled in any way: the migrations as a procedure; the retry on a busy database;
-- internal/contract/schema.go, and ValidateRaw, which decodes JSON; the calls of Windows and the
-- policies in internal/host; internal/ao, internal/audit, internal/dispatch, internal/stop,
-- internal/recovery and cmd.
pub mod Base
pub mod Workflow
pub mod Store
pub mod Host
pub mod Contract
