-- ===== src/Lib.antt =====
-- A model of TSAgent's recoverable runtime: the checkpoints of a Run, the chain that they form, the
-- decision to resume a Run from one, the durable store of Runs, the intent to interrupt a Run, and the
-- budgets.
--
-- The parts, and the code that each one models:
--   Checkpoint/Codes             agent/checkpoint/reason_codes.py: the enums
--   Checkpoint/Json              agent/checkpoint/contracts.py: `_freeze` on an execution plan
--   Checkpoint/Contracts         agent/checkpoint/contracts.py: the frozen data classes and what their
--                                constructors (`__post_init__`) check and normalise
--   Checkpoint/Lifecycle         agent/checkpoint/lifecycle.py: the transition table,
--                                `advance_checkpoint` and `append_checkpoint`
--   Checkpoint/Compatibility     agent/checkpoint/compatibility.py: `major_version`, the migrations and
--                                `assess_compatibility`
--   Checkpoint/Store             agent/checkpoint/store.py: `InMemoryCheckpointStore`; and
--                                agent/runtime_store/buffer.py: `CheckpointStagingBuffer.save`
--   Checkpoint/Validator         agent/checkpoint/validator.py: `validate_resume`, in child modules for
--                                its parts (Decisions, Addressing, Guards, Effects)
--   Interruption                 agent/interruption: contracts.py, policy.py, lifecycle.py, and the
--                                intent that `CancellationCoordinator.request_cancel` builds
--   RunBudget                    agent/runtime_budget.py: the limits of one Run
--   WorkflowBudget               agent/workflow/budget.py: `BudgetManager`
--   RuntimeStore                 agent/runtime_store: errors.py (Errors), contracts.py and the schema of
--                                sqlite.py (Tables), and the methods of `SqliteRuntimeStore`:
--     Sql, Transaction           the statements, `_write_transaction`, `_require_text`,
--                                `_canonical_json`, `_fetch_head_tx`
--     Events                     `_append_event_tx`, `append_event`
--     EventReads                 `get_event_head`, `read_events`, `set_event_retention_floor`
--     Leases                     `_put_worker_lease_tx`, `_converge_orphaned_run_tx`,
--                                `_assert_session_run_available_tx`, `renew_worker_lease`
--     HeadReads                  `get_run_head`, `get_current_fence`
--     Fences, Handover           `initialize_run`, `acquire_fence`; `takeover_fence`, `release_fence`
--     Revisions                  `_validate_write_head_tx`, `append_revision`
--     Artifacts, Transitions     `_insert_run_output_tx`, `_insert_artifact_facts_tx`,
--                                `transition_run_with_event`
--     Calls                      sequences of these calls
--     Ownership                  the machine of writers and tokens that the store refines
--     Logs, Admission            what holds of its logs and its sessions
-- Prelude holds what they share; Platform, what the code takes from the Python interpreter.
--
-- How they interact: a checkpoint is built by `create`, which every change goes through; a chain
-- grows by `advance_checkpoint` and `append_checkpoint`, and is kept by the store's `save`; the
-- validator reads a checkpoint, the current context and the assessment of the versions, and builds
-- its decision by `create_decision`. The validator changes no state. The durable store keeps the
-- head of every Run, its revisions, its events, its fences and its leases in one database; the
-- writers of the Runs call it, each under a fence. The interruption's policy and the budgets stand
-- beside them.
--
-- How the code is translated. An exception is the `err` of a result, and each `raise` has a
-- constructor of its own; its message is left out. A `return` in the middle of `validate_resume` is
-- `decided`, and the list `evidence`, to which the source appends, is passed from check to check.
-- The keywords `**changes` are a list of `Change`; the two that are parameters of the functions
-- themselves, `checkpoint_id` and `updated_at`, cannot be among them. Python's integers are ℤ where
-- the code tests for a negative one. A dictionary of the store is a function, and a save that raises
-- returns the store as it was: the empty list that `setdefault` may leave is read like a missing
-- one. Values are of the types that the data classes declare, so the coercions of mappings and texts
-- to those types have nothing to do, and `int` of a text of digits is its decimal value. A set in an
-- execution plan is the sequence of its elements; what `_freeze` refuses with a TypeError, a frozen
-- set, is `none`, and the constructor raises. A time or a cost of a budget, a float in the source,
-- is a natural number of a smallest unit. All recursion is structural; no definition runs on fuel.
--
-- The durable store. A table is the list of its rows in the order of insertion; a SELECT, UPDATE,
-- DELETE or INSERT is a function of its condition, with the keys that the schema declares, and an
-- INSERT against a key is `invalid_argument`, as the transaction turns it. A transaction is a
-- function from a database to an error or the next database and a value: what it wrote before it
-- raised is rolled back, since the error carries no database. Every transaction begins with BEGIN
-- IMMEDIATE, so those of all connections stand in one sequence. The foreign keys hold, since every
-- insertion follows a read of the row that it refers to. A payload is a value of Checkpoint/Json: no
-- live object and no key that is no text. `run_output` has the types of its fields, and artifacts
-- are values of their class.
--
-- Parameters. `Host` is what one call of the durable store takes from outside: the readings of the
-- clock, which need not agree with each other, whether SQLite reports the lock as held, SHA-256,
-- `json.dumps`, `str.upper` and `str` of an integer. `Platform` has `str.casefold`,
-- `datetime.fromisoformat` and the decimal digits that `\d` matches, none of which the repository
-- implements. The in-memory store's `digest` is any function: `checkpoint_digest` is a SHA-256 of a
-- JSON text.
--
-- Not modelled: `to_dict`, `from_dict` and the JSON codec; the recorder; of agent/runtime_store, the
-- intents of interruption, service starts, prepared operations, checkpoints, the finalization
-- bundle, the other reads, and the opening and migration of the database; agent/run_resume and the
-- coordinator's calls of a store; failures and the loop of the runtime; and the parts that call
-- language models, tools, files and the network.
pub mod Prelude
pub mod Platform
pub mod Checkpoint
pub mod Interruption
pub mod RunBudget
pub mod RuntimeStore
pub mod WorkflowBudget
