-- ===== src/Lib.antt =====
-- Verification of the saga engine of warden-core.
--
-- The engine drives sagas: sequences of steps that workers run, that people may have to approve, and
-- that are undone in reverse order when one fails. Each ingest event is handled in one database
-- transaction (engine/logic.py, process_saga_event), which reads and writes the tables of
-- common/models.py and queues worker commands in the outbox.
--
-- The tables are one record, World (Model/Database.antt); a transaction is a function from a World to
-- a result or an exception and the World after it (Tx.antt), and an exception that leaves
-- in_transaction restores the World. Calls of plugin hooks are kept in the field `audit`.
--
-- Files, and the code that they model:
--   Json, Text           Python's JSON values and text operations (common/utils.py: coerce_dict)
--   Model/Status         the enums of common/models.py and common/schemas/saga.py
--   Model/Rows           the rows SagaInstance, SagaStepInstance, SagaChild, SagaDefinition, and the
--                        frozen blueprint
--   Model/Events         the ingest events and worker commands of common/contracts.py, outbox rows
--   Model/Database       the tables, and the services that are parameters
--   Store                queries and updates, and emit_saga_event (common/outbox.py)
--   Engine/Terminal      the ends of a saga (handle_saga_completion, _finalize_saga_compensated,
--                        _emit_saga_failed_from_compensation, _fail_saga_no_compensation_window)
--   Engine/Compensation  common/compensation.py, common/compensation_context.py, common/step_output.py
--   Engine/Compensation/Walk  _advance_lifo_compensation, _schedule_compensation_for_forward, and
--                        compensate_spawn_sagas_forward of engine/child_sagas.py
--   Engine/Failure       _apply_step_failure_lifecycle
--   Engine/Hold          human review: holding, resuming, and the reset for a retry
--   Engine/Policy        common/policy_gate.py, common/step_when.py, and their bindings
--   Engine/Command       the worker commands for reason and commit steps
--   Engine/Blueprint     common/loops.py and engine/step_materialize.py
--   Engine/Start         engine/api/saga_start.py
--   Engine/Advance       engine/loop_control.py and _finalize_step_output_and_advance
--   Engine/Children, Engine/Join, Engine/Join/Spawn  spawn and join of engine/child_sagas.py and
--                        common/child_sagas.py
--   Engine/Trigger       _schedule_next_forward_step and trigger_step
--   Engine/Chain         on_child_saga_terminal, and the knot of the mutual calls
--   Engine/Handlers      the handlers of the events (Results: of workers and the engine; Review: of
--                        people), and process_saga_event
--   Delivery/Queue       the consumer of common/messaging/postgres.py, and common/outbox_reap.py
--   Delivery/Claims      common/processed_command_claim.py, common/processed_command_reap.py, and
--                        _claim_idempotency_key of workers/logic.py
--   Delivery/Worker      handle_worker_command of workers/logic.py, from the claim to the result
--   Recovery/Idempotency, Recovery/Claims, Recovery/Retry, Recovery/Compensate
--                        engine/recovery_idempotency.py and engine/recovery.py
--   Recovery/Decisions   engine/hitl_decisions.py
--   Retry                common/retry.py
--   Catalog/Parts, Catalog/Sagas, Catalog/Steps, Catalog/Workers  the manifests of common/schemas/saga.py,
--                        step.py and worker.py, and their validators
--   Catalog/Checked      errors of a validation (common/catalog_errors.py, ValueError)
--   Catalog/Tighten      common/step_tighten.py
--   Catalog/Hydrate      common/step_hydrate.py
--   Catalog/Tables       the tables of definitions, and the load of catalog steps in engine/saga_hydrate.py
--   Catalog/Freeze       the rest of engine/saga_hydrate.py, and _step_create_fields of
--                        engine/step_materialize.py
--   Catalog/Registry     engine/registry/service.py, and _set_definition_active of
--                        engine/api/routes/definitions.py
--   Handover             the claims, redelivery and maintenance, interleaved in any order
--   Linking              manifests from their registration to the start of a saga
--   Safeguards           the requests of operators and reviewers
--   Ledger               the relation Extends between tables, and that every operation keeps it
--   Behaviour            what single operations do
--   Examples             concrete sagas on which the theorems are applied
--
-- How the parts interact: a handler may finish a step, which schedules the next one, which may finish at
-- once (a join whose children have ended) and so on; and the end of a saga may finish a step of its
-- parent. The functions of Engine take these two calls, `wake` and `schedule_next`, as arguments, and
-- Engine/Chain.antt ties the knot with fuel, one unit for each nesting of the calls. Running out of
-- fuel raises `out_of_fuel`, an exception that no code catches, so that the transaction leaves the
-- tables as they were. A saga without loops, spawns, joins and a parent nests two deep. No theorem
-- below rests on the fuel being enough, except where it says that the call returns.
--
-- The outbox couples the engine with its workers. A consumer polls waiting rows and hands each to its
-- handler; a worker claims the key of a command before it runs it, and shows the token of its claim when
-- it reports the result; maintenance puts rows back that were in delivery for too long. Each of these
-- is one transaction, a constructor of Move in Handover/Runs.antt, and a Run is any sequence of them. A
-- worker may come with any token, and the clock may be set to any time. The engine's own processing of
-- events and the retries of people and operators, which may delete outbox rows or free a claim on
-- purpose, are no moves.
--
-- A registration checks a manifest on the catalog that it reads, and writes it in a transaction of its
-- own, when the catalog may be another: a Change of Linking/Immutable.antt has both. A start hydrates the
-- stored definition again and freezes the result into the saga; what comes out is the frozen blueprint
-- that Engine/Start reads from its definition row.
--
-- Parameters (Disk, Catalog/Freeze): the loaders of files under the asset roots, the parsers of CEL and
-- JSONPath, the check of prompt templates, and the test on port schemas.
--
-- Parameters (Env): the CEL interpreter, the JSON Schema and JSONPath libraries, the validation of
-- the command models by pydantic, uuid4, sha256, json.dumps, and the settings: the size limit of the
-- outbox, the ages at which a claim and a row in delivery are stale, and the batch of maintenance.
-- What an adapter made of a command is the argument Execution of run_command. Rows are unique by the
-- keys that the queries use; select_for_update makes the transactions sequential, and so does the
-- model.
--
-- Not modelled: the parsing of manifests by YAML and pydantic, and the files of assets; the adapters
-- of the workers; the heuristics on tool output; the wait of an idle consumer (LISTEN/NOTIFY), its semaphore and its shutdown; columns for
-- timing, usage and telemetry, and logging, which no branch of the engine reads; and the HTTP API,
-- the CLI and the MCP server, which are input and output.
pub mod Prelude
pub mod Json
pub mod Model
pub mod Tx
pub mod Text
pub mod Store
pub mod Retry
pub mod Engine
pub mod Delivery
pub mod Recovery
pub mod Catalog
pub mod Ledger
pub mod Behaviour
pub mod Handover
pub mod Linking
pub mod Safeguards
mod Examples
