-- ===== src/Lib.antt =====
-- A verification library for the revenue degradation recovery engine: payment events are watched for
-- falling success rates, failing payments are given interventions, and the recovered money is
-- attributed. Paths below are from the repository's root.
--
-- The parts and their files:
--   - Degradation (src/core/degradation): Signal evaluates a snapshot (signal.py), Severity grades and
--     escalates (severity.py), Timeline rebuilds the episodes of a segment (state_machine.py):
--     `scan_signal` is one round of the loop of `reconcile_timeline`, and `Scan` its local variables.
--     Timeline/Runs has the stretches of a timeline that episodes sum up, Timeline/Invariant the loop
--     invariant; Timeline/Unopened, Opened and Rounds prove it. Repository is
--     src/infrastructure/degradation_repository.py and Service is service.py: `append_signals`,
--     `invalidate_stale` and `upsert_valid` are the steps of `process_snapshots`.
--   - Analytics, Stage 2 (src/core/analytics): Calculator aggregates the events of a window (calculator.py),
--     Service finds the windows and recalculates them (service.py), Repository is
--     src/infrastructure/analytics_repository.py. Its snapshots are what Degradation and Rca read.
--   - Rca, Stage 4 (src/core/rca): Calculator has the windows and formulas (calculator.py), Segments and
--     Ranking compare the segments of an episode with the weeks before (service.py, `evaluate_episode`),
--     Service is the rest of service.py, Repository is src/infrastructure/rca_repository.py.
--   - Features/Repository: the reads of the diagnosis and of the payment's context that Stage 6 takes from
--     src/infrastructure/feature_repository.py.
--   - Attempts: Identity is src/core/domain/payment_attempts.py, Registry is
--     src/infrastructure/payment_attempt_repository.py, Lifecycle is src/core/domain/paypal_lifecycle.py.
--   - Intervention, Stage 6: Models (src/core/domain/intervention_models.py), Policy, Gates, Calculator
--     and Ranking (src/core/intervention/policy.py, gates.py, calculator.py; Ranking has
--     `score_and_rank_candidates`), Repository (src/infrastructure/intervention_repository.py), Context
--     (the inputs that `decide` gathers) and Service (service.py). History is what Stage 6 promises, said
--     without its code: a step relation on the stored decisions; History/Limits has its invariants, and
--     `Serves` of Service/Served interleaves calls of `decide` with any other writes. Stage 7 reads its decisions.
--   - Execution, Stage 7: Transitions (src/core/execution/state_machine.py), Repository
--     (src/infrastructure/execution_repository.py, paypal_attempt_queries.py), Service
--     (execution_service.py), Observation (observation_service.py), Simulator (simulator.py).
--     `create_command`, `execute_command` and `observe` have the names of the methods; the steps of
--     `execute_command` are `execute_found`, `attempt_pending`, `claim`, `after_claim`, `dispatch` and
--     `finish`, in the order of its comments.
--   - Attribution, Stage 8: Calculator (src/core/attribution/calculator.py), Evidence and Service
--     (attribution_service.py), Repository (src/infrastructure/attribution_repository.py).
--   - Store is the database that the stages share, Action a computation that reads and writes it and may
--     raise one of Errors; Prelude has numbers, texts, decimals and the interface of floats.
--
-- How the code is modelled:
--   - The database is a record of lists of rows in insertion order. A query is a search of a list; the
--     constraints of a table are tested where a row is inserted, and a violated one is
--     `integrity_error`. `transact` rolls back what an exception leaves. ORDER BY keeps the insertion
--     order of equal keys, which SQL leaves open; the constraints make the keys unique where it matters,
--     but for events ingested at one instant.
--   - Other workers act in `execute_command` between its reads and its claim: the parameter `others`.
--     `Run` in Execution/Service/Runs lets them be any runs of the same operations. The advisory locks of
--     the code are not used in the proofs.
--   - The executor of `execute_command` is a function: it returns a result. An exception of an executor
--     passes through to the caller, and is not modelled.
--   - Instants are numbers of microseconds, with time zones already resolved; UUIDs are numbers; `uuid5`,
--     `uuid4`, the writing of JSON and of floats are parameters. Money is an integer. The columns
--     source_system are NOT NULL, so that a stored provider is never missing.
--   - Floats are the interface Prelude/Float: rounding is left open, and the order is assumed, as
--     `IsOrdered`, only where a theorem says so; Prelude/Float has an instance. Decimals are exact: with
--     amounts of 32 bits (the columns are INTEGER) and factors of four places, all products stay under
--     the 28 digits of Python's context. A timing delta is compared in microseconds, which decides
--     as the float of seconds does.
--   - `upper` and `lower` are those of ASCII texts.
--   - The advisory locks of Stages 4 and 6 serialise the calls for one payment or episode: a second look at
--     the latest row in one call finds what the first found, and is modelled once.
--   - The loops are recursions on lists. One has fuel, the loop over the windows of an analysis, which
--     gets one round more than windows fit between its bounds.
--   - The difference of an instant and a duration stops at the epoch.
--
-- Not modelled: ingestion, the services of the failure prediction and of feature reconstruction, the live
-- pipeline, the HTTP interface, machine learning, migrations and scripts; the audit payloads but for the
-- observation's conflict flag; the logging.
pub mod Prelude
pub mod Errors
pub mod Action
pub mod Events
pub mod Store
pub mod Degradation
pub mod Rca
pub mod Attempts
pub mod Intervention
pub mod Features
pub mod Analytics
pub mod Execution
pub mod Attribution
