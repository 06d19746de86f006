-- ===== src/Lib.antt =====
-- Verification of the Task core of proflow: packages/task-orchestration (records, transition
-- tables, commands and queries) over packages/task-store-sqlite (the repositories), of the decision
-- that drives its workers (packages/platform-host), of packages/execution-runtime with its approvals,
-- and of the module graph of packages/platform-cli.
--
-- The program. A Task is a plan of nodes that agent workers run one after another; a TaskGroup runs
-- its Tasks in sequence. `createTaskServices` (packages/task-orchestration/src/services.ts) offers
-- commands and queries. A command validates its input, opens a transaction of the store
-- (packages/task-store-sqlite/src/index.ts), answers a repeated idempotency key from the record of
-- the first time, else runs a handler, writes an audit event and the idempotency record, and
-- commits; an error rolls back. Every Task and node carries a version, which the requests name.
--
-- The platform host reads a Task's drive projection and decides whom to wake
-- (packages/platform-host/src/task-observer.ts); the worker that is woken then calls `startNode`. What a
-- worker does to the world goes through the execution runtime (packages/execution-runtime/src/index.ts):
-- a request is stored under its idempotency key, admitted by the policy, the model and an approval, and
-- carried out by an executor, which says when its effect starts; what a crash leaves is settled by asking
-- the executor what is real. The runtime asks the owner of approvals (approval-owner.ts of the package)
-- for consent to an effect, checks it before the effect and consumes it. The command line starts modules
-- in an order that it computes from what they provide and require
-- (packages/platform-cli/src/graph/graph.ts, with the version ranges of modules.ts).
--
-- The files.
--   Base: the libraries' names, Boolean tests, lists, keyed tables, sorting and sorted lists, members.
--   Task/Model, Task/Transitions: packages/task-orchestration/src/model.ts and transitions.ts.
--   Task/Errors: the error codes of services.ts, and the state and error monad of a transaction.
--   Task/Environment: the clock, ids, SHA-256, JSON and files, which are parameters.
--   Task/Requests: the inputs and results of the operations, with the field names of services.ts.
--   Task/Store and its children: the tables as lists of rows; `tasks.update` is `update_task`, and
--     so on, with the version test of each UPDATE and the constraints of the schema. Laws and Seen
--     have the lemmas.
--   Task/Readiness: `readinessBlockedReason` and `recomputeReadiness`.
--   Task/Steps: `requireTask`, `requireNode`, `checkVersion`, `preserveRunHistory` and the other
--     helpers; Steps/Loops has the lemmas on what a step leaves alone.
--   Task/Commands: one handler each, `startNode` as `start_node` and so on.
--   Task/Command: `command`, and the transaction of the store; Command/Replay and Again have the
--     theorems on idempotency, Records what the handlers leave alone, Command/Sequences those on
--     sequences of commands.
--   Task/Queries: the queries that read no document files.
--   Task/Progress: how the task table changes under each command.
--   Task/Guards: when the commands succeed and what they write.
--   Execution/Approvals: packages/execution-runtime/src/approval-owner.ts, the records and tables;
--     Approvals/Operations has its operations, `getApproval` as `get_approval` and so on. Trail, Calls
--     and Requests have the lemmas on one call, Validity is about `validate`, History has sequences of
--     calls, and Final what they cannot undo.
--   Execution/Runtime: packages/execution-runtime/src/index.ts, the records and tables, with the states
--     of packages/execution-contracts/src/index.ts. Runtime/Artifacts has the registry, Admission the
--     default policy and `admit`, Intents how a request finds its record, Effects the part of
--     `executeCapability` that holds a slot, Execute the whole call with `cancelExecution` and the
--     recovery, Signals the signals to the observer, Slots the semaphore. Life has the abstract life of an
--     execution, Tracks its steps, and Runs the predicate on parts of a call that Leaves, Working,
--     Attempts, Endings, Opening, Calls, Recovering and Verifying prove part by part. Recovery, History,
--     Repeats, Lookup, Consent and Late have the theorems.
--   Host/Observer: packages/platform-host/src/task-observer.ts; Observer/Waking has the theorems.
--   Host/Coordinator: packages/platform-host/src/reconciliation-coordinator.ts, its state and what its
--     code does to it between two awaits; Queues and Kept have the lemmas, Bounds the capacities.
--   Platform/Version: `versionSatisfies` of packages/platform-cli/src/modules.ts.
--   Platform/Graph: `computeOrder` of packages/platform-cli/src/graph/graph.ts; Marks, Visit, Layers and
--     Precedence have the lemmas, Order the theorems. Graph/Build is `buildDependencyGraph`.
--   Execution/Examples, Execution/Runtime/Samples and Examples, Host/Examples, Platform/Examples: the
--     theorems on concrete inputs.
--   Task/Samples, Task/Examples, Task/Guards/Examples: the theorems on concrete rows.
--
-- The correspondence. `null` is `none`; versions are naturals, since they are counted up from 1. A
-- handler is a function from the database to an error or to a result and a database, so a query
-- between two writes reads what the first has written. An UPDATE of a row that is missing or has
-- another version, and an INSERT that the schema refuses, are the error `internal`. The loops are
-- recursion over the list they run through, so no fuel is needed, but for `visit` of the module graph:
-- it gets one more than the number of nodes, which is enough for every graph, since each call that
-- goes deeper opens a node of the list. References are compared by code points, where the source
-- compares UTF-16 units: the two agree on the letters, digits, `.` and `-` of references. Texts of
-- numbers (`String(n)`) are a parameter, `decimal`. The calls of the owner of approvals are not
-- transactions: what a call has written before it throws stays, so a call is a function from the tables
-- to a result or an error and the tables after. `Date.parse` and the SHA-256 of a value are parameters,
-- and each call gets its own reading of the clock and the ids. The execution runtime is modelled in the
-- same way. The answers of its ports and executors, the moments when the abort signal is raised, and what
-- is read of the clock are arguments of a call; an executor is a tree of calls of `onEffectStarted`, each
-- with what follows when it returns and when it throws, so no fuel is needed. Calls of the runtime follow
-- one another, but for a cancellation while a call waits for its slot; the semaphore is modelled apart, on
-- any sequence of calls that come and end. The log file is taken to be written. Commands of different callers do
-- not interleave: SQLite runs each in a transaction of its own (BEGIN IMMEDIATE), and a sequence of
-- commands is a list of requests, each with what it sees of the clock and the files.
--
-- Not modelled: the validation of inputs (contracts.ts); the document files around `createTask` and
-- `putTaskDocument`, with the replay that `putTaskDocument` looks up before its transaction;
-- `reconcileDocumentIndex`, `getTaskDocument` and `getNodeContext`; the schema
-- migrations; the order of the coordinator's steps, its timers and its calls; the reading of outputs, the
-- summary of artifacts and the closing of the execution runtime, and the interleaving of its calls on one
-- intent; the executors behind it; and the other packages,
-- which are processes, browsers, model providers and command lines around this core.
pub mod Base
pub mod Execution
pub mod Host
pub mod Platform
pub mod Task
