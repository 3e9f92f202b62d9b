-- ===== src/Lib.antt =====
-- The runner of codevo, a service that runs coding agents for remote clients. This library models
-- the parts of it that carry state, limits or wire formats, and proves what makes them correct.
--
-- How the parts interact: requests pass the maintenance fence, which admits them or refuses them
-- while a maintenance lease is held; the execution service pumps queued tasks into bounded workers,
-- wakes when the fence opens, and starts a provider with launch arguments; the provider's output is
-- read as a stream, from which its session, its verdict and the life of its subagents are kept;
-- what a provider asks, as questions and approvals, is validated in both directions, and approvals are
-- stored until they are settled; messages for a conversation whose turn is not over wait in a table
-- until they are promoted to the next turn or claimed by the running one; the trees of
-- processes that a task starts are owned by leases and observed until they end; operations of git
-- on one project pass a gate; uploaded images pass a scanner of their envelope.
--
-- The files, with paths from the repository's root:
--   Maintenance/Lease: src/application/maintenance-lease.ts, `MaintenanceLease`. `Lease` is the
--     object; `claim`, `confirm`, `abandon`, `release`, `admit`, `close`, `onOpen` are functions on
--     it, the timer's callback is `expire` and the microtask is `announce`. A fenced state is known
--     by its mark, as the code knows it by its identity. Proofs in Invariant, Exclusion, Fence, Stale.
--   Maintenance/Service: src/application/maintenance-service.ts and src/domain/maintenance.ts.
--   Execution/Pump: `wake`, `drain`, `launch`, `cancel` and `close` of
--     src/application/execution-service.ts, with one event for what happens between two awaits.
--   Git/Gate: `Gate` of src/application/git-coordination.ts. Git/Keyed: its `KeyedGate`, over the list
--     of the gates that it has made; Spec is the mutexes that it implements, and Quiet, Acts,
--     Refines, Entering and Runs the proof. Git/Coordination: `GitCoordination`.
--   Provider/Output: src/domain/provider-output.ts, `ProviderOutputParser`.
--   Lifecycle: src/domain/subagent-lifecycle.ts, `retainAgentSubagentLifecycle` and its helpers:
--     Aliases (the map of entries and the merge), Events (what one event writes), Retain (the loop),
--     Parse (the reader of stored lifecycles).
--   Launch: src/domain/launch.ts; Launch/Arguments: src/domain/launch-arguments.ts.
--   Approvals: src/domain/approvals.ts; Questions: src/domain/questions.ts; Inputs: the input checks
--     that both write out.
--   Approvals/Stored: what src/infrastructure/sqlite/approval-database.ts writes for a request.
--     Approvals/Store: its `ApprovalDatabase`, a list of rows; Writes, Counts, Bounds, Evicts and
--     Settled are proofs.
--   Delivery: src/infrastructure/sqlite/pending-database.ts and steering-database.ts, one state of
--     tables. Pending and Promotion are `PendingDatabase`, Steering and Settling `SteeringDatabase`,
--     Calls the sequences of calls; Rows, Claims, Accepted, Admission, Preserve, Steered, Once, Oldest
--     and Again are proofs.
--   Tasks: Input is src/domain/task-input.ts, Instructions src/domain/instructions.ts, Continue the
--     parsers of src/domain/task-resume.ts and src/domain/steering.ts, whose results Delivery takes.
--   Sqlite: what a statement may throw, and `transaction` of src/infrastructure/sqlite/database.ts.
--   Process/Observation: src/domain/process-observation.ts; Process/Ownership:
--     src/application/process-ownership.ts.
--   Image: src/infrastructure/files/image-preflight.ts, with Png, Jpeg and Envelope.
--   Contracts: src/domain/contracts.ts; Json: the values that `JSON.parse` returns.
--   Prelude: lists, Boolean tests, texts as code points, UTF-8 and white space.
--   Examples: the theorems at concrete inputs.
--
-- Conventions: a text is a list of code points; a function that may throw a `RunnerError` returns a
-- `Result`; each reading of a clock is an argument; a closure's flag and an object's identity are
-- an index into a list; what happens during an await is an explicit sequence of operations.
-- A call on the database returns the new tables with its result; if it throws, the old ones stay.
-- `JSON.parse`, `JSON.stringify`, `inflateSync`, `normalize` and `toLowerCase` are parameters.
--
-- Bounds and fuel: the loop of `jpeg` runs on as much fuel as bytes are left after the marker; it
-- is enough because every turn reads a byte. The loop of `png` runs over the number of chunks that
-- its own limit leaves. `make_room` runs on as much fuel as there are rows; it is enough because every
-- pass deletes a row, which `make_room-enough` of Approvals/Store/Counts shows.
--
-- Not modelled: SQLite itself and the other stores in it, HTTP, subprocesses, git and the file
-- system, which are input and output; the services that wait for answers and for clones, and the
-- other wire formats of src/domain; of the modelled files, the run of a task in
-- src/application/execution-service.ts, the event readers and the stream collector of
-- src/domain/subagent-lifecycle.ts, and the wording of the notes of
-- src/domain/process-observation.ts.
mod Prelude
pub mod Inputs
pub mod Json
pub mod Approvals
pub mod Contracts
pub mod Maintenance
pub mod Examples
pub mod Execution
pub mod Git
pub mod Launch
pub mod Lifecycle
pub mod Image
pub mod Process
pub mod Provider
pub mod Questions
pub mod Sqlite
pub mod Delivery
pub mod Tasks
