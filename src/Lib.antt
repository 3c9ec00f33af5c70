-- ===== src/Lib.antt =====
-- Paul OS: the worker that executes runs under the authority of a grant, and parts of the backend.
--
-- Worker.* models apps/worker/src. A run is queued, claimed by a worker under a lease, executed and
-- settled; a grant bounds the runs and the cost. The store (store.ts) is a function on a database:
--   Worker.Model        the rows; `Core` has the runs and the grants, `Journal` the tables that are
--                       only written to, `Catalog` the tables that are only read
--   Worker.Json         input constraints (satisfiesConstraints)
--   Worker.Journal      events, audit and digest deliveries (appendRunEvent, appendRunPlatformEvent,
--                       recordDigestDelivery)
--   Worker.Grants       the cost ledger (releaseGrantReservation, reconcileIncurredCost, settleAttempt)
--   Worker.Cancel       cancelWithinTransaction, cancelClaimed
--   Worker.Complete     complete, lockProductionChannel
--   Worker.Failure      pauseForPlugin, failOrRetry, retryDelayMs
--   Worker.Recover      recoverExpiredLeases
--   Worker.Requirements the tools of a release (releaseTools and the query before it)
--   Worker.Candidate, Worker.Claim   claimNext, hasProductionEpochApproval, toClaimedRun
--   Worker.Heartbeat    heartbeat, withSerializableTransaction
--   Worker.Calls        a call of the store as a value, and the database after calls
-- The engine (engine.ts, plugin-plan.ts) decides which call settles a run:
--   Worker.PluginPlan   the planned Plugin calls and the faults
--   Worker.Engine, Worker.Execute    the model stream, execute and its catch block
-- The Plugin calls (plugin-execution.ts, plugin-store.ts, and assertScopeNarrowsTool of
-- packages/runtime/src/plugin-runtime.ts):
--   Worker.Plugins              the snapshot of a call, the scopes and their limits
--   Worker.Plugins.Authorize    assertWorkerPluginAuthorization
--   Worker.Plugins.Executor     WorkerPluginExecutor.execute with appendTerminal; what the world
--                               answers is a parameter, and the actions are listed in their order
--   Worker.Plugins.Invocations  appendInvocation, on the rows of the ledger
--   Worker.Plugins.Tables, Worker.Plugins.Snapshots   revalidate and authorityState
--   Worker.Plugins.Loading      loadPlannedCalls and inputAtPath; the path of a plan is parsed already
-- Current, Narrowing, Calls, Endings, Settled and Closing (executor), Appends, Order and Repeats
-- (ledger), Loaded (plans), and Revalidated and Backed (snapshots) hold their proofs. The attempts to record an end are
-- recursion on the number of attempts left, as in the code.
-- The other modules of Worker hold proofs: Outcomes what each call does to the core, Runs, Ledger,
-- Invariant, Exclusion, Budget, Authority,
-- Revocation, Queue and Retries on the store, Stream, Plans and Settling on
-- the engine, Replay on both. The examples run both on one small database.
--
-- Backend.* models apps/backend/src/generation/semaphore.ts (Semaphore), and
-- packages/contracts/src/state-machines.ts with apps/backend/src/services/transitions.ts
-- (Lifecycle; Walks has the proofs), and apps/backend/src/authorization.ts with scope.ts (Access).
--
-- Runtime.* models packages/runtime/src: the checks of compiler.ts on the manifests of resources, and
-- the policy of aim by which a program is drawn from evidence:
--   Runtime.Manifest    what the checks read of a manifest
--   Runtime.Search      the depth-first search of assertAcyclicDependencies
--   Runtime.Compiler    assertPluginReferencesValid and assertAcyclicDependencies
--   Runtime.Aim         the evidence policy (aim/evidence-policy.ts): freshness, latestAt
--   Runtime.Aim.Demands evaluatePartEvidence
--   Runtime.Aim.States  agents, groups, metrics, workstreams and interfaces (aim/state-at-time.ts)
-- Acyclic, Scopes, and Gathered, Gates, Latest and Certified of Aim hold the proofs. The search runs on fuel, one more than there are versions,
-- which is enough for a path without a repetition.
--
-- Contracts.* models packages/contracts/src/workstation-broker-domain.ts with the bounds of
-- workstation-broker-schemas.ts: Broker has placeExecution and createWorkOrder, Broker.Resume has
-- verifyDualIdentityBinding, resumeWaitingExecution and expireWaitingExecution; the other children
-- of Broker hold the proofs.
--
-- Identifiers, digests and versions are numbers, times are milliseconds, and costs are whole units
-- of 10^-8 USD, the scale of the columns, so that Number.EPSILON is below a unit; a difference that
-- the code compares with a cost is written as a sum on the other side. The cost in an event of the
-- Plugin ledger may be in a finer unit. A transaction reads its clock
-- once. A transaction that throws leaves the database as it was. The query of a release's closure
-- is recursion on the depth, 100 as in the query itself, and a serializable transaction is tried
-- four times as in the code: neither number is a bound of the model. The prices of the engine are in
-- units for each token.
--
-- Parameters: the rows locked by other transactions (SKIP LOCKED), the schemas of zod, the model
-- provider and the Plugins, what the column of eight decimal places keeps of the cost of an invocation,
-- the length of a text in bytes, the context on disk. The monitor of the
-- lease in engine.ts is a timer: its aborts are faults of the stream; so is the monitor of a Plugin
-- call, whose abort is a parameter. Not modelled: the query of reachability in the Plugin store (a
-- parameter), the transports of Plugins, the rest of the states of a program, the routes and services
-- of the backend, the checks of one kind of manifest and the YAML parser of the compiler,
-- user interfaces, other schemas and scripts; Prisma and PostgreSQL beyond the statements that the code makes.
mod Common
pub mod Worker
pub mod Backend
pub mod Runtime
pub mod Contracts
