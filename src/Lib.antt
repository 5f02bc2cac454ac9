-- ===== src/Lib.antt =====
-- Prism Spectra: a local-first engine that runs graphs of AI tasks along a chain of providers, from a
-- local model to paid ones, and plans metadata sidecars for source files.
--
-- The engine (engine/executionEngine.ts) takes a task packet, asks its caches, asks the router
-- (routing/router.ts) for a provider, calls it, and retries at another one when a result is bad. The
-- router reads rates and budgets from the ledger (memory/ledger.ts), which rolls its windows as it is
-- read, and orders paid providers by the learning loop (intelligence/learningLoop.ts). Packets stand
-- in a dependency graph (taskGraph/graph.ts). Beside it, a planner looks at a source file and its
-- sidecar, and recommendation, write plan, validation report and approval review follow (ingest/).
-- A run (`run`) takes one ready packet of the graph after the other. Files are written through the
-- file system adapter, whose guards stand in adapters/; what a person has to decide waits in the
-- approval queue (approvals/), which writes to the event ledger (events/).
--
-- Which file models which part; paths are below the folder src of the repository:
--   Types          types.ts
--   Graph          taskGraph/graph.ts. The map of nodes is a list in insertion order, a thrown
--                  error a value of `GraphError`.
--   Ledger         memory/ledger.ts. The table is the list of its rows, the clock an argument.
--   LearningLoop   intelligence/learningLoop.ts
--   Router         routing/router.ts. `route` also returns the ledger's table after its checks.
--   Cascade        engine/executionEngine.ts, `executeWithCascade` and what it calls. What comes
--                  from outside, executors, hints and clock, stands in the record `World`.
--   Sidecar        ingest/sidecarTypes.ts and ingest/sidecar.ts, with
--     Planner      ingest/localFileRoundTripPlanner.ts, over a file system and a JSON parser,
--     AssetId, Recommend   ingest/sidecarRecommendation.ts,
--     WritePlan    ingest/sidecarWritePlan.ts,
--     Report       ingest/sidecarValidationReport.ts,
--     Review       ingest/sidecarApprovalReview.ts,
--     Execute      ingest/sidecarWriteExecutor.ts, over the file system adapter.
--   Engine         engine/executionEngine.ts, `run` in its sequential mode and `runNode`, with `validate`
--                  of safety/validation.ts. What else they call stands in the record `Services`; a
--                  cascade may never return there, as one of a failing terminal node does not.
--   Events         events/ledger.ts, with the clock as an argument.
--   Approvals      approvals/queue.ts, over the event ledger.
--   Capabilities   capabilities/manifest.ts, its approval classes and checkpoint policies alone.
--   Adapters       adapters/types.ts, with
--     Guard        adapters/approvalGuard.ts,
--     Registry     adapters/registry.ts,
--     PathText, PathGuard   adapters/filesystemPathGuard.ts, over `node:path` and `node:fs` (Os),
--     Filesystem   adapters/filesystemAdapter.ts: a call gives the next disk, and a log of its changes.
--   Safety         safety/patch.ts, `applyPatch`, over the functions of `node:path` and `node:fs`.
--   Common         what the parts share: tests, lists, sorting, text, JSON values.
--   Examples       runs of the theorems at concrete inputs.
--
-- Bounds and fuel. `visit` of the graph gets one unit of fuel more than there are nodes: each deeper
-- call puts another node on the path. `cascade_loop` gets its fuel from outside: five rounds are
-- enough for a node that is no terminal node, as each retry excludes another tier. Numbers are
-- natural: dollars count 10^-9 dollar, scores and similarities hundredths, times milliseconds. An
-- executor gives the same answer each time it is called in one cascade. The loop of `run` gets its
-- fuel from outside: one round more than there are pending nodes is enough, as each round leaves one
-- fewer. The walk up to an existing folder gets one unit for each character of the path and one more.
--
-- Not modelled: the parallel mode and the file locks, checkpoints and stores, which are git, files and
-- a database, the reading of patches from text, caches and sessions, manifests of capabilities, the
-- details and metadata of adapter results, executors, and the command line and pages around them.
pub mod Common
pub mod Types
pub mod Graph
pub mod Ledger
pub mod LearningLoop
pub mod Router
pub mod Cascade
pub mod Engine
pub mod Events
pub mod Capabilities
pub mod Approvals
pub mod Adapters
pub mod Safety
pub mod Sidecar
pub mod Examples
