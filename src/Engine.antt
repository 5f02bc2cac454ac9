-- ===== src/Engine.antt =====
-- engine/executionEngine.ts, `run` and `runNode`: the run of a graph, one ready node after the other.
-- What a node's run calls beside the graph, the cascade, the patch, the checkpoints and the stores,
-- stands in the record `Services` over a state, a cascade that never returns included; `validate` of
-- safety/validation.ts is modelled here. File locks are left out: one node after the other takes its
-- own at once.
pub mod Steps
pub mod Waiting
pub mod Progress
pub mod Ordering
use prism_spectra.Common.{
  ℕ, zero, suc, Bool, true, false, not, ◌||◌, List, [], ◌∷◌, ◌++◌, map, Option, none, some, String,
  if◌then◌else◌, first_some, or_else, ltb,
}
use prism_spectra.Common.Text.{is_blank}
use prism_spectra.Common.Json.{Json, Fields, member, null, bool, int, number, str, arr, obj}
use prism_spectra.Types.{
  ExecutorName, TaskPacket, NodeType, GraphNode, NodeStatus, Patch, FileEdit, Message, text,
  patch_failed, build_failed, tests_failed, ExecutionResult, NodeOutcome, ChainAttempt,
  CacheHitKind, FallbackReason, data_boundary_for,
}
use prism_spectra.Cascade.{Execution}
use prism_spectra.Graph.{
  TaskGraph, GraphError, Result, ok, throw, get, update_node, set_status, mark_failed, is_settled,
  ready_node_ids,
}

pub record ValidationOutcome : Type 0 where
  pub passed : Bool
  pub reason : Option Message

-- What the engine awaits: it returns or throws an error with a message.
pub data Awaited (A : Type 0) : Type 0 where
  returned : A → Awaited A
  raised : Message → Awaited A

pub record Services (S : Type 0) : Type 0 where
  -- `executeWithCascade(packet, { cacheable })`, `none` where it never returns
  pub cascade : TaskPacket → Bool → S → Option (Awaited Execution × S)
  -- `applyPatch` of safety/patch.ts
  pub apply_patch : Patch → S → Awaited Unit × S
  -- `checkpoint` and `rollback` of safety/checkpoint.ts
  pub checkpoint : String → Option (List String) → S → Awaited Unit × S
  pub rollback : String → S → Awaited Unit × S
  -- `runsClean` of safety/validation.ts, of whatever value the packet gives as the command
  pub runs_clean : Json → S → ValidationOutcome × S
  -- the caches and the route memory after a success, the histories after each run
  pub remember : TaskPacket → ExecutionResult → S → Awaited Unit × S
  pub record_outcome : TaskPacket → NodeOutcome → S → Awaited Unit × S

pub record NodeRunLog : Type 0 where
  pub node_id : String
  pub succeeded : Bool
  pub provider : ExecutorName
  pub cache_hit : Bool
  pub cache_hit_kind : Option CacheHitKind
  pub route_cache_hit : Bool
  pub route_cache_similarity : Option ℕ
  pub cost : ℕ
  pub latency_ms : ℕ
  pub error : Option Message
  pub confidence_score : Option ℕ
  pub fallback_reason : Option FallbackReason
  pub ledger_chain_tried : List ChainAttempt

-- The graph is changed in place, so that what throws leaves it as it is then.
pub data NodeRun (S : Type 0) : Type 0 where
  ran : NodeRunLog → TaskGraph → S → NodeRun S
  broke : Message → TaskGraph → S → NodeRun S
  graph_threw : GraphError → NodeRun S
  -- the cascade of the packet, called in this state, never returns
  waits : TaskPacket → S → NodeRun S

pub data GraphRun (S : Type 0) : Type 0 where
  finished : List NodeRunLog → TaskGraph → S → GraphRun S
  aborted : Message → TaskGraph → S → GraphRun S
  graph_error : GraphError → GraphRun S
  waiting : TaskPacket → S → GraphRun S
  -- the model's own: the loop was cut off
  cut_off : GraphRun S

-- a value as a condition
abbrev is_truthy : Json → Bool
is_truthy null = false
is_truthy (bool b) = b
is_truthy (int n) = ltb 0 n
is_truthy (number literal) = true
is_truthy (str s) = not (is_blank s)
is_truthy (arr vs) = true
is_truthy (obj fs) = true

-- `spec.buildCommand` and `spec.testCommand`, if there is a command
abbrev command_in : Option Json → Option Json
command_in none = none
command_in (some v) = if is_truthy v then some v else none

abbrev command_of : String → Option Json → Option Json
command_of key (some (obj spec)) = command_in (member key spec)
command_of key _ = none

abbrev pub clean : ValidationOutcome
clean = record { passed = true; reason = none }

abbrev reason_of : ValidationOutcome → Message
reason_of v = or_else v.reason (text "undefined")

-- the message of a result that failed without one
abbrev or_reported : Option Message → Message
or_reported error = or_else error (text "executor reported failure")

abbrev pub is_terminal : NodeType → Bool
is_terminal NodeType.terminal = true
is_terminal _ = false

module _ {S : Type 0} (services : Services S) where
  -- one command of `validate`, with the prefix of its reason
  abbrev pub check_command : Option Json → (Message → Message) → S → ValidationOutcome × S
  check_command none prefix s = (clean, s)
  check_command (some command) prefix s =
      let (outcome, s') = services.runs_clean command s in
      if outcome.passed
      then (clean, s')
      else (record { passed = false; reason = some (prefix (reason_of outcome)) }, s')

  abbrev pub then_command :
      ValidationOutcome × S → (S → ValidationOutcome × S) → ValidationOutcome × S
  then_command (outcome, s) next = if outcome.passed then next s else (outcome, s)

  -- `validate`
  unfoldable pub validate : TaskPacket → ExecutionResult → S → ValidationOutcome × S
  validate packet result s =
      let spec = member "validate" packet.context in
      let checked =
        then_command (check_command (command_of "buildCommand" spec) build_failed s)
          (check_command (command_of "testCommand" spec) tests_failed) in
      if not result.success
      then (record { passed = false; reason = some (or_reported result.error) }, s)
      else checked

  -- the first part of `runNode` behind the cascade: a patch that cannot be applied fails the result
  abbrev pub patched : ExecutionResult → Awaited Unit → ExecutionResult
  patched result (returned _) = result
  patched result (raised why) = record result { success = false; error = some (patch_failed why) }

  abbrev pub patch_to : ExecutionResult → Option Patch → S → ExecutionResult × S
  patch_to result none s = (result, s)
  patch_to result (some p) s =
      let (answer, s') = services.apply_patch p s in (patched result answer, s')

  unfoldable pub apply_to : ExecutionResult → S → ExecutionResult × S
  apply_to result s = patch_to result result.patch s

  abbrev paths_of : Option Patch → Option (List String)
  paths_of none = none
  paths_of (some p) = some (map (λ e. e.path) p.edits)

  -- `result.cacheHit ? { passed: true } : await validate(…)`
  unfoldable pub validation_of : TaskPacket → ExecutionResult → S → ValidationOutcome × S
  unfolding validate
  validation_of packet result s = if result.cache_hit then (clean, s) else validate packet result s

  abbrev pub with_result : ExecutionResult → GraphNode → GraphNode
  with_result r n = record n { result = some r }

  -- `node.result = result`
  unfoldable pub set_result : String → ExecutionResult → TaskGraph → TaskGraph
  unfolding update_node
  set_result id r g = record g { nodes = update_node id (with_result r) g.nodes }

  unfoldable pub settle_passed : String → ExecutionResult → TaskGraph → Result TaskGraph
  unfolding set_status set_result
  settle_passed id r g = elim (set_status id NodeStatus.success g) [
    | ok g' ↦ ok (set_result id r g')
    | throw e ↦ throw e
  ]

  unfoldable pub settle_failed : String → ExecutionResult → TaskGraph → Result TaskGraph
  unfolding mark_failed set_result
  settle_failed id r g = mark_failed id (set_result id r g)

  abbrev pub failed_result : ExecutionResult → Option Message → ExecutionResult
  failed_result r reason = record r { success = false; error = first_some r.error reason }

  abbrev log_of : String → Execution → ExecutionResult → NodeRunLog
  log_of id e r = record {
    node_id = id;
    succeeded = r.success;
    provider = r.provider;
    cache_hit = r.cache_hit;
    cache_hit_kind = r.cache_hit_kind;
    route_cache_hit = e.route_cache_hit;
    route_cache_similarity = e.route_cache_similarity;
    cost = r.cost;
    latency_ms = r.latency_ms;
    error = r.error;
    confidence_score = r.confidence_score;
    fallback_reason = r.fallback_reason;
    ledger_chain_tried = e.chain_tried;
  }

  abbrev outcome_of : TaskGraph → String → TaskPacket → ExecutionResult → NodeOutcome
  unfolding data_boundary_for
  outcome_of g id packet r = record {
    project_id = g.project_id;
    graph_id = g.id;
    node_id = id;
    node_type = packet.node_type;
    intent = packet.intent;
    provider = r.provider;
    data_boundary = data_boundary_for r.provider;
    result = r;
  }

  -- behind the histories
  abbrev pub recorded : NodeRunLog → TaskGraph → Awaited Unit × S → NodeRun S
  recorded log g (raised why, s) = broke why g s
  recorded log g (returned _, s) = ran log g s

  -- the end of `runNode`: what is stored, and the log
  unfoldable pub report :
      String → TaskPacket → Execution → ExecutionResult → S → Result TaskGraph → NodeRun S
  unfolding outcome_of
  report id packet e r s (throw why) = graph_threw why
  report id packet e r s (ok g) =
      recorded (log_of id e r) g (services.record_outcome packet (outcome_of g id packet r) s)

  abbrev pub remembered : TaskPacket → ExecutionResult → S → Awaited Unit × S
  remembered packet r s = if r.cache_hit then (returned tt, s) else services.remember packet r s

  -- behind a success: the caches, which are written once the graph has changed
  unfoldable pub kept :
      String
      → TaskPacket
      → Execution
      → ExecutionResult
      → Result TaskGraph
      → Awaited Unit × S
      → NodeRun S
  unfolding report
  kept id packet e r (throw why) _ = graph_threw why
  kept id packet e r (ok g) (raised why, s) = broke why g s
  kept id packet e r (ok g) (returned _, s) = report id packet e r s (ok g)

  -- behind a rollback
  unfoldable pub rolled_back :
      String → TaskPacket → Execution → ExecutionResult → TaskGraph → Awaited Unit × S → NodeRun S
  unfolding report settle_failed
  rolled_back id packet e r g (raised why, s) = broke why g s
  rolled_back id packet e r g (returned _, s) = report id packet e r s (settle_failed id r g)

  -- behind the validation
  unfoldable pub settle :
      String
      → TaskPacket
      → Execution
      → ExecutionResult
      → TaskGraph
      → ValidationOutcome × S
      → NodeRun S
  unfolding settle_passed rolled_back kept
  settle id packet e r g (v, s) =
      let passed = kept id packet e r (settle_passed id r g) (remembered packet r s) in
      let failed = rolled_back id packet e (failed_result r v.reason) g (services.rollback id s) in
      if v.passed then passed else failed

  -- behind the checkpoint
  unfoldable pub checkpointed :
      String → TaskPacket → Execution → ExecutionResult → TaskGraph → Awaited Unit × S → NodeRun S
  unfolding settle validation_of
  checkpointed id packet e r g (raised why, s) = broke why g s
  checkpointed id packet e r g (returned _, s) = settle id packet e r g (validation_of packet r s)

  -- behind the cascade, which was called in the given state
  unfoldable pub executed :
      String → TaskPacket → TaskGraph → S → Option (Awaited Execution × S) → NodeRun S
  unfolding apply_to checkpointed
  executed id packet g called none = waits packet called
  executed id packet g called (some (raised why, s)) = broke why g s
  executed id packet g called (some (returned e, s)) =
      let (r, s') = apply_to e.result s in
      checkpointed id packet e r g (services.checkpoint id (paths_of r.patch) s')

  unfoldable pub start_node : String → GraphNode → Result TaskGraph → S → NodeRun S
  unfolding executed
  start_node id node (throw why) s = graph_threw why
  start_node id node (ok g) s =
      executed id node.packet g s
        (services.cascade node.packet (not (is_terminal node.packet.node_type)) s)

  unfoldable pub run_found : String → TaskGraph → Result GraphNode → S → NodeRun S
  unfolding start_node set_status
  run_found id g (throw why) s = graph_threw why
  run_found id g (ok node) s = start_node id node (set_status id NodeStatus.running g) s

  unfoldable pub run_node : String → TaskGraph → S → NodeRun S
  unfolding run_found get
  run_node id g s = run_found id g (get id g) s

  -- what the loop does with a settled graph, the ready nodes, and the run of one
  abbrev pub go_on :
      (TaskGraph → S → List NodeRunLog → GraphRun S) → List NodeRunLog → NodeRun S → GraphRun S
  go_on next logs (ran log g s) = next g s (logs ++ log ∷ [])
  go_on next logs (broke why g s) = aborted why g s
  go_on next logs (graph_threw why) = graph_error why
  go_on next logs (waits packet s) = waiting packet s

  unfoldable pub run_ready :
      (TaskGraph → S → List NodeRunLog → GraphRun S)
      → TaskGraph
      → S
      → List NodeRunLog
      → Result (List String)
      → GraphRun S
  unfolding run_node
  run_ready next g s logs (throw why) = graph_error why
  run_ready next g s logs (ok []) = finished logs g s
  run_ready next g s logs (ok (id ∷ ids)) = go_on next logs (run_node id g s)

  unfoldable pub run_round :
      (TaskGraph → S → List NodeRunLog → GraphRun S)
      → TaskGraph
      → S
      → List NodeRunLog
      → Result Bool
      → GraphRun S
  unfolding run_ready ready_node_ids
  run_round next g s logs (throw why) = graph_error why
  run_round next g s logs (ok true) = finished logs g s
  run_round next g s logs (ok false) = run_ready next g s logs (ready_node_ids g)

  -- the loop of the sequential mode
  unfoldable pub run_loop : ℕ → TaskGraph → S → List NodeRunLog → GraphRun S
  unfolding run_round is_settled
  run_loop zero g s logs = cut_off
  run_loop (suc fuel) g s logs = run_round (run_loop fuel) g s logs (is_settled g)

  -- `run(graph, "sequential")`
  unfoldable pub run : ℕ → TaskGraph → S → GraphRun S
  unfolding run_loop
  run fuel g s = run_loop fuel g s []
