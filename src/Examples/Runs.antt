-- ===== src/Examples/Runs.antt =====
-- A graph of two nodes that is run with services that succeed, and a cached result whose patch cannot
-- be applied.
use prism_spectra.Common.{
  ◌≡◌, ◌<◌, refl, Bool, true, false, List, [], ◌∷◌, Option, none, some, String, string_eq, arith,
}
use prism_spectra.Common.Json.{end, member}
use prism_spectra.Types.{
  ExecutionResult, GraphNode, NodeStatus, pending, success, docs, Patch, text, ollama,
}
use prism_spectra.Graph.{TaskGraph, find_node, summary}
use prism_spectra.Graph.Status.{pending_count}
use prism_spectra.Engine.{
  Services, returned, raised, clean, run, run_node, ran, finished, NodeRun, GraphRun,
}
use prism_spectra.Engine.Progress.{IsOver, run-IsOver}
use prism_spectra.Engine.Ordering.{EndsOrdered, run-EndsOrdered}
use prism_spectra.Examples.Core.{packet_of}

abbrev good : Bool → Option Patch → ExecutionResult
good cache_hit patch = record {
  success = true;
  output = "done";
  provider = ollama;
  tokens_in = 1;
  tokens_out = 1;
  cost = 0;
  latency_ms = 5;
  error = none;
  cache_hit = cache_hit;
  cache_hit_kind = none;
  confidence_score = none;
  fallback_reason = none;
  patch = patch;
}

abbrev services : ExecutionResult → Services Unit
services r = record {
  cascade = λ packet cacheable s. some (
    returned (record {
      result = r;
      executor = some ollama;
      chain_tried = [];
      route_cache_hit = false;
      route_cache_similarity = none;
      cache_hit = r.cache_hit;
    }),
    s,
  );
  apply_patch = λ p s. (raised (text "escapes the workspace directory"), s);
  checkpoint = λ id paths s. (returned tt, s);
  rollback = λ id s. (returned tt, s);
  runs_clean = λ command s. (clean, s);
  remember = λ packet r s. (returned tt, s);
  record_outcome = λ packet o s. (returned tt, s);
}

abbrev node_of : String → List String → List String → GraphNode
node_of id deps dependents = record {
  id = id;
  packet = packet_of docs deps end;
  status = pending;
  result = none;
  dependents = dependents;
}

abbrev line : TaskGraph
line = record {
  id = "g";
  project_id = "p";
  nodes = node_of "a" [] ("b" ∷ []) ∷ node_of "b" ("a" ∷ []) [] ∷ [];
}

abbrev statuses_of : List GraphNode → List NodeStatus
statuses_of [] = []
statuses_of (n ∷ ns) = n.status ∷ statuses_of ns

abbrev statuses : GraphRun Unit → List NodeStatus
statuses (finished logs g s) = statuses_of g.nodes
statuses _ = []

abbrev logged : NodeRun Unit → List (Bool × List NodeStatus)
logged (ran log g s) = (log.succeeded, statuses_of g.nodes) ∷ []
logged _ = []

line-run : statuses (run (services (good false none)) 3 line tt) ≡ success ∷ success ∷ []
unfolding run member
line-run = refl

-- A hit whose patch cannot be applied is not validated: the graph has its node succeed, and the log
-- says that it failed.
cached-run :
    logged (run_node (services (good true (some (record { edits = [] })))) "a" line tt)
    ≡ (false, success ∷ pending ∷ []) ∷ []
unfolding run_node member
cached-run = refl

two_pending : pending_count line.nodes < 3
unfolding pending_count summary
two_pending = omega arith

run-IsOver_example :
    IsOver (services (good false none)) (run (services (good false none)) 3 line tt)
run-IsOver_example = run-IsOver (services (good false none)) 3 line tt two_pending

line-pending : (x : String) (k : GraphNode) → find_node x line.nodes ≡ some k → k.status ≡ pending
unfolding find_node
line-pending x k found = ground arith

run-EndsOrdered_example :
    EndsOrdered (services (good false none)) (run (services (good false none)) 3 line tt)
run-EndsOrdered_example = run-EndsOrdered (services (good false none)) 3 line tt line-pending
