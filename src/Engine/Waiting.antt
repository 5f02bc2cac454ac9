-- ===== src/Engine/Waiting.antt =====
-- engine/executionEngine.ts: a run of a node that does not end waits for a cascade that never returns.
use prism_spectra.Common.{
  ◌≡◌, refl, Bool, true, false, not, Option, none, some, String, if◌then◌else◌,
}
use prism_spectra.Types.{GraphNode, NodeStatus, TaskPacket, ExecutionResult}
use prism_spectra.Cascade.{Execution}
use prism_spectra.Graph.{TaskGraph, Result, ok, throw, get, set_status}
use prism_spectra.Engine.{
  Services, Awaited, returned, raised, ValidationOutcome, NodeRun, ran, broke, graph_threw, waits,
  NodeRunLog, is_terminal, recorded, report, remembered, kept, settle_passed, settle_failed,
  rolled_back, settle, checkpointed, executed, start_node, run_found, run_node, apply_to,
  validation_of, failed_result, outcome_of, log_of,
}

module _ {S : Type 0} (services : Services S) where
  -- A run of a node that waits has called a cascade that never returns.
  abbrev pub IsAwaited : NodeRun S → Type 0
  IsAwaited (ran log g s) = Unit
  IsAwaited (broke why g s) = Unit
  IsAwaited (graph_threw why) = Unit
  IsAwaited (waits packet s) = services.cascade packet (not (is_terminal packet.node_type)) s ≡ none

  recorded-IsAwaited :
      (log : NodeRunLog) (g : TaskGraph) (p : Awaited Unit × S)
      → IsAwaited (recorded services log g p)
  recorded-IsAwaited log g (raised why, s) = tt
  recorded-IsAwaited log g (returned _, s) = tt

  either-IsAwaited :
      (b : Bool) (x y : NodeRun S) → IsAwaited x → IsAwaited y → IsAwaited (if b then x else y)
  either-IsAwaited true x y h k = h
  either-IsAwaited false x y h k = k

  module _ (id : String) where
    report-IsAwaited :
        (packet : TaskPacket) (e : Execution) (r : ExecutionResult) (s : S) (res : Result TaskGraph)
        → IsAwaited (report services id packet e r s res)
    unfolding report
    report-IsAwaited packet e r s (throw why) = tt
    report-IsAwaited packet e r s (ok g) =
        recorded-IsAwaited (log_of services id e r) g
          (services.record_outcome packet (outcome_of services g id packet r) s)

    kept-IsAwaited :
        (packet : TaskPacket) (e : Execution) (r : ExecutionResult) (res : Result TaskGraph)
        (p : Awaited Unit × S)
        → IsAwaited (kept services id packet e r res p)
    unfolding kept
    kept-IsAwaited packet e r (throw why) p = tt
    kept-IsAwaited packet e r (ok g) (raised why, s) = tt
    kept-IsAwaited packet e r (ok g) (returned _, s) = report-IsAwaited packet e r s (ok g)

    rolled_back-IsAwaited :
        (packet : TaskPacket) (e : Execution) (r : ExecutionResult) (g : TaskGraph)
        (p : Awaited Unit × S)
        → IsAwaited (rolled_back services id packet e r g p)
    unfolding rolled_back
    rolled_back-IsAwaited packet e r g (raised why, s) = tt
    rolled_back-IsAwaited packet e r g (returned _, s) =
        report-IsAwaited packet e r s (settle_failed services id r g)

    settle-IsAwaited :
        (packet : TaskPacket) (e : Execution) (r : ExecutionResult) (g : TaskGraph)
        (p : ValidationOutcome × S)
        → IsAwaited (settle services id packet e r g p)
    unfolding settle
    settle-IsAwaited packet e r g (v, s) =
        either-IsAwaited v.passed _ _
          (kept-IsAwaited packet e r (settle_passed services id r g)
            (remembered services packet r s))
          (rolled_back-IsAwaited packet e (failed_result services r v.reason) g
            (services.rollback id s))

    checkpointed-IsAwaited :
        (packet : TaskPacket) (e : Execution) (r : ExecutionResult) (g : TaskGraph)
        (p : Awaited Unit × S)
        → IsAwaited (checkpointed services id packet e r g p)
    unfolding checkpointed
    checkpointed-IsAwaited packet e r g (raised why, s) = tt
    checkpointed-IsAwaited packet e r g (returned _, s) =
        settle-IsAwaited packet e r g (validation_of services packet r s)

    executed-IsAwaited :
        (packet : TaskPacket) (g : TaskGraph) (called : S) (o : Option (Awaited Execution × S))
        → services.cascade packet (not (is_terminal packet.node_type)) called ≡ o
        → IsAwaited (executed services id packet g called o)
    unfolding executed
    executed-IsAwaited packet g called none h = h
    executed-IsAwaited packet g called (some (raised why, s)) h = tt
    executed-IsAwaited packet g called (some (returned e, s)) h =
        checkpointed-IsAwaited packet e (apply_to services e.result s).0 g _

    start_node-IsAwaited :
        (node : GraphNode) (res : Result TaskGraph) (s : S)
        → IsAwaited (start_node services id node res s)
    unfolding start_node
    start_node-IsAwaited node (throw why) s = tt
    start_node-IsAwaited node (ok g) s = executed-IsAwaited node.packet g s _ refl

    run_found-IsAwaited :
        (g : TaskGraph) (res : Result GraphNode) (s : S) → IsAwaited (run_found services id g res s)
    unfolding run_found
    run_found-IsAwaited g (throw why) s = tt
    run_found-IsAwaited g (ok node) s =
        start_node-IsAwaited node (set_status id NodeStatus.running g) s

    pub run_node-IsAwaited : (g : TaskGraph) (s : S) → IsAwaited (run_node services id g s)
    unfolding run_node
    run_node-IsAwaited g s = run_found-IsAwaited g (get id g) s
