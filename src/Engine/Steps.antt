-- ===== src/Engine/Steps.antt =====
-- engine/executionEngine.ts: what a run of a node that returns did to the graph.
use prism_spectra.Common.{
  ◌≤◌, ◌<◌, ◌≡◌, ◌⊎◌, refl, sym, ap, inl, inr, Bool, true, false, Option, none, some, String,
  string_eq, if◌then◌else◌, arith, subst,
}
use prism_spectra.Types.{GraphNode, NodeStatus, status_eq, TaskPacket, ExecutionResult}
use prism_spectra.Cascade.{Execution}
use prism_spectra.Graph.{TaskGraph, Result, ok, throw, find_node, get, set_status}
use prism_spectra.Graph.Failure.{ok_inj}
use prism_spectra.Graph.Status.{
  AllEvolve, AllEvolve-trans, update_node-AllEvolve, set_status-AllEvolve, mark_failed-AllEvolve,
  pending_count, update_node-pending_le, set_status-pending_le, set_status-pending_lt,
  mark_failed-pending_le,
}
use prism_spectra.Engine.{
  Services, Awaited, returned, raised, ValidationOutcome, NodeRun, ran, NodeRunLog, with_result,
  set_result, settle_passed, settle_failed, recorded, report, remembered, kept, rolled_back, settle,
  checkpointed, outcome_of, log_of, executed, start_node, run_found, run_node, apply_to,
  validation_of, failed_result,
}

module _ {S : Type 0} (services : Services S) where
  -- The graph behind a run of a node: its status is set to running, and then it succeeds or fails.
  abbrev pub IsRun : String → TaskGraph → TaskGraph → Type 0
  IsRun id g g' =
      (g1 : TaskGraph) × (set_status id NodeStatus.running g ≡ ok g1)
      × ((r : ExecutionResult) × ((settle_passed services id r g1 ≡ ok g')
            ⊎ (settle_failed services id r g1 ≡ ok g')))

  -- The same for the part behind the change to running.
  abbrev IsEnd : String → TaskGraph → TaskGraph → Type 0
  IsEnd id g1 g' =
      (r : ExecutionResult) × ((settle_passed services id r g1 ≡ ok g')
        ⊎ (settle_failed services id r g1 ≡ ok g'))

  module _ (id : String) (log : NodeRunLog) (g' : TaskGraph) (s' : S) where
    recorded-ran :
        (log0 : NodeRunLog) (g : TaskGraph) (p : Awaited Unit × S)
        → recorded services log0 g p ≡ ran log g' s'
        → g ≡ g'
    recorded-ran log0 g (raised why, s) h = cc
    recorded-ran log0 g (returned _, s) h = cc

    report-ran :
        (packet : TaskPacket) (e : Execution) (r : ExecutionResult) (s : S) (res : Result TaskGraph)
        → report services id packet e r s res ≡ ran log g' s'
        → res ≡ ok g'
    unfolding report
    report-ran packet e r s (throw why) h = cc
    report-ran packet e r s (ok g) h =
        let outcome = outcome_of services g id packet r in
        ap ok (recorded-ran (log_of services id e r) g (services.record_outcome packet outcome s) h)

    kept-ran :
        (packet : TaskPacket) (e : Execution) (r : ExecutionResult) (res : Result TaskGraph)
        (p : Awaited Unit × S)
        → kept services id packet e r res p ≡ ran log g' s'
        → res ≡ ok g'
    unfolding kept
    kept-ran packet e r (throw why) p h = cc
    kept-ran packet e r (ok g) (raised why, s) h = cc
    kept-ran packet e r (ok g) (returned _, s) h = report-ran packet e r s (ok g) h

    rolled_back-ran :
        (packet : TaskPacket) (e : Execution) (r : ExecutionResult) (g : TaskGraph)
        (p : Awaited Unit × S)
        → rolled_back services id packet e r g p ≡ ran log g' s'
        → settle_failed services id r g ≡ ok g'
    unfolding rolled_back
    rolled_back-ran packet e r g (raised why, s) h = cc
    rolled_back-ran packet e r g (returned _, s) h =
        report-ran packet e r s (settle_failed services id r g) h

    settle-ran :
        (packet : TaskPacket) (e : Execution) (r : ExecutionResult) (g : TaskGraph)
        (p : ValidationOutcome × S)
        → settle services id packet e r g p ≡ ran log g' s'
        → IsEnd id g g'
    unfolding settle
    settle-ran packet e r g (v, s) h =
        either v.passed _ _ h
          (λ k. (
            r,
            inl (
                kept-ran packet e r (settle_passed services id r g) (remembered services packet r s)
                  k),
          ))
          (λ k. (
            failed_result services r v.reason,
            inr (
                rolled_back-ran packet e (failed_result services r v.reason) g
                  (services.rollback id s) k),
          ))
      where
        either :
            (b : Bool) (x y : NodeRun S)
            → (if b then x else y) ≡ ran log g' s'
            → (x ≡ ran log g' s' → IsEnd id g g')
            → (y ≡ ran log g' s' → IsEnd id g g')
            → IsEnd id g g'
        either true x y e p q = p e
        either false x y e p q = q e

    checkpointed-ran :
        (packet : TaskPacket) (e : Execution) (r : ExecutionResult) (g : TaskGraph)
        (p : Awaited Unit × S)
        → checkpointed services id packet e r g p ≡ ran log g' s'
        → IsEnd id g g'
    unfolding checkpointed
    checkpointed-ran packet e r g (raised why, s) h = cc
    checkpointed-ran packet e r g (returned _, s) h =
        settle-ran packet e r g (validation_of services packet r s) h

    executed-ran :
        (packet : TaskPacket) (g : TaskGraph) (called : S) (o : Option (Awaited Execution × S))
        → executed services id packet g called o ≡ ran log g' s'
        → IsEnd id g g'
    unfolding executed
    executed-ran packet g called none h = cc
    executed-ran packet g called (some (raised why, s)) h = cc
    executed-ran packet g called (some (returned e, s)) h =
        checkpointed-ran packet e (apply_to services e.result s).0 g _ h

    start_node-ran :
        (node : GraphNode) (res : Result TaskGraph) (s : S)
        → start_node services id node res s ≡ ran log g' s'
        → (g1 : TaskGraph) × (res ≡ ok g1) × IsEnd id g1 g'
    unfolding start_node
    start_node-ran node (throw why) s h = cc
    start_node-ran node (ok g) s h = (g, refl, executed-ran node.packet g s _ h)

    run_found-ran :
        (g : TaskGraph) (res : Result GraphNode) (s : S)
        → run_found services id g res s ≡ ran log g' s'
        → IsRun id g g'
    unfolding run_found
    run_found-ran g (throw why) s h = cc
    run_found-ran g (ok node) s h = start_node-ran node (set_status id NodeStatus.running g) s h

    pub run_node-ran :
        (g : TaskGraph) (s : S) → run_node services id g s ≡ ran log g' s' → IsRun id g g'
    unfolding run_node
    run_node-ran g s h = run_found-ran g (get id g) s h

  set_result-AllEvolve :
      (id : String) (r : ExecutionResult) (g : TaskGraph)
      → AllEvolve id g.nodes (set_result services id r g).nodes
  unfolding set_result
  set_result-AllEvolve id r g =
      update_node-AllEvolve id (with_result services r) g.nodes (λ n. refl) (λ n. refl)

  set_result-pending_le :
      (id : String) (r : ExecutionResult) (g : TaskGraph)
      → pending_count (set_result services id r g).nodes ≤ pending_count g.nodes
  unfolding set_result
  set_result-pending_le id r g =
      update_node-pending_le id (with_result services r) g.nodes (λ n h. h)

  settle_passed-set :
      (id : String) (r : ExecutionResult) (g g' : TaskGraph)
      → settle_passed services id r g ≡ ok g'
      → (g2 : TaskGraph) × (set_status id NodeStatus.success g ≡ ok g2)
        × (g' ≡ set_result services id r g2)
  unfolding settle_passed
  settle_passed-set id r g g' h = go (set_status id NodeStatus.success g) refl h
    where
      go :
          (x : Result TaskGraph)
          → set_status id NodeStatus.success g ≡ x
          → elim x as (λ _. Result TaskGraph) [
            | ok g2 ↦ ok (set_result services id r g2)
            | throw e ↦ throw e
          ]
            ≡ ok g'
          → (g2 : TaskGraph) × (set_status id NodeStatus.success g ≡ ok g2)
            × (g' ≡ set_result services id r g2)
      go (ok g2) e k = (g2, e, sym (ok_inj k))
      go (throw why) e k = cc

  -- A run that returns evolves the graph, and leaves fewer pending nodes if its node was pending.
  pub IsRun-AllEvolve :
      (id : String) (g g' : TaskGraph) → IsRun id g g' → AllEvolve id g.nodes g'.nodes
  unfolding settle_failed
  IsRun-AllEvolve id g g' (g1, set, (r, inl h)) =
      let (g2, succeeded, e) = settle_passed-set id r g1 g' h in
      let second =
        AllEvolve-trans id g1.nodes g2.nodes (set_result services id r g2).nodes
          (set_status-AllEvolve id NodeStatus.success g1 g2 succeeded)
          (set_result-AllEvolve id r g2) in
      subst (λ (t : TaskGraph). AllEvolve id g.nodes t.nodes) (sym e)
        (AllEvolve-trans id g.nodes g1.nodes (set_result services id r g2).nodes
          (set_status-AllEvolve id NodeStatus.running g g1 set) second)
  IsRun-AllEvolve id g g' (g1, set, (r, inr h)) =
      let stored = set_result services id r g1 in
      AllEvolve-trans id g.nodes g1.nodes g'.nodes
        (set_status-AllEvolve id NodeStatus.running g g1 set)
        (AllEvolve-trans id g1.nodes stored.nodes g'.nodes (set_result-AllEvolve id r g1)
          (mark_failed-AllEvolve id stored g' h))

  pub IsRun-pending_lt :
      (id : String) (g g' : TaskGraph) (n : GraphNode)
      → IsRun id g g'
      → find_node id g.nodes ≡ some n
      → n.status ≡ NodeStatus.pending
      → pending_count g'.nodes < pending_count g.nodes
  unfolding settle_failed
  IsRun-pending_lt id g g' n (g1, set, (r, inl h)) found p =
      let (g2, succeeded, e) = settle_passed-set id r g1 g' h in
      let first = set_status-pending_lt id NodeStatus.running g g1 n refl found p set in
      let second = set_status-pending_le id NodeStatus.success g1 g2 refl succeeded in
      let third = set_result-pending_le id r g2 in
      let same = ap (λ (t : TaskGraph). pending_count t.nodes) e in
      omega (arith, first, second, third, same)
  IsRun-pending_lt id g g' n (g1, set, (r, inr h)) found p =
      let first = set_status-pending_lt id NodeStatus.running g g1 n refl found p set in
      let second = set_result-pending_le id r g1 in
      let third = mark_failed-pending_le id (set_result services id r g1) g' h in
      omega (arith, first, second, third)
