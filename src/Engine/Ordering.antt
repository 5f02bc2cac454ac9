-- ===== src/Engine/Ordering.antt =====
-- engine/executionEngine.ts: a node is run after what it depends on has succeeded.
use prism_spectra.Common.{
  ℕ, zero, suc, ◌≡◌, ◌⊎◌, refl, sym, ap, ◌∙◌, subst, inl, inr, Bool, true, false, List, [], ◌∷◌,
  ◌++◌, Option, none, some, String, ◌==◌, string_eq, In, Bool-cases, eq_of_beq, some_inj,
}
use prism_spectra.Types.{GraphNode, NodeStatus, pending, ready, running, success, failed, blocked}
use prism_spectra.Graph.{TaskGraph, Result, ok, throw, find_node, ready_node_ids, is_settled}
use prism_spectra.Graph.Status.{Evolves, AllEvolve, IsOpen}
use prism_spectra.Engine.{
  Services, NodeRun, ran, broke, graph_threw, waits, NodeRunLog, GraphRun, finished, run_node,
  go_on, run_ready, run_round, run_loop, run,
}
use prism_spectra.Engine.Steps.{run_node-ran, IsRun-AllEvolve}
use prism_spectra.Engine.Progress.{IsReady, ready_node_ids-first}

abbrev pub IsStarted : NodeStatus → Type 0
IsStarted pending = ⊥
IsStarted ready = ⊥
IsStarted blocked = ⊥
IsStarted running = Unit
IsStarted success = Unit
IsStarted failed = Unit

abbrev pub HasSucceeded : String → List GraphNode → Type 0
HasSucceeded d ns = (m : GraphNode) × (find_node d ns ≡ some m) × (m.status ≡ success)

-- Each node that was started depends on nodes that have succeeded.
abbrev pub IsOrdered : List GraphNode → Type 0
IsOrdered ns =
    (x : String) (n : GraphNode)
    → find_node x ns ≡ some n
    → IsStarted n.status
    → (d : String) → In d n.packet.dependencies
    → HasSucceeded d ns

-- What evolves to a node was one.
Evolves-back :
    (mine : Bool) (o : Option GraphNode) (n' : GraphNode)
    → Evolves mine o (some n')
    → (n : GraphNode) × (o ≡ some n)
      × (n'.packet ≡ n.packet)
      × ((mine ≡ true) ⊎ ((n'.status ≡ n.status) ⊎ (IsOpen n.status × (n'.status ≡ blocked))))
Evolves-back mine none n' h = elim h [ ]
Evolves-back mine (some n) n' (e, h) = (n, refl, e, h)

-- A node that has succeeded, and is not the one that is run, stays so.
Evolves-success :
    (o' : Option GraphNode) (m : GraphNode)
    → m.status ≡ success
    → Evolves false (some m) o'
    → (m' : GraphNode) × (o' ≡ some m') × (m'.status ≡ success)
Evolves-success none m p h = elim h [ ]
Evolves-success (some m') m p (e, inl q) = let never : false ≡ true = q in cc
Evolves-success (some m') m p (e, inr (inl q)) = (m', refl, q ∙ p)
Evolves-success (some m') m p (e, inr (inr (inl q, _))) =
    let never : success ≡ pending = sym p ∙ q in cc
Evolves-success (some m') m p (e, inr (inr (inr q, _))) =
    let never : success ≡ ready = sym p ∙ q in cc

module _ (id : String) (g g' : TaskGraph) (first : IsReady id g)
    (h : AllEvolve id g.nodes g'.nodes) where
  HasSucceeded-kept : (d : String) → HasSucceeded d g.nodes → HasSucceeded d g'.nodes
  HasSucceeded-kept d (m, found, p) = elim (Bool-cases (id == d)) [
    | inl e ↦
        let same : some m ≡ some first.node =
          sym found ∙ ap (λ x. find_node x g.nodes) (sym (eq_of_beq id d e)) ∙ first.found in
        let never : success ≡ pending =
          sym p ∙ ap (λ n. n.status) (some_inj same) ∙ first.is_pending in
        cc
    | inr e ↦ Evolves-success (find_node d g'.nodes) m p (
        subst (λ o. Evolves false o (find_node d g'.nodes)) found
          (subst (λ b. Evolves b (find_node d g.nodes) (find_node d g'.nodes)) e (h d)))
  ]

  -- The run of a ready node keeps the order.
  step-IsOrdered : IsOrdered g.nodes → IsOrdered g'.nodes
  step-IsOrdered o x n' found started d i =
      let (n, before, packet, how) =
        Evolves-back (id == x) (find_node x g.nodes) n'
          (subst (Evolves (id == x) (find_node x g.nodes)) found (h x)) in
      let j = subst (λ p. In d p.dependencies) packet i in
      HasSucceeded-kept d (elim how [
        | inl mine ↦
            let same : some n ≡ some first.node =
              sym before
              ∙ ap (λ y. find_node y g.nodes) (sym (eq_of_beq id x mine))
              ∙ first.found in
            first.dependencies d (subst (λ k. In d k.packet.dependencies) (some_inj same) j)
        | inr (inl kept) ↦ o x n before (subst IsStarted kept started) d j
        | inr (inr (_, shut)) ↦ elim (subst IsStarted shut started) [ ]
      ])

module _ {S : Type 0} (services : Services S) where
  -- The graph of a run that finished is ordered.
  abbrev pub EndsOrdered : GraphRun S → Type 0
  EndsOrdered (finished logs g s) = IsOrdered g.nodes
  EndsOrdered _ = Unit

  abbrev Keeps : (TaskGraph → S → List NodeRunLog → GraphRun S) → Type 0
  Keeps next =
      (g : TaskGraph) (s : S) (logs : List NodeRunLog)
      → IsOrdered g.nodes
      → EndsOrdered (next g s logs)

  go_on-EndsOrdered :
      (next : TaskGraph → S → List NodeRunLog → GraphRun S) (logs : List NodeRunLog) (r : NodeRun S)
      → Keeps next
      → ((log : NodeRunLog) (g : TaskGraph) (s : S) → r ≡ ran log g s → IsOrdered g.nodes)
      → EndsOrdered (go_on services next logs r)
  go_on-EndsOrdered next logs (ran log g s) h k = h g s (logs ++ log ∷ []) (k log g s refl)
  go_on-EndsOrdered next logs (broke why g s) h k = tt
  go_on-EndsOrdered next logs (graph_threw why) h k = tt
  go_on-EndsOrdered next logs (waits packet s) h k = tt

  run_ready-EndsOrdered :
      (next : TaskGraph → S → List NodeRunLog → GraphRun S) (g : TaskGraph) (s : S)
      (logs : List NodeRunLog) (res : Result (List String))
      → ready_node_ids g ≡ res
      → Keeps next
      → IsOrdered g.nodes
      → EndsOrdered (run_ready services next g s logs res)
  unfolding run_ready
  run_ready-EndsOrdered next g s logs (throw why) e h o = tt
  run_ready-EndsOrdered next g s logs (ok []) e h o = o
  run_ready-EndsOrdered next g s logs (ok (id ∷ ids)) e h o =
      go_on-EndsOrdered next logs (run_node services id g s) h (λ log g' s' q.
        step-IsOrdered id g g' (ready_node_ids-first g id ids e)
          (IsRun-AllEvolve services id g g' (run_node-ran services id log g' s' g s q)) o)

  run_round-EndsOrdered :
      (next : TaskGraph → S → List NodeRunLog → GraphRun S) (g : TaskGraph) (s : S)
      (logs : List NodeRunLog) (res : Result Bool)
      → Keeps next
      → IsOrdered g.nodes
      → EndsOrdered (run_round services next g s logs res)
  unfolding run_round
  run_round-EndsOrdered next g s logs (throw why) h o = tt
  run_round-EndsOrdered next g s logs (ok true) h o = o
  run_round-EndsOrdered next g s logs (ok false) h o =
      run_ready-EndsOrdered next g s logs (ready_node_ids g) refl h o

  run_loop-EndsOrdered : (n : ℕ) → Keeps (run_loop services n)
  unfolding run_loop
  run_loop-EndsOrdered zero g s logs o = tt
  run_loop-EndsOrdered (suc n) g s logs o =
      run_round-EndsOrdered (run_loop services n) g s logs (is_settled g) (run_loop-EndsOrdered n) o

  -- Whatever the services do: when a sequential run of a graph whose nodes were all pending has
  -- finished, then each node that succeeded, failed or was left running depends only on nodes that
  -- have succeeded.
  pub run-EndsOrdered :
      (n : ℕ) (g : TaskGraph) (s : S)
      → ((x : String) (k : GraphNode) → find_node x g.nodes ≡ some k → k.status ≡ pending)
      → EndsOrdered (run services n g s)
  unfolding run
  run-EndsOrdered n g s fresh =
      run_loop-EndsOrdered n g s []
        (λ x k found started. elim (subst IsStarted (fresh x k found) started) [ ])
