-- ===== src/Engine/Progress.antt =====
-- engine/executionEngine.ts: the run of a graph ends, and nothing is ready then.
use prism_spectra.Common.{
  ℕ, zero, suc, ◌<◌, ◌≡◌, refl, sym, ap, ◌∙◌, inl, inr, Bool, true, false, List, [], ◌∷◌, ◌++◌,
  none, some, String, ◌==◌, if◌then◌else◌, any_of, In, arith, Bool-cases, is_empty, subst, not,
  eq_of_beq,
}
use prism_spectra.Types.{GraphNode, status_eq, pending, running, success}
use prism_spectra.Graph.{
  TaskGraph, Result, ok, throw, ◌>>=◌, find_node, get, all_success, is_ready, ready_among,
  ready_node_ids, is_settled,
}
use prism_spectra.Graph.Acyclic.{>>=-eq-ok}
use prism_spectra.Graph.Failure.{ok_inj}
use prism_spectra.Graph.Status.{get-ok, pending_count}
use prism_spectra.Engine.{
  Services, NodeRun, ran, broke, graph_threw, waits, NodeRunLog, GraphRun, finished, aborted,
  graph_error, waiting, is_terminal, cut_off, run_node, go_on, run_ready, run_round, run_loop, run,
}
use prism_spectra.Engine.Waiting.{IsAwaited, run_node-IsAwaited}
use prism_spectra.Engine.Steps.{run_node-ran, IsRun-pending_lt}

all_success-In :
    (ds : List String) (g : TaskGraph) (d : String)
    → all_success ds g ≡ ok true
    → In d ds
    → (m : GraphNode) × (find_node d g.nodes ≡ some m) × (m.status ≡ success)
unfolding all_success
all_success-In [] g d h i = elim i [ ]
all_success-In (e ∷ ds) g d h i =
    let (m, found, k) =
      >>=-eq-ok (get e g) (λ n. if n.status == success then all_success ds g else ok false) h in
    elim (Bool-cases (m.status == success)) [
      | inl p ↦ elim i [
        | inl q ↦
            (m, ap (λ x. find_node x g.nodes) q ∙ get-ok e g m found, eq_of_beq m.status success p)
        | inr j ↦
            all_success-In ds g d (ap (λ b. if b then all_success ds g else ok false) (sym p) ∙ k) j
      ]
      | inr p ↦
          let never : ok false ≡ ok true =
            ap (λ b. if b then all_success ds g else ok false) (sym p) ∙ k in
          let differ : false ≡ true = ok_inj never in cc
    ]

-- A ready node is pending, and what it depends on has succeeded.
pub record IsReady (id : String) (g : TaskGraph) : Type 0 where
  pub node : GraphNode
  pub found : find_node id g.nodes ≡ some node
  pub is_pending : node.status ≡ pending
  pub dependencies :
      (d : String)
      → In d node.packet.dependencies
      → (m : GraphNode) × (find_node d g.nodes ≡ some m) × (m.status ≡ success)

is_ready-true : (id : String) (g : TaskGraph) → is_ready id g ≡ ok true → IsReady id g
unfolding is_ready
is_ready-true id g h =
    let (n, found, k) =
      >>=-eq-ok (get id g)
        (λ n. if not (n.status == pending) then ok false else all_success n.packet.dependencies g)
        h in
    let (p, q) = pending_branch (n.status == pending) (all_success n.packet.dependencies g) k in
    record {
      node = n;
      found = get-ok id g n found;
      is_pending = eq_of_beq n.status pending p;
      dependencies = λ d i. all_success-In n.packet.dependencies g d q i;
    }
  where
    pending_branch :
        (b : Bool) (r : Result Bool)
        → (if not b then ok false else r) ≡ ok true
        → (b ≡ true) × (r ≡ ok true)
    pending_branch true r e = (refl, e)
    pending_branch false r e = let differ : false ≡ true = ok_inj e in cc

ready_among-first :
    (ns : List GraphNode) (g : TaskGraph) (id : String) (ids : List String)
    → ready_among ns g ≡ ok (id ∷ ids)
    → IsReady id g
unfolding ready_among
ready_among-first [] g id ids h = let e = ap is_empty (ok_inj h) in cc
ready_among-first (n ∷ ns) g id ids h =
    let (r, first, k) =
      >>=-eq-ok (is_ready n.id g)
        (λ r. ready_among ns g >>= λ rest. ok (if r then n.id ∷ rest else rest)) h in
    let (rest, others, e) =
      >>=-eq-ok (ready_among ns g) (λ rest. ok (if r then n.id ∷ rest else rest)) k in
    elim (Bool-cases r) [
      | inl p ↦
          let same : n.id ∷ rest ≡ id ∷ ids =
            ap (λ b. if b then n.id ∷ rest else rest) (sym p) ∙ ok_inj e in
          let head : n.id ≡ id = cc in
          subst (λ x. IsReady x g) head (is_ready-true n.id g (first ∙ ap ok p))
      | inr p ↦
          let same : rest ≡ id ∷ ids =
            ap (λ b. if b then n.id ∷ rest else rest) (sym p) ∙ ok_inj e in
          ready_among-first ns g id ids (others ∙ ap ok same)
    ]

pub ready_node_ids-first :
    (g : TaskGraph) (id : String) (ids : List String)
    → ready_node_ids g ≡ ok (id ∷ ids)
    → IsReady id g
unfolding ready_node_ids
ready_node_ids-first g id ids h = ready_among-first g.nodes g id ids h

empty_of : (ids : List String) → is_empty ids ≡ true → ids ≡ []
empty_of [] h = refl
empty_of (id ∷ ids) h = cc

is_settled-true : (g : TaskGraph) → is_settled g ≡ ok true → ready_node_ids g ≡ ok []
unfolding is_settled
is_settled-true g h =
    go (any_of (λ n. n.status == running) g.nodes) (ready_node_ids g >>= λ r. ok (is_empty r)) h
      refl
  where
    go :
        (b : Bool) (x : Result Bool)
        → (if b then ok false else x) ≡ ok true
        → (ready_node_ids g >>= λ r. ok (is_empty r)) ≡ x
        → ready_node_ids g ≡ ok []
    go true x k e = let differ : false ≡ true = ok_inj k in cc
    go false x k e =
        let (r, ready, m) = >>=-eq-ok (ready_node_ids g) (λ r. ok (is_empty r)) (e ∙ k) in
        ready ∙ ap ok (empty_of r (ok_inj m))

module _ {S : Type 0} (services : Services S) where
  -- A run that was not cut off: if it finished, then no node of its graph is ready, and if it waits,
  -- then it has called a cascade that never returns.
  abbrev pub IsOver : GraphRun S → Type 0
  IsOver cut_off = ⊥
  IsOver (graph_error e) = Unit
  IsOver (waiting packet s) = services.cascade packet (not (is_terminal packet.node_type)) s ≡ none
  IsOver (aborted why g s) = Unit
  IsOver (finished logs g s) = ready_node_ids g ≡ ok []

  -- The next rounds end if there are fewer pending nodes then.
  abbrev Ends : ℕ → (TaskGraph → S → List NodeRunLog → GraphRun S) → Type 0
  Ends n next =
      (g : TaskGraph) (s : S) (logs : List NodeRunLog)
      → pending_count g.nodes < n
      → IsOver (next g s logs)

  go_on-IsOver :
      (n : ℕ) (next : TaskGraph → S → List NodeRunLog → GraphRun S) (logs : List NodeRunLog)
      (r : NodeRun S)
      → Ends n next
      → ((log : NodeRunLog) (g : TaskGraph) (s : S) → r ≡ ran log g s → pending_count g.nodes < n)
      → IsAwaited services r
      → IsOver (go_on services next logs r)
  go_on-IsOver n next logs (ran log g s) h k w = h g s (logs ++ log ∷ []) (k log g s refl)
  go_on-IsOver n next logs (broke why g s) h k w = tt
  go_on-IsOver n next logs (graph_threw why) h k w = tt
  go_on-IsOver n next logs (waits packet s) h k w = w

  run_ready-IsOver :
      (n : ℕ) (next : TaskGraph → S → List NodeRunLog → GraphRun S) (g : TaskGraph) (s : S)
      (logs : List NodeRunLog) (res : Result (List String))
      → ready_node_ids g ≡ res
      → Ends n next
      → pending_count g.nodes < suc n
      → IsOver (run_ready services next g s logs res)
  unfolding run_ready
  run_ready-IsOver n next g s logs (throw why) e h p = tt
  run_ready-IsOver n next g s logs (ok []) e h p = e
  run_ready-IsOver n next g s logs (ok (id ∷ ids)) e h p =
      go_on-IsOver n next logs (run_node services id g s) h
        (λ log g' s' q.
          let first = ready_node_ids-first g id ids e in
          let fewer =
            IsRun-pending_lt services id g g' first.node (run_node-ran services id log g' s' g s q)
              first.found first.is_pending in
          omega (arith, fewer, p))
        (run_node-IsAwaited services id g s)

  run_round-IsOver :
      (n : ℕ) (next : TaskGraph → S → List NodeRunLog → GraphRun S) (g : TaskGraph) (s : S)
      (logs : List NodeRunLog) (res : Result Bool)
      → is_settled g ≡ res
      → Ends n next
      → pending_count g.nodes < suc n
      → IsOver (run_round services next g s logs res)
  unfolding run_round
  run_round-IsOver n next g s logs (throw why) e h p = tt
  run_round-IsOver n next g s logs (ok true) e h p = is_settled-true g e
  run_round-IsOver n next g s logs (ok false) e h p =
      run_ready-IsOver n next g s logs (ready_node_ids g) refl h p

  run_loop-IsOver : (n : ℕ) → Ends n (run_loop services n)
  unfolding run_loop
  run_loop-IsOver zero g s logs p = omega (arith, p)
  run_loop-IsOver (suc n) g s logs p =
      run_round-IsOver n (run_loop services n) g s logs (is_settled g) refl (run_loop-IsOver n) p

  -- Whatever the services do: within one round more than the graph has pending nodes, a sequential run
  -- has finished with no node ready, or was ended by an error, or waits for a cascade that it has called
  -- and that never returns.
  pub run-IsOver :
      (n : ℕ) (g : TaskGraph) (s : S) → pending_count g.nodes < n → IsOver (run services n g s)
  unfolding run
  run-IsOver n g s p = run_loop-IsOver n g s [] p
