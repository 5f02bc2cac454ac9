-- ===== src/Cascade/Termination.antt =====
-- Whether `executeWithCascade` comes to an end.
use prism_spectra.Common.{
  ℕ, zero, suc, ◌+◌, ◌<◌, ◌≡◌, ◌≢◌, inl, inr, Bool, true, false, not, ◌||◌, List, [], ◌∷◌, ◌++◌,
  Option, none, some, arith, Bool-cases, Option-cases, sym, ◌∙◌, refl, ◌==◌, includes,
  if◌then◌else◌,
}
use prism_spectra.Types.{
  ExecutorName, executor_eq, ollama, free_tier, gpt, claude, NodeType, node_type_eq,
  node_type_beq_iff, TaskPacket, ExecutionResult,
}
use prism_spectra.Ledger.{Table}
use prism_spectra.Router.{RouteDecision, RouteDecisionHint, route}
use prism_spectra.Router.Safety.{route-safe}
use prism_spectra.Cascade.{
  Reply, returned, thrown, World, CacheLookup, done, out_of_fuel, LoopState, rerouted, after_call,
  merge_retry, is_good, low_confidence_fallback_reason, cascade_loop, after_first_call, run_first,
  execute_routed, execute_with_cascade, is_non_local_hit, first_state, if_executor, no_provider,
  from_cache, leave_if,
}
use prism_spectra.Cascade.Rule.{
  Retries, merged, retry-none, retry-some, run_first-some, cascade_loop-retry, cascade_loop-stop,
}

-- How many of the four tiers have not been tried.
untried : List ExecutorName → ℕ
untried tried =
    (if includes tried ollama then 0 else 1)
    + (if includes tried free_tier then 0 else 1)
    + (if includes tried gpt then 0 else 1)
    + (if includes tried claude then 0 else 1)

includes-snoc :
    (xs : List ExecutorName) (p q : ExecutorName)
    → includes (xs ++ p ∷ []) q ≡ (includes xs q || p == q)
includes-snoc [] p q = ground arith
includes-snoc (x ∷ xs) p q = ground (arith, includes-snoc xs p q)

untried-lt :
    (tried : List ExecutorName) (p : ExecutorName)
    → p ≢ ExecutorName.terminal
    → includes tried p ≡ false
    → untried (tried ++ p ∷ []) < untried tried
unfolding untried
untried-lt tried p h f = ground (
  arith,
  includes-snoc tried p ollama,
  includes-snoc tried p free_tier,
  includes-snoc tried p gpt,
  includes-snoc tried p claude,
)

-- The provider in charge is a tier that has not been tried.
record IsFresh (s : LoopState) : Type 0 where
  fresh :
      (p : ExecutorName)
      → s.executor ≡ some p
      → (includes s.tried p ≡ false) × (p ≢ ExecutorName.terminal)

module _ (w : World) (packet : TaskPacket) (nt : packet.node_type ≢ NodeType.terminal) where
  rerouted-IsFresh :
      (s : LoopState) (p q : ExecutorName)
      → (rerouted w packet p s).executor ≡ some q
      → (includes (s.tried ++ p ∷ []) q ≡ false) × (q ≢ ExecutorName.terminal)
  rerouted-IsFresh s p q e =
      let (fresh, tier, _, _, _) =
        route-safe w.availability w.weights (w.clock s.round) packet (s.tried ++ p ∷ [])
          (w.hint s.round) s.table q nt e in
      (fresh, tier)

  after_call_total :
      (fuel : ℕ) (s s' : LoopState) (q : ExecutorName) (r : Reply)
      → ((x : LoopState)
          → untried x.tried < fuel
          → IsFresh x
          → cascade_loop fuel w packet x ≢ out_of_fuel)
      → untried s'.tried < fuel
      → ((p : ExecutorName)
          → s'.executor ≡ some p
          → (includes s'.tried p ≡ false) × (p ≢ ExecutorName.terminal))
      → after_call (cascade_loop fuel w packet) w s s' q r ≢ out_of_fuel
  after_call_total fuel s s' q (thrown m) ih lt h = λ x. cc
  after_call_total fuel s s' q (returned again) ih lt h =
      ih
        (record s' {
          result =
              merge_retry s.result (low_confidence_fallback_reason w.confidence_threshold s.result)
                again;
        })
        lt (record { fresh = h })

  cascade_loop_total :
      (fuel : ℕ) (s : LoopState)
      → untried s.tried < fuel
      → IsFresh s
      → cascade_loop fuel w packet s ≢ out_of_fuel
  cascade_loop_total zero s lt h = elim lt [ ]
  cascade_loop_total (suc fuel) s lt h =
      elim (Option-cases (if w.fallback_on_failure then s.executor else none)) [
        | inl e ↦ λ x. cc (cascade_loop-stop fuel w packet s (inl e), x)
        | inr (p, e) ↦ elim (Bool-cases (is_good w s.result)) [
          | inl good ↦ λ x. cc (cascade_loop-stop fuel w packet s (inr good), x)
          | inr bad ↦
              let r : Retries w s p = record {
                fallback = ground arith;
                blamed = ground arith;
                bad = bad;
              } in
              let s' = rerouted w packet p s in
              let go = cascade_loop fuel w packet in
              let start = cascade_loop-retry fuel w packet s p r in
              elim (Option-cases s'.executor) [
                | inl f ↦ λ x. cc (start, retry-none go w s s' f, x)
                | inr (q, f) ↦
                    let fewer : untried s'.tried < fuel =
                      omega (
                        arith,
                        untried-lt s.tried p (h.fresh p r.blamed).1 (h.fresh p r.blamed).0,
                      ) in
                    λ x.
                      after_call_total fuel s s' q (w.execute q) (cascade_loop_total fuel) fewer
                        (λ y e. rerouted-IsFresh s p y e)
                        (sym (start ∙ retry-some go w s s' q f refl) ∙ x)
              ]
        ]
      ]

  after_first_call_total :
      (fuel : ℕ) (d : RouteDecision) (t : Table) (p : ExecutorName) (r : Reply)
      → 4 < fuel
      → ((q : ExecutorName) → d.executor ≡ some q → q ≢ ExecutorName.terminal)
      → after_first_call fuel w packet d t p r ≢ out_of_fuel
  unfolding untried
  after_first_call_total fuel d t p (thrown m) lt h = λ x. cc
  after_first_call_total fuel d t p (returned r) lt h =
      cascade_loop_total fuel (first_state d r t) lt (record { fresh = λ q e. (refl, h q e) })

  run_first_total :
      (fuel : ℕ) (d : RouteDecision) (t : Table)
      → 4 < fuel
      → ((q : ExecutorName) → d.executor ≡ some q → q ≢ ExecutorName.terminal)
      → run_first fuel w packet d t ≢ out_of_fuel
  run_first_total fuel d t lt h = go d.executor
    where
      go :
          (o : Option ExecutorName)
          → if_executor o
              (done (no_provider d) t)
              (λ p. after_first_call fuel w packet d t p (w.execute p))
            ≢ out_of_fuel
      go none = λ x. cc
      go (some p) = after_first_call_total fuel d t p (w.execute p) lt h

  execute_routed_total :
      (fuel : ℕ) (t : Table) → 4 < fuel → execute_routed fuel w packet t ≢ out_of_fuel
  unfolding execute_routed
  execute_routed_total fuel t lt =
      let (d, rolled) = route w.availability w.weights (w.clock 0) packet [] (w.hint 0) t in
      run_first_total fuel d rolled lt (λ q e.
        let (_, tier, _, _, _) =
          route-safe w.availability w.weights (w.clock 0) packet [] (w.hint 0) t q nt e in
        tier)

  -- For a node that is no terminal node the cascade ends: each retry is at a tier that has not been
  -- tried, so five rounds are enough, whatever the executors answer.
  pub execute_with_cascade_total :
      (fuel : ℕ) (cached : Option CacheLookup) (t : Table)
      → 4 < fuel
      → execute_with_cascade fuel w packet cached t ≢ out_of_fuel
  unfolding execute_with_cascade
  execute_with_cascade_total fuel none t lt = execute_routed_total fuel t lt
  execute_with_cascade_total fuel (some c) t lt = go (not (is_non_local_hit packet c))
    where
      go :
          (b : Bool)
          → leave_if b (done (from_cache c) t) (λ _. execute_routed fuel w packet t) ≢ out_of_fuel
      go true = λ x. cc
      go false = execute_routed_total fuel t lt

-- `route` sends a terminal node to the terminal, excluded or not.
terminal_again :
    (w : World) (packet : TaskPacket) (s : LoopState) (p : ExecutorName)
    → packet.node_type ≡ NodeType.terminal
    → (rerouted w packet p s).executor ≡ some ExecutorName.terminal
unfolding route
terminal_again w packet s p e = ground (arith, node_type_beq_iff packet.node_type NodeType.terminal)

module _ (w : World) (packet : TaskPacket) (nt : packet.node_type ≡ NodeType.terminal)
    (on : w.fallback_on_failure ≡ true) (r : ExecutionResult)
    (answer : w.execute ExecutorName.terminal ≡ returned r) (bad : r.success ≡ false) where
  terminal_loop :
      (fuel : ℕ) (s : LoopState)
      → s.executor ≡ some ExecutorName.terminal
      → s.result.success ≡ false
      → cascade_loop fuel w packet s ≡ out_of_fuel
  unfolding merge_retry cascade_loop
  terminal_loop zero s e f = refl
  terminal_loop (suc fuel) s e f =
      let p = ExecutorName.terminal in
      let again = terminal_again w packet s p nt in
      cascade_loop-retry fuel w packet s p
        (record { fallback = on; blamed = e; bad = ground arith })
      ∙ retry-some (cascade_loop fuel w packet) w s (rerouted w packet p s) p again answer
      ∙ terminal_loop fuel (merged w packet p s r) again bad

  first_terminal :
      (now : ℕ) (hint : Option RouteDecisionHint) (t : Table)
      → (route w.availability w.weights now packet [] hint t).0.executor
        ≡ some ExecutorName.terminal
  unfolding route
  first_terminal now hint t = ground (arith, node_type_beq_iff packet.node_type NodeType.terminal)

  -- A terminal node whose command fails is run again and again: with the fallback on and a command that
  -- always fails, no number of rounds ends the cascade.
  pub failing_terminal_never_ends :
      (fuel : ℕ) (t : Table) → execute_with_cascade fuel w packet none t ≡ out_of_fuel
  unfolding execute_with_cascade execute_routed
  failing_terminal_never_ends fuel t =
      let (d, rolled) = route w.availability w.weights (w.clock 0) packet [] (w.hint 0) t in
      let first = first_terminal (w.clock 0) (w.hint 0) t in
      run_first-some fuel w packet d rolled ExecutorName.terminal first answer
      ∙ terminal_loop fuel (first_state d r rolled) first bad
