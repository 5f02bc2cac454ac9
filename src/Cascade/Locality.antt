-- ===== src/Cascade/Locality.antt =====
-- A local-only request in `executeWithCascade`.
use prism_spectra.Common.{
  ℕ, ◌≡◌, ◌≢◌, ◌⊎◌, inl, inr, true, false, List, [], Option, none, some, arith, Bool-cases, sym,
  subst, ◌∙◌, ap, refl, ◌==◌, some_inj, not,
}
use prism_spectra.Types.{
  ExecutorName, executor_eq, executor_beq_iff, ollama, NodeType, node_type_eq, node_type_beq_iff,
  TaskPacket, FallbackReason, ExecutionResult, local, data_boundary_for,
}
use prism_spectra.Ledger.{Table}
use prism_spectra.LearningLoop.{Weights}
use prism_spectra.Router.{Availability, RouteDecisionHint, RouteDecision, route, is_local_only}
use prism_spectra.Router.Safety.{route-safe}
use prism_spectra.Cascade.{
  Reply, returned, thrown, World, CacheLookup, Outcome, done, threw, out_of_fuel, LoopState,
  merge_retry, low_confidence_fallback_reason, after_first_call, run_first, execute_routed,
  execute_with_cascade, is_non_local_hit, first_state, if_executor, no_provider, note_reason,
  from_cache, leave_if,
}
use prism_spectra.Cascade.Rule.{Rule, cascade_loop_ind}

-- Each executor signs its results with its own name.
abbrev pub IsHonest : (ExecutorName → Reply) → Type 0
IsHonest execute =
    (p : ExecutorName) (r : ExecutionResult) → execute p ≡ returned r → r.provider ≡ p

abbrev pub IsHome : ExecutorName → Type 0
IsHome p = data_boundary_for p ≡ local

-- Where the outcome came from, be it a result or an error.
abbrev pub StaysHome : Outcome → Type 0
StaysHome out_of_fuel = Unit
StaysHome (done e t) = IsHome e.result.provider
StaysHome (threw e t) = IsHome e.executor

terminal_packet :
    (a : Availability) (ws : Weights) (now : ℕ) (packet : TaskPacket) (exclude : List ExecutorName)
    (hint : Option RouteDecisionHint) (t : Table)
    → packet.node_type ≡ NodeType.terminal
    → (route a ws now packet exclude hint t).0.executor ≡ some ExecutorName.terminal
unfolding route
terminal_packet a ws now packet exclude hint t e =
    ground (arith, node_type_beq_iff packet.node_type NodeType.terminal)

NodeType-terminal-cases : (nt : NodeType) → (nt ≡ NodeType.terminal) ⊎ (nt ≢ NodeType.terminal)
NodeType-terminal-cases nt = elim (Bool-cases (nt == NodeType.terminal)) [
  | inl e ↦ inl ((node_type_beq_iff nt NodeType.terminal).0 e)
  | inr e ↦ inr (ground (arith, node_type_beq_iff nt NodeType.terminal))
]

route-IsHome :
    (a : Availability) (ws : Weights) (now : ℕ) (packet : TaskPacket) (exclude : List ExecutorName)
    (hint : Option RouteDecisionHint) (t : Table) (p : ExecutorName)
    → is_local_only packet ≡ true
    → (route a ws now packet exclude hint t).0.executor ≡ some p
    → IsHome p
unfolding data_boundary_for
route-IsHome a ws now packet exclude hint t p lo e =
    elim (NodeType-terminal-cases packet.node_type) [
      | inl nt ↦
          let same : ExecutorName.terminal ≡ p =
            some_inj (sym (terminal_packet a ws now packet exclude hint t nt) ∙ e) in
          subst IsHome same refl
      | inr nt ↦
          let (_, _, _, _, home) = route-safe a ws now packet exclude hint t p nt e in
          subst IsHome (sym (home lo)) refl
    ]

note_reason-provider :
    (why : Option FallbackReason) (r : ExecutionResult) → (note_reason why r).provider ≡ r.provider
note_reason-provider why r = ground arith

module _ (w : World) (packet : TaskPacket) (honest : IsHonest w.execute)
    (lo : is_local_only packet ≡ true) where
  abbrev AtHome : LoopState → Type 0
  AtHome s = IsHome s.result.provider

  rule : Rule w packet AtHome StaysHome
  unfolding merge_retry
  rule = record {
    cut = tt;
    stop = λ s h. h;
    give_up = λ s p h r f.
        subst IsHome
          (sym (
            note_reason-provider (low_confidence_fallback_reason w.confidence_threshold s.result)
              s.result))
          h;
    raise = λ s p q m h r f g.
        route-IsHome w.availability w.weights (w.clock s.round) packet _ (w.hint s.round) s.table q
          lo f;
    keep = λ s p q again h r f g. subst IsHome (sym (honest q again g)) (
        route-IsHome w.availability w.weights (w.clock s.round) packet _ (w.hint s.round) s.table q
          lo f);
  }

  after_first_call-StaysHome :
      (fuel : ℕ) (d : RouteDecision) (t : Table) (p : ExecutorName) (r : Reply)
      → w.execute p ≡ r
      → IsHome p
      → StaysHome (after_first_call fuel w packet d t p r)
  after_first_call-StaysHome fuel d t p (thrown m) e h = h
  after_first_call-StaysHome fuel d t p (returned r) e h =
      cascade_loop_ind rule fuel (first_state d r t) (subst IsHome (sym (honest p r e)) h)

  run_first-StaysHome :
      (fuel : ℕ) (d : RouteDecision) (t : Table)
      → ((p : ExecutorName) → d.executor ≡ some p → IsHome p)
      → StaysHome (run_first fuel w packet d t)
  unfolding data_boundary_for
  run_first-StaysHome fuel d t h = go d.executor refl
    where
      go :
          (o : Option ExecutorName)
          → d.executor ≡ o
          → StaysHome (
              if_executor o
                (done (no_provider d) t)
                (λ p. after_first_call fuel w packet d t p (w.execute p)))
      go none e = refl
      go (some p) e = after_first_call-StaysHome fuel d t p (w.execute p) refl (h p e)

  execute_routed-StaysHome : (fuel : ℕ) (t : Table) → StaysHome (execute_routed fuel w packet t)
  unfolding execute_routed
  execute_routed-StaysHome fuel t =
      let (d, rolled) = route w.availability w.weights (w.clock 0) packet [] (w.hint 0) t in
      run_first-StaysHome fuel d rolled
        (λ p e. route-IsHome w.availability w.weights (w.clock 0) packet [] (w.hint 0) t p lo e)

  IsHome-hit : (c : CacheLookup) → is_non_local_hit packet c ≡ false → IsHome c.origin_provider
  unfolding data_boundary_for
  IsHome-hit c e = ground (arith, executor_beq_iff c.origin_provider ollama)

  -- A local-only request is served on this machine: whatever the cache, the ledger, the clock and the
  -- hints say, its result and its error come from a provider whose data boundary is local, if each
  -- executor signs its results with its own name. The model's own cut-off is left out.
  pub execute_with_cascade-StaysHome :
      (fuel : ℕ) (cached : Option CacheLookup) (t : Table)
      → StaysHome (execute_with_cascade fuel w packet cached t)
  unfolding execute_with_cascade data_boundary_for
  execute_with_cascade-StaysHome fuel none t = execute_routed-StaysHome fuel t
  execute_with_cascade-StaysHome fuel (some c) t = elim (Bool-cases (is_non_local_hit packet c)) [
    | inl e ↦
        subst StaysHome
          (sym (
            ap (λ b. leave_if (not b) (done (from_cache c) t) (λ _. execute_routed fuel w packet t))
              e))
          (execute_routed-StaysHome fuel t)
    | inr e ↦
        subst StaysHome
          (sym (
            ap (λ b. leave_if (not b) (done (from_cache c) t) (λ _. execute_routed fuel w packet t))
              e))
          (IsHome-hit c e)
  ]
