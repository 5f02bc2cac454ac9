-- ===== src/Cascade.antt =====
-- engine/executionEngine.ts, `executeWithCascade`: the cache, the first route, and the retries at the
-- next provider. What the engine is given from outside stands in `World`: the reading of the clock and
-- the route hint at each call of `route`, and the answer of `executeViaRoute` for each provider.
pub mod Rule
pub mod Locality
pub mod Termination
pub mod Usage
use prism_spectra.Common.{
  ℕ, zero, suc, ◌+◌, Bool, true, false, not, ◌&&◌, ◌||◌, List, [], ◌∷◌, ◌++◌, Option, none, some,
  String, if◌then◌else◌, ◌==◌, leb, or_else, first_some, is_some,
}
use prism_spectra.Common.Text.{is_blank}
use prism_spectra.Types.{
  ExecutorName, executor_eq, ollama, TaskPacket, ChainAttempt, Message, text, no_executor, and_then,
  FallbackReason, low_confidence, CacheHitKind, exact, semantic, Patch, ExecutionResult,
}
use prism_spectra.Ledger.{Table, record_usage}
use prism_spectra.LearningLoop.{Weights}
use prism_spectra.Router.{Availability, RouteDecisionHint, RouteDecision, route, is_local_only}

-- A call of an executor returns a result or throws.
pub data Reply : Type 0 where
  returned : ExecutionResult → Reply
  thrown : Message → Reply

pub record World : Type 0 where
  pub availability : Availability
  pub weights : Weights
  pub clock : ℕ → ℕ
  pub hint : ℕ → Option RouteDecisionHint
  pub execute : ExecutorName → Reply
  pub fallback_on_failure : Bool
  pub confidence_threshold : ℕ

-- memory/patternCache.ts: what a hit carries
pub record CacheLookup : Type 0 where
  pub output : String
  pub origin_provider : ExecutorName
  pub origin_tokens_in : ℕ
  pub origin_tokens_out : ℕ
  pub origin_patch : Option Patch
  pub is_semantic : Bool

-- `lookupCache`: the exact entry, or else the semantic one
unfoldable pub lookup_cache : Option CacheLookup → Option CacheLookup → Option CacheLookup
lookup_cache exact_hit semantic_hit = first_some exact_hit semantic_hit

pub record Execution : Type 0 where
  pub result : ExecutionResult
  pub executor : Option ExecutorName
  pub chain_tried : List ChainAttempt
  pub route_cache_hit : Bool
  pub route_cache_similarity : Option ℕ
  pub cache_hit : Bool

-- `CascadeExecutorError`
pub record CascadeError : Type 0 where
  pub cause : Message
  pub executor : ExecutorName
  pub chain_tried : List ChainAttempt
  pub route_cache_hit : Bool
  pub route_cache_similarity : Option ℕ

pub data Outcome : Type 0 where
  done : Execution → Table → Outcome
  threw : CascadeError → Table → Outcome
  -- the model's own: the loop was cut off
  out_of_fuel : Outcome

-- The variables of the loop. `round` counts the calls of `route`.
pub record LoopState : Type 0 where
  pub executor : Option ExecutorName
  pub chain_tried : List ChainAttempt
  pub route_cache_hit : Bool
  pub route_cache_similarity : Option ℕ
  pub result : ExecutionResult
  pub tried : List ExecutorName
  pub round : ℕ
  pub table : Table

abbrev below : Option ℕ → ℕ → Option FallbackReason
below none threshold = none
below (some score) threshold =
    if leb threshold score then none else some (low_confidence score threshold)

unfoldable pub low_confidence_fallback_reason : ℕ → ExecutionResult → Option FallbackReason
low_confidence_fallback_reason threshold r =
    if not r.success || not (r.provider == ollama) then none else below r.confidence_score threshold

-- Of the messages that a template makes none is empty, and so false as a condition.
-- `previousError && !lowConfidenceReason ? `${previousError}; then ${retry.error ?? "failed"}` : retry.error`
abbrev pub is_set : Message → Bool
is_set (text s) = not (is_blank s)
is_set _ = true

abbrev pub join_errors : Option Message → Bool → Option Message → Option Message
join_errors (some previous) false again =
    if is_set previous then some (and_then previous (or_else again (text "failed"))) else again
join_errors _ _ again = again

-- `result = { ...result, fallbackReason: lowConfidenceReason }` where there is a reason
abbrev pub note_reason : Option FallbackReason → ExecutionResult → ExecutionResult
note_reason none r = r
note_reason (some why) r = record r { fallback_reason = some why }

unfoldable pub merge_retry :
    ExecutionResult → Option FallbackReason → ExecutionResult → ExecutionResult
merge_retry before why again = record again {
  fallback_reason = first_some why again.fallback_reason;
  error = join_errors before.error (is_some why) again.error;
}

abbrev pub finish : LoopState → Outcome
finish s =
    done
      (record {
        result = s.result;
        executor = some s.result.provider;
        chain_tried = s.chain_tried;
        route_cache_hit = s.route_cache_hit;
        route_cache_similarity = s.route_cache_similarity;
        cache_hit = false;
      })
      (record_usage s.result.provider s.result.cost s.table)

-- the state when the loop has routed again, before the executor is called
abbrev pub rerouted : World → TaskPacket → ExecutorName → LoopState → LoopState
rerouted w packet tried_now s =
    let tried' = s.tried ++ tried_now ∷ [] in
    let (d, rolled) =
      route w.availability w.weights (w.clock s.round) packet tried' (w.hint s.round) s.table in
    record {
      executor = d.executor;
      chain_tried = s.chain_tried ++ d.chain_tried;
      route_cache_hit = s.route_cache_hit || d.route_cache_hit;
      route_cache_similarity = first_some s.route_cache_similarity d.route_cache_similarity;
      result =
          note_reason (low_confidence_fallback_reason w.confidence_threshold s.result) s.result;
      tried = tried';
      round = s.round + 1;
      table = rolled;
    }

abbrev pub fail : Message → ExecutorName → LoopState → Outcome
fail cause p s =
    threw
      (record {
        cause = cause;
        executor = p;
        chain_tried = s.chain_tried;
        route_cache_hit = s.route_cache_hit;
        route_cache_similarity = s.route_cache_similarity;
      })
      s.table

-- the test at the head of the loop's body
abbrev pub is_good : World → ExecutionResult → Bool
is_good w r = r.success && not (is_some (low_confidence_fallback_reason w.confidence_threshold r))

-- `executeRouteOrThrow` and the merge of its result, in a state that has been routed again
abbrev pub after_call :
    (LoopState → Outcome) → World → LoopState → LoopState → ExecutorName → Reply → Outcome
after_call go w s s' p (thrown cause) = fail cause p s'
after_call go w s s' p (returned again) = go (record s' {
  result =
      merge_retry s.result (low_confidence_fallback_reason w.confidence_threshold s.result) again;
})

-- a test of `decision.executor`
abbrev pub if_executor : Option ExecutorName → Outcome → (ExecutorName → Outcome) → Outcome
if_executor none absent present = absent
if_executor (some p) absent present = present p

abbrev pub retry : (LoopState → Outcome) → World → LoopState → LoopState → Outcome
retry go w s s' = if_executor s'.executor (finish s') (λ p. after_call go w s s' p (w.execute p))

-- an early exit: `break`, or `return` of what was found
abbrev pub leave_if : Bool → Outcome → (Unit {0} → Outcome) → Outcome
leave_if true leave next = leave
leave_if false leave next = next tt

unfoldable pub cascade_loop : ℕ → World → TaskPacket → LoopState → Outcome
unfolding low_confidence_fallback_reason merge_retry
cascade_loop zero w packet s = out_of_fuel
cascade_loop (suc fuel) w packet s =
    if_executor (if w.fallback_on_failure then s.executor else none) (finish s) (λ p.
      leave_if (is_good w s.result) (finish s)
        λ _. retry (cascade_loop fuel w packet) w s (rerouted w packet p s))

abbrev pub no_provider : RouteDecision → Execution
no_provider d = record {
  result = record {
    success = false;
    output = "";
    provider = ollama;
    tokens_in = 0;
    tokens_out = 0;
    cost = 0;
    latency_ms = 0;
    error = some (no_executor d.chain_tried);
    cache_hit = false;
    cache_hit_kind = none;
    confidence_score = none;
    fallback_reason = none;
    patch = none;
  };
  executor = none;
  chain_tried = d.chain_tried;
  route_cache_hit = d.route_cache_hit;
  route_cache_similarity = d.route_cache_similarity;
  cache_hit = false;
}

abbrev pub from_cache : CacheLookup → Execution
from_cache c = record {
  result = record {
    success = true;
    output = c.output;
    provider = c.origin_provider;
    tokens_in = c.origin_tokens_in;
    tokens_out = c.origin_tokens_out;
    cost = 0;
    latency_ms = 0;
    error = none;
    cache_hit = true;
    cache_hit_kind = some (if c.is_semantic then semantic else exact);
    confidence_score = none;
    fallback_reason = none;
    patch = c.origin_patch;
  };
  executor = some c.origin_provider;
  chain_tried = [];
  route_cache_hit = false;
  route_cache_similarity = none;
  cache_hit = true;
}

abbrev pub first_state : RouteDecision → ExecutionResult → Table → LoopState
first_state d r t = record {
  executor = d.executor;
  chain_tried = d.chain_tried;
  route_cache_hit = d.route_cache_hit;
  route_cache_similarity = d.route_cache_similarity;
  result = r;
  tried = [];
  round = 1;
  table = t;
}

-- the first call of the executor, and the loop
abbrev pub after_first_call :
    ℕ → World → TaskPacket → RouteDecision → Table → ExecutorName → Reply → Outcome
after_first_call fuel w packet d t p (thrown cause) =
    threw
      (record {
        cause = cause;
        executor = p;
        chain_tried = d.chain_tried;
        route_cache_hit = d.route_cache_hit;
        route_cache_similarity = d.route_cache_similarity;
      })
      t
after_first_call fuel w packet d t p (returned r) = cascade_loop fuel w packet (first_state d r t)

abbrev pub run_first : ℕ → World → TaskPacket → RouteDecision → Table → Outcome
run_first fuel w packet d t =
    if_executor d.executor (done (no_provider d) t)
      (λ p. after_first_call fuel w packet d t p (w.execute p))

-- the part behind the cache
unfoldable pub execute_routed : ℕ → World → TaskPacket → Table → Outcome
unfolding cascade_loop
execute_routed fuel w packet t =
    let (d, rolled) = route w.availability w.weights (w.clock 0) packet [] (w.hint 0) t in
    run_first fuel w packet d rolled

-- a hit that a local-only request may not use
abbrev pub is_non_local_hit : TaskPacket → CacheLookup → Bool
is_non_local_hit packet c = is_local_only packet && not (c.origin_provider == ollama)

-- `cached` is what `lookupCache` found, `none` where the call is not cacheable.
unfoldable pub execute_with_cascade : ℕ → World → TaskPacket → Option CacheLookup → Table → Outcome
unfolding execute_routed
execute_with_cascade fuel w packet cached t = elim cached [
  | none ↦ execute_routed fuel w packet t
  | some c ↦
      leave_if (not (is_non_local_hit packet c)) (done (from_cache c) t)
        λ _. execute_routed fuel w packet t
]
