-- ===== src/Router.antt =====
-- routing/router.ts: the choice of a provider along the tiers local, free, paid. `route` returns the
-- decision and the ledger's table, whose windows a check may roll. The optional fields
-- `routeCacheHit` and `routeCacheSimilarity` of a decision are `false` and `none` where missing; a
-- similarity is a whole number of hundredths.
pub mod Search
pub mod Candidates
pub mod Safety
use prism_spectra.Common.{
  ℕ, Bool, true, false, not, ◌||◌, List, [], ◌∷◌, ◌++◌, Option, none, some, String, if◌then◌else◌,
  ◌==◌, string_eq, or_else, includes, filter_by, map,
}
use prism_spectra.Common.Json.{Json, obj, str, Fields, member}
use prism_spectra.Types.{
  ExecutorName, executor_eq, ollama, free_tier, gpt, claude, NodeType, backend, tests, docs,
  node_type_eq, TaskPacket, ChainAttempt, unavailable,
}
use prism_spectra.Ledger.{LedgerCheck, Table, check}
use prism_spectra.LearningLoop.{Weights, rank}

pub record RouteDecisionHint : Type 0 where
  pub hit : Bool
  pub paid_provider_preference : Option ExecutorName
  pub similarity : Option ℕ

pub record RouteDecision : Type 0 where
  pub executor : Option ExecutorName
  pub chain_tried : List ChainAttempt
  pub route_cache_hit : Bool
  pub route_cache_similarity : Option ℕ

pub data Complexity : Type 0 where
  low medium high : Complexity

pub record ProviderAvailability : Type 0 where
  pub available : Bool
  pub reason : Option String

unfoldable pub classify_complexity : NodeType → Complexity
classify_complexity backend = high
classify_complexity tests = high
classify_complexity docs = low
classify_complexity _ = medium

abbrev by_complexity : Complexity → List ExecutorName
by_complexity high = claude ∷ gpt ∷ []
by_complexity _ = gpt ∷ claude ∷ []

abbrev cached_preference : Option RouteDecisionHint → Option ExecutorName
cached_preference none = none
cached_preference (some h) = h.paid_provider_preference

abbrev prefer : Option ExecutorName → List ExecutorName → List ExecutorName
prefer (some gpt) other = gpt ∷ claude ∷ []
prefer (some claude) other = claude ∷ gpt ∷ []
prefer _ other = other

unfoldable pub paid_tier_preference : Complexity → Option RouteDecisionHint → List ExecutorName
paid_tier_preference c hint = prefer (cached_preference hint) (by_complexity c)

-- `typeof value === "string" ? value : undefined`
abbrev as_string : Option Json → Option String
as_string (some (str s)) = some s
as_string _ = none

-- `value.preferredMode` of a value that is an object, and not `null`
abbrev mode_of : Option Json → Option String
mode_of (some (obj fields)) = as_string (member "preferredMode" fields)
mode_of _ = none

unfoldable pub preferred_mode : TaskPacket → Option String
unfolding member
preferred_mode packet = mode_of (member "aiRequest" packet.context)

abbrev equals : Option String → String → Bool
equals none t = false
equals (some s) t = s == t

-- `preferredMode(packet) === "local-only"`
unfoldable pub is_local_only : TaskPacket → Bool
unfolding preferred_mode
is_local_only packet = equals (preferred_mode packet) "local-only"

-- `providerAvailability`, a partial record
abbrev pub Availability : Type 0
Availability = ExecutorName → Option ProviderAvailability

unfoldable pub set_provider_availability :
    ExecutorName → ProviderAvailability → Availability → Availability
set_provider_availability p status a q = if p == q then some status else a q

abbrev pub provider_available : Availability → ExecutorName → ProviderAvailability
provider_available a p = or_else (a p) (record { available = true; reason = none })

-- One provider is asked for: its availability, then the ledger.
unfoldable pub consult : Availability → ℕ → ExecutorName → Table → ChainAttempt × Table
unfolding check
consult a now p t =
    let status = provider_available a p in
    let (c, rolled) = check p now t in
    if status.available
    then (record { provider = p; allowed = c.allowed; reason = c.reason }, rolled)
    else (
      record {
        provider = p;
        allowed = false;
        reason = some (unavailable (or_else status.reason "provider unavailable"));
      },
      t,
    )

pub record Found : Type 0 where
  pub executor : Option ExecutorName
  pub chain : List ChainAttempt
  pub table : Table

-- the loop over the ranked providers; a tier of one provider is such a loop too
unfoldable pub try_each : Availability → ℕ → List ExecutorName → List ChainAttempt → Table → Found
unfolding consult
try_each a now [] chain t = record { executor = none; chain = chain; table = t }
try_each a now (p ∷ ps) chain t =
    let (attempt, rolled) = consult a now p t in
    let rest = try_each a now ps (chain ++ attempt ∷ []) rolled in
    if attempt.allowed
    then record { executor = some p; chain = chain ++ attempt ∷ []; table = rolled }
    else rest

-- a single tier, unless it is excluded
abbrev pub unless_excluded : List ExecutorName → ExecutorName → List ExecutorName
unless_excluded exclude p = if includes exclude p then [] else p ∷ []

abbrev pub is_hit : Option RouteDecisionHint → Bool
is_hit none = false
is_hit (some h) = h.hit

abbrev hit_similarity : Option RouteDecisionHint → Option ℕ
hit_similarity none = none
hit_similarity (some h) = if h.hit then h.similarity else none

abbrev pub decide_found : Option RouteDecisionHint → Found → RouteDecision × Table
decide_found hint f = (
  record {
    executor = f.executor;
    chain_tried = f.chain;
    route_cache_hit = is_hit hint;
    route_cache_similarity = hit_similarity hint;
  },
  f.table,
)

-- what follows if a tier has found nobody
abbrev pub or_next : Found → (List ChainAttempt → Table → Found) → Found
or_next f next = elim f.executor [ some _ ↦ f | none ↦ next f.chain f.table ]

abbrev pub to_terminal : RouteDecision
to_terminal = record {
  executor = some ExecutorName.terminal;
  chain_tried = record { provider = ExecutorName.terminal; allowed = true; reason = none } ∷ [];
  route_cache_hit = false;
  route_cache_similarity = none;
}

-- the paid providers in the order in which they are tried
unfoldable pub ranked :
    Weights → NodeType → List ExecutorName → Option RouteDecisionHint → List ExecutorName
unfolding classify_complexity paid_tier_preference rank
ranked ws nt exclude hint =
    map (λ w. w.provider)
      (rank ws
        (filter_by (λ p. not (includes exclude p))
          (paid_tier_preference (classify_complexity nt) hint))
        nt)

-- the tiers behind the local one
unfoldable pub try_remote :
    Availability
    → Weights
    → ℕ
    → NodeType
    → List ExecutorName
    → Option RouteDecisionHint
    → List ChainAttempt
    → Table
    → Found
unfolding try_each ranked
try_remote a ws now nt exclude hint chain t =
    or_next (try_each a now (unless_excluded exclude free_tier) chain t)
      (try_each a now (ranked ws nt exclude hint))

-- what follows the local tier
unfoldable pub leave_local :
    Availability
    → Weights
    → ℕ
    → TaskPacket
    → List ExecutorName
    → Option RouteDecisionHint
    → List ChainAttempt
    → Table
    → Found
unfolding try_remote is_local_only
leave_local a ws now packet exclude hint chain t =
    if is_local_only packet
    then record { executor = none; chain = chain; table = t }
    else try_remote a ws now packet.node_type exclude hint chain t

-- the part of `route` for a node that is no terminal node
unfoldable pub route_tiers :
    Availability
    → Weights
    → ℕ
    → TaskPacket
    → List ExecutorName
    → Option RouteDecisionHint
    → Table
    → Found
unfolding try_each leave_local
route_tiers a ws now packet exclude hint t =
    or_next (try_each a now (unless_excluded exclude ollama) [] t)
      (leave_local a ws now packet exclude hint)

unfoldable pub route :
    Availability
    → Weights
    → ℕ
    → TaskPacket
    → List ExecutorName
    → Option RouteDecisionHint
    → Table
    → RouteDecision × Table
unfolding route_tiers
route a ws now packet exclude hint t =
    if packet.node_type == NodeType.terminal
    then (to_terminal, t)
    else decide_found hint (route_tiers a ws now packet exclude hint t)
