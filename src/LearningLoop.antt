-- ===== src/LearningLoop.antt =====
-- intelligence/learningLoop.ts: what past outcomes say of a provider. The table `routing_weights` is
-- the list of its rows. An average is a whole number (10^-9 dollar, milliseconds); the update of a
-- mean, which divides doubles, is the parameter `mean average value samples`.
pub mod Ranking
use prism_spectra.Common.{
  ℕ, suc, ◌+◌, ◌*◌, Bool, true, false, ◌&&◌, List, [], ◌∷◌, Option, none, some, if◌then◌else◌, ltb,
  ◌==◌, nat_eq, map,
}
use prism_spectra.Common.Sort.{sort_by}
use prism_spectra.Types.{ExecutorName, executor_eq, NodeType, node_type_eq, NodeOutcome}

pub record WeightRow : Type 0 where
  pub provider : ExecutorName
  pub node_type : NodeType
  pub samples : ℕ
  pub success_count : ℕ
  pub avg_cost : ℕ
  pub avg_latency_ms : ℕ

-- `successRate` is the fraction `success_count / rate_of`.
pub record ProviderWeight : Type 0 where
  pub provider : ExecutorName
  pub success_count : ℕ
  pub rate_of : ℕ
  pub avg_cost : ℕ
  pub avg_latency_ms : ℕ
  pub samples : ℕ

abbrev pub Weights : Type 0
Weights = List WeightRow

abbrev pub is_row : ExecutorName → NodeType → WeightRow → Bool
is_row p nt r = r.provider == p && r.node_type == nt

unfoldable pub find_row : ExecutorName → NodeType → Weights → Option WeightRow
find_row p nt [] = none
find_row p nt (r ∷ rs) = let rest = find_row p nt rs in if is_row p nt r then some r else rest

abbrev pub point : Bool → ℕ
point true = 1
point false = 0

module _ (mean : ℕ → ℕ → ℕ → ℕ) where
  abbrev improved : NodeOutcome → WeightRow → WeightRow
  improved o r = record r {
    samples = r.samples + 1;
    success_count = r.success_count + point o.result.success;
    avg_cost = mean r.avg_cost o.result.cost (r.samples + 1);
    avg_latency_ms = mean r.avg_latency_ms o.result.latency_ms (r.samples + 1);
  }

  abbrev first_row : NodeOutcome → WeightRow
  first_row o = record {
    provider = o.provider;
    node_type = o.node_type;
    samples = 1;
    success_count = point o.result.success;
    avg_cost = o.result.cost;
    avg_latency_ms = o.result.latency_ms;
  }

  -- The row of the outcome's provider and node type is updated, or inserted at the end.
  unfoldable pub record_outcome : NodeOutcome → Weights → Weights
  record_outcome o [] = first_row o ∷ []
  record_outcome o (r ∷ rs) =
      if is_row o.provider o.node_type r then improved o r ∷ rs else r ∷ record_outcome o rs

abbrev unseen : ExecutorName → ProviderWeight
unseen p = record {
  provider = p;
  success_count = 1;
  rate_of = 1;
  avg_cost = 0;
  avg_latency_ms = 0;
  samples = 0;
}

abbrev weight_of : ExecutorName → Option WeightRow → ProviderWeight
weight_of p none = unseen p
weight_of p (some r) = record {
  provider = p;
  success_count = if ltb 0 r.samples then r.success_count else 1;
  rate_of = if ltb 0 r.samples then r.samples else 1;
  avg_cost = r.avg_cost;
  avg_latency_ms = r.avg_latency_ms;
  samples = r.samples;
}

unfoldable pub get_weight : Weights → ExecutorName → NodeType → ProviderWeight
unfolding find_row
get_weight ws p nt = weight_of p (find_row p nt ws)

-- The comparator of `rank`: the sign of `b.successRate - a.successRate`, then of the costs, then of
-- the latencies.
unfoldable pub ranks_before : ProviderWeight → ProviderWeight → Bool
ranks_before a b =
    if ltb (b.success_count * a.rate_of) (a.success_count * b.rate_of)
    then true
    else if ltb (a.success_count * b.rate_of) (b.success_count * a.rate_of)
    then false
    else if ltb a.avg_cost b.avg_cost
    then true
    else if ltb b.avg_cost a.avg_cost
    then false
    else ltb a.avg_latency_ms b.avg_latency_ms

unfoldable pub rank : Weights → List ExecutorName → NodeType → List ProviderWeight
unfolding get_weight ranks_before sort_by
rank ws ps nt = sort_by ranks_before (map (λ p. get_weight ws p nt) ps)
