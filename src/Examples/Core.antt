-- ===== src/Examples/Core.antt =====
-- A graph of two nodes, a ledger with one row, and a request routed past the excluded local model.
use prism_spectra.Common.{
  ◌≡◌, ◌≢◌, ◌↔◌, inl, inr, refl, true, false, List, [], ◌∷◌, none, some, String, map, find_by,
  string_eq, or_else, includes,
}
use prism_spectra.Common.Json.{Fields, end}
use prism_spectra.Types.{
  executor_eq, ExecutorName, ollama, free_tier, gpt, claude, TaskPacket, NodeType, backend, docs,
  GraphNode, pending,
}
use prism_spectra.Graph.{ok, throw, cycle, assert_acyclic, find_node, visit, visit_all}
use prism_spectra.Graph.Acyclic.{DependsOn, assert_acyclic-ok_acyclic}
use prism_spectra.Graph.Cycles.{IsCycle, assert_acyclic-throw-IsCycle}
use prism_spectra.Ledger.{
  Row, Table, BudgetChange, select, check, record_usage, roll, ensure_rows, fresh_row,
}
use prism_spectra.Ledger.Windows.{IsRolled, check_windows}
use prism_spectra.Ledger.Budgets.{
  HasRoom, IsWithinRates, check-allowed_iff, record_usage-check_within, select-ensure_rows,
  check-check,
}
use prism_spectra.LearningLoop.{Weights, get_weight, rank}
use prism_spectra.LearningLoop.Ranking.{IsRanked, rank-IsRanked}
use mathlib.Core.List.{Perm}
use prism_spectra.Router.{Availability, route, is_local_only, provider_available}
use prism_spectra.Router.Search.{eligible}
use prism_spectra.Router.Candidates.{candidates}
use prism_spectra.Router.Safety.{route-find, route-safe}

abbrev pub packet_of : NodeType → List String → Fields → TaskPacket
packet_of nt deps context = record {
  intent = "build";
  context = context;
  constraints = [];
  dependencies = deps;
  node_type = nt;
  file_paths = none;
}

abbrev node_of : String → List String → GraphNode
node_of id deps = record {
  id = id;
  packet = packet_of docs deps end;
  status = pending;
  result = none;
  dependents = [];
}

abbrev line : List GraphNode
line = node_of "a" [] ∷ node_of "b" ("a" ∷ []) ∷ []

abbrev ring : List GraphNode
ring = node_of "a" ("b" ∷ []) ∷ node_of "b" ("a" ∷ []) ∷ []

line-ok : assert_acyclic line ≡ ok ("b" ∷ "a" ∷ [])
unfolding assert_acyclic visit visit_all find_node
line-ok = refl

ring-throw : assert_acyclic ring ≡ throw (cycle ("a" ∷ "b" ∷ "a" ∷ []))
unfolding assert_acyclic visit visit_all find_node
ring-throw = refl

assert_acyclic-ok_acyclic_example : ¬ DependsOn line "b" "b"
assert_acyclic-ok_acyclic_example = assert_acyclic-ok_acyclic line "b" line-ok (inr (inl refl))

assert_acyclic-throw-IsCycle_example : IsCycle ring (cycle ("a" ∷ "b" ∷ "a" ∷ []))
assert_acyclic-throw-IsCycle_example = assert_acyclic-throw-IsCycle ring ring-throw

-- A row of the paid provider `gpt` with a rate of 2 calls per minute.
abbrev paid_row : Row
paid_row = record {
  provider = gpt;
  rpm_limit = some 2;
  rpm_used = 1;
  rpm_reset_at = some 50000;
  rpd_limit = none;
  rpd_used = 7;
  rpd_reset_at = some 900000;
  dollar_budget = some 5000000000;
  dollar_used = 100;
}

abbrev pub table : Table
table = paid_row ∷ []

gpt-selected : select gpt table ≡ some paid_row
unfolding select
gpt-selected = refl

gpt-allowed : (check gpt 1000 table).0.allowed ≡ true
unfolding check
gpt-allowed = refl

check-allowed_iff_example :
    ((check gpt 1000 table).0.allowed ≡ true)
    ↔ ((r : Row) → select gpt table ≡ some r → HasRoom (roll 1000 r))
check-allowed_iff_example = check-allowed_iff gpt 1000 table (λ e. cc)

record_usage-check_within_example :
    ((r' : Row) × (select gpt (record_usage gpt 30 (check gpt 1000 table).1) ≡ some r')
      × IsWithinRates r'
      × (r'.dollar_used ≡ 130))
    × ((q : ExecutorName)
        → gpt ≢ q
        → select q (record_usage gpt 30 (check gpt 1000 table).1) ≡ select q table)
record_usage-check_within_example =
    record_usage-check_within gpt 1000 30 table paid_row (λ e. cc) gpt-selected gpt-allowed

check_windows_example :
    (r' : Row) × (select gpt (check gpt 60000 table).1 ≡ some r')
    × IsRolled 60000 (some 50000) 1 r'.rpm_reset_at r'.rpm_used
    × IsRolled 60000 (some 900000) 7 r'.rpd_reset_at r'.rpd_used
    × (r'.dollar_used ≡ 100)
check_windows_example = check_windows gpt 60000 table paid_row (λ e. cc) gpt-selected

abbrev unlimited : BudgetChange
unlimited = record { rpm_limit = some none; rpd_limit = none; dollar_budget = none }

select-ensure_rows_example :
    select gpt (ensure_rows 1000 table) ≡ some (or_else (select gpt table) (fresh_row gpt 1000))
select-ensure_rows_example = select-ensure_rows gpt 1000 table

check-check_example : (check gpt 1000 (check claude 1000 table).1).0 ≡ (check gpt 1000 table).0
check-check_example = check-check gpt claude 1000 table (λ e. cc) (λ e. cc)

-- `claude` has failed once in two calls, `gpt` never in one.
abbrev weights : Weights
weights =
    record {
      provider = claude;
      node_type = backend;
      samples = 2;
      success_count = 1;
      avg_cost = 5;
      avg_latency_ms = 9;
    }
    ∷ record {
      provider = gpt;
      node_type = backend;
      samples = 1;
      success_count = 1;
      avg_cost = 7;
      avg_latency_ms = 8;
    }
    ∷ []

rank-IsRanked_example :
    Perm
      (rank weights (claude ∷ gpt ∷ []) backend)
      (map (λ p. get_weight weights p backend) (claude ∷ gpt ∷ []))
    × IsRanked (rank weights (claude ∷ gpt ∷ []) backend)
rank-IsRanked_example = rank-IsRanked weights (claude ∷ gpt ∷ []) backend

abbrev pub all_up : Availability
all_up p = none

abbrev backend_packet : TaskPacket
backend_packet = packet_of backend [] end

route-find_example :
    (route all_up [] 1000 backend_packet (ollama ∷ []) none table).0.executor
    ≡ find_by (eligible all_up 1000 table) (candidates [] backend_packet (ollama ∷ []) none)
route-find_example = route-find all_up [] 1000 (ollama ∷ []) none table backend_packet (λ e. cc)

free_tier-routed :
    (route all_up [] 1000 backend_packet (ollama ∷ []) none table).0.executor ≡ some free_tier
unfolding route
free_tier-routed = refl

route-safe_example :
    (includes (ollama ∷ []) free_tier ≡ false)
    × (free_tier ≢ ExecutorName.terminal)
    × ((provider_available all_up free_tier).available ≡ true)
    × ((check free_tier 1000 table).0.allowed ≡ true)
    × (is_local_only backend_packet ≡ true → free_tier ≡ ollama)
route-safe_example =
    route-safe all_up [] 1000 backend_packet (ollama ∷ []) none table free_tier (λ e. cc)
      free_tier-routed
