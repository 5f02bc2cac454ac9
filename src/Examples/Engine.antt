-- ===== src/Examples/Engine.antt =====
-- A cascade whose first provider fails, one that must stay at home, and a failing terminal node.
use prism_spectra.Common.{◌≡◌, ◌≢◌, refl, Bool, true, false, [], ◌∷◌, Option, none, some, arith}
use prism_spectra.Common.Json.{obj, str, field, end}
use prism_spectra.Types.{
  ExecutorName, ollama, free_tier, gpt, claude, TaskPacket, NodeType, backend, ExecutionResult,
  Message, text, and_then,
}
use prism_spectra.Ledger.{Table}
use prism_spectra.Router.{is_local_only, route}
use prism_spectra.Cascade.{
  returned, World, CacheLookup, done, out_of_fuel, Execution, execute_with_cascade, is_good,
  low_confidence_fallback_reason,
}
use prism_spectra.Cascade.Termination.{execute_with_cascade_total, failing_terminal_never_ends}
use prism_spectra.Cascade.Locality.{IsHonest, StaysHome, execute_with_cascade-StaysHome}
use prism_spectra.Cascade.Usage.{success_after_retry_has_error}
use prism_spectra.Examples.Core.{packet_of, table, all_up}

abbrev answer_of : ExecutorName → Bool → Option Message → ExecutionResult
answer_of p success error = record {
  success = success;
  output = "done";
  provider = p;
  tokens_in = 10;
  tokens_out = 20;
  cost = 30;
  latency_ms = 40;
  error = error;
  cache_hit = false;
  cache_hit_kind = none;
  confidence_score = none;
  fallback_reason = none;
  patch = none;
}

-- The local model and the terminal fail, the others succeed.
abbrev answers : ExecutorName → ExecutionResult
answers ollama = answer_of ollama false (some (text "down"))
answers ExecutorName.terminal = answer_of ExecutorName.terminal false (some (text "exit 1"))
answers p = answer_of p true none

abbrev world : World
world = record {
  availability = all_up;
  weights = [];
  clock = λ n. 1000;
  hint = λ n. none;
  execute = λ p. returned (answers p);
  fallback_on_failure = true;
  confidence_threshold = 70;
}

abbrev job : TaskPacket
job = packet_of backend [] end

abbrev local_job : TaskPacket
local_job =
    packet_of backend []
      (field "aiRequest" (obj (field "preferredMode" (str "local-only") end)) end)

abbrev shell_job : TaskPacket
shell_job = packet_of NodeType.terminal [] end

abbrev remote_hit : CacheLookup
remote_hit = record {
  output = "cached";
  origin_provider = gpt;
  origin_tokens_in = 1;
  origin_tokens_out = 2;
  origin_patch = none;
  is_semantic = false;
}

world-IsHonest : IsHonest world.execute
world-IsHonest ollama r e = ground (arith, e)
world-IsHonest free_tier r e = ground (arith, e)
world-IsHonest gpt r e = ground (arith, e)
world-IsHonest claude r e = ground (arith, e)
world-IsHonest ExecutorName.terminal r e = ground (arith, e)

local_job-is_local_only : is_local_only local_job ≡ true
unfolding is_local_only
local_job-is_local_only = refl

execute_with_cascade_total_example : execute_with_cascade 5 world job none table ≢ out_of_fuel
execute_with_cascade_total_example =
    execute_with_cascade_total world job (λ e. cc) 5 none table (omega arith)

execute_with_cascade-StaysHome_example :
    StaysHome (execute_with_cascade 5 world local_job (some remote_hit) table)
execute_with_cascade-StaysHome_example =
    execute_with_cascade-StaysHome world local_job world-IsHonest local_job-is_local_only 5
      (some remote_hit) table

failing_terminal_never_ends_example :
    execute_with_cascade 9 world shell_job none table ≡ out_of_fuel
failing_terminal_never_ends_example =
    failing_terminal_never_ends world shell_job refl refl (answers ExecutorName.terminal) refl refl
      9 table

first_is_local : (route all_up [] 1000 job [] none table).0.executor ≡ some ollama
unfolding route
first_is_local = refl

next_is_free :
    (route all_up [] 1000 job
      (ollama ∷ [])
      none
      (route all_up [] 1000 job [] none table).1).0.executor
    ≡ some free_tier
unfolding route
next_is_free = refl

free_is_good : is_good world (answers free_tier) ≡ true
unfolding low_confidence_fallback_reason
free_is_good = refl

success_after_retry_has_error_example :
    (e : Execution) × (t' : Table) × (execute_with_cascade 5 world job none table ≡ done e t')
    × (e.result.success ≡ true)
    × (e.result.error ≡ some (and_then (text "down") (text "failed")))
success_after_retry_has_error_example =
    success_after_retry_has_error world job table refl ollama free_tier (answers ollama)
      (answers free_tier) (text "down") 3 first_is_local refl refl refl refl next_is_free refl
      free_is_good
