-- ===== src/Cascade/Usage.antt =====
-- What `executeWithCascade` charges to the ledger, and what it reports after a retry.
use prism_spectra.Common.{
  ℕ, suc, ◌+◌, ◌≡◌, inr, Bool, true, false, not, ◌&&◌, [], Option, none, some, arith, ◌∙◌, ◌==◌,
  is_some, or_else, if◌then◌else◌,
}
use mathlib.Core.Option
use prism_spectra.Types.{
  ExecutorName, executor_eq, TaskPacket, Message, text, and_then, node_type_eq, ExecutionResult,
}
use prism_spectra.Ledger.{Row, Table, select, roll_windows}
use prism_spectra.Router.{route}
use prism_spectra.Cascade.{
  returned, World, Execution, Outcome, done, threw, out_of_fuel, LoopState, rerouted, merge_retry,
  is_good, low_confidence_fallback_reason, cascade_loop, is_set, execute_routed,
  execute_with_cascade, first_state,
}
use prism_spectra.Cascade.Rule.{
  Rule, merged, retry-some, run_first-some, cascade_loop-retry, cascade_loop-stop,
}

-- A table whose windows were rolled for some providers at some times, and that is otherwise the same
pub data Rolls (t : Table) : Table → Type 0 where
  still : Rolls t t
  roll_at : {u : Table} → Rolls t u → (p : ExecutorName) (now : ℕ) → Rolls t (roll_windows p now u)

-- One call more in both windows, and its cost
abbrev pub billed : ℕ → Row → Row
billed cost r = record r {
  rpm_used = r.rpm_used + 1;
  rpd_used = r.rpd_used + 1;
  dollar_used = r.dollar_used + cost;
}

-- Whether an execution is paid for: a provider was called, and it was not the terminal.
abbrev is_billed : Execution → Bool
is_billed e =
    is_some e.executor && not e.cache_hit && not (e.result.provider == ExecutorName.terminal)

-- Compared with `t`, whose windows were rolled at some times, the table is charged with one call and
-- the cost of the result, at the result's provider, and with nothing else.
abbrev pub ChargesOnce : Table → Outcome → Type 0
ChargesOnce t out_of_fuel = Unit
ChargesOnce t (threw e t') = Rolls t t'
ChargesOnce t (done e t') =
    (u : Table) × Rolls t u
    × ((q : ExecutorName)
        → select q t' ≡ (
            if is_billed e && e.result.provider == q
            then Option.map (billed e.result.cost) (select q u)
            else select q u))

module _ (w : World) (packet : TaskPacket) (t : Table) (on : w.fallback_on_failure ≡ true)
    (p q : ExecutorName) (first second : ExecutionResult) (message : Message) where
  -- the state in which the first retry is made
  abbrev pub after_first : LoopState
  after_first =
      let (d, rolled) = route w.availability w.weights (w.clock 0) packet [] (w.hint 0) t in
      first_state d first rolled

  -- If the first provider's result is a failure with an error that is not empty, and the next provider answers with a
  -- good result, then the cascade returns that success, and the result still carries an error: the
  -- first one, followed by "failed" where the second result has none.
  pub success_after_retry_has_error :
      (fuel : ℕ)
      → after_first.executor ≡ some p
      → w.execute p ≡ returned first
      → first.success ≡ false
      → first.error ≡ some message
      → is_set message ≡ true
      → (rerouted w packet p after_first).executor ≡ some q
      → w.execute q ≡ returned second
      → is_good w second ≡ true
      → (e : Execution) × (t' : Table) × (execute_with_cascade (suc (suc fuel)) w packet none t
          ≡ done e t')
        × (e.result.success ≡ true)
        × (e.result.error ≡ some (and_then message (or_else second.error (text "failed"))))
  unfolding execute_with_cascade execute_routed merge_retry low_confidence_fallback_reason
  success_after_retry_has_error fuel e1 a1 f1 m1 set e2 a2 good =
      let (d, rolled) = route w.availability w.weights (w.clock 0) packet [] (w.hint 0) t in
      let s = after_first in
      let s' = merged w packet p s second in
      (
        _,
        _,
        run_first-some (suc (suc fuel)) w packet d rolled p e1 a1
            ∙ cascade_loop-retry (suc fuel) w packet s p
                (record { fallback = on; blamed = e1; bad = ground arith })
            ∙ retry-some (cascade_loop (suc fuel) w packet) w s (rerouted w packet p s) q e2 a2
            ∙ cascade_loop-stop fuel w packet s' (inr good),
        ground arith,
        ground arith,
      )
