-- ===== src/Cascade/Rule.antt =====
-- A proof rule for the loop of `executeWithCascade`.
use prism_spectra.Common.{
  ℕ, zero, suc, ◌≡◌, ◌⊎◌, inl, inr, true, false, Option, none, some, arith, if◌then◌else◌,
  Bool-cases, Option-cases, sym, subst, ◌∙◌, ap, refl,
}
use prism_spectra.Types.{ExecutorName, TaskPacket, Message, ExecutionResult}
use prism_spectra.Ledger.{Table}
use prism_spectra.Router.{RouteDecision}
use prism_spectra.Cascade.{
  Reply, returned, thrown, World, Outcome, out_of_fuel, LoopState, finish, fail, rerouted, retry,
  run_first, after_first_call, done, no_provider, if_executor, after_call, merge_retry, is_good,
  leave_if, low_confidence_fallback_reason, cascade_loop,
}

-- the state after a retry that returned
abbrev pub merged : World → TaskPacket → ExecutorName → LoopState → ExecutionResult → LoopState
merged w packet p s again = record (rerouted w packet p s) {
  result =
      merge_retry s.result (low_confidence_fallback_reason w.confidence_threshold s.result) again;
}

-- The loop goes on from `s` with `p` to blame: the fallback is on, and the result is not good.
pub record Retries (w : World) (s : LoopState) (p : ExecutorName) : Type 0 where
  pub fallback : w.fallback_on_failure ≡ true
  pub blamed : s.executor ≡ some p
  pub bad : is_good w s.result ≡ false

-- `P` is an invariant of the states at the head of the loop, `Q` the claim about its outcome.
pub record Rule (w : World) (packet : TaskPacket) (P : LoopState → Type 0) (Q : Outcome → Type 0)
    : Type 0 where
  pub cut : Q out_of_fuel
  pub stop : (s : LoopState) → P s → Q (finish s)
  pub give_up :
      (s : LoopState) (p : ExecutorName)
      → P s
      → Retries w s p
      → (rerouted w packet p s).executor ≡ none
      → Q (finish (rerouted w packet p s))
  pub raise :
      (s : LoopState) (p q : ExecutorName) (cause : Message)
      → P s
      → Retries w s p
      → (rerouted w packet p s).executor ≡ some q
      → w.execute q ≡ thrown cause
      → Q (fail cause q (rerouted w packet p s))
  pub keep :
      (s : LoopState) (p q : ExecutorName) (again : ExecutionResult)
      → P s
      → Retries w s p
      → (rerouted w packet p s).executor ≡ some q
      → w.execute q ≡ returned again
      → P (merged w packet p s again)

pub Reply-cases :
    (r : Reply) → ((m : Message) × (r ≡ thrown m)) ⊎ ((e : ExecutionResult) × (r ≡ returned e))
Reply-cases (thrown m) = inl (m, ground arith)
Reply-cases (returned e) = inr (e, ground arith)

pub retry-none :
    (go : LoopState → Outcome) (w : World) (s s' : LoopState)
    → s'.executor ≡ none
    → retry go w s s' ≡ finish s'
retry-none go w s s' e =
    ap (λ o. if_executor o (finish s') (λ p. after_call go w s s' p (w.execute p))) e

pub retry-some :
    (go : LoopState → Outcome) (w : World) (s s' : LoopState) (q : ExecutorName) {r : Reply}
    → s'.executor ≡ some q
    → w.execute q ≡ r
    → retry go w s s' ≡ after_call go w s s' q r
retry-some go w s s' q e g =
    ap (λ o. if_executor o (finish s') (λ p. after_call go w s s' p (w.execute p))) e
    ∙ ap (after_call go w s s' q) g

pub cascade_loop-retry :
    (fuel : ℕ) (w : World) (packet : TaskPacket) (s : LoopState) (p : ExecutorName)
    → Retries w s p
    → cascade_loop (suc fuel) w packet s
      ≡ retry (cascade_loop fuel w packet) w s (rerouted w packet p s)
unfolding cascade_loop
cascade_loop-retry fuel w packet s p r =
    let e : (if w.fallback_on_failure then s.executor else none) ≡ some p = ground arith in
    ap
      (λ o. if_executor o (finish s) (λ q.
        leave_if (is_good w s.result) (finish s)
          λ _. retry (cascade_loop fuel w packet) w s (rerouted w packet q s)))
      e
    ∙ ap
        (λ b.
          leave_if b (finish s) λ _. retry (cascade_loop fuel w packet) w s (rerouted w packet p s))
        r.bad

pub cascade_loop-stop :
    (fuel : ℕ) (w : World) (packet : TaskPacket) (s : LoopState)
    → ((if w.fallback_on_failure then s.executor else none) ≡ none) ⊎ (is_good w s.result ≡ true)
    → cascade_loop (suc fuel) w packet s ≡ finish s
unfolding cascade_loop
cascade_loop-stop fuel w packet s (inl e) =
    ap
      (λ o. if_executor o (finish s) (λ q.
        leave_if (is_good w s.result) (finish s)
          λ _. retry (cascade_loop fuel w packet) w s (rerouted w packet q s)))
      e
cascade_loop-stop fuel w packet s (inr good) =
    after (if w.fallback_on_failure then s.executor else none)
  where
    after :
        (o : Option ExecutorName)
        → if_executor o (finish s) (λ q.
          leave_if
            (is_good w s.result)
            (finish s)
            λ _. retry (cascade_loop fuel w packet) w s (rerouted w packet q s))
          ≡ finish s
    after none = refl
    after (some q) =
        ap
          (λ b.
            leave_if b (finish s)
              λ _. retry (cascade_loop fuel w packet) w s (rerouted w packet q s))
          good

pub run_first-some :
    (fuel : ℕ) (w : World) (packet : TaskPacket) (d : RouteDecision) (t : Table) (p : ExecutorName)
    {r : Reply}
    → d.executor ≡ some p
    → w.execute p ≡ r
    → run_first fuel w packet d t ≡ after_first_call fuel w packet d t p r
run_first-some fuel w packet d t p e g =
    ap
      (λ o.
        if_executor o (done (no_provider d) t)
          (λ q. after_first_call fuel w packet d t q (w.execute q)))
      e
    ∙ ap (after_first_call fuel w packet d t p) g

module _ {w : World} {packet : TaskPacket} {P : LoopState → Type 0} {Q : Outcome → Type 0}
    (rule : Rule w packet P Q) where
  pub cascade_loop_ind : (fuel : ℕ) (s : LoopState) → P s → Q (cascade_loop fuel w packet s)
  unfolding cascade_loop
  cascade_loop_ind zero s h = rule.cut
  cascade_loop_ind (suc fuel) s h =
      elim (Option-cases (if w.fallback_on_failure then s.executor else none)) [
        | inl e ↦ subst Q (sym (cascade_loop-stop fuel w packet s (inl e))) (rule.stop s h)
        | inr (p, e) ↦ elim (Bool-cases (is_good w s.result)) [
          | inl good ↦ subst Q (sym (cascade_loop-stop fuel w packet s (inr good))) (rule.stop s h)
          | inr bad ↦
              let r : Retries w s p = record {
                fallback = ground arith;
                blamed = ground arith;
                bad = bad;
              } in
              let s' = rerouted w packet p s in
              let go = cascade_loop fuel w packet in
              subst Q (sym (cascade_loop-retry fuel w packet s p r))
                (elim (Option-cases s'.executor) [
                  | inl f ↦ subst Q (sym (retry-none go w s s' f)) (rule.give_up s p h r f)
                  | inr (q, f) ↦ elim (Reply-cases (w.execute q)) [
                    | inl (m, g) ↦
                        subst Q (sym (retry-some go w s s' q f g)) (rule.raise s p q m h r f g)
                    | inr (again, g) ↦ subst Q (sym (retry-some go w s s' q f g)) (
                        cascade_loop_ind fuel (merged w packet p s again)
                          (rule.keep s p q again h r f g))
                  ]
                ])
        ]
      ]
