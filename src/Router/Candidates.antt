-- ===== src/Router/Candidates.antt =====
-- The providers that `route` of routing/router.ts tries, in their order.
use prism_spectra.Common.{
  ◌≡◌, ◌≢◌, ◌⊎◌, inl, inr, ◌↔◌, refl, Bool, true, false, not, List, [], ◌∷◌, ◌++◌, Option, arith,
  if◌then◌else◌, Bool-cases, includes, In, All, filter_by, ap, ◌∙◌,
}
use prism_spectra.Types.{
  ExecutorName, executor_eq, ollama, free_tier, gpt, claude, NodeType, TaskPacket, node_type_eq,
}
use prism_spectra.LearningLoop.{Weights}
use prism_spectra.LearningLoop.Ranking.{In-rank}
use prism_spectra.Router.{
  RouteDecisionHint, Complexity, unless_excluded, ranked, is_local_only, paid_tier_preference,
  classify_complexity,
}

pub All-of_In : {A : Type 0} (P : A → Type 0) (xs : List A) → ((x : A) → In x xs → P x) → All P xs
All-of_In P [] h = tt
All-of_In P (x ∷ xs) h = (h x (inl refl), All-of_In P xs (λ y m. h y (inr m)))

pub In-filter_by :
    {A : Type 0} (keep : A → Bool) (x : A) (xs : List A)
    → In x (filter_by keep xs) ↔ (In x xs × (keep x ≡ true))
In-filter_by keep x [] = (λ h. absurd h, λ h. h.0)
In-filter_by keep x (y ∷ ys) = elim (Bool-cases (keep y)) [
  | inl e ↦ rw e (
    (λ h. elim h [
      | inl p ↦ (inl p, ap keep p ∙ e)
      | inr m ↦ let (k, q) = (In-filter_by keep x ys).0 m in (inr k, q)
    ]),
    (λ (h, q). elim h [ inl p ↦ inl p | inr m ↦ inr ((In-filter_by keep x ys).1 (m, q)) ]),
  )
  | inr e ↦ rw e (
    (λ h. let (k, q) = (In-filter_by keep x ys).0 h in (inr k, q)),
    (λ (h, q). elim h [
      | inl p ↦ absurd (ground (arith, ap keep p))
      | inr m ↦ (In-filter_by keep x ys).1 (m, q)
    ]),
  )
]

pub two_paid :
    (c : Complexity) (hint : Option RouteDecisionHint)
    → (paid_tier_preference c hint ≡ gpt ∷ claude ∷ [])
      ⊎ (paid_tier_preference c hint ≡ claude ∷ gpt ∷ [])
unfolding paid_tier_preference
two_paid c hint = ground arith

abbrev pub IsPaid : ExecutorName → Type 0
IsPaid p = (p ≡ gpt) ⊎ (p ≡ claude)

pub In-paid_tier_preference :
    (c : Complexity) (hint : Option RouteDecisionHint) (p : ExecutorName)
    → In p (paid_tier_preference c hint) ↔ IsPaid p
In-paid_tier_preference c hint p = elim (two_paid c hint) [
  | inl e ↦ rw e ((λ h. ground arith), (λ h. ground arith))
  | inr e ↦ rw e ((λ h. ground arith), (λ h. ground arith))
]

module _ (ws : Weights) (nt : NodeType) (exclude : List ExecutorName)
    (hint : Option RouteDecisionHint) where
  -- The ranked providers are the paid ones that are not excluded.
  pub In-ranked :
      (p : ExecutorName)
      → In p (ranked ws nt exclude hint) ↔ (IsPaid p × (includes exclude p ≡ false))
  unfolding ranked
  In-ranked p =
      let order = paid_tier_preference (classify_complexity nt) hint in
      let open_ones = filter_by (λ p. not (includes exclude p)) order in
      let kept = In-filter_by (λ p. not (includes exclude p)) p order in
      let known = In-paid_tier_preference (classify_complexity nt) hint p in
      (
        (λ h. let (m, e) = kept.0 ((In-rank ws open_ones nt p).0 h) in (known.0 m, ground arith)),
        (λ (h, e). (In-rank ws open_ones nt p).1 (kept.1 (known.1 h, ground arith))),
      )

  pub ranked-NotTerminal : All (λ p. p ≢ ExecutorName.terminal) (ranked ws nt exclude hint)
  ranked-NotTerminal =
      All-of_In (λ p. p ≢ ExecutorName.terminal) (ranked ws nt exclude hint)
        (λ p m. elim ((In-ranked p).0 m).0 [ inl e ↦ λ t. cc | inr e ↦ λ t. cc ])

-- The providers that a request may be sent to, in the order of the tiers.
unfoldable pub remote_candidates :
    Weights → TaskPacket → List ExecutorName → Option RouteDecisionHint → List ExecutorName
remote_candidates ws packet exclude hint =
    if is_local_only packet
    then []
    else unless_excluded exclude free_tier ++ ranked ws packet.node_type exclude hint

unfoldable pub candidates :
    Weights → TaskPacket → List ExecutorName → Option RouteDecisionHint → List ExecutorName
unfolding remote_candidates
candidates ws packet exclude hint =
    unless_excluded exclude ollama ++ remote_candidates ws packet exclude hint

pub unless_excluded-NotTerminal :
    (exclude : List ExecutorName) (p : ExecutorName)
    → p ≢ ExecutorName.terminal
    → All (λ q. q ≢ ExecutorName.terminal) (unless_excluded exclude p)
unless_excluded-NotTerminal exclude p h = ground arith
