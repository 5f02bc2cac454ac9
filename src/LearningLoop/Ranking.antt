-- ===== src/LearningLoop/Ranking.antt =====
-- The order of a ranking by `rank` of intelligence/learningLoop.ts.
use prism_spectra.Common.{
  ◌↔◌, sym, ap, ◌∙◌, subst, In, ◌*◌, ◌≤◌, ◌<◌, ◌≡◌, ◌⊎◌, inl, inr, false, List, [], ◌∷◌, map, All,
  leb, arith, Bool-cases,
}
use native.Mathlib.Nat.{mul-le-mul_right, le_of_mul-le-mul_right}
use mathlib.Core.List.{Perm}
use prism_spectra.Common.Sort.{
  sort_by, IsSorted, IsWeakOrder, sort_by-IsSorted, sort_by-perm, In-sort_by,
}
use prism_spectra.Common.Members.{In-map, preimage_of_In}
use prism_spectra.Types.{ExecutorName, NodeType}
use prism_spectra.LearningLoop.{Weights, ProviderWeight, get_weight, ranks_before, rank}

-- The success rate of `a` is higher than that of `b`, or the same, as fractions of counts.
abbrev pub HasHigherRate : ProviderWeight → ProviderWeight → Type 0
HasHigherRate a b = b.success_count * a.rate_of < a.success_count * b.rate_of

abbrev pub HasSameRate : ProviderWeight → ProviderWeight → Type 0
HasSameRate a b = b.success_count * a.rate_of ≡ a.success_count * b.rate_of

-- `a` is better than `b`: by its rate, then by its cost, then by its latency.
abbrev pub IsBetter : ProviderWeight → ProviderWeight → Type 0
IsBetter a b =
    HasHigherRate a b
    ⊎ (HasSameRate a b
        × ((a.avg_cost < b.avg_cost)
            ⊎ ((a.avg_cost ≡ b.avg_cost) × (a.avg_latency_ms < b.avg_latency_ms))))

-- No weight stands behind one that it is better than.
abbrev pub IsRanked : List ProviderWeight → Type 0
IsRanked [] = Unit
IsRanked (w ∷ ws) = All (λ v. ¬ IsBetter v w) ws × IsRanked ws

abbrev IsRate : ProviderWeight → Type 0
IsRate w = 0 < w.rate_of

no_lower_rate_trans :
    (a b c : ProviderWeight)
    → IsRate b
    → b.success_count * a.rate_of ≤ a.success_count * b.rate_of
    → c.success_count * b.rate_of ≤ b.success_count * c.rate_of
    → c.success_count * a.rate_of ≤ a.success_count * c.rate_of
no_lower_rate_trans a b c p h k =
    let first = mul-le-mul_right c.rate_of h in
    let second = mul-le-mul_right a.rate_of k in
    le_of_mul-le-mul_right {k = b.rate_of} (omega (arith, first, second)) p

no_lower_rate :
    (a b : ProviderWeight)
    → ranks_before b a ≡ false
    → b.success_count * a.rate_of ≤ a.success_count * b.rate_of
unfolding ranks_before
no_lower_rate a b h = ground (arith, h)

ranks_before_trans :
    (a b c : ProviderWeight)
    → IsRate a
    → IsRate b
    → IsRate c
    → ranks_before b a ≡ false
    → ranks_before c b ≡ false
    → ranks_before c a ≡ false
unfolding ranks_before
ranks_before_trans a b c pa pb pc h k =
    let ab = no_lower_rate a b h in
    let bc = no_lower_rate b c k in
    let ac = no_lower_rate_trans a b c pb ab bc in
    elim (Bool-cases (leb (a.success_count * c.rate_of) (c.success_count * a.rate_of))) [
      | inl e ↦
          let ca : a.success_count * c.rate_of ≤ c.success_count * a.rate_of = ground (arith, e) in
          let cb = no_lower_rate_trans c a b pa ca ab in
          let ba = no_lower_rate_trans b c a pc bc ca in
          ground (arith, h, k, ab, bc, ac, ca, cb, ba)
      | inr e ↦ ground (arith, e)
    ]

ranks_before-IsWeakOrder : IsWeakOrder ranks_before IsRate
unfolding ranks_before
ranks_before-IsWeakOrder = record {
  asymmetric = λ a b h. ground (arith, h);
  no_earlier_trans = ranks_before_trans;
}

no-IsBetter : (v w : ProviderWeight) → ranks_before v w ≡ false → ¬ IsBetter v w
unfolding ranks_before
no-IsBetter v w h (inl p) = ground (arith, h, p)
no-IsBetter v w h (inr (same, inl p)) = ground (arith, h, same, p)
no-IsBetter v w h (inr (same, inr (even, p))) = ground (arith, h, same, even, p)

IsRanked-of_sorted : (ws : List ProviderWeight) → IsSorted ranks_before ws → IsRanked ws
IsRanked-of_sorted [] s = tt
IsRanked-of_sorted (w ∷ ws) (h, s) = (behind ws h, IsRanked-of_sorted ws s)
  where
    behind :
        (vs : List ProviderWeight)
        → All (λ v. ranks_before v w ≡ false) vs
        → All (λ v. ¬ IsBetter v w) vs
    behind [] h = tt
    behind (v ∷ vs) (p, h) = (no-IsBetter v w p, behind vs h)

get_weight-IsRate : (ws : Weights) (p : ExecutorName) (nt : NodeType) → IsRate (get_weight ws p nt)
unfolding get_weight
get_weight-IsRate ws p nt = ground arith

weights-IsRate :
    (ws : Weights) (ps : List ExecutorName) (nt : NodeType)
    → All IsRate (map (λ p. get_weight ws p nt) ps)
weights-IsRate ws [] nt = tt
weights-IsRate ws (p ∷ ps) nt = (get_weight-IsRate ws p nt, weights-IsRate ws ps nt)

-- The ranking has the weight of each candidate, as often as it is one, and no other: the ones of a
-- higher success rate first, at the same rate the cheaper ones, and at the same cost the faster ones.
pub rank-IsRanked :
    (ws : Weights) (ps : List ExecutorName) (nt : NodeType)
    → Perm (rank ws ps nt) (map (λ p. get_weight ws p nt) ps) × IsRanked (rank ws ps nt)
unfolding rank
rank-IsRanked ws ps nt =
    let weights = map (λ p. get_weight ws p nt) ps in
    (
      sort_by-perm ranks_before weights,
      IsRanked-of_sorted (sort_by ranks_before weights) (
          sort_by-IsSorted ranks_before ranks_before-IsWeakOrder weights (weights-IsRate ws ps nt)),
    )

get_weight-provider :
    (ws : Weights) (p : ExecutorName) (nt : NodeType) → (get_weight ws p nt).provider ≡ p
unfolding get_weight
get_weight-provider ws p nt = ground arith

-- The ranking holds the candidates and no other provider.
pub In-rank :
    (ws : Weights) (ps : List ExecutorName) (nt : NodeType) (p : ExecutorName)
    → In p (map (λ w. w.provider) (rank ws ps nt)) ↔ In p ps
unfolding rank
In-rank ws ps nt p = (
  (λ h.
      let (w, m, e) = preimage_of_In (λ (w : ProviderWeight). w.provider) (rank ws ps nt) p h in
      let (q, k, e') =
        preimage_of_In (λ (q : ExecutorName). get_weight ws q nt) ps w
          ((In-sort_by ranks_before w (map (λ q. get_weight ws q nt) ps)).0 m) in
      subst (λ x. In x ps)
        (sym (e ∙ ap (λ (v : ProviderWeight). v.provider) e' ∙ get_weight-provider ws q nt)) k),
  (λ h.
      subst (λ x. In x (map (λ w. w.provider) (rank ws ps nt))) (get_weight-provider ws p nt)
        (In-map (λ (w : ProviderWeight). w.provider) (rank ws ps nt) (get_weight ws p nt)
          ((In-sort_by ranks_before (get_weight ws p nt) (map (λ q. get_weight ws q nt) ps)).1
            (In-map (λ (q : ExecutorName). get_weight ws q nt) ps p h)))),
)
