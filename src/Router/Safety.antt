-- ===== src/Router/Safety.antt =====
-- Whom `route` of routing/router.ts may choose.
use prism_spectra.Common.{
  ℕ, ◌≡◌, ◌≢◌, ◌⊎◌, inl, inr, sym, Bool, true, false, find_by, List, [], ◌∷◌, ◌++◌, Option, some,
  arith, Bool-cases, includes, In, All, ap, ◌∙◌,
}
use prism_spectra.Types.{
  ExecutorName, executor_eq, ollama, free_tier, NodeType, TaskPacket, ChainAttempt, node_type_eq,
  node_type_beq_iff,
}
use prism_spectra.Ledger.{Table, check}
use prism_spectra.LearningLoop.{Weights}
use prism_spectra.Router.{
  RouteDecisionHint, Availability, provider_available, Found, try_each, unless_excluded, or_next,
  ranked, try_remote, leave_local, route_tiers, route, is_local_only,
}
use prism_spectra.Router.Search.{
  NotTerminal, eligible, Agrees, find_by-Agrees, try_each-find, try_each-Agrees, find_by-append,
  or_next-executor,
}
use prism_spectra.Router.Candidates.{
  In-ranked, ranked-NotTerminal, remote_candidates, candidates, unless_excluded-NotTerminal,
}

module _ (a : Availability) (now : ℕ) (t : Table) where
  or_next-find :
      (f : Found) (next : List ChainAttempt → Table → Found) (ps qs : List ExecutorName)
      → f.executor ≡ find_by (eligible a now t) ps
      → (next f.chain f.table).executor ≡ find_by (eligible a now t) qs
      → (or_next f next).executor ≡ find_by (eligible a now t) (ps ++ qs)
  or_next-find f next ps qs p q =
      cc (or_next-executor f next, find_by-append (eligible a now t) ps qs, p, q)

  -- the same loop from a table that agrees
  try_each-find_later :
      (ps : List ExecutorName) (chain : List ChainAttempt) (later : Table)
      → All NotTerminal ps
      → Agrees a now t later
      → (try_each a now ps chain later).executor ≡ find_by (eligible a now t) ps
  try_each-find_later ps chain later n h =
      try_each-find a now ps chain later n ∙ find_by-Agrees a now ps t later h n

module _ (a : Availability) (ws : Weights) (now : ℕ) (exclude : List ExecutorName)
    (hint : Option RouteDecisionHint) (t : Table) where
  try_remote-find :
      (nt : NodeType) (chain : List ChainAttempt) (later : Table)
      → Agrees a now t later
      → (try_remote a ws now nt exclude hint chain later).executor
        ≡ find_by
            (eligible a now t)
            (unless_excluded exclude free_tier ++ ranked ws nt exclude hint)
  unfolding try_remote
  try_remote-find nt chain later h =
      let free = unless_excluded exclude free_tier in
      let plain = unless_excluded-NotTerminal exclude free_tier (λ e. cc) in
      let f = try_each a now free chain later in
      or_next-find a now t f (try_each a now (ranked ws nt exclude hint)) free
        (ranked ws nt exclude hint) (try_each-find_later a now t free chain later plain h)
        (try_each-find_later a now t (ranked ws nt exclude hint) f.chain f.table
          (ranked-NotTerminal ws nt exclude hint)
          (λ q hq. try_each-Agrees a now free chain later plain q hq ∙ h q hq))

  leave_local-find :
      (packet : TaskPacket) (chain : List ChainAttempt) (later : Table)
      → Agrees a now t later
      → (leave_local a ws now packet exclude hint chain later).executor
        ≡ find_by (eligible a now t) (remote_candidates ws packet exclude hint)
  unfolding leave_local remote_candidates
  leave_local-find packet chain later h =
      ground (arith, try_remote-find packet.node_type chain later h)

  route_tiers-find :
      (packet : TaskPacket)
      → (route_tiers a ws now packet exclude hint t).executor
        ≡ find_by (eligible a now t) (candidates ws packet exclude hint)
  unfolding route_tiers candidates
  route_tiers-find packet =
      let home = unless_excluded exclude ollama in
      let plain = unless_excluded-NotTerminal exclude ollama (λ e. cc) in
      let f = try_each a now home [] t in
      or_next-find a now t f (leave_local a ws now packet exclude hint) home
        (remote_candidates ws packet exclude hint) (try_each-find a now home [] t plain)
        (leave_local-find packet f.chain f.table (try_each-Agrees a now home [] t plain))

  -- For a node that is no terminal node, `route` chooses the first candidate that is available and that
  -- the ledger allows, both judged when the call starts; `null` if there is none. Candidates are the
  -- local model, the free tier and the two paid providers as ranked, without the excluded ones, and a
  -- local-only request has the local model alone.
  pub route-find :
      (packet : TaskPacket)
      → packet.node_type ≢ NodeType.terminal
      → (route a ws now packet exclude hint t).0.executor
        ≡ find_by (eligible a now t) (candidates ws packet exclude hint)
  unfolding route
  route-find packet nt =
      ground (arith, route_tiers-find packet, node_type_beq_iff packet.node_type NodeType.terminal)

-- A provider that is found is one of the list, and eligible.
find_by-some :
    (f : ExecutorName → Bool) (ps : List ExecutorName) {p : ExecutorName}
    → find_by f ps ≡ some p
    → In p ps × (f p ≡ true)
find_by-some f [] h = cc
find_by-some f (q ∷ qs) {p} h = elim (Bool-cases (f q)) [
  | inl e ↦ let same : q ≡ p = ground arith in (inl (sym same), ap f (sym same) ∙ e)
  | inr e ↦ let (m, r) = find_by-some f qs {p = p} (ground arith) in (inr m, r)
]

In-append : {A : Type 0} (x : A) (xs ys : List A) → In x (xs ++ ys) → In x xs ⊎ In x ys
In-append x [] ys h = inr h
In-append x (y ∷ xs) ys (inl e) = inl (inl e)
In-append x (y ∷ xs) ys (inr h) = elim (In-append x xs ys h) [ inl m ↦ inl (inr m) | inr m ↦ inr m ]

unless_excluded-fresh :
    (exclude : List ExecutorName) (q p : ExecutorName)
    → In p (unless_excluded exclude q)
    → (p ≡ q) × (includes exclude p ≡ false)
unless_excluded-fresh exclude q p h = elim (Bool-cases (includes exclude q)) [
  | inl e ↦ absurd (ground arith)
  | inr e ↦ let same : p ≡ q = ground arith in (same, ap (includes exclude) same ∙ e)
]

remote_candidates-fresh :
    (ws : Weights) (packet : TaskPacket) (exclude : List ExecutorName)
    (hint : Option RouteDecisionHint) (p : ExecutorName)
    → In p (remote_candidates ws packet exclude hint)
    → (includes exclude p ≡ false) × (p ≢ ExecutorName.terminal) × (is_local_only packet ≡ false)
unfolding remote_candidates
remote_candidates-fresh ws packet exclude hint p h = elim (Bool-cases (is_local_only packet)) [
  | inl e ↦ absurd (rw e at h)
  | inr e ↦
      elim (In-append p (unless_excluded exclude free_tier)
        (ranked ws packet.node_type exclude hint) (rw e at h)) [
          | inl m ↦
              let (same, fresh) = unless_excluded-fresh exclude free_tier p m in
              (fresh, (λ t. cc), e)
          | inr m ↦
              let (paid, fresh) = (In-ranked ws packet.node_type exclude hint p).0 m in
              (fresh, (elim paid [ inl q ↦ λ t. cc | inr q ↦ λ t. cc ]), e)
        ]
]

candidates-fresh :
    (ws : Weights) (packet : TaskPacket) (exclude : List ExecutorName)
    (hint : Option RouteDecisionHint) (p : ExecutorName)
    → In p (candidates ws packet exclude hint)
    → (includes exclude p ≡ false)
      × (p ≢ ExecutorName.terminal)
      × (is_local_only packet ≡ true → p ≡ ollama)
unfolding candidates
candidates-fresh ws packet exclude hint p h =
    elim (In-append p (unless_excluded exclude ollama) (remote_candidates ws packet exclude hint)
      h) [
        | inl m ↦
            let (same, fresh) = unless_excluded-fresh exclude ollama p m in
            (fresh, (λ t. cc), λ _. same)
        | inr m ↦
            let (fresh, tier, remote) = remote_candidates-fresh ws packet exclude hint p m in
            (fresh, tier, λ e. absurd (ground arith))
      ]

-- A provider that `route` returns for a node that is no terminal node was not excluded, is available
-- and allowed by the ledger; for a local-only request it is the local model.
pub route-safe :
    (a : Availability) (ws : Weights) (now : ℕ) (packet : TaskPacket) (exclude : List ExecutorName)
    (hint : Option RouteDecisionHint) (t : Table) (p : ExecutorName)
    → packet.node_type ≢ NodeType.terminal
    → (route a ws now packet exclude hint t).0.executor ≡ some p
    → (includes exclude p ≡ false)
      × (p ≢ ExecutorName.terminal)
      × ((provider_available a p).available ≡ true)
      × ((check p now t).0.allowed ≡ true)
      × (is_local_only packet ≡ true → p ≡ ollama)
unfolding eligible
route-safe a ws now packet exclude hint t p nt h =
    let (m, e) =
      find_by-some (eligible a now t) (candidates ws packet exclude hint)
        (sym (route-find a ws now exclude hint t packet nt) ∙ h) in
    let (fresh, tier, home) = candidates-fresh ws packet exclude hint p m in
    (fresh, tier, ground arith, ground arith, home)
