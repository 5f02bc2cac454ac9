-- ===== src/Graph/Status.antt =====
-- taskGraph/graph.ts: what the changes of a status leave of the other nodes, and of the number of
-- pending ones.
use prism_spectra.Common.{
  ℕ, ◌≤◌, ◌<◌, ◌≡◌, ◌⊎◌, refl, sym, ap, ◌∙◌, subst, inl, inr, Bool, true, false, List, [], ◌∷◌,
  Option, none, some, String, ◌==◌, string_eq, if◌then◌else◌, includes, arith, Bool-cases,
  eq_of_beq, some_inj,
}
use mathlib.Core.Option
use prism_spectra.Types.{GraphNode, NodeStatus, status_eq, pending, ready, failed, blocked}
use prism_spectra.Graph.{
  TaskGraph, Result, ok, throw, ◌>>=◌, unknown_node, find_node, update_node, get, with_status,
  set_status, block, block_all, mark_failed, summary,
}
use prism_spectra.Graph.Acyclic.{>>=-eq-ok}
use prism_spectra.Graph.Failure.{find_node-update_node, block_all-find_node, ok_inj}

found_or_unknown-ok :
    (id : String) (o : Option GraphNode) (n : GraphNode)
    → elim o as (λ _. Result GraphNode) [ none ↦ throw (unknown_node id) | some m ↦ ok m ] ≡ ok n
    → o ≡ some n
found_or_unknown-ok id none n e = cc
found_or_unknown-ok id (some m) n e = ap some (ok_inj e)

pub get-ok :
    (id : String) (g : TaskGraph) (n : GraphNode) → get id g ≡ ok n → find_node id g.nodes ≡ some n
unfolding get
get-ok id g n h = found_or_unknown-ok id (find_node id g.nodes) n h

pub set_status-nodes :
    (id : String) (s : NodeStatus) (g g' : TaskGraph)
    → set_status id s g ≡ ok g'
    → (n : GraphNode) × (find_node id g.nodes ≡ some n)
      × (g'.nodes ≡ update_node id (with_status s) g.nodes)
unfolding set_status
set_status-nodes id s g g' h =
    let (n, found, e) =
      >>=-eq-ok (get id g) (λ _. ok (record g { nodes = update_node id (with_status s) g.nodes }))
        h in
    (n, get-ok id g n found, ap (λ (t : TaskGraph). t.nodes) (sym (ok_inj e)))

pub mark_failed-nodes :
    (id : String) (g g' : TaskGraph)
    → mark_failed id g ≡ ok g'
    → (n : GraphNode) × (find_node id g.nodes ≡ some n)
      × (block_all n.dependents (record g { nodes = update_node id (with_status failed) g.nodes })
          ≡ ok g')
unfolding mark_failed set_status
mark_failed-nodes id g g' h =
    let (n, found, h1) =
      >>=-eq-ok (get id g)
        (λ node. set_status id failed g >>= λ marked. block_all node.dependents marked) h in
    let (marked, set, h2) = >>=-eq-ok (set_status id failed g) (block_all n.dependents) h1 in
    let (_, _, h3) =
      >>=-eq-ok (get id g)
        (λ _. ok (record g { nodes = update_node id (with_status failed) g.nodes })) set in
    (n, get-ok id g n found, ap (block_all n.dependents) (ok_inj h3) ∙ h2)

-- How a node may look later: it has its packet, and if it is not the one that is run, then its status
-- is as it was, or it was open and is blocked.
abbrev pub IsOpen : NodeStatus → Type 0
IsOpen s = (s ≡ pending) ⊎ (s ≡ ready)

abbrev pub Evolves : Bool → Option GraphNode → Option GraphNode → Type 0
Evolves mine none none = Unit
Evolves mine none (some n') = ⊥
Evolves mine (some n) none = ⊥
Evolves mine (some n) (some n') =
    (n'.packet ≡ n.packet)
    × ((mine ≡ true) ⊎ ((n'.status ≡ n.status) ⊎ (IsOpen n.status × (n'.status ≡ blocked))))

pub Evolves-refl : (mine : Bool) (o : Option GraphNode) → Evolves mine o o
Evolves-refl mine none = tt
Evolves-refl mine (some n) = (refl, inr (inl refl))

pub Evolves-trans :
    (mine : Bool) (o p q : Option GraphNode)
    → Evolves mine o p
    → Evolves mine p q
    → Evolves mine o q
Evolves-trans mine none none none h k = tt
Evolves-trans mine none none (some l) h k = elim k [ ]
Evolves-trans mine none (some m) q h k = elim h [ ]
Evolves-trans mine (some n) none q h k = elim h [ ]
Evolves-trans mine (some n) (some m) none h k = elim k [ ]
Evolves-trans mine (some n) (some m) (some l) (e, h) (f, k) = (f ∙ e, go h k)
  where
    go :
        (mine ≡ true) ⊎ ((m.status ≡ n.status) ⊎ (IsOpen n.status × (m.status ≡ blocked)))
        → (mine ≡ true) ⊎ ((l.status ≡ m.status) ⊎ (IsOpen m.status × (l.status ≡ blocked)))
        → (mine ≡ true) ⊎ ((l.status ≡ n.status) ⊎ (IsOpen n.status × (l.status ≡ blocked)))
    go (inl a) k = inl a
    go (inr a) (inl b) = inl b
    go (inr (inl a)) (inr (inl b)) = inr (inl (b ∙ a))
    go (inr (inr (a, b))) (inr (inl c)) = inr (inr (a, c ∙ b))
    go (inr (inl a)) (inr (inr (b, c))) = inr (inr (subst IsOpen a b, c))
    go (inr (inr (a, b))) (inr (inr (c, d))) = inr (inr (a, d))

-- A change of the one node.
pub Evolves-map :
    (mine : Bool) (f : GraphNode → GraphNode) (o : Option GraphNode)
    → ((n : GraphNode) → (f n).packet ≡ n.packet)
    → Evolves mine o (if mine then Option.map f o else o)
Evolves-map false f o keep = Evolves-refl false o
Evolves-map true f none keep = tt
Evolves-map true f (some n) keep = (keep n, inl refl)

pub block-cases :
    (n : GraphNode) → (block n ≡ n) ⊎ (IsOpen n.status × (block n ≡ with_status blocked n))
block-cases n = elim (Bool-cases (n.status == pending)) [
  | inl e ↦ inr (inl (eq_of_beq n.status pending e), ground (arith, e))
  | inr e ↦ elim (Bool-cases (n.status == ready)) [
    | inl f ↦ inr (inr (eq_of_beq n.status ready f), ground (arith, e, f))
    | inr f ↦ inl (ground (arith, e, f))
  ]
]

-- A node that is blocked, or not.
Evolves-block :
    (mine dependent : Bool) (o : Option GraphNode)
    → Evolves mine o (if dependent then Option.map block o else o)
Evolves-block mine false o = Evolves-refl mine o
Evolves-block mine true none = tt
Evolves-block mine true (some n) = elim (block-cases n) [
  | inl e ↦ (ap (λ m. m.packet) e, inr (inl (ap (λ m. m.status) e)))
  | inr (o, e) ↦ (ap (λ m. m.packet) e, inr (inr (o, ap (λ m. m.status) e)))
]

-- All nodes evolve; the one that is run is `id`.
abbrev pub AllEvolve : String → List GraphNode → List GraphNode → Type 0
AllEvolve id ns ns' = (x : String) → Evolves (id == x) (find_node x ns) (find_node x ns')

pub AllEvolve-trans :
    (id : String) (ns ms ls : List GraphNode)
    → AllEvolve id ns ms
    → AllEvolve id ms ls
    → AllEvolve id ns ls
AllEvolve-trans id ns ms ls h k x =
    Evolves-trans (id == x) (find_node x ns) (find_node x ms) (find_node x ls) (h x) (k x)

pub update_node-AllEvolve :
    (id : String) (f : GraphNode → GraphNode) (ns : List GraphNode)
    → ((n : GraphNode) → (f n).id ≡ n.id)
    → ((n : GraphNode) → (f n).packet ≡ n.packet)
    → AllEvolve id ns (update_node id f ns)
update_node-AllEvolve id f ns same keep x =
    subst (Evolves (id == x) (find_node x ns)) (sym (find_node-update_node x id f ns same))
      (Evolves-map (id == x) f (find_node x ns) keep)

pub set_status-AllEvolve :
    (id : String) (s : NodeStatus) (g g' : TaskGraph)
    → set_status id s g ≡ ok g'
    → AllEvolve id g.nodes g'.nodes
set_status-AllEvolve id s g g' h =
    let (_, _, e) = set_status-nodes id s g g' h in
    subst (AllEvolve id g.nodes) (sym e)
      (update_node-AllEvolve id (with_status s) g.nodes (λ n. refl) (λ n. refl))

pub mark_failed-AllEvolve :
    (id : String) (g g' : TaskGraph) → mark_failed id g ≡ ok g' → AllEvolve id g.nodes g'.nodes
mark_failed-AllEvolve id g g' h =
    let (node, _, blocks) = mark_failed-nodes id g g' h in
    let marked = update_node id (with_status failed) g.nodes in
    AllEvolve-trans id g.nodes marked g'.nodes
      (update_node-AllEvolve id (with_status failed) g.nodes (λ n. refl) (λ n. refl))
      (λ x.
        subst (Evolves (id == x) (find_node x marked))
          (sym (block_all-find_node x node.dependents (record g { nodes = marked }) g' blocks))
          (Evolves-block (id == x) (includes node.dependents x) (find_node x marked)))

-- The pending nodes.
unfoldable pub pending_count : List GraphNode → ℕ
unfolding summary
pending_count ns = summary ns pending

-- A change that makes no node pending again.
abbrev NeverReopens : (GraphNode → GraphNode) → Type 0
NeverReopens f = (n : GraphNode) → ((f n).status == pending) ≡ true → (n.status == pending) ≡ true

pub update_node-pending_le :
    (id : String) (f : GraphNode → GraphNode) (ns : List GraphNode)
    → NeverReopens f
    → pending_count (update_node id f ns) ≤ pending_count ns
unfolding pending_count summary update_node
update_node-pending_le id f [] h = omega arith
update_node-pending_le id f (n ∷ ns) h = ground (arith, update_node-pending_le id f ns h, h n)

pub update_node-pending_lt :
    (id : String) (f : GraphNode → GraphNode) (ns : List GraphNode) (n : GraphNode)
    → ((m : GraphNode) → ((f m).status == pending) ≡ false)
    → find_node id ns ≡ some n
    → n.status ≡ pending
    → pending_count (update_node id f ns) < pending_count ns
unfolding pending_count summary update_node find_node
update_node-pending_lt id f [] n h found p = cc
update_node-pending_lt id f (m ∷ ns) n h found p = elim (Bool-cases (m.id == id)) [
  | inl e ↦
      let same : some m ≡ some n =
        ap (λ b. if b then some m else find_node id ns) (sym e) ∙ found in
      let open_status : m.status ≡ pending = ap (λ k. k.status) (some_inj same) ∙ p in
      let rest = update_node-pending_le id f ns (λ k q. ground (arith, h k)) in
      ground (arith, h m, open_status, rest, e)
  | inr e ↦
      let later = ap (λ b. if b then some m else find_node id ns) (sym e) ∙ found in
      let rest = update_node-pending_lt id f ns n h later p in ground (arith, rest, e)
]

block-NeverReopens : NeverReopens block
block-NeverReopens n h = ground arith

block_all-pending_le :
    (ds : List String) (g g' : TaskGraph)
    → block_all ds g ≡ ok g'
    → pending_count g'.nodes ≤ pending_count g.nodes
unfolding block_all
block_all-pending_le [] g g' h =
    let e = ap (λ (t : TaskGraph). pending_count t.nodes) (ok_inj h) in omega (arith, e)
block_all-pending_le (d ∷ ds) g g' h =
    let g1 = record g { nodes = update_node d block g.nodes } in
    let (_, _, later) = >>=-eq-ok (get d g) (λ _. block_all ds g1) h in
    let first = update_node-pending_le d block g.nodes block-NeverReopens in
    let rest = block_all-pending_le ds g1 g' later in omega (arith, first, rest)

with_status-NeverReopens : (s : NodeStatus) → (s == pending) ≡ false → NeverReopens (with_status s)
with_status-NeverReopens s e n h = ground (arith, e)

pub set_status-pending_le :
    (id : String) (s : NodeStatus) (g g' : TaskGraph)
    → (s == pending) ≡ false
    → set_status id s g ≡ ok g'
    → pending_count g'.nodes ≤ pending_count g.nodes
set_status-pending_le id s g g' e h =
    let (_, _, nodes) = set_status-nodes id s g g' h in
    subst (λ ns. pending_count ns ≤ pending_count g.nodes) (sym nodes)
      (update_node-pending_le id (with_status s) g.nodes (with_status-NeverReopens s e))

-- A pending node that gets another status leaves one pending node fewer at least.
pub set_status-pending_lt :
    (id : String) (s : NodeStatus) (g g' : TaskGraph) (n : GraphNode)
    → (s == pending) ≡ false
    → find_node id g.nodes ≡ some n
    → n.status ≡ pending
    → set_status id s g ≡ ok g'
    → pending_count g'.nodes < pending_count g.nodes
set_status-pending_lt id s g g' n e found p h =
    let (_, _, nodes) = set_status-nodes id s g g' h in
    subst (λ ns. pending_count ns < pending_count g.nodes) (sym nodes)
      (update_node-pending_lt id (with_status s) g.nodes n (λ m. e) found p)

pub mark_failed-pending_le :
    (id : String) (g g' : TaskGraph)
    → mark_failed id g ≡ ok g'
    → pending_count g'.nodes ≤ pending_count g.nodes
mark_failed-pending_le id g g' h =
    let (node, _, blocks) = mark_failed-nodes id g g' h in
    let marked = record g { nodes = update_node id (with_status failed) g.nodes } in
    let first =
      update_node-pending_le id (with_status failed) g.nodes
        (with_status-NeverReopens failed refl) in
    let rest = block_all-pending_le node.dependents marked g' blocks in omega (arith, first, rest)
