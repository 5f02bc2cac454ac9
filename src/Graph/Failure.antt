-- ===== src/Graph/Failure.antt =====
-- `markFailed` of taskGraph/graph.ts: which nodes it changes.
use prism_spectra.Common.{
  ◌≡◌, refl, sym, ap, ◌∙◌, Bool, true, false, ◌||◌, ◌&&◌, List, [], ◌∷◌, Option, none, some, String,
  ◌==◌, string_eq, if◌then◌else◌, includes, arith,
}
use mathlib.Core.Option
use text.Mathlib.TextEquality.{eq_iff}
use prism_spectra.Types.{GraphNode, NodeStatus, status_eq, pending, ready, failed, blocked}
use prism_spectra.Graph.{
  ok, TaskGraph, find_node, update_node, get, with_status, set_status, block, block_all,
  mark_failed,
}
use prism_spectra.Graph.Acyclic.{>>=-eq-ok}

pub find_node-update_node :
    (x id : String) (f : GraphNode → GraphNode) (ns : List GraphNode)
    → ((n : GraphNode) → (f n).id ≡ n.id)
    → find_node x (update_node id f ns)
      ≡ (if id == x then Option.map f (find_node x ns) else find_node x ns)
unfolding find_node update_node
find_node-update_node x id f [] keep = ground arith
find_node-update_node x id f (n ∷ ns) keep = ground (
  arith,
  find_node-update_node x id f ns keep,
  keep n,
  eq_iff n.id x,
  eq_iff n.id id,
  eq_iff id x,
)

pub block-id : (n : GraphNode) → (block n).id ≡ n.id
block-id n = ground arith

block_idem : (n : GraphNode) → block (block n) ≡ block n
block_idem n = ground arith

block_blocked :
    (b c : Bool) (o : Option GraphNode)
    → (if c
        then Option.map block (if b then Option.map block o else o)
        else (if b then Option.map block o else o))
      ≡ (if b || c then Option.map block o else o)
block_blocked true true none = refl
block_blocked true true (some n) = ap some (block_idem n)
block_blocked true false o = refl
block_blocked false c o = refl

pub ok_inj : {A : Type 0} {a b : A} → ok a ≡ ok b → a ≡ b
ok_inj h = cc

pub block_all-find_node :
    (x : String) (ds : List String) (g g' : TaskGraph)
    → block_all ds g ≡ ok g'
    → find_node x g'.nodes
      ≡ (if includes ds x then Option.map block (find_node x g.nodes) else find_node x g.nodes)
unfolding block_all
block_all-find_node x [] g g' h = ap (λ (r : TaskGraph). find_node x r.nodes) (sym (ok_inj h))
block_all-find_node x (d ∷ ds) g g' h =
    let g1 = record g { nodes = update_node d block g.nodes } in
    let (n, found, later) = >>=-eq-ok (get d g) (λ _. block_all ds g1) h in
    block_all-find_node x ds g1 g' later
    ∙ ap (λ o. if includes ds x then Option.map block o else o)
        (find_node-update_node x d block g.nodes block-id)
    ∙ block_blocked (d == x) (includes ds x) (find_node x g.nodes)

-- What a failure makes of the status of a node.
abbrev pub status_after : Bool → Bool → NodeStatus → NodeStatus
status_after is_failed is_dependent s =
    if is_failed
    then failed
    else if is_dependent && (s == pending || s == ready)
    then blocked
    else s

status_lem :
    (b c : Bool) (n : GraphNode)
    → (if c
        then Option.map block (if b then some (with_status failed n) else some n)
        else (if b then some (with_status failed n) else some n))
      ≡ some (with_status (status_after b c n.status) n)
status_lem b c n = ground arith

-- `markFailed` sets the node to failed, and the nodes that depend on it directly to blocked if they
-- were pending or ready. It changes no other node, and nothing but the status.
pub mark_failed-find_node :
    (id : String) (g g' : TaskGraph) (node : GraphNode) (x : String) (n : GraphNode)
    → mark_failed id g ≡ ok g'
    → find_node id g.nodes ≡ some node
    → find_node x g.nodes ≡ some n
    → find_node x g'.nodes
      ≡ some (with_status (status_after (id == x) (includes node.dependents x) n.status) n)
unfolding mark_failed set_status get
mark_failed-find_node id g g' node x n h at_id at_x =
    let marked = record g { nodes = update_node id (with_status failed) g.nodes } in
    block_all-find_node x node.dependents marked g' (ground (arith, h, at_id))
    ∙ ap (λ o. if includes node.dependents x then Option.map block o else o)
        (find_node-update_node x id (with_status failed) g.nodes (λ m. refl)
          ∙ ap (λ o. if id == x then Option.map (with_status failed) o else o) at_x)
    ∙ status_lem (id == x) (includes node.dependents x) n
