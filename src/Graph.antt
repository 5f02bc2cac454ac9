-- ===== src/Graph.antt =====
-- taskGraph/graph.ts: the DAG of task packets. The `Map` of nodes is the list of its values in
-- insertion order, and a mutated node is a new list. A thrown `Error` is a value of `GraphError`.
pub mod Acyclic
pub mod Cycles
pub mod Failure
pub mod Status
use prism_spectra.Common.{
  ℕ, suc, Bool, true, false, not, ◌||◌, List, [], ◌∷◌, ◌++◌, map, Option, none, some, zero, String,
  ◌==◌, string_eq, if◌then◌else◌, length, filter_by, any_of, includes, is_empty,
}
use prism_spectra.Types.{
  TaskPacket, GraphNode, NodeStatus, status_eq, pending, ready, running, success, failed, blocked,
}

pub data GraphError : Type 0 where
  unknown_dependency : (node dep : String) → GraphError
  cycle : (path : List String) → GraphError
  unknown_node : String → GraphError
  -- the model's own: the recursion of `visit` was cut off
  out_of_fuel : GraphError

pub data Result (A : Type 0) : Type 0 where
  ok : A → Result A
  throw : GraphError → Result A

infixl 5 ◌>>=◌
abbrev pub ◌>>=◌ : {A B : Type 0} → Result A → (A → Result B) → Result B
throw why >>= next = throw why
ok x >>= next = next x

pub record NodeInput : Type 0 where
  pub id : String
  pub packet : TaskPacket

pub record TaskGraph : Type 0 where
  pub id : String
  pub project_id : String
  pub nodes : List GraphNode

abbrev pub ids : List GraphNode → List String
ids = map (λ n. n.id)

-- `this.nodes.get(id)`
unfoldable pub find_node : String → List GraphNode → Option GraphNode
find_node id [] = none
find_node id (n ∷ ns) = let rest = find_node id ns in if n.id == id then some n else rest

-- `this.nodes.set(node.id, node)`: a key that is there keeps its place.
unfoldable pub set_node : GraphNode → List GraphNode → List GraphNode
set_node node [] = node ∷ []
set_node node (n ∷ ns) = if n.id == node.id then node ∷ ns else n ∷ set_node node ns

-- A change of the node under a key.
unfoldable pub update_node : String → (GraphNode → GraphNode) → List GraphNode → List GraphNode
update_node id f [] = []
update_node id f (n ∷ ns) = (if n.id == id then f n else n) ∷ update_node id f ns

abbrev fresh_node : NodeInput → GraphNode
fresh_node i = record {
  id = i.id;
  packet = i.packet;
  status = pending;
  result = none;
  dependents = [];
}

-- the first loop of the constructor
unfoldable pub insert_inputs : List NodeInput → List GraphNode → List GraphNode
insert_inputs [] nodes = nodes
insert_inputs (i ∷ is) nodes = insert_inputs is (set_node (fresh_node i) nodes)

abbrev add_dependent : String → GraphNode → GraphNode
add_dependent id n = record n { dependents = n.dependents ++ id ∷ [] }

-- the inner and the outer loop over the reverse edges
unfoldable pub link_dependencies : String → List String → List GraphNode → Result (List GraphNode)
link_dependencies id [] nodes = ok nodes
link_dependencies id (dep ∷ deps) nodes =
    let rest = link_dependencies id deps (update_node dep (add_dependent id) nodes) in
    elim (find_node dep nodes) [ none ↦ throw (unknown_dependency id dep) | some _ ↦ rest ]

unfoldable pub link_nodes : List GraphNode → List GraphNode → Result (List GraphNode)
link_nodes [] nodes = ok nodes
link_nodes (n ∷ ns) nodes =
    link_dependencies n.id n.packet.dependencies nodes >>= λ linked. link_nodes ns linked

-- `dependencies` of a node of the map
abbrev pub dependencies_of : String → List GraphNode → List String
dependencies_of id nodes = elim (find_node id nodes) [ none ↦ [] | some n ↦ n.packet.dependencies ]

-- the loop `for (const depId of …) visit(depId, …)`
unfoldable pub visit_all :
    (String → List String → Result (List String)) → List String → List String → Result (List String)
visit_all go [] visited = ok visited
visit_all go (d ∷ ds) visited = go d visited >>= λ v. visit_all go ds v

-- `visit` of `assertAcyclic`. `path` is the chain of open calls, oldest first, and `visiting` holds
-- the same ids; the result is `visited`, newest first. Each call is one unit of fuel deeper.
unfoldable pub visit :
    ℕ → List GraphNode → List String → String → List String → Result (List String)
visit zero nodes path id visited = throw out_of_fuel
visit (suc fuel) nodes path id visited =
    let deeper =
      visit_all (visit fuel nodes (path ++ id ∷ [])) (dependencies_of id nodes) visited >>= λ v.
      ok (id ∷ v) in
    if includes visited id
    then ok visited
    else if includes path id
    then throw (cycle (path ++ id ∷ []))
    else deeper

unfoldable pub assert_acyclic : List GraphNode → Result (List String)
unfolding visit_all visit
assert_acyclic nodes = visit_all (visit (suc (length nodes)) nodes []) (ids nodes) []

-- the constructor
unfoldable pub new_graph : String → String → List NodeInput → Result TaskGraph
unfolding insert_inputs link_nodes assert_acyclic
new_graph id project_id inputs =
    let initial = insert_inputs inputs [] in
    link_nodes initial initial >>= λ nodes.
    assert_acyclic nodes >>= λ _. ok (record { id = id; project_id = project_id; nodes = nodes })

unfoldable pub get : String → TaskGraph → Result GraphNode
unfolding find_node
get id g = elim (find_node id g.nodes) [ none ↦ throw (unknown_node id) | some n ↦ ok n ]

-- `dependencies.every((depId) => this.get(depId).status === "success")`
unfoldable pub all_success : List String → TaskGraph → Result Bool
unfolding get
all_success [] g = ok true
all_success (d ∷ ds) g = get d g >>= λ n. if n.status == success then all_success ds g else ok false

unfoldable pub is_ready : String → TaskGraph → Result Bool
unfolding all_success
is_ready id g = get id g >>= λ n.
    if not (n.status == pending) then ok false else all_success n.packet.dependencies g

unfoldable pub ready_among : List GraphNode → TaskGraph → Result (List String)
unfolding is_ready
ready_among [] g = ok []
ready_among (n ∷ ns) g =
    is_ready n.id g >>= λ r. ready_among ns g >>= λ rest. ok (if r then n.id ∷ rest else rest)

unfoldable pub ready_node_ids : TaskGraph → Result (List String)
unfolding ready_among
ready_node_ids g = ready_among g.nodes g

abbrev pub with_status : NodeStatus → GraphNode → GraphNode
with_status s n = record n { status = s }

unfoldable pub set_status : String → NodeStatus → TaskGraph → Result TaskGraph
unfolding get update_node
set_status id s g =
    get id g >>= λ _. ok (record g { nodes = update_node id (with_status s) g.nodes })

abbrev pub block : GraphNode → GraphNode
block n = if n.status == pending || n.status == ready then with_status blocked n else n

unfoldable pub block_all : List String → TaskGraph → Result TaskGraph
unfolding get update_node
block_all [] g = ok g
block_all (d ∷ ds) g =
    get d g >>= λ _. block_all ds (record g { nodes = update_node d block g.nodes })

unfoldable pub mark_failed : String → TaskGraph → Result TaskGraph
unfolding block_all set_status
mark_failed id g =
    get id g >>= λ node. set_status id failed g >>= λ marked. block_all node.dependents marked

unfoldable pub is_settled : TaskGraph → Result Bool
unfolding ready_node_ids
is_settled g =
    if any_of (λ n. n.status == running) g.nodes
    then ok false
    else (ready_node_ids g >>= λ r. ok (is_empty r))

-- `summary()`: how many nodes have the given status
unfoldable pub summary : List GraphNode → NodeStatus → ℕ
summary nodes s = length (filter_by (λ n. n.status == s) nodes)
