-- ===== src/Examples/Failure.antt =====
-- A graph in which "b" depends on "a", and "a" fails.
use prism_spectra.Common.{true, false, ◌≡◌, refl, [], ◌∷◌, none, some, string_eq}
use prism_spectra.Common.Json.{end}
use prism_spectra.Types.{GraphNode, docs, pending, failed, blocked, running}
use prism_spectra.Graph.{
  set_node, link_dependencies, update_node, ok, TaskGraph, new_graph, find_node, mark_failed,
  with_status,
}
use prism_spectra.Graph.Failure.{status_after, mark_failed-find_node}
use prism_spectra.Examples.Core.{packet_of}

abbrev first : GraphNode
first = record {
  id = "a";
  packet = packet_of docs [] end;
  status = running;
  result = none;
  dependents = "b" ∷ [];
}

abbrev second : GraphNode
second = record {
  id = "b";
  packet = packet_of docs ("a" ∷ []) end;
  status = pending;
  result = none;
  dependents = [];
}

abbrev before : TaskGraph
before = record { id = "g"; project_id = "p"; nodes = first ∷ second ∷ [] }

abbrev after : TaskGraph
after = record {
  id = "g";
  project_id = "p";
  nodes = with_status failed first ∷ with_status blocked second ∷ [];
}

-- The constructor builds this graph, with the reverse edge of "a".
before-built :
    new_graph "g" "p" (
      record { id = "a"; packet = first.packet } ∷ record { id = "b"; packet = second.packet } ∷ [])
    ≡ ok (record before { nodes = with_status pending first ∷ second ∷ [] })
unfolding new_graph set_node link_dependencies find_node update_node
before-built = refl

before-failed : mark_failed "a" before ≡ ok after
unfolding mark_failed
before-failed = refl

first-found : find_node "a" before.nodes ≡ some first
unfolding find_node
first-found = refl

second-found : find_node "b" before.nodes ≡ some second
unfolding find_node
second-found = refl

mark_failed-find_node_example :
    find_node "b" after.nodes ≡ some (with_status (status_after false true pending) second)
mark_failed-find_node_example =
    mark_failed-find_node "a" before after first "b" second before-failed first-found second-found
