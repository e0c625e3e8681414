-- ===== src/Tests/GraphRuns.antt =====
-- Runs of the dependency graph.
use hybridgrid.Prelude.{◌+◌, ◌≡◌, [], ◌++◌}
use hybridgrid.Graph.{
  node_source, node_header, edge_includes, Node, Graph, new, add_node, add_edge, get_node,
  edge_count, get_incoming_edges, get_outgoing_edges, merge,
}
use hybridgrid.Graph.Laws.{or_else, merge_lem}

abbrev main_file : Node
main_file = record { id = ""; file = "main.c"; type = node_source; compiler = "gcc"; flags = [] }

abbrev header_file : Node
header_file = record { id = "h"; file = "a.h"; type = node_header; compiler = ""; flags = [] }

abbrev left_graph : Graph
left_graph = add_edge "main.c" "h" edge_includes (add_node main_file new)

abbrev right_graph : Graph
right_graph = add_edge "b.c" "h" edge_includes (add_node header_file new)

merge_lem_example :
    (get_node "h" (merge right_graph left_graph)
      ≡ or_else (get_node "h" left_graph) (get_node "h" right_graph))
    × (get_incoming_edges "h" (merge right_graph left_graph)
        ≡ get_incoming_edges "h" left_graph ++ get_incoming_edges "h" right_graph)
    × (get_outgoing_edges "h" (merge right_graph left_graph)
        ≡ get_outgoing_edges "h" left_graph ++ get_outgoing_edges "h" right_graph)
    × (edge_count (merge right_graph left_graph) ≡ edge_count left_graph + edge_count right_graph)
merge_lem_example = merge_lem "h" right_graph left_graph
