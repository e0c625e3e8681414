-- ===== src/Graph.antt =====
-- The dependency graph of internal/graph/graph.go. JSON and DOT output are left out. A node is shared by
-- pointer in Go; no method changes a node after `AddNode`, so it is a value here.
pub mod Laws
use hybridgrid.Prelude.{
  String, str_eq, Bool, true, false, ℕ, Option, none, some, List, [], ◌∷◌, ◌++◌, if◌then◌else◌,
  keep, length,
}
use hybridgrid.Prelude.Maps.{lookup, insert, values}

pub data NodeType : Type 0 where
  node_source node_header node_object node_library node_executable : NodeType

pub data EdgeType : Type 0 where
  edge_includes edge_compiles_to edge_links_to edge_depends_on : EdgeType

pub record Node : Type 0 where
  pub id : String
  pub file : String
  pub type : NodeType
  pub compiler : String
  pub flags : List String

pub record Edge : Type 0 where
  pub from : String
  pub to : String
  pub type : EdgeType

pub record Graph : Type 0 where
  pub nodes : List (String × Node)
  pub edges : List Edge

-- `New`
unfoldable pub new : Graph
new = record { nodes = []; edges = [] }

unfoldable pub node_type_eq : NodeType → NodeType → Bool
node_type_eq node_source node_source = true
node_type_eq node_header node_header = true
node_type_eq node_object node_object = true
node_type_eq node_library node_library = true
node_type_eq node_executable node_executable = true
node_type_eq _ _ = false

-- A node without an ID is named by its file.
unfoldable pub named : Node → Node
named node = if str_eq node.id "" then record node { id = node.file } else node

unfoldable pub add_node : Node → Graph → Graph
unfolding named
add_node node g = record g { nodes = insert (named node).id (named node) g.nodes }

unfoldable pub add_edge : (from to : String) → EdgeType → Graph → Graph
add_edge from to type g = record g {
  edges = g.edges ++ (record { from = from; to = to; type = type } ∷ []);
}

unfoldable pub get_node : String → Graph → Option Node
get_node id g = lookup id g.nodes

unfoldable pub node_count : Graph → ℕ
node_count g = length g.nodes

unfoldable pub edge_count : Graph → ℕ
edge_count g = length g.edges

unfoldable pub get_nodes_by_type : NodeType → Graph → List Node
unfolding node_type_eq
get_nodes_by_type type g = keep (λ node. node_type_eq node.type type) (values g.nodes)

unfoldable pub get_incoming_edges : String → Graph → List Edge
get_incoming_edges id g = keep (λ edge. str_eq edge.to id) g.edges

unfoldable pub get_outgoing_edges : String → Graph → List Edge
get_outgoing_edges id g = keep (λ edge. str_eq edge.from id) g.edges

-- The loop of `Merge` over the nodes of the other graph.
unfoldable pub merge_nodes : List (String × Node) → List (String × Node) → List (String × Node)
merge_nodes [] nodes = nodes
merge_nodes ((id, node) ∷ other) nodes =
    merge_nodes other (elim (lookup id nodes) [ none ↦ insert id node nodes | some _ ↦ nodes ])

unfoldable pub merge : Graph → Graph → Graph
unfolding merge_nodes
merge other g = record { nodes = merge_nodes other.nodes g.nodes; edges = g.edges ++ other.edges }
