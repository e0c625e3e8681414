-- ===== src/Graph/Laws.antt =====
-- What the methods of internal/graph/graph.go guarantee.
use hybridgrid.Prelude.{
  ◌+◌, String, str_eq, eq_iff, ◌≡◌, refl, ◌∙◌, ap, Bool, true, false, Option, none, some, List, [],
  ◌∷◌, ◌++◌, if◌then◌else◌, keep, arith, Bool-cases, Option-cases, inl, inr, length-append,
}
use hybridgrid.Prelude.Maps.{lookup, insert, lookup-insert}
use hybridgrid.Graph.{
  Node, Edge, Graph, named, add_node, get_node, edge_count, get_incoming_edges, get_outgoing_edges,
  merge_nodes, merge,
}

keep-append {ℓ} :
    {A : Type ℓ} (p : A → Bool) (xs ys : List A) → keep p (xs ++ ys) ≡ keep p xs ++ keep p ys
unfolding keep
keep-append p [] ys = refl
keep-append p (x ∷ xs) ys = elim (Bool-cases (p x)) [
  | inl e ↦ rw e (ap (λ l. x ∷ l) (keep-append p xs ys))
  | inr e ↦ rw e (keep-append p xs ys)
]

abbrev pub or_else : Option Node → Option Node → Option Node
or_else none o = o
or_else (some n) o = some n

lookup-keep_old :
    (id k : String) (node : Node) (nodes : List (String × Node))
    → lookup k (elim (lookup id nodes) [ none ↦ insert id node nodes | some _ ↦ nodes ])
      ≡ or_else (lookup k nodes) (if str_eq id k then some node else none)
lookup-keep_old id k node nodes = elim (Option-cases (lookup id nodes)) [
  | inl e ↦ rw e (ground (arith, eq_iff id k, lookup-insert id k node nodes))
  | inr (n, e) ↦ rw e (ground (arith, eq_iff id k))
]

or_else_assoc :
    (o : Option Node) (b : Bool) (node : Node) (p : Option Node)
    → or_else (or_else o (if b then some node else none)) p ≡ or_else o (if b then some node else p)
or_else_assoc none true node p = refl
or_else_assoc none false node p = refl
or_else_assoc (some n) b node p = refl

lookup-merge_nodes :
    (k : String) (other nodes : List (String × Node))
    → lookup k (merge_nodes other nodes) ≡ or_else (lookup k nodes) (lookup k other)
unfolding merge_nodes lookup
lookup-merge_nodes k [] nodes = or_none (lookup k nodes)
  where
    or_none : (o : Option Node) → o ≡ or_else o none
    or_none none = refl
    or_none (some n) = refl
lookup-merge_nodes k ((id, node) ∷ other) nodes =
    lookup-merge_nodes k other _
    ∙ ap (λ o. or_else o (lookup k other)) (lookup-keep_old id k node nodes)
    ∙ or_else_assoc (lookup k nodes) (str_eq id k) node (lookup k other)

-- After a merge a node is the one of the first graph, or else that of the other; the edges into a node
-- and out of it are those of the first graph followed by those of the other, and the numbers of edges
-- add up.
pub merge_lem :
    (k : String) (other g : Graph)
    → (get_node k (merge other g) ≡ or_else (get_node k g) (get_node k other))
      × (get_incoming_edges k (merge other g)
          ≡ get_incoming_edges k g ++ get_incoming_edges k other)
      × (get_outgoing_edges k (merge other g)
          ≡ get_outgoing_edges k g ++ get_outgoing_edges k other)
      × (edge_count (merge other g) ≡ edge_count g + edge_count other)
unfolding get_node merge get_incoming_edges get_outgoing_edges edge_count
merge_lem k other g = (
  lookup-merge_nodes k other.nodes g.nodes,
  keep-append (λ (e : Edge). str_eq e.to k) g.edges other.edges,
  keep-append (λ (e : Edge). str_eq e.from k) g.edges other.edges,
  length-append g.edges other.edges,
)

-- An added node is found under its ID, or under its file if it came without an ID, and replaces what
-- stood there; every other node stays.
pub get_node-add_node :
    (k : String) (node : Node) (g : Graph)
    → get_node k (add_node node g) ≡ (
        if str_eq (if str_eq node.id "" then node.file else node.id) k
        then some (record node { id = if str_eq node.id "" then node.file else node.id })
        else get_node k g)
unfolding get_node add_node named
get_node-add_node k node g = elim (Bool-cases (str_eq node.id "")) [
  | inl e ↦ rw e (lookup-insert node.file k (record node { id = node.file }) g.nodes)
  | inr e ↦ rw e (lookup-insert node.id k node g.nodes)
]
