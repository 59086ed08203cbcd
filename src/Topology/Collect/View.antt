-- ===== src/Topology/Collect/View.antt =====
-- What a node says of itself and its neighbors.
use omm.Prelude.{
  String, ◌≡◌, ◌≢◌, refl, true, false, Bool-cases, inl, inr, List, [], ◌∷◌, ◌++◌, map, ◌==◌, ◌||◌,
  All, All-append, All-map_of, arith, eq_iff, eq_refl, ne_of_eq-false,
}
use omm.Topology.{Node, Link, Client, Graph, Neighbor, bare_node}
use omm.Topology.Collect.{
  Collector, has_node, see_node, link_to, add_neighbors, own_client, collect, self_node, or_zero,
}
use omm.Topology.Merge.Nodes.{HasUniqueIds}

-- A link of the node's own, to a node of the graph.
abbrev pub IsOwnLink : Collector → List Node → Link → Type 0
IsOwnLink c ns l = (l.source ≡ c.self_id) × (has_node l.target ns ≡ true)

has_node-end :
    (x : String) (ns : List Node) (n : Node)
    → has_node x (ns ++ n ∷ []) ≡ ((n.id == x) || has_node x ns)
unfolding has_node
has_node-end x [] n = refl
has_node-end x (m ∷ ns) n = ground (arith, has_node-end x ns n)

end-HasUniqueIds :
    (ns : List Node) (n : Node)
    → has_node n.id ns ≡ false
    → HasUniqueIds ns
    → HasUniqueIds (ns ++ n ∷ [])
unfolding has_node
end-HasUniqueIds [] n h u = (refl, tt)
end-HasUniqueIds (m ∷ ns) n h u = (
  ground (arith, has_node-end m.id ns n, u.0, h, eq_iff m.id n.id, eq_iff n.id m.id),
  end-HasUniqueIds ns n (ground (arith, h)) u.1,
)

see_node-HasUniqueIds :
    (id : String) (ns : List Node) → HasUniqueIds ns → HasUniqueIds (see_node id ns)
unfolding see_node
see_node-HasUniqueIds id ns u = elim (Bool-cases (has_node id ns)) [
  | inl e ↦ rw e u
  | inr e ↦ rw e (end-HasUniqueIds ns (bare_node id id "node") e u)
]

has_node-see_node :
    (id x : String) (ns : List Node) → has_node x (see_node id ns) ≡ ((id == x) || has_node x ns)
unfolding see_node
has_node-see_node id x ns = elim (Bool-cases (has_node id ns)) [
  | inl e ↦ elim (Bool-cases (id == x)) [
    | inl y ↦ let same : id ≡ x = (eq_iff id x).0 y in rw (e, y) (rw same at e)
    | inr y ↦ rw (e, y) refl
  ]
  | inr e ↦ rw e (has_node-end x ns (bare_node id id "node"))
]

link_to-source : (c : Collector) (n : Neighbor) → (link_to c n).source ≡ c.self_id
unfolding link_to
link_to-source c n = ground arith

link_to-target : (c : Collector) (n : Neighbor) → (link_to c n).target ≡ n.id
unfolding link_to
link_to-target c n = ground arith

-- What the graph keeps while the neighbors are added.
abbrev pub IsView : Collector → Graph → Type 0
IsView c g =
    HasUniqueIds g.nodes × (has_node c.self_id g.nodes ≡ true) × All (IsOwnLink c g.nodes) g.links

add_neighbor-IsView :
    (c : Collector) (n : Neighbor) (g : Graph)
    → IsView c g
    → IsView c (record g { nodes = see_node n.id g.nodes; links = g.links ++ link_to c n ∷ [] })
add_neighbor-IsView c n g (u, self, own) = (
  see_node-HasUniqueIds n.id g.nodes u,
  ground (arith, has_node-see_node n.id c.self_id g.nodes, self),
  All-append _ g.links (link_to c n ∷ [])
      (All-map_of _ _ g.links
        (λ l p. (p.0, ground (arith, has_node-see_node n.id l.target g.nodes, p.1))) own)
      (
        (
          link_to-source c n,
          ground (
            arith,
            has_node-see_node n.id (link_to c n).target g.nodes,
            link_to-target c n,
            eq_refl n.id,
          ),
        ),
        tt,
      ),
)

add_neighbors-IsView :
    (c : Collector) (ns : List Neighbor) (g : Graph) → IsView c g → IsView c (add_neighbors c ns g)
unfolding add_neighbors
add_neighbors-IsView c [] g v = v
add_neighbors-IsView c (n ∷ ns) g v = elim (Bool-cases (n.id == "")) [
  | inl e ↦ rw (e, add_neighbors) (add_neighbors-IsView c ns g v)
  | inr e ↦ rw (e, add_neighbors) (add_neighbors-IsView c ns _ (add_neighbor-IsView c n g v))
]

own_clients :
    (c : Collector) (cs : List Client)
    → c.self_id ≢ ""
    → All (λ cl. cl.ap ≢ "") (map (own_client c) cs)
unfolding own_client
own_clients c [] h = tt
own_clients c (cl ∷ cs) h = elim (Bool-cases (cl.ap == "")) [
  | inl e ↦ rw e (h, own_clients c cs h)
  | inr e ↦ rw e (ne_of_eq-false cl.ap "" e, own_clients c cs h)
]

-- If the node has an id, what Collect returns has no id at two nodes, has the node itself,
-- links only from it and only to nodes that are there, and no client without an access point.
pub collect-IsView :
    (c : Collector)
    → c.self_id ≢ ""
    → IsView c (collect c) × All (λ cl. cl.ap ≢ "") (collect c).clients
unfolding collect self_node has_node
collect-IsView c h = (
  add_neighbors-IsView c (or_zero [] c.mesh) _ ((refl, tt), rw (eq_refl c.self_id) refl, tt),
  own_clients c (or_zero [] c.clients) h,
)
