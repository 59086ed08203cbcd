-- ===== src/Topology/Merge/Nodes.antt =====
-- Which nodes a merged graph has, by id, and that none is there twice.
use omm.Prelude.{
  String, ◌≡◌, refl, Bool, true, false, Bool-cases, inl, inr, List, [], ◌∷◌, ◌==◌, ◌||◌, ◌&&◌,
  arith, eq_iff, eq_refl, is_empty,
}
use omm.Topology.{Node, Graph}
use omm.Topology.Collect.{has_node}
use omm.Topology.Merge.{
  add_node, add_nodes, add_graph, add_reports, enrich, demote, Merged, drop_aliases, canon,
  Addresses, reconcile, union_graphs, merge_graphs, addr_to_id, lookup, empty_merged,
}

-- No id stands at two nodes.
abbrev pub HasUniqueIds : List Node → Type 0
HasUniqueIds [] = Unit
HasUniqueIds (n ∷ ns) = (has_node n.id ns ≡ false) × HasUniqueIds ns

-- The node's id is in some graph.
abbrev pub some_has : String → List Graph → Bool
some_has id [] = false
some_has id (g ∷ gs) = has_node id g.nodes || some_has id gs

has_node-add_node :
    (local : Bool) (n : Node) (id : String) (ms : List Node)
    → has_node id (add_node local n ms) ≡ ((n.id == id) || has_node id ms)
unfolding has_node add_node enrich demote
has_node-add_node local n id [] = ground arith
has_node-add_node local n id (m ∷ ms) =
    ground
      (arith, has_node-add_node local n id ms, eq_iff m.id n.id, eq_iff m.id id, eq_iff n.id id)

add_node-HasUniqueIds :
    (local : Bool) (n : Node) (ms : List Node)
    → HasUniqueIds ms
    → HasUniqueIds (add_node local n ms)
unfolding has_node add_node enrich demote
add_node-HasUniqueIds local n [] h = (refl, tt)
add_node-HasUniqueIds local n (m ∷ ms) h = elim (Bool-cases (m.id == n.id)) [
  | inl e ↦ rw e h
  | inr e ↦ rw e (
    ground (arith, has_node-add_node local n m.id ms, eq_iff m.id n.id, eq_iff n.id m.id, e, h.0),
    add_node-HasUniqueIds local n ms h.1,
  )
]

has_node-add_nodes :
    (local : Bool) (id : String) (ns out : List Node)
    → has_node id (add_nodes local ns out) ≡ (has_node id ns || has_node id out)
unfolding has_node add_nodes
has_node-add_nodes local id [] out = refl
has_node-add_nodes local id (n ∷ ns) out =
    ground (
      arith,
      has_node-add_nodes local id ns (add_node local n out),
      has_node-add_node local n id out,
    )

add_nodes-HasUniqueIds :
    (local : Bool) (ns out : List Node) → HasUniqueIds out → HasUniqueIds (add_nodes local ns out)
unfolding add_nodes
add_nodes-HasUniqueIds local [] out h = h
add_nodes-HasUniqueIds local (n ∷ ns) out h =
    add_nodes-HasUniqueIds local ns (add_node local n out) (add_node-HasUniqueIds local n out h)

has_node-add_reports :
    (id : String) (gs : List Graph) (m : Merged)
    → has_node id (add_reports gs m).nodes ≡ (some_has id gs || has_node id m.nodes)
unfolding add_reports add_graph
has_node-add_reports id [] m = refl
has_node-add_reports id (g ∷ gs) m = ground (
  arith,
  has_node-add_reports id gs (add_graph false g m),
  has_node-add_nodes false id g.nodes m.nodes,
)

add_reports-HasUniqueIds :
    (gs : List Graph) (m : Merged) → HasUniqueIds m.nodes → HasUniqueIds (add_reports gs m).nodes
unfolding add_reports add_graph
add_reports-HasUniqueIds [] m h = h
add_reports-HasUniqueIds (g ∷ gs) m h =
    add_reports-HasUniqueIds gs (add_graph false g m)
      (add_nodes-HasUniqueIds false g.nodes m.nodes h)

has_node-drop_aliases :
    (addrs : Addresses) (id : String) (ns : List Node)
    → has_node id (drop_aliases addrs ns) ≡ (has_node id ns && (canon addrs id == id))
unfolding has_node drop_aliases
has_node-drop_aliases addrs id [] = refl
has_node-drop_aliases addrs id (n ∷ ns) =
    ground (arith, has_node-drop_aliases addrs id ns, eq_iff n.id id)

drop_aliases-HasUniqueIds :
    (addrs : Addresses) (ns : List Node) → HasUniqueIds ns → HasUniqueIds (drop_aliases addrs ns)
unfolding has_node drop_aliases
drop_aliases-HasUniqueIds addrs [] h = tt
drop_aliases-HasUniqueIds addrs (n ∷ ns) h = elim (Bool-cases (canon addrs n.id == n.id)) [
  | inl e ↦ rw e (
    ground (arith, has_node-drop_aliases addrs n.id ns, h.0),
    drop_aliases-HasUniqueIds addrs ns h.1,
  )
  | inr e ↦ rw e (drop_aliases-HasUniqueIds addrs ns h.1)
]

-- What the addresses of the merged graph make of an id.
abbrev pub resolve : Graph → List Graph → String → String
resolve local reports = canon (addr_to_id (union_graphs local reports).nodes [])

has_node-union_graphs :
    (id : String) (local : Graph) (reports : List Graph)
    → has_node id (union_graphs local reports).nodes
      ≡ (has_node id local.nodes || some_has id reports)
unfolding union_graphs add_graph has_node
has_node-union_graphs id local reports = ground (
  arith,
  has_node-add_reports id reports (add_graph true local empty_merged),
  has_node-add_nodes true id local.nodes [],
)

union_graphs-HasUniqueIds :
    (local : Graph) (reports : List Graph) → HasUniqueIds (union_graphs local reports).nodes
unfolding union_graphs add_graph
union_graphs-HasUniqueIds local reports =
    add_reports-HasUniqueIds reports (add_graph true local empty_merged)
      (add_nodes-HasUniqueIds true local.nodes [] tt)

pub no_addresses :
    (addrs : Addresses) (id : String) → is_empty addrs ≡ true → (canon addrs id == id) ≡ true
unfolding canon lookup
no_addresses [] id h = eq_refl id
no_addresses (a ∷ addrs) id h = cc

has_node-reconcile :
    (id : String) (g : Graph)
    → has_node id (reconcile g).nodes
      ≡ (has_node id g.nodes && (canon (addr_to_id g.nodes []) id == id))
unfolding reconcile
has_node-reconcile id g = elim (Bool-cases (is_empty (addr_to_id g.nodes []))) [
  | inl e ↦ ground (arith, no_addresses (addr_to_id g.nodes []) id e)
  | inr e ↦ rw e (has_node-drop_aliases (addr_to_id g.nodes []) id g.nodes)
]

reconcile-HasUniqueIds : (g : Graph) → HasUniqueIds g.nodes → HasUniqueIds (reconcile g).nodes
unfolding reconcile
reconcile-HasUniqueIds g h = elim (Bool-cases (is_empty (addr_to_id g.nodes []))) [
  | inl e ↦ rw e h
  | inr e ↦ rw e (drop_aliases-HasUniqueIds (addr_to_id g.nodes []) g.nodes h)
]

pub has_node-merge_graphs :
    (id : String) (local : Graph) (reports : List Graph)
    → has_node id (merge_graphs local reports).nodes
      ≡ ((has_node id local.nodes || some_has id reports) && (resolve local reports id == id))
unfolding merge_graphs
has_node-merge_graphs id local reports = ground (
  arith,
  has_node-reconcile id (union_graphs local reports),
  has_node-union_graphs id local reports,
)

pub merge_graphs-HasUniqueIds :
    (local : Graph) (reports : List Graph) → HasUniqueIds (merge_graphs local reports).nodes
unfolding merge_graphs
merge_graphs-HasUniqueIds local reports =
    reconcile-HasUniqueIds (union_graphs local reports) (union_graphs-HasUniqueIds local reports)
