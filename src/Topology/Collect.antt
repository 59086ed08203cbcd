-- ===== src/Topology/Collect.antt =====
-- `Collector.Collect` of internal/topology/topology.go: a node's own view of the mesh. A source that
-- is nil, and one whose answer is an error, is `none`.
pub mod View
use omm.Prelude.{
  String, Bool, true, false, Option, none, some, List, [], ◌∷◌, ◌++◌, map, ◌==◌, ◌||◌,
  if◌then◌else◌,
}
use omm.Prelude.Int.{ℤ, pos}
use omm.Topology.{Node, Link, Client, Graph, Neighbor, LinkMetrics, bare_node, role_self, role_node}

-- What the sources answer.
pub record Collector : Type 0 where
  pub self_id : String
  pub self_label : String
  pub mesh : Option (List Neighbor)
  pub clients : Option (List Client)
  pub backhaul : Option String
  pub mesh_mode : Option String
  pub link_metrics : Option (String → String → LinkMetrics)
  pub self_addrs : Option (List String)

-- `NewCollector`: a node without a label is labelled by its id.
unfoldable pub new_collector : Collector → Collector
new_collector c = if c.self_label == "" then record c { self_label = c.self_id } else c

abbrev pub or_zero {ℓ} : {A : Type ℓ} → A → Option A → A
or_zero zero' none = zero'
or_zero zero' (some a) = a

unfoldable pub self_node : Collector → Node
self_node c = record (bare_node c.self_id c.self_label role_self) {
  backhaul = or_zero "" c.backhaul;
  mesh_mode = or_zero "" c.mesh_mode;
  addrs = or_zero [] c.self_addrs;
}

-- `seen`: the ids of the nodes so far.
unfoldable pub has_node : String → List Node → Bool
has_node id [] = false
has_node id (n ∷ ns) = (n.id == id) || has_node id ns

unfoldable pub link_to : Collector → Neighbor → Link
link_to c n = elim c.link_metrics [
  | none ↦ record {
    source = c.self_id;
    target = n.id;
    tq = n.tq;
    kind = "";
    signal = pos 0;
    speed_mbps = pos 0;
  }
  | some metrics ↦
      let m = metrics n.iface n.nexthop in
      record {
        source = c.self_id;
        target = n.id;
        tq = n.tq;
        kind = m.kind;
        signal = m.signal;
        speed_mbps = m.speed_mbps;
      }
]

unfoldable pub see_node : String → List Node → List Node
unfolding has_node
see_node id ns = if has_node id ns then ns else ns ++ bare_node id id role_node ∷ []

unfoldable pub add_neighbors : Collector → List Neighbor → Graph → Graph
unfolding see_node link_to
add_neighbors c [] g = g
add_neighbors c (n ∷ ns) g =
    let g' : Graph =
      if n.id == ""
      then g
      else record g { nodes = see_node n.id g.nodes; links = g.links ++ link_to c n ∷ [] } in
    add_neighbors c ns g'

unfoldable pub own_client : Collector → Client → Client
own_client c cl = if cl.ap == "" then record cl { ap = c.self_id } else cl

unfoldable pub collect : Collector → Graph
unfolding self_node add_neighbors own_client
collect c =
    let start : Graph = record { nodes = self_node c ∷ []; links = []; clients = [] } in
    let g = add_neighbors c (or_zero [] c.mesh) start in
    record g { clients = map (own_client c) (or_zero [] c.clients) }
