-- ===== src/Topology/Aggregate.antt =====
-- `Aggregator` of internal/topology/aggregator.go, whose clock is an argument of each call. The
-- reports are a map: the list of its entries, which the code sorts.
pub mod Liveness
pub mod Ingest
pub mod Shown
use omm.Prelude.{
  String, Bool, true, false, Option, none, some, List, [], ◌∷◌, ◌++◌, map, ◌==◌, ◌||◌, ◌&&◌, not,
  if◌then◌else◌,
}
use omm.Prelude.Int.{ℤ, pos, ltb_ℤ, leb_ℤ, ◌-ℤ◌, ◌+ℤ◌}
use omm.Prelude.Sort.{stable_sort}
use omm.Topology.{
  Node, Graph, InventoryNode, bare_node, status_alive, status_stale, status_down, role_node,
}
use omm.Topology.Key.{string_less}
use omm.Topology.Merge.{merge_graphs}
use omm.Topology.Collect.{has_node}

pub record TimedGraph : Type 0 where
  pub graph : Graph
  pub at : ℤ

abbrev pub Reports : Type 0
Reports = List (String × TimedGraph)

pub record Aggregator : Type 0 where
  pub reports : Reports
  pub ttl : ℤ
  pub stale_ttl : ℤ

-- `NewAggregator`, on windows in seconds.
unfoldable pub new_aggregator : ℤ → ℤ → Aggregator
new_aggregator ttl stale_ttl = record {
  reports = [];
  ttl = ttl;
  stale_ttl = if leb_ℤ stale_ttl (pos 0) then ttl +ℤ ttl +ℤ ttl else stale_ttl;
}

unfoldable pub put_report : String → TimedGraph → Reports → Reports
put_report id tg [] = (id, tg) ∷ []
put_report id tg ((k, x) ∷ rs) =
    let rest = put_report id tg rs in if k == id then (k, tg) ∷ rs else (k, x) ∷ rest

unfoldable pub ingest : String → Graph → ℤ → Aggregator → Aggregator
unfolding put_report
ingest node_id g now a = record a {
  reports = put_report node_id (record { graph = g; at = now }) a.reports;
}

-- `reportedAt`
unfoldable pub reported_at : String → Reports → Option ℤ
reported_at id [] = none
reported_at id ((k, tg) ∷ rs) = if k == id then some tg.at else reported_at id rs

-- `cutoff` is the time before which a report is no longer fresh.
unfoldable pub is_fresh : ℤ → Aggregator → TimedGraph → Bool
is_fresh now a tg = leb_ℤ a.ttl (pos 0) || leb_ℤ (now -ℤ a.ttl) tg.at

unfoldable pub fresh_of : ℤ → Aggregator → Reports → Reports
unfolding is_fresh
fresh_of now a [] = []
fresh_of now a ((k, tg) ∷ rs) =
    let rest = fresh_of now a rs in if is_fresh now a tg then (k, tg) ∷ rest else rest

-- The newest comes first, and the smaller id of two at the same time.
unfoldable pub newer : String × TimedGraph → String × TimedGraph → Bool
newer a b =
    if ltb_ℤ a.1.at b.1.at || ltb_ℤ b.1.at a.1.at then ltb_ℤ b.1.at a.1.at else string_less a.0 b.0

-- The graphs of the fresh reports, in the order of the merge.
unfoldable pub fresh_graphs : ℤ → Aggregator → List Graph
unfolding fresh_of newer
fresh_graphs now a =
    map (λ (e : String × TimedGraph). e.1.graph) (stable_sort newer (fresh_of now a a.reports))

unfoldable pub mark_alive : ℤ → Reports → Node → Node
unfolding reported_at
mark_alive now reports n = record n {
  status = status_alive;
  last_seen = elim (reported_at n.id reports) [ none ↦ now | some at ↦ at ];
}

-- The newer of the last report and the inventory's record.
unfoldable pub newer_of : Option ℤ → ℤ → ℤ
newer_of none last_seen = last_seen
newer_of (some at) last_seen = if ltb_ℤ last_seen at then at else last_seen

unfoldable pub last_heard : Reports → InventoryNode → ℤ
unfolding reported_at newer_of
last_heard reports inv = newer_of (reported_at inv.id reports) inv.last_seen

unfoldable pub silent_node : ℤ → Aggregator → InventoryNode → Node
unfolding last_heard
silent_node now a inv =
    let last = last_heard a.reports inv in
    record (bare_node inv.id (if inv.label == "" then inv.id else inv.label) role_node) {
      status = if leb_ℤ (now -ℤ a.stale_ttl) last then status_stale else status_down;
      last_seen = last;
    }

-- The nodes of the inventory that are not among the living.
unfoldable pub silent_nodes : ℤ → Aggregator → List Node → List InventoryNode → List Node
unfolding silent_node has_node
silent_nodes now a alive [] = []
silent_nodes now a alive (inv ∷ invs) =
    let rest = silent_nodes now a alive invs in
    if has_node inv.id alive then rest else silent_node now a inv ∷ rest

unfoldable pub merge : ℤ → Graph → List InventoryNode → Aggregator → Graph
unfolding fresh_graphs mark_alive silent_nodes merge_graphs
merge now local inventory a =
    let g = merge_graphs local (fresh_graphs now a) in
    record g {
      nodes = map (mark_alive now a.reports) g.nodes ++ silent_nodes now a g.nodes inventory;
    }
