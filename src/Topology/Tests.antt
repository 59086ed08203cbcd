-- ===== src/Topology/Tests.antt =====
-- The theorems about the topology at a controller with one node that reports and one that is silent.
use omm.Prelude.{
  String, ◌≡◌, ◌≢◌, refl, true, false, ◌⊎◌, some, none, List, [], ◌∷◌, ◌||◌, ◌&&◌, All, arith,
}
use omm.Prelude.Int.{ℤ, pos, ◌-ℤ◌, ◌≤ℤ◌}
use omm.Prelude.Sort.{stable_sort, insert_by}
use omm.Topology.{Node, Link, Client, Graph, InventoryNode, bare_node, status_alive}
use omm.Topology.Key.{nul_free-IsNulFree}
use omm.Topology.Collect.{Collector, collect, has_node}
use omm.Topology.Collect.View.{IsView, collect-IsView}
use omm.Topology.Merge.{
  merge_graphs, union_graphs, add_graph, add_reports, add_nodes, add_node, demote, enrich,
  addr_to_id, declare_all, canon, lookup,
}
use omm.Topology.Merge.Nodes.{HasUniqueIds, resolve}
use omm.Topology.Merge.Table.{HasUniquePairs}
use omm.Topology.Merge.Links.{IsClean, IsMerged, merge_graphs_links}
use omm.Topology.Aggregate.{
  Aggregator, ingest, merge, fresh_graphs, fresh_of, is_fresh, newer, put_report,
}
use omm.Topology.Aggregate.Shown.{is_reported, is_own, merge_shows}
use omm.Topology.Aggregate.Liveness.{
  IsUniqueInventory, has_inventory, find_inventory, find_node, merge_status, IsSilent, living,
}

abbrev link : String → String → ℤ → Link
link s d q = record {
  source = s;
  target = d;
  tq = q;
  kind = "wireless";
  signal = pos 0;
  speed_mbps = pos 0;
}

abbrev local : Graph
local = record {
  nodes =
      record (bare_node "ctl" "Controller" "self") { addrs = "aa" ∷ [] }
      ∷ bare_node "bb" "bb" "node"
      ∷ [];
  links = link "ctl" "bb" (pos 200) ∷ [];
  clients = [];
}

abbrev report : Graph
report = record {
  nodes =
      record (bare_node "n1" "Attic" "self") { addrs = "bb" ∷ [] }
      ∷ bare_node "aa" "aa" "node"
      ∷ [];
  links = link "n1" "aa" (pos 180) ∷ link "n1" "aa" (pos 190) ∷ [];
  clients = [];
}

abbrev attic : InventoryNode
attic = record { id = "n1"; label = "Attic"; last_seen = pos 10 }

abbrev shed : InventoryNode
shed = record { id = "n2"; label = ""; last_seen = pos 20 }

abbrev inventory : List InventoryNode
inventory = attic ∷ shed ∷ []

abbrev aggregator : Aggregator
aggregator = record { reports = []; ttl = pos 30; stale_ttl = pos 90 }

abbrev heard : Aggregator
heard = ingest "n1" report (pos 95) aggregator

inventory-IsUniqueInventory : IsUniqueInventory inventory
unfolding has_inventory
inventory-IsUniqueInventory = (refl, (refl, tt))

merge_shows_example :
    HasUniqueIds (merge (pos 100) local inventory heard).nodes
    × ((id : String)
        → has_node id (merge (pos 100) local inventory heard).nodes ≡ (
            ((has_node id local.nodes || is_reported (pos 100) id heard)
              && is_own id (union_graphs local (fresh_graphs (pos 100) heard)).nodes)
            || has_inventory id inventory))
merge_shows_example = merge_shows (pos 100) local inventory heard inventory-IsUniqueInventory

shed_found : find_inventory shed.id inventory ≡ some shed
unfolding find_inventory
shed_found = refl

merge_status_example :
    (n : Node) × (find_node shed.id (merge (pos 100) local inventory heard).nodes ≡ some n)
    × (((has_node shed.id (living (pos 100) local inventory heard) ≡ true)
          × (n.status ≡ status_alive))
        ⊎ ((has_node shed.id (living (pos 100) local inventory heard) ≡ false)
            × IsSilent (pos 100) heard shed n))
merge_status_example = merge_status (pos 100) local inventory heard shed shed_found

within : pos 100 -ℤ aggregator.ttl ≤ℤ pos 95
unfolding ◌-ℤ◌
within = omega arith

n1_reported : has_node "n1" report.nodes ≡ true
unfolding has_node
n1_reported = refl

n1_canonical : resolve local (fresh_graphs (pos 100) heard) "n1" ≡ "n1"
unfolding fresh_graphs ingest put_report fresh_of is_fresh newer stable_sort insert_by union_graphs
    add_graph add_reports add_nodes add_node demote enrich addr_to_id declare_all canon lookup ◌-ℤ◌
n1_canonical = refl

local-IsClean : IsClean local
local-IsClean =
    let ctl = nul_free-IsNulFree "ctl" refl in
    ((ctl, (nul_free-IsNulFree "bb" refl, tt)), (ctl, tt))

report-IsClean : IsClean report
report-IsClean =
    let n1 = nul_free-IsNulFree "n1" refl in
    ((n1, (nul_free-IsNulFree "aa" refl, tt)), (n1, (n1, tt)))

merge_graphs_links_example :
    HasUniquePairs (merge_graphs local (report ∷ [])).links
    × All (IsMerged local (report ∷ []) (merge_graphs local (report ∷ [])).links) local.links
    × All
        (λ g. All (IsMerged local (report ∷ []) (merge_graphs local (report ∷ [])).links) g.links)
        (report ∷ [])
merge_graphs_links_example =
    merge_graphs_links local (report ∷ []) local-IsClean (report-IsClean, tt)

abbrev node : Collector
node = record {
  self_id = "n1";
  self_label = "Attic";
  mesh = some (record { id = "aa"; tq = pos 180; nexthop = "aa"; iface = "mesh0" } ∷ []);
  clients = none;
  backhaul = some "wireless";
  mesh_mode = none;
  link_metrics = none;
  self_addrs = some ("bb" ∷ []);
}

named : node.self_id ≢ ""
named e = cc

collect-IsView_example : IsView node (collect node) × All (λ cl. cl.ap ≢ "") (collect node).clients
collect-IsView_example = collect-IsView node named

abbrev phone : Client
phone = record {
  mac = "ph";
  ap = "bb";
  signal = pos 0;
  band = "";
  tx_rate = pos 0;
  rx_rate = pos 0;
  ip = "";
  hostname = "";
}

abbrev with_phone : Graph
with_phone = record report { clients = phone ∷ phone ∷ [] }
