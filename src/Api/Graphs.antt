-- ===== src/Api/Graphs.antt =====
-- internal/api/topology.go, selection.go and scan.go: the graph of the mesh, the Home that the
-- device should activate, and the controllers that are near.
use omm.Prelude.{String, Option, none, some, List, [], ◌∷◌, map, ◌==◌, ◌||◌, not, if◌then◌else◌}
use omm.Prelude.Int.{ℤ}
use omm.Models.{Home, Node}
use omm.Strings.{Strings}
use omm.Store.Bolt.{Bolt}
use omm.Store.Result.{ok, err}
use omm.Store.Reads.{to_option}
use omm.Store.Db.{Db}
use omm.Store.Records.{list_homes, list_nodes}
use omm.Store.Settings.{get_active_home}
use omm.HomeSelect.{Candidate}
use omm.Selection as Selection
use omm.Selection.{Signals}
use omm.Discovery.{Announcement}
use omm.Topology.{Graph, InventoryNode}
use omm.Topology.Collect.{Collector, collect}
use omm.Topology.Leases.{label_clients}
use omm.Topology.Aggregate.{Aggregator, merge, ingest}
use omm.Api.Response
use omm.Api.Response.{
  Body, Response, ApiError, write_json, respond_error, decoding, missing, HomeSelectionCandidate,
  HomeSelectionResponse, ScanController,
}
use omm.Api.Host.{ProfileManager, Handler}
use omm.Api.Homes.{Serve, calling, internal, bad_request}
use omm.Api.Settings.{id_or_blank}

pub record TopologyReport : Type 0 where
  pub node_id : String
  pub graph : Graph

-- A node of another Home, or the controller itself, is none.
unfoldable pub inventory_node : String → String → Node → Option InventoryNode
inventory_node self_id home_id n =
    if (n.id == self_id) || not (n.current_home == home_id)
    then none
    else some (record {
      id = n.id;
      label = if n.serial == "" then n.id else n.serial;
      last_seen = n.last_seen;
    })

unfoldable pub inventory_of : String → String → List Node → List InventoryNode
inventory_of self_id home_id [] = []
inventory_of self_id home_id (n ∷ ns) =
    let rest = inventory_of self_id home_id ns in
    elim (inventory_node self_id home_id n) [ none ↦ rest | some inv ↦ inv ∷ rest ]

-- `Ingest` of a report that names its node.
unfoldable pub report_topology : ℤ → Option TopologyReport → Aggregator → Response × Aggregator
report_topology now none a = (bad_request decoding, a)
report_topology now (some r) a =
    if r.node_id == ""
    then (bad_request (missing ("node_id" ∷ [])), a)
    else (write_json Response.status_accepted Body.blank, ingest r.node_id r.graph now a)

unfoldable pub scan_controller : Announcement → ScanController
scan_controller a = record {
  home_id = a.home_id;
  name = a.name;
  controller_id = a.controller_id;
  api = a.api;
}

-- What the scanner found, or none.
unfoldable pub scan_controllers : Option (List Announcement) → Response
unfolding scan_controller
scan_controllers none = respond_error Response.status_internal_server_error ApiError.no_scan
scan_controllers (some found) =
    write_json Response.status_ok (Body.scan_response (map scan_controller found))

unfoldable pub selection_candidate : Candidate → HomeSelectionCandidate
selection_candidate c = record {
  home_id = c.home_id;
  signal = c.signal;
  last_active = c.last_active;
  self_controlled = c.self_controlled;
}

abbrev pub signals_or_none : Option Signals → Signals
signals_or_none none mac = none
signals_or_none (some s) mac = s mac

abbrev pub home_or_blank : Option Candidate → String
home_or_blank none = ""
home_or_blank (some c) = c.home_id

module _ (bolt : Bolt) (pm : ProfileManager bolt) (h : Handler bolt pm) (strings : Strings) where
  unfoldable pub node_inventory : Db bolt → List InventoryNode
  unfolding inventory_of
  node_inventory db = elim (list_nodes bolt db).0 [
    | err _ ↦ []
    | ok nodes ↦ inventory_of (id_or_blank h.self) h.self_home_id nodes
  ]

  abbrev pub labelled : Graph → Graph
  labelled g = elim h.leases [ none ↦ g | some leases ↦ label_clients strings g leases ]

  unfoldable pub get_topology : ℤ → Collector → Db bolt → Aggregator → Response
  unfolding node_inventory
  get_topology now collector db reports =
      let graph = merge now (collect collector) (node_inventory db) reports in
      write_json Response.status_ok (Body.graph_body (labelled graph))

  -- An error of the active Home or of the signals is no answer of theirs.
  unfoldable pub selection_of : Option Signals → List Home → Db bolt → HomeSelectionResponse
  unfolding selection_candidate
  selection_of observed homes db =
      let active : String = id_or_blank (to_option (get_active_home bolt db).0) in
      let heard = signals_or_none observed in
      record {
        recommended_home_id =
            home_or_blank (Selection.recommend strings.to_lower homes h.self_home_id active heard);
        active_home_id = active;
        candidates =
            map selection_candidate
              (Selection.candidates strings.to_lower homes h.self_home_id heard);
      }

  unfoldable pub get_home_selection : Option Signals → Serve bolt
  unfolding selection_of
  get_home_selection observed = calling bolt (list_homes bolt) internal λ homes db. (
    write_json Response.status_ok (Body.home_selection_body (selection_of observed homes db)),
    db,
  )
