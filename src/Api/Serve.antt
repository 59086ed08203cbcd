-- ===== src/Api/Serve.antt =====
-- The requests that the routes take, with the parameters of their paths and their decoded bodies,
-- and the handler that each of them reaches.
use omm.Prelude.{String, ℕ, Bool, Option, List}
use omm.Prelude.Int.{ℤ}
use omm.Models.{Home, Node, Profile}
use omm.Strings.{Strings}
use omm.Store.Bolt.{Bolt}
use omm.Identity.{Crypto}
use omm.Enrollment.{Options, Env, RequestInput, VerifyInput}
use omm.Selection.{Signals}
use omm.Discovery.{Announcement}
use omm.Topology.Collect.{Collector}
use omm.Api.Response.{Response}
use omm.Api.Host.{ProfileManager, Handler, State}
use omm.Api.Homes.{
  Serve, HomeUpdate, list_homes_handler, create_home_handler, get_home_handler, update_home_handler,
  delete_home_handler, get_profile_handler, list_nodes_handler, create_node_handler,
  get_node_handler, delete_node_handler, reset_handler, create_profile_handler,
}
use omm.Api.Settings.{
  ServeDevice, health_handler, status_handler, get_active_home_handler, get_setup_handler,
  complete_setup_handler, provision_uplink_handler, set_active_home_handler,
}
use omm.Api.Enroll.{
  StatusFilter, enroll_request, enroll_verify, enroll_status, enroll_ack, list_enrollments,
  reject_node, adopt_node,
}
use omm.Client.{Identity, Tls, Controller}
use omm.Api.Join.{JoinInput, enroll_join}
use omm.Api.Graphs.{
  TopologyReport, report_topology, scan_controllers, get_topology, get_home_selection,
}

-- A request of the enrollment routes.
pub data EnrollCall : Type 0 where
  requests : Env → Option RequestInput → EnrollCall
  verifies : Env → Bool → Option VerifyInput → EnrollCall
  asks_status acknowledges rejects : String → EnrollCall
  adopts : Env → String → EnrollCall
  lists : StatusFilter → EnrollCall

-- A request that reads or writes the store only.
pub data StoreCall : Type 0 where
  gets_status gets_setup gets_active_home lists_homes lists_nodes resets : StoreCall
  creates_home : ℤ → Option Home → StoreCall
  gets_home deletes_home gets_profile gets_node deletes_node : String → StoreCall
  updates_home : String → Option HomeUpdate → StoreCall
  creates_node : ℤ → Option Node → StoreCall
  gets_home_selection : Option Signals → StoreCall

-- A request whose handler works on the device too; an uplink goes to the hook of the handler.
pub data DeviceCall (D : Type 0) : Type 0 where
  completes_setup : DeviceCall D
  provisions_uplink : (String → String → D → Bool × D) → Option (String × String) → DeviceCall D
  creates_profile : String → Option Profile → DeviceCall D
  sets_active_home : Option String → DeviceCall D

-- A request is served with what its handler asks of other machines: for a join that is the
-- controller that is joined, in the state it is in, the time, and the polls there is time for.
pub data Request (D : Type 0) : Type 1 where
  on_store : StoreCall → Request D
  on_device : DeviceCall D → Request D
  on_enrollment : Options → EnrollCall → Request D
  gets_health : Request D
  gets_topology : ℤ → Collector → Request D
  reports_topology : ℤ → Option TopologyReport → Request D
  scans : Option (List Announcement) → Request D
  joins : (c : Controller) → c.Peer → Tls → ℤ → ℕ → Identity → Option JoinInput → Request D

module _ (bolt : Bolt) where
  unfoldable pub serve_enrollment : Crypto → Options → EnrollCall → Serve bolt
  serve_enrollment crypto opts (requests env input) = enroll_request bolt crypto opts env input
  serve_enrollment crypto opts (verifies env on_link input) =
      enroll_verify bolt crypto opts env on_link input
  serve_enrollment crypto opts (asks_status id) = enroll_status bolt crypto opts id
  serve_enrollment crypto opts (acknowledges id) = enroll_ack bolt crypto opts id
  serve_enrollment crypto opts (rejects node_id) = reject_node bolt crypto opts node_id
  serve_enrollment crypto opts (adopts env node_id) = adopt_node bolt crypto opts env node_id
  serve_enrollment crypto opts (lists filter) = list_enrollments bolt crypto opts filter

  module _ (pm : ProfileManager bolt) (h : Handler bolt pm) (strings : Strings) where
    unfoldable pub serve_store : StoreCall → Serve bolt
    serve_store gets_status = status_handler bolt
    serve_store gets_setup = get_setup_handler bolt pm h
    serve_store gets_active_home = get_active_home_handler bolt
    serve_store lists_homes = list_homes_handler bolt
    serve_store lists_nodes = list_nodes_handler bolt
    serve_store resets = reset_handler bolt
    serve_store (creates_home now home) = create_home_handler bolt now home
    serve_store (gets_home id) = get_home_handler bolt id
    serve_store (deletes_home id) = delete_home_handler bolt id
    serve_store (gets_profile id) = get_profile_handler bolt id
    serve_store (gets_node id) = get_node_handler bolt id
    serve_store (deletes_node id) = delete_node_handler bolt id
    serve_store (updates_home id update) = update_home_handler bolt id update
    serve_store (creates_node now node) = create_node_handler bolt now node
    serve_store (gets_home_selection observed) = get_home_selection bolt pm h strings observed

    unfoldable pub serve_device : DeviceCall pm.Device → ServeDevice bolt pm h
    serve_device completes_setup = complete_setup_handler bolt pm h
    serve_device (provisions_uplink hook body) = provision_uplink_handler bolt pm h hook body
    serve_device (creates_profile id body) = create_profile_handler bolt pm h id body
    serve_device (sets_active_home id) = set_active_home_handler bolt pm h id

    abbrev on_db : Serve bolt → State bolt pm → Response × State bolt pm
    on_db serve s = let (r, db') = serve s.db in (r, record s { db = db' })

    unfoldable pub serve : Crypto → Request pm.Device → State bolt pm → Response × State bolt pm
    unfolding serve_store serve_device serve_enrollment
    serve crypto (on_store call) s = on_db (serve_store call) s
    serve crypto (on_enrollment opts call) s = on_db (serve_enrollment crypto opts call) s
    serve crypto (on_device call) s =
        let (r, db', d') = serve_device call s.db s.device in
        (r, record s { db = db'; device = d' })
    serve crypto gets_health s = (health_handler, s)
    serve crypto (gets_topology now collector) s =
        (get_topology bolt pm h strings now collector s.db s.reports, s)
    serve crypto (reports_topology now report) s =
        let (r, reports') = report_topology now report s.reports in
        (r, record s { reports = reports' })
    serve crypto (joins c p tls now ticks self body) s =
        let (r, _, db') = enroll_join crypto c bolt tls now ticks self h.self_serial body p s.db in
        (r, record s { db = db' })
    serve crypto (scans found) s = (scan_controllers found, s)
