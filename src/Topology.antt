-- ===== src/Topology.antt =====
-- The graph of the mesh: the types of internal/topology/topology.go.
pub mod Key
pub mod Collect
pub mod Leases
pub mod Batctl
pub mod SelfAddrs
pub mod Sysfs
pub mod Wireless
pub mod Merge
pub mod Aggregate
mod Tests
mod ReaderTests
use omm.Prelude.{String, List, []}
use omm.Prelude.Int.{ℤ, pos}

pub record Node : Type 0 where
  pub id : String
  pub label : String
  pub role : String
  pub backhaul : String
  pub mesh_mode : String
  pub addrs : List String
  pub status : String
  pub last_seen : ℤ

-- The values of `Node.status` and of `Node.role`.
abbrev pub status_alive : String
status_alive = "alive"

abbrev pub status_stale : String
status_stale = "stale"

abbrev pub status_down : String
status_down = "down"

abbrev pub role_self : String
role_self = "self"

abbrev pub role_node : String
role_node = "node"

pub record InventoryNode : Type 0 where
  pub id : String
  pub label : String
  pub last_seen : ℤ

pub record Link : Type 0 where
  pub source : String
  pub target : String
  pub tq : ℤ
  pub kind : String
  pub signal : ℤ
  pub speed_mbps : ℤ

pub record Client : Type 0 where
  pub mac : String
  pub ap : String
  pub signal : ℤ
  pub band : String
  pub tx_rate : ℤ
  pub rx_rate : ℤ
  pub ip : String
  pub hostname : String

pub record Graph : Type 0 where
  pub nodes : List Node
  pub links : List Link
  pub clients : List Client

pub record Neighbor : Type 0 where
  pub id : String
  pub tq : ℤ
  pub nexthop : String
  pub iface : String

pub record LinkMetrics : Type 0 where
  pub kind : String
  pub speed_mbps : ℤ
  pub signal : ℤ

-- A node of which nothing but its id and role is known.
abbrev pub bare_node : String → String → String → Node
bare_node id label role = record {
  id = id;
  label = label;
  role = role;
  backhaul = "";
  mesh_mode = "";
  addrs = [];
  status = "";
  last_seen = pos 0;
}
