-- ===== src/Batman.antt =====
-- internal/batman/batman.go: the batman-adv layer, a soft interface, a hard interface for the mesh and
-- for each wired port of the backhaul, and their places in the LAN bridge. The calls write the staged
-- configuration, and their caller commits it.
pub mod Mac
pub mod Names
pub mod Bridge
pub mod Sections
pub mod Frame
pub mod Removed
pub mod Stuck
mod Tests
use Prim.Native.String.{◌++◌}
use omm.Prelude.{
  String, Bool, true, false, Option, none, some, List, [], ◌∷◌, ◌==◌, ◌>>=◌, if◌then◌else◌,
}
use omm.Uci.{Uci, Values}
use omm.Uci.Action.{Action, seq, done, each}
use omm.Batman.Names.{sanitize}
use omm.Batman.Mac.{Formats, unique_hardif_mac}

pub record Config : Type 0 where
  pub iface : String
  pub routing_algo : String
  pub wired_ports : List String
  -- The section of the LAN bridge, or "" to leave it.
  pub lan_device : String
  -- Reads the MAC of a device, if there is a reader.
  pub mac : Option (String → Option String)

unfoldable pub with_defaults : Config → Config
with_defaults c = record c {
  iface = if c.iface == "" then "bat0" else c.iface;
  routing_algo = if c.routing_algo == "" then "BATMAN_IV" else c.routing_algo;
}

-- The names of the sections.
unfoldable pub mesh_hardif : Config → String
mesh_hardif cfg = cfg.iface ++ "_mesh"

unfoldable pub wired_hardif : Config → String → String
unfolding sanitize
wired_hardif cfg port = cfg.iface ++ "_" ++ sanitize port

unfoldable pub device_section : String → String
unfolding sanitize
device_section port = "dev_" ++ sanitize port

unfoldable pub soft_values : Config → Values
soft_values cfg =
    ("proto", "batadv") ∷ ("routing_algo", cfg.routing_algo) ∷ ("bridge_loop_avoidance", "1") ∷ []

unfoldable pub mesh_values : Config → Values
mesh_values cfg = ("proto", "batadv_hardif") ∷ ("master", cfg.iface) ∷ []

unfoldable pub wired_values : Config → String → Values
wired_values cfg port = ("proto", "batadv_hardif") ∷ ("master", cfg.iface) ∷ ("device", port) ∷ []

unfoldable pub device_values : String → String → Values
device_values port uniq = ("name", port) ∷ ("macaddr", uniq) ∷ []

-- The MAC that a port gets: none without a reader, or if the MAC cannot be read or is malformed.
unfoldable pub mac_override : Formats → Config → String → Option String
mac_override formats cfg port = do
  read ← cfg.mac
  real ← read port
  unique_hardif_mac formats real port

module _ (uci : Uci) (formats : Formats) where
  -- Takes the device out of the LAN bridge.
  unfoldable pub unbridge : Config → String → Action uci
  unbridge cfg dev =
      if cfg.lan_device == ""
      then done uci
      else uci.del_list_item "network" cfg.lan_device "ports" dev

  -- Puts the device into the LAN bridge, once.
  unfoldable pub bridge : Config → String → Action uci
  bridge cfg dev =
      if cfg.lan_device == ""
      then done uci
      else seq uci (uci.del_list_item "network" cfg.lan_device "ports" dev)
          (uci.add_list_item "network" cfg.lan_device "ports" dev)

  unfoldable pub author_mac : Config → String → Action uci
  unfolding mac_override device_values device_section
  author_mac cfg port = elim (mac_override formats cfg port) [
    | none ↦ done uci
    | some uniq ↦ uci.set_section "network" (device_section port) "device" (device_values port uniq)
  ]

  unfoldable pub enslave_port : Config → String → Action uci
  unfolding unbridge author_mac wired_hardif wired_values
  enslave_port cfg port =
      seq uci
        (uci.set_section "network" (wired_hardif cfg port) "interface" (wired_values cfg port))
        (seq uci (unbridge cfg port) (author_mac cfg port))

  unfoldable pub delete_mac : Config → String → Action uci
  unfolding device_section
  delete_mac cfg port = elim cfg.mac [
    | none ↦ done uci
    | some read ↦ uci.delete "network" (device_section port)
  ]

  unfoldable pub release_port : Config → String → Action uci
  unfolding bridge delete_mac wired_hardif
  release_port cfg port =
      seq uci (bridge cfg port)
        (seq uci (uci.delete "network" (wired_hardif cfg port)) (delete_mac cfg port))

  unfoldable pub apply : Config → Action uci
  unfolding enslave_port bridge mesh_hardif soft_values mesh_values
  apply cfg = seq uci (uci.set_section "network" cfg.iface "interface" (soft_values cfg)) (
      seq uci (uci.set_section "network" (mesh_hardif cfg) "interface" (mesh_values cfg))
        (seq uci (each uci (enslave_port cfg) cfg.wired_ports) (bridge cfg cfg.iface)))

  unfoldable pub teardown : Config → Action uci
  unfolding release_port unbridge mesh_hardif
  teardown cfg = seq uci (unbridge cfg cfg.iface) (
      seq uci (each uci (release_port cfg) cfg.wired_ports)
        (each uci (uci.delete "network") (mesh_hardif cfg ∷ cfg.iface ∷ [])))
