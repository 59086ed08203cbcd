-- ===== src/SetupAp.antt =====
-- internal/setupap/setupap.go: the access point of a node that is not claimed yet, and its uplink.
pub mod Touched
pub mod Lifecycle
mod Tests
use Prim.Native.String.{◌++◌, len, slice}
use omm.Prelude.{String, Bool, true, false, List, [], ◌∷◌, ◌==◌, ◌-◌, ltb, if◌then◌else◌}
use omm.Uci.{Uci, Values}
use omm.Uci.Action.{Action, seq}

abbrev pub wifi_section : String
wifi_section = "omm_setup"

abbrev pub network_section : String
network_section = "ommsetup"

abbrev pub dhcp_section : String
dhcp_section = "ommsetup"

abbrev pub uplink_wifi_section : String
uplink_wifi_section = "omm_uplink"

abbrev pub uplink_net_section : String
uplink_net_section = "ommuplink"

pub record Config : Type 0 where
  pub radio : String
  pub ip : String
  pub netmask : String
  pub key : String
  pub ssid_prefix : String

abbrev pub or_default : String → String → String
or_default value default = if value == "" then default else value

unfoldable pub with_defaults : Config → Config
with_defaults c = record c {
  radio = or_default c.radio "radio0";
  ip = or_default c.ip "192.168.254.1";
  netmask = or_default c.netmask "255.255.255.0";
  ssid_prefix = or_default c.ssid_prefix "OMM-Setup-";
}

pub record Manager : Type 0 where
  pub cfg : Config
  pub uplink_active : Bool

unfoldable pub new : Config → Manager
unfolding with_defaults
new cfg = record { cfg = with_defaults cfg; uplink_active = false }

-- The prefix and the last 4 bytes of the node id, which is hexadecimal.
unfoldable pub ssid : Config → String → String
ssid cfg node_id =
    let suffix : String =
      if ltb 4 (len node_id) then slice node_id (len node_id - 4) (len node_id) else node_id in
    cfg.ssid_prefix ++ suffix

-- The security of an interface: WPA2 with a key, and open without.
abbrev pub security : String → Values
security key =
    if key == "" then ("encryption", "none") ∷ [] else ("encryption", "psk2") ∷ ("key", key) ∷ []

unfoldable pub network_values : Config → Values
network_values cfg = ("proto", "static") ∷ ("ipaddr", cfg.ip) ∷ ("netmask", cfg.netmask) ∷ []

unfoldable pub dhcp_values : Values
dhcp_values =
    ("interface", network_section) ∷ ("start", "100") ∷ ("limit", "150") ∷ ("leasetime", "12h") ∷ []

unfoldable pub wifi_values : Config → String → Values
unfolding ssid
wifi_values cfg node_id =
    ("device", cfg.radio)
    ∷ ("mode", "ap")
    ∷ ("ssid", ssid cfg node_id)
    ∷ ("network", network_section)
    ∷ security cfg.key

unfoldable pub uplink_values : Config → String → String → Values
uplink_values cfg name key =
    ("device", cfg.radio)
    ∷ ("mode", "sta")
    ∷ ("ssid", name)
    ∷ ("network", uplink_net_section)
    ∷ security key

module _ (uci : Uci) where
  unfoldable pub commit_and_reload : Action uci
  commit_and_reload =
      seq uci (uci.commit "network")
        (seq uci (uci.commit "dhcp") (seq uci (uci.commit "wireless") uci.reload))

  -- The radio ships disabled.
  abbrev pub enable_radio : Config → Action uci
  enable_radio cfg = uci.set "wireless" cfg.radio "disabled" "0"

  unfoldable pub enable : Config → String → Action uci
  unfolding commit_and_reload network_values dhcp_values wifi_values
  enable cfg node_id =
      seq uci (uci.set_section "network" network_section "interface" (network_values cfg)) (
        seq uci (uci.set_section "dhcp" dhcp_section "dhcp" dhcp_values) (
          seq uci (uci.set_section "wireless" wifi_section "wifi-iface" (wifi_values cfg node_id))
            (seq uci (enable_radio cfg) commit_and_reload)))

  unfoldable pub author_uplink : Config → String → String → Action uci
  unfolding commit_and_reload uplink_values
  author_uplink cfg name key =
      seq uci (uci.set_section "network" uplink_net_section "interface" (("proto", "dhcp") ∷ [])) (
        seq uci
          (uci.set_section "wireless" uplink_wifi_section "wifi-iface" (uplink_values cfg name key))
          (seq uci (enable_radio cfg) commit_and_reload))

  -- `EnableUplink`: the manager remembers the uplink if all went well.
  unfoldable pub enable_uplink :
      String → String → Manager → uci.Config → Bool × Manager × uci.Config
  unfolding author_uplink
  enable_uplink name key m c =
      let (ok, c') = author_uplink m.cfg name key c in
      (ok, (if ok then record m { uplink_active = true } else m), c')

  unfoldable pub delete_setup : Action uci
  delete_setup =
      seq uci (uci.delete "wireless" wifi_section)
        (seq uci (uci.delete "network" network_section) (uci.delete "dhcp" dhcp_section))

  unfoldable pub delete_uplink : Action uci
  delete_uplink =
      seq uci (uci.delete "wireless" uplink_wifi_section) (uci.delete "network" uplink_net_section)

  -- The rest of `Disable`, after the sections are gone.
  abbrev pub finish : Manager → uci.Config → Bool × Manager × uci.Config
  finish m c = let (ok, c') = commit_and_reload c in (ok, m, c')

  unfoldable pub disable : Manager → uci.Config → Bool × Manager × uci.Config
  unfolding delete_setup delete_uplink commit_and_reload
  disable m c =
      let (ok, c') = delete_setup c in
      if ok
      then (if m.uplink_active
          then (let (ok', c'') = delete_uplink c' in
              if ok' then finish (record m { uplink_active = false }) c'' else (false, m, c''))
          else finish m c')
      else (false, m, c')
