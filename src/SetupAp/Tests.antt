-- ===== src/SetupAp/Tests.antt =====
-- The theorems about the set-up access point on configurations in memory.
use omm.Prelude.{◌≡◌, ◌≢◌, refl, true, false, [], ◌∷◌}
use omm.Uci.{Uci, scalar}
use omm.Uci.Toy.{Memory, blank, put, toy}
use omm.Uci.Action.{seq}
use omm.Uci.Client.{set, set_section, as_scalars, reload}
use omm.SetupAp.{
  Config, Manager, enable, enable_uplink, author_uplink, disable, delete_setup, delete_uplink,
  commit_and_reload, network_values, dhcp_values, wifi_values, uplink_values, ssid,
}
use omm.SetupAp.Touched.{owns, run_calls, enables, enables_uplink, disables, run_calls_kept}
use omm.SetupAp.Lifecycle.{IsDown, IsUplinkDown, disable_removes}

abbrev settings : Config
settings = record {
  radio = "radio0";
  ip = "192.168.254.1";
  netmask = "255.255.255.0";
  key = "";
  ssid_prefix = "OMM-Setup-";
}

abbrev manager : Manager
manager = record { cfg = settings; uplink_active = false }

-- A router with its radio and an operator's network.
abbrev stock : Memory
stock =
    put "wireless" "default_radio0" (("ssid", scalar "Mine") ∷ [])
      (put "wireless" "radio0" (("disabled", scalar "1") ∷ []) blank)

-- The router after `Enable`, by the calls that it makes.
abbrev up : Memory
up = put "wireless" "omm_setup" [] (put "dhcp" "ommsetup" [] (put "network" "ommsetup" [] stock))

-- Every call of the first succeeds; the commit of dhcp fails on the second.
abbrev router : Uci
router = toy "no package"

abbrev full : Uci
full = toy "dhcp"

unowned : owns settings "wireless" "default_radio0" "ssid" ≡ false
unfolding owns
unowned = refl

run_calls_kept_example :
    router.value "wireless" "default_radio0" "ssid"
      (run_calls router
        (enables "9f86d081" ∷ enables_uplink "Home" "secret" ∷ disables ∷ [])
        manager
        stock).1
    ≡ router.value "wireless" "default_radio0" "ssid" stock
run_calls_kept_example =
    run_calls_kept router (enables "9f86d081" ∷ enables_uplink "Home" "secret" ∷ disables ∷ [])
      manager stock "wireless" "default_radio0" "ssid" unowned

disable_ok : (disable router manager up).0 ≡ true
unfolding disable delete_setup delete_uplink commit_and_reload seq reload
disable_ok = refl

disable_removes_example :
    IsDown router (disable router manager up).2
    × (manager.uplink_active ≡ true → IsUplinkDown router (disable router manager up).2)
    × ((disable router manager up).1 ≡ record manager { uplink_active = false })
disable_removes_example = disable_removes router manager up disable_ok

uplink_fails : (enable_uplink full "Home" "secret" manager stock).0 ≡ false
unfolding enable_uplink author_uplink commit_and_reload seq uplink_values set set_section as_scalars
    reload
uplink_fails = refl

radio_named : settings.radio ≢ "omm_setup"
radio_named e = cc

enable_ok : (enable router settings "9f86d081" stock).0 ≡ true
unfolding enable commit_and_reload seq network_values dhcp_values wifi_values set set_section
    as_scalars reload
enable_ok = refl

ssid_of_node : ssid settings "9f86d081" ≡ "OMM-Setup-d081"
unfolding ssid
ssid_of_node = refl
