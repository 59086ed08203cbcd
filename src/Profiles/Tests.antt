-- ===== src/Profiles/Tests.antt =====
-- The theorems about profiles on a router with two radios.

use omm.Prelude.{
  String, ◌≡◌, refl, true, false, none, some, List, [], ◌∷◌, All, ◌==◌, ◌&&◌, any_by, is_empty,
  if◌then◌else◌,
}
use omm.Prelude.Int.{pos}
use omm.Models.{Profile, BackhaulState}
use omm.Store.Memory as StoreMemory
use omm.Store.Db.{Db, open_db}
use omm.Store.Result.{ok}
use omm.Store.Settings.{get_backhaul_state, set_backhaul_state}
use omm.Uci.{Uci, Value, scalar, items, has_item}
use omm.Uci.Toy.{Memory, blank, put, toy}
use omm.Uci.Action.{seq, each}
use omm.Uci.Client.{
  set, set_section, as_scalars, scalars_of, sections, reload, add_list_item, del_list_item,
  get_list, set_list, without_item,
}
use omm.Batman as Batman
use omm.Batman.Names.{sanitize, is_section_char}
use omm.Batman.Mac.{Formats}
use omm.Batman.Frame as BatmanFrame
use omm.Profiles.{Config, ap_section, default_profile, home_suffix, mesh_section}
use omm.Profiles.Radios.{
  Sections, lowest_radio_for_band, scan_radios, hosts_band, option_of, lower_name, resolve_radio,
  resolve_mesh_radio, resolve_ap_targets, more_targets, ApTarget,
}
use omm.Profiles.Radios.Spread.{IsDistinct, radios_of}
use omm.Profiles.Radios.Targets.{IsTarget, IsServed, resolve_ap_targets_lem}
use omm.Profiles.Author.{
  author_mesh, author_ap, prune_stale_secondary_aps, stale, targets_of, author_aps, enable_radios,
  author_wireless, mesh_options, ap_options, radios_to_enable, add_radios, set_some,
}
use omm.Profiles.Verify.{
  rounds, poll, is_up, batman_up, batman_fallback, degrade, verify_backhaul, degraded_state,
}
use omm.Profiles.Verify.Polling.{IsMeshDown, verify_degrades}
use omm.Profiles.Apply.{
  layer_of, commit_profile, author_profile, record_state, finish, apply_profile,
}
use omm.Profiles.Apply.Frame.{owns_profile, apply_profile_kept}
use omm.Profiles.Apply.Outcome.{IsOutcome, apply_profile_records}
use omm.Prelude.TextOrder.{text_less}

abbrev formats : Formats
formats = record {
  split_colons = λ s. s ∷ [];
  parse_octet = λ s. none;
  show_mac = λ a b c d e f. "";
  fnv32a = λ s. 0;
}

abbrev settings : Config
settings = record {
  radio = "radio0";
  mesh_radio = "";
  mesh_band = "2g";
  mesh = some (λ attempt. some false);
  mesh_verify_attempts = pos 2;
  mesh_verify_interval = pos 1000000000;
  batman_enable = true;
  batman_iface = "bat0";
  batman_routing_algo = "BATMAN_IV";
  batman_ports = "lan3" ∷ [];
  mesh_standby = false;
  lan_device = "br_lan";
  batman_mac = none;
  batman = none;
}

abbrev cabin : Profile
cabin = record {
  home_id = "home-edb61002a448";
  node_name = "porch";
  mesh_ssid = "Cabin";
  mesh_key = "secret";
  ap_ssid = "";
  ap_key = "";
  band = "5g";
  radio = "";
  ap_bands = [];
  vlans = [];
  mesh_channel = "6";
  mesh_htmode = "";
}

-- The radio of 2.4 GHz, that of 5 GHz, and an access point of a wider profile.
abbrev listing : List (String × List (String × Value))
listing =
    ("radio1", (".type", scalar "wifi-device") ∷ ("band", scalar "2g") ∷ [])
    ∷ ("radio0", (".type", scalar "wifi-device") ∷ ("band", scalar "5g") ∷ [])
    ∷ ("omm_ap_6g", (".type", scalar "wifi-iface") ∷ [])
    ∷ []

abbrev stock : Memory
stock =
    record (put "network" "br_lan" (("ports", items ("lan1" ∷ "lan3" ∷ [])) ∷ []) (
      put "wireless" "omm_ap_6g" [] (
        put "wireless" "default_radio0" (("ssid", scalar "Mine") ∷ []) (
          put "wireless" "radio1" [] (
            put "wireless" "radio0" (("disabled", scalar "1") ∷ [])
              (put "system" "@system[0]" [] blank)))))) { listed = listing }

abbrev router : Uci
router = toy "no package"

abbrev lower : String → String
lower band = band

abbrev wireless : Sections
wireless =
    ("radio1", (".type", "wifi-device") ∷ ("band", "2g") ∷ [])
    ∷ ("radio0", (".type", "wifi-device") ∷ ("band", "5g") ∷ [])
    ∷ ("omm_ap_6g", (".type", "wifi-iface") ∷ [])
    ∷ []

listed : router.sections "wireless" stock ≡ some wireless
unfolding sections scalars_of
listed = refl

resolve_ap_targets_example :
    let bands = if is_empty cabin.ap_bands then settings.mesh_band ∷ [] else cabin.ap_bands in
    let targets = resolve_ap_targets router lower settings cabin "radio0" stock in
    IsDistinct (radios_of targets)
    × All (IsTarget lower wireless bands "radio0") targets
    × (any_by (λ (t : ApTarget). (t.section == ap_section) && (t.radio == "radio0")) targets ≡ true)
    × All (IsServed lower wireless targets) bands
resolve_ap_targets_example =
    resolve_ap_targets_lem router lower settings cabin "radio0" stock wireless listed
      (refl, (refl, (refl, tt)))

abbrev mesh_made : Memory
mesh_made = put "wireless" "omm_mesh" [] stock

degraded : (verify_backhaul router formats settings cabin mesh_made).0 ≡ some degraded_state
unfolding verify_backhaul degrade is_up poll rounds seq reload
degraded = refl

verify_degrades_example :
    ((cabin.mesh_ssid == "") ≡ false)
    × (settings.mesh_standby ≡ false)
    × IsMeshDown router formats settings
    × (router.has_section "wireless" mesh_section
          (verify_backhaul router formats settings cabin mesh_made).1
        ≡ false)
verify_degrades_example = verify_degrades router formats settings cabin mesh_made degraded

unowned : owns_profile settings "wireless" "default_radio0" "ssid" ≡ false
unfolding owns_profile BatmanFrame.owns
unowned = refl

apply_profile_kept_example :
    router.value "wireless" "default_radio0" "ssid"
      (apply_profile StoreMemory.memory router formats lower settings cabin none stock).2
    ≡ router.value "wireless" "default_radio0" "ssid" stock
apply_profile_kept_example =
    apply_profile_kept StoreMemory.memory router formats lower "wireless" "default_radio0" "ssid"
      settings unowned cabin none stock

database : Db StoreMemory.memory
unfolding open_db
database = open_db StoreMemory.memory

applied :
    (apply_profile StoreMemory.memory router formats lower settings cabin (some database) stock).0
    ≡ true
unfolding apply_profile author_profile finish record_state set_backhaul_state StoreMemory.memory
    database resolve_radio resolve_mesh_radio lowest_radio_for_band scan_radios hosts_band option_of
    lower_name text_less resolve_ap_targets more_targets author_mesh author_ap
    prune_stale_secondary_aps stale targets_of author_aps enable_radios author_wireless mesh_options
    ap_options radios_to_enable add_radios set_some layer_of Batman.with_defaults commit_profile
    batman_fallback batman_up verify_backhaul degrade is_up poll rounds Batman.apply
    Batman.enslave_port Batman.bridge Batman.unbridge Batman.author_mac Batman.mac_override
    Batman.mesh_hardif Batman.wired_hardif Batman.soft_values Batman.mesh_values Batman.wired_values
    sanitize is_section_char seq each set set_section as_scalars scalars_of sections reload
    add_list_item del_list_item get_list set_list without_item has_item
applied = refl

apply_profile_records_example :
    (db' : Db StoreMemory.memory) × ((apply_profile StoreMemory.memory router formats lower settings
        cabin
        (some database)
        stock).1
      ≡ some db')
    × ((state : BackhaulState) × ((get_backhaul_state StoreMemory.memory db').0 ≡ ok state)
        × IsOutcome settings cabin state)
apply_profile_records_example =
    apply_profile_records StoreMemory.memory router formats lower settings cabin database stock
      applied

suffix : (default_profile "home-edb61002a448" "" "k").mesh_ssid ≡ "OMM-edb610"
unfolding default_profile home_suffix
suffix = refl
