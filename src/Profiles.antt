-- ===== src/Profiles.antt =====
-- internal/profiles/manager.go: a profile of a Home, written to the configuration of the device.
pub mod Inspect
pub mod Radios
pub mod Verify
pub mod Author
pub mod Apply
mod Tests
use Prim.Native.String.{◌++◌, len, slice}
use text.Mathlib.Text.{starts_with}
use omm.Prelude.{String, ℕ, suc, Bool, Option, List, [], ◌==◌, ltb, if◌then◌else◌}
use omm.Prelude.Int.{ℤ, pos}
use omm.Models.{Profile}

abbrev pub mesh_section : String
mesh_section = "omm_mesh"

abbrev pub ap_section : String
ap_section = "omm_ap"

abbrev pub degrade_reason : String
degrade_reason = "802.11s mesh did not start — no mesh-capable wpad on this node"

abbrev pub degrade_remediation : String
degrade_remediation =
    "install wpad-mesh-wolfssl (or -mbedtls to match the image) and re-apply the profile"

-- What an inspector answers to the attempts in order: none is an error.
abbrev pub Inspector : Type 0
Inspector = ℕ → Option Bool

pub record Config : Type 0 where
  pub radio : String
  pub mesh_radio : String
  pub mesh_band : String
  pub mesh : Option Inspector
  pub mesh_verify_attempts : ℤ
  -- nanoseconds
  pub mesh_verify_interval : ℤ
  pub batman_enable : Bool
  pub batman_iface : String
  pub batman_routing_algo : String
  pub batman_ports : List String
  pub mesh_standby : Bool
  pub lan_device : String
  pub batman_mac : Option (String → Option String)
  pub batman : Option Inspector

abbrev or_else : String → String → String
or_else value default = if value == "" then default else value

abbrev or_int : ℤ → ℤ → ℤ
or_int (pos ℕ.zero) default = default
or_int value default = value

unfoldable pub with_defaults : Config → Config
with_defaults c = record c {
  radio = or_else c.radio "radio0";
  mesh_band = or_else c.mesh_band "2g";
  mesh_verify_attempts = or_int c.mesh_verify_attempts (pos 8);
  mesh_verify_interval = or_int c.mesh_verify_interval (pos 1000000000);
  batman_iface = or_else c.batman_iface "bat0";
  batman_routing_algo = or_else c.batman_routing_algo "BATMAN_IV";
}

-- `strings.TrimPrefix`
abbrev trim_prefix : String → String → String
trim_prefix s prefix = if starts_with s prefix then slice s (len prefix) (len s) else s

unfoldable pub home_suffix : String → String
home_suffix home_id =
    let s : String = trim_prefix home_id "home-" in
    let short : String = if ltb 6 (len s) then slice s 0 6 else s in
    if short == "" then "mesh" else short

unfoldable pub default_profile : String → String → String → Profile
unfolding home_suffix
default_profile home_id ssid key = record {
  home_id = home_id;
  node_name = "";
  mesh_ssid = if ssid == "" then "OMM-" ++ home_suffix home_id else ssid;
  mesh_key = key;
  ap_ssid = "";
  ap_key = "";
  band = "";
  radio = "";
  ap_bands = [];
  vlans = [];
  mesh_channel = "";
  mesh_htmode = "";
}
