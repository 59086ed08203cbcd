-- ===== src/Profiles/Author.antt =====
-- The wireless sections of a profile: the mesh, and an access point on each radio.
pub mod Frame
pub mod Pruned
use Prim.Native.String.{◌++◌}
use text.Mathlib.Text.{starts_with}
use omm.Prelude.{
  String, Bool, true, false, Option, none, some, List, [], ◌∷◌, ◌++◌ as append, ◌==◌, ◌&&◌, ◌||◌,
  not, map, if◌then◌else◌,
}
use omm.Models.{Profile}
use omm.Uci.{Uci, Values, has_item}
use omm.Uci.Action.{Action, seq, done, each}
use omm.Profiles.{Config, mesh_section, ap_section}
use omm.Profiles.Radios.{Sections, ApTarget, option_of, resolve_ap_targets}

-- The access point has the SSID and the key of the mesh unless it has an SSID of its own.
abbrev pub ap_ssid_of : Profile → String
ap_ssid_of profile = if profile.ap_ssid == "" then profile.mesh_ssid else profile.ap_ssid

abbrev pub ap_key_of : Profile → String
ap_key_of profile = if profile.ap_ssid == "" then profile.mesh_key else profile.ap_key

-- The options of a secured interface: with a key or open.
abbrev secured : String → String → Values
secured method key =
    if key == "" then ("encryption", "none") ∷ [] else ("encryption", method) ∷ ("key", key) ∷ []

-- Under batman-adv the mesh is on, or off as a standby; else it is left as it is.
abbrev disabled_of : Config → Bool → Values
disabled_of cfg routed =
    if routed then ("disabled", (if cfg.mesh_standby then "1" else "0")) ∷ [] else []

unfoldable pub mesh_options : Config → Profile → Bool → String → String → Values
mesh_options cfg profile routed radio network =
    ("device", radio)
    ∷ ("mode", "mesh")
    ∷ ("mesh_id", profile.mesh_ssid)
    ∷ ("network", network)
    ∷ append (disabled_of cfg routed) (secured "sae" profile.mesh_key)

unfoldable pub ap_options : Profile → String → Values
ap_options profile radio =
    ("device", radio)
    ∷ ("mode", "ap")
    ∷ ("ssid", ap_ssid_of profile)
    ∷ ("network", "lan")
    ∷ secured "psk2" (ap_key_of profile)

-- The names of the secondary access points that are not kept.
unfoldable pub stale : List String → Sections → List String
unfolding option_of
stale keep [] = []
stale keep ((name, opts) ∷ rest) =
    let others = stale keep rest in
    if not (option_of ".type" opts == "wifi-iface")
      || not (starts_with name (ap_section ++ "_"))
      || has_item name keep
    then others
    else name ∷ others

-- `enable[radio] = true`
unfoldable pub add_radios : List String → List String → List String
add_radios [] radios = radios
add_radios (r ∷ rs) radios =
    add_radios rs (if has_item r radios then radios else append radios (r ∷ []))

module _ (uci : Uci) (normalize : String → String) where
  -- Sets an option if there is a value for it.
  unfoldable pub set_some : (pkg sec opt value : String) → Action uci
  set_some pkg sec opt value = if value == "" then done uci else uci.set pkg sec opt value

  unfoldable pub author_mesh : Config → Profile → Bool → String → String → Action uci
  unfolding mesh_options set_some
  author_mesh cfg profile routed radio network =
      if profile.mesh_ssid == ""
      then done uci
      else seq uci
          (uci.set_section "wireless" mesh_section "wifi-iface"
            (mesh_options cfg profile routed radio network))
          (seq uci (set_some "wireless" radio "channel" profile.mesh_channel)
            (set_some "wireless" radio "htmode" profile.mesh_htmode))

  unfoldable pub author_ap : Profile → ApTarget → Action uci
  unfolding ap_options
  author_ap profile t =
      uci.set_section "wireless" t.section "wifi-iface" (ap_options profile t.radio)

  unfoldable pub prune_stale_secondary_aps : List String → Action uci
  unfolding stale
  prune_stale_secondary_aps keep c = elim (uci.sections "wireless" c) [
    | none ↦ (false, c)
    | some sections ↦ each uci (uci.delete "wireless") (stale keep sections) c
  ]

  -- The access points of a profile, none without an SSID.
  unfoldable pub targets_of : Config → Profile → String → uci.Config → List ApTarget
  unfolding resolve_ap_targets
  targets_of cfg profile ap_radio c =
      if ap_ssid_of profile == ""
      then []
      else resolve_ap_targets uci normalize cfg profile ap_radio c

  unfoldable pub author_aps : Profile → List ApTarget → Action uci
  unfolding author_ap prune_stale_secondary_aps
  author_aps profile targets =
      if ap_ssid_of profile == ""
      then done uci
      else seq uci (each uci (author_ap profile) targets)
          (prune_stale_secondary_aps (map (λ (t : ApTarget). t.section) targets))

  -- A fresh radio ships disabled.
  unfoldable pub enable_radios : List String → Action uci
  enable_radios radios = each uci (λ r. uci.set "wireless" r "disabled" "0") radios

  -- The radios of the mesh and of the access points, each once.
  unfoldable pub radios_to_enable : Profile → String → List ApTarget → List String
  unfolding add_radios
  radios_to_enable profile mesh_radio targets =
      add_radios (map (λ (t : ApTarget). t.radio) targets)
        (if profile.mesh_ssid == "" then [] else mesh_radio ∷ [])

  -- The mesh, the access points on the radios that are found after it, and the radios themselves.
  unfoldable pub author_wireless : Config → Profile → Bool → String → String → String → Action uci
  unfolding author_mesh targets_of author_aps enable_radios radios_to_enable
  author_wireless cfg profile routed ap_radio mesh_radio network =
      seq uci (author_mesh cfg profile routed mesh_radio network) (λ c.
        let targets = targets_of cfg profile ap_radio c in
        seq uci (author_aps profile targets)
          (enable_radios (radios_to_enable profile mesh_radio targets)) c)
