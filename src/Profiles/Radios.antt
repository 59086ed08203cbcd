-- ===== src/Profiles/Radios.antt =====
-- The radios of a profile, by the names of the wifi-devices and their bands.
pub mod Lowest
pub mod Minimal
pub mod Spread
pub mod Targets
use Prim.Native.String.{◌++◌}
use omm.Prelude.TextOrder.{text_less}
use omm.Prelude.{
  String, Bool, true, false, Option, none, some, List, [], ◌∷◌, ◌++◌ as append, ◌==◌, ◌&&◌, ◌||◌,
  not, is_empty, map, if◌then◌else◌,
}
use omm.Models.{Profile}
use omm.Uci.{Uci, Values, value_of, has_item}
use omm.Profiles.{Config, ap_section}

-- A Go map of sections, as the list of its entries in the order that a loop meets them.
abbrev pub Sections : Type 0
Sections = List (String × Values)

-- `opts[key]`, which is "" if the key is missing.
unfoldable pub option_of : String → Values → String
option_of key opts = elim (value_of key opts) [ none ↦ "" | some v ↦ v ]

unfoldable pub hosts_band : String → Values → Bool
unfolding option_of
hosts_band band opts = (option_of ".type" opts == "wifi-device") && (option_of "band" opts == band)

unfoldable pub lower_name : String → String → String
unfolding text_less
lower_name name found = if (found == "") || text_less name found then name else found

unfoldable pub scan_radios : String → String → Sections → String
unfolding hosts_band lower_name
scan_radios band found [] = found
scan_radios band found ((name, opts) ∷ rest) =
    scan_radios band (if hosts_band band opts then lower_name name found else found) rest

unfoldable pub lowest_radio_for_band : Sections → String → String
unfolding scan_radios
lowest_radio_for_band sections band = scan_radios band "" sections

pub record ApTarget : Type 0 where
  pub section : String
  pub radio : String

-- The bands after the first, with `strings.ToLower` of `strings.TrimSpace` as `normalize`; `used` is
-- the radios that are taken, which are those of the targets.
unfoldable pub more_targets :
    (String → String) → Sections → List String → List ApTarget → List ApTarget
unfolding lowest_radio_for_band
more_targets normalize sections [] targets = targets
more_targets normalize sections (b ∷ bands) targets =
    let band = normalize b in
    let radio = lowest_radio_for_band sections band in
    let used = has_item radio (map (λ (t : ApTarget). t.radio) targets) in
    more_targets normalize sections bands (
      if (band == "") || (radio == "") || used
      then targets
      else append targets (record { section = ap_section ++ "_" ++ band; radio = radio } ∷ []))

module _ (uci : Uci) (normalize : String → String) where
  unfoldable pub resolve_radio : Config → Profile → uci.Config → Option String
  unfolding lowest_radio_for_band
  resolve_radio cfg profile c =
      if not (profile.radio == "")
      then some profile.radio
      else if not (profile.band == "")
      then elim (uci.sections "wireless" c) [
        | none ↦ none
        | some sections ↦
            let match = lowest_radio_for_band sections profile.band in
            if match == "" then none else some match
      ]
      else some cfg.radio

  unfoldable pub resolve_mesh_radio : Config → String → uci.Config → String
  unfolding lowest_radio_for_band
  resolve_mesh_radio cfg ap_radio c =
      if not (cfg.mesh_radio == "") then cfg.mesh_radio else elim (uci.sections "wireless" c) [
        | none ↦ ap_radio
        | some sections ↦
            let match = lowest_radio_for_band sections cfg.mesh_band in
            if match == "" then ap_radio else match
      ]

  -- The sections are read once, and not at all if no band has a name; without them the primary stays.
  unfoldable pub resolve_ap_targets : Config → Profile → String → uci.Config → List ApTarget
  unfolding more_targets
  resolve_ap_targets cfg profile ap_radio c =
      let primary : ApTarget = record { section = ap_section; radio = ap_radio } in
      let bands = if is_empty profile.ap_bands then cfg.mesh_band ∷ [] else profile.ap_bands in
      elim (uci.sections "wireless" c) [
        | none ↦ primary ∷ []
        | some sections ↦ more_targets normalize sections bands (primary ∷ [])
      ]
