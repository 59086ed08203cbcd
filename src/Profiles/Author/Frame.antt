-- ===== src/Profiles/Author/Frame.antt =====
-- What authoring the wireless sections of a profile leaves alone.
use Prim.Native.String.{◌++◌}
use text.Mathlib.Text.{starts_with}
use text.Mathlib.TextEquality.{starts_with_iff}
use text.Mathlib.TextLemmas.{prefix-append, append_assoc}
use omm.Prelude.{
  String, ◌≡◌, refl, sym, ◌∙◌, Bool, true, false, Bool-cases, Option-cases, inl, inr, List, [], ◌∷◌,
  ◌==◌, ◌&&◌, ◌||◌, not, map, All, All-map_of, arith, eq_iff,
}
use omm.Models.{Profile}
use mathlib.Core.Path.{subst}
use omm.Uci.{Uci, is_same, is_at, has_item}
use omm.Uci.Action.{IsKept, seq, seq-IsKept, each, each-IsKept}
use omm.Profiles.{Config, mesh_section}
use omm.Profiles.Radios.{Sections, ApTarget, option_of, resolve_ap_targets}
use omm.Profiles.Radios.Spread.{IsPlaced, resolve_ap_targets-IsPlaced}
use omm.Profiles.Author.{
  set_some, author_mesh, author_ap, prune_stale_secondary_aps, stale, targets_of, author_aps,
  enable_radios, author_wireless, mesh_options, ap_options, ap_ssid_of, radios_to_enable,
}

-- A section of a client access point of the profiles.
abbrev pub is_ap : String → Bool
is_ap s = (s == "omm_ap") || starts_with s "omm_ap_"

-- The options of the radios that a profile sets.
abbrev pub is_radio_option : String → Bool
is_radio_option o = (o == "disabled") || (o == "channel") || (o == "htmode")

-- The name of a secondary access point.
starts_with-append : (a b : String) → starts_with (a ++ b) a ≡ true
starts_with-append a b = (starts_with_iff (a ++ b) a).1 (prefix-append a b)

IsPlaced-is_ap : (t : ApTarget) → IsPlaced t → is_ap t.section ≡ true
IsPlaced-is_ap t (inl at) = rw at refl
IsPlaced-is_ap t (inr (band, at)) =
    let joined : t.section ≡ "omm_ap_" ++ band = at ∙ sym (append_assoc "omm_ap" "_" band) in
    let begins : starts_with t.section "omm_ap_" ≡ true =
      subst (λ x. starts_with x "omm_ap_" ≡ true) (sym joined)
        (starts_with-append "omm_ap_" band) in
    ground (arith, begins)

module _ (uci : Uci) (normalize : String → String) (p s o : String) where
  targets_of-aps :
      (cfg : Config) (profile : Profile) (ap_radio : String) (c : uci.Config)
      → All
          (λ (t : ApTarget). is_ap t.section ≡ true)
          (targets_of uci normalize cfg profile ap_radio c)
  unfolding targets_of
  targets_of-aps cfg profile ap_radio c = elim (Bool-cases (ap_ssid_of profile == "")) [
    | inl e ↦ rw e tt
    | inr e ↦ rw e (
        All-map_of IsPlaced (λ (t : ApTarget). is_ap t.section ≡ true)
          (resolve_ap_targets uci normalize cfg profile ap_radio c) IsPlaced-is_ap
          (resolve_ap_targets-IsPlaced uci normalize cfg profile ap_radio c))
  ]

  -- The option is not one of that section.
  abbrev pub IsOff : String → Type 0
  IsOff sec = is_same p s "wireless" sec ≡ false

  abbrev pub IsPlain : Type 0
  IsPlain = ((p == "wireless") && ((s == mesh_section) || is_ap s || is_radio_option o)) ≡ false

  pub set_some-IsKept :
      (pkg sec opt v : String)
      → is_at p s o pkg sec opt ≡ false
      → IsKept uci p s o (set_some uci normalize pkg sec opt v)
  unfolding set_some
  set_some-IsKept pkg sec opt v off c = elim (Bool-cases (v == "")) [
    | inl e ↦ rw e refl
    | inr e ↦ rw e (uci.set_other pkg sec opt v c p s o off)
  ]

  module _ (plain : IsPlain) where
    radio_off : (r opt : String) → is_radio_option opt ≡ true → is_at p s o "wireless" r opt ≡ false
    radio_off r opt h =
        ground (
          arith,
          plain,
          h,
          eq_iff o opt,
          eq_iff o "disabled",
          eq_iff o "channel",
          eq_iff o "htmode",
        )

    author_mesh-IsKept :
        (cfg : Config) (profile : Profile) (routed : Bool) (radio network : String)
        → IsKept uci p s o (author_mesh uci normalize cfg profile routed radio network)
    unfolding author_mesh
    author_mesh-IsKept cfg profile routed radio network c =
        elim (Bool-cases (profile.mesh_ssid == "")) [
          | inl e ↦ rw e refl
          | inr e ↦ rw e (
              seq-IsKept uci p s o
                (uci.set_section "wireless" mesh_section "wifi-iface"
                  (mesh_options cfg profile routed radio network))
                (seq uci (set_some uci normalize "wireless" radio "channel" profile.mesh_channel)
                  (set_some uci normalize "wireless" radio "htmode" profile.mesh_htmode))
                (λ c'.
                  uci.set_section_other "wireless" mesh_section "wifi-iface"
                    (mesh_options cfg profile routed radio network) c' p s o
                    (ground (arith, plain)))
                (seq-IsKept uci p s o _ _
                  (set_some-IsKept "wireless" radio "channel" profile.mesh_channel
                    (radio_off radio "channel" refl))
                  (set_some-IsKept "wireless" radio "htmode" profile.mesh_htmode
                    (radio_off radio "htmode" refl)))
                c)
        ]

    ap-IsOff : (sec : String) → is_ap sec ≡ true → IsOff sec
    ap-IsOff sec h = elim (Bool-cases (is_same p s "wireless" sec)) [
      | inr e ↦ e
      | inl e ↦
          let at : s ≡ sec = ground (arith, e, eq_iff s sec) in
          let mine : is_ap s ≡ true = subst (λ t. is_ap t ≡ true) (sym at) h in
          cc (let no : true ≡ false = ground (arith, e, mine, plain) in no)
    ]

    stale-IsOff : (keep : List String) (l : Sections) → All IsOff (stale keep l)
    unfolding stale
    stale-IsOff keep [] = tt
    stale-IsOff keep ((name, opts) ∷ rest) =
        elim (Bool-cases (
          not (option_of ".type" opts == "wifi-iface")
          || not (starts_with name "omm_ap_")
          || has_item name keep)) [
            | inl e ↦ rw e (stale-IsOff keep rest)
            | inr e ↦ rw e (ap-IsOff name (ground (arith, e)), stale-IsOff keep rest)
          ]

    prune-IsKept :
        (keep : List String) → IsKept uci p s o (prune_stale_secondary_aps uci normalize keep)
    unfolding prune_stale_secondary_aps
    prune-IsKept keep c = elim (Option-cases (uci.sections "wireless" c)) [
      | inl e ↦ rw (e, prune_stale_secondary_aps) refl
      | inr (l, e) ↦
          rw (e, prune_stale_secondary_aps)
            (each-IsKept uci p s o (uci.delete "wireless") (stale keep l)
              (All-map_of IsOff (λ x. IsKept uci p s o (uci.delete "wireless" x)) (stale keep l)
                (λ x h c'. uci.delete_other "wireless" x c' p s o h) (stale-IsOff keep l))
              c)
    ]

    author_aps-IsKept :
        (profile : Profile) (targets : List ApTarget)
        → All (λ (t : ApTarget). is_ap t.section ≡ true) targets
        → IsKept uci p s o (author_aps uci normalize profile targets)
    unfolding author_aps author_ap
    author_aps-IsKept profile targets aps c = elim (Bool-cases (ap_ssid_of profile == "")) [
      | inl e ↦ rw e refl
      | inr e ↦ rw e (
          seq-IsKept uci p s o (each uci (author_ap uci normalize profile) targets)
            (prune_stale_secondary_aps uci normalize (map (λ (t : ApTarget). t.section) targets))
            (each-IsKept uci p s o (author_ap uci normalize profile) targets (
              All-map_of (λ (t : ApTarget). is_ap t.section ≡ true)
                (λ t. IsKept uci p s o (author_ap uci normalize profile t)) targets
                (λ t h c'.
                  uci.set_section_other "wireless" t.section "wifi-iface"
                    (ap_options profile t.radio) c' p s o (ap-IsOff t.section h))
                aps))
            (prune-IsKept (map (λ (t : ApTarget). t.section) targets)) c)
    ]

    enable_radios-IsKept :
        (radios : List String) → IsKept uci p s o (enable_radios uci normalize radios)
    unfolding enable_radios each
    enable_radios-IsKept [] c = refl
    enable_radios-IsKept (r ∷ rs) c =
        seq-IsKept uci p s o (uci.set "wireless" r "disabled" "0") (enable_radios uci normalize rs)
          (λ c'. uci.set_other "wireless" r "disabled" "0" c' p s o (radio_off r "disabled" refl))
          (enable_radios-IsKept rs) c

    pub author_wireless-IsKept :
        (cfg : Config) (profile : Profile) (routed : Bool) (ap_radio mesh_radio network : String)
        → IsKept uci p s o
            (author_wireless uci normalize cfg profile routed ap_radio mesh_radio network)
    unfolding author_wireless
    author_wireless-IsKept cfg profile routed ap_radio mesh_radio network =
        seq-IsKept uci p s o (author_mesh uci normalize cfg profile routed mesh_radio network) _
          (author_mesh-IsKept cfg profile routed mesh_radio network)
          (λ c.
            let targets = targets_of uci normalize cfg profile ap_radio c in
            seq-IsKept uci p s o (author_aps uci normalize profile targets)
              (enable_radios uci normalize
                (radios_to_enable uci normalize profile mesh_radio targets))
              (author_aps-IsKept profile targets (targets_of-aps cfg profile ap_radio c))
              (enable_radios-IsKept (radios_to_enable uci normalize profile mesh_radio targets)) c)
