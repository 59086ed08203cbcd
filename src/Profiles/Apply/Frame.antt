-- ===== src/Profiles/Apply/Frame.antt =====
-- What applying a profile leaves alone.
use omm.Prelude.{
  String, ◌≡◌, refl, ◌∙◌, Bool, true, false, Bool-cases, Option-cases, inl, inr, Option, none, some,
  ◌==◌, ◌&&◌, ◌||◌, arith,
}
use omm.Models.{Profile, BackhaulState}
use omm.Store.Bolt.{Bolt}
use omm.Store.Db.{Db}
use omm.Uci.{Uci, is_same, is_at}
use omm.Uci.Action.{Action, IsKept, seq, seq-IsKept}
use omm.Batman as Batman
use omm.Batman.Mac.{Formats}
use omm.Batman.Frame as BatmanFrame
use omm.Profiles.{Config, mesh_section}
use omm.Profiles.Radios.{resolve_radio, resolve_mesh_radio}
use omm.Profiles.Author.Frame.{
  is_ap, is_radio_option, IsPlain, set_some-IsKept, author_wireless-IsKept,
}
use omm.Profiles.Verify.{verify_backhaul, batman_fallback, batman_up, degrade, is_up}
use omm.Profiles.Apply.{
  routed_of, layer_of, when, commit_profile, author_profile, finish, apply_profile,
}

-- The option is of a wireless section of the profiles, one that is set on radios, a host name, the
-- ports of a bridge, whatever name the section goes by, or of the layer of batman-adv.
unfoldable pub owns_profile : Config → String → String → String → Bool
owns_profile cfg p s o =
    ((p == "wireless") && ((s == mesh_section) || is_ap s || is_radio_option o))
    || ((p == "system") && (o == "hostname"))
    || ((p == "network") && (o == "ports"))
    || BatmanFrame.owns (layer_of cfg) (layer_of cfg).wired_ports p s o

module _ (bolt : Bolt) (uci : Uci) (formats : Formats) (normalize : String → String)
    (p s o : String) where
  when-IsKept :
      (b : Bool) (act : Action uci)
      → IsKept uci p s o act
      → IsKept uci p s o (when bolt uci formats normalize b act)
  when-IsKept true act h c = h c
  when-IsKept false act h c = refl

  commit_profile-IsKept :
      (routed : Bool) → IsKept uci p s o (commit_profile bolt uci formats normalize routed)
  unfolding commit_profile
  commit_profile-IsKept routed =
      seq-IsKept uci p s o _ _
        (when-IsKept routed (uci.commit "network") (λ c. uci.commit_option "network" c p s o))
        (seq-IsKept uci p s o (uci.commit "wireless") (seq uci (uci.commit "system") uci.reload)
          (λ c. uci.commit_option "wireless" c p s o)
          (seq-IsKept uci p s o (uci.commit "system") uci.reload
            (λ c. uci.commit_option "system" c p s o) (λ c. uci.reload_option c p s o)))

  -- The wireless part of an ending: a write, the commits and the reload.
  ending-IsKept :
      (act : Action uci)
      → IsKept uci p s o act
      → IsKept uci p s o (seq uci act (seq uci (uci.commit "wireless") uci.reload))
  ending-IsKept act h = seq-IsKept uci p s o act (seq uci (uci.commit "wireless") uci.reload) h (
      seq-IsKept uci p s o (uci.commit "wireless") uci.reload
        (λ c. uci.commit_option "wireless" c p s o) (λ c. uci.reload_option c p s o))

  module _ (cfg : Config) (other : owns_profile cfg p s o ≡ false) where
    mesh_off : is_same p s "wireless" mesh_section ≡ false
    unfolding owns_profile
    mesh_off = ground (arith, other)

    plain : IsPlain uci normalize p s o
    unfolding owns_profile
    plain = ground (arith, other)

    layer_off : BatmanFrame.owns (layer_of cfg) (layer_of cfg).wired_ports p s o ≡ false
    unfolding owns_profile
    layer_off = ground (arith, other)

    host_off : is_at p s o "system" "@system[0]" "hostname" ≡ false
    unfolding owns_profile
    host_off = ground (arith, other)

    batman_fallback-IsKept : IsKept uci p s o (batman_fallback uci formats cfg (layer_of cfg))
    unfolding batman_fallback
    batman_fallback-IsKept c = elim (Bool-cases (batman_up uci formats cfg)) [
      | inl e ↦ rw e refl
      | inr e ↦ rw e (
          seq-IsKept uci p s o (uci.set "wireless" mesh_section "network" "lan")
            (seq uci (Batman.teardown uci formats (layer_of cfg))
              (seq uci (uci.commit "network") (seq uci (uci.commit "wireless") uci.reload)))
            (λ c'.
              uci.set_other "wireless" mesh_section "network" "lan" c' p s o
                (ground (arith, mesh_off)))
            (seq-IsKept uci p s o (Batman.teardown uci formats (layer_of cfg))
              (seq uci (uci.commit "network") (seq uci (uci.commit "wireless") uci.reload))
              (BatmanFrame.torn_layer uci formats (layer_of cfg) p s o layer_off)
              (ending-IsKept (uci.commit "network") (λ c'. uci.commit_option "network" c' p s o)))
            c)
    ]

    author_profile-IsKept :
        (profile : Profile) (ap_radio mesh_radio : String)
        → IsKept uci p s o
            (author_profile bolt uci formats normalize cfg profile ap_radio mesh_radio)
    unfolding author_profile
    author_profile-IsKept profile ap_radio mesh_radio =
        seq-IsKept uci p s o _ _
          (when-IsKept (routed_of cfg profile) (Batman.apply uci formats (layer_of cfg))
            (BatmanFrame.applied_layer uci formats (layer_of cfg) p s o layer_off))
          (seq-IsKept uci p s o _ _
            (author_wireless-IsKept uci normalize p s o plain cfg profile (routed_of cfg profile)
              ap_radio mesh_radio _)
            (seq-IsKept uci p s o _ _
              (set_some-IsKept uci normalize p s o "system" "@system[0]" "hostname"
                profile.node_name host_off)
              (seq-IsKept uci p s o _ _ (commit_profile-IsKept (routed_of cfg profile)) (
                when-IsKept (routed_of cfg profile) (batman_fallback uci formats cfg (layer_of cfg))
                  batman_fallback-IsKept))))

    degrade-IsKept : IsKept uci p s o (degrade uci formats)
    unfolding degrade
    degrade-IsKept =
        ending-IsKept (uci.delete "wireless" mesh_section)
          (λ c. uci.delete_other "wireless" mesh_section c p s o mesh_off)

    verify_backhaul-kept :
        (profile : Profile) (c : uci.Config)
        → uci.value p s o (verify_backhaul uci formats cfg profile c).1 ≡ uci.value p s o c
    unfolding verify_backhaul
    verify_backhaul-kept profile c = elim (Bool-cases (profile.mesh_ssid == "")) [
      | inl a ↦ rw a refl
      | inr a ↦ elim (Bool-cases cfg.mesh_standby) [
        | inl b ↦ rw (a, b) refl
        | inr b ↦ elim (Bool-cases (is_up cfg cfg.mesh)) [
          | inl d ↦ rw (a, b, d) refl
          | inr d ↦ elim (Bool-cases (degrade uci formats c).0) [
            | inl e ↦ rw (a, b, d, e) (degrade-IsKept c)
            | inr e ↦ rw (a, b, d, e) (degrade-IsKept c)
          ]
        ]
      ]
    ]

    finish-config :
        (r : Option BackhaulState × uci.Config) (store : Option (Db bolt))
        → (finish bolt uci formats normalize r store).2 ≡ r.1
    unfolding finish
    finish-config (none, c) store = refl
    finish-config (some state, c) store = refl

    -- ApplyProfile, also where it fails, leaves every option of the configuration, by the
    -- section names that the calls use, that is not of the mesh or of an access point of the
    -- profiles, not one of disabled, channel and htmode in a section of the wireless package,
    -- not the host name of a section of the system package, not the ports of a section of the
    -- network package, and not of the layer of batman-adv.
    pub apply_profile_kept :
        (profile : Profile) (store : Option (Db bolt)) (c : uci.Config)
        → uci.value p s o (apply_profile bolt uci formats normalize cfg profile store c).2
          ≡ uci.value p s o c
    unfolding apply_profile
    apply_profile_kept profile store c =
        elim (Option-cases (resolve_radio uci normalize cfg profile c)) [
          | inl e ↦ rw (e, apply_profile) refl
          | inr (ap_radio, e) ↦
              let mesh_radio : String = resolve_mesh_radio uci normalize cfg ap_radio c in
              let kept = author_profile-IsKept profile ap_radio mesh_radio c in
              let wrote =
                author_profile bolt uci formats normalize cfg profile ap_radio mesh_radio c in
              elim (Bool-cases wrote.0) [
                | inr w ↦ rw (e, apply_profile, w) kept
                | inl w ↦
                    rw
                      (
                        e,
                        apply_profile,
                        w,
                        finish-config (verify_backhaul uci formats cfg profile wrote.1) store,
                      )
                      (verify_backhaul-kept profile wrote.1 ∙ kept)
              ]
        ]
