-- ===== src/SetupAp/Lifecycle.antt =====
-- What `Enable` brings up, what `Disable` takes down, and what stays after a failure.
use omm.Prelude.{
  String, ◌≡◌, ◌≢◌, refl, sym, ◌∙◌, true, false, Bool-cases, inl, inr, some, [], ◌∷◌, arith,
  eq-false_of_ne,
}
use omm.Uci.{Uci, Values, scalar, value_of, is_same}
use omm.Uci.Action.{seq, IsStable, IsKept, seq-IsStable, seq-IsKept, seq-ok}
use omm.SetupAp.{
  Config, Manager, wifi_section, network_section, dhcp_section, uplink_wifi_section,
  uplink_net_section, enable, enable_uplink, author_uplink, disable, delete_setup, delete_uplink,
  commit_and_reload, enable_radio, network_values, dhcp_values, wifi_values, uplink_values,
}

module _ (uci : Uci) where
  commit_and_reload-IsStable : (p s : String) → IsStable uci p s (commit_and_reload uci)
  unfolding commit_and_reload
  commit_and_reload-IsStable p s =
      seq-IsStable uci p s _ _ (λ c. uci.commit_sections "network" c p s)
        (seq-IsStable uci p s _ _ (λ c. uci.commit_sections "dhcp" c p s)
          (seq-IsStable uci p s _ _ (λ c. uci.commit_sections "wireless" c p s)
            (λ c. uci.reload_sections c p s)))

  -- The three sections of the access point are not there.
  abbrev pub IsDown : uci.Config → Type 0
  IsDown c =
      (uci.has_section "wireless" wifi_section c ≡ false)
      × (uci.has_section "network" network_section c ≡ false)
      × (uci.has_section "dhcp" dhcp_section c ≡ false)

  abbrev pub IsUplinkDown : uci.Config → Type 0
  IsUplinkDown c =
      (uci.has_section "wireless" uplink_wifi_section c ≡ false)
      × (uci.has_section "network" uplink_net_section c ≡ false)

  delete_setup-IsDown :
      (c : uci.Config) → (delete_setup uci c).0 ≡ true → IsDown (delete_setup uci c).1
  unfolding delete_setup
  delete_setup-IsDown c h =
      let (o1, h1, e1) = seq-ok uci (uci.delete "wireless" wifi_section) _ c h in
      let c1 = (uci.delete "wireless" wifi_section c).1 in
      let (o2, o3, e2) =
        seq-ok uci (uci.delete "network" network_section) (uci.delete "dhcp" dhcp_section) c1 h1 in
      let c2 = (uci.delete "network" network_section c1).1 in
      rw (e1, e2)
        (
          uci.delete_sections "dhcp" dhcp_section c2 "wireless" wifi_section refl
              ∙ uci.delete_sections "network" network_section c1 "wireless" wifi_section refl
              ∙ uci.delete_gone "wireless" wifi_section c o1,
          uci.delete_sections "dhcp" dhcp_section c2 "network" network_section refl
              ∙ uci.delete_gone "network" network_section c1 o2,
          uci.delete_gone "dhcp" dhcp_section c2 o3,
        )

  delete_uplink-IsUplinkDown :
      (c : uci.Config) → (delete_uplink uci c).0 ≡ true → IsUplinkDown (delete_uplink uci c).1
  unfolding delete_uplink
  delete_uplink-IsUplinkDown c h =
      let (o1, o2, e) =
        seq-ok uci (uci.delete "wireless" uplink_wifi_section)
          (uci.delete "network" uplink_net_section) c h in
      let c1 = (uci.delete "wireless" uplink_wifi_section c).1 in
      rw e (
        uci.delete_sections "network" uplink_net_section c1 "wireless" uplink_wifi_section refl
            ∙ uci.delete_gone "wireless" uplink_wifi_section c o1,
        uci.delete_gone "network" uplink_net_section c1 o2,
      )

  delete_uplink-IsStable :
      (p s : String)
      → is_same p s "wireless" uplink_wifi_section ≡ false
      → is_same p s "network" uplink_net_section ≡ false
      → IsStable uci p s (delete_uplink uci)
  unfolding delete_uplink
  delete_uplink-IsStable p s h k =
      seq-IsStable uci p s _ _ (λ c. uci.delete_sections "wireless" uplink_wifi_section c p s h)
        (λ c. uci.delete_sections "network" uplink_net_section c p s k)

  -- Committing keeps what is down.
  commit-IsDown : (c : uci.Config) → IsDown c → IsDown (commit_and_reload uci c).1
  commit-IsDown c d = (
    commit_and_reload-IsStable "wireless" wifi_section c ∙ d.0,
    commit_and_reload-IsStable "network" network_section c ∙ d.1,
    commit_and_reload-IsStable "dhcp" dhcp_section c ∙ d.2,
  )

  delete_uplink-IsDown : (c : uci.Config) → IsDown c → IsDown (delete_uplink uci c).1
  delete_uplink-IsDown c d = (
    delete_uplink-IsStable "wireless" wifi_section refl refl c ∙ d.0,
    delete_uplink-IsStable "network" network_section refl refl c ∙ d.1,
    delete_uplink-IsStable "dhcp" dhcp_section refl refl c ∙ d.2,
  )

  -- After a successful Disable the three sections of the access point are gone, those of the
  -- uplink too if the manager remembers it, and the manager remembers none.
  pub disable_removes :
      (m : Manager) (c : uci.Config)
      → (disable uci m c).0 ≡ true
      → IsDown (disable uci m c).2
        × (m.uplink_active ≡ true → IsUplinkDown (disable uci m c).2)
        × ((disable uci m c).1 ≡ record m { uplink_active = false })
  unfolding disable
  disable_removes m c h = elim (Bool-cases (delete_setup uci c).0) [
    | inr e ↦ cc (rw e at h)
    | inl e ↦ elim (Bool-cases m.uplink_active) [
      | inr n ↦ rw (e, n) (commit-IsDown _ (delete_setup-IsDown c e), λ a. cc, refl)
      | inl a ↦ elim (Bool-cases (delete_uplink uci (delete_setup uci c).1).0) [
        | inr d ↦ cc (rw (e, a, d) at h)
        | inl d ↦
            let gone = delete_uplink-IsUplinkDown (delete_setup uci c).1 d in
            rw (e, a, d)
              (
                commit-IsDown _ (delete_uplink-IsDown _ (delete_setup-IsDown c e)),
                λ _. (
                  commit_and_reload-IsStable "wireless" uplink_wifi_section _ ∙ gone.0,
                  commit_and_reload-IsStable "network" uplink_net_section _ ∙ gone.1,
                ),
                refl,
              )
      ]
    ]
  ]

  delete_setup-gone :
      (c : uci.Config)
      → (uci.delete "wireless" wifi_section c).0 ≡ true
      → uci.has_section "wireless" wifi_section (delete_setup uci c).1 ≡ false
  unfolding delete_setup seq
  delete_setup-gone c h = rw h (
      seq-IsStable uci "wireless" wifi_section (uci.delete "network" network_section)
        (uci.delete "dhcp" dhcp_section)
        (λ c'. uci.delete_sections "network" network_section c' "wireless" wifi_section refl)
        (λ c'. uci.delete_sections "dhcp" dhcp_section c' "wireless" wifi_section refl)
        (uci.delete "wireless" wifi_section c).1
      ∙ uci.delete_gone "wireless" wifi_section c h)

  disable-gone :
      (m : Manager) (c : uci.Config)
      → (uci.delete "wireless" wifi_section c).0 ≡ true
      → uci.has_section "wireless" wifi_section (disable uci m c).2 ≡ false
  unfolding disable
  disable-gone m c h =
      let commits = commit_and_reload-IsStable "wireless" wifi_section in
      let uplink = delete_uplink-IsStable "wireless" wifi_section refl refl in
      elim (Bool-cases (delete_setup uci c).0) [
        | inr e ↦ rw e (delete_setup-gone c h)
        | inl e ↦ elim (Bool-cases m.uplink_active) [
          | inr n ↦ rw (e, n) (commits _ ∙ delete_setup-gone c h)
          | inl a ↦ elim (Bool-cases (delete_uplink uci (delete_setup uci c).1).0) [
            | inr d ↦ rw (e, a, d) (uplink _ ∙ delete_setup-gone c h)
            | inl d ↦ rw (e, a, d) (commits _ ∙ uplink _ ∙ delete_setup-gone c h)
          ]
        ]
      ]

  disable-absent :
      (m : Manager) (c : uci.Config)
      → uci.has_section "wireless" wifi_section c ≡ false
      → (disable uci m c).0 ≡ false
  unfolding disable delete_setup seq
  disable-absent m c h = rw (uci.delete_absent "wireless" wifi_section c h) refl

  -- After a Disable that deleted the section of the access point, whatever failed later in it,
  -- the next Disable fails.
  pub disable_stuck :
      (m : Manager) (c : uci.Config)
      → (uci.delete "wireless" wifi_section c).0 ≡ true
      → (disable uci (disable uci m c).1 (disable uci m c).2).0 ≡ false
  disable_stuck m c h = disable-absent (disable uci m c).1 (disable uci m c).2 (disable-gone m c h)

  -- The section of the uplink's network is made before that of its station.
  author_uplink-has :
      (cfg : Config) (name key : String) (c : uci.Config)
      → (uci.set_section "network" uplink_net_section "interface" (("proto", "dhcp") ∷ []) c).0
        ≡ true
      → (uci.set_section "wireless" uplink_wifi_section "wifi-iface"
          (uplink_values cfg name key)
          (uci.set_section "network" uplink_net_section "interface" (("proto", "dhcp") ∷ []) c).1).0
        ≡ true
      → uci.has_section "wireless" uplink_wifi_section (author_uplink uci cfg name key c).1 ≡ true
  unfolding author_uplink seq
  author_uplink-has cfg name key c h k =
      let c1 =
        (uci.set_section "network" uplink_net_section "interface" (("proto", "dhcp") ∷ []) c).1 in
      let c2 =
        (uci.set_section "wireless" uplink_wifi_section "wifi-iface" (uplink_values cfg name key)
          c1).1 in
      rw (h, k)
        (seq-IsStable uci "wireless" uplink_wifi_section (enable_radio uci cfg)
            (commit_and_reload uci)
            (λ c'.
              uci.set_sections "wireless" cfg.radio "disabled" "0" c' "wireless"
                uplink_wifi_section)
            (commit_and_reload-IsStable "wireless" uplink_wifi_section) c2
          ∙ uci.set_section_has "wireless" uplink_wifi_section "wifi-iface"
              (uplink_values cfg name key) c1 k)

  delete_setup-IsStable : IsStable uci "wireless" uplink_wifi_section (delete_setup uci)
  unfolding delete_setup
  delete_setup-IsStable =
      seq-IsStable uci "wireless" uplink_wifi_section _ _
        (λ c. uci.delete_sections "wireless" wifi_section c "wireless" uplink_wifi_section refl)
        (seq-IsStable uci "wireless" uplink_wifi_section _ _
          (λ c. uci.delete_sections "network" network_section c "wireless" uplink_wifi_section refl)
          (λ c. uci.delete_sections "dhcp" dhcp_section c "wireless" uplink_wifi_section refl))

  -- A `Disable` of a manager that remembers no uplink leaves its section.
  disable_spares :
      (m : Manager) (c : uci.Config)
      → m.uplink_active ≡ false
      → uci.has_section "wireless" uplink_wifi_section (disable uci m c).2
        ≡ uci.has_section "wireless" uplink_wifi_section c
  unfolding disable
  disable_spares m c n = elim (Bool-cases (delete_setup uci c).0) [
    | inr e ↦ rw e (delete_setup-IsStable c)
    | inl e ↦
        rw (e, n)
          (commit_and_reload-IsStable "wireless" uplink_wifi_section _ ∙ delete_setup-IsStable c)
  ]

  -- If the manager remembers no uplink and EnableUplink makes both its sections and then
  -- fails, a Disable after it leaves the section of the station.
  pub uplink_left :
      (m : Manager) (name key : String) (c : uci.Config)
      → m.uplink_active ≡ false
      → (uci.set_section "network" uplink_net_section "interface" (("proto", "dhcp") ∷ []) c).0
        ≡ true
      → (uci.set_section "wireless" uplink_wifi_section "wifi-iface"
          (uplink_values m.cfg name key)
          (uci.set_section "network" uplink_net_section "interface" (("proto", "dhcp") ∷ []) c).1).0
        ≡ true
      → (enable_uplink uci name key m c).0 ≡ false
      → uci.has_section "wireless" uplink_wifi_section
          (disable uci (enable_uplink uci name key m c).1 (enable_uplink uci name key m c).2).2
        ≡ true
  unfolding enable_uplink
  uplink_left m name key c n h k failed =
      rw failed (disable_spares m _ n ∙ author_uplink-has m.cfg name key c h k)

  commit_and_reload-option : (p s o : String) → IsKept uci p s o (commit_and_reload uci)
  unfolding commit_and_reload
  commit_and_reload-option p s o =
      seq-IsKept uci p s o _ _ (λ c. uci.commit_option "network" c p s o)
        (seq-IsKept uci p s o _ _ (λ c. uci.commit_option "dhcp" c p s o)
          (seq-IsKept uci p s o _ _ (λ c. uci.commit_option "wireless" c p s o)
            (λ c. uci.reload_option c p s o)))

  -- Every option of the values is set in the section.
  abbrev pub IsAuthored : String → String → Values → uci.Config → Type 0
  IsAuthored p s values c =
      (o v : String) → value_of o values ≡ some v → uci.value p s o c ≡ some (scalar v)

  -- What the two last steps of `Enable` leave of a section that is not the radio's.
  ending-IsAuthored :
      (cfg : Config) (p s : String) (values : Values) (c : uci.Config)
      → is_same p s "wireless" cfg.radio ≡ false
      → IsAuthored p s values c
      → IsAuthored p s values (seq uci (enable_radio uci cfg) (commit_and_reload uci) c).1
  ending-IsAuthored cfg p s values c other h o v at =
      seq-IsKept uci p s o (enable_radio uci cfg) (commit_and_reload uci)
        (λ c'. uci.set_other "wireless" cfg.radio "disabled" "0" c' p s o (ground (arith, other)))
        (commit_and_reload-option p s o) c
      ∙ h o v at

  section-IsAuthored :
      (pkg sec type : String) (values : Values) (c : uci.Config)
      → (uci.set_section pkg sec type values c).0 ≡ true
      → IsAuthored pkg sec values (uci.set_section pkg sec type values c).1
  section-IsAuthored pkg sec type values c ok o v at =
      uci.set_section_option pkg sec type values c o v ok at

  other-IsAuthored :
      (p s pkg sec type : String) (values mine : Values) (c : uci.Config)
      → is_same p s pkg sec ≡ false
      → IsAuthored p s mine c
      → IsAuthored p s mine (uci.set_section pkg sec type values c).1
  other-IsAuthored p s pkg sec type values mine c other h o v at =
      uci.set_section_other pkg sec type values c p s o other ∙ h o v at

  -- A successful Enable on a radio that is not named as the section of the access point leaves
  -- all the options of the network, of the DHCP pool and of the access point set, and the
  -- radio enabled.
  pub enable_authors :
      (cfg : Config) (node_id : String) (c : uci.Config)
      → cfg.radio ≢ wifi_section
      → (enable uci cfg node_id c).0 ≡ true
      → IsAuthored "network" network_section (network_values cfg) (enable uci cfg node_id c).1
        × IsAuthored "dhcp" dhcp_section dhcp_values (enable uci cfg node_id c).1
        × IsAuthored "wireless" wifi_section (wifi_values cfg node_id) (enable uci cfg node_id c).1
        × (uci.value "wireless" cfg.radio "disabled" (enable uci cfg node_id c).1
            ≡ some (scalar "0"))
  unfolding enable
  enable_authors cfg node_id c ne h =
      let net = uci.set_section "network" network_section "interface" (network_values cfg) in
      let dhcp = uci.set_section "dhcp" dhcp_section "dhcp" dhcp_values in
      let wifi = uci.set_section "wireless" wifi_section "wifi-iface" (wifi_values cfg node_id) in
      let (ok1, h1, e1) = seq-ok uci net _ c h in
      let c1 = (net c).1 in
      let (ok2, h2, e2) = seq-ok uci dhcp _ c1 h1 in
      let c2 = (dhcp c1).1 in
      let (ok3, h3, e3) = seq-ok uci wifi _ c2 h2 in
      let c3 = (wifi c2).1 in
      let (ok4, h4, e4) = seq-ok uci (enable_radio uci cfg) (commit_and_reload uci) c3 h3 in
      let a1 =
        section-IsAuthored "network" network_section "interface" (network_values cfg) c ok1 in
      let a2 = section-IsAuthored "dhcp" dhcp_section "dhcp" dhcp_values c1 ok2 in
      let a3 =
        section-IsAuthored "wireless" wifi_section "wifi-iface" (wifi_values cfg node_id) c2 ok3 in
      rw (e1, e2, e3)
        (
          ending-IsAuthored cfg "network" network_section (network_values cfg) c3 refl (
              other-IsAuthored "network" network_section "wireless" wifi_section "wifi-iface" _
                (network_values cfg) c2 refl
                (other-IsAuthored "network" network_section "dhcp" dhcp_section "dhcp" _
                  (network_values cfg) c1 refl a1)),
          ending-IsAuthored cfg "dhcp" dhcp_section dhcp_values c3 refl (
              other-IsAuthored "dhcp" dhcp_section "wireless" wifi_section "wifi-iface" _
                dhcp_values c2 refl a2),
          ending-IsAuthored cfg "wireless" wifi_section (wifi_values cfg node_id) c3
              (eq-false_of_ne wifi_section cfg.radio (λ e. ne (sym e))) a3,
          rw e4 (
              commit_and_reload-option "wireless" cfg.radio "disabled" _
              ∙ uci.set_option "wireless" cfg.radio "disabled" "0" c3 ok4),
        )
