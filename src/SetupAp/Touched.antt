-- ===== src/SetupAp/Touched.antt =====
-- The options that the set-up access point may change: its own sections', and whether the radio is
-- disabled.
use omm.Prelude.{
  String, ◌≡◌, refl, ◌∙◌, Bool, false, Bool-cases, inl, inr, List, [], ◌∷◌, ◌==◌, ◌||◌, ◌&&◌, arith,
}
use omm.Uci.{Uci, is_same}
use omm.Uci.Action.{IsKept, seq-IsKept}
use omm.SetupAp.{
  Config, Manager, wifi_section, network_section, dhcp_section, uplink_wifi_section,
  uplink_net_section, enable, enable_uplink, author_uplink, disable, delete_setup, delete_uplink,
  commit_and_reload, enable_radio,
}

-- The option of a section of the access point or of the uplink, or of the radio.
unfoldable pub owns : Config → String → String → String → Bool
owns cfg p s o =
    is_same p s "network" network_section
    || is_same p s "dhcp" dhcp_section
    || is_same p s "wireless" wifi_section
    || is_same p s "network" uplink_net_section
    || is_same p s "wireless" uplink_wifi_section
    || (is_same p s "wireless" cfg.radio && (o == "disabled"))

-- A call of the manager.
pub data Call : Type 0 where
  enables : String → Call
  enables_uplink : String → String → Call
  disables : Call

module _ (uci : Uci) where
  unfoldable pub run_call : Call → Manager → uci.Config → Bool × Manager × uci.Config
  run_call (enables node_id) m c = let (ok, c') = enable uci m.cfg node_id c in (ok, m, c')
  run_call (enables_uplink name key) m c = enable_uplink uci name key m c
  run_call disables m c = disable uci m c

  -- The configuration after some calls, whichever of them fail.
  unfoldable pub run_calls : List Call → Manager → uci.Config → Manager × uci.Config
  unfolding run_call
  run_calls [] m c = (m, c)
  run_calls (x ∷ xs) m c = let (ok, m', c') = run_call x m c in run_calls xs m' c'

  module _ (cfg : Config) (p s o : String) (other : owns cfg p s o ≡ false) where
    commit_and_reload-IsKept : IsKept uci p s o (commit_and_reload uci)
    unfolding commit_and_reload
    commit_and_reload-IsKept =
        seq-IsKept uci p s o _ _ (λ c. uci.commit_option "network" c p s o)
          (seq-IsKept uci p s o _ _ (λ c. uci.commit_option "dhcp" c p s o)
            (seq-IsKept uci p s o _ _ (λ c. uci.commit_option "wireless" c p s o)
              (λ c. uci.reload_option c p s o)))

    radio-IsKept : IsKept uci p s o (enable_radio uci cfg)
    unfolding owns
    radio-IsKept c =
        uci.set_other "wireless" cfg.radio "disabled" "0" c p s o (ground (arith, other))

    enable-IsKept : (node_id : String) → IsKept uci p s o (enable uci cfg node_id)
    unfolding enable owns
    enable-IsKept node_id =
        seq-IsKept uci p s o _ _
          (λ c. uci.set_section_other "network" network_section _ _ c p s o (ground (arith, other)))
          (seq-IsKept uci p s o _ _
            (λ c. uci.set_section_other "dhcp" dhcp_section _ _ c p s o (ground (arith, other)))
            (seq-IsKept uci p s o _ _
              (λ c.
                uci.set_section_other "wireless" wifi_section _ _ c p s o (ground (arith, other)))
              (seq-IsKept uci p s o _ _ radio-IsKept commit_and_reload-IsKept)))

    author_uplink-IsKept : (name key : String) → IsKept uci p s o (author_uplink uci cfg name key)
    unfolding author_uplink owns
    author_uplink-IsKept name key =
        seq-IsKept uci p s o _ _
          (λ c.
            uci.set_section_other "network" uplink_net_section _ _ c p s o (ground (arith, other)))
          (seq-IsKept uci p s o _ _
            (λ c.
              uci.set_section_other "wireless" uplink_wifi_section _ _ c p s o
                (ground (arith, other)))
            (seq-IsKept uci p s o _ _ radio-IsKept commit_and_reload-IsKept))

    delete_setup-IsKept : IsKept uci p s o (delete_setup uci)
    unfolding delete_setup owns
    delete_setup-IsKept =
        seq-IsKept uci p s o _ _
          (λ c. uci.delete_other "wireless" wifi_section c p s o (ground (arith, other)))
          (seq-IsKept uci p s o _ _
            (λ c. uci.delete_other "network" network_section c p s o (ground (arith, other)))
            (λ c. uci.delete_other "dhcp" dhcp_section c p s o (ground (arith, other))))

    delete_uplink-IsKept : IsKept uci p s o (delete_uplink uci)
    unfolding delete_uplink owns
    delete_uplink-IsKept =
        seq-IsKept uci p s o _ _
          (λ c. uci.delete_other "wireless" uplink_wifi_section c p s o (ground (arith, other)))
          (λ c. uci.delete_other "network" uplink_net_section c p s o (ground (arith, other)))

    disable-IsKept :
        (m : Manager) (c : uci.Config) → uci.value p s o (disable uci m c).2 ≡ uci.value p s o c
    unfolding disable
    disable-IsKept m c = elim (Bool-cases (delete_setup uci c).0) [
      | inr e ↦ rw e (delete_setup-IsKept c)
      | inl e ↦ elim (Bool-cases m.uplink_active) [
        | inr n ↦ rw (e, n) (commit_and_reload-IsKept _ ∙ delete_setup-IsKept c)
        | inl a ↦ elim (Bool-cases (delete_uplink uci (delete_setup uci c).1).0) [
          | inl d ↦
              rw (e, a, d)
                (commit_and_reload-IsKept _ ∙ delete_uplink-IsKept _ ∙ delete_setup-IsKept c)
          | inr d ↦ rw (e, a, d) (delete_uplink-IsKept _ ∙ delete_setup-IsKept c)
        ]
      ]
    ]

  run_call-cfg : (x : Call) (m : Manager) (c : uci.Config) → (run_call x m c).1.cfg ≡ m.cfg
  unfolding run_call enable_uplink disable
  run_call-cfg (enables node_id) m c = refl
  run_call-cfg (enables_uplink name key) m c =
      elim (Bool-cases (author_uplink uci m.cfg name key c).0) [
        | inl e ↦ rw e refl
        | inr e ↦ rw e refl
      ]
  run_call-cfg disables m c = elim (Bool-cases (delete_setup uci c).0) [
    | inr e ↦ rw e refl
    | inl e ↦ elim (Bool-cases m.uplink_active) [
      | inr n ↦ rw (e, n) refl
      | inl a ↦ elim (Bool-cases (delete_uplink uci (delete_setup uci c).1).0) [
        | inl d ↦ rw (e, a, d) refl
        | inr d ↦ rw (e, a, d) refl
      ]
    ]
  ]

  run_call-kept :
      (x : Call) (m : Manager) (c : uci.Config) (p s o : String)
      → owns m.cfg p s o ≡ false
      → uci.value p s o (run_call x m c).2 ≡ uci.value p s o c
  unfolding run_call enable_uplink
  run_call-kept (enables node_id) m c p s o h = enable-IsKept m.cfg p s o h node_id c
  run_call-kept (enables_uplink name key) m c p s o h =
      author_uplink-IsKept m.cfg p s o h name key c
  run_call-kept disables m c p s o h = disable-IsKept m.cfg p s o h m c

  -- Any sequence of Enable, EnableUplink and Disable, whichever of them fail, leaves every
  -- option that is not of one of the five sections of the access point and the uplink, nor
  -- whether the radio is disabled.
  pub run_calls_kept :
      (xs : List Call) (m : Manager) (c : uci.Config) (p s o : String)
      → owns m.cfg p s o ≡ false
      → uci.value p s o (run_calls xs m c).1 ≡ uci.value p s o c
  unfolding run_calls
  run_calls_kept [] m c p s o h = refl
  run_calls_kept (x ∷ xs) m c p s o h =
      let still : owns (run_call x m c).1.cfg p s o ≡ false = rw (run_call-cfg x m c) h in
      run_calls_kept xs (run_call x m c).1 (run_call x m c).2 p s o still
      ∙ run_call-kept x m c p s o h
