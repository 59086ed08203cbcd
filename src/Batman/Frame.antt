-- ===== src/Batman/Frame.antt =====
-- What the calls leave alone.
use omm.Prelude.{
  String, ◌≡◌, refl, ◌∙◌, Bool, false, ◌&&◌, ◌||◌, ◌==◌, List, [], ◌∷◌, All, All-map_of, Bool-cases,
  Option-cases, inl, inr, arith,
}
use omm.Uci.{Uci, Values, is_same, is_at}
use omm.Uci.Action.{Action, IsKept, seq-IsKept, each-IsKept}
use omm.Batman.Mac.{Formats}
use omm.Batman.{
  Config, mesh_hardif, wired_hardif, device_section, mac_override, unbridge, bridge, author_mac,
  delete_mac, enslave_port, release_port, apply, teardown, soft_values, mesh_values, wired_values,
  device_values,
}
use omm.Batman.Sections.{owns_section}

-- A call of the manager.
pub data Call : Type 0 where
  applies : Call
  enslaves : String → Call
  releases : String → Call
  tears_down : Call

-- The wired ports that the call is about.
unfoldable pub ports_of : Config → Call → List String
ports_of cfg applies = cfg.wired_ports
ports_of cfg (enslaves port) = port ∷ []
ports_of cfg (releases port) = port ∷ []
ports_of cfg tears_down = cfg.wired_ports

-- The option is of a section that the layer authors for these ports, or the ports of the LAN bridge.
unfoldable pub owns : Config → List String → String → String → String → Bool
owns cfg ports p s o =
    (p == "network") && (owns_section cfg ports s || ((s == cfg.lan_device) && (o == "ports")))

module _ (uci : Uci) (formats : Formats) (cfg : Config) where
  unfoldable pub run_call : Call → Action uci
  run_call applies = apply uci formats cfg
  run_call (enslaves port) = enslave_port uci formats cfg port
  run_call (releases port) = release_port uci formats cfg port
  run_call tears_down = teardown uci formats cfg

  module _ (p s o : String) where
    -- The option is not the ports of the LAN bridge.
    abbrev IsOffBridge : Type 0
    IsOffBridge = is_at p s o "network" cfg.lan_device "ports" ≡ false

    -- The option is not one of that section.
    abbrev IsOff : String → Type 0
    IsOff sec = is_same p s "network" sec ≡ false

    abbrev IsOffPort : String → Type 0
    IsOffPort port = IsOff (wired_hardif cfg port) × IsOff (device_section port)

    set-IsKept :
        (sec type : String) (values : Values)
        → IsOff sec
        → IsKept uci p s o (uci.set_section "network" sec type values)
    set-IsKept sec type values off c = uci.set_section_other "network" sec type values c p s o off

    delete-IsKept : (sec : String) → IsOff sec → IsKept uci p s o (uci.delete "network" sec)
    delete-IsKept sec off c = uci.delete_other "network" sec c p s o off

    module _ (off : IsOffBridge) where
      unbridge-IsKept : (dev : String) → IsKept uci p s o (unbridge uci formats cfg dev)
      unfolding unbridge
      unbridge-IsKept dev c = elim (Bool-cases (cfg.lan_device == "")) [
        | inl e ↦ rw e refl
        | inr e ↦ rw e (uci.del_list_item_other "network" cfg.lan_device "ports" dev c p s o off)
      ]

      bridge-IsKept : (dev : String) → IsKept uci p s o (bridge uci formats cfg dev)
      unfolding bridge
      bridge-IsKept dev = elim (Bool-cases (cfg.lan_device == "")) [
        | inl e ↦ rw e (λ c. refl)
        | inr e ↦ rw e (
            seq-IsKept uci p s o (uci.del_list_item "network" cfg.lan_device "ports" dev)
              (uci.add_list_item "network" cfg.lan_device "ports" dev)
              (λ c. uci.del_list_item_other "network" cfg.lan_device "ports" dev c p s o off)
              (λ c. uci.add_list_item_other "network" cfg.lan_device "ports" dev c p s o off))
      ]

      author_mac-IsKept :
          (port : String)
          → IsOff (device_section port)
          → IsKept uci p s o (author_mac uci formats cfg port)
      unfolding author_mac
      author_mac-IsKept port h = elim (Option-cases (mac_override formats cfg port)) [
        | inl e ↦ rw (e, author_mac) (λ c. refl)
        | inr (uniq, e) ↦
            rw (e, author_mac)
              (set-IsKept (device_section port) "device" (device_values port uniq) h)
      ]

      delete_mac-IsKept :
          (port : String)
          → IsOff (device_section port)
          → IsKept uci p s o (delete_mac uci formats cfg port)
      unfolding delete_mac
      delete_mac-IsKept port h = elim (Option-cases cfg.mac) [
        | inl e ↦ rw e (λ c. refl)
        | inr (read, e) ↦ rw e (delete-IsKept (device_section port) h)
      ]

      enslave_port-IsKept :
          (port : String) → IsOffPort port → IsKept uci p s o (enslave_port uci formats cfg port)
      unfolding enslave_port
      enslave_port-IsKept port h =
          seq-IsKept uci p s o _ _
            (set-IsKept (wired_hardif cfg port) "interface" (wired_values cfg port) h.0)
            (seq-IsKept uci p s o _ _ (unbridge-IsKept port) (author_mac-IsKept port h.1))

      release_port-IsKept :
          (port : String) → IsOffPort port → IsKept uci p s o (release_port uci formats cfg port)
      unfolding release_port
      release_port-IsKept port h = seq-IsKept uci p s o _ _ (bridge-IsKept port) (
          seq-IsKept uci p s o _ _ (delete-IsKept (wired_hardif cfg port) h.0)
            (delete_mac-IsKept port h.1))

      module _ (ports : All IsOffPort cfg.wired_ports) (soft : IsOff cfg.iface)
          (mesh : IsOff (mesh_hardif cfg)) where
        apply-IsKept : IsKept uci p s o (apply uci formats cfg)
        unfolding apply
        apply-IsKept =
            seq-IsKept uci p s o _ _ (set-IsKept cfg.iface "interface" (soft_values cfg) soft) (
              seq-IsKept uci p s o _ _
                (set-IsKept (mesh_hardif cfg) "interface" (mesh_values cfg) mesh)
                (seq-IsKept uci p s o _ _
                  (each-IsKept uci p s o (enslave_port uci formats cfg) cfg.wired_ports (
                    All-map_of IsOffPort (λ x. IsKept uci p s o (enslave_port uci formats cfg x))
                      cfg.wired_ports enslave_port-IsKept ports))
                  (bridge-IsKept cfg.iface)))

        teardown-IsKept : IsKept uci p s o (teardown uci formats cfg)
        unfolding teardown
        teardown-IsKept = seq-IsKept uci p s o _ _ (unbridge-IsKept cfg.iface) (
            seq-IsKept uci p s o _ _
              (each-IsKept uci p s o (release_port uci formats cfg) cfg.wired_ports (
                All-map_of IsOffPort (λ x. IsKept uci p s o (release_port uci formats cfg x))
                  cfg.wired_ports release_port-IsKept ports))
              (each-IsKept uci p s o (uci.delete "network") (mesh_hardif cfg ∷ cfg.iface ∷ [])
                (delete-IsKept (mesh_hardif cfg) mesh, (delete-IsKept cfg.iface soft, tt))))

    ports_outside : (ps : List String) → owns cfg ps p s o ≡ false → All IsOffPort ps
    unfolding owns owns_section
    ports_outside [] h = tt
    ports_outside (x ∷ xs) h =
        ((ground (arith, h), ground (arith, h)), ports_outside xs (ground (arith, h)))

    soft_outside :
        (ps : List String) → owns cfg ps p s o ≡ false → IsOff cfg.iface × IsOff (mesh_hardif cfg)
    unfolding owns owns_section
    soft_outside [] h = (ground (arith, h), ground (arith, h))
    soft_outside (x ∷ xs) h = soft_outside xs (ground (arith, h))

    bridge_outside : (ps : List String) → owns cfg ps p s o ≡ false → IsOffBridge
    unfolding owns
    bridge_outside ps h = ground (arith, h)

    run_call_kept :
        (x : Call) (c : uci.Config)
        → owns cfg (ports_of cfg x) p s o ≡ false
        → uci.value p s o (run_call x c).1 ≡ uci.value p s o c
    unfolding run_call ports_of
    run_call_kept applies c h =
        let (soft, mesh) = soft_outside cfg.wired_ports h in
        apply-IsKept (bridge_outside cfg.wired_ports h) (ports_outside cfg.wired_ports h) soft mesh
          c
    run_call_kept (enslaves port) c h =
        enslave_port-IsKept (bridge_outside (port ∷ []) h) port (ports_outside (port ∷ []) h).0 c
    run_call_kept (releases port) c h =
        release_port-IsKept (bridge_outside (port ∷ []) h) port (ports_outside (port ∷ []) h).0 c
    run_call_kept tears_down c h =
        let (soft, mesh) = soft_outside cfg.wired_ports h in
        teardown-IsKept (bridge_outside cfg.wired_ports h) (ports_outside cfg.wired_ports h) soft
          mesh c

  pub applied_layer :
      (p s o : String)
      → owns cfg cfg.wired_ports p s o ≡ false
      → IsKept uci p s o (apply uci formats cfg)
  unfolding run_call ports_of
  applied_layer p s o h c = run_call_kept p s o applies c h

  pub torn_layer :
      (p s o : String)
      → owns cfg cfg.wired_ports p s o ≡ false
      → IsKept uci p s o (teardown uci formats cfg)
  unfolding run_call ports_of
  torn_layer p s o h c = run_call_kept p s o tears_down c h

  -- The configuration after some calls, whichever of them fail.
  unfoldable pub run_calls : List Call → uci.Config → uci.Config
  unfolding run_call
  run_calls [] c = c
  run_calls (x ∷ xs) c = run_calls xs (run_call x c).1

  -- Any sequence of Apply, EnslavePort, ReleasePort and Teardown, whichever of them fail,
  -- leaves every option that is not the ports of the LAN bridge and not of a section of bat0,
  -- of the mesh, or of a wired port of one of the calls or its MAC.
  pub batman_calls_kept :
      (xs : List Call) (c : uci.Config) (p s o : String)
      → All (λ x. owns cfg (ports_of cfg x) p s o ≡ false) xs
      → uci.value p s o (run_calls xs c) ≡ uci.value p s o c
  unfolding run_calls
  batman_calls_kept [] c p s o h = refl
  batman_calls_kept (x ∷ xs) c p s o h =
      batman_calls_kept xs (run_call x c).1 p s o h.1 ∙ run_call_kept p s o x c h.0
