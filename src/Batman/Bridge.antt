-- ===== src/Batman/Bridge.antt =====
-- What the calls make of the ports of the LAN bridge.
use omm.Prelude.{
  String, ◌≡◌, refl, ◌∙◌, Bool, true, false, not, ◌&&◌, ◌||◌, ◌==◌, [], ◌∷◌, All, All-map_of,
  Option-cases, inl, inr, arith,
}
use omm.Uci.{Uci, Values, has_item}
use omm.Uci.Action.{Action, seq}
use omm.Uci.Members.{
  is_member, Turns, seq-Turns, each-Turns, add-Turns, del-Turns, kept-Turns, folded, folded_removed,
  folded_added,
}
use omm.Batman.Mac.{Formats}
use omm.Batman.{
  Config, mesh_hardif, wired_hardif, device_section, mac_override, unbridge, bridge, author_mac,
  delete_mac, enslave_port, release_port, apply, teardown, soft_values, mesh_values, wired_values,
  device_values,
}
use omm.Batman.Sections.{owns_section, IsApart, ports-IsApart, soft_apart}

module _ (uci : Uci) (formats : Formats) (cfg : Config) (w : String) where
  -- `w` is a port of the LAN bridge.
  abbrev pub in_lan : uci.Config → Bool
  in_lan c = is_member uci "network" cfg.lan_device "ports" w c

  abbrev pub TurnsLan : Action uci → (Bool → Bool) → Type 0
  TurnsLan act f = Turns uci "network" cfg.lan_device "ports" w act f

  module _ (named : (cfg.lan_device == "") ≡ false) where
    unbridge-TurnsLan :
        (dev : String) → TurnsLan (unbridge uci formats cfg dev) (λ b. not (dev == w) && b)
    unfolding unbridge
    unbridge-TurnsLan dev = rw named (del-Turns uci "network" cfg.lan_device "ports" w dev)

    bridge-TurnsLan :
        (dev : String)
        → TurnsLan (bridge uci formats cfg dev) (λ b. (dev == w) || (not (dev == w) && b))
    unfolding bridge
    bridge-TurnsLan dev = rw named (
        seq-Turns uci "network" cfg.lan_device "ports" w
          (uci.del_list_item "network" cfg.lan_device "ports" dev)
          (uci.add_list_item "network" cfg.lan_device "ports" dev) (λ b. not (dev == w) && b)
          (λ b. (dev == w) || b) (del-Turns uci "network" cfg.lan_device "ports" w dev)
          (add-Turns uci "network" cfg.lan_device "ports" w dev))

    seq-TurnsLan :
        (a b : Action uci) (f g : Bool → Bool)
        → TurnsLan a f
        → TurnsLan b g
        → TurnsLan (seq uci a b) (λ x. g (f x))
    seq-TurnsLan a b f g = seq-Turns uci "network" cfg.lan_device "ports" w a b f g

    set-TurnsLan :
        (sec type : String) (values : Values)
        → (cfg.lan_device == sec) ≡ false
        → TurnsLan (uci.set_section "network" sec type values) (λ b. b)
    set-TurnsLan sec type values apart =
        kept-Turns uci "network" cfg.lan_device "ports" w
          (uci.set_section "network" sec type values)
          (λ c.
            uci.set_section_other "network" sec type values c "network" cfg.lan_device "ports"
              apart)

    delete-TurnsLan :
        (sec : String)
        → (cfg.lan_device == sec) ≡ false
        → TurnsLan (uci.delete "network" sec) (λ b. b)
    delete-TurnsLan sec apart =
        kept-Turns uci "network" cfg.lan_device "ports" w (uci.delete "network" sec)
          (λ c. uci.delete_other "network" sec c "network" cfg.lan_device "ports" apart)

    author_mac-TurnsLan :
        (port : String)
        → (cfg.lan_device == device_section port) ≡ false
        → TurnsLan (author_mac uci formats cfg port) (λ b. b)
    unfolding author_mac
    author_mac-TurnsLan port apart = elim (Option-cases (mac_override formats cfg port)) [
      | inl e ↦ rw (e, author_mac) (λ c ok. refl)
      | inr (uniq, e) ↦
          rw (e, author_mac)
            (set-TurnsLan (device_section port) "device" (device_values port uniq) apart)
    ]

    delete_mac-TurnsLan :
        (port : String)
        → (cfg.lan_device == device_section port) ≡ false
        → TurnsLan (delete_mac uci formats cfg port) (λ b. b)
    unfolding delete_mac
    delete_mac-TurnsLan port apart = elim (Option-cases cfg.mac) [
      | inl e ↦ rw e (λ c ok. refl)
      | inr (read, e) ↦ rw e (delete-TurnsLan (device_section port) apart)
    ]

    enslave_port-TurnsLan :
        (port : String)
        → IsApart cfg cfg.lan_device port
        → TurnsLan (enslave_port uci formats cfg port) (λ b. not (port == w) && b)
    unfolding enslave_port
    enslave_port-TurnsLan port apart =
        seq-TurnsLan _ _ (λ b. b) (λ b. not (port == w) && b)
          (set-TurnsLan (wired_hardif cfg port) "interface" (wired_values cfg port) apart.0)
          (seq-TurnsLan _ _ (λ b. not (port == w) && b) (λ b. b) (unbridge-TurnsLan port)
            (author_mac-TurnsLan port apart.1))

    release_port-TurnsLan :
        (port : String)
        → IsApart cfg cfg.lan_device port
        → TurnsLan (release_port uci formats cfg port) (λ b. (port == w) || (not (port == w) && b))
    unfolding release_port
    release_port-TurnsLan port apart =
        seq-TurnsLan _ _ (λ b. (port == w) || (not (port == w) && b)) (λ b. b)
          (bridge-TurnsLan port)
          (seq-TurnsLan _ _ (λ b. b) (λ b. b) (delete-TurnsLan (wired_hardif cfg port) apart.0)
            (delete_mac-TurnsLan port apart.1))

    module _ (free : owns_section cfg cfg.wired_ports cfg.lan_device ≡ false) where
      abbrev ports_apart : All (IsApart cfg cfg.lan_device) cfg.wired_ports
      ports_apart = ports-IsApart cfg cfg.lan_device cfg.wired_ports free

      apply-TurnsLan : TurnsLan (apply uci formats cfg) (λ b.
          let b' = folded (λ x y. not (x == w) && y) cfg.wired_ports b in
          (cfg.iface == w) || (not (cfg.iface == w) && b'))
      unfolding apply
      apply-TurnsLan =
          let (apart, mesh) = soft_apart cfg cfg.lan_device cfg.wired_ports free in
          let after : Bool → Bool = λ b.
            (cfg.iface == w)
            || (not (cfg.iface == w) && folded (λ x y. not (x == w) && y) cfg.wired_ports b) in
          seq-TurnsLan _ _ (λ b. b) after
            (set-TurnsLan cfg.iface "interface" (soft_values cfg) apart)
            (seq-TurnsLan _ _ (λ b. b) after
              (set-TurnsLan (mesh_hardif cfg) "interface" (mesh_values cfg) mesh)
              (seq-TurnsLan _ _ (folded (λ x y. not (x == w) && y) cfg.wired_ports)
                (λ b. (cfg.iface == w) || (not (cfg.iface == w) && b))
                (each-Turns uci "network" cfg.lan_device "ports" w (enslave_port uci formats cfg)
                  (λ x y. not (x == w) && y) cfg.wired_ports
                  (All-map_of (IsApart cfg cfg.lan_device)
                    (λ p. TurnsLan (enslave_port uci formats cfg p) (λ b. not (p == w) && b))
                    cfg.wired_ports enslave_port-TurnsLan ports_apart))
                (bridge-TurnsLan cfg.iface)))

      teardown-TurnsLan : TurnsLan (teardown uci formats cfg) (λ b.
          folded
            (λ x y. (x == w) || (not (x == w) && y))
            cfg.wired_ports
            (not (cfg.iface == w) && b))
      unfolding teardown
      teardown-TurnsLan =
          let (apart, mesh) = soft_apart cfg cfg.lan_device cfg.wired_ports free in
          seq-TurnsLan _ _ (λ b. not (cfg.iface == w) && b)
            (folded (λ x y. (x == w) || (not (x == w) && y)) cfg.wired_ports)
            (unbridge-TurnsLan cfg.iface)
            (seq-TurnsLan _ _ (folded (λ x y. (x == w) || (not (x == w) && y)) cfg.wired_ports)
              (λ b. b)
              (each-Turns uci "network" cfg.lan_device "ports" w (release_port uci formats cfg)
                (λ x y. (x == w) || (not (x == w) && y)) cfg.wired_ports
                (All-map_of (IsApart cfg cfg.lan_device)
                  (λ p.
                    TurnsLan (release_port uci formats cfg p)
                      (λ b. (p == w) || (not (p == w) && b)))
                  cfg.wired_ports release_port-TurnsLan ports_apart))
              (each-Turns uci "network" cfg.lan_device "ports" w (uci.delete "network") (λ x y. y)
                (mesh_hardif cfg ∷ cfg.iface ∷ [])
                (delete-TurnsLan (mesh_hardif cfg) mesh, (delete-TurnsLan cfg.iface apart, tt))))

      apply_ports :
          (c : uci.Config)
          → (apply uci formats cfg c).0 ≡ true
          → in_lan (apply uci formats cfg c).1
            ≡ ((cfg.iface == w) || (not (has_item w cfg.wired_ports) && in_lan c))
      apply_ports c ok =
          ground (arith, apply-TurnsLan c ok, folded_removed w cfg.wired_ports (in_lan c))

      teardown_ports :
          (c : uci.Config)
          → (teardown uci formats cfg c).0 ≡ true
          → in_lan (teardown uci formats cfg c).1
            ≡ (has_item w cfg.wired_ports || (not (cfg.iface == w) && in_lan c))
      teardown_ports c ok =
          teardown-TurnsLan c ok ∙ folded_added w cfg.wired_ports (not (cfg.iface == w) && in_lan c)

      -- If the LAN bridge is configured and is not one of the sections of the layer, a
      -- successful Apply leaves bat0 and the earlier ports of the bridge but the wired ports
      -- of the backhaul in it, and a successful Teardown leaves the wired ports and the
      -- earlier ones but bat0.
      pub lan_ports :
          (c d : uci.Config)
          → (apply uci formats cfg c).0 ≡ true
          → (teardown uci formats cfg d).0 ≡ true
          → (in_lan (apply uci formats cfg c).1
              ≡ ((cfg.iface == w) || (not (has_item w cfg.wired_ports) && in_lan c)))
            × (in_lan (teardown uci formats cfg d).1
                ≡ (has_item w cfg.wired_ports || (not (cfg.iface == w) && in_lan d)))
      lan_ports c d ok ok' = (apply_ports c ok, teardown_ports d ok')

    pub release_enslaved_ports :
        (port : String) (c : uci.Config)
        → IsApart cfg cfg.lan_device port
        → (enslave_port uci formats cfg port c).0 ≡ true
        → (release_port uci formats cfg port (enslave_port uci formats cfg port c).1).0 ≡ true
        → in_lan (release_port uci formats cfg port (enslave_port uci formats cfg port c).1).1
          ≡ ((port == w) || in_lan c)
    release_enslaved_ports port c apart first second = ground (
      arith,
      enslave_port-TurnsLan port apart c first,
      release_port-TurnsLan port apart (enslave_port uci formats cfg port c).1 second,
    )
