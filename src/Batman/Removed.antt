-- ===== src/Batman/Removed.antt =====
-- Which sections `Teardown` and `ReleasePort` delete.
use omm.Prelude.{
  String, ◌≡◌, refl, ◌∙◌, Bool, true, false, ◌==◌, ◌&&◌, Option, none, some, List, [], ◌∷◌, All,
  All-map_of, Bool-cases, Option-cases, inl, inr, sym,
}
use mathlib.Core.Path.{subst}
use omm.Uci.{Uci}
use omm.Uci.Action.{Action, IsStable, seq, seq-ok, seq-IsStable, each}
use omm.Uci.Gone
use omm.Uci.Gone.{seq-StaysGone, stable-StaysGone, delete-StaysGone, each-StaysGone}
use omm.Batman.Mac.{Formats}
use omm.Batman.{
  Config, mesh_hardif, wired_hardif, device_section, unbridge, bridge, delete_mac, release_port,
  teardown,
}

module _ (uci : Uci) where
  abbrev pub IsGone : String → uci.Config → Type 0
  IsGone = Gone.IsGone uci "network"

  abbrev pub StaysGone : String → Action uci → Type 0
  StaysGone = Gone.StaysGone uci "network"

  module _ (formats : Formats) (cfg : Config) where
    pub unbridge-IsStable :
        (s dev : String) → IsStable uci "network" s (unbridge uci formats cfg dev)
    unfolding unbridge
    unbridge-IsStable s dev c = elim (Bool-cases (cfg.lan_device == "")) [
      | inl e ↦ rw e refl
      | inr e ↦ rw e (uci.del_list_item_sections "network" cfg.lan_device "ports" dev c "network" s)
    ]

    pub bridge-IsStable : (s dev : String) → IsStable uci "network" s (bridge uci formats cfg dev)
    unfolding bridge
    bridge-IsStable s dev = elim (Bool-cases (cfg.lan_device == "")) [
      | inl e ↦ rw e (λ c. refl)
      | inr e ↦ rw e (
          seq-IsStable uci "network" s (uci.del_list_item "network" cfg.lan_device "ports" dev)
            (uci.add_list_item "network" cfg.lan_device "ports" dev)
            (λ c. uci.del_list_item_sections "network" cfg.lan_device "ports" dev c "network" s)
            (λ c. uci.add_list_item_sections "network" cfg.lan_device "ports" dev c "network" s))
    ]

    delete_mac-StaysGone : (s port : String) → StaysGone s (delete_mac uci formats cfg port)
    unfolding delete_mac
    delete_mac-StaysGone s port = elim (Option-cases cfg.mac) [
      | inl e ↦ rw e (λ c ok gone. gone)
      | inr (read, e) ↦ rw e (delete-StaysGone uci "network" s (device_section port))
    ]

    release_port-StaysGone : (s port : String) → StaysGone s (release_port uci formats cfg port)
    unfolding release_port
    release_port-StaysGone s port =
        seq-StaysGone uci "network" s _ _
          (stable-StaysGone uci "network" s _ (bridge-IsStable s port))
          (seq-StaysGone uci "network" s _ _
            (delete-StaysGone uci "network" s (wired_hardif cfg port))
            (delete_mac-StaysGone s port))

    abbrev pub reads_mac : Bool
    reads_mac = elim cfg.mac [ none ↦ false | some read ↦ true ]

    -- A port's hard interface is gone and, if MACs are read, its MAC.
    abbrev pub IsReleased : uci.Config → String → Type 0
    IsReleased c port =
        IsGone (wired_hardif cfg port) c
        × ((reads_mac && uci.has_section "network" (device_section port) c) ≡ false)

    -- A section that is gone if MACs are read.
    unless_mac :
        (s : String) (c : uci.Config)
        → ((read : String → Option String) → cfg.mac ≡ some read → IsGone s c)
        → (reads_mac && uci.has_section "network" s c) ≡ false
    unless_mac s c h = elim (Option-cases cfg.mac) [
      | inl e ↦ rw e refl
      | inr (read, e) ↦ rw e (h read e)
    ]

    from_mac :
        (s : String) (c : uci.Config) (read : String → Option String)
        → (reads_mac && uci.has_section "network" s c) ≡ false
        → cfg.mac ≡ some read
        → IsGone s c
    from_mac s c read h e = rw e at h

    pub release_port-IsReleased :
        (port : String) (c : uci.Config)
        → (release_port uci formats cfg port c).0 ≡ true
        → IsReleased (release_port uci formats cfg port c).1 port
    unfolding release_port delete_mac
    release_port-IsReleased port c ok =
        let c1 = (bridge uci formats cfg port c).1 in
        let (_, ok1, e1) = seq-ok uci (bridge uci formats cfg port) _ c ok in
        let (del, ok2, e2) =
          seq-ok uci (uci.delete "network" (wired_hardif cfg port))
            (delete_mac uci formats cfg port) c1 ok1 in
        let c2 = (uci.delete "network" (wired_hardif cfg port) c1).1 in
        rw (e1, e2)
          (
            delete_mac-StaysGone (wired_hardif cfg port) port c2 ok2
                (uci.delete_gone "network" (wired_hardif cfg port) c1 del),
            unless_mac (device_section port) (delete_mac uci formats cfg port c2).1 (λ read mac.
                rw mac (uci.delete_gone "network" (device_section port) c2 (rw mac at ok2))),
          )

    -- What is released stays so in an action that brings no section back.
    IsReleased-kept :
        (act : Action uci) (ports : List String) (c : uci.Config)
        → ((s : String) → StaysGone s act)
        → (act c).0 ≡ true
        → All (IsReleased c) ports
        → All (IsReleased (act c).1) ports
    IsReleased-kept act ports c stays ok =
        All-map_of (IsReleased c) (IsReleased (act c).1) ports (λ p h. (
          stays (wired_hardif cfg p) c ok h.0,
          unless_mac (device_section p) (act c).1 (λ read mac.
              stays (device_section p) c ok (from_mac (device_section p) c read h.1 mac)),
        ))

    each-IsReleased :
        (ports : List String) (c : uci.Config)
        → (each uci (release_port uci formats cfg) ports c).0 ≡ true
        → All (IsReleased (each uci (release_port uci formats cfg) ports c).1) ports
    unfolding each
    each-IsReleased [] c ok = tt
    each-IsReleased (p ∷ ps) c ok =
        let (first, rest, e) =
          seq-ok uci (release_port uci formats cfg p) (each uci (release_port uci formats cfg) ps) c
            ok in
        let c1 = (release_port uci formats cfg p c).1 in
        let later = each-IsReleased ps c1 rest in
        let mine =
          IsReleased-kept (each uci (release_port uci formats cfg) ps) (p ∷ []) c1
            (λ s.
              each-StaysGone uci "network" s (release_port uci formats cfg) ps
                (release_port-StaysGone s))
            rest (release_port-IsReleased p c first, tt) in
        subst (λ (r : Bool × uci.Config). All (IsReleased r.1) (p ∷ ps)) (sym e) (mine.0, later)

    -- After a successful Teardown the sections of bat0, of the mesh and of each wired port are
    -- gone and, if MACs are read, those of the MACs of the wired ports.
    pub teardown_removes :
        (c : uci.Config)
        → (teardown uci formats cfg c).0 ≡ true
        → IsGone cfg.iface (teardown uci formats cfg c).1
          × IsGone (mesh_hardif cfg) (teardown uci formats cfg c).1
          × All (IsReleased (teardown uci formats cfg c).1) cfg.wired_ports
    unfolding teardown each
    teardown_removes c ok =
        let releases = each uci (release_port uci formats cfg) cfg.wired_ports in
        let deletes = each uci (uci.delete "network") (mesh_hardif cfg ∷ cfg.iface ∷ []) in
        let (_, ok1, e1) =
          seq-ok uci (unbridge uci formats cfg cfg.iface) (seq uci releases deletes) c ok in
        let c1 = (unbridge uci formats cfg cfg.iface c).1 in
        let (ok2, ok3, e2) = seq-ok uci releases deletes c1 ok1 in
        let c2 = (releases c1).1 in
        let (ok4, ok5, e3) =
          seq-ok uci (uci.delete "network" (mesh_hardif cfg))
            (each uci (uci.delete "network") (cfg.iface ∷ [])) c2 ok3 in
        let c3 = (uci.delete "network" (mesh_hardif cfg) c2).1 in
        let (ok6, _, e4) =
          seq-ok uci (uci.delete "network" cfg.iface) (each uci (uci.delete "network") []) c3 ok5 in
        let ports =
          IsReleased-kept deletes cfg.wired_ports c2
            (λ s.
              each-StaysGone uci "network" s (uci.delete "network")
                (mesh_hardif cfg ∷ cfg.iface ∷ []) (delete-StaysGone uci "network" s))
            ok3 (each-IsReleased cfg.wired_ports c1 ok2) in
        subst
          (λ (r : Bool × uci.Config).
            IsGone cfg.iface r.1
            × IsGone (mesh_hardif cfg) r.1
            × All (IsReleased r.1) cfg.wired_ports)
          (sym (e1 ∙ e2 ∙ e3 ∙ e4))
          (
            uci.delete_gone "network" cfg.iface c3 ok6,
            delete-StaysGone uci "network" (mesh_hardif cfg) cfg.iface c3 ok6
                (uci.delete_gone "network" (mesh_hardif cfg) c2 ok4),
            subst (λ (r : Bool × uci.Config). All (IsReleased r.1) cfg.wired_ports) (e3 ∙ e4) ports,
          )
