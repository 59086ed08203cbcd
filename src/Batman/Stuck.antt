-- ===== src/Batman/Stuck.antt =====
-- Where `ReleasePort` fails.
use omm.Prelude.{
  String, ◌≡◌, refl, ◌∙◌, true, false, ◌==◌, Option, none, some, Bool-cases, inl, inr,
}
use omm.Uci.{Uci}
use omm.Uci.Action.{IsStable, seq-ok, seq-IsStable}
use omm.Uci.Gone.{delete-StaysGone}
use omm.Batman.Removed.{IsGone, unbridge-IsStable, bridge-IsStable, release_port-IsReleased}
use omm.Batman.Mac.{Formats}
use omm.Batman.{
  Config, wired_hardif, device_section, mac_override, unbridge, bridge, author_mac, delete_mac,
  enslave_port, release_port, wired_values,
}

module _ (uci : Uci) (formats : Formats) (cfg : Config) where
  -- Releasing a port fails without its hard interface, and without the section of its MAC.
  release_absent :
      (port : String) (c : uci.Config)
      → IsGone uci (wired_hardif cfg port) c
      → (release_port uci formats cfg port c).0 ≡ false
  unfolding release_port
  release_absent port c gone = elim (Bool-cases (release_port uci formats cfg port c).0) [
    | inr e ↦ e
    | inl e ↦
        let (_, ok1, e1) = seq-ok uci (bridge uci formats cfg port) _ c e in
        let c1 = (bridge uci formats cfg port c).1 in
        let (del, _, e2) =
          seq-ok uci (uci.delete "network" (wired_hardif cfg port))
            (delete_mac uci formats cfg port) c1 ok1 in
        let fails =
          uci.delete_absent "network" (wired_hardif cfg port) c1
            (bridge-IsStable uci formats cfg (wired_hardif cfg port) port c ∙ gone) in
        cc (rw fails at del)
  ]

  pub release_twice :
      (port : String) (c : uci.Config)
      → (release_port uci formats cfg port c).0 ≡ true
      → (release_port uci formats cfg port (release_port uci formats cfg port c).1).0 ≡ false
  release_twice port c ok =
      release_absent port (release_port uci formats cfg port c).1
        (release_port-IsReleased uci formats cfg port c ok).0

  release_no_mac :
      (port : String) (read : String → Option String) (c : uci.Config)
      → cfg.mac ≡ some read
      → IsGone uci (device_section port) c
      → (release_port uci formats cfg port c).0 ≡ false
  unfolding release_port delete_mac
  release_no_mac port read c mac gone = elim (Bool-cases (release_port uci formats cfg port c).0) [
    | inr e ↦ e
    | inl e ↦
        let (ok, ok1, e1) = seq-ok uci (bridge uci formats cfg port) _ c e in
        let c1 = (bridge uci formats cfg port c).1 in
        let (del, ok2, e2) =
          seq-ok uci (uci.delete "network" (wired_hardif cfg port))
            (delete_mac uci formats cfg port) c1 ok1 in
        let c2 = (uci.delete "network" (wired_hardif cfg port) c1).1 in
        let still =
          delete-StaysGone uci "network" (device_section port) (wired_hardif cfg port) c1 del
            (bridge-IsStable uci formats cfg (device_section port) port c ∙ gone) in
        let fails = uci.delete_absent "network" (device_section port) c2 still in
        let ok3 : (uci.delete "network" (device_section port) c2).0 ≡ true = rw mac at ok2 in
        cc (rw fails at ok3)
  ]

  unread-none :
      (port : String) (read : String → Option String)
      → cfg.mac ≡ some read
      → read port ≡ none
      → mac_override formats cfg port ≡ none
  unfolding mac_override
  unread-none port read mac unread = rw mac (rw unread refl)

  enslave-IsStable :
      (port s : String)
      → mac_override formats cfg port ≡ none
      → (s == wired_hardif cfg port) ≡ false
      → IsStable uci "network" s (enslave_port uci formats cfg port)
  unfolding enslave_port author_mac
  enslave-IsStable port s unset other =
      seq-IsStable uci "network" s _ _
        (λ c.
          uci.set_section_sections "network" (wired_hardif cfg port) "interface"
            (wired_values cfg port) c "network" s other)
        (seq-IsStable uci "network" s (unbridge uci formats cfg port)
          (author_mac uci formats cfg port) (unbridge-IsStable uci formats cfg s port)
          (rw (unset, author_mac) (λ c. refl)))

  -- If MACs are read and that of a port cannot be read, and the port has no section of a MAC,
  -- whose name is not that of its hard interface, then ReleasePort after EnslavePort fails.
  pub release_without_mac :
      (port : String) (read : String → Option String) (c : uci.Config)
      → cfg.mac ≡ some read
      → read port ≡ none
      → (device_section port == wired_hardif cfg port) ≡ false
      → IsGone uci (device_section port) c
      → (release_port uci formats cfg port (enslave_port uci formats cfg port c).1).0 ≡ false
  release_without_mac port read c mac unread other gone =
      release_no_mac port read (enslave_port uci formats cfg port c).1 mac (
        enslave-IsStable port (device_section port) (unread-none port read mac unread) other c
        ∙ gone)
