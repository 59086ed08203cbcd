-- ===== src/Backhaul/Uplink/Learned.antt =====
-- Where the port that was found comes from.
use mathlib.Core.Path.{subst}
use text.Mathlib.Text.{starts_with}
use omm.Prelude.{
  String, Bool, true, false, ◌≡◌, refl, Bool-cases, Option-cases, inl, inr, some, List, [], ◌∷◌,
  ◌==◌, ◌||◌, ◌&&◌, any_by, arith, eq_iff, eq_refl,
}
use omm.Strings.{Strings}
use omm.Backhaul.Uplink.{
  Addresses, UplinkReaders, dev_after, port_of, first_port, parse_fdb_port, wired_port,
  parse_arp_mac, parse_default_gateway, port_behind, resolve_uplink_port,
}
use omm.Backhaul.Uplink.Gateway.{
  HasRow, IsDefaultRoute, IsNeighbour, first_gateway-HasRow, first_mac-HasRow,
}

-- The port stands behind a "dev".
unfoldable pub is_dev : String → List String → Bool
is_dev port (f ∷ next ∷ rest) =
    let later = is_dev port (next ∷ rest) in ((f == "dev") && (next == port)) || later
is_dev port _ = false

is_dev-dev_after :
    (fs : List String) (port : String) → dev_after fs ≡ some port → is_dev port fs ≡ true
unfolding dev_after is_dev
is_dev-dev_after [] port h = cc h
is_dev-dev_after (f ∷ []) port h = cc h
is_dev-dev_after (f ∷ next ∷ rest) port h =
    ground (arith, is_dev-dev_after (next ∷ rest) port, eq_refl port)

module _ (strings : Strings) (addresses : Addresses) where
  -- The row is of the MAC, and names the port as its device.
  unfoldable pub learns : String → String → List String → Bool
  unfolding is_dev
  learns mac port [] = false
  learns mac port (f ∷ fs) = (strings.to_lower f == mac) && is_dev port fs

  learns-port_of :
      (mac port : String) (fs : List String)
      → port_of strings addresses mac fs ≡ some port
      → learns mac port fs ≡ true
  unfolding port_of learns
  learns-port_of mac port [] h = cc h
  learns-port_of mac port (f ∷ []) h = cc h
  learns-port_of mac port (f ∷ g ∷ []) h = cc h
  learns-port_of mac port (f ∷ g ∷ k ∷ more) h =
      ground (arith, is_dev-dev_after (g ∷ k ∷ more) port)

  learns-first_port :
      (mac port : String) (ls : List String)
      → first_port strings addresses mac ls ≡ port
      → (port == "") ≡ false
      → any_by (λ line. learns mac port (strings.fields line)) ls ≡ true
  unfolding first_port any_by
  learns-first_port mac port [] h n = ground (arith, eq_iff port "")
  learns-first_port mac port (line ∷ rest) h n =
      ground (arith, learns-first_port mac port rest, learns-port_of mac port (strings.fields line))

  wired_port-learned :
      (bat_iface fdb mac port : String)
      → wired_port strings addresses bat_iface fdb mac ≡ port
      → (port == "") ≡ false
      → ((port == bat_iface) ≡ false)
        × (starts_with port "phy" ≡ false)
        × (any_by
              (λ line. learns (strings.to_lower mac) port (strings.fields line))
              (strings.lines fdb)
            ≡ true)
  unfolding wired_port parse_fdb_port
  wired_port-learned bat_iface fdb mac port h n =
      let found = first_port strings addresses (strings.to_lower mac) (strings.lines fdb) in
      elim (Bool-cases ((found == "") || (found == bat_iface) || starts_with found "phy")) [
        | inl e ↦ let blank : "" ≡ port = rw e at h in absurd (ground (arith, eq_iff port ""))
        | inr e ↦
            let same : found ≡ port = rw e at h in
            let apart =
              subst (λ x. ((x == bat_iface) ≡ false) × (starts_with x "phy" ≡ false)) same
                (ground arith, ground arith) in
            (
              apart.0,
              apart.1,
              learns-first_port (strings.to_lower mac) port (strings.lines fdb) same n,
            )
      ]

  -- If no port is configured and ResolveUplinkPort finds one, then all three readers gave a
  -- text, the port is neither the interface of the mesh nor a wireless one, a row of the
  -- routes is a default route to a gateway, a row of the ARP table gives the address of that
  -- gateway a MAC that is not zero, and a row of the table of the bridge names the port for
  -- that MAC.
  pub resolve_uplink_port_learned :
      (explicit bat_iface port : String) (r : UplinkReaders)
      → (explicit == "") ≡ true
      → resolve_uplink_port strings addresses explicit bat_iface r ≡ port
      → (port == "") ≡ false
      → ((port == bat_iface) ≡ false)
        × (starts_with port "phy" ≡ false)
        × ((route : String) × (arp : String) × (fdb : String) × (r.route ≡ some route)
            × (r.arp ≡ some arp)
            × (r.fdb ≡ some fdb)
            × ((ip : String) × (mac : String) × HasRow strings addresses
                  (IsDefaultRoute strings addresses ip)
                  (strings.lines route)
                × HasRow strings addresses
                    (IsNeighbour strings addresses ip mac)
                    (strings.lines arp)
                × (any_by
                      (λ line. learns (strings.to_lower mac) port (strings.fields line))
                      (strings.lines fdb)
                    ≡ true)))
  unfolding resolve_uplink_port port_behind parse_default_gateway parse_arp_mac
  resolve_uplink_port_learned explicit bat_iface port r blank h n = elim (Option-cases r.route) [
    | inl a ↦ absurd (no_port (rw (blank, a) at h))
    | inr (route, a) ↦
        let gateway = parse_default_gateway strings addresses route in
        elim (Bool-cases (gateway == "")) [
          | inl b ↦ absurd (no_port (rw (blank, a, b) at h))
          | inr b ↦ elim (Option-cases r.arp) [
            | inl c ↦ absurd (no_port (rw (blank, a, b, c) at h))
            | inr (arp, c) ↦ elim (Option-cases r.fdb) [
              | inl d ↦ absurd (no_port (rw (blank, a, b, c, d) at h))
              | inr (fdb, d) ↦
                  elim (Bool-cases (parse_arp_mac strings addresses arp gateway == "")) [
                    | inl e ↦ absurd (no_port (rw (blank, a, b, c, d, e) at h))
                    | inr e ↦
                        let (x, y, z) =
                          wired_port-learned bat_iface fdb
                            (parse_arp_mac strings addresses arp gateway) port
                            (rw (blank, a, b, c, d, e) at h) n in
                        let mac = parse_arp_mac strings addresses arp gateway in
                        let asked =
                          first_gateway-HasRow strings addresses gateway (strings.lines route) refl
                            (λ y. ground (arith, b, y, eq_iff gateway "")) in
                        let known =
                          first_mac-HasRow strings addresses gateway mac (strings.lines arp) refl
                            (λ y. ground (arith, e, y, eq_iff mac "")) in
                        (x, y, (route, arp, fdb, a, c, d, (gateway, mac, asked, known, z)))
                  ]
            ]
          ]
        ]
  ]
    where
      no_port : "" ≡ port → ⊥
      no_port p = ground (arith, eq_iff port "")
