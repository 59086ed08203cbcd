-- ===== src/Backhaul/Uplink/Tests.antt =====
-- The port of a gateway that the bridge learned.
use text.Mathlib.Text.{starts_with}
use omm.Prelude.{String, ◌≡◌, refl, true, false, none, some, [], ◌∷◌, ◌==◌, any_by, if◌then◌else◌}
use omm.Strings.{Strings}
use omm.Backhaul.Uplink.{
  Addresses, UplinkReaders, resolve_uplink_port, parse_default_gateway, first_gateway, gateway_of,
  le_hex_to_ip, port_behind, parse_arp_mac, first_mac, mac_of, wired_port, parse_fdb_port,
  first_port, port_of, dev_after,
}
use omm.Backhaul.Uplink.Gateway.{HasRow, IsDefaultRoute, IsNeighbour}
use omm.Backhaul.Uplink.Learned.{learns, resolve_uplink_port_learned}

abbrev strings : Strings
strings = record {
  lines = λ s. s ∷ [];
  fields = λ s.
      if s == "route"
      then "br-lan" ∷ "00000000" ∷ "0102A8C0" ∷ []
      else if s == "arp"
      then "192.168.2.1" ∷ "0x1" ∷ "0x2" ∷ "aa" ∷ []
      else "aa" ∷ "dev" ∷ "lan1" ∷ "master" ∷ [];
  trim_space = λ s. s;
  before_colon = λ s. none;
  to_lower = λ s. s;
}

abbrev addresses : Addresses
addresses = record { parse_octet = λ s. some 1; show_ip = λ a b c d. "192.168.2.1" }

abbrev readers : UplinkReaders
readers = record { route = some "route"; arp = some "arp"; fdb = some "fdb" }

resolve_uplink_port_learned_example :
    (("lan1" == "bat0") ≡ false)
    × (starts_with "lan1" "phy" ≡ false)
    × ((route : String) × (arp : String) × (fdb : String) × (readers.route ≡ some route)
        × (readers.arp ≡ some arp)
        × (readers.fdb ≡ some fdb)
        × ((ip : String) × (mac : String) × HasRow strings addresses
              (IsDefaultRoute strings addresses ip)
              (strings.lines route)
            × HasRow strings addresses (IsNeighbour strings addresses ip mac) (strings.lines arp)
            × (any_by
                  (λ line.
                    learns strings addresses (strings.to_lower mac) "lan1" (strings.fields line))
                  (strings.lines fdb)
                ≡ true)))
unfolding resolve_uplink_port parse_default_gateway first_gateway gateway_of le_hex_to_ip
    port_behind parse_arp_mac first_mac mac_of wired_port parse_fdb_port first_port port_of
    dev_after
resolve_uplink_port_learned_example =
    resolve_uplink_port_learned strings addresses "" "bat0" "lan1" readers refl refl refl
