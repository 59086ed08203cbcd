-- ===== src/Backhaul/Uplink.antt =====
-- internal/backhaul/uplink.go: the port to watch for carrier. What the readers read is text, or none
-- on an error; strconv and fmt are the interface `Addresses`.
pub mod Gateway
pub mod Learned
mod Tests
use Prim.Native.String.{len, slice}
use text.Mathlib.Text.{starts_with}
use omm.Prelude.{
  String, ℕ, Bool, Option, none, some, List, [], ◌∷◌, ◌==◌, ◌||◌, ◌>>=◌, eqb, not, if◌then◌else◌,
}
use omm.Strings.{Strings}

pub record Addresses : Type 0 where
  -- `ParseUint(s, 16, 8)`
  pub parse_octet : String → Option ℕ
  -- `Sprintf("%d.%d.%d.%d", ...)`
  pub show_ip : ℕ → ℕ → ℕ → ℕ → String

pub record UplinkReaders : Type 0 where
  pub route : Option String
  pub arp : Option String
  pub fdb : Option String

-- The field after the first "dev" that has one.
unfoldable pub dev_after : List String → Option String
dev_after (f ∷ next ∷ rest) =
    let later = dev_after (next ∷ rest) in if f == "dev" then some next else later
dev_after _ = none

module _ (strings : Strings) (addresses : Addresses) where
  -- The pairs of digits are octets, of which the last is the first of the address.
  abbrev shown : String → Option String
  shown h = do
    b0 ← addresses.parse_octet (slice h 0 2)
    b1 ← addresses.parse_octet (slice h 2 4)
    b2 ← addresses.parse_octet (slice h 4 6)
    b3 ← addresses.parse_octet (slice h 6 8)
    some (addresses.show_ip b3 b2 b1 b0)

  unfoldable pub le_hex_to_ip : String → String
  le_hex_to_ip h = if not (eqb (len h) 8) then "" else elim (shown h) [ none ↦ "" | some ip ↦ ip ]

  -- The gateway of a row, or "".
  unfoldable pub gateway_of : List String → String
  unfolding le_hex_to_ip
  gateway_of (iface ∷ destination ∷ gateway ∷ more) =
      if not (destination == "00000000") || (gateway == "00000000")
      then ""
      else le_hex_to_ip gateway
  gateway_of _ = ""

  unfoldable pub first_gateway : List String → String
  unfolding gateway_of
  first_gateway [] = ""
  first_gateway (line ∷ rest) =
      let later = first_gateway rest in
      let ip = gateway_of (strings.fields line) in if ip == "" then later else ip

  unfoldable pub parse_default_gateway : String → String
  unfolding first_gateway
  parse_default_gateway route = first_gateway (strings.lines route)

  -- The address in a row of the IP, or none if the row is another one.
  unfoldable pub mac_of : String → List String → Option String
  mac_of ip (f ∷ type ∷ flags ∷ mac ∷ more) = if f == ip then some mac else none
  mac_of ip _ = none

  unfoldable pub first_mac : String → List String → String
  unfolding mac_of
  first_mac ip [] = ""
  first_mac ip (line ∷ rest) =
      let later = first_mac ip rest in
      elim (mac_of ip (strings.fields line)) [
        | none ↦ later
        | some mac ↦ if mac == "00:00:00:00:00:00" then "" else mac
      ]

  unfoldable pub parse_arp_mac : String → String → String
  unfolding first_mac
  parse_arp_mac arp ip = first_mac ip (strings.lines arp)

  -- The port in a row of the MAC, which has three fields.
  unfoldable pub port_of : String → List String → Option String
  unfolding dev_after
  port_of mac (f ∷ g ∷ h ∷ more) =
      if strings.to_lower f == mac then dev_after (g ∷ h ∷ more) else none
  port_of mac _ = none

  unfoldable pub first_port : String → List String → String
  unfolding port_of
  first_port mac [] = ""
  first_port mac (line ∷ rest) =
      let later = first_port mac rest in
      elim (port_of mac (strings.fields line)) [ none ↦ later | some port ↦ port ]

  unfoldable pub parse_fdb_port : String → String → String
  unfolding first_port
  parse_fdb_port fdb mac = first_port (strings.to_lower mac) (strings.lines fdb)

  -- The port of the MAC, if it is neither that of the mesh nor wireless.
  unfoldable pub wired_port : String → String → String → String
  unfolding parse_fdb_port
  wired_port bat_iface fdb mac =
      let port = parse_fdb_port fdb mac in
      if (port == "") || (port == bat_iface) || starts_with port "phy" then "" else port

  unfoldable pub port_behind : String → String → String → Option String → String
  unfolding parse_arp_mac wired_port
  port_behind bat_iface gateway arp none = ""
  port_behind bat_iface gateway arp (some fdb) =
      let mac = parse_arp_mac arp gateway in if mac == "" then "" else wired_port bat_iface fdb mac

  unfoldable pub resolve_uplink_port : String → String → UplinkReaders → String
  unfolding parse_default_gateway port_behind
  resolve_uplink_port explicit bat_iface r =
      if not (explicit == "") then explicit else elim r.route [
        | none ↦ ""
        | some route ↦
            let gateway = parse_default_gateway route in
            if gateway == ""
            then ""
            else elim r.arp [ none ↦ "" | some arp ↦ port_behind bat_iface gateway arp r.fdb ]
      ]
