-- ===== src/Batman/Tests.antt =====
-- The theorems about the batman-adv layer on a configuration in memory.
use omm.Prelude.{
  ◌≡◌, ◌↔◌, refl, true, false, not, ◌&&◌, ◌||◌, ◌==◌, ◌/◌, ◌%◌, none, some, [], ◌∷◌, All,
  if◌then◌else◌, arith,
}
use omm.Uci.{Uci, scalar, items, has_item}
use omm.Uci.Toy.{Memory, blank, put, toy}
use omm.Uci.Action.{seq, each}
use omm.Uci.Client.{
  set, set_section, as_scalars, add_list_item, del_list_item, get_list, set_list, without_item,
}
use omm.Batman.{
  Config, mesh_hardif, wired_hardif, device_section, mac_override, unbridge, bridge, author_mac,
  delete_mac, enslave_port, release_port, apply, teardown, soft_values, mesh_values, wired_values,
  device_values,
}
use omm.Batman.Names.{sanitize, is_section_char}
use omm.Batman.Mac.{
  Formats, Mac, derive, xor, local_unicast, unique_hardif_mac, parse_mac, octets, six,
}
use omm.Batman.Mac.Octets.{IsMac, derive_bounds, derive_ports}
use omm.Batman.Sections.{owns_section}
use omm.Batman.Bridge.{in_lan, lan_ports}
use omm.Batman.Frame.{applies, enslaves, releases, tears_down, ports_of, owns}
use omm.Batman.Removed.{IsGone}
use omm.Batman.Stuck.{release_without_mac}

-- Texts of six parts, whose numbers stand in decimal order, are enough here.
abbrev formats : Formats
formats = record {
  split_colons = λ s.
      if s == "f8:5e:3c:a0:57:8a" then "f8" ∷ "5e" ∷ "3c" ∷ "a0" ∷ "57" ∷ "8a" ∷ [] else s ∷ [];
  parse_octet = λ s. if s == "f8" then some 248 else some 138;
  show_mac = λ a b c d e f. "fa:8a:8a:8a:8a:00";
  fnv32a = λ s. 138;
}

abbrev settings : Config
settings = record {
  iface = "bat0";
  routing_algo = "BATMAN_IV";
  wired_ports = "lan3" ∷ [];
  lan_device = "br_lan";
  mac = some (λ dev. some "f8:5e:3c:a0:57:8a");
}

abbrev unreadable : Config
unreadable = record settings { mac = some (λ dev. none) }

abbrev router : Uci
router = toy "no package"

abbrev stock : Memory
stock =
    put "network" "br_lan" (("ports", items ("lan1" ∷ "lan3" ∷ [])) ∷ [])
      (put "network" "lan" (("proto", scalar "static") ∷ []) blank)

-- The configuration after `Apply`, by its sections.
abbrev up : Memory
up = put "network" "dev_lan3" [] (
    put "network" "bat0_lan3" [] (
      put "network" "bat0_mesh" [] (
        put "network" "bat0" []
          (put "network" "br_lan" (("ports", items ("lan1" ∷ "bat0" ∷ [])) ∷ []) blank))))

sanitized : sanitize "eth0.2" ≡ "eth0_2"
unfolding sanitize is_section_char
sanitized = refl

derived :
    derive 3 (record { o0 = 249; o1 = 1; o2 = 2; o3 = 3; o4 = 4; o5 = 5 })
    ≡ record { o0 = 250; o1 = 1; o2 = 2; o3 = 3; o4 = 4; o5 = 6 }
unfolding derive xor local_unicast
derived = refl

apart : owns_section settings settings.wired_ports settings.lan_device ≡ false
unfolding owns_section wired_hardif device_section mesh_hardif sanitize is_section_char
apart = refl

apply_ok : (apply router formats settings stock).0 ≡ true
unfolding apply seq each enslave_port bridge unbridge author_mac mac_override unique_hardif_mac
    parse_mac octets six derive xor local_unicast mesh_hardif wired_hardif device_section sanitize
    is_section_char soft_values mesh_values wired_values device_values set set_section as_scalars
    add_list_item del_list_item get_list set_list without_item has_item
apply_ok = refl

teardown_ok : (teardown router formats settings up).0 ≡ true
unfolding teardown seq each release_port bridge unbridge delete_mac mesh_hardif wired_hardif
    device_section sanitize is_section_char add_list_item del_list_item get_list set_list
    without_item has_item
teardown_ok = refl

lan_ports_example :
    (in_lan router formats settings "bat0" (apply router formats settings stock).1 ≡ (
      ("bat0" == "bat0")
      || (not (has_item "bat0" settings.wired_ports)
          && in_lan router formats settings "bat0" stock)))
    × (in_lan router formats settings "bat0" (teardown router formats settings up).1 ≡ (
        has_item "bat0" settings.wired_ports
        || (not ("bat0" == "bat0") && in_lan router formats settings "bat0" up)))
lan_ports_example =
    lan_ports router formats settings "bat0" refl apart stock up apply_ok teardown_ok

unowned :
    All
      (λ x. owns settings (ports_of settings x) "network" "lan" "proto" ≡ false)
      (applies ∷ enslaves "eth0.2" ∷ releases "lan3" ∷ tears_down ∷ [])
unfolding owns ports_of owns_section wired_hardif device_section mesh_hardif sanitize
    is_section_char
unowned = (refl, (refl, (refl, (refl, tt))))

names_differ : (device_section "lan3" == wired_hardif unreadable "lan3") ≡ false
unfolding device_section wired_hardif sanitize is_section_char
names_differ = refl

no_device : IsGone router (device_section "lan3") stock
unfolding device_section sanitize is_section_char
no_device = refl

release_without_mac_example :
    (release_port router formats unreadable "lan3"
      (enslave_port router formats unreadable "lan3" stock).1).0
    ≡ false
release_without_mac_example =
    release_without_mac router formats unreadable "lan3" (λ dev. none) stock refl refl names_differ
      no_device

abbrev zyxel : Mac
zyxel = record { o0 = 248; o1 = 94; o2 = 60; o3 = 160; o4 = 87; o5 = 138 }

zyxel-IsMac : IsMac zyxel
zyxel-IsMac = (omega arith, omega arith, omega arith, omega arith, omega arith, omega arith)

derive_bounds_example :
    IsMac (derive 77 zyxel)
    × ((derive 77 zyxel).o0 % 4 ≡ 2)
    × ((derive 77 zyxel).o0 / 4 ≡ zyxel.o0 / 4)
derive_bounds_example = derive_bounds 77 zyxel zyxel-IsMac

derive_ports_example : (derive 1 zyxel ≡ derive 257 zyxel) ↔ (1 % 256 ≡ 257 % 256)
derive_ports_example = derive_ports 1 257 zyxel
