-- ===== src/NetPosture/Tests.antt =====
-- The posture of a router whose uplink is read from its configuration.
use omm.Prelude.{◌≡◌, refl, true, [], ◌∷◌, All, ◌==◌, ◌&&◌, ◌||◌}
use omm.Uci.{Uci, scalar, items, has_item}
use omm.Uci.Toy.{Memory, blank, put, toy}
use omm.Uci.Action.{seq, each}
use omm.Uci.Client.{get, set, reload, add_list_item, get_list, set_list}
use omm.NetPosture.{
  Config, decide_role, role_guest, apply, apply_guest, apply_bridged_dumb_ap, edit_bridge,
  uplink_port, apply_sets,
}
use omm.NetPosture.Settled.{IsSetIn, in_lan, edits, sets_of, turn_of, apply_settles}

abbrev settings : Config
settings = record { uplink_port = ""; lan_device = "br_lan" }

abbrev router : Uci
router = toy "no package"

abbrev stock : Memory
stock = put "network" "br_lan" (("ports", items ("lan1" ∷ [])) ∷ []) (
    put "network" "wan" (("device", scalar "eth1") ∷ [])
      (put "network" "wan6" [] (put "network" "lan" [] (put "dhcp" "lan" [] blank))))

undecided : decide_role "" "home-1" ≡ role_guest
unfolding decide_role
undecided = refl

guest_applied : (apply router settings role_guest stock).0 ≡ true
unfolding apply apply_guest apply_bridged_dumb_ap edit_bridge uplink_port apply_sets seq each get
    set reload add_list_item get_list set_list has_item
guest_applied = refl

apply_settles_example :
    ((role_guest == "guest") || (role_guest == "controller") || (role_guest == "node") ≡ true)
    × All (IsSetIn router (apply router settings role_guest stock).1) (sets_of router role_guest)
    × (in_lan router settings "eth1" (apply router settings role_guest stock).1
        ≡ turn_of router role_guest
            (edits router settings stock && (uplink_port router settings stock == "eth1"))
            (in_lan router settings "eth1" stock))
apply_settles_example = apply_settles router settings role_guest stock "eth1" guest_applied
