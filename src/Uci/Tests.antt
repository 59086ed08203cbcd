-- ===== src/Uci/Tests.antt =====
-- The client over rpcd on a configuration in memory.
use omm.Prelude.{◌≡◌, refl, true, [], ◌∷◌, some}
use omm.Uci.{items, has_item}
use omm.Uci.Toy.{Memory, blank, put, memory}
use omm.Uci.Rpcd.{Rpcd}
use omm.Uci.Client.{get_list, set_list, without_item, add_list_item, del_list_item}

abbrev bridge : Memory
bridge = put "network" "br_lan" (("ports", items ("lan1" ∷ "lan2" ∷ [])) ∷ []) blank

abbrev store : Rpcd
store = memory "no package"

wan_left :
    store.value "network" "br_lan" "ports"
      (del_list_item store "network" "br_lan" "ports" "lan1"
        (add_list_item store "network" "br_lan" "ports" "wan" bridge).1).1
    ≡ some (items ("lan2" ∷ "wan" ∷ []))
unfolding add_list_item del_list_item get_list set_list has_item without_item
wan_left = refl

lan_added : (add_list_item store "network" "br_lan" "ports" "lan1" bridge).0 ≡ true
unfolding add_list_item get_list set_list has_item
lan_added = refl

lan_deleted : (del_list_item store "network" "br_lan" "ports" "lan1" bridge).0 ≡ true
unfolding del_list_item get_list set_list has_item without_item
lan_deleted = refl
