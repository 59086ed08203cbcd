-- ===== src/NetPosture.antt =====
-- internal/netposture/netposture.go and apply.go: the network posture of a node, by its role.
pub mod Settled
mod Tests
use omm.Prelude.{
  String, Bool, true, false, Option, none, some, List, [], ◌∷◌, ◌==◌, ◌&&◌, ◌||◌, not,
  if◌then◌else◌,
}
use omm.Uci.{Uci}
use omm.Uci.Action.{Action, seq, done, each}

-- The values of the type `Role`.
abbrev pub role_guest : String
role_guest = "guest"

abbrev pub role_controller : String
role_controller = "controller"

abbrev pub role_mesh_node : String
role_mesh_node = "node"

unfoldable pub decide_role : String → String → String
decide_role active_home self_home_id =
    if active_home == ""
    then role_guest
    else if active_home == self_home_id
    then role_controller
    else role_mesh_node

pub record Config : Type 0 where
  pub uplink_port : String
  pub lan_device : String

-- An option and its value, the type `set` of the code.
pub record OptionSet : Type 0 where
  pub pkg : String
  pub section : String
  pub option : String
  pub value : String

abbrev pub option_set : (pkg section option value : String) → OptionSet
option_set p s o v = record { pkg = p; section = s; option = o; value = v }

abbrev pub bridged_sets : List OptionSet
bridged_sets =
    option_set "network" "lan" "proto" "dhcp"
    ∷ option_set "network" "wan" "disabled" "1"
    ∷ option_set "network" "wan6" "disabled" "1"
    ∷ option_set "dhcp" "lan" "ignore" "1"
    ∷ []

abbrev pub controller_sets : List OptionSet
controller_sets =
    option_set "network" "wan" "disabled" "0"
    ∷ option_set "network" "wan6" "disabled" "0"
    ∷ option_set "dhcp" "lan" "ignore" "0"
    ∷ []

module _ (uci : Uci) where
  unfoldable pub apply_sets : List OptionSet → List String → Action uci
  apply_sets sets pkgs =
      seq uci (each uci (λ (s : OptionSet). uci.set s.pkg s.section s.option s.value) sets)
        (seq uci (each uci uci.commit pkgs) uci.reload)

  unfoldable pub uplink_port : Config → uci.Config → String
  uplink_port cfg c =
      if not (cfg.uplink_port == "")
      then cfg.uplink_port
      else elim (uci.get "network" "wan" "device" c) [ none ↦ "" | some dev ↦ dev ]

  -- Changes the ports of the LAN bridge by the uplink, if there are both.
  unfoldable pub edit_bridge : ((pkg sec opt value : String) → Action uci) → Config → Action uci
  unfolding uplink_port
  edit_bridge edit cfg c =
      let uplink = uplink_port cfg c in
      if not (uplink == "") && not (cfg.lan_device == "")
      then edit "network" cfg.lan_device "ports" uplink c
      else (true, c)

  unfoldable pub apply_bridged_dumb_ap : Config → Action uci
  unfolding edit_bridge apply_sets
  apply_bridged_dumb_ap cfg =
      seq uci (edit_bridge uci.add_list_item cfg)
        (apply_sets bridged_sets ("network" ∷ "dhcp" ∷ []))

  unfoldable pub apply_guest : Config → Action uci
  unfolding apply_bridged_dumb_ap
  apply_guest = apply_bridged_dumb_ap

  unfoldable pub apply_controller : Config → Action uci
  unfolding edit_bridge apply_sets
  apply_controller cfg =
      seq uci (edit_bridge uci.del_list_item cfg)
        (apply_sets controller_sets ("network" ∷ "dhcp" ∷ []))

  unfoldable pub apply_mesh_node : Config → Action uci
  unfolding apply_bridged_dumb_ap
  apply_mesh_node = apply_bridged_dumb_ap

  unfoldable pub apply : Config → String → Action uci
  unfolding apply_guest apply_controller apply_mesh_node
  apply cfg role c =
      if role == role_guest
      then apply_guest cfg c
      else if role == role_controller
      then apply_controller cfg c
      else if role == role_mesh_node
      then apply_mesh_node cfg c
      else (false, c)
