-- ===== src/Topology/SelfAddrs.antt =====
-- internal/topology/identity.go: the addresses under which peers may list this node.
pub mod Distinct
use Prim.Native.String.{◌++◌}
use omm.Prelude.{String, Bool, false, Option, none, some, List, [], ◌∷◌, ◌==◌, ◌||◌, if◌then◌else◌}
use omm.Prelude as Prelude
use omm.Strings.{Strings}
use omm.Store.Removal.{contains}
use omm.Topology.Batctl.{Runner}

-- `add`: the list also is the set of what was seen.
unfoldable pub add_addr : String → List String → List String
unfolding contains
add_addr mac addrs =
    if (mac == "") || contains mac addrs then addrs else Prelude.◌++◌ addrs (mac ∷ [])

module _ (strings : Strings) where
  abbrev device_of : String → Option String
  device_of line = elim (strings.before_colon line) [
    | none ↦ none
    | some dev ↦ if strings.trim_space dev == "" then none else some (strings.trim_space dev)
  ]

  abbrev device_in : String → Option String
  device_in line =
      if strings.trim_space line == "" then none else device_of (strings.trim_space line)

  unfoldable pub devices_of : List String → List String
  devices_of [] = []
  devices_of (line ∷ rest) =
      let later = devices_of rest in elim (device_in line) [ none ↦ later | some dev ↦ dev ∷ later ]

  unfoldable pub parse_hardifs : String → List String
  unfolding devices_of
  parse_hardifs out = devices_of (strings.lines out)

  unfoldable pub read_mac : (String → Option String) → String → String
  read_mac read dev = elim (read ("/sys/class/net/" ++ dev ++ "/address")) [
    | none ↦ ""
    | some text ↦ strings.to_lower (strings.trim_space text)
  ]

  unfoldable pub add_macs : (String → Option String) → List String → List String → List String
  unfolding add_addr read_mac
  add_macs read [] addrs = addrs
  add_macs read (dev ∷ devs) addrs = add_macs read devs (add_addr (read_mac read dev) addrs)

  unfoldable pub self_addrs : String → Runner → (String → Option String) → List String
  unfolding add_macs parse_hardifs
  self_addrs iface run read =
      let own = add_addr (read_mac read iface) [] in
      if iface == "" then [] else elim (run ("batctl" ∷ "-m" ∷ iface ∷ "if" ∷ [])) [
        | none ↦ own
        | some out ↦ add_macs read (parse_hardifs out) own
      ]
