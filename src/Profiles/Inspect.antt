-- ===== src/Profiles/Inspect.antt =====
-- internal/profiles/meshinspect.go and bataninspect.go: what ubus says of the mesh and of bat0.
use omm.Prelude.{
  String, Bool, false, Option, none, some, List, [], ◌∷◌, ◌==◌, ◌&&◌, ◌||◌, not, if◌then◌else◌,
}

pub record WirelessIface : Type 0 where
  pub section : String
  pub ifname : String

pub record WirelessDevice : Type 0 where
  pub up : Bool
  pub retry_setup_failed : Bool
  pub interfaces : List WirelessIface

pub record DeviceStatus : Type 0 where
  pub up : Bool
  pub present : Bool

-- The answer at the first interface of a device that is the section's, if there is one.
unfoldable pub iface_up : String → WirelessDevice → List WirelessIface → Option Bool
iface_up section dev [] = none
iface_up section dev (iface ∷ rest) =
    let later = iface_up section dev rest in
    if iface.section == section
    then some (dev.up && not dev.retry_setup_failed && not (iface.ifname == ""))
    else later

-- The devices in the order that the loop over the map meets them.
unfoldable pub devices_up : String → List WirelessDevice → Bool
unfolding iface_up
devices_up section [] = false
devices_up section (dev ∷ rest) = elim (iface_up section dev dev.interfaces) [
  | some b ↦ b
  | none ↦ devices_up section rest
]

-- `MeshUp` on the status that ubus returns, none if the call fails.
unfoldable pub mesh_up : Option (List WirelessDevice) → String → Option Bool
unfolding devices_up
mesh_up none section = none
mesh_up (some status) section = some (devices_up section status)

-- `BatmanUp`: a call that fails is a device that is not up.
unfoldable pub bat_up : Option DeviceStatus → Option Bool
bat_up none = some false
bat_up (some st) = some (st.up || st.present)
