-- ===== src/Api/Host.antt =====
-- The fields of `apiHandler`, the state that its handlers change, and the profile manager: the
-- interface of internal/profiles that the handlers call.
use omm.Prelude.{String, ◌≡◌, refl, ◌⊎◌, inl, inr, Bool, Option, List}
use omm.Models.{Profile}
use omm.Store.Bolt.{Bolt}
use omm.Store.Db.{Db}
use omm.Store.Frame.{IsSameHomes}
use omm.Topology.Collect.{Collector}
use omm.Topology.Leases.{Leases}
use omm.Topology.Aggregate.{Aggregator}
use omm.Selection.{Signals}
use omm.Discovery.{Announcement}
use omm.Enrollment.{Options}

-- How a call of the profile manager ends: the error that wraps ErrNotFound is told apart.
pub data Applied : Type 0 where
  applied no_profile apply_failed : Applied

pub Applied-cases : (a : Applied) → (a ≡ applied) ⊎ (a ≡ no_profile) ⊎ (a ≡ apply_failed)
Applied-cases applied = inl refl
Applied-cases no_profile = inr (inl refl)
Applied-cases apply_failed = inr (inr refl)

-- `profiles.ProfileManager`, with the device that it configures.
pub record ProfileManager (bolt : Bolt) : Type 1 where
  pub Device : Type 0
  pub apply_profile : Profile → Db bolt → Device → Applied × Db bolt × Device
  pub apply_profile_for_home : String → Db bolt → Device → Applied × Db bolt × Device
  pub keeps_homes :
      (p : Profile) (db : Db bolt) (d : Device) → IsSameHomes bolt db (apply_profile p db d).1
  pub keeps_homes_for :
      (id : String) (db : Db bolt) (d : Device)
      → IsSameHomes bolt db (apply_profile_for_home id db d).1

module _ (bolt : Bolt) (pm : ProfileManager bolt) where
  -- A nil field is none, and a callback of the daemon works on the device. Of `self` the handlers
  -- use the node id.
  pub record Handler : Type 0 where
    pub has_profile_manager : Bool
    pub enrollment : Option Options
    pub self : Option String
    pub self_serial : String
    pub self_home_id : String
    pub topology : Option Collector
    pub leases : Option Leases
    pub signals : Option (Option Signals)
    pub scan : Option (Option (List Announcement))
    pub mesh_client_auth : Bool
    pub on_setup_complete : Option (pm.Device → Bool × pm.Device)
    pub provision_uplink : Option (String → String → pm.Device → Bool × pm.Device)

  pub record State : Type 0 where
    pub db : Db bolt
    pub device : pm.Device
    pub reports : Aggregator
