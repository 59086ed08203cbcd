-- ===== src/Models.antt =====
-- The records of internal/models/models.go. A string that Go defaults to "" is a `String`, a byte
-- slice is the list of its bytes, and an int64 is an integer.
use omm.Prelude.{ℕ, String, List}
use omm.Prelude.Int.{ℤ}

abbrev pub Bytes : Type 0
Bytes = List ℕ

pub record Home : Type 0 where
  pub id : String
  pub name : String
  pub controller : String
  pub bssid : String
  pub certificate : Bytes
  pub last_seen : ℤ

pub record Node : Type 0 where
  pub id : String
  pub serial : String
  pub current_home : String
  pub trusted_homes : List String
  pub last_seen : ℤ

pub record Profile : Type 0 where
  pub home_id : String
  pub node_name : String
  pub mesh_ssid : String
  pub mesh_key : String
  pub ap_ssid : String
  pub ap_key : String
  pub band : String
  pub radio : String
  pub ap_bands : List String
  pub vlans : List String
  pub mesh_channel : String
  pub mesh_htmode : String

pub record BackhaulState : Type 0 where
  pub mode : String
  pub reason : String
  pub remediation : String

-- The values of `BackhaulState.mode`.
abbrev pub backhaul_mode_80211s : String
backhaul_mode_80211s = "802.11s"

abbrev pub backhaul_mode_multi_ap : String
backhaul_mode_multi_ap = "multi_ap"

abbrev pub backhaul_mode_unknown : String
backhaul_mode_unknown = "unknown"

-- The constants of `EnrollmentStatus`, the values that the program stores.
pub data Status : Type 0 where
  pending_verification pending_approval approved active rejected : Status

unfoldable pub Status-discrete : Discrete Status
Status-discrete = hlevel

pub record Enrollment : Type 0 where
  pub id : String
  pub node_id : String
  pub serial : String
  pub public_key : Bytes
  pub challenge : Bytes
  pub status : Status
  pub home_id : String
  pub created_at : ℤ
