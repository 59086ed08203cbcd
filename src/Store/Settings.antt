-- ===== src/Store/Settings.antt =====
-- The settings of internal/storage/store.go, and `Reset`.
use omm.Prelude.{String, Bool, Option, none, some, ◌==◌, if◌then◌else◌}
use omm.Models.{Home, Node, Profile, Enrollment, BackhaulState, backhaul_mode_unknown}
use omm.Store.Bolt.{Bolt}
use omm.Store.Result.{Result, ok, err, corrupt, ◌>>=◌}
use omm.Store.Db.{Db, Exec, update, view, put_record}

abbrev pub setting_active_home : String
setting_active_home = "active_home"

abbrev pub setting_setup_complete : String
setting_setup_complete = "setup_complete"

abbrev pub setting_backhaul_state : String
setting_backhaul_state = "backhaul_state"

abbrev or_blank : Option String → String
or_blank none = ""
or_blank (some v) = v

abbrev decoded : Option BackhaulState → Result BackhaulState
decoded none = err corrupt
decoded (some s) = ok s

module _ (bolt : Bolt) where
  -- A key that is not set reads as "".
  unfoldable pub get_setting : String → Db bolt → Result String
  get_setting key db = ok (or_blank (bolt.get String db.settings key))

  unfoldable pub set_setting_tx : String → String → Db bolt → Result (Db bolt)
  set_setting_tx key value db = do
    b ← put_record bolt db.settings key value
    ok (record db { settings = b })

  unfoldable pub set_setting : String → String → Exec bolt Unit
  unfolding set_setting_tx
  set_setting key value = update bolt (set_setting_tx key value)

  unfoldable pub get_active_home : Exec bolt String
  unfolding get_setting
  get_active_home = view bolt (get_setting setting_active_home)

  unfoldable pub set_active_home : String → Exec bolt Unit
  unfolding set_setting
  set_active_home home_id = set_setting setting_active_home home_id

  unfoldable pub get_setup_complete : Exec bolt Bool
  unfolding get_setting
  get_setup_complete =
      view bolt λ db. do value ← get_setting setting_setup_complete db; ok (value == "1")

  unfoldable pub set_setup_complete : Bool → Exec bolt Unit
  unfolding set_setting
  set_setup_complete complete = set_setting setting_setup_complete (if complete then "1" else "0")

  unfoldable pub get_backhaul_state : Exec bolt BackhaulState
  unfolding get_setting
  get_backhaul_state = view bolt λ db. do
    raw ← get_setting setting_backhaul_state db
    if raw == ""
        then ok (record { mode = backhaul_mode_unknown; reason = ""; remediation = "" })
        else decoded (bolt.decode_state raw)

  unfoldable pub set_backhaul_state : BackhaulState → Exec bolt Unit
  unfolding set_setting
  set_backhaul_state state = set_setting setting_backhaul_state (bolt.encode_state state)

  unfoldable pub reset_tx : Db bolt → Result (Db bolt)
  reset_tx db = ok (record db {
    homes = bolt.empty Home;
    nodes = bolt.empty Node;
    profiles = bolt.empty Profile;
    settings = bolt.empty String;
    enrollments = bolt.empty Enrollment;
    enrollment_by_node = bolt.empty String;
  })

  unfoldable pub reset : Exec bolt Unit
  unfolding reset_tx
  reset = update bolt reset_tx
