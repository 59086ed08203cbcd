-- ===== src/Store/Ops.antt =====
-- The calls that write the store, as one type, and the databases that they reach.
use omm.Prelude.{String, Bool, ◌≡◌, none}
use omm.Models.{Home, Node, Profile, Enrollment, BackhaulState}
use omm.Store.Bolt.{Bolt}
use omm.Store.Db.{Db, open_db, Exec}
use omm.Store.Records.{create_home, upsert_home, update_home, create_node, create_or_update_profile}
use omm.Store.Enrollments.{create_enrollment, update_enrollment}
use omm.Store.Removal.{delete_home, delete_node}
use omm.Store.Settings.{set_active_home, set_setup_complete, set_backhaul_state, reset}

pub data Op : Type 0 where
  creates_home upserts_home updates_home : Home → Op
  deletes_home deletes_node : String → Op
  creates_node : Node → Op
  writes_profile : Profile → Op
  creates_enrollment updates_enrollment : Enrollment → Op
  sets_active_home : String → Op
  sets_setup_complete : Bool → Op
  sets_backhaul_state : BackhaulState → Op
  resets : Op

module _ (bolt : Bolt) where
  unfoldable pub run_op : Op → Exec bolt Unit
  run_op (creates_home home) = create_home bolt home
  run_op (upserts_home home) = upsert_home bolt home
  run_op (updates_home home) = update_home bolt home
  run_op (deletes_home id) = delete_home bolt id
  run_op (deletes_node id) = delete_node bolt id
  run_op (creates_node node) = create_node bolt node
  run_op (writes_profile profile) = create_or_update_profile bolt profile
  run_op (creates_enrollment e) = create_enrollment bolt e
  run_op (updates_enrollment e) = update_enrollment bolt e
  run_op (sets_active_home id) = set_active_home bolt id
  run_op (sets_setup_complete complete) = set_setup_complete bolt complete
  run_op (sets_backhaul_state state) = set_backhaul_state bolt state
  run_op resets = reset bolt

  -- A new enrollment has an id that no stored one has (a UUID).
  abbrev pub IsFresh : Op → Db bolt → Type 0
  IsFresh (creates_enrollment e) db = bolt.get Enrollment db.enrollments e.id ≡ none
  IsFresh _ db = Unit

  pub data Reach : Db bolt → Type 0 where
    start : Reach (open_db bolt)
    next : {db : Db bolt} (op : Op) → IsFresh op db → Reach db → Reach (run_op op db).1
