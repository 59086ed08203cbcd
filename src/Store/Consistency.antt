-- ===== src/Store/Consistency.antt =====
-- The index and the keys of the store stay right under every call that writes it.
use omm.Prelude.{String}
use omm.Store.Bolt.{Bolt}
use omm.Store.Db.{Db, open_db, put_record, update}
use omm.Store.Settings.{
  set_active_home, set_setup_complete, set_backhaul_state, set_setting_tx, reset,
}
use omm.Store.Laws.{update_keeps, write_keeps}
use omm.Store.Ops.{
  Op, creates_home, upserts_home, updates_home, deletes_home, deletes_node, creates_node,
  writes_profile, creates_enrollment, updates_enrollment, sets_active_home, sets_setup_complete,
  sets_backhaul_state, resets, run_op, IsFresh, Reach, start, next,
}
use omm.Store.Invariant.{
  IsConsistent, IsConsistent-open_db, create_home-IsConsistent, upsert_home-IsConsistent,
  update_home-IsConsistent, create_node-IsConsistent, create_or_update_profile-IsConsistent,
  create_enrollment-IsConsistent, update_enrollment-IsConsistent,
}
use omm.Store.Deletion.{delete_home-IsConsistent, delete_node-IsConsistent}

module _ (bolt : Bolt) where
  set_setting-IsConsistent :
      (key value : String) (db : Db bolt)
      → IsConsistent bolt db
      → IsConsistent bolt (update bolt (set_setting_tx bolt key value) db).1
  unfolding set_setting_tx
  set_setting-IsConsistent key value db c =
      update_keeps bolt (IsConsistent bolt) (set_setting_tx bolt key value) db c λ db' h.
        write_keeps (IsConsistent bolt) (put_record bolt db.settings key value) _ h λ b p. record {
          homes_keyed = c.homes_keyed;
          nodes_keyed = c.nodes_keyed;
          profiles_keyed = c.profiles_keyed;
          enrollments_keyed = c.enrollments_keyed;
          indexed = c.indexed;
        }

  -- Every call that writes the store, whether it succeeds or fails, keeps each Home, node,
  -- profile and enrollment under its own id and each node index entry at a stored enrollment
  -- of that node, if a created enrollment has an id that no stored one has.
  pub run_op-IsConsistent :
      (op : Op) (db : Db bolt)
      → IsFresh bolt op db
      → IsConsistent bolt db
      → IsConsistent bolt (run_op bolt op db).1
  unfolding run_op set_active_home set_setup_complete set_backhaul_state reset open_db
  run_op-IsConsistent (creates_home home) db f c = create_home-IsConsistent bolt home db c
  run_op-IsConsistent (upserts_home home) db f c = upsert_home-IsConsistent bolt home db c
  run_op-IsConsistent (updates_home home) db f c = update_home-IsConsistent bolt home db c
  run_op-IsConsistent (deletes_home id) db f c = delete_home-IsConsistent bolt id db c
  run_op-IsConsistent (deletes_node id) db f c = delete_node-IsConsistent bolt id db c
  run_op-IsConsistent (creates_node node) db f c = create_node-IsConsistent bolt node db c
  run_op-IsConsistent (writes_profile profile) db f c =
      create_or_update_profile-IsConsistent bolt profile db c
  run_op-IsConsistent (creates_enrollment e) db f c = create_enrollment-IsConsistent bolt e db f c
  run_op-IsConsistent (updates_enrollment e) db f c = update_enrollment-IsConsistent bolt e db c
  run_op-IsConsistent (sets_active_home id) db f c = set_setting-IsConsistent _ id db c
  run_op-IsConsistent (sets_setup_complete b) db f c = set_setting-IsConsistent _ _ db c
  run_op-IsConsistent (sets_backhaul_state s) db f c = set_setting-IsConsistent _ _ db c
  run_op-IsConsistent resets db f c = IsConsistent-open_db bolt

  -- So it holds of every database that the calls reach from a new file.
  pub Reach-IsConsistent : {db : Db bolt} → Reach bolt db → IsConsistent bolt db
  Reach-IsConsistent start = IsConsistent-open_db bolt
  Reach-IsConsistent (next {db = db} op f r) = run_op-IsConsistent op db f (Reach-IsConsistent r)
