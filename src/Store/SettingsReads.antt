-- ===== src/Store/SettingsReads.antt =====
-- What a caller reads back from the settings, and after a reset.
use omm.Prelude.{String, ◌≡◌, refl, true, false, Bool, some, ◌==◌, if◌then◌else◌}
use omm.Models.{Home, Node, Profile, Enrollment, BackhaulState, backhaul_mode_unknown}
use omm.Store.Bolt.{Bolt}
use omm.Store.Result.{ok, err, not_found}
use omm.Store.Db.{Db, put_record}
use omm.Store.Records.{get_home, get_profile, get_node}
use omm.Store.Enrollments.{get_enrollment, get_enrollment_by_node_id}
use omm.Store.Settings.{
  get_active_home, set_active_home, get_setup_complete, set_setup_complete, get_backhaul_state,
  set_backhaul_state, reset, set_setting_tx, setting_active_home, setting_backhaul_state,
  setting_setup_complete,
}
use omm.Store.Laws.{get-put_record, write_keeps, update_ok}

module _ (bolt : Bolt) where
  pub get-set_setting_tx :
      (key value : String) (db db' : Db bolt) (j : String)
      → set_setting_tx bolt key value db ≡ ok db'
      → bolt.get String db'.settings j
        ≡ (if key == j then some value else bolt.get String db.settings j)
  unfolding set_setting_tx
  get-set_setting_tx key value db db' j h =
      write_keeps P (put_record bolt db.settings key value) _ h
        λ b p. get-put_record bolt db.settings key j value b p
    where
      P : Db bolt → Type 0
      P d =
          bolt.get String d.settings j
          ≡ (if key == j then some value else bolt.get String db.settings j)

  flag : (complete : Bool) → ok ((if complete then "1" else "0") == "1") ≡ ok complete
  flag true = refl
  flag false = refl

  module _ (db : Db bolt) where
    -- A Home id that was set as active with success is read back, and the other two settings
    -- read as before.
    pub get_active_home-set_active_home :
        (home_id : String)
        → (set_active_home bolt home_id db).0 ≡ ok tt
        → let db' = (set_active_home bolt home_id db).1 in
          ((get_active_home bolt db').0 ≡ ok home_id)
          × ((get_setup_complete bolt db').0 ≡ (get_setup_complete bolt db).0)
          × ((get_backhaul_state bolt db').0 ≡ (get_backhaul_state bolt db).0)
    unfolding get_active_home set_active_home get_setup_complete get_backhaul_state
    get_active_home-set_active_home home_id h =
        let tx = update_ok bolt (set_setting_tx bolt setting_active_home home_id) db h in
        (
          simp (get-set_setting_tx setting_active_home home_id db _ setting_active_home tx),
          simp (get-set_setting_tx setting_active_home home_id db _ setting_setup_complete tx),
          simp (get-set_setting_tx setting_active_home home_id db _ setting_backhaul_state tx),
        )

    -- The setup flag that was set is read back; the other two settings read as before.
    pub get_setup_complete-set_setup_complete :
        (complete : Bool)
        → (set_setup_complete bolt complete db).0 ≡ ok tt
        → let db' = (set_setup_complete bolt complete db).1 in
          ((get_setup_complete bolt db').0 ≡ ok complete)
          × ((get_active_home bolt db').0 ≡ (get_active_home bolt db).0)
          × ((get_backhaul_state bolt db').0 ≡ (get_backhaul_state bolt db).0)
    unfolding get_active_home set_setup_complete get_setup_complete get_backhaul_state
    get_setup_complete-set_setup_complete complete h =
        let value : String = if complete then "1" else "0" in
        let tx = update_ok bolt (set_setting_tx bolt setting_setup_complete value) db h in
        (
          simp (get-set_setting_tx setting_setup_complete value db _ setting_setup_complete tx)
              (flag complete),
          simp (get-set_setting_tx setting_setup_complete value db _ setting_active_home tx),
          simp (get-set_setting_tx setting_setup_complete value db _ setting_backhaul_state tx),
        )

    -- A backhaul outcome that was recorded with success is read back whole, through its JSON,
    -- and the other two settings read as before.
    pub get_backhaul_state-set_backhaul_state :
        (state : BackhaulState)
        → (set_backhaul_state bolt state db).0 ≡ ok tt
        → let db' = (set_backhaul_state bolt state db).1 in
          ((get_backhaul_state bolt db').0 ≡ ok state)
          × ((get_active_home bolt db').0 ≡ (get_active_home bolt db).0)
          × ((get_setup_complete bolt db').0 ≡ (get_setup_complete bolt db).0)
    unfolding get_active_home set_backhaul_state get_setup_complete get_backhaul_state
    get_backhaul_state-set_backhaul_state state h =
        let value = bolt.encode_state state in
        let tx = update_ok bolt (set_setting_tx bolt setting_backhaul_state value) db h in
        (
          simp (get-set_setting_tx setting_backhaul_state value db _ setting_backhaul_state tx)
              (rw (bolt.encode-ne-blank state) (rw (bolt.decode-encode state))),
          simp (get-set_setting_tx setting_backhaul_state value db _ setting_active_home tx),
          simp (get-set_setting_tx setting_backhaul_state value db _ setting_setup_complete tx),
        )

    -- Reset succeeds on any store, and leaves no Home, node, profile or enrollment, by id or
    -- by node, no active Home, an incomplete setup and an unknown backhaul.
    pub reset_clears :
        ((reset bolt db).0 ≡ ok tt)
        × ((k : String)
            → ((get_home bolt k (reset bolt db).1).0 ≡ err not_found)
              × ((get_node bolt k (reset bolt db).1).0 ≡ err not_found)
              × ((get_profile bolt k (reset bolt db).1).0 ≡ err not_found)
              × ((get_enrollment bolt k (reset bolt db).1).0 ≡ err not_found)
              × ((get_enrollment_by_node_id bolt k (reset bolt db).1).0 ≡ err not_found))
        × ((get_active_home bolt (reset bolt db).1).0 ≡ ok "")
        × ((get_setup_complete bolt (reset bolt db).1).0 ≡ ok false)
        × ((get_backhaul_state bolt (reset bolt db).1).0
            ≡ ok (record { mode = backhaul_mode_unknown; reason = ""; remediation = "" }))
    unfolding reset get_home get_node get_profile get_enrollment get_enrollment_by_node_id
        get_active_home get_setup_complete get_backhaul_state
    reset_clears = (
      refl,
      (λ k. (
        simp (bolt.get-empty Home k),
        simp (bolt.get-empty Node k),
        simp (bolt.get-empty Profile k),
        simp (bolt.get-empty Enrollment k),
        simp (bolt.get-empty String k),
      )),
      simp (bolt.get-empty String setting_active_home),
      simp (bolt.get-empty String setting_setup_complete),
      simp (bolt.get-empty String setting_backhaul_state),
    )
