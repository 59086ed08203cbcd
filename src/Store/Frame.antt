-- ===== src/Store/Frame.antt =====
-- The calls that change neither a Home nor the active Home.
use mathlib.Core.Path.{subst}
use omm.Prelude.{String, Bool, ◌≡◌, refl, ◌∙◌, ◌==◌, arith, Option-cases, inl, inr}
use omm.Models.{Node, Profile, Enrollment, BackhaulState}
use omm.Store.Bolt.{Bolt}
use omm.Store.Result.{Result, ok, ◌>>=◌}
use omm.Store.Db.{Db, update, put_record}
use omm.Store.Records.{
  create_node, create_node_tx, create_or_update_profile, create_or_update_profile_tx,
}
use omm.Store.Enrollments.{
  create_enrollment, create_enrollment_tx, update_enrollment, update_enrollment_tx, index_node,
  drop_index,
}
use omm.Store.Removal.{delete_node, delete_node_tx, drop_enrollment_of}
use omm.Store.Settings.{
  get_active_home, set_setup_complete, set_backhaul_state, set_setting_tx, setting_active_home,
  setting_setup_complete, setting_backhaul_state,
}
use omm.Store.Laws.{update_keeps, write_keeps, >>=-eq-ok, ok-injective}
use omm.Store.SettingsReads.{get-set_setting_tx}

module _ (bolt : Bolt) where
  -- The Homes and the active Home are the same.
  abbrev pub IsSameHomes : Db bolt → Db bolt → Type 0
  IsSameHomes db db' =
      (db'.homes ≡ db.homes) × ((get_active_home bolt db').0 ≡ (get_active_home bolt db).0)

  abbrev pub IsFrame : {X : Type 0} → (Db bolt → X × Db bolt) → Type 0
  IsFrame f = (db : Db bolt) → IsSameHomes db (f db).1

  pub IsSameHomes-trans : (a b c : Db bolt) → IsSameHomes a b → IsSameHomes b c → IsSameHomes a c
  IsSameHomes-trans a b c ab bc = (bc.0 ∙ ab.0, bc.1 ∙ ab.1)

  -- A transaction that keeps the buckets of the Homes and of the settings.
  update-IsFrame :
      (tx : Db bolt → Result (Db bolt))
      → ((db db' : Db bolt)
          → tx db ≡ ok db'
          → (db'.homes ≡ db.homes) × (db'.settings ≡ db.settings))
      → IsFrame (update bolt tx)
  unfolding get_active_home
  update-IsFrame tx h db =
      update_keeps bolt (IsSameHomes db) tx db (refl, refl)
        λ db' e. let (homes, settings) = h db db' e in (homes, rw settings refl)

  pub create_node-IsFrame : (n : Node) → IsFrame (create_node bolt n)
  unfolding create_node create_node_tx
  create_node-IsFrame n = update-IsFrame (create_node_tx bolt n) λ db db' h.
      write_keeps (λ (d : Db bolt). (d.homes ≡ db.homes) × (d.settings ≡ db.settings))
        (put_record bolt db.nodes n.id n) _ h λ b p. (refl, refl)

  pub create_or_update_profile-IsFrame : (p : Profile) → IsFrame (create_or_update_profile bolt p)
  unfolding create_or_update_profile create_or_update_profile_tx
  create_or_update_profile-IsFrame p =
      update-IsFrame (create_or_update_profile_tx bolt p) λ db db' h.
        write_keeps (λ (d : Db bolt). (d.homes ≡ db.homes) × (d.settings ≡ db.settings))
          (put_record bolt db.profiles p.home_id p) _ h λ b q. (refl, refl)

  pub create_enrollment-IsFrame : (e : Enrollment) → IsFrame (create_enrollment bolt e)
  unfolding create_enrollment create_enrollment_tx
  create_enrollment-IsFrame e = update-IsFrame (create_enrollment_tx bolt e) λ db db' h.
      let (b, p, q) = >>=-eq-ok (put_record bolt db.enrollments e.id e) _ h in
      write_keeps (λ (d : Db bolt). (d.homes ≡ db.homes) × (d.settings ≡ db.settings))
        (index_node bolt db.enrollment_by_node e) _ q λ idx r. (refl, refl)

  pub update_enrollment-IsFrame : (e : Enrollment) → IsFrame (update_enrollment bolt e)
  unfolding update_enrollment update_enrollment_tx
  update_enrollment-IsFrame e = update-IsFrame (update_enrollment_tx bolt e) λ db db' h.
      elim (Option-cases (bolt.get Enrollment db.enrollments e.id)) [
        | inl gone ↦ cc (rw (gone, update_enrollment_tx) at h)
        | inr (old, at) ↦
            let (b, p, q) =
              >>=-eq-ok (put_record bolt db.enrollments e.id e)
                (λ b. do
                  idx ← index_node bolt (drop_index bolt db.enrollment_by_node old e) e
                  ok (record db { enrollments = b; enrollment_by_node = idx }))
                (rw (at, update_enrollment_tx) at h) in
            write_keeps (λ (d : Db bolt). (d.homes ≡ db.homes) × (d.settings ≡ db.settings))
              (index_node bolt (drop_index bolt db.enrollment_by_node old e) e) _ q
              λ idx r. (refl, refl)
      ]

  drop_enrollment_of_rest :
      (id : String) (db : Db bolt)
      → let db' = drop_enrollment_of bolt id db in
        (db'.homes ≡ db.homes) × (db'.settings ≡ db.settings)
  unfolding drop_enrollment_of
  drop_enrollment_of_rest id db = elim (Option-cases (bolt.get String db.enrollment_by_node id)) [
    | inl e ↦ rw (e, drop_enrollment_of) (refl, refl)
    | inr (x, e) ↦ rw (e, drop_enrollment_of) (refl, refl)
  ]

  pub delete_node-IsFrame : (id : String) → IsFrame (delete_node bolt id)
  unfolding delete_node delete_node_tx
  delete_node-IsFrame id = update-IsFrame (delete_node_tx bolt id) λ db db' h.
      elim (Option-cases (bolt.get Node db.nodes id)) [
        | inl gone ↦ cc (rw (gone, delete_node_tx) at h)
        | inr (n, at) ↦
            let removed : Db bolt = record db { nodes = bolt.delete Node db.nodes id } in
            subst (λ (d : Db bolt). (d.homes ≡ db.homes) × (d.settings ≡ db.settings))
              (ok-injective (rw (at, delete_node_tx) at h)) (drop_enrollment_of_rest id removed)
      ]

  pub homes-set_setting_tx :
      (key value : String) (db db' : Db bolt)
      → set_setting_tx bolt key value db ≡ ok db'
      → db'.homes ≡ db.homes
  unfolding set_setting_tx
  homes-set_setting_tx key value db db' h =
      write_keeps (λ (d : Db bolt). d.homes ≡ db.homes) (put_record bolt db.settings key value) _ h
        λ b p. refl

  -- A setting other than the active Home.
  set_setting-IsFrame :
      (key value : String)
      → (key == setting_active_home) ≡ Bool.false
      → IsFrame (update bolt (set_setting_tx bolt key value))
  unfolding get_active_home
  set_setting-IsFrame key value ne db =
      update_keeps bolt (IsSameHomes db) (set_setting_tx bolt key value) db (refl, refl)
        λ db' h. (
          homes-set_setting_tx key value db db' h,
          ground (arith, get-set_setting_tx bolt key value db db' setting_active_home h),
        )

  pub set_setup_complete-IsFrame : (b : Bool) → IsFrame (set_setup_complete bolt b)
  unfolding set_setup_complete
  set_setup_complete-IsFrame b = set_setting-IsFrame setting_setup_complete _ refl

  pub set_backhaul_state-IsFrame : (s : BackhaulState) → IsFrame (set_backhaul_state bolt s)
  unfolding set_backhaul_state
  set_backhaul_state-IsFrame s = set_setting-IsFrame setting_backhaul_state _ refl

  pub get_active_home-IsFrame : IsFrame (get_active_home bolt)
  unfolding get_active_home
  get_active_home-IsFrame db = (refl, refl)
