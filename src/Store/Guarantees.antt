-- ===== src/Store/Guarantees.antt =====
-- What the store promises its callers about Homes and nodes.
use omm.Prelude.{String, ◌≡◌, ◌≢◌, refl, false, ◌==◌, arith, eq_iff, Option-cases, inl, inr}
use omm.Models.{Home, Node, Enrollment}
use omm.Store.Bolt.{Bolt}
use omm.Store.Result.{ok, err, not_found}
use omm.Store.Db.{Db, update}
use omm.Store.Records.{get_home, get_profile, get_node}
use omm.Store.Enrollments.{get_enrollment}
use omm.Store.Removal.{delete_home, delete_home_tx, is_member, strip_home, contains}
use omm.Store.Laws.{update_ok}
use omm.Store.Strip.{is_member-strip_home, contains-without_ne}
use omm.Store.Invariant.{IsConsistent}
use omm.Store.Deletion.{HomeDeleted, delete_home-HomeDeleted}

module _ (bolt : Bolt) (id : String) (db : Db bolt) where
  abbrev after_delete : Db bolt
  after_delete = (delete_home bolt id db).1

  delete_home_ok :
      IsConsistent bolt db
      → (delete_home bolt id db).0 ≡ ok tt
      → HomeDeleted bolt id db after_delete
  unfolding delete_home
  delete_home_ok c h =
      delete_home-HomeDeleted bolt id db _ c (update_ok bolt (delete_home_tx bolt id) db h)

  home-ne-blank : HomeDeleted bolt id db after_delete → (id == "") ≡ false
  home-ne-blank d =
      let (x, at) = d.was in ground (arith, eq_iff id "", bolt.get-blank Home db.homes)

  -- After a successful DeleteHome on a consistent store the Home and its profile are not
  -- found, every enrollment still stored belongs to another Home, and no stored node has the
  -- Home as its current or a trusted one.
  pub delete_home_removes_all :
      IsConsistent bolt db
      → (delete_home bolt id db).0 ≡ ok tt
      → ((get_home bolt id after_delete).0 ≡ err not_found)
        × ((get_profile bolt id after_delete).0 ≡ err not_found)
        × ((k : String) (e : Enrollment)
            → (get_enrollment bolt k after_delete).0 ≡ ok e
            → e.home_id ≢ id)
        × ((k : String) (n : Node)
            → (get_node bolt k after_delete).0 ≡ ok n
            → (n.current_home ≢ id) × (contains id n.trusted_homes ≡ false))
  unfolding get_home get_profile get_enrollment get_node is_member
  delete_home_removes_all c h =
      let d = delete_home_ok c h in
      (
        ground (arith, d.at_home id, eq_iff id id),
        ground (arith, d.at_profile id, eq_iff id id),
        (λ k e p. ground (arith, d.at_enrollment k, eq_iff e.home_id id)),
        (λ k n p. elim (Option-cases (bolt.get Node db.nodes k)) [
          | inl gone ↦ absurd (ground (arith, d.at_node k))
          | inr (m, at) ↦
              let clean = is_member-strip_home id m (home-ne-blank d) in
              ground (arith, d.at_node k, eq_iff n.current_home id)
        ]),
      )

  -- A successful DeleteHome on a consistent store keeps every other Home and its profile,
  -- every enrollment of another Home, and every node with its id, serial, time last seen and
  -- its other trusted Homes.
  pub delete_home_keeps_rest :
      IsConsistent bolt db
      → (delete_home bolt id db).0 ≡ ok tt
      → ((j : String)
          → j ≢ id
          → ((get_home bolt j after_delete).0 ≡ (get_home bolt j db).0)
            × ((get_profile bolt j after_delete).0 ≡ (get_profile bolt j db).0))
        × ((k : String) (e : Enrollment)
            → (get_enrollment bolt k db).0 ≡ ok e
            → e.home_id ≢ id
            → (get_enrollment bolt k after_delete).0 ≡ ok e)
        × ((k : String) (n : Node)
            → (get_node bolt k db).0 ≡ ok n
            → (m : Node) × ((get_node bolt k after_delete).0 ≡ ok m)
              × (m.id ≡ n.id)
              × (m.serial ≡ n.serial)
              × (m.last_seen ≡ n.last_seen)
              × ((h : String) → h ≢ id → contains h m.trusted_homes ≡ contains h n.trusted_homes))
  unfolding get_home get_profile get_enrollment get_node strip_home
  delete_home_keeps_rest c h =
      let d = delete_home_ok c h in
      (
        (λ j ne. (
          ground (arith, d.at_home j, eq_iff id j),
          ground (arith, d.at_profile j, eq_iff id j),
        )),
        (λ k e p ne. ground (arith, d.at_enrollment k, eq_iff e.home_id id)),
        (λ k n p. (
          strip_home id n,
          ground (arith, d.at_node k),
          refl,
          refl,
          refl,
          λ g ne. contains-without_ne id g n.trusted_homes (ground (arith, eq_iff id g)),
        )),
      )

  -- DeleteHome of a Home that is not stored fails with ErrNotFound, and nothing changes.
  pub delete_home_unknown :
      (get_home bolt id db).0 ≡ err not_found → delete_home bolt id db ≡ (err not_found, db)
  unfolding get_home delete_home delete_home_tx
  delete_home_unknown h = elim (Option-cases (bolt.get Home db.homes id)) [
    | inl e ↦ rw (e, update)
    | inr (x, e) ↦ ground arith
  ]
