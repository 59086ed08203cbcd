-- ===== src/Store/Reads.antt =====
-- What a caller reads back after it wrote a Home, an enrollment or a setting.
use omm.Prelude.{
  String, ◌≡◌, ◌≢◌, Option, none, some, ◌==◌, arith, eq_iff, eq_refl, Option-cases, inl, inr,
  if◌then◌else◌,
}
use omm.Models.{Home, Enrollment, Bytes}
use omm.Store.Bolt.{Bolt}
use omm.Store.Result.{Result, ok, err, not_found}
use omm.Store.Db.{Db, put_record, update}
use omm.Store.Records.{get_home, upsert_home, upsert_home_tx, update_home, update_home_tx}
use omm.Store.Enrollments.{
  get_enrollment, get_enrollment_by_node_id, update_enrollment, update_enrollment_tx, drop_index,
}
use omm.Store.Laws.{found-eq-ok, get-put_record, write_keeps, update_ok, update_enrollment-Written}
use omm.Store.Invariant.{IsConsistent}

-- What `UpsertHome` stores: the record, with the certificate of the Home that was stored before.
abbrev pub certificate_or : Bytes → Option Home → Bytes
certificate_or c none = c
certificate_or c (some old) = old.certificate

abbrev pub to_option {ℓ} : {A : Type ℓ} → Result A → Option A
to_option (ok a) = some a
to_option (err e) = none

module _ (bolt : Bolt) where
  -- `old` is the record that was stored before.
  abbrev upserted : Home → Option Home → Home
  upserted home old = record home { certificate = certificate_or home.certificate old }

  get-upsert_home_tx :
      (home : Home) (db db' : Db bolt) (j : String)
      → IsConsistent bolt db
      → upsert_home_tx bolt home db ≡ ok db'
      → bolt.get Home db'.homes j ≡ (
          if home.id == j
          then some (upserted home (bolt.get Home db.homes home.id))
          else bolt.get Home db.homes j)
  unfolding upsert_home_tx
  get-upsert_home_tx home db db' j c h = elim (Option-cases (bolt.get Home db.homes home.id)) [
    | inl new ↦ rw new (
        write_keeps (P none) (put_record bolt db.homes home.id home) _
          (rw (new, upsert_home_tx) at h)
          λ b p. ground (arith, get-put_record bolt db.homes home.id j home b))
    | inr (x, at) ↦ rw at (
        write_keeps (P (some x)) (put_record bolt db.homes home.id (known x)) _
          (rw (at, upsert_home_tx) at h)
          λ b p.
            ground (
              arith,
              get-put_record bolt db.homes home.id j (known x) b,
              c.homes_keyed home.id x at,
            ))
  ]
    where
      P : Option Home → Db bolt → Type 0
      P old d =
          bolt.get Home d.homes j
          ≡ (if home.id == j then some (upserted home old) else bolt.get Home db.homes j)

      known : Home → Home
      known x = record x {
        name = home.name;
        controller = home.controller;
        bssid = home.bssid;
        last_seen = home.last_seen;
      }

  get-update_home_tx :
      (home old : Home) (db db' : Db bolt) (j : String)
      → IsConsistent bolt db
      → bolt.get Home db.homes home.id ≡ some old
      → update_home_tx bolt home db ≡ ok db'
      → bolt.get Home db'.homes j ≡ (
          if home.id == j
          then some (record home { certificate = old.certificate; last_seen = old.last_seen })
          else bolt.get Home db.homes j)
  unfolding update_home_tx
  get-update_home_tx home old db db' j c at h =
      write_keeps P (put_record bolt db.homes home.id known) _ (rw (at, update_home_tx) at h) λ b p.
        ground (arith, get-put_record bolt db.homes home.id j known b, c.homes_keyed home.id old at)
    where
      P : Db bolt → Type 0
      P d = bolt.get Home d.homes j ≡ (
          if home.id == j
          then some (record home { certificate = old.certificate; last_seen = old.last_seen })
          else bolt.get Home db.homes j)

      known : Home
      known = record old { name = home.name; controller = home.controller; bssid = home.bssid }

  -- After a successful UpsertHome on a consistent store the Home reads back with all the
  -- fields written but with the certificate that was stored before if the Home was known, and
  -- every other Home is as it was.
  pub get_home-upsert_home :
      (home : Home) (db : Db bolt) (j : String)
      → IsConsistent bolt db
      → (upsert_home bolt home db).0 ≡ ok tt
      → (get_home bolt j (upsert_home bolt home db).1).0 ≡ (
          if home.id == j
          then ok (record home {
            certificate = certificate_or home.certificate (to_option (get_home bolt home.id db).0);
          })
          else (get_home bolt j db).0)
  unfolding get_home upsert_home
  get_home-upsert_home home db j c h =
      let at_j =
        get-upsert_home_tx home db _ j c (update_ok bolt (upsert_home_tx bolt home) db h) in
      ground (arith, at_j)

  -- After a successful UpdateHome on a consistent store name, controller and BSSID are the new
  -- ones, certificate and time last seen are as they were, and every other Home is as it was.
  pub get_home-update_home :
      (home old : Home) (db : Db bolt) (j : String)
      → IsConsistent bolt db
      → (get_home bolt home.id db).0 ≡ ok old
      → (update_home bolt home db).0 ≡ ok tt
      → (get_home bolt j (update_home bolt home db).1).0 ≡ (
          if home.id == j
          then ok (record home { certificate = old.certificate; last_seen = old.last_seen })
          else (get_home bolt j db).0)
  unfolding get_home update_home
  get_home-update_home home old db j c at h =
      let at_j =
        get-update_home_tx home old db _ j c (found-eq-ok _ at)
          (update_ok bolt (update_home_tx bolt home) db h) in
      ground (arith, at_j)

  pub update_home_unknown :
      (home : Home) (db : Db bolt)
      → (get_home bolt home.id db).0 ≡ err not_found
      → update_home bolt home db ≡ (err not_found, db)
  unfolding get_home update_home update_home_tx
  update_home_unknown home db h = elim (Option-cases (bolt.get Home db.homes home.id)) [
    | inl e ↦ rw (e, update)
    | inr (x, e) ↦ ground arith
  ]

  -- A successful UpdateEnrollment is read back by its id and, where it has a node, by its
  -- node; the node that the record had before, if another, has no enrollment.
  pub get_enrollment-update_enrollment :
      (e old : Enrollment) (db : Db bolt)
      → (get_enrollment bolt e.id db).0 ≡ ok old
      → (update_enrollment bolt e db).0 ≡ ok tt
      → let db' = (update_enrollment bolt e db).1 in
        ((get_enrollment bolt e.id db').0 ≡ ok e)
        × (e.node_id ≢ "" → (get_enrollment_by_node_id bolt e.node_id db').0 ≡ ok e)
        × (old.node_id ≢ ""
            → old.node_id ≢ e.node_id
            → (get_enrollment_by_node_id bolt old.node_id db').0 ≡ err not_found)
  unfolding get_enrollment get_enrollment_by_node_id update_enrollment drop_index
  get_enrollment-update_enrollment e old db at h =
      let (x, at_old, w) =
        update_enrollment-Written bolt e db _ (update_ok bolt (update_enrollment_tx bolt e) db h) in
      (
        ground (arith, w.at_enrollment e.id, eq_refl e.id),
        (λ given. ground (
          arith,
          w.at_enrollment e.id,
          w.at_index e.node_id,
          eq_refl e.id,
          eq_refl e.node_id,
          eq_iff e.node_id "",
        )),
        (λ given moved. ground (
          arith,
          w.at_index old.node_id,
          eq_iff old.node_id e.node_id,
          eq_iff e.node_id old.node_id,
          eq_iff old.node_id "",
          eq_refl old.node_id,
          bolt.get-delete String db.enrollment_by_node old.node_id old.node_id,
        )),
      )
