-- ===== src/Enrollment/Decisions.antt =====
-- When `Verify`, `Adopt`, `Reject` and `Ack` succeed, and what they decide.
use omm.Prelude.{
  ◌≡◌, ◌≢◌, refl, true, false, Bool, Option, none, some, arith, eq_refl, Bool-cases, inl, inr,
  if◌then◌else◌,
}
use omm.Models.{Enrollment, Status, pending_approval, approved}
use omm.Identity.{Crypto, verify_signature}
use omm.Store.Bolt.{Bolt}
use omm.Store.Result.{ok}
use omm.Store.Db.{Db}
use omm.Store.Enrollments.{update_enrollment, update_enrollment_tx, get_enrollment}
use omm.Store.Laws.{update_ok, update_enrollment-Written}
use omm.Enrollment.{
  Options, Env, VerifyInput, Reply, Outcome, done, fault, calling, result, settle, verified,
  check_signature, verify, auto_adopt, invalid_signature,
}
use omm.Enrollment.Outcomes.{calling-done, approve-done, status-result}

module _ (bolt : Bolt) (crypto : Crypto) (opts : Options) where
  -- The status that a signature which verifies leads to.
  abbrev pub settled : Bool → Status
  settled on_link = if auto_adopt opts.adopt_policy on_link then approved else pending_approval

  pub reply_status :
      (e : Enrollment) (db : Db bolt) (o : Outcome Reply) (r : Reply)
      → o ≡ done (result bolt crypto opts e db)
      → o ≡ done r
      → r.status ≡ e.status
  reply_status e db o r p q = ground (arith, status-result bolt crypto opts e db)

  settle-done :
      (env : Env) (on_link : Bool) (e : Enrollment) (db : Db bolt) (r : Reply)
      → e.status ≡ pending_approval
      → (get_enrollment bolt e.id db).0 ≡ ok e
      → (settle bolt crypto opts env on_link e db).0 ≡ done r
      → (r.status ≡ settled on_link)
        × ((get_enrollment bolt e.id (settle bolt crypto opts env on_link e db).1).0
            ≡ ok (record e { status = settled on_link }))
  unfolding settle
  settle-done env on_link e db r s at h = elim (Bool-cases (auto_adopt opts.adopt_policy on_link)) [
    | inl y ↦
        let h' = rw (y, settle) at h in
        let t = approve-done bolt crypto opts env e db h' in
        rw (y, settle) (reply_status (record e { status = approved }) _ _ r t.0 h', t.1)
    | inr n ↦
        let h' = rw (n, settle) at h in
        rw (n, settle) (ground (arith, reply_status e db _ r refl h'), ground arith)
  ]

  verified-done :
      (env : Env) (on_link : Bool) (e : Enrollment) (db : Db bolt) (r : Reply)
      → (verified bolt crypto opts env on_link e db).0 ≡ done r
      → (r.status ≡ settled on_link)
        × ((get_enrollment bolt e.id (verified bolt crypto opts env on_link e db).1).0
            ≡ ok (record e { status = settled on_link }))
  unfolding verified update_enrollment
  verified-done env on_link e db r h =
      let e' = record e { status = pending_approval } in
      let (u, p, q) =
        calling-done bolt crypto opts (update_enrollment bolt e')
          (λ _. settle bolt crypto opts env on_link e') db h in
      let db1 = (update_enrollment bolt e' db).1 in
      let (x, at, w) =
        update_enrollment-Written bolt e' db _
          (update_ok bolt (update_enrollment_tx bolt e') db p) in
      let stored : (get_enrollment bolt e.id db1).0 ≡ ok e' =
        unfold get_enrollment in ground (arith, w.at_enrollment e.id, eq_refl e.id) in
      rw q (settle-done env on_link e' db1 r refl stored (rw q at h))

  check_signature-done :
      (env : Env) (on_link : Bool) (input : VerifyInput) (e : Enrollment) (db : Db bolt) (r : Reply)
      → (check_signature bolt crypto opts env on_link input e db).0 ≡ done r
      → (verify_signature crypto e.public_key e.challenge input.signature ≡ some true)
        × (check_signature bolt crypto opts env on_link input e db
            ≡ verified bolt crypto opts env on_link e db)
  unfolding check_signature
  check_signature-done env on_link input e db r h =
      go (verify_signature crypto e.public_key e.challenge input.signature) refl
    where
      go :
          (o : Option Bool)
          → verify_signature crypto e.public_key e.challenge input.signature ≡ o
          → (verify_signature crypto e.public_key e.challenge input.signature ≡ some true)
            × (check_signature bolt crypto opts env on_link input e db
                ≡ verified bolt crypto opts env on_link e db)
      go (some true) p = (p, rw (p, check_signature))
      go (some false) p = cc (rw (p, check_signature) at h)
      go none p = cc (rw (p, check_signature) at h)

  -- Verify succeeds only for a stored enrollment and a signature that verifies over its
  -- challenge; the reply and the record then show approved if the policy adopts and
  -- pending_approval if not, whatever the status was before, and nothing else in the record
  -- changes.
  pub verify_decides :
      (env : Env) (on_link : Bool) (input : VerifyInput) (db : Db bolt) (r : Reply)
      → (verify bolt crypto opts env on_link input db).0 ≡ done r
      → (e : Enrollment) × ((get_enrollment bolt input.enrollment_id db).0 ≡ ok e)
        × (verify_signature crypto e.public_key e.challenge input.signature ≡ some true)
        × (r.status ≡ settled on_link)
        × ((get_enrollment bolt e.id (verify bolt crypto opts env on_link input db).1).0
            ≡ ok (record e { status = settled on_link }))
  unfolding verify
  verify_decides env on_link input db r h =
      let (e, p, q) =
        calling-done bolt crypto opts (get_enrollment bolt input.enrollment_id)
          (check_signature bolt crypto opts env on_link input) db h in
      let db1 = (get_enrollment bolt input.enrollment_id db).1 in
      let (sig, same) = check_signature-done env on_link input e db1 r (rw q at h) in
      let (s, stored) = verified-done env on_link e db1 r (rw same at (rw q at h)) in
      (e, p, sig, s, rw q (rw same stored))

  -- A signature that does not verify over the stored challenge, or a key that cannot be read,
  -- is refused with ErrInvalidSignature, and nothing changes.
  pub verify_refuses :
      (env : Env) (on_link : Bool) (input : VerifyInput) (db : Db bolt) (e : Enrollment)
      → (get_enrollment bolt input.enrollment_id db).0 ≡ ok e
      → verify_signature crypto e.public_key e.challenge input.signature ≢ some true
      → verify bolt crypto opts env on_link input db ≡ (fault invalid_signature, db)
  unfolding verify get_enrollment check_signature
  verify_refuses env on_link input db e at bad =
      go (verify_signature crypto e.public_key e.challenge input.signature) refl
    where
      go :
          (o : Option Bool)
          → verify_signature crypto e.public_key e.challenge input.signature ≡ o
          → verify bolt crypto opts env on_link input db ≡ (fault invalid_signature, db)
      go (some true) p = absurd (bad p)
      go (some false) p = simp (at, calling) (rw (p, check_signature))
      go none p = simp (at, calling) (rw (p, check_signature))
