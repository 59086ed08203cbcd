-- ===== src/Enrollment/Adoption.antt =====
-- When `Adopt` and `Ack` succeed, and what they decide.
use omm.Prelude.{String, ◌≡◌, ◌≢◌, refl, true, false, Bool-cases, inl, inr, [], ◌∷◌}
use omm.Prelude.Int.{ℤ}
use omm.Models.{Node, Enrollment, Status, Status-discrete, pending_approval, approved, active}
use omm.Identity.{Crypto}
use omm.Store.Bolt.{Bolt}
use omm.Store.Result.{ok}
use omm.Store.Db.{Db}
use omm.Store.Records.{get_node}
use omm.Store.Enrollments.{get_enrollment, get_enrollment_by_node_id, eq_status, eq_status-true}
use omm.Enrollment.{
  Options, Env, Reply, done, fault, calling, result, set_status, node_of, approve, adopt_pending,
  adopt, ack_found, ack, not_adoptable,
}
use omm.Enrollment.Outcomes.{node_or, calling-done, set_status-done, approve-done}
use omm.Enrollment.Decisions.{reply_status}

eq_status-false : (s t : Status) → s ≢ t → eq_status s t ≡ false
eq_status-false s t ne = elim (Bool-cases (eq_status s t)) [
  | inl y ↦ absurd (ne (eq_status-true s t y))
  | inr n ↦ n
]

eq_status_refl : (s : Status) → eq_status s s ≡ true
eq_status_refl s =
    elim (Status-discrete s s) as (λ d. elim d [ yes _ ↦ true | no _ ↦ false ] ≡ true) [
      | yes e ↦ refl
      | no n ↦ absurd (n refl)
    ]

-- A node of the Home of the enrollment, which it alone trusts, seen at the time.
abbrev pub member_of : ℤ → Enrollment → Node
member_of now e = record {
  id = e.node_id;
  serial = e.serial;
  current_home = e.home_id;
  trusted_homes = e.home_id ∷ [];
  last_seen = now;
}

module _ (bolt : Bolt) (crypto : Crypto) (opts : Options) where
  adopt_pending-done :
      (env : Env) (e : Enrollment) (db : Db bolt) (r : Reply)
      → (adopt_pending bolt crypto opts env e db).0 ≡ done r
      → (e.status ≡ pending_approval)
        × (adopt_pending bolt crypto opts env e db ≡ approve bolt crypto opts env e db)
  unfolding adopt_pending
  adopt_pending-done env e db r h = elim (Bool-cases (eq_status e.status pending_approval)) [
    | inl y ↦ (eq_status-true _ _ y, rw (y, adopt_pending))
    | inr n ↦ cc (rw (n, adopt_pending) at h)
  ]

  -- Adopt succeeds only for the enrollment of the node while it waits for approval; the reply
  -- and the record then show approved, and the node is in the inventory, as it was before or,
  -- if it was not there, as a node of the Home of the enrollment, its only trusted one.
  pub adopt_decides :
      (env : Env) (node_id : String) (db : Db bolt) (r : Reply)
      → (adopt bolt crypto opts env node_id db).0 ≡ done r
      → (e : Enrollment) × ((get_enrollment_by_node_id bolt node_id db).0 ≡ ok e)
        × (e.status ≡ pending_approval)
        × (r.status ≡ approved)
        × ((get_enrollment bolt e.id (adopt bolt crypto opts env node_id db).1).0
            ≡ ok (record e { status = approved }))
        × ((get_node bolt e.node_id (adopt bolt crypto opts env node_id db).1).0
            ≡ ok (node_or (member_of env.now e) (bolt.get Node db.nodes e.node_id)))
  unfolding adopt get_enrollment_by_node_id node_of
  adopt_decides env node_id db r h =
      let (e, p, q) =
        calling-done bolt crypto opts (get_enrollment_by_node_id bolt node_id)
          (adopt_pending bolt crypto opts env) db h in
      let h1 = rw q at h in
      let (s, same) = adopt_pending-done env e db r h1 in
      let h2 = rw same at h1 in
      let t = approve-done bolt crypto opts env e db h2 in
      (
        e,
        p,
        s,
        reply_status bolt crypto opts (record e { status = approved }) _ _ r t.0 h2,
        rw q (rw same t.1),
        rw q (rw same t.2),
      )

  -- Adopt of an enrollment that does not wait for approval is refused with ErrNotAdoptable,
  -- and nothing changes.
  pub adopt_refuses :
      (env : Env) (node_id : String) (db : Db bolt) (e : Enrollment)
      → (get_enrollment_by_node_id bolt node_id db).0 ≡ ok e
      → e.status ≢ pending_approval
      → adopt bolt crypto opts env node_id db ≡ (fault not_adoptable, db)
  unfolding adopt get_enrollment_by_node_id adopt_pending
  adopt_refuses env node_id db e at ne =
      simp (at, calling) (rw (eq_status-false e.status pending_approval ne))

  -- A successful Ack of an approved enrollment replies active, and the record reads back as
  -- active with nothing else changed.
  pub ack_approved :
      (id : String) (db : Db bolt) (e : Enrollment) (r : Reply)
      → (get_enrollment bolt id db).0 ≡ ok e
      → e.status ≡ approved
      → (ack bolt crypto opts id db).0 ≡ done r
      → (r.status ≡ active)
        × ((get_enrollment bolt e.id (ack bolt crypto opts id db).1).0
            ≡ ok (record e { status = active }))
  unfolding ack ack_found get_enrollment
  ack_approved id db e r at s h =
      let yes' : eq_status e.status approved ≡ true = rw s (eq_status_refl approved) in
      let same : ack bolt crypto opts id db ≡ set_status bolt crypto opts active e db =
        simp (at, calling) (rw (yes', ack_found)) in
      let h' = rw same at h in
      let t = set_status-done bolt crypto opts active e db h' in
      (
        reply_status bolt crypto opts (record e { status = active }) _ _ r t.reply h',
        rw same t.reads,
      )

  -- Ack of an enrollment in any other status changes nothing, and its reply is made from the
  -- record as it is stored.
  pub ack_idle :
      (id : String) (db : Db bolt) (e : Enrollment)
      → (get_enrollment bolt id db).0 ≡ ok e
      → e.status ≢ approved
      → ack bolt crypto opts id db ≡ (done (result bolt crypto opts e db), db)
  unfolding ack ack_found get_enrollment
  ack_idle id db e at ne = simp (at, calling) (rw (eq_status-false e.status approved ne))
