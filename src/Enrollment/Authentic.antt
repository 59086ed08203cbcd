-- ===== src/Enrollment/Authentic.antt =====
-- No enrollment passes `pending_verification` without a signature over its challenge that verifies
-- under its own key, whatever calls are made and whichever of them fail.
use mathlib.Core.Path.{subst}
use omm.Prelude.{
  sym, ◌∙◌, String, ◌≡◌, refl, true, false, Bool, Option, none, some, ◌==◌, arith, eq_iff,
  Bool-cases, Option-cases, inl, inr, is_empty, ◌||◌,
}
use omm.Models.{
  Bytes, Node, Enrollment, Status, pending_verification, pending_approval, approved, active,
  rejected,
}
use omm.Identity.{Crypto, node_id_from_public_key_der, verify_signature}
use omm.Store.Bolt.{Bolt}
use omm.Store.Result.{Result, ok, err, not_found, Result-cases, found}
use omm.Store.Db.{Db, update, view, put_record, get_record}
use omm.Store.Records.{create_node, create_node_tx, get_node}
use omm.Store.Enrollments.{
  create_enrollment, create_enrollment_tx, update_enrollment, update_enrollment_tx, get_enrollment,
  get_enrollment_by_node_id, find_by_node, eq_status, eq_status-true,
}
use omm.Store.Laws.{
  write_keeps, create_enrollment-Written, update_enrollment-Written, found-eq-ok, >>=-eq-ok,
  update_at,
}
use omm.Store.Invariant.{
  IsConsistent, create_enrollment-IsConsistent, update_enrollment-IsConsistent,
  create_node-IsConsistent,
}
use omm.Enrollment.{
  Options, Env, RequestInput, VerifyInput, Handler, calling, replying, set_status, node_of, approve,
  reissue, enroll, challenge_node, request, verified, check_signature, verify, adopt_pending, adopt,
  reject, ack_found, ack, auto_adopt, settle, reissued, challenging, fresh_enrollment,
}

-- The statuses that a node without a valid signature may have.
abbrev pub is_unproved : Status → Bool
is_unproved pending_verification = true
is_unproved rejected = true
is_unproved _ = false

module _ (bolt : Bolt) (crypto : Crypto) (opts : Options) where
  -- A signature over the challenge of the enrollment, under its key.
  abbrev pub Proof : Enrollment → Type 0
  Proof e = (sig : Bytes) × (verify_signature crypto e.public_key e.challenge sig ≡ some true)

  pub record IsProved (e : Enrollment) : Type 0 where
    pub named : node_id_from_public_key_der crypto e.public_key ≡ e.node_id
    pub signed : is_unproved e.status ≡ false → Proof e

  pub record IsAuthentic (db : Db bolt) : Type 0 where
    pub consistent : IsConsistent bolt db
    pub proved :
        (k : String) (e : Enrollment) → bolt.get Enrollment db.enrollments k ≡ some e → IsProved e

  module _ {A B : Type 0} where
    calling-view :
        (P : Db bolt → Type 0) (read : Db bolt → Result A) (rest : A → Handler bolt crypto opts B)
        (db : Db bolt)
        → P db
        → ((a : A) → read db ≡ ok a → P (rest a db).1)
        → P (calling bolt crypto opts (view bolt read) rest db).1
    calling-view P read rest db p h = elim (Result-cases (read db)) [
      | inl (a, e) ↦ rw (e, calling) (h a e)
      | inr (x, e) ↦ rw (e, calling) p
    ]

  calling-update :
      {B : Type 0} (P : Db bolt → Type 0) (tx : Db bolt → Result (Db bolt))
      (rest : Unit → Handler bolt crypto opts B) (db : Db bolt)
      → P db
      → ((db' : Db bolt) → tx db ≡ ok db' → P (rest tt db').1)
      → P (calling bolt crypto opts (update bolt tx) rest db).1
  calling-update P tx rest db p h = elim (Result-cases (tx db)) [
    | inl (db', e) ↦ simp (e, calling, update) (h db' e)
    | inr (x, e) ↦ simp (e, calling, update) p
  ]

  write_proved :
      (e : Enrollment) (db db' : Db bolt)
      → IsAuthentic db
      → IsProved e
      → update_enrollment_tx bolt e db ≡ ok db'
      → IsAuthentic db'
  write_proved e db db' a pe h =
      let (old, at, w) = update_enrollment-Written bolt e db db' h in
      record {
        consistent =
            subst (IsConsistent bolt) (update_at bolt (update_enrollment_tx bolt e) db db' h)
              (unfold update_enrollment in update_enrollment-IsConsistent bolt e db a.consistent);
        proved = λ k x p. elim (Bool-cases (e.id == k)) [
          | inl mine ↦ subst IsProved (ground (arith, w.at_enrollment k)) pe
          | inr other ↦ a.proved k x (ground (arith, w.at_enrollment k))
        ];
      }

  create_proved :
      (e : Enrollment) (db db' : Db bolt)
      → IsAuthentic db
      → bolt.get Enrollment db.enrollments e.id ≡ none
      → IsProved e
      → create_enrollment_tx bolt e db ≡ ok db'
      → IsAuthentic db'
  create_proved e db db' a fresh pe h =
      let w = create_enrollment-Written bolt e db db' h in
      record {
        consistent =
            subst (IsConsistent bolt) (update_at bolt (create_enrollment_tx bolt e) db db' h) (
              unfold create_enrollment in
              create_enrollment-IsConsistent bolt e db fresh a.consistent);
        proved = λ k x p. elim (Bool-cases (e.id == k)) [
          | inl mine ↦ subst IsProved (ground (arith, w.at_enrollment k)) pe
          | inr other ↦ a.proved k x (ground (arith, w.at_enrollment k))
        ];
      }

  -- A record with another status, and a signature that verifies.
  restated :
      (e : Enrollment) (s : Status) → IsProved e → Proof e → IsProved (record e { status = s })
  restated e s p sig = record { named = p.named; signed = λ _. sig }

  set_status-IsAuthentic :
      (s : Status) (e : Enrollment) (db : Db bolt)
      → IsAuthentic db
      → IsProved (record e { status = s })
      → IsAuthentic (set_status bolt crypto opts s e db).1
  unfolding set_status update_enrollment
  set_status-IsAuthentic s e db a p =
      let e' = record e { status = s } in
      calling-update IsAuthentic (update_enrollment_tx bolt e') (λ _. replying bolt crypto opts e')
        db a λ db' h. write_proved e' db db' a p h

  node-IsAuthentic :
      (n : Node) (db db' : Db bolt)
      → IsAuthentic db
      → create_node_tx bolt n db ≡ ok db'
      → IsAuthentic db'
  unfolding create_node_tx
  node-IsAuthentic n db db' a h = record {
    consistent =
        subst (IsConsistent bolt) (update_at bolt (create_node_tx bolt n) db db' h)
          (unfold create_node in create_node-IsConsistent bolt n db a.consistent);
    proved = write_keeps P (put_record bolt db.nodes n.id n) _ h (λ b p. a.proved);
  }
    where
      P : Db bolt → Type 0
      P d =
          (k : String) (e : Enrollment) → bolt.get Enrollment d.enrollments k ≡ some e → IsProved e

  approve-IsAuthentic :
      (env : Env) (e : Enrollment) (db : Db bolt)
      → IsAuthentic db
      → IsProved e
      → Proof e
      → IsAuthentic (approve bolt crypto opts env e db).1
  unfolding approve get_node create_node
  approve-IsAuthentic env e db a p sig = elim (Option-cases (bolt.get Node db.nodes e.node_id)) [
    | inl new ↦
        rw (new, approve)
          (calling-update IsAuthentic (create_node_tx bolt (node_of bolt crypto opts env e))
            (λ _. set_status bolt crypto opts approved e) db a
            λ db' h.
              set_status-IsAuthentic approved e db' (node-IsAuthentic _ db db' a h)
                (restated e approved p sig))
    | inr (n, at) ↦
        rw (at, approve) (set_status-IsAuthentic approved e db a (restated e approved p sig))
  ]

  settle-IsAuthentic :
      (env : Env) (on_link : Bool) (e : Enrollment) (db : Db bolt)
      → IsAuthentic db
      → IsProved e
      → Proof e
      → IsAuthentic (settle bolt crypto opts env on_link e db).1
  unfolding settle
  settle-IsAuthentic env on_link e db a p sig =
      elim (Bool-cases (auto_adopt opts.adopt_policy on_link)) [
        | inl y ↦ rw (y, settle) (approve-IsAuthentic env e db a p sig)
        | inr n ↦ rw (n, settle) a
      ]

  check_signature-IsAuthentic :
      (env : Env) (on_link : Bool) (input : VerifyInput) (e : Enrollment) (db : Db bolt)
      → IsAuthentic db
      → IsProved e
      → IsAuthentic (check_signature bolt crypto opts env on_link input e db).1
  unfolding check_signature verified update_enrollment
  check_signature-IsAuthentic env on_link input e db a p =
      go (verify_signature crypto e.public_key e.challenge input.signature) refl
    where
      go :
          (o : Option Bool)
          → verify_signature crypto e.public_key e.challenge input.signature ≡ o
          → IsAuthentic (check_signature bolt crypto opts env on_link input e db).1
      go (some true) h =
          let sig : Proof e = (input.signature, h) in
          let e' = record e { status = pending_approval } in
          let p' = restated e pending_approval p sig in
          rw (h, check_signature)
            (calling-update IsAuthentic (update_enrollment_tx bolt e')
              (λ _. settle bolt crypto opts env on_link e') db a
              λ db' w. settle-IsAuthentic env on_link e' db' (write_proved e' db db' a p' w) p' sig)
      go (some false) h = rw (h, check_signature) a
      go none h = rw (h, check_signature) a

  pub verify-IsAuthentic :
      (env : Env) (on_link : Bool) (input : VerifyInput) (db : Db bolt)
      → IsAuthentic db
      → IsAuthentic (verify bolt crypto opts env on_link input db).1
  unfolding verify get_enrollment
  verify-IsAuthentic env on_link input db a =
      calling-view IsAuthentic (λ d. get_record bolt d.enrollments input.enrollment_id)
        (check_signature bolt crypto opts env on_link input) db a
        λ e h.
          check_signature-IsAuthentic env on_link input e db a
            (a.proved input.enrollment_id e (found-eq-ok _ h))

  -- The record that the node index leads to.
  found_by_node :
      (node_id : String) (db : Db bolt) (e : Enrollment)
      → IsAuthentic db
      → find_by_node bolt node_id db ≡ ok e
      → IsProved e × (e.node_id ≡ node_id)
  found_by_node node_id db e a h =
      let (id, p, q) = >>=-eq-ok (found (bolt.get String db.enrollment_by_node node_id)) _ h in
      let (x, at, node) = a.consistent.indexed node_id id (found-eq-ok _ p) in
      (a.proved id e (found-eq-ok _ q), ground (arith, at, node, q))

  adopt_pending-IsAuthentic :
      (env : Env) (e : Enrollment) (db : Db bolt)
      → IsAuthentic db
      → IsProved e
      → IsAuthentic (adopt_pending bolt crypto opts env e db).1
  unfolding adopt_pending
  adopt_pending-IsAuthentic env e db a p = elim (Bool-cases (eq_status e.status pending_approval)) [
    | inl y ↦
        rw (y, adopt_pending)
          (approve-IsAuthentic env e db a p (p.signed (rw (eq_status-true _ _ y))))
    | inr n ↦ rw (n, adopt_pending) a
  ]

  pub adopt-IsAuthentic :
      (env : Env) (node_id : String) (db : Db bolt)
      → IsAuthentic db
      → IsAuthentic (adopt bolt crypto opts env node_id db).1
  unfolding adopt get_enrollment_by_node_id
  adopt-IsAuthentic env node_id db a =
      calling-view IsAuthentic (find_by_node bolt node_id) (adopt_pending bolt crypto opts env) db a
        λ e h. adopt_pending-IsAuthentic env e db a (found_by_node node_id db e a h).0

  pub reject-IsAuthentic :
      (node_id : String) (db : Db bolt)
      → IsAuthentic db
      → IsAuthentic (reject bolt crypto opts node_id db).1
  unfolding reject get_enrollment_by_node_id
  reject-IsAuthentic node_id db a =
      calling-view IsAuthentic (find_by_node bolt node_id) (set_status bolt crypto opts rejected) db
        a
        λ e h.
          set_status-IsAuthentic rejected e db a
            (record { named = (found_by_node node_id db e a h).0.named; signed = λ no_proof. cc })

  ack_found-IsAuthentic :
      (e : Enrollment) (db : Db bolt)
      → IsAuthentic db
      → IsProved e
      → IsAuthentic (ack_found bolt crypto opts e db).1
  unfolding ack_found
  ack_found-IsAuthentic e db a p = elim (Bool-cases (eq_status e.status approved)) [
    | inl y ↦
        rw (y, ack_found)
          (set_status-IsAuthentic active e db a
            (restated e active p (p.signed (rw (eq_status-true _ _ y)))))
    | inr n ↦ rw (n, ack_found) a
  ]

  pub ack-IsAuthentic :
      (id : String) (db : Db bolt) → IsAuthentic db → IsAuthentic (ack bolt crypto opts id db).1
  unfolding ack get_enrollment
  ack-IsAuthentic id db a =
      calling-view IsAuthentic (λ d. get_record bolt d.enrollments id) (ack_found bolt crypto opts)
        db a λ e h. ack_found-IsAuthentic e db a (a.proved id e (found-eq-ok _ h))

  challenge_node-IsAuthentic :
      (env : Env) (input : RequestInput) (challenge : Bytes) (db : Db bolt)
      → bolt.get Enrollment db.enrollments env.new_id ≡ none
      → node_id_from_public_key_der crypto input.public_key ≡ input.node_id
      → IsAuthentic db
      → IsAuthentic (challenge_node bolt crypto opts env input challenge db).1
  unfolding challenge_node get_enrollment_by_node_id
  challenge_node-IsAuthentic env input challenge db fresh named a =
      go (find_by_node bolt input.node_id db) refl
    where
      go :
          (r : Result Enrollment)
          → find_by_node bolt input.node_id db ≡ r
          → IsAuthentic (challenge_node bolt crypto opts env input challenge db).1
      go (ok e) h =
          let e' = reissued bolt crypto opts input challenge e in
          let p' : IsProved e' = record {
            named = named ∙ sym (found_by_node input.node_id db e a h).1;
            signed = λ no_proof. cc;
          } in
          rw (h, challenge_node)
            (unfold reissue update_enrollment in
              calling-update IsAuthentic (update_enrollment_tx bolt e')
                (λ _. challenging bolt crypto opts e.id challenge) db a
                λ db' w. write_proved e' db db' a p' w)
      go (err not_found) h =
          let e' = fresh_enrollment bolt crypto opts env input challenge in
          rw (h, challenge_node)
            (unfold enroll create_enrollment in
              calling-update IsAuthentic (create_enrollment_tx bolt e')
                (λ _. challenging bolt crypto opts env.new_id challenge) db a
                λ db' w.
                  create_proved e' db db' a fresh
                    (record { named = named; signed = λ no_proof. cc }) w)
      go (err _) h = rw (h, challenge_node) a

  pub request-IsAuthentic :
      (env : Env) (input : RequestInput) (db : Db bolt)
      → bolt.get Enrollment db.enrollments env.new_id ≡ none
      → IsAuthentic db
      → IsAuthentic (request bolt crypto opts env input db).1
  unfolding request
  request-IsAuthentic env input db fresh a =
      elim (Bool-cases (input.node_id == "" || is_empty input.public_key)) [
        | inl y ↦ rw (y, request) a
        | inr n ↦
            elim (Bool-cases
              (node_id_from_public_key_der crypto input.public_key == input.node_id)) [
                | inr m ↦ rw (n, m, request) a
                | inl m ↦ elim (Option-cases env.entropy) [
                  | inl e ↦ rw (n, m, e, request) a
                  | inr (c, e) ↦
                      rw (n, m, e, request)
                        (challenge_node-IsAuthentic env input c db fresh ((eq_iff _ _).0 m) a)
                ]
              ]
      ]
