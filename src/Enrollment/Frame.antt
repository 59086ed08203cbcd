-- ===== src/Enrollment/Frame.antt =====
-- The enrollment service changes neither a Home nor the active Home.
use omm.Prelude.{
  String, Bool, Bool-cases, Option-cases, inl, inr, Option, refl, ◌==◌, ◌||◌, not, is_empty,
}
use omm.Models.{Enrollment, Status, pending_approval, approved, active, rejected}
use omm.Identity.{Crypto, node_id_from_public_key_der, verify_signature}
use omm.Store.Bolt.{Bolt}
use omm.Store.Result.{Error, not_found, Result-cases}
use omm.Store.Db.{Exec}
use omm.Store.Records.{create_node, get_node}
use omm.Store.Enrollments.{
  create_enrollment, get_enrollment, get_enrollment_by_node_id, list_enrollments, update_enrollment,
  eq_status,
}
use omm.Store.Frame.{
  IsFrame, IsSameHomes-trans, create_node-IsFrame, create_enrollment-IsFrame,
  update_enrollment-IsFrame,
}
use omm.Enrollment.{
  Options, Env, RequestInput, VerifyInput, Handler, calling, replying, set_status, node_of, approve,
  reissue, enroll, challenge_node, request, verified, check_signature, verify, adopt_pending, adopt,
  reject, ack_found, ack, auto_adopt, settle, reissued, challenging, fresh_enrollment, get, list,
  done,
}

module _ (bolt : Bolt) (crypto : Crypto) (opts : Options) where
  -- A call that is a frame, and whatever follows it.
  calling-IsFrame :
      {A B : Type 0} (call : Exec bolt A) (rest : A → Handler bolt crypto opts B)
      → IsFrame bolt call
      → ((a : A) → IsFrame bolt (rest a))
      → IsFrame bolt (calling bolt crypto opts call rest)
  calling-IsFrame call rest hc hr db = elim (Result-cases (call db).0) [
    | inl (a, e) ↦
        rw (e, calling) (IsSameHomes-trans bolt db (call db).1 _ (hc db) (hr a (call db).1))
    | inr (x, e) ↦ rw (e, calling) (hc db)
  ]

  set_status-IsFrame :
      (s : Status) (e : Enrollment) → IsFrame bolt (set_status bolt crypto opts s e)
  unfolding set_status
  set_status-IsFrame s e =
      let e' = record e { status = s } in
      calling-IsFrame (update_enrollment bolt e') (λ _. replying bolt crypto opts e')
        (update_enrollment-IsFrame bolt e') λ _ db. (refl, refl)

  approve-IsFrame : (env : Env) (e : Enrollment) → IsFrame bolt (approve bolt crypto opts env e)
  unfolding approve get_node
  approve-IsFrame env e db = elim (Option-cases (bolt.get _ db.nodes e.node_id)) [
    | inl new ↦
        rw (new, approve)
          (calling-IsFrame (create_node bolt (node_of bolt crypto opts env e))
            (λ _. set_status bolt crypto opts approved e) (create_node-IsFrame bolt _)
            (λ _. set_status-IsFrame approved e) db)
    | inr (n, at) ↦ rw (at, approve) (set_status-IsFrame approved e db)
  ]

  settle-IsFrame :
      (env : Env) (on_link : Bool) (e : Enrollment)
      → IsFrame bolt (settle bolt crypto opts env on_link e)
  unfolding settle
  settle-IsFrame env on_link e db = elim (Bool-cases (auto_adopt opts.adopt_policy on_link)) [
    | inl p ↦ rw p (approve-IsFrame env e db)
    | inr p ↦ rw p (refl, refl)
  ]

  check_signature-IsFrame :
      (env : Env) (on_link : Bool) (input : VerifyInput) (e : Enrollment)
      → IsFrame bolt (check_signature bolt crypto opts env on_link input e)
  unfolding check_signature verified
  check_signature-IsFrame env on_link input e db =
      elim (Option-cases (verify_signature crypto e.public_key e.challenge input.signature)) [
        | inl p ↦ rw (p, check_signature) (refl, refl)
        | inr (right, p) ↦ elim (Bool-cases right) [
          | inl q ↦
              rw (p, check_signature, q)
                (calling-IsFrame (update_enrollment bolt (record e { status = pending_approval }))
                  (λ _.
                    settle bolt crypto opts env on_link (record e { status = pending_approval }))
                  (update_enrollment-IsFrame bolt _)
                  (λ _. settle-IsFrame env on_link (record e { status = pending_approval })) db)
          | inr q ↦ rw (p, check_signature, q) (refl, refl)
        ]
      ]

  pub verify-IsFrame :
      (env : Env) (on_link : Bool) (input : VerifyInput)
      → IsFrame bolt (verify bolt crypto opts env on_link input)
  unfolding verify get_enrollment
  verify-IsFrame env on_link input =
      calling-IsFrame (get_enrollment bolt input.enrollment_id) _ (λ db. (refl, refl))
        (check_signature-IsFrame env on_link input)

  pub adopt-IsFrame : (env : Env) (id : String) → IsFrame bolt (adopt bolt crypto opts env id)
  unfolding adopt adopt_pending get_enrollment_by_node_id
  adopt-IsFrame env id =
      calling-IsFrame (get_enrollment_by_node_id bolt id) _ (λ db. (refl, refl))
        λ e db. elim (Bool-cases (eq_status e.status pending_approval)) [
          | inl p ↦ rw p (approve-IsFrame env e db)
          | inr p ↦ rw p (refl, refl)
        ]

  pub reject-IsFrame : (id : String) → IsFrame bolt (reject bolt crypto opts id)
  unfolding reject get_enrollment_by_node_id
  reject-IsFrame id =
      calling-IsFrame (get_enrollment_by_node_id bolt id) _ (λ db. (refl, refl))
        (set_status-IsFrame rejected)

  pub ack-IsFrame : (id : String) → IsFrame bolt (ack bolt crypto opts id)
  unfolding ack ack_found get_enrollment
  ack-IsFrame id =
      calling-IsFrame (get_enrollment bolt id) _ (λ db. (refl, refl))
        λ e db. elim (Bool-cases (eq_status e.status approved)) [
          | inl p ↦ rw p (set_status-IsFrame active e db)
          | inr p ↦ rw p (refl, refl)
        ]

  pub get-IsFrame : (id : String) → IsFrame bolt (get bolt crypto opts id)
  unfolding get get_enrollment
  get-IsFrame id =
      calling-IsFrame (get_enrollment bolt id) _ (λ db. (refl, refl)) λ e db. (refl, refl)

  pub list-IsFrame : (s : Option Status) → IsFrame bolt (list bolt crypto opts s)
  unfolding list list_enrollments
  list-IsFrame s =
      calling-IsFrame (list_enrollments bolt s) (λ es db. (done es, db)) (λ db. (refl, refl))
        λ es db. (refl, refl)

  challenge_node-IsFrame :
      (env : Env) (input : RequestInput) (challenge : _)
      → IsFrame bolt (challenge_node bolt crypto opts env input challenge)
  unfolding challenge_node reissue enroll get_enrollment_by_node_id
  challenge_node-IsFrame env input challenge db =
      elim (Result-cases (get_enrollment_by_node_id bolt input.node_id db).0) [
        | inl (x, p) ↦
            rw (p, challenge_node)
              (calling-IsFrame
                (update_enrollment bolt (reissued bolt crypto opts input challenge x))
                (λ _. challenging bolt crypto opts x.id challenge)
                (update_enrollment-IsFrame bolt _) (λ _ db. (refl, refl)) db)
        | inr (not_found, p) ↦
            rw (p, challenge_node)
              (calling-IsFrame
                (create_enrollment bolt (fresh_enrollment bolt crypto opts env input challenge))
                (λ _. challenging bolt crypto opts env.new_id challenge)
                (create_enrollment-IsFrame bolt _) (λ _ db. (refl, refl)) db)
        | inr (Error.refused, p) ↦ rw (p, challenge_node) (refl, refl)
        | inr (Error.corrupt, p) ↦ rw (p, challenge_node) (refl, refl)
      ]

  pub request-IsFrame :
      (env : Env) (input : RequestInput) → IsFrame bolt (request bolt crypto opts env input)
  unfolding request
  request-IsFrame env input db =
      elim (Bool-cases (input.node_id == "" || is_empty input.public_key)) [
        | inl p ↦ rw p (refl, refl)
        | inr p ↦
            elim (Bool-cases
              (not (node_id_from_public_key_der crypto input.public_key == input.node_id))) [
                | inl q ↦ rw (p, q) (refl, refl)
                | inr q ↦ elim (Option-cases env.entropy) [
                  | inl r ↦ rw (p, q, r) (refl, refl)
                  | inr (bytes, r) ↦ rw (p, q, r) (challenge_node-IsFrame env input bytes db)
                ]
              ]
      ]
