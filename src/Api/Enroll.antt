-- ===== src/Api/Enroll.antt =====
-- internal/api/enrollment.go: the handlers of the enrollment service.
use omm.Prelude.{String, Bool, false, Option, none, some, map}
use omm.Models.{Enrollment, Status, pending_approval}
use omm.Store.Bolt.{Bolt}
use omm.Identity.{Crypto}
use omm.Enrollment as Enrollment
use omm.Enrollment.{
  Options, Env, RequestInput, VerifyInput, Reply, RequestResult, Outcome, done, fault, Fault,
}
use omm.Api.Response
use omm.Api.Response.{Body, Response, write_json, respond_enroll_error, decoding, EnrollmentSummary}
use omm.Api.Homes.{Serve, bad_request}

-- The `?status=` of a listing: none given, "all", or a status.
pub data StatusFilter : Type 0 where
  unset all : StatusFilter
  only : Status → StatusFilter

-- What `List` is given, where none is the status "".
unfoldable pub listed_status : StatusFilter → Option Status
listed_status unset = some pending_approval
listed_status all = none
listed_status (only s) = some s

unfoldable pub summary : Enrollment → EnrollmentSummary
summary e = record {
  id = e.id;
  node_id = e.node_id;
  serial = e.serial;
  status = e.status;
  home_id = e.home_id;
  created_at = e.created_at;
}

-- `peerOnLink`: `ip` is the source address of the request, or none if it is not one.
unfoldable pub peer_on_link : {Ip : Type 0} → Option (Ip → Bool) → Option Ip → Bool
peer_on_link (some on_link) (some ip) = on_link ip
peer_on_link _ _ = false

module _ (bolt : Bolt) (crypto : Crypto) (opts : Options) where
  -- The result of the service as an answer.
  abbrev pub serving :
      {A : Type 0} → (A → Body) → Enrollment.Handler bolt crypto opts A → Serve bolt
  serving body handler db =
      let (r, db') = handler db in
      elim r [
        | done a ↦ (write_json Response.status_ok (body a), db')
        | fault e ↦ (respond_enroll_error e, db')
      ]

  unfoldable pub enroll_request : Env → Option RequestInput → Serve bolt
  enroll_request env none db = (bad_request decoding, db)
  enroll_request env (some input) db =
      serving Body.challenge_body (Enrollment.request bolt crypto opts env input) db

  unfoldable pub enroll_verify : Env → Bool → Option VerifyInput → Serve bolt
  enroll_verify env on_link none db = (bad_request decoding, db)
  enroll_verify env on_link (some input) db =
      serving Body.reply_body (Enrollment.verify bolt crypto opts env on_link input) db

  unfoldable pub enroll_status : String → Serve bolt
  enroll_status id = serving Body.reply_body (Enrollment.get bolt crypto opts id)

  unfoldable pub enroll_ack : String → Serve bolt
  enroll_ack id = serving Body.reply_body (Enrollment.ack bolt crypto opts id)

  unfoldable pub list_enrollments : StatusFilter → Serve bolt
  unfolding listed_status summary
  list_enrollments filter =
      serving (λ es. Body.enrollments_response (map summary es))
        (Enrollment.list bolt crypto opts (listed_status filter))

  unfoldable pub reject_node : String → Serve bolt
  reject_node node_id = serving Body.reply_body (Enrollment.reject bolt crypto opts node_id)

  unfoldable pub adopt_node : Env → String → Serve bolt
  adopt_node env node_id = serving Body.reply_body (Enrollment.adopt bolt crypto opts env node_id)
