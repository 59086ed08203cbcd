-- ===== src/Api/Join.antt =====
-- `enrollJoin` of internal/api/enrollment.go: the daemon enrolls into another controller.
use omm.Prelude.{String, ℕ, Option, none, some, [], ◌∷◌, ◌==◌, if◌then◌else◌}
use omm.Prelude.Int.{ℤ}
use omm.Identity.{Crypto}
use omm.Enrollment.{Reply}
use omm.Store.Bolt.{Bolt}
use omm.Store.Db.{Db}
use omm.Client.{Identity, Tls, Controller, join_and_record}
use omm.Api.Response
use omm.Api.Response.{Response, Body, ApiError, write_json, respond_error, decoding, missing}
use omm.Api.Homes.{bad_request}

pub record JoinInput : Type 0 where
  pub controller_url : String
  pub serial : String

unfoldable pub join_answer : Option Reply → Response
join_answer none = respond_error Response.status_bad_gateway ApiError.no_join
join_answer (some reply) = write_json Response.status_ok (Body.reply_body reply)

module _ (crypto : Crypto) (c : Controller) (bolt : Bolt) where
  -- `ticks` are the polls that joinTimeout leaves time for.
  unfoldable pub enroll_join :
      Tls
      → ℤ
      → ℕ
      → Identity
      → String
      → Option JoinInput
      → c.Peer
      → Db bolt
      → Response × c.Peer × Db bolt
  unfolding join_answer
  enroll_join tls now ticks self self_serial none p db = (bad_request decoding, p, db)
  enroll_join tls now ticks self self_serial (some input) p db =
      let serial : String = if input.serial == "" then self_serial else input.serial in
      let (r, p', db') =
        join_and_record crypto c bolt tls now ticks self input.controller_url serial p db in
      if input.controller_url == ""
      then (bad_request (missing ("controller_url" ∷ [])), p, db)
      else (join_answer r, p', db')
