-- ===== src/Client.antt =====
-- internal/client/client.go: the node's side of the enrollment, as a state machine that talks to a
-- controller. The controller, the network and the time between the calls are a `Controller`; the
-- device key and the TLS library are interfaces.
pub mod Lifecycle
pub mod Settled
pub mod Recorded
pub mod Service
mod Tests
use text.Mathlib.Text.{starts_with}
use omm.Prelude.{
  String, ℕ, zero, suc, Bool, true, false, Option, none, some, List, [], ◌∷◌, ◌==◌, ◌&&◌, not, leb,
  ltb, is_empty, if◌then◌else◌,
}
use omm.Prelude.Int.{ℤ}
use omm.Models.{
  Bytes, Home, Profile, Status, pending_verification, pending_approval, approved, active, rejected,
}
use omm.Topology.{Graph}
use omm.Identity.{Crypto, node_id_from_public_key_der}
use omm.Enrollment.{RequestInput, RequestResult, VerifyInput, Reply}
use omm.Store.Bolt.{Bolt}
use omm.Store.Db.{Db}
use omm.Store.Enrollments.{eq_status}
use omm.Store.Records.{upsert_home}
use omm.Api.Response.{Response, Body, challenge_body, reply_body, home_body, profile_response}
use omm.Client.Lifecycle.{State, unclaimed, Trigger, enroll, pending, approve, fail, fire}

-- What the client uses of the device identity.
pub record Identity : Type 0 where
  pub public_key_der : Bytes
  pub private_key_pem : Bytes
  -- `ecdsa.SignASN1` on a digest
  pub sign_asn1 : Bytes → Option Bytes

-- `tls.X509KeyPair` and `AppendCertsFromPEM`: whether they succeed.
pub record Tls : Type 0 where
  pub x509_key_pair : Bytes → Bytes → Bool
  pub append_certs_from_pem : Bytes → Bool

-- The transport of the HTTP client.
pub data Transport : Type 0 where
  plain insecure : Transport
  mutual_tls : Bytes → Bytes → Bytes → Transport

-- A request, with the body that is sent.
pub data Message : Type 0 where
  post_request : RequestInput → Message
  post_verify : VerifyInput → Message
  get_enrollment post_ack get_home get_profile : String → Message
  post_report : String → Graph → Message

-- What is at the other end. `send` is an error of the transport, or the answer.
pub record Controller : Type 1 where
  pub Peer : Type 0
  pub send : Transport → Message → Peer → Option Response × Peer

unfoldable pub is_success : ℕ → Bool
is_success status = leb 200 status && ltb status 300

-- `do`: the answer has to be a 2xx, whose body decodes.
unfoldable pub decoded : {A : Type 0} → (Body → Option A) → Option Response → Option A
unfolding is_success
decoded decode none = none
decoded decode (some r) = if is_success r.status then decode r.body else none

abbrev pub as_challenge : Body → Option RequestResult
as_challenge (challenge_body r) = some r
as_challenge _ = none

abbrev pub as_reply : Body → Option Reply
as_reply (reply_body r) = some r
as_reply _ = none

abbrev pub as_home : Body → Option Home
as_home (home_body h) = some h
as_home _ = none

abbrev pub as_profile : Body → Option Profile
as_profile (profile_response p) = some p
as_profile _ = none

unfoldable pub bootstrap_client : String → Transport
bootstrap_client url = if starts_with url "https://" then insecure else plain

unfoldable pub client_tls_config : Tls → Bytes → Bytes → Bytes → Option Transport
client_tls_config tls leaf key ca =
    if tls.x509_key_pair leaf key && tls.append_certs_from_pem ca
    then some (mutual_tls leaf key ca)
    else none

unfoldable pub authenticated_client : Tls → Identity → Bytes → Bytes → Option Transport
unfolding client_tls_config
authenticated_client tls id leaf ca = client_tls_config tls leaf id.private_key_pem ca

-- What a poll does with a status: it ends with the reply, or without, or goes on.
pub data Verdict : Type 0 where
  granted refused waiting : Verdict

unfoldable pub verdict : Status → Verdict
verdict approved = granted
verdict active = granted
verdict rejected = refused
verdict _ = waiting

module _ (crypto : Crypto) (c : Controller) where
  -- `Sign`
  unfoldable pub sign : Identity → Bytes → Option Bytes
  sign id challenge = id.sign_asn1 (crypto.sha256 challenge)

  abbrev pub call :
      {A : Type 0} → Transport → Message → (Body → Option A) → c.Peer → Option A × c.Peer
  call transport message decode p =
      let (r, p') = c.send transport message p in (decoded decode r, p')

  -- `waitForApproval`, for the ticks that come before the context ends.
  unfoldable pub wait_for_approval : ℕ → Transport → String → c.Peer → Option Reply × c.Peer
  unfolding verdict decoded
  wait_for_approval zero t id p =
      let (r, p') = call t (get_enrollment id) as_reply p in
      elim r [
        | none ↦ (none, p')
        | some reply ↦ elim (verdict reply.status) [
          | granted ↦ (some reply, p')
          | refused ↦ (none, p')
          | waiting ↦ (none, p')
        ]
      ]
  wait_for_approval (suc ticks) t id p =
      let (r, p') = call t (get_enrollment id) as_reply p in
      elim r [
        | none ↦ (none, p')
        | some reply ↦ elim (verdict reply.status) [
          | granted ↦ (some reply, p')
          | refused ↦ (none, p')
          | waiting ↦ wait_for_approval ticks t id p'
        ]
      ]

  -- Where the exchange is: its result, the state of the machine, and the other end.
  abbrev pub Exchange : Type 0
  Exchange = State → c.Peer → Option Reply × State × c.Peer

  -- 4. acknowledge to become active
  unfoldable pub acknowledge : Transport → String → Exchange
  unfolding decoded
  acknowledge t id s p =
      let (acked, p') = call t (post_ack id) as_reply p in
      elim acked [
        | none ↦ (none, s, p')
        | some reply ↦ elim (fire approve s) [
          | none ↦ (none, s, p')
          | some s' ↦ (some reply, s', p')
        ]
      ]

  -- The status has to be approved or active.
  unfoldable pub confirm : Transport → String → Reply → Exchange
  unfolding acknowledge verdict
  confirm t id reply s p = elim (verdict reply.status) [
    | granted ↦ acknowledge t id s p
    | _ ↦ (none, s, p)
  ]

  -- 3. wait for approval if the controller requires manual adoption
  unfoldable pub poll : ℕ → Transport → String → Exchange
  unfolding confirm wait_for_approval
  poll ticks t id s p =
      let (r, p') = wait_for_approval ticks t id p in
      elim r [ none ↦ (none, s, p') | some reply ↦ confirm t id reply s p' ]

  unfoldable pub await : ℕ → Transport → String → Reply → Exchange
  unfolding poll
  await ticks t id reply s p =
      if eq_status reply.status pending_approval
      then elim (fire pending s) [ none ↦ (none, s, p) | some s' ↦ poll ticks t id s' p ]
      else confirm t id reply s p

  -- 2. sign the challenge and verify
  unfoldable pub prove : ℕ → Transport → Identity → RequestResult → Exchange
  unfolding await sign decoded
  prove ticks t id challenge s p = elim (sign id challenge.challenge) [
    | none ↦ (none, s, p)
    | some signature ↦
        let (r, p') =
          call t
            (post_verify
              (record { enrollment_id = challenge.enrollment_id; signature = signature }))
            as_reply p in
        elim r [
          | none ↦ (none, s, p')
          | some reply ↦ await ticks t challenge.enrollment_id reply s p'
        ]
  ]

  abbrev pub request_of : Identity → String → RequestInput
  request_of id serial = record {
    node_id = node_id_from_public_key_der crypto id.public_key_der;
    serial = serial;
    public_key = id.public_key_der;
  }

  -- 1. request a challenge
  unfoldable pub exchange : ℕ → Transport → Identity → String → Exchange
  unfolding prove decoded
  exchange ticks t id serial s p = elim (fire enroll s) [
    | none ↦ (none, s, p)
    | some s' ↦
        let (r, p') = call t (post_request (request_of id serial)) as_challenge p in
        elim r [ none ↦ (none, s', p') | some challenge ↦ prove ticks t id challenge s' p' ]
  ]

  -- An error fires `fail`, which is an error of its own where it is not permitted.
  abbrev pub failed_from : State → State
  failed_from s = elim (fire fail s) [ none ↦ s | some s' ↦ s' ]

  unfoldable pub enroll_with : ℕ → Transport → Identity → String → Exchange
  unfolding exchange
  enroll_with ticks t id serial s p =
      let (r, s', p') = exchange ticks t id serial s p in
      elim r [ none ↦ (none, failed_from s', p') | some reply ↦ (some reply, s', p') ]

  -- `Join`: a new client, on the transport of the bootstrap.
  unfoldable pub join : ℕ → Identity → String → String → c.Peer → Option Reply × State × c.Peer
  unfolding enroll_with bootstrap_client
  join ticks id url serial p = enroll_with ticks (bootstrap_client url) id serial unclaimed p

  unfoldable pub remote_home : Transport → String → c.Peer → Option Home × c.Peer
  unfolding decoded
  remote_home t home_id p = call t (get_home home_id) as_home p

  unfoldable pub fetch_profile : Transport → String → c.Peer → Option Profile × c.Peer
  unfolding decoded
  fetch_profile t home_id p = call t (get_profile home_id) as_profile p

  -- True is no error: any body of a 2xx answer is fine.
  unfoldable pub report_topology : Transport → String → Graph → c.Peer → Bool × c.Peer
  unfolding is_success
  report_topology t node_id graph p =
      let (r, p') = c.send t (post_report node_id graph) p in
      elim r [ none ↦ (false, p') | some answer ↦ (is_success answer.status, p') ]

  abbrev pub bytes_or_none : Option Bytes → Bytes
  bytes_or_none none = []
  bytes_or_none (some b) = b

  -- The transport of the protected call: mutual TLS, if the controller gave what it takes.
  unfoldable pub protected_transport : Tls → Identity → String → Reply → Transport
  unfolding authenticated_client bootstrap_client
  protected_transport tls id url reply =
      let leaf = bytes_or_none reply.certificate in
      let ca = bytes_or_none reply.ca_certificate in
      if not (is_empty leaf) && not (is_empty ca) && starts_with url "https://"
      then elim (authenticated_client tls id leaf ca) [ none ↦ bootstrap_client url | some t ↦ t ]
      else bootstrap_client url

  -- The Home that is recorded, with its id and the CA of the Home where the record has none.
  unfoldable pub joined_home : ℤ → Reply → Home → Home
  joined_home now reply home = record home {
    id = if home.id == "" then reply.home_id else home.id;
    last_seen = now;
    certificate =
        if is_empty home.certificate then bytes_or_none reply.ca_certificate else home.certificate;
  }

  module _ (bolt : Bolt) where
    unfoldable pub record_home :
        Tls → ℤ → Identity → String → Reply → c.Peer → Db bolt → c.Peer × Db bolt
    unfolding remote_home protected_transport joined_home
    record_home tls now id url reply p db =
        let (r, p') = remote_home (protected_transport tls id url reply) reply.home_id p in
        elim r [
          | none ↦ (p', db)
          | some home ↦ (p', (upsert_home bolt (joined_home now reply home) db).1)
        ]

    -- `JoinAndRecord`, with a recorder.
    unfoldable pub join_and_record :
        Tls
        → ℤ
        → ℕ
        → Identity
        → String
        → String
        → c.Peer
        → Db bolt
        → Option Reply × c.Peer × Db bolt
    unfolding record_home join
    join_and_record tls now ticks id url serial p db =
        let (r, s, p') = join ticks id url serial p in
        elim r [
          | none ↦ (none, p', db)
          | some reply ↦
              let (p'', db') = record_home tls now id url reply p' db in
              if reply.home_id == "" then (some reply, p', db) else (some reply, p'', db')
        ]
