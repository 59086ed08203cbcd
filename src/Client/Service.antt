-- ===== src/Client/Service.antt =====
-- The client against the API of a controller, whose answers it decodes.
pub mod Active
pub mod Joined
use omm.Prelude.{
  String, ℕ, suc, ◌⊎◌, Bool, true, false, ◌≡◌, refl, Option, none, some, Option-cases, Bool-cases,
  inl, inr, if◌then◌else◌,
}
use omm.Models.{
  Enrollment as Record, Status, pending_verification, pending_approval, approved, active, rejected,
}
use omm.Identity.{Crypto}
use omm.Store.Bolt.{Bolt}
use omm.Store.Db.{Db}
use omm.Store.Invariant.{IsConsistent}
use omm.Store.Enrollments as Store
use omm.Store.Result.{ok, not_found, refused, corrupt}
use omm.Enrollment as Enrollment
use omm.Enrollment.{
  Options, Env, Reply, RequestResult, Fault, missing_fields, identity_mismatch, no_entropy,
  invalid_signature, not_adoptable, storage, done, fault, Outcome,
}
use omm.Api.Response
use omm.Api.Response.{
  Response, Body, write_json, respond_error, respond_enroll_error, enroll_error_status,
}
use omm.Api.Homes.{get_home_handler, get_profile_handler}
use omm.Api.Enroll.{serving, enroll_request, enroll_verify, enroll_status, enroll_ack}
use omm.Api.Rooted.Run.{Outcome-cases}
use omm.Client.{
  Transport, Controller, Message, post_request, post_verify, get_enrollment, post_ack, get_home,
  get_profile, post_report, decoded, is_success, as_reply, as_challenge,
}

module _ (bolt : Bolt) (crypto : Crypto) (opts : Options) (env : Env) (on_link : Bool) where
  abbrev answering : Response × Db bolt → Option Response × Db bolt
  answering (r, db) = (some r, db)

  -- The routes of the mesh plane that a client calls; a report goes to the aggregator.
  unfoldable pub serve_message : Message → Db bolt → Option Response × Db bolt
  serve_message (post_request input) db =
      answering (enroll_request bolt crypto opts env (some input) db)
  serve_message (post_verify input) db =
      answering (enroll_verify bolt crypto opts env on_link (some input) db)
  serve_message (get_enrollment id) db = answering (enroll_status bolt crypto opts id db)
  serve_message (post_ack id) db = answering (enroll_ack bolt crypto opts id db)
  serve_message (get_home id) db = answering (get_home_handler bolt id db)
  serve_message (get_profile id) db = answering (get_profile_handler bolt id db)
  serve_message (post_report node_id graph) db =
      (some (write_json Response.status_accepted Body.blank), db)

  -- The service between two calls of the client: how many it had, and the store.
  pub record Serving : Type 0 where
    pub calls : ℕ
    pub db : Db bolt

  abbrev after : ℕ → Option Response × Db bolt → Option Response × Serving
  after n (r, db) = (r, record { calls = suc n; db = db })

  -- `others` is what other callers make of the store before each call of the client.
  abbrev pub service : (ℕ → Db bolt → Db bolt) → Controller
  service others = record {
    Peer = Serving;
    send = λ transport message p. after p.calls (serve_message message (others p.calls p.db));
  }

  -- Other callers may adopt, and they leave the enrollments as they are else.
  pub record IsAdopting (others : ℕ → Db bolt → Db bolt) : Type 0 where
    pub keeps_consistent :
        (n : ℕ) (db : Db bolt) → IsConsistent bolt db → IsConsistent bolt (others n db)
    pub keeps_enrollment :
        (n : ℕ) (db : Db bolt) (id : String) (e : Record)
        → (Store.get_enrollment bolt id db).0 ≡ ok e
        → (e' : Record) × ((Store.get_enrollment bolt id (others n db)).0 ≡ ok e')
          × (e'.id ≡ e.id)
          × ((e'.status ≡ e.status) ⊎ ((e.status ≡ pending_approval) × (e'.status ≡ approved)))

  refusal-not_success : (e : Fault) → is_success (enroll_error_status e) ≡ false
  unfolding is_success enroll_error_status
  refusal-not_success missing_fields = refl
  refusal-not_success identity_mismatch = refl
  refusal-not_success no_entropy = refl
  refusal-not_success invalid_signature = refl
  refusal-not_success not_adoptable = refl
  refusal-not_success (storage not_found) = refl
  refusal-not_success (storage refused) = refl
  refusal-not_success (storage corrupt) = refl

  -- A body that the client decodes is what the service gave.
  pub serving-decoded :
      {A : Type 0} (body : A → Body) (decode : Body → Option A)
      → ((a : A) → decode (body a) ≡ some a)
      → (handler : Enrollment.Handler bolt crypto opts A) (db : Db bolt) (a : A)
      → decoded decode (some (serving bolt crypto opts body handler db).0) ≡ some a
      → ((handler db).0 ≡ done a) × ((serving bolt crypto opts body handler db).1 ≡ (handler db).1)
  unfolding decoded is_success respond_enroll_error respond_error
  serving-decoded {A = A} body decode back handler db a h = elim (Outcome-cases (handler db).0) [
    | inl (x, e) ↦ (rw e (same x a (back x) (rw (e, serving) at h)), rw (e, serving) refl)
    | inr (x, e) ↦ absurd (cc (rw (e, serving, refusal-not_success x) at h))
  ]
    where
      same : (x a : A) → decode (body x) ≡ some x → decode (body x) ≡ some a → done x ≡ done a
      same x a p q = cc (rw p at q)
