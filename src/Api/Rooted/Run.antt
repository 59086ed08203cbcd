-- ===== src/Api/Rooted/Run.antt =====
-- Requests in a row, on a state whose active Home is stored.
use omm.Prelude.{
  String, ◌≡◌, refl, inl, inr, none, some, ◌==◌, if◌then◌else◌, Bool-cases, Option-cases, ℕ, Option,
  List, [], ◌∷◌, ◌⊎◌, map,
}
use omm.Strings.{Strings}
use omm.Identity.{Crypto}
use omm.Enrollment.{Options, Outcome, Handler as Call, done, fault}
use omm.Enrollment as Enrollment
use omm.Enrollment.Frame.{
  request-IsFrame, verify-IsFrame, get-IsFrame, ack-IsFrame, reject-IsFrame, adopt-IsFrame,
  list-IsFrame,
}
use omm.Store.Bolt.{Bolt}
use omm.Store.Settings.{get_active_home, setting_active_home}
use omm.Store.Frame.{IsFrame}
use omm.Api.Response.{Body}
use omm.Api.Host.{ProfileManager, Handler, State}
use omm.Api.Enroll.{
  serving, enroll_request, enroll_verify, enroll_status, enroll_ack, list_enrollments, reject_node,
  adopt_node, summary, listed_status,
}
use omm.Api.Serve.{
  EnrollCall, requests, verifies, asks_status, acknowledges, rejects, adopts, lists, Request,
  on_store, on_device, on_enrollment, gets_health, gets_topology, reports_topology, scans, joins,
  serve_enrollment, serve,
}
use omm.Prelude.Int.{ℤ}
use omm.Store.Db.{Db, open_db}
use omm.Client.{
  Identity, Tls, Controller, join, join_and_record, record_home, remote_home, protected_transport,
  joined_home,
}
use omm.Api.Join.{JoinInput, enroll_join}
use omm.Api.Rooted.{upsert_home-Roots, IsRooted, Roots, IsFrame-Roots, is_known}
use omm.Api.Rooted.Served.{serve_store-Roots, serve_device-Roots}

pub Outcome-cases :
    {A : Type 0} (o : Outcome A)
    → ((a : A) × (o ≡ done a)) ⊎ ((e : Enrollment.Fault) × (o ≡ fault e))
Outcome-cases (done a) = inl (a, refl)
Outcome-cases (fault e) = inr (e, refl)

module _ (bolt : Bolt) (crypto : Crypto) where
  serving-Roots :
      {A : Type 0} (opts : Options) (body : A → Body) (handler : Call bolt crypto opts A)
      → IsFrame bolt handler
      → Roots bolt (serving bolt crypto opts body handler)
  serving-Roots opts body handler h db r =
      let kept = IsFrame-Roots bolt handler h db r in
      elim (Outcome-cases (handler db).0) [
        | inl (a, e) ↦ rw (e, serving) kept
        | inr (x, e) ↦ rw (e, serving) kept
      ]

  serve_enrollment-Roots :
      (opts : Options) (call : EnrollCall) → Roots bolt (serve_enrollment bolt crypto opts call)
  unfolding serve_enrollment enroll_request enroll_verify enroll_status enroll_ack list_enrollments
      reject_node adopt_node
  serve_enrollment-Roots opts (requests env none) db r = r
  serve_enrollment-Roots opts (requests env (some input)) db r =
      serving-Roots opts Body.challenge_body (Enrollment.request bolt crypto opts env input)
        (request-IsFrame bolt crypto opts env input) db r
  serve_enrollment-Roots opts (verifies env on_link none) db r = r
  serve_enrollment-Roots opts (verifies env on_link (some input)) db r =
      serving-Roots opts Body.reply_body (Enrollment.verify bolt crypto opts env on_link input)
        (verify-IsFrame bolt crypto opts env on_link input) db r
  serve_enrollment-Roots opts (asks_status id) db r =
      serving-Roots opts Body.reply_body (Enrollment.get bolt crypto opts id)
        (get-IsFrame bolt crypto opts id) db r
  serve_enrollment-Roots opts (acknowledges id) db r =
      serving-Roots opts Body.reply_body (Enrollment.ack bolt crypto opts id)
        (ack-IsFrame bolt crypto opts id) db r
  serve_enrollment-Roots opts (rejects id) db r =
      serving-Roots opts Body.reply_body (Enrollment.reject bolt crypto opts id)
        (reject-IsFrame bolt crypto opts id) db r
  serve_enrollment-Roots opts (adopts env id) db r =
      serving-Roots opts Body.reply_body (Enrollment.adopt bolt crypto opts env id)
        (adopt-IsFrame bolt crypto opts env id) db r
  serve_enrollment-Roots opts (lists filter) db r =
      serving-Roots opts (λ es. Body.enrollments_response (map summary es))
        (Enrollment.list bolt crypto opts (listed_status filter))
        (list-IsFrame bolt crypto opts (listed_status filter)) db r

  enroll_join-Roots :
      (c : Controller) (tls : Tls) (now : ℤ) (ticks : ℕ) (self : Identity) (serial : String)
      (body : Option JoinInput) (p : c.Peer) (db : Db bolt)
      → IsRooted bolt db
      → IsRooted bolt (enroll_join crypto c bolt tls now ticks self serial body p db).2
  unfolding enroll_join join_and_record record_home
  enroll_join-Roots c tls now ticks self serial none p db r = r
  enroll_join-Roots c tls now ticks self serial (some input) p db r =
      let serial' : String = if input.serial == "" then serial else input.serial in
      let tried = join crypto c ticks self input.controller_url serial' p in
      elim (Bool-cases (input.controller_url == "")) [
        | inl e ↦ rw e r
        | inr e ↦ rw e (elim (Option-cases tried.0) [
          | inl n ↦ rw (n, join_and_record) r
          | inr (reply, n) ↦
              let asked =
                remote_home crypto c
                  (protected_transport crypto c tls self input.controller_url reply) reply.home_id
                  tried.2 in
              elim (Bool-cases (reply.home_id == "")) [
                | inl b ↦ rw (n, join_and_record, b) r
                | inr b ↦ elim (Option-cases asked.0) [
                  | inl q ↦ rw (n, join_and_record, b, q, record_home) r
                  | inr (home, q) ↦
                      rw (n, join_and_record, b, q, record_home)
                        (upsert_home-Roots bolt (joined_home crypto c now reply home) db r)
                ]
              ]
        ])
      ]

  -- A new file has no active Home.
  pub open_db-IsRooted : IsRooted bolt (open_db bolt)
  unfolding open_db get_active_home is_known
  open_db-IsRooted = rw (bolt.get-empty String setting_active_home) refl

  module _ (pm : ProfileManager bolt) (h : Handler bolt pm) (strings : Strings) where
    serve-IsRooted :
        (q : Request pm.Device) (s : State bolt pm)
        → IsRooted bolt s.db
        → IsRooted bolt (serve bolt pm h strings crypto q s).1.db
    unfolding serve
    serve-IsRooted (on_store call) s r = serve_store-Roots bolt pm h strings call s.db r
    serve-IsRooted (on_enrollment opts call) s r = serve_enrollment-Roots opts call s.db r
    serve-IsRooted (on_device call) s r = serve_device-Roots bolt pm h strings call s.db s.device r
    serve-IsRooted gets_health s r = r
    serve-IsRooted (gets_topology now collector) s r = r
    serve-IsRooted (reports_topology now report) s r = r
    serve-IsRooted (scans found) s r = r
    serve-IsRooted (joins c p tls now ticks self body) s r =
        enroll_join-Roots c tls now ticks self h.self_serial body p s.db r

    -- The state that is left when requests were served one after the other.
    unfoldable pub serve_all : List (Request pm.Device) → State bolt pm → State bolt pm
    serve_all [] s = s
    serve_all (q ∷ qs) s = serve_all qs (serve bolt pm h strings crypto q s).1

    -- If the active Home is unset or a stored Home, it still is after any requests that the
    -- daemon serves in a row, those that fail included.
    pub serve_all-IsRooted :
        (qs : List (Request pm.Device)) (s : State bolt pm)
        → IsRooted bolt s.db
        → IsRooted bolt (serve_all qs s).db
    unfolding serve_all
    serve_all-IsRooted [] s r = r
    serve_all-IsRooted (q ∷ qs) s r =
        serve_all-IsRooted qs (serve bolt pm h strings crypto q s).1 (serve-IsRooted q s r)
