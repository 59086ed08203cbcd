-- ===== src/Api/Routes.antt =====
-- The routes that internal/api/router.go registers on a chi router, which matches and dispatches
-- them: the management plane, the mesh plane, and both on one handler.
pub mod Planes
use text.Mathlib.Text.{starts_with}
use omm.Prelude.{
  String, ℕ, Bool, true, false, Option, none, some, List, [], ◌∷◌, ◌++◌, ◌==◌, ◌&&◌, ◌||◌, not,
  any_by, if◌then◌else◌,
}
use omm.Store.Bolt.{Bolt}
use omm.Api.Response
use omm.Api.Response.{Response, respond_error, ApiError}
use omm.Api.Host.{ProfileManager, Handler, State}

pub data Method : Type 0 where
  get post put delete any : Method

-- A (method, pattern) pair, and whether the handler wants a verified client certificate.
pub record Route : Type 0 where
  pub method : Method
  pub path : String
  pub protected : Bool

-- The fields of the handler that decide on its routes: whether they are set.
pub record Features : Type 0 where
  pub enrollment : Bool
  pub topology : Bool
  pub signals : Bool
  pub scan : Bool
  pub self : Bool
  pub provision_uplink : Bool
  pub mesh_client_auth : Bool

abbrev is_set : {A : Type 0} → Option A → Bool
is_set none = false
is_set (some a) = true

unfoldable pub features : (bolt : Bolt) (pm : ProfileManager bolt) → Handler bolt pm → Features
features bolt pm h = record {
  enrollment = is_set h.enrollment;
  topology = is_set h.topology;
  signals = is_set h.signals;
  scan = is_set h.scan;
  self = is_set h.self;
  provision_uplink = is_set h.provision_uplink;
  mesh_client_auth = h.mesh_client_auth;
}

abbrev pub route : Method → String → Route
route m path = record { method = m; path = path; protected = false }

-- `protected` on a handler, which is a no-op without client authentication.
abbrev pub guarded : Features → Method → String → Route
guarded f m path = record { method = m; path = path; protected = f.mesh_client_auth }

-- What it makes of a request, whose chains of certificates were verified or not.
unfoldable pub serve_protected : {S : Type 0} → Bool → Bool → (S → Response × S) → S → Response × S
serve_protected auth verified next s =
    if auth && not verified
    then (respond_error Response.status_unauthorized ApiError.certificate_required, s)
    else next s

abbrev pub given : Bool → List Route → List Route
given b rs = if b then rs else []

-- `r.Post("/enroll/request", ...)` and the other routes of a node that enrolls.
abbrev pub enroll_routes : List Route
enroll_routes =
    route post "/enroll/request"
    ∷ route post "/enroll/verify"
    ∷ route get "/enroll/{enrollmentID}"
    ∷ route post "/enroll/{enrollmentID}/ack"
    ∷ []

unfoldable pub mesh_routes : Features → List Route
mesh_routes f =
    (route get "/health"
      ∷ guarded f get "/homes/{homeID}"
      ∷ guarded f get "/homes/{homeID}/profile"
      ∷ [])
    ++ given f.topology (guarded f post "/topology/report" ∷ [])
    ++ given f.enrollment enroll_routes

unfoldable pub management_routes : Features → List Route
management_routes f =
    (route get "/status" ∷ route get "/setup" ∷ route post "/setup/complete" ∷ [])
    ++ given f.provision_uplink (route post "/setup/uplink" ∷ [])
    ++ (route get "/homes"
        ∷ route post "/homes"
        ∷ route get "/homes/{homeID}"
        ∷ route put "/homes/{homeID}"
        ∷ route delete "/homes/{homeID}"
        ∷ route get "/homes/{homeID}/profile"
        ∷ route post "/homes/{homeID}/profile"
        ∷ route get "/nodes"
        ∷ route post "/nodes"
        ∷ route get "/nodes/{nodeID}"
        ∷ route delete "/nodes/{nodeID}"
        ∷ route get "/active-home"
        ∷ route put "/active-home"
        ∷ route post "/reset"
        ∷ [])
    ++ given f.topology (route get "/topology" ∷ [])
    ++ given f.signals (route get "/home-selection" ∷ [])
    ++ given f.scan (route get "/scan" ∷ [])
    ++ given f.enrollment (
        route get "/enroll"
        ∷ route post "/nodes/{nodeID}/adopt"
        ∷ route post "/nodes/{nodeID}/reject"
        ∷ [])
    ++ given f.self (route post "/enroll/join" ∷ [])
    ++ route any "/*" ∷ []

-- `NewRouter`: both planes on one handler, where no route is protected.
unfoldable pub combined_routes : Features → List Route
unfolding management_routes
combined_routes f =
    management_routes f
    ++ route get "/health" ∷ []
    ++ given f.topology (route post "/topology/report" ∷ [])
    ++ given f.enrollment enroll_routes
