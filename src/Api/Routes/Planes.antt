-- ===== src/Api/Routes/Planes.antt =====
-- How the routes of the two planes stand to each other.
use text.Mathlib.Text.{starts_with}
use omm.Prelude.{
  ℕ, Bool, true, false, ◌≡◌, refl, List, [], ◌∷◌, ◌==◌, ◌&&◌, ◌||◌, not, any_by, eqb, arith,
}
use omm.Api.Response
use omm.Api.Response.{Response, respond_error, ApiError}
use omm.Api.Routes.{
  Method, get, post, put, delete, any, Route, Features, mesh_routes, management_routes,
  combined_routes, serve_protected,
}

abbrev tag : Method → ℕ
tag get = 0
tag post = 1
tag put = 2
tag delete = 3
tag any = 4

-- The same method and pattern.
unfoldable pub clashes : Route → Route → Bool
clashes a b = eqb (tag a.method) (tag b.method) && (a.path == b.path)

-- No two routes clash.
unfoldable pub apart : List Route → Bool
unfolding clashes any_by
apart [] = true
apart (r ∷ rs) = not (any_by (clashes r) rs) && apart rs

unfoldable pub all_by : (Route → Bool) → List Route → Bool
all_by p [] = true
all_by p (r ∷ rs) = p r && all_by p rs

abbrev pub eqb_flag : Bool → Bool → Bool
eqb_flag true b = b
eqb_flag false b = not b

-- What a node reaches before it has a certificate.
unfoldable pub is_bootstrap : Route → Bool
is_bootstrap r = (r.path == "/health") || starts_with r.path "/enroll/"

-- A read of a Home, which both planes have.
unfoldable pub is_home_read : Route → Bool
is_home_read r =
    eqb (tag r.method) 0 && ((r.path == "/homes/{homeID}") || (r.path == "/homes/{homeID}/profile"))

-- The test holds of every list of flags that is as long as the one given.
unfoldable pub every : List Bool → (List Bool → Bool) → Bool
every [] p = p []
every (b ∷ l) p = every l (λ m. p (true ∷ m)) && every l (λ m. p (false ∷ m))

and-true : (a b : Bool) → (a && b) ≡ true → (a ≡ true) × (b ≡ true)
and-true a b h = (ground arith, ground arith)

every-true : (l : List Bool) (p : List Bool → Bool) → every l p ≡ true → p l ≡ true
unfolding every
every-true [] p h = h
every-true (true ∷ l) p h =
    every-true l (λ m. p (true ∷ m))
      (and-true (every l (λ m. p (true ∷ m))) (every l (λ m. p (false ∷ m))) h).0
every-true (false ∷ l) p h =
    every-true l (λ m. p (false ∷ m))
      (and-true (every l (λ m. p (true ∷ m))) (every l (λ m. p (false ∷ m))) h).1

abbrev features_of : List Bool → Features
features_of (e ∷ t ∷ s ∷ c ∷ i ∷ u ∷ a ∷ more) = record {
  enrollment = e;
  topology = t;
  signals = s;
  scan = c;
  self = i;
  provision_uplink = u;
  mesh_client_auth = a;
}
features_of _ = record {
  enrollment = false;
  topology = false;
  signals = false;
  scan = false;
  self = false;
  provision_uplink = false;
  mesh_client_auth = false;
}

abbrev flags_of : Features → List Bool
flags_of f =
    f.enrollment ∷ f.topology ∷ f.signals ∷ f.scan ∷ f.self ∷ f.provision_uplink
    ∷ f.mesh_client_auth ∷ []

-- A test of the routes that all choices of the features pass.
features-true :
    (p : Features → Bool)
    → every (false ∷ false ∷ false ∷ false ∷ false ∷ false ∷ false ∷ []) (λ m. p (features_of m))
      ≡ true
    → (f : Features) → p f ≡ true
unfolding every
features-true p h f = every-true (flags_of f) (λ m. p (features_of m)) h

-- Whatever features are set, none of the three routers registers a method and a pattern twice.
pub routes_apart :
    (f : Features)
    → (apart (mesh_routes f) ≡ true)
      × (apart (management_routes f) ≡ true)
      × (apart (combined_routes f) ≡ true)
unfolding every apart mesh_routes management_routes combined_routes
routes_apart f = (
  features-true (λ f. apart (mesh_routes f)) refl f,
  features-true (λ f. apart (management_routes f)) refl f,
  features-true (λ f. apart (combined_routes f)) refl f,
)

-- Whatever features are set, the mesh and the management plane have only the reads of a Home
-- and of its profile in common, each mesh route that is not of the bootstrap is protected
-- exactly if client authentication is on, and a protected one answers 401 to a client without
-- a verified certificate, which changes nothing.
pub mesh_routes_guarded :
    {S : Type 0} (f : Features) (next : S → Response × S) (s : S)
    → (all_by
          (λ r. is_home_read r || not (any_by (clashes r) (management_routes f)))
          (mesh_routes f)
        ≡ true)
      × (all_by (λ r. is_bootstrap r || (eqb_flag r.protected f.mesh_client_auth)) (mesh_routes f)
          ≡ true)
      × (serve_protected true false next s
          ≡ (respond_error Response.status_unauthorized ApiError.certificate_required, s))
unfolding every all_by any_by clashes is_home_read is_bootstrap mesh_routes management_routes
    serve_protected
mesh_routes_guarded f next s = (
  features-true
      (λ f.
        all_by (λ r. is_home_read r || not (any_by (clashes r) (management_routes f)))
          (mesh_routes f))
      refl f,
  features-true
      (λ f.
        all_by (λ r. is_bootstrap r || (eqb_flag r.protected f.mesh_client_auth)) (mesh_routes f))
      refl f,
  refl,
)
