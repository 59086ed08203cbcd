-- ===== src/Api/Tests.antt =====
-- The theorems about the handlers, on the buckets of `Store.Memory` and a manager that does nothing.
use omm.Prelude.{ℕ, true, false, ◌≡◌, refl, none, some, List, [], ◌∷◌, not, ◌||◌, any_by}
use omm.Prelude.Int.{pos}
use omm.Models.{Home}
use omm.Strings.{Strings}
use omm.Identity.{Crypto, ecdsa}
use omm.Store.Memory.{memory}
use omm.Store.Result.{ok}
use omm.Store.Db.{Db, open_db}
use omm.Store.Records.{get_home, create_home}
use omm.Store.Settings.{get_active_home, set_active_home}
use omm.Api.Response
use omm.Api.Response.{
  Response, Body, ApiError, write_json, respond_error, respond_enroll_error, enroll_error_status,
}
use omm.Api.Host.{ProfileManager, Handler, State, applied, no_profile}
use omm.Api.Homes.{create_home_handler, delete_home_handler, delete_unused}
use omm.Api.Settings.{get_active_home_handler, set_active_home_handler, activate, home_applied}
use omm.Api.Serve.{
  Request, on_store, on_device, creates_home, deletes_home, sets_active_home, serve, serve_store,
  serve_device,
}
use omm.Api.Rooted.{IsRooted}
use omm.Api.Rooted.Run.{serve_all, serve_all-IsRooted, open_db-IsRooted}
use omm.Api.Refused.{serve_store-IsAtomic}
use omm.Api.Answers.{get_active_home-set_active_home_handler}
use omm.Api.Routes.{Features, mesh_routes, management_routes, combined_routes, serve_protected}
use omm.Api.Routes.Planes.{
  clashes, apart, all_by, eqb_flag, is_home_read, is_bootstrap, routes_apart, mesh_routes_guarded,
}

abbrev idle : ProfileManager memory
idle = record {
  Device = Unit;
  apply_profile = λ p db d. (applied, db, d);
  apply_profile_for_home = λ id db d. (no_profile, db, d);
  keeps_homes = λ p db d. (refl, refl);
  keeps_homes_for = λ id db d. (refl, refl);
}

abbrev handler : Handler memory idle
handler = record {
  has_profile_manager = true;
  enrollment = none;
  self = none;
  self_serial = "";
  self_home_id = "attic";
  topology = none;
  leases = none;
  signals = none;
  scan = none;
  mesh_client_auth = true;
  on_setup_complete = none;
  provision_uplink = none;
}

abbrev strings : Strings
strings = record {
  lines = λ s. s ∷ [];
  fields = λ s. [];
  trim_space = λ s. s;
  before_colon = λ s. none;
  to_lower = λ s. s;
}

abbrev attic : Home
attic = record {
  id = "attic";
  name = "The attic";
  controller = "";
  bssid = "";
  certificate = [];
  last_seen = pos 0;
}

abbrev start : State memory idle
start = record {
  db = open_db memory;
  device = tt;
  reports = record { reports = []; ttl = pos 90; stale_ttl = pos 300 };
}

abbrev crypto : Crypto
crypto = record {
  Key = Unit;
  sha256 = λ bs. bs;
  parse_pkix_public_key = λ bs. some (ecdsa tt);
  verify_asn1 = λ key digest sig. false;
}

-- The Home is created and made active, and then not deleted.
abbrev requests : List (Request Unit)
requests =
    on_store (creates_home (pos 7) (some attic))
    ∷ on_device (sets_active_home (some "attic"))
    ∷ on_store (deletes_home "attic")
    ∷ []

serve_all_example : IsRooted memory (serve_all memory crypto idle handler strings requests start).db
serve_all_example =
    serve_all-IsRooted memory crypto idle handler strings requests start
      (open_db-IsRooted memory crypto)

-- The store with the Home, which is active.
stocked : Db memory
unfolding serve_all serve serve_store serve_device memory open_db create_home_handler create_home
    set_active_home_handler activate set_active_home get_active_home get_home home_applied
    delete_home_handler delete_unused respond_error get_active_home_handler respond_enroll_error
    enroll_error_status
stocked = (serve_all memory crypto idle handler strings requests start).db

stocked_active : (get_active_home memory stocked).0 ≡ ok "attic"
unfolding stocked get_active_home
stocked_active = refl

serve_store_example :
    (serve_store memory idle handler strings (deletes_home "attic") stocked).1 ≡ stocked
unfolding stocked
serve_store_example =
    serve_store-IsAtomic memory idle handler strings (deletes_home "attic") stocked refl

set_active_home_example :
    ((home : Home) × ((get_home memory "attic" stocked).0 ≡ ok home))
    × ((get_active_home_handler memory
          (set_active_home_handler memory idle handler (some "attic") stocked tt).1).0
        ≡ write_json Response.status_ok (Body.active_home_response "attic"))
unfolding stocked
set_active_home_example =
    get_active_home-set_active_home_handler memory idle handler "attic" stocked tt refl

abbrev features : Features
features = record {
  enrollment = true;
  topology = true;
  signals = false;
  scan = true;
  self = true;
  provision_uplink = true;
  mesh_client_auth = true;
}

routes_apart_example :
    (apart (mesh_routes features) ≡ true)
    × (apart (management_routes features) ≡ true)
    × (apart (combined_routes features) ≡ true)
routes_apart_example = routes_apart features

mesh_routes_guarded_example :
    (all_by
        (λ r. is_home_read r || not (any_by (clashes r) (management_routes features)))
        (mesh_routes features)
      ≡ true)
    × (all_by
          (λ r. is_bootstrap r || (eqb_flag r.protected features.mesh_client_auth))
          (mesh_routes features)
        ≡ true)
    × (serve_protected true false (λ (n : ℕ). (write_json 200 Body.blank, n)) 3
        ≡ (respond_error Response.status_unauthorized ApiError.certificate_required, 3))
mesh_routes_guarded_example =
    mesh_routes_guarded features (λ (n : ℕ). (write_json 200 Body.blank, n)) 3
