-- ===== src/Api/Homes.antt =====
-- The handlers of Homes, profiles and nodes: router.go, setup.go (`updateHome`) and lifecycle.go.
use omm.Prelude.{String, Option, none, some, [], ◌∷◌, ◌==◌, ◌||◌, not, if◌then◌else◌}
use omm.Prelude.Int.{ℤ}
use omm.Models.{Home, Node, Profile}
use omm.Store.Bolt.{Bolt}
use omm.Store.Result.{Error, not_found, ok, err}
use omm.Store.Db.{Db, Exec}
use omm.Store.Records.{
  list_homes, get_home, create_home, update_home, list_nodes, get_node, create_node, get_profile,
  create_or_update_profile,
}
use omm.Store.Removal.{delete_home, delete_node}
use omm.Store.Settings.{get_active_home, reset}
use omm.Api.Response
use omm.Api.Response.{
  Body, Response, ApiError, respond_error, write_json, store_error_status, decoding, missing,
  stored,
}
use omm.Api.Host.{ProfileManager, Handler, applied}

-- `name` and `controller`, each of them optional.
pub record HomeUpdate : Type 0 where
  pub name : Option String
  pub controller : Option String

abbrev pub or_kept : String → Option String → String
or_kept old none = old
or_kept old (some new) = new

unfoldable pub updated_home : HomeUpdate → Home → Home
updated_home u home = record home {
  name = or_kept home.name u.name;
  controller = or_kept home.controller u.controller;
}

unfoldable pub blank_profile : String → Profile
blank_profile home_id = record {
  home_id = home_id;
  node_name = "";
  mesh_ssid = "";
  mesh_key = "";
  ap_ssid = "";
  ap_key = "";
  band = "";
  radio = "";
  ap_bands = [];
  vlans = [];
  mesh_channel = "";
  mesh_htmode = "";
}

abbrev pub internal : Error → Response
internal e = respond_error Response.status_internal_server_error (stored e)

abbrev pub not_found_or_internal : Error → Response
not_found_or_internal e = respond_error (store_error_status e) (stored e)

abbrev pub bad_request : ApiError → Response
bad_request e = respond_error Response.status_bad_request e

module _ (bolt : Bolt) where
  -- A handler that works on the store only.
  abbrev pub Serve : Type 0
  Serve = Db bolt → Response × Db bolt

  abbrev pub answer : Response → Serve
  answer r db = (r, db)

  -- A call of the store, whose error is answered by `fail`.
  abbrev pub calling : {A : Type 0} → Exec bolt A → (Error → Response) → (A → Serve) → Serve
  calling call fail rest db =
      let (r, db') = call db in elim r [ ok a ↦ rest a db' | err e ↦ (fail e, db') ]

  unfoldable pub list_homes_handler : Serve
  list_homes_handler =
      calling (list_homes bolt) internal
        λ homes. answer (write_json Response.status_ok (Body.homes_response homes))

  -- The body that was decoded, or none; `now` is the time.
  unfoldable pub create_home_handler : ℤ → Option Home → Serve
  create_home_handler now none db = (bad_request decoding, db)
  create_home_handler now (some home) db =
      let home' = record home { last_seen = now } in
      if home.id == "" || home.name == ""
      then (bad_request (missing ("id" ∷ "name" ∷ [])), db)
      else calling (create_home bolt home') internal
          (λ _. answer (write_json Response.status_created (Body.home_body home'))) db

  unfoldable pub get_home_handler : String → Serve
  get_home_handler id =
      calling (get_home bolt id) not_found_or_internal
        λ home. answer (write_json Response.status_ok (Body.home_body home))

  unfoldable pub change_home : Option HomeUpdate → Home → Serve
  unfolding updated_home
  change_home none home = answer (bad_request decoding)
  change_home (some u) home =
      calling (update_home bolt (updated_home u home)) internal
        λ _. answer (write_json Response.status_ok (Body.home_body (updated_home u home)))

  unfoldable pub update_home_handler : String → Option HomeUpdate → Serve
  unfolding change_home
  update_home_handler id update =
      calling (get_home bolt id) not_found_or_internal (change_home update)

  abbrev pub no_content : Unit {0} → Serve
  no_content _ = answer (write_json Response.status_no_content Body.blank)

  -- The active Home is not deleted.
  unfoldable pub delete_unused : String → String → Serve
  delete_unused id active db =
      if active == id
      then (respond_error Response.status_conflict ApiError.home_in_use, db)
      else calling (delete_home bolt id) not_found_or_internal no_content db

  unfoldable pub delete_home_handler : String → Serve
  unfolding delete_unused
  delete_home_handler id = calling (get_active_home bolt) internal (delete_unused id)

  unfoldable pub home_error : String → Error → Response
  home_error id not_found = respond_error Response.status_not_found (ApiError.home_unknown id)
  home_error id e = internal e

  -- A Home without a profile has the empty one.
  unfoldable pub profile_found : String → Serve
  unfolding blank_profile
  profile_found id db =
      let (r, db') = get_profile bolt id db in
      elim r [
        | ok p ↦ (write_json Response.status_ok (Body.profile_response p), db')
        | err not_found ↦
            (write_json Response.status_ok (Body.profile_response (blank_profile id)), db')
        | err e ↦ (internal e, db')
      ]

  unfoldable pub get_profile_handler : String → Serve
  unfolding home_error profile_found
  get_profile_handler id = calling (get_home bolt id) (home_error id) λ _. profile_found id

  unfoldable pub list_nodes_handler : Serve
  list_nodes_handler =
      calling (list_nodes bolt) internal
        λ nodes. answer (write_json Response.status_ok (Body.nodes_response nodes))

  unfoldable pub create_node_handler : ℤ → Option Node → Serve
  create_node_handler now none db = (bad_request decoding, db)
  create_node_handler now (some node) db =
      let node' = record node { last_seen = now } in
      if node.id == "" || node.serial == ""
      then (bad_request (missing ("id" ∷ "serial" ∷ [])), db)
      else calling (create_node bolt node') internal
          (λ _. answer (write_json Response.status_created (Body.node_body node'))) db

  unfoldable pub get_node_handler : String → Serve
  get_node_handler id =
      calling (get_node bolt id) not_found_or_internal
        λ node. answer (write_json Response.status_ok (Body.node_body node))

  unfoldable pub delete_node_handler : String → Serve
  delete_node_handler id = calling (delete_node bolt id) not_found_or_internal no_content

  unfoldable pub reset_handler : Serve
  reset_handler = calling (reset bolt) internal no_content

  module _ (pm : ProfileManager bolt) (h : Handler bolt pm) where
    -- The profile is stored, and then applied if there is a manager.
    unfoldable pub profile_applied : Profile → Db bolt → pm.Device → Response × Db bolt × pm.Device
    profile_applied p db d =
        let (r, db', d') = pm.apply_profile p db d in
        elim r [
          | applied ↦ (write_json Response.status_created (Body.profile_response p), db', d')
          | _ ↦
              (respond_error Response.status_internal_server_error ApiError.apply_profile, db', d')
        ]

    unfoldable pub store_profile : Profile → Db bolt → pm.Device → Response × Db bolt × pm.Device
    unfolding profile_applied
    store_profile p db d =
        let (r, db') = create_or_update_profile bolt p db in
        elim r [
          | err e ↦ (internal e, db', d)
          | ok _ ↦
              if h.has_profile_manager
              then profile_applied p db' d
              else (write_json Response.status_created (Body.profile_response p), db', d)
        ]

    -- A body without a Home is of the Home of the path.
    abbrev pub of_path : String → Profile → Profile
    of_path id p = if p.home_id == "" then record p { home_id = id } else p

    unfoldable pub create_profile_handler :
        String → Option Profile → Db bolt → pm.Device → Response × Db bolt × pm.Device
    unfolding store_profile
    create_profile_handler id none db d = (bad_request decoding, db, d)
    create_profile_handler id (some body) db d =
        let p = of_path id body in
        if not (p.home_id == id)
        then (bad_request ApiError.other_home, db, d)
        else if p.home_id == ""
        then (bad_request (missing ("home_id" ∷ [])), db, d)
        else store_profile p db d
