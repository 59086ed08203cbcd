-- ===== src/Api/Settings.antt =====
-- The handlers of the device's own state: `healthHandler` and `status` of router.go, setup.go,
-- activehome.go.
use omm.Prelude.{String, Bool, true, false, Option, none, some, [], ◌∷◌, ◌==◌, if◌then◌else◌}
use omm.Models.{Home, BackhaulState, backhaul_mode_unknown}
use omm.Store.Bolt.{Bolt}
use omm.Store.Result.{ok, err}
use omm.Store.Reads.{to_option}
use omm.Store.Db.{Db}
use omm.Store.Records.{get_home}
use omm.Store.Settings.{
  get_active_home, set_active_home, get_setup_complete, set_setup_complete, get_backhaul_state,
}
use omm.Enrollment.{storage}
use omm.Api.Response
use omm.Api.Response.{
  Body, Response, ApiError, respond_error, write_json, respond_enroll_error, decoding, missing,
  SetupResponse,
}
use omm.Api.Host.{ProfileManager, Handler, apply_failed}
use omm.Api.Homes.{Serve, answer, calling, internal, bad_request}

unfoldable pub health_handler : Response
health_handler = write_json Response.status_ok (Body.status_response "ok")

unfoldable pub state_or_unknown : Option BackhaulState → BackhaulState
state_or_unknown none = record { mode = backhaul_mode_unknown; reason = ""; remediation = "" }
state_or_unknown (some s) = s

abbrev pub name_or_blank : Option Home → String
name_or_blank none = ""
name_or_blank (some home) = home.name

abbrev pub id_or_blank : Option String → String
id_or_blank none = ""
id_or_blank (some id) = id

module _ (bolt : Bolt) where
  unfoldable pub status_handler : Serve bolt
  unfolding state_or_unknown
  status_handler db =
      let state = state_or_unknown (to_option (get_backhaul_state bolt db).0) in
      (write_json Response.status_ok (Body.management_status_response "ready" state), db)

  unfoldable pub get_active_home_handler : Serve bolt
  get_active_home_handler =
      calling bolt (get_active_home bolt) internal
        λ id. answer bolt (write_json Response.status_ok (Body.active_home_response id))

  module _ (pm : ProfileManager bolt) (h : Handler bolt pm) where
    -- A handler that also works on the device.
    abbrev pub ServeDevice : Type 0
    ServeDevice = Db bolt → pm.Device → Response × Db bolt × pm.Device

    unfoldable pub setup_of : Bool → Db bolt → SetupResponse
    setup_of complete db = record {
      setup_complete = complete;
      node_id = id_or_blank h.self;
      serial = h.self_serial;
      home_id = h.self_home_id;
      home_name =
          if h.self_home_id == ""
          then ""
          else name_or_blank (to_option (get_home bolt h.self_home_id db).0);
    }

    unfoldable pub get_setup_handler : Serve bolt
    unfolding setup_of
    get_setup_handler = calling bolt (get_setup_complete bolt) internal λ complete db.
        (write_json Response.status_ok (Body.setup_response (setup_of complete db)), db)

    -- An error of the hook is logged, and nothing else.
    unfoldable pub run_hook : pm.Device → pm.Device
    run_hook d = elim h.on_setup_complete [ none ↦ d | some hook ↦ (hook d).1 ]

    unfoldable pub complete_setup_handler : ServeDevice
    unfolding run_hook
    complete_setup_handler db d =
        let (r, db') = set_setup_complete bolt true db in
        elim r [
          | err e ↦ (internal e, db', d)
          | ok _ ↦ (write_json Response.status_ok Body.setup_completed, db', run_hook d)
        ]

    unfoldable pub join_uplink :
        (String → String → pm.Device → Bool × pm.Device)
        → Option (String × String)
        → pm.Device
        → Response × pm.Device
    join_uplink hook none d = (bad_request decoding, d)
    join_uplink hook (some (ssid, password)) d =
        let (made, d') = hook ssid password d in
        if ssid == ""
        then (bad_request ApiError.no_ssid, d)
        else if made
        then (write_json Response.status_ok Body.uplink_provisioned, d')
        else (respond_error Response.status_internal_server_error ApiError.no_uplink, d')

    -- The route is there if there is a hook.
    unfoldable pub provision_uplink_handler :
        (String → String → pm.Device → Bool × pm.Device) → Option (String × String) → ServeDevice
    unfolding join_uplink
    provision_uplink_handler hook body db d =
        let (r, db') = get_setup_complete bolt db in
        elim r [
          | err e ↦ (internal e, db', d)
          | ok true ↦ (respond_error Response.status_conflict ApiError.claimed, db', d)
          | ok false ↦ let (answered, d') = join_uplink hook body d in (answered, db', d')
        ]

    -- A Home without a profile is active all the same; any other error is told.
    unfoldable pub home_applied : String → ServeDevice
    home_applied id db d =
        let (r, db', d') = pm.apply_profile_for_home id db d in
        elim r [
          | apply_failed ↦
              (respond_error Response.status_internal_server_error ApiError.apply_profile, db', d')
          | _ ↦ (write_json Response.status_ok (Body.active_home_response id), db', d')
        ]

    unfoldable pub activate : String → ServeDevice
    unfolding home_applied
    activate id db d =
        let (r, db') = set_active_home bolt id db in
        elim r [
          | err e ↦ (internal e, db', d)
          | ok _ ↦
              if h.has_profile_manager
              then home_applied id db' d
              else (write_json Response.status_ok (Body.active_home_response id), db', d)
        ]

    unfoldable pub set_active_home_handler : Option String → ServeDevice
    unfolding activate
    set_active_home_handler none db d = (bad_request decoding, db, d)
    set_active_home_handler (some id) db d =
        let (r, db') = get_home bolt id db in
        if id == "" then (bad_request (missing ("home_id" ∷ [])), db, d) else elim r [
          | err e ↦ (respond_enroll_error (storage e), db', d)
          | ok _ ↦ activate id db' d
        ]
