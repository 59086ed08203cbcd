-- ===== src/Api/Rooted/Served.antt =====
-- What each handler does to the active Home, and every sequence of requests.
use omm.Prelude.{
  String, Bool, true, false, ◌≡◌, Bool-cases, inl, inr, Option, none, some, ◌==◌, ◌||◌,
}
use omm.Prelude.Int.{ℤ}
use omm.Models.{Home, Node, Profile}
use omm.Strings.{Strings}
use omm.Store.Bolt.{Bolt}
use omm.Store.Result.{Error, not_found, ok, Result-cases}
use omm.Store.Db.{Db}
use omm.Store.Records.{
  list_homes, get_home, create_home, update_home, list_nodes, get_node, create_node, get_profile,
  create_or_update_profile,
}
use omm.Store.Removal.{delete_home, delete_node}
use omm.Store.Settings.{
  get_active_home, set_active_home, reset, set_setup_complete, get_setup_complete,
}
use omm.Store.Frame.{
  create_node-IsFrame, create_or_update_profile-IsFrame, delete_node-IsFrame,
  set_setup_complete-IsFrame, get_active_home-IsFrame,
}
use omm.Api.Response
use omm.Api.Response.{Response, Body, write_json, ApiError, respond_error}
use omm.Api.Host.{ProfileManager, Handler, Applied-cases}
use omm.Api.Homes.{
  internal, not_found_or_internal, no_content, HomeUpdate, change_home, updated_home, delete_unused,
  delete_home_handler, create_home_handler, update_home_handler, create_node_handler,
  get_profile_handler, profile_found, home_error, create_profile_handler, store_profile,
  profile_applied, list_homes_handler, get_home_handler, list_nodes_handler, get_node_handler,
  delete_node_handler, reset_handler, of_path,
}
use omm.Api.Settings.{
  complete_setup_handler, provision_uplink_handler, home_applied, activate, set_active_home_handler,
  status_handler, get_setup_handler, get_active_home_handler, setup_of,
}
use omm.Api.Graphs.{get_home_selection}
use omm.Api.Serve.{
  StoreCall, gets_status, gets_setup, gets_active_home, lists_homes, lists_nodes, resets,
  creates_home, gets_home, deletes_home, gets_profile, gets_node, deletes_node, updates_home,
  creates_node, gets_home_selection, DeviceCall, completes_setup, provisions_uplink,
  creates_profile, sets_active_home, serve_store, serve_device,
}
use omm.Api.Rooted.{
  IsRooted, Roots, IsFrame-Roots, IsSameHomes-IsRooted, create_home-Roots, update_home-Roots,
  delete_home-IsRooted, set_active_home-IsRooted, reset-Roots, calling-IsRooted, answered-Roots,
}

module _ (bolt : Bolt) where
  delete_home_handler-Roots : (id : String) → Roots bolt (delete_home_handler bolt id)
  unfolding delete_home_handler delete_unused get_active_home
  delete_home_handler-Roots id db r =
      calling-IsRooted bolt (get_active_home bolt) internal (delete_unused bolt id) db r λ active e.
        elim (Bool-cases (active == id)) [
          | inl p ↦ rw (p, delete_unused) r
          | inr p ↦
              rw (p, delete_unused)
                (let gone = delete_home-IsRooted bolt id db active e p r in
                  calling-IsRooted bolt (delete_home bolt id) not_found_or_internal
                    (no_content bolt) db gone λ u q. gone)
        ]

  create_home_handler-Roots :
      (now : ℤ) (home : Option Home) → Roots bolt (create_home_handler bolt now home)
  unfolding create_home_handler
  create_home_handler-Roots now none db r = r
  create_home_handler-Roots now (some home) db r =
      let home' : Home = record home { last_seen = now } in
      elim (Bool-cases (home.id == "" || home.name == "")) [
        | inl p ↦ rw p r
        | inr p ↦ rw p (
            answered-Roots bolt (create_home bolt home') internal
              (λ _. write_json Response.status_created (Body.home_body home'))
              (create_home-Roots bolt home') db r)
      ]

  update_home_handler-Roots :
      (id : String) (u : Option HomeUpdate) → Roots bolt (update_home_handler bolt id u)
  unfolding update_home_handler change_home get_home
  update_home_handler-Roots id none db r =
      calling-IsRooted bolt (get_home bolt id) not_found_or_internal (change_home bolt none) db r
        λ home e. r
  update_home_handler-Roots id (some u) db r =
      calling-IsRooted bolt (get_home bolt id) not_found_or_internal (change_home bolt (some u)) db
        r
        λ home e.
          answered-Roots bolt (update_home bolt (updated_home u home)) internal
            (λ _. write_json Response.status_ok (Body.home_body (updated_home u home)))
            (update_home-Roots bolt (updated_home u home)) db r

  create_node_handler-Roots :
      (now : ℤ) (node : Option Node) → Roots bolt (create_node_handler bolt now node)
  unfolding create_node_handler
  create_node_handler-Roots now none db r = r
  create_node_handler-Roots now (some node) db r =
      let node' : Node = record node { last_seen = now } in
      elim (Bool-cases (node.id == "" || node.serial == "")) [
        | inl p ↦ rw p r
        | inr p ↦ rw p (
            answered-Roots bolt (create_node bolt node') internal
              (λ _. write_json Response.status_created (Body.node_body node'))
              (IsFrame-Roots bolt (create_node bolt node') (create_node-IsFrame bolt node')) db r)
      ]

  get_profile_handler-Roots : (id : String) → Roots bolt (get_profile_handler bolt id)
  unfolding get_profile_handler profile_found get_home get_profile
  get_profile_handler-Roots id db r =
      calling-IsRooted bolt (get_home bolt id) (home_error bolt id) (λ _. profile_found bolt id) db
        r
        λ home e. elim (Result-cases (get_profile bolt id db).0) [
          | inl (p, q) ↦ rw (q, profile_found) r
          | inr (not_found, q) ↦ rw (q, profile_found) r
          | inr (Error.refused, q) ↦ rw (q, profile_found) r
          | inr (Error.corrupt, q) ↦ rw (q, profile_found) r
        ]

  module _ (pm : ProfileManager bolt) (h : Handler bolt pm) (strings : Strings) where
    -- Work on the store and the device.
    abbrev RootsDevice : (Db bolt → pm.Device → Response × Db bolt × pm.Device) → Type 0
    RootsDevice f = (db : Db bolt) (d : pm.Device) → IsRooted bolt db → IsRooted bolt (f db d).1

    complete_setup-Roots : RootsDevice (complete_setup_handler bolt pm h)
    unfolding complete_setup_handler
    complete_setup-Roots db d r =
        let done =
          IsFrame-Roots bolt (set_setup_complete bolt true) (set_setup_complete-IsFrame bolt true)
            db r in
        elim (Result-cases (set_setup_complete bolt true db).0) [
          | inl (u, q) ↦ rw (q, complete_setup_handler) done
          | inr (x, q) ↦ rw (q, complete_setup_handler) done
        ]

    get_setup_complete-Roots : Roots bolt (get_setup_complete bolt)
    unfolding get_setup_complete
    get_setup_complete-Roots db r = r

    provision_uplink-Roots :
        (hook : String → String → pm.Device → Bool × pm.Device) (body : Option (String × String))
        → RootsDevice (provision_uplink_handler bolt pm h hook body)
    unfolding provision_uplink_handler
    provision_uplink-Roots hook body db d r =
        let read = get_setup_complete-Roots db r in
        elim (Result-cases (get_setup_complete bolt db).0) [
          | inl (true, q) ↦ rw (q, provision_uplink_handler) read
          | inl (false, q) ↦ rw (q, provision_uplink_handler) read
          | inr (x, q) ↦ rw (q, provision_uplink_handler) read
        ]

    profile_applied-Roots : (p : Profile) → RootsDevice (profile_applied bolt pm h p)
    unfolding profile_applied
    profile_applied-Roots p db d r =
        let kept = IsSameHomes-IsRooted bolt db _ (pm.keeps_homes p db d) r in
        elim (Applied-cases (pm.apply_profile p db d).0) [
          | inl e ↦ rw (e, profile_applied) kept
          | inr (inl e) ↦ rw (e, profile_applied) kept
          | inr (inr e) ↦ rw (e, profile_applied) kept
        ]

    create_profile-Roots :
        (id : String) (body : Option Profile)
        → RootsDevice (create_profile_handler bolt pm h id body)
    unfolding create_profile_handler store_profile
    create_profile-Roots id none db d r = r
    create_profile-Roots id (some body) db d r =
        let p : Profile = of_path bolt pm h id body in
        let stored =
          IsFrame-Roots bolt (create_or_update_profile bolt p)
            (create_or_update_profile-IsFrame bolt p) db r in
        elim (Bool-cases (p.home_id == id)) [
          | inr a ↦ rw a r
          | inl a ↦ elim (Bool-cases (p.home_id == "")) [
            | inl b ↦ rw (a, b) r
            | inr b ↦ elim (Result-cases (create_or_update_profile bolt p db).0) [
              | inr (x, q) ↦ rw (a, b, q, store_profile) stored
              | inl (u, q) ↦ elim (Bool-cases h.has_profile_manager) [
                | inl m ↦ rw (a, b, q, store_profile, m) (profile_applied-Roots p _ d stored)
                | inr m ↦ rw (a, b, q, store_profile, m) stored
              ]
            ]
          ]
        ]

    home_applied-Roots : (id : String) → RootsDevice (home_applied bolt pm h id)
    unfolding home_applied
    home_applied-Roots id db d r =
        let kept = IsSameHomes-IsRooted bolt db _ (pm.keeps_homes_for id db d) r in
        elim (Applied-cases (pm.apply_profile_for_home id db d).0) [
          | inl e ↦ rw (e, home_applied) kept
          | inr (inl e) ↦ rw (e, home_applied) kept
          | inr (inr e) ↦ rw (e, home_applied) kept
        ]

    activate-IsRooted :
        (id : String) (db : Db bolt) (d : pm.Device) (home : Home)
        → (get_home bolt id db).0 ≡ ok home
        → IsRooted bolt db
        → IsRooted bolt (activate bolt pm h id db d).1
    unfolding activate
    activate-IsRooted id db d home at r =
        let active = set_active_home-IsRooted bolt id db home at r in
        elim (Result-cases (set_active_home bolt id db).0) [
          | inr (x, q) ↦ rw (q, activate) active
          | inl (u, q) ↦ elim (Bool-cases h.has_profile_manager) [
            | inl m ↦ rw (q, activate, m) (home_applied-Roots id _ d active)
            | inr m ↦ rw (q, activate, m) active
          ]
        ]

    set_active_home_handler-Roots :
        (id : Option String) → RootsDevice (set_active_home_handler bolt pm h id)
    unfolding set_active_home_handler get_home
    set_active_home_handler-Roots none db d r = r
    set_active_home_handler-Roots (some id) db d r = elim (Bool-cases (id == "")) [
      | inl a ↦ rw a r
      | inr a ↦ elim (Result-cases (get_home bolt id db).0) [
        | inl (home, q) ↦ rw (a, q, set_active_home_handler) (activate-IsRooted id db d home q r)
        | inr (x, q) ↦ rw (a, q, set_active_home_handler) r
      ]
    ]

    pub serve_device-Roots :
        (call : DeviceCall pm.Device) → RootsDevice (serve_device bolt pm h strings call)
    unfolding serve_device
    serve_device-Roots completes_setup = complete_setup-Roots
    serve_device-Roots (provisions_uplink hook body) = provision_uplink-Roots hook body
    serve_device-Roots (creates_profile id body) = create_profile-Roots id body
    serve_device-Roots (sets_active_home id) = set_active_home_handler-Roots id

    pub serve_store-Roots : (call : StoreCall) → Roots bolt (serve_store bolt pm h strings call)
    unfolding serve_store status_handler get_setup_handler get_active_home_handler
        list_homes_handler list_nodes_handler reset_handler get_home_handler get_node_handler
        delete_node_handler get_home_selection list_homes list_nodes get_home get_node
    serve_store-Roots gets_status db r = r
    serve_store-Roots gets_setup db r =
        calling-IsRooted bolt (get_setup_complete bolt) internal
          (λ complete after. (
            write_json Response.status_ok (Body.setup_response (setup_of bolt pm h complete after)),
            after,
          ))
          db (get_setup_complete-Roots db r) λ a e. get_setup_complete-Roots db r
    serve_store-Roots gets_active_home db r =
        answered-Roots bolt (get_active_home bolt) internal
          (λ id. write_json Response.status_ok (Body.active_home_response id))
          (IsFrame-Roots bolt (get_active_home bolt) (get_active_home-IsFrame bolt)) db r
    serve_store-Roots lists_homes db r = r
    serve_store-Roots lists_nodes db r = r
    serve_store-Roots resets db r =
        calling-IsRooted bolt (reset bolt) internal (no_content bolt) db (reset-Roots bolt db r)
          λ u e. reset-Roots bolt db r
    serve_store-Roots (creates_home now home) db r = create_home_handler-Roots now home db r
    serve_store-Roots (gets_home id) db r =
        answered-Roots bolt (get_home bolt id) not_found_or_internal
          (λ home. write_json Response.status_ok (Body.home_body home)) (λ db r. r) db r
    serve_store-Roots (deletes_home id) db r = delete_home_handler-Roots id db r
    serve_store-Roots (gets_profile id) db r = get_profile_handler-Roots id db r
    serve_store-Roots (gets_node id) db r =
        answered-Roots bolt (get_node bolt id) not_found_or_internal
          (λ node. write_json Response.status_ok (Body.node_body node)) (λ db r. r) db r
    serve_store-Roots (deletes_node id) db r =
        let gone = IsFrame-Roots bolt (delete_node bolt id) (delete_node-IsFrame bolt id) db r in
        calling-IsRooted bolt (delete_node bolt id) not_found_or_internal (no_content bolt) db gone
          λ u e. gone
    serve_store-Roots (updates_home id update) db r = update_home_handler-Roots id update db r
    serve_store-Roots (creates_node now node) db r = create_node_handler-Roots now node db r
    serve_store-Roots (gets_home_selection observed) db r = r
