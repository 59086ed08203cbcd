-- ===== src/Api/Refused.antt =====
-- A request on the store whose answer is an error leaves the store as it was.
use omm.Prelude.{
  String, true, false, ◌≡◌, refl, Bool-cases, inl, inr, Option, none, some, ◌==◌, ◌||◌, leb,
}
use omm.Prelude.Int.{ℤ}
use omm.Models.{Home, Node}
use omm.Strings.{Strings}
use omm.Store.Bolt.{Bolt}
use omm.Store.Result.{Result, Error, not_found, ok, err, Result-cases}
use omm.Store.Db.{Db, Exec, update}
use omm.Store.Records.{
  list_homes, get_home, create_home, create_home_tx, update_home, update_home_tx, list_nodes,
  get_node, create_node, create_node_tx, get_profile,
}
use omm.Store.Removal.{delete_home, delete_home_tx, delete_node, delete_node_tx}
use omm.Store.Settings.{get_active_home, reset, get_setup_complete}
use omm.Api.Response
use omm.Api.Response.{Response, Body, write_json}
use omm.Api.Host.{ProfileManager, Handler}
use omm.Api.Homes.{
  Serve, answer, calling, internal, not_found_or_internal, no_content, HomeUpdate, change_home,
  updated_home, delete_unused, delete_home_handler, create_home_handler, update_home_handler,
  create_node_handler, get_profile_handler, profile_found, home_error, list_homes_handler,
  get_home_handler, list_nodes_handler, get_node_handler, delete_node_handler, reset_handler,
}
use omm.Api.Settings.{status_handler, get_setup_handler, get_active_home_handler}
use omm.Api.Graphs.{get_home_selection}
use omm.Api.Serve.{
  StoreCall, gets_status, gets_setup, gets_active_home, lists_homes, lists_nodes, resets,
  creates_home, gets_home, deletes_home, gets_profile, gets_node, deletes_node, updates_home,
  creates_node, gets_home_selection, serve_store,
}

module _ (bolt : Bolt) where
  -- A call that fails leaves the store as it was.
  abbrev IsUndone : {A : Type 0} → Exec bolt A → Type 0
  IsUndone call = (db : Db bolt) (e : Error) → (call db).0 ≡ err e → (call db).1 ≡ db

  -- An answer that is an error leaves it, too.
  abbrev pub IsAtomic : Serve bolt → Type 0
  IsAtomic serve = (db : Db bolt) → leb 400 (serve db).0.status ≡ true → (serve db).1 ≡ db

  update-IsUndone : (tx : Db bolt → Result (Db bolt)) → IsUndone (update bolt tx)
  update-IsUndone tx db e h = elim (Result-cases (tx db)) [
    | inl (db', p) ↦ cc (rw (p, update) at h)
    | inr (x, p) ↦ rw (p, update) refl
  ]

  calling-IsAtomic :
      {A : Type 0} (call : Exec bolt A) (fail : Error → Response) (rest : A → Serve bolt)
      → IsUndone call
      → (db : Db bolt)
      → ((a : A)
          → (call db).0 ≡ ok a
          → leb 400 (rest a (call db).1).0.status ≡ true
          → (rest a (call db).1).1 ≡ db)
      → leb 400 (calling bolt call fail rest db).0.status ≡ true
      → (calling bolt call fail rest db).1 ≡ db
  calling-IsAtomic call fail rest hc db hr h = elim (Result-cases (call db).0) [
    | inl (a, p) ↦ rw (p, calling) (hr a p (rw (p, calling) at h))
    | inr (x, p) ↦ rw (p, calling) (hc db x p)
  ]

  -- A call whose result is answered with a status below 400.
  answered-IsAtomic :
      {A : Type 0} (call : Exec bolt A) (fail : Error → Response) (rest : A → Response)
      → IsUndone call
      → ((a : A) → leb 400 (rest a).status ≡ false)
      → IsAtomic (calling bolt call fail (λ a. answer bolt (rest a)))
  answered-IsAtomic call fail rest hc fine db =
      calling-IsAtomic call fail (λ a. answer bolt (rest a)) hc db λ a p h. cc (fine a)

  delete_home_handler-IsAtomic : (id : String) → IsAtomic (delete_home_handler bolt id)
  unfolding delete_home_handler delete_unused get_active_home delete_home
  delete_home_handler-IsAtomic id db =
      calling-IsAtomic (get_active_home bolt) internal (delete_unused bolt id) (λ db e h. refl) db
        λ active p h. elim (Bool-cases (active == id)) [
          | inl e ↦ rw (e, delete_unused) refl
          | inr e ↦
              rw (e, delete_unused)
                (calling-IsAtomic (delete_home bolt id) not_found_or_internal (no_content bolt)
                  (update-IsUndone (delete_home_tx bolt id)) db (λ u q k. cc k)
                  (rw (e, delete_unused) at h))
        ]

  create_home_handler-IsAtomic :
      (now : ℤ) (home : Option Home) → IsAtomic (create_home_handler bolt now home)
  unfolding create_home_handler create_home
  create_home_handler-IsAtomic now none db h = refl
  create_home_handler-IsAtomic now (some home) db h =
      let home' : Home = record home { last_seen = now } in
      elim (Bool-cases (home.id == "" || home.name == "")) [
        | inl p ↦ rw p refl
        | inr p ↦ rw p (
            answered-IsAtomic (create_home bolt home') internal
              (λ _. write_json Response.status_created (Body.home_body home'))
              (update-IsUndone (create_home_tx bolt home')) (λ u. refl) db (rw p at h))
      ]

  update_home_handler-IsAtomic :
      (id : String) (u : Option HomeUpdate) → IsAtomic (update_home_handler bolt id u)
  unfolding update_home_handler change_home get_home update_home
  update_home_handler-IsAtomic id none db =
      calling-IsAtomic (get_home bolt id) not_found_or_internal (change_home bolt none)
        (λ db e h. refl) db λ home e h. refl
  update_home_handler-IsAtomic id (some u) db =
      calling-IsAtomic (get_home bolt id) not_found_or_internal (change_home bolt (some u))
        (λ db e h. refl) db
        λ home e.
          answered-IsAtomic (update_home bolt (updated_home u home)) internal
            (λ _. write_json Response.status_ok (Body.home_body (updated_home u home)))
            (update-IsUndone (update_home_tx bolt (updated_home u home))) (λ v. refl) db

  create_node_handler-IsAtomic :
      (now : ℤ) (node : Option Node) → IsAtomic (create_node_handler bolt now node)
  unfolding create_node_handler create_node
  create_node_handler-IsAtomic now none db h = refl
  create_node_handler-IsAtomic now (some node) db h =
      let node' : Node = record node { last_seen = now } in
      elim (Bool-cases (node.id == "" || node.serial == "")) [
        | inl p ↦ rw p refl
        | inr p ↦ rw p (
            answered-IsAtomic (create_node bolt node') internal
              (λ _. write_json Response.status_created (Body.node_body node'))
              (update-IsUndone (create_node_tx bolt node')) (λ u. refl) db (rw p at h))
      ]

  get_profile_handler-IsAtomic : (id : String) → IsAtomic (get_profile_handler bolt id)
  unfolding get_profile_handler profile_found get_home get_profile
  get_profile_handler-IsAtomic id db =
      calling-IsAtomic (get_home bolt id) (home_error bolt id) (λ _. profile_found bolt id)
        (λ db e h. refl) db
        λ home e h. elim (Result-cases (get_profile bolt id db).0) [
          | inl (p, q) ↦ rw (q, profile_found) refl
          | inr (not_found, q) ↦ rw (q, profile_found) refl
          | inr (Error.refused, q) ↦ rw (q, profile_found) refl
          | inr (Error.corrupt, q) ↦ rw (q, profile_found) refl
        ]

  module _ (pm : ProfileManager bolt) (h : Handler bolt pm) (strings : Strings) where
    -- A request on the store, of any of its routes, that is answered with a status of 400 or
    -- above leaves the store as it was.
    pub serve_store-IsAtomic :
        (call : StoreCall) (db : Db bolt)
        → leb 400 (serve_store bolt pm h strings call db).0.status ≡ true
        → (serve_store bolt pm h strings call db).1 ≡ db
    unfolding serve_store status_handler get_setup_handler get_active_home_handler
        list_homes_handler list_nodes_handler reset_handler get_home_handler get_node_handler
        delete_node_handler get_home_selection list_homes list_nodes get_home get_node reset
        delete_node get_active_home get_setup_complete
    serve_store-IsAtomic gets_status db q = refl
    serve_store-IsAtomic gets_setup db q = refl
    serve_store-IsAtomic gets_active_home db q = refl
    serve_store-IsAtomic lists_homes db q = refl
    serve_store-IsAtomic lists_nodes db q = refl
    serve_store-IsAtomic resets db q = cc q
    serve_store-IsAtomic (creates_home now home) db q = create_home_handler-IsAtomic now home db q
    serve_store-IsAtomic (gets_home id) db q =
        answered-IsAtomic (get_home bolt id) not_found_or_internal
          (λ home. write_json Response.status_ok (Body.home_body home)) (λ db e h. refl)
          (λ home. refl) db q
    serve_store-IsAtomic (deletes_home id) db q = delete_home_handler-IsAtomic id db q
    serve_store-IsAtomic (gets_profile id) db q = get_profile_handler-IsAtomic id db q
    serve_store-IsAtomic (gets_node id) db q =
        answered-IsAtomic (get_node bolt id) not_found_or_internal
          (λ node. write_json Response.status_ok (Body.node_body node)) (λ db e h. refl)
          (λ node. refl) db q
    serve_store-IsAtomic (deletes_node id) db q =
        answered-IsAtomic (delete_node bolt id) not_found_or_internal
          (λ _. write_json Response.status_no_content Body.blank)
          (update-IsUndone (delete_node_tx bolt id)) (λ u. refl) db q
    serve_store-IsAtomic (updates_home id u) db q = update_home_handler-IsAtomic id u db q
    serve_store-IsAtomic (creates_node now node) db q = create_node_handler-IsAtomic now node db q
    serve_store-IsAtomic (gets_home_selection observed) db q = refl
