-- ===== src/Store/Records.antt =====
-- The Home, node and profile records of internal/storage/store.go.
use omm.Prelude.{String, List, [], ◌∷◌}
use omm.Models.{Home, Node, Profile}
use omm.Store.Bolt.{Bolt}
use omm.Store.Result.{Result, ok, err, ◌>>=◌}
use omm.Store.Db.{Db, Exec, update, view, get_record, put_record}

-- The values of a bucket, in the order of `ForEach`.
unfoldable pub values {ℓ} : {V : Type ℓ} → List (String × V) → List V
values [] = []
values ((k, v) ∷ l) = v ∷ values l

module _ (bolt : Bolt) where
  unfoldable pub list_homes : Exec bolt (List Home)
  list_homes = view bolt λ db. ok (values (bolt.entries Home db.homes))

  unfoldable pub get_home : String → Exec bolt Home
  get_home id = view bolt λ db. get_record bolt db.homes id

  unfoldable pub create_home_tx : Home → Db bolt → Result (Db bolt)
  create_home_tx home db = do
    b ← put_record bolt db.homes home.id home
    ok (record db { homes = b })

  unfoldable pub create_home : Home → Exec bolt Unit
  unfolding create_home_tx
  create_home home = update bolt (create_home_tx home)

  -- The fields that peer discovery carries; `get` fails only with `ErrNotFound`.
  unfoldable pub upsert_home_tx : Home → Db bolt → Result (Db bolt)
  upsert_home_tx home db = elim (get_record bolt db.homes home.id) [
    | ok existing ↦ do
      b ← put_record bolt db.homes home.id (record existing {
        name = home.name;
        controller = home.controller;
        bssid = home.bssid;
        last_seen = home.last_seen;
      })
      ok (record db { homes = b })
    | err e ↦ do b ← put_record bolt db.homes home.id home; ok (record db { homes = b })
  ]

  unfoldable pub upsert_home : Home → Exec bolt Unit
  unfolding upsert_home_tx
  upsert_home home = update bolt (upsert_home_tx home)

  unfoldable pub update_home_tx : Home → Db bolt → Result (Db bolt)
  update_home_tx home db = do
    existing ← get_record bolt db.homes home.id
    b ←
        put_record bolt db.homes home.id
          (record existing { name = home.name; controller = home.controller; bssid = home.bssid })
    ok (record db { homes = b })

  unfoldable pub update_home : Home → Exec bolt Unit
  unfolding update_home_tx
  update_home home = update bolt (update_home_tx home)

  unfoldable pub list_nodes : Exec bolt (List Node)
  list_nodes = view bolt λ db. ok (values (bolt.entries Node db.nodes))

  unfoldable pub get_node : String → Exec bolt Node
  get_node id = view bolt λ db. get_record bolt db.nodes id

  unfoldable pub create_node_tx : Node → Db bolt → Result (Db bolt)
  create_node_tx node db = do
    b ← put_record bolt db.nodes node.id node
    ok (record db { nodes = b })

  unfoldable pub create_node : Node → Exec bolt Unit
  unfolding create_node_tx
  create_node node = update bolt (create_node_tx node)

  unfoldable pub get_profile : String → Exec bolt Profile
  get_profile home_id = view bolt λ db. get_record bolt db.profiles home_id

  unfoldable pub create_or_update_profile_tx : Profile → Db bolt → Result (Db bolt)
  create_or_update_profile_tx profile db = do
    b ← put_record bolt db.profiles profile.home_id profile
    ok (record db { profiles = b })

  unfoldable pub create_or_update_profile : Profile → Exec bolt Unit
  unfolding create_or_update_profile_tx
  create_or_update_profile profile = update bolt (create_or_update_profile_tx profile)
