-- ===== src/Store/Removal.antt =====
-- `DeleteHome` and `DeleteNode` of internal/storage/store.go.
use omm.Prelude.{String, Bool, false, none, some, List, [], ◌∷◌, ◌==◌, if◌then◌else◌, ◌||◌}
use omm.Models.{Home, Node, Profile, Enrollment}
use omm.Store.Bolt.{Bolt}
use omm.Store.Result.{Result, ok, found, ◌>>=◌, ◌>>◌}
use omm.Store.Db.{Db, Exec, update, put_record, delete_all}

unfoldable pub contains : String → List String → Bool
contains a [] = false
contains a (x ∷ xs) = (x == a) || contains a xs

-- `kept`: the trusted Homes without `id`
unfoldable pub without : String → List String → List String
without id [] = []
without id (h ∷ hs) = if h == id then without id hs else h ∷ without id hs

-- `changed`
unfoldable pub is_member : String → Node → Bool
unfolding contains
is_member id n = (n.current_home == id) || contains id n.trusted_homes

unfoldable pub strip_home : String → Node → Node
unfolding without
strip_home id n = record n {
  current_home = if n.current_home == id then "" else n.current_home;
  trusted_homes = without id n.trusted_homes;
}

-- The enrollments of the Home: the keys, and the node ids that are not blank.
unfoldable pub scoped_keys : String → List (String × Enrollment) → List String
scoped_keys id [] = []
scoped_keys id ((k, e) ∷ l) = if e.home_id == id then k ∷ scoped_keys id l else scoped_keys id l

unfoldable pub scoped_nodes : String → List (String × Enrollment) → List String
scoped_nodes id [] = []
scoped_nodes id ((k, e) ∷ l) =
    if e.home_id == id
    then (if e.node_id == "" then scoped_nodes id l else e.node_id ∷ scoped_nodes id l)
    else scoped_nodes id l

-- `updated`: the nodes that were members, stripped of the Home.
unfoldable pub stripped : String → List (String × Node) → List Node
unfolding is_member strip_home
stripped id [] = []
stripped id ((k, n) ∷ l) = if is_member id n then strip_home id n ∷ stripped id l else stripped id l

module _ (bolt : Bolt) where
  unfoldable pub put_nodes : bolt.Bucket Node → List Node → Result (bolt.Bucket Node)
  put_nodes b [] = ok b
  put_nodes b (n ∷ ns) = do b' ← put_record bolt b n.id n; put_nodes b' ns

  unfoldable pub delete_home_tx : String → Db bolt → Result (Db bolt)
  unfolding scoped_keys scoped_nodes stripped put_nodes delete_all
  delete_home_tx id db = do
    found (bolt.get Home db.homes id)
    let homes = bolt.delete Home db.homes id
    let profiles = bolt.delete Profile db.profiles id
    let all = bolt.entries Enrollment db.enrollments
    let enrollments = delete_all bolt db.enrollments (scoped_keys id all)
    let by_node = delete_all bolt db.enrollment_by_node (scoped_nodes id all)
    nodes ← put_nodes db.nodes (stripped id (bolt.entries Node db.nodes))
    ok (record db {
      homes = homes;
      profiles = profiles;
      enrollments = enrollments;
      enrollment_by_node = by_node;
      nodes = nodes;
    })

  unfoldable pub delete_home : String → Exec bolt Unit
  unfolding delete_home_tx
  delete_home id = update bolt (delete_home_tx id)

  -- The enrollment of the node goes too, if the index has one.
  unfoldable pub drop_enrollment_of : String → Db bolt → Db bolt
  drop_enrollment_of id db = elim (bolt.get String db.enrollment_by_node id) [
    | none ↦ db
    | some eid ↦ record db {
      enrollments = bolt.delete Enrollment db.enrollments eid;
      enrollment_by_node = bolt.delete String db.enrollment_by_node id;
    }
  ]

  unfoldable pub delete_node_tx : String → Db bolt → Result (Db bolt)
  unfolding drop_enrollment_of
  delete_node_tx id db = do
    found (bolt.get Node db.nodes id)
    ok (drop_enrollment_of id (record db { nodes = bolt.delete Node db.nodes id }))

  unfoldable pub delete_node : String → Exec bolt Unit
  unfolding delete_node_tx
  delete_node id = update bolt (delete_node_tx id)
