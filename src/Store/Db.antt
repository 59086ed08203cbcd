-- ===== src/Store/Db.antt =====
-- The buckets of internal/storage/bolt.go, its transactions, and the helpers `get` and `put` of
-- internal/storage/store.go.
use omm.Prelude.{String, List, [], ◌∷◌, if◌then◌else◌}
use omm.Models.{Home, Node, Profile, Enrollment}
use omm.Store.Bolt.{Bolt}
use omm.Store.Result.{Result, ok, err, refused, found}

module _ (bolt : Bolt) where
  pub record Db : Type 0 where
    pub homes : bolt.Bucket Home
    pub nodes : bolt.Bucket Node
    pub profiles : bolt.Bucket Profile
    pub settings : bolt.Bucket String
    pub enrollments : bolt.Bucket Enrollment
    pub enrollment_by_node : bolt.Bucket String

  -- What `OpenDB` finds in a new file.
  unfoldable pub open_db : Db
  open_db = record {
    homes = bolt.empty Home;
    nodes = bolt.empty Node;
    profiles = bolt.empty Profile;
    settings = bolt.empty String;
    enrollments = bolt.empty Enrollment;
    enrollment_by_node = bolt.empty String;
  }

  abbrev pub get_record : {V : Type 0} → bolt.Bucket V → String → Result V
  get_record {V} b key = found (bolt.get V b key)

  abbrev pub put_record : {V : Type 0} → bolt.Bucket V → String → V → Result (bolt.Bucket V)
  put_record {V} b key value =
      if bolt.accepts V key value then ok (bolt.put V b key value) else err refused

  unfoldable pub delete_all : {V : Type 0} → bolt.Bucket V → List String → bolt.Bucket V
  delete_all b [] = b
  delete_all {V} b (k ∷ ks) = delete_all (bolt.delete V b k) ks

  -- An operation on the database that a store method makes.
  abbrev pub Exec : Type 0 → Type 0
  Exec A = Db → Result A × Db

  -- `db.Update`: a transaction that fails is rolled back.
  abbrev pub update : (Db → Result Db) → Exec Unit
  update tx db = elim (tx db) [ ok db' ↦ (ok tt, db') | err e ↦ (err e, db) ]

  -- `db.View`
  abbrev pub view : {A : Type 0} → (Db → Result A) → Exec A
  view read db = (read db, db)
