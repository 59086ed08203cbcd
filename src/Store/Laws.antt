-- ===== src/Store/Laws.antt =====
-- What the helpers and the transactions of the store leave in the buckets, key by key.
use omm.Prelude.{
  String, ◌≡◌, refl, false, not, ◌&&◌, Option, none, some, List, [], ◌∷◌, ◌==◌, if◌then◌else◌,
  arith, eq_iff, Bool-cases, inl, inr,
}
use mathlib.Core.Path.{subst}
use omm.Models.{Enrollment}
use omm.Store.Bolt.{Bolt}
use omm.Store.Result.{Result, ok, err, Result-cases, found, ◌>>=◌}
use omm.Store.Db.{Db, update, get_record, put_record, delete_all}
use omm.Store.Enrollments.{index_node, drop_index, create_enrollment_tx, update_enrollment_tx}
use omm.Store.Removal.{contains}

-- A method that succeeds passed its first step with some value.
pub >>=-eq-ok {ℓ κ} :
    {V : Type ℓ} {W : Type κ} (r : Result V) (next : V → Result W) {w : W}
    → (r >>= next) ≡ ok w
    → (v : V) × (r ≡ ok v) × (next v ≡ ok w)
>>=-eq-ok r next done = elim (Result-cases r) [
  | inl (v, at) ↦ (v, at, rw at at done)
  | inr (e, at) ↦ cc
]

pub found-eq-ok {ℓ} : {A : Type ℓ} (o : Option A) {a : A} → found o ≡ ok a → o ≡ some a
found-eq-ok o h = ground arith

pub ok-injective {ℓ} : {A : Type ℓ} {a b : A} → ok a ≡ ok b → a ≡ b
ok-injective h = cc h

-- A transaction whose last step makes the new database from one written bucket.
pub write_keeps {ℓ} :
    {A D : Type 0} (P : D → Type ℓ) (r : Result A) (f : A → D) {d : D}
    → (do a ← r; ok (f a)) ≡ ok d
    → ((a : A) → r ≡ ok a → P (f a))
    → P d
write_keeps P (ok a) f h keep = subst P (ok-injective h) (keep a refl)
write_keeps P (err e) f h keep = cc

module _ (bolt : Bolt) where
  pub get-put_record :
      {V : Type 0} (b : bolt.Bucket V) (k j : String) (v : V) (b' : bolt.Bucket V)
      → put_record bolt b k v ≡ ok b'
      → bolt.get V b' j ≡ (if k == j then some v else bolt.get V b j)
  get-put_record {V} b k j v b' h = elim (Bool-cases (bolt.accepts V k v)) [
    | inl yes' ↦ ground (arith, bolt.get-put V b k j v yes')
    | inr no' ↦ ground arith
  ]

  pub put_record-ne-blank :
      {V : Type 0} (b : bolt.Bucket V) (k : String) (v : V) {b' : bolt.Bucket V}
      → put_record bolt b k v ≡ ok b'
      → (k == "") ≡ false
  put_record-ne-blank {V} b k v h = ground (arith, eq_iff k "", bolt.blank_refused V v)

  -- A transaction that fails leaves the database as it was, so what each successful one keeps holds.
  pub update_keeps {ℓ} :
      (P : Db bolt → Type ℓ) (tx : Db bolt → Result (Db bolt)) (db : Db bolt)
      → P db
      → ((db' : Db bolt) → tx db ≡ ok db' → P db')
      → P (update bolt tx db).1
  update_keeps P tx db p h = elim (Result-cases (tx db)) [
    | inl (db', e) ↦ rw (e, update) (h db' e)
    | inr (x, e) ↦ rw (e, update) p
  ]

  pub update_at :
      (tx : Db bolt → Result (Db bolt)) (db db' : Db bolt)
      → tx db ≡ ok db'
      → (update bolt tx db).1 ≡ db'
  update_at tx db db' h = simp (h, update)

  -- The transaction of a call that succeeded.
  pub update_ok :
      (tx : Db bolt → Result (Db bolt)) (db : Db bolt)
      → (update bolt tx db).0 ≡ ok tt
      → tx db ≡ ok (update bolt tx db).1
  update_ok tx db h = elim (Result-cases (tx db)) [
    | inl (db', e) ↦ rw (e, update) refl
    | inr (x, e) ↦ cc (rw (e, update) at h)
  ]

  pub get-delete_all :
      {V : Type 0} (ks : List String) (b : bolt.Bucket V) (j : String)
      → bolt.get V (delete_all bolt b ks) j ≡ (if contains j ks then none else bolt.get V b j)
  unfolding delete_all contains
  get-delete_all [] b j = refl
  get-delete_all {V} (k ∷ ks) b j =
      ground (arith, get-delete_all ks (bolt.delete V b k) j, bolt.get-delete V b k j)

  pub get-index_node :
      (idx : bolt.Bucket String) (e : Enrollment) (idx' : bolt.Bucket String) (j : String)
      → index_node bolt idx e ≡ ok idx'
      → bolt.get String idx' j
        ≡ (if not (e.node_id == "") && (e.node_id == j) then some e.id else bolt.get String idx j)
  unfolding index_node
  get-index_node idx e idx' j h = elim (Bool-cases (e.node_id == "")) [
    | inl blank ↦ ground arith
    | inr given ↦ ground (arith, get-put_record idx e.node_id j e.id idx')
  ]

  -- A successful write of an enrollment, the old record being `existing` if there was one.
  pub record Written (e : Enrollment) (idx : bolt.Bucket String) (db db' : Db bolt) : Type 0 where
    pub at_enrollment :
        (j : String)
        → bolt.get Enrollment db'.enrollments j
          ≡ (if e.id == j then some e else bolt.get Enrollment db.enrollments j)
    pub at_index :
        (j : String)
        → bolt.get String db'.enrollment_by_node j
          ≡ (if not (e.node_id == "") && (e.node_id == j) then some e.id else bolt.get String idx j)
    pub homes : db'.homes ≡ db.homes
    pub nodes : db'.nodes ≡ db.nodes
    pub profiles : db'.profiles ≡ db.profiles
    pub settings : db'.settings ≡ db.settings

  write_lem :
      (e : Enrollment) (idx : bolt.Bucket String) (db db' : Db bolt)
      → (do
        b ← put_record bolt db.enrollments e.id e
        idx' ← index_node bolt idx e
        ok (record db { enrollments = b; enrollment_by_node = idx' }))
        ≡ ok db'
      → Written e idx db db'
  write_lem e idx db db' h =
      let (b, p, h1) = >>=-eq-ok (put_record bolt db.enrollments e.id e) _ h in
      let (idx', q, h2) = >>=-eq-ok (index_node bolt idx e) _ h1 in
      record {
        at_enrollment = λ j. ground (arith, get-put_record db.enrollments e.id j e b);
        at_index = λ j. ground (arith, get-index_node idx e idx' j);
        homes = cc;
        nodes = cc;
        profiles = cc;
        settings = cc;
      }

  pub create_enrollment-Written :
      (e : Enrollment) (db db' : Db bolt)
      → create_enrollment_tx bolt e db ≡ ok db'
      → Written e db.enrollment_by_node db db'
  unfolding create_enrollment_tx
  create_enrollment-Written e db db' h = write_lem e db.enrollment_by_node db db' h

  pub update_enrollment-Written :
      (e : Enrollment) (db db' : Db bolt)
      → update_enrollment_tx bolt e db ≡ ok db'
      → (existing : Enrollment) × (bolt.get Enrollment db.enrollments e.id ≡ some existing)
        × Written e (drop_index bolt db.enrollment_by_node existing e) db db'
  unfolding update_enrollment_tx
  update_enrollment-Written e db db' h =
      let (x, p, h1) = >>=-eq-ok (get_record bolt db.enrollments e.id) _ h in
      (x, found-eq-ok _ p, write_lem e (drop_index bolt db.enrollment_by_node x e) db db' h1)
