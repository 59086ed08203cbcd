-- ===== src/Store/Deletion.antt =====
-- What `DeleteHome` and `DeleteNode` leave behind, bucket by bucket.
use omm.Prelude.{
  String, ◌≡◌, refl, Option, none, some, ◌==◌, arith, eq_iff, Option-cases, inl, inr, if◌then◌else◌,
}
use mathlib.Core.Path.{subst}
use omm.Models.{Home, Node, Profile, Enrollment}
use omm.Store.Bolt.{Bolt}
use omm.Store.Result.{ok, found}
use omm.Store.Db.{Db, delete_all}
use omm.Store.Removal.{
  contains, scoped_keys, scoped_nodes, stripped, strip_home, put_nodes, delete_home, delete_home_tx,
  delete_node, delete_node_tx, drop_enrollment_of,
}
use omm.Store.Laws.{>>=-eq-ok, found-eq-ok, ok-injective, update_keeps, get-delete_all}
use omm.Store.Strip.{strip?, get-put_nodes}
use omm.Store.Scope.{contains-scoped_keys, contains-scoped_nodes}
use omm.Store.Invariant.{IsConsistent}

-- An enrollment is kept unless it is scoped to the Home.
abbrev pub unscoped? : String → Option Enrollment → Option Enrollment
unscoped? id none = none
unscoped? id (some e) = if e.home_id == id then none else some e

module _ (bolt : Bolt) where
  pub record HomeDeleted (id : String) (db db' : Db bolt) : Type 0 where
    pub was : (h : Home) × (bolt.get Home db.homes id ≡ some h)
    pub at_home :
        (j : String)
        → bolt.get Home db'.homes j ≡ (if id == j then none else bolt.get Home db.homes j)
    pub at_profile :
        (j : String)
        → bolt.get Profile db'.profiles j
          ≡ (if id == j then none else bolt.get Profile db.profiles j)
    pub at_enrollment :
        (j : String)
        → bolt.get Enrollment db'.enrollments j
          ≡ unscoped? id (bolt.get Enrollment db.enrollments j)
    pub at_index :
        (k : String)
        → bolt.get String db'.enrollment_by_node k ≡ (
            if contains k (scoped_nodes id (bolt.entries Enrollment db.enrollments))
            then none
            else bolt.get String db.enrollment_by_node k)
    pub at_node : (j : String) → bolt.get Node db'.nodes j ≡ strip? id (bolt.get Node db.nodes j)
    pub settings : db'.settings ≡ db.settings

  unscoped_lem :
      (id j : String) (b : bolt.Bucket Enrollment)
      → bolt.get Enrollment (delete_all bolt b (scoped_keys id (bolt.entries Enrollment b))) j
        ≡ unscoped? id (bolt.get Enrollment b j)
  unscoped_lem id j b =
      let gone = get-delete_all bolt (scoped_keys id (bolt.entries Enrollment b)) b j in
      elim (Option-cases (bolt.get Enrollment b j)) [
        | inl e ↦ ground arith
        | inr (x, e) ↦ ground (arith, contains-scoped_keys bolt id j b x e)
      ]

  pub delete_home-HomeDeleted :
      (id : String) (db db' : Db bolt)
      → IsConsistent bolt db
      → delete_home_tx bolt id db ≡ ok db'
      → HomeDeleted id db db'
  unfolding delete_home_tx
  delete_home-HomeDeleted id db db' c h =
      let (x, at, h1) = >>=-eq-ok (found (bolt.get Home db.homes id)) _ h in
      let (b, p, h2) =
        >>=-eq-ok (put_nodes bolt db.nodes (stripped id (bolt.entries Node db.nodes))) _ h1 in
      subst (HomeDeleted id db) (ok-injective h2) (record {
        was = (x, found-eq-ok _ at);
        at_home = λ j. bolt.get-delete Home db.homes id j;
        at_profile = λ j. bolt.get-delete Profile db.profiles id j;
        at_enrollment = λ j. unscoped_lem id j db.enrollments;
        at_index = λ k. get-delete_all bolt _ db.enrollment_by_node k;
        at_node = λ j. get-put_nodes bolt id j db.nodes c.nodes_keyed b p;
        settings = refl;
      })

  pub delete_home-IsConsistent :
      (id : String) (db : Db bolt)
      → IsConsistent bolt db
      → IsConsistent bolt (delete_home bolt id db).1
  unfolding delete_home strip_home
  delete_home-IsConsistent id db c =
      update_keeps bolt (IsConsistent bolt) (delete_home_tx bolt id) db c λ db' h.
        let d = delete_home-HomeDeleted id db db' c h in
        record {
          homes_keyed = λ k x p. ground (arith, d.at_home k, c.homes_keyed k x);
          nodes_keyed = λ k x p. elim (Option-cases (bolt.get Node db.nodes k)) [
            | inl e ↦ ground (arith, d.at_node k)
            | inr (n, e) ↦ ground (arith, d.at_node k, c.nodes_keyed k n)
          ];
          profiles_keyed = λ k x p. ground (arith, d.at_profile k, c.profiles_keyed k x);
          enrollments_keyed = λ k x p. elim (Option-cases (bolt.get Enrollment db.enrollments k)) [
            | inl e ↦ ground (arith, d.at_enrollment k)
            | inr (y, e) ↦ ground (arith, d.at_enrollment k, c.enrollments_keyed k y)
          ];
          indexed = λ k eid p.
              let (e, at, node) = c.indexed k eid (ground (arith, d.at_index k)) in
              (
                e,
                ground (
                  arith,
                  d.at_enrollment eid,
                  d.at_index k,
                  eq_iff e.node_id "",
                  bolt.get-blank String db.enrollment_by_node,
                  contains-scoped_nodes bolt id eid db.enrollments e at,
                ),
                node,
              );
        }

  nodes_dropped :
      (id : String) (db : Db bolt)
      → IsConsistent bolt db
      → IsConsistent bolt (record db { nodes = bolt.delete Node db.nodes id })
  nodes_dropped id db c = record {
    homes_keyed = c.homes_keyed;
    nodes_keyed = λ k x p. ground (arith, bolt.get-delete Node db.nodes id k, c.nodes_keyed k x);
    profiles_keyed = c.profiles_keyed;
    enrollments_keyed = c.enrollments_keyed;
    indexed = c.indexed;
  }

  drop_enrollment_of-IsConsistent :
      (id : String) (db : Db bolt)
      → IsConsistent bolt db
      → IsConsistent bolt (drop_enrollment_of bolt id db)
  unfolding drop_enrollment_of
  drop_enrollment_of-IsConsistent id db c =
      elim (Option-cases (bolt.get String db.enrollment_by_node id)) [
        | inl e ↦ rw (e, drop_enrollment_of) c
        | inr (eid, e) ↦
            rw (e, drop_enrollment_of)
              (record {
                homes_keyed = c.homes_keyed;
                nodes_keyed = c.nodes_keyed;
                profiles_keyed = c.profiles_keyed;
                enrollments_keyed = λ k x p. ground (
                  arith,
                  bolt.get-delete Enrollment db.enrollments eid k,
                  c.enrollments_keyed k x,
                );
                indexed = λ k fid p.
                    let at_k = bolt.get-delete String db.enrollment_by_node id k in
                    let (x, at, node) = c.indexed k fid (ground (arith, at_k)) in
                    let (y, at_eid, owner) = c.indexed id eid e in
                    (
                      x,
                      ground (
                        arith,
                        bolt.get-delete Enrollment db.enrollments eid fid,
                        at_k,
                        eq_iff eid fid,
                        eq_iff id k,
                      ),
                      node,
                    );
              })
      ]

  -- The node goes, and the enrollment that the index had for it.
  pub delete_node-IsConsistent :
      (id : String) (db : Db bolt)
      → IsConsistent bolt db
      → IsConsistent bolt (delete_node bolt id db).1
  unfolding delete_node
  delete_node-IsConsistent id db c =
      update_keeps bolt (IsConsistent bolt) (delete_node_tx bolt id) db c λ db' h.
        let (n, at, q) = >>=-eq-ok (found (bolt.get Node db.nodes id)) _ h in
        subst (IsConsistent bolt) (ok-injective q)
          (drop_enrollment_of-IsConsistent id _ (nodes_dropped id db c))
