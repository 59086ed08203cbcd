-- ===== src/Store/Invariant.antt =====
-- Every record is stored under its own id, and the node index names enrollments of that node.
use omm.Prelude.{
  String, ◌≡◌, refl, true, none, some, ◌==◌, arith, eq_iff, Bool-cases, Option-cases, inl, inr, not,
  ◌&&◌,
}
use omm.Models.{Home, Node, Profile, Enrollment}
use omm.Store.Bolt.{Bolt}
use omm.Store.Result.{ok}
use omm.Store.Db.{Db, open_db, get_record, put_record}
use omm.Store.Records.{
  create_home, create_home_tx, upsert_home, upsert_home_tx, update_home, update_home_tx,
  create_node, create_node_tx, create_or_update_profile, create_or_update_profile_tx,
}
use omm.Store.Enrollments.{
  create_enrollment, create_enrollment_tx, update_enrollment, update_enrollment_tx, drop_index,
}
use omm.Store.Laws.{
  update_keeps, get-put_record, create_enrollment-Written, update_enrollment-Written, Written,
  >>=-eq-ok, found-eq-ok, write_keeps,
}

module _ (bolt : Bolt) where
  pub record IsConsistent (db : Db bolt) : Type 0 where
    pub homes_keyed : (k : String) (x : Home) → bolt.get Home db.homes k ≡ some x → x.id ≡ k
    pub nodes_keyed : (k : String) (x : Node) → bolt.get Node db.nodes k ≡ some x → x.id ≡ k
    pub profiles_keyed :
        (k : String) (x : Profile) → bolt.get Profile db.profiles k ≡ some x → x.home_id ≡ k
    pub enrollments_keyed :
        (k : String) (x : Enrollment) → bolt.get Enrollment db.enrollments k ≡ some x → x.id ≡ k
    pub indexed :
        (k eid : String)
        → bolt.get String db.enrollment_by_node k ≡ some eid
        → (e : Enrollment) × (bolt.get Enrollment db.enrollments eid ≡ some e) × (e.node_id ≡ k)

  pub IsConsistent-open_db : IsConsistent (open_db bolt)
  unfolding open_db
  IsConsistent-open_db = record {
    homes_keyed = λ k x h. cc (bolt.get-empty Home k);
    nodes_keyed = λ k x h. cc (bolt.get-empty Node k);
    profiles_keyed = λ k x h. cc (bolt.get-empty Profile k);
    enrollments_keyed = λ k x h. cc (bolt.get-empty Enrollment k);
    indexed = λ k eid h. cc (bolt.get-empty String k);
  }

  -- One write of a keyed record.
  home_rewrite :
      (db : Db bolt) (id : String) (home : Home) (b : bolt.Bucket Home)
      → IsConsistent db
      → home.id ≡ id
      → put_record bolt db.homes id home ≡ ok b
      → IsConsistent (record db { homes = b })
  home_rewrite db id home b c own h = record {
    homes_keyed = λ k x p.
        ground (arith, get-put_record bolt db.homes id k home b, c.homes_keyed k x, eq_iff id k);
    nodes_keyed = c.nodes_keyed;
    profiles_keyed = c.profiles_keyed;
    enrollments_keyed = c.enrollments_keyed;
    indexed = c.indexed;
  }

  node_write :
      (db : Db bolt) (node : Node) (b : bolt.Bucket Node)
      → IsConsistent db
      → put_record bolt db.nodes node.id node ≡ ok b
      → IsConsistent (record db { nodes = b })
  node_write db node b c h = record {
    homes_keyed = c.homes_keyed;
    nodes_keyed = λ k x p.
        ground (
          arith,
          get-put_record bolt db.nodes node.id k node b,
          c.nodes_keyed k x,
          eq_iff node.id k,
        );
    profiles_keyed = c.profiles_keyed;
    enrollments_keyed = c.enrollments_keyed;
    indexed = c.indexed;
  }

  profile_write :
      (db : Db bolt) (profile : Profile) (b : bolt.Bucket Profile)
      → IsConsistent db
      → put_record bolt db.profiles profile.home_id profile ≡ ok b
      → IsConsistent (record db { profiles = b })
  profile_write db profile b c h = record {
    homes_keyed = c.homes_keyed;
    nodes_keyed = c.nodes_keyed;
    profiles_keyed = λ k x p. ground (
      arith,
      get-put_record bolt db.profiles profile.home_id k profile b,
      c.profiles_keyed k x,
      eq_iff profile.home_id k,
    );
    enrollments_keyed = c.enrollments_keyed;
    indexed = c.indexed;
  }

  -- A write of an enrollment, where no entry of the index `idx` names its id but as its own node.
  Written-IsConsistent :
      (e : Enrollment) (idx : bolt.Bucket String) (db db' : Db bolt)
      → IsConsistent db
      → Written bolt e idx db db'
      → ((k eid : String)
          → bolt.get String idx k ≡ some eid
          → (bolt.get String db.enrollment_by_node k ≡ some eid)
            × ((eid == e.id) ≡ true → e.node_id ≡ k))
      → IsConsistent db'
  Written-IsConsistent e idx db db' c w only = record {
    homes_keyed = λ k x p. c.homes_keyed k x (rw (← w.homes) p);
    nodes_keyed = λ k x p. c.nodes_keyed k x (rw (← w.nodes) p);
    profiles_keyed = λ k x p. c.profiles_keyed k x (rw (← w.profiles) p);
    enrollments_keyed =
        λ k x p. ground (arith, w.at_enrollment k, c.enrollments_keyed k x, eq_iff e.id k);
    indexed = λ k eid p. elim (Bool-cases (not (e.node_id == "") && (e.node_id == k))) [
      | inl mine ↦ (
        e,
        ground (arith, w.at_index k, w.at_enrollment eid, eq_iff e.id eid),
        ground (arith, eq_iff e.node_id k),
      )
      | inr other ↦
          let (old, own) = only k eid (ground (arith, w.at_index k)) in
          elim (Bool-cases (eid == e.id)) [
            | inl same ↦
                (e, ground (arith, w.at_enrollment eid, eq_iff e.id eid, eq_iff eid e.id), own same)
            | inr ne ↦
                let (x, at, node) = c.indexed k eid old in
                (x, ground (arith, w.at_enrollment eid, eq_iff e.id eid, eq_iff eid e.id), node)
          ]
    ];
  }

  -- Once the entry of the old node is dropped, what is left of the index under the id of `e` is
  -- under the node of `e`.
  dropped :
      (db : Db bolt) (e x : Enrollment)
      → IsConsistent db
      → bolt.get Enrollment db.enrollments e.id ≡ some x
      → (k eid : String) → bolt.get String (drop_index bolt db.enrollment_by_node x e) k ≡ some eid
      → (bolt.get String db.enrollment_by_node k ≡ some eid)
        × ((eid == e.id) ≡ true → e.node_id ≡ k)
  unfolding drop_index
  dropped db e x c at k eid there =
      let gone = bolt.get-delete String db.enrollment_by_node x.node_id k in
      let old : bolt.get String db.enrollment_by_node k ≡ some eid = ground (arith, gone) in
      let (y, at_eid, node) = c.indexed k eid old in
      (
        old,
        λ same. ground (
          arith,
          gone,
          eq_iff eid e.id,
          eq_iff x.node_id "",
          eq_iff x.node_id k,
          eq_iff x.node_id e.node_id,
          bolt.get-blank String db.enrollment_by_node,
        ),
      )

  pub create_home-IsConsistent :
      (home : Home) (db : Db bolt) → IsConsistent db → IsConsistent (create_home bolt home db).1
  unfolding create_home
  create_home-IsConsistent home db c =
      update_keeps bolt IsConsistent (create_home_tx bolt home) db c λ db' h.
        write_keeps IsConsistent (put_record bolt db.homes home.id home) _ h
          λ b p. home_rewrite db home.id home b c refl p

  pub update_home-IsConsistent :
      (home : Home) (db : Db bolt) → IsConsistent db → IsConsistent (update_home bolt home db).1
  unfolding update_home
  update_home-IsConsistent home db c =
      update_keeps bolt IsConsistent (update_home_tx bolt home) db c λ db' h.
        let (x, at, h1) = >>=-eq-ok (get_record bolt db.homes home.id) _ h in
        write_keeps IsConsistent (put_record bolt db.homes home.id _) _ h1
          λ b p. home_rewrite db home.id _ b c (c.homes_keyed home.id x (found-eq-ok _ at)) p

  pub upsert_home-IsConsistent :
      (home : Home) (db : Db bolt) → IsConsistent db → IsConsistent (upsert_home bolt home db).1
  unfolding upsert_home
  upsert_home-IsConsistent home db c =
      update_keeps bolt IsConsistent (upsert_home_tx bolt home) db c λ db' h.
        elim (Option-cases (bolt.get Home db.homes home.id)) [
          | inl new ↦
              write_keeps IsConsistent (put_record bolt db.homes home.id home) _
                (rw (new, upsert_home_tx) at h) λ b p. home_rewrite db home.id home b c refl p
          | inr (x, at) ↦
              write_keeps IsConsistent (put_record bolt db.homes home.id _) _
                (rw (at, upsert_home_tx) at h)
                λ b p. home_rewrite db home.id _ b c (c.homes_keyed home.id x at) p
        ]

  pub create_node-IsConsistent :
      (node : Node) (db : Db bolt) → IsConsistent db → IsConsistent (create_node bolt node db).1
  unfolding create_node
  create_node-IsConsistent node db c =
      update_keeps bolt IsConsistent (create_node_tx bolt node) db c λ db' h.
        write_keeps IsConsistent (put_record bolt db.nodes node.id node) _ h
          λ b p. node_write db node b c p

  pub create_or_update_profile-IsConsistent :
      (profile : Profile) (db : Db bolt)
      → IsConsistent db
      → IsConsistent (create_or_update_profile bolt profile db).1
  unfolding create_or_update_profile
  create_or_update_profile-IsConsistent profile db c =
      update_keeps bolt IsConsistent (create_or_update_profile_tx bolt profile) db c λ db' h.
        write_keeps IsConsistent (put_record bolt db.profiles profile.home_id profile) _ h
          λ b p. profile_write db profile b c p

  pub create_enrollment-IsConsistent :
      (e : Enrollment) (db : Db bolt)
      → bolt.get Enrollment db.enrollments e.id ≡ none
      → IsConsistent db
      → IsConsistent (create_enrollment bolt e db).1
  unfolding create_enrollment
  create_enrollment-IsConsistent e db fresh c =
      update_keeps bolt IsConsistent (create_enrollment_tx bolt e) db c λ db' h.
        Written-IsConsistent e db.enrollment_by_node db db' c
          (create_enrollment-Written bolt e db db' h)
          λ k eid there. (
            there,
            λ same. let (x, at, node) = c.indexed k eid there in ground (arith, eq_iff eid e.id),
          )

  pub update_enrollment-IsConsistent :
      (e : Enrollment) (db : Db bolt)
      → IsConsistent db
      → IsConsistent (update_enrollment bolt e db).1
  unfolding update_enrollment
  update_enrollment-IsConsistent e db c =
      update_keeps bolt IsConsistent (update_enrollment_tx bolt e) db c λ db' h.
        let (x, at, w) = update_enrollment-Written bolt e db db' h in
        Written-IsConsistent e (drop_index bolt db.enrollment_by_node x e) db db' c w
          (dropped db e x c at)
