-- ===== src/Enrollment/Outcomes.antt =====
-- What each successful call replies, and what it leaves in the store.
use omm.Prelude.{◌≡◌, refl, Option, none, some, arith, eq_refl, Option-cases, inl, inr}
use omm.Models.{Node, Enrollment, Status, approved}
use omm.Identity.{Crypto}
use omm.Store.Bolt.{Bolt}
use omm.Store.Result.{ok, Result-cases}
use omm.Store.Db.{Db, Exec, put_record}
use omm.Store.Records.{create_node, create_node_tx, get_node}
use omm.Store.Enrollments.{update_enrollment, update_enrollment_tx, get_enrollment}
use omm.Store.Laws.{write_keeps, update_enrollment-Written, update_ok, get-put_record}
use omm.Enrollment.{
  Options, Env, Reply, Outcome, done, Handler, calling, result, replying, set_status, node_of,
  approve,
}

-- The node that `approve` leaves in the inventory: the one that is there, or a new one.
abbrev pub node_or : Node → Option Node → Node
node_or new none = new
node_or new (some n) = n

module _ (bolt : Bolt) (crypto : Crypto) (opts : Options) where
  pub calling-done :
      {A B : Type 0} (call : Exec bolt A) (rest : A → Handler bolt crypto opts B) (db : Db bolt)
      {b : B}
      → (calling bolt crypto opts call rest db).0 ≡ done b
      → (a : A) × ((call db).0 ≡ ok a)
        × (calling bolt crypto opts call rest db ≡ rest a (call db).1)
  calling-done call rest db h = elim (Result-cases (call db).0) [
    | inl (a, e) ↦ (a, e, simp (e, calling))
    | inr (x, e) ↦ cc (rw (e, calling) at h)
  ]

  pub status-result :
      (e : Enrollment) (db : Db bolt) → (result bolt crypto opts e db).status ≡ e.status
  unfolding result
  status-result e db = ground arith

  -- What a reply made from the stored record `e` says, and leaves.
  pub record Stored (e : Enrollment) (before : Db bolt) (o : Outcome Reply × Db bolt) : Type 0 where
    pub reply : o.0 ≡ done (result bolt crypto opts e o.1)
    pub reads : (get_enrollment bolt e.id o.1).0 ≡ ok e
    pub nodes : o.1.nodes ≡ before.nodes

  pub set_status-done :
      (s : Status) (e : Enrollment) (db : Db bolt) {r : Reply}
      → (set_status bolt crypto opts s e db).0 ≡ done r
      → Stored (record e { status = s }) db (set_status bolt crypto opts s e db)
  unfolding set_status update_enrollment get_enrollment
  set_status-done s e db h =
      let e' = record e { status = s } in
      let (u, p, q) =
        calling-done (update_enrollment bolt e') (λ _. replying bolt crypto opts e') db h in
      let (x, at, w) =
        update_enrollment-Written bolt e' db _
          (update_ok bolt (update_enrollment_tx bolt e') db p) in
      rw q (record {
        reply = refl;
        reads = ground (arith, w.at_enrollment e.id, eq_refl e.id);
        nodes = w.nodes;
      })

  get-create_node :
      (n : Node) (db db' : Db bolt)
      → create_node_tx bolt n db ≡ ok db'
      → bolt.get Node db'.nodes n.id ≡ some n
  unfolding create_node_tx
  get-create_node n db db' h =
      write_keeps (λ (d : Db bolt). bolt.get Node d.nodes n.id ≡ some n)
        (put_record bolt db.nodes n.id n) _ h
        λ b p. ground (arith, get-put_record bolt db.nodes n.id n.id n b, eq_refl n.id)

  pub approve-done :
      (env : Env) (e : Enrollment) (db : Db bolt) {r : Reply}
      → (approve bolt crypto opts env e db).0 ≡ done r
      → let o = approve bolt crypto opts env e db in
        let e' = record e { status = approved } in
        (o.0 ≡ done (result bolt crypto opts e' o.1))
        × ((get_enrollment bolt e.id o.1).0 ≡ ok e')
        × ((get_node bolt e.node_id o.1).0
            ≡ ok (node_or (node_of bolt crypto opts env e) (bolt.get Node db.nodes e.node_id)))
  unfolding approve get_node create_node node_of
  approve-done env e db h = elim (Option-cases (bolt.get Node db.nodes e.node_id)) [
    | inl new ↦
        let node = node_of bolt crypto opts env e in
        let h' = rw (new, approve) at h in
        let (u, p, q) =
          calling-done (create_node bolt node) (λ _. set_status bolt crypto opts approved e) db
            h' in
        let created = get-create_node node db _ (update_ok bolt (create_node_tx bolt node) db p) in
        let t = set_status-done approved e (create_node bolt node db).1 (rw q at h') in
        rw (new, approve) (rw q (t.reply, t.reads, ground (arith, t.nodes, created)))
    | inr (n, at) ↦
        let t = set_status-done approved e db (rw (at, approve) at h) in
        rw (at, approve) (t.reply, t.reads, ground (arith, t.nodes, at))
  ]
