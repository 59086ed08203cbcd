-- ===== src/Store/Scope.antt =====
-- Which enrollments and index entries `DeleteHome` collects.
use omm.Prelude.{
  String, ◌≡◌, refl, true, false, ◌&&◌, some, List, [], ◌∷◌, ◌==◌, All, arith, eq_iff, eq_refl,
}
use omm.Models.{Enrollment}
use omm.Store.Bolt.{Bolt, has_key}
use omm.Store.Removal.{contains, scoped_keys, scoped_nodes}

module _ (bolt : Bolt) (id j : String) (b : bolt.Bucket Enrollment) (e : Enrollment)
    (at_j : bolt.get Enrollment b j ≡ some e) where
  contains-scoped_keys_of :
      (l : List (String × Enrollment))
      → All (λ x. bolt.get Enrollment b x.0 ≡ some x.1) l
      → contains j (scoped_keys id l) ≡ (has_key j l && (e.home_id == id))
  unfolding contains scoped_keys
  contains-scoped_keys_of [] s = refl
  contains-scoped_keys_of ((k, x) ∷ l) s =
      ground (arith, contains-scoped_keys_of l s.1, s.0, eq_iff k j)

  contains-scoped_nodes_of :
      (l : List (String × Enrollment))
      → All (λ x. bolt.get Enrollment b x.0 ≡ some x.1) l
      → has_key j l ≡ true
      → (e.home_id == id) ≡ true
      → (e.node_id == "") ≡ false
      → contains e.node_id (scoped_nodes id l) ≡ true
  unfolding contains scoped_nodes
  contains-scoped_nodes_of [] s h p q = cc
  contains-scoped_nodes_of ((k, x) ∷ l) s h p q =
      ground (arith, contains-scoped_nodes_of l s.1, s.0, eq_iff k j, eq_refl e.node_id)

  -- The enrollment goes exactly if it is scoped to the Home, and its index entry with it.
  pub contains-scoped_keys :
      contains j (scoped_keys id (bolt.entries Enrollment b)) ≡ (e.home_id == id)
  contains-scoped_keys = ground (
    arith,
    contains-scoped_keys_of (bolt.entries Enrollment b) (bolt.entries_sound Enrollment b),
    bolt.entries_complete Enrollment b j e,
  )

  pub contains-scoped_nodes :
      (e.home_id == id) ≡ true
      → (e.node_id == "") ≡ false
      → contains e.node_id (scoped_nodes id (bolt.entries Enrollment b)) ≡ true
  contains-scoped_nodes =
      contains-scoped_nodes_of (bolt.entries Enrollment b) (bolt.entries_sound Enrollment b)
        (bolt.entries_complete Enrollment b j e at_j)
