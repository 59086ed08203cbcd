-- ===== src/Store/Tests.antt =====
-- The theorems about the store at concrete inputs, over the buckets of `Store.Memory`.
use omm.Prelude.{String, ◌≡◌, ◌≢◌, refl, some, List, [], ◌∷◌, All}
use omm.Prelude.Int.{pos}
use mathlib.Core.List.{Mem}
use omm.Models.{Home, Node, Enrollment, BackhaulState, pending_approval}
use omm.Store.Memory.{memory}
use omm.Store.Result.{ok, err, not_found}
use omm.Store.Db.{Db, open_db, delete_all}
use omm.Store.Records.{create_home, get_home, get_node, create_node, upsert_home, update_home}
use omm.Store.Enrollments.{create_enrollment, get_enrollment, list_enrollments, update_enrollment}
use omm.Store.Removal.{delete_home, contains, scoped_keys, scoped_nodes, stripped, put_nodes}
use omm.Store.Settings.{set_active_home, set_backhaul_state}
use omm.Store.Ops.{
  creates_home, creates_node, creates_enrollment, deletes_home, run_op, start, next,
}
use omm.Store.Invariant.{IsConsistent}
use omm.Store.Consistency.{run_op-IsConsistent, Reach-IsConsistent}
use omm.Store.Guarantees.{delete_home_removes_all, delete_home_keeps_rest}
use omm.Store.Reads.{get_home-upsert_home}
use omm.Store.Listing.{list_enrollments_lem, IsOldestFirst, IsWanted}

abbrev attic : Home
attic = record {
  id = "attic";
  name = "Attic";
  controller = "http://10.0.0.1";
  bssid = "aa:bb";
  certificate = 7 ∷ [];
  last_seen = pos 10;
}

abbrev lamp : Node
lamp = record {
  id = "n1";
  serial = "s1";
  current_home = "attic";
  trusted_homes = "attic" ∷ "cabin" ∷ [];
  last_seen = pos 4;
}

abbrev joining : Enrollment
joining = record {
  id = "e1";
  node_id = "n1";
  serial = "s1";
  public_key = 1 ∷ [];
  challenge = 2 ∷ [];
  status = pending_approval;
  home_id = "attic";
  created_at = pos 3;
}

-- A store with one Home, one node and its enrollment.
stocked : Db memory
unfolding memory run_op create_home create_node create_enrollment open_db
stocked =
    (run_op memory (creates_enrollment joining)
      (run_op memory (creates_node lamp)
        (run_op memory (creates_home attic) (open_db memory)).1).1).1

stocked-IsConsistent : IsConsistent memory stocked
unfolding memory run_op create_home create_node create_enrollment open_db stocked
stocked-IsConsistent = Reach-IsConsistent memory (
    next (creates_enrollment joining) refl
      (next (creates_node lamp) tt (next (creates_home attic) tt start)))

run_op-IsConsistent_example : IsConsistent memory (run_op memory (deletes_home "attic") stocked).1
run_op-IsConsistent_example =
    run_op-IsConsistent memory (deletes_home "attic") stocked tt stocked-IsConsistent

attic_deleted : (delete_home memory "attic" stocked).0 ≡ ok tt
unfolding memory stocked delete_home scoped_keys scoped_nodes stripped put_nodes delete_all
attic_deleted = refl

delete_home_removes_all_example :
    (get_home memory "attic" (delete_home memory "attic" stocked).1).0 ≡ err not_found
delete_home_removes_all_example =
    (delete_home_removes_all memory "attic" stocked stocked-IsConsistent attic_deleted).0

lamp_stored : (get_node memory "n1" stocked).0 ≡ ok lamp
unfolding memory stocked get_node
lamp_stored = refl

delete_home_keeps_rest_example :
    (m : Node) × ((get_node memory "n1" (delete_home memory "attic" stocked).1).0 ≡ ok m)
    × (m.id ≡ "n1")
    × (m.serial ≡ "s1")
    × (m.last_seen ≡ pos 4)
    × ((h : String) → h ≢ "attic" → contains h m.trusted_homes ≡ contains h lamp.trusted_homes)
delete_home_keeps_rest_example =
    (delete_home_keeps_rest memory "attic" stocked stocked-IsConsistent attic_deleted).2 "n1" lamp
      lamp_stored

abbrev renamed : Home
renamed = record attic { name = "Loft"; certificate = []; last_seen = pos 11 }

renamed_stored : (upsert_home memory renamed stocked).0 ≡ ok tt
unfolding memory stocked upsert_home
renamed_stored = refl

get_home-upsert_home_example :
    (get_home memory "attic" (upsert_home memory renamed stocked).1).0
    ≡ ok (record renamed { certificate = 7 ∷ [] })
unfolding memory stocked get_home
get_home-upsert_home_example =
    get_home-upsert_home memory renamed stocked "attic" stocked-IsConsistent renamed_stored

renamed_updated : (update_home memory renamed stocked).0 ≡ ok tt
unfolding memory stocked update_home
renamed_updated = refl

attic_stored : (get_home memory "attic" stocked).0 ≡ ok attic
unfolding memory stocked get_home
attic_stored = refl

joining_stored : (get_enrollment memory "e1" stocked).0 ≡ ok joining
unfolding memory stocked get_enrollment
joining_stored = refl

abbrev moved : Enrollment
moved = record joining { node_id = "n2" }

moved_stored : (update_enrollment memory moved stocked).0 ≡ ok tt
unfolding memory stocked update_enrollment
moved_stored = refl

list_enrollments_lem_example :
    (l : List Enrollment) × ((list_enrollments memory (some pending_approval) stocked).0 ≡ ok l)
    × IsOldestFirst l
    × All
        (λ e. IsWanted (some pending_approval) e × ((get_enrollment memory e.id stocked).0 ≡ ok e))
        l
    × ((k : String) (e : Enrollment)
        → (get_enrollment memory k stocked).0 ≡ ok e
        → IsWanted (some pending_approval) e
        → Mem e l)
list_enrollments_lem_example =
    list_enrollments_lem memory stocked (some pending_approval) stocked-IsConsistent

abbrev degraded : BackhaulState
degraded = record { mode = "multi_ap"; reason = "no wpad"; remediation = "install; it" }

degraded_stored : (set_backhaul_state memory degraded stocked).0 ≡ ok tt
unfolding memory stocked set_backhaul_state
degraded_stored = refl

active_stored : (set_active_home memory "attic" stocked).0 ≡ ok tt
unfolding memory stocked set_active_home
active_stored = refl
