-- ===== src/Store/Enrollments.antt =====
-- The enrollment records of internal/storage/store.go, and their index by node.
use omm.Prelude.{
  ◌≡◌, String, Bool, true, false, Option, none, some, List, [], ◌∷◌, ◌==◌, if◌then◌else◌, not, ◌&&◌,
}
use omm.Prelude.Int.{ltb_ℤ}
use omm.Prelude.Sort.{stable_sort}
use omm.Models.{Status, Status-discrete, Enrollment}
use omm.Store.Bolt.{Bolt}
use omm.Store.Result.{Result, ok, found, ◌>>=◌}
use omm.Store.Db.{Db, Exec, update, view, get_record, put_record}
use omm.Store.Records.{values}

abbrev pub eq_status : Status → Status → Bool
eq_status a b = elim (Status-discrete a b) [ yes _ ↦ true | no _ ↦ false ]

pub eq_status-true : (s t : Status) → eq_status s t ≡ true → s ≡ t
eq_status-true s t =
    elim (Status-discrete s t) as (λ d. elim d [ yes _ ↦ true | no _ ↦ false ] ≡ true → s ≡ t) [
      | yes e ↦ λ h. e
      | no n ↦ λ h. cc
    ]

-- The filter of `ListEnrollments`: `none` is the status "", which keeps every record.
abbrev pub keeps : Option Status → Enrollment → Bool
keeps none e = true
keeps (some s) e = eq_status e.status s

unfoldable pub filter_by {ℓ} : {A : Type ℓ} → (A → Bool) → List A → List A
filter_by p [] = []
filter_by p (x ∷ xs) = if p x then x ∷ filter_by p xs else filter_by p xs

unfoldable pub earlier : Enrollment → Enrollment → Bool
earlier a b = ltb_ℤ a.created_at b.created_at

module _ (bolt : Bolt) where
  -- The index entry of a record, which has one if its node id is not blank.
  unfoldable pub index_node : bolt.Bucket String → Enrollment → Result (bolt.Bucket String)
  index_node idx e = if e.node_id == "" then ok idx else put_record bolt idx e.node_id e.id

  unfoldable pub create_enrollment_tx : Enrollment → Db bolt → Result (Db bolt)
  unfolding index_node
  create_enrollment_tx e db = do
    b ← put_record bolt db.enrollments e.id e
    idx ← index_node db.enrollment_by_node e
    ok (record db { enrollments = b; enrollment_by_node = idx })

  unfoldable pub create_enrollment : Enrollment → Exec bolt Unit
  unfolding create_enrollment_tx
  create_enrollment e = update bolt (create_enrollment_tx e)

  unfoldable pub get_enrollment : String → Exec bolt Enrollment
  get_enrollment id = view bolt λ db. get_record bolt db.enrollments id

  abbrev pub find_by_node : String → Db bolt → Result Enrollment
  find_by_node node_id db = do
    id ← found (bolt.get String db.enrollment_by_node node_id)
    get_record bolt db.enrollments id

  unfoldable pub get_enrollment_by_node_id : String → Exec bolt Enrollment
  get_enrollment_by_node_id node_id = view bolt (find_by_node node_id)

  unfoldable pub list_enrollments : Option Status → Exec bolt (List Enrollment)
  unfolding filter_by
  list_enrollments status = view bolt λ db. ok (
      stable_sort earlier
        (filter_by (keeps status) (values (bolt.entries Enrollment db.enrollments))))

  -- The index entry of the node that the record had before goes, if the node changed.
  unfoldable pub drop_index : bolt.Bucket String → Enrollment → Enrollment → bolt.Bucket String
  drop_index idx existing e =
      if not (existing.node_id == "") && not (existing.node_id == e.node_id)
      then bolt.delete String idx existing.node_id
      else idx

  unfoldable pub update_enrollment_tx : Enrollment → Db bolt → Result (Db bolt)
  unfolding index_node drop_index
  update_enrollment_tx e db = do
    existing ← get_record bolt db.enrollments e.id
    b ← put_record bolt db.enrollments e.id e
    idx ← index_node (drop_index db.enrollment_by_node existing e) e
    ok (record db { enrollments = b; enrollment_by_node = idx })

  unfoldable pub update_enrollment : Enrollment → Exec bolt Unit
  unfolding update_enrollment_tx
  update_enrollment e = update bolt (update_enrollment_tx e)
