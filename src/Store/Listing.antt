-- ===== src/Store/Listing.antt =====
-- `ListEnrollments`: which records it returns, and in which order.
use mathlib.Core.List.{Mem, mem-cons_self, mem-cons_of_mem}
use mathlib.Core.List.Perm
use omm.Prelude.{
  String, ◌≡◌, refl, true, false, Bool, Option, some, none, List, [], ◌∷◌, ◌==◌, All, All-map_of,
  arith, eq_iff, Bool-cases, inl, inr,
}
use omm.Prelude.Int.{◌≤ℤ◌, ltb_ℤ-false}
use omm.Prelude.Sort.{
  IsSorted, IsWeakOrder, stable_sort, stable_sort-perm, stable_sort-All, stable_sort-IsSorted,
}
use omm.Models.{Status, Status-discrete, Enrollment}
use omm.Store.Bolt.{Bolt, has_key}
use omm.Store.Result.{ok}
use omm.Store.Db.{Db}
use omm.Store.Records.{values}
use omm.Store.Enrollments.{
  list_enrollments, get_enrollment, keeps, filter_by, earlier, eq_status-true,
}
use omm.Store.Laws.{found-eq-ok}
use omm.Store.Invariant.{IsConsistent}

pub earlier-IsWeakOrder : IsWeakOrder earlier
unfolding earlier
earlier-IsWeakOrder = record {
  asym = λ a b h. ground arith;
  not_less_trans = λ a b c h k. ground arith;
}

-- The oldest enrollment comes first.
abbrev pub IsOldestFirst : List Enrollment → Type 0
IsOldestFirst [] = Unit
IsOldestFirst (e ∷ es) = All (λ f. e.created_at ≤ℤ f.created_at) es × IsOldestFirst es

-- The status that the caller asks for, if one.
abbrev pub IsWanted : Option Status → Enrollment → Type 0
IsWanted none e = Unit
IsWanted (some s) e = e.status ≡ s

sorted-IsOldestFirst : (l : List Enrollment) → IsSorted earlier l → IsOldestFirst l
unfolding earlier
sorted-IsOldestFirst [] h = tt
sorted-IsOldestFirst (e ∷ es) h = (
  All-map_of _ _ es (λ f p. ltb_ℤ-false f.created_at e.created_at p) h.0,
  sorted-IsOldestFirst es h.1,
)

keeps-IsWanted :
    (status : Option Status) (e : Enrollment) → keeps status e ≡ true → IsWanted status e
keeps-IsWanted none e h = tt
keeps-IsWanted (some s) e h = eq_status-true e.status s h

keeps_wanted : (status : Option Status) (e : Enrollment) → IsWanted status e → keeps status e ≡ true
keeps_wanted none e h = refl
keeps_wanted (some s) e h =
    elim (Status-discrete e.status s) as (λ d. elim d [ yes _ ↦ true | no _ ↦ false ] ≡ true) [
      | yes p ↦ refl
      | no n ↦ absurd (n h)
    ]

module _ {ℓ} {A : Type ℓ} (p : A → Bool) where
  filter_by-All {κ} :
      (P : A → Type κ) (xs : List A) → All P xs → All (λ x. (p x ≡ true) × P x) (filter_by p xs)
  unfolding filter_by
  filter_by-All P [] h = tt
  filter_by-All P (x ∷ xs) h = elim (Bool-cases (p x)) [
    | inl e ↦ rw e ((e, h.0), filter_by-All P xs h.1)
    | inr e ↦ rw e (filter_by-All P xs h.1)
  ]

module _ (bolt : Bolt) (db : Db bolt) where
  values-stored :
      (l : List (String × Enrollment))
      → All (λ x. bolt.get Enrollment db.enrollments x.0 ≡ some x.1) l
      → IsConsistent bolt db
      → All (λ e. bolt.get Enrollment db.enrollments e.id ≡ some e) (values l)
  unfolding values
  values-stored [] s c = tt
  values-stored ((k, e) ∷ l) s c = (simp (c.enrollments_keyed k e s.0) s.0, values-stored l s.1 c)

  mem-filter_by-values :
      (status : Option Status) (k : String) (e : Enrollment) (l : List (String × Enrollment))
      → All (λ x. bolt.get Enrollment db.enrollments x.0 ≡ some x.1) l
      → bolt.get Enrollment db.enrollments k ≡ some e
      → has_key k l ≡ true
      → keeps status e ≡ true
      → Mem e (filter_by (keeps status) (values l))
  unfolding filter_by values
  mem-filter_by-values status k e [] s at has kept = cc
  mem-filter_by-values status k e ((j, x) ∷ l) s at has kept = elim (Bool-cases (j == k)) [
    | inl here ↦
        let same : e ≡ x = ground (arith, s.0, eq_iff j k) in rw (← same) (rw kept mem-cons_self)
    | inr there ↦
        let rest = mem-filter_by-values status k e l s.1 at (ground arith) kept in
        elim (Bool-cases (keeps status x)) [
          | inl y ↦ rw y (mem-cons_of_mem x rest)
          | inr n ↦ rw n rest
        ]
  ]

  -- On a consistent store ListEnrollments succeeds with a list in the order of creation, all
  -- of it stored records of the status asked for, and with every such record in it.
  pub list_enrollments_lem :
      (status : Option Status)
      → IsConsistent bolt db
      → (l : List Enrollment) × ((list_enrollments bolt status db).0 ≡ ok l)
        × IsOldestFirst l
        × All (λ e. IsWanted status e × ((get_enrollment bolt e.id db).0 ≡ ok e)) l
        × ((k : String) (e : Enrollment)
            → (get_enrollment bolt k db).0 ≡ ok e
            → IsWanted status e
            → Mem e l)
  unfolding list_enrollments get_enrollment
  list_enrollments_lem status c =
      let pairs = bolt.entries Enrollment db.enrollments in
      let sound = bolt.entries_sound Enrollment db.enrollments in
      let kept = filter_by (keeps status) (values pairs) in
      (
        stable_sort earlier kept,
        refl,
        sorted-IsOldestFirst _ (stable_sort-IsSorted earlier earlier-IsWeakOrder kept),
        stable_sort-All earlier _ kept (
            All-map_of _ _ kept (λ e p. (keeps-IsWanted status e p.0, ground arith))
              (filter_by-All (keeps status) _ (values pairs) (values-stored pairs sound c))),
        λ k e at wanted. (Perm.mem_iff (stable_sort-perm earlier kept)).1 (
            mem-filter_by-values status k e pairs sound (found-eq-ok _ at)
              (bolt.entries_complete Enrollment db.enrollments k e (found-eq-ok _ at))
              (keeps_wanted status e wanted)),
      )
