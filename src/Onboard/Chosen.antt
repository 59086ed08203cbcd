-- ===== src/Onboard/Chosen.antt =====
-- Which controller a node enrolls into.
use omm.Prelude.{
  String, ◌≡◌, ◌∙◌, sym, refl, Bool, true, false, not, ◌||◌, ◌&&◌, some, Bool-cases, inl, inr, List,
  [], ◌∷◌, ◌==◌, All, arith, any_by, eq_refl, eq_iff,
}
use omm.Prelude.Sort.{
  stable_sort, any_by-stable_sort, stable_sort-IsSorted, stable_sort-All, IsWeakOrder, IsSorted,
}
use omm.Prelude.TextOrder.{text_less, text_less_asym, text_less_trans, text_less_total}
use omm.Backhaul.{backhaul_ethernet}
use omm.Discovery.{Announcement}
use omm.Onboard.{candidates, by_home, first_api, decide}

lower_trans :
    (a b c : String) → text_less b a ≡ false → text_less c b ≡ false → text_less c a ≡ false
lower_trans a b c h k = elim (Bool-cases (text_less a b)) [
  | inr e ↦ let same : a ≡ b = text_less_total a b e h in rw same k
  | inl e ↦ ground (arith, k, e, text_less_trans c a b)
]

lower_irrefl : (a : String) → text_less a a ≡ false
lower_irrefl a = ground (arith, text_less_asym a a)

by_home-IsWeakOrder : IsWeakOrder by_home
by_home-IsWeakOrder = record {
  asym = λ a b h. text_less_asym a.home_id b.home_id h;
  not_less_trans = λ a b c h k. lower_trans a.home_id b.home_id c.home_id h k;
}

none_lower :
    (a : Announcement) (rest : List Announcement)
    → All (λ b. by_home b a ≡ false) rest
    → any_by (λ b. by_home b a) rest ≡ false
unfolding any_by
none_lower a [] h = refl
none_lower a (b ∷ rest) h = rw (h.0, none_lower a rest h.1) refl

-- The announcement has an API, and is that of another Home.
abbrev pub is_eligible : String → Announcement → Bool
is_eligible self_home_id a = not (a.home_id == self_home_id) && not (a.api == "")

candidates_eligible :
    (self_home_id : String) (l : List Announcement)
    → All (λ a. is_eligible self_home_id a ≡ true) (candidates self_home_id l)
unfolding candidates
candidates_eligible self_home_id [] = tt
candidates_eligible self_home_id (a ∷ rest) =
    elim (Bool-cases ((a.home_id == self_home_id) || (a.api == ""))) [
      | inl e ↦ rw e (candidates_eligible self_home_id rest)
      | inr e ↦ rw e (ground (arith, e), candidates_eligible self_home_id rest)
    ]

-- The first of a sorted list that is not empty.
first_lowest :
    (self_home_id : String) (cs sorted : List Announcement) (url : String)
    → stable_sort by_home cs ≡ sorted
    → IsSorted by_home sorted
    → All (λ a. is_eligible self_home_id a ≡ true) sorted
    → first_api sorted ≡ some url
    → (a : Announcement) × (url ≡ a.api)
      × (is_eligible self_home_id a ≡ true)
      × (any_by (λ b. (b.home_id == a.home_id) && (b.api == a.api)) cs ≡ true)
      × (any_by (λ b. by_home b a) cs ≡ false)
unfolding any_by
first_lowest self_home_id cs [] url e sorted eligible h = cc
first_lowest self_home_id cs (a ∷ rest) url e sorted eligible h = (
  a,
  ground (arith, h),
  eligible.0,
  sym (any_by-stable_sort by_home (λ b. (b.home_id == a.home_id) && (b.api == a.api)) cs)
      ∙ rw e (rw (eq_refl a.home_id, eq_refl a.api) refl),
  sym (any_by-stable_sort by_home (λ b. by_home b a) cs)
      ∙ rw e (rw (lower_irrefl a.home_id, none_lower a rest sorted.0) refl),
)

-- Decide acts only on a node that is not claimed, has no active Home and is on the wire, with
-- the API of a discovered controller that has one and is of another Home, and no such
-- controller has a lower Home id.
pub decide_lem :
    (complete : Bool) (active_home backhaul : String) (controllers : List Announcement)
    (self_home_id url : String)
    → decide complete active_home backhaul controllers self_home_id ≡ some url
    → (complete ≡ false)
      × (active_home ≡ "")
      × (backhaul ≡ backhaul_ethernet)
      × ((a : Announcement) × (url ≡ a.api)
          × (is_eligible self_home_id a ≡ true)
          × (any_by
                (λ b. (b.home_id == a.home_id) && (b.api == a.api))
                (candidates self_home_id controllers)
              ≡ true)
          × (any_by (λ b. by_home b a) (candidates self_home_id controllers) ≡ false))
unfolding decide
decide_lem complete active_home backhaul controllers self_home_id url h =
    elim (Bool-cases (complete || not (active_home == "") || not (backhaul == backhaul_ethernet))) [
      | inl e ↦ cc (rw e at h)
      | inr e ↦
          let cs = candidates self_home_id controllers in
          (
            ground (arith, e),
            (eq_iff active_home "").0 (ground (arith, e)),
            (eq_iff backhaul backhaul_ethernet).0 (ground (arith, e)),
            first_lowest self_home_id cs (stable_sort by_home cs) url refl
                (stable_sort-IsSorted by_home by_home-IsWeakOrder cs)
                (stable_sort-All by_home (λ a. is_eligible self_home_id a ≡ true) cs
                  (candidates_eligible self_home_id controllers))
                (rw e at h),
          )
    ]
