-- ===== src/Selection/Recommend.antt =====
-- Which Home `Recommend` returns, for every list of Homes that the device knows.
use omm.Prelude.{
  String, ◌≡◌, ◌≢◌, refl, true, false, Bool-cases, inl, inr, List, [], ◌∷◌, ◌++◌, some, none, ◌==◌,
  All, All-map_of, arith, eq_iff, ne_of_eq-false, All-append, ap, ◌⊎◌,
}
use omm.Prelude.Sort.{IsFirstBest}
use omm.Models.{Home}
use omm.HomeSelect.{Candidate, less, select, choose, find_home, or_else}
use omm.HomeSelect.Order.{select-IsFirstBest}
use omm.Selection.{Signals, candidate_of, candidates, recommend}

-- The first Home of the id in a list.
pub record IsFirstNamed (id : String) (h : Home) (homes : List Home) : Type 0 where
  pub before : List Home
  pub after : List Home
  pub splits : homes ≡ before ++ h ∷ after
  pub named : h.id ≡ id
  pub unnamed : All (λ g. g.id ≢ id) before

beats_own :
    (c d : Candidate) → less c d ≡ true → c.self_controlled ≡ true → d.self_controlled ≡ true
unfolding less
beats_own c d h own = ground arith

unbeaten_own :
    (c d : Candidate) → less d c ≡ false → c.self_controlled ≡ true → d.self_controlled ≡ true
unfolding less
unbeaten_own c d h own = ground arith

-- A best candidate is the device's own Home only if all of them are.
own_last_resort :
    (c : Candidate) (cs : List Candidate)
    → IsFirstBest less c cs
    → c.self_controlled ≡ true
    → All (λ d. d.self_controlled ≡ true) cs
own_last_resort c cs b own = rw b.splits (
    All-append (λ d. d.self_controlled ≡ true) b.before (c ∷ b.after)
      (All-map_of _ _ b.before (λ d h. beats_own c d h own) b.beats)
      (own, All-map_of _ _ b.after (λ d h. unbeaten_own c d h own) b.unbeaten))

module _ (to_lower : String → String) (self : String) (signals : Signals) where
  own_homes :
      (homes : List Home)
      → All (λ d. d.self_controlled ≡ true) (candidates to_lower homes self signals)
      → All (λ h. h.id ≡ self) homes
  unfolding candidates candidate_of
  own_homes [] h = tt
  own_homes (g ∷ gs) h = ((eq_iff g.id self).0 h.0, own_homes gs h.1)

  -- The search of `Choose` among the candidates.
  find_home-candidates :
      (id : String) (homes : List Home)
      → ((h : Home) × IsFirstNamed id h homes
          × (find_home id (candidates to_lower homes self signals)
              ≡ some (candidate_of to_lower self signals h)))
        ⊎ (All (λ g. g.id ≢ id) homes
            × (find_home id (candidates to_lower homes self signals) ≡ none))
  unfolding find_home candidates candidate_of
  find_home-candidates id [] = inr (tt, refl)
  find_home-candidates id (g ∷ gs) = elim (Bool-cases (g.id == id)) [
    | inl e ↦ inl (
      g,
      record { before = []; after = gs; splits = refl; named = (eq_iff g.id id).0 e; unnamed = tt },
      rw e refl,
    )
    | inr e ↦ elim (find_home-candidates id gs) [
      | inl (h, first, found) ↦ inl (
        h,
        record {
          before = g ∷ first.before;
          after = first.after;
          splits = ap (◌∷◌ g) first.splits;
          named = first.named;
          unnamed = (ne_of_eq-false g.id id e, first.unnamed);
        },
        rw e found,
      )
      | inr (absent, found) ↦ inr ((ne_of_eq-false g.id id e, absent), rw e found)
    ]
  ]

  -- What the automatic choice gives.
  abbrev pub IsAutomatic : Candidate → List Home → Type 0
  IsAutomatic c homes =
      IsFirstBest less c (candidates to_lower homes self signals)
      × (c.self_controlled ≡ true → All (λ h. h.id ≡ self) homes)

  select-IsAutomatic :
      (g : Home) (gs : List Home)
      → (c : Candidate) × (select (candidates to_lower (g ∷ gs) self signals) ≡ some c)
        × IsAutomatic c (g ∷ gs)
  unfolding candidates
  select-IsAutomatic g gs =
      let (c, e, b) =
        select-IsFirstBest (candidate_of to_lower self signals g)
          (candidates to_lower gs self signals) in
      (c, e, (b, λ own. own_homes (g ∷ gs) (own_last_resort c _ b own)))

  -- If any Home is known Recommend returns one: the first with the explicit id, if that is not
  -- blank and known; else the first best candidate, which is the own Home of the device only
  -- if it knows no other.
  pub recommend_decides :
      (explicit : String) (g : Home) (gs : List Home)
      → (c : Candidate) × (recommend to_lower (g ∷ gs) self explicit signals ≡ some c)
        × (((explicit ≢ "")
              × (h : Home) × IsFirstNamed explicit h (g ∷ gs)
              × (c ≡ candidate_of to_lower self signals h))
            ⊎ (((explicit ≡ "") ⊎ All (λ h. h.id ≢ explicit) (g ∷ gs)) × IsAutomatic c (g ∷ gs)))
  unfolding recommend choose or_else
  recommend_decides explicit g gs =
      let (c, e, auto) = select-IsAutomatic g gs in
      elim (Bool-cases (explicit == "")) [
        | inl none' ↦ (c, rw none' e, inr (inl ((eq_iff explicit "").0 none'), auto))
        | inr some' ↦ elim (find_home-candidates explicit (g ∷ gs)) [
          | inl (h, first, found) ↦ (
            candidate_of to_lower self signals h,
            rw (some', found) refl,
            inl (ne_of_eq-false explicit "" some', h, first, refl),
          )
          | inr (absent, found) ↦ (c, rw (some', found) e, inr (inr absent, auto))
        ]
      ]
