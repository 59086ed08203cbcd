-- ===== src/Topology/Batctl/Best.antt =====
-- Which lines of `batctl o` count.
use mathlib.Core.Path.{subst, sym}
use omm.Prelude.{
  String, Bool, true, false, ◌≡◌, refl, Bool-cases, Option-cases, inl, inr, none, some, List, [],
  ◌∷◌, ◌==◌, ◌||◌, ◌&&◌, not, any_by, All, arith, eq_iff, eq_refl,
}
use omm.Prelude.Int.{ℤ, ltb_ℤ}
use omm.Strings.{Strings}
use omm.Topology.{Neighbor}
use omm.Topology.Batctl.{Patterns, put_best, originator_of, add_originators, parse_originators}

abbrev has_id : String → List Neighbor → Bool
has_id id [] = false
has_id id (n ∷ ns) = (n.id == id) || has_id id ns

-- No id stands twice.
unfoldable pub distinct : List Neighbor → Bool
distinct [] = true
distinct (n ∷ ns) = not (has_id n.id ns) && distinct ns

has_id-put_best :
    (id : String) (n : Neighbor) (ns : List Neighbor)
    → has_id id (put_best n ns) ≡ ((n.id == id) || has_id id ns)
unfolding put_best
has_id-put_best id n [] = ground arith
has_id-put_best id n (x ∷ xs) =
    ground (arith, has_id-put_best id n xs, eq_iff x.id n.id, eq_iff n.id id, eq_iff x.id id)

distinct-put_best :
    (n : Neighbor) (ns : List Neighbor) → distinct ns ≡ true → distinct (put_best n ns) ≡ true
unfolding put_best distinct
distinct-put_best n [] h = refl
distinct-put_best n (x ∷ xs) h =
    ground
      (arith, distinct-put_best n xs, has_id-put_best x.id n xs, eq_iff x.id n.id, eq_iff n.id x.id)

-- The neighbor of the id has at least the quality.
unfoldable pub beats : Neighbor → Neighbor → Bool
beats n x = (x.id == n.id) && not (ltb_ℤ x.tq n.tq)

any_by-put_best_own : (n : Neighbor) (ns : List Neighbor) → any_by (beats n) (put_best n ns) ≡ true
unfolding any_by put_best beats
any_by-put_best_own n [] = ground (arith, eq_refl n.id)
any_by-put_best_own n (x ∷ xs) = ground (arith, any_by-put_best_own n xs, eq_refl n.id)

at_least : (x n m : ℤ) → ltb_ℤ x n ≡ false → ltb_ℤ x m ≡ true → ltb_ℤ m n ≡ false
at_least x n m h k = ground arith

or_right : (a b : Bool) → b ≡ true → (a || b) ≡ true
or_right a b h = ground arith

and_both : (a b : Bool) → a ≡ true → b ≡ true → (a && b) ≡ true
and_both a b h k = ground arith

same_id : (x m n : String) → (x == m) ≡ true → (x == n) ≡ (m == n)
same_id x m n h = ground (arith, eq_iff x m, eq_iff x n, eq_iff m n)

-- A better neighbor of the same id beats what the one before it did.
beats_better :
    (n x m : Neighbor)
    → (x.id == m.id) ≡ true
    → ltb_ℤ x.tq m.tq ≡ true
    → beats n x ≡ true
    → beats n m ≡ true
unfolding beats
beats_better n x m same better h = elim (Bool-cases (ltb_ℤ x.tq n.tq)) [
  | inl e ↦ absurd (no_and (x.id == n.id) (rw e at h))
  | inr e ↦
      rw (at_least x.tq n.tq m.tq e better)
        (subst (λ b. (b && true) ≡ true) (same_id x.id m.id n.id same) (rw e at h))
]
  where
    no_and : (b : Bool) → (b && false) ≡ true → ⊥
    no_and b h = ground arith

any_by-put_best :
    (n m : Neighbor) (ns : List Neighbor)
    → any_by (beats n) ns ≡ true
    → any_by (beats n) (put_best m ns) ≡ true
unfolding any_by put_best
any_by-put_best n m [] h = cc h
any_by-put_best n m (x ∷ xs) h = elim (Bool-cases (x.id == m.id)) [
  | inl e ↦ elim (Bool-cases (ltb_ℤ x.tq m.tq)) [
    | inr q ↦ rw (e, q) h
    | inl q ↦ elim (Bool-cases (beats n x)) [
      | inl b ↦ rw (e, q, beats_better n x m e q b) refl
      | inr b ↦ rw (e, q) (or_right (beats n m) (any_by (beats n) xs) (rw b at h))
    ]
  ]
  | inr e ↦ elim (Bool-cases (beats n x)) [
    | inl b ↦ rw (e, b) refl
    | inr b ↦ rw (e, b) (any_by-put_best n m xs (rw b at h))
  ]
]

put_best-All :
    (P : Neighbor → Type 0) (n : Neighbor) (ns : List Neighbor)
    → P n
    → All P ns
    → All P (put_best n ns)
unfolding put_best
put_best-All P n [] p h = (p, tt)
put_best-All P n (x ∷ xs) p h = elim (Bool-cases (x.id == n.id)) [
  | inl e ↦ elim (Bool-cases (ltb_ℤ x.tq n.tq)) [ inl q ↦ rw (e, q) (p, h.1) | inr q ↦ rw (e, q) h ]
  | inr e ↦ rw e (h.0, put_best-All P n xs p h.1)
]

module _ (strings : Strings) (patterns : Patterns) where
  -- Each neighbor that a line names is beaten by one of the list.
  unfoldable pub covers : List String → List Neighbor → Bool
  covers [] best = true
  covers (line ∷ rest) best =
      elim (originator_of strings patterns line) [ none ↦ true | some n ↦ any_by (beats n) best ]
      && covers rest best

  any_by-add_originators :
      (n : Neighbor) (ls : List String) (best : List Neighbor)
      → any_by (beats n) best ≡ true
      → any_by (beats n) (add_originators strings patterns ls best) ≡ true
  unfolding add_originators
  any_by-add_originators n [] best h = h
  any_by-add_originators n (line ∷ rest) best h =
      elim (Option-cases (originator_of strings patterns line)) [
        | inl e ↦ rw e (any_by-add_originators n rest best h)
        | inr (m, e) ↦
            rw e (any_by-add_originators n rest (put_best m best) (any_by-put_best n m best h))
      ]

  -- The list after one more line.
  abbrev after : String → List Neighbor → List Neighbor
  after line best = elim (originator_of strings patterns line) [
    | none ↦ best
    | some n ↦ put_best n best
  ]

  covered :
      (line : String) (rest : List String) (best : List Neighbor)
      → (elim (originator_of strings patterns line) [
        | none ↦ true
        | some n ↦ any_by (beats n) (add_originators strings patterns rest (after line best))
      ])
        ≡ true
  covered line rest best = elim (Option-cases (originator_of strings patterns line)) [
    | inl e ↦ rw e refl
    | inr (n, e) ↦
        let next : after line best ≡ put_best n best = rw (e, after) refl in
        rw e (
          subst (λ b. any_by (beats n) (add_originators strings patterns rest b) ≡ true) (sym next)
            (any_by-add_originators n rest (put_best n best) (any_by-put_best_own n best)))
  ]

  covers-add_originators :
      (ls : List String) (best : List Neighbor)
      → covers ls (add_originators strings patterns ls best) ≡ true
  unfolding add_originators covers
  covers-add_originators [] best = refl
  covers-add_originators (line ∷ rest) best =
      and_both _ _ (covered line rest best) (covers-add_originators rest (after line best))

  distinct-add_originators :
      (ls : List String) (best : List Neighbor)
      → distinct best ≡ true
      → distinct (add_originators strings patterns ls best) ≡ true
  unfolding add_originators
  distinct-add_originators [] best h = h
  distinct-add_originators (line ∷ rest) best h =
      elim (Option-cases (originator_of strings patterns line)) [
        | inl e ↦ rw e (distinct-add_originators rest best h)
        | inr (n, e) ↦
            rw e (distinct-add_originators rest (put_best n best) (distinct-put_best n best h))
      ]

  add_originators-All :
      (P : Neighbor → Type 0) (ls : List String) (best : List Neighbor)
      → All (λ line. (n : Neighbor) → originator_of strings patterns line ≡ some n → P n) ls
      → All P best
      → All P (add_originators strings patterns ls best)
  unfolding add_originators
  add_originators-All P [] best h b = b
  add_originators-All P (line ∷ rest) best h b =
      elim (Option-cases (originator_of strings patterns line)) [
        | inl e ↦ rw e (add_originators-All P rest best h.1 b)
        | inr (n, e) ↦
            rw e
              (add_originators-All P rest (put_best n best) h.1 (put_best-All P n best (h.0 n e) b))
      ]

  -- What batctl o prints is parsed to neighbors of different ids, and for each line that names
  -- a neighbor there is one of its id with at least its quality; whatever holds of the
  -- neighbors that the lines name holds of those that are returned.
  pub parse_originators_best :
      (out : String) (P : Neighbor → Type 0)
      → All
          (λ line. (n : Neighbor) → originator_of strings patterns line ≡ some n → P n)
          (strings.lines out)
      → (distinct (parse_originators strings patterns out) ≡ true)
        × (covers (strings.lines out) (parse_originators strings patterns out) ≡ true)
        × All P (parse_originators strings patterns out)
  unfolding parse_originators distinct
  parse_originators_best out P h = (
    distinct-add_originators (strings.lines out) [] refl,
    covers-add_originators (strings.lines out) [],
    add_originators-All P (strings.lines out) [] h tt,
  )
