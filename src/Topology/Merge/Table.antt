-- ===== src/Topology/Merge/Table.antt =====
-- The table of the links: it has each key once, and the strongest link of each.
use omm.Prelude.{
  String, ◌≡◌, refl, ◌∙◌, Bool, true, false, Bool-cases, inl, inr, List, [], ◌∷◌, map, ◌==◌, ◌||◌,
  ◌&&◌, any_by, All, arith, eq_iff, eq_refl,
}
use omm.Prelude.Int.{ℤ, ltb_ℤ, leb_ℤ}
use omm.Prelude.Sort.{stable_sort, any_by-stable_sort, any_by-insert_by, insert_by, stable_sort-All}
use omm.Topology.{Link}
use omm.Topology.Key.{pair_key, pair_key_injective, IsNulFree}
use omm.Topology.Merge.{Table, key_of, put_link, put_links, sorted_links}

-- The link runs from `s` to `t`, and is at least as strong as `q`.
abbrev pub is_at_least : String → String → ℤ → Link → Bool
is_at_least s t q l = (l.source == s) && (l.target == t) && leb_ℤ q l.tq

-- The entry of the key is at least as strong as `q`.
abbrev pub entry_covers : String → ℤ → String × Link → Bool
entry_covers k q e = (e.0 == k) && leb_ℤ q e.1.tq

pub covers_put :
    (l : Link) (q : ℤ) (t : Table)
    → leb_ℤ q l.tq ≡ true
    → any_by (entry_covers (key_of l) q) (put_link l t) ≡ true
unfolding any_by put_link
covers_put l q [] h = ground (arith, eq_refl (key_of l), h)
covers_put l q ((k, ex) ∷ t) h = ground (arith, covers_put l q t h, h)

pub covers_kept :
    (k : String) (q : ℤ) (l : Link) (t : Table)
    → any_by (entry_covers k q) t ≡ true
    → any_by (entry_covers k q) (put_link l t) ≡ true
unfolding any_by put_link
covers_kept k q l [] h = cc
covers_kept k q l ((j, ex) ∷ t) h = ground (arith, covers_kept k q l t, h)

-- What a table keeps: each entry stands under the key of its link, whose source has no NUL.
abbrev pub IsKeyed : Table → Type 0
IsKeyed = All (λ e. (e.0 ≡ key_of e.1) × IsNulFree e.1.source)

pub put_link-IsKeyed :
    (l : Link) (t : Table) → IsNulFree l.source → IsKeyed t → IsKeyed (put_link l t)
unfolding put_link
put_link-IsKeyed l [] n h = ((refl, n), tt)
put_link-IsKeyed l ((k, ex) ∷ t) n h = elim (Bool-cases (k == key_of l)) [
  | inl e ↦ elim (Bool-cases (ltb_ℤ ex.tq l.tq)) [
    | inl b ↦ rw (e, b) (((eq_iff k (key_of l)).0 e, n), h.1)
    | inr b ↦ rw (e, b) h
  ]
  | inr e ↦ rw e (h.0, put_link-IsKeyed l t n h.1)
]

abbrev pub has_key : String → Table → Bool
has_key k = any_by (λ e. e.0 == k)

abbrev pub HasUniqueKeys : Table → Type 0
HasUniqueKeys [] = Unit
HasUniqueKeys (e ∷ t) = (has_key e.0 t ≡ false) × HasUniqueKeys t

has_key-put_link :
    (k : String) (l : Link) (t : Table)
    → has_key k (put_link l t) ≡ ((key_of l == k) || has_key k t)
unfolding any_by put_link
has_key-put_link k l [] = refl
has_key-put_link k l ((j, ex) ∷ t) =
    ground (arith, has_key-put_link k l t, eq_iff j (key_of l), eq_iff j k, eq_iff (key_of l) k)

pub put_link-HasUniqueKeys : (l : Link) (t : Table) → HasUniqueKeys t → HasUniqueKeys (put_link l t)
unfolding any_by put_link
put_link-HasUniqueKeys l [] h = (refl, tt)
put_link-HasUniqueKeys l ((k, ex) ∷ t) h = elim (Bool-cases (k == key_of l)) [
  | inl e ↦ rw e h
  | inr e ↦ rw e (
    ground (arith, has_key-put_link k l t, eq_iff k (key_of l), eq_iff (key_of l) k, e, h.0),
    put_link-HasUniqueKeys l t h.1,
  )
]

pub put_links-IsKeyed :
    (ls : List Link) (t : Table)
    → All (λ l. IsNulFree l.source) ls
    → IsKeyed t
    → IsKeyed (put_links ls t)
unfolding put_links
put_links-IsKeyed [] t n h = h
put_links-IsKeyed (l ∷ ls) t n h =
    put_links-IsKeyed ls (put_link l t) n.1 (put_link-IsKeyed l t n.0 h)

pub put_links-HasUniqueKeys :
    (ls : List Link) (t : Table) → HasUniqueKeys t → HasUniqueKeys (put_links ls t)
unfolding put_links
put_links-HasUniqueKeys [] t h = h
put_links-HasUniqueKeys (l ∷ ls) t h =
    put_links-HasUniqueKeys ls (put_link l t) (put_link-HasUniqueKeys l t h)

pub put_links_kept :
    (k : String) (q : ℤ) (ls : List Link) (t : Table)
    → any_by (entry_covers k q) t ≡ true
    → any_by (entry_covers k q) (put_links ls t) ≡ true
unfolding put_links
put_links_kept k q [] t h = h
put_links_kept k q (l ∷ ls) t h = put_links_kept k q ls (put_link l t) (covers_kept k q l t h)

leb_ℤ-self : (a : ℤ) → leb_ℤ a a ≡ true
leb_ℤ-self a = ground arith

pub put_links-covers :
    (ls : List Link) (t : Table)
    → All (λ l. any_by (entry_covers (key_of l) l.tq) (put_links ls t) ≡ true) ls
unfolding put_links
put_links-covers [] t = tt
put_links-covers (l ∷ ls) t = (
  put_links_kept (key_of l) l.tq ls (put_link l t) (covers_put l l.tq t (leb_ℤ-self l.tq)),
  put_links-covers ls (put_link l t),
)

abbrev link_of : String × Link → Link
link_of e = e.1

entry_is_at_least :
    (s d : String) (q : ℤ) (k : String) (l : Link)
    → IsNulFree s
    → k ≡ key_of l
    → IsNulFree l.source
    → entry_covers (pair_key s d) q (k, l) ≡ true
    → is_at_least s d q l ≡ true
entry_is_at_least s d q k l n keyed free h =
    let same : key_of l ≡ pair_key s d = ground (arith, eq_iff k (pair_key s d), keyed, h) in
    let (p, r) = pair_key_injective l.source s l.target d free n same in
    ground (arith, eq_iff l.source s, eq_iff l.target d, p, r, h)

map-covers :
    (s d : String) (q : ℤ) (t : Table)
    → IsNulFree s
    → IsKeyed t
    → any_by (entry_covers (pair_key s d) q) t ≡ true
    → any_by (is_at_least s d q) (map link_of t) ≡ true
unfolding any_by
map-covers s d q [] n keyed h = cc
map-covers s d q ((k, l) ∷ t) n keyed h = elim (Bool-cases (entry_covers (pair_key s d) q (k, l))) [
  | inl e ↦ rw (entry_is_at_least s d q k l n keyed.0.0 keyed.0.1 e) refl
  | inr e ↦ let rest = map-covers s d q t n keyed.1 (ground (arith, h, e)) in ground (arith, rest)
]

module _ (less : String × Link → String × Link → Bool) where
  insert_by-HasUniqueKeys :
      (e : String × Link) (t : Table)
      → has_key e.0 t ≡ false
      → HasUniqueKeys t
      → HasUniqueKeys (insert_by less e t)
  unfolding insert_by any_by
  insert_by-HasUniqueKeys e [] n h = (refl, tt)
  insert_by-HasUniqueKeys e (x ∷ t) n h = elim (Bool-cases (less x e)) [
    | inl b ↦ rw b (
      ground (
        arith,
        any_by-insert_by less (λ y. y.0 == x.0) e t,
        h.0,
        n,
        eq_iff x.0 e.0,
        eq_iff e.0 x.0,
      ),
      insert_by-HasUniqueKeys e t (ground (arith, n)) h.1,
    )
    | inr b ↦ rw b (n, h)
  ]

  stable_sort-HasUniqueKeys : (t : Table) → HasUniqueKeys t → HasUniqueKeys (stable_sort less t)
  unfolding stable_sort
  stable_sort-HasUniqueKeys [] h = tt
  stable_sort-HasUniqueKeys (e ∷ t) h =
      insert_by-HasUniqueKeys e (stable_sort less t)
        (any_by-stable_sort less (λ y. y.0 == e.0) t ∙ h.0) (stable_sort-HasUniqueKeys t h.1)

-- The link runs from `s` to `d`.
abbrev pub is_between : String → String → Link → Bool
is_between s d l = (l.source == s) && (l.target == d)

-- No directed pair has two links.
abbrev pub HasUniquePairs : List Link → Type 0
HasUniquePairs [] = Unit
HasUniquePairs (l ∷ ls) = (any_by (is_between l.source l.target) ls ≡ false) × HasUniquePairs ls

map-no_pair :
    (s d : String) (t : Table)
    → IsKeyed t
    → has_key (pair_key s d) t ≡ false
    → any_by (is_between s d) (map link_of t) ≡ false
unfolding any_by
map-no_pair s d [] keyed h = refl
map-no_pair s d ((k, l) ∷ t) keyed h = elim (Bool-cases (is_between s d l)) [
  | inl e ↦
      let p : l.source ≡ s = ground (arith, eq_iff l.source s, e) in
      let r : l.target ≡ d = ground (arith, eq_iff l.target d, e) in
      let same : k ≡ pair_key s d = rw (← p, ← r) keyed.0.0 in
      ground (arith, eq_iff k (pair_key s d), same, h)
  | inr e ↦ ground (arith, e, map-no_pair s d t keyed.1 (ground (arith, h)))
]

map-HasUniquePairs : (t : Table) → IsKeyed t → HasUniqueKeys t → HasUniquePairs (map link_of t)
map-HasUniquePairs [] keyed h = tt
map-HasUniquePairs ((k, l) ∷ t) keyed h = (
  map-no_pair l.source l.target t keyed.1 (rw keyed.0.0 at h.0),
  map-HasUniquePairs t keyed.1 h.1,
)

pub sorted_links-HasUniquePairs :
    (t : Table) → IsKeyed t → HasUniqueKeys t → HasUniquePairs (sorted_links t)
unfolding sorted_links
sorted_links-HasUniquePairs t keyed h =
    map-HasUniquePairs _ (stable_sort-All _ _ t keyed) (stable_sort-HasUniqueKeys _ t h)

pub sorted_links-covers :
    (s d : String) (q : ℤ) (t : Table)
    → IsNulFree s
    → IsKeyed t
    → any_by (entry_covers (pair_key s d) q) t ≡ true
    → any_by (is_at_least s d q) (sorted_links t) ≡ true
unfolding sorted_links
sorted_links-covers s d q t n keyed h =
    map-covers s d q _ n (stable_sort-All _ _ t keyed) (any_by-stable_sort _ _ t ∙ h)
