-- ===== src/Discovery/Listed.antt =====
-- What List of the cache shows.
use omm.Prelude.{
  String, ◌≡◌, refl, ◌∙◌, Bool, true, false, not, ◌&&◌, ◌||◌, Bool-cases, inl, inr, List, [], ◌∷◌,
  ◌==◌, any_by, arith, eq_iff, eq_refl,
}
use Prim.Native.String.{◌++◌}
use omm.Prelude.Int.{ℤ, pos, ltb_ℤ, ◌-ℤ◌}
use omm.Prelude.Sort.{any_by-stable_sort, stable_sort-IsSorted, IsWeakOrder, IsSorted}
use omm.Prelude.TextOrder.{text_less, text_less_asym, text_less_trans, text_less_total}
use omm.Discovery.{Announcement, CacheEntry, Cache, put_entry, add, fresh, earlier, list}

earlier-IsWeakOrder : IsWeakOrder earlier
unfolding earlier text_less
earlier-IsWeakOrder = record {
  asym = λ a b h. ground (
    arith,
    h,
    eq_iff a.name b.name,
    eq_iff b.name a.name,
    text_less_asym a.name b.name,
    text_less_asym a.home_id b.home_id,
  );
  not_less_trans = λ a b c h k. ground (
    arith,
    h,
    k,
    eq_iff a.name b.name,
    eq_iff b.name a.name,
    eq_iff b.name c.name,
    eq_iff c.name b.name,
    eq_iff a.name c.name,
    eq_iff c.name a.name,
    text_less_total a.name b.name,
    text_less_total b.name c.name,
    text_less_total c.name a.name,
    text_less_trans c.name a.name b.name,
    text_less_trans b.name c.name a.name,
    text_less_asym c.name a.name,
    text_less_total a.home_id b.home_id,
    text_less_total b.home_id c.home_id,
    text_less_trans c.home_id a.home_id b.home_id,
    text_less_asym c.home_id a.home_id,
  );
}

-- The entry is shown.
abbrev is_fresh : ℤ → ℤ → CacheEntry → Bool
is_fresh ttl cutoff e = not (ltb_ℤ (pos 0) ttl) || not (ltb_ℤ e.at cutoff)

fresh-put_entry :
    (p : Announcement → Bool) (ttl cutoff : ℤ) (k : String) (e : CacheEntry)
    (l : List (String × CacheEntry))
    → is_fresh ttl cutoff e ≡ true
    → p e.ann ≡ true
    → any_by p (fresh ttl cutoff (put_entry k e l)) ≡ true
unfolding fresh put_entry any_by
fresh-put_entry p ttl cutoff k e [] h q = rw h (rw q refl)
fresh-put_entry p ttl cutoff k e ((j, x) ∷ rest) h q = elim (Bool-cases (j == k)) [
  | inl same ↦ rw same (rw h (rw q refl))
  | inr ne ↦
      let later = fresh-put_entry p ttl cutoff k e rest h q in
      elim (Bool-cases (is_fresh ttl cutoff x)) [
        | inl f ↦ rw ne (rw f (rw later (ground arith)))
        | inr f ↦ rw ne (rw f later)
      ]
]

-- An announcement with an API that was added is listed while its entry is not older than the
-- time to live, or always if that is not positive, and the list is sorted by name and then by
-- Home id.
pub list-add :
    (now heard : ℤ) (ann : Announcement) (c : Cache)
    → (ann.api == "") ≡ false
    → (not (ltb_ℤ (pos 0) c.ttl) || not (ltb_ℤ heard (now -ℤ c.ttl))) ≡ true
    → (any_by (λ b. (b.home_id == ann.home_id) && (b.api == ann.api)) (list now (add heard ann c))
        ≡ true)
      × IsSorted earlier (list now (add heard ann c))
unfolding list add
list-add now heard ann c api h =
    let same : Announcement → Bool = λ b. (b.home_id == ann.home_id) && (b.api == ann.api) in
    let e : CacheEntry = record { ann = ann; at = heard } in
    let shown =
      fresh-put_entry same c.ttl (now -ℤ c.ttl) (ann.home_id ++ "|" ++ ann.api) e c.entries h
        (rw (eq_refl ann.home_id, eq_refl ann.api) refl) in
    rw api (
      any_by-stable_sort earlier same
            (fresh c.ttl (now -ℤ c.ttl) (put_entry (ann.home_id ++ "|" ++ ann.api) e c.entries))
          ∙ shown,
      stable_sort-IsSorted earlier earlier-IsWeakOrder
          (fresh c.ttl (now -ℤ c.ttl) (put_entry (ann.home_id ++ "|" ++ ann.api) e c.entries)),
    )
