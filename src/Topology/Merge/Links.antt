-- ===== src/Topology/Merge/Links.antt =====
-- The links of a merged graph: each directed pair once, as strong as the strongest report of it,
-- between the ids that the addresses resolve to.
use omm.Prelude.{
  String, ◌≡◌, ◌≢◌, refl, Bool, true, false, Bool-cases, Option-cases, inl, inr, some, List, [],
  ◌∷◌, map, ◌==◌, ◌&&◌, not, is_empty, any_by, All, All-map_of, arith, eq_iff, eq-false_of_ne,
}
use omm.Prelude.Int.{ℤ, leb_ℤ}
use omm.Prelude.Sort.{stable_sort-All}
use omm.Topology.{Node, Link, Graph}
use omm.Topology.Key.{pair_key, IsNulFree}
use omm.Topology.Merge.{
  Table, Addresses, Merged, key_of, put_link, sorted_links, add_graph, add_reports, add_node,
  add_nodes, enrich, demote, empty_merged, union_graphs, merge_graphs, reconcile, rewrite_links,
  canon_link, canon, lookup, declare_all, addr_to_id,
}
use omm.Topology.Merge.Nodes.{resolve, no_addresses}
use omm.Topology.Merge.Table.{
  is_at_least, entry_covers, covers_put, covers_kept, IsKeyed, HasUniqueKeys, put_links-IsKeyed,
  put_link-IsKeyed, put_link-HasUniqueKeys, put_links-HasUniqueKeys, put_links_kept,
  put_links-covers, HasUniquePairs, sorted_links-HasUniquePairs, sorted_links-covers,
}

-- The ids and the sources of the links have no NUL.
abbrev pub IsClean : Graph → Type 0
IsClean g = All (λ n. IsNulFree n.id) g.nodes × All (λ l. IsNulFree l.source) g.links

add_node-clean :
    (local : Bool) (n : Node) (ms : List Node)
    → IsNulFree n.id
    → All (λ m. IsNulFree m.id) ms
    → All (λ m. IsNulFree m.id) (add_node local n ms)
unfolding add_node enrich demote
add_node-clean local n [] h hs = elim (Bool-cases (not local && (n.role == "self"))) [
  | inl e ↦ rw e (h, tt)
  | inr e ↦ rw e (h, tt)
]
add_node-clean local n (m ∷ ms) h hs = elim (Bool-cases (m.id == n.id)) [
  | inl e ↦ rw e hs
  | inr e ↦ rw e (hs.0, add_node-clean local n ms h hs.1)
]

add_nodes-clean :
    (local : Bool) (ns out : List Node)
    → All (λ m. IsNulFree m.id) ns
    → All (λ m. IsNulFree m.id) out
    → All (λ m. IsNulFree m.id) (add_nodes local ns out)
unfolding add_nodes
add_nodes-clean local [] out h hs = hs
add_nodes-clean local (n ∷ ns) out h hs =
    add_nodes-clean local ns (add_node local n out) h.1 (add_node-clean local n out h.0 hs)

-- What the union keeps while it takes in the graphs.
abbrev IsSound : Merged → Type 0
IsSound m = All (λ n. IsNulFree n.id) m.nodes × IsKeyed m.links × HasUniqueKeys m.links

add_graph-IsSound :
    (local : Bool) (g : Graph) (m : Merged) → IsClean g → IsSound m → IsSound (add_graph local g m)
unfolding add_graph
add_graph-IsSound local g m c s = (
  add_nodes-clean local g.nodes m.nodes c.0 s.0,
  put_links-IsKeyed g.links m.links c.1 s.1,
  put_links-HasUniqueKeys g.links m.links s.2,
)

add_reports-IsSound :
    (gs : List Graph) (m : Merged) → All IsClean gs → IsSound m → IsSound (add_reports gs m)
unfolding add_reports
add_reports-IsSound [] m c s = s
add_reports-IsSound (g ∷ gs) m c s =
    add_reports-IsSound gs (add_graph false g m) c.1 (add_graph-IsSound false g m c.0 s)

add_reports_kept :
    (k : String) (q : ℤ) (gs : List Graph) (m : Merged)
    → any_by (entry_covers k q) m.links ≡ true
    → any_by (entry_covers k q) (add_reports gs m).links ≡ true
unfolding add_reports add_graph
add_reports_kept k q [] m h = h
add_reports_kept k q (g ∷ gs) m h =
    add_reports_kept k q gs (add_graph false g m) (put_links_kept k q g.links m.links h)

-- The table covers the link.
abbrev IsCovered : Table → Link → Type 0
IsCovered t l = any_by (entry_covers (key_of l) l.tq) t ≡ true

add_reports-covers :
    (gs : List Graph) (m : Merged) → All (λ g. All (IsCovered (add_reports gs m).links) g.links) gs
unfolding add_reports add_graph
add_reports-covers [] m = tt
add_reports-covers (g ∷ gs) m = (
  All-map_of _ _ g.links (λ l h. add_reports_kept (key_of l) l.tq gs (add_graph false g m) h)
      (put_links-covers g.links m.links),
  add_reports-covers gs (add_graph false g m),
)

-- An address is resolved to an id of a node.
declare_all-clean :
    (id : String) (as' : List String) (addrs : Addresses)
    → IsNulFree id
    → All (λ a. IsNulFree a.1) addrs
    → All (λ a. IsNulFree a.1) (declare_all id as' addrs)
unfolding declare_all
declare_all-clean id [] addrs n h = h
declare_all-clean id (a ∷ as') addrs n h = declare_all-clean id as' ((a, id) ∷ addrs) n (n, h)

addr_to_id-clean :
    (ns : List Node) (addrs : Addresses)
    → All (λ n. IsNulFree n.id) ns
    → All (λ a. IsNulFree a.1) addrs
    → All (λ a. IsNulFree a.1) (addr_to_id ns addrs)
unfolding addr_to_id
addr_to_id-clean [] addrs n h = h
addr_to_id-clean (x ∷ ns) addrs n h =
    addr_to_id-clean ns (declare_all x.id x.addrs addrs) n.1
      (declare_all-clean x.id x.addrs addrs n.0 h)

lookup-clean :
    (addrs : Addresses) (a id : String)
    → All (λ e. IsNulFree e.1) addrs
    → lookup addrs a ≡ some id
    → IsNulFree id
unfolding lookup
lookup-clean [] a id h e = cc
lookup-clean ((b, x) ∷ t) a id h e = elim (Bool-cases (b == a)) [
  | inl y ↦ let same : x ≡ id = ground (arith, e, y) in rw (← same) h.0
  | inr y ↦ lookup-clean t a id h.1 (rw y at e)
]

canon-clean :
    (addrs : Addresses) (a : String)
    → All (λ e. IsNulFree e.1) addrs
    → IsNulFree a
    → IsNulFree (canon addrs a)
unfolding canon
canon-clean addrs a h n = elim (Option-cases (lookup addrs a)) [
  | inl e ↦ let same : canon addrs a ≡ a = rw (e, canon) refl in rw same n
  | inr (id, e) ↦
      let same : canon addrs a ≡ id = rw (e, canon) refl in rw same (lookup-clean addrs a id h e)
]

-- The table of the links between canonical ids.
module _ (addrs : Addresses) (clean : All (λ e. IsNulFree e.1) addrs) where
  rewrite_links-IsKeyed :
      (ls : List Link) (t : Table)
      → All (λ l. IsNulFree l.source) ls
      → IsKeyed t × HasUniqueKeys t
      → IsKeyed (rewrite_links addrs ls t) × HasUniqueKeys (rewrite_links addrs ls t)
  unfolding rewrite_links canon_link
  rewrite_links-IsKeyed [] t n h = h
  rewrite_links-IsKeyed (l ∷ ls) t n h =
      elim (Bool-cases (canon addrs l.source == canon addrs l.target)) [
        | inl e ↦ rw e (rewrite_links-IsKeyed ls t n.1 h)
        | inr e ↦ rw e (
            rewrite_links-IsKeyed ls (put_link (canon_link addrs l) t) n.1 (
              put_link-IsKeyed (canon_link addrs l) t (canon-clean addrs l.source clean n.0) h.0,
              put_link-HasUniqueKeys (canon_link addrs l) t h.1,
            ))
      ]

rewrite_links_kept :
    (addrs : Addresses) (k : String) (q : ℤ) (ls : List Link) (t : Table)
    → any_by (entry_covers k q) t ≡ true
    → any_by (entry_covers k q) (rewrite_links addrs ls t) ≡ true
unfolding rewrite_links canon_link
rewrite_links_kept addrs k q [] t h = h
rewrite_links_kept addrs k q (l ∷ ls) t h =
    elim (Bool-cases (canon addrs l.source == canon addrs l.target)) [
      | inl e ↦ rw e (rewrite_links_kept addrs k q ls t h)
      | inr e ↦ rw e (
          rewrite_links_kept addrs k q ls (put_link (canon_link addrs l) t)
            (covers_kept k q (canon_link addrs l) t h))
    ]

rewrite_links-covers :
    (addrs : Addresses) (s d : String) (q : ℤ) (ls : List Link) (t : Table)
    → canon addrs s ≢ canon addrs d
    → any_by (is_at_least s d q) ls ≡ true
    → any_by (entry_covers (pair_key (canon addrs s) (canon addrs d)) q) (rewrite_links addrs ls t)
      ≡ true
unfolding rewrite_links canon_link any_by
rewrite_links-covers addrs s d q [] t ne h = cc
rewrite_links-covers addrs s d q (l ∷ ls) t ne h = elim (Bool-cases (is_at_least s d q l)) [
  | inl e ↦
      let p : l.source ≡ s = ground (arith, eq_iff l.source s, e) in
      let r : l.target ≡ d = ground (arith, eq_iff l.target d, e) in
      let strong : leb_ℤ q l.tq ≡ true = ground (arith, e) in
      let apart : (canon addrs l.source == canon addrs l.target) ≡ false =
        rw (p, r) (eq-false_of_ne (canon addrs s) (canon addrs d) ne) in
      rw (← p, ← r)
        (rw apart (
          rewrite_links_kept addrs _ q ls (put_link (canon_link addrs l) t)
            (covers_put (canon_link addrs l) q t strong)))
  | inr e ↦
      let rest : any_by (is_at_least s d q) ls ≡ true = ground (arith, h, e) in
      elim (Bool-cases (canon addrs l.source == canon addrs l.target)) [
        | inl y ↦ rw y (rewrite_links-covers addrs s d q ls t ne rest)
        | inr y ↦
            rw y (rewrite_links-covers addrs s d q ls (put_link (canon_link addrs l) t) ne rest)
      ]
]

link_sources :
    (t : Table) → IsKeyed t → All (λ l. IsNulFree l.source) (map (λ (e : String × Link). e.1) t)
link_sources [] h = tt
link_sources (e ∷ t) h = (h.0.1, link_sources t h.1)

-- The union of the graphs.
module _ (local : Graph) (reports : List Graph) (cl : IsClean local)
    (cr : All IsClean reports) where
  abbrev first : Merged
  first = add_graph true local empty_merged

  union-IsSound : IsSound (add_reports reports first)
  union-IsSound =
      add_reports-IsSound reports first cr
        (add_graph-IsSound true local empty_merged cl (tt, tt, tt))

  union-covers :
      (l : Link)
      → IsNulFree l.source
      → IsCovered (add_reports reports first).links l
      → any_by (is_at_least l.source l.target l.tq) (union_graphs local reports).links ≡ true
  unfolding union_graphs
  union-covers l n h =
      sorted_links-covers l.source l.target l.tq (add_reports reports first).links n union-IsSound.1
        h

  union-HasUniquePairs : HasUniquePairs (union_graphs local reports).links
  unfolding union_graphs
  union-HasUniquePairs =
      sorted_links-HasUniquePairs (add_reports reports first).links union-IsSound.1 union-IsSound.2

  union-IsClean : IsClean (union_graphs local reports)
  unfolding union_graphs sorted_links
  union-IsClean = (union-IsSound.0, link_sources _ (stable_sort-All _ _ _ union-IsSound.1))

module _ (g : Graph) (clean : IsClean g) where
  abbrev addrs_of : Addresses
  addrs_of = addr_to_id g.nodes []

  reconcile-covers :
      (s d : String) (q : ℤ)
      → IsNulFree s
      → canon addrs_of s ≢ canon addrs_of d
      → any_by (is_at_least s d q) g.links ≡ true
      → any_by (is_at_least (canon addrs_of s) (canon addrs_of d) q) (reconcile g).links ≡ true
  unfolding reconcile
  reconcile-covers s d q n ne h = elim (Bool-cases (is_empty addrs_of)) [
    | inl e ↦
        let ks : canon addrs_of s ≡ s = (eq_iff _ s).0 (no_addresses addrs_of s e) in
        let kd : canon addrs_of d ≡ d = (eq_iff _ d).0 (no_addresses addrs_of d e) in
        rw (e, ks, kd) h
    | inr e ↦
        let values = addr_to_id-clean g.nodes [] clean.0 tt in
        rw e (
          sorted_links-covers (canon addrs_of s) (canon addrs_of d) q
            (rewrite_links addrs_of g.links []) (canon-clean addrs_of s values n)
            (rewrite_links-IsKeyed addrs_of values g.links [] clean.1 (tt, tt)).0
            (rewrite_links-covers addrs_of s d q g.links [] ne h))
  ]

  reconcile-HasUniquePairs : HasUniquePairs g.links → HasUniquePairs (reconcile g).links
  unfolding reconcile
  reconcile-HasUniquePairs h = elim (Bool-cases (is_empty addrs_of)) [
    | inl e ↦ rw e h
    | inr e ↦
        let values = addr_to_id-clean g.nodes [] clean.0 tt in
        let table = rewrite_links-IsKeyed addrs_of values g.links [] clean.1 (tt, tt) in
        rw e (sorted_links-HasUniquePairs (rewrite_links addrs_of g.links []) table.0 table.1)
  ]

-- The link is in the list between the resolved ids, at least as strong, unless it ends where it starts.
abbrev pub IsMerged : Graph → List Graph → List Link → Link → Type 0
IsMerged local reports links l =
    resolve local reports l.source ≢ resolve local reports l.target
    → any_by (is_at_least (resolve local reports l.source) (resolve local reports l.target) l.tq)
        links
      ≡ true

both {ℓ} :
    {A : Type ℓ} (P Q R : A → Type 0) (xs : List A)
    → ((a : A) → P a → Q a → R a)
    → All P xs
    → All Q xs
    → All R xs
both P Q R [] f p q = tt
both P Q R (x ∷ xs) f p q = (f x p.0 q.0, both P Q R xs f p.1 q.1)

-- If no node id and no link source of the local graph and of the reports holds a NUL, the
-- merged graph has at most one link for each directed pair, and for each link of the local
-- graph and of a report, unless the ids that its ends resolve to are equal, one between those
-- ids that is at least as strong.
pub merge_graphs_links :
    (local : Graph) (reports : List Graph)
    → IsClean local
    → All IsClean reports
    → HasUniquePairs (merge_graphs local reports).links
      × All (IsMerged local reports (merge_graphs local reports).links) local.links
      × All (λ g. All (IsMerged local reports (merge_graphs local reports).links) g.links) reports
unfolding merge_graphs add_graph
merge_graphs_links local reports cl cr =
    let clean = union-IsClean local reports cl cr in
    let into : ((l : Link)
        → IsNulFree l.source
        → IsCovered (add_reports reports (add_graph true local empty_merged)).links l
        → IsMerged local reports (merge_graphs local reports).links l) =
      λ l n h ne.
        reconcile-covers (union_graphs local reports) clean l.source l.target l.tq n ne
          (union-covers local reports cl cr l n h) in
    (
      reconcile-HasUniquePairs (union_graphs local reports) clean
          (union-HasUniquePairs local reports cl cr),
      both _ _ _ local.links into cl.1 (
          All-map_of _ _ local.links
            (λ l h. add_reports_kept (key_of l) l.tq reports (add_graph true local empty_merged) h)
            (put_links-covers local.links [])),
      both _ _ _ reports (λ g c h. both _ _ _ g.links into c.1 h) cr
          (add_reports-covers reports (add_graph true local empty_merged)),
    )
