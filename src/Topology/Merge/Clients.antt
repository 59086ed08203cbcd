-- ===== src/Topology/Merge/Clients.antt =====
-- The clients of a merged graph: the first report of each, at the access point that it resolves to.
use omm.Prelude.{
  String, ◌≡◌, refl, ◌∙◌, sym, ap, true, false, Bool-cases, inl, inr, Option, some, none, List, [],
  ◌∷◌, ◌++◌, map, ◌==◌, ◌||◌, if◌then◌else◌, is_empty, arith, eq_iff,
}
use mathlib.Core.Option
use omm.Topology.{Client, Graph}
use omm.Topology.Merge.{
  Merged, Addresses, has_client, add_clients, add_graph, add_reports, canon_client, canon, lookup,
  union_graphs, reconcile, merge_graphs, addr_to_id, empty_merged,
}

-- The first client of the MAC.
unfoldable pub find_client : String → List Client → Option Client
find_client mac [] = none
find_client mac (c ∷ cs) = if c.mac == mac then some c else find_client mac cs

-- The clients of the graphs in the order of the merge.
unfoldable pub clients_of : List Graph → List Client
clients_of [] = []
clients_of (g ∷ gs) = g.clients ++ clients_of gs

or_first : Option Client → Option Client → Option Client
or_first none other = other
or_first (some c) other = some c

find_client-append :
    (mac : String) (cs ds : List Client)
    → find_client mac (cs ++ ds) ≡ or_first (find_client mac cs) (find_client mac ds)
unfolding find_client or_first
find_client-append mac [] ds = refl
find_client-append mac (c ∷ cs) ds = elim (Bool-cases (c.mac == mac)) [
  | inl e ↦ rw e refl
  | inr e ↦ rw e (find_client-append mac cs ds)
]

append_nil : (cs : List Client) → cs ++ [] ≡ cs
append_nil [] = refl
append_nil (c ∷ cs) = ap (◌∷◌ c) (append_nil cs)

append_assoc : (xs ys zs : List Client) → (xs ++ ys) ++ zs ≡ xs ++ (ys ++ zs)
append_assoc [] ys zs = refl
append_assoc (x ∷ xs) ys zs = ap (◌∷◌ x) (append_assoc xs ys zs)

found_of_has :
    (mac : String) (cs : List Client)
    → has_client mac cs ≡ true
    → (c : Client) × (find_client mac cs ≡ some c)
unfolding find_client has_client
found_of_has mac [] h = cc
found_of_has mac (c ∷ cs) h = elim (Bool-cases (c.mac == mac)) [
  | inl e ↦ (c, rw e refl)
  | inr e ↦ let (d, at) = found_of_has mac cs (ground (arith, h, e)) in (d, rw e at)
]

-- A client that is there already changes nothing.
find_client-skip :
    (mac : String) (c : Client) (out cs : List Client)
    → has_client c.mac out ≡ true
    → find_client mac (out ++ c ∷ cs) ≡ find_client mac (out ++ cs)
unfolding find_client or_first
find_client-skip mac c out cs h =
    rw (find_client-append mac out (c ∷ cs), find_client-append mac out cs)
      (elim (Bool-cases (c.mac == mac)) [
        | inl e ↦
            let same : c.mac ≡ mac = (eq_iff c.mac mac).0 e in
            let (d, at) = found_of_has mac out (rw same at h) in rw at refl
        | inr e ↦
            let next : find_client mac (c ∷ cs) ≡ find_client mac cs = rw e refl in rw next refl
      ])

find_client-add_clients :
    (mac : String) (cs out : List Client)
    → find_client mac (add_clients cs out) ≡ find_client mac (out ++ cs)
unfolding add_clients
find_client-add_clients mac [] out = rw (append_nil out) refl
find_client-add_clients mac (c ∷ cs) out = elim (Bool-cases (has_client c.mac out)) [
  | inl e ↦
      rw (e, add_clients)
        (find_client-add_clients mac cs out ∙ sym (find_client-skip mac c out cs e))
  | inr e ↦
      rw (e, add_clients)
        (find_client-add_clients mac cs (out ++ c ∷ [])
          ∙ ap (find_client mac) (append_assoc out (c ∷ []) cs))
]

find_client-add_reports :
    (mac : String) (gs : List Graph) (m : Merged)
    → find_client mac (add_reports gs m).clients ≡ find_client mac (m.clients ++ clients_of gs)
unfolding add_reports add_graph clients_of
find_client-add_reports mac [] m = rw (append_nil m.clients) refl
find_client-add_reports mac (g ∷ gs) m =
    let rest = clients_of gs in
    find_client-add_reports mac gs (add_graph false g m)
    ∙ find_client-append mac (add_clients g.clients m.clients) rest
    ∙ ap (λ (o : Option Client). or_first o (find_client mac rest))
        (find_client-add_clients mac g.clients m.clients)
    ∙ sym (find_client-append mac (m.clients ++ g.clients) rest)
    ∙ ap (find_client mac) (append_assoc m.clients g.clients rest)

-- No MAC stands at two clients.
abbrev pub HasUniqueMacs : List Client → Type 0
HasUniqueMacs [] = Unit
HasUniqueMacs (c ∷ cs) = (has_client c.mac cs ≡ false) × HasUniqueMacs cs

has_client-end :
    (mac : String) (cs : List Client) (c : Client)
    → has_client mac (cs ++ c ∷ []) ≡ ((c.mac == mac) || has_client mac cs)
unfolding has_client
has_client-end mac [] c = refl
has_client-end mac (d ∷ cs) c = ground (arith, has_client-end mac cs c)

end-HasUniqueMacs :
    (cs : List Client) (c : Client)
    → has_client c.mac cs ≡ false
    → HasUniqueMacs cs
    → HasUniqueMacs (cs ++ c ∷ [])
unfolding has_client
end-HasUniqueMacs [] c h u = (refl, tt)
end-HasUniqueMacs (d ∷ cs) c h u = (
  ground (arith, has_client-end d.mac cs c, u.0, h, eq_iff d.mac c.mac, eq_iff c.mac d.mac),
  end-HasUniqueMacs cs c (ground (arith, h)) u.1,
)

add_clients-HasUniqueMacs :
    (cs out : List Client) → HasUniqueMacs out → HasUniqueMacs (add_clients cs out)
unfolding add_clients
add_clients-HasUniqueMacs [] out u = u
add_clients-HasUniqueMacs (c ∷ cs) out u = elim (Bool-cases (has_client c.mac out)) [
  | inl e ↦ rw (e, add_clients) (add_clients-HasUniqueMacs cs out u)
  | inr e ↦ rw (e, add_clients) (add_clients-HasUniqueMacs cs _ (end-HasUniqueMacs out c e u))
]

add_reports-HasUniqueMacs :
    (gs : List Graph) (m : Merged)
    → HasUniqueMacs m.clients
    → HasUniqueMacs (add_reports gs m).clients
unfolding add_reports add_graph
add_reports-HasUniqueMacs [] m u = u
add_reports-HasUniqueMacs (g ∷ gs) m u =
    add_reports-HasUniqueMacs gs (add_graph false g m)
      (add_clients-HasUniqueMacs g.clients m.clients u)

module _ (addrs : Addresses) where
  has_client-map :
      (mac : String) (cs : List Client)
      → has_client mac (map (canon_client addrs) cs) ≡ has_client mac cs
  unfolding has_client canon_client
  has_client-map mac [] = refl
  has_client-map mac (c ∷ cs) = ground (arith, has_client-map mac cs)

  map-HasUniqueMacs :
      (cs : List Client) → HasUniqueMacs cs → HasUniqueMacs (map (canon_client addrs) cs)
  unfolding canon_client
  map-HasUniqueMacs [] u = tt
  map-HasUniqueMacs (c ∷ cs) u = (has_client-map c.mac cs ∙ u.0, map-HasUniqueMacs cs u.1)

  find_client-map :
      (mac : String) (cs : List Client)
      → find_client mac (map (canon_client addrs) cs)
        ≡ Option.map (canon_client addrs) (find_client mac cs)
  unfolding find_client canon_client
  find_client-map mac [] = refl
  find_client-map mac (c ∷ cs) = elim (Bool-cases (c.mac == mac)) [
    | inl e ↦ rw e refl
    | inr e ↦ rw e (find_client-map mac cs)
  ]

canon_client_nil :
    (addrs : Addresses) (c : Client) → is_empty addrs ≡ true → canon_client addrs c ≡ c
unfolding canon_client canon lookup
canon_client_nil [] c h = refl
canon_client_nil (a ∷ addrs) c h = cc

map-canon_client_nil :
    (addrs : Addresses) (o : Option Client)
    → is_empty addrs ≡ true
    → Option.map (canon_client addrs) o ≡ o
map-canon_client_nil addrs none h = refl
map-canon_client_nil addrs (some c) h = ap some (canon_client_nil addrs c h)

reconcile_clients :
    (mac : String) (g : Graph)
    → HasUniqueMacs g.clients
    → (find_client mac (reconcile g).clients
        ≡ Option.map (canon_client (addr_to_id g.nodes [])) (find_client mac g.clients))
      × HasUniqueMacs (reconcile g).clients
unfolding reconcile
reconcile_clients mac g u = elim (Bool-cases (is_empty (addr_to_id g.nodes []))) [
  | inl e ↦
      rw e (sym (map-canon_client_nil (addr_to_id g.nodes []) (find_client mac g.clients) e), u)
  | inr e ↦ rw e (
    find_client-map (addr_to_id g.nodes []) mac g.clients,
    map-HasUniqueMacs (addr_to_id g.nodes []) g.clients u,
  )
]

first_graph :
    (mac : String) (local : Graph) (rest : List Client)
    → find_client mac (add_clients local.clients [] ++ rest)
      ≡ find_client mac (local.clients ++ rest)
first_graph mac local rest =
    find_client-append mac (add_clients local.clients []) rest
    ∙ ap (λ (o : Option Client). or_first o (find_client mac rest))
        (find_client-add_clients mac local.clients [])
    ∙ sym (find_client-append mac local.clients rest)

-- The merged graph has a client once, as the first graph that has it reports it, with its
-- access point resolved to the id of a node.
pub merge_graphs_clients :
    (local : Graph) (reports : List Graph) (mac : String)
    → (find_client mac (merge_graphs local reports).clients
        ≡ Option.map
            (canon_client (addr_to_id (union_graphs local reports).nodes []))
            (find_client mac (clients_of (local ∷ reports))))
      × HasUniqueMacs (merge_graphs local reports).clients
unfolding merge_graphs union_graphs clients_of add_graph
merge_graphs_clients local reports mac =
    let first = add_graph true local empty_merged in
    let unique =
      add_reports-HasUniqueMacs reports first (add_clients-HasUniqueMacs local.clients [] tt) in
    let (found, all) = reconcile_clients mac (union_graphs local reports) unique in
    let same : find_client mac (union_graphs local reports).clients
        ≡ find_client mac (clients_of (local ∷ reports)) =
      find_client-add_reports mac reports first ∙ first_graph mac local (clients_of reports) in
    (
      found
          ∙ ap (Option.map (canon_client (addr_to_id (union_graphs local reports).nodes []))) same,
      all,
    )
