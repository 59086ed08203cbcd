-- ===== src/Topology/Aggregate/Liveness.antt =====
-- Which nodes `Merge` shows, and with which status.
use omm.Prelude.{
  String, ◌≡◌, refl, ◌∙◌, Bool, true, false, Bool-cases, inl, inr, ◌⊎◌, none, some, Option, List,
  [], ◌∷◌, ◌++◌, map, ◌==◌, ◌||◌, ◌&&◌, not, if◌then◌else◌, arith, eq_iff, eq_refl,
}
use omm.Prelude.Int.{ℤ, ◌≤ℤ◌, ◌<ℤ◌, ◌-ℤ◌, leb_ℤ}
use omm.Topology.{Node, Graph, InventoryNode, status_alive, status_stale, status_down}
use omm.Topology.Collect.{has_node}
use omm.Topology.Merge.{merge_graphs}
use omm.Topology.Merge.Nodes.{HasUniqueIds, merge_graphs-HasUniqueIds}
use omm.Topology.Aggregate.{
  Aggregator, Reports, mark_alive, silent_node, silent_nodes, fresh_graphs, merge, reported_at,
  last_heard, newer_of,
}

-- The inventory has the id.
unfoldable pub has_inventory : String → List InventoryNode → Bool
has_inventory id [] = false
has_inventory id (inv ∷ invs) = (inv.id == id) || has_inventory id invs

-- No id stands in the inventory twice.
abbrev pub IsUniqueInventory : List InventoryNode → Type 0
IsUniqueInventory [] = Unit
IsUniqueInventory (inv ∷ invs) = (has_inventory inv.id invs ≡ false) × IsUniqueInventory invs

has_node-append :
    (id : String) (ns ms : List Node) → has_node id (ns ++ ms) ≡ (has_node id ns || has_node id ms)
unfolding has_node
has_node-append id [] ms = refl
has_node-append id (n ∷ ns) ms = ground (arith, has_node-append id ns ms)

has_node-map-mark_alive :
    (now : ℤ) (rs : Reports) (id : String) (ns : List Node)
    → has_node id (map (mark_alive now rs) ns) ≡ has_node id ns
unfolding has_node mark_alive
has_node-map-mark_alive now rs id [] = refl
has_node-map-mark_alive now rs id (n ∷ ns) = ground (arith, has_node-map-mark_alive now rs id ns)

map-mark_alive-HasUniqueIds :
    (now : ℤ) (rs : Reports) (ns : List Node)
    → HasUniqueIds ns
    → HasUniqueIds (map (mark_alive now rs) ns)
unfolding mark_alive
map-mark_alive-HasUniqueIds now rs [] h = tt
map-mark_alive-HasUniqueIds now rs (n ∷ ns) h = (
  ground (arith, has_node-map-mark_alive now rs n.id ns, h.0),
  map-mark_alive-HasUniqueIds now rs ns h.1,
)

has_node-silent_nodes :
    (now : ℤ) (a : Aggregator) (alive : List Node) (id : String) (invs : List InventoryNode)
    → has_node id (silent_nodes now a alive invs)
      ≡ (has_inventory id invs && not (has_node id alive))
unfolding silent_nodes silent_node has_inventory has_node
has_node-silent_nodes now a alive id [] = refl
has_node-silent_nodes now a alive id (inv ∷ invs) =
    ground (arith, has_node-silent_nodes now a alive id invs, eq_iff inv.id id)

silent_nodes-HasUniqueIds :
    (now : ℤ) (a : Aggregator) (alive : List Node) (invs : List InventoryNode)
    → IsUniqueInventory invs
    → HasUniqueIds (silent_nodes now a alive invs)
unfolding silent_nodes silent_node
silent_nodes-HasUniqueIds now a alive [] h = tt
silent_nodes-HasUniqueIds now a alive (inv ∷ invs) h = elim (Bool-cases (has_node inv.id alive)) [
  | inl e ↦ rw e (silent_nodes-HasUniqueIds now a alive invs h.1)
  | inr e ↦ rw e (
    ground (arith, has_node-silent_nodes now a alive inv.id invs, h.0),
    silent_nodes-HasUniqueIds now a alive invs h.1,
  )
]

append-HasUniqueIds :
    (ns ms : List Node)
    → HasUniqueIds ns
    → HasUniqueIds ms
    → ((id : String) → has_node id ns ≡ true → has_node id ms ≡ false)
    → HasUniqueIds (ns ++ ms)
unfolding has_node
append-HasUniqueIds [] ms hn hm apart = hm
append-HasUniqueIds (n ∷ ns) ms hn hm apart = (
  ground (arith, has_node-append n.id ns ms, hn.0, apart n.id, eq_refl n.id),
  append-HasUniqueIds ns ms hn.1 hm (λ id h. ground (arith, apart id, h)),
)

module _ (now : ℤ) (local : Graph) (inventory : List InventoryNode) (a : Aggregator) where
  abbrev pub living : List Node
  living = (merge_graphs local (fresh_graphs now a)).nodes

  pub has_node-merge :
      (id : String)
      → has_node id (merge now local inventory a).nodes
        ≡ (has_node id living || has_inventory id inventory)
  unfolding merge
  has_node-merge id = ground (
    arith,
    has_node-append id (map (mark_alive now a.reports) living)
        (silent_nodes now a living inventory),
    has_node-map-mark_alive now a.reports id living,
    has_node-silent_nodes now a living id inventory,
  )

  pub merge-HasUniqueIds :
      IsUniqueInventory inventory → HasUniqueIds (merge now local inventory a).nodes
  unfolding merge
  merge-HasUniqueIds h =
      append-HasUniqueIds _ _
        (map-mark_alive-HasUniqueIds now a.reports living
          (merge_graphs-HasUniqueIds local (fresh_graphs now a)))
        (silent_nodes-HasUniqueIds now a living inventory h)
        (λ id e. ground (
          arith,
          e,
          has_node-map-mark_alive now a.reports id living,
          has_node-silent_nodes now a living id inventory,
        ))

unfoldable pub find_node : String → List Node → Option Node
find_node id [] = none
find_node id (n ∷ ns) = if n.id == id then some n else find_node id ns

unfoldable pub find_inventory : String → List InventoryNode → Option InventoryNode
find_inventory id [] = none
find_inventory id (inv ∷ invs) = if inv.id == id then some inv else find_inventory id invs

find_node-append :
    (id : String) (ns ms : List Node)
    → has_node id ns ≡ false
    → find_node id (ns ++ ms) ≡ find_node id ms
unfolding find_node has_node
find_node-append id [] ms h = refl
find_node-append id (n ∷ ns) ms h = ground (arith, find_node-append id ns ms, h)

-- What the graph says of a node that the merge found alive.
find_node-alive :
    (now : ℤ) (rs : Reports) (id : String) (ns ms : List Node)
    → has_node id ns ≡ true
    → (n : Node) × (find_node id (map (mark_alive now rs) ns ++ ms) ≡ some n)
      × (n.status ≡ status_alive)
unfolding find_node has_node mark_alive
find_node-alive now rs id [] ms h = cc
find_node-alive now rs id (n ∷ ns) ms h = elim (Bool-cases (n.id == id)) [
  | inl e ↦ (mark_alive now rs n, rw e refl, refl)
  | inr e ↦
      let (m, at, alive) = find_node-alive now rs id ns ms (ground (arith, h, e)) in
      (m, rw e at, alive)
]

find_node-silent :
    (now : ℤ) (a : Aggregator) (alive : List Node) (inv : InventoryNode) (invs : List InventoryNode)
    → has_node inv.id alive ≡ false
    → find_inventory inv.id invs ≡ some inv
    → find_node inv.id (silent_nodes now a alive invs) ≡ some (silent_node now a inv)
unfolding find_node find_inventory silent_nodes silent_node
find_node-silent now a alive inv [] h at = cc
find_node-silent now a alive inv (x ∷ xs) h at = elim (Bool-cases (x.id == inv.id)) [
  | inl e ↦ let same : x ≡ inv = ground (arith, at, e) in rw (same, h) (rw (eq_refl inv.id) refl)
  | inr e ↦
      let rest = find_node-silent now a alive inv xs h (rw e at at) in
      elim (Bool-cases (has_node x.id alive)) [ inl l ↦ rw l rest | inr l ↦ rw l (rw e rest) ]
]

-- What `Merge` knows of a node that it did not find alive.
abbrev pub IsSilent : ℤ → Aggregator → InventoryNode → Node → Type 0
IsSilent now a inv n =
    (((n.status ≡ status_stale) × (now -ℤ a.stale_ttl ≤ℤ n.last_seen))
      ⊎ ((n.status ≡ status_down) × (n.last_seen <ℤ now -ℤ a.stale_ttl)))
    × (inv.last_seen ≤ℤ n.last_seen)
    × ((at : ℤ) → reported_at inv.id a.reports ≡ some at → at ≤ℤ n.last_seen)

newer_of_newest :
    (o : Option ℤ) (seen : ℤ)
    → (seen ≤ℤ newer_of o seen) × ((at : ℤ) → o ≡ some at → at ≤ℤ newer_of o seen)
unfolding newer_of
newer_of_newest none seen = (omega arith, λ at h. cc)
newer_of_newest (some x) seen = (ground arith, λ at h. ground (arith, h))

silent_node-IsSilent :
    (now : ℤ) (a : Aggregator) (inv : InventoryNode) → IsSilent now a inv (silent_node now a inv)
unfolding silent_node last_heard
silent_node-IsSilent now a inv =
    let last = last_heard a.reports inv in
    let newest = newer_of_newest (reported_at inv.id a.reports) inv.last_seen in
    (
      elim (Bool-cases (leb_ℤ (now -ℤ a.stale_ttl) last)) [
        | inl e ↦ inl (rw e refl, ground arith)
        | inr e ↦ inr (rw e refl, ground arith)
      ],
      newest.0,
      newest.1,
    )

module _ (now : ℤ) (local : Graph) (inventory : List InventoryNode) (a : Aggregator) where
  -- Each record that the inventory finds by its id is shown: as alive if the merged graphs
  -- have the id; else as stale if the node was last heard of within the stale window and as
  -- down if not, and last heard is no earlier than the record and the last report.
  pub merge_status :
      (inv : InventoryNode)
      → find_inventory inv.id inventory ≡ some inv
      → (n : Node) × (find_node inv.id (merge now local inventory a).nodes ≡ some n)
        × (((has_node inv.id (living now local inventory a) ≡ true) × (n.status ≡ status_alive))
            ⊎ ((has_node inv.id (living now local inventory a) ≡ false) × IsSilent now a inv n))
  unfolding merge
  merge_status inv at = elim (Bool-cases (has_node inv.id (living now local inventory a))) [
    | inl e ↦
        let (n, found, alive) =
          find_node-alive now a.reports inv.id (living now local inventory a) _ e in
        (n, found, inl (e, alive))
    | inr e ↦ (
      silent_node now a inv,
      find_node-append inv.id (map (mark_alive now a.reports) (living now local inventory a)) _
            (has_node-map-mark_alive now a.reports inv.id _ ∙ e)
          ∙ find_node-silent now a (living now local inventory a) inv inventory e at,
      inr (e, silent_node-IsSilent now a inv),
    )
  ]
