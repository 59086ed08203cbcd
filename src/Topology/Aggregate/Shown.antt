-- ===== src/Topology/Aggregate/Shown.antt =====
-- The ids that `Merge` shows, by the reports in time and the addresses that the nodes declare.
use omm.Prelude.{
  String, ◌≡◌, refl, ap, ◌∙◌, Bool, true, Bool-cases, Option-cases, inl, inr, none, some, Option,
  List, [], ◌∷◌, ◌==◌, ◌||◌, ◌&&◌, if◌then◌else◌, any_by, arith, eq_refl,
}
use omm.Prelude.Int.{ℤ, pos, ◌-ℤ◌, leb_ℤ}
use omm.Topology.{Node, Graph, InventoryNode}
use omm.Topology.Collect.{has_node}
use omm.Topology.Merge.{Addresses, lookup, declare_all, addr_to_id, canon, union_graphs}
use omm.Topology.Merge.Nodes.{HasUniqueIds, has_node-merge_graphs}
use omm.Topology.Aggregate.{
  Aggregator, Reports, TimedGraph, is_fresh, fresh_of, fresh_graphs, merge,
}
use omm.Topology.Aggregate.Ingest.{report_has, some_has-fresh_graphs}
use omm.Topology.Aggregate.Liveness.{
  IsUniqueInventory, has_inventory, has_node-merge, merge-HasUniqueIds,
}

-- The last of the nodes that declare the address.
unfoldable pub owner : String → List Node → Option String
owner a [] = none
owner a (n ∷ ns) = elim (owner a ns) [
  | some id ↦ some id
  | none ↦ if any_by (λ b. b == a) n.addrs then some n.id else none
]

-- The id is no address, or it is the id of the last node that declares it.
abbrev pub is_own : String → List Node → Bool
is_own id ns = elim (owner id ns) [ none ↦ true | some n ↦ n == id ]

-- A report that does not expire or came within the TTL has the node.
abbrev pub is_reported : ℤ → String → Aggregator → Bool
is_reported now id a =
    any_by
      (λ (e : String × TimedGraph).
        (leb_ℤ a.ttl (pos 0) || leb_ℤ (now -ℤ a.ttl) e.1.at) && has_node id e.1.graph.nodes)
      a.reports

lookup-declare_all :
    (a id : String) (bs : List String) (addrs : Addresses)
    → lookup (declare_all id bs addrs) a
      ≡ (if any_by (λ b. b == a) bs then some id else lookup addrs a)
unfolding lookup declare_all any_by
lookup-declare_all a id [] addrs = refl
lookup-declare_all a id (b ∷ bs) addrs =
    ground (arith, lookup-declare_all a id bs ((b, id) ∷ addrs))

lookup-addr_to_id :
    (a : String) (ns : List Node) (addrs : Addresses)
    → lookup (addr_to_id ns addrs) a
      ≡ elim (owner a ns) [ none ↦ lookup addrs a | some id ↦ some id ]
unfolding addr_to_id owner
lookup-addr_to_id a [] addrs = refl
lookup-addr_to_id a (n ∷ ns) addrs =
    lookup-addr_to_id a ns (declare_all n.id n.addrs addrs) ∙ elim (Option-cases (owner a ns)) [
      | inl e ↦ rw e (
          lookup-declare_all a n.id n.addrs addrs
          ∙ elim (Bool-cases (any_by (λ b. b == a) n.addrs)) [
            | inl f ↦ rw f refl
            | inr f ↦ rw f refl
          ])
      | inr (id, e) ↦ rw e refl
    ]

abbrev pick : String → Option String → String
pick id none = id
pick id (some real) = real

lookup-owner : (id : String) (ns : List Node) → lookup (addr_to_id ns []) id ≡ owner id ns
lookup-owner id ns = lookup-addr_to_id id ns [] ∙ elim (Option-cases (owner id ns)) [
  | inl e ↦ rw e (unfold lookup in refl)
  | inr (n, e) ↦ rw e refl
]

canon-pick : (addrs : Addresses) (id : String) → canon addrs id ≡ pick id (lookup addrs id)
unfolding canon
canon-pick addrs id = refl

-- What `is_own` asks of the owner.
abbrev own_of : String → Option String → Bool
own_of id o = elim o [ none ↦ true | some n ↦ n == id ]

pick-own_of : (id : String) (o : Option String) → (pick id o == id) ≡ own_of id o
pick-own_of id none = eq_refl id
pick-own_of id (some n) = refl

canon-is_own : (id : String) (ns : List Node) → (canon (addr_to_id ns []) id == id) ≡ is_own id ns
canon-is_own id ns =
    ap (λ x. x == id) (canon-pick (addr_to_id ns []) id ∙ ap (pick id) (lookup-owner id ns))
    ∙ pick-own_of id (owner id ns)

any_by-fresh_of :
    (now : ℤ) (a : Aggregator) (id : String) (rs : Reports)
    → any_by (report_has id) (fresh_of now a rs)
      ≡ any_by
          (λ (e : String × TimedGraph).
            (leb_ℤ a.ttl (pos 0) || leb_ℤ (now -ℤ a.ttl) e.1.at) && has_node id e.1.graph.nodes)
          rs
unfolding any_by fresh_of is_fresh
any_by-fresh_of now a id [] = refl
any_by-fresh_of now a id ((k, tg) ∷ rs) =
    let rest = any_by-fresh_of now a id rs in
    elim (Bool-cases (leb_ℤ a.ttl (pos 0) || leb_ℤ (now -ℤ a.ttl) tg.at)) [
      | inl e ↦ rw e (rw rest refl)
      | inr e ↦ rw e (rw rest refl)
    ]

module _ (now : ℤ) (local : Graph) (inventory : List InventoryNode) (a : Aggregator) where
  -- If no id stands twice in the inventory, no id stands at two nodes of what Merge returns,
  -- and the ids there are those of the inventory, and those of the local graph and of the
  -- reports that do not expire or came within the TTL, but for each id that the merged nodes
  -- declare as an address and that is not the id of the last node to declare it.
  pub merge_shows :
      IsUniqueInventory inventory
      → HasUniqueIds (merge now local inventory a).nodes
        × ((id : String)
            → has_node id (merge now local inventory a).nodes ≡ (
                ((has_node id local.nodes || is_reported now id a)
                  && is_own id (union_graphs local (fresh_graphs now a)).nodes)
                || has_inventory id inventory))
  merge_shows h = (
    merge-HasUniqueIds now local inventory a h,
    λ id. ground (
      arith,
      has_node-merge now local inventory a id,
      has_node-merge_graphs id local (fresh_graphs now a),
      some_has-fresh_graphs id now a ∙ any_by-fresh_of now a id a.reports,
      canon-is_own id (union_graphs local (fresh_graphs now a)).nodes,
    ),
  )
