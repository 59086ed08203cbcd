-- ===== src/Topology/Aggregate/Ingest.antt =====
-- A report that a node pushed is in what `Merge` shows.
use omm.Prelude.{
  String, ◌≡◌, refl, ◌∙◌, Bool, true, inl, inr, ◌⊎◌, List, [], ◌∷◌, map, any_by, arith, eq_iff,
}
use omm.Prelude.Int.{ℤ, pos, ◌≤ℤ◌, ◌-ℤ◌}
use omm.Prelude.Sort.{stable_sort, any_by-stable_sort}
use omm.Topology.{Graph, InventoryNode}
use omm.Topology.Collect.{has_node}
use omm.Topology.Merge.Nodes.{some_has, resolve, has_node-merge_graphs}
use omm.Topology.Aggregate.{
  Aggregator, Reports, TimedGraph, put_report, ingest, is_fresh, fresh_of, fresh_graphs, newer,
  merge,
}
use omm.Topology.Aggregate.Liveness.{has_node-merge}

abbrev pub report_has : String → String × TimedGraph → Bool
report_has id e = has_node id e.1.graph.nodes

some_has-map :
    (id : String) (rs : Reports)
    → some_has id (map (λ (e : String × TimedGraph). e.1.graph) rs) ≡ any_by (report_has id) rs
unfolding any_by
some_has-map id [] = refl
some_has-map id (r ∷ rs) = ground (arith, some_has-map id rs)

-- A fresh report is still fresh among the others.
fresh_of-put_report :
    (now : ℤ) (a : Aggregator) (id k : String) (tg : TimedGraph) (rs : Reports)
    → is_fresh now a tg ≡ true
    → has_node id tg.graph.nodes ≡ true
    → any_by (report_has id) (fresh_of now a (put_report k tg rs)) ≡ true
unfolding any_by fresh_of put_report
fresh_of-put_report now a id k tg [] fresh has = rw (fresh, has) refl
fresh_of-put_report now a id k tg ((j, x) ∷ rs) fresh has =
    ground (arith, fresh_of-put_report now a id k tg rs fresh has)

pub some_has-fresh_graphs :
    (id : String) (now : ℤ) (a : Aggregator)
    → some_has id (fresh_graphs now a) ≡ any_by (report_has id) (fresh_of now a a.reports)
unfolding fresh_graphs
some_has-fresh_graphs id now a =
    some_has-map id (stable_sort newer (fresh_of now a a.reports))
    ∙ any_by-stable_sort newer (report_has id) (fresh_of now a a.reports)

fresh_by_time :
    (now : ℤ) (a : Aggregator) (tg : TimedGraph)
    → (a.ttl ≤ℤ pos 0) ⊎ (now -ℤ a.ttl ≤ℤ tg.at)
    → is_fresh now a tg ≡ true
unfolding is_fresh
fresh_by_time now a tg (inl h) = ground (arith, h)
fresh_by_time now a tg (inr h) = ground (arith, h)

-- After a node pushed a report, Merge shows each node of it whose id resolves to itself, if
-- reports do not expire or the report came within the freshness window.
pub merge-ingest :
    (now at : ℤ) (local : Graph) (inventory : List InventoryNode) (a : Aggregator)
    → (node_id : String) (g : Graph) (id : String) → (a.ttl ≤ℤ pos 0) ⊎ (now -ℤ a.ttl ≤ℤ at)
    → has_node id g.nodes ≡ true
    → resolve local (fresh_graphs now (ingest node_id g at a)) id ≡ id
    → has_node id (merge now local inventory (ingest node_id g at a)).nodes ≡ true
unfolding ingest
merge-ingest now at local inventory a node_id g id fresh has own =
    let a' = ingest node_id g at a in
    let tg : TimedGraph = record { graph = g; at = at } in
    let some' =
      some_has-fresh_graphs id now a'
      ∙ fresh_of-put_report now a' id node_id tg a.reports (fresh_by_time now a' tg fresh) has in
    ground (
      arith,
      has_node-merge now local inventory a' id,
      has_node-merge_graphs id local (fresh_graphs now a'),
      some',
      (eq_iff (resolve local (fresh_graphs now a') id) id).1 own,
    )
