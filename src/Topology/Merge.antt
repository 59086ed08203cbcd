-- ===== src/Topology/Merge.antt =====
-- `mergeGraphs` and `reconcile` of internal/topology/aggregator.go. A Go map is the list of its
-- entries in the order of insertion.
pub mod Nodes
pub mod Table
pub mod Links
pub mod Clients
use omm.Prelude.{
  String, Bool, true, false, not, Option, none, some, List, [], ◌∷◌, ◌++◌, map, ◌==◌, ◌&&◌, ◌||◌,
  if◌then◌else◌, is_empty,
}
use omm.Prelude.Int.{ltb_ℤ}
use omm.Prelude.Sort.{stable_sort}
use omm.Topology.{Node, Link, Client, Graph, role_self, role_node}
use omm.Topology.Key.{pair_key, string_less}

-- A node that is in the graph already takes the backhaul and the mesh mode that it lacks.
unfoldable pub enrich : Node → Node → Node
enrich n m = record m {
  backhaul = if (m.backhaul == "") && not (n.backhaul == "") then n.backhaul else m.backhaul;
  mesh_mode = if (m.mesh_mode == "") && not (n.mesh_mode == "") then n.mesh_mode else m.mesh_mode;
}

-- Only the local graph, the first, has a node that is "self".
unfoldable pub demote : Bool → Node → Node
demote local n = if not local && (n.role == role_self) then record n { role = role_node } else n

unfoldable pub add_node : Bool → Node → List Node → List Node
unfolding enrich demote
add_node local n [] = demote local n ∷ []
add_node local n (m ∷ ms) =
    let rest = add_node local n ms in if m.id == n.id then enrich n m ∷ ms else m ∷ rest

unfoldable pub add_nodes : Bool → List Node → List Node → List Node
unfolding add_node
add_nodes local [] out = out
add_nodes local (n ∷ ns) out = add_nodes local ns (add_node local n out)

-- The links by key: the strongest of each directed pair, the earlier of equals.
abbrev pub Table : Type 0
Table = List (String × Link)

abbrev pub key_of : Link → String
key_of l = pair_key l.source l.target

unfoldable pub put_link : Link → Table → Table
put_link l [] = (key_of l, l) ∷ []
put_link l ((k, ex) ∷ t) =
    let rest = put_link l t in
    if k == key_of l then (k, if ltb_ℤ ex.tq l.tq then l else ex) ∷ t else (k, ex) ∷ rest

unfoldable pub put_links : List Link → Table → Table
unfolding put_link
put_links [] t = t
put_links (l ∷ ls) t = put_links ls (put_link l t)

-- The links of the table by their sorted keys.
unfoldable pub sorted_links : Table → List Link
sorted_links t = map (λ (e : String × Link). e.1) (stable_sort (λ a b. string_less a.0 b.0) t)

unfoldable pub has_client : String → List Client → Bool
has_client mac [] = false
has_client mac (c ∷ cs) = (c.mac == mac) || has_client mac cs

unfoldable pub add_clients : List Client → List Client → List Client
unfolding has_client
add_clients [] out = out
add_clients (c ∷ cs) out = add_clients cs (if has_client c.mac out then out else out ++ c ∷ [])

pub record Merged : Type 0 where
  pub nodes : List Node
  pub links : Table
  pub clients : List Client

unfoldable pub add_graph : Bool → Graph → Merged → Merged
unfolding add_nodes put_links add_clients
add_graph local g m = record {
  nodes = add_nodes local g.nodes m.nodes;
  links = put_links g.links m.links;
  clients = add_clients g.clients m.clients;
}

unfoldable pub add_reports : List Graph → Merged → Merged
unfolding add_graph
add_reports [] m = m
add_reports (g ∷ gs) m = add_reports gs (add_graph false g m)

-- `addrToID`: the node that declared the address last.
abbrev pub Addresses : Type 0
Addresses = List (String × String)

unfoldable pub declare_all : String → List String → Addresses → Addresses
declare_all id [] addrs = addrs
declare_all id (a ∷ as') addrs = declare_all id as' ((a, id) ∷ addrs)

unfoldable pub addr_to_id : List Node → Addresses → Addresses
unfolding declare_all
addr_to_id [] addrs = addrs
addr_to_id (n ∷ ns) addrs = addr_to_id ns (declare_all n.id n.addrs addrs)

unfoldable pub lookup : Addresses → String → Option String
lookup [] a = none
lookup ((b, id) ∷ t) a = if b == a then some id else lookup t a

unfoldable pub canon : Addresses → String → String
unfolding lookup
canon addrs id = elim (lookup addrs id) [ none ↦ id | some real ↦ real ]

unfoldable pub canon_link : Addresses → Link → Link
unfolding canon
canon_link addrs l = record l { source = canon addrs l.source; target = canon addrs l.target }

-- The links between canonical ids, without those from a node to itself.
unfoldable pub rewrite_links : Addresses → List Link → Table → Table
unfolding canon_link put_link
rewrite_links addrs [] t = t
rewrite_links addrs (l ∷ ls) t =
    let l' = canon_link addrs l in
    rewrite_links addrs ls (if l'.source == l'.target then t else put_link l' t)

unfoldable pub drop_aliases : Addresses → List Node → List Node
unfolding canon
drop_aliases addrs [] = []
drop_aliases addrs (n ∷ ns) =
    let rest = drop_aliases addrs ns in if canon addrs n.id == n.id then n ∷ rest else rest

unfoldable pub canon_client : Addresses → Client → Client
unfolding canon
canon_client addrs c = record c { ap = canon addrs c.ap }

unfoldable pub reconcile : Graph → Graph
unfolding addr_to_id drop_aliases rewrite_links sorted_links canon_client
reconcile g =
    let addrs = addr_to_id g.nodes [] in
    if is_empty addrs then g else record {
      nodes = drop_aliases addrs g.nodes;
      links = sorted_links (rewrite_links addrs g.links []);
      clients = map (canon_client addrs) g.clients;
    }

abbrev pub empty_merged : Merged
empty_merged = record { nodes = []; links = []; clients = [] }

-- The local graph and the reports, before the addresses are resolved.
unfoldable pub union_graphs : Graph → List Graph → Graph
unfolding add_reports sorted_links
union_graphs local reports =
    let m = add_reports reports (add_graph true local empty_merged) in
    record { nodes = m.nodes; links = sorted_links m.links; clients = m.clients }

-- `mergeGraphs`, whose first graph is the local one.
unfoldable pub merge_graphs : Graph → List Graph → Graph
unfolding union_graphs reconcile
merge_graphs local reports = reconcile (union_graphs local reports)
