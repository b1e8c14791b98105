-- ===== src/Ingest/Spanning.antt =====
-- `build_spanning_tree`: the breadth-first search from the firewalls of each network. A set is a list
-- to whose front what is not in it is added.
use topology_maps.Prelude.{
  ℕ, zero, suc, ◌+◌, Bool, false, ◌&&◌, ◌||◌, List, [], ◌∷◌, ◌++◌, length, if◌then◌else◌,
}
use topology_maps.Text.{Text, codes, text_eq, elem}
use topology_maps.Dict.{Dict, has, put, get_or, sorted}
use topology_maps.Ingest.Graph.{Node, Edge, or_empty}

abbrev pub firewall : Text
firewall = codes "firewall"

abbrev pub access_point : Text
access_point = codes "access_point"

abbrev pub switch_types : List Text
switch_types = codes "floor_switch" ∷ codes "core_switch" ∷ []

abbrev pub device_types : List Text
device_types = firewall ∷ codes "floor_switch" ∷ codes "core_switch" ∷ access_point ∷ []

abbrev pub Networks : Type 0
Networks = Dict (Dict Node)

-- by_network, for the types that the tree spans
unfoldable pub by_network : List Text → List Node → Networks → Networks
unfolding elem get_or put or_empty
by_network types [] nets = nets
by_network types (n ∷ ns) nets = by_network types ns (
    let net_id = or_empty n.network_id in
    if elem n.node_type types then put net_id (put n.id n (get_or net_id [] nets)) nets else nets)

-- s.add(t)
unfoldable pub add : Text → List Text → List Text
unfolding elem
add t s = if elem t s then s else t ∷ s

abbrev pub Adjacency : Type 0
Adjacency = Dict (Dict (List Text))

-- adj[net_id][serial]
unfoldable pub neighbours : Adjacency → Text → Text → List Text
unfolding get_or
neighbours adj net_id serial = get_or serial [] (get_or net_id [] adj)

-- adj[net_id][a].add(b)
unfoldable pub add_neighbour : Text → Text → Text → Adjacency → Adjacency
unfolding neighbours get_or put add
add_neighbour net_id a b adj =
    put net_id (put a (add b (neighbours adj net_id a)) (get_or net_id [] adj)) adj

-- The loop over the networks for one edge.
unfoldable pub link_edge : Networks → Edge → Adjacency → Adjacency
unfolding has add_neighbour
link_edge [] e adj = adj
link_edge ((net_id, nodes) ∷ nets) e adj = link_edge nets e (
    if has e.source nodes && has e.target nodes
    then add_neighbour net_id e.target e.source (add_neighbour net_id e.source e.target adj)
    else adj)

unfoldable pub link_edges : Networks → List Edge → Adjacency → Adjacency
unfolding link_edge
link_edges nets [] adj = adj
link_edges nets (e ∷ es) adj = link_edges nets es (link_edge nets e adj)

unfoldable pub firewalls : Dict Node → List Text
unfolding text_eq
firewalls [] = []
firewalls ((id, n) ∷ d) = if text_eq n.node_type firewall then id ∷ firewalls d else firewalls d

pub record Search : Type 0 where
  pub queue : List Text
  pub visited : List Text
  pub contains_pairs : List (Text × Text)

-- The loop over the neighbours of `current`.
unfoldable pub visit : Text → List Text → Search → Search
unfolding elem
visit current [] s = s
visit current (t ∷ ts) s = visit current ts (
    if elem t s.visited then s else record {
      queue = s.queue ++ t ∷ [];
      visited = t ∷ s.visited;
      contains_pairs = (current, t) ∷ s.contains_pairs;
    })

-- `while queue`, on fuel.
unfoldable pub search_loop : (Text → List Text) → ℕ → Search → Search
unfolding visit sorted
search_loop near zero s = s
search_loop near (suc fuel) s = elim s.queue [
  | [] ↦ s
  | current ∷ rest ↦
      search_loop near fuel (visit current (sorted (near current)) (record s { queue = rest }))
]

unfoldable pub start : List Text → Search
start roots = record { queue = roots; visited = roots; contains_pairs = [] }

-- Each node is queued once, and is a firewall or stands at an end of an edge.
unfoldable pub search_fuel : List Edge → Dict Node → ℕ
unfolding firewalls
search_fuel edges nodes = length edges + (length edges + length (firewalls nodes))

unfoldable pub search_network : List Edge → Adjacency → Text → Dict Node → Search
unfolding search_loop neighbours start firewalls search_fuel
search_network edges adj net_id nodes =
    search_loop (neighbours adj net_id) (search_fuel edges nodes) (start (firewalls nodes))

-- p in s
unfoldable pub has_pair : Text → Text → List (Text × Text) → Bool
unfolding text_eq
has_pair a b [] = false
has_pair a b ((c, d) ∷ s) = (text_eq c a && text_eq d b) || has_pair a b s

-- s.add(p) for each p
unfoldable pub add_pairs : List (Text × Text) → List (Text × Text) → List (Text × Text)
unfolding has_pair
add_pairs [] s = s
add_pairs ((a, b) ∷ ps) s = add_pairs ps (if has_pair a b s then s else (a, b) ∷ s)

unfoldable pub search_networks :
    List Edge → Adjacency → Networks → List (Text × Text) → List (Text × Text)
unfolding search_network add_pairs
search_networks edges adj [] s = s
search_networks edges adj ((net_id, nodes) ∷ nets) s =
    search_networks edges adj nets
      (add_pairs (search_network edges adj net_id nodes).contains_pairs s)

unfoldable pub spanning_types : Bool → List Text
spanning_types include_aps = if include_aps then device_types else firewall ∷ switch_types

unfoldable pub build_spanning_tree : List Node → List Edge → Bool → List (Text × Text)
unfolding by_network link_edges search_networks spanning_types
build_spanning_tree nodes edges include_aps =
    let nets = by_network (spanning_types include_aps) nodes [] in
    search_networks edges (link_edges nets edges []) nets []
