-- ===== src/Ingest/Tests.antt =====
-- Runs of nr_ingest/create_relationships.py on a small site.
use topology_maps.Prelude.{
  ◌≡◌, refl, ◌↔◌, inl, inr, true, false, not, none, some, List, [], ◌∷◌, ◌++◌, In,
}
use topology_maps.Text.{Text, codes}
use topology_maps.Dict.{Dict}
use topology_maps.Ingest.{Entity, build_lookup_maps}
use topology_maps.Ingest.Graph.{Node, Edge, Rel, contains, connects_to, Lookups, Snapshot}
use topology_maps.Ingest.Spanning.{
  Networks, build_spanning_tree, link_edges, search_network, firewall,
}
use topology_maps.Ingest.Tree.{Uplinked, search_network-visited, Spans, build_spanning_tree-Spans}
use topology_maps.Ingest.Generate.{generate_relationships, device_links}
use topology_maps.Ingest.Wiring.{IsWiring, device_links-IsWiring}
use topology_maps.Ingest.Send.{NerdGraph, code, raised, rebuild, main}
use topology_maps.Ingest.Rebuild.{Answers, Runs, delete_plan, create_plan, deletions, rebuild-Runs}
use topology_maps.Ingest.Ports.{LacksPort, rebuild-LacksPort}

abbrev node : Text → Text → Node
node id type = record {
  id = id;
  name = some id;
  node_type = type;
  network_id = some (codes "N1");
  connected_ap = none;
}

abbrev edge : Text → Text → Edge
edge a b = record { source = a; target = b; source_port = some (codes "Port 7") }

abbrev nodes : List Node
nodes =
    node (codes "F") firewall
    ∷ node (codes "A") (codes "floor_switch")
    ∷ node (codes "B") (codes "core_switch")
    ∷ []

-- A triangle: A and B stand below F, and the link between them is lateral.
abbrev edges : List Edge
edges =
    edge (codes "A") (codes "B") ∷ edge (codes "B") (codes "F") ∷ edge (codes "F") (codes "A") ∷ []

build_spanning_tree_runs :
    build_spanning_tree nodes edges false ≡ (codes "F", codes "A") ∷ (codes "F", codes "B") ∷ []
unfolding build_spanning_tree
build_spanning_tree_runs = refl

abbrev entity : Text → Text → Entity
entity guid serial = record {
  guid = guid;
  name = serial;
  tags = record { key = codes "serial"; values = serial ∷ [] } ∷ [];
}

abbrev site : Entity
site = record {
  guid = codes "gS";
  name = codes "Site";
  tags = record { key = codes "network_id"; values = codes "N1" ∷ [] } ∷ [];
}

abbrev maps : Lookups
maps = record {
  guid_by_name =
      (codes "Site", codes "gS")
      ∷ (codes "F", codes "gF")
      ∷ (codes "A", codes "gA")
      ∷ (codes "B", codes "gB")
      ∷ [];
  guid_by_serial = (codes "F", codes "gF") ∷ (codes "A", codes "gA") ∷ (codes "B", codes "gB") ∷ [];
  site_guid_by_network_id = (codes "N1", codes "gS") ∷ [];
}

build_lookup_maps_runs :
    build_lookup_maps (
      site
      ∷ entity (codes "gF") (codes "F")
      ∷ entity (codes "gA") (codes "A")
      ∷ entity (codes "gB") (codes "B")
      ∷ [])
    ≡ maps
unfolding build_lookup_maps
build_lookup_maps_runs = refl

abbrev snapshot : List Node → List Edge → Snapshot
snapshot ns es = record {
  nodes = ns;
  edges = es;
  subnets = [];
  device_details = [];
  networks = (codes "N1", some (codes "Site")) ∷ [];
}

abbrev rel : Text → Text → Rel
rel a b = record { source_guid = a; target_guid = b; rel_type = contains }

generate_relationships_runs :
    generate_relationships (snapshot nodes edges) maps true
    ≡ some (
        rel (codes "gS") (codes "gF")
        ∷ record { source_guid = codes "gA"; target_guid = codes "gB"; rel_type = connects_to }
        ∷ rel (codes "gF") (codes "gB")
        ∷ rel (codes "gF") (codes "gA")
        ∷ [])
unfolding generate_relationships
generate_relationships_runs = refl

abbrev api : NerdGraph
api = record { answer = λ n t. some (λ i. []) }

-- Two deletions of switches at the site, one of three links, and one creation.
main_runs : (main api (some (codes "key")) [] (snapshot nodes edges) maps []).0 ≡ code 0
unfolding main
main_runs = refl

main_without_key : main api none [] (snapshot nodes edges) maps [] ≡ (code 1, [])
unfolding main
main_without_key = refl

main_without_site :
    main api (some (codes "key")) (codes "--site" ∷ []) (snapshot nodes edges) maps []
    ≡ (code 1, [])
unfolding main
main_without_site = refl

-- An access point whose link has no source port.
abbrev ap_node : Node
ap_node = node (codes "W") (codes "access_point")

abbrev ap_edge : Edge
ap_edge = record { source = codes "A"; target = codes "W"; source_port = none }

abbrev broken : Snapshot
broken = snapshot (nodes ++ ap_node ∷ []) (ap_edge ∷ edges)

ap_edge-LacksPort : LacksPort broken ap_edge ap_node
ap_edge-LacksPort = record {
  linked = inl refl;
  listed = inr (inr (inr (inl refl)));
  is_ap = refl;
  target = refl;
  no_port = refl;
}

api-Answers : Answers api
api-Answers n t e = cc (e)

rebuild-LacksPort_example :
    rebuild api broken maps false [] ≡ (raised, [] ++ delete_plan (deletions broken maps false))
rebuild-LacksPort_example =
    rebuild-LacksPort api broken maps false [] ap_edge ap_node api-Answers ap_edge-LacksPort

rebuild-Runs_example :
    Runs api
      (delete_plan (deletions (snapshot nodes edges) maps true)
        ++ create_plan (generate_relationships (snapshot nodes edges) maps (not true)))
      []
      (rebuild api (snapshot nodes edges) maps true [])
rebuild-Runs_example = rebuild-Runs api (snapshot nodes edges) maps true []

device_links-IsWiring_example :
    IsWiring maps []
      ((codes "F", codes "B") ∷ [])
      edges
      (device_links maps [] ((codes "F", codes "B") ∷ []) [] edges)
device_links-IsWiring_example = device_links-IsWiring maps [] ((codes "F", codes "B") ∷ []) edges

build_spanning_tree-Spans_example : Spans nodes edges false (build_spanning_tree nodes edges false)
build_spanning_tree-Spans_example = build_spanning_tree-Spans nodes edges false

abbrev nets : Networks
nets =
    (
      codes "N1",
      (codes "F", node (codes "F") firewall)
          ∷ (codes "A", node (codes "A") (codes "floor_switch"))
          ∷ [],
    )
    ∷ []

abbrev net_nodes : Dict Node
net_nodes =
    (codes "F", node (codes "F") firewall)
    ∷ (codes "A", node (codes "A") (codes "floor_switch"))
    ∷ []

search_network-visited_example :
    ((search_network edges (link_edges nets edges []) (codes "N1") net_nodes).queue ≡ [])
    × ((t : Text)
        → In t (search_network edges (link_edges nets edges []) (codes "N1") net_nodes).visited
          ↔ Uplinked nets edges (codes "N1") net_nodes t)
search_network-visited_example = search_network-visited nets edges (codes "N1") net_nodes
