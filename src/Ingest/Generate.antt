-- ===== src/Ingest/Generate.antt =====
-- `generate_relationships`: the relationships that the snapshot calls for. A serial, a guid or an id
-- that is not known is "", which Python takes for false as it does None.
use topology_maps.Prelude.{
  Bool, false, not, ◌&&◌, ◌||◌, Option, none, some, List, [], ◌∷◌, ◌++◌, drop, if◌then◌else◌,
}
use topology_maps.Text.{Text, codes, text_eq, elem, starts_with}
use topology_maps.Dict.{Dict, get_or}
use topology_maps.Catalog.{number_text}
use topology_maps.Ingest.Graph.{
  Node, Edge, Subnet, Rel, RelType, contains, connects_to, Lookups, Snapshot, truthy, or_empty,
}
use topology_maps.Ingest.Spanning.{firewall, access_point, has_pair, build_spanning_tree}

unfoldable pub guid_of : Text → Dict Text → Text
unfolding get_or
guid_of k d = get_or k [] d

-- `guid_by_name.get(name)` for a name that may be null.
unfoldable pub guid_of_name : Option Text → Dict Text → Text
unfolding guid_of
guid_of_name none d = []
guid_of_name (some name) d = guid_of name d

-- `if a and b: rels.append(...)`
unfoldable pub rel_if : Text → Text → RelType → List Rel
unfolding truthy
rel_if a b t =
    if truthy a && truthy b
    then record { source_guid = a; target_guid = b; rel_type = t } ∷ []
    else []

unfoldable pub vlan_name : Subnet → Text
unfolding or_empty
vlan_name s = codes "vlan-" ++ (or_empty s.network_id ++ b'-' ∷ number_text s.vlan)

unfoldable pub port_name : Text → Text → Text
port_name serial port_id = codes "port-" ++ (serial ++ b'-' ∷ port_id)

-- The port after "Port ".
unfoldable pub port_id_of : Text → Text
unfolding starts_with
port_id_of t = if starts_with (codes "Port ") t then drop 5 t else t

-- The pair is in the set, in one order or the other.
unfoldable pub seen_pair : Text → Text → List (Text × Text) → Bool
unfolding has_pair
seen_pair a b seen = has_pair a b seen || has_pair b a seen

-- node.get("name") or node.get("id") or ""
unfoldable pub client_name : Node → Text
unfolding truthy or_empty
client_name n = if truthy (or_empty n.name) then or_empty n.name else n.id

module _ (m : Lookups) where
  -- The site of each node of one of the types contains it.
  unfoldable pub site_contains : List Text → List Node → List Rel
  unfolding elem guid_of guid_of_name rel_if or_empty
  site_contains types [] = []
  site_contains types (n ∷ ns) =
      (if elem n.node_type types
        then rel_if (guid_of (or_empty n.network_id) m.site_guid_by_network_id)
            (guid_of_name n.name m.guid_by_name) contains
        else [])
      ++ site_contains types ns

  unfoldable pub site_vlans : List Subnet → List Rel
  unfolding guid_of rel_if or_empty vlan_name
  site_vlans [] = []
  site_vlans (s ∷ ss) =
      rel_if (guid_of (or_empty s.network_id) m.site_guid_by_network_id)
        (guid_of (vlan_name s) m.guid_by_name) contains
      ++ site_vlans ss

  unfoldable pub ports_of : Text → Text → List Text → List Rel
  unfolding guid_of rel_if port_name
  ports_of switch_guid serial [] = []
  ports_of switch_guid serial (p ∷ ps) =
      rel_if switch_guid (guid_of (port_name serial p) m.guid_by_name) contains
      ++ ports_of switch_guid serial ps

  unfoldable pub device_ports : Dict (List Text) → List Rel
  unfolding guid_of ports_of
  device_ports [] = []
  device_ports ((serial, ports) ∷ ds) =
      ports_of (guid_of serial m.guid_by_serial) serial ports ++ device_ports ds

  -- Every network but "__all__".
  unfoldable pub switch_ports : Dict (Dict (List Text)) → List Rel
  unfolding device_ports text_eq
  switch_ports [] = []
  switch_ports ((key, details) ∷ nets) =
      (if text_eq key (codes "__all__") then [] else device_ports details) ++ switch_ports nets

  -- One round of the loop; `none` is the exception of `startswith` on a null.
  unfoldable pub port_ap : List Text → Edge → Option (List Rel)
  unfolding elem guid_of rel_if truthy port_name port_id_of
  port_ap ap_serials e =
      if elem e.target ap_serials
      then elim e.source_port [
        | none ↦ none
        | some port ↦ some (
            if truthy (port_id_of port)
            then rel_if (guid_of (port_name e.source (port_id_of port)) m.guid_by_name)
                (guid_of e.target m.guid_by_serial) contains
            else [])
      ]
      else some []

  unfoldable pub port_aps : List Text → List Edge → Option (List Rel)
  unfolding port_ap
  port_aps ap_serials [] = some []
  port_aps ap_serials (e ∷ es) =
      let rest = port_aps ap_serials es in
      elim (port_ap ap_serials e) [
        | none ↦ none
        | some rels ↦ elim rest [ none ↦ none | some more ↦ some (rels ++ more) ]
      ]

  unfoldable pub is_skipped : List Text → List (Text × Text) → Edge → Bool
  unfolding elem guid_of truthy text_eq seen_pair
  is_skipped ap_serials seen e =
      let a = guid_of e.source m.guid_by_serial in
      let b = guid_of e.target m.guid_by_serial in
      (elem e.source ap_serials || elem e.target ap_serials)
      || ((not (truthy a) || (not (truthy b) || text_eq a b)) || seen_pair a b seen)

  unfoldable pub link_rel : List (Text × Text) → Edge → Rel
  unfolding has_pair guid_of
  link_rel contains_pairs e =
      let a = guid_of e.source m.guid_by_serial in
      let b = guid_of e.target m.guid_by_serial in
      if has_pair e.source e.target contains_pairs
      then record { source_guid = a; target_guid = b; rel_type = contains }
      else if has_pair e.target e.source contains_pairs
      then record { source_guid = b; target_guid = a; rel_type = contains }
      else record { source_guid = a; target_guid = b; rel_type = connects_to }

  unfoldable pub device_links :
      List Text → List (Text × Text) → List (Text × Text) → List Edge → List Rel
  unfolding is_skipped link_rel guid_of
  device_links ap_serials contains_pairs seen [] = []
  device_links ap_serials contains_pairs seen (e ∷ es) =
      let a = guid_of e.source m.guid_by_serial in
      let b = guid_of e.target m.guid_by_serial in
      let kept =
        link_rel contains_pairs e ∷ device_links ap_serials contains_pairs ((a, b) ∷ seen) es in
      let left = device_links ap_serials contains_pairs seen es in
      if is_skipped ap_serials seen e then left else kept

  unfoldable pub client_rel : Node → List Rel
  unfolding guid_of rel_if truthy text_eq client_name or_empty
  client_rel n =
      if text_eq n.node_type (codes "endpoint") && truthy (or_empty n.connected_ap)
      then rel_if (guid_of (client_name n) m.guid_by_name)
          (guid_of (or_empty n.connected_ap) m.guid_by_serial) connects_to
      else []

  unfoldable pub client_rels : List Node → List Rel
  unfolding client_rel
  client_rels [] = []
  client_rels (n ∷ ns) = client_rel n ++ client_rels ns

-- {n["id"] for n in nodes if n["type"] in types}
unfoldable pub ids_of : List Text → List Node → List Text
unfolding elem
ids_of types [] = []
ids_of types (n ∷ ns) = if elem n.node_type types then n.id ∷ ids_of types ns else ids_of types ns

-- `none` is the exception of a null port.
unfoldable pub generate_relationships : Snapshot → Lookups → Bool → Option (List Rel)
unfolding site_contains site_vlans switch_ports port_aps device_links client_rels ids_of
    build_spanning_tree
generate_relationships s m include_vlans =
    let ap_serials = ids_of (access_point ∷ []) s.nodes in
    elim (port_aps m ap_serials s.edges) [
      | none ↦ none
      | some aps ↦ some (
          site_contains m (firewall ∷ []) s.nodes
          ++ ((if include_vlans then site_vlans m s.subnets else [])
              ++ (switch_ports m s.device_details
                  ++ (aps
                      ++ (device_links m ap_serials (build_spanning_tree s.nodes s.edges false) []
                            s.edges
                          ++ client_rels m s.nodes)))))
    ]
