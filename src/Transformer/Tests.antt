-- ===== src/Transformer/Tests.antt =====
-- Two networks with a firewall and a core switch.
use topology_maps.Prelude.{◌≡◌, refl, true, false, none, some, List, [], ◌∷◌, map, All}
use topology_maps.Text.{Text, codes}
use topology_maps.Json.Printer.{show_int}
use topology_maps.Dict.{Dict}
use topology_maps.Ingest.Graph.{truthy}
use topology_maps.Transformer.Links.{End, build_edges}
use topology_maps.Transformer.Layer2.{DeviceData, Availability, build_l2}
use topology_maps.Transformer.Layer3.{VlanData, gateway_serial, build_l3}
use topology_maps.Transformer.Sites.{NetworkData, unknown, orange, build_sites}
use topology_maps.Transformer.Mesh.{IsMesh, build_l3-IsMesh}
use topology_maps.Transformer.Health.{IsSummary, reported, known_ids, build_sites-IsSummary}

abbrev device : Text → Text → Text → Text → DeviceData
device serial product name network = record {
  serial = some serial;
  product_type = some product;
  name = some name;
  model = none;
  lan_ip = none;
  wan1_ip = some (codes "1.2.3.4");
  mac = none;
  network_id = some network;
  firmware = none;
  address = none;
  tags = [];
  notes = none;
  configuration_updated_at = none;
  url = none;
  details = [];
  lat = none;
  lng = none;
}

abbrev devices : List DeviceData
devices =
    device (codes "Q1") (codes "appliance") (codes "FW") (codes "N1")
    ∷ device (codes "Q2") (codes "switch") (codes "Main Core") (codes "N1")
    ∷ device (codes "Q3") (codes "wireless") (codes "AP") (codes "N2")
    ∷ []

abbrev availabilities : List Availability
availabilities =
    record { serial = some (codes "Q1"); status = some (codes "online") }
    ∷ record { serial = some (codes "Q2"); status = some (codes "offline") }
    ∷ record { serial = some (codes "Q3"); status = some (codes "dormant") }
    ∷ []

abbrev end : Text → Text → End
end serial port = record { device_serial = some serial; lldp_port = some port; cdp_port = none }

-- A link is reported by both of its ends.
build_edges_runs :
    map
      (λ e. e.id)
      (build_edges [] (
        (end (codes "Q1") (codes "3") ∷ end (codes "Q2") (codes "1") ∷ [])
        ∷ (end (codes "Q2") (codes "1") ∷ end (codes "Q1") (codes "3") ∷ [])
        ∷ (end (codes "Q1") (codes "4") ∷ [])
        ∷ []))
    ≡ codes "Q1:3-Q2:1" ∷ []
unfolding build_edges
build_edges_runs = refl

-- Two stack members, of which the second is no node.
build_l2_runs :
    map
      (λ n. n.stack_role)
      (build_l2 devices availabilities [] []
        (record { name = codes "S"; serials = codes "Q2" ∷ codes "Q9" ∷ [] } ∷ [])
        []).0
    ≡ none ∷ some (codes "active") ∷ none ∷ []
unfolding build_l2
build_l2_runs = refl

build_l2_edges :
    (build_l2 devices availabilities [] []
      (record { name = codes "S"; serials = codes "Q2" ∷ codes "Q9" ∷ [] } ∷ [])
      []).1
    ≡ []
unfolding build_l2
build_l2_edges = refl

abbrev vlan : VlanData
vlan = record {
  id = some 1;
  name = none;
  subnet = none;
  appliance_ip = none;
  fixed_ip_assignments = 0;
}

abbrev vlans : Dict (List VlanData)
vlans = (codes "N1", vlan ∷ []) ∷ (codes "N2", vlan ∷ []) ∷ []

-- The two VLANs have one subnet id.
build_l3_runs :
    (build_l3 vlans devices).1
    ≡ record { from_subnet = codes "vlan-1"; to_subnet = codes "vlan-1"; via = codes "Q1" } ∷ []
unfolding build_l3 show_int
build_l3_runs = refl

build_l3-IsMesh_example :
    (truthy (gateway_serial devices) ≡ true
      → IsMesh (gateway_serial devices) vlans (build_l3 vlans devices).1)
    × (truthy (gateway_serial devices) ≡ false → (build_l3 vlans devices).1 ≡ [])
build_l3-IsMesh_example = build_l3-IsMesh vlans devices

abbrev networks : List NetworkData
networks =
    record { id = some (codes "N1"); name = none }
    ∷ record { id = some (codes "N2"); name = none }
    ∷ []

build_sites_runs :
    map (λ s. s.health_bucket) (build_sites networks devices availabilities) ≡ orange ∷ unknown ∷ []
unfolding build_sites
build_sites_runs = refl

build_sites-IsSummary_example :
    (map (λ s. s.network_id) (build_sites networks devices availabilities) ≡ known_ids networks)
    × All
        (IsSummary (reported availabilities) devices)
        (build_sites networks devices availabilities)
build_sites-IsSummary_example = build_sites-IsSummary networks devices availabilities
