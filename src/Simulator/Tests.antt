-- ===== src/Simulator/Tests.antt =====
-- Two access points, a client that roams, and a switch whose connection is moved.
use topology_maps.Prelude.{◌≡◌, refl, true, false, some, List, [], ◌∷◌}
use topology_maps.Text.{Text, codes}
use topology_maps.Json.{pos}
use topology_maps.Json.Printer.{show_int}
use topology_maps.Dict.{get}
use topology_maps.Simulator.{
  WirelessClient, ApInfo, DeviceState, TopologyState, empty_state, Change, ap_added, client_added,
  client_moved, apply, get_clients_for_ap, moved_device, move_connection, move_wireless_client,
  new_neighbor, port_text, set_parent,
}
use topology_maps.Simulator.Tables.{ArpEntry, LldpNeighbor}
use topology_maps.Simulator.Counts.{IsCounted, Reachable, created, called, Reachable-IsCounted}
use topology_maps.Simulator.Moves.{Rewired, move_connection-Rewired}

abbrev access_point : Text → ApInfo
access_point id = record {
  ap_id = id;
  name = id;
  serial = id;
  ip = codes "10.0.0.1";
  status = codes "up";
  floor = 1;
  parent_switch = codes "S1";
  parent_port = codes "port3";
  client_count = 0;
}

abbrev client : WirelessClient
client = record {
  mac = codes "AA-BB";
  ip = codes "10.0.0.9";
  ssid = codes "guest";
  vlan = 20;
  ap_id = codes "A1";
  rssi = pos 0;
  device_type = codes "guest";
}

abbrev roam : Change
roam = client_moved (codes "aa:bb") (codes "A2") (pos 0)

abbrev before : TopologyState
before =
    (apply (client_added client)
      (apply (ap_added (access_point (codes "A2")))
        (apply (ap_added (access_point (codes "A1"))) empty_state).0).0).0

before-Reachable : Reachable 3 before
unfolding apply get_clients_for_ap empty_state
before-Reachable =
    called (client_added client)
      (called (ap_added (access_point (codes "A2")))
        (called (ap_added (access_point (codes "A1"))) created refl) refl)
      tt

abbrev after : TopologyState
after = (apply roam before).0

after-Reachable : Reachable 4 after
unfolding apply empty_state
after-Reachable = called roam before-Reachable tt

-- The address is found in another notation.
roam_runs : (apply roam before).1 ≡ true
unfolding apply empty_state
roam_runs = refl

roamed : get_clients_for_ap (codes "A2") after ≡ record client { ap_id = codes "A2" } ∷ []
unfolding apply empty_state get_clients_for_ap
roamed = refl

Reachable-IsCounted_example :
    IsCounted after
    × (after.version ≡ 4)
    × ((c : Change) → (apply c after).1 ≡ false → (apply c after).0 ≡ after)
Reachable-IsCounted_example = Reachable-IsCounted 4 after after-Reachable

abbrev switch : Text → List ArpEntry → List LldpNeighbor → DeviceState
switch id arp lldp = record {
  device_id = id;
  device_type = codes "floor_switch";
  model = codes "M";
  ip = codes "10.0.0.2";
  snmp_port = 161;
  floor = some 1;
  lldp_neighbors = lldp;
  arp_table = arp;
  mac_table = [];
}

abbrev arp : Text → ArpEntry
arp port = record { ip = codes "10.0.0.1"; mac = codes "AA"; vlan = 1; port = port }

abbrev neighbor : Text → Text → LldpNeighbor
neighbor port ip = record {
  local_port = port;
  remote_device_id = codes "A1";
  remote_port = codes "eth0";
  remote_device_name = codes "A1";
  remote_ip = ip;
}

abbrev source : DeviceState
source =
    switch (codes "S1") (arp (codes "port3") ∷ arp (codes "port4") ∷ [])
      (neighbor (codes "port3") (codes "10.0.0.1") ∷ [])

abbrev wired : TopologyState
wired = record {
  devices = (codes "S1", source) ∷ (codes "S2", switch (codes "S2") [] []) ∷ [];
  aps = (codes "A1", access_point (codes "A1")) ∷ [];
  wireless_clients = [];
  version = 0;
}

move_connection_runs :
    (move_connection (codes "A1") (codes "S1") 3 (codes "S2") 5 wired).0.devices
    ≡ (codes "S1", switch (codes "S1") (arp (codes "port4") ∷ []) [])
      ∷ (
        codes "S2",
        switch
            (codes "S2")
            (arp (codes "port5") ∷ [])
            (neighbor (codes "port5") (codes "10.0.0.1") ∷ []),
      )
      ∷ []
unfolding move_connection show_int
move_connection_runs = refl

move_connection-Rewired_example :
    ((move_connection (codes "A1") (codes "S1") 3 (codes "S2") 5 wired).1 ≡ true)
    × Rewired
        (codes "A1")
        (new_neighbor (codes "A1") (codes "A1") (codes "10.0.0.1") 5)
        (port_text 3)
        (codes "S1")
        (codes "S2")
        source
        (switch (codes "S2") [] [])
        wired.devices
        (move_connection (codes "A1") (codes "S1") 3 (codes "S2") 5 wired).0.devices
    × ((move_connection (codes "A1") (codes "S1") 3 (codes "S2") 5 wired).0.wireless_clients ≡ [])
    × ((move_connection (codes "A1") (codes "S1") 3 (codes "S2") 5 wired).0.aps
        ≡ set_parent (codes "A1") (codes "S2") (port_text 5) wired.aps)
unfolding moved_device get
move_connection-Rewired_example =
    move_connection-Rewired (codes "A1") (codes "S1") 3 (codes "S2") 5 wired (codes "A1")
      (codes "10.0.0.1") source (switch (codes "S2") [] []) refl refl refl

-- A client without an address matches every address, so that a request for another one moves it.
nameless_moves :
    (move_wireless_client
      (codes "cc:dd")
      (codes "A2")
      (pos 0)
      (record wired { wireless_clients = record client { mac = [] } ∷ [] })).1
    ≡ true
unfolding move_wireless_client
nameless_moves = refl
