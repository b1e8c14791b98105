-- ===== src/Simulator.antt =====
-- simulator/topology_state.py, whose lock makes each method one step. The two dicts hold objects by
-- their ids, and no object stands under two keys.
pub mod Tables
pub mod Counts
pub mod Moves
mod Tests
use topology_maps.Prelude.{
  ℕ, suc, ◌+◌, ◌-◌, Bool, true, false, not, ◌&&◌, ◌||◌, Option, none, some, List, [], ◌∷◌, ◌++◌,
  filter_by, ◌==◌, if◌then◌else◌,
}
use topology_maps.Text.{Text, codes, text_eq, lower}
use topology_maps.Json.{ℤ}
use topology_maps.Catalog.{number_text}
use topology_maps.Dict.{Dict, get, has, put}
use topology_maps.Simulator.Tables.{
  LldpNeighbor, ArpEntry, MacEntry, arp_row, mac_row, move_between, move_within,
}

pub record WirelessClient : Type 0 where
  pub mac : Text
  pub ip : Text
  pub ssid : Text
  pub vlan : ℕ
  pub ap_id : Text
  pub rssi : ℤ
  pub device_type : Text

pub record ApInfo : Type 0 where
  pub ap_id : Text
  pub name : Text
  pub serial : Text
  pub ip : Text
  pub status : Text
  pub floor : ℕ
  pub parent_switch : Text
  pub parent_port : Text
  pub client_count : ℕ

-- The interfaces, VLAN ports and PoE ports, which no method reads, are left out.
pub record DeviceState : Type 0 where
  pub device_id : Text
  pub device_type : Text
  pub model : Text
  pub ip : Text
  pub snmp_port : ℕ
  pub floor : Option ℕ
  pub lldp_neighbors : List LldpNeighbor
  pub arp_table : List ArpEntry
  pub mac_table : List MacEntry

pub record TopologyState : Type 0 where
  pub devices : Dict DeviceState
  pub aps : Dict ApInfo
  pub wireless_clients : List WirelessClient
  pub version : ℕ

unfoldable pub empty_state : TopologyState
empty_state = record { devices = []; aps = []; wireless_clients = []; version = 0 }

unfoldable pub add_device : DeviceState → TopologyState → TopologyState
unfolding put
add_device d s = record s { devices = put d.device_id d s.devices; version = suc s.version }

unfoldable pub get_device : Text → TopologyState → Option DeviceState
unfolding get
get_device id s = get id s.devices

unfoldable pub add_ap : ApInfo → TopologyState → TopologyState
unfolding put
add_ap ap s = record s { aps = put ap.ap_id ap s.aps; version = suc s.version }

unfoldable pub get_ap : Text → TopologyState → Option ApInfo
unfolding get
get_ap id s = get id s.aps

aps_on : ℕ → Dict ApInfo → List ApInfo
aps_on floor [] = []
aps_on floor ((id, ap) ∷ aps) =
    if ap.floor == floor then ap ∷ aps_on floor aps else aps_on floor aps

unfoldable pub get_aps_on_floor : ℕ → TopologyState → List ApInfo
unfolding aps_on
get_aps_on_floor floor s = aps_on floor s.aps

unfoldable pub get_clients_for_ap : Text → TopologyState → List WirelessClient
unfolding filter_by text_eq
get_clients_for_ap id s = filter_by (λ c. text_eq c.ap_id id) s.wireless_clients

-- `if id in self.aps`, and the change to the count of that access point
unfoldable pub count_change : Text → (ℕ → ℕ) → Dict ApInfo → Dict ApInfo
unfolding get put
count_change id f aps = elim (get id aps) [
  | none ↦ aps
  | some ap ↦ put id (record ap { client_count = f ap.client_count }) aps
]

unfoldable pub add_wireless_client : WirelessClient → TopologyState → TopologyState
unfolding count_change
add_wireless_client c s = record s {
  wireless_clients = s.wireless_clients ++ c ∷ [];
  aps = count_change c.ap_id (λ n. suc n) s.aps;
  version = suc s.version;
}

with_colons : Text → Text
with_colons [] = []
with_colons (c ∷ t) = (if c == b'-' then b':' else c) ∷ with_colons t

-- mac.lower().replace("-", ":")
unfoldable pub normal_mac : Text → Text
unfolding lower with_colons
normal_mac mac = with_colons (lower mac)

unfoldable pub mac_match : Text → Text → Text
unfolding normal_mac text_eq
mac_match mac1 mac2 = if text_eq (normal_mac mac1) (normal_mac mac2) then mac1 else []

-- What the loop over the clients finds: none that matches, one that is there already, or one of
-- which the access point was `old`, with the clients as they are after it.
pub data Found : Type 0 where
  not_found same_ap : Found
  moved : Text → List WirelessClient → Found

found_after : WirelessClient → Found → Found
found_after c not_found = not_found
found_after c same_ap = same_ap
found_after c (moved old clients) = moved old (c ∷ clients)

unfoldable pub move_client : Text → Text → ℤ → List WirelessClient → Found
unfolding mac_match text_eq found_after
move_client mac new_ap_id new_rssi [] = not_found
move_client mac new_ap_id new_rssi (c ∷ cs) =
    let rest = move_client mac new_ap_id new_rssi cs in
    if text_eq c.mac (mac_match c.mac mac)
    then (if text_eq c.ap_id new_ap_id
        then same_ap
        else moved c.ap_id (record c { ap_id = new_ap_id; rssi = new_rssi } ∷ cs))
    else found_after c rest

settle_move : Text → Found → TopologyState → TopologyState × Bool
unfolding count_change
settle_move new_ap_id not_found s = (s, false)
settle_move new_ap_id same_ap s = (s, false)
settle_move new_ap_id (moved old clients) s = (
  record s {
    wireless_clients = clients;
    aps = count_change new_ap_id (λ n. suc n) (count_change old (λ n. n - 1) s.aps);
    version = suc s.version;
  },
  true,
)

unfoldable pub move_wireless_client : Text → Text → ℤ → TopologyState → TopologyState × Bool
unfolding move_client settle_move
move_wireless_client mac new_ap_id new_rssi s =
    settle_move new_ap_id (move_client mac new_ap_id new_rssi s.wireless_clients) s

unfoldable pub port_text : ℕ → Text
port_text n = codes "port" ++ number_text n

-- Name and address of what is moved.
unfoldable pub moved_device : Text → TopologyState → Option (Text × Text)
unfolding get
moved_device id s = elim (get id s.aps) [
  | some ap ↦ some (ap.name, ap.ip)
  | none ↦ elim (get id s.devices) [ some d ↦ some (id, d.ip) | none ↦ none ]
]

module _ (id : Text) (port : Text) where
  -- n.local_port == src_port_name and n.remote_device_id == device_id
  unfoldable pub is_at : LldpNeighbor → Bool
  unfolding text_eq
  is_at n = text_eq n.local_port port && text_eq n.remote_device_id id

  unfoldable pub without : List LldpNeighbor → List LldpNeighbor
  unfolding is_at filter_by
  without ns = filter_by (λ n. not (is_at n)) ns

unfoldable pub set_parent : Text → Text → Text → Dict ApInfo → Dict ApInfo
unfolding get put
set_parent id switch port aps = elim (get id aps) [
  | none ↦ aps
  | some ap ↦ put id (record ap { parent_switch = switch; parent_port = port }) aps
]

-- The tables of the two switches after the move, where they are two objects.
unfoldable pub move_apart :
    Text → LldpNeighbor → Text → DeviceState → DeviceState → DeviceState × DeviceState
unfolding without move_between
move_apart id neighbor from_port src dst =
    let to_port = neighbor.local_port in
    let arp = move_between arp_row from_port to_port src.arp_table src.arp_table dst.arp_table in
    let mac = move_between mac_row from_port to_port src.mac_table src.mac_table dst.mac_table in
    (
      record src {
        lldp_neighbors = without id from_port src.lldp_neighbors;
        arp_table = arp.0;
        mac_table = mac.0;
      },
      record dst {
        lldp_neighbors = dst.lldp_neighbors ++ neighbor ∷ [];
        arp_table = arp.1;
        mac_table = mac.1;
      },
    )

-- Where they are one.
unfoldable pub move_inside : Text → LldpNeighbor → Text → DeviceState → DeviceState
unfolding without move_within
move_inside id neighbor from_port d =
    let to_port = neighbor.local_port in
    record d {
      lldp_neighbors = without id from_port d.lldp_neighbors ++ neighbor ∷ [];
      arp_table = move_within arp_row from_port to_port d.arp_table d.arp_table;
      mac_table = move_within mac_row from_port to_port d.mac_table d.mac_table;
    }

unfoldable pub new_neighbor : Text → Text → Text → ℕ → LldpNeighbor
unfolding port_text
new_neighbor id name ip to_port = record {
  local_port = port_text to_port;
  remote_device_id = id;
  remote_port = codes "eth0";
  remote_device_name = name;
  remote_ip = ip;
}

unfoldable pub moved_devices :
    Text
    → LldpNeighbor
    → Text
    → Text
    → Text
    → DeviceState
    → DeviceState
    → Dict DeviceState
    → Dict DeviceState
unfolding move_apart move_inside text_eq put
moved_devices id neighbor from_port from_switch to_switch src dst devices =
    let (src', dst') = move_apart id neighbor from_port src dst in
    if text_eq from_switch to_switch
    then put from_switch (move_inside id neighbor from_port src) devices
    else put to_switch dst' (put from_switch src' devices)

unfoldable pub move_connection : Text → Text → ℕ → Text → ℕ → TopologyState → TopologyState × Bool
unfolding moved_device moved_devices new_neighbor port_text set_parent get
move_connection id from_switch from_port to_switch to_port s = elim (moved_device id s) [
  | none ↦ (s, false)
  | some (name, ip) ↦ elim (get from_switch s.devices) [
    | none ↦ (s, false)
    | some src ↦ elim (get to_switch s.devices) [
      | none ↦ (s, false)
      | some dst ↦
          let neighbor = new_neighbor id name ip to_port in
          (
            record s {
              devices =
                  moved_devices id neighbor (port_text from_port) from_switch to_switch src dst
                    s.devices;
              aps = set_parent id to_switch (port_text to_port) s.aps;
              version = suc s.version;
            },
            true,
          )
    ]
  ]
]

-- The methods that change the state.
pub data Change : Type 0 where
  device_added : DeviceState → Change
  ap_added : ApInfo → Change
  client_added : WirelessClient → Change
  client_moved : Text → Text → ℤ → Change
  connection_moved : Text → Text → ℕ → Text → ℕ → Change

-- The state after a call, and what it returns, `true` where it returns nothing.
unfoldable pub apply : Change → TopologyState → TopologyState × Bool
unfolding add_device add_ap add_wireless_client move_wireless_client move_connection
apply (device_added d) s = (add_device d s, true)
apply (ap_added ap) s = (add_ap ap s, true)
apply (client_added c) s = (add_wireless_client c s, true)
apply (client_moved mac new_ap_id new_rssi) s = move_wireless_client mac new_ap_id new_rssi s
apply (connection_moved id from_switch from_port to_switch to_port) s =
    move_connection id from_switch from_port to_switch to_port s
