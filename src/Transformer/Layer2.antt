-- ===== src/Transformer/Layer2.antt =====
-- `build_l2` of server/meraki_transformer.py: the nodes, the stacks and the wireless clients.
use topology_maps.Prelude.{
  Bool, true, false, not, ◌||◌, Option, none, some, List, [], ◌∷◌, ◌++◌, if◌then◌else◌,
}
use topology_maps.Text.{Text, codes, text_eq, lower, has_part}
use topology_maps.Dict.{Dict, get, has, put, get_or}
use topology_maps.Ingest.Graph.{or_empty, truthy}
use topology_maps.Ingest.Generate.{seen_pair}
use topology_maps.Transformer.Links.{End, wireless, stack, Edge, build_edges}

pub data DeviceType : Type 0 where
  firewall floor_switch core_switch access_point endpoint : DeviceType

pub data DeviceStatus : Type 0 where
  up down alerting : DeviceStatus

-- A device of the organisation; `tags` are its tags as a list.
pub record DeviceData : Type 0 where
  pub serial : Option Text
  pub product_type : Option Text
  pub name : Option Text
  pub model : Option Text
  pub lan_ip : Option Text
  pub wan1_ip : Option Text
  pub mac : Option Text
  pub network_id : Option Text
  pub firmware : Option Text
  pub address : Option Text
  pub tags : List Text
  pub notes : Option Text
  pub configuration_updated_at : Option Text
  pub url : Option Text
  pub details : List (Option Text × Option Text)
  pub lat : Option Text
  pub lng : Option Text

pub record Availability : Type 0 where
  pub serial : Option Text
  pub status : Option Text

pub record Address : Type 0 where
  pub protocol : Option Text
  pub public_address : Option Text
  pub gateway : Option Text
  pub nameservers : List Text
  pub assignment_mode : Option Text

pub record UplinkEntry : Type 0 where
  pub serial : Option Text
  pub uplinks : List (List Address)

pub record ClientData : Type 0 where
  pub id : Option Text
  pub mac : Option Text
  pub description : Option Text
  pub dhcp_hostname : Option Text
  pub os : Option Text
  pub ip : Option Text
  pub vlan : Option Text
  pub ssid : Option Text

pub record Stack : Type 0 where
  pub name : Text
  pub serials : List Text

pub record Device : Type 0 where
  pub id : Text
  pub name : Text
  pub device_type : DeviceType
  pub model : Text
  pub ip : Text
  pub status : DeviceStatus
  pub mac : Option Text
  pub network_id : Option Text
  pub firmware : Option Text
  pub address : Option Text
  pub tags : List Text
  pub notes : Option Text
  pub config_updated_at : Option Text
  pub dashboard_url : Option Text
  pub software_version : Option Text
  pub public_ip : Option Text
  pub gateway : Option Text
  pub primary_dns : Option Text
  pub secondary_dns : Option Text
  pub ip_type : Option Text
  pub vlan : Option Text
  pub connected_ap : Option Text
  pub ssid : Option Text
  pub stack_role : Option Text
  pub stack_name : Option Text

-- {a["serial"]: a for a in availabilities if "serial" in a}
unfoldable pub by_serial : List Availability → Dict Availability → Dict Availability
unfolding put
by_serial [] d = d
by_serial (a ∷ as_given) d =
    by_serial as_given (elim a.serial [ none ↦ d | some serial ↦ put serial a d ])

-- The first address with the protocol ipv4.
unfoldable pub first_ipv4 : List Address → Option Address
unfolding text_eq or_empty
first_ipv4 [] = none
first_ipv4 (a ∷ addresses) =
    if text_eq (or_empty a.protocol) (codes "ipv4") then some a else first_ipv4 addresses

-- The loop over the uplinks of an entry, which ends at one after which the serial is in the dict.
unfoldable pub index_uplinks : Text → List (List Address) → Dict Address → Dict Address
unfolding first_ipv4 put has
index_uplinks serial [] d = d
index_uplinks serial (addresses ∷ uplinks) d =
    let d' : Dict Address = elim (first_ipv4 addresses) [ none ↦ d | some a ↦ put serial a d ] in
    let rest = index_uplinks serial uplinks d' in if has serial d' then d' else rest

unfoldable pub uplinks_by_serial : List UplinkEntry → Dict Address → Dict Address
unfolding index_uplinks truthy or_empty
uplinks_by_serial [] d = d
uplinks_by_serial (e ∷ entries) d =
    uplinks_by_serial entries
      (if truthy (or_empty e.serial) then index_uplinks (or_empty e.serial) e.uplinks d else d)

unfoldable pub type_of : DeviceData → DeviceType
unfolding text_eq or_empty lower has_part
type_of dev =
    let product = or_empty dev.product_type in
    if text_eq product (codes "appliance")
    then firewall
    else if text_eq product (codes "switch")
    then (if has_part (codes "core") (lower (or_empty dev.name)) then core_switch else floor_switch)
    else if text_eq product (codes "wireless")
    then access_point
    else endpoint

-- STATUS_MAP.get(status, DeviceStatus.DOWN)
status_map : Text → DeviceStatus
unfolding text_eq
status_map t =
    if text_eq t (codes "online")
    then up
    else if text_eq t (codes "alerting")
    then alerting
    else down

unfoldable pub status_of : Option Availability → DeviceStatus
unfolding status_map
status_of none = down
status_of (some a) = elim a.status [ none ↦ down | some t ↦ status_map t ]

software_of : List (Option Text × Option Text) → Option Text
unfolding text_eq or_empty
software_of [] = none
software_of ((name, value) ∷ details) =
    if text_eq (or_empty name) (codes "software") then value else software_of details

-- a or b
first_of : Option Text → Text → Text
unfolding truthy or_empty
first_of t other = if truthy (or_empty t) then or_empty t else other

default : Option Text → Text → Text
default none other = other
default (some t) other = t

no_address : Address
no_address = record {
  protocol = none;
  public_address = none;
  gateway = none;
  nameservers = [];
  assignment_mode = none;
}

ip_type_of : Option Text → Option Text
unfolding text_eq
ip_type_of none = none
ip_type_of (some mode) = if text_eq mode (codes "dynamic") then some (codes "dhcp") else some mode

nth : List Text → Bool → Option Text
nth [] second = none
nth (t ∷ []) second = if second then none else some t
nth (t ∷ u ∷ ts) second = if second then some u else some t

unfoldable pub device_node : Text → DeviceData → Option Availability → Address → Device
unfolding type_of status_of software_of first_of default ip_type_of nth or_empty
device_node serial dev availability uplink = record {
  id = serial;
  name = first_of dev.name serial;
  device_type = type_of dev;
  model = default dev.model (codes "Unknown");
  ip = first_of dev.lan_ip (or_empty dev.wan1_ip);
  status = status_of availability;
  mac = dev.mac;
  network_id = dev.network_id;
  firmware = dev.firmware;
  address = dev.address;
  tags = dev.tags;
  notes = dev.notes;
  config_updated_at = dev.configuration_updated_at;
  dashboard_url = dev.url;
  software_version = software_of dev.details;
  public_ip = uplink.public_address;
  gateway = uplink.gateway;
  primary_dns = nth uplink.nameservers false;
  secondary_dns = nth uplink.nameservers true;
  ip_type = ip_type_of uplink.assignment_mode;
  vlan = none;
  connected_ap = none;
  ssid = none;
  stack_role = none;
  stack_name = none;
}

-- A device without a serial gives no node.
unfoldable pub device_nodes : Dict Availability → Dict Address → List DeviceData → List Device
unfolding device_node truthy or_empty get get_or no_address
device_nodes availabilities uplinks [] = []
device_nodes availabilities uplinks (dev ∷ devices) =
    let rest = device_nodes availabilities uplinks devices in
    let serial = or_empty dev.serial in
    if truthy serial
    then device_node serial dev (get serial availabilities) (get_or serial no_address uplinks)
      ∷ rest
    else rest

pub record StackInfo : Type 0 where
  pub role : Text
  pub stack_name : Text
  pub active_serial : Text

members : Stack → Text → List Text → Dict StackInfo → Dict StackInfo
unfolding put
members s active [] d = d
members s active (serial ∷ serials) d =
    members s active serials
      (put serial (record { role = codes "member"; stack_name = s.name; active_serial = active }) d)

-- The members of each stack, of which the first is active.
unfoldable pub stack_members : List Stack → Dict StackInfo → Dict StackInfo
unfolding members put
stack_members [] d = d
stack_members (s ∷ stacks) d = stack_members stacks (elim s.serials [
  | [] ↦ d
  | active ∷ serials ↦
      members s active serials (
        put active (record { role = codes "active"; stack_name = s.name; active_serial = active })
          d)
])

unfoldable pub annotate : Dict StackInfo → List Device → List Device
unfolding get
annotate d [] = []
annotate d (n ∷ nodes) =
    elim (get n.id d) [
      | none ↦ n
      | some info ↦ record n { stack_role = some info.role; stack_name = some info.stack_name }
    ]
    ∷ annotate d nodes

unfoldable pub has_node : Text → List Device → Bool
unfolding text_eq
has_node id [] = false
has_node id (n ∷ nodes) = text_eq n.id id || has_node id nodes

unfoldable pub stack_edges : List Device → List (Text × Text) → Dict StackInfo → List Edge
unfolding has_node text_eq seen_pair
stack_edges nodes seen [] = []
stack_edges nodes seen ((serial, info) ∷ rest) =
    let active = info.active_serial in
    let left = stack_edges nodes seen rest in
    let kept =
      record {
        id = codes "stack-" ++ (active ++ (b'-' ∷ serial));
        source = active;
        target = serial;
        source_port = none;
        target_port = none;
        protocol = stack;
      }
      ∷ stack_edges nodes ((active, serial) ∷ seen) rest in
    if text_eq serial active
      || ((not (has_node active nodes) || not (has_node serial nodes))
          || seen_pair active serial seen)
    then left
    else kept

client_id : ClientData → Text
unfolding first_of or_empty
client_id c = first_of c.id (or_empty c.mac)

unfoldable pub client_node : Text → ClientData → Device
unfolding client_id first_of default or_empty
client_node ap_serial c = record {
  id = client_id c;
  name = first_of c.description (first_of c.dhcp_hostname (default c.mac (codes "Unknown")));
  device_type = endpoint;
  model = first_of c.os (codes "Client");
  ip = or_empty c.ip;
  status = up;
  mac = c.mac;
  network_id = none;
  firmware = none;
  address = none;
  tags = [];
  notes = none;
  config_updated_at = none;
  dashboard_url = none;
  software_version = none;
  public_ip = none;
  gateway = none;
  primary_dns = none;
  secondary_dns = none;
  ip_type = none;
  vlan = c.vlan;
  connected_ap = some ap_serial;
  ssid = c.ssid;
  stack_role = none;
  stack_name = none;
}

unfoldable pub client_edge : Text → ClientData → Edge
unfolding client_id
client_edge ap_serial c = record {
  id = ap_serial ++ (b'-' ∷ client_id c);
  source = ap_serial;
  target = client_id c;
  source_port = none;
  target_port = none;
  protocol = wireless;
}

clients_at : Text → List ClientData → List (Device × Edge)
unfolding client_node client_edge client_id truthy
clients_at ap_serial [] = []
clients_at ap_serial (c ∷ cs) =
    let rest = clients_at ap_serial cs in
    if truthy (client_id c) then (client_node ap_serial c, client_edge ap_serial c) ∷ rest else rest

unfoldable pub client_parts : Dict (List ClientData) → List (Device × Edge)
unfolding clients_at
client_parts [] = []
client_parts ((ap_serial, cs) ∷ rest) = clients_at ap_serial cs ++ client_parts rest

firsts : List (Device × Edge) → List Device
firsts [] = []
firsts ((n, e) ∷ ps) = n ∷ firsts ps

seconds : List (Device × Edge) → List Edge
seconds [] = []
seconds ((n, e) ∷ ps) = e ∷ seconds ps

-- `stacks` are those of all networks, and the clients are by the serial of their access point.
unfoldable pub build_l2 :
    List DeviceData
    → List Availability
    → List UplinkEntry
    → List (List End)
    → List Stack
    → Dict (List ClientData)
    → List Device × List Edge
unfolding by_serial uplinks_by_serial device_nodes stack_members annotate stack_edges build_edges
    client_parts firsts seconds
build_l2 devices availabilities uplinks links stacks clients =
    let nodes = device_nodes (by_serial availabilities []) (uplinks_by_serial uplinks []) devices in
    let info = stack_members stacks [] in
    (
      annotate info nodes ++ firsts (client_parts clients),
      build_edges [] links ++ (stack_edges nodes [] info ++ seconds (client_parts clients)),
    )
