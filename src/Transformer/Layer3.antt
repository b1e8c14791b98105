-- ===== src/Transformer/Layer3.antt =====
-- `build_l3` of server/meraki_transformer.py.
use topology_maps.Prelude.{
  ℕ, ◌&&◌, Option, none, some, List, [], ◌∷◌, ◌++◌, length, ltb, if◌then◌else◌,
}
use topology_maps.Text.{Text, codes, text_eq}
use topology_maps.Catalog.{number_text}
use topology_maps.Dict.{Dict}
use topology_maps.Ingest.Graph.{or_empty, truthy}
use topology_maps.Transformer.Layer2.{DeviceData}

pub record VlanData : Type 0 where
  pub id : Option ℕ
  pub name : Option Text
  pub subnet : Option Text
  pub appliance_ip : Option Text
  pub fixed_ip_assignments : ℕ

pub record Subnet : Type 0 where
  pub id : Text
  pub name : Text
  pub vlan : ℕ
  pub cidr : Text
  pub gateway : Text
  pub device_count : ℕ
  pub network_id : Text

-- Every route has the policy that allows.
pub record Route : Type 0 where
  pub from_subnet : Text
  pub to_subnet : Text
  pub via : Text

-- The serial of the first appliance that has one, "" where none has.
unfoldable pub gateway_serial : List DeviceData → Text
unfolding text_eq or_empty truthy
gateway_serial [] = []
gateway_serial (dev ∷ devices) =
    if text_eq (or_empty dev.product_type) (codes "appliance") && truthy (or_empty dev.serial)
    then or_empty dev.serial
    else gateway_serial devices

vlan_label : ℕ → Option Text → Text
vlan_label id none = codes "VLAN " ++ number_text id
vlan_label id (some name) = name

unfoldable pub subnet_of : Text → ℕ → VlanData → Subnet
unfolding or_empty vlan_label
subnet_of network_id id v = record {
  id = codes "vlan-" ++ number_text id;
  name = vlan_label id v.name;
  vlan = id;
  cidr = or_empty v.subnet;
  gateway = or_empty v.appliance_ip;
  device_count = v.fixed_ip_assignments;
  network_id = network_id;
}

unfoldable pub subnets_of : Text → List VlanData → List Subnet
unfolding subnet_of
subnets_of network_id [] = []
subnets_of network_id (v ∷ vlans) = elim v.id [
  | none ↦ subnets_of network_id vlans
  | some id ↦ subnet_of network_id id v ∷ subnets_of network_id vlans
]

unfoldable pub all_subnets : Dict (List VlanData) → List Subnet
unfolding subnets_of
all_subnets [] = []
all_subnets ((network_id, vlans) ∷ nets) = subnets_of network_id vlans ++ all_subnets nets

-- for dst in subnets[i + 1:]
unfoldable pub routes_from : Text → Subnet → List Subnet → List Route
routes_from via src [] = []
routes_from via src (dst ∷ subnets) =
    record { from_subnet = src.id; to_subnet = dst.id; via = via } ∷ routes_from via src subnets

unfoldable pub mesh : Text → List Subnet → List Route
unfolding routes_from
mesh via [] = []
mesh via (src ∷ subnets) = routes_from via src subnets ++ mesh via subnets

unfoldable pub build_l3 : Dict (List VlanData) → List DeviceData → List Subnet × List Route
unfolding gateway_serial all_subnets mesh truthy
build_l3 vlans devices =
    let via = gateway_serial devices in
    let subnets = all_subnets vlans in
    (subnets, if truthy via && ltb 1 (length subnets) then mesh via subnets else [])
