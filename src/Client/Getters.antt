-- ===== src/Client/Getters.antt =====
-- The getters of server/meraki_client.py that the Meraki transformer's inputs come from, four of which
-- take some error statuses for an empty list. What the HTTP client gives for a path is an argument.
use topology_maps.Prelude.{ℕ, Bool, false, ◌||◌, List, [], ◌∷◌, ◌++◌, ◌==◌, if◌then◌else◌}
use topology_maps.Text.{Text, codes}
use topology_maps.Json.{Json, arr, nil}
use topology_maps.Store.State.{Exception}

-- A document, an HTTPStatusError with its status, or another exception.
pub data Reply : Type 0 where
  document : Json → Reply
  status_error : (status_code : ℕ) → Reply
  failure : Exception → Reply

elem_status : ℕ → List ℕ → Bool
elem_status s [] = false
elem_status s (t ∷ ts) = (s == t) || elem_status s ts

-- try: ... except httpx.HTTPStatusError
unfoldable pub empty_on : List ℕ → Reply → Reply
unfolding elem_status
empty_on statuses (status_error s) =
    if elem_status s statuses then document (arr nil) else status_error s
empty_on statuses reply = reply

abbrev org_path : Text → Text → Text
org_path org_id rest = codes "/organizations/" ++ (org_id ++ rest)

abbrev network_path : Text → Text → Text
network_path network_id rest = codes "/networks/" ++ (network_id ++ rest)

abbrev device_path : Text → Text → Text
device_path serial rest = codes "/devices/" ++ (serial ++ rest)

module _ (get : Text → Reply) where
  unfoldable pub get_organizations : Reply
  get_organizations = get (codes "/organizations")

  unfoldable pub get_org_devices : Text → Reply
  get_org_devices org_id = get (org_path org_id (codes "/devices"))

  unfoldable pub get_org_device_availabilities : Text → Reply
  get_org_device_availabilities org_id = get (org_path org_id (codes "/devices/availabilities"))

  unfoldable pub get_org_device_uplinks_addresses : Text → Reply
  get_org_device_uplinks_addresses org_id =
      get (org_path org_id (codes "/devices/uplinks/addresses/byDevice"))

  unfoldable pub get_org_networks : Text → Reply
  get_org_networks org_id = get (org_path org_id (codes "/networks"))

  unfoldable pub get_network_topology : Text → Reply
  get_network_topology network_id = get (network_path network_id (codes "/topology/linkLayer"))

  unfoldable pub get_network_vlans : Text → Reply
  unfolding empty_on
  get_network_vlans network_id =
      empty_on (400 ∷ []) (get (network_path network_id (codes "/appliance/vlans")))

  unfoldable pub get_network_ssids : Text → Reply
  unfolding empty_on
  get_network_ssids network_id =
      empty_on (400 ∷ []) (get (network_path network_id (codes "/wireless/ssids")))

  unfoldable pub get_device_switch_ports : Text → Reply
  unfolding empty_on
  get_device_switch_ports serial =
      empty_on (400 ∷ 404 ∷ []) (get (device_path serial (codes "/switch/ports/statuses")))

  unfoldable pub get_network_switch_stacks : Text → Reply
  unfolding empty_on
  get_network_switch_stacks network_id =
      empty_on (400 ∷ 404 ∷ []) (get (network_path network_id (codes "/switch/stacks")))
