-- ===== src/Catalog/Events.antt =====
-- The change-log mapping of server/config_collector/endpoints_catalog.py. A set is the list of its
-- members; the order in which Python would walk one is not modelled.
use topology_maps.Prelude.{Option, none, some, ℕ, List, [], ◌∷◌, if◌then◌else◌}
use topology_maps.Text.{Text, codes, starts_with, elem}

-- The fields of a change-log event that the collector reads.
pub record ChangeEvent : Type 0 where
  pub page : Option Text
  pub network_id : Option Text
  pub ssid_number : Option ℕ
  pub ts : Option Text
  pub label : Option Text
  pub old_value : Option Text
  pub new_value : Option Text

unfoldable pub page_prefix_map : List (Text × List Text)
page_prefix_map =
    (
      codes "Security & SD-WAN > Addressing & VLANs",
      codes "appliance_vlans"
          ∷ codes "appliance_vlans_settings"
          ∷ codes "appliance_single_lan"
          ∷ [],
    )
    ∷ (
      codes "Security & SD-WAN > Firewall",
      codes "appliance_firewall_l3"
          ∷ codes "appliance_firewall_l7"
          ∷ codes "appliance_firewall_inbound"
          ∷ codes "appliance_firewall_port_forwarding"
          ∷ codes "appliance_firewall_one_to_one_nat"
          ∷ codes "appliance_firewall_one_to_many_nat"
          ∷ [],
    )
    ∷ (codes "Security & SD-WAN > Content filtering", codes "appliance_content_filtering" ∷ [])
    ∷ (
      codes "Security & SD-WAN > Threat protection",
      codes "appliance_security_intrusion" ∷ codes "appliance_security_malware" ∷ [],
    )
    ∷ (
      codes "Security & SD-WAN > SD-WAN & traffic shaping",
      codes "appliance_traffic_shaping_rules"
          ∷ codes "appliance_uplink_bandwidth"
          ∷ codes "appliance_uplink_selection"
          ∷ [],
    )
    ∷ (
      codes "Security & SD-WAN > Site-to-site VPN",
      codes "appliance_site_to_site_vpn" ∷ codes "appliance_vpn_bgp" ∷ [],
    )
    ∷ (codes "Security & SD-WAN > Static routes", codes "appliance_static_routes" ∷ [])
    ∷ (
      codes "Switch > Switch settings",
      codes "switch_settings" ∷ codes "switch_stp" ∷ codes "switch_mtu" ∷ [],
    )
    ∷ (codes "Switch > ACL", codes "switch_acls" ∷ [])
    ∷ (codes "Switch > Access policies", codes "switch_access_policies" ∷ [])
    ∷ (
      codes "Switch > QoS",
      codes "switch_qos_rules" ∷ codes "switch_qos_order" ∷ codes "switch_dscp_to_cos" ∷ [],
    )
    ∷ (codes "Switch > Stacks", codes "switch_stacks" ∷ [])
    ∷ (codes "Switch > Link aggregation", codes "switch_link_aggregations" ∷ [])
    ∷ (codes "Switch > DHCP servers & ARP", codes "switch_dhcp_server_policy" ∷ [])
    ∷ (codes "Wireless > SSIDs", codes "wireless_ssids" ∷ [])
    ∷ (
      codes "Wireless > Access Control",
      codes "wireless_ssids" ∷ codes "wireless_ssid_traffic_shaping" ∷ [],
    )
    ∷ (
      codes "Wireless > Firewall & traffic shaping",
      codes "wireless_ssid_l3_firewall"
          ∷ codes "wireless_ssid_l7_firewall"
          ∷ codes "wireless_ssid_traffic_shaping"
          ∷ [],
    )
    ∷ (codes "Wireless > RF profiles", codes "wireless_rf_profiles" ∷ [])
    ∷ (codes "Network-wide > General", codes "network_metadata" ∷ codes "network_settings" ∷ [])
    ∷ (codes "Network-wide > Alerts", codes "network_alerts_settings" ∷ [])
    ∷ (codes "Network-wide > Group policies", codes "network_group_policies" ∷ [])
    ∷ (codes "Organization > Administrators", codes "org_admins" ∷ codes "org_saml_roles" ∷ [])
    ∷ (codes "Organization > Configuration templates", codes "org_config_templates" ∷ [])
    ∷ (
      codes "Organization > Policy objects",
      codes "org_policy_objects" ∷ codes "org_policy_object_groups" ∷ [],
    )
    ∷ []

unfoldable pub per_ssid_subareas : List Text
per_ssid_subareas =
    codes "wireless_ssid_l3_firewall"
    ∷ codes "wireless_ssid_l7_firewall"
    ∷ codes "wireless_ssid_traffic_shaping"
    ∷ codes "wireless_ssid_splash"
    ∷ codes "wireless_ssid_schedules"
    ∷ codes "wireless_ssid_vpn"
    ∷ codes "wireless_ssid_device_type_policies"
    ∷ codes "wireless_ssid_identity_psks"
    ∷ []

-- a | b
unfoldable pub union : List Text → List Text → List Text
unfolding elem
union [] b = b
union (t ∷ a) b = if elem t b then union a b else t ∷ union a b

-- The first prefix that the page starts with decides.
unfoldable pub areas_of_page : Text → List (Text × List Text) → List Text
unfolding starts_with
areas_of_page page [] = []
areas_of_page page ((prefix, areas) ∷ rest) =
    if starts_with prefix page then areas else areas_of_page page rest

abbrev pub or_empty : Option Text → Text
or_empty none = []
or_empty (some t) = t

unfoldable pub event_to_endpoints : ChangeEvent → List Text
unfolding areas_of_page page_prefix_map per_ssid_subareas union
event_to_endpoints event =
    let areas = areas_of_page (or_empty event.page) page_prefix_map in
    elim event.ssid_number [
      | none ↦ areas
      | some n ↦ union areas (codes "wireless_ssids" ∷ per_ssid_subareas)
    ]
