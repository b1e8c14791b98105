-- ===== src/Catalog/Endpoints/Generic.antt =====
-- server/config_collector/_endpoints_network.py: what always applies, the wireless lists and the
-- rest of the products
use topology_maps.Prelude.{false, List, [], ◌∷◌}
use topology_maps.Text.{codes}
use topology_maps.Catalog.Spec.{EndpointSpec, spec, network, ssid}

unfoldable pub generic : List EndpointSpec
generic =
    spec (codes "network_metadata") network (codes "/networks/{network_id}") [] 1 false
    ∷ spec (codes "network_settings") network (codes "/networks/{network_id}/settings") [] 1 false
    ∷ spec (codes "network_group_policies") network (codes "/networks/{network_id}/groupPolicies")
        [] 1 false
    ∷ spec (codes "network_syslog_servers") network (codes "/networks/{network_id}/syslogServers")
        [] 1 false
    ∷ spec (codes "network_snmp") network (codes "/networks/{network_id}/snmp") [] 2 false
    ∷ spec (codes "network_traffic_analysis") network
        (codes "/networks/{network_id}/trafficAnalysis") [] 2 false
    ∷ spec (codes "network_netflow") network (codes "/networks/{network_id}/netflow") [] 2 false
    ∷ spec (codes "network_alerts_settings") network
        (codes "/networks/{network_id}/alerts/settings") [] 2 false
    ∷ spec (codes "network_webhooks_http_servers") network
        (codes "/networks/{network_id}/webhooks/httpServers") [] 2 false
    ∷ spec (codes "network_webhooks_payload_templates") network
        (codes "/networks/{network_id}/webhooks/payloadTemplates") [] 2 false
    ∷ spec (codes "network_firmware_upgrades") network
        (codes "/networks/{network_id}/firmwareUpgrades") [] 2 false
    ∷ spec (codes "network_floor_plans") network (codes "/networks/{network_id}/floorPlans") [] 2
        false
    ∷ []

unfoldable pub mr : List EndpointSpec
mr =
    spec (codes "wireless_ssids") network (codes "/networks/{network_id}/wireless/ssids")
      (codes "wireless" ∷ []) 1 false
    ∷ spec (codes "wireless_rf_profiles") network
        (codes "/networks/{network_id}/wireless/rfProfiles") (codes "wireless" ∷ []) 1 false
    ∷ spec (codes "wireless_settings") network (codes "/networks/{network_id}/wireless/settings")
        (codes "wireless" ∷ []) 1 false
    ∷ spec (codes "wireless_bluetooth") network
        (codes "/networks/{network_id}/wireless/bluetooth/settings") (codes "wireless" ∷ []) 2 false
    ∷ spec (codes "wireless_ap_port_profiles") network
        (codes "/networks/{network_id}/wireless/ethernet/ports/profiles") (codes "wireless" ∷ []) 2
        false
    ∷ []

unfoldable pub per_ssid : List EndpointSpec
per_ssid =
    spec (codes "wireless_ssid_l3_firewall") ssid
      (codes "/networks/{network_id}/wireless/ssids/{ssid_number}/firewall/l3FirewallRules")
      (codes "wireless" ∷ []) 1 false
    ∷ spec (codes "wireless_ssid_l7_firewall") ssid
        (codes "/networks/{network_id}/wireless/ssids/{ssid_number}/firewall/l7FirewallRules")
        (codes "wireless" ∷ []) 1 false
    ∷ spec (codes "wireless_ssid_traffic_shaping") ssid
        (codes "/networks/{network_id}/wireless/ssids/{ssid_number}/trafficShaping/rules")
        (codes "wireless" ∷ []) 1 false
    ∷ spec (codes "wireless_ssid_splash") ssid
        (codes "/networks/{network_id}/wireless/ssids/{ssid_number}/splash/settings")
        (codes "wireless" ∷ []) 2 false
    ∷ spec (codes "wireless_ssid_schedules") ssid
        (codes "/networks/{network_id}/wireless/ssids/{ssid_number}/schedules")
        (codes "wireless" ∷ []) 2 false
    ∷ spec (codes "wireless_ssid_vpn") ssid
        (codes "/networks/{network_id}/wireless/ssids/{ssid_number}/vpn") (codes "wireless" ∷ []) 2
        false
    ∷ spec (codes "wireless_ssid_device_type_policies") ssid
        (codes "/networks/{network_id}/wireless/ssids/{ssid_number}/deviceTypeGroupPolicies")
        (codes "wireless" ∷ []) 2 false
    ∷ spec (codes "wireless_ssid_identity_psks") ssid
        (codes "/networks/{network_id}/wireless/ssids/{ssid_number}/identityPsks")
        (codes "wireless" ∷ []) 2 false
    ∷ []

unfoldable pub mv_mg_sm : List EndpointSpec
mv_mg_sm =
    spec (codes "camera_quality_retention") network
      (codes "/networks/{network_id}/camera/qualityRetentionProfiles") (codes "camera" ∷ []) 2 false
    ∷ spec (codes "camera_schedules") network (codes "/networks/{network_id}/camera/schedules")
        (codes "camera" ∷ []) 2 false
    ∷ spec (codes "cellular_dhcp") network (codes "/networks/{network_id}/cellularGateway/dhcp")
        (codes "cellularGateway" ∷ []) 2 false
    ∷ spec (codes "cellular_subnet_pool") network
        (codes "/networks/{network_id}/cellularGateway/subnetPool") (codes "cellularGateway" ∷ []) 2
        false
    ∷ spec (codes "cellular_uplink") network (codes "/networks/{network_id}/cellularGateway/uplink")
        (codes "cellularGateway" ∷ []) 2 false
    ∷ spec (codes "cellular_connectivity_monitoring") network
        (codes "/networks/{network_id}/cellularGateway/connectivityMonitoringDestinations")
        (codes "cellularGateway" ∷ []) 2 false
    ∷ spec (codes "sm_profiles") network (codes "/networks/{network_id}/sm/profiles")
        (codes "systemsManager" ∷ []) 2 false
    ∷ []
