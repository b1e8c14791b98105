-- ===== src/Catalog/Endpoints/Appliance.antt =====
-- server/config_collector/_endpoints_network.py: MX
use topology_maps.Prelude.{false, List, [], ◌∷◌}
use topology_maps.Text.{codes}
use topology_maps.Catalog.Spec.{EndpointSpec, spec, network}

unfoldable pub mx : List EndpointSpec
mx =
    spec (codes "appliance_vlans") network (codes "/networks/{network_id}/appliance/vlans")
      (codes "appliance" ∷ []) 1 false
    ∷ spec (codes "appliance_vlans_settings") network
        (codes "/networks/{network_id}/appliance/vlans/settings") (codes "appliance" ∷ []) 1 false
    ∷ spec (codes "appliance_single_lan") network
        (codes "/networks/{network_id}/appliance/singleLan") (codes "appliance" ∷ []) 1 false
    ∷ spec (codes "appliance_ports") network (codes "/networks/{network_id}/appliance/ports")
        (codes "appliance" ∷ []) 1 false
    ∷ spec (codes "appliance_firewall_l3") network
        (codes "/networks/{network_id}/appliance/firewall/l3FirewallRules") (codes "appliance" ∷ [])
        1 false
    ∷ spec (codes "appliance_firewall_l7") network
        (codes "/networks/{network_id}/appliance/firewall/l7FirewallRules") (codes "appliance" ∷ [])
        1 false
    ∷ spec (codes "appliance_firewall_inbound") network
        (codes "/networks/{network_id}/appliance/firewall/inboundFirewallRules")
        (codes "appliance" ∷ []) 1 false
    ∷ spec (codes "appliance_firewall_port_forwarding") network
        (codes "/networks/{network_id}/appliance/firewall/portForwardingRules")
        (codes "appliance" ∷ []) 1 false
    ∷ spec (codes "appliance_firewall_one_to_one_nat") network
        (codes "/networks/{network_id}/appliance/firewall/oneToOneNatRules")
        (codes "appliance" ∷ []) 1 false
    ∷ spec (codes "appliance_firewall_one_to_many_nat") network
        (codes "/networks/{network_id}/appliance/firewall/oneToManyNatRules")
        (codes "appliance" ∷ []) 2 false
    ∷ spec (codes "appliance_firewall_firewalled_services") network
        (codes "/networks/{network_id}/appliance/firewall/firewalledServices")
        (codes "appliance" ∷ []) 2 false
    ∷ spec (codes "appliance_firewall_settings") network
        (codes "/networks/{network_id}/appliance/firewall/settings") (codes "appliance" ∷ []) 2
        false
    ∷ spec (codes "appliance_firewall_cellular") network
        (codes "/networks/{network_id}/appliance/firewall/cellularFirewallRules")
        (codes "appliance" ∷ []) 2 false
    ∷ spec (codes "appliance_content_filtering") network
        (codes "/networks/{network_id}/appliance/contentFiltering") (codes "appliance" ∷ []) 1 false
    ∷ spec (codes "appliance_security_intrusion") network
        (codes "/networks/{network_id}/appliance/security/intrusion") (codes "appliance" ∷ []) 1
        false
    ∷ spec (codes "appliance_security_malware") network
        (codes "/networks/{network_id}/appliance/security/malware") (codes "appliance" ∷ []) 1 false
    ∷ spec (codes "appliance_traffic_shaping_rules") network
        (codes "/networks/{network_id}/appliance/trafficShaping/rules") (codes "appliance" ∷ []) 1
        false
    ∷ spec (codes "appliance_uplink_bandwidth") network
        (codes "/networks/{network_id}/appliance/trafficShaping/uplinkBandwidth")
        (codes "appliance" ∷ []) 1 false
    ∷ spec (codes "appliance_uplink_selection") network
        (codes "/networks/{network_id}/appliance/trafficShaping/uplinkSelection")
        (codes "appliance" ∷ []) 1 false
    ∷ spec (codes "appliance_custom_performance_classes") network
        (codes "/networks/{network_id}/appliance/trafficShaping/customPerformanceClasses")
        (codes "appliance" ∷ []) 2 false
    ∷ spec (codes "appliance_site_to_site_vpn") network
        (codes "/networks/{network_id}/appliance/vpn/siteToSiteVpn") (codes "appliance" ∷ []) 1
        false
    ∷ spec (codes "appliance_vpn_bgp") network (codes "/networks/{network_id}/appliance/vpn/bgp")
        (codes "appliance" ∷ []) 2 false
    ∷ spec (codes "appliance_static_routes") network
        (codes "/networks/{network_id}/appliance/staticRoutes") (codes "appliance" ∷ []) 1 false
    ∷ spec (codes "appliance_warm_spare") network
        (codes "/networks/{network_id}/appliance/warmSpare") (codes "appliance" ∷ []) 1 false
    ∷ spec (codes "appliance_connectivity_monitoring") network
        (codes "/networks/{network_id}/appliance/connectivityMonitoringDestinations")
        (codes "appliance" ∷ []) 2 false
    ∷ spec (codes "appliance_settings") network (codes "/networks/{network_id}/appliance/settings")
        (codes "appliance" ∷ []) 2 false
    ∷ []
