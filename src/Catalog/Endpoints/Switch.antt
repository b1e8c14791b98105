-- ===== src/Catalog/Endpoints/Switch.antt =====
-- server/config_collector/_endpoints_network.py: MS
use topology_maps.Prelude.{false, List, [], ◌∷◌}
use topology_maps.Text.{codes}
use topology_maps.Catalog.Spec.{EndpointSpec, spec, network}

unfoldable pub ms : List EndpointSpec
ms =
    spec (codes "switch_access_policies") network
      (codes "/networks/{network_id}/switch/accessPolicies") (codes "switch" ∷ []) 1 false
    ∷ spec (codes "switch_acls") network (codes "/networks/{network_id}/switch/accessControlLists")
        (codes "switch" ∷ []) 1 false
    ∷ spec (codes "switch_qos_rules") network (codes "/networks/{network_id}/switch/qosRules")
        (codes "switch" ∷ []) 1 false
    ∷ spec (codes "switch_qos_order") network (codes "/networks/{network_id}/switch/qosRules/order")
        (codes "switch" ∷ []) 1 false
    ∷ spec (codes "switch_dscp_to_cos") network
        (codes "/networks/{network_id}/switch/dscpToCosMappings") (codes "switch" ∷ []) 2 false
    ∷ spec (codes "switch_settings") network (codes "/networks/{network_id}/switch/settings")
        (codes "switch" ∷ []) 2 false
    ∷ spec (codes "switch_stp") network (codes "/networks/{network_id}/switch/stp")
        (codes "switch" ∷ []) 1 false
    ∷ spec (codes "switch_storm_control") network
        (codes "/networks/{network_id}/switch/stormControl") (codes "switch" ∷ []) 2 false
    ∷ spec (codes "switch_mtu") network (codes "/networks/{network_id}/switch/mtu")
        (codes "switch" ∷ []) 2 false
    ∷ spec (codes "switch_stacks") network (codes "/networks/{network_id}/switch/stacks")
        (codes "switch" ∷ []) 1 false
    ∷ spec (codes "switch_port_schedules") network
        (codes "/networks/{network_id}/switch/portSchedules") (codes "switch" ∷ []) 2 false
    ∷ spec (codes "switch_link_aggregations") network
        (codes "/networks/{network_id}/switch/linkAggregations") (codes "switch" ∷ []) 1 false
    ∷ spec (codes "switch_dhcp_server_policy") network
        (codes "/networks/{network_id}/switch/dhcpServerPolicy") (codes "switch" ∷ []) 1 false
    ∷ spec (codes "switch_multicast") network
        (codes "/networks/{network_id}/switch/routing/multicast") (codes "switch" ∷ []) 2 false
    ∷ spec (codes "switch_multicast_rps") network
        (codes "/networks/{network_id}/switch/routing/multicast/rendezvousPoints")
        (codes "switch" ∷ []) 2 false
    ∷ spec (codes "switch_ospf") network (codes "/networks/{network_id}/switch/routing/ospf")
        (codes "switch" ∷ []) 2 false
    ∷ []
