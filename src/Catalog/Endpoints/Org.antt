-- ===== src/Catalog/Endpoints/Org.antt =====
-- server/config_collector/_endpoints_org.py
use topology_maps.Prelude.{true, false, List, [], ◌∷◌}
use topology_maps.Text.{codes}
use topology_maps.Catalog.Spec.{EndpointSpec, spec, org}

unfoldable pub org_endpoints : List EndpointSpec
org_endpoints =
    spec (codes "org_admins") org (codes "/organizations/{org_id}/admins") [] 1 false
    ∷ spec (codes "org_saml_roles") org (codes "/organizations/{org_id}/samlRoles") [] 1 false
    ∷ spec (codes "org_saml") org (codes "/organizations/{org_id}/saml") [] 1 false
    ∷ spec (codes "org_login_security") org (codes "/organizations/{org_id}/loginSecurity") [] 1
        false
    ∷ spec (codes "org_policy_objects") org (codes "/organizations/{org_id}/policyObjects") [] 1
        true
    ∷ spec (codes "org_policy_object_groups") org
        (codes "/organizations/{org_id}/policyObjects/groups") [] 1 true
    ∷ spec (codes "org_config_templates") org (codes "/organizations/{org_id}/configTemplates") [] 1
        false
    ∷ spec (codes "org_adaptive_policy_settings") org
        (codes "/organizations/{org_id}/adaptivePolicy/settings") [] 2 false
    ∷ spec (codes "org_adaptive_policy_acls") org
        (codes "/organizations/{org_id}/adaptivePolicy/acls") [] 2 false
    ∷ spec (codes "org_adaptive_policy_groups") org
        (codes "/organizations/{org_id}/adaptivePolicy/groups") [] 2 false
    ∷ spec (codes "org_adaptive_policy_policies") org
        (codes "/organizations/{org_id}/adaptivePolicy/policies") [] 2 false
    ∷ spec (codes "org_appliance_vpn_third_party_peers") org
        (codes "/organizations/{org_id}/appliance/vpn/thirdPartyVPNPeers") [] 1 false
    ∷ spec (codes "org_appliance_vpn_firewall") org
        (codes "/organizations/{org_id}/appliance/vpn/vpnFirewallRules") [] 1 false
    ∷ spec (codes "org_snmp") org (codes "/organizations/{org_id}/snmp") [] 2 false
    ∷ spec (codes "org_alerts_profiles") org (codes "/organizations/{org_id}/alerts/profiles") [] 2
        false
    ∷ spec (codes "org_inventory_devices") org (codes "/organizations/{org_id}/inventory/devices")
        [] 2 true
    ∷ spec (codes "org_licenses_per_device") org (codes "/organizations/{org_id}/licenses") [] 2
        true
    ∷ spec (codes "org_licenses_coterm") org
        (codes "/organizations/{org_id}/licensing/coterm/licenses") [] 2 true
    ∷ []
