-- ===== src/Redactor/Catalog.antt =====
-- server/config_collector/redaction_catalog.py: the paths to mask and the paths to delete, by area.
use topology_maps.Prelude.{List, [], ◌∷◌, if◌then◌else◌}
use topology_maps.Text.{Text, codes, text_eq}

unfoldable pub redaction_paths : List (Text × List Text)
redaction_paths =
    (
      codes "wireless_ssids",
      codes "[*].psk"
          ∷ codes "[*].radiusServers[*].secret"
          ∷ codes "[*].radiusAccountingServers[*].secret"
          ∷ [],
    )
    ∷ (codes "wireless_ssid_identity_psks", codes "[*].passphrase" ∷ [])
    ∷ (
      codes "appliance_site_to_site_vpn",
      codes "peers[*].secret" ∷ codes "peers[*].ikev2.secret" ∷ [],
    )
    ∷ (codes "network_snmp", codes "communityString" ∷ codes "users[*].passphrase" ∷ [])
    ∷ (codes "org_snmp", codes "v2CommunityString" ∷ codes "users[*].passphrase" ∷ [])
    ∷ (codes "network_webhooks_http_servers", codes "[*].sharedSecret" ∷ [])
    ∷ []

unfoldable pub normalization_paths : List (Text × List Text)
normalization_paths =
    (
      codes "device_management_interface",
      codes "ddnsHostname"
          ∷ codes "wan1.staticIp"
          ∷ codes "wan1.staticGateway"
          ∷ codes "wan2.staticIp"
          ∷ codes "wan2.staticGateway"
          ∷ [],
    )
    ∷ (codes "switch_device_ports", codes "[*].linkNegotiationCapabilities" ∷ [])
    ∷ (codes "switch_device_warm_spare", codes "spareSerial" ∷ [])
    ∷ (
      codes "switch_device_routing_interfaces",
      codes "[*].interfaceId"
          ∷ codes "[*].ip"
          ∷ codes "[*].subnet"
          ∷ codes "[*].defaultGateway"
          ∷ [],
    )
    ∷ (
      codes "switch_device_routing_static_routes",
      codes "[*].staticRouteId" ∷ codes "[*].nextHopIp" ∷ codes "[*].subnet" ∷ [],
    )
    ∷ (codes "wireless_device_bluetooth", codes "uuid" ∷ codes "major" ∷ codes "minor" ∷ [])
    ∷ []

-- paths.get(area, ())
unfoldable pub paths_for : Text → List (Text × List Text) → List Text
unfolding text_eq
paths_for area [] = []
paths_for area ((a, paths) ∷ rest) = if text_eq a area then paths else paths_for area rest
