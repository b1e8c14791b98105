-- ===== src/Catalog/Endpoints/Device.antt =====
-- server/config_collector/_endpoints_device.py
use topology_maps.Prelude.{false, List, [], ◌∷◌}
use topology_maps.Text.{codes}
use topology_maps.Catalog.Spec.{EndpointSpec, spec, device}

unfoldable pub device_endpoints : List EndpointSpec
device_endpoints =
    spec (codes "device_metadata") device (codes "/devices/{serial}") [] 1 false
    ∷ spec (codes "device_management_interface") device
        (codes "/devices/{serial}/managementInterface") [] 1 false
    ∷ spec (codes "switch_device_ports") device (codes "/devices/{serial}/switch/ports")
        (codes "switch" ∷ []) 1 false
    ∷ spec (codes "switch_device_routing_interfaces") device
        (codes "/devices/{serial}/switch/routing/interfaces") (codes "switch" ∷ []) 2 false
    ∷ spec (codes "switch_device_routing_static_routes") device
        (codes "/devices/{serial}/switch/routing/staticRoutes") (codes "switch" ∷ []) 2 false
    ∷ spec (codes "switch_device_warm_spare") device (codes "/devices/{serial}/switch/warmSpare")
        (codes "switch" ∷ []) 2 false
    ∷ spec (codes "wireless_device_radio_settings") device
        (codes "/devices/{serial}/wireless/radio/settings") (codes "wireless" ∷ []) 1 false
    ∷ spec (codes "wireless_device_bluetooth") device
        (codes "/devices/{serial}/wireless/bluetooth/settings") (codes "wireless" ∷ []) 2 false
    ∷ spec (codes "appliance_device_uplinks") device
        (codes "/devices/{serial}/appliance/uplinks/settings") (codes "appliance" ∷ []) 1 false
    ∷ spec (codes "camera_device_quality_retention") device
        (codes "/devices/{serial}/camera/qualityAndRetention") (codes "camera" ∷ []) 2 false
    ∷ spec (codes "camera_device_video_settings") device
        (codes "/devices/{serial}/camera/videoSettings") (codes "camera" ∷ []) 2 false
    ∷ spec (codes "camera_device_sense") device (codes "/devices/{serial}/camera/sense")
        (codes "camera" ∷ []) 2 false
    ∷ []
