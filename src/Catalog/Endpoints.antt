-- ===== src/Catalog/Endpoints.antt =====
-- The catalog of server/config_collector/endpoints_catalog.py, put together from its parts.
mod Org
mod Device
mod Generic
mod Appliance
mod Switch
unfoldable pub use Org.{org_endpoints}
unfoldable pub use Device.{device_endpoints}
unfoldable pub use Generic.{generic, mr, per_ssid, mv_mg_sm}
unfoldable pub use Appliance.{mx}
unfoldable pub use Switch.{ms}
use topology_maps.Prelude.{List, ◌++◌}
use topology_maps.Catalog.Spec.{EndpointSpec}

unfoldable pub network_endpoints : List EndpointSpec
unfolding generic mx ms mr per_ssid mv_mg_sm
network_endpoints = generic ++ (mx ++ (ms ++ (mr ++ (per_ssid ++ mv_mg_sm))))

unfoldable pub endpoints : List EndpointSpec
unfolding org_endpoints network_endpoints device_endpoints
endpoints = org_endpoints ++ (network_endpoints ++ device_endpoints)
