-- ===== src/Catalog/Tests.antt =====
-- Runs of endpoints_catalog.py on a small organisation.
use topology_maps.Prelude.{ℕ, ◌≡◌, refl, ◌↔◌, false, none, some, List, [], ◌∷◌, In}
use topology_maps.Text.{Text, codes, text_eq}
use topology_maps.Catalog.{Network, Device, expand_for_org, format}
use topology_maps.Catalog.Spec.{Job, org}
use topology_maps.Catalog.Events.{event_to_endpoints}
use topology_maps.Catalog.Expand.{Wanted, expand_for_org_iff}
use topology_maps.Catalog.Tables.{expand_for_org_total}

abbrev networks : List Network
networks = record { id = codes "N1"; product_types = codes "wireless" ∷ codes "switch" ∷ [] } ∷ []

abbrev devices : List (Text × List Device)
devices =
    (codes "N1", record { serial = codes "Q2"; product_type = some (codes "switch") } ∷ []) ∷ []

abbrev ssids : List (Text × List ℕ)
ssids = (codes "N1", 0 ∷ 3 ∷ []) ∷ []

abbrev jobs : List Job
jobs = (expand_for_org_total (codes "O") networks devices ssids).0

format_runs :
    format
      ((codes "network_id", codes "N1") ∷ (codes "ssid_number", codes "3") ∷ [])
      (codes "/networks/{network_id}/wireless/ssids/{ssid_number}")
    ≡ some (codes "/networks/N1/wireless/ssids/3")
unfolding format text_eq
format_runs = refl

event_runs :
    event_to_endpoints (record {
      page = some (codes "Switch > ACL rules");
      network_id = none;
      ssid_number = none;
      ts = none;
      label = none;
      old_value = none;
      new_value = none;
    })
    ≡ codes "switch_acls" ∷ []
unfolding event_to_endpoints
event_runs = refl

expand_for_org_total_example :
    (js : List Job) × (expand_for_org (codes "O") networks devices ssids ≡ some js)
expand_for_org_total_example = expand_for_org_total (codes "O") networks devices ssids

abbrev admins : Job
admins = record {
  url = codes "/organizations/O/admins";
  key = record {
    entity_type = org;
    entity_id = codes "O";
    config_area = codes "org_admins";
    sub_key = none;
  };
  paginated = false;
}

expand_for_org_iff_example : In admins jobs ↔ Wanted (codes "O") networks devices ssids admins
expand_for_org_iff_example =
    expand_for_org_iff (codes "O") networks devices ssids jobs admins
      (expand_for_org_total (codes "O") networks devices ssids).1
