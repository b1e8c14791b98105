-- ===== src/Transformer/Sites.antt =====
-- `build_sites` of server/meraki_transformer.py and its health buckets. A ratio is a numerator and a
-- denominator: the float quotients and bounds compare as the exact ones do for any number of devices
-- below 2^50. A latitude or a longitude is the text of its number.
use topology_maps.Prelude.{
  ℕ, suc, ◌+◌, ◌*◌, Bool, true, false, Option, none, some, List, [], ◌∷◌, ◌++◌, length, leb, ◌==◌,
  if◌then◌else◌,
}
use topology_maps.Text.{Text, codes, text_eq}
use topology_maps.Dict.{Dict, put, get_or}
use topology_maps.Ingest.Graph.{or_empty, truthy}
use topology_maps.Transformer.Layer2.{DeviceData, Availability}

pub record NetworkData : Type 0 where
  pub id : Option Text
  pub name : Option Text

pub data HealthBucket : Type 0 where
  unknown green yellow orange red : HealthBucket

pub record Site : Type 0 where
  pub network_id : Text
  pub name : Text
  pub lat : Option Text
  pub lng : Option Text
  pub device_count : ℕ
  pub health_bucket : HealthBucket
  pub unhealthy_pct : Option (ℕ × ℕ)
  pub mapped : Bool

unfoldable pub health_bucket : Option (ℕ × ℕ) → HealthBucket
health_bucket none = unknown
health_bucket (some (n, d)) =
    if n == 0
    then green
    else if leb (n * 4) d
    then yellow
    else if leb (n * 100) (60 * d)
    then orange
    else red

-- devices_by_network
unfoldable pub group : List DeviceData → Dict (List DeviceData) → Dict (List DeviceData)
unfolding put get_or or_empty truthy
group [] d = d
group (dev ∷ devices) d =
    let net_id = or_empty dev.network_id in
    group devices (if truthy net_id then put net_id (get_or net_id [] d ++ dev ∷ []) d else d)

-- status_by_serial
unfoldable pub statuses : List Availability → Dict Text → Dict Text
unfolding put or_empty
statuses [] d = d
statuses (a ∷ rest) d =
    statuses rest (elim a.serial [ none ↦ d | some serial ↦ put serial (or_empty a.status) d ])

-- status_by_serial.get(serial, "") if serial else ""
unfoldable pub device_status : Dict Text → DeviceData → Text
unfolding get_or or_empty truthy
device_status d dev = if truthy (or_empty dev.serial) then get_or (or_empty dev.serial) [] d else []

pub record Tally : Type 0 where
  pub online : ℕ
  pub alerting : ℕ
  pub offline : ℕ

unfoldable pub count_status : Text → Tally → Tally
unfolding text_eq
count_status t c =
    if text_eq t (codes "online")
    then record c { online = suc c.online }
    else if text_eq t (codes "alerting")
    then record c { alerting = suc c.alerting }
    else if text_eq t (codes "offline")
    then record c { offline = suc c.offline }
    else c

unfoldable pub tally : Dict Text → List DeviceData → Tally → Tally
unfolding count_status device_status
tally d [] c = c
tally d (dev ∷ devices) c = tally d devices (count_status (device_status d dev) c)

-- The first device that has both.
unfoldable pub location : List DeviceData → Option (Text × Text)
location [] = none
location (dev ∷ devices) = elim dev.lat [
  | none ↦ location devices
  | some lat ↦ elim dev.lng [ none ↦ location devices | some lng ↦ some (lat, lng) ]
]

unfoldable pub unhealthy : Tally → Option (ℕ × ℕ)
unhealthy c =
    let denominator = c.online + c.alerting + c.offline in
    if denominator == 0 then none else some (c.alerting + c.offline, denominator)

net_name : Text → Option Text → Text
net_name net_id none = net_id
net_name net_id (some name) = name

place : Option (Text × Text) → Option Text × Option Text × Bool
place none = (none, none, false)
place (some (lat, lng)) = (some lat, some lng, true)

unfoldable pub site_of : Dict Text → Text → Option Text → List DeviceData → Site
unfolding tally unhealthy health_bucket location net_name place
site_of d net_id name devices =
    let pct = unhealthy (tally d devices (record { online = 0; alerting = 0; offline = 0 })) in
    let (lat, lng, mapped) = place (location devices) in
    record {
      network_id = net_id;
      name = net_name net_id name;
      lat = lat;
      lng = lng;
      device_count = length devices;
      health_bucket = health_bucket pct;
      unhealthy_pct = pct;
      mapped = mapped;
    }

unfoldable pub sites_of : Dict Text → Dict (List DeviceData) → List NetworkData → List Site
unfolding site_of or_empty truthy get_or
sites_of d groups [] = []
sites_of d groups (net ∷ nets) =
    let rest = sites_of d groups nets in
    let net_id = or_empty net.id in
    if truthy net_id then site_of d net_id net.name (get_or net_id [] groups) ∷ rest else rest

unfoldable pub build_sites : List NetworkData → List DeviceData → List Availability → List Site
unfolding group statuses sites_of
build_sites nets devices availabilities =
    sites_of (statuses availabilities []) (group devices []) nets
