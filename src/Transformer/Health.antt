-- ===== src/Transformer/Health.antt =====
-- A site is the summary of the devices of its network.
use topology_maps.Prelude.{
  ℕ, ◌+◌, ◌*◌, ◌≤◌, ◌<◌, ◌≡◌, refl, sym, ap, ◌↔◌, inl, inr, true, false, Option, none, some, List,
  Option-cases, [], ◌∷◌, ◌++◌, length, filter_by, map, All, append_assoc, append-nil, arith, subst,
  if◌then◌else◌, Bool-cases,
}
use topology_maps.Text.{Text, codes, text_eq, text_eq_iff}
use topology_maps.Dict.{Dict, get, put, get_or, get_or-put}
use topology_maps.Ingest.Graph.{or_empty, truthy}
use topology_maps.Transformer.Layer2.{DeviceData, Availability}
use topology_maps.Transformer.Sites.{
  NetworkData, HealthBucket, unknown, green, yellow, orange, red, Site, health_bucket, group,
  statuses, device_status, Tally, count_status, tally, unhealthy, site_of, sites_of, build_sites,
}

-- The devices of a network, in their order.
abbrev pub devices_at : Text → List DeviceData → List DeviceData
devices_at net_id devices = filter_by (λ dev. text_eq (or_empty dev.network_id) net_id) devices

-- The number of devices with a status.
abbrev pub with_status : (DeviceData → Text) → Text → List DeviceData → ℕ
with_status status t devices = length (filter_by (λ dev. text_eq (status dev) t) devices)

devices_at_here :
    (net_id : Text) (dev : DeviceData) (devices : List DeviceData)
    → text_eq (or_empty dev.network_id) net_id ≡ true
    → devices_at net_id (dev ∷ devices) ≡ dev ∷ devices_at net_id devices
unfolding filter_by
devices_at_here net_id dev devices e = rw (e, filter_by) refl

devices_at_away :
    (net_id : Text) (dev : DeviceData) (devices : List DeviceData)
    → text_eq (or_empty dev.network_id) net_id ≡ false
    → devices_at net_id (dev ∷ devices) ≡ devices_at net_id devices
unfolding filter_by
devices_at_away net_id dev devices e = rw (e, filter_by) refl

with_status_cons :
    (d : Dict Text) (t : Text) (dev : DeviceData) (devices : List DeviceData)
    → with_status (device_status d) t (dev ∷ devices)
      ≡ (if text_eq (device_status d dev) t then 1 else 0) + with_status (device_status d) t devices
unfolding filter_by
with_status_cons d t dev devices = elim (Bool-cases (text_eq (device_status d dev) t)) [
  | inl e ↦ rw (e, filter_by) (omega arith)
  | inr e ↦ rw (e, filter_by) (omega arith)
]

-- One device more, counted under its status.
count_status_counts :
    (t : Text) (c : Tally)
    → ((count_status t c).online ≡ c.online + (if text_eq t (codes "online") then 1 else 0))
      × ((count_status t c).alerting ≡ c.alerting + (if text_eq t (codes "alerting") then 1 else 0))
      × ((count_status t c).offline ≡ c.offline + (if text_eq t (codes "offline") then 1 else 0))
unfolding count_status
count_status_counts t c = elim (Bool-cases (text_eq t (codes "online"))) [
  | inl e ↦ rw ((text_eq_iff t (codes "online")).0 e) (omega arith)
  | inr e ↦ elim (Bool-cases (text_eq t (codes "alerting"))) [
    | inl f ↦ rw ((text_eq_iff t (codes "alerting")).0 f) (omega arith)
    | inr f ↦ ground arith
  ]
]

get_or-group :
    (devices : List DeviceData) (d : Dict (List DeviceData)) (net_id : Text)
    → truthy net_id ≡ true
    → get_or net_id [] (group devices d) ≡ get_or net_id [] d ++ devices_at net_id devices
unfolding group filter_by
get_or-group [] d net_id known = sym (append-nil (get_or net_id [] d))
get_or-group (dev ∷ devices) d net_id known =
    let at : Text = or_empty dev.network_id in
    let d' : Dict (List DeviceData) = put at (get_or at [] d ++ dev ∷ []) d in
    elim (Bool-cases (text_eq at net_id)) [
      | inl e ↦
          let same : at ≡ net_id = (text_eq_iff at net_id).0 e in
          let here : truthy at ≡ true = rw same known in
          let first : get_or net_id [] d' ≡ get_or net_id [] d ++ dev ∷ [] =
            rw (get_or-put net_id at (get_or at [] d ++ dev ∷ []) [] d, e, same) refl in
          rw
            (
              here,
              get_or-group devices d' net_id known,
              first,
              devices_at_here net_id dev devices e,
            )
            (append_assoc (get_or net_id [] d) (dev ∷ []) (devices_at net_id devices))
      | inr e ↦ elim (Bool-cases (truthy at)) [
        | inl t ↦
            let first : get_or net_id [] d' ≡ get_or net_id [] d =
              rw (get_or-put net_id at (get_or at [] d ++ dev ∷ []) [] d, e) refl in
            rw
              (t, get_or-group devices d' net_id known, first, devices_at_away net_id dev devices e)
              refl
        | inr t ↦
            rw (t, get_or-group devices d net_id known, devices_at_away net_id dev devices e) refl
      ]
    ]

tally_counts :
    (d : Dict Text) (devices : List DeviceData) (c : Tally)
    → ((tally d devices c).online
        ≡ c.online + with_status (device_status d) (codes "online") devices)
      × ((tally d devices c).alerting
          ≡ c.alerting + with_status (device_status d) (codes "alerting") devices)
      × ((tally d devices c).offline
          ≡ c.offline + with_status (device_status d) (codes "offline") devices)
unfolding tally filter_by
tally_counts d [] c = omega arith
tally_counts d (dev ∷ devices) c = omega (
  arith,
  tally_counts d devices (count_status (device_status d dev) c),
  count_status_counts (device_status d dev) c,
  with_status_cons d (codes "online") dev devices,
  with_status_cons d (codes "alerting") dev devices,
  with_status_cons d (codes "offline") dev devices,
)

-- With `h` devices online and `u` alerting or offline: no data, none unhealthy, at most a quarter,
-- at most three fifths, or more.
pub record Rates (h u : ℕ) (b : HealthBucket) : Type 0 where
  pub no_data : (b ≡ unknown) ↔ (h + u ≡ 0)
  pub healthy : (b ≡ green) ↔ ((u ≡ 0) × (0 < h))
  pub quarter : (b ≡ yellow) ↔ ((0 < u) × (u * 3 ≤ h))
  pub fifths : (b ≡ orange) ↔ ((h < u * 3) × (u * 2 ≤ h * 3))
  pub worse : (b ≡ red) ↔ (h * 3 < u * 2)

health_bucket-Rates :
    (c : Tally) → Rates c.online (c.alerting + c.offline) (health_bucket (unhealthy c))
unfolding health_bucket unhealthy
health_bucket-Rates c = record {
  no_data = ground arith;
  healthy = ground arith;
  quarter = ground arith;
  fifths = ground arith;
  worse = ground arith;
}

-- The site of a network: the number of its devices, and their health by status.
pub record IsSummary (status : DeviceData → Text) (devices : List DeviceData) (s : Site)
    : Type 0 where
  pub counted : s.device_count ≡ length (devices_at s.network_id devices)
  pub rated :
      Rates
        (with_status status (codes "online") (devices_at s.network_id devices))
        (with_status status (codes "alerting") (devices_at s.network_id devices)
          + with_status status (codes "offline") (devices_at s.network_id devices))
        s.health_bucket

abbrev pub known_ids : List NetworkData → List Text
known_ids [] = []
known_ids (net ∷ nets) =
    let rest = known_ids nets in if truthy (or_empty net.id) then or_empty net.id ∷ rest else rest

site_of-IsSummary :
    (d : Dict Text) (net_id : Text) (name : Option Text) (devices own : List DeviceData)
    → own ≡ devices_at net_id devices
    → IsSummary (device_status d) devices (site_of d net_id name own)
unfolding site_of
site_of-IsSummary d net_id name devices own e =
    let zero_tally : Tally = record { online = 0; alerting = 0; offline = 0 } in
    let c = tally d own zero_tally in
    let (a, b, o) = tally_counts d own zero_tally in
    let online : c.online ≡ with_status (device_status d) (codes "online") own = omega arith in
    let bad : c.alerting + c.offline
        ≡ with_status (device_status d) (codes "alerting") own
          + with_status (device_status d) (codes "offline") own =
      omega arith in
    let rates =
      subst (λ h. Rates h (c.alerting + c.offline) (health_bucket (unhealthy c))) online
        (health_bucket-Rates c) in
    let rates' =
      subst
        (λ u.
          Rates (with_status (device_status d) (codes "online") own) u
            (health_bucket (unhealthy c)))
        bad rates in
    record {
      counted = ap length e;
      rated =
          subst
            (λ x.
              Rates (with_status (device_status d) (codes "online") x)
                (with_status (device_status d) (codes "alerting") x
                  + with_status (device_status d) (codes "offline") x)
                (health_bucket (unhealthy c)))
            e rates';
    }

own_devices :
    (devices : List DeviceData) (net_id : Text)
    → truthy net_id ≡ true
    → get_or net_id [] (group devices []) ≡ devices_at net_id devices
unfolding get_or get
own_devices devices net_id e = get_or-group devices [] net_id e

sites_of-IsSummary :
    (d : Dict Text) (devices : List DeviceData) (nets : List NetworkData)
    → (map (λ s. s.network_id) (sites_of d (group devices []) nets) ≡ known_ids nets)
      × All (IsSummary (device_status d) devices) (sites_of d (group devices []) nets)
unfolding sites_of
sites_of-IsSummary d devices [] = (refl, tt)
sites_of-IsSummary d devices (net ∷ nets) =
    let net_id = or_empty net.id in
    let own = get_or net_id [] (group devices []) in
    let (ids, all_rest) = sites_of-IsSummary d devices nets in
    elim (Bool-cases (truthy net_id)) [
      | inr e ↦ rw (e, sites_of) (ids, all_rest)
      | inl e ↦
          rw (e, sites_of)
            (
              ap (λ x. net_id ∷ x) (ids),
              (
                site_of-IsSummary d net_id net.name devices own (own_devices devices net_id e),
                all_rest,
              ),
            )
    ]

-- The status in the last availability of the serial.
abbrev pub last_status : List Availability → Text → Option Text
last_status [] serial = none
last_status (a ∷ rest) serial = elim (last_status rest serial) [
  | some t ↦ some t
  | none ↦ elim a.serial [
    | none ↦ none
    | some s ↦ if text_eq s serial then some (or_empty a.status) else none
  ]
]

-- What the availabilities say of a device: nothing of one without a serial.
abbrev pub reported : List Availability → DeviceData → Text
reported availabilities dev = elim dev.serial [
  | none ↦ []
  | some serial ↦ if truthy serial then or_empty (last_status availabilities serial) else []
]

get_or-statuses :
    (as_given : List Availability) (d : Dict Text) (serial : Text)
    → get_or serial [] (statuses as_given d)
      ≡ elim (last_status as_given serial) [ some t ↦ t | none ↦ get_or serial [] d ]
unfolding statuses
get_or-statuses [] d serial = refl
get_or-statuses (a ∷ rest) d serial = elim (Option-cases (last_status rest serial)) [
  | inr (t, q) ↦ elim (Option-cases a.serial) [
    | inl e ↦ rw (e, get_or-statuses rest d serial, q) refl
    | inr (s, e) ↦ rw (e, get_or-statuses rest (put s (or_empty a.status) d) serial, q) refl
  ]
  | inl q ↦ elim (Option-cases a.serial) [
    | inl e ↦ rw (e, get_or-statuses rest d serial, q) (rw e refl)
    | inr (s, e) ↦
        rw
          (
            e,
            get_or-statuses rest (put s (or_empty a.status) d) serial,
            q,
            get_or-put serial s (or_empty a.status) [] d,
          )
          (rw e (elim (Bool-cases (text_eq s serial)) [ inl r ↦ rw r refl | inr r ↦ rw r refl ]))
  ]
]

reported_some :
    (as_given : List Availability) (serial : Text)
    → get_or serial [] (statuses as_given []) ≡ or_empty (last_status as_given serial)
unfolding or_empty get_or get
reported_some as_given serial = elim (Option-cases (last_status as_given serial)) [
  | inl q ↦ rw (get_or-statuses as_given [] serial, q) refl
  | inr (t, q) ↦ rw (get_or-statuses as_given [] serial, q) refl
]

device_status-reported :
    (as_given : List Availability) (dev : DeviceData)
    → device_status (statuses as_given []) dev ≡ reported as_given dev
unfolding device_status truthy or_empty
device_status-reported as_given dev = elim (Option-cases dev.serial) [
  | inl e ↦ rw (e, device_status) refl
  | inr (serial, e) ↦ rw (e, device_status) (rw (reported_some as_given serial) refl)
]

-- There is one site for each network that has an id, in their order, whatever the devices and
-- the availabilities; it counts the devices of the network, and its bucket is that of the
-- share of the alerting and offline ones among those with a known status, the status of a device
-- being that of the last availability with its serial.
pub build_sites-IsSummary :
    (nets : List NetworkData) (devices : List DeviceData) (availabilities : List Availability)
    → (map (λ s. s.network_id) (build_sites nets devices availabilities) ≡ known_ids nets)
      × All (IsSummary (reported availabilities) devices) (build_sites nets devices availabilities)
unfolding build_sites
build_sites-IsSummary nets devices availabilities =
    let d = statuses availabilities [] in
    let (ids, summaries) = sites_of-IsSummary d devices nets in
    let same : device_status d ≡ reported availabilities =
      λ i dev. device_status-reported availabilities dev i in
    (
      ids,
      subst (λ status. All (IsSummary status devices) (sites_of d (group devices []) nets)) same
          summaries,
    )
