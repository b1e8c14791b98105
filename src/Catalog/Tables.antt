-- ===== src/Catalog/Tables.antt =====
-- Facts about the whole catalog, found by going through its tables.
use topology_maps.Prelude.{
  ℕ, ◌≡◌, refl, ap, sym, ◌∙◌, inl, inr, Bool, true, false, Option, none, some, List, [], ◌∷◌, ◌++◌,
  all, any, In, all-In, arith, Bool-cases, Option-cases,
}
use topology_maps.Text.{Text, codes, text_eq, text_eq_iff, elem}
use topology_maps.Catalog.{
  Network, Device, find, format_from, format, one_job, network_job, ssid_jobs, device_jobs,
  scope_jobs, expand_for_org, org_arguments, network_arguments, ssid_arguments, device_arguments,
  or_nil, make_job, network_matches, device_matches, ssid_entity, number_text,
}
use topology_maps.Catalog.Spec.{Scope, org, network, device, ssid, EndpointSpec, Job}
use topology_maps.Catalog.Endpoints.{endpoints}
use topology_maps.Catalog.Events.{
  ChangeEvent, or_empty, page_prefix_map, per_ssid_subareas, union, areas_of_page,
  event_to_endpoints,
}
use topology_maps.Catalog.Expand.{for_each_total}

abbrev is_some {ℓ} : {A : Type ℓ} → Option A → Bool
is_some none = false
is_some (some a) = true

-- The same names, whatever the values.
abbrev SameNames : List (Text × Text) → List (Text × Text) → Type 0
SameNames [] [] = Unit
SameNames ((k, v) ∷ l) ((j, w) ∷ m) = (k ≡ j) × SameNames l m
SameNames _ _ = ⊥

find-SameNames :
    (key : Text) (l m : List (Text × Text))
    → SameNames l m
    → is_some (find key l) ≡ is_some (find key m)
unfolding find
find-SameNames key [] [] h = refl
find-SameNames key [] ((j, w) ∷ m) h = absurd h
find-SameNames key ((k, v) ∷ l) [] h = absurd h
find-SameNames key ((k, v) ∷ l) ((j, w) ∷ m) h =
    ground (arith, find-SameNames key l m h.1, text_eq_iff k key, text_eq_iff j key)

-- Whether a template raises depends on the names that it is given alone.
format_from-SameNames :
    (l m : List (Text × Text)) (name : Option Text) (s : Text)
    → SameNames l m
    → is_some (format_from l name s) ≡ is_some (format_from m name s)
unfolding format_from
format_from-SameNames l m none [] h = refl
format_from-SameNames l m (some name) [] h = refl
format_from-SameNames l m none (c ∷ s) h =
    ground (arith, format_from-SameNames l m none s h, format_from-SameNames l m (some []) s h)
format_from-SameNames l m (some name) (c ∷ s) h = ground (
  arith,
  find-SameNames name l m h,
  format_from-SameNames l m none s h,
  format_from-SameNames l m (some (name ++ c ∷ [])) s h,
)

-- The arguments of a scope, with empty values.
unfoldable pub blank_arguments : Scope → List (Text × Text)
blank_arguments org = org_arguments []
blank_arguments network = network_arguments []
blank_arguments device = device_arguments []
blank_arguments ssid = (codes "network_id", []) ∷ (codes "ssid_number", []) ∷ []

formats : EndpointSpec → Bool
formats spec = is_some (format (blank_arguments spec.scope) spec.url_template)

all-formats : all formats endpoints ≡ true
unfolding endpoints formats format blank_arguments text_eq
all-formats = refl

formats-is_some :
    (spec : EndpointSpec)
    → formats spec ≡ true
    → is_some (format (blank_arguments spec.scope) spec.url_template) ≡ true
unfolding formats
formats-is_some spec h = h

formats-total :
    (scope : Scope) (spec : EndpointSpec) (kwargs : List (Text × Text))
    → In spec endpoints
    → spec.scope ≡ scope
    → SameNames (blank_arguments scope) kwargs
    → (url : Text) × (format kwargs spec.url_template ≡ some url)
unfolding format
formats-total scope spec kwargs m s h =
    let template = spec.url_template in
    let blank : is_some (format (blank_arguments scope) template) ≡ true =
      ap (λ x. is_some (format (blank_arguments x) template)) (sym s)
      ∙ formats-is_some spec (all-In formats endpoints all-formats m) in
    let e : is_some (format kwargs template) ≡ true =
      sym (format_from-SameNames (blank_arguments scope) kwargs none template h) ∙ blank in
    elim (Option-cases (format kwargs template)) [
      | inl q ↦ absurd (ground arith)
      | inr found ↦ found
    ]

pub one_job_total :
    (scope : Scope) (spec : EndpointSpec) (id : Text) (sub : Option Text)
    (kwargs : List (Text × Text))
    → In spec endpoints
    → spec.scope ≡ scope
    → SameNames (blank_arguments scope) kwargs
    → (js : List Job) × (one_job spec scope id sub kwargs ≡ some js)
unfolding one_job
one_job_total scope spec id sub kwargs m s h =
    let (url, e) = formats-total scope spec kwargs m s h in
    (make_job spec scope id sub url ∷ [], rw e)

module _ (org_id : Text) (networks : List Network) (devices : List (Text × List Device))
    (ssids : List (Text × List ℕ)) where
  scope_jobs_total :
      (scope : Scope) (spec : EndpointSpec)
      → In spec endpoints
      → spec.scope ≡ scope
      → (js : List Job) × (scope_jobs org_id networks devices ssids spec scope ≡ some js)
  unfolding scope_jobs network_job ssid_jobs device_jobs blank_arguments
  scope_jobs_total org spec m s =
      one_job_total org spec org_id none (org_arguments org_id) m s (refl, tt)
  scope_jobs_total network spec m s = for_each_total _ networks λ net _.
      elim (Bool-cases (network_matches spec net)) [
        | inl t ↦
            rw t (one_job_total network spec net.id none (network_arguments net.id) m s (refl, tt))
        | inr t ↦ rw t ([], refl)
      ]
  scope_jobs_total device spec m s = for_each_total _ networks λ net _.
      for_each_total _ (or_nil (find net.id devices)) λ dev _.
        elim (Bool-cases (device_matches spec dev)) [
          | inl t ↦ rw t (
              one_job_total device spec dev.serial none (device_arguments dev.serial) m s
                (refl, tt))
          | inr t ↦ rw t ([], refl)
        ]
  scope_jobs_total ssid spec m s = for_each_total _ networks λ net _.
      elim (Bool-cases (elem (codes "wireless") net.product_types)) [
        | inl t ↦ rw t (
            for_each_total _ (or_nil (find net.id ssids)) λ n _.
              one_job_total ssid spec (ssid_entity net.id n) (some (number_text n))
                (ssid_arguments net.id n) m s (refl, (refl, tt)))
        | inr t ↦ rw t ([], refl)
      ]

  -- Whatever the networks, devices and SSIDs of an organisation are, the enumeration of its jobs
  -- does not raise: each URL template of the catalog names only arguments that its scope supplies.
  pub expand_for_org_total :
      (jobs : List Job) × (expand_for_org org_id networks devices ssids ≡ some jobs)
  unfolding expand_for_org
  expand_for_org_total =
      for_each_total _ endpoints (λ spec m. scope_jobs_total spec.scope spec m refl)

-- `area` is the `config_area` of an endpoint.
abbrev pub in_catalog : Text → Bool
in_catalog area = any (λ spec. text_eq spec.config_area area) endpoints

abbrev areas_in_catalog : Text × List Text → Bool
areas_in_catalog (prefix, areas) = all in_catalog areas

all-page_prefix_map : all areas_in_catalog page_prefix_map ≡ true
unfolding page_prefix_map endpoints text_eq
all-page_prefix_map = refl

all-per_ssid_subareas : all in_catalog (codes "wireless_ssids" ∷ per_ssid_subareas) ≡ true
unfolding per_ssid_subareas endpoints text_eq
all-per_ssid_subareas = refl

all-areas_of_page :
    (p : Text → Bool) (page : Text) (table : List (Text × List Text))
    → all (λ entry. all p entry.1) table ≡ true
    → all p (areas_of_page page table) ≡ true
unfolding areas_of_page
all-areas_of_page p page [] h = refl
all-areas_of_page p page ((prefix, areas) ∷ table) h =
    ground (arith, all-areas_of_page p page table)

all-union :
    (p : Text → Bool) (a b : List Text) → all p a ≡ true → all p b ≡ true → all p (union a b) ≡ true
unfolding union
all-union p [] b h k = k
all-union p (t ∷ a) b h k = ground (arith, all-union p a b)

-- Every area that a change event is mapped to is the area of an endpoint of the catalog, so that
-- the poller's warning about an unknown area is never reached.
pub event_to_endpoints-in_catalog :
    (event : ChangeEvent) → all in_catalog (event_to_endpoints event) ≡ true
unfolding event_to_endpoints
event_to_endpoints-in_catalog event = by_ssid event.ssid_number
  where
    areas : List Text
    areas = areas_of_page (or_empty event.page) page_prefix_map

    known : all in_catalog areas ≡ true
    known = all-areas_of_page in_catalog (or_empty event.page) page_prefix_map all-page_prefix_map

    by_ssid :
        (n : Option ℕ)
        → all in_catalog (elim n [
          | none ↦ areas
          | some _ ↦ union areas (codes "wireless_ssids" ∷ per_ssid_subareas)
        ])
          ≡ true
    by_ssid none = known
    by_ssid (some n) = all-union in_catalog areas _ known all-per_ssid_subareas
