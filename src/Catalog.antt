-- ===== src/Catalog.antt =====
-- server/config_collector/endpoints_catalog.py: from the catalog to the jobs of a sweep. The dicts
-- that the Meraki API returns are records of the fields that are read.
pub mod Spec
pub mod Endpoints
pub mod Events
pub mod Expand
pub mod Tables
mod Tests
use topology_maps.Prelude.{
  ℕ, Bool, true, false, Option, none, some, List, [], ◌∷◌, ◌++◌, any, ◌==◌, if◌then◌else◌,
}
use topology_maps.Text.{Text, codes, text_eq, elem}
use topology_maps.Json.{pos}
use topology_maps.Json.Printer.{show_int}
use Spec.{Scope, org, network, device, ssid, EndpointSpec, Job}
use Endpoints.{endpoints}

infixl 5 ◌>>=◌
abbrev pub ◌>>=◌ {ℓ κ} : {A : Type ℓ} {B : Type κ} → Option A → (A → Option B) → Option B
none >>= f = none
some a >>= f = f a

-- table.get(key)
unfoldable pub find {ℓ} : {A : Type ℓ} → Text → List (Text × A) → Option A
unfolding text_eq
find key [] = none
find key ((k, a) ∷ table) = if text_eq k key then some a else find key table

abbrev pub or_nil {ℓ} : {A : Type ℓ} → Option (List A) → List A
or_nil none = []
or_nil (some xs) = xs

-- `template.format(**kwargs)`; `none` is a `KeyError` or a `ValueError`. The second argument is the
-- name of the placeholder that is being read. The catalog has no doubled braces.
unfoldable pub format_from : List (Text × Text) → Option Text → Text → Option Text
unfolding find
format_from kwargs none [] = some []
format_from kwargs (some name) [] = none
format_from kwargs none (c ∷ s) =
    let open_brace = format_from kwargs (some []) s in
    let plain = (do rest ← format_from kwargs none s; some (c ∷ rest)) in
    if c == b'{' then open_brace else if c == b'}' then none else plain
format_from kwargs (some name) (c ∷ s) =
    let close_brace = (do
      value ← find name kwargs
      rest ← format_from kwargs none s
      some (value ++ rest)) in
    let more = format_from kwargs (some (name ++ c ∷ [])) s in
    if c == b'}' then close_brace else more

unfoldable pub format : List (Text × Text) → Text → Option Text
unfolding format_from
format kwargs template = format_from kwargs none template

pub record Network : Type 0 where
  pub id : Text
  pub product_types : List Text

pub record Device : Type 0 where
  pub serial : Text
  pub product_type : Option Text

unfoldable pub network_matches : EndpointSpec → Network → Bool
unfolding elem
network_matches spec net = elim spec.product_filter [
  | [] ↦ true
  | p ∷ ps ↦ any (λ q. elem q net.product_types) (p ∷ ps)
]

unfoldable pub device_matches : EndpointSpec → Device → Bool
unfolding elem
device_matches spec dev = elim spec.product_filter [
  | [] ↦ true
  | p ∷ ps ↦ elim dev.product_type [ none ↦ false | some t ↦ elem t (p ∷ ps) ]
]

-- The nested loops of a generator, which ends at the first exception.
unfoldable pub for_each : {A B : Type 0} → List A → (A → Option (List B)) → Option (List B)
for_each [] f = some []
for_each (x ∷ xs) f = do first ← f x; rest ← for_each xs f; some (first ++ rest)

-- str(n)
abbrev pub number_text : ℕ → Text
number_text n = show_int (pos n)

abbrev pub ssid_entity : Text → ℕ → Text
ssid_entity network_id n = network_id ++ b':' ∷ number_text n

abbrev pub make_job : EndpointSpec → Scope → Text → Option Text → Text → Job
make_job spec scope entity_id sub_key url = record {
  url = url;
  key = record {
    entity_type = scope;
    entity_id = entity_id;
    config_area = spec.config_area;
    sub_key = sub_key;
  };
  paginated = spec.paginated;
}

-- The keyword arguments of `format` at each scope.
abbrev pub org_arguments : Text → List (Text × Text)
org_arguments org_id = (codes "org_id", org_id) ∷ []

abbrev pub network_arguments : Text → List (Text × Text)
network_arguments id = (codes "network_id", id) ∷ []

abbrev pub ssid_arguments : Text → ℕ → List (Text × Text)
ssid_arguments id n = (codes "network_id", id) ∷ (codes "ssid_number", number_text n) ∷ []

abbrev pub device_arguments : Text → List (Text × Text)
device_arguments serial = (codes "serial", serial) ∷ []

-- One job, or the exception of `format`.
unfoldable pub one_job :
    EndpointSpec → Scope → Text → Option Text → List (Text × Text) → Option (List Job)
unfolding format
one_job spec scope entity_id sub_key kwargs = do
  url ← format kwargs spec.url_template
  some (make_job spec scope entity_id sub_key url ∷ [])

module _ (org_id : Text) (networks : List Network) (devices_by_network : List (Text × List Device))
    (enabled_ssids_by_network : List (Text × List ℕ)) where
  unfoldable pub network_job : EndpointSpec → Network → Option (List Job)
  unfolding one_job network_matches
  network_job spec net =
      if network_matches spec net
      then one_job spec network net.id none (network_arguments net.id)
      else some []

  unfoldable pub ssid_jobs : EndpointSpec → Network → Option (List Job)
  unfolding one_job for_each elem find
  ssid_jobs spec net =
      if elem (codes "wireless") net.product_types
      then for_each (or_nil (find net.id enabled_ssids_by_network)) (λ n.
        one_job spec ssid (ssid_entity net.id n) (some (number_text n)) (ssid_arguments net.id n))
      else some []

  unfoldable pub device_jobs : EndpointSpec → Network → Option (List Job)
  unfolding one_job for_each device_matches find
  device_jobs spec net = for_each (or_nil (find net.id devices_by_network)) (λ dev.
      if device_matches spec dev
      then one_job spec device dev.serial none (device_arguments dev.serial)
      else some [])

  -- The branches on `spec.scope`.
  unfoldable pub scope_jobs : EndpointSpec → Scope → Option (List Job)
  unfolding network_job ssid_jobs device_jobs
  scope_jobs spec org = one_job spec org org_id none (org_arguments org_id)
  scope_jobs spec network = for_each networks (network_job spec)
  scope_jobs spec device = for_each networks (device_jobs spec)
  scope_jobs spec ssid = for_each networks (ssid_jobs spec)

  -- `list(expand_for_org(...))`; `none` is an exception of `format`.
  unfoldable pub expand_for_org : Option (List Job)
  unfolding scope_jobs
  expand_for_org = for_each endpoints (λ spec. scope_jobs spec spec.scope)
