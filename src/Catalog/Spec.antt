-- ===== src/Catalog/Spec.antt =====
-- `EndpointSpec` and the jobs of server/config_collector/endpoints_catalog.py.
use topology_maps.Prelude.{
  ℕ, ◌≡◌, refl, ◌↔◌, Bool, true, false, ◌&&◌, Option, none, some, List, arith,
}
use topology_maps.Text.{Text, text_eq, text_eq_iff}

pub data Scope : Type 0 where
  org network device ssid : Scope

pub record EndpointSpec : Type 0 where
  pub config_area : Text
  pub scope : Scope
  pub url_template : Text
  pub product_filter : List Text
  pub tier : ℕ
  pub paginated : Bool

-- The constructor with positional arguments, as the catalog calls it.
abbrev pub spec : Text → Scope → Text → List Text → ℕ → Bool → EndpointSpec
spec area scope url products tier paginated = record {
  config_area = area;
  scope = scope;
  url_template = url;
  product_filter = products;
  tier = tier;
  paginated = paginated;
}

-- What an observation is about. The storage layer's `entity_type` is the scope's name.
pub record Key : Type 0 where
  pub entity_type : Scope
  pub entity_id : Text
  pub config_area : Text
  pub sub_key : Option Text

pub record Job : Type 0 where
  pub url : Text
  pub key : Key
  pub open key use *
  pub paginated : Bool

unfoldable pub scope_eq : Scope → Scope → Bool
scope_eq org org = true
scope_eq network network = true
scope_eq device device = true
scope_eq ssid ssid = true
scope_eq _ _ = false

-- SQL's `IS` between two texts that may be NULL.
unfoldable pub option_eq : Option Text → Option Text → Bool
unfolding text_eq
option_eq none none = true
option_eq (some s) (some t) = text_eq s t
option_eq _ _ = false

unfoldable pub key_eq : Key → Key → Bool
unfolding scope_eq option_eq
key_eq k j =
    scope_eq k.entity_type j.entity_type
    && (text_eq k.entity_id j.entity_id
        && (text_eq k.config_area j.config_area && option_eq k.sub_key j.sub_key))

pub scope_eq_iff : (a b : Scope) → (scope_eq a b ≡ true) ↔ (a ≡ b)
unfolding scope_eq
scope_eq_iff a b = ground arith

pub option_eq_iff : (a b : Option Text) → (option_eq a b ≡ true) ↔ (a ≡ b)
unfolding option_eq
option_eq_iff none none = ground arith
option_eq_iff none (some t) = ground arith
option_eq_iff (some s) none = ground arith
option_eq_iff (some s) (some t) = ground (arith, text_eq_iff s t)

pub key_eq_iff : (k j : Key) → (key_eq k j ≡ true) ↔ (k ≡ j)
unfolding key_eq
key_eq_iff k j = ground (
  arith,
  scope_eq_iff k.entity_type j.entity_type,
  text_eq_iff k.entity_id j.entity_id,
  text_eq_iff k.config_area j.config_area,
  option_eq_iff k.sub_key j.sub_key,
)

pub key_eq_refl : (k : Key) → key_eq k k ≡ true
key_eq_refl k = (key_eq_iff k k).1 refl

pub key_eq_comm : (k j : Key) → key_eq k j ≡ key_eq j k
key_eq_comm k j = ground (arith, key_eq_iff k j, key_eq_iff j k)
