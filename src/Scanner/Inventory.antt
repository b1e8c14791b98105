-- ===== src/Scanner/Inventory.antt =====
-- `enumerate_org_composition` of server/config_collector/scanner.py. A network without
-- an id raises when the lists are read. So does a device without a serial, if it is of a listed
-- network and has an endpoint: the program reads the serial later, when the jobs are made. Another
-- device without a serial has no job, and is left out.
pub mod Tables
use topology_maps.Prelude.{
  ℕ, suc, Bool, true, false, Option, none, some, List, [], ◌∷◌, ◌++◌, filter_by, map, any, ◌&&◌,
  ◌||◌, if◌then◌else◌,
}
use topology_maps.Text.{Text, codes, text_eq, elem}
use topology_maps.Json.{Json, Items, Fields, null, bool, int, pos, str, arr, obj, nil, cons, get}
use topology_maps.Catalog.Spec.{device, scope_eq}
use topology_maps.Catalog.{Network, Device, device_matches}
use topology_maps.Catalog.Endpoints.{endpoints}
use topology_maps.Store.State.{
  World, Env, Exec, Result, Exception, ok, raised, other, ◌>>=◌, pure, lift, and_then,
}

pub record Composition : Type 0 where
  pub networks : List Network
  pub devices_by_network : List (Text × List Device)
  pub enabled_ssids_by_network : List (Text × List ℕ)

abbrev pub key_error : Exception
key_error = other (codes "KeyError")

abbrev pub type_error : Exception
type_error = other (codes "TypeError")

unfoldable pub get_json : Env → Text → Exec Json
get_json env url w = (env.get w.requests url, record w { requests = suc w.requests })

items_list : Items → List Json
items_list nil = []
items_list (cons x xs) = x ∷ items_list xs

unfoldable pub as_list : Json → Result (List Json)
unfolding items_list
as_list (arr xs) = ok (items_list xs)
as_list _ = raised type_error

field_of : Text → Json → Option Json
unfolding get
field_of k (obj fs) = get k fs
field_of k _ = none

text_of : Option Json → Option Text
text_of (some (str t)) = some t
text_of _ = none

texts_of : List Json → List Text
texts_of [] = []
texts_of (str t ∷ xs) = t ∷ texts_of xs
texts_of (_ ∷ xs) = texts_of xs

types_of : Option Json → List Text
unfolding items_list texts_of
types_of (some (arr xs)) = texts_of (items_list xs)
types_of _ = []

require_text : Text → Json → Result Text
unfolding field_of text_of
require_text k v = elim (text_of (field_of k v)) [ none ↦ raised key_error | some t ↦ ok t ]

-- [f(x) for x in xs]
unfoldable pub map_result : {A B : Type 0} → (A → Result B) → List A → Result (List B)
map_result f [] = ok []
map_result f (x ∷ xs) =
    let rest = map_result f xs in
    elim (f x) [
      | raised e ↦ raised e
      | ok y ↦ elim rest [ raised e ↦ raised e | ok ys ↦ ok (y ∷ ys) ]
    ]

unfoldable pub network_of : Json → Result Network
unfolding require_text types_of field_of
network_of v = elim (require_text (codes "id") v) [
  | raised e ↦ raised e
  | ok id ↦ ok (record { id = id; product_types = types_of (field_of (codes "productTypes") v) })
]

network_id_of : Json → Option Text
unfolding text_of field_of
network_id_of v = text_of (field_of (codes "networkId") v)

product_type_of : Json → Option Text
unfolding text_of field_of
product_type_of v = text_of (field_of (codes "productType") v)

has_serial : Json → Bool
unfolding require_text
has_serial v = elim (require_text (codes "serial") v) [ raised e ↦ false | ok t ↦ true ]

-- dev["serial"] is evaluated for some endpoint.
unfoldable pub reads_serial : List Network → Json → Bool
unfolding network_id_of product_type_of device_matches scope_eq text_eq endpoints
reads_serial networks v = elim (network_id_of v) [
  | none ↦ false
  | some id ↦
      any (λ net. text_eq net.id id) networks
      && any
          (λ spec.
            scope_eq spec.scope device
            && device_matches spec (record { serial = []; product_type = product_type_of v }))
          endpoints
]

-- A device with the network that it names.
unfoldable pub device_of : Json → Result (Option Text × Device)
unfolding require_text network_id_of product_type_of
device_of v = elim (require_text (codes "serial") v) [
  | raised e ↦ raised e
  | ok serial ↦ ok (network_id_of v, record { serial = serial; product_type = product_type_of v })
]

in_network : Text → Option Text × Device → Bool
in_network id (none, d) = false
in_network id (some n, d) = text_eq n id

unfoldable pub devices_of : List (Option Text × Device) → Network → Text × List Device
unfolding in_network filter_by
devices_of devices net = (net.id, map (λ d. d.1) (filter_by (in_network net.id) devices))

is_enabled : Json → Bool
unfolding field_of
is_enabled v = elim (field_of (codes "enabled") v) [ some (bool true) ↦ true | _ ↦ false ]

number_of : Json → Result ℕ
unfolding field_of
number_of v = elim (field_of (codes "number") v) [
  | some (int (pos n)) ↦ ok n
  | _ ↦ raised key_error
]

unfoldable pub enabled_numbers : Json → Result (List ℕ)
unfolding as_list map_result number_of filter_by is_enabled
enabled_numbers v = elim (as_list v) [
  | raised e ↦ raised e
  | ok xs ↦ map_result number_of (filter_by is_enabled xs)
]

abbrev ssids_url : Text → Text
ssids_url id = codes "/networks/" ++ (id ++ codes "/wireless/ssids")

unfoldable pub network_ssids : Env → Network → Exec (List ℕ)
unfolding get_json enabled_numbers
network_ssids env net =
    if elem (codes "wireless") net.product_types
    then (do answer ← get_json env (ssids_url net.id); lift (enabled_numbers answer))
    else pure []

unfoldable pub each_network : Env → List Network → Exec (List (Text × List ℕ))
unfolding network_ssids
each_network env [] = pure []
each_network env (net ∷ networks) = do
  numbers ← network_ssids env net
  rest ← each_network env networks
  pure ((net.id, numbers) ∷ rest)

-- [of(x) for x in answer]
unfoldable pub each_of : {A : Type 0} → (Json → Result A) → Json → Result (List A)
unfolding as_list map_result
each_of of answer = elim (as_list answer) [ raised e ↦ raised e | ok xs ↦ map_result of xs ]

unfoldable pub each_device : List Network → Json → Result (List (Option Text × Device))
unfolding as_list map_result device_of filter_by has_serial reads_serial
each_device networks answer = elim (as_list answer) [
  | raised e ↦ raised e
  | ok xs ↦ map_result device_of (filter_by (λ v. has_serial v || reads_serial networks v) xs)
]

unfoldable pub enumerate_org_composition : Env → Text → Exec Composition
unfolding get_json each_of network_of each_device devices_of each_network
enumerate_org_composition env org_id = do
  networks_answer ← get_json env (codes "/organizations/" ++ (org_id ++ codes "/networks"))
  devices_answer ← get_json env (codes "/organizations/" ++ (org_id ++ codes "/devices"))
  networks ← lift (each_of network_of networks_answer)
  devices ← lift (each_device networks devices_answer)
  ssids ← each_network env networks
  pure (record {
    networks = networks;
    devices_by_network = map (devices_of devices) networks;
    enabled_ssids_by_network = ssids;
  })
