-- ===== src/Ingest/Send.antt =====
-- The deletions, the batches and `main` of nr_ingest/create_relationships.py. NerdGraph is an
-- argument: it answers each mutation, by its number and text, with the error messages under each
-- alias, or `none`, where `nerdgraph` raises.
use topology_maps.Prelude.{
  ℕ, zero, suc, ◌+◌, Bool, true, false, not, ◌&&◌, ◌||◌, Option, none, some, List, [], ◌∷◌, ◌++◌,
  length, take, drop, map, ltb, ◌==◌, if◌then◌else◌,
}
use topology_maps.Text.{Text, codes, text_eq, elem, lower, has_part}
use topology_maps.Dict.{Dict, has}
use topology_maps.Catalog.{number_text}
use topology_maps.Ingest.Graph.{
  Node, Edge, Rel, RelType, contains, connects_to, Lookups, Snapshot, truthy, or_empty,
}
use topology_maps.Ingest.Spanning.{access_point, device_types, build_spanning_tree}
use topology_maps.Ingest.Generate.{
  guid_of, rel_if, site_contains, site_vlans, seen_pair, generate_relationships,
}

unfoldable pub generate_site_device_delete_rels : Snapshot → Lookups → List Rel
unfolding site_contains
generate_site_device_delete_rels s m =
    site_contains m (codes "floor_switch" ∷ codes "core_switch" ∷ access_point ∷ []) s.nodes

-- n.get("network_id") in site_guid_by_network_id
unfoldable pub in_site : Lookups → Node → Bool
unfolding has
in_site m n = elim n.network_id [
  | none ↦ false
  | some net_id ↦ has net_id m.site_guid_by_network_id
]

-- {n["id"] for n in nodes if n["type"] in types and n.get("network_id") in sites}
unfoldable pub ids_in_sites : Lookups → List Text → List Node → List Text
unfolding elem in_site
ids_in_sites m types [] = []
ids_in_sites m types (n ∷ ns) =
    if elem n.node_type types && in_site m n
    then n.id ∷ ids_in_sites m types ns
    else ids_in_sites m types ns

unfoldable pub children_rels : Lookups → List Text → List (Text × Text) → List Rel
unfolding elem guid_of rel_if
children_rels m serials [] = []
children_rels m serials ((parent, child) ∷ ps) =
    (if elem child serials
      then rel_if (guid_of parent m.guid_by_serial) (guid_of child m.guid_by_serial) contains
      else [])
    ++ children_rels m serials ps

unfoldable pub generate_switch_ap_contains_delete_rels : Snapshot → Lookups → List Rel
unfolding children_rels ids_in_sites build_spanning_tree
generate_switch_ap_contains_delete_rels s m =
    children_rels m (ids_in_sites m (access_point ∷ []) s.nodes)
      (build_spanning_tree s.nodes s.edges true)

unfoldable pub lldp_rels : Lookups → List Text → List (Text × Text) → List Edge → List Rel
unfolding elem seen_pair guid_of rel_if
lldp_rels m serials seen [] = []
lldp_rels m serials seen (e ∷ es) =
    let left = lldp_rels m serials seen es in
    let kept = lldp_rels m serials ((e.source, e.target) ∷ seen) es in
    if not (elem e.source serials && elem e.target serials) || seen_pair e.source e.target seen
    then left
    else rel_if (guid_of e.source m.guid_by_serial) (guid_of e.target m.guid_by_serial) connects_to
      ++ kept

unfoldable pub generate_lldp_connects_delete_rels : Snapshot → Lookups → List Rel
unfolding lldp_rels ids_in_sites
generate_lldp_connects_delete_rels s m =
    lldp_rels m (ids_in_sites m device_types s.nodes) [] s.edges

unfoldable pub generate_site_vlan_delete_rels : Snapshot → Lookups → List Rel
unfolding site_vlans
generate_site_vlan_delete_rels s m = site_vlans m s.subnets

-- lst[i:i + size] for i from where the loop stands; the fuel is the length.
unfoldable pub chunks_from : ℕ → ℕ → ℕ → List Rel → List (List Rel)
chunks_from zero i size rels = []
chunks_from (suc fuel) i size rels =
    let rest = chunks_from fuel (i + size) size rels in
    if ltb i (length rels) then take size (drop i rels) ∷ rest else []

unfoldable pub chunked : List Rel → ℕ → List (List Rel)
unfolding chunks_from
chunked rels size = chunks_from (length rels) 0 size rels

abbrev pub batch_size : ℕ
batch_size = 25

type_text : RelType → Text
type_text contains = codes "CONTAINS"
type_text connects_to = codes "CONNECTS_TO"

-- One aliased field.
field_text : Text → ℕ → Rel → Text
unfolding type_text
field_text call i r =
    codes "  r"
    ++ (number_text i
        ++ (codes ": "
            ++ (call
                ++ (codes "(sourceEntityGuid: \""
                    ++ (r.source_guid
                        ++ (codes "\", targetEntityGuid: \""
                            ++ (r.target_guid
                                ++ (codes "\", type: "
                                    ++ (type_text r.rel_type
                                        ++ codes ") { errors { message type } }")))))))))

-- The fields from index `i`, joined by line ends.
fields_text : Text → ℕ → List Rel → Text
unfolding field_text
fields_text call i [] = []
fields_text call i (r ∷ []) = field_text call i r
fields_text call i (r ∷ q ∷ rs) = field_text call i r ++ (10 ∷ fields_text call (suc i) (q ∷ rs))

mutation_text : Text → List Rel → Text
unfolding fields_text
mutation_text call batch = codes "mutation {\n" ++ (fields_text call 0 batch ++ codes "\n}")

unfoldable pub batch_mutation : List Rel → Text
unfolding mutation_text
batch_mutation = mutation_text (codes "entityRelationshipUserDefinedCreateOrReplace")

unfoldable pub batch_delete_mutation : List Rel → Text
unfolding mutation_text
batch_delete_mutation = mutation_text (codes "entityRelationshipUserDefinedDelete")

-- Those sent so far, in order.
abbrev pub Log : Type 0
Log = List Text

pub record NerdGraph : Type 0 where
  pub answer : ℕ → Text → Option (ℕ → List Text)

-- The errors of the batch, from index `i`.
unfoldable pub errors_from : ℕ → List Rel → (ℕ → List Text) → List Text
errors_from i [] messages = []
errors_from i (r ∷ rs) messages =
    map (λ t. codes "r" ++ (number_text i ++ (codes ": " ++ t))) (messages i)
    ++ errors_from (suc i) rs messages

-- `post_batch` and `delete_batch`, which differ in the mutation.
unfoldable pub send_batch :
    NerdGraph → (List Rel → Text) → List Rel → Log → Option (List Text) × Log
unfolding errors_from
send_batch api mutation batch log = (
  elim (api.answer (length log) (mutation batch)) [
    | none ↦ none
    | some messages ↦ some (errors_from 0 batch messages)
  ],
  log ++ mutation batch ∷ [],
)

-- A loop over batches, with the errors counted so far.
unfoldable pub send_batches :
    NerdGraph → (List Rel → Text) → List (List Rel) → ℕ → Log → Option ℕ × Log
unfolding send_batch
send_batches api mutation [] errors log = (some errors, log)
send_batches api mutation (b ∷ bs) errors log =
    let (errs, log') = send_batch api mutation b log in
    elim errs [
      | none ↦ (none, log')
      | some es ↦ send_batches api mutation bs (errors + length es) log'
    ]

unfoldable pub delete_lists : Snapshot → Lookups → Bool → List Rel × List Rel × List Rel × List Rel
unfolding generate_site_device_delete_rels generate_switch_ap_contains_delete_rels
    generate_lldp_connects_delete_rels generate_site_vlan_delete_rels
delete_lists s m no_vlans = (
  generate_site_device_delete_rels s m,
  generate_switch_ap_contains_delete_rels s m,
  generate_lldp_connects_delete_rels s m,
  if no_vlans then generate_site_vlan_delete_rels s m else [],
)

pub data Exit : Type 0 where
  code : ℕ → Exit
  raised : Exit

-- The deletions, one list after the other.
unfoldable pub send_deletes : NerdGraph → List (List Rel) → ℕ → Log → Option ℕ × Log
unfolding send_batches chunked batch_delete_mutation
send_deletes api [] errors log = (some errors, log)
send_deletes api (rels ∷ lists) errors log =
    let (result, log') =
      send_batches api batch_delete_mutation (chunked rels batch_size) errors log in
    elim result [ none ↦ (none, log') | some errors' ↦ send_deletes api lists errors' log' ]

-- The end of `main`, from the deletions' errors on.
unfoldable pub create_all : NerdGraph → Option (List Rel) → ℕ → Log → Exit × Log
unfolding send_batches chunked batch_mutation
create_all api none delete_errors log = (raised, log)
create_all api (some []) delete_errors log = (code 0, log)
create_all api (some (r ∷ rels)) delete_errors log =
    let (result, log') = send_batches api batch_mutation (chunked (r ∷ rels) batch_size) 0 log in
    elim result [
      | none ↦ (raised, log')
      | some errors ↦ (code (if not (errors == 0) || not (delete_errors == 0) then 1 else 0), log')
    ]

-- From the maps on.
unfoldable pub rebuild : NerdGraph → Snapshot → Lookups → Bool → Log → Exit × Log
unfolding delete_lists send_deletes create_all generate_relationships
rebuild api s m no_vlans log =
    let (devices, aps, links, vlans) = delete_lists s m no_vlans in
    let (result, log') = send_deletes api (devices ∷ aps ∷ links ∷ vlans ∷ []) 0 log in
    elim result [
      | none ↦ (raised, log')
      | some errors ↦ create_all api (generate_relationships s m (not no_vlans)) errors log'
    ]

-- networks_by_id.get(net_id, {}).get("name") or "", where the last network with the id counts.
unfoldable pub network_name : List (Text × Option Text) → Text → Text
unfolding text_eq or_empty
network_name [] net_id = []
network_name ((id, name) ∷ nets) net_id =
    if text_eq id net_id && not (elem net_id (map (λ n. n.0) nets))
    then or_empty name
    else network_name nets net_id

unfoldable pub filter_sites : Text → List (Text × Option Text) → Dict Text → Dict Text
unfolding lower has_part network_name
filter_sites site_filter nets [] = []
filter_sites site_filter nets ((net_id, guid) ∷ sites) =
    if has_part (lower site_filter) (lower (network_name nets net_id))
    then (net_id, guid) ∷ filter_sites site_filter nets sites
    else filter_sites site_filter nets sites

-- The argument after the first "--site"; `some none` where there is no "--site", `none` where
-- nothing follows it.
unfoldable pub site_argument : List Text → Option (Option Text)
unfolding text_eq
site_argument [] = some none
site_argument (a ∷ []) = if text_eq a (codes "--site") then none else some none
site_argument (a ∷ b ∷ args) =
    if text_eq a (codes "--site") then some (some b) else site_argument (b ∷ args)

-- `if site_filter:` with the error of no match.
unfoldable pub choose_sites : Option Text → Snapshot → Lookups → Option Lookups
unfolding filter_sites truthy or_empty
choose_sites site_filter s m =
    if truthy (or_empty site_filter)
    then elim (filter_sites (or_empty site_filter) s.networks m.site_guid_by_network_id) [
      | [] ↦ none
      | site ∷ sites ↦ some (record m { site_guid_by_network_id = site ∷ sites })
    ]
    else some m

-- `maps` are what `build_lookup_maps` makes of the entities fetched; without the key or the value of
-- "--site" the program ends before it fetches them.
unfoldable pub main : NerdGraph → Option Text → List Text → Snapshot → Lookups → Log → Exit × Log
unfolding site_argument choose_sites rebuild truthy or_empty elem
main api api_key args s maps log =
    if not (truthy (or_empty api_key)) then (code 1, log) else elim (site_argument args) [
      | none ↦ (code 1, log)
      | some site_filter ↦ elim (choose_sites site_filter s maps) [
        | none ↦ (code 1, log)
        | some m ↦ rebuild api s m (elem (codes "--no-vlans") args) log
      ]
    ]
