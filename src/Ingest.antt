-- ===== src/Ingest.antt =====
-- nr_ingest/create_relationships.py: the entities of New Relic, the nodes and links of the cached
-- snapshot, and the maps from names, serials and networks to the ids of entities.
pub mod Graph
pub mod Spanning
pub mod Links
pub mod Networks
pub mod Search
pub mod Tree
pub mod Generate
pub mod Wiring
pub mod Send
pub mod Rebuild
pub mod Ports
mod Tests
use topology_maps.Prelude.{
  ◌≡◌, Bool, true, false, not, ◌&&◌, ◌||◌, Option, none, some, List, [], ◌∷◌, if◌then◌else◌,
}
use topology_maps.Text.{Text, codes, text_eq}
use topology_maps.Dict.{Dict, put, get_or}
use topology_maps.Ingest.Graph.{Lookups, truthy}

pub record Tag : Type 0 where
  pub key : Text
  pub values : List Text

pub record Entity : Type 0 where
  pub guid : Text
  pub name : Text
  pub tags : List Tag

-- values[0] if values else ""
unfoldable pub head_value : List Text → Text
head_value [] = []
head_value (v ∷ vs) = v

-- {t["key"]: ... for t in tags}
unfoldable pub tag_values : List Tag → Dict Text → Dict Text
unfolding head_value put
tag_values [] d = d
tag_values (t ∷ ts) d = tag_values ts (put t.key (head_value t.values) d)

-- One round of the loop.
unfoldable pub add_entity : Entity → Lookups → Lookups
unfolding tag_values get_or put truthy
add_entity e m =
    let tags = tag_values e.tags [] in
    let serial = get_or (codes "serial") [] tags in
    let net_id = get_or (codes "network_id") [] tags in
    let named = put e.name e.guid m.guid_by_name in
    if truthy serial
    then record m { guid_by_name = named; guid_by_serial = put serial e.guid m.guid_by_serial }
    else if truthy net_id
        && (not (truthy (get_or (codes "subtype") [] tags))
            && not (truthy (get_or (codes "mac") [] tags)))
    then record m {
      guid_by_name = named;
      site_guid_by_network_id = put net_id e.guid m.site_guid_by_network_id;
    }
    else record m { guid_by_name = named }

add_entities : List Entity → Lookups → Lookups
unfolding add_entity
add_entities [] m = m
add_entities (e ∷ es) m = add_entities es (add_entity e m)

unfoldable pub build_lookup_maps : List Entity → Lookups
unfolding add_entities
build_lookup_maps es =
    add_entities es
      (record { guid_by_name = []; guid_by_serial = []; site_guid_by_network_id = [] })
