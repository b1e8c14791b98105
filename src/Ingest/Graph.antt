-- ===== src/Ingest/Graph.antt =====
-- The nodes and links of the cached snapshot that nr_ingest/create_relationships.py reads.
use topology_maps.Prelude.{ℕ, Bool, true, false, Option, none, some, List, [], ◌∷◌}
use topology_maps.Text.{Text}
use topology_maps.Dict.{Dict}

-- A node of `snapshot["topology"]["__all__"]["l2"]`; `none` is a null, or a key that is not there.
pub record Node : Type 0 where
  pub id : Text
  pub name : Option Text
  pub node_type : Text
  pub network_id : Option Text
  pub connected_ap : Option Text

-- An edge of it, whose source port may be null.
pub record Edge : Type 0 where
  pub source : Text
  pub target : Text
  pub source_port : Option Text

pub record Subnet : Type 0 where
  pub vlan : ℕ
  pub network_id : Option Text

-- t or ""
unfoldable pub or_empty : Option Text → Text
or_empty none = []
or_empty (some t) = t

pub data RelType : Type 0 where
  contains connects_to : RelType

pub record Rel : Type 0 where
  pub source_guid : Text
  pub target_guid : Text
  pub rel_type : RelType

-- bool(t)
unfoldable pub truthy : Text → Bool
truthy [] = false
truthy (c ∷ t) = true

pub record Lookups : Type 0 where
  pub guid_by_name : Dict Text
  pub guid_by_serial : Dict Text
  pub site_guid_by_network_id : Dict Text

-- The nodes, edges and subnets of "__all__", the ports of each device by network, and the id and
-- name of each network.
pub record Snapshot : Type 0 where
  pub nodes : List Node
  pub edges : List Edge
  pub subnets : List Subnet
  pub device_details : Dict (Dict (List Text))
  pub networks : List (Text × Option Text)
