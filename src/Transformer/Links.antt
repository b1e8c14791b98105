-- ===== src/Transformer/Links.antt =====
-- `_build_edges` of server/meraki_transformer.py and its helpers.
use topology_maps.Prelude.{not, ◌||◌, Option, List, [], ◌∷◌, ◌++◌, if◌then◌else◌}
use topology_maps.Text.{Text, codes}
use topology_maps.Ingest.Graph.{or_empty, truthy}
use topology_maps.Ingest.Generate.{seen_pair}

-- One end of a link: the serial of its device, and the port that LLDP and CDP name.
pub record End : Type 0 where
  pub device_serial : Option Text
  pub lldp_port : Option Text
  pub cdp_port : Option Text

pub data LinkProtocol : Type 0 where
  lldp wireless stack : LinkProtocol

pub record Edge : Type 0 where
  pub id : Text
  pub source : Text
  pub target : Text
  pub source_port : Option Text
  pub target_port : Option Text
  pub protocol : LinkProtocol

unfoldable pub extract_serial : End → Text
unfolding or_empty
extract_serial e = or_empty e.device_serial

unfoldable pub extract_port : End → Option Text
unfolding or_empty truthy
extract_port e = if truthy (or_empty e.lldp_port) then e.lldp_port else e.cdp_port

-- port or "x"
port_or_x : Option Text → Text
unfolding or_empty truthy
port_or_x p = if truthy (or_empty p) then or_empty p else codes "x"

unfoldable pub edge_between : End → End → Edge
unfolding extract_serial extract_port port_or_x
edge_between a b = record {
  id =
      extract_serial a
      ++ (b':'
          ∷ (port_or_x (extract_port a)
              ++ (b'-' ∷ (extract_serial b ++ (b':' ∷ port_or_x (extract_port b))))));
  source = extract_serial a;
  target = extract_serial b;
  source_port = extract_port a;
  target_port = extract_port b;
  protocol = lldp;
}

-- The loop over the links of all networks; a link with fewer than two ends gives none.
unfoldable pub build_edges : List (Text × Text) → List (List End) → List Edge
unfolding extract_serial truthy seen_pair edge_between
build_edges seen [] = []
build_edges seen ([] ∷ links) = build_edges seen links
build_edges seen ((a ∷ []) ∷ links) = build_edges seen links
build_edges seen ((a ∷ b ∷ ends) ∷ links) =
    let serial_a = extract_serial a in
    let serial_b = extract_serial b in
    let left = build_edges seen links in
    let kept = edge_between a b ∷ build_edges ((serial_a, serial_b) ∷ seen) links in
    if (not (truthy serial_a) || not (truthy serial_b)) || seen_pair serial_a serial_b seen
    then left
    else kept
