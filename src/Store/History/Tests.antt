-- ===== src/Store/History/Tests.antt =====
-- A history of one row.
use topology_maps.Prelude.{ℕ, ◌≡◌, ◌≤◌, refl, ◌⊎◌, Bool, false, none, some, [], ◌∷◌, In, length}
use topology_maps.Text.{codes}
use topology_maps.Catalog.Spec.{network}
use topology_maps.Store.State.{SourceEvent, Observation, World}
use topology_maps.Store.History.{HistoryQuery, get_observation_history}
use topology_maps.Store.History.Where.{IsAsked}
use topology_maps.Store.History.Newest.{Descending, IsLeftOut, get_observation_history_lem}

abbrev row : ℕ → Observation
row time = record {
  org_id = codes "O";
  key = record {
    entity_type = network;
    entity_id = codes "N1";
    config_area = codes "a";
    sub_key = none;
  };
  hash = codes "h";
  observed_at = time;
  source_event = SourceEvent.baseline;
  change_event_id = none;
  sweep_run_id = none;
  hot_columns = record { name_hint = none; enabled_hint = none };
}

abbrev world : World
world = record {
  blobs = [];
  observations = row 1 ∷ row 3 ∷ row 2 ∷ [];
  sweep_runs = [];
  next_run_id = 1;
  change_events = [];
  next_event_id = 1;
  readings = 4;
  requests = 0;
  notices = [];
}

abbrev query : HistoryQuery
query = record {
  org_id = codes "O";
  entity_type = network;
  entity_id = codes "N1";
  config_area = some (codes "a");
  sub_key = none;
  limit = 2;
  before_observed_at = none;
}

-- Rows of one time in the order of the list.
abbrev first_last : Observation → Observation → Bool
first_last o p = false

get_observation_history_runs : get_observation_history first_last query world ≡ row 3 ∷ row 2 ∷ []
unfolding get_observation_history
get_observation_history_runs = refl

get_observation_history_lem_example :
    (length (get_observation_history first_last query world) ≤ 2)
    × Descending (get_observation_history first_last query world)
    × ((o : Observation)
        → In o (get_observation_history first_last query world)
        → In o world.observations × IsAsked query o)
    × ((o : Observation)
        → In o world.observations × IsAsked query o
        → In o (get_observation_history first_last query world)
          ⊎ IsLeftOut o 2 (get_observation_history first_last query world))
get_observation_history_lem_example = get_observation_history_lem first_last query world
