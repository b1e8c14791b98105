-- ===== src/Poller.antt =====
-- server/config_collector/change_log_poller.py. The answer of `get_org_configuration_changes` is an
-- argument.
pub mod Again
mod Tests
use topology_maps.Prelude.{
  ℕ, suc, ◌+◌, Bool, true, false, Option, none, some, List, [], ◌∷◌, ◌++◌, length, map,
  if◌then◌else◌,
}
use topology_maps.Text.{Text, codes, text_eq}
use topology_maps.Catalog.{
  for_each, one_job, org_arguments, network_arguments, ssid_arguments, ssid_entity, number_text,
}
use topology_maps.Catalog.Endpoints.{endpoints}
use topology_maps.Catalog.Events.{ChangeEvent, event_to_endpoints}
use topology_maps.Catalog.Spec.{Scope, org, network, device, ssid, EndpointSpec, Key, Job}
use topology_maps.Store.Changes.{insert_change_event}
use topology_maps.Store.State.{
  SourceEvent, change_event_new, World, Env, Exec, Result, ok, raised, other, and_then, ◌>>=◌, ◌>>◌,
  pure, lift,
}
use topology_maps.Puller.{PullSummary, pull_many}
use topology_maps.Scanner.{send}

-- specs_by_area.get(area): the last endpoint with the area.
unfoldable pub spec_of : Text → List EndpointSpec → Option EndpointSpec
unfolding text_eq
spec_of area [] = none
spec_of area (spec ∷ specs) = elim (spec_of area specs) [
  | some found ↦ some found
  | none ↦ if text_eq spec.config_area area then some spec else none
]

module _ (org_id : Text) where
  -- The network jobs, where `networkId` is given and not empty.
  with_network : Option Text → (Text → Option (List Job)) → Option (List Job)
  with_network none f = some []
  with_network (some []) f = some []
  with_network (some (c ∷ id)) f = f (c ∷ id)

  with_ssid : Option ℕ → (ℕ → Option (List Job)) → Option (List Job)
  with_ssid none f = some []
  with_ssid (some n) f = f n

  -- The branches on `spec.scope`.
  unfoldable pub scope_job : Scope → EndpointSpec → ChangeEvent → Option (List Job)
  unfolding one_job with_network with_ssid
  scope_job org spec event = one_job spec org org_id none (org_arguments org_id)
  scope_job network spec event =
      with_network event.network_id (λ id. one_job spec network id none (network_arguments id))
  scope_job ssid spec event = with_network event.network_id (λ id.
      with_ssid event.ssid_number
        (λ n. one_job spec ssid (ssid_entity id n) (some (number_text n)) (ssid_arguments id n)))
  scope_job device spec event = some []

  unfoldable pub area_job : ChangeEvent → Text → Option (List Job)
  unfolding spec_of scope_job
  area_job event area = elim (spec_of area endpoints) [
    | none ↦ some []
    | some spec ↦ scope_job spec.scope spec event
  ]

  -- The jobs of one event, each with the id of its row.
  unfoldable pub event_jobs : ChangeEvent × ℕ → Option (List (Job × ℕ))
  unfolding for_each area_job event_to_endpoints
  event_jobs (event, row_id) = elim (for_each (event_to_endpoints event) (area_job event)) [
    | none ↦ none
    | some jobs ↦ some (map (λ job. (job, row_id)) jobs)
  ]

  -- The jobs with their ids; the first pair of a key is what `setdefault` leaves for it.
  unfoldable pub build_jobs_from_events : List (ChangeEvent × ℕ) → Option (List (Job × ℕ))
  unfolding for_each event_jobs
  build_jobs_from_events events_with_ids = for_each events_with_ids event_jobs

abbrev pub change_id_by_key : List (Job × ℕ) → List (Key × ℕ)
change_id_by_key = map (λ pair. (pair.0.key, pair.1))

pub record PollSummary : Type 0 where
  pub new_events : ℕ
  pub duplicates : ℕ
  pub successes : ℕ
  pub skipped_unchanged : ℕ
  pub failures : ℕ

module _ (env : Env) (org_id : Text) where
  -- One event that was inserted, or not; the value is (new_event_ids, duplicates).
  unfoldable pub announce : ChangeEvent → Option ℕ → Exec (List (ChangeEvent × ℕ) × ℕ)
  unfolding send
  announce event none = pure ([], 1)
  announce event (some row_id) = do
    send env (change_event_new row_id event)
    pure ((event, row_id) ∷ [], 0)

  unfoldable pub store_events : List ChangeEvent → Exec (List (ChangeEvent × ℕ) × ℕ)
  unfolding insert_change_event announce
  store_events [] w = (ok ([], 0), w)
  store_events (event ∷ events) w =
      let (inserted, w') = insert_change_event env org_id event w in
      and_then (announce event inserted w')
        (λ here. store_events events >>= λ later. pure (here.0 ++ later.0, here.1 + later.1))

  unfoldable pub built : Option (List (Job × ℕ)) → Result (List (Job × ℕ))
  built none = raised (other (codes "KeyError"))
  built (some pairs) = ok pairs

  -- The pull of the jobs, if there are any.
  unfoldable pub pull_jobs : ℕ → ℕ → List (Job × ℕ) → Exec PollSummary
  unfolding pull_many
  pull_jobs new duplicates [] = pure (record {
    new_events = new;
    duplicates = duplicates;
    successes = 0;
    skipped_unchanged = 0;
    failures = 0;
  })
  pull_jobs new duplicates (pair ∷ pairs) = do
    summary ←
        pull_many env org_id none SourceEvent.change_log (change_id_by_key (pair ∷ pairs))
          (map (λ p. p.0) (pair ∷ pairs))
    pure (record {
      new_events = new;
      duplicates = duplicates;
      successes = summary.successes;
      skipped_unchanged = summary.skipped_unchanged;
      failures = summary.failures;
    })

  unfoldable pub poll_once : Result (List ChangeEvent) → Exec PollSummary
  unfolding store_events build_jobs_from_events built pull_jobs
  poll_once answer = do
    events ← lift answer
    (new_event_ids, duplicates) ← store_events events
    pairs ← lift (built (build_jobs_from_events org_id new_event_ids))
    pull_jobs (length new_event_ids) duplicates pairs
