-- ===== src/Refresh.antt =====
-- server/config_collector/manual_refresh.py
pub mod Jobs
pub mod Entity
pub mod Registry
pub mod Exclusive
mod Tests
use topology_maps.Prelude.{
  ℕ, Bool, true, false, not, ◌&&◌, ◌||◌, Option, none, some, List, [], ◌∷◌, ◌==◌, length,
  if◌then◌else◌,
}
use topology_maps.Text.{Text, codes, text_eq}
use topology_maps.Catalog.{for_each, one_job, org_arguments, network_arguments, device_arguments}
use topology_maps.Catalog.Endpoints.{endpoints}
use topology_maps.Catalog.Spec.{
  Scope, org, network, device, ssid, EndpointSpec, Job, scope_eq, option_eq,
}
use topology_maps.Store.State.{
  SourceEvent, World, Env, Exec, Result, ok, raised, other, and_then, ◌>>=◌, pure, lift,
}
use topology_maps.Puller.{pull_many}

-- The argument of `split(":", 1)` where ":" is in it, `none` where it is not.
unfoldable pub split_colon : Text → Option (Text × Text)
split_colon [] = none
split_colon (c ∷ t) =
    let rest = split_colon t in
    if c == b':'
    then some ([], t)
    else elim rest [ none ↦ none | some (before, after) ↦ some (c ∷ before, after) ]

-- config_area and spec.config_area != config_area
unfoldable pub is_other_area : Option Text → EndpointSpec → Bool
unfolding text_eq
is_other_area none spec = false
is_other_area (some []) spec = false
is_other_area (some (c ∷ t)) spec = not (text_eq spec.config_area (c ∷ t))

module _ (org_id : Text) (entity_type : Scope) (entity_id : Text) where
  ssid_job : EndpointSpec → Option (Text × Text) → Option (List Job)
  unfolding one_job
  ssid_job spec none = some []
  ssid_job spec (some (network_id, ssid_number)) =
      one_job spec ssid entity_id (some ssid_number)
        ((codes "network_id", network_id) ∷ (codes "ssid_number", ssid_number) ∷ [])

  -- The branches on `spec.scope`, where the entity has the same type.
  unfoldable pub job_of_scope : Scope → EndpointSpec → Option (List Job)
  unfolding one_job ssid_job split_colon text_eq
  job_of_scope org spec =
      if text_eq entity_id org_id
      then one_job spec org org_id none (org_arguments org_id)
      else some []
  job_of_scope network spec = one_job spec network entity_id none (network_arguments entity_id)
  job_of_scope device spec = one_job spec device entity_id none (device_arguments entity_id)
  job_of_scope ssid spec = ssid_job spec (split_colon entity_id)

  -- One round of the loop.
  unfoldable pub refresh_job : Option Text → EndpointSpec → Option (List Job)
  unfolding is_other_area scope_eq job_of_scope
  refresh_job config_area spec =
      if is_other_area config_area spec
      then some []
      else if scope_eq spec.scope entity_type
      then job_of_scope spec.scope spec
      else some []

  -- `none` is an exception of `format`. An entity type that is no scope gives no job.
  unfoldable pub build_jobs_for_refresh : Option Text → Option (List Job)
  unfolding for_each refresh_job
  build_jobs_for_refresh config_area = for_each endpoints (refresh_job config_area)

-- What a request names, which is the key of the registry of active refreshes.
pub record Request : Type 0 where
  pub org_id : Text
  pub entity_type : Scope
  pub entity_id : Text
  pub config_area : Option Text

unfoldable pub request_eq : Request → Request → Bool
unfolding text_eq scope_eq option_eq
request_eq r s =
    text_eq r.org_id s.org_id
    && (scope_eq r.entity_type s.entity_type
        && (text_eq r.entity_id s.entity_id && option_eq r.config_area s.config_area))

unfoldable pub is_active_refresh : Request → List Request → Bool
unfolding request_eq
is_active_refresh r [] = false
is_active_refresh r (s ∷ active) = request_eq s r || is_active_refresh r active

pub data RefreshStatus : Type 0 where
  already_in_flight done : RefreshStatus

unfoldable pub requested_jobs : Request → Result (List Job)
unfolding build_jobs_for_refresh
requested_jobs r = elim (build_jobs_for_refresh r.org_id r.entity_type r.entity_id r.config_area) [
  | none ↦ raised (other (codes "KeyError"))
  | some jobs ↦ ok jobs
]

-- `active` are the requests whose tasks are not done when this one comes; the value is
-- (expected_calls, status). The task's own entry is removed when the task ends, however it ends.
unfoldable pub refresh_entity : Env → List Request → Request → Exec (ℕ × RefreshStatus)
unfolding is_active_refresh requested_jobs pull_many
refresh_entity env active r w =
    if is_active_refresh r active
    then (ok (0, already_in_flight), w)
    else and_then (requested_jobs r, w)
        (λ jobs w'.
          and_then (pull_many env r.org_id none SourceEvent.manual_refresh [] jobs w')
            (λ summary. pure (length jobs, done)))
