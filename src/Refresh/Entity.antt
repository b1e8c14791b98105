-- ===== src/Refresh/Entity.antt =====
-- From the jobs of a refresh to their pull.
use topology_maps.Prelude.{
  ◌≡◌, refl, inl, inr, false, Option, none, some, List, [], ◌∷◌, length, In, Bool-cases,
  Option-cases,
}
use topology_maps.Text.{Text, codes, text_eq}
use topology_maps.Catalog.{org_arguments, network_arguments, device_arguments}
use topology_maps.Catalog.Expand.{for_each_total}
use topology_maps.Catalog.Tables.{one_job_total, blank_arguments}
use topology_maps.Catalog.Endpoints.{endpoints}
use topology_maps.Catalog.Spec.{Scope, org, network, device, ssid, EndpointSpec, Job, scope_eq}
use topology_maps.Store.State.{SourceEvent, World, Env, ok, IsRising}
use topology_maps.Store.Integrity.{IsSound}
use topology_maps.Puller.{PullSummary, empty_summary, coalesce_jobs}
use topology_maps.Puller.Pull.{Pulled, pull_many-Pulled}
use topology_maps.Refresh.{
  split_colon, is_other_area, ssid_job, job_of_scope, refresh_job, build_jobs_for_refresh, Request,
  done, is_active_refresh, requested_jobs, refresh_entity,
}

module _ (org_id : Text) (entity_type : Scope) (entity_id : Text) (config_area : Option Text) where
  job_of_scope_total :
      (scope : Scope) (spec : EndpointSpec)
      → In spec endpoints
      → spec.scope ≡ scope
      → (js : List Job) × (job_of_scope org_id entity_type entity_id scope spec ≡ some js)
  unfolding job_of_scope ssid_job blank_arguments
  job_of_scope_total org spec m s = elim (Bool-cases (text_eq entity_id org_id)) [
    | inl q ↦ rw q (one_job_total org spec org_id none (org_arguments org_id) m s (refl, tt))
    | inr q ↦ rw q ([], refl)
  ]
  job_of_scope_total network spec m s =
      one_job_total network spec entity_id none (network_arguments entity_id) m s (refl, tt)
  job_of_scope_total device spec m s =
      one_job_total device spec entity_id none (device_arguments entity_id) m s (refl, tt)
  job_of_scope_total ssid spec m s = elim (Option-cases (split_colon entity_id)) [
    | inl q ↦ rw q ([], refl)
    | inr ((network_id, n), q) ↦ rw q (
        one_job_total ssid spec entity_id (some n)
          ((codes "network_id", network_id) ∷ (codes "ssid_number", n) ∷ []) m s (refl, (refl, tt)))
  ]

  refresh_job_total :
      (spec : EndpointSpec)
      → In spec endpoints
      → (js : List Job) × (refresh_job org_id entity_type entity_id config_area spec ≡ some js)
  unfolding refresh_job
  refresh_job_total spec m = elim (Bool-cases (is_other_area config_area spec)) [
    | inl o ↦ rw (o, refresh_job) ([], refl)
    | inr o ↦ elim (Bool-cases (scope_eq spec.scope entity_type)) [
      | inl s ↦ rw (o, s, refresh_job) (job_of_scope_total spec.scope spec m refl)
      | inr s ↦ rw (o, s, refresh_job) ([], refl)
    ]
  ]

  build_jobs_for_refresh_total :
      (jobs : List Job) × (build_jobs_for_refresh org_id entity_type entity_id config_area
        ≡ some jobs)
  unfolding build_jobs_for_refresh
  build_jobs_for_refresh_total = for_each_total _ endpoints refresh_job_total

requested_jobs-ok :
    (r : Request) (jobs : List Job)
    → build_jobs_for_refresh r.org_id r.entity_type r.entity_id r.config_area ≡ some jobs
    → requested_jobs r ≡ ok jobs
unfolding requested_jobs
requested_jobs-ok r jobs e = rw (e, requested_jobs) refl

-- From sound tables, under a clock that rises and whatever the API answers, a refresh that is not in
-- flight makes its jobs without raising, pulls them and returns their number; the pull counts
-- each key once and leaves each answered one at the digest of its redacted answer.
pub refresh_entity-Pulled :
    (env : Env) (rising : IsRising env) (active : List Request) (r : Request) (w : World)
    → IsSound env w
    → is_active_refresh r active ≡ false
    → (jobs : List Job) × (s : PullSummary) × (w' : World) × (build_jobs_for_refresh r.org_id
          r.entity_type r.entity_id r.config_area
        ≡ some jobs)
      × (refresh_entity env active r w ≡ (ok (length jobs, done), w'))
      × Pulled env r.org_id none SourceEvent.manual_refresh [] rising
          (coalesce_jobs jobs)
          empty_summary
          s
          w
          w'
unfolding refresh_entity
refresh_entity-Pulled env rising active r w sound idle =
    let (jobs, e) = build_jobs_for_refresh_total r.org_id r.entity_type r.entity_id r.config_area in
    let (s, w', q, pulled) =
      pull_many-Pulled env r.org_id none SourceEvent.manual_refresh [] rising jobs w sound in
    (jobs, s, w', e, rw (idle, requested_jobs-ok r jobs e, q, refresh_entity) refl, pulled)
