-- ===== src/Refresh/Jobs.antt =====
-- The jobs of a refresh, from the endpoints of the catalog.
use topology_maps.Prelude.{
  ◌≡◌, refl, sym, ◌∙◌, ◌↔◌, inl, inr, true, false, Option, none, some, List, [], ◌∷◌, In, arith,
  subst, Bool-cases, Option-cases,
}
use topology_maps.Text.{Text, codes, text_eq, text_eq_iff}
use topology_maps.Catalog.{format, make_job, org_arguments, network_arguments, device_arguments}
use topology_maps.Catalog.Expand.{for_each-FromRound, In-for_each, no_jobs, one_job-In, In-one_job}
use topology_maps.Catalog.Endpoints.{endpoints}
use topology_maps.Catalog.Spec.{Scope, org, network, device, ssid, EndpointSpec, Job, scope_eq}
use topology_maps.Refresh.{
  split_colon, is_other_area, ssid_job, job_of_scope, refresh_job, build_jobs_for_refresh,
}

scope_eq-≡ : (s t : Scope) → scope_eq s t ≡ true → s ≡ t
unfolding scope_eq
scope_eq-≡ s t h = ground arith

scope_eq_refl : (s : Scope) → scope_eq s s ≡ true
unfolding scope_eq
scope_eq_refl s = ground arith

module _ (org_id : Text) (entity_type : Scope) (entity_id : Text) (config_area : Option Text) where
  -- What a refresh has to fetch: for each endpoint of the catalog, at the scope of the entity and of
  -- the area, if one is named, the entity's own document.
  pub data Refreshed : Job → Type 0 where
    of_org :
        (spec : EndpointSpec) (url : Text)
        → In spec endpoints
        → is_other_area config_area spec ≡ false
        → spec.scope ≡ org
        → entity_type ≡ org
        → entity_id ≡ org_id
        → format (org_arguments org_id) spec.url_template ≡ some url
        → Refreshed (make_job spec org org_id none url)
    of_network :
        (spec : EndpointSpec) (url : Text)
        → In spec endpoints
        → is_other_area config_area spec ≡ false
        → spec.scope ≡ network
        → entity_type ≡ network
        → format (network_arguments entity_id) spec.url_template ≡ some url
        → Refreshed (make_job spec network entity_id none url)
    of_device :
        (spec : EndpointSpec) (url : Text)
        → In spec endpoints
        → is_other_area config_area spec ≡ false
        → spec.scope ≡ device
        → entity_type ≡ device
        → format (device_arguments entity_id) spec.url_template ≡ some url
        → Refreshed (make_job spec device entity_id none url)
    of_ssid :
        (spec : EndpointSpec) (url network_id ssid_number : Text)
        → In spec endpoints
        → is_other_area config_area spec ≡ false
        → spec.scope ≡ ssid
        → entity_type ≡ ssid
        → split_colon entity_id ≡ some (network_id, ssid_number)
        → format
            ((codes "network_id", network_id) ∷ (codes "ssid_number", ssid_number) ∷ [])
            spec.url_template
          ≡ some url
        → Refreshed (make_job spec ssid entity_id (some ssid_number) url)

  job_of_scope-Refreshed :
      (scope : Scope) (spec : EndpointSpec) (js : List Job) (job : Job)
      → In spec endpoints
      → is_other_area config_area spec ≡ false
      → spec.scope ≡ scope
      → entity_type ≡ scope
      → job_of_scope org_id entity_type entity_id scope spec ≡ some js
      → In job js
      → Refreshed job
  unfolding job_of_scope ssid_job
  job_of_scope-Refreshed org spec js job c o s t e m =
      elim (Bool-cases (text_eq entity_id org_id)) [
        | inl q ↦
            let (url, f, j) =
              one_job-In spec org org_id none (org_arguments org_id) js job (rw q at e) m in
            subst Refreshed (sym j) (of_org spec url c o s t ((text_eq_iff entity_id org_id).0 q) f)
        | inr q ↦ absurd (no_jobs js job (rw q at e) m)
      ]
  job_of_scope-Refreshed network spec js job c o s t e m =
      let (url, f, j) =
        one_job-In spec network entity_id none (network_arguments entity_id) js job e m in
      subst Refreshed (sym j) (of_network spec url c o s t f)
  job_of_scope-Refreshed device spec js job c o s t e m =
      let (url, f, j) =
        one_job-In spec device entity_id none (device_arguments entity_id) js job e m in
      subst Refreshed (sym j) (of_device spec url c o s t f)
  job_of_scope-Refreshed ssid spec js job c o s t e m =
      elim (Option-cases (split_colon entity_id)) [
        | inl q ↦ absurd (no_jobs js job (rw q at e) m)
        | inr ((network_id, n), q) ↦
            let (url, f, j) =
              one_job-In spec ssid entity_id (some n)
                ((codes "network_id", network_id) ∷ (codes "ssid_number", n) ∷ []) js job
                (rw q at e) m in
            subst Refreshed (sym j) (of_ssid spec url network_id n c o s t q f)
      ]

  refresh_job-Refreshed :
      (spec : EndpointSpec) (js : List Job) (job : Job)
      → In spec endpoints
      → refresh_job org_id entity_type entity_id config_area spec ≡ some js
      → In job js
      → Refreshed job
  unfolding refresh_job
  refresh_job-Refreshed spec js job c e m = elim (Bool-cases (is_other_area config_area spec)) [
    | inl o ↦ absurd (no_jobs js job (rw o at e) m)
    | inr o ↦ elim (Bool-cases (scope_eq spec.scope entity_type)) [
      | inl s ↦
          job_of_scope-Refreshed spec.scope spec js job c o refl
            (sym (scope_eq-≡ spec.scope entity_type s)) (rw (o, s) at e) m
      | inr s ↦ absurd (no_jobs js job (rw (o, s) at e) m)
    ]
  ]

  refresh_job-at :
      (scope : Scope) (spec : EndpointSpec)
      → is_other_area config_area spec ≡ false
      → spec.scope ≡ scope
      → entity_type ≡ scope
      → refresh_job org_id entity_type entity_id config_area spec
        ≡ job_of_scope org_id entity_type entity_id scope spec
  unfolding refresh_job
  refresh_job-at scope spec o s t = rw (o, s, t, scope_eq_refl scope, refresh_job) refl

  Refreshed-In :
      (jobs : List Job) (job : Job)
      → build_jobs_for_refresh org_id entity_type entity_id config_area ≡ some jobs
      → Refreshed job
      → In job jobs
  unfolding build_jobs_for_refresh job_of_scope ssid_job
  Refreshed-In jobs job e (of_org spec url c o s t same f) =
      In-for_each _ endpoints jobs spec job e c λ js r.
        let r' = sym (refresh_job-at org spec o s t) ∙ r in
        let here : text_eq entity_id org_id ≡ true = (text_eq_iff entity_id org_id).1 same in
        In-one_job spec org org_id none (org_arguments org_id) url js f (rw here at r')
  Refreshed-In jobs job e (of_network spec url c o s t f) =
      In-for_each _ endpoints jobs spec job e c λ js r.
        In-one_job spec network entity_id none (network_arguments entity_id) url js f
          (sym (refresh_job-at network spec o s t) ∙ r)
  Refreshed-In jobs job e (of_device spec url c o s t f) =
      In-for_each _ endpoints jobs spec job e c λ js r.
        In-one_job spec device entity_id none (device_arguments entity_id) url js f
          (sym (refresh_job-at device spec o s t) ∙ r)
  Refreshed-In jobs job e (of_ssid spec url network_id n c o s t q f) =
      In-for_each _ endpoints jobs spec job e c λ js r.
        let r' = sym (refresh_job-at ssid spec o s t) ∙ r in
        In-one_job spec ssid entity_id (some n)
          ((codes "network_id", network_id) ∷ (codes "ssid_number", n) ∷ []) url js f (rw q at r')

  -- Where no template raises, the jobs of a refresh are exactly those of the entity: one for each
  -- endpoint of the catalog at its scope, in the area that is named, if one is; an organisation has
  -- to be the collector's own, and the id of an SSID has to hold a colon.
  pub build_jobs_for_refresh_iff :
      (jobs : List Job) (job : Job)
      → build_jobs_for_refresh org_id entity_type entity_id config_area ≡ some jobs
      → In job jobs ↔ Refreshed job
  unfolding build_jobs_for_refresh
  build_jobs_for_refresh_iff jobs job e = (
    λ m.
        let (spec, js, c, r, m') = for_each-FromRound _ endpoints jobs job e m in
        refresh_job-Refreshed spec js job c r m',
    Refreshed-In jobs job e,
  )
