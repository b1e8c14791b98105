-- ===== src/Puller.antt =====
-- server/config_collector/targeted_puller.py
pub mod Coalesce
pub mod Pull
mod Tests
use topology_maps.Prelude.{
  ℕ, suc, ◌+◌, Bool, true, false, ◌||◌, Option, none, some, List, [], ◌∷◌, ◌++◌, if◌then◌else◌,
}
use topology_maps.Text.{Text}
use topology_maps.Json.{Json}
use topology_maps.Catalog.Spec.{Key, Job, key_eq}
use topology_maps.Redactor.{Redacted, redact}
use topology_maps.Redactor.Path
use topology_maps.Store.{Source, upsert_blob, insert_observation_if_changed}
use topology_maps.Store.State.{
  SourceEvent, World, Env, Exec, Result, Exception, ok, raised, value_error, and_then,
}

pub record PullSummary : Type 0 where
  pub successes : ℕ
  pub skipped_unchanged : ℕ
  pub failures : ℕ
  pub errors : List (Text × Exception)

abbrev pub empty_summary : PullSummary
empty_summary = record { successes = 0; skipped_unchanged = 0; failures = 0; errors = [] }

-- key in seen
unfoldable pub seen_before : Key → List Key → Bool
unfolding key_eq
seen_before key [] = false
seen_before key (k ∷ seen) = key_eq k key || seen_before key seen

-- The loop of the generator, with what `seen` holds.
unfoldable pub coalesce_from : List Key → List Job → List Job
unfolding seen_before
coalesce_from seen [] = []
coalesce_from seen (j ∷ jobs) =
    let again = coalesce_from seen jobs in
    let fresh = j ∷ coalesce_from (j.key ∷ seen) jobs in
    if seen_before j.key seen then again else fresh

unfoldable pub coalesce_jobs : List Job → List Job
unfolding coalesce_from
coalesce_jobs jobs = coalesce_from [] jobs

unfoldable pub fetch_one : Env → Job → Exec Json
fetch_one env job w = (
  (if job.paginated then env.get_paginated w.requests job.url else env.get w.requests job.url),
  record w { requests = suc w.requests },
)

-- change_event_id_by_key.get(key)
unfoldable pub change_event_of : Key → List (Key × ℕ) → Option ℕ
unfolding key_eq
change_event_of key [] = none
change_event_of key ((k, id) ∷ rest) = if key_eq k key then some id else change_event_of key rest

module _ (env : Env) (org_id : Text) (sweep_run_id : Option ℕ) (source_event : SourceEvent)
    (change_event_id_by_key : List (Key × ℕ)) where
  abbrev pub source_of : Key → Source
  source_of key = record {
    org_id = org_id;
    source_event = source_event;
    change_event_id = change_event_of key change_event_id_by_key;
    sweep_run_id = sweep_run_id;
  }

  unfoldable pub count_written : Result Bool → PullSummary → Result PullSummary
  count_written (ok true) s = ok (record s { successes = s.successes + 1 })
  count_written (ok false) s = ok (record s { skipped_unchanged = s.skipped_unchanged + 1 })
  count_written (raised e) s = raised e

  -- redact, upsert_blob, insert_observation_if_changed
  unfoldable pub store_redacted : Job → Path.Result Redacted → PullSummary → Exec PullSummary
  unfolding upsert_blob insert_observation_if_changed count_written change_event_of
  store_redacted job (Path.err e) s w = (raised (value_error e), w)
  store_redacted job (Path.ok r) s w =
      let w' = (upsert_blob env r.sha256_hex r.canonical r.byte_size w).1 in
      let (wrote, w'') =
        insert_observation_if_changed env (source_of job.key) job.key r.sha256_hex r.hot_columns
          w' in
      (count_written wrote s, w'')

  unfoldable pub store_fetched : Job → Result Json → PullSummary → Exec PullSummary
  unfolding store_redacted redact
  store_fetched job (raised e) s w =
      (ok (record s { failures = s.failures + 1; errors = s.errors ++ (job.url, e) ∷ [] }), w)
  store_fetched job (ok raw) s w = store_redacted job (redact env.sha256 raw job.config_area) s w

  unfoldable pub pull_one : Job → PullSummary → Exec PullSummary
  unfolding fetch_one store_fetched
  pull_one job s w = let (fetched, w') = fetch_one env job w in store_fetched job fetched s w'

  -- The loop; an exception ends it.
  unfoldable pub pull_each : List Job → PullSummary → Exec PullSummary
  unfolding pull_one
  pull_each [] s w = (ok s, w)
  pull_each (job ∷ jobs) s w = and_then (pull_one job s w) (pull_each jobs)

  unfoldable pub pull_many : List Job → Exec PullSummary
  unfolding pull_each coalesce_jobs
  pull_many jobs w = pull_each (coalesce_jobs jobs) empty_summary w
