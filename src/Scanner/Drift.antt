-- ===== src/Scanner/Drift.antt =====
-- What the loop of an anti-drift sweep writes.
use topology_maps.Prelude.{
  if◌then◌else◌, ℕ, suc, ◌+◌, ◌≡◌, ◌≢◌, refl, sym, subst, ap, ◌∙◌, inl, inr, true, Option, some,
  List, ◌∷◌, length, get_elem?, arith, In,
}
use topology_maps.Text.{Text}
use topology_maps.Json.{Json}
use topology_maps.Catalog.Spec.{Key, Job}
use topology_maps.Redactor.{HotColumns, Redacted, redact}
use topology_maps.Redactor.Path
use topology_maps.Hashing.{utf8}
use topology_maps.Store.{
  has_hash, Source, has_blob, always_written, new_observation, upsert_blob, insert_observation,
  insert_observation_if_changed, get_latest_observation,
}
use topology_maps.Store.State.{
  SourceEvent, anti_drift_confirm, anti_drift_discrepancy, Observation, World, Env, Result, ok,
  raised, IsRising, now,
}
use topology_maps.Store.Integrity.{
  IsSound, upsert_blob-has_blob, upsert_blob-IsSound, insert_observation_if_changed-IsSound,
}
use topology_maps.Store.Latest.{latest-insert_observation_if_changed_ne}
use topology_maps.Puller.Coalesce.{absent}
use topology_maps.Puller.Pull.{answer, latest_for, observations-upsert_blob}
use topology_maps.Scanner.{drift_source, drift_event, store_drift}

-- A source that is always written adds one row.
insert-always_written :
    (env : Env) (source : Source) (key : Key) (hash : Text) (hot : HotColumns) (w : World)
    → always_written source.source_event ≡ true
    → has_blob hash w.blobs ≡ true
    → insert_observation_if_changed env source key hash hot w ≡ (
      ok true,
      record w {
        readings = suc w.readings;
        observations = new_observation source key hash hot (env.clock w.readings) ∷ w.observations;
      },
    )
unfolding insert_observation_if_changed insert_observation now
insert-always_written env source key hash hot w a b = rw (a, b) refl

module _ (env : Env) (org_id : Text) (id : ℕ) where
  abbrev pub event_for : Text → Option Observation → SourceEvent
  event_for hash latest =
      if has_hash hash latest then anti_drift_confirm else anti_drift_discrepancy

  -- The row for an answer: confirmed where the latest observation before the sweep has its digest, a
  -- discrepancy otherwise.
  abbrev pub drift_row : Job → Redacted → World → ℕ → Observation
  drift_row job r w time =
      new_observation
        (drift_source env org_id (event_for r.sha256_hex (latest_for org_id job.key w)) id) job.key
        r.sha256_hex r.hot_columns time

  -- An answer has left its row.
  abbrev pub IsRecorded : Job → Result Json → World → World → Type 0
  IsRecorded job (raised e) w w' = Unit
  IsRecorded job (ok raw) w w' =
      (r : Redacted) × (redact env.sha256 raw job.config_area ≡ Path.ok r)
      × (time : ℕ) × In (drift_row job r w time) w'.observations

  -- One row is written for each job that is completed, and none for another; each job is requested
  -- once, in order, and completed or failed.
  pub record Drifted (jobs : List Job) (before after : ℕ × ℕ) (w w' : World) : Type 0 where
    pub sound : IsSound env w'
    pub requested : w'.requests ≡ w.requests + length jobs
    pub counted : after.0 + after.1 ≡ before.0 + before.1 + length jobs
    pub rows : length w'.observations + before.0 ≡ length w.observations + after.0
    pub kept : (o : Observation) → In o w.observations → In o w'.observations
    pub recorded :
        (i : ℕ) (job : Job)
        → get_elem? jobs i ≡ some job
        → IsRecorded job (answer env job (w.requests + i)) w w'
    pub others :
        (key : Key) → absent key jobs ≡ true → latest_for org_id key w' ≡ latest_for org_id key w

  -- The outcome of one job.
  pub record Round (job : Job) (fetched : Result Json) (before after : ℕ × ℕ) (w w' : World)
      : Type 0 where
    pub sound : IsSound env w'
    pub requested : w'.requests ≡ w.requests
    pub counted : after.0 + after.1 ≡ before.0 + before.1 + 1
    pub rows : length w'.observations + before.0 ≡ length w.observations + after.0
    pub kept : (o : Observation) → In o w.observations → In o w'.observations
    pub recorded : IsRecorded job fetched w w'
    pub others : (key : Key) → job.key ≢ key → latest_for org_id key w' ≡ latest_for org_id key w

  event-always_written :
      (hash : Text) (latest : Option Observation) → always_written (event_for hash latest) ≡ true
  unfolding always_written
  event-always_written hash latest = ground arith

  pub store_drift-Round :
      (job : Job) (raw : Json) (r : Redacted) (completed failed : ℕ) (w : World)
      → IsRising env
      → redact env.sha256 raw job.config_area ≡ Path.ok r
      → r.sha256_hex ≡ env.sha256 (utf8 r.canonical)
      → IsSound env w
      → (w' : World) × (store_drift env org_id id job r w ≡ (ok true, w'))
        × Round job (ok raw) (completed, failed) (completed + 1, failed) w w'
  unfolding store_drift drift_event
  store_drift-Round job raw r completed failed w rising e d sound =
      let w1 = (upsert_blob env r.sha256_hex r.canonical r.byte_size w).1 in
      let (same_rows, same_requests) =
        observations-upsert_blob env r.sha256_hex r.canonical r.byte_size w in
      let event = event_for r.sha256_hex (latest_for org_id job.key w1) in
      let source = drift_source env org_id event id in
      let row = new_observation source job.key r.sha256_hex r.hot_columns (env.clock w1.readings) in
      let w2 = record w1 { readings = suc w1.readings; observations = row ∷ w1.observations } in
      let inserted : insert_observation_if_changed env source job.key r.sha256_hex r.hot_columns w1
          ≡ (ok true, w2) =
        insert-always_written env source job.key r.sha256_hex r.hot_columns w1
          (event-always_written r.sha256_hex (latest_for org_id job.key w1))
          (upsert_blob-has_blob env r.sha256_hex r.canonical r.byte_size w) in
      let sound1 : IsSound env w1 =
        subst (λ h. IsSound env (upsert_blob env h r.canonical r.byte_size w).1) (sym d)
          (upsert_blob-IsSound env r.canonical r.byte_size w rising sound) in
      (
        w2,
        inserted,
        record {
          sound =
              subst (λ m. IsSound env m.1) inserted
                (insert_observation_if_changed-IsSound env source job.key r.sha256_hex r.hot_columns
                  w1 rising sound1);
          requested = same_requests;
          counted = omega arith;
          rows = ap (λ os. suc (length os) + completed) same_rows ∙ omega arith;
          kept = λ o h. inr (subst (In o) (sym same_rows) h);
          recorded = (
            r,
            e,
            env.clock w1.readings,
            subst
                (λ os.
                  In
                    (new_observation
                      (drift_source env org_id
                        (event_for r.sha256_hex (get_latest_observation org_id job.key os)) id)
                      job.key r.sha256_hex r.hot_columns (env.clock w1.readings))
                    w2.observations)
                same_rows (inl refl),
          );
          others = λ key h.
              ap (λ m. get_latest_observation org_id key m.1.observations) (sym inserted)
              ∙ (latest-insert_observation_if_changed_ne env source job.key r.sha256_hex
                    r.hot_columns w1 org_id key h
                  ∙ ap (get_latest_observation org_id key) same_rows);
        },
      )
