-- ===== src/Puller/Pull.antt =====
-- `pull_many` accounts for every job, keeps the tables sound and leaves each key at what was fetched.
use topology_maps.Prelude.{
  ℕ, zero, suc, ◌+◌, ◌≡◌, refl, ◌≢◌, sym, ap, ◌∙◌, Bool, true, false, Option, some, List, [], ◌∷◌,
  length, get_elem?, arith, if◌then◌else◌, subst,
}
use topology_maps.Text.{Text}
use topology_maps.Json.{Json}
use topology_maps.Hashing.{utf8}
use topology_maps.Catalog.Spec.{Key, Job}
use topology_maps.Redactor.{HotColumns, Redacted, redact}
use topology_maps.Redactor.Path
use topology_maps.Redactor.Redact.{redact_total}
use topology_maps.Store.{
  Source, upsert_blob, insert_observation, insert_observation_if_changed, get_latest_observation,
  has_hash,
}
use topology_maps.Store.State.{
  SourceEvent, Observation, World, Env, Exec, Result, ok, raised, IsRising,
}
use topology_maps.Store.Integrity.{
  IsSound, upsert_blob-has_blob, upsert_blob-IsSound, insert_observation_if_changed-IsSound,
}
use topology_maps.Store.Latest.{
  latest-insert_observation_if_changed, latest-insert_observation_if_changed_ne,
}
use topology_maps.Puller.{
  PullSummary, empty_summary, coalesce_jobs, source_of, count_written, store_redacted,
  store_fetched, pull_one, pull_each, pull_many,
}
use topology_maps.Puller.Coalesce.{absent, absent-cons, DistinctKeys, coalesce_jobs_lem}

-- The jobs that a summary accounts for.
abbrev pub processed : PullSummary → ℕ
processed s = s.successes + s.skipped_unchanged + s.failures

-- The answer that the request with this number gets.
abbrev pub answer : Env → Job → ℕ → Result Json
answer env job n = if job.paginated then env.get_paginated n job.url else env.get n job.url

pub observations-upsert_blob :
    (env : Env) (hash payload : Text) (size : ℕ) (w : World)
    → ((upsert_blob env hash payload size w).1.observations ≡ w.observations)
      × ((upsert_blob env hash payload size w).1.requests ≡ w.requests)
unfolding upsert_blob
observations-upsert_blob env hash payload size w = ground arith

requests-insert_observation_if_changed :
    (env : Env) (source : Source) (key : Key) (hash : Text) (hot : HotColumns) (w : World)
    → (insert_observation_if_changed env source key hash hot w).1.requests ≡ w.requests
unfolding insert_observation_if_changed insert_observation
requests-insert_observation_if_changed env source key hash hot w = ground arith

after_write : Bool → PullSummary → PullSummary
after_write true s = record s { successes = s.successes + 1 }
after_write false s = record s { skipped_unchanged = s.skipped_unchanged + 1 }

processed-after_write :
    (wrote : Bool) (s : PullSummary) → processed (after_write wrote s) ≡ processed s + 1
unfolding after_write
processed-after_write true s = omega arith
processed-after_write false s = omega arith

abbrev pub latest_for : Text → Key → World → Option Observation
latest_for org_id key w = get_latest_observation org_id key w.observations

-- The latest observation of the job's key has the digest of what was fetched for it.
abbrev pub IsFreshFor : Env → Text → Job → Result Json → World → Type 0
IsFreshFor env org_id job (raised e) w = Unit
IsFreshFor env org_id job (ok raw) w =
    (r : Redacted) × (redact env.sha256 raw job.config_area ≡ Path.ok r)
    × (has_hash r.sha256_hex (latest_for org_id job.key w) ≡ true)

pub IsFreshFor-latest :
    (env : Env) (org_id : Text) (job : Job) (fetched : Result Json) (w w' : World)
    → latest_for org_id job.key w' ≡ latest_for org_id job.key w
    → IsFreshFor env org_id job fetched w
    → IsFreshFor env org_id job fetched w'
IsFreshFor-latest env org_id job (raised e) w w' q h = tt
IsFreshFor-latest env org_id job (ok raw) w w' q (r, e, f) =
    (r, e, ap (has_hash r.sha256_hex) q ∙ f)

module _ (env : Env) (org_id : Text) (sweep_run_id : Option ℕ) (source_event : SourceEvent)
    (change_event_id_by_key : List (Key × ℕ)) (rising : IsRising env) where
  abbrev one : Job → PullSummary → Exec PullSummary
  one = pull_one env org_id sweep_run_id source_event change_event_id_by_key

  abbrev each : List Job → PullSummary → Exec PullSummary
  each = pull_each env org_id sweep_run_id source_event change_event_id_by_key

  abbrev many : List Job → Exec PullSummary
  many = pull_many env org_id sweep_run_id source_event change_event_id_by_key

  abbrev latest : Key → World → Option Observation
  latest = latest_for org_id

  abbrev IsFresh : Job → Result Json → World → Type 0
  IsFresh = IsFreshFor env org_id

  -- One round: it returns, counts its job once, makes one request and keeps the tables sound, the
  -- job's key is fresh and every other key is as it was.
  record Round (job : Job) (fetched : Result Json) (s s' : PullSummary) (w w' : World)
      : Type 0 where
    sound : IsSound env w'
    counted : processed s' ≡ processed s + 1
    requested : w'.requests ≡ w.requests
    fresh : IsFresh job fetched w'
    others : (key : Key) → job.key ≢ key → latest key w' ≡ latest key w

  count_written-after_write :
      (wrote : Bool) (s : PullSummary)
      → count_written env org_id sweep_run_id source_event change_event_id_by_key (ok wrote) s
        ≡ ok (after_write wrote s)
  unfolding count_written after_write
  count_written-after_write true s = refl
  count_written-after_write false s = refl

  abbrev Outcome : Job → Result Json → Result PullSummary × World → PullSummary → World → Type 0
  Outcome job fetched result s w =
      (s' : PullSummary) × (w' : World) × (result ≡ (ok s', w')) × Round job fetched s s' w w'

  store_redacted-Round :
      (job : Job) (raw : Json) (r : Redacted) (s : PullSummary) (w : World)
      → redact env.sha256 raw job.config_area ≡ Path.ok r
      → r.sha256_hex ≡ env.sha256 (utf8 r.canonical)
      → IsSound env w
      → Outcome job
          (ok raw)
          (store_redacted env org_id sweep_run_id source_event change_event_id_by_key job
            (Path.ok r)
            s
            w)
          s
          w
  unfolding store_redacted
  store_redacted-Round job raw r s w e d sound =
      let w1 = (upsert_blob env r.sha256_hex r.canonical r.byte_size w).1 in
      let source = source_of env org_id sweep_run_id source_event change_event_id_by_key job.key in
      let after = insert_observation_if_changed env source job.key r.sha256_hex r.hot_columns w1 in
      let (same_rows, same_requests) =
        observations-upsert_blob env r.sha256_hex r.canonical r.byte_size w in
      let sound1 : IsSound env w1 =
        subst (λ h. IsSound env (upsert_blob env h r.canonical r.byte_size w).1) (sym d)
          (upsert_blob-IsSound env r.canonical r.byte_size w rising sound) in
      let stored = upsert_blob-has_blob env r.sha256_hex r.canonical r.byte_size w in
      let ((wrote, q), fresh) =
        latest-insert_observation_if_changed env source job.key r.sha256_hex r.hot_columns w1 sound1
          stored in
      (
        after_write wrote s,
        after.1,
        ap
              (λ x. (
                count_written env org_id sweep_run_id source_event change_event_id_by_key x s,
                after.1,
              ))
              q
            ∙ ap (λ x. (x, after.1)) (count_written-after_write wrote s),
        record {
          sound =
              insert_observation_if_changed-IsSound env source job.key r.sha256_hex r.hot_columns w1
                rising sound1;
          counted = processed-after_write wrote s;
          requested =
              requests-insert_observation_if_changed env source job.key r.sha256_hex r.hot_columns
                w1
              ∙ same_requests;
          fresh = (r, e, fresh);
          others = λ key h.
              latest-insert_observation_if_changed_ne env source job.key r.sha256_hex r.hot_columns
                w1 org_id key h
              ∙ ap (get_latest_observation org_id key) same_rows;
        },
      )

  store_fetched-Round :
      (job : Job) (fetched : Result Json) (s : PullSummary) (w : World)
      → IsSound env w
      → Outcome job fetched
          (store_fetched env org_id sweep_run_id source_event change_event_id_by_key job fetched s
            w)
          s
          w
  unfolding store_fetched
  store_fetched-Round job (raised e) s w sound = (
    _,
    w,
    refl,
    record {
      sound = sound;
      counted = omega arith;
      requested = refl;
      fresh = tt;
      others = λ _ _. refl;
    },
  )
  store_fetched-Round job (ok raw) s w sound =
      let (r, e, d, _) = redact_total env.sha256 raw job.config_area in
      rw e (store_redacted-Round job raw r s w e d sound)

  pull_one-Round :
      (job : Job) (s : PullSummary) (w : World)
      → IsSound env w
      → (s' : PullSummary) × (w' : World) × (one job s w ≡ (ok s', w'))
        × Round job (answer env job w.requests) s s' (record w { requests = suc w.requests }) w'
  unfolding pull_one
  pull_one-Round job s w sound =
      store_fetched-Round job (answer env job w.requests) s (record w { requests = suc w.requests })
        (record { addressed = sound.addressed; backed = sound.backed; past = sound.past })

  -- What the loop over `jobs` has done.
  pub record Pulled (jobs : List Job) (s s' : PullSummary) (w w' : World) : Type 0 where
    pub sound : IsSound env w'
    pub counted : processed s' ≡ processed s + length jobs
    pub requested : w'.requests ≡ w.requests + length jobs
    pub fresh :
        (i : ℕ) (job : Job)
        → get_elem? jobs i ≡ some job
        → IsFresh job (answer env job (w.requests + i)) w'
    pub others : (key : Key) → absent key jobs ≡ true → latest key w' ≡ latest key w

  IsFresh-cons :
      (job : Job) (jobs : List Job) (s1 s2 : PullSummary) (w w1 w2 : World)
      → w1.requests ≡ suc w.requests
      → IsFresh job (answer env job w.requests) w2
      → Pulled jobs s1 s2 w1 w2
      → (i : ℕ) (j : Job) → get_elem? (job ∷ jobs) i ≡ some j
      → IsFresh j (answer env j (w.requests + i)) w2
  IsFresh-cons job jobs s1 s2 w w1 w2 q f r zero j e =
      let same : job ≡ j = ground arith in
      let n : w.requests ≡ w.requests + 0 = omega arith in
      subst (λ x. IsFresh x (answer env x (w.requests + 0)) w2) same
        (subst (λ x. IsFresh job (answer env job x) w2) n f)
  IsFresh-cons job jobs s1 s2 w w1 w2 q f r (suc i) j e =
      let n : w1.requests + i ≡ w.requests + suc i = omega arith in
      subst (λ x. IsFresh j (answer env j x) w2) n (r.fresh i j e)

  Pulled-cons :
      (job : Job) (jobs : List Job) (s s1 s2 : PullSummary) (w w1 w2 : World)
      → absent job.key jobs ≡ true
      → Round job (answer env job w.requests) s s1 (record w { requests = suc w.requests }) w1
      → Pulled jobs s1 s2 w1 w2
      → Pulled (job ∷ jobs) s s2 w w2
  Pulled-cons job jobs s s1 s2 w w1 w2 a r1 r2 = record {
    sound = r2.sound;
    counted = omega arith;
    requested = omega arith;
    fresh =
        IsFresh-cons job jobs s1 s2 w w1 w2 r1.requested
          (IsFreshFor-latest env org_id job (answer env job w.requests) w1 w2 (r2.others job.key a)
            r1.fresh)
          r2;
    others = λ key h.
        let (differs, later) = absent-cons key job jobs h in
        r2.others key later ∙ r1.others key differs;
  }

  pull_each-Pulled :
      (jobs : List Job) (s : PullSummary) (w : World)
      → IsSound env w
      → DistinctKeys jobs
      → (s' : PullSummary) × (w' : World) × (each jobs s w ≡ (ok s', w')) × Pulled jobs s s' w w'
  unfolding pull_each
  pull_each-Pulled [] s w sound d = (
    s,
    w,
    refl,
    record {
      sound = sound;
      counted = omega arith;
      requested = omega arith;
      fresh = λ i job e. absurd (ground arith);
      others = λ _ _. refl;
    },
  )
  pull_each-Pulled (job ∷ jobs) s w sound d =
      let (s1, w1, e1, r1) = pull_one-Round job s w sound in
      let (s2, w2, e2, r2) = pull_each-Pulled jobs s1 w1 r1.sound d.1 in
      (s2, w2, rw e1 e2, Pulled-cons job jobs s s1 s2 w w1 w2 d.0 r1 r2)

  -- From sound tables, under a rising clock and whatever the API answers, `pull_many` returns. The
  -- tables are sound again, it has made one request for each key among the jobs and counted each
  -- once, as written, unchanged or failed. For every job that it kept and whose request was answered
  -- the latest observation has the digest of the redacted answer, and the latest observation of
  -- every key that no job has is what it was.
  pub pull_many-Pulled :
      (jobs : List Job) (w : World)
      → IsSound env w
      → (s : PullSummary) × (w' : World) × (many jobs w ≡ (ok s, w'))
        × Pulled (coalesce_jobs jobs) empty_summary s w w'
  unfolding pull_many
  pull_many-Pulled jobs w sound =
      pull_each-Pulled (coalesce_jobs jobs) empty_summary w sound (coalesce_jobs_lem jobs).0
