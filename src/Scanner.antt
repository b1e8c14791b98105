-- ===== src/Scanner.antt =====
-- server/config_collector/scanner.py
pub mod Inventory
pub mod Runs
pub mod Outcome
pub mod Ending
pub mod Chunks
pub mod Baseline
pub mod Complete
pub mod Drift
pub mod DriftLoop
pub mod DriftSweep
mod Tests
use topology_maps.Prelude.{
  ℕ, zero, suc, ◌+◌, ◌%◌, Bool, true, false, not, Option, none, some, List, [], ◌∷◌, length, take,
  drop, filter_by, ◌==◌, if◌then◌else◌,
}
use topology_maps.Text.{Text, codes}
use topology_maps.Json.{Json}
use topology_maps.Catalog.{expand_for_org}
use topology_maps.Catalog.Spec.{Job}
use topology_maps.Redactor.{Redacted, redact}
use topology_maps.Redactor.Path
use topology_maps.Store.{
  Source, upsert_blob, get_latest_observation, has_hash, insert_observation_if_changed,
}
use topology_maps.Store.Sweeps.{
  create_sweep_run, mark_sweep_running, increment_sweep_counters, mark_sweep_complete,
  mark_sweep_failed, update_sweep_total_calls, get_active_sweep_run, is_completed,
}
use topology_maps.Store.State.{
  SourceEvent, anti_drift_confirm, anti_drift_discrepancy, Kind, SweepRun, Observation, Notice,
  sweep_started, sweep_progress, sweep_completed, sweep_failed, World, Env, Exec, Result, Exception,
  ok, raised, value_error, other, and_then, ◌>>=◌, ◌>>◌, pure, change, lift, attempt,
}
use topology_maps.Puller.{PullSummary, coalesce_jobs, fetch_one, pull_many}
use Inventory.{Composition, enumerate_org_composition}

-- await progress_callback(...), if there is one. What the receiver was sent is recorded even where
-- it raises.
unfoldable pub send : Env → Notice → Exec Unit
send env notice w =
    let sent = record w { notices = notice ∷ w.notices } in
    elim env.notify [
      | none ↦ (ok tt, w)
      | some receive ↦ elim (receive (length w.notices) notice) [
        | none ↦ (ok tt, sent)
        | some e ↦ (raised e, sent)
      ]
    ]

-- list(coalesce_jobs(expand_for_org(...)))
unfoldable pub jobs_of : Text → Composition → Result (List Job)
unfolding expand_for_org coalesce_jobs
jobs_of org_id c =
    elim (expand_for_org org_id c.networks c.devices_by_network c.enabled_ssids_by_network) [
      | none ↦ raised (other (codes "KeyError"))
      | some jobs ↦ ok (coalesce_jobs jobs)
    ]

abbrev pub chunk_size : ℕ
chunk_size = 20

-- What the `try` of a sweep makes of the outcome of its body; `tell` is whether the handler sends a
-- notice before it raises again.
unfoldable pub settle : Env → ℕ → Bool → Result (Unit {0}) × World → Result ℕ × World
unfolding mark_sweep_failed send
settle env run_id tell (ok _, w) = (ok run_id, w)
settle env run_id tell (raised e, w) =
    let marked = mark_sweep_failed env run_id e w in
    if tell
    then and_then (send env (sweep_failed run_id e) marked) (λ _ w'. (raised e, w'))
    else (raised e, marked)

-- remaining[i:i + CHUNK] for i in range(0, len(remaining), CHUNK); the fuel is len(remaining).
unfoldable pub split_chunks : ℕ → List Job → List (List Job)
split_chunks zero jobs = []
split_chunks (suc fuel) [] = []
split_chunks (suc fuel) (j ∷ jobs) =
    take chunk_size (j ∷ jobs) ∷ split_chunks fuel (drop chunk_size (j ∷ jobs))

module _ (env : Env) (org_id : Text) where
  -- The loop over the chunks of a baseline, from index `i`.
  unfoldable pub each_chunk : ℕ → ℕ → ℕ → List (List Job) → Exec Unit
  unfolding pull_many increment_sweep_counters send
  each_chunk run_id total i [] = pure tt
  each_chunk run_id total i (chunk ∷ chunks) = do
    summary ← pull_many env org_id (some run_id) SourceEvent.baseline [] chunk
    change (
        increment_sweep_counters run_id (summary.successes + summary.skipped_unchanged)
          summary.failures 0)
    send env (sweep_progress run_id (i + length chunk) total)
    each_chunk run_id total (i + chunk_size) chunks

  unfoldable pub baseline_body : ℕ → ℕ → List Job → Exec Unit
  unfolding each_chunk split_chunks mark_sweep_complete send
  baseline_body run_id total remaining = do
    each_chunk run_id total 0 (split_chunks (length remaining) remaining)
    change (mark_sweep_complete env run_id)
    send env (sweep_completed run_id)

  -- The run and the jobs that are left: of a resumed run those with no observation under it.
  unfoldable pub open_run : Kind → List Job → World → ℕ × World
  unfolding create_sweep_run
  open_run kind jobs w = create_sweep_run org_id kind (some (length jobs)) w

  unfoldable pub left_over : ℕ → List Job → World → List Job
  unfolding is_completed filter_by
  left_over run_id jobs w = filter_by (λ j. not (is_completed run_id w.observations j.key)) jobs

  -- From `mark_sweep_running` to the end of a baseline.
  unfoldable pub sweep_baseline : ℕ → List Job → List Job → Exec ℕ
  unfolding mark_sweep_running send settle baseline_body
  sweep_baseline run_id all_jobs remaining = do
    change (mark_sweep_running env run_id)
    send env (sweep_started run_id Kind.baseline (length all_jobs))
    λ w. settle env run_id true (baseline_body run_id (length all_jobs) remaining w)

  unfoldable pub start_baseline : Option ℕ → List Job → Exec ℕ
  unfolding sweep_baseline open_run left_over update_sweep_total_calls
  start_baseline none jobs w =
      let (run_id, w') = open_run Kind.baseline jobs w in sweep_baseline run_id jobs jobs w'
  start_baseline (some run_id) jobs w =
      let w' = update_sweep_total_calls run_id (length jobs) w in
      sweep_baseline run_id jobs (left_over run_id jobs w') w'

  unfoldable pub enumerate_jobs : Exec (List Job)
  unfolding enumerate_org_composition jobs_of
  enumerate_jobs = do
    composition ← enumerate_org_composition env org_id
    lift (jobs_of org_id composition)

  -- The id of a run that is under way is returned at once, unless a run is resumed.
  unfoldable pub unless_active : Kind → Option ℕ → Exec ℕ → Exec ℕ
  unfolding get_active_sweep_run
  unless_active kind (some run_id) sweep w = sweep w
  unless_active kind none sweep w = elim (get_active_sweep_run org_id kind w.sweep_runs) [
    | none ↦ sweep w
    | some run ↦ (ok run.id, w)
  ]

  unfoldable pub run_baseline : Option ℕ → Exec ℕ
  unfolding unless_active enumerate_jobs start_baseline
  run_baseline resume_run_id =
      unless_active Kind.baseline resume_run_id
        (do jobs ← enumerate_jobs; start_baseline resume_run_id jobs)

  abbrev pub drift_source : SourceEvent → ℕ → Source
  drift_source event run_id = record {
    org_id = org_id;
    source_event = event;
    change_event_id = none;
    sweep_run_id = some run_id;
  }

  -- Confirmed where the latest observation has the digest, a discrepancy otherwise.
  unfoldable pub drift_event : Text → Option Observation → SourceEvent
  unfolding has_hash
  drift_event hash latest =
      if has_hash hash latest then anti_drift_confirm else anti_drift_discrepancy

  unfoldable pub store_drift : ℕ → Job → Redacted → Exec Bool
  unfolding upsert_blob get_latest_observation drift_event insert_observation_if_changed
  store_drift run_id job r w =
      let w' = (upsert_blob env r.sha256_hex r.canonical r.byte_size w).1 in
      let event =
        drift_event r.sha256_hex (get_latest_observation org_id job.key w'.observations) in
      insert_observation_if_changed env (drift_source event run_id) job.key r.sha256_hex
        r.hot_columns w'

  unfoldable pub lift_redact : Path.Result Redacted → Exec Redacted
  lift_redact (Path.ok r) w = (ok r, w)
  lift_redact (Path.err e) w = (raised (value_error e), w)

  -- A job whose answer came, up to `completed += 1`.
  unfoldable pub drift_answered : ℕ → Job → Json → Exec Bool
  unfolding lift_redact redact store_drift
  drift_answered run_id job raw = do
    r ← lift_redact (redact env.sha256 raw job.config_area)
    store_drift run_id job r

  unfoldable pub drift_progress : ℕ → ℕ → ℕ → ℕ → Exec Unit
  unfolding send
  drift_progress run_id total idx completed =
      if (idx + 1) % 20 == 0 then send env (sweep_progress run_id completed total) else pure tt

  -- A round from the outcome of its request; the value is (completed, failed).
  unfoldable pub drift_fetched : ℕ → ℕ → ℕ → ℕ × ℕ → Job → Result Json → Exec (ℕ × ℕ)
  unfolding drift_answered drift_progress
  drift_fetched run_id total idx (completed, failed) job (raised e) = pure (completed, failed + 1)
  drift_fetched run_id total idx (completed, failed) job (ok raw) = do
    wrote ← drift_answered run_id job raw
    drift_progress run_id total idx (completed + 1)
    pure (completed + 1, failed)

  -- The loop, from index `idx`.
  unfoldable pub each_drift : ℕ → ℕ → ℕ → ℕ × ℕ → List Job → Exec (ℕ × ℕ)
  unfolding fetch_one drift_fetched
  each_drift run_id total idx counts [] = pure counts
  each_drift run_id total idx counts (job ∷ jobs) = do
    fetched ← attempt (fetch_one env job)
    counts' ← drift_fetched run_id total idx counts job fetched
    each_drift run_id total (idx + 1) counts' jobs

  unfoldable pub drift_body : ℕ → List Job → Exec Unit
  unfolding each_drift increment_sweep_counters mark_sweep_complete send
  drift_body run_id jobs = do
    (completed, failed) ← each_drift run_id (length jobs) 0 (0, 0) jobs
    change (increment_sweep_counters run_id completed failed 0)
    change (mark_sweep_complete env run_id)
    send env (sweep_completed run_id)

  unfoldable pub sweep_drift : ℕ → List Job → Exec ℕ
  unfolding mark_sweep_running send settle drift_body
  sweep_drift run_id jobs = do
    change (mark_sweep_running env run_id)
    send env (sweep_started run_id Kind.anti_drift (length jobs))
    λ w. settle env run_id false (drift_body run_id jobs w)

  unfoldable pub start_drift : Option ℕ → List Job → Exec ℕ
  unfolding sweep_drift open_run update_sweep_total_calls
  start_drift none jobs w =
      let (run_id, w') = open_run Kind.anti_drift jobs w in sweep_drift run_id jobs w'
  start_drift (some run_id) jobs w =
      sweep_drift run_id jobs (update_sweep_total_calls run_id (length jobs) w)

  unfoldable pub run_anti_drift_sweep : Option ℕ → Exec ℕ
  unfolding unless_active enumerate_jobs start_drift
  run_anti_drift_sweep resume_run_id =
      unless_active Kind.anti_drift resume_run_id
        (do jobs ← enumerate_jobs; start_drift resume_run_id jobs)
