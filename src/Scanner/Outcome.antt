-- ===== src/Scanner/Outcome.antt =====
-- How a sweep ends: the row of the run after `run_baseline` and `run_anti_drift_sweep`.
use topology_maps.Prelude.{
  ℕ, ◌+◌, ◌%◌, ◌≡◌, refl, Bool, true, false, some, List, [], ◌∷◌, length, arith, ◌==◌,
  if◌then◌else◌,
}
use topology_maps.Text.{Text}
use topology_maps.Catalog.Spec.{Job}
use topology_maps.Store.Sweeps.{increment_sweep_counters, mark_sweep_complete, mark_sweep_failed}
use topology_maps.Store.State.{
  SourceEvent, Status, complete, Notice, sweep_failed, sweep_completed, sweep_progress, World, Env,
  Exec, Result, Exception, ok, raised, and_then, pure,
}
use topology_maps.Json.{Json}
use topology_maps.Redactor.{Redacted, redact}
use topology_maps.Redactor.Path
use topology_maps.Store.{upsert_blob, insert_observation_if_changed, insert_observation}
use topology_maps.Puller.{pull_many, fetch_one}
use topology_maps.Scanner.{
  drift_fetched, drift_body, each_drift, drift_answered, drift_progress, lift_redact, store_drift,
  send, settle, each_chunk, baseline_body, chunk_size, split_chunks,
}
use topology_maps.Scanner.Runs.{
  HasRun, HasRun-same, IsRun, IsFailed, sweep_runs-send, sweep_runs-pull_many, holds-and_then,
  keeps-and_then, HasRun-increment_sweep_counters, mark_sweep_complete-IsRun,
  mark_sweep_failed-IsFailed,
}

-- What the body of a sweep leaves behind: a complete row, or a row at least where it raised.
abbrev pub Closing : ℕ → Result (Unit {0}) × World → Type 0
Closing id (ok _, w) = IsRun id complete w
Closing id (raised e, w) = HasRun id w

-- A sweep that returns, returns its id and its row is complete; one that raises has failed.
abbrev pub Ended : ℕ → Result ℕ × World → Type 0
Ended id (ok n, w) = (n ≡ id) × IsRun id complete w
Ended id (raised e, w) = IsFailed id w

Closing-and_then :
    {A : Type 0} (id : ℕ) (m : Result A × World) (f : A → Exec (Unit {0}))
    → HasRun id m.1
    → ((a : A) (w : World) → HasRun id w → Closing id (f a w))
    → Closing id (and_then m f)
Closing-and_then id (ok a, w) f h k = k a w h
Closing-and_then id (raised e, w) f h k = h

pub IsRun-same :
    (id : ℕ) (s : Status) (w w' : World)
    → w'.sweep_runs ≡ w.sweep_runs
    → IsRun id s w
    → IsRun id s w'
IsRun-same id s w w' q h = rw q h

IsFailed-same :
    (id : ℕ) (w w' : World) → w'.sweep_runs ≡ w.sweep_runs → IsFailed id w → IsFailed id w'
IsFailed-same id w w' q h = rw q h

Closing-of : (id : ℕ) (m : Result (Unit {0}) × World) → IsRun id complete m.1 → Closing id m
Closing-of id (ok _, w) h = h
Closing-of id (raised e, w) (r, q, _) = (r, q)

HasRun-send :
    (env : Env) (id : ℕ) (notice : Notice) (w : World)
    → HasRun id w
    → HasRun id (send env notice w).1
HasRun-send env id notice w h =
    HasRun-same id w (send env notice w).1 (sweep_runs-send env notice w) h

-- The end of either sweep.
Closing-mark_sweep_complete :
    (env : Env) (id : ℕ) (notice : Notice) (w : World)
    → HasRun id w
    → Closing id (send env notice (mark_sweep_complete env id w))
Closing-mark_sweep_complete env id notice w h =
    Closing-of id (send env notice (mark_sweep_complete env id w)) (
      IsRun-same id complete (mark_sweep_complete env id w)
        (send env notice (mark_sweep_complete env id w)).1
        (sweep_runs-send env notice (mark_sweep_complete env id w))
        (mark_sweep_complete-IsRun env id w h))

Ended-raised :
    (id : ℕ) (e : Exception) (w : World) (m : Result (Unit {0}) × World)
    → m.1.sweep_runs ≡ w.sweep_runs
    → IsFailed id w
    → Ended id (and_then m (λ _ w'. (raised e, w')))
Ended-raised id e w (ok _, w') q h = IsFailed-same id w w' q h
Ended-raised id e w (raised _, w') q h = IsFailed-same id w w' q h

pub Ended-settle :
    (env : Env) (id : ℕ) (tell : Bool) (m : Result (Unit {0}) × World)
    → Closing id m
    → Ended id (settle env id tell m)
unfolding settle
Ended-settle env id tell (ok _, w) h = (refl, h)
Ended-settle env id true (raised e, w) h =
    let marked = mark_sweep_failed env id e w in
    Ended-raised id e marked (send env (sweep_failed id e) marked)
      (sweep_runs-send env (sweep_failed id e) marked) (mark_sweep_failed-IsFailed env id e w h)
Ended-settle env id false (raised e, w) h = mark_sweep_failed-IsFailed env id e w h

sweep_runs-if :
    (b : Bool) (m : Exec (Unit {0})) (w : World)
    → (m w).1.sweep_runs ≡ w.sweep_runs
    → ((if b then m else pure tt) w).1.sweep_runs ≡ w.sweep_runs
sweep_runs-if true m w h = h
sweep_runs-if false m w h = refl

module _ (env : Env) (org_id : Text) where
  HasRun-each_chunk :
      (id total i : ℕ) (chunks : List (List Job)) (w : World)
      → HasRun id w
      → HasRun id (each_chunk env org_id id total i chunks w).1
  unfolding each_chunk
  HasRun-each_chunk id total i [] w h = h
  HasRun-each_chunk id total i (chunk ∷ chunks) w h =
      let pulled = pull_many env org_id (some id) SourceEvent.baseline [] chunk w in
      holds-and_then (HasRun id) pulled _
        (HasRun-same id w pulled.1
          (sweep_runs-pull_many env org_id (some id) SourceEvent.baseline [] chunk w) h)
        (λ summary w1 h1.
          let counted =
            increment_sweep_counters id (summary.successes + summary.skipped_unchanged)
              summary.failures 0 w1 in
          holds-and_then (HasRun id) (send env (sweep_progress id (i + length chunk) total) counted)
            _ (HasRun-send env id _ counted (HasRun-increment_sweep_counters id _ _ 0 w1 h1))
            (λ _ w2 h2. HasRun-each_chunk id total (i + chunk_size) chunks w2 h2))

  pub Closing-baseline_body :
      (id total : ℕ) (remaining : List Job) (w : World)
      → HasRun id w
      → Closing id (baseline_body env org_id id total remaining w)
  unfolding baseline_body
  Closing-baseline_body id total remaining w h =
      Closing-and_then id
        (each_chunk env org_id id total 0 (split_chunks (length remaining) remaining) w) _
        (HasRun-each_chunk id total 0 (split_chunks (length remaining) remaining) w h)
        (λ _ w1 h1. Closing-mark_sweep_complete env id (sweep_completed id) w1 h1)

  sweep_runs-store_drift :
      (id : ℕ) (job : Job) (r : Redacted) (w : World)
      → (store_drift env org_id id job r w).1.sweep_runs ≡ w.sweep_runs
  unfolding store_drift upsert_blob insert_observation_if_changed insert_observation
  sweep_runs-store_drift id job r w = ground arith

  sweep_runs-lift_redact :
      (id : ℕ) (job : Job) (r : Path.Result Redacted) (w : World)
      → (and_then (lift_redact env org_id r w) (store_drift env org_id id job)).1.sweep_runs
        ≡ w.sweep_runs
  unfolding lift_redact
  sweep_runs-lift_redact id job (Path.ok r) w = sweep_runs-store_drift id job r w
  sweep_runs-lift_redact id job (Path.err e) w = refl

  sweep_runs-drift_answered :
      (id : ℕ) (job : Job) (raw : Json) (w : World)
      → (drift_answered env org_id id job raw w).1.sweep_runs ≡ w.sweep_runs
  unfolding drift_answered
  sweep_runs-drift_answered id job raw w =
      sweep_runs-lift_redact id job (redact env.sha256 raw job.config_area) w

  sweep_runs-drift_progress :
      (id total idx completed : ℕ) (w : World)
      → (drift_progress env org_id id total idx completed w).1.sweep_runs ≡ w.sweep_runs
  unfolding drift_progress
  sweep_runs-drift_progress id total idx completed w =
      sweep_runs-if ((idx + 1) % 20 == 0) (send env (sweep_progress id completed total)) w
        (sweep_runs-send env (sweep_progress id completed total) w)

  sweep_runs-drift_fetched :
      (id total idx : ℕ) (counts : ℕ × ℕ) (job : Job) (fetched : Result Json) (w : World)
      → (drift_fetched env org_id id total idx counts job fetched w).1.sweep_runs ≡ w.sweep_runs
  unfolding drift_fetched
  sweep_runs-drift_fetched id total idx (completed, failed) job (raised e) w = refl
  sweep_runs-drift_fetched id total idx (completed, failed) job (ok raw) w =
      keeps-and_then (λ x. x.sweep_runs) w.sweep_runs (drift_answered env org_id id job raw w) _
        (sweep_runs-drift_answered id job raw w)
        (λ wrote w1.
          keeps-and_then (λ x. x.sweep_runs) w1.sweep_runs
            (drift_progress env org_id id total idx (completed + 1) w1) _
            (sweep_runs-drift_progress id total idx (completed + 1) w1) (λ _ w2. refl))

  pub sweep_runs-each_drift :
      (id total idx : ℕ) (counts : ℕ × ℕ) (jobs : List Job) (w : World)
      → (each_drift env org_id id total idx counts jobs w).1.sweep_runs ≡ w.sweep_runs
  unfolding each_drift fetch_one
  sweep_runs-each_drift id total idx counts [] w = refl
  sweep_runs-each_drift id total idx counts (job ∷ jobs) w =
      let (fetched, w') = fetch_one env job w in
      keeps-and_then (λ x. x.sweep_runs) w.sweep_runs
        (drift_fetched env org_id id total idx counts job fetched w') _
        (sweep_runs-drift_fetched id total idx counts job fetched w')
        (λ counts' w1. sweep_runs-each_drift id total (idx + 1) counts' jobs w1)

  pub Closing-drift_body :
      (id : ℕ) (jobs : List Job) (w : World)
      → HasRun id w
      → Closing id (drift_body env org_id id jobs w)
  unfolding drift_body
  Closing-drift_body id jobs w h =
      Closing-and_then id (each_drift env org_id id (length jobs) 0 (0, 0) jobs w) _
        (HasRun-same id w (each_drift env org_id id (length jobs) 0 (0, 0) jobs w).1
          (sweep_runs-each_drift id (length jobs) 0 (0, 0) jobs w) h)
        (λ counts w1 h1.
          Closing-mark_sweep_complete env id (sweep_completed id)
            (increment_sweep_counters id counts.0 counts.1 0 w1)
            (HasRun-increment_sweep_counters id counts.0 counts.1 0 w1 h1))
