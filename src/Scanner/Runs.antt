-- ===== src/Scanner/Runs.antt =====
-- The row of a sweep run through the steps of a sweep.
use topology_maps.Prelude.{ℕ, suc, ◌≡◌, refl, ap, ◌∙◌, Option, none, some, List, [], ◌∷◌, arith}
use topology_maps.Text.{Text}
use topology_maps.Json.{Json}
use topology_maps.Catalog.Spec.{Key, Job}
use topology_maps.Redactor.{Redacted, redact}
use topology_maps.Redactor.Path
use topology_maps.Store.{upsert_blob, insert_observation, insert_observation_if_changed}
use topology_maps.Store.Sweeps.{
  update_run, find_run, increment_sweep_counters, mark_sweep_running, mark_sweep_complete,
  mark_sweep_failed,
}
use topology_maps.Store.State.{
  SourceEvent, SweepRun, Status, Notice, running, complete, failed, World, Env, Exec, Result,
  Exception, ok, raised, and_then,
}
use topology_maps.Puller.{
  PullSummary, empty_summary, store_redacted, store_fetched, pull_one, pull_each, pull_many,
  coalesce_jobs, fetch_one,
}
use topology_maps.Scanner.{send}

-- The row of the run exists.
abbrev pub HasRun : ℕ → World → Type 0
HasRun run_id w = (r : SweepRun) × (find_run run_id w.sweep_runs ≡ some r)

abbrev map_run : (SweepRun → SweepRun) → Option SweepRun → Option SweepRun
map_run f none = none
map_run f (some r) = some (f r)

pub find_run-update_run :
    (id : ℕ) (f : SweepRun → SweepRun) (runs : List SweepRun)
    → ((r : SweepRun) → (f r).id ≡ r.id)
    → find_run id (update_run id f runs) ≡ map_run f (find_run id runs)
unfolding find_run update_run
find_run-update_run id f [] h = refl
find_run-update_run id f (r ∷ runs) h = ground (arith, h r, find_run-update_run id f runs h)

pub sweep_runs-send :
    (env : Env) (notice : Notice) (w : World) → (send env notice w).1.sweep_runs ≡ w.sweep_runs
unfolding send
sweep_runs-send env notice w = ground arith

-- Of two steps that leave a part of the state as it is, so does the sequence.
pub keeps-and_then :
    {A B S : Type 0} (part : World → S) (before : S) (m : Result A × World) (f : A → Exec B)
    → part m.1 ≡ before
    → ((a : A) (w : World) → part (f a w).1 ≡ part w)
    → part (and_then m f).1 ≡ before
keeps-and_then part before (ok a, w) f h k = k a w ∙ h
keeps-and_then part before (raised e, w) f h k = h

module _ (env : Env) (org_id : Text) (sweep_run_id : Option ℕ) (source_event : SourceEvent)
    (change_event_id_by_key : List (Key × ℕ)) where
  sweep_runs-store_redacted :
      (job : Job) (r : Path.Result Redacted) (s : PullSummary) (w : World)
      → (store_redacted env org_id sweep_run_id source_event change_event_id_by_key job r s
          w).1.sweep_runs
        ≡ w.sweep_runs
  unfolding store_redacted upsert_blob insert_observation_if_changed insert_observation
  sweep_runs-store_redacted job (Path.err e) s w = refl
  sweep_runs-store_redacted job (Path.ok r) s w = ground arith

  sweep_runs-store_fetched :
      (job : Job) (fetched : Result Json) (s : PullSummary) (w : World)
      → (store_fetched env org_id sweep_run_id source_event change_event_id_by_key job fetched s
          w).1.sweep_runs
        ≡ w.sweep_runs
  unfolding store_fetched
  sweep_runs-store_fetched job (raised e) s w = refl
  sweep_runs-store_fetched job (ok raw) s w =
      sweep_runs-store_redacted job (redact env.sha256 raw job.config_area) s w

  sweep_runs-pull_one :
      (job : Job) (s : PullSummary) (w : World)
      → (pull_one env org_id sweep_run_id source_event change_event_id_by_key job s w).1.sweep_runs
        ≡ w.sweep_runs
  unfolding pull_one fetch_one
  sweep_runs-pull_one job s w =
      sweep_runs-store_fetched job _ s (record w { requests = suc w.requests })

  sweep_runs-pull_each :
      (jobs : List Job) (s : PullSummary) (w : World)
      → (pull_each env org_id sweep_run_id source_event change_event_id_by_key jobs s
          w).1.sweep_runs
        ≡ w.sweep_runs
  unfolding pull_each
  sweep_runs-pull_each [] s w = refl
  sweep_runs-pull_each (job ∷ jobs) s w =
      keeps-and_then (λ w'. w'.sweep_runs) w.sweep_runs
        (pull_one env org_id sweep_run_id source_event change_event_id_by_key job s w)
        (pull_each env org_id sweep_run_id source_event change_event_id_by_key jobs)
        (sweep_runs-pull_one job s w) (λ s' w'. sweep_runs-pull_each jobs s' w')

  pub sweep_runs-pull_many :
      (jobs : List Job) (w : World)
      → (pull_many env org_id sweep_run_id source_event change_event_id_by_key jobs w).1.sweep_runs
        ≡ w.sweep_runs
  unfolding pull_many
  sweep_runs-pull_many jobs w = sweep_runs-pull_each (coalesce_jobs jobs) empty_summary w

-- A part of the state that every step keeps true is true after the sequence.
pub holds-and_then :
    {A B : Type 0} (P : World → Type 0) (m : Result A × World) (f : A → Exec B)
    → P m.1
    → ((a : A) (w : World) → P w → P (f a w).1)
    → P (and_then m f).1
holds-and_then P (ok a, w) f h k = k a w h
holds-and_then P (raised e, w) f h k = h

pub HasRun-same :
    (id : ℕ) (w w' : World) → w'.sweep_runs ≡ w.sweep_runs → HasRun id w → HasRun id w'
HasRun-same id w w' q (r, e) = (r, ap (find_run id) q ∙ e)

-- The row of the run is there, in the given status.
abbrev pub IsRun : ℕ → Status → World → Type 0
IsRun id status w = (r : SweepRun) × (find_run id w.sweep_runs ≡ some r) × (r.status ≡ status)

-- A change of the row that keeps its id finds the changed row.
pub find_run-change :
    (id : ℕ) (f : SweepRun → SweepRun) (w : World) (r : SweepRun)
    → ((p : SweepRun) → (f p).id ≡ p.id)
    → find_run id w.sweep_runs ≡ some r
    → find_run id (update_run id f w.sweep_runs) ≡ some (f r)
find_run-change id f w r h e = find_run-update_run id f w.sweep_runs h ∙ ap (map_run f) e

pub HasRun-increment_sweep_counters :
    (id done bad skipped : ℕ) (w : World)
    → HasRun id w
    → HasRun id (increment_sweep_counters id done bad skipped w)
unfolding increment_sweep_counters
HasRun-increment_sweep_counters id done bad skipped w (r, e) =
    (_, find_run-change id _ w r (λ _. refl) e)

pub mark_sweep_running-IsRun :
    (env : Env) (id : ℕ) (w : World) → HasRun id w → IsRun id running (mark_sweep_running env id w)
unfolding mark_sweep_running
mark_sweep_running-IsRun env id w (r, e) = (_, find_run-change id _ w r (λ _. refl) e, refl)

pub mark_sweep_complete-IsRun :
    (env : Env) (id : ℕ) (w : World)
    → HasRun id w
    → IsRun id complete (mark_sweep_complete env id w)
unfolding mark_sweep_complete
mark_sweep_complete-IsRun env id w (r, e) = (_, find_run-change id _ w r (λ _. refl) e, refl)

-- The row is marked failed, with a summary of the error.
abbrev pub IsFailed : ℕ → World → Type 0
IsFailed id w =
    (r : SweepRun) × (find_run id w.sweep_runs ≡ some r)
    × (r.status ≡ failed)
    × (x : Exception) × (r.error_summary ≡ some x)

pub mark_sweep_failed-IsFailed :
    (env : Env) (id : ℕ) (e : Exception) (w : World)
    → HasRun id w
    → IsFailed id (mark_sweep_failed env id e w)
unfolding mark_sweep_failed
mark_sweep_failed-IsFailed env id x w (r, e) =
    (_, find_run-change id _ w r (λ _. refl) e, refl, x, refl)
