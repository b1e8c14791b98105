-- ===== src/Store/Sweeps.antt =====
-- The rows of `config_sweep_runs` in server/config_collector/store.py.
use topology_maps.Prelude.{
  ℕ, suc, ◌+◌, Bool, true, false, ◌&&◌, ◌||◌, Option, none, some, List, [], ◌∷◌, map, ◌==◌,
  if◌then◌else◌,
}
use topology_maps.Text.{Text, text_eq}
use topology_maps.Catalog.Spec.{Key, key_eq}
use topology_maps.Store.State.{
  Exception, Observation, Kind, baseline, anti_drift, Status, queued, running, complete, failed,
  SweepRun, World, Env, now,
}

unfoldable pub kind_eq : Kind → Kind → Bool
kind_eq baseline baseline = true
kind_eq anti_drift anti_drift = true
kind_eq _ _ = false

-- status IN ('queued', 'running')
unfoldable pub is_active : Status → Bool
is_active queued = true
is_active running = true
is_active _ = false

-- UPDATE config_sweep_runs SET ... WHERE id=?
unfoldable pub update_run : ℕ → (SweepRun → SweepRun) → List SweepRun → List SweepRun
update_run id f = map (λ r. if r.id == id then f r else r)

abbrev pub new_run : Text → Kind → Option ℕ → ℕ → SweepRun
new_run org_id kind total_calls id = record {
  id = id;
  org_id = org_id;
  kind = kind;
  status = queued;
  started_at = none;
  completed_at = none;
  total_calls = total_calls;
  completed_calls = 0;
  failed_calls = 0;
  skipped_calls = 0;
  error_summary = none;
}

-- The value is `cursor.lastrowid`; AUTOINCREMENT never gives an id twice.
unfoldable pub create_sweep_run : Text → Kind → Option ℕ → World → ℕ × World
create_sweep_run org_id kind total_calls w = (
  w.next_run_id,
  record w {
    sweep_runs = new_run org_id kind total_calls w.next_run_id ∷ w.sweep_runs;
    next_run_id = suc w.next_run_id;
  },
)

unfoldable pub mark_sweep_running : Env → ℕ → World → World
unfolding update_run now
mark_sweep_running env run_id w =
    let (time, w') = now env w in
    record w' {
      sweep_runs =
          update_run run_id (λ r. record r { status = running; started_at = some time })
            w.sweep_runs;
    }

unfoldable pub increment_sweep_counters : ℕ → ℕ → ℕ → ℕ → World → World
unfolding update_run
increment_sweep_counters run_id done bad skipped w = record w {
  sweep_runs =
      update_run run_id
        (λ r. record r {
          completed_calls = r.completed_calls + done;
          failed_calls = r.failed_calls + bad;
          skipped_calls = r.skipped_calls + skipped;
        })
        w.sweep_runs;
}

unfoldable pub mark_sweep_complete : Env → ℕ → World → World
unfolding update_run now
mark_sweep_complete env run_id w =
    let (time, w') = now env w in
    record w' {
      sweep_runs =
          update_run run_id (λ r. record r { status = complete; completed_at = some time })
            w.sweep_runs;
    }

unfoldable pub mark_sweep_failed : Env → ℕ → Exception → World → World
unfolding update_run now
mark_sweep_failed env run_id error_summary w =
    let (time, w') = now env w in
    record w' {
      sweep_runs =
          update_run run_id
            (λ r. record r {
              status = failed;
              completed_at = some time;
              error_summary = some error_summary;
            })
            w.sweep_runs;
    }

unfoldable pub update_sweep_total_calls : ℕ → ℕ → World → World
unfolding update_run
update_sweep_total_calls run_id total_calls w = record w {
  sweep_runs = update_run run_id (λ r. record r { total_calls = some total_calls }) w.sweep_runs;
}

-- ORDER BY id DESC LIMIT 1: rows stand newest first, and ids grow with each insertion.
unfoldable pub get_active_sweep_run : Text → Kind → List SweepRun → Option SweepRun
unfolding kind_eq is_active text_eq
get_active_sweep_run org_id kind [] = none
get_active_sweep_run org_id kind (r ∷ runs) =
    if text_eq r.org_id org_id && (kind_eq r.kind kind && is_active r.status)
    then some r
    else get_active_sweep_run org_id kind runs

-- SELECT * FROM config_sweep_runs WHERE id=?
unfoldable pub find_run : ℕ → List SweepRun → Option SweepRun
find_run id [] = none
find_run id (r ∷ runs) = if r.id == id then some r else find_run id runs

abbrev is_run : ℕ → Option ℕ → Bool
is_run id none = false
is_run id (some n) = n == id

-- `key in list_completed_entity_areas(conn, sweep_run_id=...)`
unfoldable pub is_completed : ℕ → List Observation → Key → Bool
unfolding key_eq
is_completed run_id [] key = false
is_completed run_id (o ∷ rows) key =
    (is_run run_id o.sweep_run_id && key_eq o.key key) || is_completed run_id rows key
