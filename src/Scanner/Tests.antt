-- ===== src/Scanner/Tests.antt =====
-- Runs of scanner.py over an organisation with one network.
use topology_maps.Prelude.{ℕ, ◌+◌, ◌≡◌, refl, none, some, List, [], ◌∷◌, length, if◌then◌else◌}
use topology_maps.Text.{Text, codes, text_eq}
use topology_maps.Json.{Json, null, str, arr, obj, nil, cons, end, field}
use topology_maps.Catalog.Spec.{Job}
use topology_maps.Catalog.Endpoints.{endpoints}
use topology_maps.Store.Sweeps.{find_run, new_run, get_active_sweep_run, update_sweep_total_calls}
use topology_maps.Store.State.{Kind, SweepRun, World, Env, Result, ok, raised, IsRising}
use topology_maps.Store.Integrity.{IsSound}
use topology_maps.Scanner.{
  send, enumerate_jobs, open_run, left_over, run_baseline, run_anti_drift_sweep,
}
use topology_maps.Scanner.Chunks.{IsQuiet, Swept}
use topology_maps.Scanner.Complete.{IsAccounted, run_baseline-Swept, run_baseline-resumed}
use topology_maps.Scanner.Ending.{Ending, run_baseline-Ending, run_anti_drift_sweep-Ending}
use topology_maps.Scanner.Drift.{Drifted}
use topology_maps.Scanner.DriftSweep.{IsClosed, run_anti_drift_sweep-Drifted}

abbrev org : Text
org = codes "O"

abbrev networks : Json
networks = arr (cons (obj (field (codes "id") (str (codes "N1")) end)) nil)

abbrev env : Env
env = record {
  sha256 = λ bytes. bytes;
  clock = λ n. n;
  get = λ n url.
      if text_eq url (codes "/organizations/O/networks")
      then ok networks
      else if text_eq url (codes "/organizations/O/devices")
      then ok (arr nil)
      else ok null;
  get_paginated = λ n url. ok null;
  notify = none;
}

abbrev earlier_run : SweepRun
earlier_run = new_run org Kind.baseline none 1

-- A database with no row but that of a run that the REST handler has opened.
abbrev world : World
world = record {
  blobs = [];
  observations = [];
  sweep_runs = earlier_run ∷ [];
  next_run_id = 2;
  change_events = [];
  next_event_id = 1;
  readings = 0;
  requests = 0;
  notices = [];
}

abbrev empty_world : World
empty_world = record world { sweep_runs = [] }

env-IsRising : IsRising env
env-IsRising i j h = h

env-IsQuiet : IsQuiet env
unfolding send
env-IsQuiet notice w = refl

world-IsSound : IsSound env world
world-IsSound = record { addressed = tt; backed = tt; past = tt }

empty_world-IsSound : IsSound env empty_world
empty_world-IsSound = record { addressed = tt; backed = tt; past = tt }

jobs_in : Result (List Job) → List Job
jobs_in (ok jobs) = jobs
jobs_in (raised e) = []

-- The jobs of the network and of the organisation.
jobs : List Job
unfolding enumerate_jobs jobs_in text_eq
jobs = jobs_in (enumerate_jobs env org world).0

jobs_number : length jobs ≡ 30
unfolding jobs endpoints
jobs_number = refl

after : World
unfolding enumerate_jobs text_eq
after = (enumerate_jobs env org world).1

after_empty : World
unfolding enumerate_jobs text_eq
after_empty = (enumerate_jobs env org empty_world).1

enumerated : enumerate_jobs env org world ≡ (ok jobs, after)
unfolding enumerate_jobs jobs after endpoints
enumerated = refl

enumerated_empty : enumerate_jobs env org empty_world ≡ (ok jobs, after_empty)
unfolding enumerate_jobs jobs after_empty endpoints
enumerated_empty = refl

run_baseline-Ending_example :
    Ending env org Kind.baseline (some 1) world (run_baseline env org (some 1) world)
unfolding find_run
run_baseline-Ending_example = run_baseline-Ending env org (some 1) world (earlier_run, refl)

run_anti_drift_sweep-Ending_example :
    Ending env org Kind.anti_drift none world (run_anti_drift_sweep env org none world)
run_anti_drift_sweep-Ending_example = run_anti_drift_sweep-Ending env org none world tt

run_baseline-Swept_example :
    (w' : World) × (run_baseline env org none empty_world
      ≡ (ok (open_run env org Kind.baseline jobs after_empty).0, w'))
    × Swept env org
        (open_run env org Kind.baseline jobs after_empty).0
        jobs
        (open_run env org Kind.baseline jobs after_empty).1
        w'
    × IsAccounted env org env-IsRising env-IsQuiet
        (open_run env org Kind.baseline jobs after_empty).0
        (length jobs)
        (length jobs)
        w'
unfolding get_active_sweep_run
run_baseline-Swept_example =
    run_baseline-Swept env org env-IsRising env-IsQuiet jobs empty_world after_empty
      empty_world-IsSound refl enumerated_empty

run_baseline-resumed_example :
    (w' : World) × (run_baseline env org (some 1) world ≡ (ok 1, w'))
    × Swept env org 1
        (left_over env org 1 jobs after)
        (update_sweep_total_calls 1 (length jobs) after)
        w'
    × IsAccounted env org env-IsRising env-IsQuiet 1
        (0 + 0 + length (left_over env org 1 jobs after))
        (length jobs)
        w'
unfolding find_run
run_baseline-resumed_example =
    run_baseline-resumed env org env-IsRising env-IsQuiet 1 earlier_run jobs world after
      world-IsSound refl enumerated

run_anti_drift_sweep-Drifted_example :
    (counts : ℕ × ℕ) × (w' : World) × (run_anti_drift_sweep env org none world
      ≡ (ok (open_run env org Kind.anti_drift jobs after).0, w'))
    × Drifted env org
        (open_run env org Kind.anti_drift jobs after).0
        jobs
        (0, 0)
        counts
        (open_run env org Kind.anti_drift jobs after).1
        w'
    × IsClosed env org env-IsRising env-IsQuiet
        (open_run env org Kind.anti_drift jobs after).0
        (length jobs)
        counts
        w'
unfolding get_active_sweep_run
run_anti_drift_sweep-Drifted_example =
    run_anti_drift_sweep-Drifted env org env-IsRising env-IsQuiet jobs world after world-IsSound
      refl enumerated
