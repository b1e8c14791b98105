-- ===== src/Puller/Tests.antt =====
-- Runs of targeted_puller.py over a small world.
use topology_maps.Prelude.{◌≡◌, refl, false, none, List, [], ◌∷◌, ◌==◌, if◌then◌else◌}
use topology_maps.Text.{Text, codes, text_eq}
use topology_maps.Json.{Json, null, str, obj, end, field}
use topology_maps.Catalog.Spec.{network, Key, Job}
use topology_maps.Redactor.{mask_path}
use topology_maps.Store.State.{SourceEvent, World, Env, ok, raised, other, IsRising}
use topology_maps.Store.Integrity.{IsSound}
use topology_maps.Puller.{PullSummary, empty_summary, coalesce_jobs, pull_many}
use topology_maps.Puller.Coalesce.{DistinctKeys, first_job, coalesce_jobs_lem}
use topology_maps.Puller.Pull.{Pulled, pull_many-Pulled}

abbrev job : Text → Text → Job
job id area = record {
  url = codes "/networks/";
  key = record { entity_type = network; entity_id = id; config_area = area; sub_key = none };
  paginated = false;
}

abbrev snmp : Json
snmp = obj (field (codes "access") (str (codes "none")) end)

-- The second request fails; the clock ticks once for each reading.
abbrev env : Env
env = record {
  sha256 = λ bytes. bytes;
  clock = λ n. n;
  get = λ n url. if n == 1 then raised (other (codes "404")) else ok snmp;
  get_paginated = λ n url. ok null;
  notify = none;
}

abbrev world : World
world = record {
  blobs = [];
  observations = [];
  sweep_runs = [];
  next_run_id = 1;
  change_events = [];
  next_event_id = 1;
  readings = 0;
  requests = 0;
  notices = [];
}

abbrev jobs : List Job
jobs =
    job (codes "N1") (codes "network_snmp")
    ∷ job (codes "N2") (codes "network_snmp")
    ∷ job (codes "N1") (codes "network_snmp")
    ∷ []

env-IsRising : IsRising env
env-IsRising i j h = h

world-IsSound : IsSound env world
world-IsSound = record { addressed = tt; backed = tt; past = tt }

-- One answer is written, one request fails, and the third job is a repetition.
pull_many_runs :
    (pull_many env (codes "O") none SourceEvent.baseline [] jobs world).0
    ≡ ok (record {
      successes = 1;
      skipped_unchanged = 0;
      failures = 1;
      errors = (codes "/networks/", other (codes "404")) ∷ [];
    })
unfolding pull_many mask_path text_eq
pull_many_runs = refl

coalesce_jobs_lem_example :
    DistinctKeys (coalesce_jobs jobs)
    × ((key : Key) → first_job key (coalesce_jobs jobs) ≡ first_job key jobs)
coalesce_jobs_lem_example = coalesce_jobs_lem jobs

pull_many-Pulled_example :
    (s : PullSummary) × (w' : World) × (pull_many env
        (codes "O")
        none
        SourceEvent.baseline
        []
        jobs
        world
      ≡ (ok s, w'))
    × Pulled env
        (codes "O")
        none
        SourceEvent.baseline
        []
        env-IsRising
        (coalesce_jobs jobs)
        empty_summary
        s
        world
        w'
pull_many-Pulled_example =
    pull_many-Pulled env (codes "O") none SourceEvent.baseline [] env-IsRising jobs world
      world-IsSound
