-- ===== src/Refresh/Tests.antt =====
-- A refresh of one area of a network.
use topology_maps.Prelude.{◌≡◌, refl, ◌↔◌, false, none, some, List, [], ◌∷◌, length, In}
use topology_maps.Text.{Text, codes, text_eq}
use topology_maps.Json.{null}
use topology_maps.Catalog.Endpoints.{endpoints}
use topology_maps.Catalog.Spec.{network, Job}
use topology_maps.Store.State.{SourceEvent, World, Env, ok, IsRising}
use topology_maps.Store.Integrity.{IsSound}
use topology_maps.Puller.{PullSummary, empty_summary, coalesce_jobs}
use topology_maps.Puller.Pull.{Pulled}
use topology_maps.Refresh.{build_jobs_for_refresh, Request, done, is_active_refresh, refresh_entity}
use topology_maps.Refresh.Jobs.{Refreshed, build_jobs_for_refresh_iff}
use topology_maps.Refresh.Registry.{
  Task, Registry, in_flight, started, arrive, idle, nothing, arrived,
}
use topology_maps.Refresh.Exclusive.{Answers, Reached-exclusive}
use topology_maps.Refresh.Entity.{refresh_entity-Pulled}

abbrev area : Text
area = codes "network_snmp"

abbrev url : Text
url = codes "/networks/N1/snmp"

abbrev job : Job
job = record {
  url = url;
  key = record {
    entity_type = network;
    entity_id = codes "N1";
    config_area = area;
    sub_key = none;
  };
  paginated = false;
}

abbrev env : Env
env = record {
  sha256 = λ bytes. bytes;
  clock = λ n. n;
  get = λ n url. ok null;
  get_paginated = λ n url. ok null;
  notify = none;
}

abbrev world : World
world = record {
  blobs = [];
  observations = [];
  sweep_runs = [];
  next_run_id = 1;
  change_events = [];
  next_event_id = 1;
  readings = 0;
  requests = 0;
  notices = [];
}

abbrev request : Request
request = record {
  org_id = codes "O";
  entity_type = network;
  entity_id = codes "N1";
  config_area = some area;
}

env-IsRising : IsRising env
env-IsRising i j h = h

world-IsSound : IsSound env world
world-IsSound = record { addressed = tt; backed = tt; past = tt }

build_jobs_for_refresh_runs :
    build_jobs_for_refresh (codes "O") network (codes "N1") (some area) ≡ some (job ∷ [])
unfolding build_jobs_for_refresh endpoints text_eq
build_jobs_for_refresh_runs = refl

build_jobs_for_refresh_iff_example :
    In job (job ∷ []) ↔ Refreshed (codes "O") network (codes "N1") (some area) job
build_jobs_for_refresh_iff_example =
    build_jobs_for_refresh_iff (codes "O") network (codes "N1") (some area) (job ∷ []) job
      build_jobs_for_refresh_runs

refresh_entity-Pulled_example :
    (jobs : List Job) × (s : PullSummary) × (w' : World) × (build_jobs_for_refresh
        (codes "O")
        network
        (codes "N1")
        (some area)
      ≡ some jobs)
    × (refresh_entity env [] request world ≡ (ok (length jobs, done), w'))
    × Pulled env
        (codes "O")
        none
        SourceEvent.manual_refresh
        []
        env-IsRising
        (coalesce_jobs jobs)
        empty_summary
        s
        world
        w'
unfolding is_active_refresh
refresh_entity-Pulled_example =
    refresh_entity-Pulled env env-IsRising [] request world world-IsSound refl

-- The request that is served, and the same while its task runs.
abbrev served : Registry
served = (arrive request idle).0

arrive_runs : (arrive request idle).1 ≡ started 0
unfolding arrive idle
arrive_runs = refl

arrive_again : arrive request served ≡ (served, in_flight 0)
unfolding arrive idle
arrive_again = refl

Reached-exclusive_example :
    ((t u : Task) → In t served.running → In u served.running → t.request ≡ u.request → t ≡ u)
    × ((r : Request) → Answers served r)
Reached-exclusive_example = Reached-exclusive served (arrived request nothing)
