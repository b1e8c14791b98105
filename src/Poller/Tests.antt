-- ===== src/Poller/Tests.antt =====
-- Two polls that bring one event.
use topology_maps.Prelude.{
  ℕ, ◌+◌, ◌≡◌, refl, inl, inr, none, some, List, [], ◌∷◌, length, All, filter_by,
}
use topology_maps.Text.{codes, text_eq}
use topology_maps.Json.{null}
use topology_maps.Catalog.Events.{ChangeEvent}
use topology_maps.Store.Changes.{has_ts, new_row, insert_change_event, is_duplicate}
use topology_maps.Store.State.{World, Env, ok}
use topology_maps.Scanner.{send}
use topology_maps.Scanner.Chunks.{IsQuiet}
use topology_maps.Poller.{store_events, poll_once}
use topology_maps.Poller.Again.{
  IsKnown, IsIdle, insert_change_event-null, store_events-IsKnown, poll_once-IsKnown,
}

abbrev env : Env
env = record {
  sha256 = λ bytes. bytes;
  clock = λ n. n;
  get = λ n url. ok null;
  get_paginated = λ n url. ok null;
  notify = none;
}

abbrev event : ChangeEvent
event = record {
  page = some (codes "Wireless > SSIDs");
  network_id = some (codes "N1");
  ssid_number = some 2;
  ts = some (codes "2026-01-01T00:00:00Z");
  label = some (codes "Name");
  old_value = some (codes "a");
  new_value = some (codes "b");
}

-- A setting that had no value before.
abbrev first_value : ChangeEvent
first_value = record event { old_value = none }

abbrev world : World
world = record {
  blobs = [];
  observations = [];
  sweep_runs = [];
  next_run_id = 1;
  change_events = [];
  next_event_id = 1;
  readings = 0;
  requests = 0;
  notices = [];
}

abbrev polled : World
polled = record world { change_events = new_row 1 (codes "O") event 0 ∷ []; next_event_id = 2 }

abbrev polled_first : World
polled_first = record polled { change_events = new_row 1 (codes "O") first_value 0 ∷ [] }

env-IsQuiet : IsQuiet env
unfolding send
env-IsQuiet notice w = refl

insert_change_event-null_example : insert_change_event env (codes "O") first_value polled_first ≡ (
  some 2,
  record polled_first {
    readings = 1;
    change_events = new_row 2 (codes "O") first_value 0 ∷ polled_first.change_events;
    next_event_id = 3;
  },
)
unfolding has_ts
insert_change_event-null_example =
    insert_change_event-null env (codes "O") first_value polled_first refl (inr (inr (inl refl)))

-- A batch of which only the first event has all the columns.
store_events-IsKnown_example :
    (r : List (ChangeEvent × ℕ) × ℕ) × (w' : World) × (store_events env
        (codes "O")
        (event ∷ first_value ∷ [])
        world
      ≡ (ok r, w'))
    × (length r.0 + r.1 ≡ 2)
    × ((d : ChangeEvent) → IsKnown env (codes "O") world d → IsKnown env (codes "O") w' d)
    × All (IsKnown env (codes "O") w') (event ∷ [])
unfolding filter_by
store_events-IsKnown_example =
    store_events-IsKnown env (codes "O") (event ∷ first_value ∷ []) world env-IsQuiet

poll_once-IsKnown_example :
    (w' : World) × (poll_once env (codes "O") (ok (event ∷ [])) polled ≡ (
      ok (record {
        new_events = 0;
        duplicates = 1;
        successes = 0;
        skipped_unchanged = 0;
        failures = 0;
      }),
      w',
    ))
    × IsIdle env (codes "O") polled w'
unfolding is_duplicate text_eq
poll_once-IsKnown_example = poll_once-IsKnown env (codes "O") (event ∷ []) polled (refl, tt)
