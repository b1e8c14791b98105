-- ===== src/Refresh/Registry.antt =====
-- The registry of active refreshes of server/config_collector/manual_refresh.py, while tasks
-- interleave. The event loop switches tasks at an `await` only, so that the test for a task in flight
-- and its registration are one step, and so are the end of a task and the removal of its entry.
use topology_maps.Prelude.{
  ℕ, suc, Bool, false, ◌||◌, Option, none, some, List, [], ◌∷◌, In, ◌==◌, if◌then◌else◌,
}
use topology_maps.Refresh.{Request, request_eq}

pub record Task : Type 0 where
  pub id : ℕ
  pub request : Request

-- `_active_refreshes`, the tasks that are not done, and the id of the next task.
pub record Registry : Type 0 where
  pub entries : List Task
  pub running : List Task
  pub next_id : ℕ

-- _active_refreshes.get(key)
unfoldable pub entry_of : Request → List Task → Option ℕ
unfolding request_eq
entry_of r [] = none
entry_of r (t ∷ ts) = if request_eq t.request r then some t.id else entry_of r ts

-- _active_refreshes.pop(key, None)
unfoldable pub pop_entry : Request → List Task → List Task
unfolding request_eq
pop_entry r [] = []
pop_entry r (t ∷ ts) =
    let rest = pop_entry r ts in if request_eq t.request r then rest else t ∷ rest

-- not existing.done()
unfoldable pub is_running : ℕ → List Task → Bool
is_running id [] = false
is_running id (t ∷ ts) = (t.id == id) || is_running id ts

unfoldable pub stop : ℕ → List Task → List Task
stop id [] = []
stop id (t ∷ ts) = let rest = stop id ts in if t.id == id then rest else t ∷ rest

pub data TaskReply : Type 0 where
  in_flight started : ℕ → TaskReply

unfoldable pub start_task : Request → Registry → Registry × TaskReply
unfolding pop_entry
start_task r s =
    let t : Task = record { id = s.next_id; request = r } in
    (
      record {
        entries = t ∷ pop_entry r s.entries;
        running = t ∷ s.running;
        next_id = suc s.next_id;
      },
      started s.next_id,
    )

-- `refresh_entity` up to its first `await`.
unfoldable pub arrive : Request → Registry → Registry × TaskReply
unfolding entry_of is_running start_task
arrive r s = elim (entry_of r s.entries) [
  | none ↦ start_task r s
  | some id ↦ if is_running id s.running then (s, in_flight id) else start_task r s
]

-- The `finally` of a task.
unfoldable pub finish : Task → Registry → Registry
unfolding pop_entry stop
finish t s = record s { entries = pop_entry t.request s.entries; running = stop t.id s.running }

-- A task that is cancelled before its body begins is done, and leaves its entry.
unfoldable pub abandon : Task → Registry → Registry
unfolding stop
abandon t s = record s { running = stop t.id s.running }

unfoldable pub idle : Registry
idle = record { entries = []; running = []; next_id = 0 }

-- The registries that requests and tasks lead to, in any order.
pub data Reached : Registry → Type 0 where
  nothing : Reached idle
  arrived : {s : Registry} (r : Request) → Reached s → Reached (arrive r s).0
  finished : {s : Registry} (t : Task) → In t s.running → Reached s → Reached (finish t s)
  abandoned : {s : Registry} (t : Task) → In t s.running → Reached s → Reached (abandon t s)
