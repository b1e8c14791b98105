-- ===== src/Store.antt =====
-- server/config_collector/store.py over the tables of server/database.py that it reads and writes.
-- A table is the list of its rows, the newest first. A connection has `PRAGMA foreign_keys=ON`. The
-- times of `_now_iso` are numbers, one for each reading of the clock.
pub mod State
pub mod Sweeps
pub mod Latest
pub mod Integrity
pub mod Changes
pub mod History
use topology_maps.Prelude.{
  ℕ, suc, ◌+◌, Bool, true, false, ◌&&◌, ◌||◌, Option, none, some, List, [], ◌∷◌, any, map, ltb,
  ◌==◌, if◌then◌else◌,
}
use topology_maps.Text.{Text, text_eq}
use topology_maps.Catalog.Spec.{Key, key_eq}
use topology_maps.Redactor.{HotColumns}
use State.{
  Blob, Observation, SourceEvent, baseline, change_log, manual_refresh, anti_drift_confirm,
  anti_drift_discrepancy, World, Env, Exec, ok, raised, integrity_error, now,
}

unfoldable pub has_blob : Text → List Blob → Bool
unfolding text_eq
has_blob hash blobs = any (λ b. text_eq b.hash hash) blobs

unfoldable pub get_blob_by_hash : Text → List Blob → Option Blob
unfolding text_eq
get_blob_by_hash hash [] = none
get_blob_by_hash hash (b ∷ blobs) =
    if text_eq b.hash hash then some b else get_blob_by_hash hash blobs

abbrev pub new_blob : Text → Text → ℕ → ℕ → Blob
new_blob hash payload byte_size time = record {
  hash = hash;
  payload = payload;
  byte_size = byte_size;
  first_seen_at = time;
}

-- INSERT OR IGNORE; the value is `cursor.rowcount == 1`. The clock is read either way.
unfoldable pub upsert_blob : Env → Text → Text → ℕ → World → Bool × World
unfolding has_blob now
upsert_blob env hash payload byte_size w =
    let (time, w') = now env w in
    if has_blob hash w.blobs
    then (false, w')
    else (true, record w' { blobs = new_blob hash payload byte_size time ∷ w.blobs })

unfoldable pub always_written : SourceEvent → Bool
always_written anti_drift_confirm = true
always_written anti_drift_discrepancy = true
always_written manual_refresh = true
always_written _ = false

unfoldable pub is_about : Text → Key → Observation → Bool
unfolding text_eq key_eq
is_about org_id key o = text_eq o.org_id org_id && key_eq o.key key

-- The later of two rows; of two with one time the one that was inserted first, as the index
-- `idx_obs_entity_latest` lists them.
unfoldable pub later : Observation → Option Observation → Observation
later o none = o
later o (some p) = if ltb p.observed_at o.observed_at then o else p

-- ORDER BY observed_at DESC LIMIT 1
unfoldable pub get_latest_observation : Text → Key → List Observation → Option Observation
unfolding is_about later
get_latest_observation org_id key [] = none
get_latest_observation org_id key (o ∷ rows) =
    let latest = get_latest_observation org_id key rows in
    if is_about org_id key o then some (later o latest) else latest

unfoldable pub has_hash : Text → Option Observation → Bool
unfolding text_eq
has_hash hash none = false
has_hash hash (some o) = text_eq o.hash hash

-- What the callers pass beside the hash.
pub record Source : Type 0 where
  pub org_id : Text
  pub source_event : SourceEvent
  pub change_event_id : Option ℕ
  pub sweep_run_id : Option ℕ

abbrev pub new_observation : Source → Key → Text → HotColumns → ℕ → Observation
new_observation source key hash hot time = record {
  org_id = source.org_id;
  key = key;
  hash = hash;
  observed_at = time;
  source_event = source.source_event;
  change_event_id = source.change_event_id;
  sweep_run_id = source.sweep_run_id;
  hot_columns = hot;
}

-- The INSERT, which the foreign key on `hash` may refuse.
unfoldable pub insert_observation : Env → Source → Key → Text → HotColumns → Exec Bool
unfolding has_blob now
insert_observation env source key hash hot w =
    let (time, w') = now env w in
    if has_blob hash w.blobs
    then (
      ok true,
      record w' { observations = new_observation source key hash hot time ∷ w.observations },
    )
    else (raised integrity_error, w')

unfoldable pub insert_observation_if_changed : Env → Source → Key → Text → HotColumns → Exec Bool
unfolding insert_observation always_written get_latest_observation has_hash
insert_observation_if_changed env source key hash hot w =
    if always_written source.source_event
    then insert_observation env source key hash hot w
    else if has_hash hash (get_latest_observation source.org_id key w.observations)
    then (ok false, w)
    else insert_observation env source key hash hot w
