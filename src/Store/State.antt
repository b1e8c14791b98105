-- ===== src/Store/State.antt =====
-- The state that the collector works on: the tables, the readings of the clock, the requests to
-- the Meraki API and the progress events sent. What answers them is an environment, so that every
-- theorem holds for every behaviour of the network, the clock and the receiver.
use topology_maps.Prelude.{ℕ, suc, ◌<◌, Option, List}
use topology_maps.Text.{Text}
use topology_maps.Json.{Json}
use topology_maps.Catalog.Spec.{Key}
use topology_maps.Catalog.Events.{ChangeEvent}
use topology_maps.Redactor.{HotColumns}
use topology_maps.Redactor.Path.{PathError}

-- `value_error` is raised by `redact`, `integrity_error` by SQLite, `other` by the API client or the
-- callback, with the text of the exception. Where the program keeps
-- `str(exc)`, the model keeps the exception.
pub data Exception : Type 0 where
  value_error : PathError → Exception
  integrity_error : Exception
  other : Text → Exception

-- config_blobs
pub record Blob : Type 0 where
  pub hash : Text
  pub payload : Text
  pub byte_size : ℕ
  pub first_seen_at : ℕ

pub data SourceEvent : Type 0 where
  baseline change_log manual_refresh anti_drift_confirm anti_drift_discrepancy : SourceEvent

-- config_observations
pub record Observation : Type 0 where
  pub org_id : Text
  pub key : Key
  pub hash : Text
  pub observed_at : ℕ
  pub source_event : SourceEvent
  pub change_event_id : Option ℕ
  pub sweep_run_id : Option ℕ
  pub hot_columns : HotColumns

pub data Kind : Type 0 where
  baseline anti_drift : Kind

pub data Status : Type 0 where
  queued running complete failed : Status

-- config_sweep_runs
pub record SweepRun : Type 0 where
  pub id : ℕ
  pub org_id : Text
  pub kind : Kind
  pub status : Status
  pub started_at : Option ℕ
  pub completed_at : Option ℕ
  pub total_calls : Option ℕ
  pub completed_calls : ℕ
  pub failed_calls : ℕ
  pub skipped_calls : ℕ
  pub error_summary : Option Exception

-- config_change_events. The columns that are copied from the event and never read are left out.
pub record ChangeRow : Type 0 where
  pub id : ℕ
  pub org_id : Text
  pub event : ChangeEvent
  pub fetched_at : ℕ

-- What is passed to `progress_callback`.
pub data Notice : Type 0 where
  sweep_started : (run_id : ℕ) → (kind : Kind) → (total_calls : ℕ) → Notice
  sweep_progress : (run_id completed_calls total_calls : ℕ) → Notice
  sweep_completed : (run_id : ℕ) → Notice
  sweep_failed : (run_id : ℕ) → (error_summary : Exception) → Notice
  change_event_new : (event_id : ℕ) → (event : ChangeEvent) → Notice

pub record World : Type 0 where
  pub blobs : List Blob
  pub observations : List Observation
  pub sweep_runs : List SweepRun
  pub next_run_id : ℕ
  pub change_events : List ChangeRow
  pub next_event_id : ℕ
  pub readings : ℕ
  pub requests : ℕ
  pub notices : List Notice

pub data Result {ℓ} (A : Type ℓ) : Type ℓ where
  ok : A → Result A
  raised : Exception → Result A

-- What was written before a raise stays written.
abbrev pub Exec : Type 0 → Type 0
Exec A = World → Result A × World

-- The next step, which an exception skips.
abbrev pub and_then : {A B : Type 0} → Result A × World → (A → Exec B) → Result B × World
and_then (ok a, w) f = f a w
and_then (raised e, w) f = (raised e, w)

infixl 5 ◌>>=◌
abbrev pub ◌>>=◌ : {A B : Type 0} → Exec A → (A → Exec B) → Exec B
◌>>=◌ m f w = and_then (m w) f

infixl 5 ◌>>◌
abbrev pub ◌>>◌ : {B : Type 0} → Exec Unit → Exec B → Exec B
m >> k = m >>= λ _. k

abbrev pub pure : {A : Type 0} → A → Exec A
pure a w = (ok a, w)

abbrev pub lift : {A : Type 0} → Result A → Exec A
lift r w = (r, w)

-- `try`: the outcome as a value.
abbrev pub attempt : {A : Type 0} → Exec A → Exec (Result A)
attempt m w = let (r, w') = m w in (ok r, w')

-- A statement that cannot raise.
abbrev pub change : (World → World) → Exec Unit
change f w = (ok tt, f w)

-- The n-th reading of the clock, the answer to the n-th request, the exception with which the
-- receiver refuses the n-th notice, if it does.
pub record Env : Type 0 where
  pub sha256 : List ℕ → Text
  pub clock : ℕ → ℕ
  pub get : ℕ → Text → Result Json
  pub get_paginated : ℕ → Text → Result Json
  pub notify : Option (ℕ → Notice → Option Exception)

-- _now_iso()
unfoldable pub now : Env → World → ℕ × World
now env w = (env.clock w.readings, record w { readings = suc w.readings })

-- No two readings are the same, and none is earlier than the one before.
abbrev pub IsRising : Env → Type 0
IsRising env = (i j : ℕ) → i < j → env.clock i < env.clock j
