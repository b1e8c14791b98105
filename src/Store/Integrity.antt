-- ===== src/Store/Integrity.antt =====
-- The invariant of the tables, and that each write keeps it.
use topology_maps.Prelude.{
  ℕ, suc, ◌<◌, ◌≡◌, refl, inl, inr, true, List, [], ◌∷◌, All, arith, Bool-cases,
}
use topology_maps.Text.{Text, text_eq_refl}
use topology_maps.Hashing.{utf8}
use topology_maps.Catalog.Spec.{Key}
use topology_maps.Redactor.{HotColumns}
use topology_maps.Store.{
  has_blob, new_blob, upsert_blob, Source, insert_observation, insert_observation_if_changed,
}
use topology_maps.Store.State.{Blob, Observation, World, Env, IsRising}

-- A blob is filed under the digest of its payload.
abbrev pub IsAddressed : Env → Blob → Type 0
IsAddressed env b = b.hash ≡ env.sha256 (utf8 b.payload)

-- The blob of an observation is there.
abbrev pub IsBacked : List Blob → Observation → Type 0
IsBacked blobs o = has_blob o.hash blobs ≡ true

-- The row was written at a reading of the clock that is over.
abbrev pub IsPast : Env → ℕ → Observation → Type 0
IsPast env readings o = o.observed_at < env.clock readings

pub record IsSound (env : Env) (w : World) : Type 0 where
  pub addressed : All (IsAddressed env) w.blobs
  pub backed : All (IsBacked w.blobs) w.observations
  pub past : All (IsPast env w.readings) w.observations

has_blob-cons :
    (hash : Text) (b : Blob) (blobs : List Blob)
    → has_blob hash blobs ≡ true
    → has_blob hash (b ∷ blobs) ≡ true
unfolding has_blob
has_blob-cons hash b blobs h = ground arith

IsBacked-cons :
    (b : Blob) (blobs : List Blob) (os : List Observation)
    → All (IsBacked blobs) os
    → All (IsBacked (b ∷ blobs)) os
IsBacked-cons b blobs [] h = tt
IsBacked-cons b blobs (o ∷ os) h = (has_blob-cons o.hash b blobs h.0, IsBacked-cons b blobs os h.1)

pub IsPast-suc :
    (env : Env) (n : ℕ) (os : List Observation)
    → IsRising env
    → All (IsPast env n) os
    → All (IsPast env (suc n)) os
IsPast-suc env n [] r h = tt
IsPast-suc env n (o ∷ os) r h =
    (omega (arith, r n (suc n) (omega arith)), IsPast-suc env n os r h.1)

-- After `upsert_blob` the blob is there, filed under the digest that was given.
pub upsert_blob-has_blob :
    (env : Env) (hash payload : Text) (size : ℕ) (w : World)
    → has_blob hash (upsert_blob env hash payload size w).1.blobs ≡ true
unfolding upsert_blob has_blob
upsert_blob-has_blob env hash payload size w = ground (arith, text_eq_refl hash)

pub upsert_blob-IsSound :
    (env : Env) (payload : Text) (size : ℕ) (w : World)
    → IsRising env
    → IsSound env w
    → IsSound env (upsert_blob env (env.sha256 (utf8 payload)) payload size w).1
unfolding upsert_blob
upsert_blob-IsSound env payload size w r s =
    elim (Bool-cases (has_blob (env.sha256 (utf8 payload)) w.blobs)) [
      | inl t ↦ rw t (record {
        addressed = s.addressed;
        backed = s.backed;
        past = IsPast-suc env w.readings w.observations r s.past;
      })
      | inr t ↦ rw t (record {
        addressed = (refl, s.addressed);
        backed =
            IsBacked-cons (new_blob (env.sha256 (utf8 payload)) payload size (env.clock w.readings))
              w.blobs w.observations s.backed;
        past = IsPast-suc env w.readings w.observations r s.past;
      })
    ]

pub insert_observation-IsSound :
    (env : Env) (source : Source) (key : Key) (hash : Text) (hot : HotColumns) (w : World)
    → IsRising env
    → IsSound env w
    → IsSound env (insert_observation env source key hash hot w).1
unfolding insert_observation
insert_observation-IsSound env source key hash hot w r s =
    elim (Bool-cases (has_blob hash w.blobs)) [
      | inl t ↦ rw t (record {
        addressed = s.addressed;
        backed = (t, s.backed);
        past = (
          r w.readings (suc w.readings) (omega arith),
          IsPast-suc env w.readings w.observations r s.past,
        );
      })
      | inr t ↦ rw t (record {
        addressed = s.addressed;
        backed = s.backed;
        past = IsPast-suc env w.readings w.observations r s.past;
      })
    ]

pub insert_observation_if_changed-IsSound :
    (env : Env) (source : Source) (key : Key) (hash : Text) (hot : HotColumns) (w : World)
    → IsRising env
    → IsSound env w
    → IsSound env (insert_observation_if_changed env source key hash hot w).1
unfolding insert_observation_if_changed
insert_observation_if_changed-IsSound env source key hash hot w r s =
    ground (arith, insert_observation-IsSound env source key hash hot w r s)
