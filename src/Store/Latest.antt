-- ===== src/Store/Latest.antt =====
-- The latest observation of an entity and area, after a write.
use topology_maps.Prelude.{
  ℕ, ◌≡◌, refl, ◌≢◌, Bool, true, false, some, List, [], ◌∷◌, All, arith, Bool-cases, Option-cases,
  inl, inr,
}
use topology_maps.Text.{Text, text_eq_refl}
use topology_maps.Catalog.Spec.{Key, key_eq_refl, key_eq_iff}
use topology_maps.Redactor.{HotColumns}
use topology_maps.Store.{
  has_blob, is_about, later, Source, new_observation, insert_observation,
  insert_observation_if_changed, always_written, get_latest_observation, has_hash,
}
use topology_maps.Store.State.{Observation, World, Env, ok}
use topology_maps.Store.Integrity.{IsPast, IsSound}

-- Every row about the key is from a reading before `readings`, so the latest one is.
latest-IsPast :
    (env : Env) (n : ℕ) (org_id : Text) (key : Key) (os : List Observation) (o : Observation)
    → All (IsPast env n) os
    → get_latest_observation org_id key os ≡ some o
    → IsPast env n o
unfolding get_latest_observation later
latest-IsPast env n org_id key [] o h e = cc
latest-IsPast env n org_id key (p ∷ os) o h e =
    elim (Option-cases (get_latest_observation org_id key os)) [
      | inl q ↦ ground arith
      | inr (m, q) ↦ ground (arith, latest-IsPast env n org_id key os m h.1 q)
    ]

-- A row that is written now is the latest of its key, and changes the latest of no other.
latest-new_observation :
    (env : Env) (source : Source) (key : Key) (hash : Text) (hot : HotColumns) (n : ℕ)
    (os : List Observation)
    → All (IsPast env n) os
    → get_latest_observation source.org_id key
        (new_observation source key hash hot (env.clock n) ∷ os)
      ≡ some (new_observation source key hash hot (env.clock n))
unfolding get_latest_observation later is_about
latest-new_observation env source key hash hot n os h =
    elim (Option-cases (get_latest_observation source.org_id key os)) [
      | inl q ↦ ground (arith, text_eq_refl source.org_id, key_eq_refl key)
      | inr (m, q) ↦ ground (
        arith,
        text_eq_refl source.org_id,
        key_eq_refl key,
        latest-IsPast env n source.org_id key os m h q,
      )
    ]

latest-new_observation_ne :
    (source : Source) (key : Key) (hash : Text) (hot : HotColumns) (t : ℕ) (os : List Observation)
    (org_id : Text) (other : Key)
    → key ≢ other
    → get_latest_observation org_id other (new_observation source key hash hot t ∷ os)
      ≡ get_latest_observation org_id other os
unfolding get_latest_observation is_about
latest-new_observation_ne source key hash hot t os org_id other h =
    ground (arith, key_eq_iff key other)

-- With the blob in place `insert_observation_if_changed` returns, and then the latest observation of
-- its key has the hash that was given, whether a row was written or not.
pub latest-insert_observation_if_changed :
    (env : Env) (source : Source) (key : Key) (hash : Text) (hot : HotColumns) (w : World)
    → IsSound env w
    → has_blob hash w.blobs ≡ true
    → let after = insert_observation_if_changed env source key hash hot w in
      ((wrote : Bool) × (after.0 ≡ ok wrote))
      × (has_hash hash (get_latest_observation source.org_id key after.1.observations) ≡ true)
unfolding insert_observation_if_changed insert_observation has_hash
latest-insert_observation_if_changed env source key hash hot w s b =
    let written = latest-new_observation env source key hash hot w.readings w.observations s.past in
    elim (Bool-cases (always_written source.source_event)) [
      | inl t ↦ rw (t, b, written) ((true, refl), text_eq_refl hash)
      | inr t ↦
          elim (Bool-cases
            (has_hash hash (get_latest_observation source.org_id key w.observations))) [
              | inl same ↦ rw (t, same) ((false, refl), same)
              | inr new ↦ rw (t, new, b, written) ((true, refl), text_eq_refl hash)
            ]
    ]

-- The latest observation of every other key stays what it was.
pub latest-insert_observation_if_changed_ne :
    (env : Env) (source : Source) (key : Key) (hash : Text) (hot : HotColumns) (w : World)
    (org_id : Text) (other : Key)
    → key ≢ other
    → get_latest_observation org_id other
        (insert_observation_if_changed env source key hash hot w).1.observations
      ≡ get_latest_observation org_id other w.observations
unfolding insert_observation_if_changed insert_observation
latest-insert_observation_if_changed_ne env source key hash hot w org_id other h = ground (
  arith,
  latest-new_observation_ne source key hash hot (env.clock w.readings) w.observations org_id other
      h,
)
