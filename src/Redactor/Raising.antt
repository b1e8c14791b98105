-- ===== src/Redactor/Raising.antt =====
-- mask_path and redact of server/config_collector/redactor.py with the encoder that raises: `none`
-- is an exception, which ends the call. On documents without lone surrogates they raise nothing,
-- and agree with those of `Redactor`.
use topology_maps.Prelude.{ℕ, true, Option, none, some, List, [], ◌∷◌, length, if◌then◌else◌}
use topology_maps.Text.{Text, text_eq}
use topology_maps.Json.{Json, Items, Fields, bool, str, arr, obj, nil, cons, end, field}
use topology_maps.Hashing.{dumps, encode}
use topology_maps.Redactor.{sentinel_key, hash_key, delete_path, extract_hot_columns, Redacted}
use topology_maps.Redactor.Path.{Step, key, array, ok, err, parse_path}
use topology_maps.Redactor.Catalog.{redaction_paths, normalization_paths, paths_for}

abbrev pub then_try : {A B : Type 0} → Option A → (A → Option B) → Option B
then_try none f = none
then_try (some a) f = f a

unfoldable pub try_update : Text → (Json → Option Json) → Fields → Option Fields
unfolding text_eq
try_update k f end = some end
try_update k f (field j v fs) =
    let rest = try_update k f fs in
    if text_eq j k
    then then_try (f v) (λ w. some (field j w fs))
    else then_try rest (λ gs. some (field j v gs))

unfoldable pub try_map_items : (Json → Option Json) → Items → Option Items
try_map_items f nil = some nil
try_map_items f (cons x xs) =
    then_try (f x) (λ y. then_try (try_map_items f xs) (λ ys. some (cons y ys)))

abbrev try_on_object : (Fields → Option Fields) → Json → Option Json
try_on_object f (obj fs) = then_try (f fs) (λ gs. some (obj gs))
try_on_object f v = some v

abbrev try_on_array : (Items → Option Items) → Json → Option Json
try_on_array f (arr xs) = then_try (f xs) (λ ys. some (arr ys))
try_on_array f v = some v

unfoldable pub try_walk_paths : (Json → List Step → Option Json) → Json → List Text → Option Json
unfolding parse_path
try_walk_paths walk working [] = some working
try_walk_paths walk working (path ∷ paths) = elim (parse_path path) [
  | err e ↦ none
  | ok steps ↦ then_try (walk working steps) (λ w. try_walk_paths walk w paths)
]

module _ (sha256 : List ℕ → Text) where
  unfoldable pub try_hash_value : Json → Option Text
  unfolding dumps encode
  try_hash_value v = then_try (encode (dumps v)) (λ bytes. some (sha256 bytes))

  unfoldable pub try_make_sentinel : Json → Option Json
  unfolding try_hash_value
  try_make_sentinel v =
      then_try (try_hash_value v)
        (λ h. some (obj (field sentinel_key (bool true) (field hash_key (str h) end))))

  unfoldable pub try_mask_path : Json → List Step → Option Json
  unfolding try_update try_map_items try_make_sentinel
  try_mask_path payload [] = some payload
  try_mask_path payload (key k ∷ []) = try_on_object (try_update k try_make_sentinel) payload
  try_mask_path payload (key k ∷ (s ∷ rest)) =
      try_on_object (try_update k (λ v. try_mask_path v (s ∷ rest))) payload
  try_mask_path payload (array ∷ []) = try_on_array (try_map_items try_make_sentinel) payload
  try_mask_path payload (array ∷ (s ∷ rest)) =
      try_on_array (try_map_items (λ v. try_mask_path v (s ∷ rest))) payload

  unfoldable pub try_redact : Json → Text → Option Redacted
  unfolding try_walk_paths try_mask_path delete_path paths_for redaction_paths normalization_paths
      dumps encode extract_hot_columns
  try_redact payload config_area =
      then_try (try_walk_paths try_mask_path payload (paths_for config_area redaction_paths))
        (λ masked.
          then_try
            (try_walk_paths (λ v steps. some (delete_path v steps)) masked
              (paths_for config_area normalization_paths))
            (λ working.
              let canonical = dumps working in
              then_try (encode canonical) (λ encoded. some (record {
                canonical = canonical;
                sha256_hex = sha256 encoded;
                byte_size = length encoded;
                hot_columns = extract_hot_columns payload;
              }))))
