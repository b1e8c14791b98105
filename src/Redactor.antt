-- ===== src/Redactor.antt =====
-- server/config_collector/redactor.py: the walker that masks secrets and deletes identity fields,
-- and `redact`. The digest is a parameter, as in `Hashing`. Here a text is
-- encoded as though it had no lone surrogate; in `Raising` the encoder raises.
pub mod Path
pub mod Catalog
pub mod Position
pub mod Mask
pub mod Delete
pub mod Redact
pub mod Raising
pub mod Encoding
mod Tests
use topology_maps.Prelude.{ℕ, ◌≡◌, Bool, true, false, Option, none, some, List, [], ◌∷◌, length}
use topology_maps.Text.{Text, codes}
use topology_maps.Json.{
  Json, Items, Fields, null, bool, str, arr, obj, end, field, get, update, delete, map_items,
}
use topology_maps.Hashing.{dumps, utf8, sha256_canonical}
use Path.{Step, key, array, Result, ok, err, ◌>>=◌, parse_path}
use Catalog.{redaction_paths, normalization_paths, paths_for}

abbrev pub sentinel_key : Text
sentinel_key = codes "_redacted"

abbrev pub hash_key : Text
hash_key = codes "_hash"

-- What `isinstance(payload, dict)` and `isinstance(payload, list)` guard.
abbrev pub on_object : (Fields → Fields) → Json → Json
on_object f (obj fs) = obj (f fs)
on_object f v = v

abbrev pub on_array : (Items → Items) → Json → Json
on_array f (arr xs) = arr (f xs)
on_array f v = v

unfoldable pub delete_path : Json → List Step → Json
unfolding update delete map_items
delete_path payload [] = payload
delete_path payload (key k ∷ []) = on_object (delete k) payload
delete_path payload (key k ∷ (s ∷ rest)) =
    on_object (update k (λ v. delete_path v (s ∷ rest))) payload
delete_path payload (array ∷ rest) = on_array (map_items (λ v. delete_path v rest)) payload

abbrev get_name : Option Json → Option Text
get_name (some (str s)) = some s
get_name _ = none

abbrev get_enabled : Option Json → Option ℕ
get_enabled (some (bool true)) = some 1
get_enabled (some (bool false)) = some 0
get_enabled _ = none

pub record HotColumns : Type 0 where
  pub name_hint : Option Text
  pub enabled_hint : Option ℕ

unfoldable pub extract_hot_columns : Json → HotColumns
unfolding get
extract_hot_columns (obj fs) = record {
  name_hint = get_name (get (codes "name") fs);
  enabled_hint = get_enabled (get (codes "enabled") fs);
}
extract_hot_columns _ = record { name_hint = none; enabled_hint = none }

pub record Redacted : Type 0 where
  pub canonical : Text
  pub sha256_hex : Text
  pub byte_size : ℕ
  pub hot_columns : HotColumns

-- for path in paths: walk(working, parse_path(path))
unfoldable pub walk_paths : (Json → List Step → Json) → Json → List Text → Result Json
unfolding parse_path
walk_paths walk working [] = ok working
walk_paths walk working (path ∷ paths) = do
  steps ← parse_path path
  walk_paths walk (walk working steps) paths

module _ (sha256 : List ℕ → Text) where
  -- `_hash_value` is `sha256_canonical` written out again.
  unfoldable pub hash_value : Json → Text
  unfolding dumps utf8
  hash_value v = let payload = utf8 (dumps v) in sha256 payload

  unfoldable pub make_sentinel : Json → Json
  make_sentinel v = obj (field sentinel_key (bool true) (field hash_key (str (hash_value v)) end))

  unfoldable pub mask_path : Json → List Step → Json
  unfolding update map_items
  mask_path payload [] = payload
  mask_path payload (key k ∷ []) = on_object (update k make_sentinel) payload
  mask_path payload (key k ∷ (s ∷ rest)) =
      on_object (update k (λ v. mask_path v (s ∷ rest))) payload
  mask_path payload (array ∷ []) = on_array (map_items make_sentinel) payload
  mask_path payload (array ∷ (s ∷ rest)) =
      on_array (map_items (λ v. mask_path v (s ∷ rest))) payload

  -- `working` at the end of `redact`.
  unfoldable pub sanitise : Json → Text → Result Json
  unfolding walk_paths paths_for redaction_paths normalization_paths
  sanitise payload config_area = do
    masked ← walk_paths mask_path payload (paths_for config_area redaction_paths)
    walk_paths delete_path masked (paths_for config_area normalization_paths)

  unfoldable pub redact : Json → Text → Result Redacted
  unfolding sanitise dumps utf8 extract_hot_columns
  redact payload config_area = do
    working ← sanitise payload config_area
    let canonical = dumps working
    let encoded = utf8 canonical
    ok (record {
      canonical = canonical;
      sha256_hex = sha256 encoded;
      byte_size = length encoded;
      hot_columns = extract_hot_columns payload;
    })
