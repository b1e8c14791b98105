-- ===== src/Diff.antt =====
-- server/config_collector/diff_engine.py. Rows that are no objects are outside the type that the
-- module annotates, and not modelled.
pub mod Rows
pub mod Same
pub mod Agree
mod Tests
use topology_maps.Prelude.{
  ℕ, zero, suc, ◌+◌, Bool, true, false, not, ◌&&◌, ◌||◌, Option, none, some, List, [], ◌∷◌, ◌++◌,
  length, drop, ltb, filter_by, map, if◌then◌else◌,
}
use topology_maps.Text.{Text, codes, text_eq, ends_with}
use topology_maps.Json.{
  Json, Items, Fields, null, bool, int, pos, str, arr, obj, nil, cons, end, field, get, has,
}
use topology_maps.Json.Printer.{print, compact, spaced, insert_entry, sort_entries}
use topology_maps.Hashing.{utf8}

-- FieldChanged, FieldAdded, FieldRemoved, SecretChanged
pub data FieldChange : Type 0 where
  field_changed : (key : Text) → (before after : Json) → FieldChange
  field_added : (key : Text) → (value : Json) → FieldChange
  field_removed : (key : Text) → (value : Json) → FieldChange
  secret_changed : (key : Text) → FieldChange

-- The identity of a row: its index, or the value of its identity key.
pub data Identity : Type 0 where
  index : ℕ → Identity
  value : Json → Identity

-- RowAdded, RowRemoved, RowChanged
pub data RowChange : Type 0 where
  row_added : (identity : Identity) → (row : Fields) → RowChange
  row_removed : (identity : Identity) → (row : Fields) → RowChange
  row_changed : (identity : Identity) → (field_changes : List FieldChange) → RowChange

-- DiffResult, by its shape
pub data DiffResult : Type 0 where
  object : (changes : List FieldChange) → (unchanged_count : ℕ) → DiffResult
  array : (changes : List RowChange) → (unchanged_count : ℕ) → DiffResult

unfoldable pub is_secret_key : Text → Bool
unfolding ends_with
is_secret_key key = ends_with (codes "_hash") key

-- Booleans as the numbers that Python's == takes them for.
mutual
  pub as_numbers : Json → Json
  as_numbers (bool true) = int (pos 1)
  as_numbers (bool false) = int (pos 0)
  as_numbers (arr xs) = arr (as_numbers_items xs)
  as_numbers (obj fs) = obj (as_numbers_fields fs)
  as_numbers v = v

  as_numbers_items : Items → Items
  as_numbers_items nil = nil
  as_numbers_items (cons x xs) = cons (as_numbers x) (as_numbers_items xs)

  as_numbers_fields : Fields → Fields
  as_numbers_fields end = end
  as_numbers_fields (field k v fs) = field k (as_numbers v) (as_numbers_fields fs)

-- v == w, which reads the objects in any order of keys
unfoldable pub python_eq : Json → Json → Bool
unfolding as_numbers print text_eq
python_eq v w = text_eq (print compact (as_numbers v)) (print compact (as_numbers w))

-- f"{prefix}.{k}" if prefix else k
unfoldable pub full_key : Text → Text → Text
full_key [] k = k
full_key (c ∷ prefix) k = (c ∷ prefix) ++ (codes "." ++ k)

abbrev pub no_change : List FieldChange × ℕ
no_change = ([], 1)

abbrev pub one_change : FieldChange → List FieldChange × ℕ
one_change c = (c ∷ [], 0)

-- The changes of the entries, in order, and the sum of their counts.
unfoldable pub total : {A : Type 0} → List (Text × (List A × ℕ)) → List A × ℕ
total [] = ([], 0)
total ((k, (changes, unchanged)) ∷ entries) =
    let (more, count) = total entries in (changes ++ more, unchanged + count)

-- The keys of `b` that are not in `a`.
unfoldable pub added : Fields → Text → Fields → List (Text × (List FieldChange × ℕ))
unfolding has full_key
added a prefix end = []
added a prefix (field k v fs) =
    let rest = added a prefix fs in
    if has k a then rest else (k, one_change (field_added (full_key prefix k) v)) ∷ rest

module _ (sha256 : List ℕ → Text) where
  unfoldable pub stable_hash : Json → Text
  unfolding print utf8
  stable_hash v = sha256 (utf8 (print spaced v))

  -- Two values of one key that are not both objects.
  unfoldable pub leaf_diff : Text → Text → Json → Json → List FieldChange × ℕ
  unfolding is_secret_key python_eq stable_hash text_eq
  leaf_diff key full v w =
      if is_secret_key key
      then (if python_eq v w then no_change else one_change (secret_changed full))
      else if text_eq (stable_hash v) (stable_hash w)
      then no_change
      else one_change (field_changed full v w)

  -- The loop over the sorted keys visits each key of `a` or `b` once: `entries` are those of the keys
  -- of `a`, to which come those of `b` alone, and all are sorted.
  unfoldable pub merge :
      Fields → Fields → Text → List (Text × (List FieldChange × ℕ)) → List FieldChange × ℕ
  unfolding sort_entries added total
  merge a b prefix entries = total (sort_entries (entries ++ added a prefix b))

  unfoldable mutual
    unfolding leaf_diff get full_key merge

    pub diff_fields : Fields → Fields → Text → List (Text × (List FieldChange × ℕ))
    diff_fields end b prefix = []
    diff_fields (field k v fs) b prefix =
        (k, diff_entry k (full_key prefix k) v (get k b)) ∷ diff_fields fs b prefix

    pub diff_entry : Text → Text → Json → Option Json → List FieldChange × ℕ
    diff_entry key full v none = one_change (field_removed full v)
    diff_entry key full (obj fs) (some (obj gs)) = merge fs gs full (diff_fields fs gs full)
    diff_entry key full v (some w) = leaf_diff key full v w

  unfoldable pub object_diff : Fields → Fields → Text → List FieldChange × ℕ
  unfolding diff_fields merge
  object_diff a b prefix = merge a b prefix (diff_fields a b prefix)
