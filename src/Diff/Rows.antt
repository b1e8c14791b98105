-- ===== src/Diff/Rows.antt =====
-- Tables of rows in diff_engine.py, and `compute_diff`. `none` is a TypeError or AttributeError: a row
-- that is no object, an identity that is a list or an object, a document that is neither.
use topology_maps.Prelude.{
  ℕ, ◌+◌, Bool, true, false, ◌||◌, Option, none, some, List, [], ◌∷◌, if◌then◌else◌,
}
use topology_maps.Text.{Text, codes, text_eq, ends_with}
use topology_maps.Json.{Json, Items, Fields, arr, obj, nil, cons, end, field, get}
use topology_maps.Diff.{
  FieldChange, Identity, index, value, RowChange, row_added, row_removed, row_changed, DiffResult,
  object, array, python_eq, object_diff,
}

abbrev identity_keys : List (Text × Option Text)
identity_keys =
    (codes "appliance_vlans", some (codes "id"))
    ∷ (codes "appliance_firewall_l3", none)
    ∷ (codes "wireless_ssids", some (codes "number"))
    ∷ (codes "switch_device_ports", some (codes "portId"))
    ∷ []

registered : Text → List (Text × Option Text) → Option (Option Text)
unfolding text_eq
registered area [] = none
registered area ((k, id_key) ∷ rest) = if text_eq k area then some id_key else registered area rest

-- The first key of the row with the suffix.
key_ending : Text → Fields → Option Text
unfolding ends_with
key_ending suffix end = none
key_ending suffix (field k v fs) = if ends_with suffix k then some k else key_ending suffix fs

first_of : Option Text → Option Text → Option Text
first_of none k = k
first_of (some j) k = some j

unfoldable pub get_identity_key : Text → Fields → Option Text
unfolding registered key_ending first_of
get_identity_key area sample = elim (registered area identity_keys) [
  | some id_key ↦ id_key
  | none ↦
      first_of (key_ending (codes "Id") sample)
        (first_of (key_ending (codes "id") sample) (key_ending (codes "number") sample))
]

unfoldable pub is_hashable : Json → Bool
is_hashable (arr xs) = false
is_hashable (obj fs) = false
is_hashable v = true

-- m.get(identity)
unfoldable pub row_with : Json → List (Json × Fields) → Option Fields
unfolding python_eq
row_with identity [] = none
row_with identity ((k, row) ∷ m) = if python_eq k identity then some row else row_with identity m

-- m[identity] = row: a key that is there keeps its place.
unfoldable pub put_row : Json → Fields → List (Json × Fields) → List (Json × Fields)
unfolding python_eq
put_row identity row [] = (identity, row) ∷ []
put_row identity row ((k, r) ∷ m) =
    if python_eq k identity then (k, row) ∷ m else (k, r) ∷ put_row identity row m

-- {r[id_key]: r for r in rows if id_key in r}, from what is made so far
unfoldable pub rows_by : Text → List (Json × Fields) → List Fields → Option (List (Json × Fields))
unfolding get is_hashable put_row
rows_by id_key m [] = some m
rows_by id_key m (row ∷ rows) = elim (get id_key row) [
  | none ↦ rows_by id_key m rows
  | some identity ↦
      if is_hashable identity then rows_by id_key (put_row identity row m) rows else none
]

-- A row that is in both tables, by its changes.
unfoldable pub count_row : Identity → List FieldChange × ℕ → List RowChange × ℕ → List RowChange × ℕ
count_row identity ([], n) (changes, unchanged) = (changes, unchanged + 1)
count_row identity (c ∷ cs, n) (changes, unchanged) =
    (row_changed identity (c ∷ cs) ∷ changes, unchanged)

abbrev cons_change : RowChange → List RowChange × ℕ → List RowChange × ℕ
cons_change c (changes, unchanged) = (c ∷ changes, unchanged)

module _ (sha256 : List ℕ → Text) where
  -- Rows matched by position, from index `i`.
  unfoldable pub position_diff : ℕ → List Fields → List Fields → List RowChange × ℕ
  unfolding count_row object_diff
  position_diff i [] [] = ([], 0)
  position_diff i (a ∷ rows_a) [] =
      cons_change (row_removed (index i) a) (position_diff (i + 1) rows_a [])
  position_diff i [] (b ∷ rows_b) =
      cons_change (row_added (index i) b) (position_diff (i + 1) [] rows_b)
  position_diff i (a ∷ rows_a) (b ∷ rows_b) =
      count_row (index i) (object_diff sha256 a b []) (position_diff (i + 1) rows_a rows_b)

  -- The identities of the first table, then those of the second alone.
  unfoldable pub kept_rows :
      List (Json × Fields) → List (Json × Fields) → List RowChange × ℕ → List RowChange × ℕ
  unfolding row_with count_row object_diff
  kept_rows [] map_b rest = rest
  kept_rows ((identity, row) ∷ map_a) map_b rest =
      let later = kept_rows map_a map_b rest in
      elim (row_with identity map_b) [
        | none ↦ cons_change (row_removed (value identity) row) later
        | some other ↦ count_row (value identity) (object_diff sha256 row other []) later
      ]

  unfoldable pub new_rows : List (Json × Fields) → List (Json × Fields) → List RowChange × ℕ
  unfolding row_with
  new_rows map_a [] = ([], 0)
  new_rows map_a ((identity, row) ∷ map_b) =
      let later = new_rows map_a map_b in
      elim (row_with identity map_a) [
        | none ↦ cons_change (row_added (value identity) row) later
        | some other ↦ later
      ]

  -- (rows_a or rows_b or [{}])[0]
  unfoldable pub sample_of : List Fields → List Fields → Fields
  sample_of (a ∷ rows_a) rows_b = a
  sample_of [] (b ∷ rows_b) = b
  sample_of [] [] = end

  unfoldable pub array_diff : Text → List Fields → List Fields → Option (List RowChange × ℕ)
  unfolding get_identity_key sample_of position_diff rows_by kept_rows new_rows
  array_diff area_name rows_a rows_b = elim (get_identity_key area_name (sample_of rows_a rows_b)) [
    | none ↦ some (position_diff 0 rows_a rows_b)
    | some id_key ↦ elim (rows_by id_key [] rows_a) [
      | none ↦ none
      | some map_a ↦ elim (rows_by id_key [] rows_b) [
        | none ↦ none
        | some map_b ↦ some (kept_rows map_a map_b (new_rows map_a map_b))
      ]
    ]
  ]

-- A list of rows; any other value than a list counts as an empty one.
unfoldable pub rows_of : Items → Option (List Fields)
rows_of nil = some []
rows_of (cons (obj fs) xs) =
    let rest = rows_of xs in elim rest [ none ↦ none | some rows ↦ some (fs ∷ rows) ]
rows_of (cons _ xs) = none

unfoldable pub rows_in : Option Json → Option (List Fields)
unfolding rows_of
rows_in (some (arr xs)) = rows_of xs
rows_in _ = some []

unfoldable pub is_row_list : Json → Bool
is_row_list (arr (cons (obj fs) xs)) = true
is_row_list _ = false

unfoldable pub has_row_list : Fields → Bool
unfolding is_row_list
has_row_list end = false
has_row_list (field k v fs) = is_row_list v || has_row_list fs

first_key : Fields → Option Text
first_key end = none
first_key (field k v fs) = some k

-- The first key of {**a, **b} with a list of rows: the keys of `a` with the value that `b` has for
-- them, if any, then those of `b`, of which the ones of `a` have been asked already.
value_in : Option Json → Json → Json
value_in none v = v
value_in (some w) v = w

unfoldable pub row_key : Fields → Fields → Option Text
unfolding is_row_list get value_in
row_key end end = none
row_key end (field k w gs) = if is_row_list w then some k else row_key end gs
row_key (field k v fs) b = if is_row_list (value_in (get k b) v) then some k else row_key fs b

or_empty : Option Text → Text
or_empty none = []
or_empty (some t) = t

unfoldable pub area_of : Fields → Fields → Text
unfolding row_key first_of first_key or_empty
area_of a b = or_empty (first_of (row_key a b) (first_of (first_key b) (first_key a)))

as_array : Option (List RowChange × ℕ) → Option DiffResult
as_array none = none
as_array (some (changes, unchanged)) = some (array changes unchanged)

module _ (sha256 : List ℕ → Text) where
  diff_rows : Text → Option (List Fields) → Option (List Fields) → Option DiffResult
  unfolding as_array array_diff
  diff_rows area (some rows_a) (some rows_b) = as_array (array_diff sha256 area rows_a rows_b)
  diff_rows area _ _ = none

  diff_objects : Fields → Fields → DiffResult
  unfolding object_diff
  diff_objects a b =
      let (changes, unchanged) = object_diff sha256 a b [] in object changes unchanged

  unfoldable pub compute_diff : Json → Json → Option DiffResult
  unfolding diff_rows rows_in rows_of has_row_list area_of diff_objects get
  compute_diff (arr xs) b = diff_rows (codes "items") (rows_of xs) (rows_in (some b))
  compute_diff a (arr ys) = diff_rows (codes "items") (some []) (rows_of ys)
  compute_diff (obj a) (obj b) =
      if has_row_list a || has_row_list b
      then diff_rows (area_of a b) (rows_in (get (area_of a b) a)) (rows_in (get (area_of a b) b))
      else some (diff_objects a b)
  compute_diff _ _ = none
