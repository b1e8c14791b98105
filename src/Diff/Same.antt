-- ===== src/Diff/Same.antt =====
-- A document compared with itself.
use topology_maps.Prelude.{
  ℕ, ◌+◌, ◌≡◌, refl, ap, ap₂, ◌∙◌, true, false, some, List, [], ◌∷◌, ◌++◌, All, arith, Bool-cases,
  inl, inr, append-nil,
}
use topology_maps.Text.{Text, text_lt, text_eq_refl, text_eq_iff}
use topology_maps.Json.{
  Json, Fields, null, bool, int, str, arr, obj, end, field, get, has, IsWell, IsWellFields,
}
use topology_maps.Json.Printer.{print, compact, insert_entry, sort_entries}
use topology_maps.Diff.{
  FieldChange, python_eq, full_key, no_change, total, added, stable_hash, as_numbers, merge,
  leaf_diff, object_diff, diff_fields, diff_entry,
}

-- The values of a document that are no objects.
abbrev mutual
  pub leaves : Json → ℕ
  leaves (obj fs) = leaves_fields fs
  leaves _ = 1

  pub leaves_fields : Fields → ℕ
  leaves_fields end = 0
  leaves_fields (field k v fs) = leaves v + leaves_fields fs

abbrev pub Entry : Type 0
Entry = Text × (List FieldChange × ℕ)

abbrev pub IsQuietEntry : Entry → Type 0
IsQuietEntry e = e.1.0 ≡ []

abbrev count_of : List Entry → ℕ
count_of [] = 0
count_of (e ∷ es) = e.1.1 + count_of es

total-quiet : (es : List Entry) → All IsQuietEntry es → total es ≡ ([], count_of es)
unfolding total
total-quiet [] h = refl
total-quiet ((k, (changes, n)) ∷ es) h = rw (h.0, total-quiet es h.1) refl

insert_entry-quiet :
    (e : Entry) (es : List Entry)
    → IsQuietEntry e
    → All IsQuietEntry es
    → All IsQuietEntry (insert_entry e es) × (count_of (insert_entry e es) ≡ count_of (e ∷ es))
unfolding insert_entry
insert_entry-quiet e [] q h = ((q, tt), refl)
insert_entry-quiet e (d ∷ es) q h =
    let (all, same) = insert_entry-quiet e es q h.1 in
    elim (Bool-cases (text_lt d.0 e.0)) [
      | inl t ↦ rw (t, insert_entry) ((h.0, all), omega (arith, same))
      | inr t ↦ rw (t, insert_entry) ((q, h), refl)
    ]

sort_entries-quiet :
    (es : List Entry)
    → All IsQuietEntry es
    → All IsQuietEntry (sort_entries es) × (count_of (sort_entries es) ≡ count_of es)
unfolding sort_entries
sort_entries-quiet [] h = (tt, refl)
sort_entries-quiet (e ∷ es) h =
    let (all, same) = sort_entries-quiet es h.1 in
    let (all', same') = insert_entry-quiet e (sort_entries es) h.0 all in
    (all', omega (arith, same, same'))

-- Every entry of the first is found in the second.
abbrev Within : Fields → Fields → Type 0
Within end b = Unit
Within (field k v fs) b = (get k b ≡ some v) × Within fs b

Within-field :
    (j : Text) (w : Json) (fs b : Fields) → has j fs ≡ false → Within fs b → Within fs (field j w b)
unfolding get has
Within-field j w end b n h = tt
Within-field j w (field k v fs) b n h =
    (ground (arith, text_eq_iff j k, text_eq_iff k j), Within-field j w fs b (ground arith) h.1)

Within-self : (fs : Fields) → IsWellFields fs → Within fs fs
unfolding get
Within-self end w = tt
Within-self (field k v fs) w =
    (ground (arith, text_eq_refl k), Within-field k v fs fs w.0 (Within-self fs w.2))

has-get : (k : Text) (v : Json) (fs : Fields) → get k fs ≡ some v → has k fs ≡ true
unfolding get has
has-get k v end h = absurd (ground arith)
has-get k v (field j w fs) h = ground (arith, has-get k v fs)

added-Within : (a : Fields) (prefix : Text) (fs : Fields) → Within fs a → added a prefix fs ≡ []
unfolding added
added-Within a prefix end h = refl
added-Within a prefix (field k v fs) h =
    rw (has-get k v a h.0, added) (added-Within a prefix fs h.1)

module _ (sha256 : List ℕ → Text) where
  leaf_diff_self : (key full : Text) (v : Json) → leaf_diff sha256 key full v v ≡ no_change
  unfolding leaf_diff python_eq
  leaf_diff_self key full v =
      ground
        (arith, text_eq_refl (stable_hash sha256 v), text_eq_refl (print compact (as_numbers v)))

  merge-quiet :
      (a : Fields) (prefix : Text) (es : List Entry)
      → IsWellFields a
      → All IsQuietEntry es
      → merge sha256 a a prefix es ≡ ([], count_of es)
  unfolding merge
  merge-quiet a prefix es w h =
      let none_added = added-Within a prefix a (Within-self a w) in
      let (all, same) = sort_entries-quiet es h in
      ap (λ xs. total (sort_entries (es ++ xs))) none_added
      ∙ ap (λ xs. total (sort_entries xs)) (append-nil es)
      ∙ total-quiet (sort_entries es) all
      ∙ ap (λ n. ([], n)) same

  mutual
    unfolding diff_fields diff_entry

    diff_fields_self :
        (fs b : Fields) (prefix : Text)
        → IsWellFields fs
        → Within fs b
        → All IsQuietEntry (diff_fields sha256 fs b prefix)
          × (count_of (diff_fields sha256 fs b prefix) ≡ leaves_fields fs)
    diff_fields_self end b prefix w h = (tt, refl)
    diff_fields_self (field k v fs) b prefix w h =
        let here =
          ap (diff_entry sha256 k (full_key prefix k) v) h.0
          ∙ diff_entry_self k (full_key prefix k) v w.1 in
        let (all, count) = diff_fields_self fs b prefix w.2 h.1 in
        ((ap (λ x. x.0) here, all), ap₂ (λ m n. m + n) (ap (λ x. x.1) here) count)

    diff_entry_self :
        (key full : Text) (v : Json)
        → IsWell v
        → diff_entry sha256 key full v (some v) ≡ ([], leaves v)
    diff_entry_self key full (obj fs) w =
        let (all, count) = diff_fields_self fs fs full w (Within-self fs w) in
        merge-quiet fs full (diff_fields sha256 fs fs full) w all ∙ ap (λ n. ([], n)) count
    diff_entry_self key full null w = leaf_diff_self key full null
    diff_entry_self key full (bool b) w = leaf_diff_self key full (bool b)
    diff_entry_self key full (int n) w = leaf_diff_self key full (int n)
    diff_entry_self key full (str s) w = leaf_diff_self key full (str s)
    diff_entry_self key full (arr xs) w = leaf_diff_self key full (arr xs)

  -- An object whose keys are unique, at any depth, differs in no field from itself, and the count of
  -- what is unchanged is the number of its values that are no objects.
  pub object_diff_self :
      (a : Fields) (prefix : Text)
      → IsWellFields a
      → object_diff sha256 a a prefix ≡ ([], leaves_fields a)
  unfolding object_diff
  object_diff_self a prefix w =
      let (all, count) = diff_fields_self a a prefix w (Within-self a w) in
      merge-quiet a prefix (diff_fields sha256 a a prefix) w all ∙ ap (λ n. ([], n)) count
