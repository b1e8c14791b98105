-- ===== src/Diff/Agree.antt =====
-- What an empty list of changes says of two documents.
use topology_maps.Prelude.{
  ℕ, ◌≡◌, refl, subst, true, Option, none, some, List, [], ◌∷◌, ◌++◌, All, arith, Bool-cases, inl,
  inr, if◌then◌else◌,
}
use topology_maps.Text.{Text, text_lt, text_eq}
use topology_maps.Json.{Json, Fields, obj, end, field, get, has}
use topology_maps.Json.Printer.{insert_entry, sort_entries}
use topology_maps.Diff.{
  field_added, one_change, is_secret_key, python_eq, full_key, total, added, stable_hash, leaf_diff,
  merge, object_diff, diff_fields, diff_entry,
}
use topology_maps.Diff.Same.{Entry, IsQuietEntry}

append-empty : {A : Type 0} (xs ys : List A) → xs ++ ys ≡ [] → (xs ≡ []) × (ys ≡ [])
append-empty [] ys h = (refl, h)
append-empty (x ∷ xs) ys h = absurd (ground arith)

quiet-total : (es : List Entry) → (total es).0 ≡ [] → All IsQuietEntry es
unfolding total
quiet-total [] h = tt
quiet-total ((k, (changes, n)) ∷ es) h =
    let (here, rest) = append-empty changes (total es).0 h in (here, quiet-total es rest)

quiet-insert_entry :
    (e : Entry) (es : List Entry)
    → All IsQuietEntry (insert_entry e es)
    → IsQuietEntry e × All IsQuietEntry es
unfolding insert_entry
quiet-insert_entry e [] h = (h.0, tt)
quiet-insert_entry e (d ∷ es) h = elim (Bool-cases (text_lt d.0 e.0)) [
  | inl t ↦
      let at : insert_entry e (d ∷ es) ≡ d ∷ insert_entry e es = rw (t, insert_entry) refl in
      let h' = subst (All IsQuietEntry) at h in
      let (q, rest) = quiet-insert_entry e es h'.1 in (q, (h'.0, rest))
  | inr t ↦
      let at : insert_entry e (d ∷ es) ≡ e ∷ (d ∷ es) = rw (t, insert_entry) refl in
      let h' = subst (All IsQuietEntry) at h in (h'.0, h'.1)
]

quiet-sort_entries : (es : List Entry) → All IsQuietEntry (sort_entries es) → All IsQuietEntry es
unfolding sort_entries
quiet-sort_entries [] h = tt
quiet-sort_entries (e ∷ es) h =
    let (q, rest) = quiet-insert_entry e (sort_entries es) h in (q, quiet-sort_entries es rest)

quiet-append :
    (es ds : List Entry) → All IsQuietEntry (es ++ ds) → All IsQuietEntry es × All IsQuietEntry ds
quiet-append [] ds h = (tt, h)
quiet-append (e ∷ es) ds h = let (q, r) = quiet-append es ds h.1 in ((h.0, q), r)

-- Every key of the second is one of the first.
abbrev pub Covers : Fields → Fields → Type 0
Covers a end = Unit
Covers a (field k v fs) = (has k a ≡ true) × Covers a fs

quiet-added :
    (a : Fields) (prefix k : Text) (v : Json) (fs : Fields)
    → All IsQuietEntry ((k, one_change (field_added (full_key prefix k) v)) ∷ added a prefix fs)
    → ⊥
quiet-added a prefix k v fs h = absurd (ground arith)

Covers-added :
    (a : Fields) (prefix : Text) (fs : Fields) → All IsQuietEntry (added a prefix fs) → Covers a fs
unfolding added
Covers-added a prefix end h = tt
Covers-added a prefix (field k v fs) h = elim (Bool-cases (has k a)) [
  | inl t ↦
      let at : added a prefix (field k v fs) ≡ added a prefix fs = rw (t, added) refl in
      (t, Covers-added a prefix fs (subst (All IsQuietEntry) at h))
  | inr t ↦
      let at : added a prefix (field k v fs)
          ≡ (k, one_change (field_added (full_key prefix k) v)) ∷ added a prefix fs =
        rw (t, added) refl in
      absurd (quiet-added a prefix k v fs (subst (All IsQuietEntry) at h))
]

module _ (sha256 : List ℕ → Text) where
  -- Equal as Python compares them where the key is a secret's, with one stable hash elsewhere.
  abbrev pub LeafAgrees : Text → Json → Json → Type 0
  LeafAgrees key v w =
      (if is_secret_key key
        then python_eq v w
        else text_eq (stable_hash sha256 v) (stable_hash sha256 w))
      ≡ true

  -- The same keys, at any depth, and leaves that agree.
  abbrev mutual
    pub Agree : Text → Json → Option Json → Type 0
    Agree key v none = ⊥
    Agree key (obj fs) (some (obj gs)) = AgreeFields fs gs × Covers fs gs
    Agree key v (some w) = LeafAgrees key v w

    pub AgreeFields : Fields → Fields → Type 0
    AgreeFields end b = Unit
    AgreeFields (field k v fs) b = Agree k v (get k b) × AgreeFields fs b

  LeafAgrees-leaf_diff :
      (key full : Text) (v w : Json) → (leaf_diff sha256 key full v w).0 ≡ [] → LeafAgrees key v w
  unfolding leaf_diff
  LeafAgrees-leaf_diff key full v w h = ground arith

  merge-quiet_inv :
      (a b : Fields) (prefix : Text) (es : List Entry)
      → (merge sha256 a b prefix es).0 ≡ []
      → All IsQuietEntry es × Covers a b
  unfolding merge
  merge-quiet_inv a b prefix es h =
      let all =
        quiet-sort_entries (es ++ added a prefix b)
          (quiet-total (sort_entries (es ++ added a prefix b)) h) in
      let (mine, theirs) = quiet-append es (added a prefix b) all in
      (mine, Covers-added a prefix b theirs)

  mutual
    unfolding diff_fields diff_entry

    Agree-diff_fields :
        (fs b : Fields) (prefix : Text)
        → All IsQuietEntry (diff_fields sha256 fs b prefix)
        → AgreeFields fs b
    Agree-diff_fields end b prefix h = tt
    Agree-diff_fields (field k v fs) b prefix h =
        (Agree-diff_entry k (full_key prefix k) v (get k b) h.0, Agree-diff_fields fs b prefix h.1)

    Agree-diff_entry :
        (key full : Text) (v : Json) (w : Option Json)
        → (diff_entry sha256 key full v w).0 ≡ []
        → Agree key v w
    Agree-diff_entry key full v none h = absurd (ground arith)
    Agree-diff_entry key full (obj fs) (some (obj gs)) h =
        let (mine, theirs) = merge-quiet_inv fs gs full (diff_fields sha256 fs gs full) h in
        (Agree-diff_fields fs gs full mine, theirs)
    Agree-diff_entry key full v (some w) h = LeafAgrees-leaf_diff key full v w h

  -- Where the list of changes is empty, each object has the keys of the other, at any depth, and the
  -- values that are not both objects agree: those of secret keys are equal, those of others have one
  -- stable hash.
  pub object_diff-Agree :
      (a b : Fields) (prefix : Text)
      → (object_diff sha256 a b prefix).0 ≡ []
      → AgreeFields a b × Covers a b
  unfolding object_diff
  object_diff-Agree a b prefix h =
      let (mine, theirs) = merge-quiet_inv a b prefix (diff_fields sha256 a b prefix) h in
      (Agree-diff_fields a b prefix mine, theirs)
