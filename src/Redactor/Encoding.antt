-- ===== src/Redactor/Encoding.antt =====
-- On documents without lone surrogates nothing that `Raising` encodes raises.
use topology_maps.Prelude.{
  ℕ, ◌≡◌, refl, subst, ◌⊎◌, inl, inr, true, Option, none, some, List, [], ◌∷◌, length, Bool-cases,
  arith,
}
use topology_maps.Text.{Text, text_eq}
use topology_maps.Json.{
  Json, Items, Fields, arr, obj, nil, cons, end, field, update, delete, map_items,
}
use topology_maps.Json.Printer.Scalar.{
  is_scalar_text, IsScalar, IsScalarItems, IsScalarFields, print_lem,
}
use topology_maps.Hashing.{dumps, utf8, encode, encode_lem}
use topology_maps.Redactor.{
  hash_value, make_sentinel, mask_path, delete_path, Redacted, walk_paths, sanitise, redact,
}
use topology_maps.Redactor.Path.{Step, key, array, Result, ok, err, PathError, parse_path}
use topology_maps.Redactor.Catalog.{redaction_paths, normalization_paths, paths_for}
use topology_maps.Redactor.Redact.{sanitise_total, redact-sanitise}
use topology_maps.Redactor.Raising.{
  try_update, try_map_items, try_walk_paths, try_hash_value, try_make_sentinel, try_mask_path,
  try_redact,
}

-- On a document without lone surrogates `f` gives what `g` does, which has none either.
abbrev Agrees : (Json → Option Json) → (Json → Json) → Type 0
Agrees f g = (v : Json) → IsScalar v → (f v ≡ some (g v)) × IsScalar (g v)

try_update_lem :
    (k : Text) (f : Json → Option Json) (g : Json → Json) (fs : Fields)
    → Agrees f g
    → IsScalarFields fs
    → (try_update k f fs ≡ some (update k g fs)) × IsScalarFields (update k g fs)
unfolding try_update update
try_update_lem k f g end a h = (refl, tt)
try_update_lem k f g (field j v fs) a h =
    let (e, s) = a v h.1 in
    let (d, t) = try_update_lem k f g fs a h.2 in
    elim (Bool-cases (text_eq j k)) [
      | inl q ↦ rw (q, update) (rw e refl, (h.0, s, h.2))
      | inr q ↦ rw (q, update) (rw d refl, (h.0, h.1, t))
    ]

try_map_items_lem :
    (f : Json → Option Json) (g : Json → Json) (xs : Items)
    → Agrees f g
    → IsScalarItems xs
    → (try_map_items f xs ≡ some (map_items g xs)) × IsScalarItems (map_items g xs)
unfolding try_map_items map_items
try_map_items_lem f g nil a h = (refl, tt)
try_map_items_lem f g (cons x xs) a h =
    let (e, s) = a x h.0 in let (d, t) = try_map_items_lem f g xs a h.1 in (rw (e, d) refl, (s, t))

IsScalarFields-delete : (k : Text) (fs : Fields) → IsScalarFields fs → IsScalarFields (delete k fs)
unfolding delete
IsScalarFields-delete k end h = tt
IsScalarFields-delete k (field j v fs) h = elim (Bool-cases (text_eq j k)) [
  | inl q ↦ rw (q, delete) h.2
  | inr q ↦ rw (q, delete) (h.0, h.1, IsScalarFields-delete k fs h.2)
]

module _ (sha256 : List ℕ → Text)
    (hex : (bytes : List ℕ) → is_scalar_text (sha256 bytes) ≡ true) where
  try_hash_value_lem :
      (v : Json) → IsScalar v → try_hash_value sha256 v ≡ some (hash_value sha256 v)
  unfolding try_hash_value hash_value dumps
  try_hash_value_lem v h = rw (encode_lem (dumps v) (print_lem v h)) refl

  try_make_sentinel_lem : Agrees (try_make_sentinel sha256) (make_sentinel sha256)
  unfolding try_make_sentinel make_sentinel hash_value
  try_make_sentinel_lem v h =
      (rw (try_hash_value_lem v h) refl, (refl, tt, (refl, hex (utf8 (dumps v)), tt)))

  try_mask_path_lem :
      (steps : List Step)
      → Agrees (λ v. try_mask_path sha256 v steps) (λ v. mask_path sha256 v steps)
  unfolding try_mask_path mask_path
  try_mask_path_lem [] v h = (refl, h)
  try_mask_path_lem (key k ∷ []) (obj fs) h =
      let (e, s) =
        try_update_lem k (try_make_sentinel sha256) (make_sentinel sha256) fs try_make_sentinel_lem
          h in
      (rw e refl, s)
  try_mask_path_lem (key k ∷ (s ∷ rest)) (obj fs) h =
      let (e, t) =
        try_update_lem k (λ v. try_mask_path sha256 v (s ∷ rest))
          (λ v. mask_path sha256 v (s ∷ rest)) fs (try_mask_path_lem (s ∷ rest)) h in
      (rw e refl, t)
  try_mask_path_lem (array ∷ []) (arr xs) h =
      let (e, s) =
        try_map_items_lem (try_make_sentinel sha256) (make_sentinel sha256) xs try_make_sentinel_lem
          h in
      (rw e refl, s)
  try_mask_path_lem (array ∷ (s ∷ rest)) (arr xs) h =
      let (e, t) =
        try_map_items_lem (λ v. try_mask_path sha256 v (s ∷ rest))
          (λ v. mask_path sha256 v (s ∷ rest)) xs (try_mask_path_lem (s ∷ rest)) h in
      (rw e refl, t)
  try_mask_path_lem (key k ∷ []) v h = (refl, h)
  try_mask_path_lem (key k ∷ (s ∷ rest)) v h = (refl, h)
  try_mask_path_lem (array ∷ []) v h = (refl, h)
  try_mask_path_lem (array ∷ (s ∷ rest)) v h = (refl, h)

IsScalar-delete_path : (steps : List Step) (v : Json) → IsScalar v → IsScalar (delete_path v steps)
unfolding delete_path
IsScalar-delete_path [] v h = h
IsScalar-delete_path (key k ∷ []) (obj fs) h = IsScalarFields-delete k fs h
IsScalar-delete_path (key k ∷ (s ∷ rest)) (obj fs) h =
    let inner : Json → Json = λ v. delete_path v (s ∷ rest) in
    (try_update_lem k (λ v. some (inner v)) inner fs
      (λ v g. (refl, IsScalar-delete_path (s ∷ rest) v g)) h).1
IsScalar-delete_path (array ∷ rest) (arr xs) h =
    let inner : Json → Json = λ v. delete_path v rest in
    (try_map_items_lem (λ v. some (inner v)) inner xs (λ v g. (refl, IsScalar-delete_path rest v g))
      h).1
IsScalar-delete_path (key k ∷ []) v h = h
IsScalar-delete_path (key k ∷ (s ∷ rest)) v h = h
IsScalar-delete_path (array ∷ rest) v h = h

-- The two results of a walk: the same document, or an exception.
abbrev SameResult : Option Json → Result Json → Type 0
SameResult o (ok w) = (o ≡ some w) × IsScalar w
SameResult o (err e) = o ≡ none

Result-cases :
    {A : Type 0} (r : Result A) → ((a : A) × (r ≡ ok a)) ⊎ ((e : PathError) × (r ≡ err e))
Result-cases (ok a) = inl (a, refl)
Result-cases (err e) = inr (e, refl)

try_walk_paths_lem :
    (f : Json → List Step → Option Json) (g : Json → List Step → Json) (v : Json)
    (paths : List Text)
    → ((steps : List Step) → Agrees (λ w. f w steps) (λ w. g w steps))
    → IsScalar v
    → SameResult (try_walk_paths f v paths) (walk_paths g v paths)
unfolding try_walk_paths walk_paths
try_walk_paths_lem f g v [] a h = (refl, h)
try_walk_paths_lem f g v (path ∷ paths) a h = elim (Result-cases (parse_path path)) [
  | inr (e, q) ↦ rw (q, try_walk_paths, walk_paths) refl
  | inl (steps, q) ↦
      let (d, s) = a steps v h in
      rw (q, try_walk_paths, walk_paths) (rw d (try_walk_paths_lem f g (g v steps) paths a s))
]

-- Where no string and no key of the document has a lone surrogate, and a digest is a text without
-- them, `redact` raises nothing for any area: every path of both tables parses, and every value
-- that is hashed and the canonical text can be encoded. The digest and the size that it returns are
-- those of the bytes of the canonical text, and it returns what the model without the encoder's
-- exception does.
pub try_redact_lem :
    (sha256 : List ℕ → Text)
    → ((bytes : List ℕ) → is_scalar_text (sha256 bytes) ≡ true)
    → (v : Json) (area : Text) → IsScalar v
    → (r : Redacted) × (bytes : List ℕ) × (try_redact sha256 v area ≡ some r)
      × (encode r.canonical ≡ some bytes)
      × (r.sha256_hex ≡ sha256 bytes)
      × (r.byte_size ≡ length bytes)
      × (redact sha256 v area ≡ ok r)
unfolding try_redact sanitise dumps
try_redact_lem sha256 hex v area h =
    let secrets = paths_for area redaction_paths in
    let identity = paths_for area normalization_paths in
    let (w, total) = sanitise_total sha256 v area in
    let first =
      try_walk_paths_lem (try_mask_path sha256) (mask_path sha256) v secrets
        (λ steps. try_mask_path_lem sha256 hex steps) h in
    elim (Result-cases (walk_paths (mask_path sha256) v secrets)) [
      | inr (e, q) ↦ absurd (ground (arith, rw q at total))
      | inl (masked, q) ↦
          let (e1, s1) =
            subst (SameResult (try_walk_paths (try_mask_path sha256) v secrets)) q first in
          let second =
            try_walk_paths_lem (λ x steps. some (delete_path x steps)) delete_path masked identity
              (λ steps x g. (refl, IsScalar-delete_path steps x g)) s1 in
          let (e2, s2) =
            subst
              (SameResult (try_walk_paths (λ x steps. some (delete_path x steps)) masked identity))
              (rw q at total) second in
          let coded = encode_lem (dumps w) (print_lem w s2) in
          (
            _,
            utf8 (dumps w),
            rw (e1, try_redact) (rw (e2) (rw coded refl)),
            coded,
            refl,
            refl,
            redact-sanitise sha256 v w area total,
          )
    ]
