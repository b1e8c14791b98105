-- ===== src/Redactor/Redact.antt =====
-- `redact` as a whole: the paths of an area, one walk after another.
use topology_maps.Prelude.{
  ℕ, ◌≡◌, refl, subst, ◌⊎◌, inl, inr, ◌∙◌, ap, Bool, true, false, ◌&&◌, List, [], ◌∷◌, length, all,
  In, arith, Bool-cases,
}
use topology_maps.Text.{Text, text_eq, text_eq_iff, elem}
use topology_maps.Json.{Json, map_option}
use topology_maps.Hashing.{dumps, utf8}
use topology_maps.Redactor.{
  Redacted, extract_hot_columns, make_sentinel, mask_path, delete_path, walk_paths, sanitise,
  redact,
}
use topology_maps.Redactor.Path.{Step, Result, ok, err, ◌>>=◌, parse_path}
use topology_maps.Redactor.Catalog.{redaction_paths, normalization_paths, paths_for}
use topology_maps.Redactor.Position.{
  Place, get_at, matches, diverges, separate, separate_comm, separate-diverges,
}
use topology_maps.Redactor.Mask.{get_at-mask_path, get_at-mask_path_ne}

-- All the paths, parsed.
unfoldable pub parse_all : List Text → Result (List (List Step))
parse_all [] = ok []
parse_all (path ∷ paths) = do steps ← parse_path path; rest ← parse_all paths; ok (steps ∷ rest)

abbrev walk_all : (Json → List Step → Json) → Json → List (List Step) → Json
walk_all walk v [] = v
walk_all walk v (steps ∷ rest) = walk_all walk (walk v steps) rest

walk_paths-parse_all :
    (walk : Json → List Step → Json) (v : Json) (paths : List Text) (l : List (List Step))
    → parse_all paths ≡ ok l
    → walk_paths walk v paths ≡ ok (walk_all walk v l)
unfolding walk_paths parse_all
walk_paths-parse_all walk v [] l e = ground arith
walk_paths-parse_all walk v (path ∷ paths) [] e = ground arith
walk_paths-parse_all walk v (path ∷ paths) (steps ∷ rest) e =
    ground (arith, walk_paths-parse_all walk (walk v steps) paths rest)

abbrev separate_all : List (List Step) → Bool
separate_all [] = true
separate_all (steps ∷ rest) = all (separate steps) rest && separate_all rest

-- A path of the list is among the parsed paths.
In-parse_all :
    (path : Text) (steps : List Step) (paths : List Text) (l : List (List Step))
    → elem path paths ≡ true
    → parse_path path ≡ ok steps
    → parse_all paths ≡ ok l
    → In steps l
unfolding elem parse_all
In-parse_all path steps [] l m e h = cc
In-parse_all path steps (other ∷ paths) [] m e h = ground arith
In-parse_all path steps (other ∷ paths) (first ∷ rest) m e h =
    elim (Bool-cases (text_eq other path)) [
      | inl t ↦ inl (ground (arith, text_eq_iff other path))
      | inr f ↦ inr (In-parse_all path steps paths rest (ground arith) e (ground arith))
    ]

all-separate-In :
    (first steps : List Step) (l : List (List Step))
    → all (separate first) l ≡ true
    → In steps l
    → separate first steps ≡ true
all-separate-In first steps [] h m = absurd m
all-separate-In first steps (other ∷ l) h (inl e) = rw e (ground arith)
all-separate-In first steps (other ∷ l) h (inr m) = all-separate-In first steps l (ground arith) m

module _ (sha256 : List ℕ → Text) where
  get_at-walk_all_ne :
      (l : List (List Step)) (ps : List Place) (v : Json)
      → all (λ steps. diverges steps ps) l ≡ true
      → get_at ps (walk_all (mask_path sha256) v l) ≡ get_at ps v
  get_at-walk_all_ne [] ps v h = refl
  get_at-walk_all_ne (steps ∷ l) ps v h =
      get_at-walk_all_ne l ps (mask_path sha256 v steps) (ground arith)
      ∙ get_at-mask_path_ne sha256 steps ps v (ground arith)

  all-diverges :
      (steps : List Step) (l : List (List Step)) (ps : List Place)
      → matches steps ps ≡ true
      → all (separate steps) l ≡ true
      → all (λ other. diverges other ps) l ≡ true
  all-diverges steps [] ps m h = refl
  all-diverges steps (other ∷ l) ps m h =
      ground (arith, separate-diverges steps other ps, all-diverges steps l ps)

  -- After all the walks, what an addressed position holds is the sentinel of what it held before
  -- the first, since no other path comes near it.
  get_at-walk_all :
      (s : Step) (steps : List Step) (l : List (List Step)) (ps : List Place) (v : Json)
      → separate_all l ≡ true
      → In (s ∷ steps) l
      → matches (s ∷ steps) ps ≡ true
      → get_at ps (walk_all (mask_path sha256) v l)
        ≡ map_option (make_sentinel sha256) (get_at ps v)
  get_at-walk_all s steps [] ps v h m k = absurd m
  get_at-walk_all s steps (first ∷ l) ps v h (inl e) k = rw (← e) (
      get_at-walk_all_ne l ps (mask_path sha256 v (s ∷ steps))
        (all-diverges (s ∷ steps) l ps k (rw e (ground arith)))
      ∙ get_at-mask_path sha256 s steps ps v k)
  get_at-walk_all s steps (first ∷ l) ps v h (inr m) k =
      get_at-walk_all s steps l ps (mask_path sha256 v first) (ground arith) m k
      ∙ ap (map_option (make_sentinel sha256)) (
          get_at-mask_path_ne sha256 first ps v (
            separate-diverges (s ∷ steps) first ps
              (separate_comm (s ∷ steps) first
                ∙ all-separate-In first (s ∷ steps) l (ground arith) m)
              k))

-- What the two tables are checked for, entry by entry.
is_parsed : Text × List Text → Bool
is_parsed (area, paths) = elim (parse_all paths) [ ok l ↦ true | err e ↦ false ]

is_masked_only : Text × List Text → Bool
is_masked_only (area, paths) = elim (parse_all paths) [
  | ok l ↦ separate_all l && elim (paths_for area normalization_paths) [ [] ↦ true | p ∷ r ↦ false ]
  | err e ↦ false
]

all-normalization_paths : all is_parsed normalization_paths ≡ true
unfolding normalization_paths is_parsed parse_all parse_path
all-normalization_paths = refl

all-redaction_paths : all is_masked_only redaction_paths ≡ true
unfolding redaction_paths normalization_paths is_masked_only parse_all parse_path separate paths_for
all-redaction_paths = refl

-- What holds of the empty list of paths and of every entry of a table holds of what is looked up.
paths_for_all :
    (P : Text → List Text → Type 0) (check : Text × List Text → Bool)
    → ((area : Text) → P area [])
    → ((area : Text) (paths : List Text) → check (area, paths) ≡ true → P area paths)
    → (area : Text) (table : List (Text × List Text)) → all check table ≡ true
    → P area (paths_for area table)
unfolding paths_for
paths_for_all P check none_listed listed area [] h = none_listed area
paths_for_all P check none_listed listed area ((a, paths) ∷ table) h =
    elim (Bool-cases (text_eq a area)) [
      | inl t ↦
          rw t (subst (λ x. P x paths) ((text_eq_iff a area).0 t) (listed a paths (ground arith)))
      | inr f ↦ rw f (paths_for_all P check none_listed listed area table (ground arith))
    ]

abbrev Parses : Text → List Text → Type 0
Parses area paths = (l : List (List Step)) × (parse_all paths ≡ ok l)

abbrev MasksOnly : Text → List Text → Type 0
MasksOnly area paths =
    (l : List (List Step)) × (parse_all paths ≡ ok l)
    × (separate_all l ≡ true)
    × ((paths ≡ []) ⊎ (paths_for area normalization_paths ≡ []))

is_parsed→Parses :
    (area : Text) (paths : List Text) → is_parsed (area, paths) ≡ true → Parses area paths
unfolding is_parsed
is_parsed→Parses area paths h = ground arith

is_masked_only→MasksOnly :
    (area : Text) (paths : List Text) → is_masked_only (area, paths) ≡ true → MasksOnly area paths
unfolding is_masked_only
is_masked_only→MasksOnly area paths h = ground arith

normalization-Parses : (area : Text) → Parses area (paths_for area normalization_paths)
unfolding parse_all
normalization-Parses area =
    paths_for_all Parses is_parsed (λ _. ([], refl)) is_parsed→Parses area normalization_paths
      all-normalization_paths

redaction-MasksOnly : (area : Text) → MasksOnly area (paths_for area redaction_paths)
unfolding parse_all
redaction-MasksOnly area =
    paths_for_all MasksOnly is_masked_only (λ _. ([], refl, refl, inl refl))
      is_masked_only→MasksOnly area redaction_paths all-redaction_paths

none_normalized :
    (path : Text) (paths others : List Text)
    → elem path paths ≡ true
    → (paths ≡ []) ⊎ (others ≡ [])
    → others ≡ []
unfolding elem
none_normalized path [] others m h = cc
none_normalized path (p ∷ paths) others m h = ground arith

module _ (sha256 : List ℕ → Text) where
  pub redact-sanitise :
      (v w : Json) (area : Text)
      → sanitise sha256 v area ≡ ok w
      → redact sha256 v area
        ≡ ok (record {
          canonical = dumps w;
          sha256_hex = sha256 (utf8 (dumps w));
          byte_size = length (utf8 (dumps w));
          hot_columns = extract_hot_columns v;
        })
  unfolding redact
  redact-sanitise v w area e = rw e

  pub sanitise_total : (v : Json) (area : Text) → (w : Json) × (sanitise sha256 v area ≡ ok w)
  unfolding sanitise
  sanitise_total v area =
      let (l, e, _, _) = redaction-MasksOnly area in
      let (n, f) = normalization-Parses area in
      let masked = walk_all (mask_path sha256) v l in
      (
        walk_all delete_path masked n,
        rw (walk_paths-parse_all (mask_path sha256) v _ l e)
            (walk_paths-parse_all delete_path masked _ n f),
      )

  -- For every path that the catalog lists for an area and every position of the document that the
  -- path leads to, the text that `redact` returns is the canonical form of a document that holds
  -- there the sentinel of the secret, and nothing where the given document has nothing.
  pub redact_masks :
      (v : Json) (area path : Text) (s : Step) (steps : List Step) (ps : List Place)
      → elem path (paths_for area redaction_paths) ≡ true
      → parse_path path ≡ ok (s ∷ steps)
      → matches (s ∷ steps) ps ≡ true
      → (w : Json) × (r : Redacted) × (redact sha256 v area ≡ ok r)
        × (r.canonical ≡ dumps w)
        × (get_at ps w ≡ map_option (make_sentinel sha256) (get_at ps v))
  unfolding sanitise
  redact_masks v area path s steps ps m e k =
      let (l, parsed, apart, alone) = redaction-MasksOnly area in
      let masked = walk_all (mask_path sha256) v l in
      let among = In-parse_all path (s ∷ steps) _ l m e parsed in
      let normal : paths_for area normalization_paths ≡ [] = none_normalized path _ _ m alone in
      let w : sanitise sha256 v area ≡ ok masked =
        rw (walk_paths-parse_all (mask_path sha256) v _ l parsed, normal) in
      (
        masked,
        _,
        redact-sanitise v masked area w,
        refl,
        get_at-walk_all sha256 s steps l ps v apart among k,
      )

  -- For every document and area each path of both tables parses, so that without the encoder's
  -- exception `redact` returns; the digest and the size are those of the text that it returns.
  pub redact_total :
      (v : Json) (area : Text)
      → (r : Redacted) × (redact sha256 v area ≡ ok r)
        × (r.sha256_hex ≡ sha256 (utf8 r.canonical))
        × (r.byte_size ≡ length (utf8 r.canonical))
  unfolding redact
  redact_total v area =
      let (w, e) = sanitise_total v area in (_, redact-sanitise v w area e, refl, refl)
