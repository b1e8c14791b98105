-- ===== src/Store/History/Newest.antt =====
-- The rows of a history: which they are, and in which order.
use topology_maps.Prelude.{
  ℕ, zero, suc, ◌≤◌, ◌≡◌, refl, sym, ap, ◌∙◌, ◌⊎◌, inl, inr, Bool, true, false, List, [], ◌∷◌,
  length, take, filter_by, In, arith, subst, Bool-cases,
}
use topology_maps.Store.State.{Observation, World}
use topology_maps.Store.History.{
  insert_desc, sort_desc, HistoryQuery, history_matches, is_older, get_observation_history,
}
use topology_maps.Store.History.Where.{IsAsked, history_matches-IsAsked}

-- No row is older than one that comes after it.
abbrev pub Descending : List Observation → Type 0
Descending [] = Unit
Descending (o ∷ os) = ((p : Observation) → In p os → p.observed_at ≤ o.observed_at) × Descending os

module _ (ties : Observation → Observation → Bool) where
  abbrev older : Observation → Observation → Bool
  older = is_older ties

  insert_desc-later :
      (y z : Observation) (zs : List Observation)
      → older y z ≡ true
      → insert_desc older y (z ∷ zs) ≡ z ∷ insert_desc older y zs
  unfolding insert_desc
  insert_desc-later y z zs t = rw (t, insert_desc) refl

  insert_desc-here :
      (y z : Observation) (zs : List Observation)
      → older y z ≡ false
      → insert_desc older y (z ∷ zs) ≡ y ∷ (z ∷ zs)
  unfolding insert_desc
  insert_desc-here y z zs t = rw (t, insert_desc) refl

  In-insert_desc :
      (x y : Observation) (ys : List Observation)
      → In x (insert_desc older y ys)
      → (x ≡ y) ⊎ In x ys
  unfolding insert_desc
  In-insert_desc x y [] h = h
  In-insert_desc x y (z ∷ zs) h = elim (Bool-cases (older y z)) [
    | inl t ↦ elim (subst (In x) (insert_desc-later y z zs t) h) [
      | inl e ↦ inr (inl e)
      | inr m ↦ elim (In-insert_desc x y zs m) [ inl e ↦ inl e | inr k ↦ inr (inr k) ]
    ]
    | inr t ↦ subst (In x) (insert_desc-here y z zs t) h
  ]

  insert_desc-In :
      (x y : Observation) (ys : List Observation)
      → (x ≡ y) ⊎ In x ys
      → In x (insert_desc older y ys)
  unfolding insert_desc
  insert_desc-In x y [] h = h
  insert_desc-In x y (z ∷ zs) h = elim (Bool-cases (older y z)) [
    | inl t ↦
        let there : In x (z ∷ insert_desc older y zs) = elim h [
          | inl e ↦ inr (insert_desc-In x y zs (inl e))
          | inr m ↦ elim m [ inl e ↦ inl e | inr k ↦ inr (insert_desc-In x y zs (inr k)) ]
        ] in
        subst (In x) (sym (insert_desc-later y z zs t)) there
    | inr t ↦ subst (In x) (sym (insert_desc-here y z zs t)) h
  ]

  Descending-insert_desc :
      (y : Observation) (ys : List Observation)
      → Descending ys
      → Descending (insert_desc older y ys)
  unfolding insert_desc
  Descending-insert_desc y [] d = ((λ p m. absurd m), tt)
  Descending-insert_desc y (z ∷ zs) d = elim (Bool-cases (older y z)) [
    | inl t ↦
        let below : (p : Observation)
            → In p (insert_desc older y zs)
            → p.observed_at ≤ z.observed_at =
          λ p m. elim (In-insert_desc p y zs m) [
            | inl e ↦ subst (λ o. o.observed_at ≤ z.observed_at) (sym e) (ground arith)
            | inr k ↦ d.0 p k
          ] in
        subst Descending (sym (insert_desc-later y z zs t)) (below, Descending-insert_desc y zs d.1)
    | inr t ↦
        let top : z.observed_at ≤ y.observed_at = ground arith in
        let below : (p : Observation) → In p (z ∷ zs) → p.observed_at ≤ y.observed_at = λ p m.
          elim m [
            | inl e ↦ subst (λ o. o.observed_at ≤ y.observed_at) (sym e) top
            | inr k ↦ omega (arith, d.0 p k, top)
          ] in
        subst Descending (sym (insert_desc-here y z zs t)) (below, d)
  ]

  Descending-sort_desc : (os : List Observation) → Descending (sort_desc older os)
  unfolding sort_desc
  Descending-sort_desc [] = tt
  Descending-sort_desc (o ∷ os) =
      Descending-insert_desc o (sort_desc older os) (Descending-sort_desc os)

  In-sort_desc : (x : Observation) (os : List Observation) → In x (sort_desc older os) → In x os
  unfolding sort_desc
  In-sort_desc x [] h = h
  In-sort_desc x (o ∷ os) h = elim (In-insert_desc x o (sort_desc older os) h) [
    | inl e ↦ inl e
    | inr m ↦ inr (In-sort_desc x os m)
  ]

  sort_desc-In : (x : Observation) (os : List Observation) → In x os → In x (sort_desc older os)
  unfolding sort_desc
  sort_desc-In x [] h = h
  sort_desc-In x (o ∷ os) (inl e) = insert_desc-In x o (sort_desc older os) (inl e)
  sort_desc-In x (o ∷ os) (inr m) =
      insert_desc-In x o (sort_desc older os) (inr (sort_desc-In x os m))

In-take : (x : Observation) (n : ℕ) (os : List Observation) → In x (take n os) → In x os
In-take x zero os h = absurd h
In-take x (suc n) [] h = h
In-take x (suc n) (o ∷ os) (inl e) = inl e
In-take x (suc n) (o ∷ os) (inr m) = inr (In-take x n os m)

Descending-take : (n : ℕ) (os : List Observation) → Descending os → Descending (take n os)
Descending-take zero os d = tt
Descending-take (suc n) [] d = tt
Descending-take (suc n) (o ∷ os) d = ((λ p m. d.0 p (In-take p n os m)), Descending-take n os d.1)

-- A full page that leaves the row out holds no older one.
abbrev pub IsLeftOut : Observation → ℕ → List Observation → Type 0
IsLeftOut x n page =
    (length page ≡ n) × ((p : Observation) → In p page → x.observed_at ≤ p.observed_at)

take-cases :
    (x : Observation) (n : ℕ) (os : List Observation)
    → Descending os
    → In x os
    → In x (take n os) ⊎ IsLeftOut x n (take n os)
take-cases x zero os d h = inr (refl, λ p m. absurd m)
take-cases x (suc n) [] d h = absurd h
take-cases x (suc n) (o ∷ os) d (inl e) = inl (inl e)
take-cases x (suc n) (o ∷ os) d (inr m) = elim (take-cases x n os d.1 m) [
  | inl k ↦ inl (inr k)
  | inr (full, above) ↦
      let top : x.observed_at ≤ o.observed_at = d.0 x m in
      inr (
        ap suc full,
        λ p k. elim k [
          | inl e ↦ subst (λ q. x.observed_at ≤ q.observed_at) (sym e) top
          | inr j ↦ above p j
        ],
      )
]

filter_by-keep :
    (p : Observation → Bool) (o : Observation) (os : List Observation)
    → p o ≡ true
    → filter_by p (o ∷ os) ≡ o ∷ filter_by p os
unfolding filter_by
filter_by-keep p o os t = rw (t, filter_by) refl

filter_by-drop :
    (p : Observation → Bool) (o : Observation) (os : List Observation)
    → p o ≡ false
    → filter_by p (o ∷ os) ≡ filter_by p os
unfolding filter_by
filter_by-drop p o os t = rw (t, filter_by) refl

In-filter_by :
    (p : Observation → Bool) (x : Observation) (os : List Observation)
    → In x (filter_by p os)
    → In x os × (p x ≡ true)
unfolding filter_by
In-filter_by p x [] h = absurd h
In-filter_by p x (o ∷ os) h = elim (Bool-cases (p o)) [
  | inl t ↦ elim (subst (In x) (filter_by-keep p o os t) h) [
    | inl e ↦ (inl e, ap p e ∙ t)
    | inr m ↦ let (i, q) = In-filter_by p x os m in (inr i, q)
  ]
  | inr t ↦
      let (i, q) = In-filter_by p x os (subst (In x) (filter_by-drop p o os t) h) in (inr i, q)
]

filter_by-In :
    (p : Observation → Bool) (x : Observation) (os : List Observation)
    → In x os
    → p x ≡ true
    → In x (filter_by p os)
unfolding filter_by
filter_by-In p x [] h t = absurd h
filter_by-In p x (o ∷ os) (inl e) t =
    subst (In x) (sym (filter_by-keep p o os (ap p (sym e) ∙ t))) (inl e)
filter_by-In p x (o ∷ os) (inr m) t = elim (Bool-cases (p o)) [
  | inl k ↦ subst (In x) (sym (filter_by-keep p o os k)) (inr (filter_by-In p x os m t))
  | inr k ↦ subst (In x) (sym (filter_by-drop p o os k)) (filter_by-In p x os m t)
]

length-take_le : (n : ℕ) (os : List Observation) → length (take n os) ≤ n
length-take_le zero os = omega arith
length-take_le (suc n) [] = omega arith
length-take_le (suc n) (o ∷ os) = omega (arith, length-take_le n os)

-- However SQLite orders rows of one time, the history has at most as many rows as the limit, the
-- newest first. Each is a row of the table of the organisation, the entity type and the entity, of
-- the area where one is given, with the sub key where an area or a sub key is given, and from before
-- the time where one is given. Such a row that is not in it is left out by the limit alone: the
-- history has as many rows as the limit, and none is older.
pub get_observation_history_lem :
    (ties : Observation → Observation → Bool) (q : HistoryQuery) (w : World)
    → let history = get_observation_history ties q w in
      (length history ≤ q.limit)
      × Descending history
      × ((o : Observation) → In o history → In o w.observations × IsAsked q o)
      × ((o : Observation)
          → In o w.observations × IsAsked q o
          → In o history ⊎ IsLeftOut o q.limit history)
unfolding get_observation_history
get_observation_history_lem ties q w =
    let asked = filter_by (history_matches q) w.observations in
    let sorted = sort_desc (is_older ties) asked in
    (
      length-take_le q.limit sorted,
      Descending-take q.limit sorted (Descending-sort_desc ties asked),
      (λ o m.
          let (i, h) =
            In-filter_by (history_matches q) o w.observations
              (In-sort_desc ties o asked (In-take o q.limit sorted m)) in
          (i, (history_matches-IsAsked q o).0 h)),
      (λ o m. take-cases o q.limit sorted (Descending-sort_desc ties asked) (
          sort_desc-In ties o asked (
            filter_by-In (history_matches q) o w.observations m.0
              ((history_matches-IsAsked q o).1 m.1)))),
    )
