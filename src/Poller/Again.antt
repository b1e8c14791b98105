-- ===== src/Poller/Again.antt =====
-- Which events the poller takes for new.
use topology_maps.Prelude.{
  ℕ, suc, ◌+◌, ◌≡◌, refl, ap, ◌∙◌, ◌⊎◌, inl, inr, Bool, true, false, ◌&&◌, filter_by, Option, none,
  some, List, [], ◌∷◌, ◌++◌, length, length-append, any, All, arith, Bool-cases,
}
use topology_maps.Text.{Text, text_eq_refl}
use topology_maps.Catalog.Events.{ChangeEvent}
use topology_maps.Store.Changes.{same_value, is_duplicate, has_ts, new_row, insert_change_event}
use topology_maps.Store.State.{
  ChangeRow, change_event_new, World, Env, Exec, ok, and_then, pure, ◌>>=◌,
}
use topology_maps.Scanner.{send}
use topology_maps.Scanner.Chunks.{silent, silent-send, IsQuiet, and_then-ok}
use topology_maps.Poller.{
  PollSummary, announce, store_events, build_jobs_from_events, built, pull_jobs, poll_once,
}

-- Every column of the UNIQUE constraint has a value.
abbrev pub IsKeyed : ChangeEvent → Type 0
IsKeyed e =
    ((t : Text) × (e.ts ≡ some t))
    × ((t : Text) × (e.network_id ≡ some t))
    × ((t : Text) × (e.label ≡ some t))
    × ((t : Text) × (e.old_value ≡ some t))
    × ((t : Text) × (e.new_value ≡ some t))

abbrev has_value : Option Text → Bool
has_value none = false
has_value (some t) = true

abbrev pub is_keyed : ChangeEvent → Bool
is_keyed e =
    has_value e.ts
    && (has_value e.network_id
        && (has_value e.label && (has_value e.old_value && has_value e.new_value)))

has_value-some : (o : Option Text) → has_value o ≡ true → (t : Text) × (o ≡ some t)
has_value-some none h = absurd (cc)
has_value-some (some t) h = (t, refl)

is_keyed-IsKeyed : (e : ChangeEvent) → is_keyed e ≡ true → IsKeyed e
is_keyed-IsKeyed e h = (
  has_value-some e.ts (ground arith),
  has_value-some e.network_id (ground arith),
  has_value-some e.label (ground arith),
  has_value-some e.old_value (ground arith),
  has_value-some e.new_value (ground arith),
)

module _ (env : Env) (org_id : Text) where
  -- The event is stored for the organisation.
  abbrev pub IsKnown : World → ChangeEvent → Type 0
  IsKnown w e = any (is_duplicate org_id e) w.change_events ≡ true

  same_value_refl : (o : Option Text) (t : Text) → o ≡ some t → same_value o o ≡ true
  unfolding same_value
  same_value_refl o t h = rw h (text_eq_refl t)

  insert_change_event-IsKnown :
      (e : ChangeEvent) (w : World) → IsKeyed e → IsKnown (insert_change_event env org_id e w).1 e
  unfolding insert_change_event is_duplicate has_ts
  insert_change_event-IsKnown e w ((t, p), (n, q), (l, r), (o, u), (v, x)) = ground (
    arith,
    text_eq_refl org_id,
    same_value_refl e.ts t p,
    same_value_refl e.network_id n q,
    same_value_refl e.label l r,
    same_value_refl e.old_value o u,
    same_value_refl e.new_value v x,
  )

  IsKnown-insert_change_event :
      (d e : ChangeEvent) (w : World)
      → IsKnown w d
      → IsKnown (insert_change_event env org_id e w).1 d
  unfolding insert_change_event
  IsKnown-insert_change_event d e w h = ground arith

  abbrev HasNull : ChangeEvent → Type 0
  HasNull e =
      (e.network_id ≡ none) ⊎ ((e.label ≡ none) ⊎ ((e.old_value ≡ none) ⊎ (e.new_value ≡ none)))

  distinct : (e : ChangeEvent) → HasNull e → (row : ChangeRow) → is_duplicate org_id e row ≡ false
  unfolding is_duplicate same_value
  distinct e h row = ground arith

  no_duplicate :
      (e : ChangeEvent)
      → HasNull e
      → (rows : List ChangeRow) → any (is_duplicate org_id e) rows ≡ false
  no_duplicate e h [] = refl
  no_duplicate e h (row ∷ rows) = ground (arith, distinct e h row, no_duplicate e h rows)

  -- An event whose network, label, old or new value is NULL is no duplicate of any row: whatever the
  -- table holds, the very same event included, it is inserted under the next id.
  pub insert_change_event-null :
      (e : ChangeEvent) (w : World)
      → has_ts e ≡ true
      → (e.network_id ≡ none) ⊎ ((e.label ≡ none) ⊎ ((e.old_value ≡ none) ⊎ (e.new_value ≡ none)))
      → insert_change_event env org_id e w ≡ (
        some w.next_event_id,
        record w {
          readings = suc w.readings;
          change_events = new_row w.next_event_id org_id e (env.clock w.readings) ∷ w.change_events;
          next_event_id = suc w.next_event_id;
        },
      )
  unfolding insert_change_event
  insert_change_event-null e w t h =
      rw (t, no_duplicate e h w.change_events, insert_change_event) refl

  IsKnown-same :
      (e : ChangeEvent) (w w' : World)
      → w'.change_events ≡ w.change_events
      → IsKnown w e
      → IsKnown w' e
  IsKnown-same e w w' q h = ap (any (is_duplicate org_id e)) q ∙ h

  -- What announcing an event does, under a receiver that refuses nothing.
  announce-ok :
      (e : ChangeEvent) (inserted : Option ℕ) (w : World)
      → IsQuiet env
      → (here : List (ChangeEvent × ℕ) × ℕ) × (w' : World) × (announce env org_id e inserted w
          ≡ (ok here, w'))
        × (silent w' ≡ silent w)
        × (length here.0 + here.1 ≡ 1)
  unfolding announce
  announce-ok e none w quiet = (([], 1), w, refl, refl, omega arith)
  announce-ok e (some id) w quiet =
      let finish : Unit {0} → Exec (List (ChangeEvent × ℕ) × ℕ) = λ _. pure ((e, id) ∷ [], 0) in
      (
        ((e, id) ∷ [], 0),
        (send env (change_event_new id e) w).1,
        and_then-ok (send env (change_event_new id e) w) finish tt
            (quiet (change_event_new id e) w),
        silent-send env (change_event_new id e) w,
        omega arith,
      )

  abbrev AllKnown : List ChangeEvent → World → Type 0
  AllKnown events w = All (IsKnown w) events

  -- With a receiver that refuses nothing, storing a batch returns, and counts each event once, as new or
  -- as a duplicate. What was stored stays stored, and each event of the batch in which every column of
  -- the UNIQUE constraint has a value is stored.
  pub store_events-IsKnown :
      (events : List ChangeEvent) (w : World)
      → IsQuiet env
      → (r : List (ChangeEvent × ℕ) × ℕ) × (w' : World) × (store_events env org_id events w
          ≡ (ok r, w'))
        × (length r.0 + r.1 ≡ length events)
        × ((d : ChangeEvent) → IsKnown w d → IsKnown w' d)
        × All (IsKnown w') (filter_by is_keyed events)
  unfolding store_events filter_by
  store_events-IsKnown [] w quiet = (([], 0), w, refl, omega arith, (λ d h. h), tt)
  store_events-IsKnown (e ∷ events) w quiet =
      let (inserted, w1) = insert_change_event env org_id e w in
      let (here, w2, e1, same, n1) = announce-ok e inserted w1 quiet in
      let (later, w3, e2, n2, keeps, known) = store_events-IsKnown events w2 quiet in
      let rows : w2.change_events ≡ w1.change_events = ap (λ x. x.change_events) same in
      let after : List (ChangeEvent × ℕ) × ℕ → Exec (List (ChangeEvent × ℕ) × ℕ) = λ here'.
        store_events env org_id events >>= λ later'.
        pure (here'.0 ++ later'.0, here'.1 + later'.1) in
      let finish : List (ChangeEvent × ℕ) × ℕ → Exec (List (ChangeEvent × ℕ) × ℕ) =
        λ later'. pure (here.0 ++ later'.0, here.1 + later'.1) in
      (
        (here.0 ++ later.0, here.1 + later.1),
        w3,
        ap (λ m. and_then m after) e1 ∙ ap (λ m. and_then m finish) e2,
        omega (arith, n1, n2, length-append here.0 later.0),
        (λ d h. keeps d (IsKnown-same d w1 w2 rows (IsKnown-insert_change_event d e w h))),
        (elim (Bool-cases (is_keyed e)) [
          | inl k ↦
              rw (k, filter_by)
                (
                  keeps e (
                      IsKnown-same e w1 w2 rows
                        (insert_change_event-IsKnown e w (is_keyed-IsKeyed e k))),
                  known,
                )
          | inr k ↦ rw (k, filter_by) known
        ]),
      )

  ticked : World → World
  ticked w = record w { readings = suc w.readings }

  insert_change_event-known :
      (e : ChangeEvent) (w : World)
      → IsKnown w e
      → insert_change_event env org_id e w ≡ (none, ticked w)
  unfolding insert_change_event ticked
  insert_change_event-known e w h = elim (Bool-cases (has_ts e)) [
    | inl t ↦ rw (t, h, insert_change_event) refl
    | inr t ↦ rw (t, insert_change_event) refl
  ]

  -- Nothing of the tables that the collector reads is changed, and nothing is requested.
  abbrev pub IsIdle : World → World → Type 0
  IsIdle w w' =
      (w'.change_events ≡ w.change_events)
      × (w'.observations ≡ w.observations)
      × (w'.requests ≡ w.requests)

  store_events-known :
      (events : List ChangeEvent) (w : World)
      → All (IsKnown w) events
      → (w' : World) × (store_events env org_id events w ≡ (ok ([], length events), w'))
        × IsIdle w w'
  unfolding store_events announce ticked
  store_events-known [] w h = (w, refl, (refl, refl, refl))
  store_events-known (e ∷ events) w h =
      let (w', q, (a, b, c)) = store_events-known events (ticked w) h.1 in
      let after : List (ChangeEvent × ℕ) × ℕ → Exec (List (ChangeEvent × ℕ) × ℕ) = λ here.
        store_events env org_id events >>= λ later. pure (here.0 ++ later.0, here.1 + later.1) in
      let finish : List (ChangeEvent × ℕ) × ℕ → Exec (List (ChangeEvent × ℕ) × ℕ) =
        λ later. pure (later.0, 1 + later.1) in
      let counted : 1 + length events ≡ suc (length events) = omega arith in
      (
        w',
        ap (λ m. and_then (announce env org_id e m.0 m.1) after) (insert_change_event-known e w h.0)
            ∙ ap (λ m. and_then m finish) q
            ∙ ap (λ n. (ok ([], n), w')) counted,
        (a, b, c),
      )

  -- A poll whose events are all stored already counts each as a duplicate, pulls nothing and changes
  -- nothing that the collector reads, whatever the receiver does.
  pub poll_once-IsKnown :
      (events : List ChangeEvent) (w : World)
      → All (IsKnown w) events
      → (w' : World) × (poll_once env org_id (ok events) w ≡ (
        ok (record {
          new_events = 0;
          duplicates = length events;
          successes = 0;
          skipped_unchanged = 0;
          failures = 0;
        }),
        w',
      ))
        × IsIdle w w'
  unfolding poll_once build_jobs_from_events built pull_jobs
  poll_once-IsKnown events w h =
      let (w', q, idle) = store_events-known events w h in
      let next : List (ChangeEvent × ℕ) × ℕ → Exec PollSummary = λ stored x.
        and_then (built env org_id (build_jobs_from_events org_id stored.0), x)
          (λ pairs. pull_jobs env org_id (length stored.0) stored.1 pairs) in
      (w', ap (λ m. and_then m next) q, idle)
