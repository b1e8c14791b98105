-- ===== src/Ingest/Rebuild.antt =====
-- What `main` sends: the batches of a list, and the order of deletions and creations.
use topology_maps.Prelude.{
  ℕ, zero, suc, ◌+◌, ◌≤◌, ◌<◌, ◌≡◌, refl, sym, ◌≢◌, ◌∙◌, ap, inl, inr, Bool, not, Option, none,
  some, List, [], ◌∷◌, ◌++◌, length, take, drop, map, All, append_assoc, append-nil, arith, ltb,
  Bool-cases, Option-cases,
}
use topology_maps.Text.{Text}
use topology_maps.Ingest.Graph.{Rel, Lookups, Snapshot}
use topology_maps.Ingest.Generate.{generate_relationships}
use topology_maps.Ingest.Send.{
  chunks_from, chunked, batch_size, batch_mutation, batch_delete_mutation, Log, NerdGraph,
  errors_from, send_batch, send_batches, delete_lists, Exit, code, raised, send_deletes, create_all,
  rebuild,
}

abbrev pub concat : List (List Rel) → List Rel
concat [] = []
concat (b ∷ bs) = b ++ concat bs

take-append-drop : (n : ℕ) (rels : List Rel) → take n rels ++ drop n rels ≡ rels
take-append-drop zero rels = refl
take-append-drop (suc n) [] = refl
take-append-drop (suc n) (r ∷ rels) = ap (λ x. r ∷ x) (take-append-drop n rels)

drop-drop : (i n : ℕ) (rels : List Rel) → drop n (drop i rels) ≡ drop (i + n) rels
drop-drop zero n rels = rw (let e : 0 + n ≡ n = omega arith in e) refl
drop-drop (suc i) zero [] = rw (let e : suc i + 0 ≡ suc i = omega arith in e) refl
drop-drop (suc i) (suc n) [] = rw (let e : suc i + suc n ≡ suc (i + suc n) = omega arith in e) refl
drop-drop (suc i) n (r ∷ rels) =
    rw (let e : suc i + n ≡ suc (i + n) = omega arith in e) (drop-drop i n rels)

drop_past : (i : ℕ) (rels : List Rel) → length rels ≤ i → drop i rels ≡ []
drop_past zero [] h = refl
drop_past zero (r ∷ rels) h = absurd (omega arith)
drop_past (suc i) [] h = refl
drop_past (suc i) (r ∷ rels) h = drop_past i rels (omega arith)

take-le : (n : ℕ) (rels : List Rel) → length (take n rels) ≤ n
take-le zero rels = omega arith
take-le (suc n) [] = omega arith
take-le (suc n) (r ∷ rels) = omega (arith, take-le n rels)

module _ (size : ℕ) (positive : 0 < size) (rels : List Rel) where
  concat-chunks_from :
      (fuel i : ℕ) → length rels ≤ i + fuel → concat (chunks_from fuel i size rels) ≡ drop i rels
  unfolding chunks_from
  concat-chunks_from zero i h = sym (drop_past i rels (omega arith))
  concat-chunks_from (suc fuel) i h = elim (Bool-cases (ltb i (length rels))) [
    | inl e ↦
        rw (e, concat-chunks_from fuel (i + size) (omega arith), ← drop-drop i size rels)
          (take-append-drop size (drop i rels))
    | inr e ↦ rw e (sym (drop_past i rels (ground arith)))
  ]

  chunks_from_sizes : (fuel i : ℕ) → All (λ b. length b ≤ size) (chunks_from fuel i size rels)
  unfolding chunks_from
  chunks_from_sizes zero i = tt
  chunks_from_sizes (suc fuel) i = elim (Bool-cases (ltb i (length rels))) [
    | inl e ↦ rw e (take-le size (drop i rels), chunks_from_sizes fuel (i + size))
    | inr e ↦ rw e tt
  ]

  -- Batches of a positive size hold the relationships of the list, in order, and none is larger.
  pub concat-chunked :
      (concat (chunked rels size) ≡ rels) × All (λ b. length b ≤ size) (chunked rels size)
  unfolding chunked
  concat-chunked =
      (concat-chunks_from (length rels) 0 (omega arith), chunks_from_sizes (length rels) 0)

-- The mutations that delete the lists, and those that create what was generated.
abbrev pub delete_plan : List (List Rel) → List Text
delete_plan [] = []
delete_plan (rels ∷ lists) =
    map batch_delete_mutation (chunked rels batch_size) ++ delete_plan lists

-- The four lists of deletions, in order.
abbrev pub deletions : Snapshot → Lookups → Bool → List (List Rel)
deletions s m no_vlans =
    let lists = delete_lists s m no_vlans in lists.0 ∷ lists.1 ∷ lists.2 ∷ lists.3 ∷ []

abbrev pub create_plan : Option (List Rel) → List Text
create_plan none = []
create_plan (some rels) = map batch_mutation (chunked rels batch_size)

module _ (api : NerdGraph) where
  -- The API answers every mutation, with or without errors.
  abbrev pub Answers : Type 0
  Answers = (n : ℕ) (t : Text) → api.answer n t ≢ none

  -- What was sent and what was not make the plan; all of it was sent where a result was returned.
  abbrev Sends : List Text → Log → Option ℕ × Log → Type 0
  Sends plan log r =
      (rest : List Text) × (r.1 ++ rest ≡ log ++ plan) × ((n : ℕ) → r.0 ≡ some n → rest ≡ [])

  send_batches-Sends :
      (mutation : List Rel → Text) (bs : List (List Rel)) (errors : ℕ) (log : Log)
      → Sends (map mutation bs) log (send_batches api mutation bs errors log)
  unfolding send_batches send_batch
  send_batches-Sends mutation [] errors log = ([], refl, λ n e. refl)
  send_batches-Sends mutation (b ∷ bs) errors log =
      let next : (log ++ mutation b ∷ []) ++ map mutation bs ≡ log ++ mutation b ∷ map mutation bs =
        append_assoc log (mutation b ∷ []) (map mutation bs) in
      elim (Option-cases (api.answer (length log) (mutation b))) [
        | inl e ↦ rw (e, send_batches) (map mutation bs, next, λ n q. cc (q))
        | inr (messages, e) ↦
            let (rest, p, q) =
              send_batches-Sends mutation bs (errors + length (errors_from 0 b messages))
                (log ++ mutation b ∷ []) in
            rw (e, send_batches) (rest, p ∙ next, q)
      ]

  -- An API that answers every mutation makes a loop over batches return.
  send_batches-Answers :
      Answers
      → (mutation : List Rel → Text) (bs : List (List Rel)) (errors : ℕ) (log : Log)
      → (n : ℕ) × ((send_batches api mutation bs errors log).0 ≡ some n)
  unfolding send_batches send_batch
  send_batches-Answers answers mutation [] errors log = (errors, refl)
  send_batches-Answers answers mutation (b ∷ bs) errors log =
      elim (Option-cases (api.answer (length log) (mutation b))) [
        | inl e ↦ absurd (answers (length log) (mutation b) e)
        | inr (messages, e) ↦
            rw (e, send_batches)
              (send_batches-Answers answers mutation bs (errors + length (errors_from 0 b messages))
                (log ++ mutation b ∷ []))
      ]

  send_deletes-Sends :
      (lists : List (List Rel)) (errors : ℕ) (log : Log)
      → Sends (delete_plan lists) log (send_deletes api lists errors log)
  unfolding send_deletes
  send_deletes-Sends [] errors log = ([], refl, λ n e. refl)
  send_deletes-Sends (rels ∷ lists) errors log =
      let now = map batch_delete_mutation (chunked rels batch_size) in
      let first = send_batches api batch_delete_mutation (chunked rels batch_size) errors log in
      let (rest, p, q) =
        send_batches-Sends batch_delete_mutation (chunked rels batch_size) errors log in
      elim (Option-cases first.0) [
        | inl e ↦
            rw (e, send_deletes)
              (
                rest ++ delete_plan lists,
                sym (append_assoc first.1 rest (delete_plan lists))
                    ∙ ap (λ x. x ++ delete_plan lists) p
                    ∙ append_assoc log now (delete_plan lists),
                λ n k. cc (k),
              )
        | inr (errors', e) ↦
            let sent : first.1 ≡ log ++ now =
              sym (append-nil first.1) ∙ ap (λ x. first.1 ++ x) (sym (q errors' e)) ∙ p in
            let (left, p', q') = send_deletes-Sends lists errors' first.1 in
            rw (e, send_deletes)
              (
                left,
                p'
                    ∙ ap (λ x. x ++ delete_plan lists) sent
                    ∙ append_assoc log now (delete_plan lists),
                q',
              )
      ]

  send_deletes-Answers :
      Answers
      → (lists : List (List Rel)) (errors : ℕ) (log : Log)
      → (n : ℕ) × ((send_deletes api lists errors log).0 ≡ some n)
  unfolding send_deletes
  send_deletes-Answers answers [] errors log = (errors, refl)
  send_deletes-Answers answers (rels ∷ lists) errors log =
      let (n, e) =
        send_batches-Answers answers batch_delete_mutation (chunked rels batch_size) errors log in
      rw (e, send_deletes)
        (send_deletes-Answers answers lists n
          (send_batches api batch_delete_mutation (chunked rels batch_size) errors log).1)

  -- What was sent and what was not make the plan; all of it was sent where an exit code was returned.
  abbrev pub Runs : List Text → Log → Exit × Log → Type 0
  Runs plan log r =
      (rest : List Text) × (r.1 ++ rest ≡ log ++ plan) × ((n : ℕ) → r.0 ≡ code n → rest ≡ [])

  create_all-Runs :
      (rels : Option (List Rel)) (errors : ℕ) (log : Log)
      → Runs (create_plan rels) log (create_all api rels errors log)
  unfolding create_all chunked chunks_from
  create_all-Runs none errors log = ([], refl, λ n e. refl)
  create_all-Runs (some []) errors log = ([], refl, λ n e. refl)
  create_all-Runs (some (r ∷ rels)) errors log =
      let batches = chunked (r ∷ rels) batch_size in
      let (rest, p, q) = send_batches-Sends batch_mutation batches 0 log in
      elim (Option-cases (send_batches api batch_mutation batches 0 log).0) [
        | inl e ↦ rw (e, create_all) (rest, p, λ n k. absurd (ground arith))
        | inr (n, e) ↦ rw (e, create_all) (rest, p, λ k h. q n e)
      ]

  module _ (s : Snapshot) (m : Lookups) (no_vlans : Bool) (log : Log) where
    -- Whatever the API answers, the mutations sent are a prefix of the deletions' batches, list by
    -- list, followed by those of the relationships generated; if the program returns an exit code,
    -- all of them were sent.
    pub rebuild-Runs :
        Runs
          (delete_plan (deletions s m no_vlans)
            ++ create_plan (generate_relationships s m (not no_vlans)))
          log
          (rebuild api s m no_vlans log)
    unfolding rebuild
    rebuild-Runs =
        let creates = create_plan (generate_relationships s m (not no_vlans)) in
        let (rest, p, q) = send_deletes-Sends (deletions s m no_vlans) 0 log in
        let first = send_deletes api (deletions s m no_vlans) 0 log in
        elim (Option-cases first.0) [
          | inl e ↦
              rw (e, rebuild)
                (
                  rest ++ creates,
                  sym (append_assoc first.1 rest creates)
                      ∙ ap (λ x. x ++ creates) p
                      ∙ append_assoc log (delete_plan (deletions s m no_vlans)) creates,
                  λ n k. cc (k),
                )
          | inr (errors, e) ↦
              let sent : first.1 ≡ log ++ delete_plan (deletions s m no_vlans) =
                sym (append-nil first.1) ∙ ap (λ x. first.1 ++ x) (sym (q errors e)) ∙ p in
              let (left, p', q') =
                create_all-Runs (generate_relationships s m (not no_vlans)) errors first.1 in
              rw (e, rebuild)
                (
                  left,
                  p'
                      ∙ ap (λ x. x ++ creates) sent
                      ∙ append_assoc log (delete_plan (deletions s m no_vlans)) creates,
                  q',
                )
        ]

    -- Where the relationships cannot be generated and the API answers, the program raises after it
    -- has deleted everything, and creates nothing.
    pub rebuild_deleted :
        Answers
        → generate_relationships s m (not no_vlans) ≡ none
        → rebuild api s m no_vlans log ≡ (raised, log ++ delete_plan (deletions s m no_vlans))
    unfolding rebuild create_all
    rebuild_deleted answers none_made =
        let (n, e) = send_deletes-Answers answers (deletions s m no_vlans) 0 log in
        let (rest, p, q) = send_deletes-Sends (deletions s m no_vlans) 0 log in
        let first = send_deletes api (deletions s m no_vlans) 0 log in
        let sent : first.1 ≡ log ++ delete_plan (deletions s m no_vlans) =
          sym (append-nil first.1) ∙ ap (λ x. first.1 ++ x) (sym (q n e)) ∙ p in
        rw (e, none_made, rebuild) (ap (λ x. (raised, x)) sent)
