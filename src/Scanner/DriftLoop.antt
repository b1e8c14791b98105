-- ===== src/Scanner/DriftLoop.antt =====
-- The loop of an anti-drift sweep over all jobs.
use topology_maps.Prelude.{
  ℕ, zero, suc, ◌+◌, ◌%◌, ◌≡◌, ◌≢◌, refl, sym, subst, ap, ◌∙◌, inl, inr, Bool, true, some, List, [],
  ◌∷◌, get_elem?, arith, In, Bool-cases, ◌==◌,
}
use topology_maps.Text.{Text}
use topology_maps.Json.{Json}
use topology_maps.Catalog.Spec.{Key, Job}
use topology_maps.Redactor.{Redacted, redact}
use topology_maps.Redactor.Path
use topology_maps.Redactor.Redact.{redact_total}
use topology_maps.Store.State.{
  Observation, sweep_progress, World, Env, Exec, Result, ok, raised, and_then, pure, IsRising,
}
use topology_maps.Store.Integrity.{IsSound}
use topology_maps.Puller.{fetch_one}
use topology_maps.Puller.Coalesce.{absent, absent-cons, DistinctKeys}
use topology_maps.Puller.Pull.{answer, latest_for}
use topology_maps.Store.{new_observation}
use topology_maps.Scanner.{
  drift_source, store_drift, lift_redact, drift_answered, drift_progress, drift_fetched, each_drift,
}
use topology_maps.Scanner.Chunks.{silent, silent-send, IsQuiet, and_then-ok}
use topology_maps.Scanner.Drift.{event_for, IsRecorded, Drifted, Round, store_drift-Round}

module _ (env : Env) (org_id : Text) (id : ℕ) where
  abbrev Step : Job → Result Json → ℕ × ℕ → ℕ × ℕ → World → World → Type 0
  Step = Round env org_id id

  pub IsRecorded-after :
      (job : Job) (fetched : Result Json) (w w1 w2 : World)
      → ((o : Observation) → In o w1.observations → In o w2.observations)
      → IsRecorded env org_id id job fetched w w1
      → IsRecorded env org_id id job fetched w w2
  IsRecorded-after job (raised e) w w1 w2 k h = tt
  IsRecorded-after job (ok raw) w w1 w2 k (r, e, t, i) = (r, e, t, k _ i)

  to_silent :
      (job : Job) (fetched : Result Json) (c c' : ℕ × ℕ) (w w' : World)
      → Step job fetched c c' w w'
      → Step job fetched c c' w (silent w')
  to_silent job fetched c c' w w' s = record {
    sound = record { addressed = s.sound.addressed; backed = s.sound.backed; past = s.sound.past };
    requested = s.requested;
    counted = s.counted;
    rows = s.rows;
    kept = s.kept;
    recorded = IsRecorded-after job fetched w w' (silent w') (λ _ h. h) s.recorded;
    others = s.others;
  }

  of_silent :
      (job : Job) (fetched : Result Json) (c c' : ℕ × ℕ) (w w' : World)
      → Step job fetched c c' w (silent w')
      → Step job fetched c c' w w'
  of_silent job fetched c c' w w' s = record {
    sound = record { addressed = s.sound.addressed; backed = s.sound.backed; past = s.sound.past };
    requested = s.requested;
    counted = s.counted;
    rows = s.rows;
    kept = s.kept;
    recorded = IsRecorded-after job fetched w (silent w') w' (λ _ h. h) s.recorded;
    others = s.others;
  }

  drift_answered-ok :
      (job : Job) (raw : Json) (r : Redacted) (w : World)
      → redact env.sha256 raw job.config_area ≡ Path.ok r
      → drift_answered env org_id id job raw w ≡ store_drift env org_id id job r w
  unfolding drift_answered lift_redact
  drift_answered-ok job raw r w e =
      ap (λ x. and_then (lift_redact env org_id x w) (store_drift env org_id id job)) e

  drift_progress-quiet :
      (total idx completed : ℕ) (w : World)
      → IsQuiet env
      → ((drift_progress env org_id id total idx completed w).0 ≡ ok tt)
        × (silent (drift_progress env org_id id total idx completed w).1 ≡ silent w)
  unfolding drift_progress
  drift_progress-quiet total idx completed w quiet = elim (Bool-cases ((idx + 1) % 20 == 0)) [
    | inl t ↦
        rw (t, drift_progress)
          (
            quiet (sweep_progress id completed total) w,
            silent-send env (sweep_progress id completed total) w,
          )
    | inr t ↦ rw (t, drift_progress) (refl, refl)
  ]

  drift_fetched-Round :
      (total idx : ℕ) (c : ℕ × ℕ) (job : Job) (fetched : Result Json) (w : World)
      → IsRising env
      → IsQuiet env
      → IsSound env w
      → (c' : ℕ × ℕ) × (w' : World) × (drift_fetched env org_id id total idx c job fetched w
          ≡ (ok c', w'))
        × Step job fetched c c' w w'
  unfolding drift_fetched
  drift_fetched-Round total idx (completed, failed) job (raised e) w rising quiet sound = (
    (completed, failed + 1),
    w,
    refl,
    record {
      sound = sound;
      requested = refl;
      counted = omega arith;
      rows = refl;
      kept = λ _ h. h;
      recorded = tt;
      others = λ _ _. refl;
    },
  )
  drift_fetched-Round total idx (completed, failed) job (ok raw) w rising quiet sound =
      let (r, e, d, _) = redact_total env.sha256 raw job.config_area in
      let (w1, stored, step) =
        store_drift-Round env org_id id job raw r completed failed w rising e d sound in
      let (q, same) = drift_progress-quiet total idx (completed + 1) w1 quiet in
      let w2 = (drift_progress env org_id id total idx (completed + 1) w1).1 in
      let finish : Unit {0} → Exec (ℕ × ℕ) = λ _. pure (completed + 1, failed) in
      let progress : Bool → Exec (ℕ × ℕ) =
        λ _ x. and_then (drift_progress env org_id id total idx (completed + 1) x) finish in
      (
        (completed + 1, failed),
        w2,
        ap (λ m. and_then m progress) (drift_answered-ok job raw r w e ∙ stored)
            ∙ and_then-ok (drift_progress env org_id id total idx (completed + 1) w1) finish tt q,
        of_silent job (ok raw) (completed, failed) (completed + 1, failed) w w2
            (subst (Step job (ok raw) (completed, failed) (completed + 1, failed) w) (sym same)
              (to_silent job (ok raw) (completed, failed) (completed + 1, failed) w w1 step)),
      )

  pub IsRecorded-before :
      (job : Job) (fetched : Result Json) (w0 w1 w2 : World)
      → latest_for org_id job.key w1 ≡ latest_for org_id job.key w0
      → IsRecorded env org_id id job fetched w1 w2
      → IsRecorded env org_id id job fetched w0 w2
  IsRecorded-before job (raised e) w0 w1 w2 q h = tt
  IsRecorded-before job (ok raw) w0 w1 w2 q (r, e, t, i) = (
    r,
    e,
    t,
    subst
        (λ latest.
          In
            (new_observation
              (drift_source env org_id (event_for env org_id id r.sha256_hex latest) id) job.key
              r.sha256_hex r.hot_columns t)
            w2.observations)
        q i,
  )

  IsRecorded-absent :
      (key : Key) (jobs : List Job) (i : ℕ) (job : Job)
      → absent key jobs ≡ true
      → get_elem? jobs i ≡ some job
      → key ≢ job.key
  IsRecorded-absent key [] i job a e = absurd (ground arith)
  IsRecorded-absent key (j ∷ jobs) zero job a e =
      let same : j ≡ job = ground arith in
      λ q. (absent-cons key j jobs a).0 (ap (λ x. x.key) same ∙ sym q)
  IsRecorded-absent key (j ∷ jobs) (suc i) job a e =
      IsRecorded-absent key jobs i job (absent-cons key j jobs a).1 e

  abbrev requested : World → World
  requested w = record w { requests = suc w.requests }

  IsRecorded-cons :
      (job : Job) (jobs : List Job) (c c1 c2 : ℕ × ℕ) (w w1 w2 : World)
      → absent job.key jobs ≡ true
      → Step job (answer env job w.requests) c c1 (requested w) w1
      → Drifted env org_id id jobs c1 c2 w1 w2
      → (i : ℕ) (j : Job) → get_elem? (job ∷ jobs) i ≡ some j
      → IsRecorded env org_id id j (answer env j (w.requests + i)) w w2
  IsRecorded-cons job jobs c c1 c2 w w1 w2 a s d zero j e =
      let same : job ≡ j = ground arith in
      let at : w.requests ≡ w.requests + 0 = omega arith in
      subst (λ x. IsRecorded env org_id id x (answer env x (w.requests + 0)) w w2) same
        (subst (λ n. IsRecorded env org_id id job (answer env job n) w w2) at
          (IsRecorded-before job (answer env job w.requests) w (requested w) w2 refl (
            IsRecorded-after job (answer env job w.requests) (requested w) w1 w2 d.kept
              s.recorded)))
  IsRecorded-cons job jobs c c1 c2 w w1 w2 a s d (suc i) j e =
      let at : w1.requests + i ≡ w.requests + suc i = omega (arith, s.requested) in
      subst (λ n. IsRecorded env org_id id j (answer env j n) w w2) at
        (IsRecorded-before j (answer env j (w1.requests + i)) w w1 w2
          (s.others j.key (IsRecorded-absent job.key jobs i j a e)) (d.recorded i j e))

  Drifted-cons :
      (job : Job) (jobs : List Job) (c c1 c2 : ℕ × ℕ) (w w1 w2 : World)
      → absent job.key jobs ≡ true
      → Step job (answer env job w.requests) c c1 (requested w) w1
      → Drifted env org_id id jobs c1 c2 w1 w2
      → Drifted env org_id id (job ∷ jobs) c c2 w w2
  Drifted-cons job jobs c c1 c2 w w1 w2 a s d = record {
    sound = d.sound;
    requested = omega (arith, s.requested, d.requested);
    counted = omega (arith, s.counted, d.counted);
    rows = omega (arith, s.rows, d.rows);
    kept = λ o h. d.kept o (s.kept o h);
    recorded = IsRecorded-cons job jobs c c1 c2 w w1 w2 a s d;
    others = λ key h.
        let (differs, later) = absent-cons key job jobs h in
        d.others key later ∙ s.others key differs;
  }

  -- From sound tables, under a clock that rises and with a receiver that refuses nothing, the loop
  -- over jobs with distinct keys returns.
  pub each_drift-Drifted :
      (total idx : ℕ) (c : ℕ × ℕ) (jobs : List Job) (w : World)
      → IsRising env
      → IsQuiet env
      → IsSound env w
      → DistinctKeys jobs
      → (c' : ℕ × ℕ) × (w' : World) × (each_drift env org_id id total idx c jobs w ≡ (ok c', w'))
        × Drifted env org_id id jobs c c' w w'
  unfolding each_drift fetch_one
  each_drift-Drifted total idx c [] w rising quiet sound d = (
    c,
    w,
    refl,
    record {
      sound = sound;
      requested = omega arith;
      counted = omega arith;
      rows = refl;
      kept = λ _ h. h;
      recorded = λ i job e. absurd (ground arith);
      others = λ _ _. refl;
    },
  )
  each_drift-Drifted total idx c (job ∷ jobs) w rising quiet sound d =
      let sound1 : IsSound env (requested w) = record {
        addressed = sound.addressed;
        backed = sound.backed;
        past = sound.past;
      } in
      let (c1, w1, e1, s) =
        drift_fetched-Round total idx c job (answer env job w.requests) (requested w) rising quiet
          sound1 in
      let (c2, w2, e2, rest) =
        each_drift-Drifted total (idx + 1) c1 jobs w1 rising quiet s.sound d.1 in
      let next : ℕ × ℕ → Exec (ℕ × ℕ) =
        λ counts. each_drift env org_id id total (idx + 1) counts jobs in
      (c2, w2, ap (λ m. and_then m next) e1 ∙ e2, Drifted-cons job jobs c c1 c2 w w1 w2 d.0 s rest)
