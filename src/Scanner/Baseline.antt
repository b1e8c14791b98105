-- ===== src/Scanner/Baseline.antt =====
-- The chunks, the body and the whole of a baseline, where the receiver refuses nothing.
use topology_maps.Prelude.{
  ℕ, zero, suc, ◌+◌, ◌≤◌, ◌≡◌, refl, sym, subst, ap, ◌∙◌, true, some, List, [], ◌∷◌, length, take,
  drop, arith, length-take-drop, take-length, drop-length,
}
use topology_maps.Text.{Text}
use topology_maps.Catalog.Spec.{Job}
use topology_maps.Store.Sweeps.{
  find_run, increment_sweep_counters, mark_sweep_running, mark_sweep_complete,
}
use topology_maps.Store.State.{
  SourceEvent, Kind, complete, Notice, sweep_started, sweep_progress, sweep_completed, World, Env,
  Exec, ok, and_then, IsRising, now,
}
use topology_maps.Store.Integrity.{IsSound, IsPast-suc}
use topology_maps.Puller.{PullSummary, empty_summary, pull_many}
use topology_maps.Puller.Coalesce.{
  DistinctKeys, DistinctKeys-take, DistinctKeys-drop, coalesce_jobs-DistinctKeys,
}
use topology_maps.Puller.Pull.{IsFreshFor-latest, Pulled, pull_many-Pulled, processed}
use topology_maps.Scanner.{
  send, settle, chunk_size, split_chunks, each_chunk, baseline_body, sweep_baseline,
}
use topology_maps.Scanner.Runs.{
  find_run-change, sweep_runs-pull_many, sweep_runs-send, HasRun, IsRun, mark_sweep_complete-IsRun,
}
use topology_maps.Scanner.Outcome.{IsRun-same}
use topology_maps.Scanner.Chunks.{
  IsQuiet, and_then-ok, Counts, Swept, Swept-nil, Swept-send, Swept-take-drop,
}

module _ (env : Env) (org_id : Text) (rising : IsRising env) (quiet : IsQuiet env) (id : ℕ) where
  -- The state after a chunk and its counters.
  counted_chunk : PullSummary → World → World
  counted_chunk s w = increment_sweep_counters id (s.successes + s.skipped_unchanged) s.failures 0 w

  Counts-counted_chunk :
      (s : PullSummary) (n : ℕ) (w w1 : World)
      → w1.sweep_runs ≡ w.sweep_runs
      → processed s ≡ n
      → Counts env org_id id n w (counted_chunk s w1)
  unfolding counted_chunk increment_sweep_counters
  Counts-counted_chunk s n w w1 q c r e =
      (_, find_run-change id _ w1 r (λ _. refl) (ap (find_run id) q ∙ e), omega (arith, c), refl)

  Swept-counted_chunk :
      (chunk : List Job) (s : PullSummary) (w w1 : World)
      → w1.sweep_runs ≡ w.sweep_runs
      → Pulled env org_id (some id) SourceEvent.baseline [] rising chunk empty_summary s w w1
      → Swept env org_id id chunk w (counted_chunk s w1)
  unfolding counted_chunk increment_sweep_counters
  Swept-counted_chunk chunk s w w1 q p = record {
    sound = record { addressed = p.sound.addressed; backed = p.sound.backed; past = p.sound.past };
    counted = Counts-counted_chunk s (length chunk) w w1 q (omega (arith, p.counted));
    requested = p.requested;
    fresh = λ i job e.
        IsFreshFor-latest env org_id job _ w1 (counted_chunk s w1) refl (p.fresh i job e);
    others = p.others;
  }

  pull_many-distinct :
      (jobs : List Job) (w : World)
      → IsSound env w
      → DistinctKeys jobs
      → (s : PullSummary) × (w1 : World) × (pull_many env org_id
            (some id)
            SourceEvent.baseline
            []
            jobs
            w
          ≡ (ok s, w1))
        × Pulled env org_id (some id) SourceEvent.baseline [] rising jobs empty_summary s w w1
  pull_many-distinct jobs w sound d =
      let (s, w1, e, p) =
        pull_many-Pulled env org_id (some id) SourceEvent.baseline [] rising jobs w sound in
      (
        s,
        w1,
        e,
        subst
            (λ js.
              Pulled env org_id (some id) SourceEvent.baseline [] rising js empty_summary s w w1)
            (coalesce_jobs-DistinctKeys jobs d) p,
      )

  each_chunk-cons :
      (total i : ℕ) (chunk : List Job) (chunks : List (List Job)) (s : PullSummary) (w w1 : World)
      → pull_many env org_id (some id) SourceEvent.baseline [] chunk w ≡ (ok s, w1)
      → each_chunk env org_id id total i (chunk ∷ chunks) w
        ≡ each_chunk env org_id id total
            (i + chunk_size)
            chunks
            (send env (sweep_progress id (i + length chunk) total) (counted_chunk s w1)).1
  unfolding each_chunk counted_chunk
  each_chunk-cons total i chunk chunks s w w1 e =
      let notice = sweep_progress id (i + length chunk) total in
      let next : Unit {0} → Exec (Unit {0}) =
        λ _. each_chunk env org_id id total (i + chunk_size) chunks in
      ap
        (λ m. and_then m (λ (summary : PullSummary) (w' : World).
          and_then (send env notice (counted_chunk summary w')) next))
        e
      ∙ and_then-ok (send env notice (counted_chunk s w1)) next tt
          (quiet notice (counted_chunk s w1))

  each_chunk-Swept :
      (total i fuel : ℕ) (jobs : List Job) (w : World)
      → length jobs ≤ fuel
      → DistinctKeys jobs
      → IsSound env w
      → (w' : World) × (each_chunk env org_id id total i (split_chunks fuel jobs) w ≡ (ok tt, w'))
        × Swept env org_id id jobs w w'
  unfolding each_chunk split_chunks
  each_chunk-Swept total i zero [] w f d sound = (w, refl, Swept-nil env org_id id w sound)
  each_chunk-Swept total i zero (j ∷ jobs) w f d sound = absurd (omega arith)
  each_chunk-Swept total i (suc fuel) [] w f d sound = (w, refl, Swept-nil env org_id id w sound)
  each_chunk-Swept total i (suc fuel) (j ∷ jobs) w f d sound =
      let all_jobs = j ∷ jobs in
      let chunk = take chunk_size all_jobs in
      let rest = drop chunk_size all_jobs in
      let (s, w1, e1, p) =
        pull_many-distinct chunk w sound (DistinctKeys-take chunk_size all_jobs d) in
      let rows =
        sym (ap (λ m. m.1.sweep_runs) e1)
        ∙ sweep_runs-pull_many env org_id (some id) SourceEvent.baseline [] chunk w in
      let notice = sweep_progress id (i + length chunk) total in
      let w2 = counted_chunk s w1 in
      let w3 = (send env notice w2).1 in
      let swept =
        Swept-send env org_id id chunk notice w w2 (Swept-counted_chunk chunk s w w1 rows p) in
      let (w4, e4, later) =
        each_chunk-Swept total (i + chunk_size) fuel rest w3
          (omega (arith, length-take-drop 19 jobs)) (DistinctKeys-drop chunk_size all_jobs d)
          swept.sound in
      (
        w4,
        each_chunk-cons total i chunk (split_chunks fuel rest) s w w1 e1 ∙ e4,
        Swept-take-drop env org_id id chunk_size all_jobs w w3 w4 d swept later,
      )

  pub sent-ok : (notice : Notice) (w : World) → send env notice w ≡ (ok tt, (send env notice w).1)
  sent-ok notice w = ap (λ x. (x, (send env notice w).1)) (quiet notice w)

  -- From sound tables the body of a baseline over jobs with distinct keys returns.
  pub baseline_body-Swept :
      (total : ℕ) (jobs : List Job) (w : World)
      → DistinctKeys jobs
      → IsSound env w
      → (w1 : World) × Swept env org_id id jobs w w1
        × (baseline_body env org_id id total jobs w
            ≡ (ok tt, (send env (sweep_completed id) (mark_sweep_complete env id w1)).1))
  unfolding baseline_body
  baseline_body-Swept total jobs w d sound =
      let (w1, e, swept) = each_chunk-Swept total 0 (length jobs) jobs w (omega arith) d sound in
      let finish : Unit {0} → Exec (Unit {0}) =
        λ _ w'. send env (sweep_completed id) (mark_sweep_complete env id w') in
      (
        w1,
        swept,
        ap (λ m. and_then m finish) e
            ∙ sent-ok (sweep_completed id) (mark_sweep_complete env id w1),
      )

  pub Swept-mark_sweep_running :
      (w : World) → IsSound env w → Swept env org_id id [] w (mark_sweep_running env id w)
  unfolding mark_sweep_running now
  Swept-mark_sweep_running w s = record {
    sound = record {
      addressed = s.addressed;
      backed = s.backed;
      past = IsPast-suc env w.readings w.observations rising s.past;
    };
    counted = λ r e. (_, find_run-change id _ w r (λ _. refl) e, omega arith, refl);
    requested = omega arith;
    fresh = λ i job e. absurd (ground arith);
    others = λ _ _. refl;
  }

  pub Swept-mark_sweep_complete :
      (w : World) → IsSound env w → Swept env org_id id [] w (mark_sweep_complete env id w)
  unfolding mark_sweep_complete now
  Swept-mark_sweep_complete w s = record {
    sound = record {
      addressed = s.addressed;
      backed = s.backed;
      past = IsPast-suc env w.readings w.observations rising s.past;
    };
    counted = λ r e. (_, find_run-change id _ w r (λ _. refl) e, omega arith, refl);
    requested = omega arith;
    fresh = λ i job e. absurd (ground arith);
    others = λ _ _. refl;
  }

  Swept-then :
      (jobs : List Job) (w w1 w2 : World)
      → DistinctKeys jobs
      → Swept env org_id id jobs w w1
      → Swept env org_id id [] w1 w2
      → Swept env org_id id jobs w w2
  Swept-then jobs w w1 w2 d s1 s2 =
      Swept-take-drop env org_id id (length jobs) jobs w w1 w2 d
        (subst (λ js. Swept env org_id id js w w1) (sym (take-length jobs)) s1)
        (subst (λ js. Swept env org_id id js w1 w2) (sym (drop-length jobs)) s2)

  -- A sweep over jobs with distinct keys returns its id, has pulled them, and its row is complete.
  pub sweep_baseline-Swept :
      (all_jobs jobs : List Job) (w : World)
      → DistinctKeys jobs
      → IsSound env w
      → HasRun id w
      → (w' : World) × (sweep_baseline env org_id id all_jobs jobs w ≡ (ok id, w'))
        × Swept env org_id id jobs w w'
        × IsRun id complete w'
  unfolding sweep_baseline settle
  sweep_baseline-Swept all_jobs jobs w d sound h =
      let total = length all_jobs in
      let w1 = mark_sweep_running env id w in
      let started = sweep_started id Kind.baseline total in
      let w2 = (send env started w1).1 in
      let s2 = Swept-send env org_id id [] started w w1 (Swept-mark_sweep_running w sound) in
      let (w3, s3, e) = baseline_body-Swept total jobs w2 d s2.sound in
      let w4 = mark_sweep_complete env id w3 in
      let w5 = (send env (sweep_completed id) w4).1 in
      let sweep : Unit {0} → Exec ℕ =
        λ _ w'. settle env id true (baseline_body env org_id id total jobs w') in
      let before = Swept-take-drop env org_id id 0 jobs w w2 w3 d s2 s3 in
      let (r, row) = h in
      let (r3, row3, _, _) = before.counted r row in
      (
        w5,
        and_then-ok (send env started w1) sweep tt (quiet started w1) ∙ ap (settle env id true) e,
        Swept-send env org_id id jobs (sweep_completed id) w w4
            (Swept-then jobs w w3 w4 d before (Swept-mark_sweep_complete w3 s3.sound)),
        IsRun-same id complete w4 w5 (sweep_runs-send env (sweep_completed id) w4)
            (mark_sweep_complete-IsRun env id w3 (r3, row3)),
      )
