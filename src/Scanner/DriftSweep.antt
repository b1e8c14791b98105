-- ===== src/Scanner/DriftSweep.antt =====
-- `run_anti_drift_sweep` where the enumeration answers and the receiver refuses nothing.
use topology_maps.Prelude.{
  ℕ, suc, ◌+◌, ◌≡◌, refl, sym, subst, ap, ◌∙◌, false, none, some, List, length, arith, In,
}
use topology_maps.Text.{Text}
use topology_maps.Catalog.Spec.{Job}
use topology_maps.Store.Sweeps.{
  find_run, new_run, get_active_sweep_run, create_sweep_run, increment_sweep_counters,
  mark_sweep_running, mark_sweep_complete,
}
use topology_maps.Store.State.{
  Notice, Kind, complete, SweepRun, sweep_started, sweep_completed, World, Env, Exec, ok, and_then,
  IsRising, now,
}
use topology_maps.Store.{get_latest_observation}
use topology_maps.Store.Integrity.{IsSound}
use topology_maps.Puller.Coalesce.{DistinctKeys}
use topology_maps.Puller.Pull.{answer}
use topology_maps.Scanner.{
  send, settle, open_run, each_drift, drift_body, sweep_drift, start_drift, enumerate_jobs,
  run_anti_drift_sweep,
}
use topology_maps.Scanner.Inventory.Tables.{tables}
use topology_maps.Scanner.Runs.{find_run-change, sweep_runs-send}
use topology_maps.Scanner.Outcome.{sweep_runs-each_drift}
use topology_maps.Scanner.Chunks.{silent, silent-send, IsQuiet, and_then-ok}
use topology_maps.Scanner.Baseline.{Swept-mark_sweep_running, Swept-mark_sweep_complete, sent-ok}
use topology_maps.Scanner.Complete.{IsSound-tables, IsSound-rows, DistinctKeys-enumerate_jobs}
use topology_maps.Scanner.Ending.{
  find_run-create_sweep_run, unless_active-none, tables-enumerate_jobs,
}
use topology_maps.Scanner.Drift.{IsRecorded, Drifted}
use topology_maps.Scanner.DriftLoop.{each_drift-Drifted, IsRecorded-after, IsRecorded-before}

IsSound-send :
    (env : Env) (notice : Notice) (w : World) → IsSound env w → IsSound env (send env notice w).1
IsSound-send env notice w s =
    let erased : IsSound env (silent w) = record {
      addressed = s.addressed;
      backed = s.backed;
      past = s.past;
    } in
    let same = subst (IsSound env) (sym (silent-send env notice w)) erased in
    record { addressed = same.addressed; backed = same.backed; past = same.past }

module _ (env : Env) (org_id : Text) (id : ℕ) where
  -- The tables of observations and the requests are all that is asked of the state around the loop.
  Drifted-frame :
      (jobs : List Job) (c c' : ℕ × ℕ) (w0 w w' w1 : World)
      → w.observations ≡ w0.observations
      → w.requests ≡ w0.requests
      → w1.observations ≡ w'.observations
      → w1.requests ≡ w'.requests
      → IsSound env w1
      → Drifted env org_id id jobs c c' w w'
      → Drifted env org_id id jobs c c' w0 w1
  Drifted-frame jobs c c' w0 w w' w1 o r o' r' sound d = record {
    sound = sound;
    requested = r' ∙ d.requested ∙ ap (λ n. n + length jobs) r;
    counted = d.counted;
    rows = omega (arith, ap (λ os. length os) o, ap (λ os. length os) o', d.rows);
    kept = λ x h. subst (In x) (sym o') (d.kept x (subst (In x) (sym o) h));
    recorded = λ i job e.
        let at : w.requests + i ≡ w0.requests + i = ap (λ n. n + i) r in
        subst (λ n. IsRecorded env org_id id job (answer env job n) w0 w1) at
          (IsRecorded-before env org_id id job (answer env job (w.requests + i)) w0 w w1
            (ap (get_latest_observation org_id job.key) o)
            (IsRecorded-after env org_id id job (answer env job (w.requests + i)) w w' w1
              (λ x h. subst (In x) (sym o') h) (d.recorded i job e)));
    others = λ key a.
        ap (get_latest_observation org_id key) o'
        ∙ d.others key a
        ∙ ap (get_latest_observation org_id key) o;
  }

module _ (env : Env) (org_id : Text) (rising : IsRising env) (quiet : IsQuiet env) where
  -- The row of the run is complete, with these calls completed and failed.
  abbrev pub IsClosed : ℕ → ℕ → ℕ × ℕ → World → Type 0
  IsClosed id total counts w =
      (r : SweepRun) × (find_run id w.sweep_runs ≡ some r)
      × (r.status ≡ complete)
      × (r.completed_calls ≡ counts.0)
      × (r.failed_calls ≡ counts.1)
      × (r.total_calls ≡ some total)

  -- The state after the loop, the counters, the last mark and the last notice.
  abbrev closed : ℕ → ℕ × ℕ → World → World
  closed id counts w =
      (send env (sweep_completed id)
        (mark_sweep_complete env id (increment_sweep_counters id counts.0 counts.1 0 w))).1

  -- The state after the first mark and the first notice.
  abbrev begun : ℕ → ℕ → World → World
  begun id total w =
      (send env (sweep_started id Kind.anti_drift total) (mark_sweep_running env id w)).1

  sweep_drift-closed :
      (id : ℕ) (jobs : List Job) (counts : ℕ × ℕ) (w w1 : World)
      → each_drift env org_id id (length jobs) 0 (0, 0) jobs (begun id (length jobs) w)
        ≡ (ok counts, w1)
      → sweep_drift env org_id id jobs w ≡ (ok id, closed id counts w1)
  unfolding sweep_drift drift_body settle
  sweep_drift-closed id jobs counts w w1 e =
      let total = length jobs in
      let w0 = mark_sweep_running env id w in
      let sweep : Unit {0} → Exec ℕ =
        λ _ x. settle env id false (drift_body env org_id id jobs x) in
      let finish : ℕ × ℕ → Exec (Unit {0}) = λ n x.
        send env (sweep_completed id)
          (mark_sweep_complete env id (increment_sweep_counters id n.0 n.1 0 x)) in
      and_then-ok (send env (sweep_started id Kind.anti_drift total) w0) sweep tt
        (quiet (sweep_started id Kind.anti_drift total) w0)
      ∙ ap (λ m. settle env id false (and_then m finish)) e
      ∙ ap (settle env id false) (
          sent-ok env org_id rising quiet id (sweep_completed id)
            (mark_sweep_complete env id (increment_sweep_counters id counts.0 counts.1 0 w1)))

  closed-IsClosed :
      (id total : ℕ) (counts : ℕ × ℕ) (r : SweepRun) (w w1 : World)
      → find_run id w.sweep_runs ≡ some r
      → r.completed_calls ≡ 0
      → r.failed_calls ≡ 0
      → r.total_calls ≡ some total
      → w1.sweep_runs ≡ (begun id total w).sweep_runs
      → IsClosed id total counts (closed id counts w1)
  unfolding increment_sweep_counters mark_sweep_running mark_sweep_complete now
  closed-IsClosed id total counts r w w1 row z1 z2 t same =
      let notice = sweep_started id Kind.anti_drift total in
      let w0 = mark_sweep_running env id w in
      let row0 = find_run-change id _ w r (λ _. refl) row in
      let row1 = ap (find_run id) (same ∙ sweep_runs-send env notice w0) ∙ row0 in
      let w2 = increment_sweep_counters id counts.0 counts.1 0 w1 in
      let row2 = find_run-change id _ w1 _ (λ _. refl) row1 in
      let row3 = find_run-change id _ w2 _ (λ _. refl) row2 in
      (
        _,
        ap (find_run id) (sweep_runs-send env (sweep_completed id) (mark_sweep_complete env id w2))
            ∙ row3,
        refl,
        omega (arith, z1),
        omega (arith, z2),
        t,
      )

  IsSound-begun : (id total : ℕ) (w : World) → IsSound env w → IsSound env (begun id total w)
  IsSound-begun id total w s =
      IsSound-send env (sweep_started id Kind.anti_drift total) (mark_sweep_running env id w)
        (Swept-mark_sweep_running env org_id rising quiet id w s).sound

  IsSound-closed :
      (id : ℕ) (counts : ℕ × ℕ) (w : World) → IsSound env w → IsSound env (closed id counts w)
  unfolding increment_sweep_counters
  IsSound-closed id counts w s =
      let w1 = increment_sweep_counters id counts.0 counts.1 0 w in
      IsSound-send env (sweep_completed id) (mark_sweep_complete env id w1)
        (Swept-mark_sweep_complete env org_id rising quiet id w1
          (record { addressed = s.addressed; backed = s.backed; past = s.past })).sound

  -- A sweep over jobs with distinct keys.
  sweep_drift-Drifted :
      (id : ℕ) (jobs : List Job) (r : SweepRun) (w : World)
      → DistinctKeys jobs
      → IsSound env w
      → find_run id w.sweep_runs ≡ some r
      → r.completed_calls ≡ 0
      → r.failed_calls ≡ 0
      → r.total_calls ≡ some (length jobs)
      → (counts : ℕ × ℕ) × (w' : World) × (sweep_drift env org_id id jobs w ≡ (ok id, w'))
        × Drifted env org_id id jobs (0, 0) counts w w'
        × IsClosed id (length jobs) counts w'
  unfolding mark_sweep_running mark_sweep_complete increment_sweep_counters now
  sweep_drift-Drifted id jobs r w d sound row z1 z2 t =
      let total = length jobs in
      let w1 = begun id total w in
      let (counts, w2, e, drifted) =
        each_drift-Drifted env org_id id total 0 (0, 0) jobs w1 rising quiet
          (IsSound-begun id total w sound) d in
      let w3 = closed id counts w2 in
      let rows =
        ap (λ m. m.1.sweep_runs) (sym e)
        ∙ sweep_runs-each_drift env org_id id total 0 (0, 0) jobs w1 in
      let opening =
        silent-send env (sweep_started id Kind.anti_drift total) (mark_sweep_running env id w) in
      let closing =
        silent-send env (sweep_completed id)
          (mark_sweep_complete env id (increment_sweep_counters id counts.0 counts.1 0 w2)) in
      (
        counts,
        w3,
        sweep_drift-closed id jobs counts w w2 e,
        Drifted-frame env org_id id jobs (0, 0) counts w w1 w2 w3 (ap (λ x. x.observations) opening)
            (ap (λ x. x.requests) opening) (ap (λ x. x.observations) closing)
            (ap (λ x. x.requests) closing) (IsSound-closed id counts w2 drifted.sound) drifted,
        closed-IsClosed id total counts r w w2 row z1 z2 t rows,
      )

  -- With no run under way, from sound tables, under a clock that rises and with a receiver that
  -- refuses nothing, an anti-drift sweep whose enumeration gives `jobs` opens a run and returns its
  -- id, and its row is complete. Each job is requested once and completed or failed, as the row
  -- counts them. One observation is added for each that is completed, whatever it holds: a
  -- confirmation where the latest one before the sweep has the digest of the redacted answer, a
  -- discrepancy otherwise. No observation is lost, and the latest of every other key is unchanged.
  pub run_anti_drift_sweep-Drifted :
      (jobs : List Job) (w w1 : World)
      → IsSound env w
      → get_active_sweep_run org_id Kind.anti_drift w.sweep_runs ≡ none
      → enumerate_jobs env org_id w ≡ (ok jobs, w1)
      → let opened = open_run env org_id Kind.anti_drift jobs w1 in
        (counts : ℕ × ℕ) × (w' : World) × (run_anti_drift_sweep env org_id none w
          ≡ (ok opened.0, w'))
        × Drifted env org_id opened.0 jobs (0, 0) counts opened.1 w'
        × IsClosed opened.0 (length jobs) counts w'
  unfolding run_anti_drift_sweep start_drift open_run create_sweep_run
  run_anti_drift_sweep-Drifted jobs w w1 sound idle e =
      let id = w1.next_run_id in
      let new = new_run org_id Kind.anti_drift (some (length jobs)) id in
      let w2 = (create_sweep_run org_id Kind.anti_drift (some (length jobs)) w1).1 in
      let same = ap (λ m. tables m.1) (sym e) ∙ tables-enumerate_jobs env org_id w in
      let sweep : Exec ℕ =
        λ x. and_then (enumerate_jobs env org_id x) (start_drift env org_id none) in
      let (counts, w', q, drifted, done) =
        sweep_drift-Drifted id jobs new w2
          (DistinctKeys-enumerate_jobs env org_id rising quiet w jobs w1 e)
          (IsSound-rows env _ (suc id) w1 (IsSound-tables env w w1 same sound))
          (find_run-create_sweep_run org_id Kind.anti_drift (some (length jobs)) w1) refl refl
          refl in
      (
        counts,
        w',
        unless_active-none env org_id Kind.anti_drift w sweep idle
            ∙ ap (λ m. and_then m (start_drift env org_id none)) e
            ∙ q,
        drifted,
        done,
      )
