-- ===== src/Scanner/Complete.antt =====
-- `run_baseline` where the enumeration answers and the receiver refuses nothing.
use topology_maps.Prelude.{
  ℕ, suc, ◌+◌, ◌≡◌, refl, sym, subst, ap, ◌∙◌, inl, inr, Option-cases, not, none, some, List,
  length, arith,
}
use topology_maps.Text.{Text}
use topology_maps.Catalog.Spec.{Job}
use topology_maps.Catalog.{expand_for_org}
use topology_maps.Store.Sweeps.{
  is_completed, find_run, new_run, get_active_sweep_run, create_sweep_run, update_sweep_total_calls,
}
use topology_maps.Store.State.{
  Kind, complete, SweepRun, World, Env, Exec, Result, ok, raised, and_then, IsRising,
}
use topology_maps.Store.Integrity.{IsSound}
use topology_maps.Puller.{coalesce_jobs}
use topology_maps.Puller.Coalesce.{DistinctKeys, DistinctKeys-filter_by, coalesce_jobs_lem}
use topology_maps.Scanner.{
  jobs_of, open_run, left_over, enumerate_jobs, start_baseline, unless_active, run_baseline,
}
use topology_maps.Scanner.Inventory.{Composition, enumerate_org_composition}
use topology_maps.Scanner.Inventory.Tables.{tables}
use topology_maps.Scanner.Runs.{IsRun, find_run-change}
use topology_maps.Scanner.Chunks.{IsQuiet, Swept}
use topology_maps.Scanner.Baseline.{sweep_baseline-Swept}
use topology_maps.Scanner.Ending.{
  find_run-create_sweep_run, unless_active-none, tables-enumerate_jobs,
}

pub IsSound-tables :
    (env : Env) (w w1 : World) → tables w1 ≡ tables w → IsSound env w → IsSound env w1
IsSound-tables env w w1 q s =
    let erased : IsSound env (tables w) = record {
      addressed = s.addressed;
      backed = s.backed;
      past = s.past;
    } in
    let same = subst (IsSound env) (sym q) erased in
    record { addressed = same.addressed; backed = same.backed; past = same.past }

pub IsSound-rows :
    (env : Env) (runs : List SweepRun) (n : ℕ) (w : World)
    → IsSound env w
    → IsSound env (record w { sweep_runs = runs; next_run_id = n })
IsSound-rows env runs n w s = record { addressed = s.addressed; backed = s.backed; past = s.past }

DistinctKeys-jobs_of :
    (org_id : Text) (c : Composition) (jobs : List Job)
    → jobs_of org_id c ≡ ok jobs
    → DistinctKeys jobs
unfolding jobs_of
DistinctKeys-jobs_of org_id c jobs e =
    elim (Option-cases
      (expand_for_org org_id c.networks c.devices_by_network c.enabled_ssids_by_network)) [
        | inl n ↦ absurd (ground arith)
        | inr (all, a) ↦
            let same : coalesce_jobs all ≡ jobs = ground arith in
            subst DistinctKeys same (coalesce_jobs_lem all).0
      ]

DistinctKeys-and_then :
    (org_id : Text) (m : Result Composition × World) (jobs : List Job) (w1 : World)
    → and_then m (λ c w. (jobs_of org_id c, w)) ≡ (ok jobs, w1)
    → DistinctKeys jobs
DistinctKeys-and_then org_id (raised e, w) jobs w1 q = absurd (ground arith)
DistinctKeys-and_then org_id (ok c, w) jobs w1 q =
    DistinctKeys-jobs_of org_id c jobs (ap (λ m. m.0) q)

module _ (env : Env) (org_id : Text) (rising : IsRising env) (quiet : IsQuiet env) where
  pub DistinctKeys-enumerate_jobs :
      (w : World) (jobs : List Job) (w1 : World)
      → enumerate_jobs env org_id w ≡ (ok jobs, w1)
      → DistinctKeys jobs
  unfolding enumerate_jobs
  DistinctKeys-enumerate_jobs w jobs w1 e =
      DistinctKeys-and_then org_id (enumerate_org_composition env org_id w) jobs w1 e

  -- The row of the run is complete, and accounts for `n` calls of `total`.
  abbrev pub IsAccounted : ℕ → ℕ → ℕ → World → Type 0
  IsAccounted id n total w =
      (r : SweepRun) × (find_run id w.sweep_runs ≡ some r)
      × (r.status ≡ complete)
      × (r.completed_calls + r.failed_calls ≡ n)
      × (r.total_calls ≡ some total)

  Swept-IsAccounted :
      (id : ℕ) (jobs : List Job) (r : SweepRun) (total : ℕ) (w w' : World)
      → find_run id w.sweep_runs ≡ some r
      → r.total_calls ≡ some total
      → Swept env org_id id jobs w w'
      → IsRun id complete w'
      → IsAccounted id (r.completed_calls + r.failed_calls + length jobs) total w'
  Swept-IsAccounted id jobs r total w w' row t s (r2, row2, done) =
      let (r1, row1, count, t1) = s.counted r row in
      let same : r2 ≡ r1 = ground arith in
      (r1, row1, ap (λ x. x.status) (sym same) ∙ done, count, t1 ∙ t)

  -- With no run under way, from sound tables, under a clock that rises and with a receiver that
  -- refuses nothing, a baseline whose enumeration gives `jobs` opens a run, returns its id and has
  -- pulled every one of the jobs; the tables are sound, and the row is complete, with as many calls
  -- completed or failed as its total says, which is the number of the jobs.
  pub run_baseline-Swept :
      (jobs : List Job) (w w1 : World)
      → IsSound env w
      → get_active_sweep_run org_id Kind.baseline w.sweep_runs ≡ none
      → enumerate_jobs env org_id w ≡ (ok jobs, w1)
      → let opened = open_run env org_id Kind.baseline jobs w1 in
        (w' : World) × (run_baseline env org_id none w ≡ (ok opened.0, w'))
        × Swept env org_id opened.0 jobs opened.1 w'
        × IsAccounted opened.0 (length jobs) (length jobs) w'
  unfolding run_baseline start_baseline open_run create_sweep_run
  run_baseline-Swept jobs w w1 sound idle e =
      let id = w1.next_run_id in
      let w2 = (create_sweep_run org_id Kind.baseline (some (length jobs)) w1).1 in
      let sound1 =
        IsSound-tables env w w1 (ap (λ m. tables m.1) (sym e) ∙ tables-enumerate_jobs env org_id w)
          sound in
      let new = new_run org_id Kind.baseline (some (length jobs)) id in
      let row = find_run-create_sweep_run org_id Kind.baseline (some (length jobs)) w1 in
      let counts : 0 + 0 + length jobs ≡ length jobs = omega arith in
      let sweep : Exec ℕ =
        λ x. and_then (enumerate_jobs env org_id x) (start_baseline env org_id none) in
      let (w', q, swept, done) =
        sweep_baseline-Swept env org_id rising quiet id jobs jobs w2
          (DistinctKeys-enumerate_jobs w jobs w1 e) (IsSound-rows env _ (suc id) w1 sound1)
          (new, row) in
      (
        w',
        unless_active-none env org_id Kind.baseline w sweep idle
            ∙ ap (λ m. and_then m (start_baseline env org_id none)) e
            ∙ q,
        swept,
        subst (λ n. IsAccounted id n (length jobs) w') counts
            (Swept-IsAccounted id jobs new (length jobs) w2 w' row refl swept done),
      )

  -- Under the same conditions a baseline that resumes a run with a row returns its id and has pulled
  -- every job that has no observation under the run; the row is complete, and accounts for
  -- these calls beside those that it had, while its total is the number of all jobs.
  pub run_baseline-resumed :
      (id : ℕ) (r : SweepRun) (jobs : List Job) (w w1 : World)
      → IsSound env w
      → find_run id w.sweep_runs ≡ some r
      → enumerate_jobs env org_id w ≡ (ok jobs, w1)
      → let updated = update_sweep_total_calls id (length jobs) w1 in
        let left = left_over env org_id id jobs w1 in
        (w' : World) × (run_baseline env org_id (some id) w ≡ (ok id, w'))
        × Swept env org_id id left updated w'
        × IsAccounted id (r.completed_calls + r.failed_calls + length left) (length jobs) w'
  unfolding run_baseline start_baseline unless_active left_over update_sweep_total_calls
  run_baseline-resumed id r jobs w w1 sound row e =
      let total = length jobs in
      let w2 = update_sweep_total_calls id total w1 in
      let same = ap (λ m. tables m.1) (sym e) ∙ tables-enumerate_jobs env org_id w in
      let row1 : find_run id w1.sweep_runs ≡ some r =
        ap (λ x. find_run id x.sweep_runs) same ∙ row in
      let row2 =
        find_run-change id (λ x. record x { total_calls = some total }) w1 r (λ _. refl) row1 in
      let left = left_over env org_id id jobs w1 in
      let (w', q, swept, done) =
        sweep_baseline-Swept env org_id rising quiet id jobs left w2
          (DistinctKeys-filter_by (λ j. not (is_completed id w1.observations j.key)) jobs
            (DistinctKeys-enumerate_jobs w jobs w1 e))
          (IsSound-rows env _ w1.next_run_id w1 (IsSound-tables env w w1 same sound)) (_, row2) in
      (
        w',
        ap (λ m. and_then m (start_baseline env org_id (some id))) e ∙ q,
        swept,
        Swept-IsAccounted id left (record r { total_calls = some total }) total w2 w' row2 refl
            swept done,
      )
