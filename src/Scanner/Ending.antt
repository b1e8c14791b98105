-- ===== src/Scanner/Ending.antt =====
-- How `run_baseline` and `run_anti_drift_sweep` end, from their first statement on.
use topology_maps.Prelude.{
  ℕ, ◌≡◌, refl, subst, sym, ap, ◌∙◌, ◌⊎◌, inl, inr, true, false, Option, none, some, List, length,
  Option-cases, arith,
}
use topology_maps.Text.{Text}
use topology_maps.Catalog.Spec.{Job}
use topology_maps.Store.Sweeps.{
  find_run, new_run, mark_sweep_running, get_active_sweep_run, create_sweep_run,
  update_sweep_total_calls,
}
use topology_maps.Store.State.{
  Kind, SweepRun, Status, running, Notice, sweep_started, World, Env, Exec, Result, Exception, ok,
  raised, and_then,
}
use topology_maps.Scanner.{
  send, settle, baseline_body, sweep_baseline, sweep_drift, drift_body, start_baseline, start_drift,
  open_run, enumerate_jobs, unless_active, run_baseline, run_anti_drift_sweep,
}
use topology_maps.Scanner.Inventory.{enumerate_org_composition}
use topology_maps.Scanner.Inventory.Tables.{
  tables, tables-and_then, tables-enumerate_org_composition,
}
use topology_maps.Scanner.Runs.{
  HasRun, IsRun, find_run-change, sweep_runs-send, mark_sweep_running-IsRun,
}
use topology_maps.Scanner.Outcome.{
  Ended, Ended-settle, IsRun-same, Closing-baseline_body, Closing-drift_body,
}

-- The receiver refuses the notice with this exception.
abbrev pub Refuses : Env → Notice → Exception → Type 0
Refuses env notice e =
    (receive : ℕ → Notice → Option Exception) × (n : ℕ) × (env.notify ≡ some receive)
    × (receive n notice ≡ some e)

-- The sweep raised because the receiver refused `sweep.started`, and its row is still running.
abbrev pub Refused : Env → Kind → ℕ → Result ℕ × World → Type 0
Refused env kind id m =
    (e : Exception) × (total : ℕ) × (m.0 ≡ raised e)
    × Refuses env (sweep_started id kind total) e
    × IsRun id running m.1

send-raised :
    (env : Env) (notice : Notice) (w : World) (e : Exception)
    → (send env notice w).0 ≡ raised e
    → Refuses env notice e
unfolding send
send-raised env notice w e q = elim (Option-cases env.notify) [
  | inl n ↦ absurd (ground arith)
  | inr (receive, s) ↦ elim (Option-cases (receive (length w.notices) notice)) [
    | inl n ↦ absurd (ground arith)
    | inr (x, r) ↦ (receive, length w.notices, s, ground arith)
  ]
]

HasRun-IsRun : (id : ℕ) (s : Status) (w : World) → IsRun id s w → HasRun id w
HasRun-IsRun id s w (r, e, _) = (r, e)

-- The sweep after the notice was sent.
after_send :
    (env : Env) (kind : Kind) (id total : ℕ) (sent : Result (Unit {0}) × World) (k : Exec ℕ)
    → ((e : Exception) → sent.0 ≡ raised e → Refuses env (sweep_started id kind total) e)
    → IsRun id running sent.1
    → ((w : World) → HasRun id w → Ended id (k w))
    → Ended id (and_then sent (λ _. k)) ⊎ Refused env kind id (and_then sent (λ _. k))
after_send env kind id total (ok _, w) k r h c = inl (c w (HasRun-IsRun id running w h))
after_send env kind id total (raised e, w) k r h c = inr (e, total, refl, r e refl, h)

started :
    (env : Env) (kind : Kind) (id total : ℕ) (k : Exec ℕ) (w : World)
    → HasRun id w
    → ((w : World) → HasRun id w → Ended id (k w))
    → let m =
        and_then (send env (sweep_started id kind total) (mark_sweep_running env id w)) (λ _. k) in
      Ended id m ⊎ Refused env kind id m
started env kind id total k w h c =
    let w1 = mark_sweep_running env id w in
    let sent = send env (sweep_started id kind total) w1 in
    after_send env kind id total sent k (send-raised env (sweep_started id kind total) w1)
      (IsRun-same id running w1 sent.1 (sweep_runs-send env (sweep_started id kind total) w1)
        (mark_sweep_running-IsRun env id w h))
      c

-- A run to resume has a row.
abbrev pub IsResumable : Option ℕ → World → Type 0
IsResumable none w = Unit
IsResumable (some id) w = HasRun id w

-- The id of the sweep.
abbrev pub run_of : Option ℕ → World → ℕ
run_of none w = w.next_run_id
run_of (some id) w = id

-- The four ways to end: an active run is returned and nothing is done; the enumeration raises, and
-- no row is touched; the sweep ends with its row complete or failed; its first notice is refused.
abbrev pub Ending : Env → Text → Kind → Option ℕ → World → Result ℕ × World → Type 0
Ending env org_id kind resume w m =
    ((run : SweepRun) × (resume ≡ none)
      × (get_active_sweep_run org_id kind w.sweep_runs ≡ some run)
      × (m ≡ (ok run.id, w)))
    ⊎ (((e : Exception) × (m.0 ≡ raised e) × (tables m.1 ≡ tables w))
        ⊎ (Ended (run_of resume w) m ⊎ Refused env kind (run_of resume w) m))

pub find_run-create_sweep_run :
    (org_id : Text) (kind : Kind) (total : Option ℕ) (w : World)
    → find_run w.next_run_id (create_sweep_run org_id kind total w).1.sweep_runs
      ≡ some (new_run org_id kind total w.next_run_id)
unfolding create_sweep_run find_run
find_run-create_sweep_run org_id kind total w = ground arith

pub HasRun-update_sweep_total_calls :
    (id total : ℕ) (w : World) → HasRun id w → HasRun id (update_sweep_total_calls id total w)
unfolding update_sweep_total_calls
HasRun-update_sweep_total_calls id total w (r, e) = (_, find_run-change id _ w r (λ _. refl) e)

module _ (env : Env) (org_id : Text) where
  sweep_baseline-Ended :
      (id : ℕ) (all_jobs remaining : List Job) (w : World)
      → HasRun id w
      → let m = sweep_baseline env org_id id all_jobs remaining w in
        Ended id m ⊎ Refused env Kind.baseline id m
  unfolding sweep_baseline
  sweep_baseline-Ended id all_jobs remaining w h =
      started env Kind.baseline id (length all_jobs)
        (λ w1. settle env id true (baseline_body env org_id id (length all_jobs) remaining w1)) w h
        (λ w1 h1.
          Ended-settle env id true (baseline_body env org_id id (length all_jobs) remaining w1)
            (Closing-baseline_body env org_id id (length all_jobs) remaining w1 h1))

  sweep_drift-Ended :
      (id : ℕ) (jobs : List Job) (w : World)
      → HasRun id w
      → let m = sweep_drift env org_id id jobs w in Ended id m ⊎ Refused env Kind.anti_drift id m
  unfolding sweep_drift
  sweep_drift-Ended id jobs w h =
      started env Kind.anti_drift id (length jobs)
        (λ w1. settle env id false (drift_body env org_id id jobs w1)) w h
        (λ w1 h1.
          Ended-settle env id false (drift_body env org_id id jobs w1)
            (Closing-drift_body env org_id id jobs w1 h1))

  abbrev Starts : Kind → Option ℕ → (List Job → Exec ℕ) → Type 0
  Starts kind resume start =
      (jobs : List Job) (w : World)
      → IsResumable resume w
      → Ended (run_of resume w) (start jobs w) ⊎ Refused env kind (run_of resume w) (start jobs w)

  start_baseline-Starts :
      (resume : Option ℕ) → Starts Kind.baseline resume (start_baseline env org_id resume)
  unfolding start_baseline open_run
  start_baseline-Starts none jobs w h =
      sweep_baseline-Ended w.next_run_id jobs jobs _
        (_, find_run-create_sweep_run org_id Kind.baseline (some (length jobs)) w)
  start_baseline-Starts (some id) jobs w h =
      sweep_baseline-Ended id jobs _ (update_sweep_total_calls id (length jobs) w)
        (HasRun-update_sweep_total_calls id (length jobs) w h)

  start_drift-Starts :
      (resume : Option ℕ) → Starts Kind.anti_drift resume (start_drift env org_id resume)
  unfolding start_drift open_run
  start_drift-Starts none jobs w h =
      sweep_drift-Ended w.next_run_id jobs _
        (_, find_run-create_sweep_run org_id Kind.anti_drift (some (length jobs)) w)
  start_drift-Starts (some id) jobs w h =
      sweep_drift-Ended id jobs (update_sweep_total_calls id (length jobs) w)
        (HasRun-update_sweep_total_calls id (length jobs) w h)

  pub tables-enumerate_jobs : (w : World) → tables (enumerate_jobs env org_id w).1 ≡ tables w
  unfolding enumerate_jobs
  tables-enumerate_jobs w =
      tables-and_then (tables w) (enumerate_org_composition env org_id w) _
        (tables-enumerate_org_composition env org_id w) (λ composition w1. refl)

  Ending-enumerate_jobs :
      (kind : Kind) (resume : Option ℕ) (w : World) (start : List Job → Exec ℕ)
      (jobs : Result (List Job) × World)
      → tables jobs.1 ≡ tables w
      → Starts kind resume start
      → IsResumable resume w
      → Ending env org_id kind resume w (and_then jobs start)
  Ending-enumerate_jobs kind resume w start (raised e, w1) q c h = inr (inl (e, refl, q))
  Ending-enumerate_jobs kind none w start (ok jobs, w1) q c h =
      let same : w1.next_run_id ≡ w.next_run_id = ap (λ x. x.next_run_id) q in
      inr (
        inr (
          subst (λ id. Ended id (start jobs w1) ⊎ Refused env kind id (start jobs w1)) same
            (c jobs w1 h)))
  Ending-enumerate_jobs kind (some id) w start (ok jobs, w1) q c (r, e) =
      inr (inr (c jobs w1 (r, ap (λ x. find_run id x.sweep_runs) q ∙ e)))

  pub unless_active-none :
      (kind : Kind) (w : World) (sweep : Exec ℕ)
      → get_active_sweep_run org_id kind w.sweep_runs ≡ none
      → unless_active env org_id kind none sweep w ≡ sweep w
  unfolding unless_active
  unless_active-none kind w sweep h = rw (h, unless_active) refl

  unless_active-some :
      (kind : Kind) (w : World) (sweep : Exec ℕ) (run : SweepRun)
      → get_active_sweep_run org_id kind w.sweep_runs ≡ some run
      → unless_active env org_id kind none sweep w ≡ (ok run.id, w)
  unfolding unless_active
  unless_active-some kind w sweep run h = rw (h, unless_active) refl

  Ending-unless_active :
      (kind : Kind) (resume : Option ℕ) (w : World) (sweep : Exec ℕ)
      → Ending env org_id kind resume w (sweep w)
      → Ending env org_id kind resume w (unless_active env org_id kind resume sweep w)
  unfolding unless_active
  Ending-unless_active kind (some id) w sweep h = h
  Ending-unless_active kind none w sweep h =
      elim (Option-cases (get_active_sweep_run org_id kind w.sweep_runs)) [
        | inl n ↦ subst (Ending env org_id kind none w) (sym (unless_active-none kind w sweep n)) h
        | inr (run, a) ↦ inl (run, refl, a, unless_active-some kind w sweep run a)
      ]

  -- Whatever the API, the clock and the receiver do, `run_baseline` from a run that may be resumed
  -- ends in one of four ways. A run that is under way is returned and nothing is done. The
  -- enumeration raises and no table is touched. Or it is swept: a sweep that returns, returns its id
  -- and its row is complete; one that raises has its row failed with a summary, unless the
  -- receiver refused `sweep.started`, where its row is still running.
  pub run_baseline-Ending :
      (resume : Option ℕ) (w : World)
      → IsResumable resume w
      → Ending env org_id Kind.baseline resume w (run_baseline env org_id resume w)
  unfolding run_baseline
  run_baseline-Ending resume w h = Ending-unless_active Kind.baseline resume w _ (
      Ending-enumerate_jobs Kind.baseline resume w (start_baseline env org_id resume)
        (enumerate_jobs env org_id w) (tables-enumerate_jobs w) (start_baseline-Starts resume) h)

  -- `run_anti_drift_sweep` ends in the same four ways.
  pub run_anti_drift_sweep-Ending :
      (resume : Option ℕ) (w : World)
      → IsResumable resume w
      → Ending env org_id Kind.anti_drift resume w (run_anti_drift_sweep env org_id resume w)
  unfolding run_anti_drift_sweep
  run_anti_drift_sweep-Ending resume w h = Ending-unless_active Kind.anti_drift resume w _ (
      Ending-enumerate_jobs Kind.anti_drift resume w (start_drift env org_id resume)
        (enumerate_jobs env org_id w) (tables-enumerate_jobs w) (start_drift-Starts resume) h)
