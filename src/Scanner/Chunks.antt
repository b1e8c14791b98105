-- ===== src/Scanner/Chunks.antt =====
-- What the chunks of a baseline have done, one after the other.
use topology_maps.Prelude.{
  ℕ, ◌+◌, ◌≡◌, refl, sym, subst, ◌∙◌, inl, inr, true, some, List, [], length, get_elem?, take, drop,
  arith, length-take-drop, get_elem?-take-drop, Option-cases,
}
use topology_maps.Text.{Text}
use topology_maps.Catalog.Spec.{Key, Job}
use topology_maps.Store.Sweeps.{find_run}
use topology_maps.Store.State.{SweepRun, Notice, World, Env, Exec, Result, ok, and_then}
use topology_maps.Store.Integrity.{IsSound}
use topology_maps.Puller.Coalesce.{absent, DistinctKeys, absent-take, absent-drop, absent-take-drop}
use topology_maps.Puller.Pull.{IsFreshFor, IsFreshFor-latest, latest_for, answer}
use topology_maps.Scanner.{send}

-- The state without the notices sent.
abbrev pub silent : World → World
silent w = record w { notices = [] }

pub silent-send :
    (env : Env) (notice : Notice) (w : World) → silent (send env notice w).1 ≡ silent w
unfolding send
silent-send env notice w = elim (Option-cases env.notify) [
  | inl n ↦ rw (n, send) refl
  | inr (receive, s) ↦ elim (Option-cases (receive (length w.notices) notice)) [
    | inl n ↦ rw (s, n, send) refl
    | inr (x, r) ↦ rw (s, r, send) refl
  ]
]

-- The receiver, if there is one, refuses no notice.
abbrev pub IsQuiet : Env → Type 0
IsQuiet env = (notice : Notice) (w : World) → (send env notice w).0 ≡ ok tt

pub and_then-ok :
    {A B : Type 0} (m : Result A × World) (f : A → Exec B) (a : A)
    → m.0 ≡ ok a
    → and_then m f ≡ f a m.1
and_then-ok (r, w) f a e = rw e refl

module _ (env : Env) (org_id : Text) (id : ℕ) where
  -- The row counts `n` more calls, and its total is what it was.
  abbrev pub Counts : ℕ → World → World → Type 0
  Counts n w w' =
      (r : SweepRun)
      → find_run id w.sweep_runs ≡ some r
      → (r' : SweepRun) × (find_run id w'.sweep_runs ≡ some r')
        × (r'.completed_calls + r'.failed_calls ≡ r.completed_calls + r.failed_calls + n)
        × (r'.total_calls ≡ r.total_calls)

  -- The tables are sound, each job was requested once, in order, and counted in the row of the run;
  -- the latest observation of each key whose request was answered has the digest of the answer,
  -- and that of every other key is what it was.
  pub record Swept (jobs : List Job) (w w' : World) : Type 0 where
    pub sound : IsSound env w'
    pub counted : Counts (length jobs) w w'
    pub requested : w'.requests ≡ w.requests + length jobs
    pub fresh :
        (i : ℕ) (job : Job)
        → get_elem? jobs i ≡ some job
        → IsFreshFor env org_id job (answer env job (w.requests + i)) w'
    pub others :
        (key : Key) → absent key jobs ≡ true → latest_for org_id key w' ≡ latest_for org_id key w

  pub Swept-nil : (w : World) → IsSound env w → Swept [] w w
  Swept-nil w s = record {
    sound = s;
    counted = λ r e. (r, e, omega arith, refl);
    requested = omega arith;
    fresh = λ i job e. absurd (ground arith);
    others = λ _ _. refl;
  }

  Counts-add : (m n : ℕ) (w w1 w2 : World) → Counts m w w1 → Counts n w1 w2 → Counts (m + n) w w2
  Counts-add m n w w1 w2 c d r e =
      let (r1, e1, q1, t1) = c r e in
      let (r2, e2, q2, t2) = d r1 e1 in (r2, e2, omega arith, t2 ∙ t1)

  Swept-fresh :
      (n : ℕ) (jobs : List Job) (w w1 w2 : World)
      → DistinctKeys jobs
      → Swept (take n jobs) w w1
      → Swept (drop n jobs) w1 w2
      → (i : ℕ) (job : Job) → get_elem? jobs i ≡ some job
      → IsFreshFor env org_id job (answer env job (w.requests + i)) w2
  Swept-fresh n jobs w w1 w2 d s1 s2 i job e = elim (get_elem?-take-drop n jobs i job e) [
    | inl q ↦
        IsFreshFor-latest env org_id job (answer env job (w.requests + i)) w1 w2
          (s2.others job.key (absent-take-drop n jobs i job d q)) (s1.fresh i job q)
    | inr (j, at, q) ↦
        let same : w1.requests + j ≡ w.requests + i = omega (arith, s1.requested) in
        subst (λ x. IsFreshFor env org_id job (answer env job x) w2) same (s2.fresh j job q)
  ]

  pub Swept-take-drop :
      (n : ℕ) (jobs : List Job) (w w1 w2 : World)
      → DistinctKeys jobs
      → Swept (take n jobs) w w1
      → Swept (drop n jobs) w1 w2
      → Swept jobs w w2
  Swept-take-drop n jobs w w1 w2 d s1 s2 = record {
    sound = s2.sound;
    counted =
        subst (λ x. Counts x w w2) (length-take-drop n jobs)
          (Counts-add (length (take n jobs)) (length (drop n jobs)) w w1 w2 s1.counted s2.counted);
    requested = omega (arith, s1.requested, s2.requested, length-take-drop n jobs);
    fresh = Swept-fresh n jobs w w1 w2 d s1 s2;
    others = λ key a.
        s2.others key (absent-drop key n jobs a) ∙ s1.others key (absent-take key n jobs a);
  }

  to_silent : (jobs : List Job) (w w' : World) → Swept jobs w w' → Swept jobs w (silent w')
  to_silent jobs w w' s = record {
    sound = record { addressed = s.sound.addressed; backed = s.sound.backed; past = s.sound.past };
    counted = s.counted;
    requested = s.requested;
    fresh = λ i job e. IsFreshFor-latest env org_id job _ w' (silent w') refl (s.fresh i job e);
    others = s.others;
  }

  of_silent : (jobs : List Job) (w w' : World) → Swept jobs w (silent w') → Swept jobs w w'
  of_silent jobs w w' s = record {
    sound = record { addressed = s.sound.addressed; backed = s.sound.backed; past = s.sound.past };
    counted = s.counted;
    requested = s.requested;
    fresh = λ i job e. IsFreshFor-latest env org_id job _ (silent w') w' refl (s.fresh i job e);
    others = s.others;
  }

  -- A notice changes nothing of this.
  pub Swept-send :
      (jobs : List Job) (notice : Notice) (w w' : World)
      → Swept jobs w w'
      → Swept jobs w (send env notice w').1
  Swept-send jobs notice w w' s =
      of_silent jobs w (send env notice w').1
        (subst (Swept jobs w) (sym (silent-send env notice w')) (to_silent jobs w w' s))
