-- ===== src/Puller/Coalesce.antt =====
-- The jobs that `coalesce_jobs` keeps and drops.
use topology_maps.Prelude.{
  ◌≢◌, ℕ, zero, suc, take, drop, filter_by, get_elem?, subst, ◌≡◌, refl, Bool, true, false, ◌||◌,
  Option, none, some, List, [], ◌∷◌, arith, Bool-cases, inl, inr, if◌then◌else◌,
}
use topology_maps.Catalog.Spec.{Key, Job, key_eq, key_eq_iff, key_eq_refl, key_eq_comm}
use topology_maps.Puller.{seen_before, coalesce_from, coalesce_jobs}

-- The first job of a key.
unfoldable pub first_job : Key → List Job → Option Job
unfolding key_eq
first_job key [] = none
first_job key (j ∷ jobs) = if key_eq j.key key then some j else first_job key jobs

abbrev pub absent : Key → List Job → Bool
absent key [] = true
absent key (j ∷ jobs) = if key_eq j.key key then false else absent key jobs

-- No two jobs have one key.
abbrev pub DistinctKeys : List Job → Type 0
DistinctKeys [] = Unit
DistinctKeys (j ∷ jobs) = (absent j.key jobs ≡ true) × DistinctKeys jobs

seen_before-eq :
    (k j : Key) (seen : List Key) → key_eq k j ≡ true → seen_before k seen ≡ seen_before j seen
unfolding seen_before
seen_before-eq k j seen h = let e : k ≡ j = (key_eq_iff k j).0 h in rw e

seen_before-cons :
    (key k : Key) (seen : List Key)
    → seen_before key (k ∷ seen) ≡ (key_eq k key || seen_before key seen)
unfolding seen_before
seen_before-cons key k seen = refl

first_job-coalesce_from :
    (key : Key) (seen : List Key) (jobs : List Job)
    → first_job key (coalesce_from seen jobs)
      ≡ (if seen_before key seen then none else first_job key jobs)
unfolding first_job coalesce_from
first_job-coalesce_from key seen [] = ground arith
first_job-coalesce_from key seen (j ∷ jobs) = ground (
  arith,
  first_job-coalesce_from key seen jobs,
  first_job-coalesce_from key (j.key ∷ seen) jobs,
  seen_before-eq j.key key seen,
  seen_before-cons key j.key seen,
)

absent-coalesce_from :
    (key : Key) (seen : List Key) (jobs : List Job)
    → seen_before key seen ≡ true
    → absent key (coalesce_from seen jobs) ≡ true
unfolding coalesce_from seen_before
absent-coalesce_from key seen [] h = refl
absent-coalesce_from key seen (j ∷ jobs) h = ground (
  arith,
  absent-coalesce_from key seen jobs h,
  absent-coalesce_from key (j.key ∷ seen) jobs (ground arith),
  seen_before-eq j.key key seen,
)

coalesce_from-DistinctKeys :
    (seen : List Key) (jobs : List Job) → DistinctKeys (coalesce_from seen jobs)
unfolding coalesce_from
coalesce_from-DistinctKeys seen [] = tt
coalesce_from-DistinctKeys seen (j ∷ jobs) = elim (Bool-cases (seen_before j.key seen)) [
  | inl t ↦ rw t (coalesce_from-DistinctKeys seen jobs)
  | inr t ↦ rw t (
    absent-coalesce_from j.key (j.key ∷ seen) jobs
        (unfold seen_before in ground (arith, key_eq_refl j.key)),
    coalesce_from-DistinctKeys (j.key ∷ seen) jobs,
  )
]

-- Of the jobs that are kept no two have one key, and for each key the first of the kept jobs is the
-- first of the given ones: none is lost, and the first occurrence wins.
pub coalesce_jobs_lem :
    (jobs : List Job)
    → DistinctKeys (coalesce_jobs jobs)
      × ((key : Key) → first_job key (coalesce_jobs jobs) ≡ first_job key jobs)
unfolding coalesce_jobs
coalesce_jobs_lem jobs = (
  coalesce_from-DistinctKeys [] jobs,
  λ key. unfold seen_before in first_job-coalesce_from key [] jobs,
)

-- None of the jobs has a key that was seen.
abbrev Unseen : List Key → List Job → Type 0
Unseen seen [] = Unit
Unseen seen (j ∷ jobs) = (seen_before j.key seen ≡ false) × Unseen seen jobs

Unseen-cons :
    (key : Key) (seen : List Key) (jobs : List Job)
    → absent key jobs ≡ true
    → Unseen seen jobs
    → Unseen (key ∷ seen) jobs
unfolding seen_before
Unseen-cons key seen [] a h = tt
Unseen-cons key seen (j ∷ jobs) a h =
    (ground (arith, key_eq_comm j.key key), Unseen-cons key seen jobs (ground arith) h.1)

Unseen-nil : (jobs : List Job) → Unseen [] jobs
unfolding seen_before
Unseen-nil [] = tt
Unseen-nil (j ∷ jobs) = (refl, Unseen-nil jobs)

coalesce_from-Unseen :
    (seen : List Key) (jobs : List Job)
    → DistinctKeys jobs
    → Unseen seen jobs
    → coalesce_from seen jobs ≡ jobs
unfolding coalesce_from
coalesce_from-Unseen seen [] d h = refl
coalesce_from-Unseen seen (j ∷ jobs) d h =
    rw (h.0, coalesce_from-Unseen (j.key ∷ seen) jobs d.1 (Unseen-cons j.key seen jobs d.0 h.1))

-- Jobs with distinct keys stay as they are.
pub coalesce_jobs-DistinctKeys : (jobs : List Job) → DistinctKeys jobs → coalesce_jobs jobs ≡ jobs
unfolding coalesce_jobs
coalesce_jobs-DistinctKeys jobs d = coalesce_from-Unseen [] jobs d (Unseen-nil jobs)

-- A key that none of the jobs has is not that of the first one, nor of a later one.
pub absent-cons :
    (key : Key) (job : Job) (jobs : List Job)
    → absent key (job ∷ jobs) ≡ true
    → (job.key ≢ key) × (absent key jobs ≡ true)
absent-cons key job jobs h = (λ e. ground (arith, key_eq_iff job.key key), ground arith)

pub absent-take :
    (key : Key) (n : ℕ) (jobs : List Job) → absent key jobs ≡ true → absent key (take n jobs) ≡ true
absent-take key zero jobs h = refl
absent-take key (suc n) [] h = refl
absent-take key (suc n) (j ∷ jobs) h = ground (arith, absent-take key n jobs)

pub absent-drop :
    (key : Key) (n : ℕ) (jobs : List Job) → absent key jobs ≡ true → absent key (drop n jobs) ≡ true
absent-drop key zero jobs h = h
absent-drop key (suc n) [] h = refl
absent-drop key (suc n) (j ∷ jobs) h = ground (arith, absent-drop key n jobs)

-- Among jobs with distinct keys none of the first `n` has the key of a later one.
pub absent-take-drop :
    (n : ℕ) (jobs : List Job) (i : ℕ) (job : Job)
    → DistinctKeys jobs
    → get_elem? (take n jobs) i ≡ some job
    → absent job.key (drop n jobs) ≡ true
absent-take-drop zero jobs i job d e = absurd (ground arith)
absent-take-drop (suc n) [] i job d e = refl
absent-take-drop (suc n) (j ∷ jobs) zero job d e =
    let same : j ≡ job = ground arith in
    subst (λ x. absent x.key (drop n jobs) ≡ true) same (absent-drop j.key n jobs d.0)
absent-take-drop (suc n) (j ∷ jobs) (suc i) job d e = absent-take-drop n jobs i job d.1 e

pub DistinctKeys-take : (n : ℕ) (jobs : List Job) → DistinctKeys jobs → DistinctKeys (take n jobs)
DistinctKeys-take zero jobs d = tt
DistinctKeys-take (suc n) [] d = tt
DistinctKeys-take (suc n) (j ∷ jobs) d =
    (absent-take j.key n jobs d.0, DistinctKeys-take n jobs d.1)

pub DistinctKeys-drop : (n : ℕ) (jobs : List Job) → DistinctKeys jobs → DistinctKeys (drop n jobs)
DistinctKeys-drop zero jobs d = d
DistinctKeys-drop (suc n) [] d = tt
DistinctKeys-drop (suc n) (j ∷ jobs) d = DistinctKeys-drop n jobs d.1

absent-filter_by :
    (p : Job → Bool) (key : Key) (jobs : List Job)
    → absent key jobs ≡ true
    → absent key (filter_by p jobs) ≡ true
unfolding filter_by
absent-filter_by p key [] h = refl
absent-filter_by p key (j ∷ jobs) h = ground (arith, absent-filter_by p key jobs)

DistinctKeys-keep :
    (keep : Bool) (j : Job) (jobs : List Job)
    → absent j.key jobs ≡ true
    → DistinctKeys jobs
    → DistinctKeys (elim keep [ true ↦ j ∷ jobs | false ↦ jobs ])
DistinctKeys-keep true j jobs a d = (a, d)
DistinctKeys-keep false j jobs a d = d

pub DistinctKeys-filter_by :
    (p : Job → Bool) (jobs : List Job) → DistinctKeys jobs → DistinctKeys (filter_by p jobs)
unfolding filter_by
DistinctKeys-filter_by p [] d = tt
DistinctKeys-filter_by p (j ∷ jobs) d =
    DistinctKeys-keep (p j) j (filter_by p jobs) (absent-filter_by p j.key jobs d.0)
      (DistinctKeys-filter_by p jobs d.1)
