-- ===== src/Catalog/Expand.antt =====
-- The jobs of `expand_for_org`, from the catalog and the inventory.
use topology_maps.Prelude.{
  ℕ, ◌≡◌, refl, sym, ap, ◌∙◌, ◌↔◌, inl, inr, true, Option, none, some, List, [], ◌∷◌, ◌++◌, In,
  In-append, In-append_left, In-append_right, arith, subst, Bool-cases, Option-cases,
}
use topology_maps.Text.{Text, codes, elem}
use topology_maps.Catalog.{
  Network, Device, format, find, or_nil, network_matches, device_matches, for_each, make_job,
  one_job, number_text, ssid_entity, org_arguments, network_arguments, ssid_arguments,
  device_arguments, network_job, ssid_jobs, device_jobs, scope_jobs, expand_for_org,
}
use topology_maps.Catalog.Spec.{Scope, org, network, device, ssid, EndpointSpec, Job}
use topology_maps.Catalog.Endpoints.{endpoints}

module _ {A B : Type 0} (f : A → Option (List B)) where
  -- A result of the loop comes from one round.
  abbrev pub FromRound : List A → B → Type 0
  FromRound xs b = (x : A) × (ys : List B) × In x xs × (f x ≡ some ys) × In b ys

  for_each_parts :
      (x : A) (xs : List A) (js : List B)
      → for_each (x ∷ xs) f ≡ some js
      → (ys rest : List B) × (f x ≡ some ys) × (for_each xs f ≡ some rest) × (js ≡ ys ++ rest)
  unfolding for_each
  for_each_parts x xs js e = elim (Option-cases (f x)) [
    | inl q ↦ absurd (ground arith)
    | inr (ys, q) ↦ elim (Option-cases (for_each xs f)) [
      | inl r ↦ absurd (ground arith)
      | inr (rest, r) ↦ (ys, rest, q, r, ground arith)
    ]
  ]

  pub for_each-FromRound :
      (xs : List A) (js : List B) (b : B) → for_each xs f ≡ some js → In b js → FromRound xs b
  unfolding for_each
  for_each-FromRound [] [] b e m = absurd m
  for_each-FromRound [] (j ∷ js) b e m = absurd (ground arith)
  for_each-FromRound (x ∷ xs) js b e m =
      let (ys, rest, q, r, s) = for_each_parts x xs js e in
      elim (In-append b ys rest (subst (In b) s m)) [
        | inl here ↦ (x, ys, inl refl, q, here)
        | inr there ↦
            let (z, zs, i, p, k) = for_each-FromRound xs rest b r there in (z, zs, inr i, p, k)
      ]

  -- What a round must yield, the loop yields.
  pub In-for_each :
      (xs : List A) (js : List B) (x : A) (b : B)
      → for_each xs f ≡ some js
      → In x xs
      → ((ys : List B) → f x ≡ some ys → In b ys)
      → In b js
  In-for_each [] js x b e m h = absurd m
  In-for_each (z ∷ xs) js x b e m h =
      let (ys, rest, p, r, s) = for_each_parts z xs js e in
      let found : In b (ys ++ rest) = elim m [
        | inl same ↦ In-append_left b ys rest (h ys (ap f same ∙ p))
        | inr later ↦ In-append_right b ys rest (In-for_each xs rest x b r later h)
      ] in
      subst (In b) (sym s) found

  pub for_each_total :
      (xs : List A)
      → ((x : A) → In x xs → (ys : List B) × (f x ≡ some ys))
      → (js : List B) × (for_each xs f ≡ some js)
  unfolding for_each
  for_each_total [] h = ([], refl)
  for_each_total (x ∷ xs) h =
      let (ys, e) = h x (inl refl) in
      let (rest, r) = for_each_total xs (λ z m. h z (inr m)) in (ys ++ rest, rw (e, r))

pub no_jobs : (js : List Job) (job : Job) → some [] ≡ some js → ¬ In job js
no_jobs [] job e m = m
no_jobs (j ∷ js) job e m = absurd (ground arith)

pub one_job-In :
    (spec : EndpointSpec) (scope : Scope) (id : Text) (sub : Option Text)
    (kwargs : List (Text × Text)) (js : List Job) (job : Job)
    → one_job spec scope id sub kwargs ≡ some js
    → In job js
    → (url : Text) × (format kwargs spec.url_template ≡ some url)
      × (job ≡ make_job spec scope id sub url)
unfolding one_job
one_job-In spec scope id sub kwargs js job e m =
    elim (Option-cases (format kwargs spec.url_template)) [
      | inl q ↦ absurd (ground arith)
      | inr (url, q) ↦
          let alone : js ≡ make_job spec scope id sub url ∷ [] = ground arith in
          (url, q, elim (subst (In job) alone m) [ inl s ↦ s | inr no_more ↦ absurd no_more ])
    ]

pub In-one_job :
    (spec : EndpointSpec) (scope : Scope) (id : Text) (sub : Option Text)
    (kwargs : List (Text × Text)) (url : Text) (js : List Job)
    → format kwargs spec.url_template ≡ some url
    → one_job spec scope id sub kwargs ≡ some js
    → In (make_job spec scope id sub url) js
unfolding one_job
In-one_job spec scope id sub kwargs url js f e =
    let alone : make_job spec scope id sub url ∷ [] ≡ js = ground arith in
    subst (In (make_job spec scope id sub url)) alone (inl refl)

module _ (org_id : Text) (networks : List Network) (devices_by_network : List (Text × List Device))
    (enabled_ssids_by_network : List (Text × List ℕ)) where
  -- What a sweep has to fetch: the jobs that an endpoint of the catalog and a part of the inventory
  -- that the endpoint applies to call for.
  pub data Wanted : Job → Type 0 where
    of_org :
        (spec : EndpointSpec) (url : Text)
        → In spec endpoints
        → spec.scope ≡ org
        → format (org_arguments org_id) spec.url_template ≡ some url
        → Wanted (make_job spec org org_id none url)
    of_network :
        (spec : EndpointSpec) (url : Text) (net : Network)
        → In spec endpoints
        → spec.scope ≡ network
        → In net networks
        → network_matches spec net ≡ true
        → format (network_arguments net.id) spec.url_template ≡ some url
        → Wanted (make_job spec network net.id none url)
    of_ssid :
        (spec : EndpointSpec) (url : Text) (net : Network) (n : ℕ)
        → In spec endpoints
        → spec.scope ≡ ssid
        → In net networks
        → elem (codes "wireless") net.product_types ≡ true
        → In n (or_nil (find net.id enabled_ssids_by_network))
        → format (ssid_arguments net.id n) spec.url_template ≡ some url
        → Wanted (make_job spec ssid (ssid_entity net.id n) (some (number_text n)) url)
    of_device :
        (spec : EndpointSpec) (url : Text) (net : Network) (dev : Device)
        → In spec endpoints
        → spec.scope ≡ device
        → In net networks
        → In dev (or_nil (find net.id devices_by_network))
        → device_matches spec dev ≡ true
        → format (device_arguments dev.serial) spec.url_template ≡ some url
        → Wanted (make_job spec device dev.serial none url)

  abbrev jobs_of : EndpointSpec → Scope → Option (List Job)
  jobs_of = scope_jobs org_id networks devices_by_network enabled_ssids_by_network

  network_job-Wanted :
      (spec : EndpointSpec) (net : Network) (js : List Job) (job : Job)
      → In spec endpoints
      → spec.scope ≡ network
      → In net networks
      → network_job org_id networks devices_by_network enabled_ssids_by_network spec net ≡ some js
      → In job js
      → Wanted job
  unfolding network_job
  network_job-Wanted spec net js job c s n e m = elim (Bool-cases (network_matches spec net)) [
    | inl t ↦
        let (url, f, q) =
          one_job-In spec network net.id none (network_arguments net.id) js job (rw t at e) m in
        subst Wanted (sym q) (of_network spec url net c s n t f)
    | inr t ↦ absurd (no_jobs js job (rw t at e) m)
  ]

  ssid_jobs-Wanted :
      (spec : EndpointSpec) (net : Network) (js : List Job) (job : Job)
      → In spec endpoints
      → spec.scope ≡ ssid
      → In net networks
      → ssid_jobs org_id networks devices_by_network enabled_ssids_by_network spec net ≡ some js
      → In job js
      → Wanted job
  unfolding ssid_jobs
  ssid_jobs-Wanted spec net js job c s n e m =
      elim (Bool-cases (elem (codes "wireless") net.product_types)) [
        | inl t ↦
            let (i, ys, i_in, r, m') =
              for_each-FromRound _ (or_nil (find net.id enabled_ssids_by_network)) js job
                (rw t at e) m in
            let (url, f, q) =
              one_job-In spec ssid (ssid_entity net.id i) (some (number_text i))
                (ssid_arguments net.id i) ys job r m' in
            subst Wanted (sym q) (of_ssid spec url net i c s n t i_in f)
        | inr t ↦ absurd (no_jobs js job (rw t at e) m)
      ]

  device_jobs-Wanted :
      (spec : EndpointSpec) (net : Network) (js : List Job) (job : Job)
      → In spec endpoints
      → spec.scope ≡ device
      → In net networks
      → device_jobs org_id networks devices_by_network enabled_ssids_by_network spec net ≡ some js
      → In job js
      → Wanted job
  unfolding device_jobs
  device_jobs-Wanted spec net js job c s n e m =
      let (dev, ys, d_in, r, m') =
        for_each-FromRound _ (or_nil (find net.id devices_by_network)) js job e m in
      elim (Bool-cases (device_matches spec dev)) [
        | inl t ↦
            let (url, f, q) =
              one_job-In spec device dev.serial none (device_arguments dev.serial) ys job
                (rw t at r) m' in
            subst Wanted (sym q) (of_device spec url net dev c s n d_in t f)
        | inr t ↦ absurd (no_jobs ys job (rw t at r) m')
      ]

  scope_jobs-Wanted :
      (spec : EndpointSpec) (scope : Scope) (js : List Job) (job : Job)
      → In spec endpoints
      → spec.scope ≡ scope
      → jobs_of spec scope ≡ some js
      → In job js
      → Wanted job
  unfolding scope_jobs
  scope_jobs-Wanted spec org js job c s e m =
      let (url, f, q) = one_job-In spec org org_id none (org_arguments org_id) js job e m in
      subst Wanted (sym q) (of_org spec url c s f)
  scope_jobs-Wanted spec network js job c s e m =
      let (net, ys, n, r, m') = for_each-FromRound _ networks js job e m in
      network_job-Wanted spec net ys job c s n r m'
  scope_jobs-Wanted spec device js job c s e m =
      let (net, ys, n, r, m') = for_each-FromRound _ networks js job e m in
      device_jobs-Wanted spec net ys job c s n r m'
  scope_jobs-Wanted spec ssid js job c s e m =
      let (net, ys, n, r, m') = for_each-FromRound _ networks js job e m in
      ssid_jobs-Wanted spec net ys job c s n r m'

  Wanted-In :
      (jobs : List Job) (job : Job)
      → expand_for_org org_id networks devices_by_network enabled_ssids_by_network ≡ some jobs
      → Wanted job
      → In job jobs
  unfolding expand_for_org network_job ssid_jobs device_jobs
  Wanted-In jobs job e (of_org spec url c s f) =
      In-for_each (λ x. jobs_of x x.scope) endpoints jobs spec job e c
        λ js r.
          In-one_job spec org org_id none (org_arguments org_id) url js f
            (ap (jobs_of spec) (sym s) ∙ r)
  Wanted-In jobs job e (of_network spec url net c s n t f) =
      In-for_each (λ x. jobs_of x x.scope) endpoints jobs spec job e c
        λ js r. In-for_each _ networks js net job (ap (jobs_of spec) (sym s) ∙ r) n λ ks q.
          In-one_job spec network net.id none (network_arguments net.id) url ks f (rw t at q)
  Wanted-In jobs job e (of_ssid spec url net i c s n t i_in f) =
      In-for_each (λ x. jobs_of x x.scope) endpoints jobs spec job e c
        λ js r. In-for_each _ networks js net job (ap (jobs_of spec) (sym s) ∙ r) n λ ks q.
          In-for_each _ (or_nil (find net.id enabled_ssids_by_network)) ks i job (rw t at q) i_in
            λ ls p.
              In-one_job spec ssid (ssid_entity net.id i) (some (number_text i))
                (ssid_arguments net.id i) url ls f p
  Wanted-In jobs job e (of_device spec url net dev c s n d_in t f) =
      In-for_each (λ x. jobs_of x x.scope) endpoints jobs spec job e c
        λ js r. In-for_each _ networks js net job (ap (jobs_of spec) (sym s) ∙ r) n λ ks q.
          In-for_each _ (or_nil (find net.id devices_by_network)) ks dev job q d_in λ ls p.
            In-one_job spec device dev.serial none (device_arguments dev.serial) url ls f
              (rw t at p)

  -- When no template raises, the jobs of an organisation are exactly those that are wanted: for each
  -- endpoint of the catalog one for the organisation, for each network whose products match, for
  -- each enabled SSID of a wireless network, or for each device whose product matches.
  pub expand_for_org_iff :
      (jobs : List Job) (job : Job)
      → expand_for_org org_id networks devices_by_network enabled_ssids_by_network ≡ some jobs
      → In job jobs ↔ Wanted job
  unfolding expand_for_org
  expand_for_org_iff jobs job e = (
    λ m.
        let (spec, js, c, r, m') = for_each-FromRound _ endpoints jobs job e m in
        scope_jobs-Wanted spec spec.scope js job c refl r m',
    Wanted-In jobs job e,
  )
