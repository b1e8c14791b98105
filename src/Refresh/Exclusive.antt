-- ===== src/Refresh/Exclusive.antt =====
-- No two refreshes of one key run at once, whatever the interleaving.
use topology_maps.Prelude.{
  ℕ, ◌<◌, ◌≡◌, refl, sym, ◌≢◌, ◌∙◌, ap, ap₂, ◌↔◌, inl, inr, true, false, some, List, [], ◌∷◌, In,
  ◌==◌, ==_iff, arith, subst, Bool-cases, Option-cases,
}
use topology_maps.Text.{text_eq, text_eq_iff}
use topology_maps.Catalog.Spec.{scope_eq, scope_eq_iff, option_eq, option_eq_iff}
use topology_maps.Refresh.{Request, request_eq}
use topology_maps.Refresh.Registry.{
  Task, Registry, entry_of, pop_entry, is_running, stop, in_flight, start_task, arrive, finish,
  abandon, idle, Reached, nothing, arrived, finished, abandoned,
}

request_eq_iff : (r s : Request) → (request_eq r s ≡ true) ↔ (r ≡ s)
unfolding request_eq
request_eq_iff r s = (
  λ h.
      let a : text_eq r.org_id s.org_id ≡ true = ground arith in
      let b : scope_eq r.entity_type s.entity_type ≡ true = ground arith in
      let c : text_eq r.entity_id s.entity_id ≡ true = ground arith in
      let d : option_eq r.config_area s.config_area ≡ true = ground arith in
      ground (
        arith,
        (text_eq_iff r.org_id s.org_id).0 a,
        (scope_eq_iff r.entity_type s.entity_type).0 b,
        (text_eq_iff r.entity_id s.entity_id).0 c,
        (option_eq_iff r.config_area s.config_area).0 d,
      ),
  λ e. rw e (
      ground (
        arith,
        (text_eq_iff s.org_id s.org_id).1 refl,
        (scope_eq_iff s.entity_type s.entity_type).1 refl,
        (text_eq_iff s.entity_id s.entity_id).1 refl,
        (option_eq_iff s.config_area s.config_area).1 refl,
      )),
)

entry_of-pop_entry :
    (r q : Request) (ts : List Task) → r ≢ q → entry_of r (pop_entry q ts) ≡ entry_of r ts
unfolding entry_of pop_entry
entry_of-pop_entry r q [] h = refl
entry_of-pop_entry r q (t ∷ ts) h = elim (Bool-cases (request_eq t.request q)) [
  | inl e ↦
      let other : request_eq t.request r ≡ false = elim (Bool-cases (request_eq t.request r)) [
        | inl f ↦
            absurd (h (sym ((request_eq_iff t.request r).0 f) ∙ (request_eq_iff t.request q).0 e))
        | inr f ↦ f
      ] in
      rw (e, other) (entry_of-pop_entry r q ts h)
  | inr e ↦ rw (e, entry_of) (rw (entry_of-pop_entry r q ts h) refl)
]

In-stop : (id : ℕ) (ts : List Task) (u : Task) → In u (stop id ts) → In u ts × (u.id ≢ id)
unfolding stop
In-stop id [] u m = absurd m
In-stop id (t ∷ ts) u m = elim (Bool-cases (t.id == id)) [
  | inl e ↦ let (i, n) = In-stop id ts u (rw (e, stop) at m) in (inr i, n)
  | inr e ↦ elim (rw (e, stop) at m) [
    | inl q ↦ (inl q, λ h. cc (e, (==_iff t.id id).1 (ap (λ x. x.id) (sym q) ∙ h)))
    | inr k ↦ let (i, n) = In-stop id ts u k in (inr i, n)
  ]
]

In-is_running : (ts : List Task) (t : Task) → In t ts → is_running t.id ts ≡ true
unfolding is_running
In-is_running [] t m = absurd m
In-is_running (u ∷ ts) t (inl q) = rw ((==_iff u.id t.id).1 (ap (λ x. x.id) (sym q))) refl
In-is_running (u ∷ ts) t (inr m) = rw (In-is_running ts t m) (ground arith)

is_running-In :
    (id : ℕ) (ts : List Task) → is_running id ts ≡ true → (t : Task) × In t ts × (t.id ≡ id)
unfolding is_running
is_running-In id [] e = absurd (ground arith)
is_running-In id (t ∷ ts) e = elim (Bool-cases (t.id == id)) [
  | inl q ↦ (t, inl refl, (==_iff t.id id).0 q)
  | inr q ↦ let (u, i, h) = is_running-In id ts (rw q at e) in (u, inr i, h)
]

entry_of-In :
    (r : Request) (ts : List Task) (id : ℕ)
    → entry_of r ts ≡ some id
    → (t : Task) × In t ts × (t.request ≡ r) × (t.id ≡ id)
unfolding entry_of
entry_of-In r [] id e = absurd (ground arith)
entry_of-In r (t ∷ ts) id e = elim (Bool-cases (request_eq t.request r)) [
  | inl q ↦
      let e' : some t.id ≡ some id = rw q at e in
      (t, inl refl, (request_eq_iff t.request r).0 q, cc (e'))
  | inr q ↦ let (u, i, a, b) = entry_of-In r ts id (rw q at e) in (u, inr i, a, b)
]

In-pop_entry : (r : Request) (ts : List Task) (t : Task) → In t (pop_entry r ts) → In t ts
unfolding pop_entry
In-pop_entry r [] t m = absurd m
In-pop_entry r (u ∷ ts) t m = elim (Bool-cases (request_eq u.request r)) [
  | inl e ↦ inr (In-pop_entry r ts t (rw (e, pop_entry) at m))
  | inr e ↦ elim (rw (e, pop_entry) at m) [ inl q ↦ inl q | inr k ↦ inr (In-pop_entry r ts t k) ]
]

-- A running task stands in the registry under its key, and no two entries have one id.
record IsOrderly (s : Registry) : Type 0 where
  listed : (t : Task) → In t s.running → entry_of t.request s.entries ≡ some t.id
  below : (t : Task) → In t s.entries → t.id < s.next_id
  apart : (t u : Task) → In t s.entries → In u s.entries → t.id ≡ u.id → t.request ≡ u.request

IsOrderly-start_task :
    (r : Request) (s : Registry)
    → ((t : Task) → In t s.running → t.request ≢ r)
    → IsOrderly s
    → IsOrderly (start_task r s).0
unfolding start_task entry_of
IsOrderly-start_task r s free h =
    let new : Task = record { id = s.next_id; request = r } in
    let own : request_eq r r ≡ true = (request_eq_iff r r).1 refl in
    record {
      listed = λ t m. elim m [
        | inl q ↦ rw q (rw own refl)
        | inr k ↦
            let other : request_eq r t.request ≡ false =
              elim (Bool-cases (request_eq r t.request)) [
                | inl e ↦ absurd (free t k (sym ((request_eq_iff r t.request).0 e)))
                | inr e ↦ e
              ] in
            rw (other, entry_of-pop_entry t.request r s.entries (free t k)) (h.listed t k)
      ];
      below = λ t m. elim m [
        | inl q ↦ rw q (omega arith)
        | inr k ↦ omega (arith, h.below t (In-pop_entry r s.entries t k))
      ];
      apart = λ t u m n e. elim m [
        | inl q ↦ elim n [
          | inl p ↦ ap (λ x. x.request) (q ∙ sym p)
          | inr k ↦
              absurd (omega (arith, h.below u (In-pop_entry r s.entries u k), ap (λ x. x.id) q, e))
        ]
        | inr k ↦ elim n [
          | inl p ↦
              absurd (omega (arith, h.below t (In-pop_entry r s.entries t k), ap (λ x. x.id) p, e))
          | inr l ↦ h.apart t u (In-pop_entry r s.entries t k) (In-pop_entry r s.entries u l) e
        ]
      ];
    }

-- A request that a running task serves is told so, and any other starts a task.
pub record Answers (s : Registry) (r : Request) : Type 0 where
  pub busy : (t : Task) → In t s.running → t.request ≡ r → arrive r s ≡ (s, in_flight t.id)
  pub free : ((t : Task) → In t s.running → t.request ≢ r) → arrive r s ≡ start_task r s

IsOrderly-Answers : (s : Registry) (r : Request) → IsOrderly s → Answers s r
unfolding arrive
IsOrderly-Answers s r h = record {
  busy = λ t m e.
      let entry : entry_of r s.entries ≡ some t.id =
        subst (λ q. entry_of q s.entries ≡ some t.id) e (h.listed t m) in
      rw (entry, In-is_running s.running t m, arrive) refl;
  free = λ none_runs. elim (Option-cases (entry_of r s.entries)) [
    | inl e ↦ rw (e, arrive) refl
    | inr (id, e) ↦ elim (Bool-cases (is_running id s.running)) [
      | inr b ↦ rw (e, b, arrive) refl
      | inl b ↦
          let (t, m, q) = is_running-In id s.running b in
          let (u, i, p, k) = entry_of-In r s.entries id e in
          let (w, j, o, l) = entry_of-In t.request s.entries t.id (h.listed t m) in
          let same : w.id ≡ u.id = omega arith in
          absurd (none_runs t m (sym o ∙ h.apart w u j i same ∙ p))
    ]
  ];
}

IsOrderly-arrive : (r : Request) (s : Registry) → IsOrderly s → IsOrderly (arrive r s).0
unfolding arrive
IsOrderly-arrive r s h = elim (Option-cases (entry_of r s.entries)) [
  | inl e ↦
      let free = λ (t : Task) (m : In t s.running) (q : t.request ≡ r).
        let other : entry_of r s.entries ≡ some t.id =
          subst (λ x. entry_of x s.entries ≡ some t.id) q (h.listed t m) in
        let clash : ⊥ = cc (e, other) in clash in
      rw (e, arrive) (IsOrderly-start_task r s free h)
  | inr (id, e) ↦ elim (Bool-cases (is_running id s.running)) [
    | inl b ↦ rw (e, b, arrive) h
    | inr b ↦
        let free = λ (t : Task) (m : In t s.running) (q : t.request ≡ r).
          let other : entry_of r s.entries ≡ some t.id =
            subst (λ x. entry_of x s.entries ≡ some t.id) q (h.listed t m) in
          let both : some id ≡ some t.id = sym e ∙ other in
          let same : id ≡ t.id = cc (both) in
          let runs : is_running id s.running ≡ true =
            subst (λ x. is_running x s.running ≡ true) (sym same) (In-is_running s.running t m) in
          let clash : ⊥ = cc (b, runs) in clash in
        rw (e, b, arrive) (IsOrderly-start_task r s free h)
  ]
]

IsOrderly-finish : (t : Task) (s : Registry) → In t s.running → IsOrderly s → IsOrderly (finish t s)
unfolding finish
IsOrderly-finish t s m h = record {
  listed = λ u n.
      let (i, differ) = In-stop t.id s.running u n in
      let apart : u.request ≢ t.request = λ q.
        let own = h.listed u i in
        let same : entry_of u.request s.entries ≡ some t.id =
          subst (λ x. entry_of x s.entries ≡ some t.id) (sym q) (h.listed t m) in
        let both : some u.id ≡ some t.id = sym own ∙ same in differ (cc (both)) in
      entry_of-pop_entry u.request t.request s.entries apart ∙ h.listed u i;
  below = λ u n. h.below u (In-pop_entry t.request s.entries u n);
  apart = λ u v i j e.
      h.apart u v (In-pop_entry t.request s.entries u i) (In-pop_entry t.request s.entries v j) e;
}

IsOrderly-abandon : (t : Task) (s : Registry) → IsOrderly s → IsOrderly (abandon t s)
unfolding abandon
IsOrderly-abandon t s h = record {
  listed = λ u n. h.listed u ((In-stop t.id s.running u n).0);
  below = h.below;
  apart = h.apart;
}

Reached-IsOrderly : (s : Registry) → Reached s → IsOrderly s
unfolding idle
Reached-IsOrderly s nothing = record {
  listed = λ t m. absurd m;
  below = λ t m. absurd m;
  apart = λ t u m n e. absurd m;
}
Reached-IsOrderly s (arrived {s = q} r p) = IsOrderly-arrive r q (Reached-IsOrderly q p)
Reached-IsOrderly s (finished {s = q} t m p) = IsOrderly-finish t q m (Reached-IsOrderly q p)
Reached-IsOrderly s (abandoned {s = q} t m p) = IsOrderly-abandon t q (Reached-IsOrderly q p)

-- However requests, ends and cancellations of tasks interleave, no two running tasks refresh one
-- key; a request for a key that a running task refreshes is told that task's id and changes
-- nothing, and any other starts a task.
pub Reached-exclusive :
    (s : Registry)
    → Reached s
    → ((t u : Task) → In t s.running → In u s.running → t.request ≡ u.request → t ≡ u)
      × ((r : Request) → Answers s r)
Reached-exclusive s p =
    let h = Reached-IsOrderly s p in
    (
      λ t u m n e.
          let own : entry_of t.request s.entries ≡ some t.id = h.listed t m in
          let other : entry_of t.request s.entries ≡ some u.id =
            subst (λ x. entry_of x s.entries ≡ some u.id) (sym e) (h.listed u n) in
          let both : some t.id ≡ some u.id = sym own ∙ other in
          let ids : t.id ≡ u.id = cc (both) in
          ap₂ (λ x y. let v : Task = record { id = x; request = y } in v) ids e,
      λ r. IsOrderly-Answers s r h,
    )
