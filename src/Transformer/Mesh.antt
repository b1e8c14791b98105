-- ===== src/Transformer/Mesh.antt =====
-- The routes of `build_l3`: one for each two subnets, in the order of the subnets.
use topology_maps.Prelude.{
  ℕ, ◌+◌, ◌*◌, ◌≡◌, refl, ◌∙◌, ap, ◌↔◌, ◌⊎◌, inl, inr, true, false, some, List, [], ◌∷◌, ◌++◌,
  length, length-append, In, In-append, In-append_left, In-append_right, arith, ltb, subst,
  Bool-cases, Option-cases,
}
use topology_maps.Text.{Text}
use topology_maps.Dict.{Dict}
use topology_maps.Ingest.Graph.{truthy}
use topology_maps.Transformer.Layer2.{DeviceData}
use topology_maps.Transformer.Layer3.{
  VlanData, Subnet, Route, gateway_serial, subnet_of, subnets_of, all_subnets, routes_from, mesh,
  build_l3,
}

-- One item stands before another.
abbrev pub Before : {A : Type 0} → A → A → List A → Type 0
Before a b [] = ⊥
Before a b (x ∷ xs) = ((a ≡ x) × In b xs) ⊎ Before a b xs

abbrev pub route_between : Text → Subnet → Subnet → Route
route_between via a b = record { from_subnet = a.id; to_subnet = b.id; via = via }

In-routes_from :
    (via : Text) (src : Subnet) (subnets : List Subnet) (r : Route)
    → In r (routes_from via src subnets)
      ↔ ((b : Subnet) × In b subnets × (r ≡ route_between via src b))
unfolding routes_from
In-routes_from via src [] r = (λ m. absurd m, λ (_, m, _). absurd m)
In-routes_from via src (d ∷ subnets) r =
    let rest = In-routes_from via src subnets r in
    (
      λ m. elim m [ inl q ↦ (d, inl refl, q) | inr k ↦ let (b, i, q) = rest.0 k in (b, inr i, q) ],
      λ (b, i, q). elim i [
        | inl same ↦ inl (q ∙ ap (route_between via src) same)
        | inr k ↦ inr (rest.1 (b, k, q))
      ],
    )

In-mesh :
    (via : Text) (subnets : List Subnet) (r : Route)
    → In r (mesh via subnets) ↔ ((a b : Subnet) × Before a b subnets × (r ≡ route_between via a b))
unfolding mesh
In-mesh via [] r = (λ m. absurd m, λ (_, _, m, _). absurd m)
In-mesh via (s ∷ subnets) r =
    let now = In-routes_from via s subnets r in
    let rest = In-mesh via subnets r in
    (
      λ m. elim (In-append r (routes_from via s subnets) (mesh via subnets) m) [
        | inl k ↦ let (b, i, q) = now.0 k in (s, b, inl (refl, i), q)
        | inr k ↦ let (a, b, i, q) = rest.0 k in (a, b, inr i, q)
      ],
      λ (a, b, i, q). elim i [
        | inl (same, j) ↦
            In-append_left r (routes_from via s subnets) (mesh via subnets)
              (now.1 (b, j, q ∙ ap (λ x. route_between via x b) same))
        | inr k ↦
            In-append_right r (routes_from via s subnets) (mesh via subnets) (rest.1 (a, b, k, q))
      ],
    )

length-routes_from :
    (via : Text) (src : Subnet) (subnets : List Subnet)
    → length (routes_from via src subnets) ≡ length subnets
unfolding routes_from
length-routes_from via src [] = refl
length-routes_from via src (d ∷ subnets) = omega (arith, length-routes_from via src subnets)

-- Twice the routes are n (n - 1), for n subnets.
length-mesh :
    (via : Text) (subnets : List Subnet)
    → length (mesh via subnets) + length (mesh via subnets) + length subnets
      ≡ length subnets * length subnets
unfolding mesh
length-mesh via [] = omega arith
length-mesh via (s ∷ subnets) = grind (
  arith,
  length-mesh via subnets,
  length-routes_from via s subnets,
  length-append (routes_from via s subnets) (mesh via subnets),
)

In-subnets_of :
    (network_id : Text) (vlans : List VlanData) (v : VlanData) (id : ℕ)
    → In v vlans
    → v.id ≡ some id
    → In (subnet_of network_id id v) (subnets_of network_id vlans)
unfolding subnets_of
In-subnets_of network_id [] v id m e = absurd m
In-subnets_of network_id (w ∷ vlans) v id (inl q) e =
    let at : w.id ≡ some id = subst (λ x. x.id ≡ some id) q e in
    rw (at, subnets_of) (inl (ap (subnet_of network_id id) q))
In-subnets_of network_id (w ∷ vlans) v id (inr m) e = elim (Option-cases w.id) [
  | inl q ↦ rw (q, subnets_of) (In-subnets_of network_id vlans v id m e)
  | inr (k, q) ↦ rw (q, subnets_of) (inr (In-subnets_of network_id vlans v id m e))
]

In-all_subnets :
    (nets : Dict (List VlanData)) (network_id : Text) (vlans : List VlanData) (s : Subnet)
    → In (network_id, vlans) nets
    → In s (subnets_of network_id vlans)
    → In s (all_subnets nets)
unfolding all_subnets
In-all_subnets [] network_id vlans s m i = absurd m
In-all_subnets ((k, ws) ∷ nets) network_id vlans s (inl q) i =
    In-append_left s (subnets_of k ws) (all_subnets nets)
      (subst (λ x. In s (subnets_of x.0 x.1)) q i)
In-all_subnets ((k, ws) ∷ nets) network_id vlans s (inr m) i =
    In-append_right s (subnets_of k ws) (all_subnets nets)
      (In-all_subnets nets network_id vlans s m i)

Before-append : {A : Type 0} (a b : A) (xs ys : List A) → In a xs → In b ys → Before a b (xs ++ ys)
Before-append a b [] ys m n = absurd m
Before-append a b (x ∷ xs) ys (inl e) n = inl (e, In-append_right b xs ys n)
Before-append a b (x ∷ xs) ys (inr m) n = inr (Before-append a b xs ys m n)

Before-append_right :
    {A : Type 0} (a b : A) (xs ys : List A) → Before a b ys → Before a b (xs ++ ys)
Before-append_right a b [] ys h = h
Before-append_right a b (x ∷ xs) ys h = inr (Before-append_right a b xs ys h)

Before-all_subnets :
    (nets : Dict (List VlanData)) (p q : Text × List VlanData) (s t : Subnet)
    → Before p q nets
    → In s (subnets_of p.0 p.1)
    → In t (subnets_of q.0 q.1)
    → Before s t (all_subnets nets)
unfolding all_subnets
Before-all_subnets [] p q s t h i j = absurd h
Before-all_subnets ((k, ws) ∷ nets) p q s t (inl (e, m)) i j =
    Before-append s t (subnets_of k ws) (all_subnets nets)
      (subst (λ x. In s (subnets_of x.0 x.1)) e i) (In-all_subnets nets q.0 q.1 t m j)
Before-all_subnets ((k, ws) ∷ nets) p q s t (inr h) i j =
    Before-append_right s t (subnets_of k ws) (all_subnets nets)
      (Before-all_subnets nets p q s t h i j)

mesh_few :
    (via : Text) (subnets : List Subnet) → ltb 1 (length subnets) ≡ false → mesh via subnets ≡ []
unfolding mesh routes_from
mesh_few via [] h = refl
mesh_few via (s ∷ []) h = refl
mesh_few via (s ∷ t ∷ subnets) h = absurd (ground arith)

-- The routes of an organisation whose gateway is `via`.
pub record IsMesh (via : Text) (nets : Dict (List VlanData)) (routes : List Route) : Type 0 where
  pub pairs :
      (r : Route)
      → In r routes ↔ ((a b : Subnet) × Before a b (all_subnets nets) × (r ≡ route_between via a b))
  pub count :
      length routes + length routes + length (all_subnets nets)
      ≡ length (all_subnets nets) * length (all_subnets nets)
  pub loops :
      (p q : Text × List VlanData) (v w : VlanData) (id : ℕ)
      → Before p q nets
      → In v p.1
      → In w q.1
      → v.id ≡ some id
      → w.id ≡ some id
      → (r : Route) × In r routes × (r.from_subnet ≡ r.to_subnet)

-- Where an appliance has a serial, there is a route for each two subnets, in the order of the
-- subnets, so that twice their number is n (n - 1); two networks with VLANs of one id give a route
-- from a subnet's id to itself. Without such an appliance there is no route.
pub build_l3-IsMesh :
    (nets : Dict (List VlanData)) (devices : List DeviceData)
    → (truthy (gateway_serial devices) ≡ true
        → IsMesh (gateway_serial devices) nets (build_l3 nets devices).1)
      × (truthy (gateway_serial devices) ≡ false → (build_l3 nets devices).1 ≡ [])
unfolding build_l3 subnet_of
build_l3-IsMesh nets devices =
    let via = gateway_serial devices in
    let subnets = all_subnets nets in
    let loop =
      λ (p q : Text × List VlanData) (v w : VlanData) (id : ℕ) (h : Before p q nets) (i : In v p.1)
          (j : In w q.1) (e : v.id ≡ some id) (f : w.id ≡ some id).
        Before-all_subnets nets p q (subnet_of p.0 id v) (subnet_of q.0 id w) h
          (In-subnets_of p.0 p.1 v id i e) (In-subnets_of q.0 q.1 w id j f) in
    let full : IsMesh via nets (mesh via subnets) = record {
      pairs = λ r. In-mesh via subnets r;
      count = length-mesh via subnets;
      loops = λ p q v w id h i j e f. (
        route_between via (subnet_of p.0 id v) (subnet_of q.0 id w),
        (In-mesh via subnets (route_between via (subnet_of p.0 id v) (subnet_of q.0 id w))).1
            (subnet_of p.0 id v, subnet_of q.0 id w, loop p q v w id h i j e f, refl),
        refl,
      );
    } in
    (
      λ known. elim (Bool-cases (ltb 1 (length subnets))) [
        | inl many ↦ rw (known, many) full
        | inr few ↦ rw (known, few) (subst (IsMesh via nets) (mesh_few via subnets few) full)
      ],
      λ unknown. rw unknown refl,
    )
