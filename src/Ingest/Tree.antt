-- ===== src/Ingest/Tree.antt =====
-- `build_spanning_tree` is, in each network, a forest below the firewalls over what they reach.
use topology_maps.Prelude.{
  ◌+◌, ◌≡◌, ◌≢◌, ◌∙◌, refl, sym, ap, ap₂, ◌↔◌, ◌⊎◌, inl, inr, Bool, true, List, [], ◌∷◌, length, In,
  arith, subst, Bool-cases,
}
use topology_maps.Text.{Text, text_eq, text_eq_iff, elem}
use topology_maps.Dict.{Dict, has, has-In, IsDict-In}
use topology_maps.Ingest.Graph.{Node, Edge, or_empty}
use topology_maps.Ingest.Spanning.{
  Networks, Adjacency, firewall, by_network, neighbours, link_edges, firewalls, search_fuel,
  search_network, has_pair, add_pairs, search_networks, spanning_types, build_spanning_tree,
}
use topology_maps.Ingest.Links.{Linked, In-link_edges}
use topology_maps.Ingest.Networks.{Stands, by_network-Stands, Placed, Placed-In, IsDict-by_network}
use topology_maps.Ingest.Search.{Reach, root, step, Hangs}
use topology_maps.Ingest.Search.Loop.{Found, search_loop-Found}

abbrev ends : List Edge → List Text
ends [] = []
ends (e ∷ es) = e.source ∷ e.target ∷ ends es

length-ends : (es : List Edge) → length (ends es) ≡ length es + length es
length-ends [] = omega arith
length-ends (e ∷ es) = omega (arith, length-ends es)

In-ends : (es : List Edge) (e : Edge) → In e es → In e.source (ends es) × In e.target (ends es)
In-ends [] e m = absurd m
In-ends (f ∷ es) e (inl q) = (inl (ap (λ x. x.source) q), inr (inl (ap (λ x. x.target) q)))
In-ends (f ∷ es) e (inr m) = let (a, b) = In-ends es e m in (inr (inr a), inr (inr b))

In-firewalls :
    (t : Text) (nodes : Dict Node)
    → In t (firewalls nodes) ↔ ((n : Node) × In (t, n) nodes × (n.node_type ≡ firewall))
unfolding firewalls
In-firewalls t [] = (λ m. absurd m, λ (_, m, _). absurd m)
In-firewalls t ((id, n) ∷ d) = elim (Bool-cases (text_eq n.node_type firewall)) [
  | inl e ↦ rw e (
    λ m. elim m [
      | inl q ↦ (n, inl (ap (λ x. (x, n)) q), (text_eq_iff n.node_type firewall).0 e)
      | inr k ↦ let (o, a, b) = (In-firewalls t d).0 k in (o, inr a, b)
    ],
    λ (o, a, b). elim a [
      | inl q ↦ inl (ap (λ x. x.0) q)
      | inr k ↦ inr ((In-firewalls t d).1 (o, k, b))
    ],
  )
  | inr e ↦ rw e (
    λ m. let (o, a, b) = (In-firewalls t d).0 m in (o, inr a, b),
    λ (o, a, b). elim a [
      | inl q ↦
          let same : o ≡ n = ap (λ x. x.1) q in
          absurd (
            cc (
              e,
              (text_eq_iff n.node_type firewall).1 (subst (λ x. x.node_type ≡ firewall) same b),
            ))
      | inr k ↦ (In-firewalls t d).1 (o, k, b)
    ],
  )
]

module _ (nets : Networks) (edges : List Edge) (net_id : Text) (nodes : Dict Node) where
  -- What links lead to from a firewall of the network.
  pub data Uplinked : Text → Type 0 where
    gateway : {t : Text} (n : Node) → In (t, n) nodes → n.node_type ≡ firewall → Uplinked t
    link : {s t : Text} → Uplinked s → Linked nets edges net_id s t → Uplinked t

  -- Each uplinked device stands below a firewall; a pair is a link from an uplinked device to a
  -- device that is no firewall, which has no other parent.
  pub record IsUplinkForest (pairs : List (Text × Text)) : Type 0 where
    pub hangs : (t : Text) → Uplinked t → Hangs (firewalls nodes) pairs t
    pub linked : (p c : Text) → In (p, c) pairs → Uplinked p × Linked nets edges net_id p c
    pub child_below : (p c : Text) → In (p, c) pairs → ¬ In c (firewalls nodes)
    pub unique : (p q c : Text) → In (p, c) pairs → In (q, c) pairs → p ≡ q

  near : Text → List Text
  near = neighbours (link_edges nets edges []) net_id

  In-near : (s t : Text) → In t (near s) ↔ Linked nets edges net_id s t
  unfolding near neighbours
  In-near s t =
      let both = In-link_edges nets edges net_id s t [] in
      (λ m. elim (both.0 m) [ inl k ↦ absurd k | inr l ↦ l ], λ l. both.1 (inr l))

  near-ends : (s t : Text) → In t (near s) → In t (ends edges)
  near-ends s t m =
      let (e, i, _, j) = (In-near s t).0 m in
      let (a, b) = In-ends edges e i in
      elim j [
        | inl (_, q) ↦ subst (λ x. In x (ends edges)) (sym q) b
        | inr (_, q) ↦ subst (λ x. In x (ends edges)) (sym q) a
      ]

  search_network-Found :
      Found near (firewalls nodes) (search_network edges (link_edges nets edges []) net_id nodes)
  unfolding search_network search_fuel near
  search_network-Found =
      search_loop-Found (neighbours (link_edges nets edges []) net_id) (firewalls nodes)
        (ends edges) (search_fuel edges nodes) near-ends (omega (arith, length-ends edges))

  Reach-Uplinked : (t : Text) → Reach near (firewalls nodes) t → Uplinked t
  Reach-Uplinked t (root m) = let (n, a, b) = (In-firewalls t nodes).0 m in gateway n a b
  Reach-Uplinked t (step {s} r m) = link (Reach-Uplinked s r) ((In-near s t).0 m)

  Uplinked-Reach : (t : Text) → Uplinked t → Reach near (firewalls nodes) t
  Uplinked-Reach t (gateway n a b) = root ((In-firewalls t nodes).1 (n, a, b))
  Uplinked-Reach t (link {s} u l) = step (Uplinked-Reach s u) ((In-near s t).1 l)

  -- The search of a network ends with an empty queue, with exactly what links lead to from a
  -- firewall of the network visited.
  pub search_network-visited :
      ((search_network edges (link_edges nets edges []) net_id nodes).queue ≡ [])
      × ((t : Text)
          → In t (search_network edges (link_edges nets edges []) net_id nodes).visited
            ↔ Uplinked t)
  search_network-visited =
      let found = search_network-Found in
      (
        found.ended,
        λ t. (
          λ m. Reach-Uplinked t ((found.visits t).0 m),
          λ u. (found.visits t).1 (Uplinked-Reach t u),
        ),
      )

  search_network-IsUplinkForest :
      IsUplinkForest (search_network edges (link_edges nets edges []) net_id nodes).contains_pairs
  search_network-IsUplinkForest =
      let found = search_network-Found in
      let f = found.forest in
      record {
        hangs = λ t u. f.hangs t ((search_network-visited.1 t).1 u);
        linked = λ p c m. (
          (search_network-visited.1 p).0 (f.parent_seen p c m),
          (In-near p c).0 (f.child_near p c m),
        );
        child_below = f.child_below;
        unique = f.unique;
      }

pub has_pair_self : (a b : Text) (s : List (Text × Text)) → In (a, b) s → has_pair a b s ≡ true
unfolding has_pair
has_pair_self a b [] m = absurd m
has_pair_self a b ((c, d) ∷ s) (inl q) =
    let p : text_eq c a ≡ true = (text_eq_iff c a).1 (sym (ap (λ x. x.0) q)) in
    let r : text_eq d b ≡ true = (text_eq_iff d b).1 (sym (ap (λ x. x.1) q)) in rw (p, r) refl
has_pair_self a b ((c, d) ∷ s) (inr m) = rw (has_pair_self a b s m) (ground arith)

pub has_pair_In : (a b : Text) (s : List (Text × Text)) → has_pair a b s ≡ true → In (a, b) s
unfolding has_pair
has_pair_In a b [] e = absurd (cc)
has_pair_In a b ((c, d) ∷ s) e = elim (Bool-cases (text_eq c a)) [
  | inr p ↦ inr (has_pair_In a b s (rw p at e))
  | inl p ↦ elim (Bool-cases (text_eq d b)) [
    | inr q ↦ inr (has_pair_In a b s (rw (p, q) at e))
    | inl q ↦ inl (ap₂ (λ x y. (x, y)) (sym ((text_eq_iff c a).0 p)) (sym ((text_eq_iff d b).0 q)))
  ]
]

In-add_pairs :
    (p : Text × Text) (ps s : List (Text × Text)) → In p (add_pairs ps s) ↔ (In p s ⊎ In p ps)
unfolding add_pairs
In-add_pairs p [] s = (inl, λ m. elim m [ inl k ↦ k | inr k ↦ absurd k ])
In-add_pairs p ((a, b) ∷ ps) s = elim (Bool-cases (has_pair a b s)) [
  | inl e ↦
      rw (e, add_pairs)
        (
          λ m. elim ((In-add_pairs p ps s).0 m) [ inl k ↦ inl k | inr k ↦ inr (inr k) ],
          λ m. (In-add_pairs p ps s).1 (elim m [
            | inl k ↦ inl k
            | inr k ↦ elim k [
              | inl q ↦ inl (subst (λ x. In x s) (sym q) (has_pair_In a b s e))
              | inr l ↦ inr l
            ]
          ]),
        )
  | inr e ↦
      rw (e, add_pairs)
        (
          λ m. elim ((In-add_pairs p ps ((a, b) ∷ s)).0 m) [
            | inl k ↦ elim k [ inl q ↦ inr (inl q) | inr l ↦ inl l ]
            | inr k ↦ inr (inr k)
          ],
          λ m. (In-add_pairs p ps ((a, b) ∷ s)).1 (elim m [
            | inl k ↦ inl (inr k)
            | inr k ↦ elim k [ inl q ↦ inl (inl q) | inr l ↦ inr l ]
          ]),
        )
]

abbrev Searched : List Edge → Adjacency → Networks → Text × Text → Type 0
Searched edges adj nets p =
    (net_id : Text) × (nodes : Dict Node) × In (net_id, nodes) nets
    × In p (search_network edges adj net_id nodes).contains_pairs

In-search_networks :
    (edges : List Edge) (adj : Adjacency) (nets : Networks) (p : Text × Text)
    (s : List (Text × Text))
    → In p (search_networks edges adj nets s) ↔ (In p s ⊎ Searched edges adj nets p)
unfolding search_networks
In-search_networks edges adj [] p s = (inl, λ m. elim m [ inl k ↦ k | inr (_, _, k, _) ↦ absurd k ])
In-search_networks edges adj ((net_id, nodes) ∷ nets) p s =
    let found = (search_network edges adj net_id nodes).contains_pairs in
    let rest = In-search_networks edges adj nets p (add_pairs found s) in
    let now = In-add_pairs p found s in
    (
      λ m. elim (rest.0 m) [
        | inl k ↦ elim (now.0 k) [ inl l ↦ inl l | inr l ↦ inr (net_id, nodes, inl refl, l) ]
        | inr (a, b, k, l) ↦ inr (a, b, inr k, l)
      ],
      λ m. rest.1 (elim m [
        | inl k ↦ inl (now.1 (inl k))
        | inr (a, b, k, l) ↦ elim k [
          | inl q ↦ inl (
              now.1 (inr (subst (λ x. In p (search_network edges adj x.0 x.1).contains_pairs) q l)))
          | inr k' ↦ inr (a, b, k', l)
        ]
      ]),
    )

abbrev pub networks_of : List Node → Bool → Networks
networks_of nodes include_aps = by_network (spanning_types include_aps) nodes []

-- Two nodes with the id stand in different networks.
abbrev pub IsSplit : List Node → Text → Type 0
IsSplit nodes id =
    (n : Node) × (m : Node) × In n nodes
    × In m nodes
    × (n.id ≡ id)
    × (m.id ≡ id)
    × (or_empty n.network_id ≢ or_empty m.network_id)

-- The networks hold exactly the nodes of the types that the tree spans. Each network has one tree,
-- which is a forest below its firewalls; the pairs are exactly those of the trees. A child has one
-- parent, but where two nodes with its id stand in different networks.
pub record Spans (nodes : List Node) (edges : List Edge) (include_aps : Bool)
    (pairs : List (Text × Text)) : Type 0 where
  pub stands :
      (net_id id : Text) (n : Node) (ns : Dict Node)
      → In (net_id, ns) (networks_of nodes include_aps)
      → In (id, n) ns
      → Stands (spanning_types include_aps) nodes net_id id n
  pub placed :
      (n : Node)
      → In n nodes
      → elem n.node_type (spanning_types include_aps) ≡ true
      → Placed
          (spanning_types include_aps)
          (networks_of nodes include_aps)
          (or_empty n.network_id)
          n.id
  pub tree : Text → Dict Node → List (Text × Text)
  pub forests :
      (net_id : Text) (ns : Dict Node)
      → In (net_id, ns) (networks_of nodes include_aps)
      → IsUplinkForest (networks_of nodes include_aps) edges net_id ns (tree net_id ns)
  pub exact :
      (p c : Text)
      → In (p, c) pairs ↔ (
          (net_id : Text) × (ns : Dict Node) × In (net_id, ns) (networks_of nodes include_aps)
          × In (p, c) (tree net_id ns))
  pub one_parent : (p q c : Text) → In (p, c) pairs → In (q, c) pairs → (p ≡ q) ⊎ IsSplit nodes c

-- A node of the list for the child of a pair of a network.
child_node :
    (nodes : List Node) (edges : List Edge) (include_aps : Bool) (net_id p c : Text)
    → Linked (networks_of nodes include_aps) edges net_id p c
    → (n : Node) × Stands (spanning_types include_aps) nodes net_id c n
child_node nodes edges include_aps net_id p c (e, _, (ns, i, source, target), joins) =
    let there : has c ns ≡ true = elim joins [
      | inl (_, t) ↦ subst (λ x. has x ns ≡ true) (sym t) target
      | inr (_, t) ↦ subst (λ x. has x ns ≡ true) (sym t) source
    ] in
    let (n, m) = has-In c ns there in
    (n, by_network-Stands (spanning_types include_aps) nodes net_id c n ns i m)

module _ (nodes : List Node) (edges : List Edge) (include_aps : Bool) where
  nets : Networks
  nets = networks_of nodes include_aps

  tree_of : Text → Dict Node → List (Text × Text)
  tree_of net_id ns = (search_network edges (link_edges nets edges []) net_id ns).contains_pairs

  InTree : Text → Text → Type 0
  InTree p c =
      (net_id : Text) × (ns : Dict Node) × In (net_id, ns) nets × In (p, c) (tree_of net_id ns)

  tree_of-IsUplinkForest :
      (net_id : Text) (ns : Dict Node) → IsUplinkForest nets edges net_id ns (tree_of net_id ns)
  unfolding nets tree_of
  tree_of-IsUplinkForest net_id ns =
      search_network-IsUplinkForest (networks_of nodes include_aps) edges net_id ns

  InTree-parent : (p q c : Text) → InTree p c → InTree q c → (p ≡ q) ⊎ IsSplit nodes c
  unfolding nets InTree
  InTree-parent p q c (a, ns, i, k) (b, ms, j, l) = elim (Bool-cases (text_eq a b)) [
    | inl e ↦
        let same : a ≡ b = (text_eq_iff a b).0 e in
        let d = IsDict-by_network (spanning_types include_aps) nodes [] tt in
        let one : ms ≡ ns =
          IsDict-In a ms ns nets d (subst (λ x. In (x, ms) nets) (sym same) j) i in
        let l' : In (q, c) (tree_of a ns) =
          subst (λ x. In (q, c) (tree_of a x)) one
            (subst (λ x. In (q, c) (tree_of x ms)) (sym same) l) in
        inl ((tree_of-IsUplinkForest a ns).unique p q c k l')
    | inr e ↦
        let (n, s) =
          child_node nodes edges include_aps a p c ((tree_of-IsUplinkForest a ns).linked p c k).1 in
        let (m, t) =
          child_node nodes edges include_aps b q c ((tree_of-IsUplinkForest b ms).linked q c l).1 in
        inr (
          n,
          m,
          s.listed,
          t.listed,
          s.named,
          t.named,
          λ r. cc (e, (text_eq_iff a b).1 (sym s.network ∙ r ∙ t.network)),
        )
  ]

  -- Whatever the nodes and edges, the networks hold exactly the nodes of the types that the tree
  -- spans; each network has one forest of links below its firewalls, in which every device that
  -- links lead to from a firewall hangs and no child has two parents; the pairs are exactly those
  -- of these forests; and two pairs with one child have one parent, unless two nodes with its id
  -- stand in different networks.
  pub build_spanning_tree-Spans :
      Spans nodes edges include_aps (build_spanning_tree nodes edges include_aps)
  unfolding build_spanning_tree nets tree_of InTree
  build_spanning_tree-Spans =
      let found : (p c : Text)
          → In (p, c) (build_spanning_tree nodes edges include_aps) ↔ InTree p c =
        λ p c.
          let both = In-search_networks edges (link_edges nets edges []) nets (p, c) [] in
          (λ m. elim (both.0 m) [ inl k ↦ absurd k | inr k ↦ k ], λ k. both.1 (inr k)) in
      record {
        stands = λ net_id id n ns i j.
            by_network-Stands (spanning_types include_aps) nodes net_id id n ns i j;
        placed = λ n i e. Placed-In (spanning_types include_aps) nodes [] n i e;
        tree = tree_of;
        forests = λ net_id ns i. tree_of-IsUplinkForest net_id ns;
        exact = found;
        one_parent = λ p q c i j. InTree-parent p q c ((found p c).0 i) ((found q c).0 j);
      }
