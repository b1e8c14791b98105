-- ===== src/Ingest/Links.antt =====
-- The adjacency of a network holds exactly the ends of its links.
use topology_maps.Prelude.{
  ◌≡◌, refl, sym, ap, ◌↔◌, ◌⊎◌, inl, inr, true, ◌&&◌, List, [], ◌∷◌, In, subst, if◌then◌else◌,
  Bool-cases,
}
use topology_maps.Text.{Text, text_eq, text_eq_iff, elem}
use topology_maps.Dict.{Dict, has, put, get_or, get_or-put, elem_iff}
use topology_maps.Ingest.Graph.{Node, Edge}
use topology_maps.Ingest.Spanning.{
  Networks, Adjacency, add, neighbours, add_neighbour, link_edge, link_edges,
}

-- Both ends of the link are nodes of the network.
abbrev pub Holds : Networks → Text → Edge → Type 0
Holds nets net_id e =
    (nodes : Dict Node) × In (net_id, nodes) nets
    × (has e.source nodes ≡ true)
    × (has e.target nodes ≡ true)

abbrev pub Joins : Edge → Text → Text → Type 0
Joins e s t = (s ≡ e.source) × (t ≡ e.target) ⊎ (s ≡ e.target) × (t ≡ e.source)

-- A link joins two nodes of the network.
abbrev pub Linked : Networks → List Edge → Text → Text → Text → Type 0
Linked nets edges net_id s t = (e : Edge) × In e edges × Holds nets net_id e × Joins e s t

In-add : (t b : Text) (ts : List Text) → In t (add b ts) ↔ (In t ts ⊎ (t ≡ b))
unfolding add
In-add t b ts = elim (Bool-cases (elem b ts)) [
  | inl e ↦
      rw (e, add)
        (
          inl,
          λ m. elim m [ inl q ↦ q | inr q ↦ subst (λ x. In x ts) (sym q) ((elem_iff b ts).0 e) ],
        )
  | inr e ↦
      rw (e, add)
        (
          λ m. elim m [ inl q ↦ inr q | inr q ↦ inl q ],
          λ m. elim m [ inl q ↦ inr q | inr q ↦ inl q ],
        )
]

neighbours-add_neighbour :
    (n a b net s : Text) (adj : Adjacency)
    → neighbours (add_neighbour n a b adj) net s ≡ (
        if text_eq n net && text_eq a s then add b (neighbours adj net s) else neighbours adj net s)
unfolding neighbours add_neighbour
neighbours-add_neighbour n a b net s adj =
    rw (get_or-put net n (put a (add b (get_or a [] (get_or n [] adj))) (get_or n [] adj)) [] adj)
      (elim (Bool-cases (text_eq n net)) [
        | inr e ↦ rw e refl
        | inl e ↦
            let same : n ≡ net = (text_eq_iff n net).0 e in
            rw (e, same)
              (rw (get_or-put s a (add b (get_or a [] (get_or net [] adj))) [] (get_or net [] adj))
                (elim (Bool-cases (text_eq a s)) [
                  | inr q ↦ rw q refl
                  | inl q ↦ let here : a ≡ s = (text_eq_iff a s).0 q in rw (q, here) refl
                ]))
      ])

In-add_neighbour :
    (n a b net s t : Text) (adj : Adjacency)
    → In t (neighbours (add_neighbour n a b adj) net s)
      ↔ (In t (neighbours adj net s) ⊎ ((net ≡ n) × (s ≡ a) × (t ≡ b)))
In-add_neighbour n a b net s t adj =
    rw (neighbours-add_neighbour n a b net s adj) (elim (Bool-cases (text_eq n net)) [
      | inr e ↦ rw e (
        inl,
        λ m. elim m [ inl q ↦ q | inr (p, _, _) ↦ absurd (cc (e, (text_eq_iff n net).1 (sym p))) ],
      )
      | inl e ↦ elim (Bool-cases (text_eq a s)) [
        | inr f ↦
            rw (e, f)
              (
                inl,
                λ m. elim m [
                  | inl q ↦ q
                  | inr (_, p, _) ↦ absurd (cc (f, (text_eq_iff a s).1 (sym p)))
                ],
              )
        | inl f ↦
            rw (e, f)
              (
                λ m. elim ((In-add t b (neighbours adj net s)).0 m) [
                  | inl q ↦ inl q
                  | inr q ↦ inr (sym ((text_eq_iff n net).0 e), sym ((text_eq_iff a s).0 f), q)
                ],
                λ m.
                    (In-add t b (neighbours adj net s)).1
                      (elim m [ inl q ↦ inl q | inr (_, _, q) ↦ inr q ]),
              )
      ]
    ])

-- One network's share of a link.
link_network : Text → Dict Node → Edge → Adjacency → Adjacency
unfolding add_neighbour has
link_network n nodes e adj =
    if has e.source nodes && has e.target nodes
    then add_neighbour n e.target e.source (add_neighbour n e.source e.target adj)
    else adj

In-link_network :
    (n : Text) (nodes : Dict Node) (e : Edge) (net s t : Text) (adj : Adjacency)
    → In t (neighbours (link_network n nodes e adj) net s) ↔ (
        In t (neighbours adj net s)
        ⊎ ((net ≡ n) × (has e.source nodes ≡ true) × (has e.target nodes ≡ true) × Joins e s t))
unfolding link_network
In-link_network n nodes e net s t adj = elim (Bool-cases (has e.source nodes)) [
  | inr f ↦ rw f (inl, λ m. elim m [ inl q ↦ q | inr (_, p, _, _) ↦ cc (p) ])
  | inl f ↦ elim (Bool-cases (has e.target nodes)) [
    | inr g ↦ rw (f, g) (inl, λ m. elim m [ inl q ↦ q | inr (_, _, p, _) ↦ cc (p) ])
    | inl g ↦
        let first = In-add_neighbour n e.source e.target net s t adj in
        let second =
          In-add_neighbour n e.target e.source net s t (add_neighbour n e.source e.target adj) in
        rw (f, g)
          (
            λ m. elim (second.0 m) [
              | inl q ↦ elim (first.0 q) [
                | inl r ↦ inl r
                | inr (p, a, b) ↦ inr (p, refl, refl, inl (a, b))
              ]
              | inr (p, a, b) ↦ inr (p, refl, refl, inr (a, b))
            ],
            λ m. second.1 (elim m [
              | inl q ↦ inl (first.1 (inl q))
              | inr (p, _, _, j) ↦ elim j [
                | inl (a, b) ↦ inl (first.1 (inr (p, a, b)))
                | inr (a, b) ↦ inr (p, a, b)
              ]
            ]),
          )
  ]
]

In-link_edge :
    (nets : Networks) (e : Edge) (net s t : Text) (adj : Adjacency)
    → In t (neighbours (link_edge nets e adj) net s)
      ↔ (In t (neighbours adj net s) ⊎ (Holds nets net e × Joins e s t))
unfolding link_edge link_network
In-link_edge [] e net s t adj = (inl, λ m. elim m [ inl q ↦ q | inr ((_, i, _, _), _) ↦ absurd i ])
In-link_edge ((n, nodes) ∷ nets) e net s t adj =
    let rest = In-link_edge nets e net s t (link_network n nodes e adj) in
    let now = In-link_network n nodes e net s t adj in
    (
      λ m. elim (rest.0 m) [
        | inl q ↦ elim (now.0 q) [
          | inl r ↦ inl r
          | inr (p, f, g, j) ↦ inr ((nodes, inl (ap (λ x. (x, nodes)) p), f, g), j)
        ]
        | inr ((d, i, f, g), j) ↦ inr ((d, inr i, f, g), j)
      ],
      λ m. rest.1 (elim m [
        | inl q ↦ inl (now.1 (inl q))
        | inr ((d, i, f, g), j) ↦ elim i [
          | inl q ↦
              let same : d ≡ nodes = ap (λ x. x.1) q in
              inl (
                now.1 (
                  inr (
                    ap (λ x. x.0) q,
                    subst (λ x. has e.source x ≡ true) same f,
                    subst (λ x. has e.target x ≡ true) same g,
                    j,
                  )))
          | inr k ↦ inr ((d, k, f, g), j)
        ]
      ]),
    )

pub In-link_edges :
    (nets : Networks) (edges : List Edge) (net s t : Text) (adj : Adjacency)
    → In t (neighbours (link_edges nets edges adj) net s)
      ↔ (In t (neighbours adj net s) ⊎ Linked nets edges net s t)
unfolding link_edges
In-link_edges nets [] net s t adj = (inl, λ m. elim m [ inl q ↦ q | inr (_, i, _, _) ↦ absurd i ])
In-link_edges nets (e ∷ es) net s t adj =
    let rest = In-link_edges nets es net s t (link_edge nets e adj) in
    let now = In-link_edge nets e net s t adj in
    (
      λ m. elim (rest.0 m) [
        | inl q ↦ elim (now.0 q) [ inl r ↦ inl r | inr (h, j) ↦ inr (e, inl refl, h, j) ]
        | inr (f, i, h, j) ↦ inr (f, inr i, h, j)
      ],
      λ m. rest.1 (elim m [
        | inl q ↦ inl (now.1 (inl q))
        | inr (f, i, h, j) ↦ elim i [
          | inl q ↦ inl (now.1 (inr (subst (Holds nets net) q h, subst (λ x. Joins x s t) q j)))
          | inr k ↦ inr (f, k, h, j)
        ]
      ]),
    )
