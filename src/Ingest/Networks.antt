-- ===== src/Ingest/Networks.antt =====
-- `by_network` of `build_spanning_tree` holds exactly the nodes of the types that the tree spans.
use topology_maps.Prelude.{
  ◌≡◌, refl, sym, ◌⊎◌, inl, inr, true, some, List, [], ◌∷◌, In, arith, subst, if◌then◌else◌,
  Bool-cases, Option-cases,
}
use topology_maps.Text.{Text, text_eq, text_eq_iff, text_eq_refl, elem}
use topology_maps.Dict.{
  Dict, get, has, put, get_or, get-put, In-put, get-In, has-put, get_or-some, get_or-none, IsDict,
  IsDict-put,
}
use topology_maps.Ingest.Graph.{Node, or_empty}
use topology_maps.Ingest.Spanning.{Networks, by_network}

-- The node is one of the list, in the network and under the id.
pub record Stands (types : List Text) (nodes : List Node) (net_id id : Text) (n : Node)
    : Type 0 where
  pub listed : In n nodes
  pub spans : elem n.node_type types ≡ true
  pub network : or_empty n.network_id ≡ net_id
  pub named : n.id ≡ id

abbrev Filed : Networks → Text → Text → Node → Type 0
Filed nets net_id id n = (nodes : Dict Node) × In (net_id, nodes) nets × In (id, n) nodes

In-get_or :
    {V : Type 0} (k : Text) (j : Text) (v : V) (d : Dict (Dict V))
    → In (j, v) (get_or k [] d)
    → (e : Dict V) × In (k, e) d × In (j, v) e
In-get_or k j v d m = elim (Option-cases (get k d)) [
  | inl q ↦ absurd (subst (In (j, v)) (get_or-none k [] d q) m)
  | inr (e, q) ↦ (e, get-In k d e q, subst (In (j, v)) (get_or-some k [] e d q) m)
]

module _ (types : List Text) where
  -- One round of the loop.
  file : Node → Networks → Networks
  unfolding put get_or
  file n nets =
      let net_id = or_empty n.network_id in
      if elem n.node_type types then put net_id (put n.id n (get_or net_id [] nets)) nets else nets

  Filed-file :
      (m : Node) (nets : Networks) (net_id id : Text) (n : Node)
      → Filed (file m nets) net_id id n
      → Stands types (m ∷ []) net_id id n ⊎ Filed nets net_id id n
  unfolding file
  Filed-file m nets net_id id n (nodes, i, j) = elim (Bool-cases (elem m.node_type types)) [
    | inr e ↦ inr (nodes, rw (e, file) at i, j)
    | inl e ↦
        let at_net : Text = or_empty m.network_id in
        let new : Dict Node = put m.id m (get_or at_net [] nets) in
        let i' : In (net_id, nodes) (put at_net new nets) = rw (e, file) at i in
        elim (In-put net_id at_net nodes new nets i') [
          | inr k ↦ inr (nodes, k, j)
          | inl (p, q) ↦
              let j' : In (id, n) new = subst (In (id, n)) q j in
              elim (In-put id m.id n m (get_or at_net [] nets) j') [
                | inl (r, s) ↦ inl (record {
                  listed = inl s;
                  spans = subst (λ x. elem x.node_type types ≡ true) (sym s) e;
                  network = subst (λ x. or_empty x.network_id ≡ net_id) (sym s) (sym p);
                  named = subst (λ x. x.id ≡ id) (sym s) (sym r);
                })
                | inr k ↦
                    let (old, a, b) = In-get_or at_net id n nets k in
                    inr (old, subst (λ x. In (x, old) nets) (sym p) a, b)
              ]
        ]
  ]

  Stands-head :
      (m : Node) (ms : List Node) (net_id id : Text) (n : Node)
      → Stands types (m ∷ []) net_id id n
      → Stands types (m ∷ ms) net_id id n
  Stands-head m ms net_id id n s = record {
    listed = elim s.listed [ inl e ↦ inl e | inr k ↦ absurd k ];
    spans = s.spans;
    network = s.network;
    named = s.named;
  }

  Filed-by_network :
      (ms : List Node) (nets : Networks) (net_id id : Text) (n : Node)
      → Filed (by_network types ms nets) net_id id n
      → Stands types ms net_id id n ⊎ Filed nets net_id id n
  unfolding by_network file
  Filed-by_network [] nets net_id id n f = inr f
  Filed-by_network (m ∷ ms) nets net_id id n f =
      elim (Filed-by_network ms (file m nets) net_id id n f) [
        | inl s ↦ inl (record {
          listed = inr s.listed;
          spans = s.spans;
          network = s.network;
          named = s.named;
        })
        | inr g ↦ elim (Filed-file m nets net_id id n g) [
          | inl s ↦ inl (Stands-head m ms net_id id n s)
          | inr h ↦ inr h
        ]
      ]

  pub by_network-Stands :
      (ms : List Node) (net_id id : Text) (n : Node) (nodes : Dict Node)
      → In (net_id, nodes) (by_network types ms [])
      → In (id, n) nodes
      → Stands types ms net_id id n
  by_network-Stands ms net_id id n nodes i j =
      elim (Filed-by_network ms [] net_id id n (nodes, i, j)) [
        | inl s ↦ s
        | inr (_, k, _) ↦ absurd k
      ]

  abbrev pub Placed : Networks → Text → Text → Type 0
  Placed nets net_id id =
      (nodes : Dict Node) × (get net_id nets ≡ some nodes) × (has id nodes ≡ true)

  Placed-file :
      (m : Node) (nets : Networks) (net_id id : Text)
      → Placed nets net_id id
      → Placed (file m nets) net_id id
  unfolding file
  Placed-file m nets net_id id (nodes, e, h) = elim (Bool-cases (elem m.node_type types)) [
    | inr f ↦ rw (f, file) (nodes, e, h)
    | inl f ↦
        let at_net : Text = or_empty m.network_id in
        let new : Dict Node = put m.id m (get_or at_net [] nets) in
        rw (f, file, get-put net_id at_net new nets)
          (elim (Bool-cases (text_eq at_net net_id)) [
            | inr g ↦ rw g (nodes, e, h)
            | inl g ↦
                let same : at_net ≡ net_id = (text_eq_iff at_net net_id).0 g in
                let e' : get at_net nets ≡ some nodes = rw same e in
                rw g (
                  new,
                  refl,
                  rw (get_or-some at_net [] nodes nets e', has-put id m.id m nodes) (ground arith),
                )
          ])
  ]

  Placed-by_network :
      (ms : List Node) (nets : Networks) (net_id id : Text)
      → Placed nets net_id id
      → Placed (by_network types ms nets) net_id id
  unfolding by_network file
  Placed-by_network [] nets net_id id p = p
  Placed-by_network (m ∷ ms) nets net_id id p =
      Placed-by_network ms (file m nets) net_id id (Placed-file m nets net_id id p)

  Placed-file_self :
      (m : Node) (nets : Networks)
      → elem m.node_type types ≡ true
      → Placed (file m nets) (or_empty m.network_id) m.id
  unfolding file
  Placed-file_self m nets e =
      let at_net : Text = or_empty m.network_id in
      let new : Dict Node = put m.id m (get_or at_net [] nets) in
      rw (e, file, get-put at_net at_net new nets, text_eq_refl at_net)
        (new, refl, rw (has-put m.id m.id m (get_or at_net [] nets), text_eq_refl m.id) refl)

  pub Placed-In :
      (ms : List Node) (nets : Networks) (m : Node)
      → In m ms
      → elem m.node_type types ≡ true
      → Placed (by_network types ms nets) (or_empty m.network_id) m.id
  unfolding by_network file
  Placed-In [] nets m i e = absurd i
  Placed-In (n ∷ ms) nets m (inl q) e =
      let here : Placed (file n nets) (or_empty m.network_id) m.id =
        subst (λ x. Placed (file x nets) (or_empty m.network_id) m.id) q
          (Placed-file_self m nets e) in
      Placed-by_network ms (file n nets) (or_empty m.network_id) m.id here
  Placed-In (n ∷ ms) nets m (inr i) e = Placed-In ms (file n nets) m i e

  IsDict-file : (m : Node) (nets : Networks) → IsDict nets → IsDict (file m nets)
  unfolding file
  IsDict-file m nets d = elim (Bool-cases (elem m.node_type types)) [
    | inl e ↦
        rw (e, file)
          (IsDict-put (or_empty m.network_id) (put m.id m (get_or (or_empty m.network_id) [] nets))
            nets d)
    | inr e ↦ rw (e, file) d
  ]

  -- No network stands twice.
  pub IsDict-by_network :
      (ms : List Node) (nets : Networks) → IsDict nets → IsDict (by_network types ms nets)
  unfolding by_network file
  IsDict-by_network [] nets d = d
  IsDict-by_network (m ∷ ms) nets d = IsDict-by_network ms (file m nets) (IsDict-file m nets d)
