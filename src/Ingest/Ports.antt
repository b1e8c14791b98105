-- ===== src/Ingest/Ports.antt =====
-- The exception of a null port, and what `main` has done when it comes.
use topology_maps.Prelude.{
  ◌≡◌, refl, ◌↔◌, inl, inr, Bool, true, not, ◌++◌, none, List, [], ◌∷◌, In, arith, subst,
  Bool-cases, Option-cases,
}
use topology_maps.Text.{Text, elem}
use topology_maps.Dict.{elem_iff}
use topology_maps.Ingest.Graph.{Edge, Node, Lookups, Snapshot}
use topology_maps.Ingest.Spanning.{access_point}
use topology_maps.Ingest.Generate.{port_ap, port_aps, ids_of, generate_relationships}
use topology_maps.Ingest.Send.{Log, NerdGraph, raised, rebuild}
use topology_maps.Ingest.Rebuild.{Answers, deletions, delete_plan, rebuild_deleted}

In-ids_of :
    (id : Text) (types : List Text) (nodes : List Node)
    → In id (ids_of types nodes)
      ↔ ((n : Node) × In n nodes × (elem n.node_type types ≡ true) × (id ≡ n.id))
unfolding ids_of
In-ids_of id types [] = (λ m. absurd m, λ (_, m, _, _). absurd m)
In-ids_of id types (n ∷ ns) = elim (Bool-cases (elem n.node_type types)) [
  | inl e ↦
      rw (e, ids_of)
        (
          λ m. elim m [
            | inl q ↦ (n, inl refl, e, q)
            | inr k ↦ let (o, a, b, c) = (In-ids_of id types ns).0 k in (o, inr a, b, c)
          ],
          λ (o, a, b, c). elim a [
            | inl q ↦ inl (subst (λ x. id ≡ x.id) q c)
            | inr k ↦ inr ((In-ids_of id types ns).1 (o, k, b, c))
          ],
        )
  | inr e ↦
      rw (e, ids_of)
        (
          λ m. let (o, a, b, c) = (In-ids_of id types ns).0 m in (o, inr a, b, c),
          λ (o, a, b, c). elim a [
            | inl q ↦
                let f : elem n.node_type types ≡ true =
                  subst (λ x. elem x.node_type types ≡ true) q b in
                cc (e, f)
            | inr k ↦ (In-ids_of id types ns).1 (o, k, b, c)
          ],
        )
]

module _ (m : Lookups) (aps : List Text) where
  abbrev NullPort : Edge → Type 0
  NullPort e = (elem e.target aps ≡ true) × (e.source_port ≡ none)

  port_ap-none : (e : Edge) → (port_ap m aps e ≡ none) ↔ NullPort e
  unfolding port_ap
  port_ap-none e = elim (Bool-cases (elem e.target aps)) [
    | inr t ↦ rw (t, port_ap) (λ q. cc (q), λ (q, _). cc (q))
    | inl t ↦ elim (Option-cases e.source_port) [
      | inl p ↦ rw (t, p, port_ap) (λ q. (refl, refl), λ q. refl)
      | inr (port, p) ↦ rw (t, p, port_ap) (λ q. cc (q), λ (_, q). cc (q))
    ]
  ]

  port_aps-none :
      (es : List Edge) → (port_aps m aps es ≡ none) ↔ ((e : Edge) × In e es × NullPort e)
  unfolding port_aps
  port_aps-none [] = (λ q. cc (q), λ (_, i, _). absurd i)
  port_aps-none (e ∷ es) = elim (Option-cases (port_ap m aps e)) [
    | inl p ↦ rw (p, port_aps) (λ q. (e, inl refl, (port_ap-none e).0 p), λ q. refl)
    | inr (rels, p) ↦
        let whole : ¬ NullPort e = λ n. cc (p, (port_ap-none e).1 n) in
        (
          λ q.
              let later : port_aps m aps es ≡ none = ground (arith) in
              let (f, i, n) = (port_aps-none es).0 later in (f, inr i, n),
          λ (f, i, n). elim i [
            | inl same ↦ absurd (whole (subst NullPort same n))
            | inr k ↦ rw (p, (port_aps-none es).1 (f, k, n), port_aps) refl
          ],
        )
  ]

-- An edge leads to an access point, and its source port is null.
pub record LacksPort (s : Snapshot) (e : Edge) (n : Node) : Type 0 where
  pub linked : In e s.edges
  pub listed : In n s.nodes
  pub is_ap : n.node_type ≡ access_point
  pub target : e.target ≡ n.id
  pub no_port : e.source_port ≡ none

ap_elem : (t : Text) → (elem t (access_point ∷ []) ≡ true) ↔ (t ≡ access_point)
ap_elem t = (
  λ e. elim ((elem_iff t (access_point ∷ [])).0 e) [ inl q ↦ q | inr k ↦ absurd k ],
  λ q. (elem_iff t (access_point ∷ [])).1 (inl q),
)

-- The generation of the relationships raises exactly where an edge to an access point has no
-- source port.
pub generate_relationships-none :
    (s : Snapshot) (m : Lookups) (include_vlans : Bool)
    → (generate_relationships s m include_vlans ≡ none)
      ↔ ((e : Edge) × (n : Node) × LacksPort s e n)
unfolding generate_relationships
generate_relationships-none s m include_vlans =
    let aps = ids_of (access_point ∷ []) s.nodes in
    let both = port_aps-none m aps s.edges in
    (
      λ q.
          let raises : port_aps m aps s.edges ≡ none =
            elim (Option-cases (port_aps m aps s.edges)) [
              | inl p ↦ p
              | inr (rels, p) ↦ cc (rw (p, generate_relationships) at q)
            ] in
          let (e, i, (t, p)) = both.0 raises in
          let (n, j, a, b) =
            (In-ids_of e.target (access_point ∷ []) s.nodes).0 ((elem_iff e.target aps).0 t) in
          (
            e,
            n,
            record {
              linked = i;
              listed = j;
              is_ap = (ap_elem n.node_type).0 a;
              target = b;
              no_port = p;
            },
          ),
      λ (e, n, l).
          let t : elem e.target aps ≡ true = (elem_iff e.target aps).1 (
            (In-ids_of e.target (access_point ∷ []) s.nodes).1
              (n, l.listed, (ap_elem n.node_type).1 l.is_ap, l.target)) in
          rw (both.1 (e, l.linked, (t, l.no_port)), generate_relationships) refl,
    )

-- Where an edge to an access point has no source port and the API answers every mutation, the
-- program deletes all that it was to delete, creates nothing, and raises.
pub rebuild-LacksPort :
    (api : NerdGraph) (s : Snapshot) (m : Lookups) (no_vlans : Bool) (log : Log) (e : Edge)
    (n : Node)
    → Answers api
    → LacksPort s e n
    → rebuild api s m no_vlans log ≡ (raised, log ++ delete_plan (deletions s m no_vlans))
rebuild-LacksPort api s m no_vlans log e n answers l =
    rebuild_deleted api s m no_vlans log answers
      ((generate_relationships-none s m (not no_vlans)).1 (e, n, l))
