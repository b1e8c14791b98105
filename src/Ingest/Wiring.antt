-- ===== src/Ingest/Wiring.antt =====
-- The relationships between devices: one for each pair of linked entities, as the tree directs.
use topology_maps.Prelude.{
  ◌≡◌, refl, sym, ◌≢◌, ◌∙◌, ap, ap₂, ◌⊎◌, inl, inr, true, false, ◌||◌, List, [], ◌∷◌, In, All,
  All-of_In, arith, subst, Bool-cases,
}
use topology_maps.Text.{Text, text_eq, text_eq_iff, ne_of_text_eq, elem}
use topology_maps.Ingest.Graph.{Edge, Rel, contains, connects_to, Lookups, truthy}
use topology_maps.Ingest.Spanning.{has_pair}
use topology_maps.Ingest.Tree.{has_pair_In, has_pair_self}
use topology_maps.Ingest.Generate.{guid_of, seen_pair, is_skipped, link_rel, device_links}

-- Two relationships between the same entities, in either direction.
abbrev pub Rejoins : Text → Text → Rel → Type 0
Rejoins a b r =
    (r.source_guid ≡ a) × (r.target_guid ≡ b) ⊎ (r.source_guid ≡ b) × (r.target_guid ≡ a)

-- No two of the list are between the same entities.
abbrev pub Apart : List Rel → Type 0
Apart [] = Unit
Apart (r ∷ rs) = All (λ q. ¬ Rejoins r.source_guid r.target_guid q) rs × Apart rs

seen_pair_comm : (a b : Text) (seen : List (Text × Text)) → seen_pair a b seen ≡ seen_pair b a seen
unfolding seen_pair
seen_pair_comm a b seen = ground arith

seen_pair_cons :
    (a b c d : Text) (seen : List (Text × Text))
    → seen_pair a b ((c, d) ∷ seen) ≡ false
    → seen_pair a b seen ≡ false
unfolding seen_pair has_pair
seen_pair_cons a b c d seen h = ground arith

module _ (m : Lookups) (aps : List Text) (tree : List (Text × Text)) where
  -- The edge joins two devices that are no access points and have different entities.
  pub record Joinable (e : Edge) : Type 0 where
    pub source_device : elem e.source aps ≡ false
    pub target_device : elem e.target aps ≡ false
    pub source_known : truthy (guid_of e.source m.guid_by_serial) ≡ true
    pub target_known : truthy (guid_of e.target m.guid_by_serial) ≡ true
    pub distinct : guid_of e.source m.guid_by_serial ≢ guid_of e.target m.guid_by_serial

  -- The parent contains the child where the tree has the edge, in one direction or the other.
  abbrev pub Directed : Edge → Rel → Type 0
  Directed e r =
      let a = guid_of e.source m.guid_by_serial in
      let b = guid_of e.target m.guid_by_serial in
      (In (e.source, e.target) tree
        × (r ≡ record { source_guid = a; target_guid = b; rel_type = contains }))
      ⊎ ((¬ In (e.source, e.target) tree)
          × In (e.target, e.source) tree
          × (r ≡ record { source_guid = b; target_guid = a; rel_type = contains }))
      ⊎ ((¬ In (e.source, e.target) tree)
          × (¬ In (e.target, e.source) tree)
          × (r ≡ record { source_guid = a; target_guid = b; rel_type = connects_to }))

  pub record IsWiring (edges : List Edge) (rels : List Rel) : Type 0 where
    pub sound : (r : Rel) → In r rels → (e : Edge) × In e edges × Joinable e × Directed e r
    pub covers :
        (e : Edge)
        → In e edges
        → Joinable e
        → (r : Rel) × In r rels
          × Rejoins (guid_of e.source m.guid_by_serial) (guid_of e.target m.guid_by_serial) r
    pub apart : Apart rels

  Joinable-not_skipped : (e : Edge) → Joinable e → is_skipped m aps [] e ≡ false
  unfolding is_skipped seen_pair has_pair
  Joinable-not_skipped e j =
      let a = guid_of e.source m.guid_by_serial in
      let b = guid_of e.target m.guid_by_serial in
      elim (Bool-cases (text_eq a b)) [
        | inl q ↦ absurd (j.distinct ((text_eq_iff a b).0 q))
        | inr q ↦ ground arith
      ]

  is_skipped_parts :
      (e : Edge) (seen : List (Text × Text))
      → is_skipped m aps seen e
        ≡ is_skipped m aps [] e
          || seen_pair (guid_of e.source m.guid_by_serial) (guid_of e.target m.guid_by_serial) seen
  unfolding is_skipped seen_pair has_pair
  is_skipped_parts e seen = ground arith

  not_skipped-Joinable :
      (e : Edge) (seen : List (Text × Text)) → is_skipped m aps seen e ≡ false → Joinable e
  unfolding is_skipped
  not_skipped-Joinable e seen h =
      let a = guid_of e.source m.guid_by_serial in
      let b = guid_of e.target m.guid_by_serial in
      record {
        source_device = ground arith;
        target_device = ground arith;
        source_known = ground arith;
        target_known = ground arith;
        distinct = ne_of_text_eq a b (ground arith);
      }

  link_rel-Directed : (e : Edge) → Directed e (link_rel m tree e)
  unfolding link_rel
  link_rel-Directed e = elim (Bool-cases (has_pair e.source e.target tree)) [
    | inl p ↦ rw p (inl (has_pair_In e.source e.target tree p, refl))
    | inr p ↦
        let forward : ¬ In (e.source, e.target) tree =
          λ i. cc (p, has_pair_self e.source e.target tree i) in
        elim (Bool-cases (has_pair e.target e.source tree)) [
          | inl q ↦ rw (p, q) (inr (inl (forward, has_pair_In e.target e.source tree q, refl)))
          | inr q ↦
              let back : ¬ In (e.target, e.source) tree =
                λ i. cc (q, has_pair_self e.target e.source tree i) in
              rw (p, q) (inr (inr (forward, back, refl)))
        ]
  ]

  link_rel-Rejoins :
      (e : Edge)
      → Rejoins
          (guid_of e.source m.guid_by_serial)
          (guid_of e.target m.guid_by_serial)
          (link_rel m tree e)
  unfolding link_rel
  link_rel-Rejoins e = elim (Bool-cases (has_pair e.source e.target tree)) [
    | inl p ↦ rw p (inl (refl, refl))
    | inr p ↦ elim (Bool-cases (has_pair e.target e.source tree)) [
      | inl q ↦ rw (p, q) (inr (refl, refl))
      | inr q ↦ rw (p, q) (inl (refl, refl))
    ]
  ]

  Rejoins-seen :
      (a b : Text) (r : Rel) (seen : List (Text × Text))
      → Rejoins a b r
      → seen_pair r.source_guid r.target_guid seen ≡ seen_pair a b seen
  Rejoins-seen a b r seen (inl (p, q)) = ap₂ (λ x y. seen_pair x y seen) p q
  Rejoins-seen a b r seen (inr (p, q)) =
      ap₂ (λ x y. seen_pair x y seen) p q ∙ seen_pair_comm b a seen

  -- A relationship of the list joins no pair that was seen.
  unseen :
      (edges : List Edge) (seen : List (Text × Text)) (r : Rel)
      → In r (device_links m aps tree seen edges)
      → seen_pair r.source_guid r.target_guid seen ≡ false
  unfolding device_links
  unseen [] seen r i = absurd i
  unseen (e ∷ es) seen r i =
      let a = guid_of e.source m.guid_by_serial in
      let b = guid_of e.target m.guid_by_serial in
      elim (Bool-cases (is_skipped m aps seen e)) [
        | inl s ↦ unseen es seen r (rw (s, device_links) at i)
        | inr s ↦ elim (rw (s, device_links) at i) [
          | inl q ↦
              Rejoins-seen a b r seen (subst (Rejoins a b) (sym q) (link_rel-Rejoins e))
              ∙ ground (arith, is_skipped_parts e seen)
          | inr k ↦
              seen_pair_cons r.source_guid r.target_guid a b seen (unseen es ((a, b) ∷ seen) r k)
        ]
      ]

  unmatched :
      (e : Edge) (q : Rel) (seen : List (Text × Text)) (es : List Edge)
      → In q (
          device_links m aps tree
            ((guid_of e.source m.guid_by_serial, guid_of e.target m.guid_by_serial) ∷ seen)
            es)
      → ¬ Rejoins (link_rel m tree e).source_guid (link_rel m tree e).target_guid q
  unfolding seen_pair
  unmatched e q seen es i j =
      let a = guid_of e.source m.guid_by_serial in
      let b = guid_of e.target m.guid_by_serial in
      let r = link_rel m tree e in
      let now : seen_pair a b ((a, b) ∷ seen) ≡ true =
        ground (arith, has_pair_self a b ((a, b) ∷ seen) (inl refl)) in
      let same =
        Rejoins-seen r.source_guid r.target_guid q ((a, b) ∷ seen) j
        ∙ Rejoins-seen a b r ((a, b) ∷ seen) (link_rel-Rejoins e) in
      cc (now, same, unseen es ((a, b) ∷ seen) q i)

  device_links_sound :
      (edges : List Edge) (seen : List (Text × Text)) (r : Rel)
      → In r (device_links m aps tree seen edges)
      → (e : Edge) × In e edges × Joinable e × Directed e r
  unfolding device_links
  device_links_sound [] seen r i = absurd i
  device_links_sound (e ∷ es) seen r i =
      let a = guid_of e.source m.guid_by_serial in
      let b = guid_of e.target m.guid_by_serial in
      elim (Bool-cases (is_skipped m aps seen e)) [
        | inl s ↦
            let (f, k, j, d) = device_links_sound es seen r (rw (s, device_links) at i) in
            (f, inr k, j, d)
        | inr s ↦ elim (rw (s, device_links) at i) [
          | inl q ↦ (
            e,
            inl refl,
            not_skipped-Joinable e seen s,
            subst (Directed e) (sym q) (link_rel-Directed e),
          )
          | inr k ↦ let (f, n, j, d) = device_links_sound es ((a, b) ∷ seen) r k in (f, inr n, j, d)
        ]
      ]

  abbrev Covered : Edge → List (Text × Text) → List Rel → Type 0
  Covered e seen rels =
      let a = guid_of e.source m.guid_by_serial in
      let b = guid_of e.target m.guid_by_serial in
      ((r : Rel) × In r rels × Rejoins a b r) ⊎ (seen_pair a b seen ≡ true)

  -- A pair that was seen just now is that of the relationship just made.
  Covered-now :
      (e f : Edge) (seen : List (Text × Text)) (rels : List Rel)
      → Covered f
          ((guid_of e.source m.guid_by_serial, guid_of e.target m.guid_by_serial) ∷ seen)
          rels
      → Covered f seen (link_rel m tree e ∷ rels)
  unfolding seen_pair
  Covered-now e f seen rels (inl (r, i, j)) = inl (r, inr i, j)
  Covered-now e f seen rels (inr h) =
      let a = guid_of e.source m.guid_by_serial in
      let b = guid_of e.target m.guid_by_serial in
      let c = guid_of f.source m.guid_by_serial in
      let d = guid_of f.target m.guid_by_serial in
      let r = link_rel m tree e in
      elim (Bool-cases (has_pair c d ((a, b) ∷ seen))) [
        | inl p ↦ elim (has_pair_In c d ((a, b) ∷ seen) p) [
          | inl q ↦
              let x : c ≡ a = ap (λ z. z.0) q in
              let y : d ≡ b = ap (λ z. z.1) q in inl (r, inl refl, rw (x, y) (link_rel-Rejoins e))
          | inr i ↦ inr (ground (arith, has_pair_self c d seen i))
        ]
        | inr p ↦ elim (has_pair_In d c ((a, b) ∷ seen) (ground arith)) [
          | inl q ↦
              let x : d ≡ a = ap (λ z. z.0) q in
              let y : c ≡ b = ap (λ z. z.1) q in
              inl (
                r,
                inl refl,
                rw (x, y) (elim (link_rel-Rejoins e) [ inl k ↦ inr k | inr k ↦ inl k ]),
              )
          | inr i ↦ inr (ground (arith, has_pair_self d c seen i))
        ]
      ]

  device_links_covers :
      (edges : List Edge) (seen : List (Text × Text)) (e : Edge)
      → In e edges
      → Joinable e
      → Covered e seen (device_links m aps tree seen edges)
  unfolding device_links
  device_links_covers [] seen e i j = absurd i
  device_links_covers (f ∷ es) seen e i j =
      let a = guid_of f.source m.guid_by_serial in
      let b = guid_of f.target m.guid_by_serial in
      elim (Bool-cases (is_skipped m aps seen f)) [
        | inl s ↦
            rw (s, device_links)
              (elim i [
                | inr k ↦ device_links_covers es seen e k j
                | inl q ↦
                    let j' : Joinable f = subst Joinable q j in
                    let old : seen_pair a b seen ≡ true =
                      ground (arith, Joinable-not_skipped f j', is_skipped_parts f seen) in
                    inr (rw q old)
              ])
        | inr s ↦
            rw (s, device_links)
              (elim i [
                | inr k ↦
                    Covered-now f e seen (device_links m aps tree ((a, b) ∷ seen) es)
                      (device_links_covers es ((a, b) ∷ seen) e k j)
                | inl q ↦ inl (link_rel m tree f, inl refl, rw q (link_rel-Rejoins f))
              ])
      ]

  device_links-Apart :
      (edges : List Edge) (seen : List (Text × Text)) → Apart (device_links m aps tree seen edges)
  unfolding device_links
  device_links-Apart [] seen = tt
  device_links-Apart (e ∷ es) seen =
      let a = guid_of e.source m.guid_by_serial in
      let b = guid_of e.target m.guid_by_serial in
      let r = link_rel m tree e in
      elim (Bool-cases (is_skipped m aps seen e)) [
        | inl s ↦ rw (s, device_links) (device_links-Apart es seen)
        | inr s ↦
            rw (s, device_links)
              (
                All-of_In (λ q. ¬ Rejoins r.source_guid r.target_guid q)
                    (device_links m aps tree ((a, b) ∷ seen) es) (λ q i. unmatched e q seen es i),
                device_links-Apart es ((a, b) ∷ seen),
              )
      ]

  -- Whatever the edges, the serials and the tree.
  pub device_links-IsWiring :
      (edges : List Edge) → IsWiring edges (device_links m aps tree [] edges)
  unfolding seen_pair has_pair
  device_links-IsWiring edges = record {
    sound = device_links_sound edges [];
    covers = λ e i j. elim (device_links_covers edges [] e i j) [ inl r ↦ r | inr h ↦ cc (h) ];
    apart = device_links-Apart edges [];
  }
