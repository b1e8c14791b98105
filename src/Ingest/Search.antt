-- ===== src/Ingest/Search.antt =====
-- The breadth-first search of `build_spanning_tree` in one network, over any neighbours: what its
-- rounds keep.
pub mod Loop
use topology_maps.Prelude.{
  ◌≡◌, refl, sym, ◌∙◌, ap, ◌⊎◌, inl, inr, true, false, List, [], ◌∷◌, ◌++◌, In, In-append,
  In-append_left, In-append_right, arith, subst, if◌then◌else◌, Bool-cases,
}
use topology_maps.Text.{Text, elem}
use topology_maps.Dict.{elem_iff, sorted, In-sorted}
use topology_maps.Ingest.Spanning.{Search, visit, start}

module _ (roots : List Text) where
  -- What the pairs connect with a root, from child to parent.
  pub data Hangs (pairs : List (Text × Text)) : Text → Type 0 where
    top : {t : Text} → In t roots → Hangs pairs t
    below : {p t : Text} → In (p, t) pairs → Hangs pairs p → Hangs pairs t

  Hangs-more :
      (pair : Text × Text) {pairs : List (Text × Text)} {t : Text}
      → Hangs pairs t
      → Hangs (pair ∷ pairs) t
  Hangs-more pair (top m) = top m
  Hangs-more pair (below m h) = below (inr m) (Hangs-more pair h)

module _ (near : Text → List Text) (roots : List Text) where
  -- What a chain of neighbours leads to from a root.
  pub data Reach : Text → Type 0 where
    root : {t : Text} → In t roots → Reach t
    step : {s t : Text} → Reach s → In t (near s) → Reach t

  -- The pairs make a forest over the visited nodes: each stands below a root, each child has one
  -- parent, of which it is a neighbour, and no root is a child.
  pub record Forest (visited : List Text) (pairs : List (Text × Text)) : Type 0 where
    pub hangs : (t : Text) → In t visited → Hangs roots pairs t
    pub child_seen : (p c : Text) → In (p, c) pairs → In c visited
    pub parent_seen : (p c : Text) → In (p, c) pairs → In p visited
    pub child_near : (p c : Text) → In (p, c) pairs → In c (near p)
    pub child_below : (p c : Text) → In (p, c) pairs → ¬ In c roots
    pub unique : (p q c : Text) → In (p, c) pairs → In (q, c) pairs → p ≡ q

  -- `ts` are the neighbours of `current` that are still to be visited.
  pub record Inv (current : Text) (ts : List Text) (s : Search) : Type 0 where
    pub forest : Forest s.visited s.contains_pairs
    pub rooted : (t : Text) → In t roots → In t s.visited
    pub queued : (t : Text) → In t s.queue → In t s.visited
    pub sound : (t : Text) → In t s.visited → Reach t
    pub closed :
        (x t : Text)
        → In x s.visited
        → In t (near x)
        → In x s.queue ⊎ In t s.visited ⊎ ((x ≡ current) × In t ts)

  pub Inv-start : (c : Text) → Inv c [] (start roots)
  unfolding start
  Inv-start c = record {
    forest = record {
      hangs = λ t m. top m;
      child_seen = λ p c m. absurd m;
      parent_seen = λ p c m. absurd m;
      child_near = λ p c m. absurd m;
      child_below = λ p c m. absurd m;
      unique = λ p q c m n. absurd m;
    };
    rooted = λ t m. m;
    queued = λ t m. m;
    sound = λ t m. root m;
    closed = λ x t m n. inl m;
  }

  pub Inv-pop :
      (c u : Text) (rest : List Text) (s : Search)
      → s.queue ≡ u ∷ rest
      → Inv c [] s
      → Inv u (sorted (near u)) (record s { queue = rest })
  Inv-pop c u rest s e inv = record {
    forest = inv.forest;
    rooted = inv.rooted;
    queued = λ t m. inv.queued t (subst (In t) (sym e) (inr m));
    sound = inv.sound;
    closed = λ x t m n. elim (inv.closed x t m n) [
      | inl q ↦ elim (subst (In x) e q) [
        | inl same ↦ inr (inr (same, (In-sorted t (near u)).1 (subst (λ y. In t (near y)) same n)))
        | inr later ↦ inl later
      ]
      | inr (inl v) ↦ inr (inl v)
      | inr (inr (_, none_left)) ↦ absurd none_left
    ];
  }

  -- A neighbour that was visited before.
  Inv-skip :
      (c t : Text) (ts : List Text) (s : Search) → In t s.visited → Inv c (t ∷ ts) s → Inv c ts s
  Inv-skip c t ts s seen inv = record {
    forest = inv.forest;
    rooted = inv.rooted;
    queued = inv.queued;
    sound = inv.sound;
    closed = λ x y m n. elim (inv.closed x y m n) [
      | inl q ↦ inl q
      | inr (inl v) ↦ inr (inl v)
      | inr (inr (same, inl here)) ↦ inr (inl (subst (λ z. In z s.visited) (sym here) seen))
      | inr (inr (same, inr later)) ↦ inr (inr (same, later))
    ];
  }

  Forest-offer :
      (c t : Text) (s : Search)
      → ¬ In t s.visited
      → ((r : Text) → In r roots → In r s.visited)
      → In c s.visited
      → In t (near c)
      → Forest s.visited s.contains_pairs
      → Forest (t ∷ s.visited) ((c, t) ∷ s.contains_pairs)
  Forest-offer c t s fresh rooted seen near_c f = record {
    hangs = λ x m. elim m [
      | inl e ↦
          let here : In (c, x) ((c, t) ∷ s.contains_pairs) = inl (ap (λ y. (c, y)) e) in
          below here (Hangs-more roots (c, t) (f.hangs c seen))
      | inr n ↦ Hangs-more roots (c, t) (f.hangs x n)
    ];
    child_seen =
        λ p x m. elim m [ inl e ↦ inl (ap (λ y. y.1) e) | inr n ↦ inr (f.child_seen p x n) ];
    parent_seen = λ p x m. elim m [
      | inl e ↦ inr (subst (λ y. In y s.visited) (sym (ap (λ y. y.0) e)) seen)
      | inr n ↦ inr (f.parent_seen p x n)
    ];
    child_near = λ p x m. elim m [
      | inl e ↦
          subst (λ y. In x (near y)) (sym (ap (λ y. y.0) e))
            (subst (λ y. In y (near c)) (sym (ap (λ y. y.1) e)) near_c)
      | inr n ↦ f.child_near p x n
    ];
    child_below = λ p x m r. elim m [
      | inl e ↦ fresh (subst (λ y. In y s.visited) (ap (λ y. y.1) e) (rooted x r))
      | inr n ↦ f.child_below p x n r
    ];
    unique = λ p q x m n. elim m [
      | inl e ↦ elim n [
        | inl d ↦ ap (λ y. y.0) e ∙ sym (ap (λ y. y.0) d)
        | inr k ↦
            absurd (fresh (subst (λ y. In y s.visited) (ap (λ y. y.1) e) (f.child_seen q x k)))
      ]
      | inr k ↦ elim n [
        | inl d ↦
            absurd (fresh (subst (λ y. In y s.visited) (ap (λ y. y.1) d) (f.child_seen p x k)))
        | inr l ↦ f.unique p q x k l
      ]
    ];
  }

  abbrev offered : Text → Text → Search → Search
  offered c t s = record {
    queue = s.queue ++ t ∷ [];
    visited = t ∷ s.visited;
    contains_pairs = (c, t) ∷ s.contains_pairs;
  }

  Inv-offer :
      (c t : Text) (ts : List Text) (s : Search)
      → ¬ In t s.visited
      → In c s.visited
      → In t (near c)
      → Inv c (t ∷ ts) s
      → Inv c ts (offered c t s)
  Inv-offer c t ts s fresh seen near_c inv = record {
    forest = Forest-offer c t s fresh inv.rooted seen near_c inv.forest;
    rooted = λ r m. inr (inv.rooted r m);
    queued = λ x m. elim (In-append x s.queue (t ∷ []) m) [
      | inl q ↦ inr (inv.queued x q)
      | inr q ↦ elim q [ inl e ↦ inl e | inr n ↦ absurd n ]
    ];
    sound = λ x m. elim m [
      | inl e ↦ subst Reach (sym e) (step (inv.sound c seen) near_c)
      | inr n ↦ inv.sound x n
    ];
    closed = λ x y m n. elim m [
      | inl e ↦ inl (In-append_right x s.queue (t ∷ []) (inl e))
      | inr k ↦ elim (inv.closed x y k n) [
        | inl q ↦ inl (In-append_left x s.queue (t ∷ []) q)
        | inr (inl v) ↦ inr (inl (inr v))
        | inr (inr (same, inl here)) ↦ inr (inl (inl here))
        | inr (inr (same, inr later)) ↦ inr (inr (same, later))
      ]
    ];
  }

  pub Inv-visit :
      (c : Text) (ts : List Text) (s : Search)
      → ((t : Text) → In t ts → In t (near c))
      → In c s.visited
      → Inv c ts s
      → Inv c [] (visit c ts s)
  unfolding visit
  Inv-visit c [] s sub seen inv = inv
  Inv-visit c (t ∷ ts) s sub seen inv = elim (Bool-cases (elem t s.visited)) [
    | inl e ↦ rw e (
        Inv-visit c ts s (λ u m. sub u (inr m)) seen
          (Inv-skip c t ts s ((elem_iff t s.visited).0 e) inv))
    | inr e ↦
        let fresh : ¬ In t s.visited = λ m. cc (e, (elem_iff t s.visited).1 m) in
        rw e (
          Inv-visit c ts (offered c t s) (λ u m. sub u (inr m)) (inr seen)
            (Inv-offer c t ts s fresh seen (sub t (inl refl)) inv))
  ]
