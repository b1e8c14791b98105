-- ===== src/Ingest/Search/Loop.antt =====
-- The breadth-first search ends within its fuel, with what can be reached visited.
use topology_maps.Prelude.{
  ℕ, zero, suc, ◌+◌, ◌≤◌, ◌≡◌, refl, sym, ap, ◌↔◌, inl, inr, true, false, List, [], ◌∷◌, ◌++◌,
  length, length-append, In, arith, subst, if◌then◌else◌, Bool-cases, List-cases,
}
use topology_maps.Text.{Text, elem}
use topology_maps.Dict.{elem_iff, sorted, In-sorted}
use topology_maps.Ingest.Spanning.{Search, visit, search_loop, start}
use topology_maps.Ingest.Search.{Reach, root, step, Forest, Inv, Inv-start, Inv-pop, Inv-visit}

-- The texts of a list that were not visited.
unvisited : List Text → List Text → ℕ
unvisited [] seen = 0
unvisited (u ∷ us) seen = if elem u seen then unvisited us seen else suc (unvisited us seen)

elem_cons : (u t : Text) (seen : List Text) → elem u seen ≡ true → elem u (t ∷ seen) ≡ true
elem_cons u t seen e = (elem_iff u (t ∷ seen)).1 (inr ((elem_iff u seen).0 e))

unvisited_mono :
    (us : List Text) (t : Text) (seen : List Text) → unvisited us (t ∷ seen) ≤ unvisited us seen
unfolding unvisited
unvisited_mono [] t seen = omega arith
unvisited_mono (u ∷ us) t seen = elim (Bool-cases (elem u seen)) [
  | inl e ↦ rw (e, elem_cons u t seen e) (unvisited_mono us t seen)
  | inr e ↦ elim (Bool-cases (elem u (t ∷ seen))) [
    | inl f ↦ rw (e, f) (omega (arith, unvisited_mono us t seen))
    | inr f ↦ rw (e, f) (omega (arith, unvisited_mono us t seen))
  ]
]

unvisited_drop :
    (us : List Text) (t : Text) (seen : List Text)
    → In t us
    → elem t seen ≡ false
    → suc (unvisited us (t ∷ seen)) ≤ unvisited us seen
unfolding unvisited
unvisited_drop [] t seen m e = absurd m
unvisited_drop (u ∷ us) t seen (inl q) e =
    let old : elem u seen ≡ false = subst (λ x. elem x seen ≡ false) q e in
    let new : elem u (t ∷ seen) ≡ true = (elem_iff u (t ∷ seen)).1 (inl (sym q)) in
    rw (old, new) (omega (arith, unvisited_mono us t seen))
unvisited_drop (u ∷ us) t seen (inr m) e = elim (Bool-cases (elem u seen)) [
  | inl f ↦ rw (f, elem_cons u t seen f) (unvisited_drop us t seen m e)
  | inr f ↦ elim (Bool-cases (elem u (t ∷ seen))) [
    | inl g ↦ rw (f, g) (omega (arith, unvisited_drop us t seen m e))
    | inr g ↦ rw (f, g) (omega (arith, unvisited_drop us t seen m e))
  ]
]

unvisited-le-length : (us seen : List Text) → unvisited us seen ≤ length us
unfolding unvisited
unvisited-le-length [] seen = omega arith
unvisited-le-length (u ∷ us) seen = ground (arith, unvisited-le-length us seen)

module _ (near : Text → List Text) (universe : List Text) where
  -- What is queued, and what can still be.
  work : Search → ℕ
  unfolding unvisited
  work s = length s.queue + unvisited universe s.visited

  work-visit :
      (c : Text) (ts : List Text) (s : Search)
      → ((t : Text) → In t ts → In t universe)
      → work (visit c ts s) ≤ work s
  unfolding work visit
  work-visit c [] s sub = omega arith
  work-visit c (t ∷ ts) s sub = elim (Bool-cases (elem t s.visited)) [
    | inl e ↦ rw (e, visit) (work-visit c ts s (λ u m. sub u (inr m)))
    | inr e ↦
        let s' : Search = record {
          queue = s.queue ++ t ∷ [];
          visited = t ∷ s.visited;
          contains_pairs = (c, t) ∷ s.contains_pairs;
        } in
        rw (e, visit)
          (omega (
            arith,
            work-visit c ts s' (λ u m. sub u (inr m)),
            unvisited_drop universe t s.visited (sub t (inl refl)) e,
            length-append s.queue (t ∷ []),
          ))
  ]

  search_loop-empty :
      ((s t : Text) → In t (near s) → In t universe)
      → (fuel : ℕ) (s : Search) → work s ≤ fuel
      → (search_loop near fuel s).queue ≡ []
  unfolding search_loop work
  search_loop-empty sub zero s h = elim (List-cases s.queue) [
    | inl e ↦ e
    | inr (u, rest, e) ↦ absurd (omega (arith, ap length e))
  ]
  search_loop-empty sub (suc fuel) s h = elim (List-cases s.queue) [
    | inl e ↦ rw e refl
    | inr (u, rest, e) ↦
        let s' : Search = record s { queue = rest } in
        let sub' =
          λ (t : Text) (m : In t (sorted (near u))). sub u t ((In-sorted t (near u)).0 m) in
        rw e (
          search_loop-empty sub fuel (visit u (sorted (near u)) s')
            (omega (arith, work-visit u (sorted (near u)) s' sub', ap length e)))
  ]

module _ (near : Text → List Text) (roots : List Text) where
  search_loop-nil : (fuel : ℕ) (s : Search) → s.queue ≡ [] → search_loop near (suc fuel) s ≡ s
  unfolding search_loop
  search_loop-nil fuel s e = ground arith

  Inv-search_loop :
      (fuel : ℕ) (c : Text) (s : Search)
      → Inv near roots c [] s
      → (d : Text) × Inv near roots d [] (search_loop near fuel s)
  unfolding search_loop
  Inv-search_loop zero c s inv = (c, inv)
  Inv-search_loop (suc fuel) c s inv = elim (List-cases s.queue) [
    | inl e ↦ (c, subst (Inv near roots c []) (sym (search_loop-nil fuel s e)) inv)
    | inr (u, rest, e) ↦
        let s' : Search = record s { queue = rest } in
        rw e (
          Inv-search_loop fuel u (visit u (sorted (near u)) s') (
            Inv-visit near roots u (sorted (near u)) s' (λ t m. (In-sorted t (near u)).0 m)
              (inv.queued u (subst (In u) (sym e) (inl refl)))
              (Inv-pop near roots c u rest s e inv)))
  ]

  -- What a search that has ended has found.
  pub record Found (s : Search) : Type 0 where
    pub ended : s.queue ≡ []
    pub visits : (t : Text) → In t s.visited ↔ Reach near roots t
    pub forest : Forest near roots s.visited s.contains_pairs

  complete :
      (c : Text) (s : Search) (t : Text)
      → s.queue ≡ []
      → Inv near roots c [] s
      → Reach near roots t
      → In t s.visited
  complete c s t e inv (root m) = inv.rooted t m
  complete c s t e inv (step {s = x} r n) = elim (inv.closed x t (complete c s x e inv r) n) [
    | inl q ↦ absurd (subst (In x) e q)
    | inr (inl v) ↦ v
    | inr (inr (_, none_left)) ↦ absurd none_left
  ]

  pub search_loop-Found :
      (universe : List Text) (fuel : ℕ)
      → ((s t : Text) → In t (near s) → In t universe)
      → length roots + length universe ≤ fuel
      → Found (search_loop near fuel (start roots))
  unfolding start work
  search_loop-Found universe fuel sub h =
      let (d, inv) = Inv-search_loop fuel [] (start roots) (Inv-start near roots []) in
      let e =
        search_loop-empty near universe sub fuel (start roots)
          (omega (arith, unvisited-le-length universe roots, h)) in
      record { ended = e; visits = λ t. (inv.sound t, complete d _ t e inv); forest = inv.forest }
