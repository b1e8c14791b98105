-- ===== src/Redactor/Mask.antt =====
-- What `mask_path` does to a document, position by position.
use topology_maps.Prelude.{ℕ, ◌≡◌, refl, true, List, [], ◌∷◌, arith, Bool-cases, inl, inr}
use topology_maps.Text.{Text}
use topology_maps.Json.{Json, map_option}
use topology_maps.Redactor.{make_sentinel, mask_path}
use topology_maps.Redactor.Path.{Step, key, array}
use topology_maps.Redactor.Position.{
  Place, get_at, matches, diverges, step_matches, at_step, get_at-at_step, get_at-at_step_ne,
}

module _ (sha256 : List ℕ → Text) where
  mask_path-last :
      (s : Step) (v : Json) → mask_path sha256 v (s ∷ []) ≡ at_step s (make_sentinel sha256) v
  unfolding mask_path
  mask_path-last (key k) v = refl
  mask_path-last array v = refl

  mask_path-more :
      (s t : Step) (rest : List Step) (v : Json)
      → mask_path sha256 v (s ∷ (t ∷ rest)) ≡ at_step s (λ w. mask_path sha256 w (t ∷ rest)) v
  unfolding mask_path
  mask_path-more (key k) t rest v = refl
  mask_path-more array t rest v = refl

  -- At a position that the steps lead to, the masked document holds the sentinel of the value that
  -- was there, and nothing where there was nothing.
  pub get_at-mask_path :
      (s : Step) (steps : List Step) (ps : List Place) (v : Json)
      → matches (s ∷ steps) ps ≡ true
      → get_at ps (mask_path sha256 v (s ∷ steps)) ≡ map_option (make_sentinel sha256) (get_at ps v)
  unfolding matches
  get_at-mask_path s steps [] v h = cc
  get_at-mask_path s [] (p ∷ []) v h = rw (mask_path-last s v) (
      get_at-at_step s p [] (make_sentinel sha256) v (map_option (make_sentinel sha256)) refl
        (ground arith) (λ w _. unfold get_at in refl))
  get_at-mask_path s [] (p ∷ (q ∷ ps)) v h = absurd (ground arith)
  get_at-mask_path s (t ∷ rest) (p ∷ ps) v h = rw (mask_path-more s t rest v) (
      get_at-at_step s p ps (λ w. mask_path sha256 w (t ∷ rest)) v
        (map_option (make_sentinel sha256)) refl (ground arith)
        (λ w _. get_at-mask_path t rest ps w (ground arith)))

  -- At a position that leaves the path, the masked document holds what was there.
  pub get_at-mask_path_ne :
      (steps : List Step) (ps : List Place) (v : Json)
      → diverges steps ps ≡ true
      → get_at ps (mask_path sha256 v steps) ≡ get_at ps v
  unfolding diverges
  get_at-mask_path_ne [] ps v h = cc
  get_at-mask_path_ne (s ∷ steps) [] v h = cc
  get_at-mask_path_ne (s ∷ []) (p ∷ ps) v h =
      rw (mask_path-last s v) (get_at-at_step_ne s p ps (make_sentinel sha256) v (ground arith))
  get_at-mask_path_ne (s ∷ (t ∷ rest)) (p ∷ ps) v h = elim (Bool-cases (step_matches s p)) [
    | inl e ↦ rw (mask_path-more s t rest v) (
        get_at-at_step s p ps (λ w. mask_path sha256 w (t ∷ rest)) v (λ o. o) refl e
          (λ w _. get_at-mask_path_ne (t ∷ rest) ps w (ground arith)))
    | inr e ↦
        rw (mask_path-more s t rest v)
          (get_at-at_step_ne s p ps (λ w. mask_path sha256 w (t ∷ rest)) v e)
  ]

  -- At a position that the steps lead to, the masked document holds the sentinel of the value that
  -- was there, and nothing where there was nothing; at a position that leaves the path, it holds
  -- what was there.
  pub mask_path_lem :
      (s : Step) (steps : List Step) (ps qs : List Place) (v : Json)
      → matches (s ∷ steps) ps ≡ true
      → diverges (s ∷ steps) qs ≡ true
      → (get_at ps (mask_path sha256 v (s ∷ steps))
          ≡ map_option (make_sentinel sha256) (get_at ps v))
        × (get_at qs (mask_path sha256 v (s ∷ steps)) ≡ get_at qs v)
  mask_path_lem s steps ps qs v h d =
      (get_at-mask_path s steps ps v h, get_at-mask_path_ne (s ∷ steps) qs v d)
