-- ===== src/Redactor/Delete.antt =====
-- What `delete_path` does to a document, position by position.
use topology_maps.Prelude.{
  ℕ, zero, suc, ◌≡◌, refl, subst, Bool, true, false, none, some, List, [], ◌∷◌, arith, Bool-cases,
  inl, inr,
}
use topology_maps.Text.{Text, text_eq_iff}
use topology_maps.Json.{
  Json, Items, arr, obj, nil, cons, delete, IsWell, IsWellItems, get-IsWell, get-delete_self,
  get-delete_ne,
}
use topology_maps.Redactor.{delete_path, on_object}
use topology_maps.Redactor.Path.{Step, key, array}
use topology_maps.Redactor.Position.{
  Place, at_key, at_index, nth, child, get_at, matches, diverges, step_matches, at_step,
  get_at-at_step, get_at-at_step_ne,
}

nth-IsWell : (i : ℕ) (xs : Items) {w : Json} → IsWellItems xs → nth i xs ≡ some w → IsWell w
unfolding nth
nth-IsWell i nil h e = cc
nth-IsWell zero (cons x xs) h e = subst IsWell (ground arith) h.0
nth-IsWell (suc i) (cons x xs) h e = nth-IsWell i xs h.1 e

child-IsWell : (p : Place) (v : Json) {w : Json} → IsWell v → child p v ≡ some w → IsWell w
unfolding child
child-IsWell (at_key k) (obj fs) h e = get-IsWell k fs h e
child-IsWell (at_index i) (arr xs) h e = nth-IsWell i xs h e
child-IsWell (at_key k) v h e = cc
child-IsWell (at_index i) v h e = cc

-- The last step names a key; a path that ends in `[*]` deletes nothing.
abbrev pub ends_in_key : List Step → Bool
ends_in_key [] = false
ends_in_key (key k ∷ []) = true
ends_in_key (array ∷ []) = false
ends_in_key (s ∷ (t ∷ rest)) = ends_in_key (t ∷ rest)

delete_path-more :
    (s t : Step) (rest : List Step) (v : Json)
    → delete_path v (s ∷ (t ∷ rest)) ≡ at_step s (λ w. delete_path w (t ∷ rest)) v
unfolding delete_path
delete_path-more (key k) t rest v = refl
delete_path-more array t rest v = refl

child-on_object-delete :
    (k : Text) (p : Place) (v : Json)
    → IsWell v
    → step_matches (key k) p ≡ true
    → child p (on_object (delete k) v) ≡ none
unfolding child
child-on_object-delete k (at_key j) (obj fs) d h =
    let e : k ≡ j = (text_eq_iff k j).0 h in rw (← e) (get-delete_self k fs d)
child-on_object-delete k (at_key j) v d h = refl
child-on_object-delete k (at_index i) v d h = cc

child-on_object-delete_ne :
    (k : Text) (p : Place) (v : Json)
    → step_matches (key k) p ≡ false
    → child p (on_object (delete k) v) ≡ child p v
unfolding child
child-on_object-delete_ne k (at_key j) (obj fs) h =
    get-delete_ne k j fs (λ e. ground (arith, text_eq_iff k j))
child-on_object-delete_ne k (at_key j) v h = refl
child-on_object-delete_ne k (at_index i) (arr xs) h = refl
child-on_object-delete_ne k (at_index i) v h = refl

-- Where the steps end in a key and the objects of the document hold each key once, nothing is left
-- at any position that the steps lead to.
pub get_at-delete_path :
    (steps : List Step) (ps : List Place) (v : Json)
    → ends_in_key steps ≡ true
    → IsWell v
    → matches steps ps ≡ true
    → get_at ps (delete_path v steps) ≡ none
unfolding matches
get_at-delete_path [] ps v l d h = cc
get_at-delete_path (s ∷ steps) [] v l d h = cc
get_at-delete_path (array ∷ []) (p ∷ ps) v l d h = cc
get_at-delete_path (key k ∷ []) (p ∷ ps) v l d h =
    unfold delete_path get_at in rw (get_at, child-on_object-delete k p v d (ground arith))
get_at-delete_path (s ∷ (t ∷ rest)) (p ∷ ps) v l d h = rw (delete_path-more s t rest v) (
    get_at-at_step s p ps (λ w. delete_path w (t ∷ rest)) v (λ _. none) refl (ground arith)
      (λ w e.
        get_at-delete_path (t ∷ rest) ps w (ground arith) (child-IsWell p v d e) (ground arith)))

-- At a position that leaves the path, the document holds what was there.
pub get_at-delete_path_ne :
    (steps : List Step) (ps : List Place) (v : Json)
    → diverges steps ps ≡ true
    → get_at ps (delete_path v steps) ≡ get_at ps v
unfolding diverges
get_at-delete_path_ne [] ps v h = cc
get_at-delete_path_ne (s ∷ steps) [] v h = cc
get_at-delete_path_ne (key k ∷ []) (p ∷ ps) v h =
    unfold delete_path get_at in rw (get_at, child-on_object-delete_ne k p v (ground arith))
get_at-delete_path_ne (array ∷ []) (p ∷ ps) v h =
    unfold delete_path in get_at-at_step_ne array p ps (λ w. w) v (ground arith)
get_at-delete_path_ne (s ∷ (t ∷ rest)) (p ∷ ps) v h = elim (Bool-cases (step_matches s p)) [
  | inl e ↦ rw (delete_path-more s t rest v) (
      get_at-at_step s p ps (λ w. delete_path w (t ∷ rest)) v (λ o. o) refl e
        (λ w _. get_at-delete_path_ne (t ∷ rest) ps w (ground arith)))
  | inr e ↦
      rw (delete_path-more s t rest v)
        (get_at-at_step_ne s p ps (λ w. delete_path w (t ∷ rest)) v e)
]

-- Where the steps end in a key and the objects of the document hold each key once, nothing is left
-- at any position that the steps lead to; a position that leaves the path holds what was there.
pub delete_path_lem :
    (steps : List Step) (ps qs : List Place) (v : Json)
    → ends_in_key steps ≡ true
    → IsWell v
    → matches steps ps ≡ true
    → diverges steps qs ≡ true
    → (get_at ps (delete_path v steps) ≡ none) × (get_at qs (delete_path v steps) ≡ get_at qs v)
delete_path_lem steps ps qs v l w h d =
    (get_at-delete_path steps ps v l w h, get_at-delete_path_ne steps qs v d)
