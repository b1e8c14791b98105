-- ===== src/Redactor/Position.antt =====
-- Where a path leads: concrete positions in a document, which of them the steps of a path address,
-- and what stands at one. The walkers of redactor.py are described by these in `Mask`.
use topology_maps.Prelude.{
  ℕ, zero, suc, ◌≡◌, refl, Bool, true, false, not, ◌&&◌, ◌||◌, Option, none, some, List, [], ◌∷◌,
  arith, if◌then◌else◌,
}
use topology_maps.Text.{Text, text_eq, text_eq_comm, text_eq_iff}
use topology_maps.Json.{
  Json, Items, arr, obj, nil, cons, get, update, map_items, map_option, get-update_self,
  get-update_ne,
}
use topology_maps.Redactor.{on_object, on_array}
use topology_maps.Redactor.Path.{Step, key, array}

pub data Place : Type 0 where
  at_key : Text → Place
  at_index : ℕ → Place

unfoldable pub nth : ℕ → Items → Option Json
nth i nil = none
nth zero (cons x xs) = some x
nth (suc i) (cons x xs) = nth i xs

unfoldable pub child : Place → Json → Option Json
unfolding get nth
child (at_key k) (obj fs) = get k fs
child (at_index i) (arr xs) = nth i xs
child _ v = none

abbrev pub and_then : (Json → Option Json) → Option Json → Option Json
and_then f none = none
and_then f (some v) = f v

-- The value at a position, if the document has it.
unfoldable pub get_at : List Place → Json → Option Json
unfolding child
get_at [] v = some v
get_at (p ∷ ps) v = and_then (get_at ps) (child p v)

abbrev pub step_matches : Step → Place → Bool
step_matches (key k) (at_key j) = text_eq k j
step_matches array (at_index i) = true
step_matches _ _ = false

-- The steps lead to exactly this position.
unfoldable pub matches : List Step → List Place → Bool
matches [] [] = true
matches [] (p ∷ ps) = false
matches (s ∷ steps) [] = false
matches (s ∷ steps) (p ∷ ps) = step_matches s p && matches steps ps

-- The position leaves the path before either ends.
unfoldable pub diverges : List Step → List Place → Bool
diverges [] ps = false
diverges (s ∷ steps) [] = false
diverges (s ∷ steps) (p ∷ ps) = not (step_matches s p) || diverges steps ps

-- What every step of a walk does: a change to the children that it addresses.
abbrev pub at_step : Step → (Json → Json) → Json → Json
at_step (key k) f = on_object (update k f)
at_step array f = on_array (map_items f)

nth-map_items :
    (i : ℕ) (f : Json → Json) (xs : Items) → nth i (map_items f xs) ≡ map_option f (nth i xs)
unfolding nth map_items
nth-map_items i f nil = refl
nth-map_items zero f (cons x xs) = refl
nth-map_items (suc i) f (cons x xs) = nth-map_items i f xs

pub child-at_step :
    (s : Step) (p : Place) (f : Json → Json) (v : Json)
    → child p (at_step s f v) ≡ (if step_matches s p then map_option f (child p v) else child p v)
unfolding child
child-at_step (key k) (at_key j) f (obj fs) =
    ground (arith, text_eq_iff k j, get-update_self k f fs, get-update_ne k j f fs)
child-at_step (key k) (at_key j) f v = ground arith
child-at_step (key k) (at_index i) f (arr xs) = refl
child-at_step (key k) (at_index i) f v = refl
child-at_step array (at_key j) f (obj fs) = refl
child-at_step array (at_key j) f v = refl
child-at_step array (at_index i) f (arr xs) = nth-map_items i f xs
child-at_step array (at_index i) f v = refl

-- Below a child that a step addresses, the change is seen through `get_at`.
pub get_at-at_step :
    (s : Step) (p : Place) (ps : List Place) (f : Json → Json) (v : Json)
    (g : Option Json → Option Json)
    → g none ≡ none
    → step_matches s p ≡ true
    → ((w : Json) → child p v ≡ some w → get_at ps (f w) ≡ g (get_at ps w))
    → get_at (p ∷ ps) (at_step s f v) ≡ g (get_at (p ∷ ps) v)
unfolding get_at
get_at-at_step s p ps f v g gn h k =
    rw (get_at, child-at_step s p f v, h) (through (child p v) refl)
  where
    through :
        (o : Option Json)
        → child p v ≡ o
        → and_then (get_at ps) (map_option f o) ≡ g (and_then (get_at ps) o)
    through none e = cc gn
    through (some w) e = k w e

-- A step that does not address a child leaves everything below it.
pub get_at-at_step_ne :
    (s : Step) (p : Place) (ps : List Place) (f : Json → Json) (v : Json)
    → step_matches s p ≡ false
    → get_at (p ∷ ps) (at_step s f v) ≡ get_at (p ∷ ps) v
unfolding get_at
get_at-at_step_ne s p ps f v h = rw (get_at, child-at_step s p f v, h)

-- Two paths that part at some step: no position is on both.
unfoldable pub separate : List Step → List Step → Bool
separate [] ts = false
separate (s ∷ ss) [] = false
separate (key k ∷ ss) (key j ∷ ts) = not (text_eq k j) || separate ss ts
separate (key k ∷ ss) (array ∷ ts) = true
separate (array ∷ ss) (key j ∷ ts) = true
separate (array ∷ ss) (array ∷ ts) = separate ss ts

pub separate_comm : (ss ts : List Step) → separate ss ts ≡ separate ts ss
unfolding separate
separate_comm [] [] = refl
separate_comm [] (t ∷ ts) = refl
separate_comm (s ∷ ss) [] = refl
separate_comm (key k ∷ ss) (key j ∷ ts) = ground (arith, separate_comm ss ts, text_eq_comm k j)
separate_comm (key k ∷ ss) (array ∷ ts) = refl
separate_comm (array ∷ ss) (key j ∷ ts) = refl
separate_comm (array ∷ ss) (array ∷ ts) = separate_comm ss ts

pub separate-diverges :
    (ss ts : List Step) (ps : List Place)
    → separate ss ts ≡ true
    → matches ss ps ≡ true
    → diverges ts ps ≡ true
unfolding separate matches diverges
separate-diverges [] ts ps h k = cc
separate-diverges (s ∷ ss) [] ps h k = cc
separate-diverges (s ∷ ss) (t ∷ ts) [] h k = cc
separate-diverges (key k ∷ ss) (key j ∷ ts) (at_key i ∷ ps) h e =
    ground (arith, separate-diverges ss ts ps, text_eq_iff k i, text_eq_iff j i, text_eq_iff k j)
separate-diverges (array ∷ ss) (array ∷ ts) (at_index i ∷ ps) h e =
    ground (arith, separate-diverges ss ts ps)
separate-diverges (key k ∷ ss) (array ∷ ts) (at_key i ∷ ps) h e = refl
separate-diverges (array ∷ ss) (key j ∷ ts) (at_index i ∷ ps) h e = refl
separate-diverges (s ∷ ss) (t ∷ ts) (p ∷ ps) h e = ground arith
