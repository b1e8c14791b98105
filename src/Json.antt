-- ===== src/Json.antt =====
-- Parsed JSON: the values that `json.loads` gives, with Python's dict operations on objects.
-- An object is its entries in insertion order; a float is not modelled.
pub mod Printer
pub mod Order
use topology_maps.Prelude.{
  ℕ, suc, ◌≡◌, refl, ◌≢◌, Bool, true, false, ◌&&◌, ◌||◌, Option, none, some, arith, if◌then◌else◌,
  subst, Bool-cases, inl, inr,
}
use topology_maps.Text.{Text, text_eq, text_eq_iff}

-- `negsuc n` is -(n + 1).
pub data ℤ : Type 0 where
  pos : ℕ → ℤ
  negsuc : ℕ → ℤ

mutual
  pub data Json : Type 0 where
    null : Json
    bool : Bool → Json
    int : ℤ → Json
    str : Text → Json
    arr : Items → Json
    obj : Fields → Json

  pub data Items : Type 0 where
    nil : Items
    cons : Json → Items → Items

  pub data Fields : Type 0 where
    end : Fields
    field : Text → Json → Fields → Fields

-- d.get(k)
unfoldable pub get : Text → Fields → Option Json
get k end = none
get k (field j v fs) = if text_eq j k then some v else get k fs

-- k in d
unfoldable pub has : Text → Fields → Bool
has k end = false
has k (field j v fs) = text_eq j k || has k fs

-- d[k] = f(d[k]) where k is in d, and d as it is where it is not; the entry keeps its place
unfoldable pub update : Text → (Json → Json) → Fields → Fields
update k f end = end
update k f (field j v fs) = if text_eq j k then field j (f v) fs else field j v (update k f fs)

-- del d[k] where k is in d
unfoldable pub delete : Text → Fields → Fields
delete k end = end
delete k (field j v fs) = if text_eq j k then fs else field j v (delete k fs)

-- [f(x) for x in xs]
unfoldable pub map_items : (Json → Json) → Items → Items
map_items f nil = nil
map_items f (cons x xs) = cons (f x) (map_items f xs)

-- Every object of the document holds each of its keys once.
abbrev mutual
  pub IsWell : Json → Type 0
  IsWell (arr xs) = IsWellItems xs
  IsWell (obj fs) = IsWellFields fs
  IsWell _ = Unit

  pub IsWellItems : Items → Type 0
  IsWellItems nil = Unit
  IsWellItems (cons x xs) = IsWell x × IsWellItems xs

  pub IsWellFields : Fields → Type 0
  IsWellFields end = Unit
  IsWellFields (field k v fs) = (has k fs ≡ false) × IsWell v × IsWellFields fs

abbrev pub map_option : (Json → Json) → Option Json → Option Json
map_option f none = none
map_option f (some v) = some (f v)

pub get-update_self :
    (k : Text) (f : Json → Json) (fs : Fields) → get k (update k f fs) ≡ map_option f (get k fs)
unfolding get update
get-update_self k f end = refl
get-update_self k f (field j v fs) = ground (arith, get-update_self k f fs)

pub get-update_ne :
    (k j : Text) (f : Json → Json) (fs : Fields) → k ≢ j → get j (update k f fs) ≡ get j fs
unfolding get update
get-update_ne k j f end h = refl
get-update_ne k j f (field i v fs) h =
    ground (arith, get-update_ne k j f fs, text_eq_iff i k, text_eq_iff i j)

pub has-update : (k j : Text) (f : Json → Json) (fs : Fields) → has j (update k f fs) ≡ has j fs
unfolding has update
has-update k j f end = refl
has-update k j f (field i v fs) = ground (arith, has-update k j f fs)

pub get-ne-has : (k : Text) (fs : Fields) → has k fs ≡ false → get k fs ≡ none
unfolding get has
get-ne-has k end h = refl
get-ne-has k (field j v fs) h = ground (arith, get-ne-has k fs)

pub get-delete_self : (k : Text) (fs : Fields) → IsWellFields fs → get k (delete k fs) ≡ none
unfolding get delete
get-delete_self k end d = refl
get-delete_self k (field j v fs) d =
    ground (arith, get-delete_self k fs d.2, get-ne-has k fs, text_eq_iff j k)

pub get-delete_ne : (k j : Text) (fs : Fields) → k ≢ j → get j (delete k fs) ≡ get j fs
unfolding get delete
get-delete_ne k j end h = refl
get-delete_ne k j (field i v fs) h =
    ground (arith, get-delete_ne k j fs, text_eq_iff i k, text_eq_iff i j)

pub get-IsWell :
    (k : Text) (fs : Fields) {v : Json} → IsWellFields fs → get k fs ≡ some v → IsWell v
unfolding get
get-IsWell k end d e = cc
get-IsWell k (field j w fs) {v} d e = elim (Bool-cases (text_eq j k)) [
  | inl t ↦ subst IsWell (ground arith) d.1
  | inr f ↦ get-IsWell k fs d.2 (ground arith)
]
