-- ===== src/Json/Order.antt =====
-- Documents that are equal up to the order of keys.
use topology_maps.Prelude.{◌≡◌, refl, ◌∙◌, ap, ap₂, ◌≢◌, List, [], ◌∷◌, ◌++◌, arith}
use topology_maps.Text.{Text, codes, text_lt_asymm, text_lt_trans, text_lt_total}
use topology_maps.Json.{Json, Items, Fields, arr, obj, nil, cons, end, field}
use topology_maps.Json.Printer.{
  Style, insert_entry, sort_entries, entry_texts, join, print, print_items, print_fields,
}

-- Two entries whose keys differ go in in either order.
pub insert_entry_comm {ℓ} :
    {A : Type ℓ} (d e : Text × A) (l : List (Text × A))
    → d.0 ≢ e.0
    → insert_entry d (insert_entry e l) ≡ insert_entry e (insert_entry d l)
unfolding insert_entry
insert_entry_comm d e [] h =
    ground (arith, text_lt_asymm d.0 e.0, text_lt_asymm e.0 d.0, text_lt_total d.0 e.0)
insert_entry_comm d e (c ∷ l) h = ground (
  arith,
  insert_entry_comm d e l h,
  text_lt_asymm d.0 e.0,
  text_lt_asymm e.0 d.0,
  text_lt_total d.0 e.0,
  text_lt_trans c.0 d.0 e.0,
  text_lt_trans c.0 e.0 d.0,
)

-- Equal up to the order of keys, at any depth.
mutual
  pub data Same : Json → Json → Type 0 where
    same : {v : Json} → Same v v
    arrays : {xs ys : Items} → SameItems xs ys → Same (arr xs) (arr ys)
    objects : {fs gs : Fields} → SameFields fs gs → Same (obj fs) (obj gs)

  pub data SameItems : Items → Items → Type 0 where
    none_left : SameItems nil nil
    both :
        {x y : Json} {xs ys : Items}
        → Same x y
        → SameItems xs ys
        → SameItems (cons x xs) (cons y ys)

  pub data SameFields : Fields → Fields → Type 0 where
    done : SameFields end end
    keep :
        {k : Text} {v w : Json} {fs gs : Fields}
        → Same v w
        → SameFields fs gs
        → SameFields (field k v fs) (field k w gs)
    swap :
        {k j : Text} {v w : Json} {fs : Fields}
        → k ≢ j
        → SameFields (field k v (field j w fs)) (field j w (field k v fs))
    trans : {fs gs hs : Fields} → SameFields fs gs → SameFields gs hs → SameFields fs hs

module _ (st : Style) where
  mutual
    unfolding print sort_entries

    pub Same-print : {v w : Json} → Same v w → print st v ≡ print st w
    Same-print same = refl
    Same-print (arrays h) =
        ap (λ ts. codes "[" ++ (join st.item_separator ts ++ codes "]")) (SameItems-print h)
    Same-print (objects h) =
        ap (λ l. codes "{" ++ (join st.item_separator (entry_texts st l) ++ codes "}"))
          (SameFields-print h)

    pub SameItems-print : {xs ys : Items} → SameItems xs ys → print_items st xs ≡ print_items st ys
    SameItems-print none_left = refl
    SameItems-print (both h hs) = ap₂ (λ t ts. t ∷ ts) (Same-print h) (SameItems-print hs)

    pub SameFields-print :
        {fs gs : Fields}
        → SameFields fs gs
        → sort_entries (print_fields st fs) ≡ sort_entries (print_fields st gs)
    SameFields-print done = refl
    SameFields-print (keep {k = k} h hs) =
        ap₂ (λ t l. insert_entry (k, t) l) (Same-print h) (SameFields-print hs)
    SameFields-print (swap {k = k} {j = j} {v = v} {w = w} {fs = fs} h) =
        insert_entry_comm (k, print st v) (j, print st w) (sort_entries (print_fields st fs)) h
    SameFields-print (trans h k) = SameFields-print h ∙ SameFields-print k
