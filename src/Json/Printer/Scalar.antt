-- ===== src/Json/Printer/Scalar.antt =====
-- A document without lone surrogates prints as a text without them.
use topology_maps.Prelude.{
  ℕ, zero, suc, ◌+◌, ◌/◌, ◌%◌, ◌<◌, ◌≡◌, refl, Bool, true, false, ◌&&◌, ◌||◌, List, [], ◌∷◌, ◌++◌,
  all, ltb, leb, Bool-cases, inl, inr, arith,
}
use topology_maps.Text.{Text, codes, text_lt}
use topology_maps.Json.{
  ℤ, pos, negsuc, Json, Items, Fields, null, bool, int, str, arr, obj, nil, cons, end, field,
}
use topology_maps.Json.Printer.{
  hex_digit, unicode_escape, escape, escape_all, quote, digits, decimal, show_int, insert_entry,
  sort_entries, join, entry_texts, print, print_items, print_fields, compact,
}

-- A code point that UTF-8 encodes.
abbrev pub is_scalar : ℕ → Bool
is_scalar c = ltb c 55296 || leb 57344 c

abbrev pub is_scalar_text : Text → Bool
is_scalar_text s = all is_scalar s

-- The strings and keys of a document have no lone surrogate.
abbrev mutual
  pub IsScalar : Json → Type 0
  IsScalar (str s) = is_scalar_text s ≡ true
  IsScalar (arr xs) = IsScalarItems xs
  IsScalar (obj fs) = IsScalarFields fs
  IsScalar _ = Unit

  pub IsScalarItems : Items → Type 0
  IsScalarItems nil = Unit
  IsScalarItems (cons x xs) = IsScalar x × IsScalarItems xs

  pub IsScalarFields : Fields → Type 0
  IsScalarFields end = Unit
  IsScalarFields (field k v fs) = (is_scalar_text k ≡ true) × IsScalar v × IsScalarFields fs

all-append :
    (s t : Text)
    → is_scalar_text s ≡ true
    → is_scalar_text t ≡ true
    → is_scalar_text (s ++ t) ≡ true
all-append [] t h k = k
all-append (c ∷ s) t h k = ground (arith, all-append s t)

hex_digit_lem : (d : ℕ) → d < 16 → is_scalar (hex_digit d) ≡ true
unfolding hex_digit
hex_digit_lem d h = ground arith

hex_digit-mod : (n : ℕ) → is_scalar (hex_digit (n % 16)) ≡ true
hex_digit-mod n = hex_digit_lem (n % 16) (omega arith)

unicode_escape_lem : (n : ℕ) → is_scalar_text (unicode_escape n) ≡ true
unfolding unicode_escape
unicode_escape_lem n =
    rw (hex_digit-mod (n / 4096), hex_digit-mod (n / 256), hex_digit-mod (n / 16), hex_digit-mod n)
      refl

escape_lem : (c : ℕ) → is_scalar c ≡ true → is_scalar_text (escape false c) ≡ true
unfolding escape
escape_lem c h = elim (Bool-cases (ltb c 32)) [
  | inl e ↦ ground (arith, unicode_escape_lem c)
  | inr e ↦ ground arith
]

escape_all_lem : (s : Text) → is_scalar_text s ≡ true → is_scalar_text (escape_all false s) ≡ true
unfolding escape_all
escape_all_lem [] h = refl
escape_all_lem (c ∷ s) h =
    all-append (escape false c) (escape_all false s) (escape_lem c (ground arith))
      (escape_all_lem s (ground arith))

quote_lem : (s : Text) → is_scalar_text s ≡ true → is_scalar_text (quote false s) ≡ true
unfolding quote
quote_lem s h = all-append (escape_all false s) (b'"' ∷ []) (escape_all_lem s h) refl

digits_lem :
    (fuel n : ℕ) (rest : Text)
    → is_scalar_text rest ≡ true
    → is_scalar_text (digits fuel n rest) ≡ true
unfolding digits
digits_lem zero n rest h = h
digits_lem (suc fuel) n rest h = elim (Bool-cases (ltb n 10)) [
  | inl e ↦ rw (e, digits) (ground arith)
  | inr e ↦ rw (e, digits) (digits_lem fuel (n / 10) ((n % 10 + b'0') ∷ rest) (ground arith))
]

show_int_lem : (n : ℤ) → is_scalar_text (show_int n) ≡ true
unfolding show_int decimal
show_int_lem (pos n) = digits_lem (suc n) n [] refl
show_int_lem (negsuc n) = digits_lem (suc (n + 1)) (n + 1) [] refl

abbrev is_scalar_entry : Text × Text → Bool
is_scalar_entry e = is_scalar_text e.0 && is_scalar_text e.1

insert_entry_lem :
    (e : Text × Text) (l : List (Text × Text))
    → is_scalar_entry e ≡ true
    → all is_scalar_entry l ≡ true
    → all is_scalar_entry (insert_entry e l) ≡ true
unfolding insert_entry
insert_entry_lem e [] h k = ground arith
insert_entry_lem e (d ∷ l) h k = elim (Bool-cases (text_lt d.0 e.0)) [
  | inl t ↦ rw (t, insert_entry) (ground (arith, insert_entry_lem e l))
  | inr t ↦ rw (t, insert_entry) (ground arith)
]

sort_entries_lem :
    (l : List (Text × Text))
    → all is_scalar_entry l ≡ true
    → all is_scalar_entry (sort_entries l) ≡ true
unfolding sort_entries
sort_entries_lem [] h = refl
sort_entries_lem (e ∷ l) h =
    insert_entry_lem e (sort_entries l) (ground arith) (sort_entries_lem l (ground arith))

entry_texts_lem :
    (l : List (Text × Text))
    → all is_scalar_entry l ≡ true
    → all is_scalar_text (entry_texts compact l) ≡ true
unfolding entry_texts
entry_texts_lem [] h = refl
entry_texts_lem ((k, t) ∷ l) h =
    let first =
      all-append (quote false k) (codes ":" ++ t) (quote_lem k (ground arith))
        (all-append (codes ":") t refl (ground arith)) in
    rw (first, entry_texts_lem l (ground arith)) refl

join_lem :
    (ts : List Text) → all is_scalar_text ts ≡ true → is_scalar_text (join (codes ",") ts) ≡ true
unfolding join
join_lem [] h = refl
join_lem (t ∷ []) h = ground arith
join_lem (t ∷ (u ∷ us)) h =
    all-append t (codes "," ++ join (codes ",") (u ∷ us)) (ground arith)
      (all-append (codes ",") (join (codes ",") (u ∷ us)) refl (join_lem (u ∷ us) (ground arith)))

mutual
  unfolding print

  pub print_lem : (v : Json) → IsScalar v → is_scalar_text (print compact v) ≡ true
  print_lem null h = refl
  print_lem (bool true) h = refl
  print_lem (bool false) h = refl
  print_lem (int n) h = show_int_lem n
  print_lem (str s) h = quote_lem s h
  print_lem (arr xs) h =
      all-append (join (codes ",") (print_items compact xs)) (b']' ∷ [])
        (join_lem (print_items compact xs) (print_items_lem xs h)) refl
  print_lem (obj fs) h =
      let sorted = sort_entries (print_fields compact fs) in
      all-append (join (codes ",") (entry_texts compact sorted)) (b'}' ∷ [])
        (join_lem (entry_texts compact sorted) (
          entry_texts_lem sorted
            (sort_entries_lem (print_fields compact fs) (print_fields_lem fs h))))
        refl

  print_items_lem :
      (xs : Items) → IsScalarItems xs → all is_scalar_text (print_items compact xs) ≡ true
  print_items_lem nil h = refl
  print_items_lem (cons x xs) h = rw (print_lem x h.0, print_items_lem xs h.1) refl

  print_fields_lem :
      (fs : Fields) → IsScalarFields fs → all is_scalar_entry (print_fields compact fs) ≡ true
  print_fields_lem end h = refl
  print_fields_lem (field k v fs) h = rw (h.0, print_lem v h.1, print_fields_lem fs h.2) refl
