-- ===== src/Json/Printer.antt =====
-- `json.dumps(obj, sort_keys=True, ...)` of the standard library.
pub mod Scalar
use topology_maps.Prelude.{
  ℕ, zero, suc, ◌+◌, ◌-◌, ◌/◌, ◌%◌, ◌≡◌, refl, Bool, true, false, ◌&&◌, List, [], ◌∷◌, ◌++◌, ltb,
  ◌==◌, if◌then◌else◌,
}
use topology_maps.Text.{Text, codes, text_lt}
use topology_maps.Json.{
  ℤ, pos, negsuc, Json, Items, Fields, null, bool, int, str, arr, obj, nil, cons, end, field,
}

-- The keyword arguments that the callers set: `separators` and `ensure_ascii`.
pub record Style : Type 0 where
  pub item_separator : Text
  pub key_separator : Text
  pub ensure_ascii : Bool

pub hex_digit : ℕ → ℕ
hex_digit d = if ltb d 10 then d + b'0' else (d - 10) + b'a'

-- '\\u{0:04x}'.format(n)
pub unicode_escape : ℕ → Text
unfolding hex_digit
unicode_escape n =
    b'\\'
    ∷ b'u'
    ∷ hex_digit (n / 4096 % 16)
    ∷ hex_digit (n / 256 % 16)
    ∷ hex_digit (n / 16 % 16)
    ∷ hex_digit (n % 16)
    ∷ []

-- One code point of a string.
unfoldable pub escape : Bool → ℕ → Text
unfolding unicode_escape
escape ascii c =
    if c == b'"'
    then codes "\\\""
    else if c == b'\\'
    then codes "\\\\"
    else if c == 10
    then codes "\\n"
    else if c == 13
    then codes "\\r"
    else if c == 9
    then codes "\\t"
    else if c == 12
    then codes "\\f"
    else if c == 8
    then codes "\\b"
    else if ltb c 32
    then unicode_escape c
    else if ascii && ltb 126 c
    then (if ltb c 65536
        then unicode_escape c
        else unicode_escape (55296 + (c - 65536) / 1024 % 1024)
          ++ unicode_escape (56320 + (c - 65536) % 1024))
    else c ∷ []

unfoldable pub escape_all : Bool → Text → Text
unfolding escape
escape_all ascii [] = []
escape_all ascii (c ∷ s) = escape ascii c ++ escape_all ascii s

unfoldable pub quote : Bool → Text → Text
unfolding escape_all
quote ascii s = b'"' ∷ (escape_all ascii s ++ b'"' ∷ [])

-- The decimal digits of `n`, in front of `rest`; `n < fuel` is enough.
unfoldable pub digits : ℕ → ℕ → Text → Text
digits zero n rest = rest
digits (suc fuel) n rest =
    let more = digits fuel (n / 10) ((n % 10 + b'0') ∷ rest) in
    if ltb n 10 then (n + b'0') ∷ rest else more

unfoldable pub decimal : ℕ → Text
unfolding digits
decimal n = digits (suc n) n []

unfoldable pub show_int : ℤ → Text
unfolding decimal
show_int (pos n) = decimal n
show_int (negsuc n) = b'-' ∷ decimal (n + 1)

-- `sorted` on entries whose keys are distinct.
module _ {ℓ} {A : Type ℓ} where
  unfoldable pub insert_entry : Text × A → List (Text × A) → List (Text × A)
  insert_entry e [] = e ∷ []
  insert_entry e (d ∷ l) = if text_lt d.0 e.0 then d ∷ insert_entry e l else e ∷ d ∷ l

  unfoldable pub sort_entries : List (Text × A) → List (Text × A)
  unfolding insert_entry
  sort_entries [] = []
  sort_entries (e ∷ l) = insert_entry e (sort_entries l)

-- sep.join(...)
unfoldable pub join : Text → List Text → Text
join sep [] = []
join sep (t ∷ []) = t
join sep (t ∷ (u ∷ us)) = t ++ (sep ++ join sep (u ∷ us))

-- The entries of an object, each already printed.
unfoldable pub entry_texts : Style → List (Text × Text) → List Text
unfolding quote
entry_texts st [] = []
entry_texts st ((k, t) ∷ l) =
    (quote st.ensure_ascii k ++ (st.key_separator ++ t)) ∷ entry_texts st l

unfoldable mutual
  unfolding show_int quote sort_entries entry_texts join text_lt

  pub print : Style → Json → Text
  print st null = codes "null"
  print st (bool true) = codes "true"
  print st (bool false) = codes "false"
  print st (int n) = show_int n
  print st (str s) = quote st.ensure_ascii s
  print st (arr xs) = b'[' ∷ (join st.item_separator (print_items st xs) ++ b']' ∷ [])
  print st (obj fs) =
      b'{'
      ∷ (join st.item_separator (entry_texts st (sort_entries (print_fields st fs))) ++ b'}' ∷ [])

  pub print_items : Style → Items → List Text
  print_items st nil = []
  print_items st (cons x xs) = print st x ∷ print_items st xs

  pub print_fields : Style → Fields → List (Text × Text)
  print_fields st end = []
  print_fields st (field k v fs) = (k, print st v) ∷ print_fields st fs

abbrev pub compact : Style
compact = record { item_separator = codes ","; key_separator = codes ":"; ensure_ascii = false }

-- `json.dumps(value, sort_keys=True)` with the default separators
abbrev pub spaced : Style
spaced = record { item_separator = codes ", "; key_separator = codes ": "; ensure_ascii = true }

print_runs :
    print compact (
      obj (
        field
          (codes "b")
          (int (pos 120))
          (field (codes "a") (arr (cons (str (codes "x\"\n")) (cons null nil))) end)))
    ≡ codes "{\"a\":[\"x\\\"\\n\",null],\"b\":120}"
unfolding print
print_runs = refl

print-spaced_runs :
    print spaced (obj (field (codes "é") (int (negsuc 9)) end)) ≡ codes "{\"\\u00e9\": -10}"
unfolding print
print-spaced_runs = refl
