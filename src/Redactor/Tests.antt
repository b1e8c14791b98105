-- ===== src/Redactor/Tests.antt =====
-- Runs of redactor.py, hashing.py and the canonical printer on small documents.
use topology_maps.Prelude.{ℕ, length, ◌≡◌, refl, true, none, some, List, [], ◌∷◌}
use topology_maps.Text.{Text, codes, text_eq, ne_of_text_eq, elem}
use topology_maps.Json.{Json, null, bool, str, arr, obj, nil, cons, end, field, map_option, has}
use topology_maps.Json.Order.{same, objects, keep, swap, trans, done}
use topology_maps.Hashing.{canonical_payload, canonical_payload-Same, dumps, encode}
use topology_maps.Redactor.{make_sentinel, mask_path, delete_path, redact, Redacted, hash_value}
use topology_maps.Redactor.Path.{
  Step, key, array, ok, err, malformed, unexpected, is_word, parse_path,
}
use topology_maps.Redactor.Path.RoundTrip.{
  IsParsed, print_path, parse_path-print_path, parse_path-IsParsed,
}
use topology_maps.Redactor.Catalog.{redaction_paths, paths_for}
use topology_maps.Redactor.Position.{Place, at_key, at_index, get_at, matches, diverges}
use topology_maps.Redactor.Mask.{mask_path_lem}
use topology_maps.Redactor.Delete.{delete_path_lem}
use topology_maps.Redactor.Redact.{redact_masks}
use topology_maps.Redactor.Raising.{try_redact}
use topology_maps.Redactor.Encoding.{try_redact_lem}

-- A stand-in for SHA-256, under which every text has its own digest.
abbrev digest : List ℕ → Text
digest bytes = bytes

abbrev ssid : Json
ssid =
    obj
      (field (codes "name") (str (codes "Guest")) (field (codes "psk") (str (codes "hunter2")) end))

abbrev ssids : Json
ssids = arr (cons ssid (cons (obj (field (codes "name") null end)) nil))

abbrev psk_steps : List Step
psk_steps = array ∷ key (codes "psk") ∷ []

parse_psk : parse_path (codes "[*].psk") ≡ ok psk_steps
unfolding parse_path
parse_psk = refl

parse_malformed : parse_path (codes "a[0]") ≡ err (malformed 1)
unfolding parse_path
parse_malformed = refl

parse_unexpected : parse_path (codes "a.-b") ≡ err (unexpected 2)
unfolding parse_path
parse_unexpected = refl

masked_runs :
    mask_path digest ssids psk_steps
    ≡ arr (
        cons
          (obj (
            field (codes "name") (str (codes "Guest")) (
              field
                (codes "psk")
                (obj (
                  field
                    (codes "_redacted")
                    (bool true)
                    (field (codes "_hash") (str (codes "\"hunter2\"")) end)))
                end)))
          (cons (obj (field (codes "name") null end)) nil))
unfolding mask_path make_sentinel hash_value text_eq
masked_runs = refl

canonical_payload-Same_example :
    canonical_payload digest
      (obj (field (codes "a") null (field (codes "b") (bool true) (field (codes "c") ssid end))))
    ≡ canonical_payload digest
        (obj (field (codes "b") (bool true) (field (codes "c") ssid (field (codes "a") null end))))
unfolding text_eq
canonical_payload-Same_example = canonical_payload-Same digest _ _ (
    objects (
      trans (swap (ne_of_text_eq _ _ refl))
        (keep same (trans (swap (ne_of_text_eq _ _ refl)) (keep same (keep same done))))))

parse_path-print_path_example :
    parse_path (print_path (key (codes "peers") ∷ array ∷ key (codes "secret") ∷ []))
    ≡ ok (key (codes "peers") ∷ array ∷ key (codes "secret") ∷ [])
unfolding is_word
parse_path-print_path_example =
    parse_path-print_path (key (codes "peers")) (array ∷ key (codes "secret") ∷ [])
      (refl, (tt, (refl, tt)))

parse_path-IsParsed_example : IsParsed (parse_path (codes "users[*].passphrase"))
parse_path-IsParsed_example = parse_path-IsParsed (codes "users[*].passphrase")

abbrev psk_place : List Place
psk_place = at_index 0 ∷ at_key (codes "psk") ∷ []

abbrev name_place : List Place
name_place = at_index 0 ∷ at_key (codes "name") ∷ []

mask_path_lem_example :
    (get_at psk_place (mask_path digest ssids psk_steps)
      ≡ map_option (make_sentinel digest) (get_at psk_place ssids))
    × (get_at name_place (mask_path digest ssids psk_steps) ≡ get_at name_place ssids)
unfolding matches diverges text_eq
mask_path_lem_example =
    mask_path_lem digest array (key (codes "psk") ∷ []) psk_place name_place ssids refl refl

delete_path_lem_example :
    (get_at psk_place (delete_path ssids psk_steps) ≡ none)
    × (get_at name_place (delete_path ssids psk_steps) ≡ get_at name_place ssids)
unfolding matches diverges text_eq has
delete_path_lem_example =
    delete_path_lem psk_steps psk_place name_place ssids refl
      ((refl, tt, (refl, tt, tt)), ((refl, tt, tt), tt)) refl refl

-- A digest that is a text in hexadecimal digits.
abbrev hex_digest : List ℕ → Text
hex_digest bytes = codes "d41d8cd9"

try_redact_lem_example :
    (r : Redacted) × (bytes : List ℕ) × (try_redact hex_digest ssids (codes "wireless_ssids")
      ≡ some r)
    × (encode r.canonical ≡ some bytes)
    × (r.sha256_hex ≡ hex_digest bytes)
    × (r.byte_size ≡ length bytes)
    × (redact hex_digest ssids (codes "wireless_ssids") ≡ ok r)
try_redact_lem_example =
    try_redact_lem hex_digest (λ bytes. refl) ssids (codes "wireless_ssids")
      ((refl, refl, (refl, refl, tt)), ((refl, tt, tt), tt))

-- A name that holds a lone surrogate.
lone_surrogate : try_redact hex_digest (str (55296 ∷ [])) (codes "wireless_ssids") ≡ none
unfolding try_redact
lone_surrogate = refl

-- A secret that holds one, which is encoded before it is masked.
abbrev broken_ssids : Json
broken_ssids = arr (cons (obj (field (codes "psk") (str (56320 ∷ [])) end)) nil)

lone_surrogate_masked : try_redact hex_digest broken_ssids (codes "wireless_ssids") ≡ none
unfolding try_redact
lone_surrogate_masked = refl

redact_masks_example :
    (w : Json) × (r : Redacted) × (redact digest ssids (codes "wireless_ssids") ≡ ok r)
    × (r.canonical ≡ dumps w)
    × (get_at (at_index 0 ∷ at_key (codes "psk") ∷ []) w
        ≡ map_option (make_sentinel digest) (get_at (at_index 0 ∷ at_key (codes "psk") ∷ []) ssids))
unfolding parse_path matches text_eq elem paths_for redaction_paths
redact_masks_example =
    redact_masks digest ssids (codes "wireless_ssids") (codes "[*].psk") array
      (key (codes "psk") ∷ []) (at_index 0 ∷ at_key (codes "psk") ∷ []) refl refl refl
