-- ===== src/Hashing.antt =====
-- server/config_collector/canonical_json.py and hashing.py. SHA-256 is a parameter: a function from
-- bytes to the hex digest. A text is hashed by `utf8`, whose bytes are those of `encode` where that
-- does not raise.
use topology_maps.Prelude.{
  ℕ, ◌+◌, ◌/◌, ◌%◌, ◌≡◌, List, [], ◌∷◌, ◌++◌, length, ltb, if◌then◌else◌, ap, true, Option, none,
  some, arith, refl,
}
use topology_maps.Text.{Text}
use topology_maps.Json.{Json}
use topology_maps.Json.Printer.{print, compact}
use topology_maps.Json.Printer.Scalar.{is_scalar, is_scalar_text}
use topology_maps.Json.Order.{Same, Same-print}

-- `dumps` of canonical_json.py
unfoldable pub dumps : Json → Text
unfolding print
dumps v = print compact v

-- The bytes of one code point.
utf8_char : ℕ → List ℕ
utf8_char c =
    if ltb c 128
    then c ∷ []
    else if ltb c 2048
    then (192 + c / 64) ∷ (128 + c % 64) ∷ []
    else if ltb c 65536
    then (224 + c / 4096) ∷ (128 + c / 64 % 64) ∷ (128 + c % 64) ∷ []
    else (240 + c / 262144) ∷ (128 + c / 4096 % 64) ∷ (128 + c / 64 % 64) ∷ (128 + c % 64) ∷ []

unfoldable pub utf8 : Text → List ℕ
unfolding utf8_char
utf8 [] = []
utf8 (c ∷ s) = utf8_char c ++ utf8 s

-- `.encode("utf-8")`, which raises UnicodeEncodeError on a surrogate, and gives `utf8` otherwise.
unfoldable pub encode : Text → Option (List ℕ)
unfolding utf8_char
encode [] = some []
encode (c ∷ s) =
    let rest = encode s in
    if is_scalar c
    then elim rest [ none ↦ none | some bytes ↦ some (utf8_char c ++ bytes) ]
    else none

pub encode_lem : (s : Text) → is_scalar_text s ≡ true → encode s ≡ some (utf8 s)
unfolding encode utf8
encode_lem [] h = refl
encode_lem (c ∷ s) h =
    let here : is_scalar c ≡ true = ground arith in
    rw (here, encode) (rw (encode_lem s (ground arith)) refl)

module _ (sha256 : List ℕ → Text) where
  unfoldable pub sha256_canonical : Json → Text
  unfolding dumps utf8
  sha256_canonical v = let payload = utf8 (dumps v) in sha256 payload

  unfoldable pub canonical_payload : Json → Text × Text × ℕ
  unfolding dumps utf8
  canonical_payload v =
      let payload = dumps v in
      let encoded = utf8 payload in (payload, sha256 encoded, length encoded)

  -- Two documents that are equal up to the order of the keys of their objects, at any depth, have
  -- the same canonical text, digest and size.
  pub canonical_payload-Same : (v w : Json) → Same v w → canonical_payload v ≡ canonical_payload w
  unfolding canonical_payload
  canonical_payload-Same v w h =
      ap (λ (t : Text). let r : Text × Text × ℕ = (t, sha256 (utf8 t), length (utf8 t)) in r)
        (Same-print compact h)
