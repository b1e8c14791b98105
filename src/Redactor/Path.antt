-- ===== src/Redactor/Path.antt =====
-- `parse_path` of server/config_collector/redactor.py.
pub mod RoundTrip
use topology_maps.Prelude.{
  ℕ, zero, suc, ◌+◌, ◌≡◌, Bool, ◌&&◌, ◌||◌, List, [], ◌∷◌, length, drop, take_while, drop_while,
  leb, ◌==◌, if◌then◌else◌,
}
use topology_maps.Text.{Text, codes, starts_with}

pub data Step : Type 0 where
  key : Text → Step
  array : Step

-- The messages of the `ValueError`s, with the index that they name; `out_of_fuel` is none of them.
pub data PathError : Type 0 where
  empty_path no_steps out_of_fuel : PathError
  malformed unexpected : ℕ → PathError

pub data Result {ℓ} (A : Type ℓ) : Type ℓ where
  ok : A → Result A
  err : PathError → Result A

infixl 5 ◌>>=◌
abbrev pub ◌>>=◌ {ℓ κ} : {A : Type ℓ} {B : Type κ} → Result A → (A → Result B) → Result B
ok a >>= f = f a
err e >>= f = err e

-- [A-Za-z_]
unfoldable pub is_start : ℕ → Bool
is_start c = (leb b'A' c && leb c b'Z') || (leb b'a' c && leb c b'z') || (c == b'_')

-- [A-Za-z0-9_]
unfoldable pub is_word : ℕ → Bool
unfolding is_start
is_word c = is_start c || (leb b'0' c && leb c b'9')

-- The loop over `path`, at index `i`, with the text from there on.
unfoldable pub parse_steps : ℕ → ℕ → Text → Result (List Step)
unfolding is_word take_while drop_while starts_with
parse_steps fuel i [] = ok []
parse_steps zero i (ch ∷ s) = err out_of_fuel
parse_steps (suc fuel) i (ch ∷ s) =
    let dot = parse_steps fuel (i + 1) s in
    let bracket =
      (let rest = parse_steps fuel (i + 3) (drop 2 s) in
        if starts_with (codes "[*]") (ch ∷ s)
        then (do steps ← rest; ok (array ∷ steps))
        else err (malformed i)) in
    let identifier =
      (let name = take_while is_word s in
        let rest = parse_steps fuel (i + suc (length name)) (drop_while is_word s) in
        if is_start ch
        then (do steps ← rest; ok (key (ch ∷ name) ∷ steps))
        else err (unexpected i)) in
    if ch == b'.' then dot else if ch == b'[' then bracket else identifier

some_steps : List Step → Result (List Step)
some_steps [] = err no_steps
some_steps (s ∷ steps) = ok (s ∷ steps)

unfoldable pub parse_path : Text → Result (List Step)
unfolding parse_steps some_steps
parse_path [] = err empty_path
parse_path (c ∷ path) = do steps ← parse_steps (suc (length path)) 0 (c ∷ path); some_steps steps
