-- ===== src/Redactor/Path/RoundTrip.antt =====
-- `parse_path` reads back every path that the notation of redaction_catalog.py can write.
use topology_maps.Prelude.{
  ℕ, zero, suc, ◌+◌, ◌≤◌, ◌≡◌, refl, ◌≢◌, Bool, true, false, not, ◌&&◌, List, [], ◌∷◌, ◌++◌, length,
  length-append, all, All, drop, take_while, drop_while, arith, ◌==◌, if◌then◌else◌,
}
use topology_maps.Text.{Text, codes, starts_with}
use topology_maps.Redactor.Path.{
  Step, key, array, Result, ok, err, out_of_fuel, ◌>>=◌, is_start, is_word, parse_steps, some_steps,
  parse_path,
}

-- `[A-Za-z_][A-Za-z0-9_]*`
abbrev pub is_identifier : Text → Bool
is_identifier [] = false
is_identifier (c ∷ name) = is_start c && all is_word name

abbrev pub IsStep : Step → Type 0
IsStep (key k) = is_identifier k ≡ true
IsStep array = Unit

-- The steps that follow the first one.
unfoldable pub print_rest : List Step → Text
print_rest [] = []
print_rest (key k ∷ steps) = b'.' ∷ (k ++ print_rest steps)
print_rest (array ∷ steps) = codes "[*]" ++ print_rest steps

unfoldable pub print_path : List Step → Text
unfolding print_rest
print_path [] = []
print_path (key k ∷ steps) = k ++ print_rest steps
print_path (array ∷ steps) = codes "[*]" ++ print_rest steps

abbrev stops : (ℕ → Bool) → Text → Bool
stops p [] = true
stops p (c ∷ s) = not (p c)

take_while-append :
    (p : ℕ → Bool) (xs ys : Text)
    → all p xs ≡ true
    → stops p ys ≡ true
    → take_while p (xs ++ ys) ≡ xs
unfolding take_while
take_while-append p [] [] h k = refl
take_while-append p [] (y ∷ ys) h k = ground arith
take_while-append p (x ∷ xs) ys h k = ground (arith, take_while-append p xs ys)

drop_while-append :
    (p : ℕ → Bool) (xs ys : Text)
    → all p xs ≡ true
    → stops p ys ≡ true
    → drop_while p (xs ++ ys) ≡ ys
unfolding drop_while
drop_while-append p [] [] h k = refl
drop_while-append p [] (y ∷ ys) h k = ground arith
drop_while-append p (x ∷ xs) ys h k = ground (arith, drop_while-append p xs ys)

stops-print_rest : (steps : List Step) → stops is_word (print_rest steps) ≡ true
unfolding print_rest is_word
stops-print_rest [] = refl
stops-print_rest (key k ∷ steps) = refl
stops-print_rest (array ∷ steps) = refl

is_start-ne : (c : ℕ) → is_start c ≡ true → ((c == b'.') ≡ false) × ((c == b'[') ≡ false)
unfolding is_start
is_start-ne c h = ground arith

-- One identifier, read whole.
parse_steps-identifier :
    (fuel i c : ℕ) (name : Text) (steps : List Step)
    → is_identifier (c ∷ name) ≡ true
    → ((j : ℕ) → parse_steps fuel j (print_rest steps) ≡ ok steps)
    → parse_steps (suc fuel) i (c ∷ (name ++ print_rest steps)) ≡ ok (key (c ∷ name) ∷ steps)
unfolding parse_steps
parse_steps-identifier fuel i c name steps h rest = ground (
  arith,
  is_start-ne c,
  take_while-append is_word name (print_rest steps),
  drop_while-append is_word name (print_rest steps),
  stops-print_rest steps,
  rest (i + suc (length name)),
)

parse_steps-print_rest :
    (fuel i : ℕ) (steps : List Step)
    → length (print_rest steps) ≤ fuel
    → All IsStep steps
    → parse_steps fuel i (print_rest steps) ≡ ok steps
unfolding parse_steps print_rest
parse_steps-print_rest fuel i [] h k = refl
parse_steps-print_rest zero i (key name ∷ steps) h k = absurd (omega arith)
parse_steps-print_rest zero i (array ∷ steps) h k = absurd (omega arith)
parse_steps-print_rest (suc fuel) i (array ∷ steps) h k =
    ground (arith, parse_steps-print_rest fuel (i + 3) steps)
parse_steps-print_rest (suc fuel) i (key [] ∷ steps) h k = cc (k.0)
parse_steps-print_rest (suc zero) i (key (c ∷ name) ∷ steps) h k = absurd (omega arith)
parse_steps-print_rest (suc (suc fuel)) i (key (c ∷ name) ∷ steps) h k =
    parse_steps-identifier fuel (i + 1) c name steps k.0 (λ j.
      parse_steps-print_rest fuel j steps (omega (arith, length-append name (print_rest steps)))
        k.1)

-- A path of at least one step, whose keys are identifiers, is parsed back to its steps from the
-- text that `print_path` writes for it.
pub parse_path-print_path :
    (s : Step) (steps : List Step)
    → All IsStep (s ∷ steps)
    → parse_path (print_path (s ∷ steps)) ≡ ok (s ∷ steps)
unfolding parse_path print_path
parse_path-print_path array steps h =
    let n = suc (suc (suc (length (print_rest steps)))) in
    let e : parse_steps n 0 (print_rest (array ∷ steps)) ≡ ok (array ∷ steps) =
      parse_steps-print_rest n 0 (array ∷ steps) (omega arith) h in
    rw e
parse_path-print_path (key []) steps h = cc (h.0)
parse_path-print_path (key (c ∷ name)) steps h = rw (
    parse_steps-identifier (length (name ++ print_rest steps)) 0 c name steps h.0 (λ j.
      parse_steps-print_rest _ j steps (omega (arith, length-append name (print_rest steps))) h.1))

length-drop_while : (p : ℕ → Bool) (s : Text) → length (drop_while p s) ≤ length s
unfolding drop_while
length-drop_while p [] = omega arith
length-drop_while p (c ∷ s) = ground (arith, length-drop_while p s)

length-drop : (n : ℕ) (s : Text) → length (drop n s) ≤ length s
length-drop zero s = omega arith
length-drop (suc n) [] = omega arith
length-drop (suc n) (c ∷ s) = omega (arith, length-drop n s)

all-take_while : (p : ℕ → Bool) (s : Text) → all p (take_while p s) ≡ true
unfolding take_while
all-take_while p [] = refl
all-take_while p (c ∷ s) = ground (arith, all-take_while p s)

-- What the loop may return: steps whose keys are identifiers, or one of the errors that it raises.
abbrev IsFine : Result (List Step) → Type 0
IsFine (ok steps) = All IsStep steps
IsFine (err e) = e ≢ out_of_fuel

IsFine-if :
    (b : Bool) (r q : Result (List Step))
    → (b ≡ true → IsFine r)
    → (b ≡ false → IsFine q)
    → IsFine (if b then r else q)
IsFine-if true r q h k = h refl
IsFine-if false r q h k = k refl

IsFine-cons :
    (s : Step) (r : Result (List Step))
    → IsStep s
    → IsFine r
    → IsFine (do steps ← r; ok (s ∷ steps))
IsFine-cons s (ok steps) h k = (h, k)
IsFine-cons s (err e) h k = k

parse_steps-IsFine : (fuel i : ℕ) (s : Text) → length s ≤ fuel → IsFine (parse_steps fuel i s)
unfolding parse_steps
parse_steps-IsFine fuel i [] h = tt
parse_steps-IsFine zero i (c ∷ s) h = absurd (omega arith)
parse_steps-IsFine (suc fuel) i (c ∷ s) h =
    IsFine-if (c == b'.') _ _ (λ _. parse_steps-IsFine fuel (i + 1) s (omega arith))
      λ _.
        IsFine-if (c == b'[') _ _
          (λ _.
            IsFine-if (starts_with (codes "[*]") (c ∷ s)) _ _
              (λ _.
                IsFine-cons array _ tt
                  (parse_steps-IsFine fuel (i + 3) (drop 2 s) (omega (arith, length-drop 2 s))))
              (λ _ e. cc))
          λ _.
            IsFine-if (is_start c) _ _
              (λ start.
                IsFine-cons (key (c ∷ take_while is_word s)) _
                  (rw (start, all-take_while is_word s))
                  (parse_steps-IsFine fuel _ (drop_while is_word s)
                    (omega (arith, length-drop_while is_word s))))
              (λ _ e. cc)

-- The value of `parse_path`: steps, at least one, whose keys are identifiers, or a `ValueError`.
abbrev pub IsParsed : Result (List Step) → Type 0
IsParsed (ok steps) = (steps ≢ []) × All IsStep steps
IsParsed (err e) = e ≢ out_of_fuel

some_steps-IsParsed :
    (r : Result (List Step)) → IsFine r → IsParsed (do steps ← r; some_steps steps)
unfolding some_steps
some_steps-IsParsed (ok []) h = λ e. cc
some_steps-IsParsed (ok (s ∷ steps)) h = (λ e. cc, h)
some_steps-IsParsed (err e) h = h

-- On every text `parse_path` ends within its fuel: it returns at least one step, with an identifier
-- in each key step, or it raises a `ValueError`.
pub parse_path-IsParsed : (path : Text) → IsParsed (parse_path path)
unfolding parse_path
parse_path-IsParsed [] = λ e. cc
parse_path-IsParsed (c ∷ path) =
    some_steps-IsParsed (parse_steps (suc (length path)) 0 (c ∷ path))
      (parse_steps-IsFine (suc (length path)) 0 (c ∷ path) (omega arith))
