-- ===== src/Dict.antt =====
-- Python's dict with text keys, as its entries in insertion order; a set of texts is a list.
use topology_maps.Prelude.{
  ◌≡◌, refl, sym, ◌∙◌, ◌↔◌, ◌⊎◌, inl, inr, Bool, true, false, ◌||◌, Option, none, some, List, [],
  ◌∷◌, In, arith, ap, ap₂, if◌then◌else◌, Bool-cases, subst,
}
use topology_maps.Text.{Text, text_eq, text_eq_iff, text_eq_refl, text_lt, elem}

abbrev pub Dict : Type 0 → Type 0
Dict V = List (Text × V)

module _ {V : Type 0} where
  -- d.get(k)
  unfoldable pub get : Text → Dict V → Option V
  unfolding text_eq
  get k [] = none
  get k ((j, v) ∷ d) = if text_eq j k then some v else get k d

  -- k in d
  unfoldable pub has : Text → Dict V → Bool
  unfolding text_eq
  has k [] = false
  has k ((j, v) ∷ d) = text_eq j k || has k d

  -- d[k] = v, where the entry of a key that is there keeps its place
  unfoldable pub put : Text → V → Dict V → Dict V
  unfolding text_eq
  put k v [] = (k, v) ∷ []
  put k v ((j, w) ∷ d) = if text_eq j k then (j, v) ∷ d else (j, w) ∷ put k v d

  -- d.get(k, v), and d[k] of a defaultdict that makes v
  unfoldable pub get_or : Text → V → Dict V → V
  unfolding get
  get_or k v d = elim (get k d) [ none ↦ v | some w ↦ w ]

  -- list(d)
  unfoldable pub keys : Dict V → List Text
  keys [] = []
  keys ((k, v) ∷ d) = k ∷ keys d

  pub get-put :
      (j k : Text) (v : V) (d : Dict V)
      → get j (put k v d) ≡ (if text_eq k j then some v else get j d)
  unfolding get put
  get-put j k v [] = refl
  get-put j k v ((i, w) ∷ d) = elim (Bool-cases (text_eq i k)) [
    | inl e ↦ let same : i ≡ k = (text_eq_iff i k).0 e in rw (e, same) (ground arith)
    | inr n ↦ elim (Bool-cases (text_eq i j)) [
      | inl e ↦
          let same : i ≡ j = (text_eq_iff i j).0 e in
          elim (Bool-cases (text_eq k j)) [
            | inl q ↦
                let other : i ≡ k = same ∙ sym ((text_eq_iff k j).0 q) in
                absurd (cc (n, (text_eq_iff i k).1 other))
            | inr q ↦ rw (n, get) (rw (e, q, get) refl)
          ]
      | inr m ↦ rw (n, get) (rw (m, get) (get-put j k v d))
    ]
  ]

  pub get-put_self : (k : Text) (v : V) (d : Dict V) → get k (put k v d) ≡ some v
  get-put_self k v d = rw (get-put k k v d, text_eq_refl k) refl

  pub get_or-put :
      (j k : Text) (v w : V) (d : Dict V)
      → get_or j w (put k v d) ≡ (if text_eq k j then v else get_or j w d)
  unfolding get_or
  get_or-put j k v w d =
      rw (get-put j k v d, get_or)
        (elim (Bool-cases (text_eq k j)) [ inl e ↦ rw e refl | inr e ↦ rw e refl ])

  pub get_or-some : (k : Text) (v w : V) (d : Dict V) → get k d ≡ some w → get_or k v d ≡ w
  unfolding get_or
  get_or-some k v w d e = rw (e, get_or) refl

  pub get_or-none : (k : Text) (v : V) (d : Dict V) → get k d ≡ none → get_or k v d ≡ v
  unfolding get_or
  get_or-none k v d e = rw (e, get_or) refl

  pub get-In : (k : Text) (d : Dict V) (v : V) → get k d ≡ some v → In (k, v) d
  unfolding get
  get-In k [] v e = absurd (ground arith)
  get-In k ((j, w) ∷ d) v e = elim (Bool-cases (text_eq j k)) [
    | inl q ↦
        let same : j ≡ k = (text_eq_iff j k).0 q in
        inl (ap₂ (λ a b. (a, b)) (sym same) (ground arith))
    | inr q ↦ inr (get-In k d v (rw q at e))
  ]

  pub In-put :
      (j k : Text) (w v : V) (d : Dict V)
      → In (j, w) (put k v d)
      → ((j ≡ k) × (w ≡ v)) ⊎ In (j, w) d
  unfolding put
  In-put j k w v [] (inl e) = inl (ap (λ p. p.0) e, ap (λ p. p.1) e)
  In-put j k w v [] (inr m) = absurd m
  In-put j k w v ((i, u) ∷ d) m = elim (Bool-cases (text_eq i k)) [
    | inl q ↦ elim (rw (q, put) at m) [
      | inl e ↦ inl (ap (λ p. p.0) e ∙ (text_eq_iff i k).0 q, ap (λ p. p.1) e)
      | inr n ↦ inr (inr n)
    ]
    | inr q ↦ elim (rw (q, put) at m) [
      | inl e ↦ inr (inl e)
      | inr n ↦ elim (In-put j k w v d n) [ inl e ↦ inl e | inr l ↦ inr (inr l) ]
    ]
  ]

  pub has-put : (j k : Text) (v : V) (d : Dict V) → has j (put k v d) ≡ text_eq k j || has j d
  unfolding has put
  has-put j k v [] = refl
  has-put j k v ((i, w) ∷ d) = elim (Bool-cases (text_eq i k)) [
    | inl e ↦ let same : i ≡ k = (text_eq_iff i k).0 e in rw (e, same) (ground arith)
    | inr n ↦ rw (n, has) (rw (has-put j k v d) (ground arith))
  ]

-- `elem` is membership.
pub elem_iff : (t : Text) (ts : List Text) → (elem t ts ≡ true) ↔ In t ts
unfolding elem
elem_iff t [] = (λ e. cc, λ m. absurd m)
elem_iff t (u ∷ us) = (
  λ e. elim (Bool-cases (text_eq u t)) [
    | inl q ↦ inl (sym ((text_eq_iff u t).0 q))
    | inr q ↦ inr ((elem_iff t us).0 (rw q at e))
  ],
  λ m. elim m [
    | inl q ↦ rw (q, text_eq_refl u) refl
    | inr n ↦ rw ((elem_iff t us).1 n) (ground arith)
  ],
)

insert_text : Text → List Text → List Text
unfolding text_lt
insert_text t [] = t ∷ []
insert_text t (u ∷ us) = if text_lt u t then u ∷ insert_text t us else t ∷ u ∷ us

-- sorted(ts)
unfoldable pub sorted : List Text → List Text
unfolding insert_text
sorted [] = []
sorted (t ∷ ts) = insert_text t (sorted ts)

In-insert_text : (s t : Text) (ts : List Text) → In s (insert_text t ts) ↔ ((s ≡ t) ⊎ In s ts)
unfolding insert_text
In-insert_text s t [] = (λ m. m, λ m. m)
In-insert_text s t (u ∷ us) = elim (Bool-cases (text_lt u t)) [
  | inl e ↦
      rw (e, insert_text)
        (
          λ m. elim m [
            | inl q ↦ inr (inl q)
            | inr n ↦ elim ((In-insert_text s t us).0 n) [ inl q ↦ inl q | inr k ↦ inr (inr k) ]
          ],
          λ m. elim m [
            | inl q ↦ inr ((In-insert_text s t us).1 (inl q))
            | inr n ↦ elim n [ inl q ↦ inl q | inr k ↦ inr ((In-insert_text s t us).1 (inr k)) ]
          ],
        )
  | inr e ↦ rw (e, insert_text) (λ m. m, λ m. m)
]

pub In-sorted : (s : Text) (ts : List Text) → In s (sorted ts) ↔ In s ts
unfolding sorted
In-sorted s [] = (λ m. m, λ m. m)
In-sorted s (t ∷ ts) = (
  λ m. elim ((In-insert_text s t (sorted ts)).0 m) [
    | inl q ↦ inl q
    | inr n ↦ inr ((In-sorted s ts).0 n)
  ],
  λ m.
      (In-insert_text s t (sorted ts)).1
        (elim m [ inl q ↦ inl q | inr n ↦ inr ((In-sorted s ts).1 n) ]),
)

-- No key has two entries.
abbrev pub IsDict : {V : Type 0} → Dict V → Type 0
IsDict [] = Unit
IsDict ((k, v) ∷ d) = (has k d ≡ false) × IsDict d

module _ {V : Type 0} where
  pub IsDict-put : (k : Text) (v : V) (d : Dict V) → IsDict d → IsDict (put k v d)
  unfolding put has
  IsDict-put k v [] h = (refl, tt)
  IsDict-put k v ((j, w) ∷ d) h = elim (Bool-cases (text_eq j k)) [
    | inl e ↦ rw (e, put) h
    | inr n ↦
        let apart : text_eq k j ≡ false = ground (arith, text_eq_iff k j, text_eq_iff j k) in
        rw (n, put) (rw (has-put j k v d, apart) (ground arith), IsDict-put k v d h.1)
  ]

  In-has : (k : Text) (v : V) (d : Dict V) → In (k, v) d → has k d ≡ true
  unfolding has
  In-has k v [] m = absurd m
  In-has k v ((j, w) ∷ d) (inl e) = rw ((text_eq_iff j k).1 (sym (ap (λ p. p.0) e))) (ground arith)
  In-has k v ((j, w) ∷ d) (inr m) = ground (arith, In-has k v d m)

  -- Two entries with one key are one entry.
  pub IsDict-In : (k : Text) (v w : V) (d : Dict V) → IsDict d → In (k, v) d → In (k, w) d → v ≡ w
  unfolding has
  IsDict-In k v w [] h m n = absurd m
  IsDict-In k v w ((j, u) ∷ d) h (inl e) (inl f) = ap (λ p. p.1) e ∙ sym (ap (λ p. p.1) f)
  IsDict-In k v w ((j, u) ∷ d) h (inl e) (inr n) =
      let there : has j d ≡ true = In-has j w d (subst (λ i. In (i, w) d) (ap (λ p. p.0) e) n) in
      absurd (cc (there, h.0))
  IsDict-In k v w ((j, u) ∷ d) h (inr m) (inl f) =
      let there : has j d ≡ true = In-has j v d (subst (λ i. In (i, v) d) (ap (λ p. p.0) f) m) in
      absurd (cc (there, h.0))
  IsDict-In k v w ((j, u) ∷ d) h (inr m) (inr n) = IsDict-In k v w d h.1 m n

  pub has-In : (k : Text) (d : Dict V) → has k d ≡ true → (v : V) × In (k, v) d
  unfolding has
  has-In k [] e = absurd (cc)
  has-In k ((j, v) ∷ d) e = elim (Bool-cases (text_eq j k)) [
    | inl q ↦ (v, inl (ap (λ i. (i, v)) (sym ((text_eq_iff j k).0 q))))
    | inr q ↦ let (w, m) = has-In k d (ground arith) in (w, inr m)
  ]
