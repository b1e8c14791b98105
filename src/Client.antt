-- ===== src/Client.antt =====
-- `_get_paginated` of server/meraki_client.py. The HTTP client answers each request, by its number and
-- URL, with a page or an exception; the page holds the URL of the rel=next link, if there is one. The
-- rate limiter, which only waits, is left out: Client/Limiter is about it.
pub mod Getters
pub mod Limiter
mod Tests
use topology_maps.Prelude.{
  ℕ, zero, suc, ◌+◌, ◌-◌, ◌≤◌, ◌<◌, ◌≡◌, refl, sym, ap, ap₂, ◌∙◌, append-nil, Option, none, some,
  List, [], ◌∷◌, ◌++◌, length, arith, append_assoc,
}
use topology_maps.Text.{Text, codes}
use topology_maps.Json.{Json}
use topology_maps.Store.State.{Result, ok, raised, Exception, other}

pub record Page : Type 0 where
  pub items : List Json
  pub next_url : Option Text

abbrev pub max_pages_exceeded : Exception
max_pages_exceeded = other (codes "MaxPagesExceeded")

module _ (fetch : ℕ → Text → Result Page) where
  -- The loop, with the pages that may still be fetched, from request `n` on; the value has the number of
  -- the next request with it.
  unfoldable pub follow : ℕ → Option Text → List Json → ℕ → Result (List Json) × ℕ
  follow left none results n = (ok results, n)
  follow zero (some url) results n = (raised max_pages_exceeded, n)
  follow (suc left) (some url) results n = elim (fetch n url) [
    | raised e ↦ (raised e, n + 1)
    | ok page ↦ follow left page.next_url (results ++ page.items) (n + 1)
  ]

  unfoldable pub get_paginated : ℕ → Text → ℕ → Result (List Json) × ℕ
  unfolding follow
  get_paginated max_pages path n = elim (fetch n path) [
    | raised e ↦ (raised e, n + 1)
    | ok page ↦ follow (max_pages - 1) page.next_url page.items (n + 1)
  ]

  -- The pages that the server links, from a link on.
  abbrev pub IsChain : List Page → Option Text → ℕ → Type 0
  IsChain [] next n = next ≡ none
  IsChain (p ∷ ps) next n =
      (url : Text) × (next ≡ some url) × (fetch n url ≡ ok p) × IsChain ps p.next_url (n + 1)

  abbrev pub all_items : List Page → List Json
  all_items [] = []
  all_items (p ∷ ps) = p.items ++ all_items ps

  follow-step :
      (left : ℕ) (next : Option Text) (url : Text) (results : List Json) (n : ℕ) (p : Page)
      → next ≡ some url
      → fetch n url ≡ ok p
      → follow (suc left) next results n ≡ follow left p.next_url (results ++ p.items) (n + 1)
  unfolding follow
  follow-step left next url results n p e f = rw (e, f, follow) refl

  follow-IsChain :
      (left : ℕ) (ps : List Page) (next : Option Text) (results : List Json) (n : ℕ)
      → IsChain ps next n
      → length ps ≤ left
      → follow left next results n ≡ (ok (results ++ all_items ps), n + length ps)
  unfolding follow
  follow-IsChain left [] next results n c h =
      let here : follow left next results n ≡ (ok results, n) = rw (c, follow) refl in
      let grown : n ≡ n + 0 = omega arith in
      here ∙ ap₂ (λ xs m. (ok xs, m)) (sym (append-nil results)) grown
  follow-IsChain zero (p ∷ ps) next results n c h = absurd (omega arith)
  follow-IsChain (suc left) (p ∷ ps) next results n (url, e, f, c) h =
      let later : n + 1 + length ps ≡ n + suc (length ps) = omega arith in
      follow-step left next url results n p e f
      ∙ follow-IsChain left ps p.next_url (results ++ p.items) (n + 1) c (omega arith)
      ∙ ap₂ (λ xs m. (ok xs, m)) (append_assoc results p.items (all_items ps)) later

  follow-exceeded :
      (left : ℕ) (ps : List Page) (next : Option Text) (results : List Json) (n : ℕ)
      → IsChain ps next n
      → left < length ps
      → follow left next results n ≡ (raised max_pages_exceeded, n + left)
  unfolding follow
  follow-exceeded left [] next results n c h = absurd (omega arith)
  follow-exceeded zero (p ∷ ps) next results n (url, e, f, c) h =
      let here : follow zero next results n ≡ (raised max_pages_exceeded, n) =
        rw (e, follow) refl in
      let grown : n ≡ n + 0 = omega arith in here ∙ ap (λ m. (raised max_pages_exceeded, m)) grown
  follow-exceeded (suc left) (p ∷ ps) next results n (url, e, f, c) h =
      let later : n + 1 + left ≡ n + suc left = omega arith in
      follow-step left next url results n p e f
      ∙ follow-exceeded left ps p.next_url (results ++ p.items) (n + 1) c (omega arith)
      ∙ ap (λ m. (raised max_pages_exceeded, m)) later

  get_paginated-first :
      (max_pages : ℕ) (path : Text) (n : ℕ) (first : Page)
      → fetch n path ≡ ok first
      → get_paginated max_pages path n ≡ follow (max_pages - 1) first.next_url first.items (n + 1)
  unfolding get_paginated
  get_paginated-first max_pages path n first e = rw (e, get_paginated) refl

  -- Where the answer to the path and the links from it make a chain of pages, and no more than
  -- `max_pages` of them, the fetch returns the items of all the pages in order, after one request for each
  -- page.
  pub get_paginated-IsChain :
      (max_pages : ℕ) (path : Text) (n : ℕ) (first : Page) (ps : List Page)
      → fetch n path ≡ ok first
      → IsChain ps first.next_url (n + 1)
      → length (first ∷ ps) ≤ max_pages
      → get_paginated max_pages path n ≡ (ok (all_items (first ∷ ps)), n + length (first ∷ ps))
  get_paginated-IsChain max_pages path n first ps e c h =
      let later : n + 1 + length ps ≡ n + suc (length ps) = omega arith in
      get_paginated-first max_pages path n first e
      ∙ follow-IsChain (max_pages - 1) ps first.next_url first.items (n + 1) c (omega arith)
      ∙ ap (λ m. (ok (first.items ++ all_items ps), m)) later

  -- Where the chain has more pages than `max_pages`, which is at least one, the fetch raises
  -- `MaxPagesExceeded` after `max_pages` requests.
  pub get_paginated-exceeded :
      (max_pages : ℕ) (path : Text) (n : ℕ) (first : Page) (ps : List Page)
      → fetch n path ≡ ok first
      → IsChain ps first.next_url (n + 1)
      → 1 ≤ max_pages
      → max_pages < length (first ∷ ps)
      → get_paginated max_pages path n ≡ (raised max_pages_exceeded, n + max_pages)
  get_paginated-exceeded max_pages path n first ps e c b h =
      let later : n + 1 + (max_pages - 1) ≡ n + max_pages = omega arith in
      get_paginated-first max_pages path n first e
      ∙ follow-exceeded (max_pages - 1) ps first.next_url first.items (n + 1) c (omega arith)
      ∙ ap (λ m. (raised max_pages_exceeded, m)) later
