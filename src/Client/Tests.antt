-- ===== src/Client/Tests.antt =====
-- A server with two pages.
use topology_maps.Prelude.{ℕ, ◌+◌, ◌≡◌, refl, ◌==◌, if◌then◌else◌, none, some, [], ◌∷◌, arith}
use topology_maps.Text.{Text, codes}
use topology_maps.Json.{null}
use topology_maps.Store.State.{Result, ok, raised}
use topology_maps.Client.Limiter.{
  RateLimiter, Bucket, Clock, IsHonest, full, acquire, acquire_all, Took, acquire_all-Took,
  acquire_starves,
}
use topology_maps.Client.{
  Page, max_pages_exceeded, get_paginated, get_paginated-IsChain, get_paginated-exceeded,
}

abbrev first : Page
first = record { items = null ∷ []; next_url = some (codes "/next") }

abbrev last : Page
last = record { items = null ∷ null ∷ []; next_url = none }

abbrev fetch : ℕ → Text → Result Page
fetch n url = if n == 0 then ok first else ok last

get_paginated-IsChain_example :
    get_paginated fetch 2 (codes "/p") 0 ≡ (ok (null ∷ null ∷ null ∷ []), 2)
get_paginated-IsChain_example =
    get_paginated-IsChain fetch 2 (codes "/p") 0 first (last ∷ []) refl
      (codes "/next", refl, refl, refl) (omega arith)

get_paginated-exceeded_example :
    get_paginated fetch 1 (codes "/p") 0 ≡ (raised max_pages_exceeded, 1)
get_paginated-exceeded_example =
    get_paginated-exceeded fetch 1 (codes "/p") 0 first (last ∷ []) refl
      (codes "/next", refl, refl, refl) (omega arith) (omega arith)

-- Five tokens a second, of a thousand parts each, and a tick of a millisecond.
abbrev limiter : RateLimiter
limiter = record { rate = 5; capacity = 5; token = 1000 }

-- No time passes but in sleeps, which last a tick for each part.
abbrev clock : Clock
clock n last owed = last + owed

clock-IsHonest : IsHonest limiter clock
clock-IsHonest n last owed = omega arith

abbrev full_bucket : Bucket
full_bucket = record { tokens = 5000; last_refill = 0 }

-- The sixth call in a row sleeps, and reads the clock twice.
acquire_all_runs :
    acquire_all limiter clock 2 6 0 full_bucket
    ≡ some (record { tokens = 4000; last_refill = 1000 }, 7)
unfolding acquire_all
acquire_all_runs = refl

acquire_all-Took_example :
    (b' : Bucket) × (n' : ℕ) × (acquire_all limiter clock 2 6 0 full_bucket ≡ some (b', n'))
    × Took limiter 6 full_bucket b'
unfolding full
acquire_all-Took_example =
    acquire_all-Took limiter clock clock-IsHonest (omega arith) 6 0 full_bucket (omega arith)

acquire_starves_example :
    acquire (record { rate = 5; capacity = 0; token = 1000 }) clock 9 0 0 full_bucket ≡ none
acquire_starves_example =
    acquire_starves (record { rate = 5; capacity = 0; token = 1000 }) refl (omega arith) clock 9 0 0
      full_bucket
