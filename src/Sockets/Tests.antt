-- ===== src/Sockets/Tests.antt =====
-- Runs of both registries, and the theorems about them at concrete inputs.
use topology_maps.Prelude.{
  ℕ, zero, suc, ◌≡◌, refl, Bool, true, false, some, List, [], ◌<◌, inl, inr, ◌∷◌, In, arith, ◌==◌,
  length, ◌↔◌,
}
use topology_maps.Text.{codes, text_eq}
use topology_maps.Dict.{get_or}
use topology_maps.Sockets.{sockets, dead}
use topology_maps.Sockets.Hub.{
  Hub, Subscribed, Action as HubAction, joins, leaves, act_all, during, broadcast,
  broadcast-Subscribed,
}
use topology_maps.Sockets.Manager.{
  Action as ManagerAction, disconnects, broadcast as broadcast_all, Distinct, sends, value_error,
  broadcast-skips,
}

abbrev hub : Hub
hub = (codes "o1", 1 ∷ 2 ∷ []) ∷ (codes "o2", 2 ∷ []) ∷ []

-- During the first send, socket 2 leaves the organisation, and 3 comes.
abbrev hub_turns : ℕ → List HubAction
hub_turns zero = leaves (codes "o1") 2 ∷ joins (codes "o1") 3 ∷ []
hub_turns (suc n) = []

abbrev first_refuses : ℕ → Bool
first_refuses n = n == 0

-- The socket that left is sent the message; the one that came stays.
hub_runs : broadcast hub_turns first_refuses (codes "o1") hub ≡ (
  (codes "o1", 3 ∷ []) ∷ (codes "o2", 2 ∷ []) ∷ [],
  record { socket = 1; refused = true } ∷ record { socket = 2; refused = false } ∷ [],
)
unfolding broadcast text_eq
hub_runs = refl

broadcast-Subscribed_example :
    (sockets (broadcast hub_turns first_refuses (codes "o1") hub).1 ≡ get_or (codes "o1") [] hub)
    × (Subscribed (codes "o1") 3 (broadcast hub_turns first_refuses (codes "o1") hub).0 ↔ (
        Subscribed
          (codes "o1")
          3
          (act_all (during hub_turns 0 (length (get_or (codes "o1") [] hub))) hub)
        × ¬ (
            (codes "o1" ≡ codes "o1")
            × In 3 (dead (broadcast hub_turns first_refuses (codes "o1") hub).1))))
broadcast-Subscribed_example =
    broadcast-Subscribed hub_turns first_refuses (codes "o1") hub (codes "o1") 3

-- During its own send, the first client disconnects.
abbrev manager_turns : ℕ → List ManagerAction
manager_turns zero = disconnects 1 ∷ []
manager_turns (suc n) = []

manager_quiet : (n : ℕ) → 0 < n → manager_turns n ≡ []
manager_quiet zero h = absurd (omega arith)
manager_quiet (suc n) h = refl

three-Distinct : Distinct (1 ∷ 2 ∷ 3 ∷ [])
unfolding Distinct
three-Distinct = (
  λ m. elim m [
    | inl e ↦ omega (arith, e)
    | inr n ↦ elim n [ inl e ↦ omega (arith, e) | inr k ↦ k ]
  ],
  (λ m. elim m [ inl e ↦ omega (arith, e) | inr k ↦ k ], (λ m. m, tt)),
)

broadcast-skips_example :
    broadcast_all manager_turns first_refuses 5 (1 ∷ 2 ∷ 3 ∷ [])
    ≡ some (
      value_error (2 ∷ 3 ∷ []),
      record { socket = 1; refused = true } ∷ sends first_refuses 1 (3 ∷ []),
    )
broadcast-skips_example =
    broadcast-skips manager_turns first_refuses 5 1 2 (3 ∷ []) refl manager_quiet refl
      three-Distinct (omega arith)
