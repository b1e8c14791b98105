-- ===== src/Sockets/Hub.antt =====
-- ConfigWebSocketHub of server/routes/config.py. While `broadcast` waits for a `send`, other tasks
-- subscribe and unsubscribe: what they do during the n-th send is `turns n`, and `refuses n` says
-- whether it raises. A set is the list of its sockets, in the order that `list` gives them.
use topology_maps.Prelude.{
  ℕ, zero, suc, ◌≡◌, refl, ◌≢◌, ◌↔◌, subst, ◌∙◌, sym, ap, inl, inr, Bool, none, some, List, [], ◌∷◌,
  ◌++◌, In, ◌==◌, ==_iff, if◌then◌else◌, Bool-cases, Option-cases, any, length,
}
use topology_maps.Text.{Text, text_eq, text_eq_iff}
use topology_maps.Dict.{Dict, get, put, get_or, get_or-put, get_or-none, get_or-some}
use topology_maps.Sockets.{Sending, sockets, dead}

-- _subscribers
abbrev pub Hub : Type 0
Hub = Dict (List ℕ)

abbrev pub Subscribed : Text → ℕ → Hub → Type 0
Subscribed org_id ws hub = In ws (get_or org_id [] hub)

unfoldable pub subscribe : Text → ℕ → Hub → Hub
unfolding put get_or
subscribe org_id ws hub =
    let s = get_or org_id [] hub in put org_id (if any (λ v. v == ws) s then s else ws ∷ s) hub

unfoldable pub discard : ℕ → List ℕ → List ℕ
discard ws [] = []
discard ws (v ∷ s) = let rest = discard ws s in if v == ws then rest else v ∷ rest

unfoldable pub unsubscribe : Text → ℕ → Hub → Hub
unfolding get put discard
unsubscribe org_id ws hub = elim (get org_id hub) [
  | none ↦ hub
  | some s ↦ put org_id (discard ws s) hub
]

-- What another task does.
pub data Action : Type 0 where
  joins leaves : Text → ℕ → Action

unfoldable pub act : Action → Hub → Hub
unfolding subscribe unsubscribe
act (joins org_id ws) = subscribe org_id ws
act (leaves org_id ws) = unsubscribe org_id ws

unfoldable pub act_all : List Action → Hub → Hub
unfolding act
act_all [] hub = hub
act_all (a ∷ actions) hub = act_all actions (act a hub)

-- for d in dead: self.unsubscribe(org_id, d)
unfoldable pub unsubscribe_all : Text → List ℕ → Hub → Hub
unfolding unsubscribe
unsubscribe_all org_id [] hub = hub
unsubscribe_all org_id (ws ∷ gone) hub = unsubscribe_all org_id gone (unsubscribe org_id ws hub)

module _ (turns : ℕ → List Action) (refuses : ℕ → Bool) where
  unfoldable pub send_each : ℕ → List ℕ → Hub → Hub × List Sending
  unfolding act_all
  send_each n [] hub = (hub, [])
  send_each n (ws ∷ rest) hub =
      let (after, log) = send_each (suc n) rest (act_all (turns n) hub) in
      (after, record { socket = ws; refused = refuses n } ∷ log)

  unfoldable pub broadcast : Text → Hub → Hub × List Sending
  unfolding send_each unsubscribe_all get_or dead
  broadcast org_id hub =
      let (after, log) = send_each 0 (get_or org_id [] hub) hub in
      (unsubscribe_all org_id (dead log) after, log)

-- What the other tasks do during `k` sends from the n-th on.
unfoldable pub during : (ℕ → List Action) → ℕ → ℕ → List Action
during turns n zero = []
during turns n (suc k) = turns n ++ during turns (suc n) k

act_all-append :
    (xs ys : List Action) (hub : Hub) → act_all (xs ++ ys) hub ≡ act_all ys (act_all xs hub)
unfolding act_all
act_all-append [] ys hub = refl
act_all-append (a ∷ xs) ys hub = act_all-append xs ys (act a hub)

send_each-hub :
    (turns : ℕ → List Action) (refuses : ℕ → Bool) (n : ℕ) (ss : List ℕ) (hub : Hub)
    → (send_each turns refuses n ss hub).0 ≡ act_all (during turns n (length ss)) hub
unfolding send_each during act_all
send_each-hub turns refuses n [] hub = refl
send_each-hub turns refuses n (ws ∷ ss) hub =
    send_each-hub turns refuses (suc n) ss (act_all (turns n) hub)
    ∙ sym (act_all-append (turns n) (during turns (suc n) (length ss)) hub)

send_each-sockets :
    (turns : ℕ → List Action) (refuses : ℕ → Bool) (n : ℕ) (ss : List ℕ) (hub : Hub)
    → sockets (send_each turns refuses n ss hub).1 ≡ ss
unfolding send_each
send_each-sockets turns refuses n [] hub = refl
send_each-sockets turns refuses n (ws ∷ ss) hub =
    ap (λ xs. ws ∷ xs) (send_each-sockets turns refuses (suc n) ss (act_all (turns n) hub))

In-discard : (v ws : ℕ) (s : List ℕ) → In v (discard ws s) ↔ (In v s × (v ≢ ws))
unfolding discard
In-discard v ws [] = (λ m. absurd m, λ p. absurd p.0)
In-discard v ws (u ∷ s) =
    let rest = In-discard v ws s in
    elim (Bool-cases (u == ws)) [
      | inl e ↦ rw e (
        λ m. (inr (rest.0 m).0, (rest.0 m).1),
        λ p. elim p.0 [ inl q ↦ absurd (p.1 (q ∙ (==_iff u ws).0 e)) | inr m ↦ rest.1 (m, p.1) ],
      )
      | inr e ↦ rw e (
        λ m. elim m [
          | inl q ↦ (inl q, λ r. absurd (cc (e, (==_iff u ws).1 (sym q ∙ r))))
          | inr n ↦ (inr (rest.0 n).0, (rest.0 n).1)
        ],
        λ p. elim p.0 [ inl q ↦ inl q | inr m ↦ inr (rest.1 (m, p.1)) ],
      )
    ]

-- Where the sockets of an organisation are replaced, and the sockets of the others are not.
Subscribed-put :
    (j org_id : Text) (v ws : ℕ) (s : List ℕ) (hub : Hub)
    → get org_id hub ≡ some s
    → Subscribed j v (put org_id (discard ws s) hub)
      ↔ (Subscribed j v hub × ¬ ((j ≡ org_id) × (v ≡ ws)))
Subscribed-put j org_id v ws s hub e =
    rw (get_or-put j org_id (discard ws s) [] hub) (elim (Bool-cases (text_eq org_id j)) [
      | inl q ↦
          let same : org_id ≡ j = (text_eq_iff org_id j).0 q in
          let there : get_or j [] hub ≡ s =
            subst (λ i. get_or i [] hub ≡ s) same (get_or-some org_id [] s hub e) in
          let here = In-discard v ws s in
          rw (q, there)
            (λ m. ((here.0 m).0, λ p. (here.0 m).1 p.1), λ p. here.1 (p.0, λ r. p.1 (sym same, r)))
      | inr q ↦ rw q (λ m. (m, λ p. absurd (cc (q, (text_eq_iff org_id j).1 (sym p.0)))), λ p. p.0)
    ])

Subscribed-unsubscribe :
    (j org_id : Text) (v ws : ℕ) (hub : Hub)
    → Subscribed j v (unsubscribe org_id ws hub)
      ↔ (Subscribed j v hub × ¬ ((j ≡ org_id) × (v ≡ ws)))
unfolding unsubscribe
Subscribed-unsubscribe j org_id v ws hub = elim (Option-cases (get org_id hub)) [
  | inl e ↦
      rw (e, unsubscribe)
        (
          λ m. (
            m,
            λ p.
                subst (λ s. In v s) (ap (λ i. get_or i [] hub) p.0 ∙ get_or-none org_id [] hub e) m,
          ),
          λ p. p.0,
        )
  | inr (s, e) ↦ rw (e, unsubscribe) (Subscribed-put j org_id v ws s hub e)
]

Subscribed-unsubscribe_all :
    (j org_id : Text) (v : ℕ) (gone : List ℕ) (hub : Hub)
    → Subscribed j v (unsubscribe_all org_id gone hub)
      ↔ (Subscribed j v hub × ¬ ((j ≡ org_id) × In v gone))
unfolding unsubscribe_all
Subscribed-unsubscribe_all j org_id v [] hub = (λ m. (m, λ p. absurd p.1), λ p. p.0)
Subscribed-unsubscribe_all j org_id v (ws ∷ gone) hub =
    let first = Subscribed-unsubscribe j org_id v ws hub in
    let rest = Subscribed-unsubscribe_all j org_id v gone (unsubscribe org_id ws hub) in
    (
      λ m.
          let (n, out) = rest.0 m in
          ((first.0 n).0, λ p. elim p.1 [ inl q ↦ (first.0 n).1 (p.0, q) | inr i ↦ out (p.0, i) ]),
      λ p. rest.1 (first.1 (p.0, λ q. p.1 (q.0, inl q.1)), λ q. p.1 (q.0, inr q.1)),
    )

-- Whatever other tasks subscribe and unsubscribe during the sends, and whichever sends raise,
-- `broadcast` sends to each socket that was subscribed to the organisation when it began, in order,
-- and afterwards a socket is subscribed to an organisation exactly if the other tasks alone would
-- leave it so, and it is not one whose send to this organisation raised.
pub broadcast-Subscribed :
    (turns : ℕ → List Action) (refuses : ℕ → Bool) (org_id : Text) (hub : Hub) (j : Text) (v : ℕ)
    → let result = broadcast turns refuses org_id hub in
      let members = get_or org_id [] hub in
      (sockets result.1 ≡ members)
      × (Subscribed j v result.0 ↔ (
          Subscribed j v (act_all (during turns 0 (length members)) hub)
          × ¬ ((j ≡ org_id) × In v (dead result.1))))
unfolding broadcast
broadcast-Subscribed turns refuses org_id hub j v =
    let members = get_or org_id [] hub in
    (
      send_each-sockets turns refuses 0 members hub,
      subst
          (λ h.
            Subscribed j v (
              unsubscribe_all org_id (dead (send_each turns refuses 0 members hub).1)
                (send_each turns refuses 0 members hub).0)
            ↔ (Subscribed j v h
                × ¬ ((j ≡ org_id) × In v (dead (send_each turns refuses 0 members hub).1))))
          (send_each-hub turns refuses 0 members hub)
          (Subscribed-unsubscribe_all j org_id v (dead (send_each turns refuses 0 members hub).1)
            (send_each turns refuses 0 members hub).0),
    )
