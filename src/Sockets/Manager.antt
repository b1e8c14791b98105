-- ===== src/Sockets/Manager.antt =====
-- WebSocketManager of server/websocket.py. While `broadcast` waits for a `send`, other tasks connect
-- and disconnect: what they do during the n-th send is `turns n`, and `refuses n` says whether it
-- raises. The loop reads the list of connections itself, by a position that grows.
use topology_maps.Prelude.{
  ℕ, zero, suc, ◌<◌, ◌≡◌, refl, ap, sym, subst, Option-cases, drop, inl, inr, Bool, true, Option,
  none, some, List, [], ◌∷◌, ◌++◌, In, arith, ◌==◌, ==_iff, if◌then◌else◌, Bool-cases, length,
  get_elem?,
}
use topology_maps.Sockets.{Sending, sockets, dead}

-- list.remove, which raises ValueError where the socket is not there
unfoldable pub remove_socket : ℕ → List ℕ → Option (List ℕ)
remove_socket ws [] = none
remove_socket ws (v ∷ s) =
    let rest = remove_socket ws s in
    if v == ws then some s else elim rest [ none ↦ none | some t ↦ some (v ∷ t) ]

unfoldable pub connect : ℕ → List ℕ → List ℕ
connect ws connections = connections ++ (ws ∷ [])

-- `disconnect`, whose ValueError ends the task that calls it.
unfoldable pub disconnect : ℕ → List ℕ → List ℕ
unfolding remove_socket
disconnect ws connections = elim (remove_socket ws connections) [ none ↦ connections | some s ↦ s ]

-- What another task does.
pub data Action : Type 0 where
  connects disconnects : ℕ → Action

unfoldable pub act_all : List Action → List ℕ → List ℕ
unfolding connect disconnect
act_all [] s = s
act_all (connects ws ∷ actions) s = act_all actions (connect ws s)
act_all (disconnects ws ∷ actions) s = act_all actions (disconnect ws s)

-- The connections that `broadcast` leaves when it returns, or when `remove` raises.
pub data BroadcastOutcome : Type 0 where
  returned value_error : List ℕ → BroadcastOutcome

-- for ws in disconnected: self._connections.remove(ws)
unfoldable pub remove_all : List ℕ → List ℕ → BroadcastOutcome
unfolding remove_socket
remove_all [] s = returned s
remove_all (ws ∷ gone) s = elim (remove_socket ws s) [
  | none ↦ value_error s
  | some t ↦ remove_all gone t
]

module _ (turns : ℕ → List Action) (refuses : ℕ → Bool) where
  -- The loop, for at most `fuel` turns of it: others that keep connecting keep it going.
  unfoldable pub send_from : (fuel i : ℕ) → List ℕ → Option (List ℕ × List Sending)
  unfolding act_all
  send_from zero i s = none
  send_from (suc fuel) i s = elim (get_elem? s i) [
    | none ↦ some (s, [])
    | some ws ↦ elim (send_from fuel (suc i) (act_all (turns i) s)) [
      | none ↦ none
      | some (after, log) ↦ some (after, record { socket = ws; refused = refuses i } ∷ log)
    ]
  ]

  unfoldable pub broadcast : (fuel : ℕ) → List ℕ → Option (BroadcastOutcome × List Sending)
  unfolding send_from remove_all dead
  broadcast fuel s = elim (send_from fuel 0 s) [
    | none ↦ none
    | some (after, log) ↦ some (remove_all (dead log) after, log)
  ]

-- The sends to the sockets, from the i-th on.
unfoldable pub sends : (ℕ → Bool) → ℕ → List ℕ → List Sending
sends refuses i [] = []
sends refuses i (ws ∷ s) = record { socket = ws; refused = refuses i } ∷ sends refuses (suc i) s

-- The sockets whose send did not raise.
unfoldable pub kept : List Sending → List ℕ
kept [] = []
kept (m ∷ log) = let rest = kept log in if m.refused then rest else m.socket ∷ rest

unfoldable pub Distinct : List ℕ → Type 0
Distinct [] = Unit
Distinct (ws ∷ s) = ¬ In ws s × Distinct s

sockets-sends : (refuses : ℕ → Bool) (i : ℕ) (s : List ℕ) → sockets (sends refuses i s) ≡ s
unfolding sends
sockets-sends refuses i [] = refl
sockets-sends refuses i (ws ∷ s) = ap (λ xs. ws ∷ xs) (sockets-sends refuses (suc i) s)

get_elem?-drop-none : (i : ℕ) (s : List ℕ) → drop i s ≡ [] → get_elem? s i ≡ none
get_elem?-drop-none zero [] e = refl
get_elem?-drop-none zero (v ∷ s) e = absurd (ground arith)
get_elem?-drop-none (suc i) [] e = refl
get_elem?-drop-none (suc i) (v ∷ s) e = get_elem?-drop-none i s e

get_elem?-drop-some :
    (i : ℕ) (s : List ℕ) (ws : ℕ) (rest : List ℕ)
    → drop i s ≡ ws ∷ rest
    → (get_elem? s i ≡ some ws) × (drop (suc i) s ≡ rest)
get_elem?-drop-some zero [] ws rest e = absurd (ground arith)
get_elem?-drop-some zero (v ∷ s) ws rest e = (ground arith, ground arith)
get_elem?-drop-some (suc i) [] ws rest e = absurd (ground arith)
get_elem?-drop-some (suc i) (v ∷ s) ws rest e = get_elem?-drop-some i s ws rest e

-- Where no task acts from the i-th send on, the loop sends to each socket from its position on.
send_from-quiet :
    (turns : ℕ → List Action) (refuses : ℕ → Bool) (fuel i : ℕ) (s rest : List ℕ)
    → drop i s ≡ rest
    → ((n : ℕ) → i < suc n → turns n ≡ [])
    → length rest < fuel
    → send_from turns refuses fuel i s ≡ some (s, sends refuses i rest)
unfolding send_from sends act_all
send_from-quiet turns refuses zero i s rest e q h = absurd (omega arith)
send_from-quiet turns refuses (suc fuel) i s [] e q h =
    rw (get_elem?-drop-none i s e, send_from) refl
send_from-quiet turns refuses (suc fuel) i s (ws ∷ rest) e q h =
    let (here, next) = get_elem?-drop-some i s ws rest e in
    rw (here, send_from)
      (rw
        (
          q i (omega arith),
          send_from-quiet turns refuses fuel (suc i) s rest next (λ n l. q n (omega arith))
              (omega arith),
        )
        refl)

remove_socket-head : (ws : ℕ) (s : List ℕ) → remove_socket ws (ws ∷ s) ≡ some s
unfolding remove_socket
remove_socket-head ws s = rw ((==_iff ws ws).1 refl) refl

disconnect-head : (ws : ℕ) (s : List ℕ) → act_all (disconnects ws ∷ []) (ws ∷ s) ≡ s
unfolding act_all disconnect
disconnect-head ws s = rw (remove_socket-head ws s, disconnect) refl

remove_socket-absent : (ws : ℕ) (s : List ℕ) → ¬ In ws s → remove_socket ws s ≡ none
unfolding remove_socket
remove_socket-absent ws [] h = refl
remove_socket-absent ws (v ∷ s) h = elim (Bool-cases (v == ws)) [
  | inl e ↦ absurd (h (inl (sym ((==_iff v ws).0 e))))
  | inr e ↦ rw (remove_socket-absent ws s (λ m. h (inr m)), e) refl
]

-- A socket that is not removed stays before the others.
abbrev put_before : ℕ → BroadcastOutcome → BroadcastOutcome
put_before ws (returned s) = returned (ws ∷ s)
put_before ws (value_error s) = value_error (ws ∷ s)

remove_all-ne :
    (ws : ℕ) (gone s : List ℕ)
    → ¬ In ws gone
    → remove_all gone (ws ∷ s) ≡ put_before ws (remove_all gone s)
unfolding remove_all remove_socket
remove_all-ne ws [] s h = refl
remove_all-ne ws (v ∷ gone) s h = elim (Bool-cases (ws == v)) [
  | inl e ↦ absurd (h (inl ((==_iff ws v).0 e)))
  | inr e ↦ elim (Option-cases (remove_socket v s)) [
    | inl r ↦ rw (r, remove_all) (rw e refl)
    | inr (t, r) ↦ rw (r, remove_all) (rw e (remove_all-ne ws gone t (λ m. h (inr m))))
  ]
]

In-dead : (ws : ℕ) (log : List Sending) → In ws (dead log) → In ws (sockets log)
unfolding dead
In-dead ws [] m = m
In-dead ws (x ∷ log) m = elim (Bool-cases x.refused) [
  | inl e ↦ elim (rw (e, dead) at m) [ inl q ↦ inl q | inr n ↦ inr (In-dead ws log n) ]
  | inr e ↦ inr (In-dead ws log (rw (e, dead) at m))
]

remove_all-dead :
    (log : List Sending)
    → Distinct (sockets log)
    → remove_all (dead log) (sockets log) ≡ returned (kept log)
unfolding remove_all dead kept Distinct
remove_all-dead [] d = refl
remove_all-dead (x ∷ log) d = elim (Bool-cases x.refused) [
  | inl e ↦
      rw (e, dead, kept)
        (rw (remove_socket-head x.socket (sockets log), remove_all) (remove_all-dead log d.1))
  | inr e ↦ rw e (
      rw (remove_all-ne x.socket (dead log) (sockets log) (λ m. d.0 (In-dead x.socket log m)))
        (rw (remove_all-dead log d.1) refl))
]

-- Where no task connects or disconnects during the sends, and no socket is connected twice,
-- `broadcast` returns, has sent to each connection once and in order, and leaves those whose send
-- did not raise.
pub broadcast-quiet :
    (turns : ℕ → List Action) (refuses : ℕ → Bool) (fuel : ℕ) (s : List ℕ)
    → ((n : ℕ) → turns n ≡ [])
    → Distinct s
    → length s < fuel
    → broadcast turns refuses fuel s ≡ some (returned (kept (sends refuses 0 s)), sends refuses 0 s)
unfolding broadcast
broadcast-quiet turns refuses fuel s q d h =
    let log = sends refuses 0 s in
    let same = sockets-sends refuses 0 s in
    rw (send_from-quiet turns refuses fuel 0 s s refl (λ n l. q n) h, broadcast)
      (ap (λ o. some (o, log))
        (subst (λ t. remove_all (dead log) t ≡ returned (kept log)) same
          (remove_all-dead log (subst Distinct (sym same) d))))

-- Where the first client disconnects during its send, and the send raises, the second client is
-- sent nothing, each later one is sent the message, and `broadcast` raises ValueError and
-- leaves all others in the list.
pub broadcast-skips :
    (turns : ℕ → List Action) (refuses : ℕ → Bool) (fuel a b : ℕ) (s : List ℕ)
    → turns 0 ≡ disconnects a ∷ []
    → ((n : ℕ) → 0 < n → turns n ≡ [])
    → refuses 0 ≡ true
    → Distinct (a ∷ b ∷ s)
    → suc (length s) < fuel
    → broadcast turns refuses fuel (a ∷ b ∷ s)
      ≡ some (value_error (b ∷ s), record { socket = a; refused = true } ∷ sends refuses 1 s)
unfolding broadcast send_from act_all disconnect dead remove_all Distinct
broadcast-skips turns refuses zero a b s t q r d h = absurd (omega arith)
broadcast-skips turns refuses (suc fuel) a b s t q r d h =
    rw (t, disconnect-head a (b ∷ s))
      (rw
        (
          send_from-quiet turns refuses fuel 1 (b ∷ s) s refl (λ n l. q n (omega arith))
              (omega arith),
          r,
        )
        (rw (remove_socket-absent a (b ∷ s) d.0, remove_all) refl))
