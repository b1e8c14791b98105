-- ===== src/Simulator/Counts.antt =====
-- The client counts of the access points, and the version, over any calls.
use topology_maps.Prelude.{
  ℕ, suc, ◌+◌, ◌-◌, ◌≡◌, refl, sym, ◌∙◌, ap, ◌⊎◌, inl, inr, Bool, true, false, none, some, List, [],
  ◌∷◌, ◌++◌, length, filter_by, arith, subst, if◌then◌else◌, Bool-cases, Option-cases,
}
use topology_maps.Text.{Text, text_eq, text_eq_iff}
use topology_maps.Json.{ℤ}
use topology_maps.Dict.{Dict, get, put, get-put}
use topology_maps.Simulator.{
  WirelessClient, ApInfo, DeviceState, TopologyState, empty_state, get_ap, get_clients_for_ap,
  count_change, add_ap, add_device, add_wireless_client, mac_match, Found, not_found, same_ap,
  moved, found_after, move_client, settle_move, move_wireless_client, moved_device, moved_devices,
  new_neighbor, port_text, set_parent, move_connection, Change, device_added, ap_added,
  client_added, client_moved, connection_moved, apply,
}

one_if : Bool → ℕ
one_if b = if b then 1 else 0

count_at : Text → List WirelessClient → ℕ
unfolding filter_by
count_at id cs = length (filter_by (λ c. text_eq c.ap_id id) cs)

count_at_cons :
    (id : Text) (c : WirelessClient) (cs : List WirelessClient)
    → count_at id (c ∷ cs) ≡ one_if (text_eq c.ap_id id) + count_at id cs
unfolding count_at one_if
count_at_cons id c cs = elim (Bool-cases (text_eq c.ap_id id)) [
  | inl e ↦ rw (e, filter_by) (omega arith)
  | inr e ↦ rw (e, filter_by) (omega arith)
]

count_at_snoc :
    (id : Text) (c : WirelessClient) (cs : List WirelessClient)
    → count_at id (cs ++ c ∷ []) ≡ count_at id cs + one_if (text_eq c.ap_id id)
count_at_snoc id c [] = omega (arith, count_at_cons id c [])
count_at_snoc id c (d ∷ cs) =
    omega (arith, count_at_snoc id c cs, count_at_cons id d cs, count_at_cons id d (cs ++ c ∷ []))

-- What a changed count was before.
get-count_change :
    (id : Text) (f : ℕ → ℕ) (aps : Dict ApInfo) (j : Text) (a : ApInfo)
    → get j (count_change id f aps) ≡ some a
    → (b : ApInfo) × (get j aps ≡ some b)
      × (a.client_count ≡ (if text_eq id j then f b.client_count else b.client_count))
unfolding count_change
get-count_change id f aps j a e = elim (Option-cases (get id aps)) [
  | inl q ↦
      let e' : get j aps ≡ some a = rw (q, count_change) at e in
      elim (Bool-cases (text_eq id j)) [
        | inl s ↦
            let same : id ≡ j = (text_eq_iff id j).0 s in
            let q' : get j aps ≡ none = subst (λ k. get k aps ≡ none) same q in cc (e', q')
        | inr s ↦ (a, e', rw s refl)
      ]
  | inr (b, q) ↦
      let new : ApInfo = record b { client_count = f b.client_count } in
      let e' : (if text_eq id j then some new else get j aps) ≡ some a =
        sym (get-put j id new aps) ∙ (rw (q, count_change) at e) in
      elim (Bool-cases (text_eq id j)) [
        | inl s ↦
            let same : id ≡ j = (text_eq_iff id j).0 s in
            let q' : get j aps ≡ some b = subst (λ k. get k aps ≡ some b) same q in
            let e'' : some new ≡ some a = rw s at e' in
            let is : new ≡ a = cc (e'') in (b, q', rw s (ap (λ x. x.client_count) (sym is)))
        | inr s ↦ (a, rw s at e', rw s refl)
      ]
]

get-set_parent :
    (id switch port : Text) (aps : Dict ApInfo) (j : Text) (a : ApInfo)
    → get j (set_parent id switch port aps) ≡ some a
    → (b : ApInfo) × (get j aps ≡ some b) × (a.client_count ≡ b.client_count)
unfolding set_parent
get-set_parent id switch port aps j a e = elim (Option-cases (get id aps)) [
  | inl q ↦ (a, rw (q, set_parent) at e, refl)
  | inr (b, q) ↦
      let new : ApInfo = record b { parent_switch = switch; parent_port = port } in
      let e' : (if text_eq id j then some new else get j aps) ≡ some a =
        sym (get-put j id new aps) ∙ (rw (q, set_parent) at e) in
      elim (Bool-cases (text_eq id j)) [
        | inl s ↦
            let same : id ≡ j = (text_eq_iff id j).0 s in
            let q' : get j aps ≡ some b = subst (λ k. get k aps ≡ some b) same q in
            let e'' : some new ≡ some a = rw s at e' in
            let is : new ≡ a = cc (e'') in (b, q', ap (λ x. x.client_count) (sym is))
        | inr s ↦ (a, rw s at e', refl)
      ]
]

found_after-moved :
    (c : WirelessClient) (f : Found) (old : Text) (cs' : List WirelessClient)
    → found_after c f ≡ moved old cs'
    → (ds : List WirelessClient) × (f ≡ moved old ds) × (cs' ≡ c ∷ ds)
unfolding found_after
found_after-moved c not_found old cs' e = absurd (ground arith)
found_after-moved c same_ap old cs' e = absurd (ground arith)
found_after-moved c (moved o ds) old cs' e = (ds, ground arith, ground arith)

-- A client that is moved leaves one access point, at which it was, for another.
move_client-count :
    (mac new : Text) (rssi : ℤ) (cs cs' : List WirelessClient) (old : Text)
    → move_client mac new rssi cs ≡ moved old cs'
    → (text_eq old new ≡ false)
      × ((j : Text)
          → count_at j cs' + one_if (text_eq old j) ≡ count_at j cs + one_if (text_eq new j))
unfolding move_client
move_client-count mac new rssi [] cs' old e = absurd (ground arith)
move_client-count mac new rssi (c ∷ cs) cs' old e =
    elim (Bool-cases (text_eq c.mac (mac_match c.mac mac))) [
      | inl m ↦ elim (Bool-cases (text_eq c.ap_id new)) [
        | inl s ↦
            let e' : same_ap ≡ moved old cs' = rw (m, s, move_client) at e in absurd (ground arith)
        | inr s ↦
            let c' : WirelessClient = record c { ap_id = new; rssi = rssi } in
            let e' : moved c.ap_id (c' ∷ cs) ≡ moved old cs' = rw (m, s, move_client) at e in
            let from : c.ap_id ≡ old = cc (e') in
            let now : c' ∷ cs ≡ cs' = cc (e') in
            (
              subst (λ x. text_eq x new ≡ false) from s,
              λ j. rw (← now, ← from) (omega (arith, count_at_cons j c cs, count_at_cons j c' cs)),
            )
      ]
      | inr m ↦
          let e' : found_after c (move_client mac new rssi cs) ≡ moved old cs' =
            rw (m, move_client) at e in
          let (ds, f, now) = found_after-moved c (move_client mac new rssi cs) old cs' e' in
          let (apart, counts) = move_client-count mac new rssi cs ds old f in
          (apart, λ j. rw now (omega (arith, counts j, count_at_cons j c cs, count_at_cons j c ds)))
    ]

-- Each access point counts the clients that are listed at it.
abbrev pub IsCounted : TopologyState → Type 0
IsCounted s =
    (id : Text) (a : ApInfo)
    → get_ap id s ≡ some a
    → a.client_count ≡ length (get_clients_for_ap id s)

abbrev Counted : Dict ApInfo → List WirelessClient → Type 0
Counted aps cs = (id : Text) (a : ApInfo) → get id aps ≡ some a → a.client_count ≡ count_at id cs

to_fields : (s : TopologyState) → IsCounted s → Counted s.aps s.wireless_clients
unfolding get_ap get_clients_for_ap count_at
to_fields s h = h

of_fields : (s : TopologyState) → Counted s.aps s.wireless_clients → IsCounted s
unfolding get_ap get_clients_for_ap count_at
of_fields s h = h

-- An access point comes with the number of the clients that are listed at it, which is none for a
-- new one; nothing is asked of the other calls.
abbrev pub Admits : TopologyState → Change → Type 0
Admits s (ap_added a) = a.client_count ≡ length (get_clients_for_ap a.ap_id s)
Admits s _ = Unit

add_ap-Counted :
    (b : ApInfo) (aps : Dict ApInfo) (cs : List WirelessClient)
    → b.client_count ≡ count_at b.ap_id cs
    → Counted aps cs
    → Counted (put b.ap_id b aps) cs
add_ap-Counted b aps cs ok h id a e =
    let e' : (if text_eq b.ap_id id then some b else get id aps) ≡ some a =
      sym (get-put id b.ap_id b aps) ∙ e in
    elim (Bool-cases (text_eq b.ap_id id)) [
      | inl q ↦
          let same : b.ap_id ≡ id = (text_eq_iff b.ap_id id).0 q in
          let e'' : some b ≡ some a = rw q at e' in
          let is : b ≡ a = cc (e'') in
          subst (λ k. a.client_count ≡ count_at k cs) same (ap (λ x. x.client_count) (sym is) ∙ ok)
      | inr q ↦ h id a (rw q at e')
    ]

add_client-Counted :
    (c : WirelessClient) (aps : Dict ApInfo) (cs : List WirelessClient)
    → Counted aps cs
    → Counted (count_change c.ap_id (λ n. suc n) aps) (cs ++ c ∷ [])
unfolding one_if
add_client-Counted c aps cs h id a e =
    let (b, q, n) = get-count_change c.ap_id (λ n. suc n) aps id a e in
    let old = h id b q in ground (arith, count_at_snoc id c cs)

move-Counted :
    (old new : Text) (aps : Dict ApInfo) (cs cs' : List WirelessClient)
    → text_eq old new ≡ false
    → ((j : Text)
        → count_at j cs' + one_if (text_eq old j) ≡ count_at j cs + one_if (text_eq new j))
    → Counted aps cs
    → Counted (count_change new (λ n. suc n) (count_change old (λ n. n - 1) aps)) cs'
unfolding one_if
move-Counted old new aps cs cs' apart counts h id a e =
    let (b, q, n) = get-count_change new (λ n. suc n) (count_change old (λ n. n - 1) aps) id a e in
    let (d, r, m) = get-count_change old (λ n. n - 1) aps id b q in
    let before = h id d r in
    elim (Bool-cases (text_eq new id)) [
      | inl s ↦
          let same : new ≡ id = (text_eq_iff new id).0 s in
          let left : text_eq old id ≡ false = subst (λ k. text_eq old k ≡ false) same apart in
          ground (arith, counts id)
      | inr s ↦ ground (arith, counts id)
    ]

move_wireless_client-IsCounted :
    (mac new : Text) (rssi : ℤ) (s : TopologyState)
    → IsCounted s
    → IsCounted (move_wireless_client mac new rssi s).0
unfolding move_wireless_client settle_move
move_wireless_client-IsCounted mac new rssi s h =
    go (move_client mac new rssi s.wireless_clients) refl
  where
    go :
        (f : Found)
        → move_client mac new rssi s.wireless_clients ≡ f
        → IsCounted (settle_move new f s).0
    go not_found e = h
    go same_ap e = h
    go (moved old cs') e =
        let (apart, counts) = move_client-count mac new rssi s.wireless_clients cs' old e in
        of_fields (settle_move new (moved old cs') s).0
          (move-Counted old new s.aps s.wireless_clients cs' apart counts (to_fields s h))

-- A connection between known switches of a known device is moved, or nothing is changed.
pub move_connection-cases :
    (id from : Text) (p : ℕ) (to : Text) (q : ℕ) (s : TopologyState)
    → (move_connection id from p to q s ≡ (s, false))
      ⊎ ((name ip : Text) × (src dst : DeviceState) × (moved_device id s ≡ some (name, ip))
          × (get from s.devices ≡ some src)
          × (get to s.devices ≡ some dst)
          × (move_connection id from p to q s ≡ (
            record s {
              devices =
                  moved_devices id
                    (new_neighbor id name ip q)
                    (port_text p)
                    from
                    to
                    src
                    dst
                    s.devices;
              aps = set_parent id to (port_text q) s.aps;
              version = suc s.version;
            },
            true,
          )))
unfolding move_connection
move_connection-cases id from p to q s = elim (Option-cases (moved_device id s)) [
  | inl e ↦ inl (rw (e, move_connection) refl)
  | inr ((name, ip), e) ↦ elim (Option-cases (get from s.devices)) [
    | inl f ↦ inl (rw (e, f, move_connection) refl)
    | inr (src, f) ↦ elim (Option-cases (get to s.devices)) [
      | inl g ↦ inl (rw (e, f, g, move_connection) refl)
      | inr (dst, g) ↦ inr (name, ip, src, dst, e, f, g, rw (e, f, g, move_connection) refl)
    ]
  ]
]

set_parent-Counted :
    (id switch port : Text) (aps : Dict ApInfo) (cs : List WirelessClient)
    → Counted aps cs
    → Counted (set_parent id switch port aps) cs
set_parent-Counted id switch port aps cs h j a e =
    let (b, q, n) = get-set_parent id switch port aps j a e in n ∙ h j b q

at_ap :
    (b : ApInfo) (s : TopologyState)
    → b.client_count ≡ length (get_clients_for_ap b.ap_id s)
    → b.client_count ≡ count_at b.ap_id s.wireless_clients
unfolding get_clients_for_ap count_at
at_ap b s h = h

apply-IsCounted :
    (c : Change) (s : TopologyState) → Admits s c → IsCounted s → IsCounted (apply c s).0
unfolding apply add_device add_ap add_wireless_client
apply-IsCounted (device_added d) s ok h = of_fields (apply (device_added d) s).0 (to_fields s h)
apply-IsCounted (ap_added b) s ok h =
    of_fields (add_ap b s)
      (add_ap-Counted b s.aps s.wireless_clients (at_ap b s ok) (to_fields s h))
apply-IsCounted (client_added c) s ok h =
    of_fields (add_wireless_client c s)
      (add_client-Counted c s.aps s.wireless_clients (to_fields s h))
apply-IsCounted (client_moved mac new rssi) s ok h = move_wireless_client-IsCounted mac new rssi s h
apply-IsCounted (connection_moved id f p t q) s ok h = elim (move_connection-cases id f p t q s) [
  | inl e ↦ subst (λ r. IsCounted r.0) (sym e) h
  | inr (name, ip, src, dst, _, _, _, e) ↦
      let s' : TopologyState = record s {
        devices = moved_devices id (new_neighbor id name ip q) (port_text p) f t src dst s.devices;
        aps = set_parent id t (port_text q) s.aps;
        version = suc s.version;
      } in
      subst (λ r. IsCounted r.0) (sym e)
        (of_fields s'
          (set_parent-Counted id t (port_text q) s.aps s.wireless_clients (to_fields s h)))
]

-- A call that returns false changes nothing, and any other counts as one change.
apply-version :
    (c : Change) (s : TopologyState)
    → ((apply c s).1 ≡ false → (apply c s).0 ≡ s)
      × ((apply c s).0.version ≡ s.version + (if (apply c s).1 then 1 else 0))
unfolding apply add_device add_ap add_wireless_client move_wireless_client settle_move
apply-version (device_added d) s = (λ e. cc (e), omega arith)
apply-version (ap_added b) s = (λ e. cc (e), omega arith)
apply-version (client_added c) s = (λ e. cc (e), omega arith)
apply-version (client_moved mac new rssi) s = go (move_client mac new rssi s.wireless_clients)
  where
    go :
        (f : Found)
        → ((settle_move new f s).1 ≡ false → (settle_move new f s).0 ≡ s)
          × ((settle_move new f s).0.version
              ≡ s.version + (if (settle_move new f s).1 then 1 else 0))
    go not_found = (λ e. refl, omega arith)
    go same_ap = (λ e. refl, omega arith)
    go (moved old cs') = (λ e. cc (e), omega arith)
apply-version (connection_moved id f p t q) s = elim (move_connection-cases id f p t q s) [
  | inl e ↦ rw e (λ h. refl, omega arith)
  | inr (name, ip, src, dst, _, _, _, e) ↦ rw e (λ h. cc (h), omega arith)
]

-- The states that calls lead to from the start, with the number of calls that returned true.
pub data Reachable : ℕ → TopologyState → Type 0 where
  created : Reachable 0 empty_state
  called :
      {n : ℕ} {s : TopologyState} (c : Change)
      → Reachable n s
      → Admits s c
      → Reachable (n + (if (apply c s).1 then 1 else 0)) (apply c s).0

-- In every state that calls lead to, each access point has the number of the clients listed at it,
-- and the version is the number of the calls that did not return false; such a call changes nothing.
pub Reachable-IsCounted :
    (n : ℕ) (s : TopologyState)
    → Reachable n s
    → IsCounted s × (s.version ≡ n) × ((c : Change) → (apply c s).1 ≡ false → (apply c s).0 ≡ s)
unfolding empty_state get_ap get
Reachable-IsCounted n s created =
    (λ id a e. absurd (ground arith), refl, λ c. (apply-version c s).0)
Reachable-IsCounted n s (called {n = k} {s = t} c r ok) =
    let (counted, version, _) = Reachable-IsCounted k t r in
    (
      apply-IsCounted c t ok counted,
      (apply-version c t).1 ∙ ap (λ v. v + (if (apply c t).1 then 1 else 0)) version,
      λ d. (apply-version d (apply c t).0).0,
    )
