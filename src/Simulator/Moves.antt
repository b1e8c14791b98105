-- ===== src/Simulator/Moves.antt =====
-- What `move_connection` does to the tables of the two switches, which may be one.
use topology_maps.Prelude.{
  ℕ, ◌≡◌, refl, sym, ◌≢◌, ◌∙◌, ap, inl, inr, true, some, [], ◌∷◌, ◌++◌, append-nil, subst,
  Bool-cases,
}
use topology_maps.Text.{Text, text_eq, text_eq_iff}
use topology_maps.Dict.{Dict, get, put, get-put, get-put_self}
use topology_maps.Simulator.{
  DeviceState, TopologyState, moved_device, without, move_apart, move_inside, new_neighbor,
  port_text, moved_devices, move_connection, set_parent,
}
use topology_maps.Simulator.Tables.{
  LldpNeighbor, arp_row, mac_row, at_from, elsewhere, move_within, move_between_lem,
  move_within_lem, arp_row-IsRow, mac_row-IsRow,
}

module _ (id : Text) (n : LldpNeighbor) (port : Text) where
  -- The source loses the neighbour at the port, and its rows at that port.
  abbrev pub detached : DeviceState → DeviceState
  detached d = record d {
    lldp_neighbors = without id port d.lldp_neighbors;
    arp_table = elsewhere arp_row port d.arp_table;
    mac_table = elsewhere mac_row port d.mac_table;
  }

  -- The destination gains the neighbour, and the rows of the source at its own port.
  abbrev pub attached : DeviceState → DeviceState → DeviceState
  attached src d = record d {
    lldp_neighbors = d.lldp_neighbors ++ n ∷ [];
    arp_table = d.arp_table ++ at_from arp_row port n.local_port src.arp_table;
    mac_table = d.mac_table ++ at_from mac_row port n.local_port src.mac_table;
  }

  move_apart_lem :
      (src dst : DeviceState) → move_apart id n port src dst ≡ (detached src, attached src dst)
  unfolding move_apart
  move_apart_lem src dst =
      rw
        (
          move_between_lem arp_row arp_row-IsRow port n.local_port src.arp_table [] dst.arp_table
              tt,
          move_between_lem mac_row mac_row-IsRow port n.local_port src.mac_table [] dst.mac_table
              tt,
        )
        refl

  move_inside_lem : (d : DeviceState) → move_inside id n port d ≡ attached d (detached d)
  unfolding move_inside
  move_inside_lem d =
      let arp : move_within arp_row port n.local_port d.arp_table d.arp_table
          ≡ elsewhere arp_row port d.arp_table ++ at_from arp_row port n.local_port d.arp_table =
        ap (move_within arp_row port n.local_port d.arp_table) (sym (append-nil d.arp_table))
        ∙ move_within_lem arp_row arp_row-IsRow port n.local_port d.arp_table [] [] tt in
      let mac : move_within mac_row port n.local_port d.mac_table d.mac_table
          ≡ elsewhere mac_row port d.mac_table ++ at_from mac_row port n.local_port d.mac_table =
        ap (move_within mac_row port n.local_port d.mac_table) (sym (append-nil d.mac_table))
        ∙ move_within_lem mac_row mac_row-IsRow port n.local_port d.mac_table [] [] tt in
      rw (arp, mac) refl

-- The switches after the move; every other device is as it was.
pub record Rewired (id : Text) (n : LldpNeighbor) (port from to : Text) (src dst : DeviceState)
    (before after : Dict DeviceState) : Type 0 where
  pub apart :
      from ≢ to
      → (get from after ≡ some (detached id n port src))
        × (get to after ≡ some (attached id n port src dst))
  pub one : from ≡ to → get from after ≡ some (attached id n port src (detached id n port src))
  pub others : (k : Text) → from ≢ k → to ≢ k → get k after ≡ get k before

get-put_ne : {V : Type 0} (j k : Text) (v : V) (d : Dict V) → k ≢ j → get j (put k v d) ≡ get j d
get-put_ne j k v d h = elim (Bool-cases (text_eq k j)) [
  | inl e ↦ absurd (h ((text_eq_iff k j).0 e))
  | inr e ↦ rw (get-put j k v d, e) refl
]

moved_devices-Rewired :
    (id : Text) (n : LldpNeighbor) (port from to : Text) (src dst : DeviceState)
    (devices : Dict DeviceState)
    → Rewired id n port from to src dst devices (moved_devices id n port from to src dst devices)
unfolding moved_devices
moved_devices-Rewired id n port from to src dst devices =
    let src' = detached id n port src in
    let dst' = attached id n port src dst in
    let both = move_apart_lem id n port src dst in
    elim (Bool-cases (text_eq from to)) [
      | inl e ↦
          let same : from ≡ to = (text_eq_iff from to).0 e in
          let inside = move_inside_lem id n port src in
          rw (e, inside)
            (record {
              apart = λ h. absurd (h same);
              one = λ _. get-put_self from (attached id n port src src') devices;
              others = λ k h _. get-put_ne k from (attached id n port src src') devices h;
            })
      | inr e ↦
          let differ : from ≢ to = λ same. cc (e, (text_eq_iff from to).1 same) in
          let result = λ (r : DeviceState × DeviceState).
            Rewired id n port from to src dst devices (put to r.1 (put from r.0 devices)) in
          rw e (
            subst result (sym both) (record {
              apart = λ h. (
                get-put_ne from to dst' (put from src' devices) (λ q. h (sym q))
                    ∙ get-put_self from src' devices,
                get-put_self to dst' (put from src' devices),
              );
              one = λ same. absurd (differ same);
              others = λ k h g.
                  get-put_ne k to dst' (put from src' devices) g ∙ get-put_ne k from src' devices h;
            }))
    ]

-- A connection of a known access point or device between known switches is moved: the source loses
-- the neighbour and the rows at its port, the destination gains them at its own, no other device
-- is changed, and the clients are as they were.
pub move_connection-Rewired :
    (id from : Text) (p : ℕ) (to : Text) (q : ℕ) (s : TopologyState) (name ip : Text)
    (src dst : DeviceState)
    → moved_device id s ≡ some (name, ip)
    → get from s.devices ≡ some src
    → get to s.devices ≡ some dst
    → ((move_connection id from p to q s).1 ≡ true)
      × Rewired id
          (new_neighbor id name ip q)
          (port_text p)
          from
          to
          src
          dst
          s.devices
          (move_connection id from p to q s).0.devices
      × ((move_connection id from p to q s).0.wireless_clients ≡ s.wireless_clients)
      × ((move_connection id from p to q s).0.aps ≡ set_parent id to (port_text q) s.aps)
unfolding move_connection
move_connection-Rewired id from p to q s name ip src dst e f g =
    rw (e, f, g, move_connection)
      (
        refl,
        moved_devices-Rewired id (new_neighbor id name ip q) (port_text p) from to src dst
            s.devices,
        refl,
        refl,
      )
