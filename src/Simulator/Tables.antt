-- ===== src/Simulator/Tables.antt =====
-- The rows of the switches' tables, and the loop of `move_connection` that moves those of a port.
use topology_maps.Prelude.{
  ℕ, ◌≡◌, refl, sym, ap, ◌∙◌, inl, inr, Bool, true, false, not, ◌&&◌, List, [], ◌∷◌, ◌++◌, map,
  filter_by, append_assoc, append-nil, All, arith, ◌==◌, if◌then◌else◌, Bool-cases,
}
use topology_maps.Text.{Text, text_eq, text_eq_iff, text_eq_refl}

pub record LldpNeighbor : Type 0 where
  pub local_port : Text
  pub remote_device_id : Text
  pub remote_port : Text
  pub remote_device_name : Text
  pub remote_ip : Text

pub record ArpEntry : Type 0 where
  pub ip : Text
  pub mac : Text
  pub vlan : ℕ
  pub port : Text

pub record MacEntry : Type 0 where
  pub mac : Text
  pub vlan : ℕ
  pub port : Text

-- A row of either table: its equality, its port, and the row at another port.
pub record Row (E : Type 0) : Type 0 where
  pub eq : E → E → Bool
  pub port_of : E → Text
  pub at_port : Text → E → E

abbrev pub arp_row : Row ArpEntry
arp_row = record {
  eq = λ a b.
      text_eq a.ip b.ip && (text_eq a.mac b.mac && ((a.vlan == b.vlan) && text_eq a.port b.port));
  port_of = λ a. a.port;
  at_port = λ port a. record a { port = port };
}

abbrev pub mac_row : Row MacEntry
mac_row = record {
  eq = λ a b. text_eq a.mac b.mac && ((a.vlan == b.vlan) && text_eq a.port b.port);
  port_of = λ a. a.port;
  at_port = λ port a. record a { port = port };
}

module _ {E : Type 0} (row : Row E) where
  -- table.remove(entry): the first that is equal
  unfoldable pub remove : E → List E → List E
  remove e [] = []
  remove e (f ∷ fs) = if row.eq f e then fs else f ∷ remove e fs

  -- The loop over a copy of the source's table, where the tables are two lists.
  unfoldable pub move_between : Text → Text → List E → List E → List E → List E × List E
  unfolding remove
  move_between from to [] src dst = (src, dst)
  move_between from to (e ∷ es) src dst =
      let here = text_eq (row.port_of e) from in
      move_between from to es (if here then remove e src else src)
        (if here then dst ++ row.at_port to e ∷ [] else dst)

  -- The same loop, where they are one.
  unfoldable pub move_within : Text → Text → List E → List E → List E
  unfolding remove
  move_within from to [] table = table
  move_within from to (e ∷ es) table =
      let here = text_eq (row.port_of e) from in
      move_within from to es (if here then remove e table ++ row.at_port to e ∷ [] else table)

  -- Those at the port, moved, and those elsewhere.
  abbrev pub at_from : Text → Text → List E → List E
  at_from from to es = map (row.at_port to) (filter_by (λ e. text_eq (row.port_of e) from) es)

  abbrev pub elsewhere : Text → List E → List E
  elsewhere from es = filter_by (λ e. not (text_eq (row.port_of e) from)) es

  -- Rows that are equal by the test stand at one port, and a row is equal to itself.
  pub record IsRow : Type 0 where
    pub eq_refl : (e : E) → row.eq e e ≡ true
    pub eq_port : (e f : E) → row.eq e f ≡ true → row.port_of e ≡ row.port_of f

  module _ (lawful : IsRow) (from to : Text) where
    abbrev Elsewhere : List E → Type 0
    Elsewhere es = All (λ e. text_eq (row.port_of e) from ≡ false) es

    remove_first :
        (kept : List E) (e : E) (rest : List E)
        → Elsewhere kept
        → text_eq (row.port_of e) from ≡ true
        → remove e (kept ++ e ∷ rest) ≡ kept ++ rest
    unfolding remove
    remove_first [] e rest away here = rw (lawful.eq_refl e) refl
    remove_first (k ∷ kept) e rest (away, aways) here = elim (Bool-cases (row.eq k e)) [
      | inl q ↦
          let same : row.port_of k ≡ row.port_of e = lawful.eq_port k e q in
          absurd (cc (away, here, ap (λ p. text_eq p from) same))
      | inr q ↦ rw q (ap (λ x. k ∷ x) (remove_first kept e rest aways here))
    ]

    Elsewhere-snoc :
        (kept : List E) (e : E)
        → Elsewhere kept
        → text_eq (row.port_of e) from ≡ false
        → Elsewhere (kept ++ e ∷ [])
    Elsewhere-snoc [] e away h = (h, tt)
    Elsewhere-snoc (k ∷ kept) e (away, aways) h = (away, Elsewhere-snoc kept e aways h)

    split_here :
        (e : E) (es : List E)
        → text_eq (row.port_of e) from ≡ true
        → (at_from from to (e ∷ es) ≡ row.at_port to e ∷ at_from from to es)
          × (elsewhere from (e ∷ es) ≡ elsewhere from es)
    unfolding filter_by
    split_here e es h = (rw (h, filter_by) refl, rw (h, filter_by) refl)

    split_away :
        (e : E) (es : List E)
        → text_eq (row.port_of e) from ≡ false
        → (at_from from to (e ∷ es) ≡ at_from from to es)
          × (elsewhere from (e ∷ es) ≡ e ∷ elsewhere from es)
    unfolding filter_by
    split_away e es h = (rw (h, filter_by) refl, rw (h, filter_by) refl)

    pub move_between_lem :
        (es kept dst : List E)
        → Elsewhere kept
        → move_between from to es (kept ++ es) dst
          ≡ (kept ++ elsewhere from es, dst ++ at_from from to es)
    unfolding move_between filter_by
    move_between_lem [] kept dst away = ap (λ x. (kept ++ [], x)) (sym (append-nil dst))
    move_between_lem (e ∷ es) kept dst away = elim (Bool-cases (text_eq (row.port_of e) from)) [
      | inl h ↦
          let (now, rest) = split_here e es h in
          rw
            (
              now,
              rest,
              h,
              remove_first kept e es away h,
              move_between_lem es kept (dst ++ row.at_port to e ∷ []) away,
            )
            (ap (λ x. (kept ++ elsewhere from es, x))
              (append_assoc dst (row.at_port to e ∷ []) (at_from from to es)))
      | inr h ↦
          let next = move_between_lem es (kept ++ e ∷ []) dst (Elsewhere-snoc kept e away h) in
          let split : kept ++ e ∷ es ≡ (kept ++ e ∷ []) ++ es =
            sym (append_assoc kept (e ∷ []) es) in
          let (now, rest) = split_away e es h in
          rw (now, rest, h, split, next)
            (ap (λ x. (x, dst ++ at_from from to es))
              (append_assoc kept (e ∷ []) (elsewhere from es)))
    ]

    pub move_within_lem :
        (es kept moved : List E)
        → Elsewhere kept
        → move_within from to es (kept ++ (es ++ moved))
          ≡ kept ++ (elsewhere from es ++ (moved ++ at_from from to es))
    unfolding move_within filter_by
    move_within_lem [] kept moved away = ap (λ x. kept ++ x) (sym (append-nil moved))
    move_within_lem (e ∷ es) kept moved away = elim (Bool-cases (text_eq (row.port_of e) from)) [
      | inl h ↦
          let now = row.at_port to e ∷ [] in
          let shift : (kept ++ (es ++ moved)) ++ now ≡ kept ++ (es ++ (moved ++ now)) =
            append_assoc kept (es ++ moved) now ∙ ap (λ x. kept ++ x) (append_assoc es moved now) in
          let (here, rest) = split_here e es h in
          rw
            (
              here,
              rest,
              h,
              remove_first kept e (es ++ moved) away h,
              shift,
              move_within_lem es kept (moved ++ now) away,
            )
            (ap (λ x. kept ++ (elsewhere from es ++ x))
              (append_assoc moved now (at_from from to es)))
      | inr h ↦
          let rest = es ++ moved in
          let split : kept ++ e ∷ rest ≡ (kept ++ e ∷ []) ++ rest =
            sym (append_assoc kept (e ∷ []) rest) in
          let (here, away_too) = split_away e es h in
          rw
            (
              here,
              away_too,
              h,
              split,
              move_within_lem es (kept ++ e ∷ []) moved (Elsewhere-snoc kept e away h),
            )
            (append_assoc kept (e ∷ []) (elsewhere from es ++ (moved ++ at_from from to es)))
    ]

pub arp_row-IsRow : IsRow arp_row
arp_row-IsRow = record {
  eq_refl = λ e. rw (text_eq_refl e.ip, text_eq_refl e.mac, text_eq_refl e.port) (ground arith);
  eq_port = λ e f h. (text_eq_iff e.port f.port).0 (ground arith);
}

pub mac_row-IsRow : IsRow mac_row
mac_row-IsRow = record {
  eq_refl = λ e. rw (text_eq_refl e.mac, text_eq_refl e.port) (ground arith);
  eq_port = λ e f h. (text_eq_iff e.port f.port).0 (ground arith);
}
