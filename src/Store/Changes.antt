-- ===== src/Store/Changes.antt =====
-- The rows of `config_change_events` in server/config_collector/store.py.
use topology_maps.Prelude.{
  ℕ, suc, Bool, true, false, ◌&&◌, Option, none, some, ◌∷◌, any, if◌then◌else◌,
}
use topology_maps.Text.{Text, text_eq}
use topology_maps.Catalog.Events.{ChangeEvent}
use topology_maps.Store.State.{ChangeRow, World, Env, now}

-- Two values that UNIQUE takes for one: NULL is no value.
unfoldable pub same_value : Option Text → Option Text → Bool
unfolding text_eq
same_value (some s) (some t) = text_eq s t
same_value _ _ = false

-- UNIQUE(org_id, ts, network_id, label, old_value, new_value)
unfoldable pub is_duplicate : Text → ChangeEvent → ChangeRow → Bool
unfolding same_value text_eq
is_duplicate org_id event row =
    text_eq row.org_id org_id
    && (same_value row.event.ts event.ts
        && (same_value row.event.network_id event.network_id
            && (same_value row.event.label event.label
                && (same_value row.event.old_value event.old_value
                    && same_value row.event.new_value event.new_value))))

-- ts TEXT NOT NULL
unfoldable pub has_ts : ChangeEvent → Bool
has_ts event = elim event.ts [ none ↦ false | some t ↦ true ]

abbrev pub new_row : ℕ → Text → ChangeEvent → ℕ → ChangeRow
new_row id org_id event time = record { id = id; org_id = org_id; event = event; fetched_at = time }

-- An IntegrityError, of either constraint, is `none`.
unfoldable pub insert_change_event : Env → Text → ChangeEvent → World → Option ℕ × World
unfolding now is_duplicate has_ts
insert_change_event env org_id event w =
    let (time, w') = now env w in
    if has_ts event
    then (if any (is_duplicate org_id event) w.change_events then (none, w') else (
      some w.next_event_id,
      record w' {
        change_events = new_row w.next_event_id org_id event time ∷ w.change_events;
        next_event_id = suc w.next_event_id;
      },
    ))
    else (none, w')
