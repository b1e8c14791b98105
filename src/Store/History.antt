-- ===== src/Store/History.antt =====
-- `get_observation_history` and `get_change_events` of server/config_collector/store.py. SQLite gives
-- rows with one time in an order of its own: `ties o p` says whether `o` comes after `p` then.
pub mod Newest
pub mod Where
mod Tests
use topology_maps.Prelude.{
  ℕ, zero, suc, ◌+◌, ◌≤◌, ◌≡◌, refl, ap, ◌∙◌, ◌⊎◌, ◌↔◌, inl, inr, Bool, true, false, not, ◌&&◌,
  ◌||◌, Option, none, some, List, [], ◌∷◌, length, take, filter_by, In, arith, subst, Bool-cases,
  ltb, ◌==◌, if◌then◌else◌,
}
use topology_maps.Text.{Text, text_eq, text_lt}
use topology_maps.Catalog.Spec.{Scope, scope_eq, option_eq}
use topology_maps.Catalog.Events.{ChangeEvent}
use topology_maps.Store.State.{Observation, ChangeRow, World}

-- ORDER BY ... DESC, by a test for "older than"
module _ {A : Type 0} (older : A → A → Bool) where
  unfoldable pub insert_desc : A → List A → List A
  insert_desc x [] = x ∷ []
  insert_desc x (y ∷ ys) = if older x y then y ∷ insert_desc x ys else x ∷ (y ∷ ys)

  unfoldable pub sort_desc : List A → List A
  unfolding insert_desc
  sort_desc [] = []
  sort_desc (x ∷ xs) = insert_desc x (sort_desc xs)

-- The optional conditions of a WHERE clause: a parameter that is None asks nothing.
unfoldable pub asks : {A : Type 0} → (A → Bool) → Option A → Bool
asks test none = true
asks test (some a) = test a

pub record HistoryQuery : Type 0 where
  pub org_id : Text
  pub entity_type : Scope
  pub entity_id : Text
  pub config_area : Option Text
  pub sub_key : Option Text
  pub limit : ℕ
  pub before_observed_at : Option ℕ

-- sub_key IS ?, which is asked where a sub key or an area is given
unfoldable pub sub_key_matches : HistoryQuery → Option Text → Bool
unfolding option_eq
sub_key_matches q sub_key = elim q.sub_key [
  | some k ↦ option_eq sub_key (some k)
  | none ↦ elim q.config_area [ none ↦ true | some area ↦ option_eq sub_key none ]
]

unfoldable pub history_matches : HistoryQuery → Observation → Bool
unfolding text_eq scope_eq asks sub_key_matches
history_matches q o =
    text_eq o.org_id q.org_id
    && (scope_eq o.key.entity_type q.entity_type
        && (text_eq o.key.entity_id q.entity_id
            && (asks (λ area. text_eq o.key.config_area area) q.config_area
                && (sub_key_matches q o.key.sub_key
                    && asks (λ t. ltb o.observed_at t) q.before_observed_at))))

abbrev pub is_older : (Observation → Observation → Bool) → Observation → Observation → Bool
is_older ties o p =
    ltb o.observed_at p.observed_at || ((o.observed_at == p.observed_at) && ties o p)

unfoldable pub get_observation_history :
    (Observation → Observation → Bool) → HistoryQuery → World → List Observation
unfolding sort_desc history_matches filter_by
get_observation_history ties q w =
    take q.limit (sort_desc (is_older ties) (filter_by (history_matches q) w.observations))

-- Texts that may be NULL, a NULL being less than any text.
unfoldable pub ts_lt : Option Text → Option Text → Bool
unfolding text_lt
ts_lt none none = false
ts_lt none (some t) = true
ts_lt (some s) none = false
ts_lt (some s) (some t) = text_lt s t

unfoldable pub change_matches : Text → Option Text → Option Text → ChangeRow → Bool
unfolding text_eq asks option_eq text_lt
change_matches org_id network_id before_ts row =
    text_eq row.org_id org_id
    && (asks (λ id. option_eq row.event.network_id (some id)) network_id
        && asks (λ t. elim row.event.ts [ none ↦ false | some ts ↦ text_lt ts t ]) before_ts)

unfoldable pub get_change_events :
    (ChangeRow → ChangeRow → Bool) → Text → Option Text → ℕ → Option Text → World → List ChangeRow
unfolding sort_desc change_matches filter_by ts_lt
get_change_events ties org_id network_id limit before_ts w = take limit (
    sort_desc
      (λ r s. ts_lt r.event.ts s.event.ts || (not (ts_lt s.event.ts r.event.ts) && ties r s))
      (filter_by (change_matches org_id network_id before_ts) w.change_events))
