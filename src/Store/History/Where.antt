-- ===== src/Store/History/Where.antt =====
-- The rows that the WHERE clause of a history asks for.
use topology_maps.Prelude.{
  ◌<◌, ◌≡◌, refl, ◌↔◌, inl, inr, Bool, true, ◌&&◌, Option, none, some, arith, ltb, Option-cases,
}
use topology_maps.Text.{Text, text_eq, text_eq_iff}
use topology_maps.Catalog.Spec.{scope_eq, scope_eq_iff, option_eq_iff}
use topology_maps.Store.State.{Observation}
use topology_maps.Store.History.{HistoryQuery, asks, sub_key_matches, history_matches}

-- A parameter that is given has the property.
abbrev Given : {A : Type 0} → (A → Type 0) → Option A → Type 0
Given P none = Unit
Given P (some a) = P a

-- The sub key that a row must have, if it must have one.
abbrev wanted_sub_key : HistoryQuery → Option (Option Text)
wanted_sub_key q = elim q.sub_key [
  | some k ↦ some (some k)
  | none ↦ elim q.config_area [ none ↦ none | some area ↦ some none ]
]

pub record IsAsked (q : HistoryQuery) (o : Observation) : Type 0 where
  pub org : o.org_id ≡ q.org_id
  pub type : o.key.entity_type ≡ q.entity_type
  pub entity : o.key.entity_id ≡ q.entity_id
  pub area : Given (λ a. o.key.config_area ≡ a) q.config_area
  pub sub_key : Given (λ k. o.key.sub_key ≡ k) (wanted_sub_key q)
  pub time : Given (λ t. o.observed_at < t) q.before_observed_at

asks-Given :
    {A : Type 0} (test : A → Bool) (P : A → Type 0) (o : Option A)
    → ((a : A) → (test a ≡ true) ↔ P a)
    → (asks test o ≡ true) ↔ Given P o
unfolding asks
asks-Given test P none h = (λ _. tt, λ _. refl)
asks-Given test P (some a) h = h a

sub_key_matches-Given :
    (q : HistoryQuery) (sub_key : Option Text)
    → (sub_key_matches q sub_key ≡ true) ↔ Given (λ k. sub_key ≡ k) (wanted_sub_key q)
unfolding sub_key_matches
sub_key_matches-Given q sub_key = elim (Option-cases q.sub_key) [
  | inr (k, e) ↦ rw (e, sub_key_matches) (option_eq_iff sub_key (some k))
  | inl e ↦ elim (Option-cases q.config_area) [
    | inl f ↦ rw (e, f, sub_key_matches) ((λ _. tt), (λ _. refl))
    | inr (area, f) ↦ rw (e, f, sub_key_matches) (option_eq_iff sub_key none)
  ]
]

all_six :
    (a b c d e f : Bool)
    → ((a && (b && (c && (d && (e && f))))) ≡ true)
      ↔ ((a ≡ true) × (b ≡ true) × (c ≡ true) × (d ≡ true) × (e ≡ true) × (f ≡ true))
all_six a b c d e f = ground arith

-- The conditions hold together exactly if the row is as the query asks.
pub history_matches-IsAsked :
    (q : HistoryQuery) (o : Observation) → (history_matches q o ≡ true) ↔ IsAsked q o
unfolding history_matches
history_matches-IsAsked q o =
    let six =
      all_six (text_eq o.org_id q.org_id) (scope_eq o.key.entity_type q.entity_type)
        (text_eq o.key.entity_id q.entity_id)
        (asks (λ area. text_eq o.key.config_area area) q.config_area)
        (sub_key_matches q o.key.sub_key) (asks (λ t. ltb o.observed_at t) q.before_observed_at) in
    let at_org = text_eq_iff o.org_id q.org_id in
    let at_type = scope_eq_iff o.key.entity_type q.entity_type in
    let at_entity = text_eq_iff o.key.entity_id q.entity_id in
    let at_area =
      asks-Given (λ area. text_eq o.key.config_area area) (λ a. o.key.config_area ≡ a) q.config_area
        (λ a. text_eq_iff o.key.config_area a) in
    let at_sub_key = sub_key_matches-Given q o.key.sub_key in
    let at_time =
      asks-Given (λ t. ltb o.observed_at t) (λ t. o.observed_at < t) q.before_observed_at
        (λ t. ground arith) in
    (
      λ h.
          let (a, b, c, d, e, f) = six.0 h in
          record {
            org = at_org.0 a;
            type = at_type.0 b;
            entity = at_entity.0 c;
            area = at_area.0 d;
            sub_key = at_sub_key.0 e;
            time = at_time.0 f;
          },
      λ r. six.1 (
        at_org.1 r.org,
        at_type.1 r.type,
        at_entity.1 r.entity,
        at_area.1 r.area,
        at_sub_key.1 r.sub_key,
        at_time.1 r.time,
      ),
    )
