-- ===== src/Processing/Consumers/Loading.antt =====
-- A consumer's state that is saved is the state that is loaded afterwards.
use event_store.Prelude.{
  select-append, Dict, ℕ, ℤ, pos, ◌≡◌, refl, sym, ap, ◌∙◌, subst, inr, String, string_eq, true,
  false, Option, none, some, [], ◌∷◌, ◌++◌, arith, last?, last?-append, length, lookup, assign,
  lookup-assign, beq_refl, nat_beq, Result, ok, ok-injective, err, option_eq, int_eq, pair_eq,
}
use event_store.Types.Json.{get}
use event_store.Types.Conversion.{serialise_to_string, serialise_to_json_value}
use event_store.Types.Event.{Datetime, SerialisedEvent, new_event}
use event_store.Store.Conditions.Meaning.{latest_position}
use event_store.Store.Db.{StreamIdentifier, key}
use event_store.Store.Db.Represents.{Log, in_stream}
use event_store.Store.Adapter.{Adapter, Saved, of_stream, as_saved, save, save_to_stream}
use event_store.Store.Adapter.Specification.{own, IsValid, event_at_position}
use event_store.Store.Adapter.Refinement.{SavesAs, save_to_stream-SavesAs}
use event_store.Store.EventStream.{latest, publish, log_publishing}
use event_store.Store.EventStream.Publishing.{save_to_stream-ok}
use event_store.Store.EventCategory.{stream}
use event_store.Processing.Consumers.{
  EventConsumerState, EventConsumerStateStore, serialise, deserialise, deserialise_state,
  normalise_state, load, load_event, state_changed, condition_at, get_or_none, publish_state,
  publication_saved, first_position, save_partition, lag,
}
use event_store.Processing.Consumers.Saving.{
  place, IsCurrent, latest-own, known_position-IsCurrent, stored_state, serialised_state,
  saved-state,
}

deserialise-serialise : (state : EventConsumerState) → deserialise (serialise state) ≡ ok state
unfolding deserialise serialise deserialise_state normalise_state get
deserialise-serialise state = refl

as_saved-eq :
    {A : Type 0} (f : A → Saved) (x : Result A × Adapter) (stored : A)
    → x.0 ≡ ok stored
    → as_saved f x ≡ (ok (f stored), x.1)
unfolding as_saved
as_saved-eq f (ok y, a) stored h = ap (λ y. (ok (f y), a)) (ok-injective h)
as_saved-eq f (err e, a) stored h = ground (arith, h)

module _ (uuid4_hex : ℕ → String) (now : Datetime) where
  -- The specification's outcome, once it stores the event of a state.
  save_to_stream-state :
      (a : Adapter) (l : Log) (target : StreamIdentifier) (state : EventConsumerState)
      → IsValid a l
      → let condition = condition_at (latest_position (last? (own target l))) in
        let saving = save_to_stream uuid4_hex a target (state_changed state now ∷ []) condition in
        (saving.0 ≡ ok (stored_state uuid4_hex now l a.sequence target state ∷ []))
        × IsValid saving.1 (l ++ serialised_state uuid4_hex now l a.sequence target state ∷ [])
  save_to_stream-state a l target state v =
      let condition = condition_at (latest_position (last? (own target l))) in
      let events = state_changed state now ∷ [] in
      subst (λ r. SavesAs a l r (save_to_stream uuid4_hex a target events condition))
        (saved-state uuid4_hex now l a.sequence target state)
        (save_to_stream-SavesAs uuid4_hex a l target events condition v)

  publish-state :
      (self : EventConsumerStateStore) (partition : String) (a : Adapter) (l : Log)
      (state : EventConsumerState)
      → IsValid a l
      → let target = place self partition in
        let condition = condition_at (latest_position (last? (own target l))) in
        publish uuid4_hex
          (stream self.category partition)
          (state_changed state now ∷ [])
          condition
          a
        ≡ (
          ok (of_stream (stored_state uuid4_hex now l a.sequence target state ∷ [])),
          (save_to_stream uuid4_hex a target (state_changed state now ∷ []) condition).1,
        )
  unfolding publish save stream log_publishing state_changed new_event serialise_to_string
      serialise_to_json_value
  publish-state self partition a l state v =
      as_saved-eq of_stream _ _ (save_to_stream-state a l (place self partition) state v).0

-- The store of a consumer after a save that published.
abbrev after_save : EventConsumerStateStore → String → ℤ → EventConsumerStateStore
after_save self partition position = record self {
  positions = assign partition (some position) self.positions;
  persistence_lags = assign partition 0 self.persistence_lags;
}

module _ (uuid4_hex : ℕ → String) (now : Datetime) where
  publish_state-eq :
      (self : EventConsumerStateStore) (partition : String) (a : Adapter) (l : Log)
      (state : EventConsumerState)
      → IsValid a l
      → IsCurrent self partition l
      → let target = place self partition in
        let condition = condition_at (latest_position (last? (own target l))) in
        publish_state uuid4_hex now self partition state a ≡ (
          ok tt,
          after_save self partition (pos (length (own target l))),
          (save_to_stream uuid4_hex a target (state_changed state now ∷ []) condition).1,
        )
  unfolding publish_state publication_saved first_position stored_state event_at_position
  publish_state-eq self partition a l state v current =
      rw (known_position-IsCurrent self partition a l v current, publish_state)
        (rw (publish-state uuid4_hex now self partition a l state v) refl)

  save_partition-eq :
      (self : EventConsumerStateStore) (partition : String) (a : Adapter)
      (state : EventConsumerState)
      → get_or_none self.states partition ≡ some state
      → nat_beq (lag self partition) 0 ≡ false
      → save_partition uuid4_hex now self partition a
        ≡ publish_state uuid4_hex now self partition state a
  unfolding save_partition
  save_partition-eq self partition a state there behind =
      rw (there, save_partition) (rw behind refl)

last?-own :
    (l : Log) (target : StreamIdentifier) (e : SerialisedEvent)
    → in_stream (key target) e ≡ true
    → last? (own target (l ++ e ∷ [])) ≡ some e
last?-own l target e h =
    ap last? (select-append (in_stream (key target)) l (e ∷ []))
    ∙ rw h (last?-append (own target l) e)

pub get_or_none-assign :
    {A : Type 0} (k : String) (v : Option A) (d : Dict String (Option A))
    → get_or_none (assign k v d) k ≡ v
unfolding get_or_none
get_or_none-assign k v d =
    let found : lookup k (assign k v d) ≡ some v = lookup-assign k v d k ∙ (rw (beq_refl k) refl) in
    rw (found, get_or_none) refl

lag-assign :
    (self : EventConsumerStateStore) (partition : String) (position : ℤ)
    → lag (after_save self partition position) partition ≡ 0
unfolding lag
lag-assign self partition position =
    let found : lookup partition (assign partition 0 self.persistence_lags) ≡ some 0 =
      lookup-assign partition 0 self.persistence_lags partition ∙ (rw (beq_refl partition) refl) in
    rw (found, lag) refl

load-latest :
    (fresh : EventConsumerStateStore) (partition : String) (a : Adapter) (event : SerialisedEvent)
    (state : EventConsumerState)
    → get_or_none fresh.states partition ≡ none
    → latest (stream fresh.category partition) a ≡ ok (some event)
    → event.payload ≡ serialise state
    → (load fresh partition a).0 ≡ ok (some state)
unfolding load load_event
load-latest fresh partition a event state unloaded found payload =
    let read : deserialise event.payload ≡ ok state =
      ap deserialise payload ∙ deserialise-serialise state in
    rw (unloaded, load) (rw found (rw (read, load_event) refl))

-- A save of a partition of a consumer's state, in a store that has a state that is not saved yet and
-- knows no position or the latest one of the partition's stream, over a valid adapter: it raises
-- nothing, leaves a lag of 0 and no other lag changed, the states, the interval and the category as
-- they are, a valid adapter and the latest position, and a store of the same category that has not
-- loaded the partition loads that state from then on.
pub save_partition-load :
    (uuid4_hex : ℕ → String) (now : Datetime) (self fresh : EventConsumerStateStore)
    (partition : String) (a : Adapter) (l : Log) (state : EventConsumerState)
    → IsValid a l
    → IsCurrent self partition l
    → get_or_none self.states partition ≡ some state
    → nat_beq (lag self partition) 0 ≡ false
    → fresh.category ≡ self.category
    → get_or_none fresh.states partition ≡ none
    → (self' : EventConsumerStateStore) × (a' : Adapter) × (l' : Log) × (save_partition uuid4_hex
          now self partition a
        ≡ (ok tt, self', a'))
      × (lag self' partition ≡ 0)
      × (self'.states ≡ self.states)
      × (self'.persistence_interval ≡ self.persistence_interval)
      × (self'.category ≡ self.category)
      × (self'.persistence_lags ≡ assign partition 0 self.persistence_lags)
      × IsValid a' l'
      × IsCurrent self' partition l'
      × ((load fresh partition a').0 ≡ ok (some state))
unfolding serialised_state
save_partition-load uuid4_hex now self fresh partition a l state v current there behind same
      unloaded =
    let target = place self partition in
    let condition = condition_at (latest_position (last? (own target l))) in
    let events = state_changed state now ∷ [] in
    let event = serialised_state uuid4_hex now l a.sequence target state in
    let (result, valid) = save_to_stream-state uuid4_hex now a l target state v in
    let (s, _, serialised, valid', grown) =
      save_to_stream-ok uuid4_hex a l target events condition _ v result in
    let a' = (save_to_stream uuid4_hex a target events condition).1 in
    let last_is : last? (own target (l ++ event ∷ [])) ≡ some event =
      last?-own l target event (beq_refl (key target)) in
    (
      after_save self partition (pos (length (own target l))),
      a',
      l ++ event ∷ [],
      save_partition-eq uuid4_hex now self partition a state there behind
          ∙ publish_state-eq uuid4_hex now self partition a l state v current,
      lag-assign self partition (pos (length (own target l))),
      refl,
      refl,
      refl,
      refl,
      valid,
      inr (
          get_or_none-assign partition (some (pos (length (own target l)))) self.positions
          ∙ ap latest_position (sym last_is)),
      load-latest fresh partition a' event state unloaded
          (ap (λ c. latest (stream c partition) a') same
            ∙ latest-own self partition a' (l ++ event ∷ []) valid
            ∙ ap ok last_is)
          refl,
    )
