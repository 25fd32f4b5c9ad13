-- ===== src/Processing/Consumers/Saving.antt =====
-- What a save of a consumer's state does to the log of the adapter.
use event_store.Prelude.{
  ℕ, pos, ◌≡◌, refl, sym, ap, ◌∙◌, subst, ◌⊎◌, inl, inr, String, string_eq, true, Option, none,
  some, [], ◌∷◌, arith, last?, length, beq_refl, Result, ok, err, unmet_write_condition,
  value_error, index_error, runtime_error, missing_projection_handler_error, Option-cases,
  option_eq, int_eq, pair_eq,
}
use event_store.Types.Conversion.{serialise_to_string, serialise_to_json_value}
use event_store.Types.Event.{Datetime, SerialisedEvent, new_event}
use event_store.Store.Conditions.Meaning.{holds, latest_position}
use event_store.Store.Enforcers.{convert, assert_satisfied}
use event_store.Store.Enforcers.Meaning.{Agrees, assert_satisfied-Agrees}
use event_store.Store.Db.{StreamIdentifier}
use event_store.Store.Db.Represents.{Log}
use event_store.Store.Db.Reads.{events_of}
use event_store.Store.Adapter.{Adapter, NewStoredEvent}
use event_store.Store.Adapter.Specification.{
  own, IsValid, kept, saved, numbered, serialise_all, event_at_position,
}
use event_store.Store.Adapter.Reads.{latest-eq}
use event_store.Store.EventStream.{latest}
use event_store.Store.EventCategory.{stream}
use event_store.Processing.Consumers.{
  EventConsumerState, EventConsumerStateStore, serialise, state_changed, condition_at,
  known_position, get_or_none,
}

-- The stream that the state of a partition is saved to.
abbrev pub place : EventConsumerStateStore → String → StreamIdentifier
place self partition = record { category = self.category.identifier.category; stream = partition }

-- The position that a store knows is none, or that of the latest event.
abbrev pub IsCurrent : EventConsumerStateStore → String → Log → Type 0
IsCurrent self partition l =
    (get_or_none self.positions partition ≡ none)
    ⊎ (get_or_none self.positions partition
        ≡ latest_position (last? (own (place self partition) l)))

pub latest-own :
    (self : EventConsumerStateStore) (partition : String) (a : Adapter) (l : Log)
    → IsValid a l
    → latest (stream self.category partition) a ≡ ok (last? (own (place self partition) l))
unfolding latest stream events_of
latest-own self partition a l v = latest-eq a l v _

position_or_none-eq :
    (o : Option SerialisedEvent)
    → elim o [ none ↦ none | some e ↦ some e.position ] ≡ latest_position o
position_or_none-eq none = refl
position_or_none-eq (some e) = refl

pub known_position-IsCurrent :
    (self : EventConsumerStateStore) (partition : String) (a : Adapter) (l : Log)
    → IsValid a l
    → IsCurrent self partition l
    → known_position self partition a ≡ ok (latest_position (last? (own (place self partition) l)))
unfolding known_position
known_position-IsCurrent self partition a l v current = elim current [
  | inl unknown ↦
      rw (unknown, known_position)
        (rw (latest-own self partition a l v)
          (ap ok (position_or_none-eq (last? (own (place self partition) l)))))
  | inr known ↦ elim (Option-cases (get_or_none self.positions partition)) [
    | inl unknown ↦
        rw (unknown, known_position)
          (rw (latest-own self partition a l v)
            (ap ok (position_or_none-eq (last? (own (place self partition) l)))))
    | inr (position, found) ↦ rw (found, known_position) (ap ok (sym found ∙ known))
  ]
]

condition_at-holds :
    (latest : Option SerialisedEvent) → holds latest (condition_at (latest_position latest)) ≡ true
unfolding holds condition_at
condition_at-holds none = refl
condition_at-holds (some e) = beq_refl (some e.position)

Agrees-true : (r : Result (Unit {0})) → Agrees true r → r ≡ ok tt
Agrees-true (ok tt) h = refl
Agrees-true (err (unmet_write_condition message)) h = ground (arith, h)
Agrees-true (err (value_error message)) h = absurd h
Agrees-true (err index_error) h = absurd h
Agrees-true (err (runtime_error message)) h = absurd h
Agrees-true (err (missing_projection_handler_error event class_name)) h = absurd h

condition-satisfied :
    (event : Option SerialisedEvent)
    → assert_satisfied (convert (condition_at (latest_position event))) event ≡ ok tt
condition-satisfied event = Agrees-true _ (
    subst (λ b. Agrees b (assert_satisfied (convert (condition_at (latest_position event))) event))
      (condition_at-holds event)
      (assert_satisfied-Agrees (condition_at (latest_position event)) event))

module _ (uuid4_hex : ℕ → String) (now : Datetime) where
  -- The event of a state, as the adapter stores it.
  unfoldable pub stored_state : Log → ℕ → StreamIdentifier → EventConsumerState → NewStoredEvent
  stored_state l sequence target state =
      event_at_position uuid4_hex target (pos (length (own target l))) sequence
        (state_changed state now)

  unfoldable pub serialised_state :
      Log → ℕ → StreamIdentifier → EventConsumerState → SerialisedEvent
  serialised_state l sequence target state = record {
    id = uuid4_hex sequence;
    name = "state-changed";
    stream = target.stream;
    category = target.category;
    position = pos (length (own target l));
    sequence_number = sequence;
    payload = serialise state;
    observed_at = now;
    occurred_at = now;
  }

  pub serialise_all-state :
      (l : Log) (sequence : ℕ) (target : StreamIdentifier) (state : EventConsumerState)
      → serialise_all (stored_state l sequence target state ∷ [])
        ≡ ok (serialised_state l sequence target state ∷ [])
  unfolding stored_state serialised_state serialise_all event_at_position kept state_changed
      new_event serialise_to_string serialise_to_json_value
  serialise_all-state l sequence target state = refl

  -- The specification stores the event of a state.
  pub saved-state :
      (l : Log) (sequence : ℕ) (target : StreamIdentifier) (state : EventConsumerState)
      → saved uuid4_hex l sequence target
          (state_changed state now ∷ [])
          (condition_at (latest_position (last? (own target l))))
        ≡ ok (
          stored_state l sequence target state ∷ [],
          serialised_state l sequence target state ∷ [],
        )
  unfolding saved numbered stored_state
  saved-state l sequence target state =
      rw (condition-satisfied (last? (own target l)), serialise_all-state l sequence target state)
        refl
