-- ===== src/Examples/Consumers.antt =====
-- A consumer whose processor refuses one event, and the state that it saves.
use event_store.Prelude.{
  ℕ, suc, ◌<◌, ◌≤◌, ◌≡◌, refl, ap, inl, ◌⊎◌, String, string_eq, true, none, some, List, [], ◌∷◌,
  ◌++◌, all, select, length, arith, assign, Result, ok, err, value_error, pos, nat_eq, ◌==◌,
  if◌then◌else◌,
}
use event_store.Types.Json.{null}
use event_store.Types.Event.{SerialisedEvent}
use event_store.Sources.{QueryConstraint, convert_constraint}
use event_store.Store.EventCategory.{EventCategory}
use event_store.Store.Db.{Scan}
use event_store.Store.Db.Represents.{Log}
use event_store.Store.Adapter.{Adapter, new_adapter}
use event_store.Store.Adapter.Specification.{IsValid}
use event_store.Store.Adapter.Refinement.{IsValid-new_adapter}
use event_store.Processing.Consumers.{
  EventConsumerState, EventConsumerStateStore, new_store, stored_event_converter, record_processed,
  with_extra, get_or_none, lag, save_partition, save_if_needed, load, load_event, loaded_constraint,
}
use event_store.Processing.Consumers.Consuming.{consume_all}
use event_store.Processing.Consumers.Saving.{IsCurrent}
use event_store.Processing.Consumers.Loading.{save_partition-load}
use event_store.Processing.Consumers.Lags.{save_if_needed-lag}
use event_store.Processing.Consumers.Alone.{handled, ending}
use event_store.Processing.Consumers.Starting.{load-valid}
use event_store.Processing.Consumers.Running.{Consumes, consume_all-Consumes}
use event_store.Processing.Consumers.Resuming.{constraints_after, consume_all-resume}

abbrev drawn : ℕ → String
drawn n = "0f"

abbrev states : EventCategory
states = record { identifier = record { category = "consumers" } }

abbrev numbered_event : ℕ → SerialisedEvent
numbered_event n = record {
  id = "0e";
  name = "placed";
  stream = "1";
  category = "orders";
  position = pos n;
  sequence_number = n;
  payload = null;
  observed_at = 5;
  occurred_at = 5;
}

-- Takes every event but number 3, and keeps their numbers.
abbrev refuse_three : SerialisedEvent → List ℕ → Result (Unit {0}) × List ℕ
refuse_three event seen =
    if event.sequence_number == 3
    then (err (value_error "three"), seen)
    else (ok tt, event.sequence_number ∷ seen)

abbrev start : EventConsumerStateStore
start = new_store states (some 2)

abbrev recorded : EventConsumerStateStore
recorded = record_processed stored_event_converter start (numbered_event 7) none "default"

-- A source of events 1 to 3, which keeps to its constraints.
abbrev orders : List QueryConstraint → Adapter → Scan
orders constraints a = record {
  yielded =
      select (λ event. all (λ constraint. convert_constraint constraint event) constraints)
        (numbered_event 1 ∷ numbered_event 2 ∷ numbered_event 3 ∷ []);
  ended = ok tt;
}

nothing_saved : (load start "default" new_adapter).0 ≡ ok none
unfolding load_event new_store get_or_none
nothing_saved = ap (λ x. x.0) (load-valid start new_adapter [] IsValid-new_adapter refl)

consume_all-Consumes_example :
    Consumes stored_event_converter drawn 5 refuse_three orders true start 2 none
      (orders [] new_adapter)
      []
      (consume_all stored_event_converter drawn 5 refuse_three orders true [] start new_adapter)
unfolding loaded_constraint
consume_all-Consumes_example =
    consume_all-Consumes stored_event_converter drawn 5 refuse_three orders true states 2 []
      new_adapter [] none (omega arith) IsValid-new_adapter nothing_saved

abbrev seven : EventConsumerState
seven = record {
  state = with_extra (stored_event_converter.event_to_state (numbered_event 7)) none;
}

save_partition-load_example :
    (self' : EventConsumerStateStore) × (a' : Adapter) × (l' : Log) × (save_partition drawn 5
        recorded "default" new_adapter
      ≡ (ok tt, self', a'))
    × (lag self' "default" ≡ 0)
    × (self'.states ≡ recorded.states)
    × (self'.persistence_interval ≡ recorded.persistence_interval)
    × (self'.category ≡ recorded.category)
    × (self'.persistence_lags ≡ assign "default" 0 recorded.persistence_lags)
    × IsValid a' l'
    × IsCurrent self' "default" l'
    × ((load start "default" a').0 ≡ ok (some seven))
unfolding record_processed new_store lag get_or_none
save_partition-load_example =
    save_partition-load drawn 5 recorded start "default" new_adapter [] seven IsValid-new_adapter
      (inl refl) refl refl refl refl

consume_all-resume_example :
    let first =
      consume_all stored_event_converter drawn 5 refuse_three orders true [] start new_adapter in
    let second =
      consume_all stored_event_converter drawn 6 refuse_three orders true [] start first.adapter in
    (saved unsaved : List SerialisedEvent) × ((handled refuse_three
        (orders [] new_adapter).yielded
        []).events
      ≡ saved ++ unsaved)
    × (length unsaved < 2)
    × (true ≡ true → first.result ≡ ok tt → unsaved ≡ [])
    × (let scan = orders (constraints_after none saved) first.adapter in
        let alone = handled refuse_three scan.yielded [] in
        (second.world ≡ alone.world) × (second.result ≡ ending scan.ended alone.failure))
unfolding loaded_constraint
consume_all-resume_example =
    consume_all-resume drawn 5 6 refuse_three refuse_three orders orders true true states 2 [] []
      new_adapter [] none (omega arith) IsValid-new_adapter nothing_saved

-- The store that has recorded event 7 records event 8, the second of an interval.
abbrev eight : EventConsumerState
eight = record {
  state = with_extra (stored_event_converter.event_to_state (numbered_event 8)) none;
}

save_if_needed-lag_example :
    (self' : EventConsumerStateStore) × (a' : Adapter) × (l' : Log) × (n : ℕ) × (save_if_needed
        drawn 5
        (record_processed stored_event_converter recorded (numbered_event 8) none "default")
        "default"
        new_adapter
      ≡ (ok tt, self', a'))
    × (get_or_none self'.states "default" ≡ some eight)
    × (self'.persistence_interval ≡ some 2)
    × (self'.category ≡ states)
    × (self'.persistence_lags
        ≡ assign "default" n
            (assign "default" (suc (lag recorded "default")) recorded.persistence_lags))
    × IsValid a' l'
    × IsCurrent self' "default" l'
    × ((2 ≤ suc (lag recorded "default"))
          × (lag self' "default" ≡ 0)
          × ((load start "default" a').0 ≡ ok (some eight))
        ⊎ (suc (lag recorded "default") < 2)
          × (lag self' "default" ≡ suc (lag recorded "default"))
          × (a' ≡ new_adapter))
unfolding record_processed new_store get_or_none
save_if_needed-lag_example =
    save_if_needed-lag drawn 5 stored_event_converter recorded start (numbered_event 8) none
      "default" new_adapter [] 2 refl (omega arith) IsValid-new_adapter (inl refl) refl refl
