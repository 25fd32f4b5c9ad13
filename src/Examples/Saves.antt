-- ===== src/Examples/Saves.antt =====
-- Saves, scans and conditions on a small store of orders.
use event_store.Sources.Memory.{in_memory, constrained, read}
use event_store.Sources.Memory.Constraining.{meets_all, read-constrained}
use event_store.Prelude.{
  negsuc, length, ℕ, ◌≡◌, refl, pos, String, some, List, [], ◌∷◌, ok, err, unmet_write_condition,
  ap, ◌+ℤ◌, ◌++◌, Result, select, ◌≢◌, string_eq, arith,
}
use event_store.Types.Json.{null}
use event_store.Types.Conversion.{json, text, serialise_to_string, serialise_to_json_value}
use event_store.Types.Event.{SerialisedEvent}
use event_store.Types.Identifier.{log, category, stream}
use event_store.Sources.{sequence_number_after, convert_constraint, meets}
use event_store.Store.Conditions.{WriteCondition, no_condition, position_is, empty_stream}
use event_store.Store.Enforcers.{convert, assert_satisfied}
use event_store.Store.Db.{StreamIdentifier, transaction, commit, last_stream_position, add_to, key}
use event_store.Store.Db.Reads.{scan_of, events_of}
use event_store.Store.Texts.{sorted_items}
use event_store.Store.Adapter.{
  Adapter, EventToStore, StreamPublishDefinition, new_adapter, save_to_stream, save_to_category,
  scan, latest, checked_position, serialise_event, NewStoredEvent,
}
use event_store.Store.Texts.Sorting.{HasDistinctNames}
use event_store.Store.Adapter.Specification.{
  IsValid, saved, serialise_all, numbered, event_at_position,
}
use event_store.Store.Adapter.Once.{position_is_once}
use event_store.Store.Adapter.History.{scan-save_to_stream, scan-save_to_category}
use event_store.Store.EventStream.{EventStream, log_publishing, publish, iterate}
use event_store.Store.EventStream.Publishing.{publish-iterate, publish-iterate_other}
use event_store.Store.EventCategory.{EventCategory, stream as narrowed, iterate as iterate_category}
use event_store.Store.EventCategory.Narrowing.{iterate-stream}
use event_store.Store.Db.Represents.{in_stream}
use event_store.Store.Adapter.Refinement.{SavesAs, save_to_stream-SavesAs, IsValid-new_adapter}
use event_store.Store.Adapter.Reads.{latest-eq, scan-eq}
use event_store.Store.Adapter.Category.{saved_streams, save_to_category-SavesAs}

abbrev hex : ℕ → String
hex n = "0f"

abbrev placed : EventToStore
placed = record { name = text "placed"; payload = json null; observed_at = 5; occurred_at = 5 }

abbrev paid : EventToStore
paid = record placed { name = text "paid" }

abbrev order : StreamIdentifier
order = record { category = "orders"; stream = "1" }

-- The database's copies of the two events.
abbrev stored_placed : SerialisedEvent
stored_placed = record {
  id = "0f";
  name = "placed";
  stream = "1";
  category = "orders";
  position = pos 0;
  sequence_number = 0;
  payload = null;
  observed_at = 5;
  occurred_at = 5;
}

abbrev stored_paid : SerialisedEvent
stored_paid = record stored_placed { name = "paid"; position = pos 1; sequence_number = 1 }

abbrev two_events : Adapter
two_events = (save_to_stream hex new_adapter order (placed ∷ paid ∷ []) empty_stream).1

all_code : Unit {0}
unfolding save_to_stream checked_position convert assert_satisfied last_stream_position transaction
    commit new_adapter serialise_event serialise_to_string serialise_to_json_value saved
    save_to_category saved_streams scan latest serialise_all publish log_publishing add_to ◌+ℤ◌
    meets events_of scan_of convert_constraint
all_code = tt

two_events-IsValid : IsValid two_events (stored_placed ∷ stored_paid ∷ [])
unfolding all_code
two_events-IsValid =
    (save_to_stream-SavesAs hex new_adapter [] order (placed ∷ paid ∷ []) empty_stream
      IsValid-new_adapter).1

-- A save that finds the position it expects.
save_to_stream-SavesAs_example :
    SavesAs two_events
      (stored_placed ∷ stored_paid ∷ [])
      (saved hex
        (stored_placed ∷ stored_paid ∷ [])
        2
        order
        (placed ∷ [])
        (position_is (some (pos 1))))
      (save_to_stream hex two_events order (placed ∷ []) (position_is (some (pos 1))))
unfolding all_code
save_to_stream-SavesAs_example =
    save_to_stream-SavesAs hex two_events (stored_placed ∷ stored_paid ∷ []) order (placed ∷ [])
      (position_is (some (pos 1))) two_events-IsValid

abbrev two_streams : List (String × StreamPublishDefinition)
two_streams =
    ("2", record { events = placed ∷ []; condition = some empty_stream })
    ∷ ("1", record { events = paid ∷ []; condition = some (position_is (some (pos 1))) })
    ∷ []

two_streams-HasDistinctNames : HasDistinctNames two_streams
two_streams-HasDistinctNames =
    (((λ e. ground (arith, (string_eq.test_iff "1" "2").1 e)), tt), (tt, tt))

-- A save to two streams, one new and one with events.
save_to_category-SavesAs_example :
    SavesAs two_events
      (stored_placed ∷ stored_paid ∷ [])
      (saved_streams hex (stored_placed ∷ stored_paid ∷ []) "orders" 2 (sorted_items two_streams))
      (save_to_category hex two_events "orders" two_streams)
unfolding all_code
save_to_category-SavesAs_example =
    save_to_category-SavesAs hex two_events (stored_placed ∷ stored_paid ∷ []) "orders" two_streams
      two_streams-HasDistinctNames two_events-IsValid

-- The log after the first event.
scan-eq_example :
    scan two_events log (sequence_number_after (pos 0) ∷ [])
    ≡ record { yielded = stored_paid ∷ []; ended = ok tt }
unfolding all_code
scan-eq_example =
    scan-eq two_events (stored_placed ∷ stored_paid ∷ []) two_events-IsValid log
      (sequence_number_after (pos 0) ∷ [])

latest-eq_example : latest two_events (category "orders") ≡ ok (some stored_paid)
unfolding all_code
latest-eq_example =
    latest-eq two_events (stored_placed ∷ stored_paid ∷ []) two_events-IsValid (category "orders")

-- Two saves that expect the stream to end at position 1.
position_is_once_example :
    let expects : WriteCondition = position_is (some (pos 1)) in
    let first : Adapter = (save_to_stream hex two_events order (paid ∷ []) expects).1 in
    let second : Result (List NewStoredEvent) × Adapter =
      save_to_stream hex first order (placed ∷ []) expects in
    (second.0 ≡ err (unmet_write_condition "unexpected stream position")) × (second.1.db ≡ first.db)
unfolding all_code
position_is_once_example =
    position_is_once hex two_events (stored_placed ∷ stored_paid ∷ []) two_events-IsValid order paid
      [] (placed ∷ []) (some (pos 1)) (event_at_position hex order (pos 2) 2 paid ∷ []) refl

scan-save_to_stream_example :
    let a' : Adapter = (save_to_stream hex two_events order (paid ∷ []) no_condition).1 in
    (new : List SerialisedEvent) × ((scan a' (category "orders") []).yielded
      ≡ (scan two_events (category "orders") []).yielded ++ new)
unfolding all_code
scan-save_to_stream_example =
    scan-save_to_stream hex two_events (stored_placed ∷ stored_paid ∷ []) two_events-IsValid order
      (paid ∷ []) no_condition (category "orders") []

scan-save_to_category_example :
    let a' : Adapter = (save_to_category hex two_events "orders" two_streams).1 in
    (new : List SerialisedEvent) × ((scan a' (stream "orders" "1") []).yielded
      ≡ (scan two_events (stream "orders" "1") []).yielded ++ new)
unfolding all_code
scan-save_to_category_example =
    scan-save_to_category hex two_events (stored_placed ∷ stored_paid ∷ []) two_events-IsValid
      "orders" two_streams (stream "orders" "1") [] two_streams-HasDistinctNames

abbrev order_stream : EventStream
order_stream = record { identifier = order }

abbrev other_stream : EventStream
other_stream = record { identifier = record { category = "orders"; stream = "2" } }

publish-iterate_example :
    (s : List SerialisedEvent) × (event_at_position hex order (pos 2) 2 paid ∷ []
      ≡ numbered hex order (length (iterate order_stream [] two_events).yielded) 2 (paid ∷ []))
    × (serialise_all (event_at_position hex order (pos 2) 2 paid ∷ []) ≡ ok s)
    × (iterate order_stream [] (publish hex order_stream (paid ∷ []) no_condition two_events).1
        ≡ record { yielded = (iterate order_stream [] two_events).yielded ++ s; ended = ok tt })
unfolding all_code
publish-iterate_example =
    publish-iterate hex two_events (stored_placed ∷ stored_paid ∷ []) order_stream (paid ∷ [])
      no_condition (event_at_position hex order (pos 2) 2 paid ∷ []) two_events-IsValid refl

other_order : key order ≢ ("orders", "2")
other_order e = ground (arith, (string_eq.test_iff "1" "2").1 (ap (λ k. k.1) e))

publish-iterate_other_example :
    iterate other_stream [] (publish hex order_stream (paid ∷ []) no_condition two_events).1
    ≡ iterate other_stream [] two_events
publish-iterate_other_example =
    publish-iterate_other hex two_events (stored_placed ∷ stored_paid ∷ []) order_stream
      other_stream (paid ∷ []) no_condition two_events-IsValid other_order

abbrev orders : EventCategory
orders = record { identifier = record { category = "orders" } }

iterate-stream_example :
    (iterate (narrowed orders "1") [] two_events).yielded
    ≡ select (in_stream ("orders", "1")) (iterate_category orders [] two_events).yielded
iterate-stream_example =
    iterate-stream two_events (stored_placed ∷ stored_paid ∷ []) orders "1" [] two_events-IsValid

-- Of the two events, those after sequence number 0 in a source of those after -1.
read-constrained_example :
    read
      (constrained
        (in_memory (stored_placed ∷ stored_paid ∷ []) log convert_constraint)
        (sequence_number_after (pos 0) ∷ []))
      (sequence_number_after (negsuc 0) ∷ [])
    ≡ select (meets_all convert_constraint (sequence_number_after (pos 0) ∷ [])) (
        read
          (in_memory (stored_placed ∷ stored_paid ∷ []) log convert_constraint)
          (sequence_number_after (negsuc 0) ∷ []))
read-constrained_example =
    read-constrained convert_constraint (stored_placed ∷ stored_paid ∷ []) log
      (sequence_number_after (pos 0) ∷ []) (sequence_number_after (negsuc 0) ∷ [])
