-- ===== src/Examples/Conditions.antt =====
-- Conditions of a stream whose last event is at position 3.
use event_store.Prelude.{◌≡◌, ◌≢◌, pos, Bool, true, false, ◌&&◌, ◌||◌, some, List, arith}
use event_store.Types.Json.{null}
use event_store.Types.Event.{SerialisedEvent}
use event_store.Store.Conditions.{
  WriteCondition, position_is, empty_stream, and, or, or_condition, nil,
}
use event_store.Store.Conditions.Meaning.{holds, KeepsMembers, holds-and, holds-or}
use event_store.Store.Enforcers.{convert, assert_satisfied}
use event_store.Store.Enforcers.Meaning.{Agrees, assert_satisfied-Agrees}

abbrev latest_event : SerialisedEvent
latest_event = record {
  id = "0f";
  name = "placed";
  stream = "1";
  category = "orders";
  position = pos 3;
  sequence_number = 7;
  payload = null;
  observed_at = 5;
  occurred_at = 5;
}

abbrev as_given : List WriteCondition → List WriteCondition
as_given conditions = conditions

as_given-KeepsMembers : KeepsMembers as_given
as_given-KeepsMembers conditions c = ((λ m. m), (λ m. m))

abbrev at_three : WriteCondition
at_three = position_is (some (pos 3))

holds-and_example :
    holds (some latest_event) (and as_given at_three empty_stream)
    ≡ (holds (some latest_event) at_three && holds (some latest_event) empty_stream)
holds-and_example =
    holds-and (some latest_event) as_given as_given-KeepsMembers at_three empty_stream

is_disjunction : WriteCondition → Bool
is_disjunction (or_condition conditions) = true
is_disjunction _ = false

at_three-other : at_three ≢ or_condition nil
at_three-other e = ground (arith, e)

empty_stream-other : empty_stream ≢ or_condition nil
empty_stream-other e = ground (arith, e)

holds-or_example :
    holds (some latest_event) (or as_given at_three empty_stream)
    ≡ (holds (some latest_event) at_three || holds (some latest_event) empty_stream)
holds-or_example =
    holds-or (some latest_event) as_given as_given-KeepsMembers at_three empty_stream at_three-other
      empty_stream-other

-- A disjunction whose first part fails.
assert_satisfied-Agrees_example :
    let either : WriteCondition = or as_given empty_stream at_three in
    Agrees
      (holds (some latest_event) either)
      (assert_satisfied (convert either) (some latest_event))
assert_satisfied-Agrees_example =
    assert_satisfied-Agrees (or as_given empty_stream at_three) (some latest_event)
