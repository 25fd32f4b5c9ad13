-- ===== src/Types/Conversion.antt =====
-- src/logicblocks/event/types/conversion.py: how names and payloads become texts and JSON values.
-- An object of the application is known by what its `serialise` method answers to each of the two
-- fallbacks of the library, and by its `str`.
use event_store.Prelude.{String, Result, ok, err, Error, value_error}
use event_store.Types.Json.{JsonValue, str}

-- `raising_serialisation_fallback` and `str_serialisation_fallback`
pub data SerialisationFallback : Type 0 where
  raising : SerialisationFallback
  as_str : SerialisationFallback

abbrev pub cannot_serialise : Error
cannot_serialise = value_error "Cannot serialise value."

pub data JsonPersistable : Type 0 where
  serialisable : (SerialisationFallback → Result JsonValue) → JsonPersistable
  json : JsonValue → JsonPersistable
  other : String → JsonPersistable

pub data StringPersistable : Type 0 where
  serialisable : (SerialisationFallback → Result String) → StringPersistable
  text : String → StringPersistable
  other : String → StringPersistable

-- The fallback at a value whose `str` is given.
unfoldable pub fall_back : SerialisationFallback → String → Result String
fall_back raising shown = err cannot_serialise
fall_back as_str shown = ok shown

unfoldable pub fall_back_to_json : SerialisationFallback → String → Result JsonValue
fall_back_to_json raising shown = err cannot_serialise
fall_back_to_json as_str shown = ok (str shown)

unfoldable pub serialise_to_json_value : JsonPersistable → SerialisationFallback → Result JsonValue
unfolding fall_back_to_json
serialise_to_json_value (serialisable serialise) fallback = serialise fallback
serialise_to_json_value (json value) fallback = ok value
serialise_to_json_value (other shown) fallback = fall_back_to_json fallback shown

unfoldable pub serialise_to_string : StringPersistable → SerialisationFallback → Result String
unfolding fall_back
serialise_to_string (serialisable serialise) fallback = serialise fallback
serialise_to_string (text value) fallback = ok value
serialise_to_string (other shown) fallback = fall_back fallback shown
