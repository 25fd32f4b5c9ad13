-- ===== src/Types/Json.antt =====
-- src/logicblocks/event/types/json.py: JSON values. A mapping is a list of its items in order, and
-- numbers are the integers.
use event_store.Prelude.{ℤ, String, Bool, Option, none, some, ◌==◌, if◌then◌else◌, string_eq}

mutual
  pub data JsonValue : Type 0 where
    null : JsonValue
    bool : Bool → JsonValue
    int : ℤ → JsonValue
    str : String → JsonValue
    array : JsonArray → JsonValue
    object : JsonObject → JsonValue

  pub data JsonArray : Type 0 where
    nil : JsonArray
    item : JsonValue → JsonArray → JsonArray

  pub data JsonObject : Type 0 where
    empty : JsonObject
    field : String → JsonValue → JsonObject → JsonObject

-- `mapping.get(key, None)`, which tells a missing key from a key that holds `None`
unfoldable pub get : JsonObject → String → Option JsonValue
get empty key = none
get (field name value rest) key = if name == key then some value else get rest key

-- `{**mapping, key: value}`: a key that is there keeps its place.
unfoldable pub put : JsonObject → String → JsonValue → JsonObject
put empty key value = field key value empty
put (field name old rest) key value =
    if name == key then field name value rest else field name old (put rest key value)

-- `{**mapping, **other}`
unfoldable pub merge : JsonObject → JsonObject → JsonObject
unfolding put
merge mapping empty = mapping
merge mapping (field key value rest) = merge (put mapping key value) rest
