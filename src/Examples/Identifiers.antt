-- ===== src/Examples/Identifiers.antt =====
-- An identifier of a stream, written and read.
use event_store.Prelude.{◌≡◌, refl, String, some}
use event_store.Types.Json.{JsonValue, str}
use event_store.Types.Identifier.{stream, serialise, target, category_partition, stream_name_prefix}
use event_store.Types.Identifier.Reading.{ReadsBack, target-ReadsBack}

abbrev shown : JsonValue → String
shown (str t) = t
shown _ = "other"

target-ReadsBack_example : ReadsBack shown (stream "orders" "1")
unfolding target
target-ReadsBack_example =
    target-ReadsBack shown (some "orders") (some "1") (stream "orders" "1") (λ t. refl) refl

-- The categories of two partitions do not show in what they serialise to.
category_partition_run :
    serialise (category_partition "orders" (stream_name_prefix "a"))
    ≡ serialise (category_partition "customers" (stream_name_prefix "a"))
unfolding serialise
category_partition_run = refl
