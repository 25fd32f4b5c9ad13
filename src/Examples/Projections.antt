-- ===== src/Examples/Projections.antt =====
-- A projector that counts the payments of an order.
use event_store.Prelude.{
  Option, ℕ, suc, ◌≡◌, refl, pos, String, none, some, List, [], ◌∷◌, Result, ok, err,
  missing_projection_handler_error, if◌then◌else◌, ◌==◌, string_eq,
}
use event_store.Types.Json.{null}
use event_store.Types.Event.{SerialisedEvent}
use event_store.Types.Identifier.{stream}
use event_store.Types.Projection.{Projection}
use event_store.Sources.Memory.{EventSource}
use event_store.Projecting.{
  Projector, raise_error, found_handler, resolve_handler, resolve_state, resolve_metadata, apply,
  project_events, projection_of, project,
}
use event_store.Projecting.Folding.{project-resume, project-Missing}

abbrev snake : String → String
snake name = if name == "Paid" then "paid" else name

abbrev count_payment : Option ℕ → SerialisedEvent → Result (Option ℕ)
count_payment none event = ok none
count_payment (some state) event = ok (some (suc state))

abbrev payments : Projector ℕ String
payments = record {
  class_name = "PaymentsProjector";
  projection_name = "payments";
  missing_handler_behaviour = raise_error;
  initial_state_factory = ok (some 0);
  initial_metadata_factory = ok (some "");
  id_factory = λ state source. ok "1";
  update_metadata = λ state metadata event. ok (some event.id);
  handler = λ name. if name == "paid" then some count_payment else none;
}

abbrev paid : SerialisedEvent
paid = record {
  id = "0a";
  name = "Paid";
  stream = "1";
  category = "orders";
  position = pos 0;
  sequence_number = 0;
  payload = null;
  observed_at = 5;
  occurred_at = 5;
}

abbrev paid_again : SerialisedEvent
paid_again = record paid { id = "0b"; position = pos 1; sequence_number = 1 }

abbrev shipped : SerialisedEvent
shipped = record paid { id = "0c"; name = "Shipped"; position = pos 2; sequence_number = 2 }

abbrev source_of : List SerialisedEvent → EventSource SerialisedEvent
source_of events = record {
  identifier = stream "orders" "1";
  latest = none;
  iterate = λ constraints. events;
}

abbrev one_payment : Projection (Option ℕ) (Option String)
one_payment = record {
  id = "1";
  name = "payments";
  source = stream "orders" "1";
  state = some 1;
  metadata = some "0a";
}

one_payment_run : project snake payments (source_of (paid ∷ [])) none none ≡ ok one_payment
unfolding project project_events projection_of apply resolve_state resolve_metadata resolve_handler
    found_handler
one_payment_run = refl

two_payments_run :
    project snake payments (source_of (paid ∷ paid_again ∷ [])) none none
    ≡ ok (record one_payment { state = some 2; metadata = some "0b" })
unfolding project project_events projection_of apply resolve_state resolve_metadata resolve_handler
    found_handler
two_payments_run = refl

project-resume_example :
    project snake payments (source_of (paid ∷ paid_again ∷ [])) none none
    ≡ project snake payments (source_of (paid_again ∷ [])) (some 1) (some "0a")
project-resume_example =
    project-resume snake payments (source_of (paid ∷ [])) (source_of (paid_again ∷ []))
      (source_of (paid ∷ paid_again ∷ [])) none none one_payment 1 "0a" refl refl refl refl
      one_payment_run

before_shipped :
    project_events snake payments (paid ∷ []) (some 0) (some "") ≡ ok (some 1, some "0a")
unfolding project_events apply resolve_state resolve_handler found_handler
before_shipped = refl

resolved_one : resolve_state payments (some 1) ≡ ok (some 1)
unfolding resolve_state
resolved_one = refl

shipped_unhandled : found_handler snake payments shipped ≡ none
unfolding found_handler
shipped_unhandled = refl

project-Missing_example :
    project snake payments (source_of (paid ∷ shipped ∷ [])) (some 0) (some "")
    ≡ err (missing_projection_handler_error "Shipped" "PaymentsProjector")
project-Missing_example =
    project-Missing snake payments (source_of (paid ∷ shipped ∷ [])) (paid ∷ []) [] shipped 0 ""
      (some 1, some "0a") (some 1) refl refl before_shipped resolved_one shipped_unhandled

-- A projector that clears its metadata at every event.
abbrev clearing : Projector ℕ String
clearing = record payments {
  initial_metadata_factory = ok (some "fresh");
  update_metadata = λ state metadata event. ok none;
}

-- Resuming from metadata of `None`, with no event, starts the metadata over.
cleared_run :
    project snake clearing (source_of (paid ∷ [])) none none
    ≡ ok (record one_payment { metadata = none })
unfolding project project_events projection_of apply resolve_state resolve_metadata resolve_handler
    found_handler
cleared_run = refl

cleared_resumed_run :
    project snake clearing (source_of []) (some 1) none
    ≡ ok (record one_payment { metadata = some "fresh" })
unfolding project project_events projection_of resolve_state resolve_metadata
cleared_resumed_run = refl
