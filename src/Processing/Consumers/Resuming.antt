-- ===== src/Processing/Consumers/Resuming.antt =====
-- Where a consumer that starts again goes on.
use event_store.Prelude.{
  ℕ, pos, ◌≡◌, ◌<◌, refl, sym, ap, ◌∙◌, String, Bool, true, Option, none, some, List, [], ◌∷◌, ◌++◌,
  last?, length, Result, ok,
}
use event_store.Types.Json.{get}
use event_store.Types.Event.{Datetime, SerialisedEvent}
use event_store.Sources.{QueryConstraint, sequence_number_after}
use event_store.Store.Db.{Scan}
use event_store.Store.Db.Represents.{Log}
use event_store.Store.Adapter.{Adapter}
use event_store.Store.Adapter.Specification.{IsValid}
use event_store.Store.EventCategory.{EventCategory}
use event_store.Processing.Consumers.{
  EventConsumerState, new_store, stored_event_converter, constraint_of, as_int, load,
  loaded_constraint, with_extra,
}
use event_store.Processing.Consumers.Consuming.{consume_all}
use event_store.Processing.Consumers.Alone.{handled, ending, state_of, state_after}
use event_store.Processing.Consumers.Running.{constraints_of, consume_all-Consumes}

-- The constraint for the events after an event, or those for a state.
abbrev pub after_last : Option EventConsumerState → Option SerialisedEvent → List QueryConstraint
after_last base none = constraints_of stored_event_converter base
after_last base (some event) = sequence_number_after (pos event.sequence_number) ∷ []

-- The constraints for the events after the last of some events, or else for a state before them.
abbrev pub constraints_after :
    Option EventConsumerState → List SerialisedEvent → List QueryConstraint
constraints_after base events = after_last base (last? events)

constraints_of-event :
    (event : SerialisedEvent)
    → constraints_of stored_event_converter (some (state_of stored_event_converter event))
      ≡ sequence_number_after (pos event.sequence_number) ∷ []
unfolding loaded_constraint stored_event_converter constraint_of get as_int with_extra
constraints_of-event event = refl

state_after-last :
    (base : Option EventConsumerState) (event : SerialisedEvent) (events : List SerialisedEvent)
    → (last : SerialisedEvent) × (last? (event ∷ events) ≡ some last)
      × (state_after stored_event_converter base (event ∷ events)
          ≡ some (state_of stored_event_converter last))
state_after-last base event [] = (event, refl, refl)
state_after-last base event (next ∷ events) =
    state_after-last (some (state_of stored_event_converter event)) next events

constraints_of-state_after :
    (base : Option EventConsumerState) (events : List SerialisedEvent)
    → constraints_of stored_event_converter (state_after stored_event_converter base events)
      ≡ constraints_after base events
constraints_of-state_after base [] = refl
constraints_of-state_after base (event ∷ events) =
    let (last, found, reached) = state_after-last base event events in
    ap (constraints_of stored_event_converter) reached
    ∙ constraints_of-event last
    ∙ ap (after_last base) (sym found)

-- Two runs of a consumer, each with a new store of the category with the same interval that is not
-- 0, the first over a valid adapter from which its store loads a state or none, the second over what
-- the first leaves. The second asks its source for the events after one that the first handled, or
-- after the state before if that is still the saved one, and its processor alone with these events
-- leaves the same world and ends alike. Fewer events than the interval that the first has handled
-- come after that one; none does, if the first was to save at its end and raised nothing.
pub consume_all-resume :
    (uuid4_hex : ℕ → String) (now now' : Datetime) {World World' : Type 0}
    (process_event : SerialisedEvent → World → Result (Unit {0}) × World)
    (process_event' : SerialisedEvent → World' → Result (Unit {0}) × World')
    (iterate iterate' : List QueryConstraint → Adapter → Scan) (asked asked' : Bool)
    (category : EventCategory) (interval : ℕ) (world : World) (world' : World') (a : Adapter)
    (l : Log) (base : Option EventConsumerState)
    → 0 < interval
    → IsValid a l
    → (load (new_store category (some interval)) "default" a).0 ≡ ok base
    → let store = new_store category (some interval) in
      let first =
        consume_all stored_event_converter uuid4_hex now process_event iterate asked world store
          a in
      let events =
        (handled process_event
          (iterate (constraints_of stored_event_converter base) a).yielded
          world).events in
      let second =
        consume_all stored_event_converter uuid4_hex now' process_event' iterate' asked' world'
          store first.adapter in
      (saved unsaved : List SerialisedEvent) × (events ≡ saved ++ unsaved)
      × (length unsaved < interval)
      × (asked ≡ true → first.result ≡ ok tt → unsaved ≡ [])
      × (let scan = iterate' (constraints_after base saved) first.adapter in
          let alone = handled process_event' scan.yielded world' in
          (second.world ≡ alone.world) × (second.result ≡ ending scan.ended alone.failure))
consume_all-resume uuid4_hex now now' process_event process_event' iterate iterate' asked asked'
      category interval world world' a l base positive v loaded =
    let one =
      consume_all-Consumes stored_event_converter uuid4_hex now process_event iterate asked category
        interval world a l base positive v loaded in
    let first =
      consume_all stored_event_converter uuid4_hex now process_event iterate asked world
        (new_store category (some interval)) a in
    let two =
      consume_all-Consumes stored_event_converter uuid4_hex now' process_event' iterate' asked'
        category interval world' first.adapter one.log
        (state_after stored_event_converter base one.saved) positive one.valid one.loaded in
    let same = constraints_of-state_after base one.saved in
    (
      one.saved,
      one.unsaved,
      one.split,
      one.below,
      one.all_saved,
      (
        two.world
            ∙ ap (λ cs. (handled process_event' (iterate' cs first.adapter).yielded world').world)
                same,
        two.result
            ∙ ap
                (λ cs.
                  let scan = iterate' cs first.adapter in
                  ending scan.ended (handled process_event' scan.yielded world').failure)
                same,
      ),
    )
