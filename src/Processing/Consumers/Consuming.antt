-- ===== src/Processing/Consumers/Consuming.antt =====
-- src/logicblocks/event/processing/consumers/source.py: a consumer that gives the events of a source
-- to a processor, one by one, and records and saves how far it has come. A generator runs on when it
-- is asked for the next event: what stands after its `yield` is done before that. `World` is what
-- the processor works on; the log lines are left out.
use event_store.Prelude.{
  ℕ, suc, String, Bool, true, false, none, some, List, [], ◌∷◌, Result, ok, err, if◌then◌else◌,
}
use event_store.Types.Event.{Datetime, SerialisedEvent}
use event_store.Sources.{QueryConstraint}
use event_store.Store.Db.{Scan}
use event_store.Store.Adapter.{Adapter}
use event_store.Processing.Consumers.{
  EventConsumerStateStore, EventConsumerStateConverter, record_processed, save, save_if_needed,
  load_to_query_constraint,
}

-- `StateStoreEventProcessorManager`, with its store
pub record EventProcessorManager : Type 0 where
  pub state_store : EventConsumerStateStore
  pub consumed_events : ℕ
  pub processed_events : ℕ

unfoldable pub new_manager : EventConsumerStateStore → EventProcessorManager
new_manager state_store = record {
  state_store = state_store;
  consumed_events = 0;
  processed_events = 0;
}

unfoldable pub increment_consumed : EventProcessorManager → EventProcessorManager
increment_consumed self = record self { consumed_events = suc self.consumed_events }

-- What a run has come to, with all that it works on.
pub record Run (World : Type 0) : Type 0 where
  pub result : Result (Unit {0})
  pub world : World
  pub manager : EventProcessorManager
  pub adapter : Adapter

module _ (converter : EventConsumerStateConverter SerialisedEvent) where
  -- `acknowledge`, of one event
  unfoldable pub acknowledge : EventProcessorManager → SerialisedEvent → EventProcessorManager
  unfolding record_processed
  acknowledge self event = record self {
    state_store = record_processed converter self.state_store event none "default";
    processed_events = suc self.processed_events;
  }

  -- `acknowledge`, of several
  unfoldable pub acknowledge_all :
      EventProcessorManager → List SerialisedEvent → EventProcessorManager
  unfolding acknowledge
  acknowledge_all self [] = self
  acknowledge_all self (event ∷ events) = acknowledge_all (acknowledge self event) events

  module _ (uuid4_hex : ℕ → String) (now : Datetime) where
    unfoldable pub commit :
        EventProcessorManager → Bool → Adapter → Result (Unit {0}) × EventProcessorManager × Adapter
    unfolding save save_if_needed
    commit self force a =
        let (result, store, a') =
          if force
          then save uuid4_hex now self.state_store none a
          else save_if_needed uuid4_hex now self.state_store "default" a in
        (result, record self { state_store = store }, a')

    module _ {World : Type 0}
        (process_event : SerialisedEvent → World → Result (Unit {0}) × World) where
      -- What the generators do before the next event.
      unfoldable pub after_event :
          Result (Unit {0}) × EventProcessorManager × Adapter
          → World
          → (World → EventProcessorManager → Adapter → Run World)
          → Run World
      unfolding increment_consumed
      after_event (ok u, manager, a) world next = next world (increment_consumed manager) a
      after_event (err e, manager, a) world next = record {
        result = err e;
        world = world;
        manager = manager;
        adapter = a;
      }

      -- What the processor has come to at an event, before the rest of the events.
      unfoldable pub at_event :
          EventProcessorManager
          → SerialisedEvent
          → Adapter
          → Result (Unit {0}) × World
          → (World → EventProcessorManager → Adapter → Run World)
          → Run World
      unfolding acknowledge commit after_event
      at_event manager event a (err e, world) next = record {
        result = err e;
        world = world;
        manager = manager;
        adapter = a;
      }
      at_event manager event a (ok u, world) next =
          after_event (commit (acknowledge manager event) false a) world next

      -- The loop of `process_callback_event_iterator`; `ended` is how the source's iterator ends.
      unfoldable pub process_events :
          Result (Unit {0})
          → List SerialisedEvent
          → World
          → EventProcessorManager
          → Adapter
          → Run World
      unfolding at_event
      process_events ended [] world manager a = record {
        result = ended;
        world = world;
        manager = manager;
        adapter = a;
      }
      process_events ended (event ∷ events) world manager a =
          at_event manager event a (process_event event world)
            (λ w m a'. process_events ended events w m a')

      -- The save after the loop.
      unfoldable pub save_after : Bool → Run World → Run World
      unfolding commit
      save_after save_state_after_consumption run = elim run.result [
        | err e ↦ run
        | ok u ↦
            if save_state_after_consumption
            then (let (result, manager, a) = commit run.manager true run.adapter in
                record { result = result; world = run.world; manager = manager; adapter = a })
            else run
      ]

      -- `EventSourceConsumer.consume_all` with a callback processor, over a source that is read by
      -- `iterate`
      unfoldable pub consume_all :
          (List QueryConstraint → Adapter → Scan)
          → Bool
          → World
          → EventConsumerStateStore
          → Adapter
          → Run World
      unfolding load_to_query_constraint new_manager process_events save_after
      consume_all iterate save_state_after_consumption world state_store a =
          let (constraint, store, a') =
            load_to_query_constraint converter state_store "default" a in
          elim constraint [
            | err e ↦ record {
              result = err e;
              world = world;
              manager = new_manager store;
              adapter = a';
            }
            | ok constraint ↦
                let constraints : List QueryConstraint = elim constraint [
                  | none ↦ []
                  | some c ↦ c ∷ []
                ] in
                let scan = iterate constraints a' in
                save_after save_state_after_consumption
                  (process_events scan.ended scan.yielded world (new_manager store) a')
          ]
