-- ===== src/Processing/Consumers/Running.antt =====
-- A whole run of a consumer with a new store, to the save at its end.
use mathlib.Core.List.{append-nil}
use event_store.Prelude.{
  Bool-cases, Error, if◌then◌else◌, ◌>>=◌, ℕ, ◌<◌, ◌≡◌, ◌≢◌, refl, sym, ap, ◌∙◌, subst, inl, inr,
  String, string_eq, Bool, true, false, Option, none, some, List, [], ◌∷◌, ◌++◌, arith, length,
  Result, ok, err, Result-cases,
}
use event_store.Types.Event.{Datetime, SerialisedEvent}
use event_store.Sources.{QueryConstraint}
use event_store.Store.Db.{Scan}
use event_store.Store.Db.Represents.{Log}
use event_store.Store.Adapter.{Adapter}
use event_store.Store.Adapter.Specification.{IsValid}
use event_store.Store.EventCategory.{EventCategory}
use event_store.Processing.Consumers.{
  EventConsumerState, EventConsumerStateStore, EventConsumerStateConverter, Outcome, new_store,
  get_or_none, load, load_to_query_constraint, loaded_constraint,
}
use event_store.Processing.Consumers.Consuming.{
  EventProcessorManager, new_manager, Run, commit, process_events, save_after, consume_all,
}
use event_store.Processing.Consumers.Alone.{state_after-append, handled, ending, state_after}
use event_store.Processing.Consumers.Progress.{Agrees, process_events-Agrees}
use event_store.Processing.Consumers.Starting.{load-IsReady}
use event_store.Processing.Consumers.Finishing.{save_all-Finished}

module _ (converter : EventConsumerStateConverter SerialisedEvent) where
  -- The constraints that a consumer with this state gives its source.
  abbrev pub constraints_of : Option EventConsumerState → List QueryConstraint
  constraints_of state = elim (loaded_constraint converter state) [ none ↦ [] | some c ↦ c ∷ [] ]

  module _ (uuid4_hex : ℕ → String) (now : Datetime) {World : Type 0}
      (process_event : SerialisedEvent → World → Result (Unit {0}) × World)
      (iterate : List QueryConstraint → Adapter → Scan) (save_state_after_consumption : Bool)
      (fresh : EventConsumerStateStore) (interval : ℕ) where
    -- What a run has done, next to what the processor by itself makes of the events that the source
    -- has for the constraints of the saved state.
    pub record Consumes (base : Option EventConsumerState) (scan : Scan) (start : World)
        (r : Run World) : Type 0 where
      pub result : r.result ≡ ending scan.ended (handled process_event scan.yielded start).failure
      pub world : r.world ≡ (handled process_event scan.yielded start).world
      pub counted :
          r.manager.processed_events ≡ length (handled process_event scan.yielded start).events
      -- the events up to the state that is saved, and those after it
      pub saved : List SerialisedEvent
      pub unsaved : List SerialisedEvent
      pub split : (handled process_event scan.yielded start).events ≡ saved ++ unsaved
      pub below : length unsaved < interval
      pub all_saved : save_state_after_consumption ≡ true → r.result ≡ ok tt → unsaved ≡ []
      pub loaded : (load fresh "default" r.adapter).0 ≡ ok (state_after converter base saved)
      pub log : Log
      pub valid : IsValid r.adapter log

    -- Without the last save.
    unsaved-Consumes :
        (base : Option EventConsumerState) (scan : Scan) (world : World) (m : EventProcessorManager)
        (r : Run World)
        → m.processed_events ≡ 0
        → Agrees converter fresh interval uuid4_hex now process_event scan.ended m base []
            (handled process_event scan.yielded world)
            r
        → (save_state_after_consumption ≡ true → r.result ≢ ok tt)
        → Consumes base scan world r
    unsaved-Consumes base scan world m r zero_counted h early =
        let (saved, split, reached) = h.later.saves in
        record {
          result = h.result;
          world = h.world;
          counted = omega (arith, h.counted, zero_counted);
          saved = saved;
          unsaved = h.later.unsaved';
          split = split;
          below = h.later.ready.below;
          all_saved = λ asked done. absurd (early asked done);
          loaded = h.later.ready.loaded ∙ ap ok reached;
          log = h.later.ready.saved_log;
          valid = h.later.ready.valid;
        }

    -- With it.
    saved-Consumes :
        (base : Option EventConsumerState) (scan : Scan) (world : World) (m : EventProcessorManager)
        (r : Run World)
        → 0 < interval
        → m.processed_events ≡ 0
        → get_or_none fresh.states "default" ≡ none
        → r.result ≡ ok tt
        → Agrees converter fresh interval uuid4_hex now process_event scan.ended m base []
            (handled process_event scan.yielded world)
            r
        → Consumes base scan world (
            let (result, manager, a) = commit converter uuid4_hex now r.manager true r.adapter in
            record { result = result; world = r.world; manager = manager; adapter = a })
    unfolding commit
    saved-Consumes base scan world m r positive zero_counted unloaded done h =
        let (saved, split, reached) = h.later.saves in
        let events = (handled process_event scan.yielded world).events in
        let (store, a, l, call, valid, loaded) =
          save_all-Finished converter fresh interval uuid4_hex now r.manager.state_store r.adapter
            h.later.base' h.later.unsaved' r.manager.state_store.persistence_lags refl
            h.later.ready.only unloaded h.later.ready in
        let finished : Outcome (Unit {0}) → Run World = λ o. record {
          result = o.0;
          world = r.world;
          manager = record (r.manager) { state_store = o.1 };
          adapter = o.2;
        } in
        subst (Consumes base scan world) (ap finished (sym call)) (record {
          result = sym done ∙ h.result;
          world = h.world;
          counted = omega (arith, h.counted, zero_counted);
          saved = events;
          unsaved = [];
          split = sym (append-nil events);
          below = positive;
          all_saved = λ asked done. refl;
          loaded =
              loaded
              ∙ ap ok (
                  ap (λ b. state_after converter b h.later.unsaved') reached
                  ∙ sym (state_after-append converter base saved h.later.unsaved')
                  ∙ ap (state_after converter base) (sym split));
          log = l;
          valid = valid;
        })

    -- The run that the last save leaves.
    abbrev with_save : Run World → Run World
    with_save r =
        let (result, manager, a) = commit converter uuid4_hex now r.manager true r.adapter in
        record { result = result; world = r.world; manager = manager; adapter = a }

    abbrev ended_by : Bool → Run World → Run World
    ended_by asked r = save_after converter uuid4_hex now process_event asked r

    abbrev ending_of : Bool → Run World → Result (Unit {0}) → Run World
    ending_of asked r (err e) = r
    ending_of asked r (ok u) = if asked then with_save r else r

    save_after-failed :
        (asked : Bool) (r : Run World) (e : Error) → r.result ≡ err e → ended_by asked r ≡ r
    unfolding save_after
    save_after-failed asked r e h = ap (ending_of asked r) h

    save_after-asked :
        (r : Run World) (u : Unit {0}) → r.result ≡ ok u → ended_by true r ≡ with_save r
    unfolding save_after
    save_after-asked r u h = ap (ending_of true r) h

    save_after-unasked : (r : Run World) (u : Unit {0}) → r.result ≡ ok u → ended_by false r ≡ r
    unfolding save_after
    save_after-unasked r u h = ap (ending_of false r) h

    -- The end of a run, with the save or without.
    save_after-Consumes :
        (base : Option EventConsumerState) (scan : Scan) (world : World) (m : EventProcessorManager)
        (r : Run World)
        → 0 < interval
        → m.processed_events ≡ 0
        → get_or_none fresh.states "default" ≡ none
        → Agrees converter fresh interval uuid4_hex now process_event scan.ended m base []
            (handled process_event scan.yielded world)
            r
        → Consumes base scan world (ended_by save_state_after_consumption r)
    save_after-Consumes base scan world m r positive zero_counted unloaded h =
        let same_flag =
          λ (b : Bool) (e : save_state_after_consumption ≡ b). ap (λ asked. ended_by asked r) e in
        elim (Result-cases r.result) [
          | inr (x, failed) ↦
              subst (Consumes base scan world)
                (sym (save_after-failed save_state_after_consumption r x failed))
                (unsaved-Consumes base scan world m r zero_counted h
                  (λ _ done. ground (arith, failed, done)))
          | inl (u, done) ↦ elim (Bool-cases save_state_after_consumption) [
            | inl asked ↦
                subst (Consumes base scan world)
                  (sym (same_flag true asked ∙ save_after-asked r u done))
                  (saved-Consumes base scan world m r positive zero_counted unloaded done h)
            | inr unasked ↦
                subst (Consumes base scan world)
                  (sym (same_flag false unasked ∙ save_after-unasked r u done))
                  (unsaved-Consumes base scan world m r zero_counted h
                    (λ asked _. ground (arith, asked, unasked)))
          ]
        ]

  -- `consume_all` from what its first call comes to.
  abbrev consume_loaded :
      {World : Type 0}
      → (ℕ → String)
      → Datetime
      → (SerialisedEvent → World → Result (Unit {0}) × World)
      → (List QueryConstraint → Adapter → Scan)
      → Bool
      → World
      → Outcome (Option EventConsumerState)
      → Run World
  consume_loaded uuid4_hex now process_event iterate asked world (loaded, store, a) =
      elim (loaded >>= λ state. ok (loaded_constraint converter state)) [
        | err e ↦ record { result = err e; world = world; manager = new_manager store; adapter = a }
        | ok constraint ↦
            let constraints : List QueryConstraint = elim constraint [
              | none ↦ []
              | some c ↦ c ∷ []
            ] in
            let scan = iterate constraints a in
            save_after converter uuid4_hex now process_event asked (
              process_events converter uuid4_hex now process_event scan.ended scan.yielded world
                (new_manager store) a)
      ]

  consume_all-eq :
      {World : Type 0} (uuid4_hex : ℕ → String) (now : Datetime)
      (process_event : SerialisedEvent → World → Result (Unit {0}) × World)
      (iterate : List QueryConstraint → Adapter → Scan) (asked : Bool) (world : World)
      (store store' : EventConsumerStateStore) (a a' : Adapter) (base : Option EventConsumerState)
      → load store "default" a ≡ (ok base, store', a')
      → consume_all converter uuid4_hex now process_event iterate asked world store a
        ≡ consume_loaded uuid4_hex now process_event iterate asked world (ok base, store', a')
  unfolding consume_all load_to_query_constraint
  consume_all-eq uuid4_hex now process_event iterate asked world store store' a a' base h =
      ap (consume_loaded uuid4_hex now process_event iterate asked world) h

-- A run of a consumer with a new store that has an interval which is not 0, over a valid adapter, from
-- which the store loads a state or none. It gives the processor the events that the source has for
-- the constraint of that state, leaves the world that the processor alone leaves, ends as the
-- source's iterator does or with the processor's exception, and counts the events that the processor
-- handled. It leaves a valid adapter, from which a new store loads the state of one of these events,
-- or the one before them, and fewer of them than the interval come after that event; none does, if
-- the run ends without an exception and is to save at its end.
pub consume_all-Consumes :
    (converter : EventConsumerStateConverter SerialisedEvent) (uuid4_hex : ℕ → String)
    (now : Datetime) {World : Type 0}
    (process_event : SerialisedEvent → World → Result (Unit {0}) × World)
    (iterate : List QueryConstraint → Adapter → Scan) (save_state_after_consumption : Bool)
    (category : EventCategory) (interval : ℕ) (world : World) (a : Adapter) (l : Log)
    (base : Option EventConsumerState)
    → 0 < interval
    → IsValid a l
    → (load (new_store category (some interval)) "default" a).0 ≡ ok base
    → Consumes converter uuid4_hex now process_event iterate save_state_after_consumption
        (new_store category (some interval))
        interval
        base
        (iterate (constraints_of converter base) a)
        world
        (consume_all converter uuid4_hex now process_event iterate save_state_after_consumption
          world
          (new_store category (some interval))
          a)
unfolding new_store get_or_none new_manager
consume_all-Consumes converter uuid4_hex now process_event iterate asked category interval world a l
      base positive v loaded =
    let fresh = new_store category (some interval) in
    let (store, loads, ready) =
      load-IsReady converter category interval a l base positive v loaded in
    let scan = iterate (constraints_of converter base) a in
    let consumed =
      consume_all-eq converter uuid4_hex now process_event iterate asked world fresh store a a base
        loads in
    subst
      (Consumes converter uuid4_hex now process_event iterate asked fresh interval base scan world)
      (sym consumed)
      (save_after-Consumes converter uuid4_hex now process_event iterate asked fresh interval base
        scan world (new_manager store) _ positive refl refl
        (process_events-Agrees converter fresh interval uuid4_hex now process_event scan.ended
          scan.yielded world (new_manager store) a base [] positive refl ready))
