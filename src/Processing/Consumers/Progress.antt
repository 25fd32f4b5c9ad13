-- ===== src/Processing/Consumers/Progress.antt =====
-- A consumer against its processor alone: what is recorded is what the processor has handled.
use mathlib.Core.List.{append-nil}
use event_store.Prelude.{
  string_eq, ◌++◌, suc, length-append, ℕ, ◌+◌, ◌<◌, ◌≡◌, refl, sym, ap, subst, inl, inr, ◌∙◌,
  String, false, Option, none, some, List, [], ◌∷◌, arith, length, Result, ok,
}
use event_store.Types.Event.{Datetime, SerialisedEvent}
use event_store.Store.Db.Represents.{Log}
use event_store.Store.Adapter.{Adapter}
use event_store.Store.Adapter.Specification.{IsValid}
use event_store.Processing.Consumers.{
  EventConsumerState, EventConsumerStateStore, EventConsumerStateConverter, get_or_none, lag, load,
  record_processed, save_if_needed,
}
use event_store.Processing.Consumers.Consuming.{
  EventProcessorManager, increment_consumed, Run, acknowledge, commit, after_event, at_event,
  process_events,
}
use event_store.Processing.Consumers.Saving.{IsCurrent}
use event_store.Processing.Consumers.Lags.{save_if_needed-lag}
use event_store.Processing.Consumers.Alone.{
  Handled, handle_first, handled, Pair-cases, ending, OnlyDefault, OnlyDefault-assign, state_of,
  state_after, state_after-append, Saves, Saves-none, Saves-step,
}

module _ (converter : EventConsumerStateConverter SerialisedEvent) where
  module _ (fresh : EventConsumerStateStore) (interval : ℕ) where
    -- A store of a consumer over an adapter from which `fresh` loads this state, and which has
    -- recorded these events since.
    pub record IsReady (store : EventConsumerStateStore) (a : Adapter)
        (base : Option EventConsumerState) (unsaved : List SerialisedEvent) : Type 0 where
      pub saved_log : Log
      pub valid : IsValid a saved_log
      pub current : IsCurrent store "default" saved_log
      pub known : store.persistence_interval ≡ some interval
      pub same : fresh.category ≡ store.category
      pub only : OnlyDefault store.persistence_lags
      pub loaded : (load fresh "default" a).0 ≡ ok base
      pub state : get_or_none store.states "default" ≡ state_after converter base unsaved
      pub behind : lag store "default" ≡ length unsaved
      pub below : length unsaved < interval

    -- Where a store is after some more events.
    pub record Later (store : EventConsumerStateStore) (a : Adapter)
        (base : Option EventConsumerState) (unsaved events : List SerialisedEvent) : Type 0 where
      pub base' : Option EventConsumerState
      pub unsaved' : List SerialisedEvent
      pub saves : Saves converter base unsaved events base' unsaved'
      pub ready : IsReady store a base' unsaved'

    module _ (uuid4_hex : ℕ → String) (now : Datetime) where
      -- Recording one event and saving if needed.
      record-Later :
          (store : EventConsumerStateStore) (a : Adapter) (base : Option EventConsumerState)
          (unsaved : List SerialisedEvent) (event : SerialisedEvent)
          → 0 < interval
          → get_or_none fresh.states "default" ≡ none
          → IsReady store a base unsaved
          → (store' : EventConsumerStateStore) × (a' : Adapter) × (save_if_needed uuid4_hex now
                (record_processed converter store event none "default")
                "default"
                a
              ≡ (ok tt, store', a'))
            × Later store' a' base unsaved (event ∷ [])
      record-Later store a base unsaved event positive unloaded ready =
          let (store', a', l', n, saved, state, known, category, lags, valid, current, how) =
            save_if_needed-lag uuid4_hex now converter store fresh event none "default" a
              ready.saved_log interval ready.known positive ready.valid ready.current ready.same
              unloaded in
          let only : OnlyDefault store'.persistence_lags = subst OnlyDefault (sym lags) (
            OnlyDefault-assign n _
              (OnlyDefault-assign (suc (lag store "default")) store.persistence_lags ready.only)) in
          let size : length (unsaved ++ event ∷ []) ≡ suc (length unsaved) =
            omega (arith, length-append unsaved (event ∷ [])) in
          elim how [
            | inl (_, none_behind, loaded) ↦ (
              store',
              a',
              saved,
              record {
                base' = some (state_of converter event);
                unsaved' = [];
                saves = (
                  unsaved ++ event ∷ [],
                  sym (append-nil (unsaved ++ event ∷ [])),
                  sym (state_after-append converter base unsaved (event ∷ [])),
                );
                ready = record {
                  saved_log = l';
                  valid = valid;
                  current = current;
                  known = known;
                  same = ready.same ∙ sym category;
                  only = only;
                  loaded = loaded;
                  state = state;
                  behind = none_behind;
                  below = positive;
                };
              },
            )
            | inr (early, one_more, unchanged) ↦ (
              store',
              a',
              saved,
              record {
                base' = base;
                unsaved' = unsaved ++ event ∷ [];
                saves = ([], refl, refl);
                ready = record {
                  saved_log = l';
                  valid = valid;
                  current = current;
                  known = known;
                  same = ready.same ∙ sym category;
                  only = only;
                  loaded =
                      ap (λ (x : Adapter). (load fresh "default" x).0) unchanged ∙ ready.loaded;
                  state = state ∙ sym (state_after-append converter base unsaved (event ∷ []));
                  behind = omega (arith, one_more, ready.behind, size);
                  below = omega (arith, early, ready.behind, size);
                };
              },
            )
          ]

      module _ {World : Type 0}
          (process_event : SerialisedEvent → World → Result (Unit {0}) × World) where
        -- What a run of the loop has done, next to what the processor does by itself.
        pub record Agrees (ended : Result (Unit {0})) (m : EventProcessorManager)
            (base : Option EventConsumerState) (unsaved : List SerialisedEvent) (h : Handled World)
            (r : Run World) : Type 0 where
          pub result : r.result ≡ ending ended h.failure
          pub world : r.world ≡ h.world
          pub counted : r.manager.processed_events ≡ m.processed_events + length h.events
          pub later : Later r.manager.state_store r.adapter base unsaved h.events

        commit-saved :
            (m : EventProcessorManager) (store' : EventConsumerStateStore) (a a' : Adapter)
            → save_if_needed uuid4_hex now m.state_store "default" a ≡ (ok tt, store', a')
            → commit converter uuid4_hex now m false a
              ≡ (ok tt, record m { state_store = store' }, a')
        unfolding commit
        commit-saved m store' a a' h = ap (λ o. (o.0, record m { state_store = o.1 }, o.2)) h

        -- An event that the processor has handled is recorded, and what is needed is saved.
        record-Agrees :
            (ended : Result (Unit {0})) (event : SerialisedEvent) (w : World) (h : Handled World)
            (m : EventProcessorManager) (a : Adapter) (base : Option EventConsumerState)
            (unsaved : List SerialisedEvent)
            (rest : World → EventProcessorManager → Adapter → Run World)
            → 0 < interval
            → get_or_none fresh.states "default" ≡ none
            → IsReady m.state_store a base unsaved
            → ((m' : EventProcessorManager) (a' : Adapter) (base' : Option EventConsumerState)
                  (unsaved' : List SerialisedEvent)
                → IsReady m'.state_store a' base' unsaved'
                → Agrees ended m' base' unsaved' h (rest w m' a'))
            → Agrees ended m base unsaved
                (record h { events = event ∷ h.events })
                (at_event converter uuid4_hex now process_event m event a (ok tt, w) rest)
        unfolding at_event after_event acknowledge increment_consumed
        record-Agrees ended event w h m a base unsaved rest positive unloaded ready next =
            let (store', a', saved, one) =
              record-Later m.state_store a base unsaved event positive unloaded ready in
            let committed = commit-saved (acknowledge converter m event) store' a a' saved in
            let m' : EventProcessorManager =
              increment_consumed
                (record (acknowledge converter m event) { state_store = store' }) in
            let rest_agrees = next m' a' one.base' one.unsaved' one.ready in
            subst (λ r. Agrees ended m base unsaved (record h { events = event ∷ h.events }) r)
              (sym (ap (λ o. after_event converter uuid4_hex now process_event o w rest) committed))
              (record {
                result = rest_agrees.result;
                world = rest_agrees.world;
                counted = omega (arith, rest_agrees.counted);
                later = record {
                  base' = rest_agrees.later.base';
                  unsaved' = rest_agrees.later.unsaved';
                  saves =
                      Saves-step converter base one.base' rest_agrees.later.base' unsaved
                        one.unsaved' rest_agrees.later.unsaved' h.events event one.saves
                        rest_agrees.later.saves;
                  ready = rest_agrees.later.ready;
                };
              })

        -- The loop of a consumer.
        pub process_events-Agrees :
            (ended : Result (Unit {0})) (events : List SerialisedEvent) (world : World)
            (m : EventProcessorManager) (a : Adapter) (base : Option EventConsumerState)
            (unsaved : List SerialisedEvent)
            → 0 < interval
            → get_or_none fresh.states "default" ≡ none
            → IsReady m.state_store a base unsaved
            → Agrees ended m base unsaved
                (handled process_event events world)
                (process_events converter uuid4_hex now process_event ended events world m a)
        unfolding process_events at_event
        process_events-Agrees ended [] world m a base unsaved positive unloaded ready = record {
          result = refl;
          world = refl;
          counted = omega arith;
          later = record {
            base' = base;
            unsaved' = unsaved;
            saves = Saves-none converter base unsaved;
            ready = ready;
          };
        }
        process_events-Agrees ended (event ∷ events) world m a base unsaved positive unloaded
              ready =
            let family = λ (x : Result (Unit {0}) × World).
              Agrees ended m base unsaved
                (handle_first event x (λ w. handled process_event events w))
                (at_event converter uuid4_hex now process_event m event a x (λ w m' a'.
                  process_events converter uuid4_hex now process_event ended events w m' a')) in
            elim (Pair-cases (process_event event world)) [
              | inl (w, e) ↦ subst family (sym e) (
                  record-Agrees ended event w (handled process_event events w) m a base unsaved _
                    positive unloaded ready
                    (λ m' a' base' unsaved' ready'.
                      process_events-Agrees ended events w m' a' base' unsaved' positive unloaded
                        ready'))
              | inr (x, w, e) ↦ subst family (sym e) (record {
                result = refl;
                world = refl;
                counted = omega arith;
                later = record {
                  base' = base;
                  unsaved' = unsaved;
                  saves = Saves-none converter base unsaved;
                  ready = ready;
                };
              })
            ]
