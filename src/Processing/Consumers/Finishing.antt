-- ===== src/Processing/Consumers/Finishing.antt =====
-- The save of all that a consumer has recorded.
use event_store.Prelude.{
  ℕ, ◌≡◌, refl, sym, ap, ◌∙◌, inl, inr, String, string_eq, Option, none, some, List, [], ◌∷◌, arith,
  map, ok, Option-cases, Dict, lookup,
}
use event_store.Types.Event.{Datetime, SerialisedEvent}
use event_store.Store.Db.Represents.{Log}
use event_store.Store.Adapter.{Adapter}
use event_store.Store.Adapter.Specification.{IsValid}
use event_store.Processing.Consumers.{
  EventConsumerState, EventConsumerStateStore, EventConsumerStateConverter, Outcome, get_or_none,
  lag, read_lag, load, save, save_partition, save_partitions,
}
use event_store.Processing.Consumers.Loading.{save_partition-load}
use event_store.Processing.Consumers.Lags.{after_one}
use event_store.Processing.Consumers.Alone.{OnlyDefault, state_of, state_after}
use event_store.Processing.Consumers.Progress.{IsReady}

module _ (converter : EventConsumerStateConverter SerialisedEvent) where
  state_after-some :
      (event : SerialisedEvent) (events : List SerialisedEvent) (old : Option EventConsumerState)
      → (state : EventConsumerState) × (state_after converter old (event ∷ events) ≡ some state)
  state_after-some event [] old = (state_of converter event, refl)
  state_after-some event (next ∷ events) old =
      state_after-some next events (some (state_of converter event))

  module _ (fresh : EventConsumerStateStore) (interval : ℕ) (uuid4_hex : ℕ → String)
      (now : Datetime) where
    -- A save that raises nothing, after which `fresh` loads this state.
    abbrev pub Finished : Option EventConsumerState → Outcome (Unit {0}) → Type 0
    Finished state call =
        (store : EventConsumerStateStore) × (a : Adapter) × (l : Log) × (call ≡ (ok tt, store, a))
        × IsValid a l
        × ((load fresh "default" a).0 ≡ ok state)

    save_partition-idle :
        (store : EventConsumerStateStore) (a : Adapter)
        → lag store "default" ≡ 0
        → (store' : EventConsumerStateStore) × (save_partition uuid4_hex now store "default" a
            ≡ (ok tt, store', a))
    unfolding save_partition
    save_partition-idle store a idle = elim (Option-cases (get_or_none store.states "default")) [
      | inl e ↦ (store, rw (e, save_partition) refl)
      | inr (state, e) ↦ (read_lag store "default", rw (e, save_partition) (rw idle refl))
    ]

    save_partition-Finished :
        (store : EventConsumerStateStore) (a : Adapter) (base : Option EventConsumerState)
        (unsaved : List SerialisedEvent)
        → get_or_none fresh.states "default" ≡ none
        → IsReady converter fresh interval store a base unsaved
        → Finished
            (state_after converter base unsaved)
            (save_partition uuid4_hex now store "default" a)
    save_partition-Finished store a base [] unloaded ready =
        let (store', same) = save_partition-idle store a ready.behind in
        (store', a, ready.saved_log, same, ready.valid, ready.loaded)
    save_partition-Finished store a base (event ∷ events) unloaded ready =
        let (state, there) = state_after-some event events base in
        let (store', a', l', saved, _, _, _, _, _, valid, _, loaded) =
          save_partition-load uuid4_hex now store fresh "default" a ready.saved_log state
            ready.valid ready.current (ready.state ∙ there) (ground (arith, ready.behind))
            ready.same unloaded in
        (store', a', l', saved, valid, loaded ∙ ap ok (sym there))

    pub save_all-Finished :
        (store : EventConsumerStateStore) (a : Adapter) (base : Option EventConsumerState)
        (unsaved : List SerialisedEvent) (lags : Dict String ℕ)
        → store.persistence_lags ≡ lags
        → OnlyDefault lags
        → get_or_none fresh.states "default" ≡ none
        → IsReady converter fresh interval store a base unsaved
        → Finished (state_after converter base unsaved) (save uuid4_hex now store none a)
    unfolding save save_partitions lag
    save_all-Finished store a base [] [] same only unloaded ready = (
      store,
      a,
      ready.saved_log,
      ap (λ (d : Dict String ℕ). save_partitions uuid4_hex now store (map (λ entry. entry.0) d) a)
          same,
      ready.valid,
      ready.loaded,
    )
    save_all-Finished store a base (event ∷ events) [] same only unloaded ready =
        let none_behind : lag store "default" ≡ 0 =
          ap (λ (d : Dict String ℕ). elim (lookup "default" d) [ none ↦ 0 | some n ↦ n ]) same in
        absurd (omega (arith, none_behind, ready.behind))
    save_all-Finished store a base unsaved ((k, n) ∷ []) same only unloaded ready =
        let (store', a', l', saved, valid, loaded) =
          save_partition-Finished store a base unsaved unloaded ready in
        (
          store',
          a',
          l',
          ap
                (λ (d : Dict String ℕ).
                  save_partitions uuid4_hex now store (map (λ entry. entry.0) d) a)
                same
              ∙ ap (λ name. save_partitions uuid4_hex now store (name ∷ []) a) only
              ∙ ap (after_one uuid4_hex now) saved,
          valid,
          loaded,
        )
    save_all-Finished store a base unsaved (x ∷ y ∷ lags) same only unloaded ready = absurd only
