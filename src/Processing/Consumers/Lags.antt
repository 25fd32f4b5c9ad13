-- ===== src/Processing/Consumers/Lags.antt =====
-- How far the saved state of a consumer can be behind.
use event_store.Prelude.{
  suc, ◌≤◌, ◌⊎◌, ℕ, ◌<◌, ◌≡◌, refl, ap, ◌∙◌, String, string_eq, true, false, Option, none, some,
  arith, lookup, assign, lookup-assign, beq_refl, nat_beq, leb, ok, err, Bool-cases, inl, inr, Dict,
}
use event_store.Types.Json.{JsonObject}
use event_store.Types.Event.{Datetime}
use event_store.Store.Db.Represents.{Log}
use event_store.Store.Adapter.{Adapter}
use event_store.Store.Adapter.Specification.{IsValid}
use event_store.Processing.Consumers.{
  EventConsumerState, EventConsumerStateStore, EventConsumerStateConverter, get_or_none, lag,
  read_lag, with_extra, record_processed, save_partition, save_partitions, save, save_if_needed,
  save_if_due, load, Outcome,
}
use event_store.Processing.Consumers.Saving.{IsCurrent}
use event_store.Processing.Consumers.Loading.{save_partition-load, get_or_none-assign}

lag-found :
    (self : EventConsumerStateStore) (partition : String) (n : ℕ)
    → lookup partition self.persistence_lags ≡ some n
    → lag self partition ≡ n
unfolding lag
lag-found self partition n h = rw (h, lag) refl

lookup-assigned :
    {V : Type 0} (k : String) (v : V) (d : Dict String V) → lookup k (assign k v d) ≡ some v
lookup-assigned k v d = lookup-assign k v d k ∙ (rw (beq_refl k) refl)

lag-record_processed :
    {E : Type 0} (converter : EventConsumerStateConverter E) (self : EventConsumerStateStore)
    (event : E) (extra_state : Option JsonObject) (partition : String)
    → lag (record_processed converter self event extra_state partition) partition
      ≡ suc (lag self partition)
unfolding record_processed
lag-record_processed converter self event extra_state partition =
    lag-found (record_processed converter self event extra_state partition) partition
      (suc (lag self partition))
      (lookup-assigned partition (suc (lag self partition)) self.persistence_lags)

lag-read_lag :
    (self : EventConsumerStateStore) (partition : String)
    → lag (read_lag self partition) partition ≡ lag self partition
unfolding read_lag
lag-read_lag self partition =
    lag-found (read_lag self partition) partition (lag self partition)
      (lookup-assigned partition (lag self partition) self.persistence_lags)

positive_ne : (n : ℕ) → 0 < n → nat_beq n 0 ≡ false
positive_ne n h = ground arith

module _ (uuid4_hex : ℕ → String) (now : Datetime) where
  -- The loop of `save` over one partition, from what its turn comes to.
  abbrev pub after_one : Outcome (Unit {0}) → Outcome (Unit {0})
  after_one (result, self', a') = elim result [
    | ok u ↦ (ok tt, self', a')
    | err e ↦ (err e, self', a')
  ]

  save_if_due-due :
      (interval : ℕ) (self : EventConsumerStateStore) (partition : String) (a : Adapter)
      → 0 < interval
      → leb interval (lag self partition) ≡ true
      → save_if_due uuid4_hex now (some interval) self partition a
        ≡ save uuid4_hex now self (some partition) a
  unfolding save_if_due
  save_if_due-due interval self partition a positive due =
      rw (positive_ne interval positive, save_if_due) (rw due refl)

  save_if_due-early :
      (interval : ℕ) (self : EventConsumerStateStore) (partition : String) (a : Adapter)
      → 0 < interval
      → leb interval (lag self partition) ≡ false
      → save_if_due uuid4_hex now (some interval) self partition a
        ≡ (ok tt, read_lag self partition, a)
  unfolding save_if_due
  save_if_due-early interval self partition a positive early =
      rw (positive_ne interval positive, save_if_due) (rw early refl)

  save-one :
      (self self' : EventConsumerStateStore) (partition : String) (a a' : Adapter)
      → save_partition uuid4_hex now self partition a ≡ (ok tt, self', a')
      → save uuid4_hex now self (some partition) a ≡ (ok tt, self', a')
  unfolding save save_partitions
  save-one self self' partition a a' h = ap after_one h

  -- Recording an event that was processed and then saving if needed, in a store with a persistence
  -- interval that is not 0, which knows no position or the latest one, over a valid adapter: it
  -- raises nothing, and leaves a valid adapter, the latest position and the state of the event. If
  -- the event is the last of an interval since the last save, that state is saved: a store of the
  -- same category that has not loaded the partition loads it, and no event is unsaved. Else nothing
  -- is saved, and one more event is unsaved. No lag of another partition changes.
  pub save_if_needed-lag :
      {E : Type 0} (converter : EventConsumerStateConverter E)
      (self fresh : EventConsumerStateStore) (event : E) (extra_state : Option JsonObject)
      (partition : String) (a : Adapter) (l : Log) (interval : ℕ)
      → self.persistence_interval ≡ some interval
      → 0 < interval
      → IsValid a l
      → IsCurrent self partition l
      → fresh.category ≡ self.category
      → get_or_none fresh.states partition ≡ none
      → let state : EventConsumerState = record {
        state = with_extra (converter.event_to_state event) extra_state;
      } in
        (self' : EventConsumerStateStore) × (a' : Adapter) × (l' : Log) × (n : ℕ) × (save_if_needed
            uuid4_hex now
            (record_processed converter self event extra_state partition)
            partition
            a
          ≡ (ok tt, self', a'))
        × (get_or_none self'.states partition ≡ some state)
        × (self'.persistence_interval ≡ some interval)
        × (self'.category ≡ self.category)
        × (self'.persistence_lags
            ≡ assign partition n
                (assign partition (suc (lag self partition)) self.persistence_lags))
        × IsValid a' l'
        × IsCurrent self' partition l'
        × ((interval ≤ suc (lag self partition))
              × (lag self' partition ≡ 0)
              × ((load fresh partition a').0 ≡ ok (some state))
            ⊎ (suc (lag self partition) < interval)
              × (lag self' partition ≡ suc (lag self partition))
              × (a' ≡ a))
  unfolding save_if_needed record_processed read_lag
  save_if_needed-lag converter self fresh event extra_state partition a l interval known positive v
        current same unloaded =
      let self1 = record_processed converter self event extra_state partition in
      let state : EventConsumerState = record {
        state = with_extra (converter.event_to_state event) extra_state;
      } in
      let one_more = lag-record_processed converter self event extra_state partition in
      elim (Bool-cases (leb interval (lag self1 partition))) [
        | inl due ↦
            let (
              self', a', l', saved, none_behind, kept, interval_same, category_same, lags, v',
              current', loaded,
            ) =
              save_partition-load uuid4_hex now self1 fresh partition a l state v current
                (get_or_none-assign partition (some state) self.states)
                (ground (arith, due, positive)) same unloaded in
            (
              self',
              a',
              l',
              0,
              ap (λ i. save_if_due uuid4_hex now i self1 partition a) known
                  ∙ save_if_due-due interval self1 partition a positive due
                  ∙ save-one self1 self' partition a a' saved,
              ap (λ d. get_or_none d partition) kept
                  ∙ get_or_none-assign partition (some state) self.states,
              interval_same ∙ known,
              category_same,
              lags,
              v',
              current',
              inl (ground (arith, due, one_more), none_behind, loaded),
            )
        | inr early ↦ (
          read_lag self1 partition,
          a,
          l,
          lag self1 partition,
          ap (λ i. save_if_due uuid4_hex now i self1 partition a) known
              ∙ save_if_due-early interval self1 partition a positive early,
          get_or_none-assign partition (some state) self.states,
          known,
          refl,
          refl,
          v,
          current,
          inr (ground (arith, early, one_more), lag-read_lag self1 partition ∙ one_more, refl),
        )
      ]
