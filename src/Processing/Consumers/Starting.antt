-- ===== src/Processing/Consumers/Starting.antt =====
-- What a consumer with a new store starts from.
use event_store.Prelude.{
  ℕ, ◌<◌, ◌≡◌, refl, sym, ap, ◌∙◌, subst, inl, inr, String, string_eq, Option, none, some, [],
  arith, last?, ok, err, ok-injective, Result-cases, Dict, lookup, assign, ℤ,
}
use event_store.Types.Event.{SerialisedEvent}
use event_store.Store.Conditions.Meaning.{latest_position}
use event_store.Store.Db.Represents.{Log}
use event_store.Store.Adapter.{Adapter}
use event_store.Store.Adapter.Specification.{own, IsValid}
use event_store.Store.EventCategory.{EventCategory}
use event_store.Processing.Consumers.{
  EventConsumerState, EventConsumerStateStore, EventConsumerStateConverter, new_store, get_or_none,
  lag, load, load_event, deserialise,
}
use event_store.Processing.Consumers.Saving.{place, latest-own}
use event_store.Processing.Consumers.Loading.{get_or_none-assign}
use event_store.Processing.Consumers.Alone.{OnlyDefault}
use event_store.Processing.Consumers.Progress.{IsReady}

pub load-valid :
    (self : EventConsumerStateStore) (a : Adapter) (l : Log)
    → IsValid a l
    → get_or_none self.states "default" ≡ none
    → load self "default" a ≡ load_event self "default" (last? (own (place self "default") l)) a
unfolding load
load-valid self a l v unloaded = rw (unloaded, load) (rw (latest-own self "default" a l v) refl)

-- What a load of the latest event leaves, if it raises nothing.
record Loads (self store : EventConsumerStateStore) (a : Adapter) (o : Option SerialisedEvent)
    (base : Option EventConsumerState) : Type 0 where
  loads : load_event self "default" o a ≡ (ok base, store, a)
  known : store.persistence_interval ≡ self.persistence_interval
  same : store.category ≡ self.category
  lags : store.persistence_lags ≡ self.persistence_lags
  state : get_or_none store.states "default" ≡ base
  position : get_or_none store.positions "default" ≡ latest_position o

abbrev loaded_store :
    EventConsumerStateStore → Option EventConsumerState → Option ℤ → EventConsumerStateStore
loaded_store self state position = record self {
  states = assign "default" state self.states;
  positions = assign "default" position self.positions;
}

load_event-Loads :
    (self : EventConsumerStateStore) (a : Adapter) (o : Option SerialisedEvent)
    (base : Option EventConsumerState)
    → (load_event self "default" o a).0 ≡ ok base
    → (store : EventConsumerStateStore) × Loads self store a o base
unfolding load_event
load_event-Loads self a none base h = (
  loaded_store self none none,
  record {
    loads = ap (λ r. (r, loaded_store self none none, a)) h;
    known = refl;
    same = refl;
    lags = refl;
    state = get_or_none-assign "default" none self.states ∙ ok-injective h;
    position = get_or_none-assign "default" none self.positions;
  },
)
load_event-Loads self a (some event) base h = elim (Result-cases (deserialise event.payload)) [
  | inl (state, e) ↦
      let found : (load_event self "default" (some event) a).0 ≡ ok (some state) =
        rw (e, load_event) refl in
      let read = sym found ∙ h in
      let store = loaded_store self (some state) (some event.position) in
      (
        store,
        record {
          loads = rw (e, load_event) (ap (λ r. (r, store, a)) read);
          known = refl;
          same = refl;
          lags = refl;
          state = get_or_none-assign "default" (some state) self.states ∙ ok-injective read;
          position = get_or_none-assign "default" (some event.position) self.positions;
        },
      )
  | inr (x, e) ↦
      let failed : (load_event self "default" (some event) a).0 ≡ err x = rw (e, load_event) refl in
      let clash = sym failed ∙ h in ground (arith, clash)
]

-- A consumer with a new store over a valid adapter, from which the store loads a state: it has that
-- state, and no event that is not saved.
pub load-IsReady :
    (converter : EventConsumerStateConverter SerialisedEvent) (category : EventCategory)
    (interval : ℕ) (a : Adapter) (l : Log) (base : Option EventConsumerState)
    → 0 < interval
    → IsValid a l
    → (load (new_store category (some interval)) "default" a).0 ≡ ok base
    → (store : EventConsumerStateStore) × (load (new_store category (some interval)) "default" a
        ≡ (ok base, store, a))
      × IsReady converter (new_store category (some interval)) interval store a base []
unfolding new_store lag get_or_none
load-IsReady converter category interval a l base positive v loaded =
    let fresh = new_store category (some interval) in
    let latest_loaded = load-valid fresh a l v refl in
    let (store, h) =
      load_event-Loads fresh a (last? (own (place fresh "default") l)) base
        (sym (ap (λ x. x.0) latest_loaded) ∙ loaded) in
    (
      store,
      latest_loaded ∙ h.loads,
      record {
        saved_log = l;
        valid = v;
        current = inr (
            h.position
            ∙ ap
                (λ (c : EventCategory).
                  latest_position (
                    last?
                      (own (record { category = c.identifier.category; stream = "default" }) l)))
                (sym h.same));
        known = h.known;
        same = sym h.same;
        only = subst OnlyDefault (sym h.lags) tt;
        loaded = loaded;
        state = h.state;
        behind =
            ap (λ (d : Dict String ℕ). elim (lookup "default" d) [ none ↦ 0 | some n ↦ n ]) h.lags;
        below = positive;
      },
    )
