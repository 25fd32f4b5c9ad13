-- ===== src/Processing/Coordinator.antt =====
-- src/logicblocks/event/processing/broker/strategies/distributed/coordinator.py: which event sources
-- each subscriber is to process, by the subscribers that were seen lately. `set` is a parameter. Of a dictionary that is only asked for
-- its keys, the model has the keys.
pub mod Chunks
pub mod Groups
pub mod Allocation
pub mod Keys
pub mod Once
pub mod Target
pub mod Distribution
use event_store.Prelude.{
  ℕ, zero, suc, ◌-◌, String, string_eq, Bool, ◌&&◌, not, none, some, List, [], ◌∷◌, ◌++◌, map, any,
  select, length, leb, get_elem?, Result, ok, err, index_error, runtime_error, ◌>>=◌, ◌==◌, list_eq,
  Dict, lookup, if◌then◌else◌,
}
use event_store.Types.Identifier.{EventSourceIdentifier, identifier_eq}
use event_store.Types.Event.{Datetime}
use event_store.Processing.Subscriptions.{
  EventSubscriptionKey, key_eq, EventSubscriptionState, key, EventSubscriptionStateChange,
  add_change, remove_change, replace_change, SubscriptionStore,
}
use event_store.Processing.Subscriptions as Subscriptions
use event_store.Processing.Subscribers.{EventSubscriberState, state_key, SubscriberStore}
use event_store.Processing.Subscribers as Subscribers
use event_store.Processing.Difference.{contains, minus, map_from}
use event_store.Store.Texts.{sorted_items}

module _ {ℓ} {A : Type ℓ} where
  -- `values[skip::gap]`
  unfoldable pub stride : ℕ → ℕ → List A → List A
  stride skip gap [] = []
  stride zero gap (x ∷ values) = x ∷ stride (gap - 1) gap values
  stride (suc skip) gap (x ∷ values) = stride skip gap values

  -- The items of `chunk` from number `i` on, `n` of them.
  unfoldable pub chunks_from : List A → ℕ → ℕ → ℕ → List (List A)
  unfolding stride
  chunks_from values chunks i zero = []
  chunks_from values chunks i (suc n) = stride i chunks values ∷ chunks_from values chunks (suc i) n

  unfoldable pub chunk : List A → ℕ → List (List A)
  unfolding chunks_from
  chunk values chunks = chunks_from values chunks 0 chunks

  -- `sorted(…, key=len, reverse=True)`, which keeps the order of items of the same length.
  unfoldable pub insert_by_count : List A → List (List A) → List (List A)
  insert_by_count xs [] = xs ∷ []
  insert_by_count xs (ys ∷ sorted) =
      if leb (length ys) (length xs) then xs ∷ ys ∷ sorted else ys ∷ insert_by_count xs sorted

  unfoldable pub sorted_by_count : List (List A) → List (List A)
  unfolding insert_by_count
  sorted_by_count [] = []
  sorted_by_count (xs ∷ lists) = insert_by_count xs (sorted_by_count lists)

  -- `next(iter(items))`; no item raises a `StopIteration`, which a coroutine turns into this.
  unfoldable pub next : List A → Result A
  next [] = err (runtime_error "coroutine raised StopIteration")
  next (x ∷ items) = ok x

-- `k in d`, of the keys of `d`
abbrev pub has_key : EventSubscriptionKey → List EventSubscriptionKey → Bool
has_key k keys = any (λ other. other == k) keys

-- `subscriber.subscription_requests == target_event_sources`
unfoldable pub is_eligible : List EventSourceIdentifier → EventSubscriberState → Bool
is_eligible target s = s.subscription_requests == target

-- `new_event_source_chunks[index]`
unfoldable pub chunk_at :
    List (List EventSourceIdentifier) → ℕ → Result (List EventSourceIdentifier)
chunk_at chunks index = elim (get_elem? chunks index) [ none ↦ err index_error | some c ↦ ok c ]

-- The sources that a loop over subscriptions picks.
unfoldable pub sources_where :
    (EventSubscriptionState → EventSourceIdentifier → Bool)
    → List EventSubscriptionState
    → List EventSourceIdentifier
sources_where test [] = []
sources_where test (s ∷ subscriptions) =
    select (test s) s.event_sources ++ sources_where test subscriptions

abbrev pub SubscriptionMap : Type 0
SubscriptionMap = Dict EventSubscriptionKey EventSubscriptionState

-- `[subscription_map[s.subscription_key] for s in subscribers if s.subscription_key in
-- subscription_map]`
unfoldable pub group_subscriptions :
    SubscriptionMap → List EventSubscriberState → List EventSubscriptionState
group_subscriptions subscription_map [] = []
group_subscriptions subscription_map (s ∷ subscribers) =
    let rest = group_subscriptions subscription_map subscribers in
    elim (lookup (state_key s) subscription_map) [
      | none ↦ rest
      | some subscription ↦ subscription ∷ rest
    ]

-- A subscription that there is no subscriber for any more.
unfoldable pub removal : EventSubscriptionState → EventSubscriptionStateChange
removal subscription = record { type = remove_change; subscription = subscription }

-- The loop over the ineligible subscribers.
unfoldable pub ineligible_changes :
    SubscriptionMap → List EventSubscriberState → List EventSubscriptionStateChange
unfolding group_subscriptions removal
ineligible_changes subscription_map subscribers =
    map removal (group_subscriptions subscription_map subscribers)

-- `sorted(subscribers, key=operator.attrgetter("group"))`
unfoldable pub sorted_by_group : List EventSubscriberState → List EventSubscriberState
unfolding sorted_items
sorted_by_group subscribers =
    map (λ item. item.1) (sorted_items (map (λ s. (s.group, s)) subscribers))

-- A subscriber before the runs of those after it: in the first run, or in one of its own.
unfoldable pub add_to_run :
    EventSubscriberState
    → List (String × List EventSubscriberState)
    → List (String × List EventSubscriberState)
add_to_run s [] = (s.group, s ∷ []) ∷ []
add_to_run s ((group, subscribers) ∷ groups) =
    if s.group == group
    then (group, s ∷ subscribers) ∷ groups
    else (s.group, s ∷ []) ∷ (group, subscribers) ∷ groups

-- `itertools.groupby(subscribers, operator.attrgetter("group"))`
unfoldable pub group_by : List EventSubscriberState → List (String × List EventSubscriberState)
unfolding add_to_run
group_by [] = []
group_by (s ∷ subscribers) = add_to_run s (group_by subscribers)

-- `set(items)`, for the three types of items that the code makes sets of: the members of a list,
-- each once, in the order in which the set gives them.
pub record Sets : Type 0 where
  pub of_sources : List EventSourceIdentifier → List EventSourceIdentifier
  pub of_requests : List (List EventSourceIdentifier) → List (List EventSourceIdentifier)
  pub of_subscribers : List EventSubscriberState → List EventSubscriberState

module _ (set : Sets) where
  -- What an eligible subscriber is to have: its remaining sources and the new ones.
  unfoldable pub eligible_change :
      SubscriptionMap
      → List EventSourceIdentifier
      → String
      → EventSubscriberState
      → List EventSourceIdentifier
      → EventSubscriptionStateChange
  unfolding minus
  eligible_change subscription_map removed group s new =
      elim (lookup (state_key s) subscription_map) [
        | none ↦ record {
          type = add_change;
          subscription = record {
            group = group;
            id = s.id;
            node_id = s.node_id;
            event_sources = new;
          };
        }
        | some subscription ↦ record {
          type = replace_change;
          subscription = record {
            group = group;
            id = s.id;
            node_id = s.node_id;
            event_sources = set.of_sources (minus subscription.event_sources removed) ++ new;
          };
        }
      ]

  -- The loop over the eligible subscribers, from an index on.
  unfoldable pub eligible_changes :
      SubscriptionMap
      → List EventSourceIdentifier
      → String
      → List (List EventSourceIdentifier)
      → ℕ
      → List EventSubscriberState
      → Result (List EventSubscriptionStateChange)
  unfolding eligible_change chunk_at
  eligible_changes subscription_map removed group chunks index [] = ok []
  eligible_changes subscription_map removed group chunks index (s ∷ subscribers) = do
    new ← chunk_at chunks index
    rest ← eligible_changes subscription_map removed group chunks (suc index) subscribers
    ok (eligible_change subscription_map removed group s new ∷ rest)

  -- A turn of the loop over the groups, once the target is known.
  unfoldable pub allocate :
      SubscriptionMap
      → List EventSubscriptionKey
      → String
      → List EventSubscriberState
      → List EventSourceIdentifier
      → Result (List EventSubscriptionStateChange)
  unfolding group_subscriptions is_eligible sources_where minus chunk ineligible_changes
      eligible_changes
  allocate subscription_map subscriber_map group subscribers target =
      let subscriptions = group_subscriptions subscription_map subscribers in
      let ineligible = set.of_subscribers (select (λ s. not (is_eligible target s)) subscribers) in
      let eligible = set.of_subscribers (select (is_eligible target) subscribers) in
      let eligible_map = map state_key eligible in
      let all_allocated = sources_where (λ s x. has_key (key s) subscriber_map) subscriptions in
      let correctly_allocated =
        sources_where (λ s x. has_key (key s) eligible_map && contains x target) subscriptions in
      let removed = select (λ x. not (contains x target)) all_allocated in
      let new = set.of_sources (minus target correctly_allocated) in
      let chunks = chunk new (length eligible) in
      do
        changes ← eligible_changes subscription_map removed group chunks 0 eligible
        ok (ineligible_changes subscription_map ineligible ++ changes)

  -- A turn of the loop over the groups.
  unfoldable pub distribute_group :
      SubscriptionMap
      → List EventSubscriptionKey
      → String
      → List EventSubscriberState
      → Result (List EventSubscriptionStateChange)
  unfolding allocate sorted_by_count next
  distribute_group subscription_map subscriber_map group subscribers = do
    target ←
        next (sorted_by_count (set.of_requests (map (λ s. s.subscription_requests) subscribers)))
    allocate subscription_map subscriber_map group subscribers target

  -- The loop over the groups.
  unfoldable pub distribute_groups :
      SubscriptionMap
      → List EventSubscriptionKey
      → List (String × List EventSubscriberState)
      → Result (List EventSubscriptionStateChange)
  unfolding distribute_group
  distribute_groups subscription_map subscriber_map [] = ok []
  distribute_groups subscription_map subscriber_map ((group, subscribers) ∷ groups) = do
    changes ← distribute_group subscription_map subscriber_map group subscribers
    rest ← distribute_groups subscription_map subscriber_map groups
    ok (changes ++ rest)

  -- The changes that `distribute` applies.
  unfoldable pub subscription_changes :
      List EventSubscriptionState
      → List EventSubscriberState
      → Result (List EventSubscriptionStateChange)
  unfolding map_from removal sorted_by_group group_by distribute_groups
  subscription_changes subscriptions seen =
      let subscribers = sorted_by_group seen in
      let subscription_map = map_from subscriptions [] in
      let subscriber_map = map state_key subscribers in
      let gone = select (λ s. not (has_key (key s) subscriber_map)) subscriptions in
      do
        changes ← distribute_groups subscription_map subscriber_map (group_by subscribers)
        ok (map removal gone ++ changes)

  -- `distribute`, at a time `now`
  unfoldable pub distribute :
      Datetime → ℕ → SubscriberStore → SubscriptionStore → Result (Unit {0}) × SubscriptionStore
  unfolding subscription_changes Subscriptions.list Subscriptions.apply Subscribers.list
  distribute now max_time subscriber_store subscription_store =
      let changes =
        subscription_changes (Subscriptions.list subscription_store)
          (Subscribers.list subscriber_store now none (some max_time)) in
      elim changes [
        | ok changes ↦ Subscriptions.apply subscription_store changes
        | err e ↦ (err e, subscription_store)
      ]
