-- ===== src/Processing/Subscribers.antt =====
-- src/logicblocks/event/processing/broker/strategies/distributed/subscribers/stores/state: which
-- subscribers the nodes have seen, and the in-memory store of it. A clock's reading is an argument
-- `now`, a time is a number, and a comparison with `now - d` is one of the time plus `d` with `now`.
pub mod Purging
pub mod Registering
use event_store.Prelude.{
  ℕ, zero, suc, ◌+◌, ◌≡◌, ◌↔◌, String, string_eq, Bool, true, false, ◌&&◌, Option, none, some, List,
  [], ◌∷◌, ◌++◌, arith, length, select, get_elem?, set, ltb, leb, HasEquality, ◌==◌, list_eq,
  nat_eq, if◌then◌else◌,
}
use event_store.Types.Identifier.{EventSourceIdentifier, identifier_eq}
use event_store.Types.Event.{Datetime}
use event_store.Processing.Subscriptions.{EventSubscriptionKey, key_eq}

-- What the store reads of an `EventSubscriber`
-- (src/logicblocks/event/processing/broker/types.py).
pub record EventSubscriber : Type 0 where
  pub group : String
  pub id : String
  pub subscription_requests : List EventSourceIdentifier

pub record EventSubscriberState : Type 0 where
  pub group : String
  pub id : String
  pub node_id : String
  pub subscription_requests : List EventSourceIdentifier
  pub last_seen : Datetime

-- `EventSubscriberKey` has the fields of the subscription's key.
abbrev pub subscriber_key : EventSubscriber → EventSubscriptionKey
subscriber_key self = record { group = self.group; id = self.id }

abbrev pub state_key : EventSubscriberState → EventSubscriptionKey
state_key self = record { group = self.group; id = self.id }

-- The equality of the data class.
abbrev pub state_beq : EventSubscriberState → EventSubscriberState → Bool
state_beq a b =
    a.group == b.group
    && a.id == b.id
    && a.node_id == b.node_id
    && a.subscription_requests == b.subscription_requests
    && a.last_seen == b.last_seen

pub record SubscriberStore : Type 0 where
  pub node_id : String
  pub subscribers : List EventSubscriberState

-- `next((candidate for candidate in self.subscribers if key == candidate.key), None)`
unfoldable pub find : EventSubscriptionKey → List EventSubscriberState → Option EventSubscriberState
find k [] = none
find k (candidate ∷ candidates) =
    if k == state_key candidate then some candidate else find k candidates

-- The same over `enumerate(self.subscribers)`, for the index.
unfoldable pub find_index : EventSubscriptionKey → ℕ → List EventSubscriberState → Option ℕ
find_index k index [] = none
find_index k index (candidate ∷ candidates) =
    if k == state_key candidate then some index else find_index k (suc index) candidates

-- `list.remove`: the first item that is equal.
unfoldable pub remove_first :
    EventSubscriberState → List EventSubscriberState → List EventSubscriberState
remove_first existing [] = []
remove_first existing (s ∷ subscribers) =
    if state_beq s existing then subscribers else s ∷ remove_first existing subscribers

unfoldable pub state_of : SubscriberStore → Datetime → EventSubscriber → EventSubscriberState
state_of self now subscriber = record {
  group = subscriber.group;
  id = subscriber.id;
  node_id = self.node_id;
  subscription_requests = subscriber.subscription_requests;
  last_seen = now;
}

unfoldable pub heartbeat : SubscriberStore → Datetime → EventSubscriber → SubscriberStore
unfolding find_index state_of
heartbeat self now subscriber = elim (find_index (subscriber_key subscriber) 0 self.subscribers) [
  | none ↦ self
  | some index ↦ record self {
    subscribers = set self.subscribers index (state_of self now subscriber);
  }
]

unfoldable pub add : SubscriberStore → Datetime → EventSubscriber → SubscriberStore
unfolding find heartbeat state_of
add self now subscriber = elim (find (subscriber_key subscriber) self.subscribers) [
  | some existing ↦ heartbeat self now subscriber
  | none ↦ record self { subscribers = self.subscribers ++ state_of self now subscriber ∷ [] }
]

unfoldable pub remove : SubscriberStore → EventSubscriber → SubscriberStore
unfolding find remove_first
remove self subscriber = elim (find (subscriber_key subscriber) self.subscribers) [
  | none ↦ self
  | some existing ↦ record self { subscribers = remove_first existing self.subscribers }
]

-- `subscriber.last_seen > cutoff`
unfoldable pub is_recent : Datetime → ℕ → EventSubscriberState → Bool
is_recent now max_time s = ltb now (s.last_seen + max_time)

unfoldable pub list :
    SubscriberStore → Datetime → Option String → Option ℕ → List EventSubscriberState
unfolding is_recent
list self now subscriber_group max_time_since_last_seen =
    let subscribers : List EventSubscriberState = elim subscriber_group [
      | none ↦ self.subscribers
      | some group ↦ select (λ s. s.group == group) self.subscribers
    ] in
    elim max_time_since_last_seen [
      | none ↦ subscribers
      | some max_time ↦ select (is_recent now max_time) subscribers
    ]

-- `subscriber.last_seen <= cutoff_time`
unfoldable pub is_stale : Datetime → ℕ → EventSubscriberState → Bool
is_stale now max_time s = leb (s.last_seen + max_time) now

-- The loop of `purge`, which takes items out of the list that it goes through: the next item is
-- the one at the next index of what is then left. The first argument bounds the turns.
unfoldable pub purge_from :
    ℕ → Datetime → ℕ → ℕ → List EventSubscriberState → List EventSubscriberState
unfolding is_stale remove_first
purge_from zero now max_time index subscribers = subscribers
purge_from (suc turns) now max_time index subscribers = elim (get_elem? subscribers index) [
  | none ↦ subscribers
  | some s ↦
      purge_from turns now max_time (suc index)
        (if is_stale now max_time s then remove_first s subscribers else subscribers)
]

unfoldable pub purge : SubscriberStore → Datetime → ℕ → SubscriberStore
unfolding purge_from
purge self now max_time = record self {
  subscribers = purge_from (length self.subscribers) now max_time 0 self.subscribers;
}
