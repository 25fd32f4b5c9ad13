-- ===== src/Examples/Brokers.antt =====
-- Statuses, subscriptions and subscribers.
use event_store.Processing.Difference.{diff}
use event_store.Processing.Difference.Found.{
  is_changed, has_source, HasDistinctKeys as DistinctStates,
}
use event_store.Processing.Difference.Sources.{diff-allocations, diff-revocations}
use event_store.Prelude.{
  ◌&&◌, not, ℕ, ◌≡◌, refl, String, none, some, List, [], ◌∷◌, ok, if◌then◌else◌, ◌==◌,
}
use event_store.Types.Identifier.{log, category}
use event_store.Processing.Status.{running, stopped, determine_multi_process_status}
use event_store.Processing.Status.Ladder.{
  overall, is_present, determine_multi_process_status-overall,
}
use event_store.Processing.Subscriptions.{
  EventSubscriptionKey, key_eq, EventSubscriptionState, EventSubscriptionStateChange, add_change,
  remove_change, SubscriptionStore, apply, get, key, change_key,
}
use event_store.Processing.Subscriptions.Applying.{expected, apply-expected}
use event_store.Processing.Subscribers.{
  EventSubscriber, EventSubscriberState, SubscriberStore, subscriber_key, state_of, add, find, list,
  purge,
}
use event_store.Processing.Subscribers.Purging.{list-purge}
use event_store.Processing.Subscribers.Registering.{find-add}

determine_multi_process_status-overall_example :
    determine_multi_process_status (running ∷ stopped ∷ [])
    ≡ overall (is_present (running ∷ stopped ∷ []))
determine_multi_process_status-overall_example =
    determine_multi_process_status-overall (running ∷ stopped ∷ [])

abbrev first_subscription : EventSubscriptionState
first_subscription = record { group = "g"; id = "1"; node_id = "n"; event_sources = log ∷ [] }

abbrev second_subscription : EventSubscriptionState
second_subscription = record first_subscription { id = "2"; event_sources = category "orders" ∷ [] }

abbrev subscriptions : SubscriptionStore
subscriptions = record {
  node_id = "m";
  subscriptions = (record { group = "g"; id = "1" }, first_subscription) ∷ [];
}

abbrev changes : List EventSubscriptionStateChange
changes =
    record { type = remove_change; subscription = first_subscription }
    ∷ record { type = add_change; subscription = second_subscription }
    ∷ []

apply-expected_example :
    ((apply subscriptions changes).0 ≡ ok tt)
    × ((k : EventSubscriptionKey)
        → get (apply subscriptions changes).1 k ≡ expected subscriptions changes k)
unfolding get change_key key
apply-expected_example =
    apply-expected subscriptions changes ((refl, tt), (tt, tt)) (refl, (refl, tt))

abbrev seen : String → ℕ → EventSubscriberState
seen id time = record {
  group = "g";
  id = id;
  node_id = "m";
  subscription_requests = [];
  last_seen = time;
}

abbrev subscribers : SubscriberStore
subscribers = record { node_id = "m"; subscribers = seen "1" 10 ∷ seen "2" 10 ∷ seen "3" 95 ∷ [] }

list-purge_example :
    list (purge subscribers 100 20) 100 none (some 20) ≡ list subscribers 100 none (some 20)
list-purge_example = list-purge subscribers 100 20

-- Two stale subscribers in a row: the second stays.
purge_run : (purge subscribers 100 20).subscribers ≡ seen "2" 10 ∷ seen "3" 95 ∷ []
unfolding purge
purge_run = refl

abbrev newcomer : EventSubscriber
newcomer = record { group = "g"; id = "2"; subscription_requests = log ∷ [] }

find-add_example :
    find (record { group = "g"; id = "3" }) (add subscribers 100 newcomer).subscribers ≡ (
      if record { group = "g"; id = "3" } == subscriber_key newcomer
      then some (state_of subscribers 100 newcomer)
      else find (record { group = "g"; id = "3" }) subscribers.subscribers)
find-add_example = find-add subscribers 100 newcomer (record { group = "g"; id = "3" })

abbrev renewed : EventSubscriptionState
renewed = record first_subscription { event_sources = category "orders" ∷ log ∷ [] }

abbrev before : List EventSubscriptionState
before = first_subscription ∷ second_subscription ∷ []

before-HasDistinctKeys : DistinctStates before
unfolding key
before-HasDistinctKeys = ((refl, tt), (tt, tt))

diff-allocations_example :
    is_changed
      (record { group = "g"; id = "1" })
      (category "orders")
      (diff before (renewed ∷ [])).allocations
    ≡ (has_source (record { group = "g"; id = "1" }) (category "orders") (renewed ∷ [])
        && not (has_source (record { group = "g"; id = "1" }) (category "orders") before))
diff-allocations_example =
    diff-allocations before (renewed ∷ []) before-HasDistinctKeys (tt, tt)
      (record { group = "g"; id = "1" }) (category "orders")

diff-revocations_example :
    is_changed
      (record { group = "g"; id = "2" })
      (category "orders")
      (diff before (renewed ∷ [])).revocations
    ≡ (has_source (record { group = "g"; id = "2" }) (category "orders") before
        && not (has_source (record { group = "g"; id = "2" }) (category "orders") (renewed ∷ [])))
diff-revocations_example =
    diff-revocations before (renewed ∷ []) before-HasDistinctKeys (tt, tt)
      (record { group = "g"; id = "2" }) (category "orders")
