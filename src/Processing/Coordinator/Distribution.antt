-- ===== src/Processing/Coordinator/Distribution.antt =====
-- A turn of the loop over the groups of subscribers, as a whole.
use event_store.Prelude.{
  list_eq, nat_eq, string_eq, ◌≤◌, ◌≡◌, ap, ◌∙◌, true, List, [], any, length, All, ok, ◌>>=◌, bit,
  sum, count, member, String,
}
use event_store.Types.Identifier.{EventSourceIdentifier, identifier_eq}
use event_store.Processing.Subscriptions.{
  EventSubscriptionKey, EventSubscriptionState, EventSubscriptionStateChange,
}
use event_store.Processing.Subscribers.{EventSubscriberState, state_key}
use event_store.Processing.Difference.{contains, map_from}
use event_store.Processing.Coordinator.{has_key, Sets, is_eligible, allocate, distribute_group}
use event_store.Processing.Coordinator.Groups.{HasDistinctKeys, state_eq}
use event_store.Processing.Coordinator.Allocation.{given, holds}
use event_store.Processing.Coordinator.Once.{allocate-once}
use event_store.Processing.Coordinator.Keys.{Keyed-map_from, Keyed-nil}
use event_store.Processing.Coordinator.Target.{target-IsLongest}

-- A set has the members of the list that it is made from, each once.
pub record AreSets (set : Sets) : Type 0 where
  pub of_sources :
      (l : List EventSourceIdentifier) (x : EventSourceIdentifier)
      → count x (set.of_sources l) ≡ bit (member x l)
  pub of_requests :
      (l : List (List EventSourceIdentifier)) (x : List EventSourceIdentifier)
      → count x (set.of_requests l) ≡ bit (member x l)
  pub of_subscribers :
      (l : List EventSubscriberState) (s : EventSubscriberState)
      → count s (set.of_subscribers l) ≡ bit (member s l)

-- If `set` gives each member of a list once, the subscribers of a group, one or more, have
-- distinct keys and are known to the map of subscribers, and no source stands in two of their
-- subscriptions or twice in one, then a turn of the loop raises nothing. There is a target that is
-- one of the subscribers' requests, none of which is longer, and the changes give each source of
-- the target to one subscriber, once, and give no other source.
pub distribute_group-once :
    (set : Sets) (sets : AreSets set) (subscriptions : List EventSubscriptionState)
    (subscriber_map : List EventSubscriptionKey) (group : String) (l : List EventSubscriberState)
    (s : EventSubscriberState)
    → member s l ≡ true
    → HasDistinctKeys l
    → All (λ s. has_key (state_key s) subscriber_map ≡ true) l
    → ((x : EventSourceIdentifier) → sum (λ s. bit (holds x (map_from subscriptions []) s)) l ≤ 1)
    → (target : List EventSourceIdentifier) × (changes : List EventSubscriptionStateChange)
      × (distribute_group set (map_from subscriptions []) subscriber_map group l ≡ ok changes)
      × (any (is_eligible target) l ≡ true)
      × ((u : EventSubscriberState)
          → member u l ≡ true
          → length u.subscription_requests ≤ length target)
      × ((x : EventSourceIdentifier) → sum (given x) changes ≡ bit (contains x target))
unfolding distribute_group
distribute_group-once set sets subscriptions subscriber_map group l s there distinct known
      exclusive =
    let m = map_from subscriptions [] in
    let (target, taken, nonempty, longest) = target-IsLongest set sets.of_requests l s there in
    let (changes, same, once) =
      allocate-once set sets.of_sources sets.of_subscribers m subscriber_map l target group
        (Keyed-map_from subscriptions [] Keyed-nil) distinct known exclusive nonempty in
    (
      target,
      changes,
      ap (λ r. r >>= allocate set m subscriber_map group l) taken ∙ same,
      nonempty,
      longest,
      once,
    )
