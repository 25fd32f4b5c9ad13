-- ===== src/Examples/Coordination.antt =====
-- Two subscribers of a group, of which one has a subscription.
use event_store.Prelude.{
  ◌≤◌, ◌≡◌, refl, ap, true, List, [], ◌∷◌, any, length, arith, HasEquality, ◌==◌, list_eq, ok, bit,
  sum, any-sum, count, member, string_eq, nat_eq, if◌then◌else◌, Bool-cases, inl, inr,
}
use event_store.Types.Identifier.{EventSourceIdentifier, identifier_eq, log, category}
use event_store.Processing.Subscriptions.{
  key_eq, EventSubscriptionState, EventSubscriptionStateChange, key, add_change, replace_change,
}
use event_store.Processing.Subscribers.{EventSubscriberState, state_key}
use event_store.Processing.Difference.{contains, map_from, minus}
use event_store.Processing.Coordinator.{
  Sets, is_eligible, distribute_group, allocate, next, sorted_by_count, insert_by_count,
  group_subscriptions, sources_where, chunk, chunks_from, stride, chunk_at, ineligible_changes,
  eligible_changes, eligible_change,
}
use event_store.Processing.Coordinator.Groups.{state_eq}
use event_store.Processing.Coordinator.Allocation.{given, holds}
use event_store.Processing.Coordinator.Distribution.{AreSets, distribute_group-once}

module _ {A : Type 0} ⦃e : HasEquality A⦄ where
  abbrev distinct : List A → List A
  distinct [] = []
  distinct (x ∷ l) = let rest = distinct l in if member x rest then rest else x ∷ rest

  count-distinct : (l : List A) (x : A) → count x (distinct l) ≡ bit (member x l)
  count-distinct [] x = refl
  count-distinct (y ∷ l) x =
      let same : (y == x) ≡ true → member y (distinct l) ≡ member x (distinct l) =
        λ h. ap (λ z. member z (distinct l)) ((e.test_iff y x).0 h) in
      elim (Bool-cases (member y (distinct l))) [
        | inl h ↦
            rw h (ground (arith, h, same, count-distinct l x, any-sum (λ z. z == x) (distinct l)))
        | inr h ↦
            rw h (ground (arith, h, same, count-distinct l x, any-sum (λ z. z == x) (distinct l)))
      ]

abbrev sets : Sets
sets = record { of_sources = distinct; of_requests = distinct; of_subscribers = distinct }

sets-AreSets : AreSets sets
sets-AreSets = record {
  of_sources = count-distinct;
  of_requests = count-distinct;
  of_subscribers = count-distinct;
}

abbrev orders_and_log : List EventSourceIdentifier
orders_and_log = log ∷ category "orders" ∷ []

abbrev first : EventSubscriberState
first = record {
  group = "g";
  id = "1";
  node_id = "n";
  subscription_requests = orders_and_log;
  last_seen = 5;
}

abbrev second : EventSubscriberState
second = record first { id = "2" }

abbrev existing : List EventSubscriptionState
existing = record { group = "g"; id = "1"; node_id = "n"; event_sources = log ∷ [] } ∷ []

distribute_group_run :
    distribute_group sets
      (map_from existing [])
      (state_key first ∷ state_key second ∷ [])
      "g"
      (first ∷ second ∷ [])
    ≡ ok (
        record {
          type = replace_change;
          subscription = record {
            group = "g";
            id = "1";
            node_id = "n";
            event_sources = log ∷ category "orders" ∷ [];
          };
        }
        ∷ record {
          type = add_change;
          subscription = record { group = "g"; id = "2"; node_id = "n"; event_sources = [] };
        }
        ∷ [])
unfolding distribute_group map_from allocate next sorted_by_count insert_by_count is_eligible
    group_subscriptions sources_where minus chunk chunks_from stride chunk_at ineligible_changes
    eligible_changes eligible_change key
distribute_group_run = refl

exclusive :
    (x : EventSourceIdentifier)
    → sum (λ s. bit (holds x (map_from existing []) s)) (first ∷ second ∷ []) ≤ 1
unfolding map_from key
exclusive x = ground arith

distribute_group-once_example :
    (target : List EventSourceIdentifier) × (changes : List EventSubscriptionStateChange)
    × (distribute_group sets
          (map_from existing [])
          (state_key first ∷ state_key second ∷ [])
          "g"
          (first ∷ second ∷ [])
        ≡ ok changes)
    × (any (is_eligible target) (first ∷ second ∷ []) ≡ true)
    × ((u : EventSubscriberState)
        → member u (first ∷ second ∷ []) ≡ true
        → length u.subscription_requests ≤ length target)
    × ((x : EventSourceIdentifier) → sum (given x) changes ≡ bit (contains x target))
distribute_group-once_example =
    distribute_group-once sets sets-AreSets existing (state_key first ∷ state_key second ∷ []) "g"
      (first ∷ second ∷ []) first refl ((refl, tt), (tt, tt)) (refl, (refl, tt)) exclusive
