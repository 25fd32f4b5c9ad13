-- ===== src/Processing/Difference.antt =====
-- src/logicblocks/event/processing/broker/strategies/distributed/difference.py: which event sources
-- are given to subscribers and taken from them between two states of the subscriptions. A set is a
-- list of its members, in which one may stand twice.
pub mod Found
pub mod Sources
use event_store.Prelude.{
  String, Bool, true, false, not, Option, none, some, List, [], ◌∷◌, ◌++◌, map, any, select, ◌==◌,
  HasEquality, Dict, lookup, assign,
}
use event_store.Types.Identifier.{EventSourceIdentifier, identifier_eq}
use event_store.Processing.Subscriptions.{EventSubscriptionKey, key_eq, EventSubscriptionState, key}

pub record EventSubscriptionChange : Type 0 where
  pub group : String
  pub id : String
  pub event_source : EventSourceIdentifier

abbrev pub change_key : EventSubscriptionChange → EventSubscriptionKey
change_key self = record { group = self.group; id = self.id }

pub record EventSubscriptionChangeset : Type 0 where
  pub allocations : List EventSubscriptionChange
  pub revocations : List EventSubscriptionChange

-- `x in xs`
abbrev pub contains : EventSourceIdentifier → List EventSourceIdentifier → Bool
contains x xs = any (λ y. y == x) xs

-- `set(xs) - set(ys)`
unfoldable pub minus :
    List EventSourceIdentifier → List EventSourceIdentifier → List EventSourceIdentifier
minus xs ys = select (λ x. not (contains x ys)) xs

-- `{subscription.key: subscription for subscription in subscriptions}`
unfoldable pub map_from :
    List EventSubscriptionState
    → Dict EventSubscriptionKey EventSubscriptionState
    → Dict EventSubscriptionKey EventSubscriptionState
map_from [] d = d
map_from (s ∷ subscriptions) d = map_from subscriptions (assign (key s) s d)

unfoldable pub is_in :
    Dict EventSubscriptionKey EventSubscriptionState → EventSubscriptionState → Bool
is_in d s = elim (lookup (key s) d) [ none ↦ false | some existing ↦ true ]

-- `existing_map[updated_subscription.key].event_sources`
unfoldable pub sources_in :
    Dict EventSubscriptionKey EventSubscriptionState
    → EventSubscriptionState
    → List EventSourceIdentifier
sources_in d s = elim (lookup (key s) d) [ none ↦ [] | some existing ↦ existing.event_sources ]

-- A loop that adds a change of each subscription for each of some sources.
unfoldable pub changes :
    (EventSubscriptionState → List EventSourceIdentifier)
    → List EventSubscriptionState
    → List EventSubscriptionChange
changes sources [] = []
changes sources (s ∷ subscriptions) =
    map (λ source. record { group = s.group; id = s.id; event_source = source }) (sources s)
    ++ changes sources subscriptions

unfoldable pub diff :
    List EventSubscriptionState → List EventSubscriptionState → EventSubscriptionChangeset
unfolding minus map_from is_in sources_in changes
diff existing updated =
    let existing_map = map_from existing [] in
    let updated_map = map_from updated [] in
    let new_subscriptions = select (λ s. not (is_in existing_map s)) updated in
    let old_subscriptions = select (λ s. not (is_in updated_map s)) existing in
    let updated_subscriptions = select (λ s. is_in existing_map s) updated in
    record {
      allocations =
          changes (λ s. s.event_sources) new_subscriptions
          ++ changes (λ s. minus s.event_sources (sources_in existing_map s)) updated_subscriptions;
      revocations =
          changes (λ s. s.event_sources) old_subscriptions
          ++ changes (λ s. minus (sources_in existing_map s) s.event_sources) updated_subscriptions;
    }
