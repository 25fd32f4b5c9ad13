-- ===== src/Processing/Subscriptions.antt =====
-- src/logicblocks/event/processing/broker/strategies/distributed/subscriptions: which event sources
-- each subscriber of a group is to process, and the in-memory store of it.
pub mod Applying
use event_store.Prelude.{
  ℕ, ◌≡◌, ◌↔◌, String, string_eq, Bool, true, false, ◌&&◌, Option, none, some, List, [], ◌∷◌, map,
  arith, length, any, nat_beq, Result, ok, err, value_error, HasEquality, ◌==◌, if◌then◌else◌, Dict,
  lookup, assign, pop, values,
}
use event_store.Types.Identifier.{EventSourceIdentifier}

-- The key of a subscription, and that of its subscriber (`EventSubscriberKey` of
-- src/logicblocks/event/processing/broker/types.py): two classes with the same fields.
pub record EventSubscriptionKey : Type 0 where
  pub group : String
  pub id : String

abbrev pub key_beq : EventSubscriptionKey → EventSubscriptionKey → Bool
key_beq a b = a.group == b.group && a.id == b.id

pub key_beq_iff : (a b : EventSubscriptionKey) → (key_beq a b ≡ true) ↔ (a ≡ b)
key_beq_iff a b = ground (arith, string_eq.test_iff a.group b.group, string_eq.test_iff a.id b.id)

instance abbrev pub key_eq : HasEquality EventSubscriptionKey
key_eq = record { test = key_beq; test_iff = key_beq_iff }

pub record EventSubscriptionState : Type 0 where
  pub group : String
  pub id : String
  pub node_id : String
  pub event_sources : List EventSourceIdentifier

unfoldable pub key : EventSubscriptionState → EventSubscriptionKey
key self = record { group = self.group; id = self.id }

pub data EventSubscriptionStateChangeType : Type 0 where
  add_change : EventSubscriptionStateChangeType
  remove_change : EventSubscriptionStateChangeType
  replace_change : EventSubscriptionStateChangeType

pub record EventSubscriptionStateChange : Type 0 where
  pub type : EventSubscriptionStateChangeType
  pub subscription : EventSubscriptionState

pub record SubscriptionStore : Type 0 where
  pub node_id : String
  pub subscriptions : Dict EventSubscriptionKey EventSubscriptionState

-- What a call raises, if it does, and the store that it leaves.
abbrev pub Outcome : Type 0
Outcome = Result (Unit {0}) × SubscriptionStore

unfoldable pub list : SubscriptionStore → List EventSubscriptionState
list self = values self.subscriptions

unfoldable pub get : SubscriptionStore → EventSubscriptionKey → Option EventSubscriptionState
get self k = lookup k self.subscriptions

-- The subscription as this node stores it.
unfoldable pub owned : SubscriptionStore → EventSubscriptionState → EventSubscriptionState
owned self subscription = record subscription { node_id = self.node_id }

-- `self._subscriptions[subscription.key] = EventSubscriptionState(…)`
unfoldable pub put : SubscriptionStore → EventSubscriptionState → SubscriptionStore
unfolding owned key
put self subscription = record self {
  subscriptions = assign (key subscription) (owned self subscription) self.subscriptions;
}

unfoldable pub add : SubscriptionStore → EventSubscriptionState → Outcome
unfolding get put
add self subscription = elim (get self (key subscription)) [
  | none ↦ (ok tt, put self subscription)
  | some existing ↦ (err (value_error "Can't add existing subscription."), self)
]

unfoldable pub remove : SubscriptionStore → EventSubscriptionState → Outcome
unfolding get
remove self subscription = elim (get self (key subscription)) [
  | none ↦ (err (value_error "Can't remove missing subscription."), self)
  | some existing ↦
      (ok tt, record self { subscriptions = pop (key subscription) self.subscriptions })
]

unfoldable pub replace : SubscriptionStore → EventSubscriptionState → Outcome
unfolding get put
replace self subscription = elim (get self (key subscription)) [
  | none ↦ (err (value_error "Can't replace missing subscription."), self)
  | some existing ↦ (ok tt, put self subscription)
]

-- One turn of the loop of `apply`.
unfoldable pub apply_change : SubscriptionStore → EventSubscriptionStateChange → Outcome
unfolding add remove replace
apply_change self change = elim change.type [
  | add_change ↦ add self change.subscription
  | replace_change ↦ replace self change.subscription
  | remove_change ↦ remove self change.subscription
]

-- The loop: the changes before the one that raises stay made.
unfoldable pub apply_changes : SubscriptionStore → List EventSubscriptionStateChange → Outcome
unfolding apply_change
apply_changes self [] = (ok tt, self)
apply_changes self (change ∷ changes) =
    let outcome = apply_change self change in
    elim outcome.0 [ ok u ↦ apply_changes outcome.1 changes | err e ↦ (err e, outcome.1) ]

-- `set(…)` of keys
unfoldable pub set_of : List EventSubscriptionKey → List EventSubscriptionKey
set_of [] = []
set_of (k ∷ keys) =
    let rest = set_of keys in if any (λ other. other == k) rest then rest else k ∷ rest

unfoldable pub change_key : EventSubscriptionStateChange → EventSubscriptionKey
unfolding key
change_key change = key change.subscription

unfoldable pub apply : SubscriptionStore → List EventSubscriptionStateChange → Outcome
unfolding apply_changes set_of change_key
apply self changes =
    if nat_beq (length (set_of (map change_key changes))) (length changes)
    then apply_changes self changes
    else (err (value_error "Multiple changes present for same subscription key."), self)
