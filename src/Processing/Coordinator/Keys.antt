-- ===== src/Processing/Coordinator/Keys.antt =====
-- The subscriptions of `distribute` by their keys.
use event_store.Prelude.{
  ◌≡◌, refl, ap, Bool, ◌&&◌, some, List, [], ◌∷◌, any, select, arith, ◌==◌, lookup, assign,
  lookup-assign, Bool-cases, Option-cases, inl, inr,
}
use event_store.Types.Identifier.{identifier_eq}
use event_store.Processing.Subscriptions.{EventSubscriptionKey, key_eq, EventSubscriptionState, key}
use event_store.Processing.Subscribers.{EventSubscriberState, state_key}
use event_store.Processing.Difference.{map_from}
use event_store.Processing.Coordinator.{SubscriptionMap}
use event_store.Processing.Coordinator.Groups.{asks, state_eq}

-- A subscription stands under its own key.
abbrev pub Keyed : SubscriptionMap → Type 0
Keyed m = (k : EventSubscriptionKey) (s : EventSubscriptionState) → lookup k m ≡ some s → key s ≡ k

Keyed-assign :
    (t : EventSubscriptionState) (m : SubscriptionMap) → Keyed m → Keyed (assign (key t) t m)
Keyed-assign t m h k s found = elim (Bool-cases (key t == k)) [
  | inl e ↦
      let same : some t ≡ some s = ground (arith, found, lookup-assign (key t) t m k, e) in
      let at_k = (key_eq.test_iff (key t) k).0 e in ground (arith, same, at_k)
  | inr e ↦ h k s (ground (arith, found, lookup-assign (key t) t m k, e))
]

pub Keyed-map_from :
    (l : List EventSubscriptionState) (m : SubscriptionMap) → Keyed m → Keyed (map_from l m)
unfolding map_from
Keyed-map_from [] m h = h
Keyed-map_from (s ∷ l) m h = Keyed-map_from l (assign (key s) s m) (Keyed-assign s m h)

pub Keyed-nil : Keyed []
Keyed-nil k s found = ground arith

-- Where each subscription has its own key, its key is that of its subscriber.
pub asks-key :
    (m : SubscriptionMap) (test : EventSubscriptionState → Bool) (g : EventSubscriptionKey → Bool)
    (s : EventSubscriberState)
    → Keyed m
    → asks (λ sub. test sub && g (key sub)) m s ≡ (asks test m s && g (state_key s))
asks-key m test g s keyed = elim (Option-cases (lookup (state_key s) m)) [
  | inl e ↦ rw e refl
  | inr (sub, e) ↦ rw e (ap (λ k. test sub && g k) (keyed (state_key s) sub e))
]

pub any-selected :
    (p : EventSubscriberState → Bool) (l : List EventSubscriberState) → any p (select p l) ≡ any p l
any-selected p [] = refl
any-selected p (s ∷ l) = ground (arith, any-selected p l)
