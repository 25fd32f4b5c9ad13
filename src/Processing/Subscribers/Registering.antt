-- ===== src/Processing/Subscribers/Registering.antt =====
-- What registering a subscriber does to the others.
use event_store.Prelude.{
  ℕ, zero, suc, ◌≡◌, refl, ap, sym, ◌∙◌, true, false, Option, none, some, List, [], ◌∷◌, ◌++◌,
  arith, set, ◌==◌, if◌then◌else◌, Bool-cases, Option-cases, inl, inr, beq_ne, ◌≢◌,
}
use event_store.Processing.Subscriptions.{EventSubscriptionKey, key_eq}
use event_store.Processing.Subscribers.{
  EventSubscriber, EventSubscriberState, SubscriberStore, subscriber_key, state_key, find,
  find_index, state_of, heartbeat, add,
}

abbrev suc_of : Option ℕ → Option ℕ
suc_of none = none
suc_of (some n) = some (suc n)

find_index-suc :
    (k : EventSubscriptionKey) (index : ℕ) (xs : List EventSubscriberState)
    → find_index k (suc index) xs ≡ suc_of (find_index k index xs)
unfolding find_index
find_index-suc k index [] = refl
find_index-suc k index (x ∷ xs) = elim (Bool-cases (k == state_key x)) [
  | inl h ↦ rw h refl
  | inr h ↦ rw h (find_index-suc k (suc index) xs)
]

found-indexed :
    (k : EventSubscriptionKey) (xs : List EventSubscriberState) (e : EventSubscriberState)
    → find k xs ≡ some e
    → (n : ℕ) × (find_index k 0 xs ≡ some n)
unfolding find find_index
found-indexed k [] e h = ground (arith, h)
found-indexed k (x ∷ xs) e h = elim (Bool-cases (k == state_key x)) [
  | inl q ↦ (0, rw q refl)
  | inr q ↦
      let (n, indexed) = found-indexed k xs e (ground (arith, h, q)) in
      (suc n, rw q (rw (find_index-suc k 0 xs, indexed) refl))
]

index-injective : (o : Option ℕ) (n : ℕ) → suc_of o ≡ some (suc n) → o ≡ some n
index-injective none n h = ground (arith, h)
index-injective (some m) n h = ground (arith, h)

index-suc_not_zero : (o : Option ℕ) → suc_of o ≢ some 0
index-suc_not_zero none h = ground (arith, h)
index-suc_not_zero (some m) h = ground (arith, h)

not_here :
    (k : EventSubscriptionKey) (new x : EventSubscriberState)
    → (state_key new == state_key x) ≡ false
    → (k == state_key x) ≡ true
    → (k == state_key new) ≡ false
not_here k new x q here =
    beq_ne k (state_key new)
      (λ same. ground (arith, q, ap (λ j. j == state_key x) (sym same) ∙ here))

-- Writing at the index of a key replaces what is found for the key alone.
find-set :
    (k : EventSubscriptionKey) (new : EventSubscriberState) (xs : List EventSubscriberState) (n : ℕ)
    → find_index (state_key new) 0 xs ≡ some n
    → find k (set xs n new) ≡ (if k == state_key new then some new else find k xs)
unfolding find find_index
find-set k new [] n h = ground (arith, h)
find-set k new (x ∷ xs) zero h = elim (Bool-cases (state_key new == state_key x)) [
  | inl q ↦
      let same : (k == state_key x) ≡ (k == state_key new) =
        ap (λ j. k == j) (sym ((key_eq.test_iff (state_key new) (state_key x)).0 q)) in
      ground (arith, same)
  | inr q ↦ absurd (
      index-suc_not_zero (find_index (state_key new) 0 xs)
        (sym (find_index-suc (state_key new) 0 xs) ∙ ground (arith, q, h)))
]
find-set k new (x ∷ xs) (suc n) h = elim (Bool-cases (state_key new == state_key x)) [
  | inl q ↦ ground (arith, q, h)
  | inr q ↦
      let rest = find-set k new xs n (
        index-injective (find_index (state_key new) 0 xs) n
          (sym (find_index-suc (state_key new) 0 xs) ∙ ground (arith, q, h))) in
      elim (Bool-cases (k == state_key x)) [
        | inl here ↦ rw (here, not_here k new x q here) refl
        | inr there ↦ rw (there, rest) refl
      ]
]

find-append :
    (k : EventSubscriptionKey) (new : EventSubscriberState) (xs : List EventSubscriberState)
    → find (state_key new) xs ≡ none
    → find k (xs ++ new ∷ []) ≡ (if k == state_key new then some new else find k xs)
unfolding find
find-append k new [] h = refl
find-append k new (x ∷ xs) h = elim (Bool-cases (state_key new == state_key x)) [
  | inl q ↦ ground (arith, q, h)
  | inr q ↦
      let rest = find-append k new xs (ground (arith, q, h)) in
      elim (Bool-cases (k == state_key x)) [
        | inl here ↦ rw (here, not_here k new x q here) refl
        | inr there ↦ rw (there, rest) refl
      ]
]

-- After a subscriber is added, whether it was there before or not, its key has the subscriber as it
-- now is, seen now, and every other key has what it had.
pub find-add :
    (self : SubscriberStore) (now : ℕ) (subscriber : EventSubscriber) (k : EventSubscriptionKey)
    → find k (add self now subscriber).subscribers ≡ (
        if k == subscriber_key subscriber
        then some (state_of self now subscriber)
        else find k self.subscribers)
unfolding add heartbeat state_of
find-add self now subscriber k =
    elim (Option-cases (find (subscriber_key subscriber) self.subscribers)) [
      | inl q ↦ rw (q, add) (find-append k (state_of self now subscriber) self.subscribers q)
      | inr (e, q) ↦
          let (n, indexed) = found-indexed (subscriber_key subscriber) self.subscribers e q in
          rw (q, add)
            (rw (indexed, heartbeat)
              (find-set k (state_of self now subscriber) self.subscribers n indexed))
    ]
