-- ===== src/Processing/Coordinator/Groups.antt =====
-- The subscribers of a group, and the subscriptions that they have.
use event_store.Prelude.{
  ℕ, ◌≡◌, ◌↔◌, refl, sym, ap, ◌∙◌, subst, Bool, true, false, ◌&&◌, ◌||◌, List, [], ◌∷◌, map, any,
  select, All, All-select, arith, HasEquality, ◌==◌, string_eq, nat_eq, list_eq, list_beq,
  list_beq_iff, lookup, Bool-cases, Option-cases, inl, inr, bit, sum, count, member, member-select,
  any-sum, sum-same_counts, ltb,
}
use event_store.Types.Identifier.{EventSourceIdentifier, identifier_eq}
use event_store.Processing.Subscriptions.{EventSubscriptionKey, key_eq, EventSubscriptionState}
use event_store.Processing.Subscribers.{EventSubscriberState, state_key, state_beq}
use event_store.Processing.Difference.{contains}
use event_store.Processing.Difference.Found.{any-append, of_found}
use event_store.Processing.Coordinator.{
  has_key, SubscriptionMap, group_subscriptions, sources_where,
}

requests_iff : (xs ys : List EventSourceIdentifier) → (list_beq xs ys ≡ true) ↔ (xs ≡ ys)
requests_iff xs ys = list_beq_iff xs ys

pub state_beq_iff : (a b : EventSubscriberState) → (state_beq a b ≡ true) ↔ (a ≡ b)
state_beq_iff a b = ground (
  arith,
  string_eq.test_iff a.group b.group,
  string_eq.test_iff a.id b.id,
  string_eq.test_iff a.node_id b.node_id,
  requests_iff a.subscription_requests b.subscription_requests,
  nat_eq.test_iff a.last_seen b.last_seen,
)

instance abbrev pub state_eq : HasEquality EventSubscriberState
state_eq = record { test = state_beq; test_iff = state_beq_iff }

-- No two subscribers have the same key.
abbrev pub HasDistinctKeys : List EventSubscriberState → Type 0
HasDistinctKeys [] = Unit
HasDistinctKeys (s ∷ l) = All (λ t. (state_key t == state_key s) ≡ false) l × HasDistinctKeys l

pub HasDistinctKeys-select :
    (p : EventSubscriberState → Bool) (l : List EventSubscriberState)
    → HasDistinctKeys l
    → HasDistinctKeys (select p l)
HasDistinctKeys-select p [] h = tt
HasDistinctKeys-select p (s ∷ l) h = elim (Bool-cases (p s)) [
  | inl e ↦ rw e (All-select _ p l h.0, HasDistinctKeys-select p l h.1)
  | inr e ↦ rw e (HasDistinctKeys-select p l h.1)
]

-- A subscriber whose key none has is not there.
member-no_key :
    (s t : EventSubscriberState) (l : List EventSubscriberState)
    → All (λ u. (state_key u == state_key s) ≡ false) l
    → state_key t ≡ state_key s
    → member t l ≡ false
member-no_key s t [] h same = refl
member-no_key s t (u ∷ l) h same =
    let differs : (u == t) ≡ true → (state_key u == state_key s) ≡ true = λ e.
      (key_eq.test_iff (state_key u) (state_key s)).1
        (ap state_key ((state_eq.test_iff u t).0 e) ∙ same) in
    ground (arith, differs, h.0, member-no_key s t l h.1 same)

count-HasDistinctKeys :
    (s : EventSubscriberState) (l : List EventSubscriberState)
    → HasDistinctKeys l
    → count s l ≡ bit (member s l)
count-HasDistinctKeys s [] h = refl
count-HasDistinctKeys s (t ∷ l) h =
    let absent : (t == s) ≡ true → member s l ≡ false =
      λ e. member-no_key t s l h.0 (ap state_key (sym ((state_eq.test_iff t s).0 e))) in
    ground (arith, absent, count-HasDistinctKeys s l h.1)

has_key-absent :
    (p : EventSubscriberState → Bool) (l : List EventSubscriberState) (s : EventSubscriberState)
    → All (λ u. (state_key u == state_key s) ≡ false) l
    → has_key (state_key s) (map state_key (select p l)) ≡ false
has_key-absent p [] s h = refl
has_key-absent p (t ∷ l) s h = elim (Bool-cases (p t)) [
  | inl e ↦ rw e (ground (arith, h.0, has_key-absent p l s h.1))
  | inr e ↦ rw e (has_key-absent p l s h.1)
]

key-differs :
    (t s : EventSubscriberState) (l : List EventSubscriberState)
    → All (λ u. (state_key u == state_key t) ≡ false) l
    → member s l ≡ true
    → (state_key t == state_key s) ≡ false
key-differs t s l h m = elim (Bool-cases (state_key t == state_key s)) [
  | inl e ↦
      let absent =
        member-no_key t s l h (sym ((key_eq.test_iff (state_key t) (state_key s)).0 e)) in
      ground (arith, absent, m)
  | inr e ↦ e
]

-- Of the subscribers of a group, the keys of those that pass a test tell them.
pub has_key-select :
    (p : EventSubscriberState → Bool) (l : List EventSubscriberState) (s : EventSubscriberState)
    → HasDistinctKeys l
    → member s l ≡ true
    → has_key (state_key s) (map state_key (select p l)) ≡ p s
has_key-select p [] s h m = ground arith
has_key-select p (t ∷ l) s h m = elim (Bool-cases (t == s)) [
  | inl e ↦
      let same : t ≡ s = (state_eq.test_iff t s).0 e in
      let here : (state_key t == state_key s) ≡ true =
        (key_eq.test_iff (state_key t) (state_key s)).1 (ap state_key same) in
      let absent =
        has_key-absent p l s
          (subst (λ u. All (λ v. (state_key v == state_key u) ≡ false) l) same h.0) in
      elim (Bool-cases (p t)) [
        | inl q ↦ rw q (ground (arith, here, q, ap p same))
        | inr q ↦ rw q (ground (arith, absent, q, ap p same))
      ]
  | inr e ↦
      let there : member s l ≡ true = ground (arith, m, e) in
      let differs = key-differs t s l h.0 there in
      let rest = has_key-select p l s h.1 there in
      elim (Bool-cases (p t)) [ inl q ↦ rw q (ground (arith, differs, rest)) | inr q ↦ rw q rest ]
]

-- A set of subscribers with distinct keys answers as their list does.
module _ (of_subscribers : List EventSubscriberState → List EventSubscriberState)
    (counted : (l : List EventSubscriberState) (s : EventSubscriberState)
      → count s (of_subscribers l) ≡ bit (member s l)) where
  pub sum-of_subscribers :
      (f : EventSubscriberState → ℕ) (l : List EventSubscriberState)
      → HasDistinctKeys l
      → sum f (of_subscribers l) ≡ sum f l
  sum-of_subscribers f l h =
      sum-same_counts f (of_subscribers l) l (λ s. counted l s ∙ sym (count-HasDistinctKeys s l h))

  pub any-of_subscribers :
      (p : EventSubscriberState → Bool) (l : List EventSubscriberState)
      → HasDistinctKeys l
      → any p (of_subscribers l) ≡ any p l
  any-of_subscribers p l h =
      any-sum p (of_subscribers l)
      ∙ ap (λ n. ltb 0 n) (sum-of_subscribers (λ s. bit (p s)) l h)
      ∙ sym (any-sum p l)

pub any-map :
    (p : EventSubscriptionKey → Bool) (l : List EventSubscriberState)
    → any p (map state_key l) ≡ any (λ s. p (state_key s)) l
any-map p [] = refl
any-map p (s ∷ l) = ground (arith, any-map p l)

-- A question to the subscription of a subscriber.
abbrev pub asks : (EventSubscriptionState → Bool) → SubscriptionMap → EventSubscriberState → Bool
asks g m s = of_found g (lookup (state_key s) m)

pub any-group_subscriptions :
    (g : EventSubscriptionState → Bool) (m : SubscriptionMap) (l : List EventSubscriberState)
    → any g (group_subscriptions m l) ≡ any (asks g m) l
unfolding group_subscriptions
any-group_subscriptions g m [] = refl
any-group_subscriptions g m (s ∷ l) = elim (Option-cases (lookup (state_key s) m)) [
  | inl e ↦ rw (e, group_subscriptions) (any-group_subscriptions g m l)
  | inr (subscription, e) ↦
      rw (e, group_subscriptions) (ap (λ b. g subscription || b) (any-group_subscriptions g m l))
]

pub contains-sources_where :
    (test : EventSubscriptionState → EventSourceIdentifier → Bool) (x : EventSourceIdentifier)
    (l : List EventSubscriptionState)
    → contains x (sources_where test l) ≡ any (λ s. contains x s.event_sources && test s x) l
unfolding sources_where
contains-sources_where test x [] = refl
contains-sources_where test x (s ∷ l) =
    any-append _ (select (test s) s.event_sources) (sources_where test l)
    ∙ (rw (member-select x (test s) s.event_sources, contains-sources_where test x l) refl)
