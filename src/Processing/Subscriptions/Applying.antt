-- ===== src/Processing/Subscriptions/Applying.antt =====
-- What a set of changes does to the store of subscriptions.
use event_store.Prelude.{
  suc, ◌≡◌, refl, ap, ◌∙◌, subst, Bool, true, false, Option, none, some, List, [], ◌∷◌, map, arith,
  length, any, ok, ◌==◌, if◌then◌else◌, lookup-assign, lookup-pop, pop, All, Bool-cases, beq_refl,
  nat_eq, Option-cases, inl, inr,
}
use event_store.Processing.Subscriptions.{
  EventSubscriptionKey, key_eq, EventSubscriptionState, EventSubscriptionStateChangeType,
  add_change, remove_change, replace_change, EventSubscriptionStateChange, SubscriptionStore, get,
  owned, put, add, remove, replace, apply_change, apply_changes, set_of, change_key, apply, key,
}

-- What a change makes of the subscription with its key.
abbrev pub effect : SubscriptionStore → EventSubscriptionStateChange → Option EventSubscriptionState
effect self change = elim change.type [
  | add_change ↦ some (record change.subscription { node_id = self.node_id })
  | replace_change ↦ some (record change.subscription { node_id = self.node_id })
  | remove_change ↦ none
]

-- A subscription that is added is not there, and one that is replaced or removed is.
abbrev pub is_applicable : Option EventSubscriptionState → EventSubscriptionStateChange → Bool
is_applicable existing change = elim change.type [
  | add_change ↦ elim existing [ none ↦ true | some s ↦ false ]
  | replace_change ↦ elim existing [ none ↦ false | some s ↦ true ]
  | remove_change ↦ elim existing [ none ↦ false | some s ↦ true ]
]

-- A change that is applicable is made: it raises nothing, and has its effect on its key alone.
abbrev IsMade : SubscriptionStore → EventSubscriptionStateChange → Type 0
IsMade self change =
    ((apply_change self change).0 ≡ ok tt)
    × ((apply_change self change).1.node_id ≡ self.node_id)
    × ((k : EventSubscriptionKey)
        → get (apply_change self change).1 k
          ≡ (if change_key change == k then effect self change else get self k))

add-free :
    (self : SubscriptionStore) (subscription : EventSubscriptionState)
    → get self (key subscription) ≡ none
    → add self subscription ≡ (ok tt, put self subscription)
unfolding add
add-free self subscription h = rw (h, add) refl

replace-taken :
    (self : SubscriptionStore) (subscription s : EventSubscriptionState)
    → get self (key subscription) ≡ some s
    → replace self subscription ≡ (ok tt, put self subscription)
unfolding replace
replace-taken self subscription s h = rw (h, replace) refl

remove-taken :
    (self : SubscriptionStore) (subscription s : EventSubscriptionState)
    → get self (key subscription) ≡ some s
    → remove self subscription
      ≡ (ok tt, record self { subscriptions = pop (key subscription) self.subscriptions })
unfolding remove
remove-taken self subscription s h = rw (h, remove) refl

get-put :
    (self : SubscriptionStore) (subscription : EventSubscriptionState) (k : EventSubscriptionKey)
    → get (put self subscription) k ≡ (
        if key subscription == k
        then some (record subscription { node_id = self.node_id })
        else get self k)
unfolding get put owned
get-put self subscription k = lookup-assign (key subscription) _ self.subscriptions k

get-pop :
    (self : SubscriptionStore) (j k : EventSubscriptionKey)
    → get (record self { subscriptions = pop j self.subscriptions }) k
      ≡ (if j == k then none else get self k)
unfolding get
get-pop self j k = lookup-pop j self.subscriptions k

put-node_id :
    (self : SubscriptionStore) (subscription : EventSubscriptionState)
    → (put self subscription).node_id ≡ self.node_id
unfolding put
put-node_id self subscription = refl

change-IsMade :
    (self : SubscriptionStore) (type : EventSubscriptionStateChangeType)
    (subscription : EventSubscriptionState)
    → let change : EventSubscriptionStateChange = record {
      type = type;
      subscription = subscription;
    } in
      is_applicable (get self (change_key change)) change ≡ true → IsMade self change
unfolding apply_change change_key
change-IsMade self add_change subscription h = elim (Option-cases (get self (key subscription))) [
  | inl q ↦
      rw (add-free self subscription q)
        (refl, put-node_id self subscription, get-put self subscription)
  | inr (s, q) ↦ ground (arith, h, q)
]
change-IsMade self replace_change subscription h =
    elim (Option-cases (get self (key subscription))) [
      | inl q ↦ ground (arith, h, q)
      | inr (s, q) ↦
          rw (replace-taken self subscription s q)
            (refl, put-node_id self subscription, get-put self subscription)
    ]
change-IsMade self remove_change subscription h =
    elim (Option-cases (get self (key subscription))) [
      | inl q ↦ ground (arith, h, q)
      | inr (s, q) ↦
          rw (remove-taken self subscription s q) (refl, refl, get-pop self (key subscription))
    ]

abbrev pub HasDistinctKeys : List EventSubscriptionStateChange → Type 0
HasDistinctKeys [] = Unit
HasDistinctKeys (c ∷ changes) =
    All (λ d. (change_key c == change_key d) ≡ false) changes × HasDistinctKeys changes

abbrev pub AreApplicable : SubscriptionStore → List EventSubscriptionStateChange → Type 0
AreApplicable self = All (λ c. is_applicable (get self (change_key c)) c ≡ true)

-- What is stored under a key after the changes: what its change makes of it, or what was there.
abbrev pub expected :
    SubscriptionStore
    → List EventSubscriptionStateChange
    → EventSubscriptionKey
    → Option EventSubscriptionState
expected self [] k = get self k
expected self (c ∷ changes) k =
    let rest = expected self changes k in if change_key c == k then effect self c else rest

-- A change leaves the others applicable, and what they are to do.
still_applicable :
    (self : SubscriptionStore) (c : EventSubscriptionStateChange)
    (changes : List EventSubscriptionStateChange)
    → IsMade self c
    → All (λ d. (change_key c == change_key d) ≡ false) changes
    → AreApplicable self changes
    → AreApplicable (apply_change self c).1 changes
still_applicable self c [] made differ h = tt
still_applicable self c (d ∷ changes) made differ h =
    (rw (made.2 (change_key d), differ.0) h.0, still_applicable self c changes made differ.1 h.1)

effect-node_id :
    (self self' : SubscriptionStore) (type : EventSubscriptionStateChangeType)
    (subscription : EventSubscriptionState)
    → self'.node_id ≡ self.node_id
    → let change : EventSubscriptionStateChange = record {
      type = type;
      subscription = subscription;
    } in
      effect self' change ≡ effect self change
effect-node_id self self' add_change subscription h = rw h refl
effect-node_id self self' replace_change subscription h = rw h refl
effect-node_id self self' remove_change subscription h = refl

expected-step :
    (self : SubscriptionStore) (c : EventSubscriptionStateChange)
    (changes : List EventSubscriptionStateChange) (k : EventSubscriptionKey)
    → IsMade self c
    → All (λ d. (change_key c == change_key d) ≡ false) changes
    → expected (apply_change self c).1 changes k ≡ expected self (c ∷ changes) k
expected-step self c [] k made differ = made.2 k
expected-step self c (d ∷ changes) k made differ = elim (Bool-cases (change_key d == k)) [
  | inl h ↦
      let other : (change_key c == k) ≡ false =
        subst (λ j. (change_key c == j) ≡ false) ((key_eq.test_iff (change_key d) k).0 h)
          differ.0 in
      rw (h, other) (effect-node_id self (apply_change self c).1 d.type d.subscription made.1)
  | inr h ↦ rw h (expected-step self c changes k made differ.1)
]

-- Changes with different keys that are applicable to the store as it is are all made: nothing is
-- raised, and each key then has what its change makes of it.
apply_changes-expected :
    (self : SubscriptionStore) (changes : List EventSubscriptionStateChange)
    → HasDistinctKeys changes
    → AreApplicable self changes
    → ((apply_changes self changes).0 ≡ ok tt)
      × ((k : EventSubscriptionKey)
          → get (apply_changes self changes).1 k ≡ expected self changes k)
unfolding apply_changes
apply_changes-expected self [] d h = (refl, λ k. refl)
apply_changes-expected self (c ∷ changes) d h =
    let made = change-IsMade self c.type c.subscription h.0 in
    let (raised, stored) =
      apply_changes-expected (apply_change self c).1 changes d.1
        (still_applicable self c changes made d.0 h.1) in
    rw (made.0, apply_changes) (raised, λ k. stored k ∙ expected-step self c changes k made d.0)

any-differ :
    (k : EventSubscriptionKey) (changes : List EventSubscriptionStateChange)
    → All (λ d. (k == change_key d) ≡ false) changes
    → any (λ other. other == k) (map change_key changes) ≡ false
any-differ k [] h = refl
any-differ k (d ∷ changes) h = ground (
  arith,
  h.0,
  key_eq.test_iff k (change_key d),
  key_eq.test_iff (change_key d) k,
  any-differ k changes h.1,
)

set_of-distinct :
    (changes : List EventSubscriptionStateChange)
    → HasDistinctKeys changes
    → set_of (map change_key changes) ≡ map change_key changes
unfolding set_of
set_of-distinct [] d = refl
set_of-distinct (c ∷ changes) d =
    rw (set_of-distinct changes d.1, any-differ (change_key c) changes d.0) refl

length-map :
    (changes : List EventSubscriptionStateChange) → length (map change_key changes) ≡ length changes
length-map [] = refl
length-map (c ∷ changes) = ap suc (length-map changes)

-- Changes with different keys, each applicable to the store as it is when they are given (an
-- addition of what is missing, a replacement or a removal of what is there), are all made: nothing
-- is raised, and each key then has what its change makes of it, or what it had, if it has no
-- change.
pub apply-expected :
    (self : SubscriptionStore) (changes : List EventSubscriptionStateChange)
    → HasDistinctKeys changes
    → AreApplicable self changes
    → ((apply self changes).0 ≡ ok tt)
      × ((k : EventSubscriptionKey) → get (apply self changes).1 k ≡ expected self changes k)
unfolding apply
apply-expected self changes d h =
    rw (set_of-distinct changes d, length-map changes, beq_refl (length changes))
      (apply_changes-expected self changes d h)
