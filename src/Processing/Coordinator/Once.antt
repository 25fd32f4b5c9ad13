-- ===== src/Processing/Coordinator/Once.antt =====
-- Each source that a group asks for is given to one of its subscribers.
use event_store.Prelude.{
  ℕ, ◌+◌, ◌≤◌, ◌≡◌, refl, sym, ap, ◌∙◌, true, false, ◌&&◌, not, List, ◌++◌, map, any, select, All,
  arith, ◌==◌, ok, String, Bool-cases, inl, inr, bit, sum, sum-append, sum-le, count, member,
  member-select, any-sum, any-cong_on, sum-select, sum-cong, sum-zero, member-All, if◌then◌else◌,
  ltb,
}
use event_store.Types.Identifier.{EventSourceIdentifier, identifier_eq}
use event_store.Processing.Subscriptions.{
  EventSubscriptionKey, key_eq, key, EventSubscriptionStateChange,
}
use event_store.Processing.Subscribers.{EventSubscriberState, state_key}
use event_store.Processing.Difference.{contains, minus}
use event_store.Processing.Difference.Found.{contains-minus}
use event_store.Processing.Coordinator.{
  has_key, SubscriptionMap, group_subscriptions, sources_where, Sets, ineligible_changes,
  is_eligible, allocate,
}
use event_store.Processing.Coordinator.Groups.{
  HasDistinctKeys, HasDistinctKeys-select, has_key-select, sum-of_subscribers, any-of_subscribers,
  any-map, any-group_subscriptions, contains-sources_where, state_eq,
}
use event_store.Processing.Coordinator.Allocation.{given, holds, given-removals, given-eligible}
use event_store.Processing.Coordinator.Keys.{Keyed, asks-key, any-selected}

-- All or none of what is kept and what is new.
kept_and_new : (a b : ℕ) → a ≤ b → b ≤ 1 → a + bit (not (ltb 0 a)) ≡ 1
kept_and_new a b h k = ground arith

module _ (set : Sets)
    (of_sources : (l : List EventSourceIdentifier) (x : EventSourceIdentifier)
      → count x (set.of_sources l) ≡ bit (member x l))
    (of_subscribers : (l : List EventSubscriberState) (s : EventSubscriberState)
      → count s (set.of_subscribers l) ≡ bit (member s l))
    (m : SubscriptionMap) (subscriber_map : List EventSubscriptionKey)
    (l : List EventSubscriberState) (target : List EventSourceIdentifier) where
  eligible : List EventSubscriberState
  eligible = set.of_subscribers (select (is_eligible target) l)

  correctly_allocated : List EventSourceIdentifier
  correctly_allocated =
      sources_where (λ s x. has_key (key s) (map state_key eligible) && contains x target)
        (group_subscriptions m l)

  removed : List EventSourceIdentifier
  removed =
      select (λ x. not (contains x target))
        (sources_where (λ s x. has_key (key s) subscriber_map) (group_subscriptions m l))

  has_key-eligible :
      (s : EventSubscriberState)
      → HasDistinctKeys l
      → member s l ≡ true
      → has_key (state_key s) (map state_key eligible) ≡ is_eligible target s
  unfolding eligible
  has_key-eligible s distinct there =
      any-map (λ k. k == state_key s) eligible
      ∙ any-of_subscribers set.of_subscribers of_subscribers (λ t. state_key t == state_key s)
          (select (is_eligible target) l) (HasDistinctKeys-select (is_eligible target) l distinct)
      ∙ sym (any-map (λ k. k == state_key s) (select (is_eligible target) l))
      ∙ has_key-select (is_eligible target) l s distinct there

  contains-correctly_allocated :
      (x : EventSourceIdentifier)
      → Keyed m
      → HasDistinctKeys l
      → contains x target ≡ true
      → contains x correctly_allocated ≡ any (λ s. holds x m s && is_eligible target s) l
  unfolding correctly_allocated
  contains-correctly_allocated x keyed distinct wanted =
      contains-sources_where _ x (group_subscriptions m l)
      ∙ any-group_subscriptions _ m l
      ∙ any-cong_on _ _ l (λ s there.
        asks-key m (λ sub. contains x sub.event_sources)
          (λ k. has_key k (map state_key eligible) && contains x target) s keyed
        ∙ ground (arith, wanted, has_key-eligible s distinct there))

  contains-removed :
      (x : EventSourceIdentifier)
      → Keyed m
      → All (λ s. has_key (state_key s) subscriber_map ≡ true) l
      → contains x removed ≡ (any (holds x m) l && not (contains x target))
  unfolding removed
  contains-removed x keyed known =
      member-select x (λ x. not (contains x target)) _
      ∙ ap (λ b. b && not (contains x target))
          (contains-sources_where _ x (group_subscriptions m l)
            ∙ any-group_subscriptions _ m l
            ∙ any-cong_on _ _ l (λ s there.
              asks-key m (λ sub. contains x sub.event_sources) (λ k. has_key k subscriber_map) s
                keyed
              ∙ ground (arith, member-All _ s l known there)))

  -- What the eligible subscribers keep, as a sum over all the subscribers.
  kept : EventSourceIdentifier → ℕ
  kept x = sum (λ s. bit (holds x m s && not (contains x removed))) eligible

  kept-eq :
      (x : EventSourceIdentifier)
      → HasDistinctKeys l
      → kept x
        ≡ sum
            (λ s. if is_eligible target s then bit (holds x m s && not (contains x removed)) else 0)
            l
  unfolding kept eligible
  kept-eq x distinct =
      sum-of_subscribers set.of_subscribers of_subscribers _ (select (is_eligible target) l)
        (HasDistinctKeys-select (is_eligible target) l distinct)
      ∙ sum-select _ (is_eligible target) l

  -- What is wanted is kept once or is new, and what is not wanted is neither.
  kept-wanted :
      (x : EventSourceIdentifier)
      → Keyed m
      → HasDistinctKeys l
      → All (λ s. has_key (state_key s) subscriber_map ≡ true) l
      → sum (λ s. bit (holds x m s)) l ≤ 1
      → contains x target ≡ true
      → kept x + count x (set.of_sources (minus target correctly_allocated)) ≡ 1
  kept-wanted x keyed distinct known exclusive wanted =
      let kept_here : kept x ≡ sum (λ s. bit (holds x m s && is_eligible target s)) l =
        kept-eq x distinct
        ∙ sum-cong _ _ l (λ s. ground (arith, wanted, contains-removed x keyed known)) in
      let new =
        of_sources (minus target correctly_allocated) x
        ∙ ap bit (contains-minus x target correctly_allocated) in
      let correct =
        contains-correctly_allocated x keyed distinct wanted
        ∙ any-sum (λ s. holds x m s && is_eligible target s) l in
      let fewer =
        sum-le (λ s. bit (holds x m s && is_eligible target s)) (λ s. bit (holds x m s)) l
          (λ s. ground arith) in
      ground (arith, kept_here, new, correct, fewer, exclusive, wanted)

  kept-unwanted :
      (x : EventSourceIdentifier)
      → Keyed m
      → HasDistinctKeys l
      → All (λ s. has_key (state_key s) subscriber_map ≡ true) l
      → contains x target ≡ false
      → kept x + count x (set.of_sources (minus target correctly_allocated)) ≡ 0
  kept-unwanted x keyed distinct known unwanted =
      let new =
        of_sources (minus target correctly_allocated) x
        ∙ ap bit (contains-minus x target correctly_allocated) in
      let away = contains-removed x keyed known in
      let fewer =
        sum-le
          (λ s. if is_eligible target s then bit (holds x m s && not (contains x removed)) else 0)
          (λ s. bit (holds x m s && not (contains x removed))) l (λ s. ground arith) in
      let none_kept : sum (λ s. bit (holds x m s && not (contains x removed))) l ≡ 0 =
        elim (Bool-cases (any (holds x m) l)) [
          | inl e ↦ sum-zero _ l (λ s. ground (arith, away, e, unwanted))
          | inr e ↦
              let at_most =
                sum-le (λ s. bit (holds x m s && not (contains x removed))) (λ s. bit (holds x m s))
                  l (λ s. ground arith) in
              ground (arith, at_most, e, any-sum (holds x m) l)
        ] in
      ground (arith, new, unwanted, kept-eq x distinct, fewer, none_kept)

  -- An allocation to a group with an eligible subscriber makes changes that give each source of the
  -- target once, and no other source.
  pub allocate-once :
      (group : String)
      → Keyed m
      → HasDistinctKeys l
      → All (λ s. has_key (state_key s) subscriber_map ≡ true) l
      → ((x : EventSourceIdentifier) → sum (λ s. bit (holds x m s)) l ≤ 1)
      → any (is_eligible target) l ≡ true
      → (changes : List EventSubscriptionStateChange) × (allocate set m subscriber_map group l
            target
          ≡ ok changes)
        × ((x : EventSourceIdentifier) → sum (given x) changes ≡ bit (contains x target))
  unfolding allocate eligible correctly_allocated removed kept ineligible_changes
  allocate-once group keyed distinct known exclusive nonempty =
      let there : any (is_eligible target) eligible ≡ true =
        any-of_subscribers set.of_subscribers of_subscribers (is_eligible target)
          (select (is_eligible target) l) (HasDistinctKeys-select (is_eligible target) l distinct)
        ∙ any-selected (is_eligible target) l
        ∙ nonempty in
      let (changes, same, sums) =
        given-eligible set of_sources m removed group
          (set.of_sources (minus target correctly_allocated)) (is_eligible target) eligible there in
      let ineligible = set.of_subscribers (select (λ s. not (is_eligible target s)) l) in
      (
        ineligible_changes m ineligible ++ changes,
        rw same refl,
        λ x.
            let removals : sum (given x) (ineligible_changes m ineligible) ≡ 0 =
              given-removals x (group_subscriptions m ineligible) in
            let split = sum-append (given x) (ineligible_changes m ineligible) changes in
            elim (Bool-cases (contains x target)) [
              | inl e ↦ ground (
                arith,
                split,
                removals,
                sums x,
                e,
                kept-wanted x keyed distinct known (exclusive x) e,
              )
              | inr e ↦
                  ground (arith, split, removals, sums x, e, kept-unwanted x keyed distinct known e)
            ],
      )
