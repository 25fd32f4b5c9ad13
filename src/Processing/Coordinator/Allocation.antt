-- ===== src/Processing/Coordinator/Allocation.antt =====
-- What a turn of the loop over the groups gives to the subscribers of a group.
use event_store.Prelude.{
  ℕ, suc, ◌+◌, ◌≤◌, ◌<◌, ◌≡◌, refl, sym, ap, ◌∙◌, subst, Bool, true, ◌&&◌, not, List, [], ◌∷◌, map,
  any, length, arith, ◌==◌, ok, lookup, String, Option-cases, inl, inr, bit, sum, sum-append, count,
  member,
}
use event_store.Types.Identifier.{EventSourceIdentifier, identifier_eq}
use event_store.Processing.Subscriptions.{
  key_eq, EventSubscriptionState, EventSubscriptionStateChange, add_change, remove_change,
  replace_change,
}
use event_store.Processing.Subscribers.{EventSubscriberState, state_key}
use event_store.Processing.Difference.{contains, minus}
use event_store.Processing.Difference.Found.{contains-minus, of_found}
use event_store.Processing.Coordinator.{
  SubscriptionMap, Sets, eligible_change, eligible_changes, chunk, stride, chunk_at, removal,
}
use event_store.Processing.Coordinator.Chunks.{zero_add, get_elem?-chunks_from, spread, spread-all}
use event_store.Processing.Coordinator.Groups.{asks, state_eq}

-- How often the changes give a source to a subscriber that they keep or add.
abbrev pub given : EventSourceIdentifier → EventSubscriptionStateChange → ℕ
given x change = elim change.type [
  | add_change ↦ count x change.subscription.event_sources
  | replace_change ↦ count x change.subscription.event_sources
  | remove_change ↦ 0
]

-- Does a subscriber have a source already?
abbrev pub holds : EventSourceIdentifier → SubscriptionMap → EventSubscriberState → Bool
holds x m = asks (λ subscription. contains x subscription.event_sources) m

pub given-removals :
    (x : EventSourceIdentifier) (l : List EventSubscriptionState)
    → sum (given x) (map removal l) ≡ 0
unfolding removal
given-removals x [] = refl
given-removals x (s ∷ l) = omega (arith, given-removals x l)

chunk_at-chunk :
    (values : List EventSourceIdentifier) (n index : ℕ)
    → index < n
    → chunk_at (chunk values n) index ≡ ok (stride index n values)
unfolding chunk_at chunk
chunk_at-chunk values n index h =
    rw (get_elem?-chunks_from values n 0 n index h, chunk_at)
      (ap (λ k. ok (stride k n values)) (zero_add index))

module _ (set : Sets)
    (of_sources : (l : List EventSourceIdentifier) (x : EventSourceIdentifier)
      → count x (set.of_sources l) ≡ bit (member x l))
    (m : SubscriptionMap) where
  given-eligible_change :
      (x : EventSourceIdentifier) (removed : List EventSourceIdentifier) (group : String)
      (s : EventSubscriberState) (new : List EventSourceIdentifier)
      → given x (eligible_change set m removed group s new)
        ≡ bit (holds x m s && not (contains x removed)) + count x new
  unfolding eligible_change
  given-eligible_change x removed group s new = elim (Option-cases (lookup (state_key s) m)) [
    | inl e ↦
        rw (e, eligible_change)
          (omega (
            arith,
            ap (λ o. bit (of_found (λ s. contains x s.event_sources) o && not (contains x removed)))
                e,
          ))
    | inr (subscription, e) ↦
        rw (e, eligible_change)
          (let kept =
              of_sources (minus subscription.event_sources removed) x
              ∙ ap bit (contains-minus x subscription.event_sources removed) in
            omega (
              arith,
              kept,
              sum-append (λ y. bit (y == x))
                  (set.of_sources (minus subscription.event_sources removed)) new,
              ap
                  (λ o.
                    bit (of_found (λ s. contains x s.event_sources) o && not (contains x removed)))
                  e,
            ))
  ]

  -- The chunks from an index on are given with what is kept.
  given-eligible_changes :
      (removed : List EventSourceIdentifier) (group : String) (values : List EventSourceIdentifier)
      (n index : ℕ) (l : List EventSubscriberState)
      → index + length l ≤ n
      → (changes : List EventSubscriptionStateChange) × (eligible_changes set m removed group
            (chunk values n)
            index
            l
          ≡ ok changes)
        × ((x : EventSourceIdentifier)
            → sum (given x) changes
              ≡ sum (λ s. bit (holds x m s && not (contains x removed))) l
                + spread x values n index (length l))
  unfolding eligible_changes
  given-eligible_changes removed group values n index [] h = ([], refl, λ x. omega arith)
  given-eligible_changes removed group values n index (s ∷ l) h =
      let (rest, same, sums) =
        given-eligible_changes removed group values n (suc index) l (omega arith) in
      (
        eligible_change set m removed group s (stride index n values) ∷ rest,
        (rw (chunk_at-chunk values n index (omega arith), same) refl),
        λ x.
            let this = given-eligible_change x removed group s (stride index n values) in
            omega (arith, sums x, this),
      )

  length-any :
      (p : EventSubscriberState → Bool) (l : List EventSubscriberState)
      → any p l ≡ true
      → (k : ℕ) × (length l ≡ suc k)
  length-any p [] h = ground arith
  length-any p (s ∷ l) h = (length l, refl)

  -- The eligible subscribers, at least one, are given what they keep and all that is new.
  pub given-eligible :
      (removed : List EventSourceIdentifier) (group : String) (values : List EventSourceIdentifier)
      (p : EventSubscriberState → Bool) (l : List EventSubscriberState)
      → any p l ≡ true
      → (changes : List EventSubscriptionStateChange) × (eligible_changes set m removed group
            (chunk values (length l))
            0
            l
          ≡ ok changes)
        × ((x : EventSourceIdentifier)
            → sum (given x) changes
              ≡ sum (λ s. bit (holds x m s && not (contains x removed))) l + count x values)
  given-eligible removed group values p l h =
      let (changes, same, sums) =
        given-eligible_changes removed group values (length l) 0 l (omega arith) in
      let (k, some_there) = length-any p l h in
      (
        changes,
        same,
        λ x.
            let all_dealt : spread x values (length l) 0 (length l) ≡ count x values =
              subst (λ n. spread x values n 0 n ≡ count x values) (sym some_there)
                (spread-all x values k) in
            omega (arith, sums x, all_dealt),
      )
