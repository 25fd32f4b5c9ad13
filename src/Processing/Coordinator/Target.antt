-- ===== src/Processing/Coordinator/Target.antt =====
-- The target of a group: one of its subscribers' requests, and none of them is longer.
use event_store.Prelude.{
  ◌≤◌, ◌≡◌, refl, sym, ap, subst, ◌∙◌, true, ◌||◌, List, [], ◌∷◌, map, any, length, leb, All,
  All-map, arith, HasEquality, ◌==◌, list_eq, ok, Bool-cases, inl, inr, bit, count, member,
  member-All, any-sum, beq_refl,
}
use event_store.Types.Identifier.{EventSourceIdentifier, identifier_eq}
use event_store.Processing.Subscribers.{EventSubscriberState}
use event_store.Processing.Coordinator.{insert_by_count, sorted_by_count, next, is_eligible, Sets}
use event_store.Processing.Coordinator.Groups.{state_eq}

abbrev Requests : Type 0
Requests = List EventSourceIdentifier

requests_eq : HasEquality Requests
requests_eq = list_eq

member-insert_by_count :
    (x y : Requests) (l : List Requests) → member x (insert_by_count y l) ≡ (y == x || member x l)
unfolding insert_by_count
member-insert_by_count x y [] = refl
member-insert_by_count x y (z ∷ l) = elim (Bool-cases (leb (length z) (length y))) [
  | inl e ↦ rw e refl
  | inr e ↦ rw e (ground (arith, member-insert_by_count x y l))
]

member-sorted_by_count :
    (x : Requests) (l : List Requests) → member x (sorted_by_count l) ≡ member x l
unfolding sorted_by_count
member-sorted_by_count x [] = refl
member-sorted_by_count x (y ∷ l) =
    member-insert_by_count x y (sorted_by_count l)
    ∙ ap (λ b. y == x || b) (member-sorted_by_count x l)

-- The first list of a sorted one is not shorter than any of those that it is made from.
abbrev Heads : List Requests → List Requests → Type 0
Heads [] l = l ≡ []
Heads (t ∷ sorted) l = All (λ x. length x ≤ length t) l

insert_by_count-Heads :
    (y : Requests) (sorted l : List Requests)
    → Heads sorted l
    → Heads (insert_by_count y sorted) (y ∷ l)
unfolding insert_by_count
insert_by_count-Heads y [] l h =
    subst (λ l. All (λ x. length x ≤ length y) (y ∷ l)) (sym h) (omega arith, tt)
insert_by_count-Heads y (t ∷ sorted) l h = elim (Bool-cases (leb (length t) (length y))) [
  | inl e ↦ rw e (omega arith, All-map (λ x le. ground (arith, le, e)) l h)
  | inr e ↦ rw e (ground (arith, e), h)
]

sorted_by_count-Heads : (l : List Requests) → Heads (sorted_by_count l) l
unfolding sorted_by_count
sorted_by_count-Heads [] = refl
sorted_by_count-Heads (y ∷ l) =
    insert_by_count-Heads y (sorted_by_count l) l (sorted_by_count-Heads l)

-- What `next` takes of the sorted requests.
abbrev IsTarget : List Requests → List Requests → Requests → Type 0
IsTarget sorted l target =
    (next sorted ≡ ok target) × (member target l ≡ true) × All (λ x. length x ≤ length target) l

next-IsTarget :
    (sorted l : List Requests)
    → ((x : Requests) → member x sorted ≡ member x l)
    → Heads sorted l
    → (x : Requests) → member x l ≡ true
    → (target : Requests) × IsTarget sorted l target
unfolding next
next-IsTarget [] l same h x there = ground (arith, same x, there)
next-IsTarget (t ∷ sorted) l same h x there = (t, (refl, ground (arith, same t, beq_refl t), h))

member-requests :
    (target : Requests) (l : List EventSubscriberState)
    → member target (map (λ s. s.subscription_requests) l) ≡ any (is_eligible target) l
unfolding is_eligible
member-requests target [] = refl
member-requests target (s ∷ l) =
    ap (λ b. s.subscription_requests == target || b) (member-requests target l)

requests-member :
    (s : EventSubscriberState) (l : List EventSubscriberState)
    → member s l ≡ true
    → member s.subscription_requests (map (λ s. s.subscription_requests) l) ≡ true
requests-member s [] h = ground arith
requests-member s (t ∷ l) h = elim (Bool-cases (t == s)) [
  | inl e ↦
      let same =
        (requests_eq.test_iff t.subscription_requests s.subscription_requests).1
          (ap (λ u. u.subscription_requests) ((state_eq.test_iff t s).0 e)) in
      ground (arith, same)
  | inr e ↦ ground (arith, requests-member s l (ground (arith, h, e)))
]

-- The first of the sorted set of requests is a request of the group, and none is longer.
pub target-IsLongest :
    (set : Sets)
    (of_requests : (l : List Requests) (x : Requests)
      → count x (set.of_requests l) ≡ bit (member x l))
    (l : List EventSubscriberState) (s : EventSubscriberState)
    → member s l ≡ true
    → (target : Requests) × (next
          (sorted_by_count (set.of_requests (map (λ s. s.subscription_requests) l)))
        ≡ ok target)
      × (any (is_eligible target) l ≡ true)
      × ((u : EventSubscriberState)
          → member u l ≡ true
          → length u.subscription_requests ≤ length target)
target-IsLongest set of_requests l s there =
    let requests = map (λ s. s.subscription_requests) l in
    let in_set : (x : Requests) → member x (set.of_requests requests) ≡ member x requests = λ x.
      ground (arith, any-sum (λ y. y == x) (set.of_requests requests), of_requests requests x) in
    let (target, (taken, one, longest)) =
      next-IsTarget (sorted_by_count (set.of_requests requests)) (set.of_requests requests)
        (λ x. member-sorted_by_count x (set.of_requests requests))
        (sorted_by_count-Heads (set.of_requests requests)) s.subscription_requests
        (in_set _ ∙ requests-member s l there) in
    (
      target,
      taken,
      sym (member-requests target l) ∙ sym (in_set target) ∙ one,
      λ u mem.
          member-All (λ x. length x ≤ length target) u.subscription_requests
            (set.of_requests requests) longest (in_set _ ∙ requests-member u l mem),
    )
