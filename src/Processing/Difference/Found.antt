-- ===== src/Processing/Difference/Found.antt =====
-- Questions to a list of subscriptions or of changes, as questions to the one subscription with a
-- key.
use event_store.Prelude.{
  ◌≡◌, refl, ap, sym, ◌∙◌, subst, Bool, true, false, ◌&&◌, ◌||◌, not, Option, none, some, List, [],
  ◌∷◌, ◌++◌, map, any, select, ◌==◌, if◌then◌else◌, Dict, lookup, assign, lookup-assign, All, arith,
  Bool-cases, Option-cases, inl, inr,
}
use event_store.Types.Identifier.{EventSourceIdentifier, identifier_eq}
use event_store.Processing.Subscriptions.{EventSubscriptionKey, key_eq, EventSubscriptionState, key}
use event_store.Processing.Difference.{
  EventSubscriptionChange, change_key, contains, minus, map_from, is_in, sources_in, changes,
}

-- Does a change for the key and the source stand among the changes?
abbrev pub is_changed :
    EventSubscriptionKey → EventSourceIdentifier → List EventSubscriptionChange → Bool
is_changed k source cs = any (λ c. change_key c == k && c.event_source == source) cs

-- Does the subscription of the key have the source?
abbrev pub has_source :
    EventSubscriptionKey → EventSourceIdentifier → List EventSubscriptionState → Bool
has_source k source l = any (λ s. key s == k && contains source s.event_sources) l

-- No two subscriptions have the same key.
abbrev pub HasDistinctKeys : List EventSubscriptionState → Type 0
HasDistinctKeys [] = Unit
HasDistinctKeys (s ∷ l) = All (λ t. (key s == key t) ≡ false) l × HasDistinctKeys l

pub any-append {ℓ} :
    {A : Type ℓ} (p : A → Bool) (xs ys : List A) → any p (xs ++ ys) ≡ (any p xs || any p ys)
any-append p [] ys = refl
any-append p (x ∷ xs) ys = ground (arith, any-append p xs ys)

any-select {ℓ} :
    {A : Type ℓ} (p q : A → Bool) (xs : List A) → any p (select q xs) ≡ any (λ x. q x && p x) xs
any-select p q [] = refl
any-select p q (x ∷ xs) = elim (Bool-cases (q x)) [
  | inl h ↦ rw (h, any-select p q xs) refl
  | inr h ↦ rw (h, any-select p q xs) refl
]

any-cong {ℓ} :
    {A : Type ℓ} (p q : A → Bool) (xs : List A) → ((x : A) → p x ≡ q x) → any p xs ≡ any q xs
any-cong p q [] h = refl
any-cong p q (x ∷ xs) h = rw (h x, any-cong p q xs h) refl

is_changed-map :
    (k : EventSubscriptionKey) (source : EventSourceIdentifier) (s : EventSubscriptionState)
    (xs : List EventSourceIdentifier)
    → is_changed k source (map (λ x. record { group = s.group; id = s.id; event_source = x }) xs)
      ≡ (key s == k && contains source xs)
unfolding key
is_changed-map k source s [] = ground arith
is_changed-map k source s (x ∷ xs) = ground (arith, is_changed-map k source s xs)

is_changed-changes :
    (k : EventSubscriptionKey) (source : EventSourceIdentifier)
    (sources : EventSubscriptionState → List EventSourceIdentifier)
    (l : List EventSubscriptionState)
    → is_changed k source (changes sources l)
      ≡ any (λ s. key s == k && contains source (sources s)) l
unfolding changes
is_changed-changes k source sources [] = refl
is_changed-changes k source sources (s ∷ l) =
    any-append _ (map _ (sources s)) (changes sources l)
    ∙ (rw (is_changed-map k source s (sources s), is_changed-changes k source sources l) refl)

-- Taking out a source leaves the others.
pub contains-minus :
    (x : EventSourceIdentifier) (xs ys : List EventSourceIdentifier)
    → contains x (minus xs ys) ≡ (contains x xs && not (contains x ys))
unfolding minus
contains-minus x [] ys = refl
contains-minus x (y ∷ xs) ys =
    let same : (y == x) ≡ true → contains x ys ≡ contains y ys =
      λ e. ap (λ z. contains z ys) (sym ((identifier_eq.test_iff y x).0 e)) in
    let rest = contains-minus x xs ys in
    elim (Bool-cases (contains y ys)) [
      | inl c ↦ rw c (ground (arith, c, rest, same))
      | inr c ↦ rw c (ground (arith, c, rest, same))
    ]

-- The subscription with a key.
unfoldable pub found :
    EventSubscriptionKey → List EventSubscriptionState → Option EventSubscriptionState
found k [] = none
found k (s ∷ l) = if key s == k then some s else found k l

pub found-key :
    (k : EventSubscriptionKey) (l : List EventSubscriptionState) (s : EventSubscriptionState)
    → found k l ≡ some s
    → key s ≡ k
unfolding found
found-key k [] s h = ground (arith, h)
found-key k (t ∷ l) s h = elim (Bool-cases (key t == k)) [
  | inl q ↦
      let here : some t ≡ some s = ground (arith, q, h) in
      let at_k = (key_eq.test_iff (key t) k).0 q in ground (arith, here, at_k)
  | inr q ↦ found-key k l s (ground (arith, q, h))
]

found-absent :
    (k : EventSubscriptionKey) (l : List EventSubscriptionState)
    → All (λ t. (k == key t) ≡ false) l
    → found k l ≡ none
unfolding found
found-absent k [] h = refl
found-absent k (t ∷ l) h =
    ground (arith, h.0, key_eq.test_iff k (key t), key_eq.test_iff (key t) k, found-absent k l h.1)

abbrev pub of_found : (EventSubscriptionState → Bool) → Option EventSubscriptionState → Bool
of_found g none = false
of_found g (some s) = g s

-- A question to the subscriptions with a key is one to the subscription that is found.
pub any-found :
    (k : EventSubscriptionKey) (g : EventSubscriptionState → Bool) (l : List EventSubscriptionState)
    → HasDistinctKeys l
    → any (λ s. key s == k && g s) l ≡ of_found g (found k l)
unfolding found
any-found k g [] d = refl
any-found k g (s ∷ l) d = elim (Bool-cases (key s == k)) [
  | inl h ↦
      let absent =
        found-absent k l
          (subst (λ j. All (λ t. (j == key t) ≡ false) l) ((key_eq.test_iff (key s) k).0 h) d.0) in
      let rest = any-found k g l d.1 in ground (arith, h, rest, absent)
  | inr h ↦ rw (h, any-found k g l d.1) refl
]

abbrev or_else :
    Option EventSubscriptionState → Option EventSubscriptionState → Option EventSubscriptionState
or_else none y = y
or_else (some x) y = some x

lookup-map_from :
    (k : EventSubscriptionKey) (l : List EventSubscriptionState)
    (d : Dict EventSubscriptionKey EventSubscriptionState)
    → HasDistinctKeys l
    → lookup k (map_from l d) ≡ or_else (found k l) (lookup k d)
unfolding map_from found
lookup-map_from k [] d h = refl
lookup-map_from k (s ∷ l) d h =
    lookup-map_from k l (assign (key s) s d) h.1 ∙ elim (Bool-cases (key s == k)) [
      | inl q ↦
          let absent = found-absent k l (
            subst (λ j. All (λ t. (j == key t) ≡ false) l) ((key_eq.test_iff (key s) k).0 q) h.0) in
          rw (absent, lookup-assign (key s) s d k, q) refl
      | inr q ↦ rw (lookup-assign (key s) s d k, q) refl
    ]

-- The answers of the code about a key, in terms of the subscription that is found.
abbrev pub is_some : Option EventSubscriptionState → Bool
is_some none = false
is_some (some s) = true

abbrev pub sources_of : Option EventSubscriptionState → List EventSourceIdentifier
sources_of none = []
sources_of (some s) = s.event_sources

or_else-none : (o : Option EventSubscriptionState) → or_else o none ≡ o
or_else-none none = refl
or_else-none (some x) = refl

pub lookup-found :
    (k : EventSubscriptionKey) (l : List EventSubscriptionState) (s : EventSubscriptionState)
    → HasDistinctKeys l
    → key s ≡ k
    → lookup (key s) (map_from l []) ≡ found k l
lookup-found k l s h same =
    ap (λ j. lookup j (map_from l [])) same ∙ lookup-map_from k l [] h ∙ or_else-none (found k l)

pub is_in-eq :
    (d : Dict EventSubscriptionKey EventSubscriptionState) (s : EventSubscriptionState)
    → is_in d s ≡ is_some (lookup (key s) d)
unfolding is_in
is_in-eq d s = elim (Option-cases (lookup (key s) d)) [
  | inl q ↦ rw (q, is_in) refl
  | inr (x, q) ↦ rw (q, is_in) refl
]

pub sources_in-eq :
    (d : Dict EventSubscriptionKey EventSubscriptionState) (s : EventSubscriptionState)
    → sources_in d s ≡ sources_of (lookup (key s) d)
unfolding sources_in
sources_in-eq d s = elim (Option-cases (lookup (key s) d)) [
  | inl q ↦ rw (q, sources_in) refl
  | inr (x, q) ↦ rw (q, sources_in) refl
]

and_swap : (a b c : Bool) → (a && (b && c)) ≡ (b && (a && c))
and_swap a b c = ground arith

-- The changes that a loop over some of the subscriptions makes for a key.
pub is_changed-found :
    (k : EventSubscriptionKey) (source : EventSourceIdentifier) (q : EventSubscriptionState → Bool)
    (sources : EventSubscriptionState → List EventSourceIdentifier)
    (l : List EventSubscriptionState)
    → HasDistinctKeys l
    → is_changed k source (changes sources (select q l))
      ≡ of_found (λ s. q s && contains source (sources s)) (found k l)
is_changed-found k source q sources l d =
    is_changed-changes k source sources (select q l)
    ∙ any-select _ q l
    ∙ any-cong _ _ l (λ s. and_swap (q s) (key s == k) (contains source (sources s)))
    ∙ any-found k (λ s. q s && contains source (sources s)) l d
